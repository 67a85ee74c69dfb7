-- ===== src/Generate/Gengraph/Filling.antt =====
-- A5/gengraph.c: what the loops write into the array.
use os_lab_sp.Prelude.{
  ℕ, zero, suc, ◌+◌, ◌-◌, ◌<◌, ◌≡◌, Bool, ◌==◌, ◌&&◌, if◌then◌else◌, arith, sym, subst, ℕ_discrete,
  Bool-cases, inl, inr, ◌⊎◌,
}
use os_lab_sp.Generate.Shuffle.{IsShuffle}
use os_lab_sp.Generate.Gengraph.{Matrix, store, fill_row, fill}

module _ (n : ℕ) (perm : ℕ → ℕ) (coin : ℕ → ℕ → Bool) (v : IsShuffle n perm) where
  -- The cells that were written: those of the rows before `i`, and in row `i` those before `j`.
  abbrev pub Done : ℕ → ℕ → ℕ → ℕ → Type 0
  Done i j a c = (a < i) ⊎ ((a ≡ i) × (c < j))

  pub record Filled (i j d : ℕ) (m : Matrix) : Type 0 where
    pub forward :
        (a c : ℕ) → a < c → c < n → Done i j a c → m (perm a) (perm c) ≡ (if coin a c then 1 else 0)
    pub back : (a c : ℕ) → a < c → c < n → Done i j a c → m (perm c) (perm a) ≡ 0
    pub diagonal : (a : ℕ) → a < d → m a a ≡ 0

  pub same_place : (a b : ℕ) → a < n → b < n → (perm a == perm b) ≡ (a == b)
  same_place a b ha hb = let once = v.once a b ha hb in ground (arith, once)

  -- The cells that are done after one more pair.
  Done-next : (i j a c : ℕ) → Done i (j + 1) a c → Done i j a c ⊎ ((a ≡ i) × (c ≡ j))
  Done-next i j a c (inl h) = inl (inl h)
  Done-next i j a c (inr (e, h)) = elim (ℕ_discrete c j) [
    | yes f ↦ inr (e, f)
    | no f ↦ inl (inr (e, omega (arith, h, f)))
  ]

  module _ (i j d : ℕ) (m : Matrix) (hi : i < j) (hj : j < n) (f : Filled i j d m) where
    abbrev paired : Matrix
    paired = store (perm j) (perm i) 0 (store (perm i) (perm j) (if coin i j then 1 else 0) m)

    paired_forward :
        (a c : ℕ)
        → a < c
        → c < n
        → Done i j a c ⊎ ((a ≡ i) × (c ≡ j))
        → paired (perm a) (perm c) ≡ (if coin a c then 1 else 0)
    paired_forward a c ha hc (inl old) =
        let same = f.forward a c ha hc old in
        let aj = same_place a j (omega (arith, ha, hc)) hj in
        let ci = same_place c i hc (omega (arith, hi, hj)) in
        let ai = same_place a i (omega (arith, ha, hc)) (omega (arith, hi, hj)) in
        let cj = same_place c j hc hj in
        elim (Bool-cases ((a == i) && (c == j))) [
          | inl both ↦ absurd (ground (arith, both, old))
          | inr apart ↦ rw (aj, ci, ai, cj) (ground (arith, apart, same, ha, hi))
        ]
    paired_forward a c ha hc (inr (e, g)) =
        let ij = same_place i j (omega (arith, hi, hj)) hj in
        let value : paired (perm i) (perm j) ≡ (if coin i j then 1 else 0) =
          ground (arith, ij, hi) in
        subst (λ x. paired (perm x) (perm c) ≡ (if coin x c then 1 else 0)) (sym e)
          (subst (λ y. paired (perm i) (perm y) ≡ (if coin i y then 1 else 0)) (sym g) value)

    paired_back :
        (a c : ℕ)
        → a < c
        → c < n
        → Done i j a c ⊎ ((a ≡ i) × (c ≡ j))
        → paired (perm c) (perm a) ≡ 0
    paired_back a c ha hc (inl old) =
        let same = f.back a c ha hc old in
        let ai = same_place a i (omega (arith, ha, hc)) (omega (arith, hi, hj)) in
        let aj = same_place a j (omega (arith, ha, hc)) hj in
        let ci = same_place c i hc (omega (arith, hi, hj)) in
        let cj = same_place c j hc hj in rw (cj, ai, ci, aj) (ground (arith, same, ha, hi))
    paired_back a c ha hc (inr (e, g)) =
        let value : paired (perm j) (perm i) ≡ 0 = ground arith in
        subst (λ x. paired (perm c) (perm x) ≡ 0) (sym e)
          (subst (λ y. paired (perm y) (perm i) ≡ 0) (sym g) value)

    paired-Filled : Filled i (j + 1) d paired
    paired-Filled = record {
      forward = λ a c ha hc done. paired_forward a c ha hc (Done-next i j a c done);
      back = λ a c ha hc done. paired_back a c ha hc (Done-next i j a c done);
      diagonal = λ a ha.
          let apart = v.once i j (omega (arith, hi, hj)) hj in
          ground (arith, f.diagonal a ha, apart, hi);
    }

  fill_row-Filled :
      (k i j d : ℕ) (m : Matrix)
      → i < j
      → j + k ≡ n
      → Filled i j d m
      → Filled i n d (fill_row n perm coin k i j m)
  unfolding fill_row
  fill_row-Filled zero i j d m hi hk f =
      let last : j ≡ n = omega (arith, hk) in subst (λ y. Filled i y d m) last f
  fill_row-Filled (suc k) i j d m hi hk f =
      fill_row-Filled k i (j + 1) d _ (omega (arith, hi)) (omega (arith, hk))
        (paired-Filled i j d m hi (omega (arith, hk)) f)

  -- The cell on the diagonal, and the next row.
  diagonal-Filled :
      (i : ℕ) (m : Matrix) → i < n → Filled i 0 i m → Filled i (i + 1) (i + 1) (store i i 0 m)
  diagonal-Filled i m hi f = record {
    forward = λ a c ha hc done.
        let apart = same_place a c (omega (arith, ha, hc)) hc in
        let same = f.forward a c ha hc (row a c ha done) in ground (arith, apart, same, ha);
    back = λ a c ha hc done.
        let apart = same_place a c (omega (arith, ha, hc)) hc in
        let same = f.back a c ha hc (row a c ha done) in ground (arith, apart, same, ha);
    diagonal = λ a ha. ground (arith, f.diagonal a, ha);
  }
    where
      row : (a c : ℕ) → a < c → Done i (i + 1) a c → Done i 0 a c
      row a c ha (inl h) = inl h
      row a c ha (inr (e, h)) = absurd (omega (arith, ha, e, h))

  next_row : (i : ℕ) (m : Matrix) → Filled i n (i + 1) m → Filled (i + 1) 0 (i + 1) m
  next_row i m f = record {
    forward = λ a c ha hc done. f.forward a c ha hc (row a c hc done);
    back = λ a c ha hc done. f.back a c ha hc (row a c hc done);
    diagonal = f.diagonal;
  }
    where
      row : (a c : ℕ) → c < n → Done (i + 1) 0 a c → Done i n a c
      row a c hc (inl h) = elim (ℕ_discrete a i) [
        | yes e ↦ inr (e, hc)
        | no e ↦ inl (omega (arith, h, e))
      ]
      row a c hc (inr (e, h)) = absurd (omega (arith, h))

  pub fill-Filled :
      (k i : ℕ) (m : Matrix) → i + k ≡ n → Filled i 0 i m → Filled n 0 n (fill n perm coin k i m)
  unfolding fill
  fill-Filled zero i m h f =
      let last : i ≡ n = omega (arith, h) in subst (λ y. Filled y 0 y m) last f
  fill-Filled (suc k) i m h f = fill-Filled k (i + 1) _ (omega (arith, h)) (
      next_row i _ (
        fill_row-Filled (n - (i + 1)) i (i + 1) (i + 1) (store i i 0 m) (omega arith)
          (omega (arith, h)) (diagonal-Filled i m (omega (arith, h)) f)))
