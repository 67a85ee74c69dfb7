-- ===== src/Generate/Gengraph/Sortable.antt =====
-- A5/gengraph.c and A5/boss.c: the graph that is read has a topological order.
use os_lab_sp.Prelude.{
  ℕ, zero, suc, ◌+◌, ◌*◌, ◌<◌, ◌≤◌, ◌≡◌, refl, Bool, true, false, List, [], ◌∷◌, ◌++◌, some,
  get_elem?, length, arith, ap, sym, ◌∙◌, ℕ_discrete, inl, inr, dec_lt, ◌⊎◌,
}
use os_lab_sp.Generate.{shuffled}
use os_lab_sp.Generate.Shuffle.{IsShuffle, shuffled-IsShuffle}
use os_lab_sp.Generate.Gengraph.{Matrix, gengraph, row_text, graph_text, is_one, read_edge}
use os_lab_sp.Generate.Gengraph.Filling.{Filled, fill-Filled}
use os_lab_sp.Sorting.{check_from}
use os_lab_sp.Sorting.Check.{check_from_iff}

get_elem?-append : (s t : List ℕ) (i : ℕ) → get_elem? (s ++ t) (length s + i) ≡ get_elem? t i
get_elem?-append [] t i = let e : 0 + i ≡ i = omega arith in ap (get_elem? t) e
get_elem?-append (x ∷ s) t i =
    let e : suc (length s) + i ≡ suc (length s + i) = omega arith in
    ap (get_elem? (x ∷ s ++ t)) e ∙ get_elem?-append s t i

get_elem?-first : (s t : List ℕ) (i : ℕ) → i < length s → get_elem? (s ++ t) i ≡ get_elem? s i
get_elem?-first [] t i h = absurd (omega (arith, h))
get_elem?-first (x ∷ s) t zero h = refl
get_elem?-first (x ∷ s) t (suc i) h = get_elem?-first s t i (omega (arith, h))

length-row_text : (k i j : ℕ) (m : Matrix) → length (row_text k i j m) ≡ k
unfolding row_text
length-row_text zero i j m = refl
length-row_text (suc k) i j m = ap suc (length-row_text k i (j + 1) m)

get_elem?-row_text :
    (k i j c : ℕ) (m : Matrix) → c < k → get_elem? (row_text k i j m) c ≡ some (m i (j + c))
unfolding row_text
get_elem?-row_text zero i j c m h = absurd (omega (arith, h))
get_elem?-row_text (suc k) i j zero m h = ap (λ x. some (m i x)) (omega arith)
get_elem?-row_text (suc k) i j (suc c) m h =
    get_elem?-row_text k i (j + 1) c m (omega (arith, h)) ∙ ap (λ x. some (m i x)) (omega arith)

next_row_at : (n r c : ℕ) → suc r * n + c ≡ n + (r * n + c)
next_row_at n r c = omega arith

-- The cell of a row and a column.
get_elem?-graph_text :
    (n k i r c : ℕ) (m : Matrix)
    → r < k
    → c < n
    → get_elem? (graph_text n k i m) (r * n + c) ≡ some (m (i + r) c)
unfolding graph_text
get_elem?-graph_text n zero i r c m hr hc = absurd (omega (arith, hr))
get_elem?-graph_text n (suc k) i zero c m hr hc =
    let size = length-row_text n i 0 m in
    let start : 0 * n + c ≡ c = omega arith in
    let row : i ≡ i + 0 = omega arith in
    let column : 0 + c ≡ c = omega arith in
    ap (get_elem? (row_text n i 0 m ++ graph_text n k (i + 1) m)) start
    ∙ get_elem?-first (row_text n i 0 m) (graph_text n k (i + 1) m) c (omega (arith, size, hc))
    ∙ get_elem?-row_text n i 0 c m hc
    ∙ ap (λ y. some (m i y)) column
    ∙ ap (λ x. some (m x c)) row
get_elem?-graph_text n (suc k) i (suc r) c m hr hc =
    let size = length-row_text n i 0 m in
    ap (get_elem? (row_text n i 0 m ++ graph_text n k (i + 1) m))
      (next_row_at n r c ∙ ap (λ x. x + (r * n + c)) (sym size))
    ∙ get_elem?-append (row_text n i 0 m) (graph_text n k (i + 1) m) (r * n + c)
    ∙ get_elem?-graph_text n k (i + 1) r c m (omega (arith, hr)) hc
    ∙ ap (λ x. some (m x c)) (omega arith)

-- Every cell is 0 or 1, whatever the memory held before.
module _ (n : ℕ) (perm : ℕ → ℕ) (coin : ℕ → ℕ → Bool) (m : Matrix) (v : IsShuffle n perm)
    (f : Filled n perm coin v n 0 n m) where
  cell-le : (a b : ℕ) → a < n → b < n → m a b ≤ 1
  cell-le a b ha hb =
      let (i, hi, ei) = v.place_of a ha in
      let (j, hj, ej) = v.place_of b hb in
      let bound : m (perm i) (perm j) ≤ 1 = elim (ℕ_discrete i j) [
        | yes same ↦
            let here = f.diagonal (perm i) (v.inside i hi) in
            let at : m (perm i) (perm j) ≡ m (perm i) (perm i) =
              ap (λ y. m (perm i) (perm y)) (sym same) in
            omega (arith, here, at)
        | no other ↦ elim (dec_lt i j) [
          | yes lt ↦ let here = f.forward i j lt hj (inl hi) in ground (arith, here)
          | no ge ↦
              let here = f.back j i (omega (arith, other, ge)) hi (inl hj) in omega (arith, here)
        ]
      ] in
      let first : m (perm i) (perm j) ≡ m a (perm j) = ap (λ x. m x (perm j)) ei in
      let second : m a (perm j) ≡ m a b = ap (m a) ej in omega (arith, bound, first, second)

  -- No edge of the graph that is read leads back.
  no_edge_back :
      (a c : ℕ) → a < c → c < n → read_edge n (graph_text n n 0 m) (perm c) (perm a) ≡ false
  unfolding read_edge
  no_edge_back a c ha hc =
      let cell =
        get_elem?-graph_text n n 0 (perm c) (perm a) m (v.inside c hc)
          (v.inside a (omega (arith, ha, hc))) in
      let row : m (0 + perm c) (perm a) ≡ m (perm c) (perm a) =
        let e : 0 + perm c ≡ perm c = omega arith in ap (λ x. m x (perm a)) e in
      ap is_one (cell ∙ ap some (row ∙ f.back a c ha hc (inl (omega (arith, ha, hc)))))

  sorted_check : check_from n (read_edge n (graph_text n n 0 m)) n perm 0 ≡ true
  sorted_check =
      (check_from_iff n (read_edge n (graph_text n n 0 m)) perm n 0 (omega arith)).1
        (λ a c lo ha hc.
          let edge = no_edge_back a c ha hc in
          let apart = v.once a c (omega (arith, ha, hc)) hc in ground (arith, edge, apart, ha))

-- Whatever the values of rand() and the memory before: each cell that the generator writes is 0 or 1, and the
-- order of PERM, in which each vertex stands, passes the check of the boss on the graph that is read from
-- the text.
pub gengraph_sortable :
    (rand : ℕ → ℕ) (coin : ℕ → ℕ → Bool) (garbage : Matrix) (n : ℕ)
    → ((a b : ℕ) → a < n → b < n → gengraph rand coin garbage n a b ≤ 1)
      × ((i : ℕ) → i < n → (a : ℕ) × (a < n) × (shuffled rand n n a ≡ i))
      × (check_from n
            (read_edge n (graph_text n n 0 (gengraph rand coin garbage n)))
            n
            (shuffled rand n n)
            0
          ≡ true)
unfolding gengraph
gengraph_sortable rand coin garbage n =
    let perm = shuffled rand n n in
    let v = shuffled-IsShuffle rand n n (omega arith) in
    let f = fill-Filled n perm coin v n 0 garbage (omega arith) record {
      forward = λ a c ha hc done. absurd (nothing_done a c done);
      back = λ a c ha hc done. absurd (nothing_done a c done);
      diagonal = λ a ha. absurd (omega (arith, ha));
    } in
    let m = gengraph rand coin garbage n in
    (cell-le n perm coin m v f, v.place_of, sorted_check n perm coin m v f)
  where
    nothing_done : (a c : ℕ) → (a < 0) ⊎ ((a ≡ 0) × (c < 0)) → ⊥
    nothing_done a c (inl h) = omega (arith, h)
    nothing_done a c (inr (e, h)) = omega (arith, h)
