-- ===== src/Paging/Master/Allocation.antt =====
-- A8/master.c: the memory that the MMU starts from is well formed.
use Prim.Native.Nat.{min}
use native.Mathlib.Nat.{zero-add}
use os_lab_sp.Prelude.{
  false, ◌==◌, ◌&&◌, ltb, if◌then◌else◌, some, ◌>>=◌, subst, ℕ, zero, suc, ◌+◌, ◌-◌, ◌*◌, ◌/◌, ◌<◌,
  ◌≤◌, true, none, arith, leb, ◌≡◌, refl, inl, inr, ◌⊎◌, ap, sym, ◌∙◌, Bool-cases, ℕ_discrete,
}
use os_lab_sp.Paging.{Memory}
use os_lab_sp.Paging.Owned.{frame_of, IsOwned}
use os_lab_sp.Paging.Release.{Kept, Kept-frames, Kept-trans}
use os_lab_sp.Paging.Lru.{IsResident}
use os_lab_sp.Paging.Master.{blank, set_up, allocate, grant, grant_pages, grant_all, start}
use os_lab_sp.Paging.Master.Limits.{grant_all-beyond}
use os_lab_sp.Paging.Master.Shares.{sizes, shares, sum_sizes-eq, shares-le}

-- The frames from `fn` on are free, and the entries from `j` of `p` on have no frame.
record IsUngranted (p j fn : ℕ) (s : Memory) : Type 0 where
  owned : IsOwned s
  unused : (l : ℕ) → fn ≤ l → s.free l ≡ true
  rest : (l : ℕ) → j ≤ l → frame_of s.pt p l ≡ none
  later : (q l : ℕ) → p < q → frame_of s.pt q l ≡ none

module _ (p j fn : ℕ) (s : Memory) (v : IsUngranted p j fn s) where
  open v use {owned}

  grant-IsUngranted :
      p < s.k → j < (s.table p).m_i → fn < s.f → IsUngranted p (j + 1) (fn + 1) (grant p j fn s)
  unfolding grant
  grant-IsUngranted hp hj hf = record {
    owned = record {
      below = λ q l g h. ground (arith, owned.below q l g);
      unique = λ q l q' l' g h h'.
          ground
            (arith, owned.below q l g, owned.below q' l' g, owned.unique q l q' l' g, v.unused fn);
      valid = λ q l. ground (arith, owned.valid q l);
      covered = λ g hg h. elim (ℕ_discrete g fn) [
        | yes same ↦ (p, j, ground arith)
        | no other ↦
            let (q, l, e) = owned.covered g hg (ground arith) in (q, l, ground (arith, v.rest j))
      ];
    };
    unused = λ l h. ground (arith, v.unused l);
    rest = λ l h. ground (arith, v.rest l);
    later = λ q l h. ground (arith, v.later q l);
  }

-- What the loop over the pages of `p` leaves: at most `limit` frames used, and the pages from `j` to
-- `top` in frames.
record Granted (p j top limit : ℕ) (s : Memory) (r : ℕ × Memory) : Type 0 where
  owned : IsOwned r.1
  unused : (l : ℕ) → r.0 ≤ l → r.1.free l ≡ true
  later : (q l : ℕ) → p < q → frame_of r.1.pt q l ≡ none
  kept : Kept s r.1
  within : r.0 ≤ limit
  given : (l : ℕ) → j ≤ l → l < top → IsResident (r.1.pt p) l
  others : (q l : ℕ) → (q < p) ⊎ ((q ≡ p) × (l < j)) → r.1.pt q l ≡ s.pt q l

module _ (p j fn top limit : ℕ) (s : Memory) (r : ℕ × Memory) where
  Granted-cons : Granted p (j + 1) top limit (grant p j fn s) r → Granted p j top limit s r
  unfolding grant
  Granted-cons g = record {
    owned = g.owned;
    unused = g.unused;
    later = g.later;
    kept = Kept-trans s (grant p j fn s) r.1 (Kept-frames s _ _) g.kept;
    within = g.within;
    given = λ l a b. elim (ℕ_discrete l j) [
      | yes same ↦ λ e. ground (arith, g.others p j)
      | no other ↦ g.given l (omega arith) b
    ];
    others = λ q l h. ground (arith, g.others q l);
  }

grant_pages-Granted :
    (n j count quota p fn top limit : ℕ) (s : Memory)
    → p < s.k
    → j + n ≤ (s.table p).m_i
    → fn + (quota - count) ≤ limit
    → limit ≤ s.f
    → top ≤ j + n
    → top + count ≤ quota + j
    → IsUngranted p j fn s
    → Granted p j top limit s (grant_pages n j count quota p fn s)
unfolding grant_pages
grant_pages-Granted zero j count quota p fn top limit s hp hn hl hf ht hq v = record {
  owned = v.owned;
  unused = v.unused;
  later = v.later;
  kept = Kept-frames s s.pt s.free;
  within = omega arith;
  given = λ l a b. absurd (omega arith);
  others = λ q l h. refl;
}
grant_pages-Granted (suc n) j count quota p fn top limit s hp hn hl hf ht hq v =
    elim (Bool-cases (leb quota count)) [
      | inl full ↦ rw full (record {
        owned = v.owned;
        unused = v.unused;
        later = v.later;
        kept = Kept-frames s s.pt s.free;
        within = omega arith;
        given = λ l a b. absurd (ground arith);
        others = λ q l h. refl;
      })
      | inr more ↦
          let below : fn < s.f = ground arith in
          let t = grant p j fn s in
          let hp' : p < t.k = unfold grant in hp in
          let hn' : (j + 1) + n ≤ (t.table p).m_i = unfold grant in omega arith in
          let hf' : limit ≤ t.f = unfold grant in hf in
          rw more (
            Granted-cons p j fn top limit s _ (
              grant_pages-Granted n (j + 1) (count + 1) quota p (fn + 1) top limit t hp' hn'
                (ground arith) hf' (omega arith) (omega arith)
                (grant-IsUngranted p j fn s v hp (omega arith) below)))
    ]

-- The share of the process `q` among processes of the sizes `m`.
abbrev pub share : (ℕ → ℕ) → ℕ → ℕ → ℕ → ℕ
share m f c q = (m q * f) / c

abbrev pub size_of : Memory → ℕ → ℕ
size_of s q = (s.table q).m_i

-- What the loop over the processes from `i` up to `j`, of the sizes `m`, leaves.
record Allocated (i j c : ℕ) (m : ℕ → ℕ) (f : ℕ) (s t : Memory) : Type 0 where
  owned : IsOwned t
  kept : Kept s t
  given : (q l : ℕ) → i ≤ q → q < j → l < m q → l < share m f c q → IsResident (t.pt q) l
  others : (q l : ℕ) → q < i → t.pt q l ≡ s.pt q l

Allocated-cons :
    (i j c fn : ℕ) (s t : Memory) (r : ℕ × Memory)
    → Granted i 0 (min (size_of s i) (share (size_of s) s.f c i)) fn s r
    → Allocated (i + 1) j c (size_of s) s.f r.1 t
    → Allocated i j c (size_of s) s.f s t
Allocated-cons i j c fn s t r g a = record {
  owned = a.owned;
  kept = Kept-trans s r.1 t g.kept a.kept;
  given = λ q l x y z w. elim (ℕ_discrete i q) [
    | yes same ↦ first q l same (λ e.
        g.given l (omega arith) (bound q l same z w)
          (ap (λ x. x.frame) (sym (a.others i l (omega arith))) ∙ e))
    | no other ↦ a.given q l (omega arith) y z w
  ];
  others = λ q l h. a.others q l (omega arith) ∙ g.others q l (inl h);
}
  where
    first : (q l : ℕ) → i ≡ q → IsResident (t.pt i) l → IsResident (t.pt q) l
    first q l same h = rw (← same) h

    bound :
        (q l : ℕ)
        → i ≡ q
        → l < size_of s q
        → l < share (size_of s) s.f c q
        → l < min (size_of s i) (share (size_of s) s.f c i)
    bound q l same z w =
        let z' : l < size_of s i = rw same z in
        let w' : l < share (size_of s) s.f c i = rw same w in omega arith

grant_all-Allocated :
    (n i j c fn : ℕ) (s : Memory)
    → i + n ≡ j
    → j ≤ s.k
    → fn + shares n i (size_of s) s.f c ≤ s.f
    → IsOwned s
    → ((l : ℕ) → fn ≤ l → s.free l ≡ true)
    → ((q l : ℕ) → i ≤ q → frame_of s.pt q l ≡ none)
    → Allocated i j c (size_of s) s.f s (grant_all n i c fn s)
unfolding grant_all shares
grant_all-Allocated zero i j c fn s e hk hf v unused absent = record {
  owned = v;
  kept = Kept-frames s s.pt s.free;
  given = λ q l a b x y. absurd (omega arith);
  others = λ q l h. refl;
}
grant_all-Allocated (suc n) i j c fn s e hk hf v unused absent =
    let quota = share (size_of s) s.f c i in
    let r = grant_pages (size_of s i) 0 0 quota i fn s in
    let g : Granted i 0 (min (size_of s i) quota) (fn + quota) s r =
      grant_pages-Granted (size_of s i) 0 0 quota i fn (min (size_of s i) quota) (fn + quota) s
        (omega arith) (omega arith) (omega arith) (omega arith) (omega arith) (omega arith)
        (record {
          owned = v;
          unused = unused;
          rest = λ l h. absent i l (omega arith);
          later = λ q l h. absent q l (omega arith);
        }) in
    let same : size_of r.1 ≡ size_of s = ap {B = ℕ → ℕ} (λ tb q. (tb q).m_i) g.kept.table in
    let left : r.0 + shares n (i + 1) (size_of r.1) r.1.f c ≤ r.1.f =
      rw (same, g.kept.f) (omega (arith, g.within)) in
    let ih =
      grant_all-Allocated n (i + 1) j c r.0 r.1 (omega arith) (omega (arith, g.kept.k)) left g.owned
        g.unused (λ q l h. g.later q l (omega arith)) in
    Allocated-cons i j c (fn + quota) s _ r g (rw (same, g.kept.f) at ih)

sizes-pos : (n i : ℕ) (m : ℕ → ℕ) → 0 < n → ((p : ℕ) → 0 < m p) → 0 < sizes n i m
unfolding sizes
sizes-pos zero i m h positive = absurd (omega arith)
sizes-pos (suc n) i m h positive = omega (arith, positive i)

module _ (k m f : ℕ) (draw : ℕ → ℕ) (some_process : 0 < k) where
  abbrev empty_memory : Memory
  empty_memory = blank k m f draw

  blank-IsOwned : IsOwned empty_memory
  unfolding blank
  blank-IsOwned = record {
    below = λ p j fr h. cc;
    unique = λ p j q l fr h h'. cc;
    valid = λ p j. refl;
    covered = λ fr hf h. cc;
  }

  abbrev total_size : ℕ
  total_size = sizes k 0 (size_of empty_memory)

  shares-fit : shares k 0 (size_of empty_memory) f total_size ≤ f
  unfolding blank
  shares-fit =
      shares-le k 0 (size_of empty_memory) f
        (sizes-pos k 0 (size_of empty_memory) some_process (λ p. omega arith))

  grant_blank :
      Allocated 0 k total_size
        (size_of empty_memory)
        empty_memory.f
        empty_memory
        (grant_all k 0 total_size 0 empty_memory)
  grant_blank =
      grant_all-Allocated k 0 k total_size 0 empty_memory (omega arith)
        (unfold blank in omega arith) (unfold blank in omega (arith, shares-fit)) blank-IsOwned
        (λ l h. unfold blank in refl) (λ q l h. unfold blank in refl)

  allocate-eq : allocate k empty_memory ≡ grant_all k 0 total_size 0 empty_memory
  unfolding allocate
  allocate-eq =
      ap (λ c. grant_all k 0 c 0 empty_memory)
        (sum_sizes-eq k 0 empty_memory 0 ∙ zero-add total_size)

pub start_correct :
    (k m f : ℕ) (draw : ℕ → ℕ)
    → 0 < k
    → 0 < m
    → (s : Memory) × (start k m f draw ≡ some s)
      × IsOwned s
      × ((q l : ℕ)
          → q < k
          → l < size_of s q
          → l < share (size_of s) f (sizes k 0 (size_of s)) q
          → IsResident (s.pt q) l)
      × ((q l : ℕ)
          → (size_of s q ≤ l) ⊎ (share (size_of s) f (sizes k 0 (size_of s)) q ≤ l)
          → frame_of s.pt q l ≡ none)
unfolding start set_up blank
start_correct k m f draw h some_page =
    let a = grant_blank k m f draw h in
    let empty = blank k m f draw in
    let s = grant_all k 0 (sizes k 0 (size_of empty)) 0 empty in
    let made : allocate k empty ≡ s = allocate-eq k m f draw h in
    let goes : (ltb 0 k && (m == 0)) ≡ false = ground (arith, some_page) in
    let same : size_of s ≡ size_of empty = ap {B = ℕ → ℕ} (λ tb q. (tb q).m_i) a.kept.table in
    (
      s,
      ap (λ b. (if b then none else some empty) >>= λ t. some (allocate k t)) goes ∙ ap some made,
      a.owned,
      λ q l x y z. a.given q l (omega arith) x (rw same at y) (rw same at z),
      λ q l beyond.
          ap (λ e. e.frame)
            (grant_all-beyond k 0 (sizes k 0 (size_of empty)) 0 q l empty
              (subst (λ g. (g q ≤ l) ⊎ (share g f (sizes k 0 g) q ≤ l)) same beyond)),
    )
