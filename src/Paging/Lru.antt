-- ===== src/Paging/Lru.antt =====
-- A8/mmu.c: the two scans of the page-fault handler.
use os_lab_sp.Prelude.{
  ℕ, zero, suc, ◌+◌, ◌<◌, ◌≤◌, Bool, true, false, Option, none, some, arith, ltb, ◌≡◌, ◌≢◌, refl,
  inl, inr, ◌⊎◌, Bool-cases, Option-cases, ℕ_discrete,
}
use os_lab_sp.Paging.{Entry}
use os_lab_sp.Paging.Mmu.{find_free, find_victim, int_max}

-- `some x`: the first free frame from `i` up to `j`; `none`: there is none.
abbrev pub FirstFree : ℕ → ℕ → (ℕ → Bool) → Option ℕ → Type 0
FirstFree i j free none = (l : ℕ) → i ≤ l → l < j → free l ≡ false
FirstFree i j free (some x) =
    (i ≤ x) × (x < j) × (free x ≡ true) × ((l : ℕ) → i ≤ l → l < x → free l ≡ false)

FirstFree-later :
    (i j : ℕ) (free : ℕ → Bool) (o : Option ℕ)
    → free i ≡ false
    → FirstFree (i + 1) j free o
    → FirstFree i j free o
FirstFree-later i j free none taken h =
    λ l a b. elim (ℕ_discrete l i) [ yes same ↦ ground arith | no other ↦ h l (omega arith) b ]
FirstFree-later i j free (some x) taken (a, b, c, d) = (
  omega arith,
  b,
  c,
  λ l u w. elim (ℕ_discrete l i) [ yes same ↦ ground arith | no other ↦ d l (omega arith) w ],
)

-- The scan of the free list finds the first free frame, and answers -1 only if there is none.
pub find_free_lem :
    (n i j : ℕ) (free : ℕ → Bool) → i + n ≡ j → FirstFree i j free (find_free n i free)
unfolding find_free
find_free_lem zero i j free e = λ l a b. absurd (omega arith)
find_free_lem (suc n) i j free e = elim (Bool-cases (free i)) [
  | inl open_frame ↦
      rw open_frame (omega arith, omega arith, open_frame, λ l a b. absurd (omega arith))
  | inr taken ↦
      rw taken (FirstFree-later i j free _ taken (find_free_lem n (i + 1) j free (omega arith)))
]

-- `l` holds a page in memory.
abbrev pub IsResident : (ℕ → Entry) → ℕ → Type 0
IsResident row l = (row l).frame ≢ none

-- No resident page from `i` up to `j` was used before `t`.
abbrev NoneBefore : (ℕ → Entry) → ℕ → ℕ → ℕ → Type 0
NoneBefore row i j t = (l : ℕ) → i ≤ l → l < j → IsResident row l → t ≤ (row l).lru_ctr

-- The answer of the scan from `i` up to `j` that starts with the page `best`, last used at `t`.
abbrev Oldest : (ℕ → Entry) → ℕ → ℕ → ℕ → Option ℕ → Option ℕ → Type 0
Oldest row i j t best none = (best ≡ none) × NoneBefore row i j t
Oldest row i j t best (some w) =
    ((best ≡ some w) × NoneBefore row i j t)
    ⊎ ((i ≤ w)
        × (w < j)
        × IsResident row w
        × ((row w).lru_ctr < t)
        × NoneBefore row i j (row w).lru_ctr)

module _ (row : ℕ → Entry) (i j t : ℕ) (best : Option ℕ) where
  NoneBefore-cons :
      (u : ℕ)
      → (IsResident row i → u ≤ (row i).lru_ctr)
      → NoneBefore row (i + 1) j u
      → NoneBefore row i j u
  NoneBefore-cons u first h l a b r = elim (ℕ_discrete l i) [
    | yes same ↦ ground (arith, first)
    | no other ↦ h l (omega arith) b r
  ]

  Oldest-skip :
      (o : Option ℕ)
      → (IsResident row i → t ≤ (row i).lru_ctr)
      → Oldest row (i + 1) j t best o
      → Oldest row i j t best o
  Oldest-skip none first (e, h) = (e, NoneBefore-cons t first h)
  Oldest-skip (some w) first (inl (e, h)) = inl (e, NoneBefore-cons t first h)
  Oldest-skip (some w) first (inr (a, b, c, d, h)) =
      inr (omega arith, b, c, d, NoneBefore-cons (row w).lru_ctr (λ r. omega (arith, first r)) h)

  Oldest-take :
      (o : Option ℕ)
      → i < j
      → IsResident row i
      → (row i).lru_ctr < t
      → Oldest row (i + 1) j (row i).lru_ctr (some i) o
      → Oldest row i j t best o
  Oldest-take none lt r old (e, h) = cc
  Oldest-take (some w) lt r old (inl (e, h)) =
      let same : i ≡ w = cc in
      inr (
        omega arith,
        omega arith,
        rw (← same) r,
        rw (← same) old,
        rw (← same) (NoneBefore-cons (row i).lru_ctr (λ q. omega arith) h),
      )
  Oldest-take (some w) lt r old (inr (a, b, c, d, h)) =
      inr (omega arith, b, c, omega arith, NoneBefore-cons (row w).lru_ctr (λ q. omega arith) h)

find_victim-Oldest :
    (n i j : ℕ) (row : ℕ → Entry) (t : ℕ) (best : Option ℕ)
    → i + n ≡ j
    → Oldest row i j t best (find_victim n i row t best)
unfolding find_victim
find_victim-Oldest zero i j row t none e = (refl, λ l a b. absurd (omega arith))
find_victim-Oldest zero i j row t (some w) e = inl (refl, λ l a b. absurd (omega arith))
find_victim-Oldest (suc n) i j row t best e = elim (Option-cases (row i).frame) [
  | inl absent ↦
      rw (absent, find_victim)
        (Oldest-skip row i j t best _ (λ r. absurd (r absent))
          (find_victim-Oldest n (i + 1) j row t best (omega arith)))
  | inr (fr, present) ↦
      let resident : IsResident row i = λ h. cc in
      elim (Bool-cases (ltb (row i).lru_ctr t)) [
        | inl older ↦
            rw (present, older, find_victim)
              (Oldest-take row i j t best _ (omega arith) resident (ground arith)
                (find_victim-Oldest n (i + 1) j row (row i).lru_ctr (some i) (omega arith)))
        | inr newer ↦
            rw (present, newer, find_victim)
              (Oldest-skip row i j t best _ (λ r. ground arith)
                (find_victim-Oldest n (i + 1) j row t best (omega arith)))
      ]
]

-- The victim is a resident page of the table, whatever the clock says.
pub find_victim-IsResident :
    (m w : ℕ) (row : ℕ → Entry)
    → find_victim m 0 row int_max none ≡ some w
    → (w < m) × IsResident row w
find_victim-IsResident m w row e =
    go (find_victim m 0 row int_max none) e
      (find_victim-Oldest m 0 m row int_max none (omega arith))
  where
    go : (o : Option ℕ) → o ≡ some w → Oldest row 0 m int_max none o → (w < m) × IsResident row w
    go none e h = cc
    go (some x) e (inl (a, h)) = cc
    go (some x) e (inr (a, b, c, d, h)) = let same : x ≡ w = cc in (omega arith, rw same at c)

-- `some w`: a resident page that no resident page of the table was used before; `none`: no page of
-- the table is resident.
abbrev pub LeastRecent : (ℕ → Entry) → ℕ → Option ℕ → Type 0
LeastRecent row m none = (l : ℕ) → l < m → (row l).frame ≡ none
LeastRecent row m (some w) =
    (w < m)
    × IsResident row w
    × ((l : ℕ) → l < m → IsResident row l → (row w).lru_ctr ≤ (row l).lru_ctr)

-- While the clock is below INT_MAX the scan finds a least recently used resident page, and answers
-- -1 only if no page of the process is resident.
pub find_victim_lem :
    (m : ℕ) (row : ℕ → Entry)
    → ((l : ℕ) → l < m → (row l).lru_ctr < int_max)
    → LeastRecent row m (find_victim m 0 row int_max none)
find_victim_lem m row small =
    go (find_victim m 0 row int_max none) (find_victim-Oldest m 0 m row int_max none (omega arith))
  where
    go : (o : Option ℕ) → Oldest row 0 m int_max none o → LeastRecent row m o
    go none (e, h) = λ l b. elim (Option-cases (row l).frame) [
      | inl absent ↦ absent
      | inr (fr, present) ↦
          let resident : IsResident row l = λ x. cc in
          absurd (omega (arith, small l b, h l (omega arith) b resident))
    ]
    go (some w) (inl (e, h)) = cc
    go (some w) (inr (a, b, c, d, h)) = (b, c, λ l x r. h l (omega arith) x r)
