-- ===== src/Paging/Faults.antt =====
-- A8/mmu.c: what the branches of the handler do to the page tables and the free list.
use os_lab_sp.Prelude.{
  ℕ, ◌<◌, false, none, some, arith, if◌then◌else◌, ◌==◌, ◌≡◌, ◌≢◌, refl, inl, inr, ◌⊎◌,
  Option-cases, subst,
}
use os_lab_sp.Paging.{Memory}
use os_lab_sp.Paging.Mmu.{find_free, find_victim, int_max, place, replace, load_page}
use os_lab_sp.Paging.Owned.{frame_of, IsOwned, place-Owned, replace-Owned}
use os_lab_sp.Paging.Release.{Kept, Kept-frames}
use os_lab_sp.Paging.Lru.{
  FirstFree, find_free_lem, LeastRecent, find_victim_lem, find_victim-IsResident,
}

abbrev pub NoneFree : Memory → Type 0
NoneFree s = (l : ℕ) → l < s.f → s.free l ≡ false

-- A page that is not resident goes to a frame.
abbrev pub IsAbsent : ℕ → ℕ → Memory → Type 0
IsAbsent p j s = (p < s.k) × (j < (s.table p).m_i) × (frame_of s.pt p j ≡ none)

module _ (p j : ℕ) (s : Memory) where
  load_page-free : (fr : ℕ) → find_free s.f 0 s.free ≡ some fr → load_page p j s ≡ place p j fr s
  unfolding load_page
  load_page-free fr e = rw (e, load_page)

  load_page-full :
      (w : ℕ)
      → find_free s.f 0 s.free ≡ none
      → find_victim (s.table p).m_i 0 (s.pt p) int_max none ≡ some w
      → load_page p j s ≡ replace p j w s
  unfolding load_page
  load_page-full w e e' = rw (e, e', load_page)

  load_page-starved :
      find_free s.f 0 s.free ≡ none
      → find_victim (s.table p).m_i 0 (s.pt p) int_max none ≡ none
      → load_page p j s ≡ s
  unfolding load_page
  load_page-starved e e' = rw (e, e', load_page)

  free_scan : FirstFree 0 s.f s.free (find_free s.f 0 s.free)
  free_scan = find_free_lem s.f 0 s.f s.free (omega arith)

  free_found : (fr : ℕ) → find_free s.f 0 s.free ≡ some fr → FirstFree 0 s.f s.free (some fr)
  free_found fr e = subst (FirstFree 0 s.f s.free) e free_scan

  victim_held :
      (w : ℕ)
      → find_victim (s.table p).m_i 0 (s.pt p) int_max none ≡ some w
      → (fr : ℕ) × (frame_of s.pt p w ≡ some fr)
  victim_held w e = elim (Option-cases (frame_of s.pt p w)) [
    | inl absent ↦ absurd ((find_victim-IsResident (s.table p).m_i w (s.pt p) e).1 absent)
    | inr held ↦ held
  ]

  -- Loading a page touches only the page tables and the free list.
  pub load_page-Kept : Kept s (load_page p j s)
  unfolding load_page place replace
  load_page-Kept = elim (Option-cases (find_free s.f 0 s.free)) [
    | inr (fr, e) ↦ rw (e, load_page) (Kept-frames s _ _)
    | inl e ↦ elim (Option-cases (find_victim (s.table p).m_i 0 (s.pt p) int_max none)) [
      | inr (w, e') ↦ rw (e, e', load_page) (Kept-frames s _ _)
      | inl e' ↦ rw (e, e', load_page) (Kept-frames s s.pt s.free)
    ]
  ]

  pub load_page-IsOwned : IsAbsent p j s → IsOwned s → IsOwned (load_page p j s)
  load_page-IsOwned (hp, hj, absent) v = elim (Option-cases (find_free s.f 0 s.free)) [
    | inr (fr, e) ↦
        let found = free_found fr e in
        rw (load_page-free fr e) (place-Owned p j fr s v hp hj found.1 found.2 absent)
    | inl e ↦ elim (Option-cases (find_victim (s.table p).m_i 0 (s.pt p) int_max none)) [
      | inr (w, e') ↦
          let (fr, held) = victim_held w e' in
          rw (load_page-full w e e') (replace-Owned p j fr s v w hj held absent)
      | inl e' ↦ rw (load_page-starved e e') v
    ]
  ]

-- How the page `j` of `p` comes into memory.
pub data Loads (p j : ℕ) (s t : Memory) : Type 0 where
  -- The first free frame goes to the page, and nothing else changes.
  placed :
      (fr : ℕ)
      → FirstFree 0 s.f s.free (some fr)
      → t.pt p j ≡ record (s.pt p j) { frame = some fr; valid_bit = 1; lru_ctr = s.count }
      → ((q l : ℕ) → (q ≢ p) ⊎ (l ≢ j) → t.pt q l ≡ s.pt q l)
      → ((l : ℕ) → t.free l ≡ (if l == fr then false else s.free l))
      → Loads p j s t
  -- No frame is free: a least recently used page of `p` gives its frame to the page, and nothing
  -- else changes.
  replaced :
      (w fr : ℕ)
      → NoneFree s
      → LeastRecent (s.pt p) (s.table p).m_i (some w)
      → frame_of s.pt p w ≡ some fr
      → t.pt p j ≡ record (s.pt p j) { frame = some fr; valid_bit = 1; lru_ctr = s.count }
      → frame_of t.pt p w ≡ none
      → ((q l : ℕ) → (q ≢ p) ⊎ ((l ≢ j) × (l ≢ w)) → t.pt q l ≡ s.pt q l)
      → t.free ≡ s.free
      → Loads p j s t
  -- No frame is free and `p` has no page in memory: nothing changes.
  starved : NoneFree s → LeastRecent (s.pt p) (s.table p).m_i none → t ≡ s → Loads p j s t

-- The clock has not reached INT_MAX.
abbrev pub IsEarly : ℕ → Memory → Type 0
IsEarly p s = (l : ℕ) → l < (s.table p).m_i → (s.pt p l).lru_ctr < int_max

module _ (p j : ℕ) (s : Memory) where
  place-Loads : (fr : ℕ) → FirstFree 0 s.f s.free (some fr) → Loads p j s (place p j fr s)
  unfolding place
  place-Loads fr first = placed fr first (ground arith) (λ q l h. ground arith) (λ l. refl)

  replace-Loads :
      (w fr : ℕ)
      → NoneFree s
      → LeastRecent (s.pt p) (s.table p).m_i (some w)
      → frame_of s.pt p w ≡ some fr
      → frame_of s.pt p j ≡ none
      → Loads p j s (replace p j w s)
  unfolding replace
  replace-Loads w fr full least held absent =
      let other : w ≢ j = λ e. ground arith in
      replaced w fr full least held (ground arith) (ground arith) (λ q l h. ground arith) refl

  -- If the page has no frame and the lru_ctr of each page of the process is below INT_MAX: the page-
  -- fault handler takes the first free frame, else the frame of a least recently used page of the same
  -- process, and changes nothing if there is neither.
  pub load_page-Loads : frame_of s.pt p j ≡ none → IsEarly p s → Loads p j s (load_page p j s)
  load_page-Loads absent early =
      let scan = free_scan p j s in
      let victim = find_victim_lem (s.table p).m_i (s.pt p) early in
      elim (Option-cases (find_free s.f 0 s.free)) [
        | inr (fr, e) ↦ rw (load_page-free p j s fr e) (place-Loads fr (free_found p j s fr e))
        | inl e ↦
            let full : NoneFree s =
              λ l h. subst (FirstFree 0 s.f s.free) e scan l (omega arith) h in
            elim (Option-cases (find_victim (s.table p).m_i 0 (s.pt p) int_max none)) [
              | inr (w, e') ↦
                  let (fr, held) = victim_held p j s w e' in
                  rw (load_page-full p j s w e e') (
                    replace-Loads w fr full (subst (LeastRecent (s.pt p) (s.table p).m_i) e' victim)
                      held absent)
              | inl e' ↦
                  rw (load_page-starved p j s e e')
                    (starved full (subst (LeastRecent (s.pt p) (s.table p).m_i) e' victim) refl)
            ]
      ]
