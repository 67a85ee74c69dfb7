-- ===== src/Paging/Serve/Total.antt =====
-- A8/mmu.c: progress. A fault is followed by a hit, an end gives the frames back, and the loop ends.
use os_lab_sp.Prelude.{
  ℕ, ◌+◌, ◌<◌, true, false, none, some, arith, leb, ◌==◌, ◌≡◌, ◌≢◌, inl, inr, Bool-cases,
  Option-cases, List, [], ◌∷◌, ap, ◌∙◌, subst, dec_lt,
}
use os_lab_sp.Prelude.Int.{ℤ, pos, negsuc}
use os_lab_sp.Paging.{Process, Memory, Msq3}
use os_lab_sp.Paging.Mmu.{fault, access, refuse, finish, reply, dispatch, handle}
use os_lab_sp.Paging.Owned.{frame_of, IsOwned}
use os_lab_sp.Paging.Release.{Released, release_all-Released}
use os_lab_sp.Paging.Faults.{NoneFree, IsEarly}
use os_lab_sp.Paging.Serve.{ticked, Returned, IsRequest, ends_at, ends}
use os_lab_sp.Paging.Serve.Protocol.{Exchange, to_proc, notice, access-Exchange, ticked-Exchange}
use os_lab_sp.Paging.Serve.Retry.{
  reference, HasRoom, Loads-still, faulted, faulted-sizes, fault-pt, fault-free, faulted-Loads,
  access-frame, handle-access, handle-hit,
}

abbrev pub Requests : ℕ → List Msq3 → Type 0
Requests k [] = Unit
Requests k (msg ∷ msgs) = IsRequest k msg × Requests k msgs

abbrev total_ends : (ℕ → Process) → List Msq3 → ℕ
total_ends table [] = 0
total_ends table (msg ∷ msgs) = ends table msg + total_ends table msgs

-- After a page fault for which a frame can be found, the same reference is a hit: the process is
-- answered with a frame, and nothing is sent to the scheduler.
pub retry_hits :
    (s : Memory) (p j : ℕ)
    → p < s.k
    → j < (s.table p).m_i
    → frame_of s.pt p j ≡ none
    → IsEarly p s
    → HasRoom p s
    → (t : Memory) × (handle s (reference p j) ≡ some t)
      × (fr : ℕ) × (u : Memory) × (handle t (reference p j) ≡ some u)
      × Exchange (to_proc p (pos fr)) [] 0 t u
retry_hits s p j hp hj absent early room =
    let t = access p j (ticked s) in
    let (fr, held) = access-frame p j (ticked s) absent early room in
    let x = access-Exchange p j (ticked s) in
    let hp' : p < t.k = rw (x.k) hp in
    let hj' : j < (t.table p).m_i = rw (x.sizes p) hj in
    (
      t,
      handle-access s p j hp hj,
      fr,
      access p j (ticked t),
      handle-access t p j hp' hj',
      handle-hit t p j hp' hj' fr held,
    )

-- While no frame is free and the process has no page in memory, a reference to one of its pages is a
-- page fault that leaves every page table and the free list as they are.
pub starved_retries :
    (s : Memory) (p j : ℕ)
    → p < s.k
    → j < (s.table p).m_i
    → IsEarly p s
    → NoneFree s
    → ((l : ℕ) → l < (s.table p).m_i → frame_of s.pt p l ≡ none)
    → (t : Memory) × (handle s (reference p j) ≡ some t)
      × (t.pt ≡ s.pt)
      × (t.free ≡ s.free)
      × Exchange (to_proc p (negsuc 0)) (notice 1 p) 0 s t
unfolding reply access
starved_retries s p j hp hj early full absent =
    let none_there = absent j hj in
    let same =
      Loads-still p j (faulted p (ticked s)) _ full
        (λ l b. absent l (omega (arith, b, faulted-sizes p p (ticked s))))
        (faulted-Loads p j (ticked s) none_there early) in
    let fault_same : access p j (ticked s) ≡ fault p j (ticked s) = rw (none_there, access) in
    (
      access p j (ticked s),
      handle-access s p j hp hj,
      ap (λ t. t.pt) fault_same ∙ fault-pt p j (ticked s) ∙ ap (λ t. t.pt) same,
      ap (λ t. t.free) fault_same ∙ fault-free p j (ticked s) ∙ ap (λ t. t.free) same,
      rw none_there at (ticked-Exchange (access-Exchange p j (ticked s))),
    )

-- What is left of a process that has ended.
abbrev pub IsGone : ℕ → Memory → Memory → Type 0
IsGone p s t =
    ((l : ℕ) → frame_of t.pt p l ≡ none)
    × ((q l : ℕ) → q ≢ p → t.pt q l ≡ s.pt q l)
    × ((l fr : ℕ) → frame_of s.pt p l ≡ some fr → t.free fr ≡ true)

Released-IsGone :
    (p : ℕ) (s t : Memory) → IsOwned s → Released p 0 (s.table p).m_i s t → IsGone p s t
Released-IsGone p s t v r = (
  λ l. elim (dec_lt l (s.table p).m_i) [
    | yes inside ↦ r.cleared l (omega arith) inside
    | no outside ↦ ap (λ e. e.frame) (r.others p l (inr (inr (omega arith)))) ∙ absent l outside
  ],
  λ q l other. r.others q l (inl other),
  λ l fr held. r.freed l fr (omega arith) (v.below p l fr held).3 held,
)
  where
    absent : (l : ℕ) → ¬ (l < (s.table p).m_i) → frame_of s.pt p l ≡ none
    absent l outside = elim (Option-cases (frame_of s.pt p l)) [
      | inl e ↦ e
      | inr (fr, held) ↦ absurd (outside (v.below p l fr held).3)
    ]

dispatch-IsGone :
    (p : ℕ) (n : ℤ) (s : Memory)
    → IsOwned s
    → ends_at (s.table p).m_i n ≡ 1
    → Returned (IsGone p s) (dispatch p n s)
unfolding dispatch
dispatch-IsGone p (pos j) s v e = elim (Bool-cases (leb s.k p)) [
  | inl outside ↦ rw outside tt
  | inr inside ↦ rw inside (elim (Bool-cases (leb (s.table p).m_i j)) [
    | inl invalid ↦
        rw invalid (unfold refuse in Released-IsGone p s _ v (release_all-Released p s v))
    | inr valid ↦ absurd (ground arith)
  ])
]
dispatch-IsGone p (negsuc n) s v e =
    let done : (n == 8) ≡ true = ground arith in
    let first : (n == 1) ≡ false = ground arith in
    rw (first, done)
      (elim (Bool-cases (leb s.k p)) [
        | inl outside ↦ rw outside tt
        | inr inside ↦
            rw inside (unfold finish in Released-IsGone p s _ v (release_all-Released p s v))
      ])

-- The end of a process, or its reference to a page that it does not have, empties its table, frees
-- its frames, and leaves the tables of the other processes alone.
pub end_releases :
    (s t : Memory) (msg : Msq3)
    → IsOwned s
    → ends s.table msg ≡ 1
    → handle s msg ≡ some t
    → IsGone msg.pid s t
unfolding handle
end_releases s t msg v e h =
    subst (Returned (IsGone msg.pid s)) h (dispatch-IsGone msg.pid msg.num (ticked s) v e)
