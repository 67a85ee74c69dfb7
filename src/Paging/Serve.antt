-- ===== src/Paging/Serve.antt =====
-- A8/mmu.c: one message, and the loop over the messages.
pub mod Protocol
pub mod Retry
pub mod Total
use os_lab_sp.Prelude.{
  ℕ, zero, suc, ◌+◌, ◌<◌, ◌≤◌, Bool, true, false, Option, none, some, arith, ltb, leb,
  if◌then◌else◌, ◌==◌, ◌≡◌, ◌≢◌, refl, inl, inr, ◌⊎◌, Bool-cases, Option-cases, ◌++◌, List, [], ◌∷◌,
  ap, subst, ◌∙◌,
}
use os_lab_sp.Prelude.Int.{ℤ, pos, negsuc}
use os_lab_sp.Paging.{Entry, Process, Memory, Msq2, Msq3, update, update₂}
use os_lab_sp.Paging.Mmu.{
  fault, hit, access, refuse, finish, release_all, tell_sched, reply, dispatch, handle, load_page,
  serve,
}
use os_lab_sp.Paging.Owned.{frame_of, bit, Owned, IsOwned, table-Owned}
use os_lab_sp.Paging.Release.{Kept, Released, release_all-Released}
use os_lab_sp.Paging.Faults.{IsAbsent, load_page-IsOwned}

-- The state when the message is counted.
abbrev pub ticked : Memory → Memory
ticked s = record s { count = s.count + 1 }

module _ (p j : ℕ) (s : Memory) (v : IsOwned s) where
  hit-IsOwned : (fr : ℕ) → IsOwned (hit p j fr s)
  unfolding hit
  hit-IsOwned fr = record {
    below = λ q l g h. ground (arith, v.below q l g);
    unique = λ q l q' l' g h h'. ground (arith, v.unique q l q' l' g);
    valid = λ q l. ground (arith, v.valid q l);
    covered = λ g hg h. let (q, l, e) = v.covered g hg h in (q, l, ground arith);
  }

  fault-IsOwned : IsAbsent p j s → IsOwned (fault p j s)
  unfolding fault
  fault-IsOwned (hp, hj, absent) =
      load_page-IsOwned p j _ (hp, ground arith, absent) (table-Owned p _ refl v)

  access-IsOwned : p < s.k → j < (s.table p).m_i → IsOwned (access p j s)
  unfolding access
  access-IsOwned hp hj = elim (Option-cases (frame_of s.pt p j)) [
    | inl e ↦ rw (e, access) (fault-IsOwned (hp, hj, e))
    | inr (fr, e) ↦ rw (e, access) (hit-IsOwned fr)
  ]

module _ (p : ℕ) (s : Memory) (v : IsOwned s) where
  finish-IsOwned : IsOwned (finish p s)
  unfolding finish
  finish-IsOwned = (release_all-Released p s v).owned

  refuse-IsOwned : IsOwned (refuse p s)
  unfolding refuse
  refuse-IsOwned = table-Owned p _ refl (release_all-Released p s v).owned

-- The property holds of the state that comes back, if one does.
abbrev pub Returned {ℓ} : (Memory → Type ℓ) → Option Memory → Type ℓ
Returned P none = Unit
Returned P (some t) = P t

dispatch-IsOwned : (p : ℕ) (n : ℤ) (s : Memory) → IsOwned s → Returned IsOwned (dispatch p n s)
unfolding dispatch
dispatch-IsOwned p (pos j) s v = elim (Bool-cases (leb s.k p)) [
  | inl outside ↦ rw outside tt
  | inr inside ↦ rw inside (elim (Bool-cases (leb (s.table p).m_i j)) [
    | inl invalid ↦ rw invalid (refuse-IsOwned p s v)
    | inr valid ↦ rw valid (access-IsOwned p j s v (ground arith) (ground arith))
  ])
]
dispatch-IsOwned p (negsuc n) s v = elim (Bool-cases (n == 1)) [
  | inl e ↦ rw e (unfold tell_sched in v)
  | inr e ↦ rw e (elim (Bool-cases (leb s.k p)) [
    | inl outside ↦ rw outside tt
    | inr inside ↦ rw inside (elim (Bool-cases (n == 8)) [
      | inl done ↦ rw done (finish-IsOwned p s v)
      | inr other ↦ rw other tt
    ])
  ])
]

-- Whatever the message, the handler keeps the ownership of frames: no frame has two owners, the
-- free list and the valid bits are exact, and no frame is lost.
pub handle-IsOwned : (s t : Memory) (msg : Msq3) → handle s msg ≡ some t → IsOwned s → IsOwned t
unfolding handle
handle-IsOwned s t msg e v =
    subst (Returned IsOwned) e (dispatch-IsOwned msg.pid msg.num (ticked s) v)

-- A message that a process sends: a page, or -9 at its end, from a process that exists.
abbrev pub IsRequest : ℕ → Msq3 → Type 0
IsRequest k msg = (msg.pid < k) × (((j : ℕ) × (msg.num ≡ pos j)) ⊎ (msg.num ≡ negsuc 8))

-- 1 for a message that ends its process: -9, or a page that the process does not have.
abbrev pub ends_at : ℕ → ℤ → ℕ
ends_at m_i (pos j) = if leb m_i j then 1 else 0
ends_at m_i (negsuc n) = if n == 8 then 1 else 0

abbrev pub ends : (ℕ → Process) → Msq3 → ℕ
ends table msg = ends_at (table msg.pid).m_i msg.num
