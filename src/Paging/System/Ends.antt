-- ===== src/Paging/System/Ends.antt =====
-- A8/sched.c, A8/process.c and A8/mmu.c: the ends that the scheduler counts are those of the MMU.
use os_lab_sp.Prelude.{
  ℕ, zero, suc, ◌+◌, ◌≤◌, ◌≡◌, List, [], ◌∷◌, ◌++◌, Option, none, some, ◌==◌, leb, if◌then◌else◌,
  arith, ap, sym, subst, ◌∙◌, Bool-cases, Option-cases, inl, inr,
}
use os_lab_sp.Paging.{Memory, Msq2, Msq3}
use os_lab_sp.Paging.Mmu.{handle, dispatch}
use os_lab_sp.Paging.Owned.{IsOwned, frame_of}
use os_lab_sp.Paging.Serve.{ticked, handle-IsOwned, IsRequest}
use os_lab_sp.Paging.Serve.Protocol.{Exchange, notices, reference_protocol, end_protocol}
use os_lab_sp.Paging.Serve.Total.{Requests}
use os_lab_sp.Paging.System.{System, SchedPhase, finished, nth, serve_next}

-- The messages of type 2 among the first `n`.
unfoldable pub ends_among : ℕ → List Msq2 → ℕ
ends_among zero l = 0
ends_among (suc n) [] = 0
ends_among (suc n) (msg ∷ l) = (if msg.type == 2 then 1 else 0) + ends_among n l

unfoldable pub all_ends : List Msq2 → ℕ
all_ends [] = 0
all_ends (msg ∷ l) = (if msg.type == 2 then 1 else 0) + all_ends l

all_ends-append : (l r : List Msq2) → all_ends (l ++ r) ≡ all_ends l + all_ends r
unfolding all_ends
all_ends-append [] r = omega arith
all_ends-append (msg ∷ l) r = omega (arith, all_ends-append l r)

pub ends_among-le : (n : ℕ) (l : List Msq2) → ends_among n l ≤ all_ends l
unfolding ends_among all_ends
ends_among-le zero l = omega arith
ends_among-le (suc n) [] = omega arith
ends_among-le (suc n) (msg ∷ l) = omega (arith, ends_among-le n l)

ends_among-append : (n : ℕ) (l r : List Msq2) → ends_among n l ≤ ends_among n (l ++ r)
unfolding ends_among
ends_among-append zero l r = omega arith
ends_among-append (suc n) [] r = omega arith
ends_among-append (suc n) (msg ∷ l) r = omega (arith, ends_among-append n l r)

pub ends_among-next :
    (n : ℕ) (l : List Msq2) (msg : Msq2)
    → nth l n ≡ some msg
    → ends_among (suc n) l ≡ ends_among n l + (if msg.type == 2 then 1 else 0)
unfolding ends_among nth
ends_among-next n [] msg e = cc
ends_among-next zero (m ∷ l) msg e =
    let same : m ≡ msg = ground (arith, e) in
    let type = ap (λ a. a.type) same in rw type (omega arith)
ends_among-next (suc n) (m ∷ l) msg e = omega (arith, ends_among-next n l msg e)

-- What the MMU and the scheduler have counted.
pub record Sound (mem : Memory) (requests : List Msq3) (phase : SchedPhase)
    (heard terminated_processes : ℕ) : Type 0 where
  pub owned : IsOwned mem
  pub asked : Requests mem.k requests
  pub told : all_ends mem.to_sched ≤ mem.terminated
  pub noted : terminated_processes ≤ ends_among heard mem.to_sched
  pub stopped : phase ≡ finished → mem.k ≤ terminated_processes

abbrev pub IsSound : System → Type 0
IsSound s = Sound s.mem s.requests s.phase s.heard s.terminated_processes

abbrev pub Then : Option System → Type 0
Then none = Unit
Then (some s) = IsSound s

all_ends-notices :
    (s : Memory) (p j : ℕ) → all_ends (notices s p j) ≤ (if leb (s.table p).m_i j then 1 else 0)
unfolding all_ends
all_ends-notices s p j = elim (Bool-cases (leb (s.table p).m_i j)) [
  | inl invalid ↦ rw invalid (omega arith)
  | inr valid ↦ rw valid (elim (Option-cases (frame_of s.pt p j)) [
    | inl absent ↦ rw absent (omega arith)
    | inr (fr, held) ↦ rw held (omega arith)
  ])
]

-- What a request changes in the memory.
record Served (s t : Memory) : Type 0 where
  size : t.k ≡ s.k
  told : all_ends t.to_sched + s.terminated ≤ all_ends s.to_sched + t.terminated
  kept : (n : ℕ) → ends_among n s.to_sched ≤ ends_among n t.to_sched

Exchange-Served :
    {r : List Msq3} {l : List Msq2} {n : ℕ} {s t : Memory}
    → Exchange r l n s t
    → all_ends l ≤ n
    → Served s t
Exchange-Served {l} {s} x few = record {
  size = x.k;
  told =
      let ends = ap all_ends x.to_sched ∙ all_ends-append s.to_sched l in
      omega (arith, ends, few, x.terminated);
  kept = λ i.
      let ends = ap (ends_among i) x.to_sched in
      omega (arith, ends, ends_among-append i s.to_sched l);
}

handle-Served :
    (s : Memory) (msg : Msq3)
    → IsOwned s
    → IsRequest s.k msg
    → (t : Memory) × (handle s msg ≡ some t) × Served s t
unfolding handle all_ends
handle-Served s msg v (hp, inl (j, e)) =
    let (t, h, x) = reference_protocol s msg.pid j v hp in
    (
      t,
      ap (λ n. dispatch msg.pid n (ticked s)) e ∙ h,
      Exchange-Served x (all_ends-notices s msg.pid j),
    )
handle-Served s msg v (hp, inr e) =
    let (t, h, x) = end_protocol s msg.pid v hp in
    (t, ap (λ n. dispatch msg.pid n (ticked s)) e ∙ h, Exchange-Served x (omega arith))

pub serve_next-Sound :
    (requests : List Msq3) (s : System)
    → Requests s.mem.k requests
    → IsSound s
    → Then (serve_next requests s)
unfolding serve_next
serve_next-Sound [] s all v = tt
serve_next-Sound (msg ∷ rest) s all v =
    let (t, e, served) = handle-Served s.mem msg v.owned all.0 in
    rw e record {
      owned = handle-IsOwned s.mem t msg e v.owned;
      asked = subst (λ k. Requests k rest) (sym served.size) all.1;
      told = omega (arith, served.told, v.told);
      noted = omega (arith, served.kept s.heard, v.noted);
      stopped = λ h. omega (arith, served.size, v.stopped h);
    }
