-- ===== src/Paging/System/Orders.antt =====
-- A8/sched.c, A8/process.c and A8/mmu.c: the programs in any order.
use os_lab_sp.Prelude.{
  ℕ, suc, ◌+◌, ◌<◌, ◌≤◌, ◌≡◌, refl, List, [], ◌∷◌, ◌++◌, some, ◌==◌, ltb, leb, arith, ap, subst,
  Bool-cases, Option-cases, inl, inr,
}
use os_lab_sp.Prelude.Int.{ℤ, pos, negsuc}
use os_lab_sp.Paging.{Memory, Msq2, Msq3}
use os_lab_sp.Paging.Owned.{IsOwned}
use os_lab_sp.Paging.Serve.{IsRequest}
use os_lab_sp.Paging.Serve.Total.{Requests}
use os_lab_sp.Paging.System.{
  System, ProcPlace, arriving, waiting, asking, awaiting, faulted, ended, SchedPhase, choosing,
  listening, finished, nth, launched, note, close_round, choose, schedule_at, down, ask, get_answer,
  run_at, Program, scheduler, mmu, process, system_step,
}
use os_lab_sp.Paging.System.Ends.{
  ends_among, all_ends, ends_among-le, ends_among-next, Sound, IsSound, Then, serve_next-Sound,
}

-- The states of the programs that start with the memory `mem`.
pub data Reached (mem : Memory) (refs : ℕ → List ℕ) : System → Type 0 where
  at_start : Reached mem refs (launched mem refs)
  after_act :
      {s t : System} (a : Program)
      → Reached mem refs s
      → system_step a s ≡ some t
      → Reached mem refs t

Requests-append :
    (k : ℕ) (l : List Msq3) (msg : Msq3)
    → Requests k l
    → IsRequest k msg
    → Requests k (l ++ msg ∷ [])
Requests-append k [] msg all one = (one, tt)
Requests-append k (m ∷ l) msg all one = (all.0, Requests-append k l msg all.1 one)

-- The scheduler goes on with its loop, or ends it.
abbrev IsOpen : System → Type 0
IsOpen s = Sound s.mem s.requests choosing s.heard s.terminated_processes

close_round-IsSound : (s : System) → IsOpen s → IsSound (close_round s)
unfolding close_round
close_round-IsSound s v = elim (Bool-cases (leb s.mem.k s.terminated_processes)) [
  | inl full ↦ rw full record {
    owned = v.owned;
    asked = v.asked;
    told = v.told;
    noted = v.noted;
    stopped = λ h. ground (arith, full);
  }
  | inr more ↦ rw more v
]

-- One more message of the MMU was received.
note-IsOpen :
    (msg : Msq2) (s : System)
    → nth s.mem.to_sched s.heard ≡ some msg
    → IsSound s
    → IsOpen (note msg (record s { heard = s.heard + 1 }))
unfolding note
note-IsOpen msg s e v =
    let next = ends_among-next s.heard s.mem.to_sched msg e in
    let again : ends_among (s.heard + 1) s.mem.to_sched ≡ ends_among (suc s.heard) s.mem.to_sched =
      ap (λ n. ends_among n s.mem.to_sched) (omega arith) in
    let counted : ends_among s.heard s.mem.to_sched ≤ ends_among (s.heard + 1) s.mem.to_sched =
      omega (arith, next, again) in
    let same : Sound s.mem s.requests choosing (s.heard + 1) s.terminated_processes = record {
      owned = v.owned;
      asked = v.asked;
      told = v.told;
      noted = omega (arith, v.noted, counted);
      stopped = λ h. cc;
    } in
    elim (Bool-cases (msg.type == 1)) [
      | inl fault ↦ rw fault same
      | inr other ↦ rw other (elim (Bool-cases (msg.type == 2)) [
        | inl end ↦ rw end record {
          owned = v.owned;
          asked = v.asked;
          told = v.told;
          noted = ground (arith, v.noted, next, again, end);
          stopped = λ h. cc;
        }
        | inr unknown ↦ rw unknown same
      ])
    ]

choose-Sound : (ready : List ℕ) (s : System) → IsSound s → Then (choose ready s)
unfolding choose
choose-Sound [] s v = tt
choose-Sound (p ∷ rest) s v = record {
  owned = v.owned;
  asked = v.asked;
  told = v.told;
  noted = v.noted;
  stopped = λ h. cc;
}

schedule_at-Sound : (p : SchedPhase) (s : System) → IsSound s → Then (schedule_at p s)
unfolding schedule_at
schedule_at-Sound choosing s v = choose-Sound s.ready s v
schedule_at-Sound listening s v = elim (Option-cases (nth s.mem.to_sched s.heard)) [
  | inl e ↦ rw e tt
  | inr (msg, e) ↦
      rw e
        (close_round-IsSound (note msg (record s { heard = s.heard + 1 })) (note-IsOpen msg s e v))
]
schedule_at-Sound finished s v = tt

down-Sound : (p : ℕ) (refs : List ℕ) (s : System) → IsSound s → Then (down p refs s)
unfolding down
down-Sound p refs s v = elim (Bool-cases (s.sem p == 0)) [
  | inl shut ↦ rw shut tt
  | inr token ↦ rw token v
]

ask-IsSound :
    (p : ℕ) (refs : List ℕ) (s : System) → p < s.mem.k → IsSound s → IsSound (ask p refs s)
unfolding ask
ask-IsSound p [] s hp v = record {
  owned = v.owned;
  asked = Requests-append s.mem.k s.requests _ v.asked (hp, inr refl);
  told = v.told;
  noted = v.noted;
  stopped = v.stopped;
}
ask-IsSound p (j ∷ refs) s hp v = record {
  owned = v.owned;
  asked = Requests-append s.mem.k s.requests _ v.asked (hp, inl (j, refl));
  told = v.told;
  noted = v.noted;
  stopped = v.stopped;
}

get_answer-IsSound :
    (num : ℤ) (p : ℕ) (refs : List ℕ) (s : System) → IsSound s → IsSound (get_answer num p refs s)
unfolding get_answer
get_answer-IsSound (pos fr) p refs s v = v
get_answer-IsSound (negsuc n) p refs s v = elim (Bool-cases (n == 0)) [
  | inl e ↦ rw e v
  | inr e ↦ rw e (elim (Bool-cases (n == 1)) [ inl f ↦ rw f v | inr f ↦ rw f v ])
]

run_at-Sound :
    (place : ProcPlace) (p : ℕ) (refs : List ℕ) (s : System)
    → p < s.mem.k
    → IsSound s
    → Then (run_at place p refs s)
unfolding run_at
run_at-Sound arriving p refs s hp v = v
run_at-Sound waiting p refs s hp v = down-Sound p refs s v
run_at-Sound asking p refs s hp v = ask-IsSound p refs s hp v
run_at-Sound awaiting p refs s hp v = elim (Option-cases (nth s.mem.to_process s.answered)) [
  | inl e ↦ rw e tt
  | inr (msg, e) ↦
      rw e (get_answer-IsSound msg.num p refs (record s { answered = s.answered + 1 }) v)
]
run_at-Sound faulted p refs s hp v = down-Sound p refs s v
run_at-Sound ended p refs s hp v = tt

system_step-Sound : (a : Program) (s : System) → IsSound s → Then (system_step a s)
unfolding system_step
system_step-Sound scheduler s v = schedule_at-Sound s.phase s v
system_step-Sound mmu s v = elim (Bool-cases (leb s.mem.k s.mem.terminated)) [
  | inl over ↦ rw over tt
  | inr on ↦ rw on (serve_next-Sound s.requests s v.asked v)
]
system_step-Sound (process p) s v = elim (Bool-cases (ltb p s.mem.k)) [
  | inl h ↦ rw h (run_at-Sound (s.procs p).place p (s.procs p).refs s (ground (arith, h)) v)
  | inr h ↦ rw h tt
]

Reached-IsSound :
    (mem : Memory) (refs : ℕ → List ℕ) (s : System)
    → IsOwned mem
    → mem.to_sched ≡ []
    → Reached mem refs s
    → IsSound s
unfolding launched all_ends
Reached-IsSound mem refs s v none_sent at_start = record {
  owned = v;
  asked = tt;
  told = let ends = ap all_ends none_sent in omega (arith, ends);
  noted = omega arith;
  stopped = λ h. cc;
}
Reached-IsSound mem refs t v none_sent (after_act {s} a r e) =
    subst Then e (system_step-Sound a s (Reached-IsSound mem refs s v none_sent r))

-- Whatever the order of the steps of the scheduler, the MMU and the processes, from a memory in which
-- the ownership of frames is right and the scheduler has not been told anything: the ownership of
-- frames stays right; the MMU has told the scheduler at most as many ends as it has counted; and when
-- the scheduler has ended its loop, it has received at least k notices of an end, and the MMU has
-- counted at least k ends. A process whose end is counted twice counts as two.
pub Reached-IsEnded :
    (mem : Memory) (refs : ℕ → List ℕ) (s : System)
    → IsOwned mem
    → mem.to_sched ≡ []
    → Reached mem refs s
    → IsOwned s.mem
      × (all_ends s.mem.to_sched ≤ s.mem.terminated)
      × (s.phase ≡ finished
          → (s.mem.k ≤ ends_among s.heard s.mem.to_sched) × (s.mem.k ≤ s.mem.terminated))
Reached-IsEnded mem refs s v none_sent r =
    let sound = Reached-IsSound mem refs s v none_sent r in
    let ends = ends_among-le s.heard s.mem.to_sched in
    (
      sound.owned,
      sound.told,
      λ h. (
        omega (arith, sound.stopped h, sound.noted),
        omega (arith, sound.stopped h, sound.noted, ends, sound.told),
      ),
    )
