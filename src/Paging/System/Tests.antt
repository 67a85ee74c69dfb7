-- ===== src/Paging/System/Tests.antt =====
-- A8/sched.c, A8/process.c and A8/mmu.c: two processes.
use os_lab_sp.Prelude.{
  ℕ, ◌≤◌, ◌≡◌, refl, List, [], ◌∷◌, some, none, arith, Option, ◌>>=◌, ◌==◌, if◌then◌else◌, subst,
  ap, sym, ◌∙◌, Option-cases, inl, inr,
}
use os_lab_sp.Paging.{Memory}
use os_lab_sp.Paging.Mmu.{
  handle, dispatch, access, hit, fault, load_page, find_free, find_victim, place, replace, refuse,
  finish, release_all, release_from, release_page, tell_sched, reply,
}
use os_lab_sp.Paging.Owned.{IsOwned}
use mathlib.Core.Option.{some-injective}
use os_lab_sp.Paging.Master.{
  blank, set_up, allocate, start, sum_sizes, grant_all, grant_pages, grant,
}
use os_lab_sp.Paging.Master.Shares.{sizes}
use os_lab_sp.Paging.Master.Allocation.{start_correct}
use os_lab_sp.Paging.System.{
  System, faulted, finished, Program, scheduler, mmu, process, system_step, launched, nth,
}
use os_lab_sp.Paging.System.Ends.{ends_among, all_ends}
use os_lab_sp.Paging.System.Orders.{Reached, at_start, after_act, Reached-IsEnded}

-- Two processes of two pages each, and two frames.
abbrev two : Memory
unfolding allocate blank sum_sizes grant_all grant_pages grant sizes
two = allocate 2 (blank 2 3 2 (λ p. 1))

-- Process 0 refers to its page 1, which is not in memory, and process 1 to its page 0, which is.
abbrev refs : ℕ → List ℕ
refs p = if p == 0 then 1 ∷ [] else 0 ∷ []

abbrev advance : Program → System → Option System
unfolding system_step handle dispatch access hit fault load_page find_free find_victim place replace
    refuse finish release_all release_from release_page tell_sched reply
advance a s = system_step a s

abbrev run : List Program → System → Option System
run [] s = some s
run (a ∷ order) s = advance a s >>= run order

abbrev begun : System
unfolding launched
begun = launched two refs

abbrev system_of : Option System → System
system_of none = begun
system_of (some s) = s

abbrev order : List Program
order =
    process 0
    ∷ process 1
    ∷ scheduler
    ∷ process 0
    ∷ process 0
    ∷ mmu
    ∷ process 0
    ∷ scheduler
    ∷ scheduler
    ∷ process 1
    ∷ process 1
    ∷ mmu
    ∷ process 1
    ∷ process 1
    ∷ mmu
    ∷ scheduler
    ∷ scheduler
    ∷ process 0
    ∷ process 0
    ∷ mmu
    ∷ process 0
    ∷ process 0
    ∷ mmu
    ∷ scheduler
    ∷ []

abbrev done : System
done = system_of (run order begun)

done_ends : (done.phase ≡ finished) × (done.mem.terminated ≡ 2)
unfolding advance begun two nth
done_ends = (refl, refl)

-- Process 1 runs before process 0 has received the answer to its page fault, and receives that answer.
abbrev hasty : List Program
hasty =
    process 0
    ∷ process 1
    ∷ scheduler
    ∷ process 0
    ∷ process 0
    ∷ mmu
    ∷ scheduler
    ∷ scheduler
    ∷ process 1
    ∷ process 1
    ∷ process 1
    ∷ []

wrong_answer : ((system_of (run hasty begun)).procs 1).place ≡ faulted
unfolding advance begun two nth
wrong_answer = refl

-- Process 0 is refused and process 1 takes its answer: process 0 goes on with the frame of process 1, and
-- its end is counted again.
abbrev counted : System
unfolding launched
counted = system_of (
    run
      (process 0
        ∷ process 1
        ∷ scheduler
        ∷ process 0
        ∷ process 0
        ∷ mmu
        ∷ scheduler
        ∷ scheduler
        ∷ process 1
        ∷ process 1
        ∷ process 1
        ∷ mmu
        ∷ process 0
        ∷ process 0
        ∷ mmu
        ∷ scheduler
        ∷ [])
      (launched two (λ p. if p == 0 then 5 ∷ [] else 0 ∷ [])))

counted_twice :
    (counted.phase ≡ finished)
    × (counted.mem.terminated ≡ 2)
    × (counted.mem.to_sched ≡ record { type = 2; pid = 0 } ∷ record { type = 2; pid = 0 } ∷ [])
unfolding advance counted two nth
counted_twice = (refl, refl, refl)

run-Reached :
    (order : List Program) (s t : System)
    → Reached two refs s
    → run order s ≡ some t
    → Reached two refs t
unfolding advance
run-Reached [] s t r e = subst (Reached two refs) (ground (arith, e)) r
run-Reached (a ∷ order) s t r e = elim (Option-cases (system_step a s)) [
  | inl f ↦ absurd (
      let blocked : none ≡ some t = sym (ap (λ o. o >>= run order) f) ∙ e in
      ground (arith, blocked))
  | inr (u, f) ↦ run-Reached order u t (after_act a r f) (sym (ap (λ o. o >>= run order) f) ∙ e)
]

two-IsOwned : IsOwned two
unfolding two start set_up allocate
two-IsOwned =
    let (s, e, owned, rest, beyond) = start_correct 2 3 2 (λ p. 1) (omega arith) (omega arith) in
    subst IsOwned (sym (some-injective two s e)) owned

order_runs : run order begun ≡ some done
unfolding advance begun two nth
order_runs = refl

Reached-IsEnded_example :
    IsOwned done.mem
    × (all_ends done.mem.to_sched ≤ done.mem.terminated)
    × (done.phase ≡ finished
        → (done.mem.k ≤ ends_among done.heard done.mem.to_sched)
          × (done.mem.k ≤ done.mem.terminated))
unfolding two begun
Reached-IsEnded_example =
    Reached-IsEnded two refs done two-IsOwned refl
      (run-Reached order begun done at_start order_runs)
