-- ===== src/Threads/Tests.antt =====
-- A7/foothread.c: the theorems at small numbers of threads.
use os_lab_sp.Prelude.{ℕ, ◌≡◌, ◌≢◌, refl, [], ◌∷◌, none, some, arith}
use os_lab_sp.Threads.{
  outside, MutexState, mutex_init, access_at, access, interleave, ExitState, exit_init, wake, call,
  exit_step,
}
use os_lab_sp.Threads.{BarrierState, barrier_init, arrive_at, pass, barrier_step}
use os_lab_sp.Threads.Barrier.{
  Visited, fresh, then_step, InRounds, Visited-InRounds, full_round_passes, lone_call_waits,
}
use os_lab_sp.Threads.Mutex.{IsExclusive, Reached, interleave-IsExclusive, unlock_lost}
use os_lab_sp.Threads.Exit.{
  Reach, begin, after, IsCounted, Reach-IsCounted, all_released, returned_early,
}

mutex_init-IsExclusive : IsExclusive mutex_init
unfolding mutex_init
mutex_init-IsExclusive = record { taken = λ i h. cc; one = λ i j h k. cc; binary = omega arith }

-- The second thread blocks while the first one is inside.
blocked_run : interleave (7 ∷ 7 ∷ 8 ∷ []) mutex_init ≡ none
unfolding interleave access access_at mutex_init
blocked_run = refl

interleave-IsExclusive_example : Reached IsExclusive (interleave (7 ∷ 7 ∷ 7 ∷ []) mutex_init)
interleave-IsExclusive_example =
    interleave-IsExclusive (7 ∷ 7 ∷ 7 ∷ []) mutex_init mutex_init-IsExclusive

lost_for_eight :
    (t : MutexState) × (interleave (7 ∷ 7 ∷ 7 ∷ 7 ∷ 7 ∷ 8 ∷ 8 ∷ 7 ∷ 8 ∷ []) mutex_init ≡ some t)
    × ((i : ℕ) → t.place i ≡ outside)
    × ((i : ℕ) → access i t ≡ none)
lost_for_eight = unlock_lost 7 8 (omega arith) (omega arith)

-- One thread and the main thread, which waits while the other one has called.
abbrev last_waits : ExitState
last_waits = record { num_threads = 1; exited_threads = 2; exit_sem = 1; blocked = 1; returned = 1 }

last_waits-Reach : Reach 1 last_waits
unfolding exit_step exit_init
last_waits-Reach = after call (after call begin refl) refl

last_waits-IsCounted : IsCounted 1 last_waits
last_waits-IsCounted = Reach-IsCounted 1 last_waits (omega arith) last_waits-Reach

last_wakes : exit_step wake last_waits ≢ none
last_wakes = all_released 1 last_waits (omega arith) last_waits-Reach refl (omega arith)

main_leaves :
    (s : ExitState) × Reach 2 s × (s.exited_threads ≡ 2) × (s.returned ≡ 2) × (s.blocked ≡ 0)
main_leaves = returned_early 2 (omega arith)

-- Two threads of a barrier for two: the first one has its token.
abbrev round : BarrierState
round = record { trip_count = 2; count = 0; tokens = 1; waiting = 1; arrived = 2; passed = 1 }

abbrev round_over : BarrierState
round_over = record { trip_count = 2; count = 0; tokens = 0; waiting = 0; arrived = 2; passed = 2 }

round-Visited : Visited 2 round
unfolding barrier_step barrier_init
round-Visited = then_step arrive_at (then_step arrive_at fresh refl) refl

round_over-Visited : Visited 2 round_over
unfolding barrier_step
round_over-Visited = then_step pass round-Visited refl

Visited-InRounds_example : InRounds 2 round
Visited-InRounds_example = Visited-InRounds 2 round (omega arith) round-Visited

round_opens : barrier_step pass round ≢ none
round_opens = full_round_passes 2 round (omega arith) round-Visited refl (omega arith)

next_call_waits :
    (t : BarrierState) × (barrier_step arrive_at round_over ≡ some t)
    × (t.waiting ≡ 1)
    × (barrier_step pass t ≡ none)
next_call_waits = lone_call_waits 2 round_over (omega arith) round_over-Visited refl refl
