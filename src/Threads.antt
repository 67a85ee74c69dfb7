-- ===== src/Threads.antt =====
-- A7/foothread.c: the mutex, the exit, the barrier and the creation of the user threads. Each access of a thread to a semaphore or
-- to a field of the mutex is a step of its own, and a blocked semop is `none`.
pub mod Mutex
pub mod Exit
pub mod Barrier
pub mod Create
mod Tests
use os_lab_sp.Prelude.{
  ℕ, zero, suc, ◌+◌, ◌-◌, Bool, true, false, List, [], ◌∷◌, Option, none, some, ◌==◌, if◌then◌else◌,
  ◌>>=◌,
}
use os_lab_sp.Prelude.Family.{update}

-- Where a thread is: outside; past P of the lock; past the lock; past the test on tid, and on the value,
-- in the unlock; past V of the unlock.
pub data Place : Type 0 where
  outside entering holding checked unlocking leaving : Place

-- foothread_mutex_t, and the threads by their numbers.
pub record MutexState : Type 0 where
  pub value : ℕ  -- of the semaphore
  pub tid : ℕ
  pub place : ℕ → Place

unfoldable pub mutex_init : MutexState
mutex_init = record { value = 1; tid = 0; place = λ i. outside }

abbrev pub go : ℕ → Place → MutexState → MutexState
go i p s = record s { place = update s.place i p }

-- The next access of thread `i`, which is at the place given.
unfoldable pub access_at : Place → ℕ → MutexState → Option MutexState
access_at outside i s =
    if s.value == 0 then none else some (go i entering (record s { value = s.value - 1 }))
access_at entering i s = some (go i holding (record s { tid = i }))
access_at holding i s = if s.tid == i then some (go i checked s) else some (go i outside s)
access_at checked i s = if s.value == 1 then some (go i outside s) else some (go i unlocking s)
access_at unlocking i s = some (go i leaving (record s { value = s.value + 1 }))
access_at leaving i s = some (go i outside (record s { tid = 0 }))

unfoldable pub access : ℕ → MutexState → Option MutexState
access i s = access_at (s.place i) i s

-- The threads run in the order of the list.
unfoldable pub interleave : List ℕ → MutexState → Option MutexState
interleave [] s = some s
interleave (i ∷ order) s = access i s >>= interleave order

-- foothread_exit: mtx makes the first part one step. The threads in P(exit_sem) are counted.
pub record ExitState : Type 0 where
  pub num_threads : ℕ
  pub exited_threads : ℕ
  pub exit_sem : ℕ
  pub blocked : ℕ
  pub returned : ℕ  -- the calls that have returned

unfoldable pub exit_init : ℕ → ExitState
exit_init n = record {
  num_threads = n;
  exited_threads = 0;
  exit_sem = 0;
  blocked = 0;
  returned = 0;
}

pub data ExitStep : Type 0 where
  call : ExitStep  -- a thread calls foothread_exit
  wake : ExitStep  -- a thread gets past P(exit_sem)

unfoldable pub exit_step : ExitStep → ExitState → Option ExitState
exit_step call s =
    let t = record s { exited_threads = s.exited_threads + 1 } in
    if t.exited_threads == s.num_threads
    then some (record t { exit_sem = s.exit_sem + s.num_threads; returned = s.returned + 1 })
    else some (record t { blocked = s.blocked + 1 })
exit_step wake s =
    if s.exit_sem == 0
    then none
    else if s.blocked == 0
    then none
    else some
        (record s { exit_sem = s.exit_sem - 1; blocked = s.blocked - 1; returned = s.returned + 1 })

-- foothread_barrier_t. Its mutex makes the first part of the wait one step; `waiting` counts the threads
-- in P(semid), and the last two fields the calls of foothread_barrier_wait and those that have returned.
pub record BarrierState : Type 0 where
  pub trip_count : ℕ
  pub count : ℕ
  pub tokens : ℕ  -- the value of the semaphore semid
  pub waiting : ℕ
  pub arrived : ℕ
  pub passed : ℕ

unfoldable pub barrier_init : ℕ → BarrierState
barrier_init n = record {
  trip_count = n;
  count = 0;
  tokens = 0;
  waiting = 0;
  arrived = 0;
  passed = 0;
}

pub data BarrierStep : Type 0 where
  arrive_at : BarrierStep  -- a thread calls foothread_barrier_wait
  pass : BarrierStep  -- a thread gets past P(semid)

unfoldable pub barrier_step : BarrierStep → BarrierState → Option BarrierState
barrier_step arrive_at s =
    let t = record s { count = s.count + 1; arrived = s.arrived + 1 } in
    if t.count == s.trip_count
    then some
        (record t { tokens = s.tokens + (s.trip_count - 1); count = 0; passed = s.passed + 1 })
    else some (record t { waiting = s.waiting + 1 })
barrier_step pass s =
    if s.tokens == 0
    then none
    else if s.waiting == 0
    then none
    else some (record s { tokens = s.tokens - 1; waiting = s.waiting - 1; passed = s.passed + 1 })
