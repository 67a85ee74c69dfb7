-- ===== src/Workers.antt =====
-- A6/examples/E1.c: threads that change random entries of two arrays until the master thread tells them
-- to stop. A part under a mutex is one step. The values of rand() are arguments, the workers start at
-- any time, and a wakeup without a signal is a step of its own.
pub mod Values
pub mod Kept
pub mod Waking
pub mod Steps
pub mod Always
pub mod Joined
mod Tests
use os_lab_sp.Prelude.{
  ℕ, zero, suc, ◌+◌, ◌*◌, ◌/◌, ◌%◌, ◌≡◌, Bool, true, false, List, [], ◌∷◌, ◌>>=◌, Option, none,
  some, ltb, ◌==◌, ◌&&◌, if◌then◌else◌,
}
use os_lab_sp.Prelude.Family.{update}

-- N and S
abbrev pub workers_count : ℕ
workers_count = 4

abbrev pub array_length : ℕ
array_length = 5

-- Where a worker is: before donemutex; before csmutex; before ++count; in pthread_cond_wait; behind the wait
-- or the broadcast; at its end.
pub data WorkerPlace : Type 0 where
  checking drawing counting pausing leaving gone : WorkerPlace

pub record Worker : Type 0 where
  pub place : WorkerPlace
  pub count : ℕ

-- The master thread: before mdone = 1, and in its loop, where it joins the worker `i`.
pub data Master : Type 0 where
  sleeping : Master
  joining : ℕ → Master

pub record Pool : Type 0 where
  pub a : ℕ → ℕ
  pub c : ℕ → ℕ
  pub mdone : Bool
  pub wdone : ℕ
  pub workers : ℕ → Worker
  pub master : Master

-- init_arrays, and the workers that wait to run.
unfoldable pub pool_init : (ℕ → ℕ) → Pool
pool_init rand = record {
  a = λ i. 1 + rand i % 10;
  c = λ i. 0;
  mdone = false;
  wdone = 0;
  workers = λ j. record { place = checking; count = 0 };
  master = sleeping;
}

-- The new value of an entry.
unfoldable pub new_value : ℕ → ℕ
new_value s = if s % 2 == 0 then s / 2 else 3 * s + 1

-- pthread_cond_broadcast, for one worker.
abbrev pub wake_place : WorkerPlace → WorkerPlace
wake_place pausing = leaving
wake_place p = p

abbrev pub wake : Worker → Worker
wake w = record w { place = wake_place w.place }

abbrev pub move_to : WorkerPlace → ℕ → Pool → Pool
move_to p n s = record s { workers = update s.workers n (record (s.workers n) { place = p }) }

-- The part under donemutex.
unfoldable pub check_done : ℕ → Pool → Pool
check_done n s =
    if s.mdone
    then (if ltb (s.wdone + 1) workers_count
        then move_to pausing n (record s { wdone = s.wdone + 1 })
        else move_to leaving n
            (record s { wdone = s.wdone + 1; workers = λ j. wake (s.workers j) }))
    else move_to drawing n s

-- The part under csmutex, for the entry `i`.
unfoldable pub change_entry : ℕ → ℕ → Pool → Pool
unfolding new_value
change_entry n i s =
    move_to counting n
      (record s { a = update s.a i (new_value (s.a i)); c = update s.c i (s.c i + 1) })

unfoldable pub worker_at : WorkerPlace → ℕ → ℕ → Pool → Option Pool
unfolding check_done change_entry
worker_at checking n r s = some (check_done n s)
worker_at drawing n r s = some (change_entry n (r % array_length) s)
worker_at counting n r s = some (record s {
  workers = update s.workers n (record { place = checking; count = (s.workers n).count + 1 });
})
worker_at pausing n r s = none
worker_at leaving n r s = some (move_to gone n s)
worker_at gone n r s = none

abbrev pub is_gone : WorkerPlace → Bool
is_gone gone = true
is_gone p = false

-- do_work
unfoldable pub master_at : Master → Pool → Option Pool
master_at sleeping s = some (record s { mdone = true; master = joining 0 })
master_at (joining i) s =
    if ltb i workers_count && is_gone (s.workers i).place
    then some (record s { master = joining (i + 1) })
    else none

-- Who takes the next step; a worker with a value of rand().
pub data Runner : Type 0 where
  the_master : Runner
  a_worker : (n r : ℕ) → Runner
  wakes_up : (n : ℕ) → Runner  -- in pthread_cond_wait, without a signal

abbrev pub is_wakeup : Runner → Bool
is_wakeup (wakes_up n) = true
is_wakeup x = false

abbrev pub is_pausing : WorkerPlace → Bool
is_pausing pausing = true
is_pausing p = false

unfoldable pub run_next : Runner → Pool → Option Pool
unfolding worker_at master_at
run_next the_master s = master_at s.master s
run_next (a_worker n r) s =
    let next = worker_at (s.workers n).place n r s in if ltb n workers_count then next else none
run_next (wakes_up n) s =
    if ltb n workers_count && is_pausing (s.workers n).place
    then some (move_to leaving n s)
    else none

-- The states in any order of these steps; if `signalled` is true, pthread_cond_wait returns only after a broadcast.
pub data Ran (signalled : Bool) (rand : ℕ → ℕ) : Pool → Type 0 where
  at_start : Ran signalled rand (pool_init rand)
  after :
      {s t : Pool} (x : Runner)
      → Ran signalled rand s
      → (signalled ≡ true → is_wakeup x ≡ false)
      → run_next x s ≡ some t
      → Ran signalled rand t

unfoldable pub run_list : List Runner → Pool → Option Pool
run_list [] s = some s
run_list (x ∷ order) s = run_next x s >>= run_list order
