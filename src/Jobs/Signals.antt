-- ===== src/Jobs/Signals.antt =====
-- A2/mgr.c: what a signal does to the job that runs, and at the prompt after it.
use os_lab_sp.Prelude.{
  ℕ, ◌+◌, ◌<◌, ◌≡◌, ◌≢◌, refl, true, false, List, [], ◌∷◌, none, some, arith, ap, sym, ◌++◌,
}
use mathlib.Core.List.{append-nil}
use Prim.Native.String.{String}
use os_lab_sp.Prelude.Family.{update}
use os_lab_sp.Jobs.{
  Status, finished, suspended, terminated, Signal, sigint, sigtstp, sigcont, sigkill, Manager,
  table_size, create_process, is_full, is_suspended, signal_child, deliver, next, start_job,
  run_job, kill_job, end, at_prompt, step,
}
use os_lab_sp.Jobs.Count.{IsCounted, handler-none, handler-some}
use os_lab_sp.Jobs.Slots.{slot_found, with_job-suspended, deliver-none, stopped}

-- The status of a job after the signals that arrive while it runs: the first one decides.
abbrev pub fate : List Signal → Status
fate (sigint ∷ signals) = terminated
fate (sigtstp ∷ signals) = suspended
fate _ = finished

-- The signals that the manager passes on to the job.
abbrev pub passed_on : ℕ → List Signal → List (ℕ × Signal)
passed_on pid (sigint ∷ signals) = (pid, sigkill) ∷ []
passed_on pid (sigtstp ∷ signals) = (pid, sigtstp) ∷ []
passed_on pid _ = []

-- The job `pid` ran in slot `i`.
pub record Ran (i pid pgid : ℕ) (name : String) (signals : List Signal) (s t : Manager)
    : Type 0 where
  pub free : (s.table i).pid ≡ 0
  pub within : i < table_size
  pub entry : t.table i ≡ create_process pid pgid (fate signals) name
  pub others : (j : ℕ) → j ≢ i → t.table j ≡ s.table j
  pub calls : t.sent ≡ s.sent ++ passed_on pid signals
  pub idle : t.curr_child ≡ none

-- The state in which the manager waits for the new job.
abbrev begun : ℕ → ℕ → ℕ → String → Manager → Manager
unfolding create_process
begun i pid pgid name s = record s {
  table = update s.table i (create_process pid pgid finished name);
  curr_child = some i;
}

-- The handler clears the current child, so the signals after the first one do nothing.
deliver_once :
    (sig : Signal) (signals : List Signal) (i : ℕ) (s : Manager)
    → s.curr_child ≡ some i
    → deliver (sig ∷ signals) s ≡ record (signal_child i sig s) { curr_child = none }
unfolding deliver
deliver_once sig signals i s e =
    rw (handler-some sig s i e)
      (deliver-none signals (record (signal_child i sig s) { curr_child = none }) refl)

module _ (i pid pgid : ℕ) (name : String) (s : Manager) (free : (s.table i).pid ≡ 0)
    (within : i < table_size) where
  -- No signal reached the job.
  untouched-Ran :
      (signals : List Signal)
      → fate signals ≡ finished
      → passed_on pid signals ≡ []
      → Ran i pid pgid name signals s (record (begun i pid pgid name s) { curr_child = none })
  unfolding create_process
  untouched-Ran signals e f = record {
    free = free;
    within = within;
    entry = ground arith;
    others = λ j h. ground arith;
    calls = rw f (sym (append-nil s.sent));
    idle = refl;
  }

  waited-Ran :
      (signals : List Signal)
      → Ran i pid pgid name signals s
          (record (deliver signals (begun i pid pgid name s)) { curr_child = none })
  unfolding deliver signal_child create_process
  waited-Ran [] = untouched-Ran [] refl refl
  waited-Ran (sigint ∷ signals) =
      rw (deliver_once sigint signals i (begun i pid pgid name s) refl) record {
        free = free;
        within = within;
        entry = ground arith;
        others = λ j h. ground arith;
        calls = ground arith;
        idle = refl;
      }
  waited-Ran (sigtstp ∷ signals) =
      rw (deliver_once sigtstp signals i (begun i pid pgid name s) refl) record {
        free = free;
        within = within;
        entry = ground arith;
        others = λ j h. ground arith;
        calls = ground arith;
        idle = refl;
      }
  waited-Ran (sigcont ∷ signals) =
      rw (deliver_once sigcont signals i (begun i pid pgid name s) refl)
        (untouched-Ran (sigcont ∷ signals) refl refl)
  waited-Ran (sigkill ∷ signals) =
      rw (deliver_once sigkill signals i (begun i pid pgid name s) refl)
        (untouched-Ran (sigkill ∷ signals) refl refl)

-- Unless the last slot of the table is taken, a new job gets an empty slot and no other slot changes.
-- The first signal while it runs decides its status and is the only one passed on to it, and
-- after it the manager has no current child, so that a signal at the prompt does nothing.
pub run_job-Ran :
    (pid pgid : ℕ) (name : String) (signals : List Signal) (s : Manager)
    → is_full s.table ≡ false
    → (i : ℕ) × (t : Manager) × (run_job pid pgid name signals s ≡ next t)
      × Ran i pid pgid name signals s t
      × ((sig : Signal) → step (at_prompt sig) t ≡ next t)
unfolding run_job start_job step create_process
run_job-Ran pid pgid name signals s more =
    let (i, e, within, free) = slot_found s.table more in
    let t = record (deliver signals (begun i pid pgid name s)) { curr_child = none } in
    (
      i,
      t,
      rw (more, e) refl,
      waited-Ran i pid pgid name s free within signals,
      λ sig. ap next (handler-none sig t refl),
    )

-- Where the counter is right: after the command k has killed a suspended job, the job is still the
-- current child: a stop signal at the prompt marks it as suspended again, counts it again and is
-- passed on to its number.
pub killed_then_stopped :
    (job : ℕ) (s : Manager)
    → IsCounted s
    → job < table_size
    → is_suspended (s.table job).status ≡ true
    → (t : Manager) × (u : Manager) × (step (end job) s ≡ next t)
      × (step (at_prompt sigtstp) t ≡ next u)
      × ((t.table job).status ≡ terminated)
      × ((u.table job).status ≡ suspended)
      × (u.num_suspended ≡ t.num_suspended + 1)
      × (u.sent ≡ t.sent ++ ((s.table job).pid, sigtstp) ∷ [])
unfolding step kill_job signal_child
killed_then_stopped job s v inside held =
    let t = stopped job s in
    (
      t,
      record (signal_child job sigtstp t) { curr_child = none },
      with_job-suspended job (stopped job) s v inside held,
      ap next (handler-some sigtstp t job refl),
      ground arith,
      ground arith,
      refl,
      ground arith,
    )
