-- ===== src/Jobs/Tests.antt =====
-- A2/mgr.c: a manager with one job that was stopped, and the theorems at it.
use os_lab_sp.Prelude.{ℕ, ◌+◌, ◌≡◌, refl, [], ◌∷◌, ◌++◌, arith, ◌==◌, if◌then◌else◌}
use os_lab_sp.Prelude.Family.{sum_below}
use os_lab_sp.Jobs.{
  finished, suspended, terminated, Signal, sigint, sigtstp, Manager, is_full, run_job, start_job,
  find_slot, create_process, deliver, parent_sig_handler, signal_current, signal_child, mark, kill,
  continue_job, run, resume, end, at_prompt, step, next, init,
}
use os_lab_sp.Jobs.Count.{count_suspended, IsCounted, Next}
use os_lab_sp.Jobs.Steps.{step-IsCounted, stopped_again_miscounts}
use os_lab_sp.Jobs.Signals.{Ran, run_job-Ran, killed_then_stopped}

abbrev fresh : Manager
unfolding init create_process
fresh = init 100 100

fresh-IsCounted : IsCounted fresh
unfolding fresh sum_below
fresh-IsCounted = record { counted = refl; current = λ i e. cc; blank = λ i e. ground arith }

-- Job 1 was stopped while it ran.
abbrev stopped_job : Manager
unfolding fresh create_process
stopped_job = record fresh {
  table = λ i. if i == 1 then create_process 101 101 suspended "job A" else fresh.table i;
  num_suspended = 1;
  sent = (101, sigtstp) ∷ [];
}

stopped_job-IsCounted : IsCounted stopped_job
unfolding stopped_job fresh sum_below
stopped_job-IsCounted = record { counted = refl; current = λ i e. cc; blank = λ i e. ground arith }

stopped_run :
    Next
      (λ t. (t.num_suspended ≡ 1) × (t.sent ≡ (101, sigtstp) ∷ []))
      (step (run 101 101 "job A" (sigtstp ∷ [])) fresh)
unfolding fresh step run_job start_job find_slot is_full deliver parent_sig_handler signal_current
    signal_child mark kill create_process
stopped_run = (refl, refl)

step-IsCounted_example : Next IsCounted (step (resume 1 (sigint ∷ [])) stopped_job)
step-IsCounted_example =
    step-IsCounted (resume 1 (sigint ∷ [])) stopped_job stopped_job-IsCounted (λ e. cc)

twice_stopped :
    (t : Manager) × (continue_job 1 (sigtstp ∷ []) stopped_job ≡ next t)
    × (t.num_suspended ≡ count_suspended t.table + 1)
    × ((t.table 1).status ≡ finished)
unfolding stopped_job
twice_stopped = stopped_again_miscounts 1 [] stopped_job stopped_job-IsCounted (omega arith) refl

run_job-Ran_example :
    (i : ℕ) × (t : Manager) × (run_job 102 102 "job B" (sigint ∷ sigtstp ∷ []) stopped_job ≡ next t)
    × Ran i 102 102 "job B" (sigint ∷ sigtstp ∷ []) stopped_job t
    × ((sig : Signal) → step (at_prompt sig) t ≡ next t)
unfolding stopped_job fresh is_full create_process
run_job-Ran_example = run_job-Ran 102 102 "job B" (sigint ∷ sigtstp ∷ []) stopped_job refl

stops_killed_job :
    (t : Manager) × (u : Manager) × (step (end 1) stopped_job ≡ next t)
    × (step (at_prompt sigtstp) t ≡ next u)
    × ((t.table 1).status ≡ terminated)
    × ((u.table 1).status ≡ suspended)
    × (u.num_suspended ≡ t.num_suspended + 1)
    × (u.sent ≡ t.sent ++ ((stopped_job.table 1).pid, sigtstp) ∷ [])
unfolding stopped_job
stops_killed_job = killed_then_stopped 1 stopped_job stopped_job-IsCounted (omega arith) refl
