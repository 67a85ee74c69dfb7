-- ===== src/Jobs/Steps.antt =====
-- A2/mgr.c: numSuspended across every command.
use os_lab_sp.Prelude.{
  ℕ, ◌+◌, ◌-◌, ◌<◌, ◌≡◌, ◌≢◌, refl, true, List, [], ◌∷◌, Option, none, some, inl, inr, arith, ap,
  ◌∙◌, ◌++◌, ◌⊎◌,
}
use os_lab_sp.Prelude.Family.{update}
use os_lab_sp.Jobs.{
  finished, suspended, terminated, Signal, sigint, sigtstp, sigcont, sigkill, Manager, table_size,
  is_suspended, signal_child, parent_sig_handler, deliver, next, continue_job, kill_job, Command,
  print, help, leave, unknown, run, resume, end, at_prompt, step,
}
use os_lab_sp.Jobs.Count.{count_suspended, IsCounted, Next, count-update, handler-IsCounted}
use os_lab_sp.Jobs.Slots.{
  run_job-IsCounted, with_job-Next, one_less, present, FirstStops, deliver-none, stopped,
  with_job-suspended,
}

kill_job-IsCounted : (job : ℕ) (s : Manager) → IsCounted s → Next IsCounted (kill_job job s)
unfolding kill_job
kill_job-IsCounted job s v = with_job-Next IsCounted job (stopped job) s v λ inside held.
    let less = one_less s job v inside held terminated refl in
    record {
      counted = omega (arith, less, v.counted);
      current = λ i e. ground (arith, present s job v inside held);
      blank = λ i h. ground (arith, v.blank i);
    }

-- The job is about to run again, with SIGCONT sent.
abbrev resumed : ℕ → Manager → Manager
resumed job s = record s {
  curr_child = some job;
  sent = s.sent ++ ((s.table job).pid, sigcont) ∷ [];
}

-- The end of a job that ran again.
abbrev ended : ℕ → Manager → Manager
ended job u = record u {
  table = update u.table job (record (u.table job) { status = finished });
  num_suspended = u.num_suspended - 1;
}

-- Only the first signal finds the job as the current child.
deliver-first :
    (sig : Signal) (signals : List Signal) (job : ℕ) (s : Manager)
    → deliver (sig ∷ signals) (resumed job s)
      ≡ record (signal_child job sig (resumed job s)) { curr_child = none }
unfolding deliver parent_sig_handler
deliver-first sig signals job s =
    deliver-none signals (record (signal_child job sig (resumed job s)) { curr_child = none }) refl

module _ (job : ℕ) (s : Manager) (v : IsCounted s) (inside : job < table_size)
    (held : is_suspended (s.table job).status ≡ true) where
  -- The job ends with no signal that reached it.
  ended_plain :
      (o : Option ℕ)
      → (o ≡ some job) ⊎ (o ≡ none)
      → IsCounted (ended job (record (resumed job s) { curr_child = o }))
  ended_plain o h =
      let less = one_less s job v inside held finished refl in
      record {
        counted = omega (arith, less, v.counted);
        current = λ i e. ground (arith, present s job v inside held);
        blank = λ i e. ground (arith, v.blank i);
      }

  -- The interrupt key ends the job: it is marked twice.
  ended_interrupted :
      IsCounted (ended job (record (signal_child job sigint (resumed job s)) { curr_child = none }))
  unfolding signal_child
  ended_interrupted =
      let once = update s.table job (record (s.table job) { status = terminated }) in
      let less = one_less s job v inside held terminated refl in
      let again = count-update once job (record (once job) { status = finished }) inside in
      record {
        counted = ground (arith, less, again, v.counted);
        current = λ i e. cc;
        blank = λ i e. ground (arith, v.blank i);
      }

  ended-IsCounted :
      (signals : List Signal)
      → ¬ FirstStops signals
      → IsCounted (ended job (deliver signals (resumed job s)))
  unfolding deliver signal_child
  ended-IsCounted [] h = ended_plain (some job) (inl refl)
  ended-IsCounted (sigint ∷ signals) h = rw (deliver-first sigint signals job s) ended_interrupted
  ended-IsCounted (sigtstp ∷ signals) h = absurd (h refl)
  ended-IsCounted (sigcont ∷ signals) h =
      rw (deliver-first sigcont signals job s) (ended_plain none (inr refl))
  ended-IsCounted (sigkill ∷ signals) h =
      rw (deliver-first sigkill signals job s) (ended_plain none (inr refl))

continue_job-IsCounted :
    (job : ℕ) (signals : List Signal) (s : Manager)
    → IsCounted s
    → ¬ FirstStops signals
    → Next IsCounted (continue_job job signals s)
unfolding continue_job
continue_job-IsCounted job signals s v h =
    with_job-Next IsCounted job (λ t. ended job (deliver signals (resumed job t))) s v
      λ inside held. ended-IsCounted job s v inside held signals h

-- A child has a number, and a job that runs again is not stopped.
abbrev pub IsUsual : Command → Type 0
IsUsual (run pid pgid name signals) = pid ≢ 0
IsUsual (resume job signals) = ¬ FirstStops signals
IsUsual _ = Unit

-- Every command, and every signal at the prompt, keeps numSuspended at the number of suspended
-- slots, if fork returns a number other than 0 and a job that runs again is not stopped.
pub step-IsCounted :
    (cmd : Command) (s : Manager) → IsCounted s → IsUsual cmd → Next IsCounted (step cmd s)
unfolding step
step-IsCounted (run pid pgid name signals) s v u = run_job-IsCounted pid pgid name signals s v u
step-IsCounted (resume job signals) s v u = continue_job-IsCounted job signals s v u
step-IsCounted (end job) s v u = kill_job-IsCounted job s v
step-IsCounted (at_prompt sig) s v u = handler-IsCounted sig s v
step-IsCounted leave s v u = tt
step-IsCounted print s v u = v
step-IsCounted help s v u = v
step-IsCounted unknown s v u = v

-- Where the counter is right, a suspended job that is continued and stopped once more is counted twice
-- when it ends: the counter is then one above the number of suspended slots.
pub stopped_again_miscounts :
    (job : ℕ) (signals : List Signal) (s : Manager)
    → IsCounted s
    → job < table_size
    → is_suspended (s.table job).status ≡ true
    → (t : Manager) × (continue_job job (sigtstp ∷ signals) s ≡ next t)
      × (t.num_suspended ≡ count_suspended t.table + 1)
      × ((t.table job).status ≡ finished)
unfolding continue_job signal_child
stopped_again_miscounts job signals s v inside held =
    let act : Manager → Manager = λ t. ended job (deliver (sigtstp ∷ signals) (resumed job t)) in
    let t = ended job (record (signal_child job sigtstp (resumed job s)) { curr_child = none }) in
    let once = update s.table job (record (s.table job) { status = suspended }) in
    let kept = count-update s.table job (once job) inside in
    let again = count-update once job (record (once job) { status = finished }) inside in
    (
      t,
      with_job-suspended job act s v inside held
          ∙ ap (λ u. next (ended job u)) (deliver-first sigtstp signals job s),
      ground (arith, kept, again, v.counted),
      ground arith,
    )
