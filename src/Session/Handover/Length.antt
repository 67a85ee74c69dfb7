-- ===== src/Session/Handover/Length.antt =====
-- A6/session.c: how long the threads of a visit run.
use os_lab_sp.Prelude.{
  ℕ, ◌<◌, ◌≡◌, refl, Bool, true, false, List, [], ◌∷◌, length, some, ◌==◌, ◌&&◌, ◌>>=◌, subst,
  arith, Option-cases, ap, sym, ◌∙◌, inl, inr,
}
use mathlib.Core.Option.{some-injective}
use os_lab_sp.Prelude.Explore.{Chain, done, step, level, Chain-lt, successors, fresh, elem}
use os_lab_sp.Session.Handover.{
  Threads, opening, thread_step, run_order, ThreadMove, runs, wakes, thread_move, OnlySignals,
  reach_barrier, asst_step, doctor_step, patient_step,
}
use os_lab_sp.Session.Handover.Same.{
  same_threads, same_threads_sound, same_bool, asst_number, doctor_number, patient_number,
}
use os_lab_sp.Session.Handover.Explored.{next, thread_step-next}

same_bool_refl : (b : Bool) → same_bool b b ≡ true
same_bool_refl true = refl
same_bool_refl false = refl

number_refl : (n : ℕ) → (n == n) ≡ true
number_refl n = ground arith

and_true : {a b : Bool} → a ≡ true → b ≡ true → (a && b) ≡ true
and_true {a = true} e h = h
and_true {a = false} e h = e

same_threads_refl : (s : Threads) → same_threads s s ≡ true
unfolding same_threads
same_threads_refl s = and_true (number_refl (asst_number s.asst)) (
    and_true (number_refl (doctor_number s.doctor)) (
      and_true (number_refl (patient_number s.patient)) (
        and_true (same_bool_refl s.asst_done) (
          and_true (same_bool_refl s.doc_done) (
            and_true (same_bool_refl s.pat_done)
              (and_true (number_refl s.count) (number_refl s.visits)))))))

level_empty : level same_threads next 23 (opening ∷ []) ≡ []
unfolding level successors next thread_step asst_step doctor_step patient_step reach_barrier
    same_threads elem fresh opening
level_empty = refl

run_order-Chain :
    (order : List ThreadMove) (s t : Threads)
    → OnlySignals order
    → run_order order s ≡ some t
    → Chain same_threads next (length order) s t
unfolding run_order thread_move
run_order-Chain [] s t only e =
    subst (λ u. Chain same_threads next 0 s u) (some-injective s t e) done
run_order-Chain (runs a ∷ order) s t only e = elim (Option-cases (thread_step a s)) [
  | inl missing ↦ absurd (ground (arith, e, missing))
  | inr (u, found) ↦
      step (thread_step-next a s u found)
        (run_order-Chain order u t only (sym (ap (λ o. o >>= run_order order) found) ∙ e))
]
run_order-Chain (wakes a ∷ order) s t only e = absurd only

-- Whatever the order in which the assistant, the doctor and the patient take their steps from the
-- beginning of a visit, if pthread_cond_wait returns only after a signal or a broadcast: they take at
-- most 22 steps together.
pub handover_length :
    (order : List ThreadMove) (s : Threads)
    → OnlySignals order
    → run_order order opening ≡ some s
    → length order < 23
handover_length order s only e =
    Chain-lt same_threads next same_threads_sound same_threads_refl 23 (length order) opening s
      level_empty (run_order-Chain order opening s only e)
