-- ===== src/Session/Handover/Tests.antt =====
-- A6/session.c: visits in which the threads take their steps in a given order.
use os_lab_sp.Prelude.{
  ℕ, Option, ◌<◌, ◌≡◌, refl, true, false, List, [], ◌∷◌, some, none, leb, length, ◌⊎◌,
}
use os_lab_sp.Session.Handover.{
  Asst, Doctor, Patient, Threads, opening, Thread, assistant, doctor, patient, thread_step,
  run_order, ThreadMove, runs, wakes, thread_move, OnlySignals, asst_wakes, asst_step, doctor_step,
  patient_step, reach_barrier,
}
use os_lab_sp.Session.Handover.Ends.{AtEnd, HasMissed, handover_ends}
use os_lab_sp.Session.Handover.Length.{handover_length}

-- The doctor waits first; the patient then signals while the assistant sleeps.
abbrev good_order : List ThreadMove
good_order =
    runs doctor
    ∷ runs assistant
    ∷ runs assistant
    ∷ runs assistant
    ∷ runs patient
    ∷ runs patient
    ∷ runs patient
    ∷ runs patient
    ∷ runs assistant
    ∷ runs assistant
    ∷ runs doctor
    ∷ runs doctor
    ∷ runs doctor
    ∷ runs assistant
    ∷ runs assistant
    ∷ runs patient
    ∷ runs patient
    ∷ runs assistant
    ∷ runs doctor
    ∷ runs doctor
    ∷ []

abbrev good_end : Threads
good_end = record {
  asst = Asst.over;
  doctor = Doctor.resting;
  patient = Patient.left;
  asst_done = false;
  doc_done = false;
  pat_done = false;
  count = 0;
  visits = 1;
}

-- The patient signals between the test and the wait of the assistant.
abbrev missed_order : List ThreadMove
missed_order =
    runs assistant
    ∷ runs assistant
    ∷ runs doctor
    ∷ runs patient
    ∷ runs patient
    ∷ runs patient
    ∷ runs assistant
    ∷ runs patient
    ∷ []

abbrev missed_end : Threads
missed_end = record {
  asst = Asst.asleep1;
  doctor = Doctor.resting;
  patient = Patient.asleep;
  asst_done = true;
  doc_done = false;
  pat_done = false;
  count = 0;
  visits = 0;
}

good_run : run_order good_order opening ≡ some good_end
unfolding run_order thread_move thread_step asst_step doctor_step patient_step reach_barrier opening
good_run = refl

missed_run : run_order missed_order opening ≡ some missed_end
unfolding run_order thread_move thread_step asst_step doctor_step patient_step reach_barrier opening
missed_run = refl

missed_stuck : (a : Thread) → thread_step a missed_end ≡ none
unfolding thread_step asst_step doctor_step patient_step
missed_stuck assistant = refl
missed_stuck doctor = refl
missed_stuck patient = refl

good-OnlySignals : OnlySignals good_order
good-OnlySignals = tt

missed-OnlySignals : OnlySignals missed_order
missed-OnlySignals = tt

-- The assistant wakes in the barrier without a signal, and is past it without a visit.
abbrev early_order : List ThreadMove
early_order =
    runs doctor
    ∷ runs assistant
    ∷ runs assistant
    ∷ runs assistant
    ∷ runs patient
    ∷ runs patient
    ∷ runs patient
    ∷ runs patient
    ∷ runs assistant
    ∷ runs assistant
    ∷ runs doctor
    ∷ runs doctor
    ∷ runs doctor
    ∷ runs assistant
    ∷ runs assistant
    ∷ runs assistant
    ∷ wakes assistant
    ∷ []

abbrev asst_and_visits : Option Threads → Option (Asst × ℕ)
asst_and_visits none = none
asst_and_visits (some s) = some (s.asst, s.visits)

early_run : asst_and_visits (run_order early_order opening) ≡ some (Asst.over, 0)
unfolding run_order thread_move thread_step asst_step doctor_step patient_step asst_wakes
    reach_barrier opening
early_run = refl

handover_ends_example :
    (leb missed_end.visits 1 ≡ true)
    × (missed_end.asst ≡ Asst.over → missed_end.visits ≡ 1)
    × (((a : Thread) → thread_step a missed_end ≡ none) → AtEnd missed_end ⊎ HasMissed missed_end)
handover_ends_example = handover_ends missed_order missed_end missed-OnlySignals missed_run

handover_length_example : length good_order < 23
handover_length_example = handover_length good_order good_end good-OnlySignals good_run
