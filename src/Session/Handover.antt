-- ===== src/Session/Handover.antt =====
-- A6/session.c: the threads of the assistant, the doctor and one patient between the arrival of the
-- patient and the end of the visit. The parts under doctor_mutex and patient_mutex, and the part of
-- pthread_barrier_wait under its mutex, are one step each; asst_done is written without asst_mutex, so
-- the test and the wait of the assistant are steps of their own. A wakeup without a signal is a move of
-- its own.
pub mod Same
pub mod Explored
pub mod Ends
pub mod Length
mod Tests
use os_lab_sp.Prelude.{
  ℕ, zero, suc, ◌+◌, Bool, true, false, List, [], ◌∷◌, Option, none, some, leb, if◌then◌else◌,
  ◌>>=◌,
}

-- The assistant: before pthread_create; at the test of asst_done, before and in pthread_cond_wait, for the
-- patient; before waking the doctor; the same for the doctor; before waking the patient; before and in the
-- barrier; behind it.
pub data Asst : Type 0 where
  creating testing1 pausing1 asleep1 calling testing2 pausing2 asleep2 admitting arriving inside
        over :
      Asst

-- The doctor: at the test of doc_done; in pthread_cond_wait; before asst_done = 1; before the signal; before
-- and in the barrier.
pub data Doctor : Type 0 where
  free resting writing signalling arriving inside : Doctor

-- The patient: not created; before the lock; before asst_done = 1; before the signal; at the test of
-- pat_done with patient_mutex; in pthread_cond_wait; woken; before and in the barrier; behind it.
pub data Patient : Type 0 where
  absent entering writing signalling testing asleep woken arriving inside left : Patient

pub record Threads : Type 0 where
  pub asst : Asst
  pub doctor : Doctor
  pub patient : Patient
  pub asst_done : Bool
  pub doc_done : Bool
  pub pat_done : Bool
  pub count : ℕ  -- of the barrier
  pub visits : ℕ  -- how often the patient has added its duration to current_time

unfoldable pub opening : Threads
opening = record {
  asst = Asst.creating;
  doctor = Doctor.free;
  patient = Patient.absent;
  asst_done = false;
  doc_done = false;
  pat_done = false;
  count = 0;
  visits = 0;
}

-- pthread_cond_signal and pthread_cond_broadcast, for the threads in pthread_cond_wait.
abbrev pub wake_asst : Asst → Asst
wake_asst Asst.asleep1 = Asst.testing1
wake_asst Asst.asleep2 = Asst.testing2
wake_asst p = p

abbrev pub wake_doctor : Doctor → Doctor
wake_doctor Doctor.resting = Doctor.free
wake_doctor p = p

abbrev pub wake_patient : Patient → Patient
wake_patient Patient.asleep = Patient.woken
wake_patient p = p

abbrev pub past_barrier : Asst → Asst
past_barrier Asst.inside = Asst.over
past_barrier p = p

abbrev pub doctor_past_barrier : Doctor → Doctor
doctor_past_barrier Doctor.inside = Doctor.free
doctor_past_barrier p = p

abbrev pub patient_past_barrier : Patient → Patient
patient_past_barrier Patient.inside = Patient.left
patient_past_barrier p = p

-- pthread_barrier_wait for a thread that is already marked as inside: the last one lets all go.
unfoldable pub reach_barrier : Threads → Threads
reach_barrier s =
    let t = record s { count = s.count + 1 } in
    if leb 3 t.count
    then record t {
      count = 0;
      asst = past_barrier s.asst;
      doctor = doctor_past_barrier s.doctor;
      patient = patient_past_barrier s.patient;
    }
    else t

-- while (asst_done == 0) …; asst_done = 0
abbrev pub test_asst_done : Asst → Asst → Threads → Threads
test_asst_done pausing next s =
    if s.asst_done then record s { asst = next; asst_done = false } else record s { asst = pausing }

-- Whether the patient holds patient_mutex.
abbrev pub holds_mutex : Patient → Bool
holds_mutex Patient.writing = true
holds_mutex Patient.signalling = true
holds_mutex Patient.testing = true
holds_mutex p = false

unfoldable pub asst_step : Asst → Threads → Option Threads
unfolding reach_barrier
asst_step Asst.creating s = some (record s { asst = Asst.testing1; patient = Patient.entering })
asst_step Asst.testing1 s = some (test_asst_done Asst.pausing1 Asst.calling s)
asst_step Asst.pausing1 s = some (record s { asst = Asst.asleep1 })
asst_step Asst.asleep1 s = none
asst_step Asst.calling s =
    some (record s { asst = Asst.testing2; doc_done = true; doctor = wake_doctor s.doctor })
asst_step Asst.testing2 s = some (test_asst_done Asst.pausing2 Asst.admitting s)
asst_step Asst.pausing2 s = some (record s { asst = Asst.asleep2 })
asst_step Asst.asleep2 s = none
asst_step Asst.admitting s =
    if holds_mutex s.patient
    then none
    else some (record s { asst = Asst.arriving; pat_done = true; patient = wake_patient s.patient })
asst_step Asst.arriving s = some (reach_barrier (record s { asst = Asst.inside }))
asst_step Asst.inside s = none
asst_step Asst.over s = none

unfoldable pub doctor_step : Doctor → Threads → Option Threads
unfolding reach_barrier
doctor_step Doctor.free s = some (
    if s.doc_done
    then record s { doctor = Doctor.writing; doc_done = false }
    else record s { doctor = Doctor.resting })
doctor_step Doctor.resting s = none
doctor_step Doctor.writing s = some (record s { doctor = Doctor.signalling; asst_done = true })
doctor_step Doctor.signalling s =
    some (record s { doctor = Doctor.arriving; asst = wake_asst s.asst })
doctor_step Doctor.arriving s = some (reach_barrier (record s { doctor = Doctor.inside }))
doctor_step Doctor.inside s = none

-- The test of pat_done, and the visit.
abbrev pub test_pat_done : Threads → Threads
test_pat_done s =
    if s.pat_done
    then record s { patient = Patient.arriving; pat_done = false; visits = s.visits + 1 }
    else record s { patient = Patient.asleep }

unfoldable pub patient_step : Patient → Threads → Option Threads
unfolding reach_barrier
patient_step Patient.absent s = none
patient_step Patient.entering s = some (record s { patient = Patient.writing })
patient_step Patient.writing s = some (record s { patient = Patient.signalling; asst_done = true })
patient_step Patient.signalling s =
    some (record s { patient = Patient.testing; asst = wake_asst s.asst })
patient_step Patient.testing s = some (test_pat_done s)
patient_step Patient.asleep s = none
patient_step Patient.woken s = some (test_pat_done s)
patient_step Patient.arriving s = some (reach_barrier (record s { patient = Patient.inside }))
patient_step Patient.inside s = none
patient_step Patient.left s = none

pub data Thread : Type 0 where
  assistant doctor patient : Thread

-- The next step of a thread.
unfoldable pub thread_step : Thread → Threads → Option Threads
unfolding asst_step doctor_step patient_step
thread_step assistant s = asst_step s.asst s
thread_step doctor s = doctor_step s.doctor s
thread_step patient s = patient_step s.patient s

-- A wakeup without a signal, which pthread_cond_wait allows: the loops around it test again, but
-- pthread_barrier_wait, which has no loop, returns.
unfoldable pub asst_wakes : Asst → Threads → Option Threads
asst_wakes Asst.asleep1 s = some (record s { asst = Asst.testing1 })
asst_wakes Asst.asleep2 s = some (record s { asst = Asst.testing2 })
asst_wakes Asst.inside s = some (record s { asst = Asst.over })
asst_wakes p s = none

unfoldable pub doctor_wakes : Doctor → Threads → Option Threads
doctor_wakes Doctor.resting s = some (record s { doctor = Doctor.free })
doctor_wakes Doctor.inside s = some (record s { doctor = Doctor.free })
doctor_wakes p s = none

unfoldable pub patient_wakes : Patient → Threads → Option Threads
patient_wakes Patient.asleep s = some (record s { patient = Patient.woken })
patient_wakes Patient.inside s = some (record s { patient = Patient.left })
patient_wakes p s = none

pub data ThreadMove : Type 0 where
  runs : Thread → ThreadMove
  wakes : Thread → ThreadMove  -- without a signal

unfoldable pub thread_move : ThreadMove → Threads → Option Threads
unfolding thread_step asst_wakes doctor_wakes patient_wakes
thread_move (runs a) s = thread_step a s
thread_move (wakes assistant) s = asst_wakes s.asst s
thread_move (wakes doctor) s = doctor_wakes s.doctor s
thread_move (wakes patient) s = patient_wakes s.patient s

-- The threads in a given order, or none when one of them has no such move.
unfoldable pub run_order : List ThreadMove → Threads → Option Threads
unfolding thread_move
run_order [] s = some s
run_order (a ∷ order) s = thread_move a s >>= λ t. run_order order t

-- Orders in which pthread_cond_wait returns only after a signal or a broadcast.
abbrev pub OnlySignals : List ThreadMove → Type 0
OnlySignals [] = Unit
OnlySignals (runs a ∷ order) = OnlySignals order
OnlySignals (wakes a ∷ order) = ⊥
