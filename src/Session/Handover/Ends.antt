-- ===== src/Session/Handover/Ends.antt =====
-- A6/session.c: where the threads of a visit can stop.
use os_lab_sp.Prelude.{
  List, some, ◌≡◌, refl, true, [], none, ◌==◌, ◌||◌, leb, if◌then◌else◌, arith, ap, Bool-cases, inl,
  inr, ◌⊎◌,
}
use os_lab_sp.Prelude.Explore.{Reach-all}
use os_lab_sp.Session.Handover.{
  Asst, Doctor, Patient, Threads, opening, run_order, ThreadMove, OnlySignals, Thread, assistant,
  doctor, patient, thread_step,
}
use os_lab_sp.Session.Handover.Same.{
  same_threads, same_threads_sound, same_asst, asst_number, same_doctor, same_patient, both,
  same_number,
}
use os_lab_sp.Session.Handover.Explored.{
  Reached-Reach, run_order-Reached, at_start, next, states, start_in, states_closed, states_sound,
  is_sound, is_over, is_asleep, is_empty, at_end, has_missed,
}

stuck-next : (s : Threads) → ((a : Thread) → thread_step a s ≡ none) → next s ≡ []
unfolding next
stuck-next s stuck = rw (stuck assistant) (rw (stuck doctor) (rw (stuck patient) refl))

-- Where the threads stop: all of them at the end, or the assistant in pthread_cond_wait with asst_done set.
abbrev pub AtEnd : Threads → Type 0
AtEnd s = (s.asst ≡ Asst.over) × (s.doctor ≡ Doctor.resting) × (s.patient ≡ Patient.left)

abbrev pub HasMissed : Threads → Type 0
HasMissed s = ((s.asst ≡ Asst.asleep1) ⊎ (s.asst ≡ Asst.asleep2)) × (s.asst_done ≡ true)

at_end-AtEnd : (s : Threads) → at_end s ≡ true → AtEnd s
at_end-AtEnd s e =
    let (over, rest) = both e in
    let (resting, left) = both rest in
    (
      same_asst s.asst Asst.over over,
      same_doctor s.doctor Doctor.resting resting,
      same_patient s.patient Patient.left left,
    )

has_missed-HasMissed : (s : Threads) → has_missed s ≡ true → HasMissed s
has_missed-HasMissed s e =
    let (asleep, set) = both {a = is_asleep s.asst} e in
    elim (Bool-cases (asst_number s.asst == asst_number Asst.asleep1)) [
      | inl first ↦ (inl (same_asst s.asst Asst.asleep1 first), set)
      | inr other ↦ (inr (same_asst s.asst Asst.asleep2 (ground (arith, asleep, other))), set)
    ]

over-once :
    (s : Threads)
    → s.asst ≡ Asst.over
    → (if is_over s.asst then s.visits == 1 else true) ≡ true
    → (s.visits == 1) ≡ true
over-once s over e =
    let h = ap is_over over in
    elim (Bool-cases (is_over s.asst)) [
      | inl there ↦ ground (arith, e, there)
      | inr other ↦ absurd (ground (arith, h, other))
    ]

stuck-stops :
    (s : Threads)
    → (if is_empty (next s) then at_end s || has_missed s else true) ≡ true
    → ((a : Thread) → thread_step a s ≡ none)
    → AtEnd s ⊎ HasMissed s
stuck-stops s e stuck =
    let empty = ap is_empty (stuck-next s stuck) in
    elim (Bool-cases (at_end s)) [
      | inl there ↦ inl (at_end-AtEnd s there)
      | inr other ↦ inr (has_missed-HasMissed s (ground (arith, e, other, empty)))
    ]

-- Whatever the order in which the threads take their steps from the beginning of a visit, if
-- pthread_cond_wait returns only after a signal or a broadcast: the patient has added its duration to
-- current_time at most once, and exactly once when the assistant is behind the barrier. If no thread
-- has a step, then either the visit is over, with the doctor waiting for the next visitor and the
-- patient gone, or asst_done is set and the assistant sleeps in pthread_cond_wait.
pub handover_ends :
    (order : List ThreadMove) (s : Threads)
    → OnlySignals order
    → run_order order opening ≡ some s
    → (leb s.visits 1 ≡ true)
      × (s.asst ≡ Asst.over → s.visits ≡ 1)
      × (((a : Thread) → thread_step a s ≡ none) → AtEnd s ⊎ HasMissed s)
unfolding is_sound
handover_ends order s only e =
    let r = run_order-Reached order opening s only at_start e in
    let sound =
      Reach-all same_threads next same_threads_sound is_sound opening s states start_in
        states_closed states_sound (Reached-Reach s r) in
    let (few, rest) = both sound in
    let (once, stops) = both rest in
    (
      few,
      λ over. same_number s.visits 1 (over-once s over once),
      λ stuck. stuck-stops s stops stuck,
    )
