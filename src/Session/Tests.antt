-- ===== src/Session/Tests.antt =====
-- A6/session.c: a short day at the doctor's, and the theorems at concrete inputs.
use os_lab_sp.Prelude.{
  ℕ, ◌+◌, ◌-◌, ◌*◌, ◌<◌, ◌≤◌, ◌≡◌, refl, true, false, List, [], ◌∷◌, Option, arith, Bool,
}
use os_lab_sp.Prelude.Int.{pos, negsuc}
use os_lab_sp.Event.{
  EventQ, addevent, delevent, nextevent, empty_q, sift_up, sift_down, swap, lower_child, eventcmp,
}
use os_lab_sp.Session.{
  Visitor, Clinic, quotas_met, close_session, exit_thread, send_home, is_past, dismiss,
  reporter_arrives, patient_arrives, salesrep_arrives, arrive, visit, take_out,
}
use os_lab_sp.Session.Turn.{
  drop, advance, doctor_answers, opened, seat, attend, attend_while, catch_up, receive, greet, turn,
  wind_up, session,
}
use os_lab_sp.Session.Clock.{get_time, minutes_of, get_time-minutes_of, get_time-full_hour}
use os_lab_sp.Session.Quotas.{IsKept, Returned}
use os_lab_sp.Session.Rounds.{turn-IsKept}

-- The thread that has waited the longest is woken.
abbrev first : List Visitor → ℕ
first line = 0

-- Every hand-over is done.
abbrev every_heard : Clinic → Bool
every_heard s = true

abbrev run_session : ℕ → EventQ → Option Clinic
unfolding session turn wind_up greet receive catch_up attend_while attend seat doctor_answers opened
    advance drop take_out visit arrive salesrep_arrives patient_arrives reporter_arrives dismiss
    is_past send_home exit_thread close_session quotas_met addevent delevent nextevent empty_q
    sift_up sift_down swap lower_child eventcmp
run_session n q = session first every_heard n (opened q)

-- A patient an hour before 9, and a reporter at five past 9.
abbrev day : EventQ
day =
    record { kind = b'P'; time = negsuc 59; duration = pos 10 }
    ∷ record { kind = b'R'; time = pos 5; duration = pos 3 }
    ∷ []

day_run :
    Returned
      (λ t.
        (t.current_time ≡ pos 13)
        × (t.num_served_patients ≡ 1)
        × (t.num_reporters ≡ 1)
        × (t.doctor_here ≡ false))
      (run_session 20 day)
unfolding run_session
day_run = (refl, refl, refl, refl)

opened-IsKept : IsKept (opened day)
unfolding opened
opened-IsKept = record {
  running = λ h. record {
    patients_in = refl;
    salesreps_in = refl;
    reporters_seen = λ a b. refl;
    doctor = refl;
  };
  over = λ done. cc;
}

turn-IsKept_example : Returned IsKept (turn first every_heard (opened day))
turn-IsKept_example = turn-IsKept first every_heard (opened day) opened-IsKept

get_time-minutes_of_example :
    (h : ℕ) × ((get_time (pos 250)).hours ≡ pos h)
    × (1 ≤ h)
    × (h ≤ 12)
    × ((get_time (pos 250)).minutes < 60)
    × (minutes_of h (get_time (pos 250)).minutes (get_time (pos 250)).pm ≡ 540 + 250)
get_time-minutes_of_example = get_time-minutes_of 250 (omega arith)

minute_sixty :
    get_time (negsuc (60 * 1 - 1)) ≡ record { hours = pos (8 - 1); minutes = 60; pm = false }
minute_sixty = get_time-full_hour 1 (omega arith) (omega arith)

-- Two reporters wait at the end.
abbrev crowd : Clinic
unfolding opened
crowd = record (opened []) {
  reporters = record { id = 1; duration = pos 5 } ∷ record { id = 2; duration = pos 7 } ∷ [];
  num_reporters = 2;
}
