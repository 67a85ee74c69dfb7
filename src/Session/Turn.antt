-- ===== src/Session/Turn.antt =====
-- A6/session.c: the rounds of the assistant's loop, and the visits. The parameter `pick` says which of
-- the threads that are blocked on a condition variable is woken by pthread_cond_signal, and `heard`
-- whether a hand-over from the assistant to a visitor, begun in a state, is done: it is not when the
-- signal is lost between the test of asst_done and the wait, so that the assistant waits for ever, or
-- when a wakeup without a signal lets a thread pass the barrier early (Session/Handover).
use os_lab_sp.Prelude.{
  ℕ, zero, suc, ◌+◌, Bool, true, false, List, [], ◌∷◌, Option, none, some, ◌==◌, if◌then◌else◌,
  ◌>>=◌, not, ◌&&◌,
}
use os_lab_sp.Prelude.Int.{ℤ, pos, ltb_ℤ}
use os_lab_sp.Event.{Event, EventQ, empty_q, delevent, nextevent}
use os_lab_sp.Session.{
  Visitor, Clinic, close_session, dismiss, send_home, Arrival, admitted, turned_away, overrun,
  arrive, is_waiting, num_waiting, visit, take_out,
}

-- E = delevent(E)
unfoldable pub drop : Clinic → Option Clinic
drop s = delevent s.queue >>= λ q. some (record s { queue = q })

abbrev pub later : ℤ → ℤ → ℤ
later time now = if ltb_ℤ now time then time else now

-- The end of a round in which a visitor was let in.
unfoldable pub advance : Event → Clinic → Option Clinic
unfolding drop
advance next s =
    drop (record s {
      num_visitors = s.num_visitors + 1;
      current_time = later next.time s.current_time;
    })

-- A doctor who is woken after the end of the session leaves without an answer.
unfoldable pub doctor_answers : Clinic → Bool
doctor_answers s = s.doctor_here && not s.doc_session_done

-- The state before the loop.
unfoldable pub opened : EventQ → Clinic
opened q = record {
  queue = q;
  current_time = pos 0;
  done_time = pos 0;
  reporters = [];
  patients = [];
  salesreps = [];
  num_reporters = 0;
  num_patients = 0;
  num_salesreps = 0;
  num_served_patients = 0;
  num_served_salesreps = 0;
  num_visitors = 0;
  doc_session_done = false;
  doc_arrived = 0;
  doctor_here = true;
  joins = 0;
}

module _ (pick : List Visitor → ℕ) (heard : Clinic → Bool) where
  abbrev pub called : Visitor → List Visitor → Visitor × List Visitor
  called v line = take_out (pick (v ∷ line)) v line

  -- The next visitor: reporters first, then patients, then sales representatives.
  unfoldable pub seat : List Visitor → List Visitor → List Visitor → Clinic → Option Clinic
  seat (v ∷ line) ps ss s = let (x, rest) = called v line in visit x (record s { reporters = rest })
  seat [] (v ∷ line) ss s =
      let (x, rest) = called v line in
      visit x (record s { patients = rest; num_served_patients = s.num_served_patients + 1 })
  seat [] [] (v ∷ line) s =
      let (x, rest) = called v line in
      visit x (record s { salesreps = rest; num_served_salesreps = s.num_served_salesreps + 1 })
  seat [] [] [] s = some s

  -- The assistant wakes the doctor and waits for an answer, for ever if there is none.
  unfoldable pub attend : Clinic → Option Clinic
  unfolding seat
  attend s =
      if is_waiting s
      then (if doctor_answers s && heard s then seat s.reporters s.patients s.salesreps s else none)
      else some s

  -- Visits while the test holds and somebody waits.
  unfoldable pub attend_while : ℕ → (Clinic → Bool) → Clinic → Option Clinic
  attend_while zero test s = none
  attend_while (suc n) test s =
      let more = attend s >>= attend_while n test in
      if test s then (if is_waiting s then more else some s) else some s

  -- Nobody arrives before the visitors of the time until the next event have been served.
  unfoldable pub catch_up : Event → Clinic → Option Clinic
  catch_up next s =
      attend_while (num_waiting s + 1) (λ t. ltb_ℤ t.current_time next.time) s >>= λ t.
      let u = dismiss next (close_session t) in
      some (record u { current_time = later next.time u.current_time; doc_arrived = 2 })

  -- The doctor is free and sees a visitor, unless the event is of a time that has passed.
  unfoldable pub receive : Event → Clinic → Option Clinic
  receive next s =
      if s.doc_arrived == 2
      then (if ltb_ℤ next.time s.current_time
          then drop (record s { doc_arrived = 0 })
          else attend s >>= advance next)
      else advance next s

  -- A visitor that is let in answers as well.
  unfoldable pub greet : Event → Arrival → Option Clinic
  greet next (admitted s) = if heard s then receive next s else none
  greet next (turned_away s) = drop s
  greet next overrun = none

  -- One round of the loop of main.
  unfoldable pub turn : Clinic → Option Clinic
  unfolding greet
  turn s =
      let next = nextevent s.queue in
      let t = dismiss next (close_session s) in
      if next.kind == b'D'
      then drop t
      else if ltb_ℤ t.current_time next.time
      then catch_up next t
      else if t.doc_arrived == 1
      then catch_up next t
      else greet next (arrive next t)

  -- The visitors that are left when the queue is empty, and the end of the session.
  unfoldable pub wind_up : Clinic → Option Clinic
  unfolding attend_while send_home
  wind_up s = attend_while (num_waiting s + 1) (λ t. true) s >>= λ t.
      let u = record t { doc_session_done = true } in some (send_home u)

  -- The loop of main, for at most as many rounds as the counter says.
  unfoldable pub session : ℕ → Clinic → Option Clinic
  session zero s = none
  session (suc n) s = let more = turn s >>= session n in if empty_q s.queue then wind_up s else more
