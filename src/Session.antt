-- ===== src/Session.antt =====
-- A6/session.c: the doctor's assistant. A turn is one round of the loop of main, with what the threads
-- that it wakes do before it goes on. The visitors blocked on a condition variable are a list, and the
-- counters num_waiting_reporters, num_waiting_patients and num_waiting_salesreps are the lengths of these
-- lists. Which of the blocked threads is woken is the parameter `pick`.
pub mod Turn
pub mod Clock
pub mod Quotas
pub mod Arrivals
pub mod Rounds
pub mod Service
pub mod Handover
mod Tests
use os_lab_sp.Prelude.{
  ℕ, zero, suc, ◌+◌, ◌-◌, ◌≤◌, ◌<◌, ◌≡◌, refl, Bool, true, false, List, [], ◌∷◌, ◌++◌, Option, none,
  some, ltb, leb, ◌==◌, if◌then◌else◌, ◌>>=◌, length, not, ◌&&◌,
}
use os_lab_sp.Prelude.Int.{ℤ, pos, negsuc, ltb_ℤ, ◌+ℤ◌}
use os_lab_sp.Event.{Event, EventQ, empty_q, addevent, delevent, nextevent}

-- vinfo
pub record Visitor : Type 0 where
  pub id : ℕ
  pub duration : ℤ

pub record Clinic : Type 0 where
  pub queue : EventQ  -- E
  pub current_time : ℤ
  pub done_time : ℤ
  pub reporters : List Visitor
  pub patients : List Visitor
  pub salesreps : List Visitor
  pub num_reporters : ℕ
  pub num_patients : ℕ
  pub num_salesreps : ℕ
  pub num_served_patients : ℕ
  pub num_served_salesreps : ℕ
  pub num_visitors : ℕ
  pub doc_session_done : Bool
  pub doc_arrived : ℕ
  pub doctor_here : Bool  -- the doctor's thread has not exited
  pub joins : ℕ  -- the calls of pthread_join for the doctor's thread

abbrev pub max_patients : ℕ
max_patients = 25

abbrev pub max_salesreps : ℕ
max_salesreps = 3

-- The array visitor_infos.
abbrev pub max_infos : ℕ
max_infos = 100

abbrev pub is_zero : ℤ → Bool
is_zero (pos zero) = true
is_zero _ = false

unfoldable pub quotas_met : Clinic → Bool
quotas_met s =
    not s.doc_session_done
    && (s.num_served_patients == max_patients)
    && (s.num_served_salesreps == max_salesreps)

-- Both quotas are met for the first time.
unfoldable pub close_session : Clinic → Clinic
close_session s =
    if quotas_met s
    then record s {
      doc_session_done = true;
      done_time = s.current_time;
      num_served_patients = s.num_served_patients + 1;
      num_served_salesreps = s.num_served_salesreps + 1;
    }
    else s

-- The doctor's thread, if it has not exited, when it is woken after the session.
unfoldable pub exit_thread : Bool → Clinic → Clinic
exit_thread true s = record s {
  doctor_here = false;
  done_time = if is_zero s.done_time then s.current_time else s.done_time;
}
exit_thread false s = s

-- The doctor is woken, and waited for by pthread_join.
unfoldable pub send_home : Clinic → Clinic
unfolding exit_thread
send_home s = record (exit_thread s.doctor_here s) { joins = s.joins + 1 }

unfoldable pub is_past : Event → Clinic → Bool
is_past next s = s.doc_session_done && ltb_ℤ s.done_time next.time

-- At the first event after the session, and at each one after that.
unfoldable pub dismiss : Event → Clinic → Clinic
unfolding send_home
dismiss next s = if is_past next s then send_home s else s

pub data Arrival : Type 0 where
  admitted : Clinic → Arrival
  turned_away : Clinic → Arrival
  overrun : Arrival  -- an index outside of visitor_infos

-- A thread for the visitor is made, and blocks.
abbrev pub enter : Clinic → Clinic → Arrival
enter s t = if leb max_infos s.num_visitors then overrun else admitted t

unfoldable pub reporter_arrives : ℤ → Clinic → Arrival
reporter_arrives duration s =
    let v : Visitor = record { id = s.num_reporters + 1; duration = duration } in
    let t = record s { num_reporters = s.num_reporters + 1 } in
    let seated = enter s (record t { reporters = s.reporters ++ v ∷ [] }) in
    if ltb max_patients s.num_served_patients
    then (if ltb max_salesreps s.num_served_salesreps then turned_away t else seated)
    else seated

-- The two ways to be turned away differ in the line that is printed.
unfoldable pub patient_arrives : ℤ → Clinic → Arrival
patient_arrives duration s =
    let v : Visitor = record { id = s.num_patients + 1; duration = duration } in
    let t = record s { num_patients = s.num_patients + 1 } in
    if leb max_patients s.num_patients
    then turned_away t
    else enter s (record t { patients = s.patients ++ v ∷ [] })

unfoldable pub salesrep_arrives : ℤ → Clinic → Arrival
salesrep_arrives duration s =
    let v : Visitor = record { id = s.num_salesreps + 1; duration = duration } in
    let t = record s { num_salesreps = s.num_salesreps + 1 } in
    if leb max_salesreps s.num_salesreps
    then turned_away t
    else enter s (record t { salesreps = s.salesreps ++ v ∷ [] })

unfoldable pub arrive : Event → Clinic → Arrival
arrive next s =
    if next.kind == b'R'
    then reporter_arrives next.duration s
    else if next.kind == b'P'
    then patient_arrives next.duration s
    else if next.kind == b'S'
    then salesrep_arrives next.duration s
    else admitted s

abbrev pub num_waiting : Clinic → ℕ
num_waiting s = length s.reporters + length s.patients + length s.salesreps

abbrev pub is_waiting : Clinic → Bool
is_waiting s = ltb 0 (num_waiting s)

-- The visitor goes in, the clock moves on, and an event 'D' stands for the end of the visit.
unfoldable pub visit : Visitor → Clinic → Option Clinic
visit v s =
    let time = s.current_time +ℤ v.duration in
    addevent s.queue (record { kind = b'D'; time = time; duration = pos 0 }) >>= λ q.
    some (record s { queue = q; current_time = time })

-- The thread at index `n` of a line that starts with `v`; an index behind the end means the last one.
unfoldable pub take_out : ℕ → Visitor → List Visitor → Visitor × List Visitor
take_out zero v line = (v, line)
take_out (suc n) v [] = (v, [])
take_out (suc n) v (w ∷ line) = let (x, rest) = take_out n w line in (x, v ∷ rest)
