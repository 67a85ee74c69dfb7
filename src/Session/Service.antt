-- ===== src/Session/Service.antt =====
-- A6/session.c: every visitor who waits is served.
use os_lab_sp.Prelude.{ℕ, ◌+◌, ◌≤◌, ◌≡◌, true, length, arith, Bool-cases, inl, inr}
use os_lab_sp.Event.{Event}
use os_lab_sp.Session.{Clinic, is_waiting, num_waiting}
use os_lab_sp.Session.Turn.{doctor_answers}
use os_lab_sp.Session.Quotas.{IsKept}
use os_lab_sp.Event.{capacity}
use os_lab_sp.Event.Order.{IsHeap}

-- Somebody waits only while the session goes on, and then the doctor answers.
pub waiting-answered : (s : Clinic) → IsKept s → is_waiting s ≡ true → doctor_answers s ≡ true
unfolding doctor_answers
waiting-answered s v w = elim (Bool-cases s.doc_session_done) [
  | inl done ↦ absurd (ground (arith, (v.over done).nobody))
  | inr on ↦ let here = (v.running on).doctor in ground (arith, here)
]

-- Room for one visit in the queue.
pub record HasRoom (n : ℕ) (s : Clinic) : Type 0 where
  pub heap : IsHeap s.queue
  pub room : length s.queue + n ≤ capacity

-- From one state to another: the patients and the sales representatives that wait or were served are as
-- many, and the queue has one event more for each visitor that waits no longer.
pub record Served (s t : Clinic) : Type 0 where
  pub patients :
      t.num_served_patients + length t.patients ≡ s.num_served_patients + length s.patients
  pub salesreps :
      t.num_served_salesreps + length t.salesreps ≡ s.num_served_salesreps + length s.salesreps
  pub ends : length t.queue + num_waiting t ≡ length s.queue + num_waiting s

-- A visit adds one event and changes neither the lines nor the counts.
record Visited (s t : Clinic) : Type 0 where
  waiting : num_waiting t ≡ num_waiting s
  ended : length t.queue ≡ length s.queue + 1
  patients : t.num_served_patients + length t.patients ≡ s.num_served_patients + length s.patients
  salesreps :
      t.num_served_salesreps + length t.salesreps ≡ s.num_served_salesreps + length s.salesreps

-- What stays when the doctor leaves.
record Left (s t : Clinic) : Type 0 where
  waiting : num_waiting t ≡ num_waiting s
  patients : t.num_served_patients ≡ s.num_served_patients
  salesreps : t.num_served_salesreps ≡ s.num_served_salesreps
  queue : t.queue ≡ s.queue
