-- ===== src/Session/Quotas.antt =====
-- A6/session.c: the quotas of patients and sales representatives across the rounds.
use os_lab_sp.Prelude.{
  ℕ, ◌+◌, ◌≤◌, ◌≡◌, refl, Bool, true, false, Option, none, some, ltb, if◌then◌else◌, length, arith,
  Bool-cases, Option-cases, inl, inr, ◌∙◌, ◌≢◌,
}
use os_lab_sp.Prelude.Int.{ℤ}
use os_lab_sp.Event.{Event, EventQ, delevent}
use os_lab_sp.Session.{
  Clinic, close_session, dismiss, exit_thread, send_home, is_past, quotas_met, num_waiting,
  max_patients, max_salesreps,
}
use os_lab_sp.Session.Turn.{drop, later, advance}

abbrev pub capped : ℕ → ℕ → ℕ
capped k n = if ltb n k then n else k

-- The session goes on: the first patients and sales representatives, up to the quotas, were served or
-- wait, the doctor is there, and no reporter waits once both quotas are met.
pub record IsRunning (s : Clinic) : Type 0 where
  pub patients_in : s.num_served_patients + length s.patients ≡ capped max_patients s.num_patients
  pub salesreps_in :
      s.num_served_salesreps + length s.salesreps ≡ capped max_salesreps s.num_salesreps
  pub reporters_seen :
      s.num_served_patients ≡ max_patients
      → s.num_served_salesreps ≡ max_salesreps
      → length s.reporters ≡ 0
  pub doctor : s.doctor_here ≡ true

-- The session is over: both counters are one past the quotas, and nobody waits.
pub record IsOver (s : Clinic) : Type 0 where
  pub patients_served : s.num_served_patients ≡ max_patients + 1
  pub salesreps_served : s.num_served_salesreps ≡ max_salesreps + 1
  pub patients_seen : max_patients ≤ s.num_patients
  pub salesreps_seen : max_salesreps ≤ s.num_salesreps
  pub nobody : num_waiting s ≡ 0

pub record IsKept (s : Clinic) : Type 0 where
  pub running : s.doc_session_done ≡ false → IsRunning s
  pub over : s.doc_session_done ≡ true → IsOver s

abbrev pub Returned {ℓ} : (Clinic → Type ℓ) → Option Clinic → Type ℓ
Returned P none = Unit
Returned P (some s) = P s

-- After close_session the quotas are not both met, unless the session is over.
unfoldable pub IsUnmet : Clinic → Type 0
IsUnmet s =
    s.doc_session_done ≡ false
    → s.num_served_patients ≡ max_patients
    → s.num_served_salesreps ≢ max_salesreps

quotas_met-true :
    (s : Clinic)
    → quotas_met s ≡ true
    → (s.doc_session_done ≡ false)
      × (s.num_served_patients ≡ max_patients)
      × (s.num_served_salesreps ≡ max_salesreps)
unfolding quotas_met
quotas_met-true s h = ground arith

quotas_met-false : (s : Clinic) → quotas_met s ≡ false → IsUnmet s
unfolding quotas_met IsUnmet
quotas_met-false s h on all both = ground arith

pub close_session-IsKept :
    (s : Clinic) → IsKept s → IsKept (close_session s) × IsUnmet (close_session s)
unfolding close_session IsUnmet
close_session-IsKept s v = elim (Bool-cases (quotas_met s)) [
  | inr e ↦ rw e (v, quotas_met-false s e)
  | inl e ↦
      rw e
        let (on, all, both) = quotas_met-true s e in
          let r = v.running on in
          (
            record {
              running = λ h. cc;
              over = λ h. record {
                patients_served = ground arith;
                salesreps_served = ground arith;
                patients_seen = ground (arith, r.patients_in);
                salesreps_seen = ground (arith, r.salesreps_in);
                nobody = ground (arith, r.patients_in, r.salesreps_in, r.reporters_seen all both);
              };
            },
            λ h. cc,
          )
]

exit_thread-IsOver : (here : Bool) (s : Clinic) → IsOver s → IsOver (exit_thread here s)
unfolding exit_thread
exit_thread-IsOver true s v = record {
  patients_served = v.patients_served;
  salesreps_served = v.salesreps_served;
  patients_seen = v.patients_seen;
  salesreps_seen = v.salesreps_seen;
  nobody = v.nobody;
}
exit_thread-IsOver false s v = v

exit_thread-done :
    (here : Bool) (s : Clinic) → (exit_thread here s).doc_session_done ≡ s.doc_session_done
unfolding exit_thread
exit_thread-done true s = refl
exit_thread-done false s = refl

-- An over session stays over.
pub IsOver-IsKept : (s : Clinic) → s.doc_session_done ≡ true → IsOver s → IsKept s × IsUnmet s
unfolding IsUnmet
IsOver-IsKept s done v = (record { running = λ h. cc; over = λ h. v }, λ h. cc)

send_home-IsKept :
    (s : Clinic)
    → s.doc_session_done ≡ true
    → IsOver s
    → IsKept (send_home s) × IsUnmet (send_home s)
unfolding send_home
send_home-IsKept s done v =
    let w = exit_thread-IsOver s.doctor_here s v in
    IsOver-IsKept (record (exit_thread s.doctor_here s) { joins = s.joins + 1 })
      (exit_thread-done s.doctor_here s ∙ done)
      (record {
        patients_served = w.patients_served;
        salesreps_served = w.salesreps_served;
        patients_seen = w.patients_seen;
        salesreps_seen = w.salesreps_seen;
        nobody = w.nobody;
      })

is_past-true : (next : Event) (s : Clinic) → is_past next s ≡ true → s.doc_session_done ≡ true
unfolding is_past
is_past-true next s h = ground arith

pub dismiss-IsKept :
    (next : Event) (s : Clinic)
    → IsKept s
    → IsUnmet s
    → IsKept (dismiss next s) × IsUnmet (dismiss next s)
unfolding dismiss
dismiss-IsKept next s v u = elim (Bool-cases (is_past next s)) [
  | inr e ↦ rw e (v, u)
  | inl e ↦ let done = is_past-true next s e in rw e (send_home-IsKept s done (v.over done))
]

-- The fields that the quotas do not read.
pub moved-IsKept :
    (q : EventQ) (now : ℤ) (seen visitors arrived : ℕ) (s : Clinic)
    → IsKept s
    → IsKept (record s {
      queue = q;
      current_time = now;
      num_reporters = seen;
      num_visitors = visitors;
      doc_arrived = arrived;
    })
moved-IsKept q now seen visitors arrived s v = record {
  running = λ on.
      let r = v.running on in
      record {
        patients_in = r.patients_in;
        salesreps_in = r.salesreps_in;
        reporters_seen = r.reporters_seen;
        doctor = r.doctor;
      };
  over = λ done.
      let o = v.over done in
      record {
        patients_served = o.patients_served;
        salesreps_served = o.salesreps_served;
        patients_seen = o.patients_seen;
        salesreps_seen = o.salesreps_seen;
        nobody = o.nobody;
      };
}

pub drop-IsKept : (s : Clinic) → IsKept s → Returned IsKept (drop s)
unfolding drop
drop-IsKept s v = elim (Option-cases (delevent s.queue)) [
  | inl e ↦ rw e tt
  | inr (q, e) ↦
      rw e (moved-IsKept q s.current_time s.num_reporters s.num_visitors s.doc_arrived s v)
]

pub advance-IsKept : (next : Event) (s : Clinic) → IsKept s → Returned IsKept (advance next s)
unfolding advance
advance-IsKept next s v =
    let now = later next.time s.current_time in
    let n = s.num_visitors + 1 in
    drop-IsKept (record s { num_visitors = n; current_time = now })
      (moved-IsKept s.queue now s.num_reporters n s.doc_arrived s v)
