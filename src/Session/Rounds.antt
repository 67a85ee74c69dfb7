-- ===== src/Session/Rounds.antt =====
-- A6/session.c: every round of the assistant keeps to the quotas.
use os_lab_sp.Prelude.{
  ℕ, zero, suc, ◌+◌, ◌≡◌, refl, Bool, true, false, List, [], ◌∷◌, Option, none, some, ◌==◌, ◌>>=◌,
  length, arith, Bool-cases, ◌&&◌, Option-cases, inl, inr, ap,
}
use os_lab_sp.Prelude.Int.{pos, ltb_ℤ, ◌+ℤ◌}
use os_lab_sp.Event.{Event, nextevent, addevent}
use os_lab_sp.Session.{
  Visitor, Clinic, close_session, dismiss, Arrival, admitted, turned_away, overrun, arrive,
  is_waiting, num_waiting, visit, take_out,
}
use os_lab_sp.Session.Turn.{
  doctor_answers, later, advance, called, seat, attend, attend_while, catch_up, receive, greet,
  turn,
}
use os_lab_sp.Session.Quotas.{
  IsKept, Returned, close_session-IsKept, dismiss-IsKept, moved-IsKept, drop-IsKept, advance-IsKept,
}
use os_lab_sp.Session.Arrivals.{Arrived, arrive-IsKept}

pub take_out-length :
    (n : ℕ) (v : Visitor) (line : List Visitor) → length (take_out n v line).1 ≡ length line
unfolding take_out
take_out-length zero v line = refl
take_out-length (suc n) v [] = refl
take_out-length (suc n) v (w ∷ line) = omega (arith, take_out-length n w line)

visit-IsKept : (v : Visitor) (s : Clinic) → IsKept s → Returned IsKept (visit v s)
unfolding visit
visit-IsKept x s v =
    let time = s.current_time +ℤ x.duration in
    let end : Event = record { kind = b'D'; time = time; duration = pos 0 } in
    elim (Option-cases (addevent s.queue end)) [
      | inl e ↦ rw e tt
      | inr (q, e) ↦ rw e (moved-IsKept q time s.num_reporters s.num_visitors s.doc_arrived s v)
    ]

pub then-Returned :
    (P : Clinic → Type 0) (o : Option Clinic) (f : Clinic → Option Clinic)
    → Returned P o
    → ((t : Clinic) → P t → Returned P (f t))
    → Returned P (o >>= f)
then-Returned P none f v h = tt
then-Returned P (some t) f v h = h t v

doctor_answers-on : (s : Clinic) → doctor_answers s ≡ true → s.doc_session_done ≡ false
unfolding doctor_answers
doctor_answers-on s h = ground arith

module _ (pick : List Visitor → ℕ) (heard : Clinic → Bool) where
  pub seat-IsKept :
      (rs ps ss : List Visitor) (s : Clinic)
      → IsKept s
      → s.doc_session_done ≡ false
      → s.reporters ≡ rs
      → s.patients ≡ ps
      → s.salesreps ≡ ss
      → Returned IsKept (seat pick heard rs ps ss s)
  unfolding seat
  seat-IsKept (x ∷ line) ps ss s v on er ep es =
      let rest = (called pick heard x line).1 in
      let fewer = take_out-length (pick (x ∷ line)) x line in
      let r = v.running on in
      visit-IsKept (called pick heard x line).0 (record s { reporters = rest })
        (record {
          running = λ h. record {
            patients_in = r.patients_in;
            salesreps_in = r.salesreps_in;
            reporters_seen =
                λ all both. absurd (ground (arith, r.reporters_seen all both, ap length er));
            doctor = r.doctor;
          };
          over = λ done. cc;
        })
  seat-IsKept [] (x ∷ line) ss s v on er ep es =
      let rest = (called pick heard x line).1 in
      let fewer = take_out-length (pick (x ∷ line)) x line in
      let before = ap length ep in
      let r = v.running on in
      visit-IsKept (called pick heard x line).0
        (record s { patients = rest; num_served_patients = s.num_served_patients + 1 })
        (record {
          running = λ h. record {
            patients_in = ground (arith, r.patients_in, fewer, before);
            salesreps_in = r.salesreps_in;
            reporters_seen = λ all both. ap length er;
            doctor = r.doctor;
          };
          over = λ done. cc;
        })
  seat-IsKept [] [] (x ∷ line) s v on er ep es =
      let rest = (called pick heard x line).1 in
      let fewer = take_out-length (pick (x ∷ line)) x line in
      let before = ap length es in
      let r = v.running on in
      visit-IsKept (called pick heard x line).0
        (record s { salesreps = rest; num_served_salesreps = s.num_served_salesreps + 1 })
        (record {
          running = λ h. record {
            patients_in = r.patients_in;
            salesreps_in = ground (arith, r.salesreps_in, fewer, before);
            reporters_seen = λ all both. ap length er;
            doctor = r.doctor;
          };
          over = λ done. cc;
        })
  seat-IsKept [] [] [] s v on er ep es = v

  pub attend-IsKept : (s : Clinic) → IsKept s → Returned IsKept (attend pick heard s)
  unfolding attend
  attend-IsKept s v = elim (Bool-cases (is_waiting s)) [
    | inr nobody ↦ rw nobody v
    | inl somebody ↦ rw somebody (elim (Bool-cases (doctor_answers s && heard s)) [
      | inr e ↦ rw e tt
      | inl e ↦
          let answers : doctor_answers s ≡ true = ground arith in
          rw e (
            seat-IsKept s.reporters s.patients s.salesreps s v (doctor_answers-on s answers) refl
              refl refl)
    ])
  ]

  pub attend_while-IsKept :
      (n : ℕ) (test : Clinic → Bool) (s : Clinic)
      → IsKept s
      → Returned IsKept (attend_while pick heard n test s)
  unfolding attend_while
  attend_while-IsKept zero test s v = tt
  attend_while-IsKept (suc n) test s v = elim (Bool-cases (test s)) [
    | inr e ↦ rw e v
    | inl e ↦ rw e (elim (Bool-cases (is_waiting s)) [
      | inr nobody ↦ rw nobody v
      | inl somebody ↦ rw somebody (
          then-Returned IsKept (attend pick heard s) (attend_while pick heard n test)
            (attend-IsKept s v) (attend_while-IsKept n test))
    ])
  ]

  catch_up-IsKept :
      (next : Event) (s : Clinic) → IsKept s → Returned IsKept (catch_up pick heard next s)
  unfolding catch_up
  catch_up-IsKept next s v =
      then-Returned IsKept
        (attend_while pick heard (num_waiting s + 1) (λ t. ltb_ℤ t.current_time next.time) s)
        (λ t.
          let u = dismiss next (close_session t) in
          some (record u { current_time = later next.time u.current_time; doc_arrived = 2 }))
        (attend_while-IsKept (num_waiting s + 1) (λ t. ltb_ℤ t.current_time next.time) s v)
        λ t w.
          let (closed, unmet) = close_session-IsKept t w in
          let (kept, still) = dismiss-IsKept next (close_session t) closed unmet in
          let u = dismiss next (close_session t) in
          moved-IsKept u.queue (later next.time u.current_time) u.num_reporters u.num_visitors 2 u
            kept

  receive-IsKept :
      (next : Event) (s : Clinic) → IsKept s → Returned IsKept (receive pick heard next s)
  unfolding receive
  receive-IsKept next s v = elim (Bool-cases (s.doc_arrived == 2)) [
    | inr e ↦ rw e (advance-IsKept next s v)
    | inl e ↦ rw e (elim (Bool-cases (ltb_ℤ next.time s.current_time)) [
      | inl past ↦ rw past (
          drop-IsKept (record s { doc_arrived = 0 })
            (moved-IsKept s.queue s.current_time s.num_reporters s.num_visitors 0 s v))
      | inr now ↦ rw now (
          then-Returned IsKept (attend pick heard s) (advance next) (attend-IsKept s v)
            (advance-IsKept next))
    ])
  ]

  greet-IsKept :
      (next : Event) (a : Arrival) → Arrived IsKept a → Returned IsKept (greet pick heard next a)
  unfolding greet
  greet-IsKept next (admitted s) v = elim (Bool-cases (heard s)) [
    | inl e ↦ rw e (receive-IsKept next s v)
    | inr e ↦ rw e tt
  ]
  greet-IsKept next (turned_away s) v = drop-IsKept s v
  greet-IsKept next overrun v = tt

  -- Every round of the assistant keeps to the quotas. While the session goes on, the first 25 patients and
  -- 3 sales representatives that arrived were served or wait, and nobody else of these kinds waits; the
  -- doctor is there. Once it is over, 25 and 3 were served and nobody waits.
  pub turn-IsKept : (s : Clinic) → IsKept s → Returned IsKept (turn pick heard s)
  unfolding turn
  turn-IsKept s v =
      let next = nextevent s.queue in
      let (closed, unmet) = close_session-IsKept s v in
      let (kept, still) = dismiss-IsKept next (close_session s) closed unmet in
      let t = dismiss next (close_session s) in
      elim (Bool-cases (next.kind == b'D')) [
        | inl d ↦ rw d (drop-IsKept t kept)
        | inr d ↦ rw d (elim (Bool-cases (ltb_ℤ t.current_time next.time)) [
          | inl ahead ↦ rw ahead (catch_up-IsKept next t kept)
          | inr here ↦ rw here (elim (Bool-cases (t.doc_arrived == 1)) [
            | inl one ↦ rw one (catch_up-IsKept next t kept)
            | inr other ↦
                rw other (greet-IsKept next (arrive next t) (arrive-IsKept next t kept still))
          ])
        ])
      ]
