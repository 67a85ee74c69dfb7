-- ===== src/Session/Arrivals.antt =====
-- A6/session.c: the arrival of a visitor keeps to the quotas.
use os_lab_sp.Prelude.{
  ℕ, ◌+◌, ◌≤◌, ◌≡◌, false, List, [], ◌∷◌, ◌++◌, ltb, leb, ◌==◌, length-append, arith, Bool-cases,
  inl, inr, ◌⊎◌,
}
use os_lab_sp.Prelude.Int.{ℤ}
use os_lab_sp.Event.{Event}
use os_lab_sp.Session.{
  Visitor, Clinic, Arrival, admitted, turned_away, overrun, arrive, max_patients, max_salesreps,
  max_infos, enter, patient_arrives, reporter_arrives, salesrep_arrives,
}
use os_lab_sp.Session.Quotas.{IsKept, IsUnmet, moved-IsKept}

abbrev pub Arrived {ℓ} : (Clinic → Type ℓ) → Arrival → Type ℓ
Arrived P (admitted s) = P s
Arrived P (turned_away s) = P s
Arrived P overrun = Unit

enter-Arrived : (P : Clinic → Type 0) (s t : Clinic) → P t → Arrived P (enter s t)
enter-Arrived P s t v = elim (Bool-cases (leb max_infos s.num_visitors)) [
  | inl e ↦ rw e tt
  | inr e ↦ rw e v
]

running :
    (s : Clinic)
    → IsKept s
    → s.num_served_patients ≤ max_patients ⊎ (s.num_served_salesreps ≤ max_salesreps)
    → s.doc_session_done ≡ false
running s v h = elim (Bool-cases s.doc_session_done) [
  | inr on ↦ on
  | inl done ↦
      absurd (ground (arith, (v.over done).patients_served, (v.over done).salesreps_served))
]

-- A reporter joins the line before both quotas are met.
joined-IsKept :
    (line : List Visitor) (seen : ℕ) (s : Clinic)
    → IsKept s
    → IsUnmet s
    → s.doc_session_done ≡ false
    → IsKept (record s { reporters = line; num_reporters = seen })
unfolding IsUnmet
joined-IsKept line seen s v u on =
    let r = v.running on in
    record {
      running = λ h. record {
        patients_in = r.patients_in;
        salesreps_in = r.salesreps_in;
        reporters_seen = λ all both. absurd (u on all both);
        doctor = r.doctor;
      };
      over = λ done. cc;
    }

reporter_arrives-IsKept :
    (duration : ℤ) (s : Clinic)
    → IsKept s
    → IsUnmet s
    → Arrived IsKept (reporter_arrives duration s)
unfolding reporter_arrives
reporter_arrives-IsKept duration s v u =
    let seen = s.num_reporters + 1 in
    let line = s.reporters ++ record { id = seen; duration = duration } ∷ [] in
    let seated = λ (on : s.doc_session_done ≡ false).
      enter-Arrived IsKept s (record s { reporters = line; num_reporters = seen })
        (joined-IsKept line seen s v u on) in
    elim (Bool-cases (ltb max_patients s.num_served_patients)) [
      | inr few ↦ rw few (seated (running s v (inl (ground arith))))
      | inl all ↦ rw all (elim (Bool-cases (ltb max_salesreps s.num_served_salesreps)) [
        | inr few ↦ rw few (seated (running s v (inr (ground arith))))
        | inl both ↦
            rw both (moved-IsKept s.queue s.current_time seen s.num_visitors s.doc_arrived s v)
      ])
    ]

patient_arrives-IsKept :
    (duration : ℤ) (s : Clinic) → IsKept s → Arrived IsKept (patient_arrives duration s)
unfolding patient_arrives
patient_arrives-IsKept duration s v =
    let t = record s { num_patients = s.num_patients + 1 } in
    let x : Visitor = record { id = s.num_patients + 1; duration = duration } in
    elim (Bool-cases (leb max_patients s.num_patients)) [
      | inl full ↦ rw full (record {
        running = λ on.
            let r = v.running on in
            record {
              patients_in = ground (arith, r.patients_in);
              salesreps_in = r.salesreps_in;
              reporters_seen = r.reporters_seen;
              doctor = r.doctor;
            };
        over = λ done.
            let o = v.over done in
            record {
              patients_served = o.patients_served;
              salesreps_served = o.salesreps_served;
              patients_seen = omega (arith, o.patients_seen);
              salesreps_seen = o.salesreps_seen;
              nobody = o.nobody;
            };
      })
      | inr room ↦ rw room (
          enter-Arrived IsKept s (record t { patients = s.patients ++ x ∷ [] })
            (record {
              running = λ on.
                  let r = v.running on in
                  record {
                    patients_in = ground (arith, r.patients_in, length-append s.patients (x ∷ []));
                    salesreps_in = r.salesreps_in;
                    reporters_seen = r.reporters_seen;
                    doctor = r.doctor;
                  };
              over = λ done. absurd (ground (arith, (v.over done).patients_seen));
            }))
    ]

salesrep_arrives-IsKept :
    (duration : ℤ) (s : Clinic) → IsKept s → Arrived IsKept (salesrep_arrives duration s)
unfolding salesrep_arrives
salesrep_arrives-IsKept duration s v =
    let t = record s { num_salesreps = s.num_salesreps + 1 } in
    let x : Visitor = record { id = s.num_salesreps + 1; duration = duration } in
    elim (Bool-cases (leb max_salesreps s.num_salesreps)) [
      | inl full ↦ rw full (record {
        running = λ on.
            let r = v.running on in
            record {
              patients_in = r.patients_in;
              salesreps_in = ground (arith, r.salesreps_in);
              reporters_seen = r.reporters_seen;
              doctor = r.doctor;
            };
        over = λ done.
            let o = v.over done in
            record {
              patients_served = o.patients_served;
              salesreps_served = o.salesreps_served;
              patients_seen = o.patients_seen;
              salesreps_seen = omega (arith, o.salesreps_seen);
              nobody = o.nobody;
            };
      })
      | inr room ↦ rw room (
          enter-Arrived IsKept s (record t { salesreps = s.salesreps ++ x ∷ [] })
            (record {
              running = λ on.
                  let r = v.running on in
                  record {
                    patients_in = r.patients_in;
                    salesreps_in =
                        ground (arith, r.salesreps_in, length-append s.salesreps (x ∷ []));
                    reporters_seen = r.reporters_seen;
                    doctor = r.doctor;
                  };
              over = λ done. absurd (ground (arith, (v.over done).salesreps_seen));
            }))
    ]

pub arrive-IsKept :
    (next : Event) (s : Clinic) → IsKept s → IsUnmet s → Arrived IsKept (arrive next s)
unfolding arrive
arrive-IsKept next s v u = elim (Bool-cases (next.kind == b'R')) [
  | inl r ↦ rw r (reporter_arrives-IsKept next.duration s v u)
  | inr r ↦ rw r (elim (Bool-cases (next.kind == b'P')) [
    | inl p ↦ rw p (patient_arrives-IsKept next.duration s v)
    | inr p ↦ rw p (elim (Bool-cases (next.kind == b'S')) [
      | inl e ↦ rw e (salesrep_arrives-IsKept next.duration s v)
      | inr e ↦ rw e v
    ])
  ])
]
