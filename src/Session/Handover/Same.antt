-- ===== src/Session/Handover/Same.antt =====
-- A6/session.c: the test whether two states of the threads are the same.
use os_lab_sp.Prelude.{
  ℕ, ◌≡◌, refl, Bool, true, false, ◌==◌, ◌&&◌, not, if◌then◌else◌, arith, ap, sym, ◌∙◌,
}
use os_lab_sp.Session.Handover.{Asst, Doctor, Patient, Threads}

abbrev pub asst_number : Asst → ℕ
asst_number Asst.creating = 0
asst_number Asst.testing1 = 1
asst_number Asst.pausing1 = 2
asst_number Asst.asleep1 = 3
asst_number Asst.calling = 4
asst_number Asst.testing2 = 5
asst_number Asst.pausing2 = 6
asst_number Asst.asleep2 = 7
asst_number Asst.admitting = 8
asst_number Asst.arriving = 9
asst_number Asst.inside = 10
asst_number Asst.over = 11

abbrev nth_asst : ℕ → Asst
nth_asst n =
    if n == 0
    then Asst.creating
    else if n == 1
    then Asst.testing1
    else if n == 2
    then Asst.pausing1
    else if n == 3
    then Asst.asleep1
    else if n == 4
    then Asst.calling
    else if n == 5
    then Asst.testing2
    else if n == 6
    then Asst.pausing2
    else if n == 7
    then Asst.asleep2
    else if n == 8
    then Asst.admitting
    else if n == 9
    then Asst.arriving
    else if n == 10
    then Asst.inside
    else Asst.over

nth_asst-number : (p : Asst) → nth_asst (asst_number p) ≡ p
nth_asst-number Asst.creating = refl
nth_asst-number Asst.testing1 = refl
nth_asst-number Asst.pausing1 = refl
nth_asst-number Asst.asleep1 = refl
nth_asst-number Asst.calling = refl
nth_asst-number Asst.testing2 = refl
nth_asst-number Asst.pausing2 = refl
nth_asst-number Asst.asleep2 = refl
nth_asst-number Asst.admitting = refl
nth_asst-number Asst.arriving = refl
nth_asst-number Asst.inside = refl
nth_asst-number Asst.over = refl

abbrev pub doctor_number : Doctor → ℕ
doctor_number Doctor.free = 0
doctor_number Doctor.resting = 1
doctor_number Doctor.writing = 2
doctor_number Doctor.signalling = 3
doctor_number Doctor.arriving = 4
doctor_number Doctor.inside = 5

abbrev nth_doctor : ℕ → Doctor
nth_doctor n =
    if n == 0
    then Doctor.free
    else if n == 1
    then Doctor.resting
    else if n == 2
    then Doctor.writing
    else if n == 3
    then Doctor.signalling
    else if n == 4
    then Doctor.arriving
    else Doctor.inside

nth_doctor-number : (p : Doctor) → nth_doctor (doctor_number p) ≡ p
nth_doctor-number Doctor.free = refl
nth_doctor-number Doctor.resting = refl
nth_doctor-number Doctor.writing = refl
nth_doctor-number Doctor.signalling = refl
nth_doctor-number Doctor.arriving = refl
nth_doctor-number Doctor.inside = refl

abbrev pub patient_number : Patient → ℕ
patient_number Patient.absent = 0
patient_number Patient.entering = 1
patient_number Patient.writing = 2
patient_number Patient.signalling = 3
patient_number Patient.testing = 4
patient_number Patient.asleep = 5
patient_number Patient.woken = 6
patient_number Patient.arriving = 7
patient_number Patient.inside = 8
patient_number Patient.left = 9

abbrev nth_patient : ℕ → Patient
nth_patient n =
    if n == 0
    then Patient.absent
    else if n == 1
    then Patient.entering
    else if n == 2
    then Patient.writing
    else if n == 3
    then Patient.signalling
    else if n == 4
    then Patient.testing
    else if n == 5
    then Patient.asleep
    else if n == 6
    then Patient.woken
    else if n == 7
    then Patient.arriving
    else if n == 8
    then Patient.inside
    else Patient.left

nth_patient-number : (p : Patient) → nth_patient (patient_number p) ≡ p
nth_patient-number Patient.absent = refl
nth_patient-number Patient.entering = refl
nth_patient-number Patient.writing = refl
nth_patient-number Patient.signalling = refl
nth_patient-number Patient.testing = refl
nth_patient-number Patient.asleep = refl
nth_patient-number Patient.woken = refl
nth_patient-number Patient.arriving = refl
nth_patient-number Patient.inside = refl
nth_patient-number Patient.left = refl

abbrev pub same_bool : Bool → Bool → Bool
same_bool true b = b
same_bool false b = not b

same_bool_sound : (a b : Bool) → same_bool a b ≡ true → a ≡ b
same_bool_sound true true e = refl
same_bool_sound true false e = sym e
same_bool_sound false true e = e
same_bool_sound false false e = refl

-- Whether two states are the same.
abbrev same_flags : Threads → Threads → Bool
same_flags s t =
    same_bool s.asst_done t.asst_done
    && (same_bool s.doc_done t.doc_done
        && (same_bool s.pat_done t.pat_done && ((s.count == t.count) && (s.visits == t.visits))))

unfoldable pub same_threads : Threads → Threads → Bool
same_threads s t =
    (asst_number s.asst == asst_number t.asst)
    && ((doctor_number s.doctor == doctor_number t.doctor)
        && ((patient_number s.patient == patient_number t.patient) && same_flags s t))

pub same_asst : (a b : Asst) → (asst_number a == asst_number b) ≡ true → a ≡ b
same_asst a b e =
    let same : asst_number a ≡ asst_number b = ground (arith, e) in
    sym (nth_asst-number a) ∙ ap nth_asst same ∙ nth_asst-number b

pub same_doctor : (a b : Doctor) → (doctor_number a == doctor_number b) ≡ true → a ≡ b
same_doctor a b e =
    let same : doctor_number a ≡ doctor_number b = ground (arith, e) in
    sym (nth_doctor-number a) ∙ ap nth_doctor same ∙ nth_doctor-number b

pub same_patient : (a b : Patient) → (patient_number a == patient_number b) ≡ true → a ≡ b
same_patient a b e =
    let same : patient_number a ≡ patient_number b = ground (arith, e) in
    sym (nth_patient-number a) ∙ ap nth_patient same ∙ nth_patient-number b

pub both : {a b : Bool} → (a && b) ≡ true → (a ≡ true) × (b ≡ true)
both {a = true} e = (refl, e)
both {a = false} e = absurd (ground (arith, e))

pub same_number : (a b : ℕ) → (a == b) ≡ true → a ≡ b
same_number a b e = ground (arith, e)

pub same_threads_sound : (s t : Threads) → same_threads s t ≡ true → s ≡ t
unfolding same_threads
same_threads_sound s t e =
    let (e0, r0) = both e in
    let (e1, r1) = both r0 in
    let (e2, r2) = both r1 in
    let (e3, r3) = both r2 in
    let (e4, r4) = both r3 in
    let (e5, r5) = both r4 in
    let (e6, e7) = both r5 in
    let asst = same_asst s.asst t.asst e0 in
    let doctor = same_doctor s.doctor t.doctor e1 in
    let patient = same_patient s.patient t.patient e2 in
    let asst_done = same_bool_sound s.asst_done t.asst_done e3 in
    let doc_done = same_bool_sound s.doc_done t.doc_done e4 in
    let pat_done = same_bool_sound s.pat_done t.pat_done e5 in
    let count = same_number s.count t.count e6 in
    let visits = same_number s.visits t.visits e7 in
    λ i. record {
      asst = asst i;
      doctor = doctor i;
      patient = patient i;
      asst_done = asst_done i;
      doc_done = doc_done i;
      pat_done = pat_done i;
      count = count i;
      visits = visits i;
    }
