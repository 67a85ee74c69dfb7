-- ===== src/Session/Handover/Explored.antt =====
-- A6/session.c: what holds in all states of the threads.
use os_lab_sp.Prelude.{
  Option-cases, ◌>>=◌, ◌≡◌, refl, Bool, true, false, List, [], ◌∷◌, ◌++◌, Option, none, some, ◌==◌,
  ◌&&◌, ◌||◌, leb, if◌then◌else◌, arith, ap, sym, ◌∙◌, subst, inl, inr,
}
use mathlib.Core.Option.{some-injective}
use os_lab_sp.Prelude.Explore.{
  In, here, later, explore, elem, all, is_closed, Reach, begin, on, fresh,
}
use os_lab_sp.Session.Handover.{
  Asst, Doctor, Patient, Threads, opening, Thread, assistant, doctor, patient, thread_step,
  run_order, ThreadMove, runs, wakes, thread_move, OnlySignals, asst_step, doctor_step,
  patient_step, reach_barrier,
}
use os_lab_sp.Session.Handover.Same.{same_threads, asst_number, doctor_number, patient_number}

-- The states of the threads in any order.
pub data Reached : Threads → Type 0 where
  at_start : Reached opening
  after_step : {s t : Threads} (a : Thread) → Reached s → thread_step a s ≡ some t → Reached t

abbrev pub to_list : Option Threads → List Threads
to_list none = []
to_list (some s) = s ∷ []

unfoldable pub next : Threads → List Threads
unfolding thread_step
next s =
    to_list (thread_step assistant s)
    ++ to_list (thread_step doctor s)
    ++ to_list (thread_step patient s)

In-left : (s : Threads) (l r : List Threads) → In s l → In s (l ++ r)
In-left s l r (here {l = rest}) = here
In-left s l r (later {l = rest} i) = later (In-left s rest r i)

In-right : (s : Threads) (l r : List Threads) → In s r → In s (l ++ r)
In-right s [] r i = i
In-right s (x ∷ l) r i = later (In-right s l r i)

In-to_list : (o : Option Threads) (s : Threads) → o ≡ some s → In s (to_list o)
In-to_list o s e = subst (λ p. In s (to_list p)) (sym e) here

pub thread_step-next : (a : Thread) (s t : Threads) → thread_step a s ≡ some t → In t (next s)
unfolding next
thread_step-next assistant s t e =
    In-left t _ _ (In-left t _ _ (In-to_list (thread_step assistant s) t e))
thread_step-next doctor s t e =
    In-left t _ _
      (In-right t (to_list (thread_step assistant s)) _ (In-to_list (thread_step doctor s) t e))
thread_step-next patient s t e =
    In-right t (to_list (thread_step assistant s) ++ to_list (thread_step doctor s)) _
      (In-to_list (thread_step patient s) t e)

pub Reached-Reach : (s : Threads) → Reached s → Reach same_threads next opening s
Reached-Reach s at_start = begin
Reached-Reach t (after_step {s} a r e) = on (Reached-Reach s r) (thread_step-next a s t e)

pub run_order-Reached :
    (order : List ThreadMove) (s t : Threads)
    → OnlySignals order
    → Reached s
    → run_order order s ≡ some t
    → Reached t
unfolding run_order thread_move
run_order-Reached [] s t only r e = subst Reached (some-injective s t e) r
run_order-Reached (runs a ∷ order) s t only r e = elim (Option-cases (thread_step a s)) [
  | inl missing ↦ absurd (ground (arith, e, missing))
  | inr (u, found) ↦
      run_order-Reached order u t only (after_step a r found)
        (sym (ap (λ o. o >>= run_order order) found) ∙ e)
]
run_order-Reached (wakes a ∷ order) s t only r e = absurd only

unfoldable pub states : List Threads
unfolding explore opening
states = explore same_threads next 300 (opening ∷ []) (opening ∷ [])

-- A state that is not stuck, or the end of the visit, or an assistant that missed a signal.
abbrev pub is_over : Asst → Bool
is_over p = asst_number p == asst_number Asst.over

abbrev pub is_asleep : Asst → Bool
is_asleep p =
    (asst_number p == asst_number Asst.asleep1) || (asst_number p == asst_number Asst.asleep2)

abbrev pub is_resting : Doctor → Bool
is_resting p = doctor_number p == doctor_number Doctor.resting

abbrev pub has_left : Patient → Bool
has_left p = patient_number p == patient_number Patient.left

abbrev pub is_empty : List Threads → Bool
is_empty [] = true
is_empty l = false

abbrev pub at_end : Threads → Bool
at_end s = is_over s.asst && (is_resting s.doctor && has_left s.patient)

abbrev pub has_missed : Threads → Bool
has_missed s = is_asleep s.asst && s.asst_done

unfoldable pub is_sound : Threads → Bool
is_sound s =
    leb s.visits 1
    && ((if is_over s.asst then s.visits == 1 else true)
        && (if is_empty (next s) then at_end s || has_missed s else true))

pub start_in : elem same_threads next opening states ≡ true
unfolding states next thread_step asst_step doctor_step patient_step reach_barrier same_threads elem
    fresh
start_in = refl

pub states_closed : is_closed same_threads next states ≡ true
unfolding states next thread_step asst_step doctor_step patient_step reach_barrier same_threads elem
    fresh is_closed all
states_closed = refl

pub states_sound : all same_threads next is_sound states ≡ true
unfolding states next thread_step asst_step doctor_step patient_step reach_barrier same_threads elem
    fresh all is_sound
states_sound = refl
