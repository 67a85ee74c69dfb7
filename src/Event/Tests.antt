-- ===== src/Event/Tests.antt =====
-- A6/event.c: runs on small queues, and the theorems at concrete inputs.
use mathlib.Core.List.{Pairwise}
use os_lab_sp.Prelude.{ℕ, zero, suc, ◌≡◌, refl, List, [], ◌∷◌, Perm, some, arith}
use os_lab_sp.Prelude.Int.{pos, negsuc}
use os_lab_sp.Event.{Event, EventQ, eventcmp, init_eq, addevent, delevent}
use os_lab_sp.Event.Order.{NotAfter, IsHeap, Lexicographic, eventcmp_order}
use os_lab_sp.Event.Queue.{
  Removed, addevent_correct, delevent_correct, init_eq_correct, serve_all, serve_all_sorts,
}

abbrev visitor : ℕ → ℕ → Event
visitor kind time = record { kind = kind; time = pos time; duration = pos 5 }

abbrev early_patient : Event
early_patient = record { kind = b'P'; time = negsuc 9; duration = pos 7 }

abbrev arrivals : List Event
arrivals = visitor b'S' 30 ∷ visitor b'P' 30 ∷ visitor b'R' 30 ∷ early_patient ∷ visitor b'E' 0 ∷ []

abbrev queue : EventQ
queue = early_patient ∷ visitor b'P' 30 ∷ visitor b'R' 30 ∷ visitor b'S' 30 ∷ []

init_eq_run : init_eq arrivals ≡ some queue
unfolding init_eq
init_eq_run = refl

delevent_run : delevent queue ≡ some (visitor b'R' 30 ∷ visitor b'P' 30 ∷ visitor b'S' 30 ∷ [])
unfolding delevent
delevent_run = refl

queue-IsHeap : IsHeap queue
queue-IsHeap zero p q r = absurd (omega arith)
queue-IsHeap (suc zero) p q r = omega arith
queue-IsHeap (suc (suc zero)) p q r = omega arith
queue-IsHeap (suc (suc (suc zero))) p q r = omega arith
queue-IsHeap (suc (suc (suc (suc c)))) p q r = absurd (omega arith)

reporter_before_patient : Lexicographic (visitor b'R' 30) (visitor b'P' 30)
unfolding eventcmp
reporter_before_patient = (eventcmp_order (visitor b'R' 30) (visitor b'P' 30)).0 refl

addevent_correct_example :
    (b : EventQ) × (addevent queue (visitor b'D' 12) ≡ some b)
    × IsHeap b
    × Perm b (visitor b'D' 12 ∷ queue)
addevent_correct_example = addevent_correct queue (visitor b'D' 12) queue-IsHeap (omega arith)

delevent_correct_example : (b : EventQ) × (delevent queue ≡ some b) × Removed queue b
delevent_correct_example = delevent_correct queue queue-IsHeap (omega arith)

init_eq_correct_example :
    (b : EventQ) × (init_eq arrivals ≡ some b)
    × IsHeap b
    × Perm b (visitor b'S' 30 ∷ visitor b'P' 30 ∷ visitor b'R' 30 ∷ early_patient ∷ [])
init_eq_correct_example =
    init_eq_correct arrivals
      (visitor b'S' 30 ∷ visitor b'P' 30 ∷ visitor b'R' 30 ∷ early_patient ∷ []) (ground arith)
      (omega arith)

serve_all_sorts_example :
    (out : List Event) × (serve_all 5 queue ≡ some out) × Perm out queue × Pairwise NotAfter out
serve_all_sorts_example = serve_all_sorts 5 queue (omega arith) queue-IsHeap
