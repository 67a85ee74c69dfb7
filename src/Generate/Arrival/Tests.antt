-- ===== src/Generate/Arrival/Tests.antt =====
-- A6/arrival.c: the visitors of one run.
use os_lab_sp.Prelude.{ℕ, ◌<◌, ◌≤◌, ◌≡◌, refl, [], ◌∷◌, ◌++◌, some, Perm, length}
use os_lab_sp.Event.{EventQ, init_eq, no_event}
use os_lab_sp.Event.Order.{IsHeap}
use os_lab_sp.Session.{max_infos}
use os_lab_sp.Generate.Arrival.{visitors, patient_lines, reporter_lines, salesrep_lines, arrival}
use os_lab_sp.Generate.Arrival.Queued.{arrival_queued}

abbrev dice : ℕ → ℕ
dice c = c

forty_one_lines : length (arrival dice) ≡ 41
unfolding arrival patient_lines reporter_lines salesrep_lines visitors
forty_one_lines = refl

arrival_queued_example :
    (33 ≤ length (arrival dice))
    × (length (arrival dice) ≤ 62)
    × (62 < max_infos)
    × (b : EventQ) × (init_eq (arrival dice ++ no_event ∷ []) ≡ some b)
    × IsHeap b
    × Perm b (arrival dice)
arrival_queued_example = arrival_queued dice
