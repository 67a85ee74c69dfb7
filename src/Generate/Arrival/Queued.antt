-- ===== src/Generate/Arrival/Queued.antt =====
-- A6/arrival.c and A6/event.c: the visitors that are generated fit into the queue.
use os_lab_sp.Prelude.{
  ℕ, zero, suc, ◌+◌, ◌%◌, ◌<◌, ◌≤◌, ◌≡◌, ◌≢◌, refl, List, [], ◌∷◌, ◌++◌, some, Perm, length,
  length-append, arith, ap, ◌∙◌,
}
use native.Mathlib.Nat.{mod-lt}
use os_lab_sp.Event.{Event, EventQ, init_eq, no_event}
use os_lab_sp.Event.Order.{IsHeap}
use os_lab_sp.Event.Queue.{IsInput, init_eq_correct}
use os_lab_sp.Generate.Arrival.{
  visitors, patient_lines, second_call, reporter_lines, third_call, salesrep_lines, arrival,
}
use os_lab_sp.Session.{max_infos}

-- Lines of other kinds than 'E'.
abbrev AreVisitors : List Event → Type 0
AreVisitors [] = Unit
AreVisitors (e ∷ input) = (e.kind ≢ b'E') × AreVisitors input

AreVisitors-append : (s t : List Event) → AreVisitors s → AreVisitors t → AreVisitors (s ++ t)
AreVisitors-append [] t v w = w
AreVisitors-append (e ∷ s) t v w = (v.0, AreVisitors-append s t v.1 w)

AreVisitors-IsInput : (s : List Event) → AreVisitors s → IsInput (s ++ no_event ∷ []) s
AreVisitors-IsInput [] v = refl
AreVisitors-IsInput (e ∷ s) v = (refl, v.0, AreVisitors-IsInput s v.1)

module _ (rand : ℕ → ℕ) (kind span early short spread : ℕ) where
  length-visitors : (k c : ℕ) → length (visitors rand kind span early short spread k c) ≡ k
  unfolding visitors
  length-visitors zero c = refl
  length-visitors (suc k) c = ap suc (length-visitors k (c + 2))

  visitors-AreVisitors :
      (k c : ℕ) → kind ≢ b'E' → AreVisitors (visitors rand kind span early short spread k c)
  unfolding visitors
  visitors-AreVisitors zero c h = tt
  visitors-AreVisitors (suc k) c h = (h, visitors-AreVisitors k (c + 2) h)

patients-AreVisitors : (rand : ℕ → ℕ) → AreVisitors (patient_lines rand)
unfolding patient_lines
patients-AreVisitors rand =
    visitors-AreVisitors rand b'P' 345 15 5 11 (25 + rand 0 % 16) 1 (λ e. omega (arith, e))

reporters-AreVisitors : (rand : ℕ → ℕ) → AreVisitors (reporter_lines rand)
unfolding reporter_lines
reporters-AreVisitors rand =
    let c = second_call rand in
    visitors-AreVisitors rand b'R' 330 0 1 2 (5 + rand c % 11) (c + 1) (λ e. omega (arith, e))

salesreps-AreVisitors : (rand : ℕ → ℕ) → AreVisitors (salesrep_lines rand)
unfolding salesrep_lines
salesreps-AreVisitors rand =
    let c = third_call rand in
    visitors-AreVisitors rand b'S' 360 30 5 6 (3 + rand c % 5) (c + 1) (λ e. omega (arith, e))

-- The numbers of lines.
record Sizes (rand : ℕ → ℕ) : Type 0 where
  patients : (25 ≤ length (patient_lines rand)) × (length (patient_lines rand) ≤ 40)
  reporters : (5 ≤ length (reporter_lines rand)) × (length (reporter_lines rand) ≤ 15)
  salesreps : (3 ≤ length (salesrep_lines rand)) × (length (salesrep_lines rand) ≤ 7)

arrival-Sizes : (rand : ℕ → ℕ) → Sizes rand
unfolding patient_lines reporter_lines salesrep_lines
arrival-Sizes rand =
    let c = second_call rand in
    let d = third_call rand in
    let p = mod-lt (rand 0) {m = 16} (omega arith) in
    let r = mod-lt (rand c) {m = 11} (omega arith) in
    let s = mod-lt (rand d) {m = 5} (omega arith) in
    let np = length-visitors rand b'P' 345 15 5 11 (25 + rand 0 % 16) 1 in
    let nr = length-visitors rand b'R' 330 0 1 2 (5 + rand c % 11) (c + 1) in
    let ns = length-visitors rand b'S' 360 30 5 6 (3 + rand d % 5) (d + 1) in
    record {
      patients = (omega (arith, np), omega (arith, p, np));
      reporters = (omega (arith, nr), omega (arith, r, nr));
      salesreps = (omega (arith, ns), omega (arith, s, ns));
    }

length-arrival :
    (rand : ℕ → ℕ)
    → length (arrival rand)
      ≡ length (patient_lines rand) + length (reporter_lines rand) + length (salesrep_lines rand)
unfolding arrival
length-arrival rand =
    length-append (patient_lines rand ++ reporter_lines rand) (salesrep_lines rand)
    ∙ ap (λ n. n + length (salesrep_lines rand))
        (length-append (patient_lines rand) (reporter_lines rand))

arrival-AreVisitors : (rand : ℕ → ℕ) → AreVisitors (arrival rand)
unfolding arrival
arrival-AreVisitors rand =
    AreVisitors-append (patient_lines rand ++ reporter_lines rand) (salesrep_lines rand)
      (AreVisitors-append (patient_lines rand) (reporter_lines rand) (patients-AreVisitors rand)
        (reporters-AreVisitors rand))
      (salesreps-AreVisitors rand)

-- Whatever the values of rand(): the file holds from 33 to 62 visitors, so that it fits into the queue and into
-- the array of the visitors, and initEQ makes a heap of exactly these visitors.
pub arrival_queued :
    (rand : ℕ → ℕ)
    → (33 ≤ length (arrival rand))
      × (length (arrival rand) ≤ 62)
      × (62 < max_infos)
      × (b : EventQ) × (init_eq (arrival rand ++ no_event ∷ []) ≡ some b)
      × IsHeap b
      × Perm b (arrival rand)
arrival_queued rand =
    let sizes = arrival-Sizes rand in
    let all = length-arrival rand in
    let most : length (arrival rand) ≤ 62 =
      omega (arith, all, sizes.patients.1, sizes.reporters.1, sizes.salesreps.1) in
    let (b, made, heap, same) =
      init_eq_correct (arrival rand ++ no_event ∷ []) (arrival rand)
        (AreVisitors-IsInput (arrival rand) (arrival-AreVisitors rand)) (omega (arith, most)) in
    (
      omega (arith, all, sizes.patients.0, sizes.reporters.0, sizes.salesreps.0),
      most,
      omega arith,
      b,
      made,
      heap,
      same,
    )
