-- ===== src/Event/Queue.antt =====
-- A6/event.c: the queue operations keep a heap of exactly the right events.
use mathlib.Core.List.{Pairwise, not-mem-nil, mem-cons_of_mem, forall_mem-cons}
use mathlib.Core.List.Perm
use native.Mathlib.Bridge.{le_prop}
use os_lab_sp.Prelude.{
  ℕ, zero, suc, ◌+◌, ◌-◌, ◌/◌, ◌≤◌, ◌<◌, ◌≡◌, ◌≢◌, refl, inl, inr, false, some, none, arith, ◌==◌,
  leb, ltb, if◌then◌else◌, length, Bool-cases, Perm, length-perm, List, [], ◌∷◌, ◌++◌, Mem, Option,
  ◌>>=◌, set, init, length-append, append-perm, length-init, get_or-append, get_or-init,
  init-append, length-set, get_or-set, set-perm, ◌∙◌,
}
use os_lab_sp.Event.{
  Event, EventQ, capacity, no_event, scan, init_eq, addevent, delevent, nextevent, empty_q, at,
  load-at,
}
use os_lab_sp.Event.Order.{NotAfter, parent, IsHeap, root_least}
use os_lab_sp.Event.Up.{UpInv, sift_up_restores}
use os_lab_sp.Event.Down.{DownInv, sift_down_restores, heapify_orders}

module _ (q : EventQ) (e : Event) (h : IsHeap q) where
  appended-UpInv : UpInv (q ++ e ∷ []) (length q)
  appended-UpInv =
      let size : length (q ++ e ∷ []) ≡ length q + 1 = length-append q (e ∷ []) in
      record {
        inside = omega (arith, size);
        edges = λ c p r s. ground (
          arith,
          size,
          h c,
          get_or-append no_event q (e ∷ []) c,
          get_or-append no_event q (e ∷ []) (parent c),
        );
        bridged = λ c p r s. absurd (omega (arith, size));
      }

  -- While the array has room, addevent returns a heap of the old events and the new one.
  pub addevent_correct :
      length q < capacity → (b : EventQ) × (addevent q e ≡ some b) × IsHeap b × Perm b (e ∷ q)
  unfolding addevent
  addevent_correct room =
      let (b, r, o, p) =
        sift_up_restores (length q + 1) (q ++ e ∷ []) (length q) (omega arith) appended-UpInv in
      elim (Bool-cases (leb capacity (length q))) [
        | inl full ↦ absurd (ground arith)
        | inr free ↦ rw free (b, r, o, Perm.trans p (append-perm q e))
      ]

-- On a full array addevent would write behind the allocated cells.
pub addevent-full : (q : EventQ) (e : Event) → capacity ≤ length q → addevent q e ≡ none
unfolding addevent
addevent-full q e h = ground arith

-- What delevent is to leave: a heap of the other events, none of them before the one removed.
pub record Removed (q b : EventQ) : Type 0 where
  pub heap : IsHeap b
  pub same : Perm (nextevent q ∷ b) q
  pub least : (e : Event) → Mem e q → NotAfter (nextevent q) e

nextevent-at : (q : EventQ) → nextevent q ≡ at q 0
unfolding nextevent
nextevent-at [] = refl
nextevent-at (e ∷ q) = refl

NotAfter-forall :
    (q : EventQ) (a : Event)
    → ((i : ℕ) → i < length q → NotAfter a (at q i))
    → (e : Event) → Mem e q
    → NotAfter a e
NotAfter-forall [] a h e m = absurd (not-mem-nil m)
NotAfter-forall (x ∷ q) a h e m =
    (forall_mem-cons (λ t. le_prop)).1
      (h 0 (omega arith), NotAfter-forall q a (λ i p. h (suc i) (omega arith))) e m

module _ (q : EventQ) (n : ℕ) (size : length q ≡ suc n) where
  -- The array with its last event over the first one.
  abbrev moved : EventQ
  moved = set q 0 (at q n)

  length-moved : length moved ≡ suc n
  length-moved = length-set q 0 (at q n) ∙ size

  length-cut : length (init moved) ≡ n
  length-cut = omega (arith, length-moved, length-init moved)

  moved_last : at moved n ≡ at q n
  moved_last = ground (arith, get_or-set no_event q 0 n (at q n))

  cut-perm : Perm (at q 0 ∷ init moved) q
  cut-perm =
      let whole : init moved ++ at q n ∷ [] ≡ moved =
        rw moved_last at (init-append no_event moved n length-moved) in
      let apart : Perm (at q n ∷ init moved) moved =
        rw whole at (Perm.symm (append-perm (init moved) (at q n))) in
      Perm.cons_inv {a = at q n} (
        Perm.trans (Perm.swap (at q 0) (at q n) (init moved))
          (Perm.trans (Perm.cons (at q 0) apart) (set-perm no_event q 0 (at q n) (omega arith))))

  cut-at : (c : ℕ) → c < n → at (init moved) c ≡ (if 0 == c then at q n else at q c)
  cut-at c h =
      get_or-init no_event moved c (omega (arith, length-moved))
      ∙ get_or-set no_event q 0 c (at q n) (omega arith)

  cut-DownInv : IsHeap q → DownInv 0 (init moved) 0
  cut-DownInv h = record {
    edges = λ c p r s t. ground (arith, length-cut, h c, cut-at c, cut-at (parent c));
    bridged = λ c p r s t. absurd (omega arith);
  }

-- On a heap that is not empty, delevent removes exactly the event that nextevent shows, which no
-- event of the queue precedes, and restores the heap.
pub delevent_correct :
    (q : EventQ) → IsHeap q → 0 < length q → (b : EventQ) × (delevent q ≡ some b) × Removed q b
unfolding delevent
delevent_correct q h full =
    let n = length q - 1 in
    let size : length q ≡ suc n = omega arith in
    let b0 = init (moved q n size) in
    let (b, r, o, p) =
      sift_down_restores (length b0 + 1) 0 b0 0 (omega arith) (omega arith)
        (cut-DownInv q n size h) in
    elim (Bool-cases (ltb 0 (length q))) [
      | inl some_left ↦
          rw (some_left, load-at q n (omega arith))
            (
              b,
              r,
              record {
                heap = o;
                same = rw (nextevent-at q) (Perm.trans (Perm.cons _ p) (cut-perm q n size));
                least =
                    NotAfter-forall q (nextevent q)
                      (λ i s. rw (nextevent-at q) (root_least q i h s));
              },
            )
      | inr none_left ↦ absurd (ground arith)
    ]

-- On an empty queue delevent changes nothing and nextevent answers with an 'E' event.
pub delevent-empty : (delevent [] ≡ some []) × ((nextevent []).kind ≡ b'E')
unfolding delevent nextevent
delevent-empty = (refl, refl)

-- The file that arrival.c writes: records of other types, then one of type 'E'.
abbrev pub IsInput : List Event → EventQ → Type 0
IsInput [] q = ⊥
IsInput (e ∷ input) [] = e.kind ≡ b'E'
IsInput (e ∷ input) (x ∷ q) = (e ≡ x) × (e.kind ≢ b'E') × IsInput input q

scan-some :
    (n : ℕ) (input : List Event) (q : EventQ)
    → IsInput input q
    → n + length q ≤ capacity
    → scan n input ≡ some q
unfolding scan
scan-some n [] q h room = absurd h
scan-some n (e ∷ input) [] h room = ground arith
scan-some n (e ∷ input) (x ∷ q) (same, other, h) room =
    rw (scan-some (n + 1) input q h (omega arith)) (ground arith)

-- initEQ returns a heap of the events in front of the 'E' record, if the array has room for them.
pub init_eq_correct :
    (input : List Event) (q : EventQ)
    → IsInput input q
    → length q ≤ capacity
    → (b : EventQ) × (init_eq input ≡ some b) × IsHeap b × Perm b q
unfolding init_eq
init_eq_correct input q h room =
    rw (scan-some 0 input q h (omega arith))
      (heapify_orders (length q / 2) q (λ c p r s. absurd (omega arith)))

-- The use that session.c makes of the queue: take the next event until none is left.
pub serve_all : ℕ → EventQ → Option (List Event)
serve_all zero q = none
serve_all (suc k) q =
    let rest = delevent q >>= λ b. serve_all k b >>= λ out. some (nextevent q ∷ out) in
    if empty_q q then some [] else rest

empty_q-cons : (x : Event) (q : EventQ) → empty_q (x ∷ q) ≡ false
unfolding empty_q
empty_q-cons x q = ground arith

-- From a heap, taking the next event until the queue is empty ends, with enough rounds, in all the
-- events of the heap, in the order of time and then of rank.
pub serve_all_sorts :
    (k : ℕ) (q : EventQ)
    → length q < k
    → IsHeap q
    → (out : List Event) × (serve_all k q ≡ some out) × Perm out q × Pairwise NotAfter out
unfolding serve_all
serve_all_sorts zero q f h = absurd (omega arith)
serve_all_sorts (suc k) [] f h = ([], unfold empty_q in refl, Perm.nil, Pairwise.nil)
serve_all_sorts (suc k) (x ∷ q) f h =
    let (b, e, r) = delevent_correct (x ∷ q) h (omega arith) in
    let shorter = length-perm r.same in
    let (out, run, same, sorted) = serve_all_sorts k b (omega arith) r.heap in
    let all = Perm.trans (Perm.cons (nextevent (x ∷ q)) same) r.same in
    rw (empty_q-cons x q, e, run)
      (
        nextevent (x ∷ q) ∷ out,
        refl,
        all,
        Pairwise.cons (λ t m. r.least t ((Perm.mem_iff all).0 (mem-cons_of_mem _ m))) sorted,
      )
