-- ===== src/Event.antt =====
-- A6/event.c and A6/event.h: the event queue of the doctor's assistant, a binary heap in an array.
-- An EventQ is the list of the first `n` cells of `E.Q`; the cells behind them are never read.
-- A read or write outside them, an append to a full array and an exhausted loop counter are `none`.
pub mod Order
pub mod Up
pub mod Down
pub mod Queue
mod Tests
use os_lab_sp.Prelude.{
  ℕ, zero, suc, ◌+◌, ◌-◌, ◌*◌, ◌/◌, ◌≤◌, ◌<◌, ◌≡◌, refl, Bool, List, [], ◌∷◌, ◌++◌, Option, none,
  some, arith, ltb, leb, ◌==◌, if◌then◌else◌, ◌>>=◌, length, get_elem?, get_or, set, init,
  get_elem?-get_or,
}
use os_lab_sp.Prelude.Int.{ℤ, pos, negsuc, ltb_ℤ}

pub record Event : Type 0 where
  pub kind : ℕ  -- a char: 'R', 'P', 'S', 'D' or 'E'
  pub time : ℤ
  pub duration : ℤ

abbrev pub EventQ : Type 0
EventQ = List Event

-- malloc(128 * sizeof(event))
abbrev pub capacity : ℕ
capacity = 128

unfoldable pub eventcmp : Event → Event → ℤ
eventcmp e1 e2 =
    if ltb_ℤ e1.time e2.time
    then negsuc 0
    else if ltb_ℤ e2.time e1.time
    then pos 1
    else if e1.kind == b'R'
    then negsuc 0
    else if e2.kind == b'R'
    then pos 1
    else if e1.kind == b'P'
    then negsuc 0
    else if e2.kind == b'P'
    then pos 1
    else if e1.kind == b'S'
    then negsuc 0
    else if e2.kind == b'S'
    then pos 1
    else pos 0

-- eventcmp(e1, e2) < 0
abbrev pub precedes : Event → Event → Bool
precedes e1 e2 = ltb_ℤ (eventcmp e1 e2) (pos 0)

unfoldable pub empty_q : EventQ → Bool
empty_q q = length q == 0

-- E.Q[i]
abbrev pub load : EventQ → ℕ → Option Event
load q i = get_elem? q i

-- t = E.Q[i]; E.Q[i] = E.Q[j]; E.Q[j] = t;
unfoldable pub swap : EventQ → ℕ → ℕ → Option EventQ
swap q i j = do t ← load q i; y ← load q j; some (set (set q i y) j t)

-- The loop of addevent.
unfoldable pub sift_up : ℕ → EventQ → ℕ → Option EventQ
sift_up zero q i = none
sift_up (suc k) q i =
    let p = (i - 1) / 2 in
    let rise : Option EventQ = swap q i p >>= λ b. sift_up k b p in
    let step : Option EventQ = do x ← load q p; y ← load q i; if precedes x y then some q else rise
    in if i == 0 then some q else step

-- m = ((r == E.n) || (eventcmp(E.Q[l],E.Q[r]) < 0)) ? l : r
unfoldable pub lower_child : EventQ → ℕ → Option ℕ
lower_child q i =
    let l = 2 * i + 1 in
    let r = 2 * i + 2 in
    let compared : Option ℕ = (do
      x ← load q l
      y ← load q r
      some (if precedes x y then l else r)) in
    if r == length q then some l else compared

-- The loop that initEQ and delevent share.
unfoldable pub sift_down : ℕ → EventQ → ℕ → Option EventQ
sift_down zero q i = none
sift_down (suc k) q i =
    let step : Option EventQ = do
      m ← lower_child q i
      x ← load q i
      y ← load q m
      let sink = swap q i m >>= λ b. sift_down k b m
      if precedes x y then some q else sink
    in if leb (length q) (2 * i + 1) then some q else step

unfoldable pub addevent : EventQ → Event → Option EventQ
unfolding sift_up swap eventcmp
addevent q e = let i = length q in if leb capacity i then none else sift_up (i + 1) (q ++ e ∷ []) i

unfoldable pub delevent : EventQ → Option EventQ
unfolding sift_down swap lower_child eventcmp
delevent q =
    if ltb 0 (length q)
    then (do
      last ← load q (length q - 1)
      let b = init (set q 0 last)
      sift_down (length b + 1) b 0)
    else some q

unfoldable pub nextevent : EventQ → Event
nextevent [] = record { kind = b'E'; time = pos 0; duration = pos 0 }
nextevent (e ∷ q) = e

-- The reading loop of initEQ over the records that fscanf delivers; `n` cells are filled.
-- A file that ends before a record of type 'E' never stops the loop.
unfoldable pub scan : ℕ → List Event → Option EventQ
scan n [] = none
scan n (e ∷ input) =
    let rest = scan (n + 1) input >>= λ q. some (e ∷ q) in
    if e.kind == b'E' then some [] else if leb capacity n then none else rest

-- for (j = E.n / 2 - 1; j >= 0; --j)
pub heapify : ℕ → EventQ → Option EventQ
heapify zero q = some q
heapify (suc j) q = sift_down (length q + 1) q j >>= heapify j

unfoldable pub init_eq : List Event → Option EventQ
unfolding scan heapify sift_down swap lower_child eventcmp
init_eq input = do q ← scan 0 input; heapify (length q / 2) q

-- (event){'E', 0, 0}
abbrev pub no_event : Event
no_event = record { kind = b'E'; time = pos 0; duration = pos 0 }

-- The cell `i`, for the statements.
abbrev pub at : EventQ → ℕ → Event
at q i = get_or q i no_event

abbrev pub swapped : EventQ → ℕ → ℕ → EventQ
swapped q i j = set (set q i (at q j)) j (at q i)

pub load-at : (q : EventQ) (i : ℕ) → i < length q → load q i ≡ some (at q i)
load-at q i h = get_elem?-get_or no_event q i h
