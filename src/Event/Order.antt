-- ===== src/Event/Order.antt =====
-- A6/event.c: the order that eventcmp decides, and the heap order of the array.
use mathlib.Core.List.Perm
use os_lab_sp.Prelude.{
  ℕ, zero, suc, ◌+◌, ◌-◌, ◌*◌, ◌/◌, ◌≤◌, ◌<◌, ◌≡◌, ◌⊎◌, true, false, Perm, Option, some, arith,
  ◌==◌, if◌then◌else◌, length, set, length-set, get_or-set, set-perm, ◌↔◌,
}
use os_lab_sp.Prelude.Int.{pos, pos_part, neg_part, ltb_ℤ}
use os_lab_sp.Event.{Event, EventQ, eventcmp, precedes, swap, no_event, at, swapped, load-at}

-- Reporters go before patients, patients before sales representatives, and those before the rest.
abbrev pub rank : ℕ → ℕ
rank kind = if kind == b'R' then 0 else if kind == b'P' then 1 else if kind == b'S' then 2 else 3

-- `a` is not later than `b`: by time, then by rank.
abbrev pub NotAfter : Event → Event → Type 0
NotAfter a b =
    4 * (pos_part a.time + neg_part b.time) + rank a.kind
    ≤ 4 * (pos_part b.time + neg_part a.time) + rank b.kind

-- The same, read as a lexicographic order.
abbrev pub Lexicographic : Event → Event → Type 0
Lexicographic a b =
    (ltb_ℤ a.time b.time ≡ true) ⊎ ((ltb_ℤ b.time a.time ≡ false) × (rank a.kind ≤ rank b.kind))

pub precedes_sound : (a b : Event) → precedes a b ≡ true → NotAfter a b
unfolding eventcmp
precedes_sound a b h = ground arith

pub precedes_complete : (a b : Event) → precedes a b ≡ false → NotAfter b a
unfolding eventcmp
precedes_complete a b h = ground arith

pub NotAfter-iff : (a b : Event) → NotAfter a b ↔ Lexicographic a b
NotAfter-iff a b = ground arith

-- A negative answer of eventcmp means that the first event is not after the second by time and then
-- by rank, and any other answer means that the second is not after the first.
pub eventcmp_order :
    (a b : Event)
    → (ltb_ℤ (eventcmp a b) (pos 0) ≡ true → Lexicographic a b)
      × (ltb_ℤ (eventcmp a b) (pos 0) ≡ false → Lexicographic b a)
eventcmp_order a b = (
  λ t. (NotAfter-iff a b).0 (precedes_sound a b t),
  λ t. (NotAfter-iff b a).0 (precedes_complete a b t),
)

abbrev pub parent : ℕ → ℕ
parent c = (c - 1) / 2

-- Every edge whose parent is at `lo` or later is in order.
abbrev pub IsHeapFrom : ℕ → EventQ → Type 0
IsHeapFrom lo q =
    (c : ℕ) → 0 < c → c < length q → lo ≤ parent c → NotAfter (at q (parent c)) (at q c)

abbrev pub IsHeap : EventQ → Type 0
IsHeap = IsHeapFrom 0

-- A run that ends, in order from `lo`, with the same events.
abbrev pub Sifts : ℕ → EventQ → Option EventQ → Type 0
Sifts lo q r = (b : EventQ) × (r ≡ some b) × IsHeapFrom lo b × Perm b q

module _ (q : EventQ) (i j : ℕ) (hi : i < length q) (hj : j < length q) where
  pub swap-some : swap q i j ≡ some (swapped q i j)
  unfolding swap
  swap-some = simp (load-at q i hi, load-at q j hj)

  pub length-swapped : length (swapped q i j) ≡ length q
  length-swapped = simp length-set

  pub at-swapped :
      (c : ℕ)
      → at (swapped q i j) c ≡ (if j == c then at q i else if i == c then at q j else at q c)
  at-swapped c = rw (
    get_or-set no_event (set q i (at q j)) j c (at q i) (rw length-set hj),
    get_or-set no_event q i c (at q j) hi,
  )

  pub swapped-perm : Perm (swapped q i j) q
  swapped-perm =
      let b = set q i (at q j) in
      let kept : at b j ≡ at q j = ground (arith, get_or-set no_event q i j (at q j) hi) in
      let second = rw kept at (set-perm no_event b j (at q i) (rw length-set hj)) in
      Perm.cons_inv (Perm.trans second (set-perm no_event q i (at q j) hi))

pub Sifts-swap :
    {lo : ℕ} (q : EventQ) (i j : ℕ) {r : Option EventQ}
    → i < length q
    → j < length q
    → Sifts lo (swapped q i j) r
    → Sifts lo q r
Sifts-swap q i j hi hj (b, e, h, p) = (b, e, h, Perm.trans p (swapped-perm q i j hi hj))

least_below :
    (k : ℕ) (q : EventQ) (i : ℕ) → IsHeap q → i < k → i < length q → NotAfter (at q 0) (at q i)
least_below zero q i h f p = absurd (omega arith)
least_below (suc k) q zero h f p = omega arith
least_below (suc k) q (suc i) h f p = omega (
  arith,
  h (suc i) (omega arith) p (omega arith),
  least_below k q (parent (suc i)) h (omega arith) (omega arith),
)

-- The root of a heap is not later than any other event.
pub root_least : (q : EventQ) (i : ℕ) → IsHeap q → i < length q → NotAfter (at q 0) (at q i)
root_least q i h p = least_below (suc i) q i h (omega arith) p
