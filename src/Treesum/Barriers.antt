-- ===== src/Treesum/Barriers.antt =====
-- A7/computesum.c: who is at a barrier.
use os_lab_sp.Prelude.{
  ℕ, zero, suc, ◌+◌, ◌*◌, ◌<◌, ◌≤◌, ◌≡◌, Bool, true, false, some, ◌==◌, ◌&&◌, not, arith, ap,
  Bool-cases, inl, inr,
}
use os_lab_sp.Prelude.Family.{update}
use os_lab_sp.Threads.{BarrierState, barrier_step, arrive_at, pass}
use os_lab_sp.Threads.Barrier.{Visited, Visited-InRounds, next_multiple}
use os_lab_sp.Treesum.{NodeTree, is_parent, Stage, first_call, first_wait, second_wait, exiting}
use os_lab_sp.Treesum.Counting.{bit, count, count-update}

-- What a call of foothread_barrier_wait changes.
pub call-counts :
    (x y : BarrierState)
    → barrier_step arrive_at x ≡ some y
    → (y.arrived ≡ x.arrived + 1) × (y.waiting ≡ x.waiting + bit (not (y.count == 0)))
unfolding barrier_step
call-counts x y h = elim (Bool-cases (x.count + 1 == x.trip_count)) [
  | inl last ↦ ground (arith, h, last)
  | inr other ↦ ground (arith, h, other)
]

pub pass-counts :
    (x y : BarrierState)
    → barrier_step pass x ≡ some y
    → (y.arrived ≡ x.arrived) × (y.waiting + 1 ≡ x.waiting) × (0 < x.tokens)
unfolding barrier_step
pass-counts x y h = elim (Bool-cases (x.tokens == 0)) [
  | inl shut ↦ ground (arith, h, shut)
  | inr token ↦ elim (Bool-cases (x.waiting == 0)) [
    | inl nobody ↦ ground (arith, h, token, nobody)
    | inr somebody ↦ ground (arith, h, token, somebody)
  ]
]

multiple_le : (n r : ℕ) → 0 < n * r → n ≤ n * r
multiple_le n zero h = absurd (omega arith)
multiple_le n (suc r) h = omega (arith, next_multiple n r)

-- A round was full.
pub round_full : (n : ℕ) (x : BarrierState) → 0 < n → Visited n x → 0 < x.tokens → n ≤ x.arrived
round_full n x pos r token =
    let v = Visited-InRounds n x pos r in
    let most = multiple_le n v.rounds (omega (arith, v.through, token)) in
    omega (arith, most, v.calls)

pub round_ends :
    (n : ℕ) (x : BarrierState)
    → 0 < n
    → Visited n x
    → (x.count == 0) ≡ true
    → 0 < x.arrived
    → n ≤ x.arrived
round_ends n x pos r empty called =
    let v = Visited-InRounds n x pos r in
    let most = multiple_le n v.rounds (ground (arith, v.calls, called, empty)) in
    omega (arith, most, v.calls)

-- The threads that have arrived at a barrier, and those that wait in it: the children by their second
-- call, and the node itself by its first call.
abbrev pub arrived_up : Stage → Bool
arrived_up second_wait = true
arrived_up exiting = true
arrived_up _ = false

abbrev pub waits_up : Stage → Bool
waits_up second_wait = true
waits_up _ = false

abbrev pub entered : Stage → Bool
entered first_call = false
entered _ = true

abbrev pub waits : Stage → Bool
waits first_wait = true
waits _ = false

abbrev pub released : Stage → Bool
released first_call = false
released first_wait = false
released _ = true

abbrev pub tally : (Stage → Bool) → (Stage → Bool) → NodeTree → ℕ → (ℕ → Stage) → ℕ
tally up own t b stage =
    count (λ j. is_parent (t.parent j) b && up (stage j)) t.n + bit (own (stage b))

module _ (up own : Stage → Bool) (t : NodeTree) (stage : ℕ → Stage) (i : ℕ) (after : Stage)
    (hi : i < t.n) where
  -- A step by which thread `i` changes for its own barrier only.
  pub tally_own :
      up (stage i) ≡ up after
      → (b : ℕ)
      → tally up own t b (update stage i after) + bit ((b == i) && own (stage i))
        ≡ tally up own t b stage + bit ((b == i) && own after)
  tally_own same b =
      let change = count-update (λ j p. is_parent (t.parent j) b && up p) stage i after t.n hi in
      let equal : bit (is_parent (t.parent i) b && up (stage i))
          ≡ bit (is_parent (t.parent i) b && up after) =
        ap (λ u. bit (is_parent (t.parent i) b && u)) same in
      elim (Bool-cases (b == i)) [
        | inl here ↦ ground (arith, change, equal, here)
        | inr there ↦ ground (arith, change, equal, there)
      ]

  -- A step by which it changes for the barrier of its parent only.
  pub tally_up :
      (p : ℕ)
      → t.parent i ≡ some p
      → own (stage i) ≡ own after
      → (b : ℕ)
      → tally up own t b (update stage i after) + bit ((b == p) && up (stage i))
        ≡ tally up own t b stage + bit ((b == p) && up after)
  tally_up p parent same b =
      let change = count-update (λ j q. is_parent (t.parent j) b && up q) stage i after t.n hi in
      let old : bit (is_parent (t.parent i) b && up (stage i)) ≡ bit ((p == b) && up (stage i)) =
        ap (λ q. bit (is_parent q b && up (stage i))) parent in
      let new : bit (is_parent (t.parent i) b && up after) ≡ bit ((p == b) && up after) =
        ap (λ q. bit (is_parent q b && up after)) parent in
      elim (Bool-cases (b == i)) [
        | inl here ↦ ground (arith, change, old, new, same, here)
        | inr there ↦ ground (arith, change, old, new, same, there)
      ]
