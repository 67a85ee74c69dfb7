-- ===== src/Treesum/Moves.antt =====
-- A7/computesum.c: a step on a barrier keeps the counts of all barriers.
use os_lab_sp.Prelude.{ℕ, ◌+◌, ◌<◌, ◌≡◌, true, false, some, ◌==◌, not, arith, ap, sym, ◌∙◌}
use os_lab_sp.Threads.{BarrierState, barrier_step, arrive_at, pass}
use os_lab_sp.Threads.Barrier.{then_step}
use os_lab_sp.Treesum.{
  NodeTree, Stage, first_call, first_wait, working, second_call, second_wait, exiting, Nodes, go,
}
use os_lab_sp.Treesum.Barriers.{
  call-counts, pass-counts, round_full, round_ends, arrived_up, waits_up, entered, waits, released,
  tally_own, tally_up,
}
use os_lab_sp.Treesum.Waiting.{AtBarriers, go-AtBarriers, released_there, released_same}

equal_self : (i : ℕ) → (i == i) ≡ true
equal_self i = ground arith

-- The first call, which leads to `after`.
pub own_call :
    (t : NodeTree) (s : Nodes) (i : ℕ) (x : BarrierState) (after : Stage)
    → i < t.n
    → s.stage i ≡ first_call
    → AtBarriers t s
    → barrier_step arrive_at (s.barrier i) ≡ some x
    → arrived_up after ≡ false
    → waits_up after ≡ false
    → entered after ≡ true
    → waits after ≡ not (x.count == 0)
    → (released after ≡ true → (x.count == 0) ≡ true)
    → AtBarriers t (go i after i x s)
own_call t s i x after hi here v e not_up not_waits in_it waits_if free =
    let counts = call-counts (s.barrier i) x e in
    let arrivals =
      tally_own arrived_up entered t s.stage i after hi (ap arrived_up here ∙ sym not_up) in
    let waiters =
      tally_own waits_up waits t s.stage i after hi (ap waits_up here ∙ sym not_waits) in
    let visit = then_step arrive_at (v.visited i) e in
    let was_out = ap entered here in
    let was_not = ap waits here in
    let self = equal_self i in
    go-AtBarriers t s i i after x v visit
      (ground (arith, counts.0, v.arrived i, arrivals i, was_out, in_it, self))
      (ground (arith, counts.1, v.waiting i, waiters i, was_not, waits_if, self))
      (λ past.
        round_ends (t.num_children i + 1) x (omega arith) visit (free (ground (arith, past, self)))
          (omega (arith, counts.0)))
      (λ b h. ground (arith, arrivals b, h)) (λ b h. ground (arith, waiters b, h))
      (λ b h past. released_there s.stage i b after h past)

pub own_pass :
    (t : NodeTree) (s : Nodes) (i : ℕ) (x : BarrierState)
    → i < t.n
    → s.stage i ≡ first_wait
    → AtBarriers t s
    → barrier_step pass (s.barrier i) ≡ some x
    → AtBarriers t (go i working i x s)
own_pass t s i x hi here v e =
    let counts = pass-counts (s.barrier i) x e in
    let arrivals = tally_own arrived_up entered t s.stage i working hi (ap arrived_up here) in
    let waiters = tally_own waits_up waits t s.stage i working hi (ap waits_up here) in
    let was_in = ap entered here in
    let did_wait = ap waits here in
    let self = equal_self i in
    let full =
      round_full (t.num_children i + 1) (s.barrier i) (omega arith) (v.visited i) counts.2 in
    go-AtBarriers t s i i working x v (then_step pass (v.visited i) e)
      (ground (arith, counts.0, v.arrived i, arrivals i, was_in, self))
      (ground (arith, counts.1, v.waiting i, waiters i, did_wait, self))
      (λ past. omega (arith, full, counts.0)) (λ b h. ground (arith, arrivals b, h))
      (λ b h. ground (arith, waiters b, h)) (λ b h past. released_there s.stage i b working h past)

-- The second call.
pub up_call :
    (t : NodeTree) (s : Nodes) (i p : ℕ) (x : BarrierState) (after : Stage)
    → i < t.n
    → s.stage i ≡ second_call
    → t.parent i ≡ some p
    → AtBarriers t s
    → barrier_step arrive_at (s.barrier p) ≡ some x
    → arrived_up after ≡ true
    → waits_up after ≡ not (x.count == 0)
    → entered after ≡ true
    → waits after ≡ false
    → AtBarriers t (go i after p x s)
up_call t s i p x after hi here parent v e up waits_if in_it not_own =
    let counts = call-counts (s.barrier p) x e in
    let arrivals =
      tally_up arrived_up entered t s.stage i after hi p parent (ap entered here ∙ sym in_it) in
    let waiters =
      tally_up waits_up waits t s.stage i after hi p parent (ap waits here ∙ sym not_own) in
    let was_down = ap arrived_up here in
    let was_not = ap waits_up here in
    let self = equal_self p in
    go-AtBarriers t s i p after x v (then_step arrive_at (v.visited p) e)
      (ground (arith, counts.0, v.arrived p, arrivals p, was_down, up, self))
      (ground (arith, counts.1, v.waiting p, waiters p, was_not, waits_if, self))
      (λ past.
        let before = v.through p (released_same s.stage i p after (ap released here) past) in
        omega (arith, before, counts.0))
      (λ b h. ground (arith, arrivals b, h)) (λ b h. ground (arith, waiters b, h))
      (λ b h past. released_same s.stage i b after (ap released here) past)

pub up_pass :
    (t : NodeTree) (s : Nodes) (i p : ℕ) (x : BarrierState)
    → i < t.n
    → s.stage i ≡ second_wait
    → t.parent i ≡ some p
    → AtBarriers t s
    → barrier_step pass (s.barrier p) ≡ some x
    → AtBarriers t (go i exiting p x s)
up_pass t s i p x hi here parent v e =
    let counts = pass-counts (s.barrier p) x e in
    let arrivals = tally_up arrived_up entered t s.stage i exiting hi p parent (ap entered here) in
    let waiters = tally_up waits_up waits t s.stage i exiting hi p parent (ap waits here) in
    let was_up = ap arrived_up here in
    let did_wait = ap waits_up here in
    let self = equal_self p in
    go-AtBarriers t s i p exiting x v (then_step pass (v.visited p) e)
      (ground (arith, counts.0, v.arrived p, arrivals p, was_up, self))
      (ground (arith, counts.1, v.waiting p, waiters p, did_wait, self))
      (λ past.
        let before = v.through p (released_same s.stage i p exiting (ap released here) past) in
        omega (arith, before, counts.0))
      (λ b h. ground (arith, arrivals b, h)) (λ b h. ground (arith, waiters b, h))
      (λ b h past. released_same s.stage i b exiting (ap released here) past)
