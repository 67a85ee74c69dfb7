-- ===== src/Treesum/Steps.antt =====
-- A7/computesum.c: each step of a thread keeps the counts of the barriers.
use os_lab_sp.Prelude.{ℕ, ◌<◌, ◌≡◌, refl, some, ◌==◌, arith, ap, Bool-cases, Option-cases, inl, inr}
use os_lab_sp.Prelude.Family.{update}
use os_lab_sp.Threads.{barrier_step, arrive_at, pass}
use os_lab_sp.Treesum.{
  NodeTree, Stage, first_call, first_wait, working, second_call, second_wait, exiting, Nodes,
  call_barrier, pass_barrier, node_work, step_at,
}
use os_lab_sp.Treesum.Counting.{After}
use os_lab_sp.Treesum.Barriers.{arrived_up, waits_up, entered, waits, released, tally_own}
use os_lab_sp.Treesum.Waiting.{AtBarriers, released_same}
use os_lab_sp.Treesum.Moves.{own_call, own_pass, up_call, up_pass}

-- A call of foothread_barrier_wait for the thread's own barrier, and for that of the parent.
call_barrier-own :
    (t : NodeTree) (s : Nodes) (i : ℕ)
    → i < t.n
    → s.stage i ≡ first_call
    → AtBarriers t s
    → After (AtBarriers t) (call_barrier i i first_wait working s)
unfolding call_barrier
call_barrier-own t s i hi here v = elim (Option-cases (barrier_step arrive_at (s.barrier i))) [
  | inl e ↦ rw e tt
  | inr (x, e) ↦ rw e (elim (Bool-cases (x.count == 0)) [
    | inl last ↦
        rw last (own_call t s i x working hi here v e refl refl refl (rw last refl) (λ h. last))
    | inr other ↦
        rw other (own_call t s i x first_wait hi here v e refl refl refl (rw other refl) (λ h. cc))
  ])
]

call_barrier-up :
    (t : NodeTree) (s : Nodes) (i p : ℕ)
    → i < t.n
    → s.stage i ≡ second_call
    → t.parent i ≡ some p
    → AtBarriers t s
    → After (AtBarriers t) (call_barrier p i second_wait exiting s)
unfolding call_barrier
call_barrier-up t s i p hi here parent v =
    elim (Option-cases (barrier_step arrive_at (s.barrier p))) [
      | inl e ↦ rw e tt
      | inr (x, e) ↦ rw e (elim (Bool-cases (x.count == 0)) [
        | inl last ↦
            rw last (up_call t s i p x exiting hi here parent v e refl (rw last refl) refl refl)
        | inr other ↦
            rw other
              (up_call t s i p x second_wait hi here parent v e refl (rw other refl) refl refl)
      ])
    ]

-- The work between the barriers.
node_work-AtBarriers :
    (t : NodeTree) (input : ℕ → ℕ) (s : Nodes) (i : ℕ)
    → i < t.n
    → s.stage i ≡ working
    → AtBarriers t s
    → AtBarriers t (node_work t input i s)
unfolding node_work
node_work-AtBarriers t input s i hi here v =
    let arrivals = tally_own arrived_up entered t s.stage i second_call hi (ap arrived_up here) in
    let waiters = tally_own waits_up waits t s.stage i second_call hi (ap waits_up here) in
    let was_in = ap entered here in
    let was_not = ap waits here in
    let moved = record s { stage = update s.stage i second_call } in
    let kept : AtBarriers t moved = record {
      visited = v.visited;
      arrived = λ b. ground (arith, v.arrived b, arrivals b, was_in);
      waiting = λ b. ground (arith, v.waiting b, waiters b, was_not);
      through =
          λ b past. v.through b (released_same s.stage i b second_call (ap released here) past);
    } in
    elim (Bool-cases (t.num_children i == 0)) [
      | inl leaf ↦ rw leaf record {
        visited = kept.visited;
        arrived = kept.arrived;
        waiting = kept.waiting;
        through = kept.through;
      }
      | inr inner ↦ rw inner record {
        visited = kept.visited;
        arrived = kept.arrived;
        waiting = kept.waiting;
        through = kept.through;
      }
    ]

pub step_at-AtBarriers :
    (p : Stage) (t : NodeTree) (input : ℕ → ℕ) (s : Nodes) (i : ℕ)
    → i < t.n
    → s.stage i ≡ p
    → AtBarriers t s
    → After (AtBarriers t) (step_at p t input i s)
unfolding step_at pass_barrier
step_at-AtBarriers first_call t input s i hi here v = call_barrier-own t s i hi here v
step_at-AtBarriers first_wait t input s i hi here v =
    elim (Option-cases (barrier_step pass (s.barrier i))) [
      | inl e ↦ rw e tt
      | inr (x, e) ↦ rw e (own_pass t s i x hi here v e)
    ]
step_at-AtBarriers working t input s i hi here v = node_work-AtBarriers t input s i hi here v
step_at-AtBarriers second_call t input s i hi here v = elim (Option-cases (t.parent i)) [
  | inl e ↦ rw e tt
  | inr (p, e) ↦ rw e (call_barrier-up t s i p hi here e v)
]
step_at-AtBarriers second_wait t input s i hi here v = elim (Option-cases (t.parent i)) [
  | inl e ↦ rw e tt
  | inr (p, e) ↦ rw e (elim (Option-cases (barrier_step pass (s.barrier p))) [
    | inl f ↦ rw f tt
    | inr (x, f) ↦ rw f (up_pass t s i p x hi here e v f)
  ])
]
step_at-AtBarriers exiting t input s i hi here v = tt
