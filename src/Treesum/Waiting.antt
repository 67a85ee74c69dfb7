-- ===== src/Treesum/Waiting.antt =====
-- A7/computesum.c: the barriers count the threads that are at them.
use os_lab_sp.Prelude.{ℕ, ◌+◌, ◌≤◌, ◌≡◌, true, false, ◌==◌, arith, sym, subst, ◌∙◌, ℕ_discrete}
use os_lab_sp.Prelude.Family.{update}
use os_lab_sp.Threads.{BarrierState}
use os_lab_sp.Threads.Barrier.{Visited}
use os_lab_sp.Treesum.{NodeTree, Stage, Nodes, go}
use os_lab_sp.Treesum.Barriers.{arrived_up, waits_up, entered, waits, released, tally}

-- The counters of every barrier, and the barrier of a thread that is past it.
pub record AtBarriers (t : NodeTree) (s : Nodes) : Type 0 where
  pub visited : (b : ℕ) → Visited (t.num_children b + 1) (s.barrier b)
  pub arrived : (b : ℕ) → (s.barrier b).arrived ≡ tally arrived_up entered t b s.stage
  pub waiting : (b : ℕ) → (s.barrier b).waiting ≡ tally waits_up waits t b s.stage
  pub through : (b : ℕ) → released (s.stage b) ≡ true → t.num_children b + 1 ≤ (s.barrier b).arrived

update_each :
    (P : ℕ → BarrierState → Type 0) (f : ℕ → BarrierState) (c : ℕ) (x : BarrierState)
    → P c x
    → ((b : ℕ) → (b == c) ≡ false → P b (f b))
    → (b : ℕ) → P b (update f c x b)
update_each P f c x here there b = elim (ℕ_discrete b c) [
  | yes h ↦ let at : (b == c) ≡ true = ground (arith, h) in rw at (subst (λ d. P d x) (sym h) here)
  | no h ↦ let at : (b == c) ≡ false = ground (arith, h) in rw at (there b at)
]

-- A step on the barrier of `c`.
module _ (t : NodeTree) (s : Nodes) (i c : ℕ) (after : Stage) (x : BarrierState) where
  abbrev arrivals_at : ℕ → (ℕ → Stage) → ℕ
  arrivals_at b stage = tally arrived_up entered t b stage

  abbrev waiters_at : ℕ → (ℕ → Stage) → ℕ
  waiters_at b stage = tally waits_up waits t b stage

  pub go-AtBarriers :
      AtBarriers t s
      → Visited (t.num_children c + 1) x
      → x.arrived ≡ arrivals_at c (update s.stage i after)
      → x.waiting ≡ waiters_at c (update s.stage i after)
      → (released (update s.stage i after c) ≡ true → t.num_children c + 1 ≤ x.arrived)
      → ((b : ℕ)
          → (b == c) ≡ false
          → arrivals_at b (update s.stage i after) ≡ arrivals_at b s.stage)
      → ((b : ℕ) → (b == c) ≡ false → waiters_at b (update s.stage i after) ≡ waiters_at b s.stage)
      → ((b : ℕ)
          → (b == c) ≡ false
          → released (update s.stage i after b) ≡ true
          → released (s.stage b) ≡ true)
      → AtBarriers t (go i after c x s)
  go-AtBarriers v visit arrived waiting through same_arrivals same_waiters same_released = record {
    visited =
        update_each (λ b y. Visited (t.num_children b + 1) y) s.barrier c x visit
          (λ b h. v.visited b);
    arrived =
        update_each (λ b y. y.arrived ≡ arrivals_at b (update s.stage i after)) s.barrier c x
          arrived (λ b h. v.arrived b ∙ sym (same_arrivals b h));
    waiting =
        update_each (λ b y. y.waiting ≡ waiters_at b (update s.stage i after)) s.barrier c x waiting
          (λ b h. v.waiting b ∙ sym (same_waiters b h));
    through =
        update_each
          (λ b y. released (update s.stage i after b) ≡ true → t.num_children b + 1 ≤ y.arrived)
          s.barrier c x through (λ b h past. v.through b (same_released b h past));
  }

pub released_there :
    (stage : ℕ → Stage) (i b : ℕ) (after : Stage)
    → (b == i) ≡ false
    → released (update stage i after b) ≡ true
    → released (stage b) ≡ true
released_there stage i b after h past = ground (arith, h, past)

pub released_same :
    (stage : ℕ → Stage) (i b : ℕ) (after : Stage)
    → released (stage i) ≡ true
    → released (update stage i after b) ≡ true
    → released (stage b) ≡ true
released_same stage i b after h past = elim (ℕ_discrete b i) [
  | yes e ↦ subst (λ d. released (stage d) ≡ true) (sym e) h
  | no e ↦ ground (arith, e, past)
]
