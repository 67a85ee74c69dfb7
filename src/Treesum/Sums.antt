-- ===== src/Treesum/Sums.antt =====
-- A7/computesum.c: the sum that is printed.
use os_lab_sp.Prelude.{
  ℕ, zero, suc, ◌+◌, ◌%◌, ◌<◌, ◌≡◌, ◌≢◌, refl, Bool, true, false, Option, some, ◌==◌, ◌&&◌,
  if◌then◌else◌, arith, ap, sym, subst, ◌∙◌, Bool-cases, inl, inr, ℕ_discrete,
}
use native.Mathlib.Nat.{mod-add-mod, add_comm}
use os_lab_sp.Prelude.Family.{update}
use os_lab_sp.Threads.{BarrierState}
use os_lab_sp.Treesum.{
  NodeTree, is_parent, is_child, Stage, first_call, first_wait, working, second_call, second_wait,
  exiting, Nodes, go, node_work, add_children, int_range,
}
use os_lab_sp.Treesum.Counting.{bit, count_whole}
use os_lab_sp.Treesum.Reading.{IsCounted}
use os_lab_sp.Treesum.Barriers.{arrived_up, entered, released}
use os_lab_sp.Treesum.Waiting.{AtBarriers}

-- The sum of the numbers at the leaves below a node, and of those below its children among the first `k`.
mutual
  pub data Total (t : NodeTree) (input : ℕ → ℕ) : ℕ → ℕ → Type 0 where
    leaf : {i : ℕ} → t.num_children i ≡ 0 → Total t input i (input i)
    inner : {i v : ℕ} → t.num_children i ≢ 0 → Added t input i t.n v → Total t input i v

  pub data Added (t : NodeTree) (input : ℕ → ℕ) : ℕ → ℕ → ℕ → Type 0 where
    nothing : {i : ℕ} → Added t input i 0 0
    child :
        {i k v w : ℕ}
        → is_child t i k ≡ true
        → Total t input k w
        → Added t input i k v
        → Added t input i (suc k) (v + w)
    other : {i k v : ℕ} → is_child t i k ≡ false → Added t input i k v → Added t input i (suc k) v

abbrev pub IsSum : NodeTree → (ℕ → ℕ) → ℕ → ℕ → Type 0
IsSum t input i x = (v : ℕ) × Total t input i v × (x ≡ v % int_range)

mod-add : (a b : ℕ) → (a % int_range + b % int_range) % int_range ≡ (a + b) % int_range
mod-add a b =
    let r = b % int_range in
    mod-add-mod a int_range r
    ∙ ap (λ c. c % int_range) (add_comm a r)
    ∙ mod-add-mod b int_range a
    ∙ ap (λ c. c % int_range) (add_comm b a)

-- The loop over the children.
add_children-Added :
    (t : NodeTree) (input sum : ℕ → ℕ) (i k : ℕ)
    → sum i ≡ 0
    → ((j : ℕ) → j < k → is_child t i j ≡ true → IsSum t input j (sum j))
    → (v : ℕ) × Added t input i k v × (add_children t i sum k ≡ v % int_range)
unfolding add_children
add_children-Added t input sum i zero blank sums = (0, nothing, blank)
add_children-Added t input sum i (suc k) blank sums =
    let (v, added, equal) =
      add_children-Added t input sum i k blank (λ j hj e. sums j (omega (arith, hj)) e) in
    elim (Bool-cases (is_child t i k)) [
      | inl e ↦
          let (w, total, here) = sums k (omega arith) e in
          (v + w, child e total added, rw (e, equal, here) (mod-add v w))
      | inr e ↦ (v, other e added, rw e equal)
    ]

abbrev pub worked : Stage → Bool
worked first_call = false
worked first_wait = false
worked working = false
worked _ = true

-- What the array of sums and the output hold.
pub record AreSums (t : NodeTree) (input : ℕ → ℕ) (s : Nodes) : Type 0 where
  pub blank : (i : ℕ) → worked (s.stage i) ≡ false → s.sum i ≡ 0
  pub sums : (i : ℕ) → worked (s.stage i) ≡ true → IsSum t input i (s.sum i)
  pub shown : (v : ℕ) → s.printed ≡ some v → IsSum t input t.root_node v

worked_same :
    (stage : ℕ → Stage) (i j : ℕ) (after : Stage)
    → worked (stage i) ≡ worked after
    → worked (update stage i after j) ≡ worked (stage j)
worked_same stage i j after h = elim (ℕ_discrete j i) [
  | yes e ↦
      let at : (j == i) ≡ true = ground (arith, e) in
      rw at (sym h ∙ ap (λ k. worked (stage k)) (sym e))
  | no e ↦ let at : (j == i) ≡ false = ground (arith, e) in rw at refl
]

-- A step at a barrier.
pub go-AreSums :
    (t : NodeTree) (input : ℕ → ℕ) (s : Nodes) (i b : ℕ) (after : Stage) (x : BarrierState)
    → worked (s.stage i) ≡ worked after
    → AreSums t input s
    → AreSums t input (go i after b x s)
go-AreSums t input s i b after x same v = record {
  blank = λ j h. v.blank j (sym (worked_same s.stage i j after same) ∙ h);
  sums = λ j h. v.sums j (sym (worked_same s.stage i j after same) ∙ h);
  shown = v.shown;
}

arrived_worked : (p : Stage) → arrived_up p ≡ true → worked p ≡ true
arrived_worked first_call h = h
arrived_worked first_wait h = h
arrived_worked working h = h
arrived_worked second_call h = refl
arrived_worked second_wait h = h
arrived_worked exiting h = h

-- All children of a node that is past its barrier have done their work.
children_done :
    (t : NodeTree) (s : Nodes) (i j : ℕ)
    → IsCounted t
    → AtBarriers t s
    → s.stage i ≡ working
    → j < t.n
    → is_child t i j ≡ true
    → worked (s.stage j) ≡ true
children_done t s i j counted v here hj e =
    let full = v.through i (ap released here) in
    let in_it : bit (entered (s.stage i)) ≡ 1 = ap (λ p. bit (entered p)) here in
    let whole =
      count_whole (λ k. is_parent (t.parent k) i && arrived_up (s.stage k)) (is_child t i) t.n
        (λ k hk both. elim (ℕ_discrete i k) [
          | yes e ↦
              let down : arrived_up (s.stage k) ≡ false =
                subst (λ d. arrived_up (s.stage d) ≡ false) e (ap arrived_up here) in
              ground (arith, both, down)
          | no e ↦ ground (arith, both, e)
        ])
        (omega (arith, full, v.arrived i, in_it, counted i)) j hj e in
    arrived_worked (s.stage j) (ground (arith, whole))

-- What is printed by a node with the sum `x`.
printed-IsSum :
    (t : NodeTree) (input : ℕ → ℕ) (i x : ℕ) (printed : Option ℕ)
    → IsSum t input i x
    → ((v : ℕ) → printed ≡ some v → IsSum t input t.root_node v)
    → (v : ℕ) → (if i == t.root_node then some x else printed) ≡ some v
    → IsSum t input t.root_node v
printed-IsSum t input i x printed total shown v = elim (ℕ_discrete i t.root_node) [
  | yes e ↦
      let at : (i == t.root_node) ≡ true = ground (arith, e) in
      rw at (λ h.
        let same : x ≡ v = ground (arith, h) in
        subst (λ y. IsSum t input t.root_node y) same (subst (λ k. IsSum t input k x) e total))
  | no e ↦ let at : (i == t.root_node) ≡ false = ground (arith, e) in rw at (shown v)
]

-- The sum of one more node.
module _ (t : NodeTree) (input : ℕ → ℕ) (s : Nodes) (i x : ℕ) (total : IsSum t input i x) where
  one_blank :
      AreSums t input s
      → (j : ℕ) → worked (update s.stage i second_call j) ≡ false
      → update s.sum i x j ≡ 0
  one_blank v j = elim (ℕ_discrete j i) [
    | yes e ↦ let at : (j == i) ≡ true = ground (arith, e) in rw at (λ h. cc)
    | no e ↦ let at : (j == i) ≡ false = ground (arith, e) in rw at (v.blank j)
  ]

  one_sum :
      AreSums t input s
      → (j : ℕ) → worked (update s.stage i second_call j) ≡ true
      → IsSum t input j (update s.sum i x j)
  one_sum v j = elim (ℕ_discrete j i) [
    | yes e ↦
        let at : (j == i) ≡ true = ground (arith, e) in
        rw at (λ h. subst (λ k. IsSum t input k x) (sym e) total)
    | no e ↦ let at : (j == i) ≡ false = ground (arith, e) in rw at (v.sums j)
  ]

-- The work of a thread.
pub node_work-AreSums :
    (t : NodeTree) (input : ℕ → ℕ) (s : Nodes) (i : ℕ)
    → IsCounted t
    → AtBarriers t s
    → s.stage i ≡ working
    → AreSums t input s
    → AreSums t input (node_work t input i s)
unfolding node_work
node_work-AreSums t input s i counted at here v =
    let unworked = ap worked here in
    let (w, added, equal) =
      add_children-Added t input s.sum i t.n (v.blank i unworked)
        (λ j hj e. v.sums j (children_done t s i j counted at here hj e)) in
    elim (Bool-cases (t.num_children i == 0)) [
      | inl leafy ↦
          let total : IsSum t input i (input i % int_range) =
            (input i, leaf (ground (arith, leafy)), refl) in
          rw leafy record {
            blank = one_blank t input s i (input i % int_range) total v;
            sums = one_sum t input s i (input i % int_range) total v;
            shown = v.shown;
          }
      | inr inside ↦
          let x = add_children t i s.sum t.n in
          let total : IsSum t input i x =
            (w, inner (λ none_there. ground (arith, inside, none_there)) added, equal) in
          rw inside record {
            blank = one_blank t input s i x total v;
            sums = one_sum t input s i x total v;
            shown = printed-IsSum t input i x s.printed total v.shown;
          }
    ]
