-- ===== src/Generate/Gentree/Growing.antt =====
-- A7/gentree.c: the loop ends, and each node but the root gets a parent that stands before it in PERM.
use os_lab_sp.Prelude.{
  ℕ, zero, suc, ◌+◌, ◌-◌, ◌<◌, ◌≤◌, ◌≡◌, refl, true, some, ◌==◌, ltb, ◌&&◌, arith, subst,
  ℕ_discrete, Bool-cases, inl, inr,
}
use native.Mathlib.Nat.{mod-lt}
use os_lab_sp.Prelude.Family.{update}
use os_lab_sp.Generate.{shuffled}
use os_lab_sp.Generate.Shuffle.{IsShuffle, shuffled-IsShuffle}
use os_lab_sp.Generate.Gentree.{Growth, children_count, attach, grow_once, grow, gentree}

module _ (n : ℕ) (perm : ℕ → ℕ) where
  -- The nodes up to nextchild in PERM have their parents.
  pub record Placed (parent : ℕ → ℕ) (c : ℕ) : Type 0 where
    pub root : parent (perm 0) ≡ perm 0
    pub before : (i : ℕ) → 0 < i → i ≤ c → (p : ℕ) × (p < i) × (parent (perm i) ≡ perm p)

  -- What the loop keeps.
  pub record IsGrown (s : Growth) : Type 0 where
    pub all : s.nextchild + s.remaining + 1 ≡ n
    pub order : s.nextparent ≤ s.nextchild
    pub placed : Placed s.parent s.nextchild

  -- The state after `t` more children of the same parent.
  record Attached (t : ℕ) (s u : Growth) : Type 0 where
    child : u.nextchild ≡ s.nextchild + t
    same_parent : u.nextparent ≡ s.nextparent
    same_remaining : u.remaining ≡ s.remaining
    placed : Placed u.parent u.nextchild

  module _ (v : IsShuffle n perm) where
    next-Placed :
        (parent : ℕ → ℕ) (c p : ℕ)
        → c + 1 < n
        → p ≤ c
        → Placed parent c
        → Placed (update parent (perm (c + 1)) (perm p)) (c + 1)
    next-Placed parent c p hc hp w = record {
      root = let new = v.once 0 (c + 1) (omega (arith, hc)) hc in ground (arith, w.root, new);
      before = λ i hi top. elim (ℕ_discrete i (c + 1)) [
        | yes e ↦ (p, omega (arith, e, hp), ground (arith, e))
        | no e ↦
            let (q, hq, there) = w.before i hi (omega (arith, e, top)) in
            let new = v.once i (c + 1) (omega (arith, hc, top)) hc in
            (q, hq, ground (arith, there, new, e))
      ];
    }

    attach-Attached :
        (t : ℕ) (s : Growth)
        → s.nextchild + t < n
        → s.nextparent ≤ s.nextchild
        → Placed s.parent s.nextchild
        → (u : Growth) × (attach n perm t s ≡ some u) × Attached t s u
    unfolding attach
    attach-Attached zero s h order w = (
      s,
      refl,
      record { child = omega arith; same_parent = refl; same_remaining = refl; placed = w },
    )
    attach-Attached (suc t) s h order w =
        let c = s.nextchild + 1 in
        let s1 = record s {
          nextchild = c;
          parent = update s.parent (perm c) (perm s.nextparent);
        } in
        let w1 = next-Placed s.parent s.nextchild s.nextparent (omega (arith, h)) order w in
        let (u, e, a) = attach-Attached t s1 (omega (arith, h)) (omega (arith, order)) w1 in
        let inside : (ltb c n && ltb s.nextparent n) ≡ true = ground (arith, h, order) in
        (
          u,
          rw inside e,
          record {
            child = omega (arith, a.child);
            same_parent = a.same_parent;
            same_remaining = a.same_remaining;
            placed = a.placed;
          },
        )

    -- The number of children fits, and is not 0 when no other parent is left.
    children_count-le : (r : ℕ) (s : Growth) → 0 < s.remaining → children_count r s ≤ s.remaining
    unfolding children_count
    children_count-le r s h =
        let small = mod-lt r {m = 5} (omega arith) in
        let few = mod-lt r h in ground (arith, small, few)

    children_count-pos : (r : ℕ) (s : Growth) → s.nextchild ≡ s.nextparent → 0 < children_count r s
    unfolding children_count
    children_count-pos r s e = ground (arith, e)

    grow_once-IsGrown :
        (rand : ℕ → ℕ) (s : Growth)
        → 0 < s.remaining
        → IsGrown s
        → (u : Growth) × (grow_once n perm rand s ≡ some u)
          × IsGrown u
          × (u.nextparent ≡ s.nextparent + 1)
    unfolding grow_once
    grow_once-IsGrown rand s h g =
        let t = children_count (rand (n + s.nextparent)) s in
        let fits = children_count-le (rand (n + s.nextparent)) s h in
        let some_child = children_count-pos (rand (n + s.nextparent)) s in
        let s1 = record s { remaining = s.remaining - t } in
        let (u, e, a) = attach-Attached t s1 (omega (arith, fits, g.all)) g.order g.placed in
        (
          record u { nextparent = u.nextparent + 1 },
          rw e refl,
          record {
            all = omega (arith, g.all, fits, a.child, a.same_remaining);
            order = ground (arith, g.order, a.child, a.same_parent, some_child);
            placed = a.placed;
          },
          omega (arith, a.same_parent),
        )

    grow-Placed :
        (k : ℕ) (rand : ℕ → ℕ) (s : Growth)
        → n ≤ k + s.nextparent
        → IsGrown s
        → (u : Growth) × (grow n perm k rand s ≡ some u) × Placed u.parent (n - 1)
    unfolding grow
    grow-Placed zero rand s enough g = absurd (omega (arith, enough, g.all, g.order))
    grow-Placed (suc k) rand s enough g = elim (Bool-cases (s.remaining == 0)) [
      | inl done ↦
          let last : s.nextchild ≡ n - 1 = ground (arith, done, g.all) in
          (s, rw done refl, subst (Placed s.parent) last g.placed)
      | inr more ↦
          let (u, e, g1, next) = grow_once-IsGrown rand s (ground (arith, more)) g in
          let (w, f, p) = grow-Placed k rand u (omega (arith, enough, next)) g1 in
          (w, rw (more, e) f, p)
    ]

-- For at least one node and all values of rand(), the loop ends, and in P the first node of PERM is its own
-- parent, and the parent of every other node stands before it in PERM.
pub gentree-Placed :
    (rand garbage : ℕ → ℕ) (n : ℕ)
    → 0 < n
    → (parent : ℕ → ℕ) × (gentree rand garbage n ≡ some parent)
      × Placed n (shuffled rand n n) parent (n - 1)
unfolding gentree
gentree-Placed rand garbage n h =
    let perm = shuffled rand n n in
    let s : Growth = record {
      parent = update garbage (perm 0) (perm 0);
      nextchild = 0;
      nextparent = 0;
      remaining = n - 1;
    } in
    let g : IsGrown n perm s = record {
      all = omega (arith, h);
      order = omega arith;
      placed = record { root = ground arith; before = λ i hi top. absurd (omega (arith, hi, top)) };
    } in
    let (u, e, p) =
      grow-Placed n perm (shuffled-IsShuffle rand n n (omega arith)) n rand s (omega arith) g in
    (u.parent, rw e refl, p)
