-- ===== src/Generate/Gentree.antt =====
-- A7/gentree.c: a random tree, written as the file that A7/computesum.c reads.
pub mod Growing
pub mod Reading
pub mod Summed
mod Tests
use os_lab_sp.Prelude.{
  ℕ, zero, suc, ◌+◌, ◌-◌, ◌%◌, List, [], ◌∷◌, Option, none, some, ◌==◌, ltb, ◌&&◌, if◌then◌else◌,
  ◌>>=◌,
}
use os_lab_sp.Prelude.Family.{update}
use os_lab_sp.Generate.{shuffled}

-- The array P, and the counters of the loop.
pub record Growth : Type 0 where
  pub parent : ℕ → ℕ
  pub nextchild : ℕ
  pub nextparent : ℕ
  pub remaining : ℕ

-- t, from the value of rand().
unfoldable pub children_count : ℕ → Growth → ℕ
children_count r s =
    if ltb 5 s.remaining
    then (if s.nextchild == s.nextparent then 1 + r % 5 else r % 5)
    else (if s.nextchild == s.nextparent then 1 + r % s.remaining else r % s.remaining)

module _ (n : ℕ) (perm : ℕ → ℕ) where
  -- for (i=0; i<t; ++i), with `t` rounds left; an index outside of PERM is `none`.
  unfoldable pub attach : ℕ → Growth → Option Growth
  attach zero s = some s
  attach (suc t) s =
      let c = s.nextchild + 1 in
      let next =
        attach t
          (record s { nextchild = c; parent = update s.parent (perm c) (perm s.nextparent) }) in
      if ltb c n && ltb s.nextparent n then next else none

  -- The body of the loop, whose calls of rand() follow the `n` calls of the shuffle.
  unfoldable pub grow_once : (ℕ → ℕ) → Growth → Option Growth
  unfolding attach children_count
  grow_once rand s =
      let t = children_count (rand (n + s.nextparent)) s in
      attach t (record s { remaining = s.remaining - t }) >>= λ u.
      some (record u { nextparent = u.nextparent + 1 })

  -- while (remaining > 0), for a number of rounds as fuel
  unfoldable pub grow : ℕ → (ℕ → ℕ) → Growth → Option Growth
  unfolding grow_once
  grow zero rand s = if s.remaining == 0 then some s else none
  grow (suc k) rand s =
      let more = grow_once rand s >>= grow k rand in if s.remaining == 0 then some s else more

-- The array P at the end, from what it held before.
unfoldable pub gentree : (ℕ → ℕ) → (ℕ → ℕ) → ℕ → Option (ℕ → ℕ)
unfolding grow shuffled
gentree rand garbage n =
    let perm = shuffled rand n n in
    grow n perm n rand (record {
      parent = update garbage (perm 0) (perm 0);
      nextchild = 0;
      nextparent = 0;
      remaining = n - 1;
    })
    >>= λ s. some s.parent

-- The lines of the file from node `i` on, with `k` of them left.
unfoldable pub tree_lines : ℕ → ℕ → (ℕ → ℕ) → List (ℕ × ℕ)
tree_lines zero i parent = []
tree_lines (suc k) i parent = (i, parent i) ∷ tree_lines k (i + 1) parent
