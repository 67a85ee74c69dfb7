-- ===== src/Rsync/Loops.antt =====
-- A9/rsync.c: the loops over the items of the source.
use Prim.Native.String.{String}
use os_lab_sp.Prelude.Text.{same_name, same_name_iff}
use os_lab_sp.Prelude.{◌≡◌, refl, Option, none, some, inl, inr, Bool-cases, ap, subst, ◌∙◌}
use os_lab_sp.Rsync.{Node, Items, end, entry, find, assign}
use os_lab_sp.Rsync.Names.{find-assign}

-- No name stands twice in a directory.
abbrev pub IsUnique : Items → Type 0
IsUnique end = Unit
IsUnique (entry k s ss) = (find k ss ≡ none) × IsUnique ss

-- The two loops over the source do something for each of its items.
module _ (f : Node → Option Node → Option Node) where
  abbrev pub each : Items → Items → Items
  each end ds = ds
  each (entry k s ss) ds = each ss (assign k (f s (find k ds)) ds)

  abbrev pub merged : Option Node → Option Node → Option Node
  merged none o = o
  merged (some s) o = f s o

  pub find-each :
      (k : String) (ss ds : Items)
      → IsUnique ss
      → find k (each ss ds) ≡ merged (find k ss) (find k ds)
  unfolding find
  find-each k end ds u = refl
  find-each k (entry j s ss) ds (fresh, u) =
      let rest = find-each k ss (assign j (f s (find j ds)) ds) u in
      let now = find-assign k j (f s (find j ds)) ds in
      elim (Bool-cases (same_name j k)) [
        | inr other ↦ rw other (rest ∙ ap (merged (find k ss)) (now ∙ rw other refl))
        | inl same ↦
            let e = (same_name_iff j k).0 same in
            let absent : find k ss ≡ none = subst (λ x. find x ss ≡ none) e fresh in
            let here : merged (find k ss) (find k (assign j (f s (find j ds)) ds))
                ≡ f s (find j ds) =
              ap (λ o. merged o (find k (assign j (f s (find j ds)) ds))) absent
              ∙ now
              ∙ rw same refl in
            rw same (rest ∙ here ∙ ap (λ x. f s (find x ds)) e)
      ]

  -- The items of a suffix `ts` of the source, in a destination that has what the loop made of them.
  abbrev pub IsMade : Items → Items → Items → Type 0
  IsMade ts ds target =
      (k : String) (s : Node) → find k ts ≡ some s → find k target ≡ f s (find k ds)

  pub IsMade-head :
      (k : String) (s : Node) (ts ds target : Items)
      → IsMade (entry k s ts) ds target
      → find k target ≡ f s (find k ds)
  unfolding find
  IsMade-head k s ts ds target h = h k s (rw ((same_name_iff k k).1 refl) refl)

  pub IsMade-tail :
      (k : String) (s : Node) (ts ds target : Items)
      → find k ts ≡ none
      → IsMade (entry k s ts) ds target
      → IsMade ts ds target
  unfolding find
  IsMade-tail k s ts ds target fresh h j t e = elim (Bool-cases (same_name k j)) [
    | inl same ↦
        let absent : find j ts ≡ none =
          subst (λ x. find x ts ≡ none) ((same_name_iff k j).0 same) fresh in
        cc
    | inr other ↦ h j t (rw other e)
  ]
