-- ===== src/Rsync/Names.antt =====
-- A9/rsync.c: what a name stands for after each operation on a directory.
use Prim.Native.String.{String}
use os_lab_sp.Prelude.Text.{same_name, same_name_iff}
use os_lab_sp.Prelude.{
  ◌≡◌, refl, subst, Option, none, some, arith, if◌then◌else◌, inl, inr, Bool-cases, Option-cases,
  ap, sym, ◌∙◌,
}
use os_lab_sp.Rsync.{
  Node, file, dir, special, Items, end, entry, find, without, replace, assign, remove,
  remove_directory, remove_items, sweep, purge,
}

find-without :
    (k j : String) (ds : Items)
    → find k (without j ds) ≡ (if same_name j k then none else find k ds)
unfolding find without
find-without k j end = ground arith
find-without k j (entry i d ds) =
    ground (arith, find-without k j ds, same_name_iff i j, same_name_iff i k, same_name_iff j k)

find-replace :
    (k j : String) (new : Node) (ds : Items)
    → find k (replace j new ds) ≡ (if same_name j k then some new else find k ds)
unfolding find replace
find-replace k j new end = refl
find-replace k j new (entry i d ds) =
    ground (arith, find-replace k j new ds, same_name_iff i j, same_name_iff i k, same_name_iff j k)

pub find-assign :
    (k j : String) (o : Option Node) (ds : Items)
    → find k (assign j o ds) ≡ (if same_name j k then o else find k ds)
unfolding assign
find-assign k j none ds = find-without k j ds
find-assign k j (some d) ds = find-replace k j d ds

-- remove_directory leaves nothing.
mutual
  unfolding remove_directory remove

  removed : (d : Node) → remove_directory d ≡ none
  removed (dir mode ds) = rw (removed_items ds) refl
  removed (file content mtime mode) = refl
  removed special = refl

  removed_items : (ds : Items) → remove_items ds ≡ end
  removed_items end = refl
  removed_items (entry k d ds) = rw (removed d, removed_items ds) refl

pub remove_directory-eq-none : (d : Node) → remove_directory d ≡ none
remove_directory-eq-none d = removed d

-- What is left under a name by purge.
abbrev pub unless_absent : Option Node → Option Node → Option Node
unless_absent none o = none
unless_absent (some s) o = o

unless_absent-none : (o : Option Node) → unless_absent o none ≡ none
unless_absent-none none = refl
unless_absent-none (some s) = refl

sweep-none : (i : String) (d : Node) (rest : Items) → sweep none i d rest ≡ rest
unfolding sweep
sweep-none i d rest = rw (removed d) refl

pub find-purge :
    (k : String) (ss ds : Items) → find k (purge ss ds) ≡ unless_absent (find k ss) (find k ds)
unfolding find purge
find-purge k ss end = sym (unless_absent-none (find k ss))
find-purge k ss (entry i d ds) = elim (Option-cases (find i ss)) [
  | inl gone ↦
      let swept : purge ss (entry i d ds) ≡ purge ss ds =
        ap (λ o. sweep o i d (purge ss ds)) gone ∙ sweep-none i d (purge ss ds) in
      elim (Bool-cases (same_name i k)) [
        | inl same ↦
            let absent : find k ss ≡ none =
              subst (λ x. find x ss ≡ none) ((same_name_iff i k).0 same) gone in
            ap (find k) swept ∙ rw (find-purge k ss ds, absent) refl
        | inr other ↦ ap (find k) swept ∙ rw other (find-purge k ss ds)
      ]
  | inr (s, here) ↦
      let swept : purge ss (entry i d ds) ≡ entry i d (purge ss ds) =
        ap (λ o. sweep o i d (purge ss ds)) here in
      elim (Bool-cases (same_name i k)) [
        | inl same ↦
            let present : find k ss ≡ some s =
              subst (λ x. find x ss ≡ some s) ((same_name_iff i k).0 same) here in
            ap (find k) swept ∙ rw (same, present) refl
        | inr other ↦ ap (find k) swept ∙ rw other (find-purge k ss ds)
      ]
]
