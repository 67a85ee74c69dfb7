-- ===== src/Rsync/Settled.antt =====
-- A9/rsync.c: a run on a destination that mirrors the source changes nothing.
use Prim.Native.String.{String}
use os_lab_sp.Prelude.Text.{same_name_iff}
use os_lab_sp.Prelude.{
  ℕ, ◌≡◌, refl, List, Option, none, some, arith, length, inl, inr, Option-cases, ap, ◌∙◌,
}
use os_lab_sp.Rsync.{
  Node, file, dir, special, Items, end, entry, find, without, replace, assign, purge, sweep,
  sync_file, sync_item, sync_items, sync_directories, change_item, change_items, done, main,
}
use os_lab_sp.Rsync.Mirror.{HasOnly, Alike, AlikeItems, SameFile, Fits, main-mirrors}

without-absent : (k : String) (ds : Items) → find k ds ≡ none → without k ds ≡ ds
unfolding find without
without-absent k end h = refl
without-absent k (entry j d ds) h = ground (arith, without-absent k ds)

replace-present : (k : String) (d : Node) (ds : Items) → find k ds ≡ some d → replace k d ds ≡ ds
unfolding find replace
replace-present k d end h = cc
replace-present k d (entry j e ds) h = ground (arith, replace-present k d ds)

-- A name that gets what it has.
assign-find : (k : String) (ds : Items) → assign k (find k ds) ds ≡ ds
unfolding assign
assign-find k ds = elim (Option-cases (find k ds)) [
  | inl e ↦ ap (λ o. assign k o ds) e ∙ without-absent k ds e
  | inr (d, e) ↦ ap (λ o. assign k o ds) e ∙ replace-present k d ds e
]

purge-HasOnly : (ss ds : Items) → HasOnly ss ds → purge ss ds ≡ ds
unfolding purge sweep find
purge-HasOnly ss end h = refl
purge-HasOnly ss (entry k d ds) h =
    let tail : HasOnly ss ds = λ j e. ground (arith, h j e) in
    elim (Option-cases (find k ss)) [
      | inl e ↦ absurd (ground (arith, h k e, same_name_iff k k))
      | inr (s, e) ↦
          ap (λ o. sweep o k d (purge ss ds)) e ∙ ap (entry k d) (purge-HasOnly ss ds tail)
    ]

sync_file-settled :
    (now : ℕ) (masked : ℕ → ℕ) (c : List ℕ) (t m : ℕ) (o : Option Node)
    → Alike SameFile (file c t m) o
    → sync_file now masked c t m o ≡ o
unfolding sync_file Alike
sync_file-settled now masked c t m none h = absurd h
sync_file-settled now masked c t m (some (file d u p)) h =
    let size = ap length h.0 in ground (arith, size, h.1)
sync_file-settled now masked c t m (some (dir p ds)) h = absurd h
sync_file-settled now masked c t m (some special) h = absurd h

module _ (now : ℕ) (masked : ℕ → ℕ) where
  mutual
    unfolding sync_item Alike

    sync_item-settled :
        (s : Node) (o : Option Node) → Alike SameFile s o → sync_item now masked s o ≡ o
    sync_item-settled (file c t m) o h = sync_file-settled now masked c t m o h
    sync_item-settled (dir m ss) none h = absurd h
    sync_item-settled (dir m ss) (some (file d u p)) h = absurd h
    sync_item-settled (dir m ss) (some (dir p ds)) h =
        ap (λ es. some (dir p es))
          (ap (purge ss) (sync_items-settled ss ds h.2) ∙ purge-HasOnly ss ds h.1)
    sync_item-settled (dir m ss) (some special) h = absurd h
    sync_item-settled special o h = refl

    sync_items-settled :
        (ss ds : Items) → AlikeItems SameFile ss ds → sync_items now masked ss ds ≡ ds
    sync_items-settled end ds h = refl
    sync_items-settled (entry k s ss) ds h =
        ap (λ o. sync_items now masked ss (assign k o ds)) (sync_item-settled s (find k ds) h.0)
        ∙ ap (sync_items now masked ss) (assign-find k ds)
        ∙ sync_items-settled ss ds h.1

change_file-settled :
    (c : List ℕ) (t m : ℕ) (d : List ℕ) (u p : ℕ)
    → SameFile c t m d u p
    → change_item (file c t m) (some (file d u p)) ≡ some (file d u p)
unfolding change_item
change_file-settled c t m d u p h = ground (arith, h.1, h.2)

mutual
  unfolding change_item Alike

  change_item-settled : (s : Node) (o : Option Node) → Alike SameFile s o → change_item s o ≡ o
  change_item-settled (file c t m) none h = absurd h
  change_item-settled (file c t m) (some (file d u p)) h = change_file-settled c t m d u p h
  change_item-settled (file c t m) (some (dir p ds)) h = absurd h
  change_item-settled (file c t m) (some special) h = absurd h
  change_item-settled (dir m ss) none h = absurd h
  change_item-settled (dir m ss) (some (file d u p)) h = absurd h
  change_item-settled (dir m ss) (some (dir p ds)) h =
      ap (λ es. some (dir p es)) (change_items-settled ss ds h.2)
  change_item-settled (dir m ss) (some special) h = absurd h
  change_item-settled special o h = refl

  change_items-settled : (ss ds : Items) → AlikeItems SameFile ss ds → change_items ss ds ≡ ds
  change_items-settled end ds h = refl
  change_items-settled (entry k s ss) ds h =
      ap (λ o. change_items ss (assign k o ds)) (change_item-settled s (find k ds) h.0)
      ∙ ap (change_items ss) (assign-find k ds)
      ∙ change_items-settled ss ds h.1

-- A run on a destination that mirrors the source.
main-settled :
    (now : ℕ) (masked : ℕ → ℕ) (m p : ℕ) (ss ds : Items)
    → Alike SameFile (dir m ss) (some (dir p ds))
    → main now masked 3 (some (dir m ss)) (some (dir p ds)) ≡ done ds
unfolding main sync_directories Alike
main-settled now masked m p ss ds h =
    ap (λ es. done (change_items ss (purge ss es))) (sync_items-settled now masked ss ds h.2)
    ∙ ap (λ es. done (change_items ss es)) (purge-HasOnly ss ds h.1)
    ∙ ap done (change_items-settled ss ds h.2)

-- If the source has distinct names, files of the same size and time have the same content, and no
-- directory with items is in the way of a file: a second run, at any time, changes nothing.
pub main_twice :
    (now later : ℕ) (masked : ℕ → ℕ) (m p : ℕ) (ss ds : Items)
    → Fits (dir m ss) (some (dir p ds))
    → (es : Items) × (main now masked 3 (some (dir m ss)) (some (dir p ds)) ≡ done es)
      × (main later masked 3 (some (dir m ss)) (some (dir p es)) ≡ done es)
main_twice now later masked m p ss ds h =
    let (es, e, alike) = main-mirrors now masked m p ss ds h in
    (es, e, main-settled later masked m p ss es alike)
