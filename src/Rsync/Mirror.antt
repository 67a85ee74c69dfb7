-- ===== src/Rsync/Mirror.antt =====
-- A9/rsync.c: after a run the destination mirrors the source.
use Prim.Native.String.{String}
use os_lab_sp.Prelude.{
  ℕ, ◌≡◌, refl, List, Option, none, some, arith, ◌==◌, ◌&&◌, length, inl, inr, Bool-cases, ap, sym,
  subst, ◌∙◌,
}
use os_lab_sp.Rsync.{
  Node, file, dir, special, Items, end, entry, find, assign, remove, create, sync_file, items_of,
  sync_item, sync_items, sync_directories, change_item, change_items, done, main,
}
use os_lab_sp.Rsync.Loops.{IsUnique, each, merged, find-each, IsMade, IsMade-head, IsMade-tail}
use os_lab_sp.Rsync.Names.{find-purge, unless_absent}

-- The destination has only names of the source.
abbrev pub HasOnly : Items → Items → Type 0
HasOnly ss ds = (k : String) → find k ss ≡ none → find k ds ≡ none

-- The destination has the files and directories of the source, with a relation between the contents, the
-- times and the permissions of the files, and nothing else. What is neither is not looked at.
module _ (F : List ℕ → ℕ → ℕ → List ℕ → ℕ → ℕ → Type 0) where
  unfoldable mutual
    pub Alike : Node → Option Node → Type 0
    Alike (file c t m) (some (file d u p)) = F c t m d u p
    Alike (dir m ss) (some (dir p ds)) = IsUnique ss × HasOnly ss ds × AlikeItems ss ds
    Alike special o = Unit
    Alike s o = ⊥

    pub AlikeItems : Items → Items → Type 0
    AlikeItems end ds = Unit
    AlikeItems (entry k s ss) ds = Alike s (find k ds) × AlikeItems ss ds

abbrev pub SameContent : List ℕ → ℕ → ℕ → List ℕ → ℕ → ℕ → Type 0
SameContent c t m d u p = c ≡ d

abbrev pub SameFile : List ℕ → ℕ → ℕ → List ℕ → ℕ → ℕ → Type 0
SameFile c t m d u p = (c ≡ d) × (t ≡ u) × (m ≡ p)

-- What a run relies on: names are distinct, a file of the same size and time has the same content, and no
-- directory with items is in the way of a file.
unfoldable mutual
  pub Fits : Node → Option Node → Type 0
  Fits (file c t m) (some (file d u p)) = length c ≡ length d → t ≡ u → c ≡ d
  Fits (file c t m) (some (dir p (entry k d ds))) = ⊥
  Fits (dir m ss) o = IsUnique ss × FitsItems ss (items_of o)
  Fits s o = Unit

  pub FitsItems : Items → Items → Type 0
  FitsItems end ds = Unit
  FitsItems (entry k s ss) ds = Fits s (find k ds) × FitsItems ss ds

module _ (now : ℕ) (masked : ℕ → ℕ) where
  sync_items-each :
      (ss ds : Items) → sync_items now masked ss ds ≡ each (sync_item now masked) ss ds
  unfolding sync_item
  sync_items-each end ds = refl
  sync_items-each (entry k s ss) ds =
      sync_items-each ss (assign k (sync_item now masked s (find k ds)) ds)

  sync_directories-HasOnly : (ss ds : Items) → HasOnly ss (sync_directories now masked ss ds)
  unfolding sync_directories
  sync_directories-HasOnly ss ds k absent =
      find-purge k ss (sync_items now masked ss ds)
      ∙ ap (λ o. unless_absent o (find k (sync_items now masked ss ds))) absent

  pub sync_directories-IsMade :
      (ss ds : Items)
      → IsUnique ss
      → IsMade (sync_item now masked) ss ds (sync_directories now masked ss ds)
  unfolding sync_directories
  sync_directories-IsMade ss ds u k s e =
      find-purge k ss (sync_items now masked ss ds)
      ∙ ap (λ o. unless_absent o (find k (sync_items now masked ss ds))) e
      ∙ ap (find k) (sync_items-each ss ds)
      ∙ find-each (sync_item now masked) k ss ds u
      ∙ ap (λ o. merged (sync_item now masked) o (find k ds)) e

  sync_file-Alike :
      (c : List ℕ) (t m : ℕ) (o : Option Node)
      → Fits (file c t m) o
      → Alike SameContent (file c t m) (sync_file now masked c t m o)
  unfolding sync_file create remove Fits Alike
  sync_file-Alike c t m none h = refl
  sync_file-Alike c t m (some (file d u p)) h =
      elim (Bool-cases ((length c == length d) && (t == u))) [
        | inl same ↦ rw same (h (ground arith) (ground arith))
        | inr other ↦ rw other refl
      ]
  sync_file-Alike c t m (some (dir p end)) h = refl
  sync_file-Alike c t m (some (dir p (entry k d ds))) h = absurd h
  sync_file-Alike c t m (some special) h = refl

  mutual
    unfolding sync_item sync_directories Fits Alike

    sync_item-Alike :
        (s : Node) (o : Option Node) → Fits s o → Alike SameContent s (sync_item now masked s o)
    sync_item-Alike (file c t m) o h = sync_file-Alike c t m o h
    sync_item-Alike (dir m ss) o h =
        let ds = items_of o in
        (
          h.0,
          sync_directories-HasOnly ss ds,
          suffix-AlikeItems ss ds (sync_directories now masked ss ds) h.0 h.1
              (sync_directories-IsMade ss ds h.0),
        )
    sync_item-Alike special o h = tt

    suffix-AlikeItems :
        (ts ds target : Items)
        → IsUnique ts
        → FitsItems ts ds
        → IsMade (sync_item now masked) ts ds target
        → AlikeItems SameContent ts target
    suffix-AlikeItems end ds target u h made = tt
    suffix-AlikeItems (entry k s ts) ds target u h made = (
      subst (Alike SameContent s) (sym (IsMade-head (sync_item now masked) k s ts ds target made))
          (sync_item-Alike s (find k ds) h.0),
      suffix-AlikeItems ts ds target u.1 h.1
          (IsMade-tail (sync_item now masked) k s ts ds target u.0 made),
    )

change_items-each : (ss ds : Items) → change_items ss ds ≡ each change_item ss ds
unfolding change_item
change_items-each end ds = refl
change_items-each (entry k s ss) ds = change_items-each ss (assign k (change_item s (find k ds)) ds)

pub find-change_items :
    (k : String) (o : Option Node) (ss ds : Items)
    → IsUnique ss
    → find k ss ≡ o
    → find k (change_items ss ds) ≡ merged change_item o (find k ds)
find-change_items k o ss ds u e =
    ap (find k) (change_items-each ss ds)
    ∙ find-each change_item k ss ds u
    ∙ ap (λ x. merged change_item x (find k ds)) e

mutual
  unfolding change_item Alike

  change_item-Alike :
      (s : Node) (o : Option Node) → Alike SameContent s o → Alike SameFile s (change_item s o)
  change_item-Alike (file c t m) none h = absurd h
  change_item-Alike (file c t m) (some (file d u p)) h = (h, ground arith, ground arith)
  change_item-Alike (file c t m) (some (dir p ds)) h = absurd h
  change_item-Alike (file c t m) (some special) h = absurd h
  change_item-Alike (dir m ss) none h = absurd h
  change_item-Alike (dir m ss) (some (file d u p)) h = absurd h
  change_item-Alike (dir m ss) (some (dir p ds)) h = (
    h.0,
    λ k e. find-change_items k none ss ds h.0 e ∙ h.1 k e,
    changed-AlikeItems ss ds (change_items ss ds) h.0 h.2
        (λ k s e. find-change_items k (some s) ss ds h.0 e),
  )
  change_item-Alike (dir m ss) (some special) h = absurd h
  change_item-Alike special o h = tt

  changed-AlikeItems :
      (ts ds target : Items)
      → IsUnique ts
      → AlikeItems SameContent ts ds
      → IsMade change_item ts ds target
      → AlikeItems SameFile ts target
  changed-AlikeItems end ds target u h made = tt
  changed-AlikeItems (entry k s ts) ds target u h made = (
    subst (Alike SameFile s) (sym (IsMade-head change_item k s ts ds target made))
        (change_item-Alike s (find k ds) h.0),
    changed-AlikeItems ts ds target u.1 h.1 (IsMade-tail change_item k s ts ds target u.0 made),
  )

pub main-mirrors :
    (now : ℕ) (masked : ℕ → ℕ) (m p : ℕ) (ss ds : Items)
    → Fits (dir m ss) (some (dir p ds))
    → (es : Items) × (main now masked 3 (some (dir m ss)) (some (dir p ds)) ≡ done es)
      × Alike SameFile (dir m ss) (some (dir p es))
unfolding main sync_item sync_directories change_item
main-mirrors now masked m p ss ds h =
    let es = sync_directories now masked ss ds in
    (
      change_items ss es,
      refl,
      change_item-Alike (dir m ss) (some (dir p es))
          (sync_item-Alike now masked (dir m ss) (some (dir p ds)) h),
    )
