-- ===== src/Rsync/Blocked.antt =====
-- A9/rsync.c: a directory with items in the way of a file.
use Prim.Native.String.{String}
use os_lab_sp.Prelude.{ℕ, ◌≡◌, refl, List, some, ap, ◌∙◌}
use os_lab_sp.Rsync.{
  Node, file, dir, Items, entry, find, remove, create, sync_file, sync_item, sync_directories,
  change_item, change_items, done, main,
}
use os_lab_sp.Rsync.Loops.{IsUnique}
use os_lab_sp.Rsync.Mirror.{sync_directories-IsMade, find-change_items}

blocked_item :
    (now : ℕ) (masked : ℕ → ℕ) (c : List ℕ) (t m q : ℕ) (j : String) (e : Node) (es : Items)
    → sync_item now masked (file c t m) (some (dir q (entry j e es))) ≡ some (dir q (entry j e es))
unfolding sync_item sync_file create remove
blocked_item now masked c t m q j e es = refl

-- If the source has distinct names and a regular file where the destination has a directory with items,
-- the program ends without an error and leaves that directory as it was.
pub blocked_stays :
    (now : ℕ) (masked : ℕ → ℕ) (a p : ℕ) (ss ds : Items) (k : String) (c : List ℕ) (t m q : ℕ)
    (j : String) (e : Node) (es : Items)
    → IsUnique ss
    → find k ss ≡ some (file c t m)
    → find k ds ≡ some (dir q (entry j e es))
    → (out : Items) × (main now masked 3 (some (dir a ss)) (some (dir p ds)) ≡ done out)
      × (find k out ≡ some (dir q (entry j e es)))
unfolding main change_item
blocked_stays now masked a p ss ds k c t m q j e es u source target =
    let synced = sync_directories now masked ss ds in
    let still : find k synced ≡ some (dir q (entry j e es)) =
      sync_directories-IsMade now masked ss ds u k (file c t m) source
      ∙ ap (sync_item now masked (file c t m)) target
      ∙ blocked_item now masked c t m q j e es in
    (
      change_items ss synced,
      refl,
      find-change_items k (some (file c t m)) ss synced u source
          ∙ ap (change_item (file c t m)) still,
    )
