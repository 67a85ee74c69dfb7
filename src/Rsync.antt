-- ===== src/Rsync.antt =====
-- A9/rsync.c: the destination is made a copy of the source. A directory is the list of its items in the
-- order of readdir, and what a path names is an optional item. Permissions are stored and not enforced,
-- and reads and writes do not fail in between. `now` is the time of a new file, and `masked` what the
-- file mode creation mask leaves of a mode.
pub mod Names
pub mod Loops
pub mod Mirror
pub mod Settled
pub mod Blocked
mod Tests
use Prim.Native.String.{String}
use os_lab_sp.Prelude.Text.{same_name}
use os_lab_sp.Prelude.{ℕ, Bool, List, Option, none, some, ◌==◌, ◌&&◌, length, if◌then◌else◌}

-- What lstat tells of an item. The size of a regular file is the number of its bytes.
mutual
  pub data Node : Type 0 where
    file : (content : List ℕ) (mtime mode : ℕ) → Node
    dir : (mode : ℕ) → Items → Node
    special : Node  -- neither a regular file nor a directory

  pub data Items : Type 0 where
    end : Items
    entry : String → Node → Items → Items

-- lstat(path)
unfoldable pub find : String → Items → Option Node
find name end = none
find name (entry k d ds) = if same_name k name then some d else find name ds

unfoldable pub without : String → Items → Items
without name end = end
without name (entry k d ds) =
    let rest = without name ds in if same_name k name then rest else entry k d rest

unfoldable pub replace : String → Node → Items → Items
replace name new end = entry name new end
replace name new (entry k d ds) =
    if same_name k name then entry k new ds else entry k d (replace name new ds)

-- What the path names from now on.
unfoldable pub assign : String → Option Node → Items → Items
unfolding without replace
assign name none ds = without name ds
assign name (some d) ds = replace name d ds

-- remove(path), which fails on a directory that is not empty
unfoldable pub remove : Node → Option Node
remove (dir mode (entry k d ds)) = some (dir mode (entry k d ds))
remove d = none

-- The items that are left of a directory, before the item `d` is looked at.
abbrev pub kept : String → Option Node → Items → Items
kept k none ds = ds
kept k (some d) ds = entry k d ds

unfoldable mutual
  pub remove_directory : Node → Option Node
  remove_directory (dir mode ds) = remove (dir mode (remove_items ds))
  remove_directory (file content mtime mode) = none
  remove_directory special = none

  -- The loop of remove_directory; an item that is no directory is removed by remove.
  remove_items : Items → Items
  remove_items end = end
  remove_items (entry k d ds) = kept k (remove_directory d) (remove_items ds)

-- One item of the destination, given what the source has under its name.
unfoldable pub sweep : Option Node → String → Node → Items → Items
unfolding remove_directory
sweep (some s) k d rest = entry k d rest
sweep none k d rest = kept k (remove_directory d) rest

-- The second loop of sync_directories: the items of the destination that the source does not have.
unfoldable pub purge : Items → Items → Items
unfolding sweep
purge src end = end
purge src (entry k d ds) = sweep (find k src) k d (purge src ds)

-- The directory into which the items go: the old one, or a new one made by mkdir.
abbrev pub items_of : Option Node → Items
items_of (some (dir perms ds)) = ds
items_of o = end

module _ (now : ℕ) (masked : ℕ → ℕ) where
  -- open with O_CREAT, and the loop of reads and writes: a directory in the way makes open fail.
  unfoldable pub create : List ℕ → ℕ → Option Node → Option Node
  create content mode none = some (file content now (masked mode))
  create content mode (some d) = some d

  -- The source item is a regular file.
  unfoldable pub sync_file : List ℕ → ℕ → ℕ → Option Node → Option Node
  unfolding create
  sync_file content mtime mode none = create content mode none
  sync_file content mtime mode (some (file old time perms)) =
      if (length content == length old) && (mtime == time)
      then some (file old time perms)
      else some (file content mtime mode)
  sync_file content mtime mode (some d) = create content mode (remove d)

  abbrev pub mode_of : ℕ → Option Node → ℕ
  mode_of mode (some (dir perms ds)) = perms
  mode_of mode o = masked mode

  unfoldable mutual
    -- One item of the source and what the same path names in the destination.
    pub sync_item : Node → Option Node → Option Node
    sync_item (file content mtime mode) o = sync_file content mtime mode o
    sync_item (dir mode ss) o = some (dir (mode_of mode o) (purge ss (sync_items ss (items_of o))))
    sync_item special o = o

    -- The first loop of sync_directories.
    pub sync_items : Items → Items → Items
    sync_items end ds = ds
    sync_items (entry k s ss) ds = sync_items ss (assign k (sync_item s (find k ds)) ds)

  unfoldable pub sync_directories : Items → Items → Items
  sync_directories ss ds = purge ss (sync_items ss ds)

unfoldable mutual
  pub change_item : Node → Option Node → Option Node
  change_item (file content mtime mode) (some (file old time perms)) =
      some
        (file old (if mtime == time then time else mtime) (if mode == perms then perms else mode))
  change_item (dir mode ss) (some (dir perms ds)) = some (dir perms (change_items ss ds))
  change_item s o = o

  pub change_items : Items → Items → Items
  change_items end ds = ds
  change_items (entry k s ss) ds = change_items ss (assign k (change_item s (find k ds)) ds)

-- Exit codes, and the destination at the end.
pub data Outcome : Type 0 where
  usage : Outcome
  failed : Outcome
  done : Items → Outcome

-- main, with the two paths as what they name.
unfoldable pub main : ℕ → (ℕ → ℕ) → ℕ → Option Node → Option Node → Outcome
main now masked argc (some (dir m ss)) (some (dir p ds)) =
    if argc == 3 then done (change_items ss (sync_directories now masked ss ds)) else usage
main now masked argc src dst = if argc == 3 then failed else usage
