-- ===== src/Rsync/Tests.antt =====
-- A9/rsync.c: a small source and destination, and the theorems at them.
use os_lab_sp.Prelude.{ℕ, ◌≡◌, refl, [], ◌∷◌, none, some}
use os_lab_sp.Rsync.{
  file, dir, special, Items, end, entry, find, without, replace, assign, remove, remove_directory,
  sweep, purge, create, sync_file, sync_item, sync_directories, change_item, Outcome, usage, failed,
  done, main,
}
use os_lab_sp.Rsync.Mirror.{Fits}
use os_lab_sp.Rsync.Settled.{main_twice}
use os_lab_sp.Rsync.Blocked.{blocked_stays}

abbrev source : Items
source = entry "a" (file (1 ∷ 2 ∷ []) 50 6) (entry "d" (dir 7 (entry "b" (file [] 40 4) end)) end)

-- An older copy of "a", a file in place of "d", and an item that the source does not have.
abbrev target : Items
target =
    entry "old" (dir 7 (entry "x" special end))
      (entry "a" (file (3 ∷ []) 30 6) (entry "d" special end))

abbrev plain : ℕ → ℕ
plain mode = mode

abbrev run_main : ℕ → Items → Items → Outcome
unfolding main sync_directories sync_item sync_file create purge sweep remove_directory remove
    assign replace without find change_item
run_main argc ss ds = main 99 plain argc (some (dir 7 ss)) (some (dir 7 ds))

copied :
    run_main 3 source target
    ≡ done
        (entry "a" (file (1 ∷ 2 ∷ []) 50 6) (entry "d" (dir 7 (entry "b" (file [] 40 4) end)) end))
unfolding run_main
copied = refl

errors : (run_main 2 source target ≡ usage) × (main 99 plain 3 none (some (dir 7 end)) ≡ failed)
unfolding run_main main
errors = (refl, refl)

fitting : Fits (dir 7 source) (some (dir 7 target))
unfolding Fits find
fitting = ((refl, (refl, tt)), (λ size time. cc, (((refl, tt), (tt, tt)), tt)))

main_twice_example :
    (es : Items) × (main 99 plain 3 (some (dir 7 source)) (some (dir 7 target)) ≡ done es)
    × (main 100 plain 3 (some (dir 7 source)) (some (dir 7 es)) ≡ done es)
main_twice_example = main_twice 99 100 plain 7 7 source target fitting

abbrev in_the_way : Items
in_the_way = entry "a" (dir 5 (entry "x" special end)) end

blocked_stays_example :
    (out : Items) × (main 99 plain 3 (some (dir 7 source)) (some (dir 7 in_the_way)) ≡ done out)
    × (find "a" out ≡ some (dir 5 (entry "x" special end)))
unfolding find
blocked_stays_example =
    blocked_stays 99 plain 7 7 source in_the_way "a" (1 ∷ 2 ∷ []) 50 6 5 "x" special end
      (refl, (refl, tt)) refl refl
