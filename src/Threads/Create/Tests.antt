-- ===== src/Threads/Create/Tests.antt =====
-- A7/foothread.c: two joinable threads and a detached one.
use os_lab_sp.Prelude.{◌<◌, ◌≡◌, ◌≢◌, refl, List, [], ◌∷◌, none, some, arith}
use os_lab_sp.Threads.{ExitState, exit_step, wake}
use os_lab_sp.Threads.Exit.{Reach, IsCounted}
use os_lab_sp.Threads.Create.{
  foothread_joinable, Attr, attr_initializer, setjointype, setstacksize, Library, library_init,
  made_with, foothread_create, create_threads,
}
use os_lab_sp.Threads.Create.Joined.{created_then_exit}

abbrev three_attrs : List Attr
three_attrs =
    setjointype foothread_joinable attr_initializer
    ∷ attr_initializer
    ∷ setstacksize 65536 (setjointype foothread_joinable attr_initializer)
    ∷ []

three_started :
    create_threads three_attrs library_init
    ≡ some (record {
      mtx = some 1;
      exit_sem = some 0;
      num_threads = 2;
      started = 2097152 ∷ 2097152 ∷ 65536 ∷ [];
    })
unfolding create_threads foothread_create
three_started = refl

without_attributes : foothread_create none library_init ≡ none
unfolding foothread_create
without_attributes = refl

created_then_exit_example :
    (l : Library) × (create_threads three_attrs library_init ≡ some l)
    × (l.num_threads ≡ 2)
    × (l.started ≡ 2097152 ∷ 2097152 ∷ 65536 ∷ [])
    × (made_with 1 l.mtx ≡ 1)
    × (made_with 0 l.exit_sem ≡ 0)
    × ((s : ExitState)
        → Reach l.num_threads s
        → IsCounted 2 s × (s.exited_threads ≡ 3 → 0 < s.blocked → exit_step wake s ≢ none))
created_then_exit_example = created_then_exit three_attrs (omega arith)
