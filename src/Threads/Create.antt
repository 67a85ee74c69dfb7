-- ===== src/Threads/Create.antt =====
-- A7/foothread.c: the creation of threads, one call after the other by the main thread. A semaphore that was
-- not made yet, -1 in the source, is `none`. What clone starts is the size of its stack.
pub mod Joined
mod Tests
use os_lab_sp.Prelude.{
  ℕ, ◌+◌, ◌-◌, List, [], ◌∷◌, ◌++◌, Option, none, some, ◌==◌, if◌then◌else◌, ◌>>=◌,
}

abbrev pub foothread_joinable : ℕ
foothread_joinable = 100

abbrev pub foothread_detached : ℕ
foothread_detached = 101

abbrev pub default_stack_size : ℕ
default_stack_size = 2097152

pub record Attr : Type 0 where
  pub join_type : ℕ
  pub stack_size : ℕ

abbrev pub attr_initializer : Attr
attr_initializer = record { join_type = foothread_detached; stack_size = default_stack_size }

abbrev pub setjointype : ℕ → Attr → Attr
setjointype jointype attr = record attr { join_type = jointype }

abbrev pub setstacksize : ℕ → Attr → Attr
setstacksize stacksize attr = record attr { stack_size = stacksize }

-- The globals, and the threads that were started.
pub record Library : Type 0 where
  pub mtx : Option ℕ
  pub exit_sem : Option ℕ
  pub num_threads : ℕ
  pub started : List ℕ

abbrev pub library_init : Library
library_init = record { mtx = none; exit_sem = none; num_threads = 0; started = [] }

-- The value of a semaphore that is made when it is not there yet.
abbrev pub made_with : ℕ → Option ℕ → ℕ
made_with v none = v
made_with v (some x) = x

-- NULL is `none`; the test of the join type reads it, which is undefined.
unfoldable pub foothread_create : Option Attr → Library → Option Library
foothread_create none l = none
foothread_create (some attr) l =
    let value = made_with 1 l.mtx in
    if value == 0
    then none
    else some (record {
      mtx = some (value - 1 + 1);
      exit_sem = some (made_with 0 l.exit_sem);
      num_threads =
          if attr.join_type == foothread_joinable then l.num_threads + 1 else l.num_threads;
      started = l.started ++ attr.stack_size ∷ [];
    })

unfoldable pub create_threads : List Attr → Library → Option Library
create_threads [] l = some l
create_threads (attr ∷ attrs) l = foothread_create (some attr) l >>= create_threads attrs
