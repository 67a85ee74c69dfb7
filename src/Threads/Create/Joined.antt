-- ===== src/Threads/Create/Joined.antt =====
-- A7/foothread.c: threads are created, and their joinable ones wait for each other at the end.
use os_lab_sp.Prelude.{
  ℕ, ◌+◌, ◌-◌, ◌<◌, ◌≡◌, ◌≢◌, refl, false, List, [], ◌∷◌, ◌++◌, none, some, ◌==◌, if◌then◌else◌,
  ◌>>=◌, arith, ap, sym, ◌∙◌, subst,
}
use mathlib.Core.List.{append_assoc, append-nil}
use os_lab_sp.Threads.{ExitState, exit_step, wake}
use os_lab_sp.Threads.Exit.{Reach, IsCounted, Reach-IsCounted, all_released}
use os_lab_sp.Threads.Create.{
  foothread_joinable, Attr, Library, library_init, made_with, foothread_create, create_threads,
}

-- How many of the threads are joinable, and the stacks of all.
abbrev pub joinable_count : List Attr → ℕ
joinable_count [] = 0
joinable_count (attr ∷ attrs) =
    (if attr.join_type == foothread_joinable then 1 else 0) + joinable_count attrs

abbrev pub stack_sizes : List Attr → List ℕ
stack_sizes [] = []
stack_sizes (attr ∷ attrs) = attr.stack_size ∷ stack_sizes attrs

record IsMade (attrs : List Attr) (l t : Library) : Type 0 where
  counted : t.num_threads ≡ l.num_threads + joinable_count attrs
  all_started : t.started ≡ l.started ++ stack_sizes attrs
  free : made_with 1 t.mtx ≡ 1
  nobody_out : made_with 0 t.exit_sem ≡ 0

create_threads-IsMade :
    (attrs : List Attr) (l : Library)
    → made_with 1 l.mtx ≡ 1
    → made_with 0 l.exit_sem ≡ 0
    → (t : Library) × (create_threads attrs l ≡ some t) × IsMade attrs l t
unfolding create_threads foothread_create
create_threads-IsMade [] l free out = (
  l,
  refl,
  record {
    counted = omega arith;
    all_started = sym (append-nil l.started);
    free = free;
    nobody_out = out;
  },
)
create_threads-IsMade (attr ∷ attrs) l free out =
    let made : Library = record {
      mtx = some (made_with 1 l.mtx - 1 + 1);
      exit_sem = some (made_with 0 l.exit_sem);
      num_threads =
          if attr.join_type == foothread_joinable then l.num_threads + 1 else l.num_threads;
      started = l.started ++ attr.stack_size ∷ [];
    } in
    let open_now : (made_with 1 l.mtx == 0) ≡ false = ground (arith, free) in
    let (t, e, w) = create_threads-IsMade attrs made (omega (arith, free)) out in
    let counted = w.counted in
    (
      t,
      ap (λ b. (if b then none else some made) >>= create_threads attrs) open_now ∙ e,
      record {
        counted = ground (arith, counted);
        all_started =
            w.all_started ∙ append_assoc l.started (attr.stack_size ∷ []) (stack_sizes attrs);
        free = w.free;
        nobody_out = w.nobody_out;
      },
    )

-- For threads of which at least one is joinable: all calls of foothread_create return, each thread gets the
-- stack size of its attributes, mtx is free, exit_sem is 0, and num_threads is the number `n` of joinable
-- threads. From there on, before the call number `n` of foothread_exit no call returns; after it, the calls
-- that returned and those that exit_sem still lets through are `n` and one together; and once the main thread
-- and the joinable ones have called, every call that waits can return.
pub created_then_exit :
    (attrs : List Attr)
    → 0 < joinable_count attrs
    → (l : Library) × (create_threads attrs library_init ≡ some l)
      × (l.num_threads ≡ joinable_count attrs)
      × (l.started ≡ stack_sizes attrs)
      × (made_with 1 l.mtx ≡ 1)
      × (made_with 0 l.exit_sem ≡ 0)
      × ((s : ExitState)
          → Reach l.num_threads s
          → IsCounted (joinable_count attrs) s
            × (s.exited_threads ≡ joinable_count attrs + 1
                → 0 < s.blocked
                → exit_step wake s ≢ none))
created_then_exit attrs pos =
    let (l, e, w) = create_threads-IsMade attrs library_init refl refl in
    let counted = w.counted in
    let same : l.num_threads ≡ joinable_count attrs = omega (arith, counted) in
    (
      l,
      e,
      same,
      w.all_started,
      w.free,
      w.nobody_out,
      λ s r.
          let r2 = subst (λ n. Reach n s) same r in
          (
            Reach-IsCounted (joinable_count attrs) s pos r2,
            λ all waits. all_released (joinable_count attrs) s pos r2 all waits,
          ),
    )
