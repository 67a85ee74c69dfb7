-- ===== src/Workers/Tests.antt =====
-- A6/examples/E1.c: a run of all threads.
use os_lab_sp.Prelude.{
  Option, Bool, false, ℕ, ◌+◌, ◌*◌, ◌%◌, ◌<◌, ◌≤◌, ◌≡◌, refl, true, List, [], ◌∷◌, ◌++◌, none, some,
  ◌>>=◌, arith, ap, sym, ◌∙◌, subst, inl, inr, Option-cases,
}
use mathlib.Core.Option.{some-injective}
use os_lab_sp.Prelude.Family.{sum_below}
use os_lab_sp.Workers.{
  gone, joining, Pool, pool_init, check_done, change_entry, worker_at, master_at, Runner,
  the_master, a_worker, wakes_up, is_wakeup, WorkerPlace, checking, run_next, Ran, at_start, after,
  run_list, new_value,
}
use os_lab_sp.Workers.Values.{changed}
use os_lab_sp.Workers.Kept.{is_out, itself}
use os_lab_sp.Workers.Joined.{written, leave_together, workers_end}

abbrev OnlyBroadcasts : List Runner → Type 0
OnlyBroadcasts [] = Unit
OnlyBroadcasts (the_master ∷ order) = OnlyBroadcasts order
OnlyBroadcasts (a_worker n r ∷ order) = OnlyBroadcasts order
OnlyBroadcasts (wakes_up n ∷ order) = ⊥

OnlyBroadcasts-cons :
    (x : Runner) (order : List Runner)
    → OnlyBroadcasts (x ∷ order)
    → (is_wakeup x ≡ false) × OnlyBroadcasts order
OnlyBroadcasts-cons the_master order only = (refl, only)
OnlyBroadcasts-cons (a_worker n r) order only = (refl, only)
OnlyBroadcasts-cons (wakes_up n) order only = absurd only

run_list-Ran :
    (signalled : Bool) (rand : ℕ → ℕ) (order : List Runner) (s t : Pool)
    → OnlyBroadcasts order
    → Ran signalled rand s
    → run_list order s ≡ some t
    → Ran signalled rand t
unfolding run_list
run_list-Ran signalled rand [] s t only r e = subst (Ran signalled rand) (some-injective s t e) r
run_list-Ran signalled rand (x ∷ order) s t only r e = elim (Option-cases (run_next x s)) [
  | inl missing ↦ absurd (ground (arith, e, missing))
  | inr (u, found) ↦
      run_list-Ran signalled rand order u t (OnlyBroadcasts-cons x order only).1
        (after x r (λ g. (OnlyBroadcasts-cons x order only).0) found)
        (sym (ap (λ o. o >>= run_list order) found) ∙ e)
]

abbrev draw : ℕ → ℕ
draw i = 3 * i

-- A change by a worker, and the step to the wait or the broadcast.
abbrev change : ℕ → ℕ → List Runner
change n i = a_worker n 0 ∷ a_worker n i ∷ a_worker n 0 ∷ []

abbrev end_order : List Runner
end_order =
    change 0 2
    ++ change 1 2
    ++ change 3 4
    ++ (the_master
        ∷ a_worker 2 0
        ∷ a_worker 0 0
        ∷ a_worker 3 0
        ∷ a_worker 1 0
        ∷ a_worker 0 0
        ∷ a_worker 1 0
        ∷ a_worker 2 0
        ∷ a_worker 3 0
        ∷ the_master
        ∷ the_master
        ∷ the_master
        ∷ the_master
        ∷ [])

abbrev one_place : Option Pool → WorkerPlace
one_place none = checking
one_place (some s) = (s.workers 2).place

unfoldable at_end : Pool
unfolding run_list run_next worker_at master_at check_done change_entry pool_init
at_end = elim (run_list end_order (pool_init draw)) [ none ↦ pool_init draw | some s ↦ s ]

end_run : run_list end_order (pool_init draw) ≡ some at_end
unfolding at_end run_list run_next worker_at master_at check_done change_entry pool_init
end_run = refl

end-OnlyBroadcasts : OnlyBroadcasts end_order
end-OnlyBroadcasts = tt

-- A worker that wakes up without a broadcast leaves while the others work.
first_leaves :
    one_place
      (run_list (the_master ∷ a_worker 2 0 ∷ wakes_up 2 ∷ a_worker 2 0 ∷ []) (pool_init draw))
    ≡ gone
unfolding run_list run_next worker_at master_at check_done pool_init
first_leaves = refl

-- 7 becomes 22 and 11.
third_entry : at_end.a 2 ≡ 11
unfolding at_end new_value
third_entry = refl

workers_end_example :
    (((x : Runner) → is_wakeup x ≡ false → run_next x at_end ≡ none) → at_end.master ≡ joining 4)
    × (at_end.master ≡ joining 4
        → ((j : ℕ) → j < 4 → (at_end.workers j).place ≡ gone)
          × (at_end.wdone ≡ 4)
          × (sum_below itself 5 at_end.c ≡ sum_below written 4 at_end.workers)
          × ((i : ℕ)
              → (at_end.a i ≡ changed (at_end.c i) (1 + draw i % 10))
                × (1 ≤ at_end.a i)
                × (at_end.a i ≤ 52)))
workers_end_example =
    workers_end draw at_end (
      run_list-Ran false draw end_order (pool_init draw) at_end end-OnlyBroadcasts at_start end_run)

leave_together_example :
    (at_end.mdone ≡ true)
    × (at_end.wdone ≡ 4)
    × ((k : ℕ) → k < 4 → is_out (at_end.workers k).place ≡ true)
unfolding at_end
leave_together_example =
    leave_together draw at_end 0
      (run_list-Ran true draw end_order (pool_init draw) at_end end-OnlyBroadcasts at_start end_run)
      (omega arith) refl
