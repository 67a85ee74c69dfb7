-- ===== src/Workers/Always.antt =====
-- A6/examples/E1.c: what holds in every state of the threads.
use os_lab_sp.Prelude.{
  Bool, false, ◌&&◌, by_test, ℕ, ◌≡◌, refl, true, ltb, ◌&&◌, arith, ap, sym, ◌∙◌, subst, ℕ_discrete,
}
use os_lab_sp.Prelude.Family.{sum_below}
use os_lab_sp.Workers.{
  WorkerPlace, checking, drawing, counting, pausing, leaving, gone, Master, sleeping, joining, Pool,
  pool_init, is_gone, master_at, Runner, the_master, a_worker, wakes_up, is_wakeup, is_pausing,
  run_next, Ran, at_start, after,
}
use os_lab_sp.Workers.Values.{changed}
use os_lab_sp.Workers.Kept.{is_awake, joined_count, IsKept}
use os_lab_sp.Workers.Waking.{Next}
use os_lab_sp.Workers.Steps.{worker_at-IsKept, woken-IsKept}

pausing_place : (p : WorkerPlace) → is_pausing p ≡ true → p ≡ pausing
pausing_place checking e = absurd (ground (arith, e))
pausing_place drawing e = absurd (ground (arith, e))
pausing_place counting e = absurd (ground (arith, e))
pausing_place pausing e = refl
pausing_place leaving e = absurd (ground (arith, e))
pausing_place gone e = absurd (ground (arith, e))

master_at-IsKept :
    (signalled : Bool) (rand : ℕ → ℕ) (s : Pool) (m : Master)
    → s.master ≡ m
    → IsKept signalled rand s
    → Next (IsKept signalled rand) (master_at m s)
unfolding master_at
master_at-IsKept signalled rand s sleeping e v = record {
  iterates = v.iterates;
  total = v.total;
  wind = record {
    counted = v.wind.counted;
    out_late = v.wind.out_late;
    in_wait = v.wind.in_wait;
    ended = λ j hj. absurd (omega (arith, hj));
  };
  early = λ runs. absurd (ground (arith, runs));
  awake = refl;
  joined = omega arith;
}
master_at-IsKept signalled rand s (joining i) e v =
    by_test (Next (IsKept signalled rand)) (ltb i 4 && is_gone (s.workers i).place)
      (λ next. record {
        iterates = v.iterates;
        total = v.total;
        wind = record {
          counted = v.wind.counted;
          out_late = v.wind.out_late;
          in_wait = v.wind.in_wait;
          ended = λ j hj. elim (ℕ_discrete j i) [
            | yes at ↦
                subst (λ k. is_gone (s.workers k).place ≡ true) (sym at) (ground (arith, next))
            | no other ↦
                let known = ap joined_count e in v.wind.ended j (omega (arith, hj, other, known))
          ];
        };
        early = v.early;
        awake = v.awake ∙ ap is_awake e;
        joined = ground (arith, next);
      })
      (λ stays. tt)

run_next-IsKept :
    (signalled : Bool) (rand : ℕ → ℕ) (x : Runner) (s : Pool)
    → (signalled ≡ true → is_wakeup x ≡ false)
    → IsKept signalled rand s
    → Next (IsKept signalled rand) (run_next x s)
unfolding run_next
run_next-IsKept signalled rand the_master s fine v =
    master_at-IsKept signalled rand s s.master refl v
run_next-IsKept signalled rand (a_worker n r) s fine v =
    by_test (Next (IsKept signalled rand)) (ltb n 4)
      (λ inside.
        worker_at-IsKept signalled rand n (ground (arith, inside)) s v (s.workers n).place r refl)
      (λ outside. tt)
run_next-IsKept signalled rand (wakes_up n) s fine v =
    by_test (Next (IsKept signalled rand)) (ltb n 4 && is_pausing (s.workers n).place)
      (λ there.
        woken-IsKept signalled rand n (ground (arith, there)) s v
          (λ g. let h = fine g in ground (arith, h))
          (pausing_place (s.workers n).place (ground (arith, there))))
      (λ elsewhere. tt)

pool_init-IsKept : (signalled : Bool) (rand : ℕ → ℕ) → IsKept signalled rand (pool_init rand)
unfolding pool_init changed sum_below
pool_init-IsKept signalled rand = record {
  iterates = λ i. refl;
  total = refl;
  wind = record {
    counted = refl;
    out_late = λ g j hj out. absurd (ground (arith, out));
    in_wait = λ j hj waits. omega arith;
    ended = λ j hj. absurd (omega (arith, hj));
  };
  early = λ runs. refl;
  awake = refl;
  joined = omega arith;
}

pub Ran-IsKept :
    (signalled : Bool) (rand : ℕ → ℕ) (s : Pool) → Ran signalled rand s → IsKept signalled rand s
Ran-IsKept signalled rand s at_start = pool_init-IsKept signalled rand
Ran-IsKept signalled rand t (after {s} x r fine e) =
    subst (Next (IsKept signalled rand)) e
      (run_next-IsKept signalled rand x s fine (Ran-IsKept signalled rand s r))
