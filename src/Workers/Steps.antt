-- ===== src/Workers/Steps.antt =====
-- A6/examples/E1.c: each step of a worker, one place at a time.
use os_lab_sp.Prelude.{
  Bool, by_test, ℕ, suc, ◌+◌, ◌%◌, ◌<◌, ◌≤◌, ◌≡◌, refl, true, false, ltb, ◌==◌, arith, ap, sym, ◌∙◌,
  subst, ℕ_discrete,
}
use native.Mathlib.Nat.{mod-lt}
use os_lab_sp.Prelude.Family.{update, sum_below-update}
use os_lab_sp.Workers.{
  WorkerPlace, is_pausing, checking, drawing, counting, pausing, leaving, gone, Worker, Pool,
  new_value, wake, move_to, check_done, change_entry, worker_at, is_gone,
}
use os_lab_sp.Workers.Values.{changed}
use os_lab_sp.Workers.Kept.{
  bit, is_down, is_out, is_counting, down, made, itself, joined_count, IsWound, IsKept,
  replaced-IsWound,
}
use os_lab_sp.Workers.Waking.{Next, down-wake, made-wake, is_gone-wake, awake_now, sum_below-congr}

module _ (signalled : Bool) (rand : ℕ → ℕ) (n : ℕ) (hn : n < 4) (s : Pool)
    (v : IsKept signalled rand s) where
  -- A step between two places on this side of the test, or from the wait to the end.
  moved-IsKept :
      (w : Worker)
      → made w ≡ made (s.workers n)
      → down w ≡ down (s.workers n)
      → (signalled ≡ true → is_out w.place ≡ true → 4 ≤ s.wdone)
      → is_pausing w.place ≡ false
      → is_gone (s.workers n).place ≡ false
      → IsKept signalled rand (record s { workers = update s.workers n w })
  moved-IsKept w same_made same_down late awake here = record {
    iterates = v.iterates;
    total =
        let new = sum_below-update made 4 n s.workers w hn in
        let old = v.total in omega (arith, new, old, same_made);
    wind =
        replaced-IsWound signalled s.workers s.wdone (joined_count s.master) n w hn v.wind same_down
          late awake here;
    early = v.early;
    awake = v.awake;
    joined = v.joined;
  }

  change_entry-IsKept :
      (i : ℕ) → i < 5 → (s.workers n).place ≡ drawing → IsKept signalled rand (change_entry n i s)
  unfolding change_entry changed
  change_entry-IsKept i hi e = record {
    iterates = λ j. elim (ℕ_discrete j i) [
      | yes at ↦
          let hit : (j == i) ≡ true = ground (arith, at) in
          let more : suc (s.c i) ≡ s.c i + 1 = omega arith in
          rw hit (
            ap new_value (v.iterates i)
            ∙ ap (λ k. changed k (1 + rand i % 10)) more
            ∙ ap (λ k. changed (s.c i + 1) (1 + rand k % 10)) (sym at))
      | no other ↦ let miss : (j == i) ≡ false = ground (arith, other) in rw miss (v.iterates j)
    ];
    total =
        let new = sum_below-update itself 5 i s.c (s.c i + 1) hi in
        let new_made =
          sum_below-update made 4 n s.workers (record (s.workers n) { place = counting }) hn in
        let old = v.total in
        let before = ap (λ p. bit (is_counting p)) e in omega (arith, new, new_made, old, before);
    wind =
        replaced-IsWound signalled s.workers s.wdone (joined_count s.master) n
          (record (s.workers n) { place = counting }) hn v.wind (sym (ap (λ p. bit (is_down p)) e))
          (λ g out. absurd (ground (arith, out))) refl (ap is_gone e);
    early = v.early;
    awake = v.awake;
    joined = v.joined;
  }

  -- A worker before the last one to notice goes to sleep.
  noticed-IsWound :
      (s.workers n).place ≡ checking
      → s.wdone + 1 < 4
      → IsWound signalled
          (update s.workers n (record (s.workers n) { place = pausing }))
          (s.wdone + 1)
          (joined_count s.master)
  noticed-IsWound e room = record {
    counted =
        let new =
          sum_below-update down 4 n s.workers (record (s.workers n) { place = pausing }) hn in
        let old = v.wind.counted in
        let before = ap (λ p. bit (is_down p)) e in omega (arith, new, old, before);
    out_late = λ g j hj out. elim (ℕ_discrete j n) [
      | yes at ↦ absurd (ground (arith, out, at))
      | no other ↦
          let late = v.wind.out_late g j hj (ground (arith, out, other)) in
          absurd (omega (arith, late, room))
    ];
    in_wait = λ j hj waits. room;
    ended = λ j hj. elim (ℕ_discrete j n) [
      | yes at ↦
          let gone_there = subst (λ k. is_gone (s.workers k).place ≡ true) at (v.wind.ended j hj) in
          let here = ap is_gone e in absurd (ground (arith, gone_there, here))
      | no other ↦ let over = v.wind.ended j hj in ground (arith, over, other)
    ];
  }

  -- The last one wakes all of the others.
  last-IsWound :
      (s.workers n).place ≡ checking
      → 4 ≤ s.wdone + 1
      → IsWound signalled
          (update (λ j. wake (s.workers j)) n (record (s.workers n) { place = leaving }))
          (s.wdone + 1)
          (joined_count s.master)
  last-IsWound e full = record {
    counted =
        let new =
          sum_below-update down 4 n (λ j. wake (s.workers j))
            (record (s.workers n) { place = leaving }) hn in
        let same =
          sum_below-congr down 4 s.workers (λ j. wake (s.workers j))
            (λ j. down-wake (s.workers j)) in
        let old = v.wind.counted in
        let before = ap (λ p. bit (is_down p)) e in
        let woken = down-wake (s.workers n) in omega (arith, new, same, old, before, woken);
    out_late = λ g j hj out. full;
    in_wait = λ j hj waits. elim (ℕ_discrete j n) [
      | yes at ↦ absurd (ground (arith, waits, at))
      | no other ↦
          let awake = awake_now (s.workers j).place in absurd (ground (arith, waits, other, awake))
    ];
    ended = λ j hj. elim (ℕ_discrete j n) [
      | yes at ↦
          let gone_there = subst (λ k. is_gone (s.workers k).place ≡ true) at (v.wind.ended j hj) in
          let here = ap is_gone e in absurd (ground (arith, gone_there, here))
      | no other ↦
          let over = v.wind.ended j hj in
          let same = is_gone-wake (s.workers j).place in ground (arith, over, other, same)
    ];
  }

  check_done-IsKept : (s.workers n).place ≡ checking → IsKept signalled rand (check_done n s)
  unfolding check_done
  check_done-IsKept e =
      let before = ap (λ p. bit (is_counting p)) e in
      by_test (IsKept signalled rand) s.mdone
        (λ stopped.
          by_test (IsKept signalled rand) (ltb (s.wdone + 1) 4)
            (λ room. record {
              iterates = v.iterates;
              total =
                  let new =
                    sum_below-update made 4 n s.workers (record (s.workers n) { place = pausing })
                      hn in
                  let old = v.total in omega (arith, new, old, before);
              wind = noticed-IsWound e (ground (arith, room));
              early = λ runs. absurd (ground (arith, runs, stopped));
              awake = v.awake;
              joined = v.joined;
            })
            (λ full. record {
              iterates = v.iterates;
              total =
                  let new =
                    sum_below-update made 4 n (λ j. wake (s.workers j))
                      (record (s.workers n) { place = leaving }) hn in
                  let same =
                    sum_below-congr made 4 s.workers (λ j. wake (s.workers j))
                      (λ j. made-wake (s.workers j)) in
                  let old = v.total in
                  let woken = made-wake (s.workers n) in
                  omega (arith, new, same, old, before, woken);
              wind = last-IsWound e (ground (arith, full));
              early = λ runs. absurd (ground (arith, runs, stopped));
              awake = v.awake;
              joined = v.joined;
            }))
        (λ runs.
          moved-IsKept (record (s.workers n) { place = drawing }) (omega (arith, before))
            (sym (ap (λ p. bit (is_down p)) e)) (λ g out. absurd (ground (arith, out))) refl
            (ap is_gone e))

  counted-IsKept :
      (s.workers n).place ≡ counting
      → IsKept signalled rand (record s {
        workers = update s.workers n (record { place = checking; count = (s.workers n).count + 1 });
      })
  counted-IsKept e =
      let before = ap (λ p. bit (is_counting p)) e in
      moved-IsKept (record { place = checking; count = (s.workers n).count + 1 })
        (omega (arith, before)) (sym (ap (λ p. bit (is_down p)) e))
        (λ g out. absurd (ground (arith, out))) refl (ap is_gone e)

  leaving-IsKept : (s.workers n).place ≡ leaving → IsKept signalled rand (move_to gone n s)
  leaving-IsKept e =
      let before = ap (λ p. bit (is_counting p)) e in
      moved-IsKept (record (s.workers n) { place = gone }) (omega (arith, before))
        (sym (ap (λ p. bit (is_down p)) e)) (λ g out. v.wind.out_late g n hn (ap is_out e)) refl
        (ap is_gone e)

  pub woken-IsKept :
      (signalled ≡ true → ⊥)
      → (s.workers n).place ≡ pausing
      → IsKept signalled rand (move_to leaving n s)
  woken-IsKept never e =
      let before = ap (λ p. bit (is_counting p)) e in
      moved-IsKept (record (s.workers n) { place = leaving }) (omega (arith, before))
        (sym (ap (λ p. bit (is_down p)) e)) (λ g out. absurd (never g)) refl (ap is_gone e)

  pub worker_at-IsKept :
      (p : WorkerPlace) (r : ℕ)
      → (s.workers n).place ≡ p
      → Next (IsKept signalled rand) (worker_at p n r s)
  unfolding worker_at
  worker_at-IsKept checking r e = check_done-IsKept e
  worker_at-IsKept drawing r e = change_entry-IsKept (r % 5) (mod-lt r {m = 5} (omega arith)) e
  worker_at-IsKept counting r e = counted-IsKept e
  worker_at-IsKept pausing r e = tt
  worker_at-IsKept leaving r e = leaving-IsKept e
  worker_at-IsKept gone r e = tt
