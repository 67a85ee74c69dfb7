-- ===== src/Workers/Kept.antt =====
-- A6/examples/E1.c: what every step of the threads keeps.
use os_lab_sp.Prelude.{ℕ, ◌+◌, ◌%◌, ◌<◌, ◌≤◌, ◌≡◌, Bool, true, false, arith, subst, ℕ_discrete}
use os_lab_sp.Prelude.Family.{update, sum_below, sum_below-update}
use os_lab_sp.Workers.{
  WorkerPlace, is_pausing, counting, pausing, leaving, gone, Worker, Master, sleeping, joining,
  Pool, is_gone,
}
use os_lab_sp.Workers.Values.{changed}

abbrev pub bit : Bool → ℕ
bit true = 1
bit false = 0

-- Behind the test of mdone; behind the wait; between the section and ++count.
abbrev pub is_down : WorkerPlace → Bool
is_down pausing = true
is_down leaving = true
is_down gone = true
is_down p = false

abbrev pub is_out : WorkerPlace → Bool
is_out leaving = true
is_out gone = true
is_out p = false

abbrev pub is_counting : WorkerPlace → Bool
is_counting counting = true
is_counting p = false

abbrev pub down : Worker → ℕ
down w = bit (is_down w.place)

-- The changes that a worker has made.
abbrev pub made : Worker → ℕ
made w = w.count + bit (is_counting w.place)

abbrev pub itself : ℕ → ℕ
itself x = x

abbrev pub is_awake : Master → Bool
is_awake sleeping = false
is_awake (joining i) = true

abbrev pub joined_count : Master → ℕ
joined_count sleeping = 0
joined_count (joining i) = i

pub record IsWound (signalled : Bool) (workers : ℕ → Worker) (wdone : ℕ) (joined : ℕ) : Type 0 where
  pub counted : wdone ≡ sum_below down 4 workers
  pub out_late : signalled ≡ true → (j : ℕ) → j < 4 → is_out (workers j).place ≡ true → 4 ≤ wdone
  pub in_wait : (j : ℕ) → j < 4 → is_pausing (workers j).place ≡ true → wdone < 4
  pub ended : (j : ℕ) → j < joined → is_gone (workers j).place ≡ true

pub record IsKept (signalled : Bool) (rand : ℕ → ℕ) (s : Pool) : Type 0 where
  pub iterates : (i : ℕ) → s.a i ≡ changed (s.c i) (1 + rand i % 10)
  pub total : sum_below itself 5 s.c ≡ sum_below made 4 s.workers
  pub wind : IsWound signalled s.workers s.wdone (joined_count s.master)
  pub early : s.mdone ≡ false → s.wdone ≡ 0
  pub awake : s.mdone ≡ is_awake s.master
  pub joined : joined_count s.master ≤ 4

-- A worker that is not gone gets to another place.
pub replaced-IsWound :
    (signalled : Bool) (workers : ℕ → Worker) (wdone joined n : ℕ) (w : Worker)
    → n < 4
    → IsWound signalled workers wdone joined
    → down w ≡ down (workers n)
    → (signalled ≡ true → is_out w.place ≡ true → 4 ≤ wdone)
    → is_pausing w.place ≡ false
    → is_gone (workers n).place ≡ false
    → IsWound signalled (update workers n w) wdone joined
replaced-IsWound signalled workers wdone joined n w hn v same late awake here = record {
  counted =
      let new = sum_below-update down 4 n workers w hn in
      let old = v.counted in omega (arith, new, old, same);
  out_late = λ g j hj e. elim (ℕ_discrete j n) [
    | yes at ↦ late g (ground (arith, e, at))
    | no other ↦ v.out_late g j hj (ground (arith, e, other))
  ];
  in_wait = λ j hj e. elim (ℕ_discrete j n) [
    | yes at ↦ absurd (ground (arith, e, at, awake))
    | no other ↦ v.in_wait j hj (ground (arith, e, other))
  ];
  ended = λ j hj. elim (ℕ_discrete j n) [
    | yes at ↦
        let gone_there = subst (λ k. is_gone (workers k).place ≡ true) at (v.ended j hj) in
        absurd (ground (arith, gone_there, here))
    | no other ↦ let e = v.ended j hj in ground (arith, e, other)
  ];
}
