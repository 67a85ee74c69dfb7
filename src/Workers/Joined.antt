-- ===== src/Workers/Joined.antt =====
-- A6/examples/E1.c: how the threads wind up.
use os_lab_sp.Prelude.{
  ℕ, zero, suc, ◌+◌, ◌%◌, ◌<◌, ◌≤◌, ◌≡◌, refl, Bool, true, false, none, ltb, if◌then◌else◌, arith,
  ap, sym, ◌∙◌, subst, ℕ_discrete, Bool-cases, inl, inr, dec_lt,
}
use os_lab_sp.Prelude.Family.{sum_below}
use os_lab_sp.Workers.{
  WorkerPlace, checking, drawing, counting, pausing, leaving, gone, Worker, Master, sleeping,
  joining, Pool, worker_at, is_gone, master_at, Runner, the_master, a_worker, is_wakeup, is_pausing,
  run_next, Ran,
}
use os_lab_sp.Workers.Values.{changed, changed-le}
use os_lab_sp.Workers.Kept.{
  bit, is_down, is_out, is_counting, down, made, itself, joined_count, IsKept,
}
use os_lab_sp.Workers.Always.{Ran-IsKept}

bit-le : (b : Bool) → bit b ≤ 1
bit-le true = omega arith
bit-le false = omega arith

bit_one : (b : Bool) → 1 ≤ bit b → b ≡ true
bit_one true h = refl
bit_one false h = absurd (omega (arith, h))

abbrev pub written : Worker → ℕ
written w = w.count

sum_below-same :
    (weight other : Worker → ℕ) (n : ℕ) (f : ℕ → Worker)
    → ((j : ℕ) → j < n → weight (f j) ≡ other (f j))
    → sum_below weight n f ≡ sum_below other n f
unfolding sum_below
sum_below-same weight other zero f h = refl
sum_below-same weight other (suc n) f h =
    let rest = sum_below-same weight other n f (λ j hj. h j (omega (arith, hj))) in
    let here = h n (omega arith) in omega (arith, rest, here)

abbrev one : Worker → ℕ
one w = 1

sum_below-one : (n : ℕ) (f : ℕ → Worker) → sum_below one n f ≡ n
unfolding sum_below
sum_below-one zero f = refl
sum_below-one (suc n) f = let rest = sum_below-one n f in omega (arith, rest)

sum_below-most : (n : ℕ) (f : ℕ → Worker) → sum_below down n f ≤ n
unfolding sum_below
sum_below-most zero f = omega arith
sum_below-most (suc n) f =
    let rest = sum_below-most n f in
    let here = bit-le (is_down (f n).place) in omega (arith, rest, here)

sum_below-full :
    (n : ℕ) (f : ℕ → Worker) → n ≤ sum_below down n f → (j : ℕ) → j < n → is_down (f j).place ≡ true
unfolding sum_below
sum_below-full zero f h j hj = absurd (omega (arith, hj))
sum_below-full (suc n) f h j hj =
    let most = sum_below-most n f in
    let here = bit-le (is_down (f n).place) in
    elim (ℕ_discrete j n) [
      | yes last ↦
          subst (λ k. is_down (f k).place ≡ true) (sym last)
            (bit_one (is_down (f n).place) (omega (arith, h, most)))
      | no inside ↦ sum_below-full n f (omega (arith, h, here)) j (omega (arith, hj, inside))
    ]

out_places : (p : WorkerPlace) → is_down p ≡ true → is_pausing p ≡ false → is_out p ≡ true
out_places checking d h = d
out_places drawing d h = d
out_places counting d h = d
out_places pausing d h = sym h
out_places leaving d h = refl
out_places gone d h = refl

gone_place : (p : WorkerPlace) → is_gone p ≡ true → p ≡ gone
gone_place checking e = absurd (ground (arith, e))
gone_place drawing e = absurd (ground (arith, e))
gone_place counting e = absurd (ground (arith, e))
gone_place pausing e = absurd (ground (arith, e))
gone_place leaving e = absurd (ground (arith, e))
gone_place gone e = refl

-- In every state that the threads reach, if pthread_cond_wait returns only after a broadcast: once any
-- worker is past its wait or its broadcast, mdone is set, wdone is 4, and all workers are past them.
pub leave_together :
    (rand : ℕ → ℕ) (s : Pool) (j : ℕ)
    → Ran true rand s
    → j < 4
    → is_out (s.workers j).place ≡ true
    → (s.mdone ≡ true) × (s.wdone ≡ 4) × ((k : ℕ) → k < 4 → is_out (s.workers k).place ≡ true)
leave_together rand s j r hj out =
    let v = Ran-IsKept true rand s r in
    let late = v.wind.out_late refl j hj out in
    let count = v.wind.counted in
    let all = sum_below-full 4 s.workers (omega (arith, late, count)) in
    let most = sum_below-most 4 s.workers in
    (
      elim (Bool-cases s.mdone) [
        | inl stopped ↦ stopped
        | inr runs ↦ let nobody = v.early runs in absurd (omega (arith, nobody, late))
      ],
      omega (arith, late, count, most),
      λ k hk. elim (Bool-cases (is_pausing (s.workers k).place)) [
        | inl waits ↦ let early = v.wind.in_wait k hk waits in absurd (omega (arith, early, late))
        | inr awake ↦ out_places (s.workers k).place (all k hk) awake
      ],
    )

-- A worker without a step sleeps or has ended.
stuck_place :
    (p : WorkerPlace) (n : ℕ) (s : Pool)
    → worker_at p n 0 s ≡ none
    → (is_down p ≡ true) × (is_gone p ≡ false → is_pausing p ≡ true)
unfolding worker_at
stuck_place checking n s e = absurd (ground (arith, e))
stuck_place drawing n s e = absurd (ground (arith, e))
stuck_place counting n s e = absurd (ground (arith, e))
stuck_place pausing n s e = (refl, λ h. refl)
stuck_place leaving n s e = absurd (ground (arith, e))
stuck_place gone n s e = (refl, λ h. sym h)

module _ (rand : ℕ → ℕ) (s : Pool) (v : IsKept false rand s)
    (stuck : (x : Runner) → is_wakeup x ≡ false → run_next x s ≡ none) where
  worker_stuck : (j : ℕ) → j < 4 → worker_at (s.workers j).place j 0 s ≡ none
  unfolding run_next
  worker_stuck j hj =
      let inside : ltb j 4 ≡ true = ground (arith, hj) in
      ap (λ b. if b then worker_at (s.workers j).place j 0 s else none) (sym inside)
      ∙ stuck (a_worker j 0) refl

  all_down : 4 ≤ s.wdone
  all_down =
      let count = v.wind.counted in
      let same =
        sum_below-same down one 4 s.workers
          (λ j hj. ap bit (stuck_place (s.workers j).place j s (worker_stuck j hj)).0) in
      let four = sum_below-one 4 s.workers in omega (arith, count, same, four)

  none_left : (m : Master) → s.master ≡ m → master_at m s ≡ none → m ≡ joining 4
  unfolding master_at
  none_left sleeping e h = absurd (ground (arith, h))
  none_left (joining i) e h = elim (dec_lt i 4) [
    | no ge ↦
        let known = ap joined_count e in
        let most = v.joined in ap joining (omega (arith, ge, known, most))
    | yes lt ↦
        let stays : is_gone (s.workers i).place ≡ false = ground (arith, lt, h) in
        let waits = (stuck_place (s.workers i).place i s (worker_stuck i lt)).1 stays in
        let early = v.wind.in_wait i lt waits in absurd (omega (arith, early, all_down))
  ]

  pub master_ends : s.master ≡ joining 4
  unfolding run_next
  master_ends = none_left s.master refl (stuck the_master refl)

-- In every state that the threads reach, also when pthread_cond_wait returns without a broadcast: if no
-- thread has a step, other than such a return, the master has joined all workers. Once it has, all
-- workers have ended, wdone is 4, the changes that the array C counts are as many as the workers have
-- counted together, and each entry of A is its first value after the changes that C counts for it, and
-- lies between 1 and 52.
pub workers_end :
    (rand : ℕ → ℕ) (s : Pool)
    → Ran false rand s
    → (((x : Runner) → is_wakeup x ≡ false → run_next x s ≡ none) → s.master ≡ joining 4)
      × (s.master ≡ joining 4
          → ((j : ℕ) → j < 4 → (s.workers j).place ≡ gone)
            × (s.wdone ≡ 4)
            × (sum_below itself 5 s.c ≡ sum_below written 4 s.workers)
            × ((i : ℕ) → (s.a i ≡ changed (s.c i) (1 + rand i % 10)) × (1 ≤ s.a i) × (s.a i ≤ 52)))
workers_end rand s r =
    let v = Ran-IsKept false rand s r in
    (
      λ stuck. master_ends rand s v stuck,
      λ done.
          let known = ap joined_count done in
          let over : (j : ℕ) → j < 4 → (s.workers j).place ≡ gone =
            λ j hj. gone_place (s.workers j).place (v.wind.ended j (omega (arith, hj, known))) in
          let count = v.wind.counted in
          let same_down =
            sum_below-same down one 4 s.workers (λ j hj. ap (λ p. bit (is_down p)) (over j hj)) in
          let four = sum_below-one 4 s.workers in
          let same_made =
            sum_below-same made written 4 s.workers (λ j hj.
              let flat = ap (λ p. bit (is_counting p)) (over j hj) in omega (arith, flat)) in
          (
            over,
            omega (arith, count, same_down, four),
            v.total ∙ same_made,
            λ i.
                let (low, high) = changed-le (s.c i) (rand i) in
                let value = v.iterates i in
                (value, omega (arith, low, value), omega (arith, high, value)),
          ),
    )
