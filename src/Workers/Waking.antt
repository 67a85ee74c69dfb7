-- ===== src/Workers/Waking.antt =====
-- A6/examples/E1.c: what a broadcast leaves as it is.
use os_lab_sp.Prelude.{ℕ, zero, suc, ◌+◌, ◌≡◌, refl, false, Option, none, some, arith, ap}
use os_lab_sp.Prelude.Family.{sum_below}
use os_lab_sp.Workers.{
  WorkerPlace, is_pausing, checking, drawing, counting, pausing, leaving, gone, Worker, Pool,
  wake_place, wake, is_gone,
}
use os_lab_sp.Workers.Kept.{bit, is_down, is_counting, down, made}

abbrev pub Next : (Pool → Type 0) → Option Pool → Type 0
Next P none = Unit
Next P (some s) = P s

-- A broadcast changes neither who is past the test nor what a worker has made.
pub down-wake : (w : Worker) → down (wake w) ≡ down w
down-wake w = go w.place
  where
    go : (p : WorkerPlace) → bit (is_down (wake_place p)) ≡ bit (is_down p)
    go checking = refl
    go drawing = refl
    go counting = refl
    go pausing = refl
    go leaving = refl
    go gone = refl

pub made-wake : (w : Worker) → made (wake w) ≡ made w
made-wake w = ap (λ b. w.count + b) (go w.place)
  where
    go : (p : WorkerPlace) → bit (is_counting (wake_place p)) ≡ bit (is_counting p)
    go checking = refl
    go drawing = refl
    go counting = refl
    go pausing = refl
    go leaving = refl
    go gone = refl

pub is_gone-wake : (p : WorkerPlace) → is_gone (wake_place p) ≡ is_gone p
is_gone-wake checking = refl
is_gone-wake drawing = refl
is_gone-wake counting = refl
is_gone-wake pausing = refl
is_gone-wake leaving = refl
is_gone-wake gone = refl

pub awake_now : (p : WorkerPlace) → is_pausing (wake_place p) ≡ false
awake_now checking = refl
awake_now drawing = refl
awake_now counting = refl
awake_now pausing = refl
awake_now leaving = refl
awake_now gone = refl

pub sum_below-congr :
    (weight : Worker → ℕ) (n : ℕ) (f g : ℕ → Worker)
    → ((j : ℕ) → weight (g j) ≡ weight (f j))
    → sum_below weight n g ≡ sum_below weight n f
unfolding sum_below
sum_below-congr weight zero f g h = refl
sum_below-congr weight (suc n) f g h =
    let rest = sum_below-congr weight n f g h in let here = h n in omega (arith, rest, here)
