-- ===== src/Workers/Values.antt =====
-- A6/examples/E1.c: the values of the entries.
use os_lab_sp.Prelude.{
  ℕ, zero, suc, ◌+◌, ◌%◌, ◌<◌, ◌≤◌, ◌≡◌, refl, Bool, true, List, [], ◌∷◌, leb, ◌==◌, ◌&&◌, arith,
}
use native.Mathlib.Nat.{mod-lt}
use os_lab_sp.Prelude.Explore.{Reach, begin, on, here, Reach-all, elem, all, is_closed}
use os_lab_sp.Workers.{new_value}

-- The value after `k` changes.
unfoldable pub changed : ℕ → ℕ → ℕ
changed zero x = x
changed (suc k) x = new_value (changed k x)

abbrev next_values : ℕ → List ℕ
next_values x = new_value x ∷ []

abbrev same_value : ℕ → ℕ → Bool
same_value x y = x == y

-- All values that are reached from 1 to 10.
abbrev values : List ℕ
values =
    1 ∷ 2 ∷ 3 ∷ 4 ∷ 5 ∷ 6 ∷ 7 ∷ 8 ∷ 9 ∷ 10 ∷ 11 ∷ 13 ∷ 14 ∷ 16 ∷ 17 ∷ 20 ∷ 22 ∷ 26 ∷ 28 ∷ 34 ∷ 40
    ∷ 52 ∷ []

values_closed : is_closed same_value next_values values ≡ true
unfolding is_closed all elem new_value
values_closed = refl

abbrev is_small : ℕ → Bool
is_small x = leb 1 x && leb x 52

values_small : all same_value next_values is_small values ≡ true
unfolding all
values_small = refl

start_value : (r : ℕ) → r < 10 → elem same_value next_values (1 + r) values ≡ true
unfolding elem
start_value r h = ground (arith, h)

changed-Reach : (k x : ℕ) → Reach same_value next_values x (changed k x)
unfolding changed
changed-Reach zero x = begin
changed-Reach (suc k) x = on (changed-Reach k x) here

pub changed-le : (k r : ℕ) → (1 ≤ changed k (1 + r % 10)) × (changed k (1 + r % 10) ≤ 52)
changed-le k r =
    let start = start_value (r % 10) (mod-lt r {m = 10} (omega arith)) in
    let small =
      Reach-all same_value next_values (λ x y e. ground (arith, e)) is_small (1 + r % 10)
        (changed k (1 + r % 10)) values start values_closed values_small
        (changed-Reach k (1 + r % 10)) in
    (ground (arith, small), ground (arith, small))
