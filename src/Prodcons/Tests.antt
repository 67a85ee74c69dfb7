-- ===== src/Prodcons/Tests.antt =====
-- A4/prodcons_21CS30009.c: one order, for consumer 2.
use os_lab_sp.Prelude.{ℕ, ◌≡◌, refl, List, [], ◌∷◌, none, some}
use os_lab_sp.Prodcons.{
  Market, closed, market_init, the_producer, consumer, Actor, act, act_all, produce, consume,
}
use os_lab_sp.Prodcons.Balance.{Stepped, items_agree}
use os_lab_sp.Prodcons.Checksum.{too_early, checksum_wrong}

abbrev orders : List (ℕ × ℕ)
orders = (500, 2) ∷ []

-- The item is written before the consumer looks.
abbrev in_time : List Actor
in_time = the_producer ∷ the_producer ∷ consumer 2 ∷ consumer 2 ∷ consumer 2 ∷ the_producer ∷ []

abbrev run_all : List Actor → Market
unfolding act_all act produce consume market_init
run_all actors = elim (act_all actors (market_init 0 orders)) [
  | none ↦ market_init 0 []
  | some s ↦ s
]

in_time_run :
    Stepped
      (λ s. ((s.consumers 2).checksum ≡ 500) × (s.m0 ≡ closed))
      (act_all in_time (market_init 0 orders))
unfolding act_all act produce consume market_init
in_time_run = (refl, refl)

items_agree_example : ((run_all in_time).consumers 2).itemc ≡ (run_all in_time).cons_itemc 2
unfolding run_all act_all act produce consume market_init
items_agree_example = items_agree 0 orders in_time (run_all in_time) refl refl 2

wrong_for_two :
    (s : Market) × (act_all (too_early 2) (market_init 7 ((500, 2) ∷ [])) ≡ some s)
    × (s.m0 ≡ closed)
    × ((s.consumers 2).checksum ≡ 7)
    × (s.cons_checksum 2 ≡ 500)
wrong_for_two = checksum_wrong 7 500 2
