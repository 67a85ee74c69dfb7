-- ===== src/Alternation/Tests.antt =====
-- A5/examples/E1.c: a run of two rounds.
use os_lab_sp.Prelude.{ℕ, ◌≤◌, ◌≡◌, refl, true, List, [], ◌∷◌, ◌++◌, some, none, length}
use os_lab_sp.Alternation.{
  ProducerPlace, Exchange, exchange_init, has_exited, producer_at, consumer_at, Partner,
  the_producer, the_consumer, exchange_step, exchange_all,
}
use os_lab_sp.Alternation.Kept.{numbers_below}
use os_lab_sp.Alternation.Ended.{consumer_reads_all}

-- A round of both processes.
abbrev round_of_both : List Partner
round_of_both =
    the_producer ∷ the_producer ∷ the_producer ∷ the_producer ∷ the_consumer ∷ the_consumer
    ∷ the_consumer ∷ []

abbrev two_rounds : List Partner
two_rounds = round_of_both ++ round_of_both ++ (the_consumer ∷ the_producer ∷ [])

unfoldable after_rounds : Exchange
unfolding exchange_all exchange_step producer_at consumer_at exchange_init
after_rounds = elim (exchange_all two_rounds (exchange_init 2 99 none)) [
  | none ↦ exchange_init 2 99 none
  | some s ↦ s
]

rounds_run : exchange_all two_rounds (exchange_init 2 99 none) ≡ some after_rounds
unfolding after_rounds exchange_all exchange_step producer_at consumer_at exchange_init
rounds_run = refl

two_printed : after_rounds.printed ≡ 0 ∷ 1 ∷ []
unfolding after_rounds
two_printed = refl

consumer_reads_all_example :
    ((k : ℕ) × (k ≤ 2) × (after_rounds.printed ≡ numbers_below k))
    × (length two_rounds ≤ 16)
    × (((a : Partner) → exchange_step a after_rounds ≡ none)
        → (after_rounds.printed ≡ numbers_below 2)
          × (after_rounds.producer ≡ ProducerPlace.ended)
          × (has_exited after_rounds.consumer ≡ true)
          × (length two_rounds ≡ 16))
consumer_reads_all_example = consumer_reads_all 2 99 none two_rounds after_rounds rounds_run
