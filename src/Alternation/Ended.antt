-- ===== src/Alternation/Ended.antt =====
-- A5/examples/E1.c: where the processes stop, and what the consumer has printed.
use os_lab_sp.Prelude.{
  ℕ, ◌+◌, ◌*◌, ◌<◌, ◌≤◌, ◌≡◌, refl, true, false, List, Option, none, some, arith, ap, ◌∙◌,
  Bool-cases, inl, inr, length,
}
use os_lab_sp.Alternation.{
  ProducerPlace, ConsumerPlace, Exchange, exchange_init, has_exited, producer_at, consumer_at,
  Partner, the_producer, the_consumer, exchange_step, exchange_all,
}
use os_lab_sp.Alternation.Kept.{
  inside, consuming, has_read, has_stopped, producer_left, consumer_left, numbers_below,
  IsAlternating,
}
use os_lab_sp.Alternation.Kept.{exchange_init-IsAlternating}
use os_lab_sp.Alternation.Steps.{exchange_all-IsAlternating}

consumer_blocked :
    (s : Exchange)
    → consumer_at ConsumerPlace.looping s ≡ none
    → (0 < s.consumer_count) × (s.semid1 ≡ 0)
unfolding consumer_at
consumer_blocked s h = (ground (arith, h), ground (arith, h))

producer_blocked :
    (s : Exchange)
    → producer_at ProducerPlace.looping s ≡ none
    → (s.producer_count ≡ 0 → has_exited s.consumer ≡ false) × (0 < s.producer_count → s.semid2 ≡ 0)
unfolding producer_at
producer_blocked s h = (λ e. ground (arith, h, e), λ e. ground (arith, h, e))

module _ (n : ℕ) (s : Exchange) (v : IsAlternating n s) where
  producer_stops :
      (p : ProducerPlace)
      → s.producer ≡ p
      → consuming s.consumer ≡ 0
      → (has_exited s.consumer ≡ false → (0 < s.consumer_count) × (s.semid1 ≡ 0))
      → producer_at p s ≡ none
      → p ≡ ProducerPlace.ended
  unfolding producer_at
  producer_stops ProducerPlace.looping e free blocked h =
      let (waits, holds) = producer_blocked s h in
      let free_too = ap inside e in
      let turn = v.turn in
      let flow = v.flow in
      elim (Bool-cases (has_exited s.consumer)) [
        | inl gone ↦
            let none_there = v.over gone in
            let runs = waits (omega (arith, none_there, flow)) in
            absurd (ground (arith, gone, runs))
        | inr runs ↦
            let (more, empty) = blocked runs in
            let full = holds (omega (arith, flow, more, empty, free)) in
            absurd (omega (arith, turn, free, free_too, full, empty))
      ]
  producer_stops ProducerPlace.truncating e free blocked h = absurd (ground (arith, h))
  producer_stops ProducerPlace.writing e free blocked h = absurd (ground (arith, h))
  producer_stops ProducerPlace.raising e free blocked h = absurd (ground (arith, h))
  producer_stops ProducerPlace.ended e free blocked h = refl

  consumer_stops :
      (c : ConsumerPlace)
      → s.consumer ≡ c
      → consumer_at c s ≡ none
      → (consuming c ≡ 0) × (has_exited c ≡ false → (0 < s.consumer_count) × (s.semid1 ≡ 0))
  unfolding consumer_at
  consumer_stops ConsumerPlace.looping e h = (refl, λ runs. consumer_blocked s h)
  consumer_stops ConsumerPlace.reading e h = absurd (ground (arith, h))
  consumer_stops ConsumerPlace.raising e h = absurd (ground (arith, h))
  consumer_stops ConsumerPlace.ended e h = (refl, λ runs. absurd (ground (arith, runs)))

  pub both_stop :
      ((a : Partner) → exchange_step a s ≡ none)
      → (s.producer ≡ ProducerPlace.ended) × (has_exited s.consumer ≡ true)
  unfolding exchange_step
  both_stop stuck =
      let (free, blocked) = consumer_stops s.consumer refl (stuck the_consumer) in
      let stopped = producer_stops s.producer refl free blocked (stuck the_producer) in
      (stopped, v.waited (ap has_stopped stopped))

has_read-le : (c : ConsumerPlace) → has_read c ≤ consuming c
has_read-le ConsumerPlace.looping = omega arith
has_read-le ConsumerPlace.reading = omega arith
has_read-le ConsumerPlace.raising = omega arith
has_read-le ConsumerPlace.ended = omega arith

consumer_left_over : (c : ConsumerPlace) (k : ℕ) → has_exited c ≡ true → consumer_left c k ≡ 0
consumer_left_over ConsumerPlace.looping k h = absurd (ground (arith, h))
consumer_left_over ConsumerPlace.reading k h = absurd (ground (arith, h))
consumer_left_over ConsumerPlace.raising k h = absurd (ground (arith, h))
consumer_left_over ConsumerPlace.ended k h = refl

-- Whatever the number of rounds, what the memory and the file held before, and the order of the steps: the
-- consumer has printed the first numbers from 0 on, at most `n` of them, in their order; and when no process
-- has a step, it has printed all numbers below `n`, both processes have ended, and they have taken
-- 7 n + 2 steps together.
pub consumer_reads_all :
    (n garbage : ℕ) (datafile : Option ℕ) (order : List Partner) (s : Exchange)
    → exchange_all order (exchange_init n garbage datafile) ≡ some s
    → ((k : ℕ) × (k ≤ n) × (s.printed ≡ numbers_below k))
      × (length order ≤ 7 * n + 2)
      × (((a : Partner) → exchange_step a s ≡ none)
          → (s.printed ≡ numbers_below n)
            × (s.producer ≡ ProducerPlace.ended)
            × (has_exited s.consumer ≡ true)
            × (length order ≡ 7 * n + 2))
unfolding exchange_init
consumer_reads_all n garbage datafile order s e =
    let (v, steps) =
      exchange_all-IsAlternating n order (exchange_init n garbage datafile) s
        (exchange_init-IsAlternating n garbage datafile) e in
    let (k, size, all) = v.printed_all in
    let le = has_read-le s.consumer in
    let enough = v.reading in
    (
      (k, omega (arith, size, le, enough), all),
      omega (arith, steps),
      λ stuck.
          let (stopped, exited) = both_stop n s v stuck in
          let none_there = v.over exited in
          let same : k ≡ n = omega (arith, size, le, enough, none_there) in
          let left = ap (λ p. producer_left p s.producer_count) stopped in
          let right = consumer_left_over s.consumer s.consumer_count exited in
          (all ∙ ap numbers_below same, stopped, exited, omega (arith, steps, left, right)),
    )
