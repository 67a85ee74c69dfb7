-- ===== src/Alternation/Kept.antt =====
-- A5/examples/E1.c: what every step keeps.
use os_lab_sp.Prelude.{
  ℕ, zero, suc, ◌+◌, ◌-◌, ◌*◌, ◌≤◌, ◌≡◌, refl, Bool, true, false, List, [], ◌∷◌, ◌++◌, Option, none,
  some, arith,
}
use os_lab_sp.Alternation.{ProducerPlace, ConsumerPlace, Exchange, exchange_init, has_exited}

-- In a critical section; before V(semid1).
abbrev pub inside : ProducerPlace → ℕ
inside ProducerPlace.truncating = 1
inside ProducerPlace.writing = 1
inside ProducerPlace.raising = 1
inside p = 0

abbrev pub has_written : ProducerPlace → ℕ
has_written ProducerPlace.raising = 1
has_written p = 0

-- In a critical section; before and after fscanf.
abbrev pub consuming : ConsumerPlace → ℕ
consuming ConsumerPlace.reading = 1
consuming ConsumerPlace.raising = 1
consuming p = 0

abbrev pub may_read : ConsumerPlace → ℕ
may_read ConsumerPlace.reading = 1
may_read p = 0

abbrev pub has_read : ConsumerPlace → ℕ
has_read ConsumerPlace.raising = 1
has_read p = 0

abbrev pub has_stopped : ProducerPlace → Bool
has_stopped ProducerPlace.ended = true
has_stopped p = false

-- The steps that are left.
abbrev pub producer_left : ProducerPlace → ℕ → ℕ
producer_left ProducerPlace.looping k = 4 * k + 1
producer_left ProducerPlace.truncating k = 4 * k
producer_left ProducerPlace.writing k = 4 * k - 1
producer_left ProducerPlace.raising k = 4 * k - 2
producer_left ProducerPlace.ended k = 0

abbrev pub consumer_left : ConsumerPlace → ℕ → ℕ
consumer_left ConsumerPlace.looping k = 3 * k + 1
consumer_left ConsumerPlace.reading k = 3 * k
consumer_left ConsumerPlace.raising k = 3 * k - 1
consumer_left ConsumerPlace.ended k = 0

abbrev pub steps_left : Exchange → ℕ
steps_left s = producer_left s.producer s.producer_count + consumer_left s.consumer s.consumer_count

-- The numbers below `k`, in order.
abbrev pub numbers_below : ℕ → List ℕ
numbers_below zero = []
numbers_below (suc k) = numbers_below k ++ k ∷ []

pub record IsAlternating (n : ℕ) (s : Exchange) : Type 0 where
  pub turn : s.semid1 + s.semid2 + inside s.producer + consuming s.consumer ≡ 1
  pub producing : inside s.producer ≤ s.producer_count
  pub reading : consuming s.consumer ≤ s.consumer_count
  pub written : s.data_next + s.producer_count ≡ n + has_written s.producer
  pub flow : s.consumer_count ≡ s.producer_count + s.semid1 + consuming s.consumer
  pub file :
      1 ≤ s.semid1 + may_read s.consumer + has_written s.producer
      → s.datafile ≡ some (s.data_next - 1)
  pub printed_all :
      (k : ℕ) × (k + s.consumer_count ≡ n + has_read s.consumer) × (s.printed ≡ numbers_below k)
  pub over : has_exited s.consumer ≡ true → s.consumer_count ≡ 0
  pub waited : has_stopped s.producer ≡ true → has_exited s.consumer ≡ true

-- The state after a step, with one step less to go.
abbrev pub Onward : ℕ → Exchange → Option Exchange → Type 0
Onward n s none = Unit
Onward n s (some t) = IsAlternating n t × (steps_left t + 1 ≡ steps_left s)

pub exchange_init-IsAlternating :
    (n garbage : ℕ) (datafile : Option ℕ) → IsAlternating n (exchange_init n garbage datafile)
unfolding exchange_init
exchange_init-IsAlternating n garbage datafile = record {
  turn = refl;
  producing = omega arith;
  reading = omega arith;
  written = omega arith;
  flow = omega arith;
  file = λ h. absurd (omega (arith, h));
  printed_all = (0, omega arith, refl);
  over = λ h. absurd (ground (arith, h));
  waited = λ h. absurd (ground (arith, h));
}
