-- ===== src/Alternation.antt =====
-- A5/examples/E1.c: a producer and a consumer that take turns by two semaphores. The opening of the file,
-- which empties it, and the writing of its number are steps of their own. `n` is the number of rounds, 50
-- in the source.
pub mod Kept
pub mod Producing
pub mod Consuming
pub mod Steps
pub mod Ended
mod Tests
use os_lab_sp.Prelude.{
  ℕ, zero, suc, ◌+◌, ◌-◌, ◌*◌, Bool, true, false, List, [], ◌∷◌, ◌++◌, Option, none, some, ◌==◌,
  if◌then◌else◌, ◌>>=◌,
}

-- At the test of count; before fopen, before the number is in the file, before V(semid1); behind wait.
pub data ProducerPlace : Type 0 where
  looping truncating writing raising ended : ProducerPlace

-- At the test of count; before fscanf; before V(semid2); at the end.
pub data ConsumerPlace : Type 0 where
  looping reading raising ended : ConsumerPlace

pub record Exchange : Type 0 where
  pub semid1 : ℕ
  pub semid2 : ℕ
  pub datafile : Option ℕ
  pub producer : ProducerPlace
  pub producer_count : ℕ
  pub data_next : ℕ
  pub consumer : ConsumerPlace
  pub consumer_count : ℕ
  pub data_read : ℕ
  pub printed : List ℕ  -- by the consumer

-- From what the memory and the file held before.
unfoldable pub exchange_init : ℕ → ℕ → Option ℕ → Exchange
exchange_init n garbage datafile = record {
  semid1 = 0;
  semid2 = 1;
  datafile = datafile;
  producer = ProducerPlace.looping;
  producer_count = n;
  data_next = 0;
  consumer = ConsumerPlace.looping;
  consumer_count = n;
  data_read = garbage;
  printed = [];
}

abbrev pub has_exited : ConsumerPlace → Bool
has_exited ConsumerPlace.ended = true
has_exited p = false

unfoldable pub producer_at : ProducerPlace → Exchange → Option Exchange
producer_at ProducerPlace.looping s =
    if s.producer_count == 0
    then (if has_exited s.consumer
        then some (record s { producer = ProducerPlace.ended })
        else none)
    else if s.semid2 == 0
    then none
    else some (record s { producer = ProducerPlace.truncating; semid2 = s.semid2 - 1 })
producer_at ProducerPlace.truncating s =
    some (record s { producer = ProducerPlace.writing; datafile = none })
producer_at ProducerPlace.writing s = some (record s {
  producer = ProducerPlace.raising;
  datafile = some s.data_next;
  data_next = s.data_next + 1;
})
producer_at ProducerPlace.raising s = some (record s {
  producer = ProducerPlace.looping;
  semid1 = s.semid1 + 1;
  producer_count = s.producer_count - 1;
})
producer_at ProducerPlace.ended s = none

-- fscanf leaves the variable as it is when the file is empty.
abbrev pub scanned : ℕ → Option ℕ → ℕ
scanned old none = old
scanned old (some x) = x

unfoldable pub consumer_at : ConsumerPlace → Exchange → Option Exchange
consumer_at ConsumerPlace.looping s =
    if s.consumer_count == 0
    then some (record s { consumer = ConsumerPlace.ended })
    else if s.semid1 == 0
    then none
    else some (record s { consumer = ConsumerPlace.reading; semid1 = s.semid1 - 1 })
consumer_at ConsumerPlace.reading s =
    let x = scanned s.data_read s.datafile in
    some
      (record s { consumer = ConsumerPlace.raising; data_read = x; printed = s.printed ++ x ∷ [] })
consumer_at ConsumerPlace.raising s = some (record s {
  consumer = ConsumerPlace.looping;
  semid2 = s.semid2 + 1;
  consumer_count = s.consumer_count - 1;
})
consumer_at ConsumerPlace.ended s = none

pub data Partner : Type 0 where
  the_producer the_consumer : Partner

unfoldable pub exchange_step : Partner → Exchange → Option Exchange
unfolding producer_at consumer_at
exchange_step the_producer s = producer_at s.producer s
exchange_step the_consumer s = consumer_at s.consumer s

-- The processes in a given order, or none when one of them has no step at its turn.
unfoldable pub exchange_all : List Partner → Exchange → Option Exchange
unfolding exchange_step
exchange_all [] s = some s
exchange_all (a ∷ order) s = exchange_step a s >>= exchange_all order
