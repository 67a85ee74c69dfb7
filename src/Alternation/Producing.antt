-- ===== src/Alternation/Producing.antt =====
-- A5/examples/E1.c: the steps of the producer, one place at a time.
use os_lab_sp.Prelude.{ℕ, ◌<◌, ◌≤◌, ◌≡◌, some, ◌==◌, arith, ap, by_test}
use os_lab_sp.Alternation.{ProducerPlace, ConsumerPlace, Exchange, has_exited, producer_at}
use os_lab_sp.Alternation.Kept.{
  inside, has_written, consuming, may_read, producer_left, IsAlternating, Onward,
}

may_read-le : (c : ConsumerPlace) → may_read c ≤ consuming c
may_read-le ConsumerPlace.looping = omega arith
may_read-le ConsumerPlace.reading = omega arith
may_read-le ConsumerPlace.raising = omega arith
may_read-le ConsumerPlace.ended = omega arith

module _ (n : ℕ) (s : Exchange) (v : IsAlternating n s) where
  looping_producer-Onward :
      s.producer ≡ ProducerPlace.looping → Onward n s (producer_at ProducerPlace.looping s)
  unfolding producer_at
  looping_producer-Onward e =
      let free = ap inside e in
      let unwritten = ap has_written e in
      let left = ap (λ p. producer_left p s.producer_count) e in
      let turn = v.turn in
      by_test (Onward n s) (s.producer_count == 0)
        (λ none_left.
          by_test (Onward n s) (has_exited s.consumer)
            (λ exited. (
              record {
                turn = omega (arith, turn, free);
                producing = omega arith;
                reading = v.reading;
                written = let w = v.written in omega (arith, w, unwritten);
                flow = v.flow;
                file = λ h. v.file (omega (arith, h));
                printed_all = v.printed_all;
                over = v.over;
                waited = λ h. exited;
              },
              (let none_there : s.producer_count ≡ 0 = ground (arith, none_left) in
                  omega (arith, left, none_there)),
            ))
            (λ waits. tt))
        (λ more.
          by_test (Onward n s) (s.semid2 == 0) (λ blocked. tt)
            (λ goes.
              let room : 0 < s.semid2 = ground (arith, goes) in
              let some_left : 0 < s.producer_count = ground (arith, more) in
              (
                record {
                  turn = omega (arith, turn, free, room);
                  producing = omega (arith, some_left);
                  reading = v.reading;
                  written = let w = v.written in omega (arith, w, unwritten);
                  flow = v.flow;
                  file = λ h. v.file (omega (arith, h));
                  printed_all = v.printed_all;
                  over = v.over;
                  waited = λ h. absurd (ground (arith, h));
                },
                omega (arith, left, some_left),
              )))

  truncating_producer-Onward :
      s.producer ≡ ProducerPlace.truncating → Onward n s (producer_at ProducerPlace.truncating s)
  unfolding producer_at
  truncating_producer-Onward e =
      let busy = ap inside e in
      let unwritten = ap has_written e in
      let left = ap (λ p. producer_left p s.producer_count) e in
      let turn = v.turn in
      let some_left = v.producing in
      (
        record {
          turn = omega (arith, turn, busy);
          producing = omega (arith, some_left, busy);
          reading = v.reading;
          written = let w = v.written in omega (arith, w, unwritten);
          flow = v.flow;
          file = λ h. let le = may_read-le s.consumer in absurd (omega (arith, h, le, turn, busy));
          printed_all = v.printed_all;
          over = v.over;
          waited = λ h. absurd (ground (arith, h));
        },
        omega (arith, left, some_left, busy),
      )

  writing_producer-Onward :
      s.producer ≡ ProducerPlace.writing → Onward n s (producer_at ProducerPlace.writing s)
  unfolding producer_at
  writing_producer-Onward e =
      let busy = ap inside e in
      let unwritten = ap has_written e in
      let left = ap (λ p. producer_left p s.producer_count) e in
      let turn = v.turn in
      let some_left = v.producing in
      (
        record {
          turn = omega (arith, turn, busy);
          producing = omega (arith, some_left, busy);
          reading = v.reading;
          written = let w = v.written in omega (arith, w, unwritten);
          flow = v.flow;
          file = λ h. ap some (omega arith);
          printed_all = v.printed_all;
          over = v.over;
          waited = λ h. absurd (ground (arith, h));
        },
        omega (arith, left, some_left, busy),
      )

  raising_producer-Onward :
      s.producer ≡ ProducerPlace.raising → Onward n s (producer_at ProducerPlace.raising s)
  unfolding producer_at
  raising_producer-Onward e =
      let busy = ap inside e in
      let has = ap has_written e in
      let left = ap (λ p. producer_left p s.producer_count) e in
      let turn = v.turn in
      let some_left = v.producing in
      (
        record {
          turn = omega (arith, turn, busy);
          producing = omega arith;
          reading = let r = v.reading in let f = v.flow in omega (arith, r);
          written = let w = v.written in omega (arith, w, has, some_left, busy);
          flow = let f = v.flow in omega (arith, f, some_left, busy);
          file = λ h. v.file (omega (arith, has));
          printed_all = v.printed_all;
          over = v.over;
          waited = λ h. absurd (ground (arith, h));
        },
        omega (arith, left, some_left, busy),
      )

  pub producer_at-Onward : (p : ProducerPlace) → s.producer ≡ p → Onward n s (producer_at p s)
  unfolding producer_at
  producer_at-Onward ProducerPlace.looping e = looping_producer-Onward e
  producer_at-Onward ProducerPlace.truncating e = truncating_producer-Onward e
  producer_at-Onward ProducerPlace.writing e = writing_producer-Onward e
  producer_at-Onward ProducerPlace.raising e = raising_producer-Onward e
  producer_at-Onward ProducerPlace.ended e = tt
