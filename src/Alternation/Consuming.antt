-- ===== src/Alternation/Consuming.antt =====
-- A5/examples/E1.c: the steps of the consumer, one place at a time.
use os_lab_sp.Prelude.{
  ℕ, suc, ◌-◌, ◌<◌, ◌≤◌, ◌≡◌, refl, [], ◌∷◌, ◌++◌, ◌==◌, arith, ap, ◌∙◌, by_test,
}
use os_lab_sp.Alternation.{ProducerPlace, ConsumerPlace, Exchange, has_exited, scanned, consumer_at}
use os_lab_sp.Alternation.Kept.{
  inside, has_written, consuming, may_read, has_read, consumer_left, numbers_below, IsAlternating,
  Onward,
}

has_written-le : (p : ProducerPlace) → has_written p ≤ inside p
has_written-le ProducerPlace.looping = omega arith
has_written-le ProducerPlace.truncating = omega arith
has_written-le ProducerPlace.writing = omega arith
has_written-le ProducerPlace.raising = omega arith
has_written-le ProducerPlace.ended = omega arith

module _ (n : ℕ) (s : Exchange) (v : IsAlternating n s) where
  looping_consumer-Onward :
      s.consumer ≡ ConsumerPlace.looping → Onward n s (consumer_at ConsumerPlace.looping s)
  unfolding consumer_at
  looping_consumer-Onward e =
      let free = ap consuming e in
      let unread = ap has_read e in
      let left = ap (λ p. consumer_left p s.consumer_count) e in
      let running = ap has_exited e in
      let turn = v.turn in
      let (k, size, all) = v.printed_all in
      by_test (Onward n s) (s.consumer_count == 0)
        (λ none_left.
          let none_there : s.consumer_count ≡ 0 = ground (arith, none_left) in
          (
            record {
              turn = omega (arith, turn, free);
              producing = v.producing;
              reading = omega arith;
              written = v.written;
              flow = let f = v.flow in omega (arith, f, free);
              file = λ h. v.file (omega (arith, h));
              printed_all = (k, omega (arith, size, unread), all);
              over = λ h. none_there;
              waited = λ h. refl;
            },
            omega (arith, left, none_there),
          ))
        (λ more.
          by_test (Onward n s) (s.semid1 == 0) (λ blocked. tt)
            (λ goes.
              let room : 0 < s.semid1 = ground (arith, goes) in
              let some_left : 0 < s.consumer_count = ground (arith, more) in
              (
                record {
                  turn = omega (arith, turn, free, room);
                  producing = v.producing;
                  reading = omega (arith, some_left);
                  written = v.written;
                  flow = let f = v.flow in omega (arith, f, free, room);
                  file = λ h. v.file (omega (arith, room));
                  printed_all = (k, omega (arith, size, unread), all);
                  over = λ h. absurd (ground (arith, h));
                  waited = λ h. let w = v.waited h in absurd (ground (arith, w, running));
                },
                omega (arith, left, some_left),
              )))

  reading_consumer-Onward :
      s.consumer ≡ ConsumerPlace.reading → Onward n s (consumer_at ConsumerPlace.reading s)
  unfolding consumer_at
  reading_consumer-Onward e =
      let busy = ap consuming e in
      let unread = ap has_read e in
      let may = ap may_read e in
      let left = ap (λ p. consumer_left p s.consumer_count) e in
      let running = ap has_exited e in
      let turn = v.turn in
      let some_left = v.reading in
      let (k, size, all) = v.printed_all in
      let number : scanned s.data_read s.datafile ≡ s.data_next - 1 =
        ap (scanned s.data_read) (v.file (omega (arith, may))) in
      let same : s.data_next - 1 ≡ k =
        let w = v.written in
        let f = v.flow in
        let le = has_written-le s.producer in omega (arith, size, unread, w, f, turn, busy, le) in
      (
        record {
          turn = omega (arith, turn, busy);
          producing = v.producing;
          reading = omega (arith, some_left, busy);
          written = v.written;
          flow = let f = v.flow in omega (arith, f, busy);
          file = λ h. v.file (omega (arith, may));
          printed_all = (
            suc k,
            omega (arith, size, unread),
            ap (λ l. l ++ scanned s.data_read s.datafile ∷ []) all
                ∙ ap (λ x. numbers_below k ++ x ∷ []) (number ∙ same),
          );
          over = λ h. absurd (ground (arith, h));
          waited = λ h. let w = v.waited h in absurd (ground (arith, w, running));
        },
        omega (arith, left, some_left, busy),
      )

  raising_consumer-Onward :
      s.consumer ≡ ConsumerPlace.raising → Onward n s (consumer_at ConsumerPlace.raising s)
  unfolding consumer_at
  raising_consumer-Onward e =
      let busy = ap consuming e in
      let read = ap has_read e in
      let left = ap (λ p. consumer_left p s.consumer_count) e in
      let running = ap has_exited e in
      let turn = v.turn in
      let some_left = v.reading in
      let (k, size, all) = v.printed_all in
      (
        record {
          turn = omega (arith, turn, busy);
          producing = v.producing;
          reading = omega arith;
          written = v.written;
          flow = let f = v.flow in omega (arith, f, busy, some_left);
          file = λ h. v.file (omega (arith, h));
          printed_all = (k, omega (arith, size, read, some_left, busy), all);
          over = λ h. absurd (ground (arith, h));
          waited = λ h. let w = v.waited h in absurd (ground (arith, w, running));
        },
        omega (arith, left, some_left, busy),
      )

  pub consumer_at-Onward : (p : ConsumerPlace) → s.consumer ≡ p → Onward n s (consumer_at p s)
  unfolding consumer_at
  consumer_at-Onward ConsumerPlace.looping e = looping_consumer-Onward e
  consumer_at-Onward ConsumerPlace.reading e = reading_consumer-Onward e
  consumer_at-Onward ConsumerPlace.raising e = raising_consumer-Onward e
  consumer_at-Onward ConsumerPlace.ended e = tt
