-- ===== src/Threads/Barrier.antt =====
-- A7/foothread.c: the barrier lets the threads through in full rounds.
use os_lab_sp.Prelude.{
  ℕ, ◌+◌, ◌*◌, ◌<◌, ◌≡◌, ◌≢◌, refl, Option, none, some, ◌==◌, arith, Bool-cases, inl, inr, subst,
}
use os_lab_sp.Threads.{BarrierState, barrier_init, BarrierStep, arrive_at, pass, barrier_step}

-- The states of a barrier for `n` threads.
pub data Visited (n : ℕ) : BarrierState → Type 0 where
  fresh : Visited n (barrier_init n)
  then_step :
      {s t : BarrierState} (a : BarrierStep) → Visited n s → barrier_step a s ≡ some t → Visited n t

-- After `rounds` full rounds: the calls that returned, or that a token lets through, are those of the
-- full rounds. The calls of the round that is not full wait.
pub record InRounds (n : ℕ) (s : BarrierState) : Type 0 where
  pub trip : s.trip_count ≡ n
  pub partial : s.count < n
  pub rounds : ℕ
  pub through : s.passed + s.tokens ≡ n * rounds
  pub calls : s.arrived ≡ n * rounds + s.count
  pub queue : s.waiting ≡ s.tokens + s.count

abbrev After : (BarrierState → Type 0) → Option BarrierState → Type 0
After P none = Unit
After P (some s) = P s

pub next_multiple : (n k : ℕ) → n * (k + 1) ≡ n * k + n
next_multiple n k = omega arith

barrier_step-InRounds :
    (n : ℕ) (a : BarrierStep) (s : BarrierState)
    → InRounds n s
    → After (InRounds n) (barrier_step a s)
unfolding barrier_step
barrier_step-InRounds n arrive_at s v = elim (Bool-cases (s.count + 1 == s.trip_count)) [
  | inl last ↦ rw last (record {
    trip = v.trip;
    partial = ground (arith, v.partial);
    rounds = v.rounds + 1;
    through = ground (arith, v.through, v.trip, next_multiple n v.rounds);
    calls = ground (arith, v.calls, v.trip, next_multiple n v.rounds);
    queue = ground (arith, v.queue, v.trip);
  })
  | inr other ↦ rw other (record {
    trip = v.trip;
    partial = ground (arith, v.partial, v.trip);
    rounds = v.rounds;
    through = v.through;
    calls = ground (arith, v.calls);
    queue = ground (arith, v.queue);
  })
]
barrier_step-InRounds n pass s v = elim (Bool-cases (s.tokens == 0)) [
  | inl shut ↦ rw shut tt
  | inr token ↦ rw token (elim (Bool-cases (s.waiting == 0)) [
    | inl nobody ↦ rw nobody tt
    | inr somebody ↦ rw somebody (record {
      trip = v.trip;
      partial = v.partial;
      rounds = v.rounds;
      through = ground (arith, v.through);
      calls = v.calls;
      queue = ground (arith, v.queue);
    })
  ])
]

-- For at least one thread, whatever the order of the calls: the calls that returned, with those that a
-- token lets through, are those of the full rounds, and just the others and the ones with a token wait.
pub Visited-InRounds : (n : ℕ) (s : BarrierState) → 0 < n → Visited n s → InRounds n s
unfolding barrier_init
Visited-InRounds n s pos fresh = record {
  trip = refl;
  partial = pos;
  rounds = 0;
  through = omega arith;
  calls = omega arith;
  queue = refl;
}
Visited-InRounds n t pos (then_step {s} a r e) =
    subst (After (InRounds n)) e (barrier_step-InRounds n a s (Visited-InRounds n s pos r))

-- While no round is partly full, a call that waits finds a token, for a barrier of at least one thread.
pub full_round_passes :
    (n : ℕ) (s : BarrierState)
    → 0 < n
    → Visited n s
    → s.count ≡ 0
    → 0 < s.waiting
    → barrier_step pass s ≢ none
unfolding barrier_step
full_round_passes n s pos r full waits =
    let q = (Visited-InRounds n s pos r).queue in ground (arith, q, full)

-- After a full round that everybody has left, on a barrier for two threads or more, one more call waits
-- with no token.
pub lone_call_waits :
    (n : ℕ) (s : BarrierState)
    → 1 < n
    → Visited n s
    → s.count ≡ 0
    → s.waiting ≡ 0
    → (t : BarrierState) × (barrier_step arrive_at s ≡ some t)
      × (t.waiting ≡ 1)
      × (barrier_step pass t ≡ none)
unfolding barrier_step
lone_call_waits n s pos r full left =
    let v = Visited-InRounds n s (omega arith) r in
    let q = v.queue in
    let trip = v.trip in
    (
      record s { count = s.count + 1; arrived = s.arrived + 1; waiting = s.waiting + 1 },
      ground (arith, trip, full),
      ground (arith, left),
      ground (arith, q, full, left),
    )
