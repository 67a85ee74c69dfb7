-- ===== src/Threads/Exit.antt =====
-- A7/foothread.c: who returns from foothread_exit, and when.
use os_lab_sp.Prelude.{
  ℕ, zero, suc, ◌+◌, ◌-◌, ◌≤◌, ◌<◌, ◌≡◌, ◌≢◌, refl, Option, none, some, ◌==◌, arith, Bool-cases,
  inl, inr, subst,
}
use os_lab_sp.Threads.{ExitState, exit_init, ExitStep, call, wake, exit_step}

-- The states that the calls lead to.
pub data Reach (n : ℕ) : ExitState → Type 0 where
  begin : Reach n (exit_init n)
  after : {s t : ExitState} (a : ExitStep) → Reach n s → exit_step a s ≡ some t → Reach n t

-- Before the call number `n` nobody returns; from then on `n` and one calls may return, and each of
-- the others waits.
pub record IsCounted (n : ℕ) (s : ExitState) : Type 0 where
  pub total : s.num_threads ≡ n
  pub calls : s.blocked + s.returned ≡ s.exited_threads
  pub early : s.exited_threads < n → (s.returned ≡ 0) × (s.exit_sem ≡ 0)
  pub late : n ≤ s.exited_threads → s.exit_sem + s.returned ≡ n + 1

abbrev Then : (ExitState → Type 0) → Option ExitState → Type 0
Then P none = Unit
Then P (some s) = P s

exit_step-IsCounted :
    (n : ℕ) (a : ExitStep) (s : ExitState)
    → 0 < n
    → IsCounted n s
    → Then (IsCounted n) (exit_step a s)
unfolding exit_step
exit_step-IsCounted n call s pos v = elim (Bool-cases (s.exited_threads + 1 == s.num_threads)) [
  | inl last ↦ rw last (record {
    total = v.total;
    calls = ground (arith, v.calls);
    early = λ h. absurd (ground (arith, v.total));
    late = λ h. ground (arith, v.total, v.early);
  })
  | inr other ↦ rw other (record {
    total = v.total;
    calls = ground (arith, v.calls);
    early = λ h. v.early (omega arith);
    late = λ h. v.late (ground (arith, v.total));
  })
]
exit_step-IsCounted n wake s pos v = elim (Bool-cases (s.exit_sem == 0)) [
  | inl e ↦ rw e tt
  | inr some_left ↦ rw some_left (elim (Bool-cases (s.blocked == 0)) [
    | inl e ↦ rw e tt
    | inr waiting ↦ rw waiting (record {
      total = v.total;
      calls = ground (arith, v.calls);
      early = λ h. absurd (ground (arith, v.early h));
      late = λ h. ground (arith, v.late h);
    })
  ])
]

-- For `n` at least 1: before the call number `n` no call returns. After it, the calls that returned
-- and the ones that exit_sem still lets through are `n` and one together. Calls either wait or have
-- returned.
pub Reach-IsCounted : (n : ℕ) (s : ExitState) → 0 < n → Reach n s → IsCounted n s
unfolding exit_init
Reach-IsCounted n s pos begin = record {
  total = refl;
  calls = omega arith;
  early = λ h. (refl, refl);
  late = λ h. absurd (omega arith);
}
Reach-IsCounted n t pos (after {s} a r e) =
    subst (Then (IsCounted n)) e (exit_step-IsCounted n a s pos (Reach-IsCounted n s pos r))

-- With the main thread and `n` others, at least one, calling foothread_exit, every call that waits can
-- return once all have called.
pub all_released :
    (n : ℕ) (s : ExitState)
    → 0 < n
    → Reach n s
    → s.exited_threads ≡ n + 1
    → 0 < s.blocked
    → exit_step wake s ≢ none
unfolding exit_step
all_released n s pos r all waiting =
    let v = Reach-IsCounted n s pos r in
    let left = v.late (omega (arith, all)) in
    let calls = v.calls in ground (arith, left, calls, all)

-- `k` threads have called and wait.
abbrev queued : ℕ → ℕ → ExitState
queued n k = record { num_threads = n; exited_threads = k; exit_sem = 0; blocked = k; returned = 0 }

-- `n` threads have called, and `j` of them were woken after the last one returned.
abbrev woken : ℕ → ℕ → ExitState
woken n j = record {
  num_threads = n;
  exited_threads = n;
  exit_sem = n - j;
  blocked = n - 1 - j;
  returned = j + 1;
}

queued-Reach : (n k : ℕ) → k < n → Reach n (queued n k)
unfolding exit_init exit_step
queued-Reach n zero h = begin
queued-Reach n (suc k) h = after call (queued-Reach n k (omega arith)) (ground arith)

woken-Reach : (n j : ℕ) → j < n → Reach n (woken n j)
unfolding exit_step
woken-Reach n zero h = after call (queued-Reach n (n - 1) (omega arith)) (ground arith)
woken-Reach n (suc j) h = after wake (woken-Reach n j (omega arith)) (ground arith)

-- The main thread calls foothread_exit too, without being counted in num_threads: for `n` at least 1,
-- `n` of the `n` and one callers can all have returned while the last thread has not called yet.
pub returned_early :
    (n : ℕ)
    → 0 < n
    → (s : ExitState) × Reach n s × (s.exited_threads ≡ n) × (s.returned ≡ n) × (s.blocked ≡ 0)
returned_early n pos =
    (woken n (n - 1), woken-Reach n (n - 1) (omega arith), refl, omega arith, omega arith)
