-- ===== src/Jobs/Count.antt =====
-- A2/mgr.c: numSuspended is the number of suspended slots.
use os_lab_sp.Prelude.{
  ℕ, zero, suc, ◌+◌, ◌<◌, ◌≤◌, ◌≡◌, ◌≢◌, false, List, [], ◌∷◌, none, some, if◌then◌else◌, inl, inr,
  Option-cases, arith, ap,
}
use Prim.Native.String.{String}
use os_lab_sp.Prelude.Family.{update, sum_below, sum_below-update}
use os_lab_sp.Jobs.{
  finished, suspended, terminated, Process, Signal, sigint, sigtstp, sigcont, sigkill, Manager,
  table_size, create_process, is_suspended, signal_child, signal_current, start_job,
  parent_sig_handler, deliver, find_slot, Outcome, next, quit, fault,
}

abbrev pub weight : Process → ℕ
weight p = if is_suspended p.status then 1 else 0

abbrev pub count_suspended : (ℕ → Process) → ℕ
count_suspended = sum_below weight table_size

-- A slot that is not suspended.
abbrev pub IsAwake : Process → Type 0
IsAwake p = is_suspended p.status ≡ false

-- The counter is right, the current child is a process of the table that is not suspended, and no
-- empty slot is.
pub record IsCounted (s : Manager) : Type 0 where
  pub counted : s.num_suspended ≡ count_suspended s.table
  pub current :
      (i : ℕ)
      → s.curr_child ≡ some i
      → (i < table_size) × IsAwake (s.table i) × ((s.table i).pid ≢ 0)
  pub blank : (i : ℕ) → (s.table i).pid ≡ 0 → IsAwake (s.table i)

-- A slot that is written over.
pub count-update :
    (table : ℕ → Process) (i : ℕ) (p : Process)
    → i < table_size
    → weight (table i) + count_suspended (update table i p) ≡ weight p + count_suspended table
count-update table i p h = sum_below-update weight table_size i table p h

module _ (sig : Signal) (s : Manager) where
  pub handler-none : s.curr_child ≡ none → parent_sig_handler sig s ≡ s
  unfolding parent_sig_handler
  handler-none e = ap (λ o. signal_current o sig s) e

  pub handler-some :
      (i : ℕ)
      → s.curr_child ≡ some i
      → parent_sig_handler sig s ≡ record (signal_child i sig s) { curr_child = none }
  unfolding parent_sig_handler
  handler-some i e = ap (λ o. signal_current o sig s) e

signal_child-IsCounted :
    (sig : Signal) (s : Manager) (i : ℕ)
    → IsCounted s
    → s.curr_child ≡ some i
    → IsCounted (record (signal_child i sig s) { curr_child = none })
unfolding signal_child
signal_child-IsCounted sigint s i v e =
    let (hi, awake, alive) = v.current i e in
    let change = count-update s.table i (record (s.table i) { status = terminated }) hi in
    record {
      counted = ground (arith, change, v.counted);
      current = λ j h. cc;
      blank = λ j h. ground (arith, v.blank j);
    }
signal_child-IsCounted sigtstp s i v e =
    let (hi, awake, alive) = v.current i e in
    let change = count-update s.table i (record (s.table i) { status = suspended }) hi in
    record {
      counted = ground (arith, change, v.counted);
      current = λ j h. cc;
      blank = λ j h. ground (arith, v.blank j, alive);
    }
signal_child-IsCounted sigcont s i v e = record {
  counted = v.counted;
  current = λ j h. cc;
  blank = v.blank;
}
signal_child-IsCounted sigkill s i v e = record {
  counted = v.counted;
  current = λ j h. cc;
  blank = v.blank;
}

pub handler-IsCounted :
    (sig : Signal) (s : Manager) → IsCounted s → IsCounted (parent_sig_handler sig s)
handler-IsCounted sig s v = elim (Option-cases s.curr_child) [
  | inl e ↦ rw (handler-none sig s e) v
  | inr (i, e) ↦ rw (handler-some sig s i e) (signal_child-IsCounted sig s i v e)
]

pub deliver-IsCounted :
    (signals : List Signal) (s : Manager) → IsCounted s → IsCounted (deliver signals s)
unfolding deliver
deliver-IsCounted [] s v = v
deliver-IsCounted (sig ∷ signals) s v =
    deliver-IsCounted signals (parent_sig_handler sig s) (handler-IsCounted sig s v)

-- The property holds of the next state, if there is one.
abbrev pub Next {ℓ} : (Manager → Type ℓ) → Outcome → Type ℓ
Next P (next s) = P s
Next P quit = Unit
Next P fault = Unit

-- The slot that the scan finds is an empty one of the table.
pub find_slot-empty :
    (n i j : ℕ) (table : ℕ → Process)
    → find_slot n i table ≡ some j
    → (i ≤ j) × (j < i + n) × ((table j).pid ≡ 0)
unfolding find_slot
find_slot-empty zero i j table e = cc
find_slot-empty (suc n) i j table e = ground (arith, find_slot-empty n (i + 1) j table)

pub start_job-IsCounted :
    (i pid pgid : ℕ) (name : String) (signals : List Signal) (s : Manager)
    → IsCounted s
    → i < table_size
    → (s.table i).pid ≡ 0
    → pid ≢ 0
    → Next IsCounted (start_job (some i) pid pgid name signals s)
unfolding start_job create_process
start_job-IsCounted i pid pgid name signals s v hi free alive = rest
  where
    begun : Manager
    begun = record s {
      table = update s.table i (record { pid = pid; pgid = pgid; status = finished; name = name });
      curr_child = some i;
    }

    begun-IsCounted : IsCounted begun
    begun-IsCounted = record {
      counted =
          ground (arith, count-update s.table i (begun.table i) hi, v.counted, v.blank i free);
      current = λ j h. ground arith;
      blank = λ j h. ground (arith, v.blank j);
    }

    rest : IsCounted (record (deliver signals begun) { curr_child = none })
    rest =
        let d = deliver-IsCounted signals begun begun-IsCounted in
        record { counted = d.counted; current = λ j h. cc; blank = d.blank }
