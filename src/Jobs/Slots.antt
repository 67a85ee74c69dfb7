-- ===== src/Jobs/Slots.antt =====
-- A2/mgr.c: the slot that a new job gets, and the choice of a suspended job.
use os_lab_sp.Prelude.{
  ℕ, zero, suc, ◌+◌, ◌-◌, ◌<◌, ◌≤◌, ◌≡◌, ◌≢◌, refl, true, false, List, [], ◌∷◌, none, some, ◌==◌,
  leb, inl, inr, Bool-cases, Option-cases, arith, ℕ_discrete, ◌++◌,
}
use Prim.Native.String.{String}
use os_lab_sp.Prelude.Family.{update}
use os_lab_sp.Jobs.{
  Status, finished, terminated, Process, Signal, sigtstp, sigkill, Manager, table_size, is_full,
  is_suspended, deliver, find_slot, next, run_job, with_job,
}
use os_lab_sp.Jobs.Count.{
  count_suspended, IsCounted, Next, count-update, find_slot-empty, handler-none,
  start_job-IsCounted,
}

find_slot-ne-none :
    (n i j : ℕ) (table : ℕ → Process)
    → i ≤ j
    → j < i + n
    → (table j).pid ≡ 0
    → find_slot n i table ≢ none
unfolding find_slot
find_slot-ne-none zero i j table lo hi free = absurd (omega arith)
find_slot-ne-none (suc n) i j table lo hi free = elim (ℕ_discrete i j) [
  | yes same ↦ ground arith
  | no other ↦ ground (arith, find_slot-ne-none n (i + 1) j table (omega arith) (omega arith) free)
]

-- While the last slot is empty the scan finds an empty slot of the table.
pub slot_found :
    (table : ℕ → Process)
    → is_full table ≡ false
    → (i : ℕ) × (find_slot table_size 0 table ≡ some i) × (i < table_size) × ((table i).pid ≡ 0)
unfolding is_full
slot_found table h =
    let last : (table 10).pid ≡ 0 = ground arith in
    elim (Option-cases (find_slot table_size 0 table)) [
      | inl e ↦ absurd (find_slot-ne-none table_size 0 10 table (omega arith) (omega arith) last e)
      | inr (i, e) ↦
          let (lo, hi, free) = find_slot-empty table_size 0 i table e in (i, e, omega arith, free)
    ]

pub run_job-IsCounted :
    (pid pgid : ℕ) (name : String) (signals : List Signal) (s : Manager)
    → IsCounted s
    → pid ≢ 0
    → Next IsCounted (run_job pid pgid name signals s)
unfolding run_job
run_job-IsCounted pid pgid name signals s v alive = elim (Bool-cases (is_full s.table)) [
  | inl full ↦ rw full tt
  | inr more ↦
      let (i, e, hi, free) = slot_found s.table more in
      rw (more, e) (start_job-IsCounted i pid pgid name signals s v hi free alive)
]

-- A job that is chosen is a suspended one of the table.
pub with_job-Next :
    (P : Manager → Type 0) (job : ℕ) (act : Manager → Manager) (s : Manager)
    → P s
    → (job < table_size → is_suspended (s.table job).status ≡ true → P (act s))
    → Next P (with_job job act s)
unfolding with_job
with_job-Next P job act s v h = elim (Bool-cases (s.num_suspended == 0)) [
  | inl idle ↦ rw idle v
  | inr busy ↦ rw busy (elim (Bool-cases (leb table_size job)) [
    | inl outside ↦ rw outside tt
    | inr inside ↦ rw inside (elim (Bool-cases (is_suspended (s.table job).status)) [
      | inl held ↦ rw held (h (ground arith) held)
      | inr awake ↦ rw awake v
    ])
  ])
]

-- A suspended job that is written over by one that is not takes one off the count.
module _ (s : Manager) (job : ℕ) (v : IsCounted s) (inside : job < table_size)
    (held : is_suspended (s.table job).status ≡ true) where
  pub one_less :
      (st : Status)
      → is_suspended st ≡ false
      → count_suspended (update s.table job (record (s.table job) { status = st })) + 1
        ≡ count_suspended s.table
  one_less st awake =
      let change = count-update s.table job (record (s.table job) { status = st }) inside in
      ground (arith, change)

  pub present : (s.table job).pid ≢ 0
  present free = ground (arith, v.blank job)

-- The handler is called only for these two signals; the rest of the list finds no current child.
abbrev pub FirstStops : List Signal → Type 0
FirstStops [] = ⊥
FirstStops (sig ∷ signals) = sig ≡ sigtstp

pub deliver-none :
    (signals : List Signal) (s : Manager) → s.curr_child ≡ none → deliver signals s ≡ s
unfolding deliver
deliver-none [] s e = refl
deliver-none (sig ∷ signals) s e = rw (handler-none sig s e) (deliver-none signals s e)

-- The effect of command k on a suspended job.
abbrev pub stopped : ℕ → Manager → Manager
stopped job s = record s {
  table = update s.table job (record (s.table job) { status = terminated });
  curr_child = some job;
  num_suspended = s.num_suspended - 1;
  sent = s.sent ++ ((s.table job).pid, sigkill) ∷ [];
}

-- The command acts on a suspended job of the table.
pub with_job-suspended :
    (job : ℕ) (act : Manager → Manager) (s : Manager)
    → IsCounted s
    → job < table_size
    → is_suspended (s.table job).status ≡ true
    → with_job job act s ≡ next (act s)
unfolding with_job
with_job-suspended job act s v inside held =
    let less = one_less s job v inside held finished refl in
    let busy : (s.num_suspended == 0) ≡ false = ground (arith, less, v.counted) in
    let within : leb table_size job ≡ false = ground arith in rw (busy, within, held) refl
