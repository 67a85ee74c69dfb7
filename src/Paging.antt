-- ===== src/Paging.antt =====
-- A8: demand paging. master.c sets up the shared memory, mmu.c serves page references, sched.c runs
-- one process at a time, and process.c replays a reference string.
-- The shared segments are one record: SM1[p] is `table p`, SM1[p].PT[j] is `pt p j`, SM2[i] is
-- `free i` (1 is true), and the frame -1 of an entry is `none`. The cell SM2[f] = -1, which ends the
-- free-frame list, is the bound `f`. Counters do not wrap.
pub mod Mmu
pub mod Master
pub mod Owned
pub mod Release
pub mod Lru
pub mod Faults
pub mod Serve
pub mod System
mod Tests
use os_lab_sp.Prelude.{
  ℕ, ◌+◌, Bool, true, false, List, [], ◌∷◌, ◌++◌, Option, none, some, arith, ◌==◌, if◌then◌else◌,
  ◌≡◌,
}
use os_lab_sp.Prelude.Int.{ℤ}

-- pt_t
pub record Entry : Type 0 where
  pub page : ℕ
  pub frame : Option ℕ
  pub lru_ctr : ℕ
  pub valid_bit : ℕ

-- pagetable_t, without the pointer to its table
pub record Process : Type 0 where
  pub m_i : ℕ
  pub total_faults : ℕ  -- total_PFs
  pub total_invalid_refs : ℕ

-- msq2_t, from the MMU to the scheduler: type 1 after a page fault, type 2 at termination
pub record Msq2 : Type 0 where
  pub type : ℕ
  pub pid : ℕ

-- msq3_t: type 1 from a process, type 2 to a process; `num` is a page or a frame
pub record Msq3 : Type 0 where
  pub type : ℕ
  pub num : ℤ
  pub pid : ℕ

pub record Memory : Type 0 where
  pub k : ℕ
  pub m : ℕ
  pub f : ℕ
  pub table : ℕ → Process
  pub pt : ℕ → ℕ → Entry
  pub free : ℕ → Bool
  pub count : ℕ
  pub terminated : ℕ
  pub to_sched : List Msq2  -- all messages sent on msqid2, the first one first
  pub to_process : List Msq3  -- all messages of type 2 sent on msqid3

abbrev pub update {ℓ} : {A : Type ℓ} → (ℕ → A) → ℕ → A → ℕ → A
update f i a j = if j == i then a else f j

abbrev pub update₂ {ℓ} : {A : Type ℓ} → (ℕ → ℕ → A) → ℕ → ℕ → A → ℕ → ℕ → A
update₂ f p j a q l = if q == p then (if l == j then a else f q l) else f q l
