-- ===== src/Jobs.antt =====
-- A2/mgr.c: a job manager with a table of eleven processes. `curr_child` is `none` for -1, and the
-- calls of kill are kept in the order in which they are made. What happens outside is in the command:
-- the process that fork returns, and the signals that arrive while the manager waits for a child.
-- A signal between the choice of the slot and the wait is not modelled.
pub mod Count
pub mod Slots
pub mod Steps
pub mod Signals
mod Tests
use Prim.Native.String.{String}
use os_lab_sp.Prelude.{
  ℕ, zero, suc, ◌+◌, ◌-◌, Bool, true, false, List, [], ◌∷◌, ◌++◌, Option, none, some, ◌==◌, leb,
  not, if◌then◌else◌,
}
use os_lab_sp.Prelude.Family.{update}

-- The texts that the field `status` takes.
pub data Status : Type 0 where
  self empty finished suspended terminated : Status

-- struct process
pub record Process : Type 0 where
  pub pid : ℕ
  pub pgid : ℕ
  pub status : Status
  pub name : String

pub data Signal : Type 0 where
  sigint sigtstp sigcont sigkill : Signal

pub record Manager : Type 0 where
  pub table : ℕ → Process  -- PT
  pub curr_child : Option ℕ
  pub num_suspended : ℕ
  pub sent : List (ℕ × Signal)  -- the calls of kill

abbrev pub table_size : ℕ
table_size = 11

unfoldable pub create_process : ℕ → ℕ → Status → String → Process
create_process pid pgid status name = record {
  pid = pid;
  pgid = pgid;
  status = status;
  name = name;
}

unfoldable pub is_full : (ℕ → Process) → Bool
is_full table = not ((table 10).pid == 0)

abbrev pub is_suspended : Status → Bool
is_suspended suspended = true
is_suspended _ = false

-- strcpy(PT[i].status, …)
unfoldable pub mark : ℕ → Status → Manager → Manager
mark i status s = record s { table = update s.table i (record (s.table i) { status = status }) }

unfoldable pub kill : ℕ → Signal → Manager → Manager
kill pid sig s = record s { sent = s.sent ++ (pid, sig) ∷ [] }

-- What the handler does to the child that runs.
unfoldable pub signal_child : ℕ → Signal → Manager → Manager
unfolding mark kill
signal_child i sigint s = let t = mark i terminated s in kill (t.table i).pid sigkill t
signal_child i sigtstp s =
    let t = mark i suspended (record s { num_suspended = s.num_suspended + 1 }) in
    kill (t.table i).pid sigtstp t
signal_child i sig s = s

pub signal_current : Option ℕ → Signal → Manager → Manager
signal_current none sig s = s
signal_current (some i) sig s = record (signal_child i sig s) { curr_child = none }

unfoldable pub parent_sig_handler : Signal → Manager → Manager
unfolding signal_current signal_child
parent_sig_handler sig s = signal_current s.curr_child sig s

-- The signals that arrive while the manager waits.
unfoldable pub deliver : List Signal → Manager → Manager
deliver [] s = s
deliver (sig ∷ rest) s = deliver rest (parent_sig_handler sig s)

-- The first empty slot, with `n` slots from `i` on left.
unfoldable pub find_slot : ℕ → ℕ → (ℕ → Process) → Option ℕ
find_slot zero i table = none
find_slot (suc n) i table =
    let rest = find_slot n (i + 1) table in if (table i).pid == 0 then some i else rest

pub data Outcome : Type 0 where
  next : Manager → Outcome
  quit : Outcome
  fault : Outcome  -- an index outside of the table

-- The current child after the scan: the slot found, else the one of before.
abbrev pub slot_or : Option ℕ → Option ℕ → Option ℕ
slot_or none curr = curr
slot_or (some i) curr = some i

-- The parent's side of the fork: the child runs until it ends or is stopped.
pub start_job : Option ℕ → ℕ → ℕ → String → List Signal → Manager → Outcome
start_job none pid pgid name signals s = fault
start_job (some i) pid pgid name signals s =
    let t = record s {
      table = update s.table i (create_process pid pgid finished name);
      curr_child = some i;
    } in
    next (record (deliver signals t) { curr_child = none })

-- Command r, with the child `pid`.
unfoldable pub run_job : ℕ → ℕ → String → List Signal → Manager → Outcome
unfolding start_job
run_job pid pgid name signals s =
    if is_full s.table
    then quit
    else start_job (slot_or (find_slot table_size 0 s.table) s.curr_child) pid pgid name signals s

-- The choice of a job in the commands c and k: a job that is not suspended is refused.
unfoldable pub with_job : ℕ → (Manager → Manager) → Manager → Outcome
with_job job act s =
    if s.num_suspended == 0
    then next s
    else if leb table_size job
    then fault
    else if is_suspended (s.table job).status
    then next (act s)
    else next s

-- Command c: the job runs until it ends.
unfoldable pub continue_job : ℕ → List Signal → Manager → Outcome
unfolding with_job kill mark
continue_job job signals = with_job job λ s.
    let t = kill (s.table job).pid sigcont (record s { curr_child = some job }) in
    let u = mark job finished (deliver signals t) in
    record u { num_suspended = u.num_suspended - 1 }

-- Command k.
unfoldable pub kill_job : ℕ → Manager → Outcome
unfolding with_job kill mark
kill_job job = with_job job λ s.
    let t = kill (s.table job).pid sigkill (record s { curr_child = some job }) in
    let u = mark job terminated t in record u { num_suspended = u.num_suspended - 1 }

pub data Command : Type 0 where
  print help leave unknown : Command  -- p, h, q, and any other letter
  run : (pid pgid : ℕ) → String → List Signal → Command  -- r
  resume : (job : ℕ) → List Signal → Command  -- c
  end : (job : ℕ) → Command  -- k
  at_prompt : Signal → Command  -- a signal while the manager waits for a command

unfoldable pub step : Command → Manager → Outcome
step print s = next s
step help s = next s
step leave s = quit
step unknown s = next s
step (run pid pgid name signals) s = run_job pid pgid name signals s
step (resume job signals) s = continue_job job signals s
step (end job) s = kill_job job s
step (at_prompt sig) s = next (parent_sig_handler sig s)

-- The table at the start.
unfoldable pub init : ℕ → ℕ → Manager
unfolding create_process
init pid pgid = record {
  table =
      λ i. if i == 0 then create_process pid pgid self "mgr" else create_process 0 0 empty "EMPTY";
  curr_child = none;
  num_suspended = 0;
  sent = [];
}
