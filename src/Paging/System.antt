-- ===== src/Paging/System.antt =====
-- A8/sched.c and A8/process.c: the scheduler, the processes and the MMU over the message queues. The
-- messages sent on msqid2 and the answers sent on msqid3 are lists of the memory, of which `heard` and
-- `answered` are received; an answer goes to any process that waits for one. A call that blocks is
-- `none`. The MMU handles a message in one step.
pub mod Ends
pub mod Orders
mod Tests
use os_lab_sp.Prelude.{
  ℕ, zero, suc, ◌+◌, ◌-◌, Bool, true, false, List, [], ◌∷◌, ◌++◌, Option, none, some, ◌==◌, ltb,
  leb, if◌then◌else◌, ◌>>=◌,
}
use os_lab_sp.Prelude.Int.{ℤ, pos, negsuc}
use os_lab_sp.Paging.{Memory, Msq2, Msq3, update}
use os_lab_sp.Paging.Mmu.{handle}

-- Where a process is: before its message to the ready queue; in P(sem_sched); before a reference; waiting
-- for the answer; in P(sem_sched) after a page fault; at its end.
pub data ProcPlace : Type 0 where
  arriving waiting asking awaiting faulted ended : ProcPlace

pub record Proc : Type 0 where
  pub place : ProcPlace
  pub refs : List ℕ  -- the tokens that are left of ref_str

-- Where the scheduler is: before the ready queue; before msqid2; behind its loop.
pub data SchedPhase : Type 0 where
  choosing listening finished : SchedPhase

pub record System : Type 0 where
  pub mem : Memory
  pub requests : List Msq3  -- the messages of type 1 in msqid3
  pub answered : ℕ
  pub ready : List ℕ  -- msqid1
  pub sem : ℕ → ℕ  -- the semaphores key + pid
  pub procs : ℕ → Proc
  pub phase : SchedPhase
  pub heard : ℕ
  pub terminated_processes : ℕ

unfoldable pub nth {ℓ} : {A : Type ℓ} → List A → ℕ → Option A
nth [] i = none
nth (a ∷ l) zero = some a
nth (a ∷ l) (suc i) = nth l i

-- The processes before they run.
unfoldable pub launched : Memory → (ℕ → List ℕ) → System
launched mem refs = record {
  mem = mem;
  requests = [];
  answered = 0;
  ready = [];
  sem = λ p. 0;
  procs = λ p. record { place = arriving; refs = refs p };
  phase = choosing;
  heard = 0;
  terminated_processes = 0;
}

-- What the scheduler does with a message of msqid2.
unfoldable pub note : Msq2 → System → System
note msg s =
    if msg.type == 1
    then record s { ready = s.ready ++ msg.pid ∷ [] }
    else if msg.type == 2
    then record s { terminated_processes = s.terminated_processes + 1 }
    else s

unfoldable pub close_round : System → System
close_round s = record s {
  phase = if leb s.mem.k s.terminated_processes then finished else choosing;
}

unfoldable pub choose : List ℕ → System → Option System
choose [] s = none
choose (p ∷ rest) s =
    some (record s { ready = rest; sem = update s.sem p (s.sem p + 1); phase = listening })

unfoldable pub schedule_at : SchedPhase → System → Option System
unfolding choose note close_round
schedule_at choosing s = choose s.ready s
schedule_at listening s = nth s.mem.to_sched s.heard >>= λ msg.
    some (close_round (note msg (record s { heard = s.heard + 1 })))
schedule_at finished s = none

-- The next step of the MMU.
unfoldable pub serve_next : List Msq3 → System → Option System
serve_next [] s = none
serve_next (msg ∷ rest) s = handle s.mem msg >>= λ t. some (record s { mem = t; requests = rest })

abbrev pub send : ℕ → ℤ → System → System
send p num s = record s { requests = s.requests ++ record { type = 1; num = num; pid = p } ∷ [] }

abbrev pub moved : ℕ → ProcPlace → List ℕ → System → System
moved p place refs s = record s { procs = update s.procs p (record { place = place; refs = refs }) }

-- P(sem_sched)
unfoldable pub down : ℕ → List ℕ → System → Option System
down p refs s =
    if s.sem p == 0
    then none
    else some (moved p asking refs (record s { sem = update s.sem p (s.sem p - 1) }))

-- The next reference, or the end.
unfoldable pub ask : ℕ → List ℕ → System → System
ask p [] s = moved p ended [] (send p (negsuc 8) s)
ask p (j ∷ refs) s = moved p awaiting (j ∷ refs) (send p (pos j) s)

abbrev pub tail : List ℕ → List ℕ
tail [] = []
tail (j ∷ refs) = refs

-- What a process does with an answer.
unfoldable pub get_answer : ℤ → ℕ → List ℕ → System → System
get_answer (pos fr) p refs s = moved p asking (tail refs) s
get_answer (negsuc n) p refs s =
    if n == 0
    then moved p faulted refs s
    else if n == 1
    then moved p ended refs s
    else moved p asking (tail refs) s

unfoldable pub run_at : ProcPlace → ℕ → List ℕ → System → Option System
unfolding down ask get_answer
run_at arriving p refs s = some (moved p waiting refs (record s { ready = s.ready ++ p ∷ [] }))
run_at waiting p refs s = down p refs s
run_at asking p refs s = some (ask p refs s)
run_at awaiting p refs s = nth s.mem.to_process s.answered >>= λ msg.
    some (get_answer msg.num p refs (record s { answered = s.answered + 1 }))
run_at faulted p refs s = down p refs s
run_at ended p refs s = none

pub data Program : Type 0 where
  scheduler mmu : Program
  process : ℕ → Program

-- The next step of one of the programs.
unfoldable pub system_step : Program → System → Option System
unfolding schedule_at serve_next run_at
system_step scheduler s = schedule_at s.phase s
system_step mmu s =
    let next = serve_next s.requests s in if leb s.mem.k s.mem.terminated then none else next
system_step (process p) s =
    let next = run_at (s.procs p).place p (s.procs p).refs s in if ltb p s.mem.k then next else none
