-- ===== src/Sorting.antt =====
-- A5/worker.c and A5/boss.c: workers that list the vertices of a graph, and the boss that checks the
-- list. Each access of a worker to a semaphore, to T or to *idx is a step. Every semaphore operation of
-- the source is on member 0 of its set, so the set syncid is one number. A blocked semop is `none`.
pub mod Listing
pub mod Orders
pub mod Check
pub mod Verdict
mod Tests
use os_lab_sp.Prelude.{
  ℕ, zero, suc, ◌+◌, ◌-◌, Bool, true, false, List, [], ◌∷◌, Option, none, some, ◌==◌, ltb, leb,
  ◌||◌, if◌then◌else◌, ◌>>=◌,
}
use os_lab_sp.Prelude.Family.{update}

-- Where a worker is: it has `k` predecessors to wait for; it has mtx and stores its number; it counts
-- *idx up; it gives mtx back; it notifies the boss; it has `k` vertices left to look at for successors.
pub data Phase : Type 0 where
  waiting : (k : ℕ) → Phase
  storing counting unlocking notifying : Phase
  releasing : (k : ℕ) → Phase
  finished : Phase

pub record Board : Type 0 where
  pub list : ℕ → ℕ  -- T
  pub idx : ℕ
  pub syncid : ℕ
  pub mtx : ℕ
  pub ntfy : ℕ  -- the notifications, of which the boss takes none before it has n
  pub phase : ℕ → Phase

-- The graph: `edge i j` stands for A[i*n+j] == 1.
module _ (n : ℕ) (edge : ℕ → ℕ → Bool) where
  -- The loop over j, with `k` rounds left.
  unfoldable pub indegree : ℕ → ℕ → ℕ
  indegree zero i = 0
  indegree (suc k) i = (if edge (n - suc k) i then 1 else 0) + indegree k i

  unfoldable pub board_init : (ℕ → ℕ) → Board
  unfolding indegree
  board_init garbage = record {
    list = garbage;
    idx = 0;
    syncid = 0;
    mtx = 1;
    ntfy = 0;
    phase = λ i. waiting (indegree n i);
  }

  abbrev pub enter_phase : ℕ → Phase → Board → Board
  enter_phase i p b = record b { phase = update b.phase i p }

  -- The next access of worker `i`.
  unfoldable pub work_at : Phase → ℕ → Board → Option Board
  work_at (waiting (suc k)) i b =
      if b.syncid == 0
      then none
      else some (enter_phase i (waiting k) (record b { syncid = b.syncid - 1 }))
  work_at (waiting zero) i b =
      if b.mtx == 0 then none else some (enter_phase i storing (record b { mtx = b.mtx - 1 }))
  work_at storing i b = some (enter_phase i counting (record b { list = update b.list b.idx i }))
  work_at counting i b = some (enter_phase i unlocking (record b { idx = b.idx + 1 }))
  work_at unlocking i b = some (enter_phase i notifying (record b { mtx = b.mtx + 1 }))
  work_at notifying i b = some (enter_phase i (releasing n) (record b { ntfy = b.ntfy + 1 }))
  work_at (releasing (suc k)) i b = some (
      enter_phase i (releasing k)
        (if edge i (n - suc k) then record b { syncid = b.syncid + 1 } else b))
  work_at (releasing zero) i b = some (enter_phase i finished b)
  work_at finished i b = none

  -- There are the workers 0 to n - 1.
  unfoldable pub work : ℕ → Board → Option Board
  work i b = if ltb i n then work_at (b.phase i) i b else none

  unfoldable pub work_all : List ℕ → Board → Option Board
  work_all [] b = some b
  work_all (i ∷ order) b = work i b >>= work_all order

  -- The test of the boss on two places of the list.
  abbrev pub clash : (ℕ → ℕ) → ℕ → ℕ → Bool
  clash list i j = edge (list j) (list i) || (list i == list j)

  -- for (int j = i + 1; j < n; j++), with `k` rounds left; true is a valid list.
  unfoldable pub check_row : ℕ → (ℕ → ℕ) → ℕ → ℕ → Bool
  check_row zero list i j = true
  check_row (suc k) list i j =
      let rest = check_row k list i (j + 1) in if clash list i j then false else rest

  -- for (int i = 0; i < n; i++), with `k` rounds left
  unfoldable pub check_from : ℕ → (ℕ → ℕ) → ℕ → Bool
  unfolding check_row
  check_from zero list i = true
  check_from (suc k) list i =
      let rest = check_from k list (i + 1) in
      if check_row (n - (i + 1)) list i (i + 1) then rest else false

  -- The boss, after n times P(ntfy); none while it waits.
  unfoldable pub boss : Board → Option Bool
  unfolding check_from
  boss b = if leb n b.ntfy then some (check_from n b.list 0) else none
