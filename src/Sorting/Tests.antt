-- ===== src/Sorting/Tests.antt =====
-- A5/worker.c and A5/boss.c: three small graphs.
use os_lab_sp.Prelude.{
  ℕ, ◌<◌, ◌≡◌, ◌≢◌, ◌↔◌, refl, Bool, true, false, List, [], ◌∷◌, ◌++◌, Option, none, some, ◌==◌,
  ◌&&◌, ◌||◌, ◌>>=◌,
}
use os_lab_sp.Sorting.{
  Board, indegree, board_init, work_at, work, work_all, check_row, check_from, boss,
}
use os_lab_sp.Sorting.Verdict.{verdict_right}

-- 0 → 1
abbrev pair : ℕ → ℕ → Bool
pair i j = (i == 0) && (j == 1)

-- 0 → 1 → 2
abbrev chain : ℕ → ℕ → Bool
chain i j = ((i == 0) && (j == 1)) || ((i == 1) && (j == 2))

-- 0 → 2 and 1 → 3
abbrev crossed : ℕ → ℕ → Bool
crossed i j = ((i == 0) && (j == 2)) || ((i == 1) && (j == 3))

abbrev zeros : ℕ → ℕ
zeros i = 0

-- The steps of a worker from mtx to the end, for n = 2.
abbrev steps : ℕ → List ℕ
steps i = i ∷ i ∷ i ∷ i ∷ i ∷ i ∷ i ∷ i ∷ []

abbrev run_workers : (n : ℕ) → (ℕ → ℕ → Bool) → List ℕ → Option Board
unfolding work_all work work_at board_init indegree
run_workers n edge order = work_all n edge order (board_init n edge zeros)

abbrev verdict_of : (n : ℕ) → (ℕ → ℕ → Bool) → List ℕ → Option Bool
unfolding run_workers boss check_from check_row
verdict_of n edge order = run_workers n edge order >>= boss n edge

abbrev in_order : List ℕ
in_order = steps 0 ++ 1 ∷ steps 1

pair_run : verdict_of 2 pair in_order ≡ some true
unfolding verdict_of
pair_run = refl

-- All workers wait on one semaphore: worker 3 takes what worker 0 has left for worker 2.
wrong_order :
    verdict_of 4 crossed (
      0 ∷ 0 ∷ 0 ∷ 0 ∷ 0 ∷ 0 ∷ 0 ∷ 0 ∷ 0 ∷ 3 ∷ 3 ∷ 3 ∷ 3 ∷ 3 ∷ 3 ∷ 1 ∷ 1 ∷ 1 ∷ 1 ∷ 1 ∷ 1 ∷ 1 ∷ 1 ∷ 1
      ∷ 1 ∷ 2 ∷ 2 ∷ 2 ∷ 2 ∷ 2 ∷ 2 ∷ [])
    ≡ some false
unfolding verdict_of
wrong_order = refl

-- Worker 2 takes what worker 0 has left for worker 1, which then waits for ever, and the boss with it.
abbrev stuck_order : List ℕ
stuck_order = 0 ∷ 0 ∷ 0 ∷ 0 ∷ 0 ∷ 0 ∷ 0 ∷ 0 ∷ 0 ∷ 2 ∷ 2 ∷ 2 ∷ 2 ∷ 2 ∷ 2 ∷ 2 ∷ 2 ∷ 2 ∷ 2 ∷ []

stuck :
    ((run_workers 3 chain stuck_order >>= work 3 chain 0) ≡ none)
    × ((run_workers 3 chain stuck_order >>= work 3 chain 1) ≡ none)
    × ((run_workers 3 chain stuck_order >>= work 3 chain 2) ≡ none)
    × (verdict_of 3 chain stuck_order ≡ none)
unfolding verdict_of
stuck = (refl, refl, refl, refl)

abbrev last_board : Option Board → Board
unfolding board_init indegree
last_board (some b) = b
last_board none = board_init 0 pair zeros

abbrev sorted : Board
unfolding run_workers last_board
sorted = last_board (run_workers 2 pair in_order)

verdict_right_example :
    ((i : ℕ) → i < 2 → (a : ℕ) × (a < 2) × (sorted.list a ≡ i))
    × ((a c : ℕ) → a < c → c < 2 → sorted.list a ≢ sorted.list c)
    × ((true ≡ true) ↔ ((a c : ℕ) → a < c → c < 2 → pair (sorted.list c) (sorted.list a) ≡ false))
unfolding sorted verdict_of
verdict_right_example = verdict_right 2 pair zeros in_order sorted true refl refl
