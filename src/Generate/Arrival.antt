-- ===== src/Generate/Arrival.antt =====
-- A6/arrival.c: the random visitors, written as the file that initEQ of A6/event.c reads. C does not fix the
-- order of the two calls of rand() for a line: the first one counts for the time here.
pub mod Queued
mod Tests
use os_lab_sp.Prelude.{ℕ, zero, suc, ◌+◌, ◌*◌, ◌-◌, ◌%◌, List, [], ◌∷◌, ◌++◌}
use os_lab_sp.Prelude.Int.{ℤ, pos, negsuc, ◌⊖◌}
use os_lab_sp.Event.{Event}

-- The lines of `k` visitors of a kind: times from -`early` on, and durations from `short` on. Call number `c`
-- of rand() comes next.
unfoldable pub visitors : (ℕ → ℕ) → ℕ → ℕ → ℕ → ℕ → ℕ → ℕ → ℕ → List Event
visitors rand kind span early short spread zero c = []
visitors rand kind span early short spread (suc k) c =
    record {
      kind = kind;
      time = rand c % span ⊖ early;
      duration = pos (short + rand (c + 1) % spread);
    }
    ∷ visitors rand kind span early short spread k (c + 2)

-- The three loops, each behind the call of rand() for its number of rounds.
unfoldable pub patient_lines : (ℕ → ℕ) → List Event
unfolding visitors
patient_lines rand = visitors rand b'P' 345 15 5 11 (25 + rand 0 % 16) 1

abbrev pub second_call : (ℕ → ℕ) → ℕ
second_call rand = 1 + 2 * (25 + rand 0 % 16)

unfoldable pub reporter_lines : (ℕ → ℕ) → List Event
unfolding visitors
reporter_lines rand =
    let c = second_call rand in visitors rand b'R' 330 0 1 2 (5 + rand c % 11) (c + 1)

abbrev pub third_call : (ℕ → ℕ) → ℕ
third_call rand = let c = second_call rand in c + 1 + 2 * (5 + rand c % 11)

unfoldable pub salesrep_lines : (ℕ → ℕ) → List Event
unfolding visitors
salesrep_lines rand =
    let c = third_call rand in visitors rand b'S' 360 30 5 6 (3 + rand c % 5) (c + 1)

-- The file without the last line "E".
unfoldable pub arrival : (ℕ → ℕ) → List Event
unfolding patient_lines reporter_lines salesrep_lines
arrival rand = patient_lines rand ++ reporter_lines rand ++ salesrep_lines rand
