-- ===== src/Paging/Master/References.antt =====
-- A8/master.c and A8/process.c: the reference string of a process, which the master writes and the
-- process splits and reads. sprintf with ref_str as its own argument, which C leaves undefined, is the
-- parameter `overlap`; `coin j` tells whether the value of rand() stays below PROB_ILLEGAL, and `draw
-- j` is the one that gives the number.
pub mod Digits
pub mod Replayed
mod Tests
use os_lab_sp.Prelude.{
  ℕ, zero, suc, ◌+◌, ◌-◌, ◌*◌, ◌/◌, ◌%◌, Bool, true, false, List, length, Option, none, some, [],
  ◌∷◌, ◌++◌, ltb, leb, ◌==◌, ◌&&◌, if◌then◌else◌,
}

abbrev pub Text : Type 0
Text = List ℕ

abbrev pub colon : ℕ
colon = b':'

abbrev pub digit : ℕ → ℕ
digit d = b'0' + d

-- "%d" of a number, with at most `k` digits in front of the last one.
unfoldable pub digits : ℕ → ℕ → Text
digits zero v = digit (v % 10) ∷ []
digits (suc k) v =
    let front = digits k (v / 10) in if ltb v 10 then digit v ∷ [] else front ++ digit (v % 10) ∷ []

-- For the numbers of an int, which have at most ten digits.
abbrev pub decimal : ℕ → Text
decimal v = digits 9 v

-- x
abbrev pub ref_length : ℕ → ℕ → ℕ
ref_length r m_i = r % (8 * m_i + 1) + 2 * m_i

module _ (m m_i : ℕ) (coin : ℕ → Bool) (draw : ℕ → ℕ) where
  -- The number of a page, which the process may not have.
  abbrev pub ref_page : ℕ → ℕ
  ref_page j = draw j % (if coin j then m else m_i)

  -- The numbers of the rounds from `j` on.
  abbrev pub ref_pages : ℕ → ℕ → List ℕ
  ref_pages zero j = []
  ref_pages (suc k) j = ref_page j ∷ ref_pages k (j + 1)

-- The loop over j, with `k` rounds left. `overlap t v` is what sprintf(t, "%s:%d", t, v) leaves in `t`.
unfoldable pub ref_string : (Text → ℕ → Text) → ℕ → ℕ → (ℕ → Bool) → (ℕ → ℕ) → ℕ → ℕ → Text → Text
ref_string overlap m m_i coin draw zero j ref_str = ref_str
ref_string overlap m m_i coin draw (suc k) j ref_str =
    let v = ref_page m m_i coin draw j in
    ref_string overlap m m_i coin draw k (j + 1) (if j == 0 then decimal v else overlap ref_str v)

-- The tokens that strtok finds between colons, with what was read of the next one.
unfoldable pub tokens : Text → Text → List Text
tokens [] [] = []
tokens (a ∷ read) [] = (a ∷ read) ∷ []
tokens [] (b ∷ s) =
    let skipped = tokens [] s in
    let going = tokens (b ∷ []) s in if b == colon then skipped else going
tokens (a ∷ read) (b ∷ s) =
    let ended = (a ∷ read) ∷ tokens [] s in
    let going = tokens (a ∷ read ++ b ∷ []) s in if b == colon then ended else going

-- atoi for a text that begins with a digit, behind the digits with the value `v`.
unfoldable pub atoi_from : ℕ → Text → ℕ
atoi_from v [] = v
atoi_from v (b ∷ s) =
    let rest = atoi_from (v * 10 + (b - b'0')) s in if leb b'0' b && leb b b'9' then rest else v

abbrev pub atoi_all : List Text → List ℕ
atoi_all [] = []
atoi_all (t ∷ ts) = atoi_from 0 t ∷ atoi_all ts

-- char ref_str[1000], with the 0 at the end
abbrev pub ref_str_size : ℕ
ref_str_size = 1000

-- The numbers that the process asks for; strcpy past the end of its array is `none`.
unfoldable pub read_refs : Text → Option (List ℕ)
unfolding tokens atoi_from
read_refs argv_1 =
    if leb (length argv_1 + 1) ref_str_size then some (atoi_all (tokens [] argv_1)) else none
