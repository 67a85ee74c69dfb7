-- ===== src/Paging/Master/References/Replayed.antt =====
-- A8/master.c and A8/process.c: what the process asks for is what the master has drawn.
use os_lab_sp.Prelude.{ℕ, ◌+◌, ◌*◌, ◌<◌, ◌≤◌, ◌≡◌, Bool, List, [], ◌∷◌, ◌++◌, length}
use os_lab_sp.Paging.Master.References.{Text, colon, decimal, ref_pages}
use os_lab_sp.Paging.Master.References.Digits.{token_numbers}

abbrev pub AllBelow : ℕ → List ℕ → Type 0
AllBelow m [] = Unit
AllBelow m (x ∷ l) = (x < m) × AllBelow m l

-- What the program relies on in sprintf: writing a text to itself, and then more, appends.
abbrev pub Appends : (Text → ℕ → Text) → Type 0
Appends overlap = (t : Text) (v : ℕ) → overlap t v ≡ t ++ colon ∷ decimal v

module _ (m m_i : ℕ) (coin : ℕ → Bool) (draw : ℕ → ℕ) (some_page : 0 < m_i) (fits : m_i ≤ m) where
  module _ (few : m ≤ 1000) (overlap : Text → ℕ → Text) (appends : Appends overlap) where
    -- The rounds from `j` on append their numbers and at most 4 bytes each.
    record IsWritten (k j : ℕ) (ref_str result : Text) : Type 0 where
      numbers : token_numbers result ≡ token_numbers ref_str ++ ref_pages m m_i coin draw k j
      size : length result ≤ length ref_str + 4 * k
