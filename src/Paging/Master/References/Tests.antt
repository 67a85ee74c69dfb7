-- ===== src/Paging/Master/References/Tests.antt =====
-- A8/master.c and A8/process.c: a reference string.
use os_lab_sp.Prelude.{List, some, ◌++◌, ℕ, ◌+◌, ◌*◌, ◌%◌, ◌≡◌, refl, Bool, [], ◌∷◌, ◌==◌}
use os_lab_sp.Paging.Master.References.{
  Text, colon, decimal, ref_pages, ref_string, read_refs, digits, tokens, atoi_from,
}

-- Every third number may be illegal, in a memory with 200 pages and a process with 12.
abbrev coins : ℕ → Bool
coins j = j % 3 == 0

abbrev draws : ℕ → ℕ
draws j = 1000 + 37 * j

abbrev append_number : Text → ℕ → Text
append_number t v = t ++ colon ∷ decimal v

first_references :
    ref_string append_number 200 12 coins draws 4 0 []
    ≡ b'0' ∷ b':' ∷ b'5' ∷ b':' ∷ b'6' ∷ b':' ∷ b'1' ∷ b'1' ∷ b'1' ∷ []
unfolding ref_string digits
first_references = refl

read_again :
    read_refs (ref_string append_number 200 12 coins draws 4 0 []) ≡ some (0 ∷ 5 ∷ 6 ∷ 111 ∷ [])
unfolding ref_string digits read_refs tokens atoi_from
read_again = refl

abbrev text : Text
text = ref_string append_number 200 12 coins draws 29 0 []

abbrev pages : List ℕ
pages = ref_pages 200 12 coins draws 29 0
