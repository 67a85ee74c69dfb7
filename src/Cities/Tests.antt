-- ===== src/Cities/Tests.antt =====
-- A1/proctree_21CS30009.c: two cities below a third one.
use Prim.Native.String.{String}
use os_lab_sp.Prelude.{
  ℕ, zero, suc, ◌≡◌, ◌≤◌, refl, List, [], ◌∷◌, some, arith, true, map, if◌then◌else◌, ◌==◌,
}
use os_lab_sp.Prelude.Text.{same_name}
use os_lab_sp.Cities.{
  is_number, byte_length, fits, Reader, reader_init, read_word, read_parent, read_child, add_child,
  put_child, make_node, read_file, find_city, run_children, print_city, print_found, city_line,
  not_found, Exit, usage, printed, run_program,
}
use os_lab_sp.Cities.Reading.{
  Record, city_of, words_of, AreRecords, IsName, IsAtoi, read_file-words_of,
}
use os_lab_sp.Cities.Printing.{Tree, node, nil, cons, preorder, Has, Within}
use os_lab_sp.Cities.Program.{program_prints}

-- The numbers up to ten in writing.
abbrev text : ℕ → String
text n =
    if n == 0
    then "0"
    else if n == 1
    then "1"
    else if n == 2
    then "2"
    else if n == 3
    then "3"
    else if n == 4
    then "4"
    else if n == 5
    then "5"
    else if n == 6
    then "6"
    else if n == 7
    then "7"
    else if n == 8
    then "8"
    else if n == 9
    then "9"
    else "10"

abbrev atoi : String → ℕ
atoi s =
    if same_name s "1"
    then 1
    else if same_name s "2"
    then 2
    else if same_name s "3"
    then 3
    else if same_name s "4"
    then 4
    else if same_name s "5"
    then 5
    else if same_name s "6"
    then 6
    else if same_name s "7"
    then 7
    else if same_name s "8"
    then 8
    else if same_name s "9"
    then 9
    else if same_name s "10"
    then 10
    else 0

read_back :
    (n : ℕ) → n ≤ 10 → (is_number (text n) ≡ true) × (fits (text n) ≡ true) × (atoi (text n) ≡ n)
unfolding fits byte_length
read_back zero h = (refl, refl, refl)
read_back (suc zero) h = (refl, refl, refl)
read_back (suc (suc zero)) h = (refl, refl, refl)
read_back (suc (suc (suc zero))) h = (refl, refl, refl)
read_back (suc (suc (suc (suc zero)))) h = (refl, refl, refl)
read_back (suc (suc (suc (suc (suc zero))))) h = (refl, refl, refl)
read_back (suc (suc (suc (suc (suc (suc zero)))))) h = (refl, refl, refl)
read_back (suc (suc (suc (suc (suc (suc (suc zero))))))) h = (refl, refl, refl)
read_back (suc (suc (suc (suc (suc (suc (suc (suc zero)))))))) h = (refl, refl, refl)
read_back (suc (suc (suc (suc (suc (suc (suc (suc (suc zero))))))))) h = (refl, refl, refl)
read_back (suc (suc (suc (suc (suc (suc (suc (suc (suc (suc zero)))))))))) h = (refl, refl, refl)
read_back (suc (suc (suc (suc (suc (suc (suc (suc (suc (suc (suc n))))))))))) h =
    absurd (omega arith)

text-IsAtoi : IsAtoi 10 atoi text
text-IsAtoi = record {
  starts = λ n h. (read_back n h).0;
  short = λ n h. (read_back n h).1;
  reads = λ n h. (read_back n h).2;
}

abbrev file : List Record
file = ("Patna", "Ranchi" ∷ "Gaya" ∷ []) ∷ ("Ranchi", []) ∷ ("Gaya", []) ∷ []

abbrev below_patna : Tree
below_patna = node "Patna" (cons (node "Ranchi" nil) (cons (node "Gaya" nil) nil))

abbrev run_all : ℕ → List String → Exit
unfolding run_program read_file read_word fits byte_length read_parent read_child add_child
    put_child make_node reader_init print_city print_found run_children find_city
run_all depth args = run_program atoi text (words_of text file) depth args

whole_run :
    run_all 2 ("Patna" ∷ [])
    ≡ printed (city_line 0 "Patna" ∷ city_line 1 "Ranchi" ∷ city_line 1 "Gaya" ∷ [])
unfolding run_all
whole_run = refl

errors : (run_all 2 [] ≡ usage) × (run_all 2 ("Agra" ∷ []) ≡ printed (not_found "Agra" ∷ []))
unfolding run_all
errors = (refl, refl)

file-AreRecords : AreRecords file
unfolding fits byte_length
file-AreRecords =
    let good : IsName "Gaya" = (refl, refl) in
    (
      (refl, refl),
      ((refl, refl), (good, tt)),
      omega arith,
      ((refl, refl), tt, omega arith, (good, tt, omega arith, tt)),
    )

read_file-words_of_example :
    (r : Reader) × (read_file atoi (words_of text file) reader_init ≡ some r)
    × (r.cities ≡ map city_of file)
read_file-words_of_example =
    read_file-words_of 10 atoi text text-IsAtoi (omega arith) file file-AreRecords (omega arith)

below_patna-Has : Has (map city_of file) below_patna
unfolding Has find_city
below_patna-Has = (refl, ((refl, tt), ((refl, tt), tt)))

below_patna-Within : Within 2 below_patna
unfolding Within
below_patna-Within = (tt, (tt, tt))

program_prints_example :
    run_program atoi text (words_of text file) 2 ("Patna" ∷ []) ≡ printed (preorder 0 below_patna)
program_prints_example =
    program_prints 10 atoi text file below_patna 2 text-IsAtoi (omega arith) (omega arith)
      file-AreRecords (omega arith) below_patna-Has below_patna-Within
