-- ===== src/Cities/Program.antt =====
-- A1/proctree_21CS30009.c: from the file to the lines.
use Prim.Native.String.{String}
use os_lab_sp.Prelude.{ℕ, ◌≤◌, ◌≡◌, arith, List, [], ◌∷◌, ◌>>=◌, length, map, ap, ◌∙◌}
use os_lab_sp.Cities.{print_city, max_cities, max_children, printed, exit_of, run_program}
use os_lab_sp.Cities.Reading.{Record, city_of, words_of, AreRecords, IsAtoi, read_file-words_of}
use os_lab_sp.Cities.Printing.{Tree, root, preorder, Has, Within, print_city-preorder}

-- If the file is that of at most 100 cities with at most ten children each, whose names do not start with a
-- digit and have at most 99 bytes; the numbers up to a limit are short, start with a digit and are read by
-- atoi as sprintf writes them; the limit is at least ten and the given number of generations; and the
-- cities have the tree below the given one within that number: the program prints each city of the tree
-- once, a city before its children, and with the indentation of its depth.
pub program_prints :
    (limit : ℕ) (atoi : String → ℕ) (text : ℕ → String) (rs : List Record) (t : Tree) (depth : ℕ)
    → IsAtoi limit atoi text
    → max_children ≤ limit
    → depth ≤ limit
    → AreRecords rs
    → length rs ≤ max_cities
    → Has (map city_of rs) t
    → Within depth t
    → run_program atoi text (words_of text rs) depth (root t ∷ []) ≡ printed (preorder 0 t)
unfolding run_program
program_prints limit atoi text rs t depth num ten deep good room has within =
    let (r, run, cities) = read_file-words_of limit atoi text num ten rs good room in
    ap (λ o. exit_of (o >>= λ s. print_city atoi text depth s.cities 0 (root t))) run
    ∙ ap (λ c. exit_of (print_city atoi text depth c 0 (root t))) cities
    ∙ ap exit_of (
        print_city-preorder limit atoi text num (map city_of rs) t depth 0 has within
          (omega (arith, deep)))
