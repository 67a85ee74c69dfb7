-- ===== src/Cities.antt =====
-- A1/proctree_21CS30009.c: a file of cities with their children is read into an array, and a process for
-- each city of a tree prints its line and runs the processes of its children one after the other.
-- The file is the list of its words, and atoi and `text`, which stands for sprintf with "%d", are parameters.
-- A node of a child is its name: its other fields are never read. Use of memory outside of the arrays
-- word, cities and children, or not written before, is `none`. The lines are in the order of the calls of
-- printf, which is that of the output where every line is written at once, as on a terminal.
pub mod Reading
pub mod Printing
pub mod Program
mod Tests
use Prim.Native.String
use Prim.Native.String.{String}
use Prim.Native.Char.{code}
use os_lab_sp.Prelude.{
  ℕ, zero, suc, ◌+◌, ◌-◌, Bool, true, false, List, [], ◌∷◌, ◌++◌, Option, none, some, ◌==◌, leb,
  ltb, ◌&&◌, not, if◌then◌else◌, ◌>>=◌, length, get_elem?, set,
}
use os_lab_sp.Prelude.Text.{same_name}

abbrev pub max_line : ℕ
max_line = 100

abbrev pub max_cities : ℕ
max_cities = 100

abbrev pub max_children : ℕ
max_children = 10

-- node; the array of children up to the last one that was written
pub record City : Type 0 where
  pub city_name : String
  pub children : List String
  pub num_children : ℕ

unfoldable pub make_node : String → ℕ → City
make_node name n = record { city_name = name; children = []; num_children = n }

-- The variables of the reading loop; i_cities is the length of the list.
pub record Reader : Type 0 where
  pub cities : List City
  pub i_children : ℕ
  pub total_children : ℕ
  pub parent_index : ℕ

unfoldable pub reader_init : Reader
reader_init = record { cities = []; i_children = 0; total_children = 0; parent_index = 0 }

-- word[0] >= '0' && word[0] <= '9'
abbrev pub is_number : String → Bool
is_number String.[] = false
is_number (String.◌∷◌ c rest) = leb b'0' (code c) && leb (code c) b'9'

-- The bytes of a word in UTF-8.
unfoldable pub byte_length : String → ℕ
byte_length String.[] = 0
byte_length (String.◌∷◌ c rest) =
    (if ltb (code c) 128
      then 1
      else if ltb (code c) 2048
      then 2
      else if ltb (code c) 65536
      then 3
      else 4)
    + byte_length rest

-- The array of fscanf has room for the word and its end.
unfoldable pub fits : String → Bool
unfolding byte_length
fits word = ltb (byte_length word) max_line

-- A word that starts a line.
unfoldable pub read_parent : String → Reader → Option Reader
unfolding make_node
read_parent word r =
    if leb max_cities (length r.cities)
    then none
    else some
        (record r { cities = r.cities ++ make_node word 0 ∷ []; parent_index = length r.cities })

-- children[i] = child
unfoldable pub put_child : ℕ → String → City → Option City
put_child i word c =
    if ltb i (length c.children)
    then some (record c { children = set c.children i word })
    else if i == length c.children
    then some (record c { children = c.children ++ word ∷ [] })
    else none

-- A child of the city, with `left` children to read; the first one sets the number of children.
unfoldable pub add_child : String → ℕ → ℕ → City → Option City
unfolding put_child
add_child word total left c =
    let counted = if total == left then record c { num_children = total } else c in
    if leb max_children (total - left) then none else put_child (total - left) word counted

unfoldable pub read_child : String → Reader → Option Reader
unfolding add_child
read_child word r = do
  c ← get_elem? r.cities r.parent_index
  d ← add_child word r.total_children r.i_children c
  some (record r { cities = set r.cities r.parent_index d; i_children = r.i_children - 1 })

module _ (atoi : String → ℕ) where
  -- The body of the loop for one word.
  unfoldable pub read_word : String → Reader → Option Reader
  unfolding read_parent read_child fits
  read_word word r =
      if not (fits word)
      then none
      else if is_number word
      then some (record r { i_children = atoi word; total_children = atoi word })
      else if r.i_children == 0
      then read_parent word r
      else read_child word r

  unfoldable pub read_file : List String → Reader → Option Reader
  unfolding read_word
  read_file [] r = some r
  read_file (word ∷ words) r = read_word word r >>= read_file words

-- The search for the root.
unfoldable pub find_city : String → List City → Option City
find_city name [] = none
find_city name (c ∷ cities) = if same_name c.city_name name then some c else find_city name cities

-- A line of the output; `indent` stands for four spaces each.
pub data Line : Type 0 where
  city_line : (indent : ℕ) → String → Line
  not_found : String → Line

-- for (int i = 0; i < num_children; i++), with `n` rounds left: each child is a run of the program.
unfoldable pub run_children :
    (String → Option (List Line)) → ℕ → ℕ → List String → Option (List Line)
run_children run zero i children = some []
run_children run (suc n) i children = do
  name ← get_elem? children i
  lines ← run name
  rest ← run_children run n (i + 1) children
  some (lines ++ rest)

-- After the search: a city that is not there is an error.
unfoldable pub print_found :
    (String → Option (List Line)) → ℕ → String → Option City → Option (List Line)
unfolding run_children
print_found run indent name none = some (not_found name ∷ [])
print_found run indent name (some c) = do
  lines ← run_children run c.num_children 0 c.children
  some (city_line indent c.city_name ∷ lines)

module _ (atoi : String → ℕ) (text : ℕ → String) where
  -- The program after reading, for processes of at most `depth` generations. A child takes its indentation
  -- from its argument.
  unfoldable pub print_city : ℕ → List City → ℕ → String → Option (List Line)
  unfolding print_found find_city
  print_city zero cities indent name = none
  print_city (suc depth) cities indent name =
      print_found (print_city depth cities (atoi (text (indent + 1)))) indent name
        (find_city name cities)

-- main, with the file read once for all processes. More than `depth` generations are undefined too.
pub data Exit : Type 0 where
  usage : Exit
  printed : List Line → Exit
  undefined : Exit

abbrev pub exit_of : Option (List Line) → Exit
exit_of none = undefined
exit_of (some lines) = printed lines

unfoldable pub run_program : (String → ℕ) → (ℕ → String) → List String → ℕ → List String → Exit
unfolding read_file print_city reader_init
run_program atoi text file depth [] = usage
run_program atoi text file depth (name ∷ []) =
    exit_of (read_file atoi file reader_init >>= λ r. print_city atoi text depth r.cities 0 name)
run_program atoi text file depth (name ∷ indent ∷ more) = exit_of (
    read_file atoi file reader_init >>= λ r. print_city atoi text depth r.cities (atoi indent) name)
