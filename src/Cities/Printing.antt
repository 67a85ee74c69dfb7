-- ===== src/Cities/Printing.antt =====
-- A1/proctree_21CS30009.c: the processes print the tree below a city, each city before its children.
use Prim.Native.String.{String}
use mathlib.Core.List.{append_assoc}
use os_lab_sp.Prelude.{
  ℕ, zero, suc, ◌+◌, ◌≡◌, refl, List, [], ◌∷◌, ◌++◌, some, length, get_elem?, ap, ◌∙◌,
  length-append, arith, ◌≤◌,
}
use os_lab_sp.Cities.Reading.{IsAtoi}
use os_lab_sp.Cities.{City, find_city, Line, city_line, run_children, print_city, print_found}

-- A city and the trees of its children.
mutual
  pub data Tree : Type 0 where
    node : String → Forest → Tree

  pub data Forest : Type 0 where
    nil : Forest
    cons : Tree → Forest → Forest

abbrev pub root : Tree → String
root (node name ts) = name

abbrev pub roots : Forest → List String
roots nil = []
roots (cons t ts) = root t ∷ roots ts

-- Its lines: each city before its children, and one step further out.
unfoldable mutual
  pub preorder : ℕ → Tree → List Line
  preorder indent (node name ts) = city_line indent name ∷ preorder_all (indent + 1) ts

  pub preorder_all : ℕ → Forest → List Line
  preorder_all indent nil = []
  preorder_all indent (cons t ts) = preorder indent t ++ preorder_all indent ts

-- The file has the tree: each city of it is found with the names of its children.
unfoldable mutual
  pub Has : List City → Tree → Type 0
  Has cities (node name ts) =
      (find_city name cities
        ≡ some (record { city_name = name; children = roots ts; num_children = length (roots ts) }))
      × HasAll cities ts

  pub HasAll : List City → Forest → Type 0
  HasAll cities nil = Unit
  HasAll cities (cons t ts) = Has cities t × HasAll cities ts

-- The generations of a tree, bounded.
unfoldable mutual
  pub Within : ℕ → Tree → Type 0
  Within zero t = ⊥
  Within (suc depth) (node name ts) = WithinAll depth ts

  pub WithinAll : ℕ → Forest → Type 0
  WithinAll depth nil = Unit
  WithinAll depth (cons t ts) = Within depth t × WithinAll depth ts

-- The names of the children from a place on.
get_from :
    (done : List String) (name : String) (rest : List String)
    → get_elem? (done ++ name ∷ rest) (length done) ≡ some name
get_from [] name rest = refl
get_from (x ∷ done) name rest = get_from done name rest

module _ (limit : ℕ) (atoi : String → ℕ) (text : ℕ → String) (num : IsAtoi limit atoi text)
    (cities : List City) where
  mutual
    unfolding print_city print_found run_children preorder Has Within

    prints :
        (t : Tree) (depth indent : ℕ)
        → Has cities t
        → Within depth t
        → indent + depth ≤ limit
        → print_city atoi text depth cities indent (root t) ≡ some (preorder indent t)
    prints (node name ts) zero indent h w few = absurd w
    prints (node name ts) (suc depth) indent h w few =
        let level : atoi (text (indent + 1)) ≡ indent + 1 =
          num.reads (indent + 1) (omega (arith, few)) in
        let rest = prints_all ts [] depth (indent + 1) h.1 w (omega (arith, few)) in
        ap (print_found (print_city atoi text depth cities (atoi (text (indent + 1)))) indent name)
          h.0
        ∙ rw (level, rest) refl

    prints_all :
        (ts : Forest) (done : List String) (depth indent : ℕ)
        → HasAll cities ts
        → WithinAll depth ts
        → indent + depth ≤ limit
        → run_children
            (print_city atoi text depth cities indent)
            (length (roots ts))
            (length done)
            (done ++ roots ts)
          ≡ some (preorder_all indent ts)
    prints_all nil done depth indent h w few = refl
    prints_all (cons t ts) done depth indent h w few =
        let longer : length (done ++ root t ∷ []) ≡ length done + 1 =
          length-append done (root t ∷ []) in
        let regrouped = append_assoc done (root t ∷ []) (roots ts) in
        let rest =
          rw (longer, regrouped) at
            (prints_all ts (done ++ root t ∷ []) depth indent h.1 w.1 few) in
        rw (get_from done (root t) (roots ts), prints t depth indent h.0 w.0 few, rest) refl

  -- If the file has the tree below a city, within the given number of generations, and the numbers up to
  -- the deepest indentation are read back as they were written: the processes print each city of the
  -- tree once, in the order of a walk that takes a city before its children, and with the indentation
  -- of its depth.
  pub print_city-preorder :
      (t : Tree) (depth indent : ℕ)
      → Has cities t
      → Within depth t
      → indent + depth ≤ limit
      → print_city atoi text depth cities indent (root t) ≡ some (preorder indent t)
  print_city-preorder t depth indent h w few = prints t depth indent h w few
