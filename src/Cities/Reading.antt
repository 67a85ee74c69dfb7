-- ===== src/Cities/Reading.antt =====
-- A1/proctree_21CS30009.c: reading the words of a list of cities gives the cities back.
use Prim.Native.String.{String}
use mathlib.Core.List.{append_assoc, append-nil}
use os_lab_sp.Prelude.{
  ℕ, suc, ◌+◌, ◌-◌, ◌≤◌, ◌<◌, ◌≡◌, refl, true, false, List, [], ◌∷◌, ◌++◌, some, ◌==◌, leb, ltb,
  if◌then◌else◌, length, get_elem?, set, map, arith, ap, ◌∙◌, sym, length-append, Bool-cases, inl,
  inr,
}
use os_lab_sp.Cities.{
  City, make_node, Reader, reader_init, is_number, read_parent, put_child, add_child, read_child,
  read_word, read_file, fits, max_children, max_cities,
}

-- A line of the file: a city and its children.
abbrev pub Record : Type 0
Record = String × List String

abbrev pub city_of : Record → City
city_of (name, kids) = record { city_name = name; children = kids; num_children = length kids }

-- The words of the file, with `text` as the numbers in writing.
abbrev pub words_of : (ℕ → String) → List Record → List String
words_of text [] = []
words_of text ((name, kids) ∷ rest) = name ∷ text (length kids) ∷ (kids ++ words_of text rest)

-- A name does not start with a digit and has at most 99 bytes.
abbrev pub IsName : String → Type 0
IsName name = (is_number name ≡ false) × (fits name ≡ true)

abbrev pub AreNames : List String → Type 0
AreNames [] = Unit
AreNames (name ∷ names) = IsName name × AreNames names

-- A city has at most ten children.
abbrev pub AreRecords : List Record → Type 0
AreRecords [] = Unit
AreRecords ((name, kids) ∷ rest) =
    IsName name × AreNames kids × (length kids ≤ max_children) × AreRecords rest

-- What the program relies on in atoi and in sprintf, for the numbers up to a limit: a number in writing starts
-- with a digit, is short, and is read back.
pub record IsAtoi (limit : ℕ) (atoi : String → ℕ) (text : ℕ → String) : Type 0 where
  pub starts : (n : ℕ) → n ≤ limit → is_number (text n) ≡ true
  pub short : (n : ℕ) → n ≤ limit → fits (text n) ≡ true
  pub reads : (n : ℕ) → n ≤ limit → atoi (text n) ≡ n

get_last : (acc : List City) (c : City) → get_elem? (acc ++ c ∷ []) (length acc) ≡ some c
get_last [] c = refl
get_last (x ∷ acc) c = get_last acc c

set_last : (acc : List City) (c d : City) → set (acc ++ c ∷ []) (length acc) d ≡ acc ++ d ∷ []
set_last [] c d = refl
set_last (x ∷ acc) c d = ap (x ∷◌) (set_last acc c d)

-- The number of children that is stored after `got` of `total` were read.
abbrev stored : ℕ → ℕ → ℕ
stored total got = if got == 0 then 0 else total

put_next :
    (kid : String) (c : City)
    → put_child (length c.children) kid c ≡ some (record c { children = c.children ++ kid ∷ [] })
unfolding put_child
put_next kid c =
    let below : ltb (length c.children) (length c.children) ≡ false = ground arith in
    let at_end : (length c.children == length c.children) ≡ true = ground arith in
    rw (below, at_end) refl

-- The city `name` after the children `got`, of `total`.
abbrev half_read : String → ℕ → List String → City
half_read name total got = record {
  city_name = name;
  children = got;
  num_children = stored total (length got);
}

add_kid :
    (name kid : String) (got : List String) (left total : ℕ)
    → total ≡ length got + suc left
    → total ≤ max_children
    → add_child kid total (suc left) (half_read name total got)
      ≡ some (half_read name total (got ++ kid ∷ []))
unfolding add_child
add_kid name kid got left total e h =
    let index : total - suc left ≡ length got = omega (arith, e) in
    let room : leb max_children (length got) ≡ false = ground (arith, e) in
    let more : stored total (length (got ++ kid ∷ [])) ≡ total =
      ground (arith, length-append got (kid ∷ [])) in
    elim (Bool-cases (total == suc left)) [
      | inl first ↦
          let c : City = record { city_name = name; children = got; num_children = total } in
          rw (index, room, first) (put_next kid c ∙ rw more refl)
      | inr later ↦
          let counted : stored total (length got) ≡ total = ground (arith, later, e) in
          rw (index, room, later)
            (put_next kid (half_read name total got) ∙ rw (more, counted) refl)
    ]

module _ (acc : List City) (name : String) where
  abbrev midway : List String → ℕ → ℕ → Reader
  midway got total left = record {
    cities = acc ++ half_read name total got ∷ [];
    i_children = left;
    total_children = total;
    parent_index = length acc;
  }

  read_kid :
      (kid : String) (got : List String) (left total : ℕ)
      → total ≡ length got + suc left
      → total ≤ max_children
      → read_child kid (midway got total (suc left)) ≡ some (midway (got ++ kid ∷ []) total left)
  unfolding read_child
  read_kid kid got left total e h =
      let less : suc left - 1 ≡ left = omega arith in
      rw
        (
          get_last acc (half_read name total got),
          add_kid name kid got left total e h,
          set_last acc (half_read name total got) (half_read name total (got ++ kid ∷ [])),
          less,
        )
        refl

  read_kids :
      (atoi : String → ℕ) (kids words got : List String) (total : ℕ)
      → AreNames kids
      → total ≡ length got + length kids
      → total ≤ max_children
      → read_file atoi (kids ++ words) (midway got total (length kids))
        ≡ read_file atoi words (midway (got ++ kids) total 0)
  unfolding read_file read_word
  read_kids atoi [] words got total names e h = rw (append-nil got) refl
  read_kids atoi (kid ∷ kids) words got total names e h =
      let named = names.0.0 in
      let longer : total ≡ length (got ++ kid ∷ []) + length kids =
        omega (arith, e, length-append got (kid ∷ [])) in
      let positive : (suc (length kids) == 0) ≡ false = ground arith in
      let rest = read_kids atoi kids words (got ++ kid ∷ []) total names.1 longer h in
      rw (names.0.1, named, positive, read_kid kid got (length kids) total e h)
        (rest
          ∙ ap (λ g. read_file atoi words (midway g total 0)) (append_assoc got (kid ∷ []) kids))

module _ (limit : ℕ) (atoi : String → ℕ) (text : ℕ → String) (num : IsAtoi limit atoi text)
    (enough : max_children ≤ limit) where
  read_record :
      (name : String) (kids words : List String) (r : Reader)
      → IsName name
      → AreNames kids
      → length kids ≤ max_children
      → r.i_children ≡ 0
      → length r.cities < max_cities
      → (t : Reader) × (read_file atoi (name ∷ text (length kids) ∷ (kids ++ words)) r
          ≡ read_file atoi words t)
        × (t.cities ≡ r.cities ++ city_of (name, kids) ∷ [])
        × (t.i_children ≡ 0)
  unfolding read_file read_word read_parent make_node
  read_record name kids words r named kids_named few idle room =
      let n = length kids in
      let start : (r.i_children == 0) ≡ true = ground (arith, idle) in
      let below : leb max_cities (length r.cities) ≡ false = ground (arith, room) in
      let within : n ≤ limit = omega (arith, few, enough) in
      let final : stored n n ≡ n = ground arith in
      (
        midway r.cities name kids n 0,
        rw
            (
              named.1,
              named.0,
              start,
              below,
              num.short n within,
              num.starts n within,
              num.reads n within,
            )
            (read_kids r.cities name atoi kids words [] n kids_named (omega arith) few),
        rw final refl,
        refl,
      )

  read_records :
      (rs : List Record) (r : Reader)
      → AreRecords rs
      → r.i_children ≡ 0
      → length r.cities + length rs ≤ max_cities
      → (t : Reader) × (read_file atoi (words_of text rs) r ≡ some t)
        × (t.cities ≡ r.cities ++ map city_of rs)
  unfolding read_file
  read_records [] r good idle room = (r, refl, sym (append-nil r.cities))
  read_records ((name, kids) ∷ rs) r good idle room =
      let (t, run, cities, still) =
        read_record name kids (words_of text rs) r good.0 good.1 good.2 idle
          (omega (arith, room)) in
      let size = ap length cities ∙ length-append r.cities (city_of (name, kids) ∷ []) in
      let (u, ends, all) = read_records rs t good.3 still (omega (arith, size, room)) in
      (
        u,
        run ∙ ends,
        all
            ∙ ap (λ c. c ++ map city_of rs) cities
            ∙ append_assoc r.cities (city_of (name, kids) ∷ []) (map city_of rs),
      )

  -- If the names do not start with a digit and have at most 99 bytes, there are at most 100 cities with at
  -- most ten children each, and the numbers up to ten are short, start with a digit and are read by atoi
  -- as they are written: reading the words of the cities gives exactly these cities.
  pub read_file-words_of :
      (rs : List Record)
      → AreRecords rs
      → length rs ≤ max_cities
      → (r : Reader) × (read_file atoi (words_of text rs) reader_init ≡ some r)
        × (r.cities ≡ map city_of rs)
  unfolding reader_init
  read_file-words_of rs good room = read_records rs reader_init good refl (omega (arith, room))
