-- ===== src/Generate/Gengraph/Tests.antt =====
-- A5/gengraph.c: a small graph.
use os_lab_sp.Prelude.{ℕ, ◌+◌, ◌<◌, ◌≤◌, ◌≡◌, refl, Bool, true, [], ◌∷◌, ltb}
use os_lab_sp.Generate.{shuffled}
use os_lab_sp.Generate.Gengraph.{gengraph, graph_text, row_text, fill, fill_row, read_edge}
use os_lab_sp.Generate.Gengraph.Sortable.{gengraph_sortable}
use os_lab_sp.Sorting.{check_from}

-- The values of rand(), and an edge for each pair whose numbers differ by one.
abbrev dice : ℕ → ℕ
dice k = k + 1

abbrev coin : ℕ → ℕ → Bool
coin i j = ltb j (i + 2)

three_vertices :
    graph_text 3 3 0 (gengraph dice coin (λ i j. 9) 3) ≡ 0 ∷ 0 ∷ 1 ∷ 1 ∷ 0 ∷ 0 ∷ 0 ∷ 0 ∷ 0 ∷ []
unfolding graph_text row_text gengraph fill fill_row shuffled
three_vertices = refl

gengraph_sortable_example :
    ((a b : ℕ) → a < 3 → b < 3 → gengraph dice coin (λ i j. 9) 3 a b ≤ 1)
    × ((i : ℕ) → i < 3 → (a : ℕ) × (a < 3) × (shuffled dice 3 3 a ≡ i))
    × (check_from 3
          (read_edge 3 (graph_text 3 3 0 (gengraph dice coin (λ i j. 9) 3)))
          3
          (shuffled dice 3 3)
          0
        ≡ true)
gengraph_sortable_example = gengraph_sortable dice coin (λ i j. 9) 3
