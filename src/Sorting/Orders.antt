-- ===== src/Sorting/Orders.antt =====
-- A5/worker.c: the list in every order of the steps of the workers.
use os_lab_sp.Prelude.{
  ℕ, zero, suc, ◌≡◌, refl, Bool, List, [], ◌∷◌, ltb, arith, Bool-cases, Option-cases, inl, inr,
  subst, sym, ltb→lt,
}
use os_lab_sp.Prelude.Family.{sum_below}
use os_lab_sp.Sorting.{Phase, waiting, Board, indegree, board_init, work, work_all}
use os_lab_sp.Sorting.Listing.{
  listed_weight, notified_weight, IsListing, Reached, work_at-IsListing,
}

module _ (n : ℕ) (edge : ℕ → ℕ → Bool) where
  work-IsListing : (i : ℕ) (b : Board) → IsListing n b → Reached (IsListing n) (work n edge i b)
  unfolding work
  work-IsListing i b v = elim (Bool-cases (ltb i n)) [
    | inl small ↦ rw small (work_at-IsListing n edge i b v (ltb→lt i n small) (b.phase i) refl)
    | inr outside ↦ rw outside tt
  ]

  work_all-IsListing :
      (order : List ℕ) (b : Board) → IsListing n b → Reached (IsListing n) (work_all n edge order b)
  unfolding work_all
  work_all-IsListing [] b v = v
  work_all-IsListing (i ∷ order) b v = elim (Option-cases (work n edge i b)) [
    | inl e ↦ rw e tt
    | inr (c, e) ↦
        rw e (work_all-IsListing order c (subst (Reached (IsListing n)) e (work-IsListing i b v)))
  ]

  sum_below-waiting :
      (w : Phase → ℕ) (k : ℕ) (f : ℕ → ℕ)
      → ((m : ℕ) → w (waiting m) ≡ 0)
      → sum_below w k (λ i. waiting (f i)) ≡ 0
  unfolding sum_below
  sum_below-waiting w zero f h = refl
  sum_below-waiting w (suc k) f h = omega (arith, h (f k), sum_below-waiting w k f h)

  board_init-IsListing : (garbage : ℕ → ℕ) → IsListing n (board_init n edge garbage)
  unfolding board_init
  board_init-IsListing garbage = record {
    held = λ i h. cc;
    one = λ i j h k. cc;
    binary = omega arith;
    stored = λ i h. cc;
    listed = λ a h. absurd (omega arith);
    distinct = λ a c g h. absurd (omega arith);
    place_of = λ i h. cc;
    size = sym (sum_below-waiting listed_weight n (indegree n edge n) (λ m. refl));
    notices = sym (sum_below-waiting notified_weight n (indegree n edge n) (λ m. refl));
  }

  -- Every state that the workers reach from the start.
  pub Reached-IsListing :
      (garbage : ℕ → ℕ) (order : List ℕ)
      → Reached (IsListing n) (work_all n edge order (board_init n edge garbage))
  Reached-IsListing garbage order =
      work_all-IsListing order (board_init n edge garbage) (board_init-IsListing garbage)
