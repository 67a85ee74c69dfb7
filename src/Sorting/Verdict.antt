-- ===== src/Sorting/Verdict.antt =====
-- A5/boss.c: what the verdict of the boss says of the list.
use os_lab_sp.Prelude.{
  ℕ, zero, suc, ◌≤◌, ◌<◌, ◌≡◌, ◌≢◌, ◌↔◌, refl, Bool, true, false, List, some, leb, arith,
  Bool-cases, inl, inr, subst, ap, ◌∙◌, ℕ_discrete, leb→le,
}
use os_lab_sp.Prelude.Family.{sum_below}
use os_lab_sp.Sorting.{
  Phase, waiting, storing, counting, unlocking, notifying, releasing, finished, Board, board_init,
  work_all, check_from, boss,
}
use os_lab_sp.Sorting.Check.{check_from_iff}
use os_lab_sp.Sorting.Orders.{Reached-IsListing}
use os_lab_sp.Sorting.Listing.{
  is_listed, has_notified, listed_weight, notified_weight, IsListing, Reached,
}

-- A weight of at most 1 that adds up to the number of its places is 1 everywhere.
module _ (w : Phase → ℕ) (unit : (p : Phase) → w p ≤ 1) (f : ℕ → Phase) where
  sum_below-le : (n : ℕ) → sum_below w n f ≤ n
  unfolding sum_below
  sum_below-le zero = omega arith
  sum_below-le (suc n) = omega (arith, unit (f n), sum_below-le n)

  full_sum : (n i : ℕ) → n ≤ sum_below w n f → i < n → w (f i) ≡ 1
  unfolding sum_below
  full_sum zero i full h = absurd (omega arith)
  full_sum (suc n) i full h =
      let most = sum_below-le n in
      let last = unit (f n) in
      elim (ℕ_discrete i n) [
        | yes e ↦ let same = ap (λ x. w (f x)) e in omega (arith, most, last, same, full)
        | no other ↦ full_sum n i (omega (arith, last, full)) (omega arith)
      ]

notified_weight-le : (p : Phase) → notified_weight p ≤ 1
notified_weight-le p = ground arith

notified-listed : (p : Phase) → has_notified p ≡ true → is_listed p ≡ true
notified-listed (releasing k) h = refl
notified-listed finished h = refl
notified-listed (waiting k) h = cc
notified-listed storing h = cc
notified-listed counting h = cc
notified-listed unlocking h = cc
notified-listed notifying h = cc

-- A sum that is 1 everywhere.
sum_below-ones :
    (w : Phase → ℕ) (f : ℕ → Phase) (n : ℕ) → ((i : ℕ) → i < n → w (f i) ≡ 1) → sum_below w n f ≡ n
unfolding sum_below
sum_below-ones w f zero h = refl
sum_below-ones w f (suc n) h =
    omega (arith, h n (omega arith), sum_below-ones w f n (λ i g. h i (omega arith)))

module _ (n : ℕ) (edge : ℕ → ℕ → Bool) where
  -- Once the boss has its notifications every worker is listed.
  all_listed :
      (b : Board) → IsListing n b → n ≤ b.ntfy → (i : ℕ) → i < n → is_listed (b.phase i) ≡ true
  all_listed b v enough i h =
      let noted =
        full_sum notified_weight notified_weight-le b.phase n i (omega (arith, v.notices, enough))
          h in
      notified-listed (b.phase i) (ground (arith, noted))

  all_places : (b : Board) → IsListing n b → n ≤ b.ntfy → b.idx ≡ n
  all_places b v enough =
      v.size
      ∙ sum_below-ones listed_weight b.phase n
          (λ i h. let shown = all_listed b v enough i h in ground (arith, shown))

  verdict-clear :
      (b : Board)
      → IsListing n b
      → b.idx ≡ n
      → (check_from n edge n b.list 0 ≡ true)
        ↔ ((a c : ℕ) → a < c → c < n → edge (b.list c) (b.list a) ≡ false)
  verdict-clear b v e =
      let (to, from) = check_from_iff n edge b.list n 0 (omega arith) in
      (
        (λ t a c lo hi. ground (arith, to t a c (omega arith) lo hi)),
        λ h.
            from (λ a c lo mid hi.
              ground (arith, h a c mid hi, v.distinct a c mid (omega (arith, e)))),
      )

  -- Whatever the order of the steps of the workers: once the boss gives a verdict, each number below n
  -- stands in the list of n places, no number stands twice, and the verdict is that no edge leads from a
  -- place of the list to an earlier one.
  pub verdict_right :
      (garbage : ℕ → ℕ) (order : List ℕ) (b : Board) (v : Bool)
      → work_all n edge order (board_init n edge garbage) ≡ some b
      → boss n edge b ≡ some v
      → ((i : ℕ) → i < n → (a : ℕ) × (a < n) × (b.list a ≡ i))
        × ((a c : ℕ) → a < c → c < n → b.list a ≢ b.list c)
        × ((v ≡ true) ↔ ((a c : ℕ) → a < c → c < n → edge (b.list c) (b.list a) ≡ false))
  unfolding boss
  verdict_right garbage order b v e verdict = elim (Bool-cases (leb n b.ntfy)) [
    | inr few ↦ absurd (ground (arith, verdict, few))
    | inl enough ↦
        let w : IsListing n b =
          subst (Reached (IsListing n)) e (Reached-IsListing n edge garbage order) in
        let full = all_places b w (leb→le n b.ntfy enough) in
        let same : check_from n edge n b.list 0 ≡ v = ground (arith, verdict, enough) in
        (
          λ i h.
              let (a, below, there) = w.place_of i (all_listed b w (leb→le n b.ntfy enough) i h) in
              (a, omega (arith, below, full), there),
          λ a c lo hi. w.distinct a c lo (omega (arith, full)),
          subst (λ x. (x ≡ true) ↔ ((a c : ℕ) → a < c → c < n → edge (b.list c) (b.list a) ≡ false))
              same (verdict-clear b w full),
        )
  ]
