-- ===== src/Sorting/Check.antt =====
-- A5/boss.c: the loops that check the list.
use os_lab_sp.Prelude.{
  ℕ, zero, suc, ◌+◌, ◌-◌, ◌≤◌, ◌<◌, ◌≡◌, ◌↔◌, refl, Bool, true, false, arith, Bool-cases, inl, inr,
  subst, sym, ℕ_discrete,
}
use os_lab_sp.Sorting.{clash, check_row, check_from}

module _ (n : ℕ) (edge : ℕ → ℕ → Bool) (list : ℕ → ℕ) where
  check_row_iff :
      (k i j : ℕ)
      → (check_row n edge k list i j ≡ true)
        ↔ ((c : ℕ) → j ≤ c → c < j + k → clash n edge list i c ≡ false)
  unfolding check_row
  check_row_iff zero i j = ((λ e c lo hi. absurd (omega arith)), λ h. refl)
  check_row_iff (suc k) i j =
      let (to, from) = check_row_iff k i (j + 1) in
      elim (Bool-cases (clash n edge list i j)) [
        | inl bad ↦ (
          (λ e. absurd (ground (arith, e, bad))),
          λ h. absurd (ground (arith, h j (omega arith) (omega arith), bad)),
        )
        | inr good ↦ rw good (
          (λ e c lo hi. elim (ℕ_discrete c j) [
            | yes same ↦ subst (λ x. clash n edge list i x ≡ false) (sym same) good
            | no other ↦ to e c (omega arith) (omega arith)
          ]),
          λ h. from (λ c lo hi. h c (omega arith) (omega arith)),
        )
      ]

  -- Neither is any place of the list before a place that it has to follow, nor does a number stand twice.
  abbrev pub IsClear : ℕ → Type 0
  IsClear i = (a c : ℕ) → i ≤ a → a < c → c < n → clash n edge list a c ≡ false

  pub check_from_iff : (k i : ℕ) → i + k ≡ n → (check_from n edge k list i ≡ true) ↔ IsClear i
  unfolding check_from
  check_from_iff zero i e = ((λ t a c lo mid hi. absurd (omega arith)), λ h. refl)
  check_from_iff (suc k) i e =
      let (to, from) = check_from_iff k (i + 1) (omega (arith, e)) in
      let (row_to, row_from) = check_row_iff (n - (i + 1)) i (i + 1) in
      elim (Bool-cases (check_row n edge (n - (i + 1)) list i (i + 1))) [
        | inl good ↦ rw good (
          (λ t a c lo mid hi. elim (ℕ_discrete a i) [
            | yes same ↦
                subst (λ x. clash n edge list x c ≡ false) (sym same)
                  (row_to good c (omega arith) (omega arith))
            | no other ↦ to t a c (omega arith) mid hi
          ]),
          λ h. from (λ a c lo mid hi. h a c (omega arith) mid hi),
        )
        | inr bad ↦ (
          (λ t. absurd (ground (arith, t, bad))),
          λ h.
              let row = row_from (λ c lo hi. h i c (omega arith) (omega arith) (omega arith)) in
              absurd (ground (arith, row, bad)),
        )
      ]
