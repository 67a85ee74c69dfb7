-- ===== src/Paging/Master/Limits.antt =====
-- A8/master.c: the pages that get no frame at the start.
use os_lab_sp.Prelude.{
  ℕ, zero, suc, ◌+◌, ◌*◌, ◌/◌, ◌<◌, ◌≤◌, ◌≡◌, ◌≢◌, refl, leb, arith, sym, ◌∙◌, subst, Bool-cases,
  ℕ_discrete, inl, inr, ◌⊎◌,
}
use os_lab_sp.Paging.{Memory}
use os_lab_sp.Paging.Master.{grant, grant_pages, grant_all}

-- The loop over the pages of `p` keeps the tables of all sizes, and the pages that it does not get to.
grant_pages-sizes :
    (n j count quota p fn : ℕ) (s : Memory)
    → ((grant_pages n j count quota p fn s).1.table ≡ s.table)
      × ((grant_pages n j count quota p fn s).1.f ≡ s.f)
unfolding grant_pages grant
grant_pages-sizes zero j count quota p fn s = (refl, refl)
grant_pages-sizes (suc n) j count quota p fn s = elim (Bool-cases (leb quota count)) [
  | inl full ↦ rw full (refl, refl)
  | inr more ↦ rw more (grant_pages-sizes n (j + 1) (count + 1) quota p (fn + 1) (grant p j fn s))
]

grant-other : (p j fn q l : ℕ) (s : Memory) → (q ≢ p) ⊎ (l ≢ j) → (grant p j fn s).pt q l ≡ s.pt q l
unfolding grant
grant-other p j fn q l s (inl apart) = ground (arith, apart)
grant-other p j fn q l s (inr apart) = ground (arith, apart)

grant_pages-other :
    (n j count quota p fn q l : ℕ) (s : Memory)
    → (q ≢ p) ⊎ ((j + n ≤ l) ⊎ (quota + j ≤ l + count))
    → (grant_pages n j count quota p fn s).1.pt q l ≡ s.pt q l
unfolding grant_pages
grant_pages-other zero j count quota p fn q l s h = refl
grant_pages-other (suc n) j count quota p fn q l s h = elim (Bool-cases (leb quota count)) [
  | inl full ↦ rw full refl
  | inr more ↦
      let below : count < quota = ground (arith, more) in
      rw more (
        grant_pages-other n (j + 1) (count + 1) quota p (fn + 1) q l (grant p j fn s)
          (later h below)
        ∙ grant-other p j fn q l s (apart h below))
]
  where
    later :
        (q ≢ p) ⊎ ((j + suc n ≤ l) ⊎ (quota + j ≤ l + count))
        → count < quota
        → (q ≢ p) ⊎ ((j + 1 + n ≤ l) ⊎ (quota + (j + 1) ≤ l + (count + 1)))
    later (inl d) below = inl d
    later (inr (inl d)) below = inr (inl (omega (arith, d)))
    later (inr (inr d)) below = inr (inr (omega (arith, d)))

    apart :
        (q ≢ p) ⊎ ((j + suc n ≤ l) ⊎ (quota + j ≤ l + count)) → count < quota → (q ≢ p) ⊎ (l ≢ j)
    apart (inl d) below = inl d
    apart (inr (inl d)) below = inr (λ e. omega (arith, d, e))
    apart (inr (inr d)) below = inr (λ e. omega (arith, d, e, below))

-- The loop over the processes changes no page beyond the size or the share of its process.
pub grant_all-beyond :
    (n i c fn q l : ℕ) (s : Memory)
    → ((s.table q).m_i ≤ l) ⊎ (((s.table q).m_i * s.f) / c ≤ l)
    → (grant_all n i c fn s).pt q l ≡ s.pt q l
unfolding grant_all
grant_all-beyond zero i c fn q l s h = refl
grant_all-beyond (suc n) i c fn q l s h =
    let quota = ((s.table i).m_i * s.f) / c in
    let r = grant_pages (s.table i).m_i 0 0 quota i fn s in
    let (tables, frames) = grant_pages-sizes (s.table i).m_i 0 0 quota i fn s in
    let later : ((r.1.table q).m_i ≤ l) ⊎ (((r.1.table q).m_i * r.1.f) / c ≤ l) =
      subst (λ t. ((t q).m_i ≤ l) ⊎ (((t q).m_i * r.1.f) / c ≤ l)) (sym tables)
        (subst (λ f. ((s.table q).m_i ≤ l) ⊎ (((s.table q).m_i * f) / c ≤ l)) (sym frames) h) in
    grant_all-beyond n (i + 1) c r.0 q l r.1 later
    ∙ grant_pages-other (s.table i).m_i 0 0 quota i fn q l s (away (ℕ_discrete q i) h)
  where
    bound :
        ((s.table i).m_i ≤ l) ⊎ (((s.table i).m_i * s.f) / c ≤ l)
        → (0 + (s.table i).m_i ≤ l) ⊎ (((s.table i).m_i * s.f) / c + 0 ≤ l + 0)
    bound (inl d) = inl (omega (arith, d))
    bound (inr d) = inr (omega (arith, d))

    away :
        Dec (q ≡ i)
        → ((s.table q).m_i ≤ l) ⊎ (((s.table q).m_i * s.f) / c ≤ l)
        → (q ≢ i) ⊎ ((0 + (s.table i).m_i ≤ l) ⊎ (((s.table i).m_i * s.f) / c + 0 ≤ l + 0))
    away (no apart) h = inl apart
    away (yes same) h =
        inr (bound (subst (λ x. ((s.table x).m_i ≤ l) ⊎ (((s.table x).m_i * s.f) / c ≤ l)) same h))
