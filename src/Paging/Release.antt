-- ===== src/Paging/Release.antt =====
-- A8/mmu.c: the loop that releases the frames of a process.
use os_lab_sp.Prelude.{
  ℕ, zero, suc, ◌+◌, ◌<◌, ◌≤◌, Bool, true, none, some, arith, ◌≡◌, ◌≢◌, refl, inl, inr,
  Option-cases, dec_lt, ap, ◌∙◌, ◌⊎◌,
}
use os_lab_sp.Paging.{Entry, Memory, update, update₂}
use os_lab_sp.Paging.Mmu.{release_page, release_from, release_all}
use os_lab_sp.Paging.Owned.{frame_of, IsOwned}

-- Nothing but the page tables and the free list differs.
pub record Kept (s t : Memory) : Type 0 where
  pub k : t.k ≡ s.k
  pub m : t.m ≡ s.m
  pub f : t.f ≡ s.f
  pub table : t.table ≡ s.table
  pub count : t.count ≡ s.count
  pub terminated : t.terminated ≡ s.terminated
  pub to_sched : t.to_sched ≡ s.to_sched
  pub to_process : t.to_process ≡ s.to_process

pub Kept-frames :
    (s : Memory) (pt : ℕ → ℕ → Entry) (free : ℕ → Bool) → Kept s (record s { pt = pt; free = free })
Kept-frames s pt free = record {
  k = refl;
  m = refl;
  f = refl;
  table = refl;
  count = refl;
  terminated = refl;
  to_sched = refl;
  to_process = refl;
}

pub Kept-trans : (s t u : Memory) → Kept s t → Kept t u → Kept s u
Kept-trans s t u a b = record {
  k = b.k ∙ a.k;
  m = b.m ∙ a.m;
  f = b.f ∙ a.f;
  table = b.table ∙ a.table;
  count = b.count ∙ a.count;
  terminated = b.terminated ∙ a.terminated;
  to_sched = b.to_sched ∙ a.to_sched;
  to_process = b.to_process ∙ a.to_process;
}

-- The state after the frame `fr` of the entry `i` is released.
abbrev vacated : ℕ → ℕ → ℕ → Memory → Memory
vacated p i fr s = record s {
  free = update s.free fr true;
  pt = update₂ s.pt p i (record (s.pt p i) { frame = none; valid_bit = 0; lru_ctr = 0 });
}

module _ (p i : ℕ) (s : Memory) where
  release_page-none : frame_of s.pt p i ≡ none → release_page p i s ≡ s
  unfolding release_page
  release_page-none e = rw (e, release_page)

  release_page-some : (fr : ℕ) → frame_of s.pt p i ≡ some fr → release_page p i s ≡ vacated p i fr s
  unfolding release_page
  release_page-some fr e = rw (e, release_page)

  vacated-Owned : (fr : ℕ) → frame_of s.pt p i ≡ some fr → IsOwned s → IsOwned (vacated p i fr s)
  vacated-Owned fr held v = record {
    below = λ q l g h. ground (arith, v.below q l g, v.unique q l p i fr);
    unique = λ q l q' l' g h h'. ground (arith, v.unique q l q' l' g);
    valid = λ q l. ground (arith, v.valid q l);
    covered = λ g hg h.
        let (q, l, e) = v.covered g hg (ground arith) in
        (q, l, ground (arith, v.unique q l p i fr));
  }

-- What a release leaves: no frame in the entries from `i` up to `j` of `p`, all else as before; the
-- frames of those entries are free, and a frame that was free stays so.
pub record Released (p i j : ℕ) (s t : Memory) : Type 0 where
  pub kept : Kept s t
  pub owned : IsOwned t
  pub cleared : (l : ℕ) → i ≤ l → l < j → frame_of t.pt p l ≡ none
  pub others : (q l : ℕ) → (q ≢ p) ⊎ (l < i) ⊎ (j ≤ l) → t.pt q l ≡ s.pt q l
  pub freed : (l fr : ℕ) → i ≤ l → l < j → frame_of s.pt p l ≡ some fr → t.free fr ≡ true
  pub still_free : (fr : ℕ) → s.free fr ≡ true → t.free fr ≡ true

module _ (p i : ℕ) (s : Memory) (v : IsOwned s) where
  release_page-Released : Released p i (i + 1) s (release_page p i s)
  release_page-Released = elim (Option-cases (frame_of s.pt p i)) [
    | inl e ↦ rw (release_page-none p i s e) (record {
      kept = Kept-frames s s.pt s.free;
      owned = v;
      cleared = λ l a b. let same : l ≡ i = omega arith in rw same e;
      others = λ q l h. refl;
      freed = λ l fr a b h. let same : l ≡ i = omega arith in ground arith;
      still_free = λ fr h. h;
    })
    | inr (fr, e) ↦ rw (release_page-some p i s fr e) (record {
      kept = Kept-frames s _ _;
      owned = vacated-Owned p i s fr e v;
      cleared = λ l a b. ground arith;
      others = λ q l h. ground arith;
      freed = λ l g a b h. let same : l ≡ i = omega arith in ground arith;
      still_free = λ g h. ground arith;
    })
  ]

Released-trans :
    (p i n j : ℕ) (s t u : Memory)
    → i ≤ n
    → n ≤ j
    → Released p i n s t
    → Released p n j t u
    → Released p i j s u
Released-trans p i n j s t u h k a b = record {
  kept = Kept-trans s t u a.kept b.kept;
  owned = b.owned;
  cleared = λ l x y. elim (dec_lt l n) [
    | yes early ↦ ap (λ e. e.frame) (b.others p l (inr (inl early))) ∙ a.cleared l x early
    | no late ↦ b.cleared l (omega arith) y
  ];
  others = λ q l w. b.others q l (widen_late w) ∙ a.others q l (widen_early w);
  freed = λ l fr x y e. elim (dec_lt l n) [
    | yes early ↦ b.still_free fr (a.freed l fr x early e)
    | no late ↦
        b.freed l fr (omega arith) y
          (ap (λ e. e.frame) (a.others p l (inr (inr (omega arith)))) ∙ e)
  ];
  still_free = λ fr e. b.still_free fr (a.still_free fr e);
}
  where
    widen_late : {q l : ℕ} → (q ≢ p) ⊎ (l < i) ⊎ (j ≤ l) → (q ≢ p) ⊎ (l < n) ⊎ (j ≤ l)
    widen_late (inl d) = inl d
    widen_late (inr (inl d)) = inr (inl (omega arith))
    widen_late (inr (inr d)) = inr (inr d)

    widen_early : {q l : ℕ} → (q ≢ p) ⊎ (l < i) ⊎ (j ≤ l) → (q ≢ p) ⊎ (l < i) ⊎ (n ≤ l)
    widen_early (inl d) = inl d
    widen_early (inr (inl d)) = inr (inl d)
    widen_early (inr (inr d)) = inr (inr (omega arith))

pub release_from-Released :
    (n i p j : ℕ) (s : Memory) → IsOwned s → i + n ≡ j → Released p i j s (release_from n i p s)
unfolding release_from
release_from-Released zero i p j s v e = record {
  kept = Kept-frames s s.pt s.free;
  owned = v;
  cleared = λ l a b. absurd (omega arith);
  others = λ q l h. refl;
  freed = λ l fr a b h. absurd (omega arith);
  still_free = λ fr h. h;
}
release_from-Released (suc n) i p j s v e =
    let first = release_page-Released p i s v in
    let rest = release_from-Released n (i + 1) p j (release_page p i s) first.owned (omega arith) in
    Released-trans p i (i + 1) j s _ _ (omega arith) (omega arith) first rest

-- Releasing a process empties its table, frees its frames, and leaves the other tables alone.
pub release_all-Released :
    (p : ℕ) (s : Memory) → IsOwned s → Released p 0 (s.table p).m_i s (release_all p s)
unfolding release_all
release_all-Released p s v = release_from-Released (s.table p).m_i 0 p _ s v (omega arith)
