-- ===== src/Prodcons/Balance.antt =====
-- A4/prodcons_21CS30009.c: the counts of items agree.
use os_lab_sp.Prelude.{
  ℕ, ◌+◌, ◌≡◌, refl, Bool, true, false, List, [], ◌∷◌, Option, none, some, ◌==◌, if◌then◌else◌,
  arith, Bool-cases, Option-cases, inl, inr, subst, ap,
}
use os_lab_sp.Prodcons.{
  Mark, free, closed, addressed, is_free, is_addressed, Producer, ready, halfway, Stage, looking,
  reading, clearing, Market, market_init, produce, consume, Actor, the_producer, consumer, act,
  act_all,
}

-- 1 while the producer has still to count the item of consumer `j`.
abbrev pub uncounted : Producer → ℕ → ℕ
uncounted (ready orders) j = 0
uncounted (halfway item c orders) j = if c == j then 1 else 0

abbrev is_clearing : Stage → Bool
is_clearing clearing = true
is_clearing _ = false

abbrev is_looking : Stage → Bool
is_looking looking = true
is_looking _ = false

-- 1 while the item of consumer `j` is not read.
abbrev pub unread : Mark → Stage → ℕ → ℕ
unread m0 stage j = if is_addressed m0 j then (if is_clearing stage then 0 else 1) else 0

pub record IsBalanced (s : Market) : Type 0 where
  pub counts :
      (j : ℕ)
      → s.cons_itemc j + uncounted s.producer j
        ≡ (s.consumers j).itemc + unread s.m0 (s.consumers j).stage j
  pub busy : (j : ℕ) → is_looking (s.consumers j).stage ≡ false → is_addressed s.m0 j ≡ true
  pub ended : s.m0 ≡ closed → (j : ℕ) → uncounted s.producer j ≡ 0

abbrev pub Stepped : (Market → Type 0) → Option Market → Type 0
Stepped P none = Unit
Stepped P (some s) = P s

addressed_same : (m : Mark) (i j : ℕ) → is_addressed m i ≡ true → is_addressed m j ≡ true → i ≡ j
addressed_same free i j h k = cc
addressed_same closed i j h k = cc
addressed_same (addressed c) i j h k = ground arith

free-unaddressed : (m : Mark) (j : ℕ) → is_free m ≡ true → is_addressed m j ≡ false
free-unaddressed free j h = refl
free-unaddressed closed j h = cc
free-unaddressed (addressed c) j h = cc

-- Nobody is past the test of M[0] while it is 0.
free-looking :
    (s : Market)
    → IsBalanced s
    → is_free s.m0 ≡ true
    → (j : ℕ)
    → (is_looking (s.consumers j).stage ≡ true)
      × (s.cons_itemc j + uncounted s.producer j ≡ (s.consumers j).itemc)
free-looking s v h j =
    let none_addressed = free-unaddressed s.m0 j h in
    (ground (arith, v.busy j), ground (arith, v.counts j))

consume-IsBalanced :
    (stage : Stage) (i : ℕ) (s : Market)
    → IsBalanced s
    → (s.consumers i).stage ≡ stage
    → Stepped IsBalanced (consume stage i s)
unfolding consume
consume-IsBalanced looking i s v e = elim (Bool-cases (is_addressed s.m0 i)) [
  | inr no_item ↦ rw no_item tt
  | inl item ↦ rw item (record {
    counts = λ j. ground (arith, v.counts j, e);
    busy = λ j h. ground (arith, v.busy j);
    ended = v.ended;
  })
]
consume-IsBalanced reading i s v e = record {
  counts = λ j. ground (arith, v.counts j, v.busy i, e);
  busy = λ j h. ground (arith, v.busy j, v.busy i, e);
  ended = v.ended;
}
consume-IsBalanced clearing i s v e = record {
  counts = λ j. ground (arith, v.counts j, v.busy i, v.busy j, e);
  busy = λ j h. absurd (ground (arith, v.busy i, v.busy j, e, addressed_same s.m0 i j));
  ended = λ c. cc;
}

looking-unread : (stage : Stage) → is_looking stage ≡ true → is_clearing stage ≡ false
looking-unread looking h = refl
looking-unread reading h = cc
looking-unread clearing h = cc

produce-IsBalanced :
    (p : Producer) (s : Market) → IsBalanced s → s.producer ≡ p → Stepped IsBalanced (produce p s)
unfolding produce
produce-IsBalanced (ready []) s v e = elim (Bool-cases (is_free s.m0)) [
  | inr taken ↦ rw taken tt
  | inl empty ↦ rw empty (record {
    counts = λ j. let (l, n) = free-looking s v empty j in ground (arith, n);
    busy = λ j h. let (l, n) = free-looking s v empty j in cc;
    ended = λ c j. rw e refl;
  })
]
produce-IsBalanced (ready ((item, c) ∷ orders)) s v e = elim (Bool-cases (is_free s.m0)) [
  | inr taken ↦ rw taken tt
  | inl empty ↦ rw empty (record {
    counts = λ j.
        let (l, n) = free-looking s v empty j in
        let before : uncounted s.producer j ≡ 0 = ap (λ p. uncounted p j) e in
        let unread_yet = looking-unread (s.consumers j).stage l in
        ground (arith, n, before, unread_yet);
    busy = λ j h. let (l, n) = free-looking s v empty j in cc;
    ended = λ h. cc;
  })
]
produce-IsBalanced (halfway item c orders) s v e = record {
  counts = λ j.
      let before : uncounted s.producer j ≡ uncounted (halfway item c orders) j =
        ap (λ p. uncounted p j) e in
      ground (arith, v.counts j, before);
  busy = v.busy;
  ended = λ h j. refl;
}

act-IsBalanced : (a : Actor) (s : Market) → IsBalanced s → Stepped IsBalanced (act a s)
unfolding act
act-IsBalanced the_producer s v = produce-IsBalanced s.producer s v refl
act-IsBalanced (consumer i) s v = consume-IsBalanced (s.consumers i).stage i s v refl

act_all-IsBalanced :
    (actors : List Actor) (s : Market) → IsBalanced s → Stepped IsBalanced (act_all actors s)
unfolding act_all
act_all-IsBalanced [] s v = v
act_all-IsBalanced (a ∷ actors) s v = elim (Option-cases (act a s)) [
  | inl e ↦ rw e tt
  | inr (t, e) ↦
      rw e (act_all-IsBalanced actors t (subst (Stepped IsBalanced) e (act-IsBalanced a s v)))
]

market_init-IsBalanced :
    (garbage : ℕ) (orders : List (ℕ × ℕ)) → IsBalanced (market_init garbage orders)
unfolding market_init
market_init-IsBalanced garbage orders = record {
  counts = λ j. refl;
  busy = λ j h. cc;
  ended = λ c j. refl;
}

-- Whatever the order of the steps, once M[0] is -1 each consumer has read as many items as the producer
-- has counted for it.
pub items_agree :
    (garbage : ℕ) (orders : List (ℕ × ℕ)) (actors : List Actor) (s : Market)
    → act_all actors (market_init garbage orders) ≡ some s
    → s.m0 ≡ closed
    → (j : ℕ) → (s.consumers j).itemc ≡ s.cons_itemc j
items_agree garbage orders actors s e over j =
    let start = market_init garbage orders in
    let v : IsBalanced s =
      subst (Stepped IsBalanced) e
        (act_all-IsBalanced actors start (market_init-IsBalanced garbage orders)) in
    let counted = v.ended over j in
    let shut : is_addressed s.m0 j ≡ false = ap (λ m. is_addressed m j) over in
    ground (arith, v.counts j, counted, shut)
