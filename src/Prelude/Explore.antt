-- ===== src/Prelude/Explore.antt =====
-- Systems with few states: all states that are reached are computed, and a property is tested on each of them.
use Prim.Native.Nat.{ℕ, zero, suc, ◌+◌, ◌-◌, ◌<◌}
use mathlib.Core.Path.{◌≡◌, refl, subst, sym, ap, ◌∙◌}
use mathlib.Core.Bool.{Bool, true, false}
use mathlib.Core.Logic.{inl, inr}
use mathlib.Core.List.{List, [], ◌∷◌, ◌++◌}
use native.Mathlib.Omega.{arith}
use native.Mathlib.Decide.{dec_lt}
use os_lab_sp.Prelude.Tests.{if◌then◌else◌, Bool-cases}

-- An entry of a list.
pub data In {ℓ} {A : Type ℓ} (a : A) : List A → Type ℓ where
  here : {l : List A} → In a (a ∷ l)
  later : {b : A} {l : List A} → In a l → In a (b ∷ l)

-- `same` tells states apart, and `next` has the states after one step.
module _ {ℓ} {A : Type ℓ} (same : A → A → Bool) (next : A → List A) where
  unfoldable pub elem : A → List A → Bool
  elem a [] = false
  elem a (b ∷ l) = let rest = elem a l in if same a b then true else rest

  -- The states that were not seen.
  unfoldable pub fresh : List A → List A → List A
  unfolding elem
  fresh [] seen = []
  fresh (a ∷ l) seen = let rest = fresh l seen in if elem a seen then rest else a ∷ rest

  -- All states that are reached from those to visit, for a number of visits as fuel.
  unfoldable pub explore : ℕ → List A → List A → List A
  unfolding fresh
  explore zero visit seen = seen
  explore (suc k) [] seen = seen
  explore (suc k) (a ∷ visit) seen =
      let new = fresh (next a) seen in explore k (new ++ visit) (new ++ seen)

  unfoldable pub all : (A → Bool) → List A → Bool
  all p [] = true
  all p (a ∷ l) = let rest = all p l in if p a then rest else false

  -- Every step from a state of the list leads into the list.
  unfoldable pub is_closed : List A → Bool
  unfolding elem all
  is_closed l = all (λ a. all (λ b. elem b l) (next a)) l

  -- The states after one more step from any state of a list.
  unfoldable pub successors : List A → List A → List A
  unfolding fresh
  successors [] found = found
  successors (a ∷ l) found = successors l (fresh (next a) found ++ found)

  unfoldable pub level : ℕ → List A → List A
  unfolding successors
  level zero l = l
  level (suc k) l = level k (successors l [])

  -- The states that steps lead to.
  pub data Reach (start : A) : A → Type ℓ where
    begin : Reach start start
    on : {a b : A} → Reach start a → In b (next a) → Reach start b

  -- `n` steps.
  pub data Chain : ℕ → A → A → Type ℓ where
    done : {a : A} → Chain zero a a
    step : {n : ℕ} {a b c : A} → In b (next a) → Chain n b c → Chain (suc n) a c

  level-empty : (k : ℕ) → level k [] ≡ []
  unfolding level successors
  level-empty zero = refl
  level-empty (suc k) = level-empty k

  level-add : (m k : ℕ) (l : List A) → level (m + k) l ≡ level k (level m l)
  unfolding level
  level-add zero k l = let e : zero + k ≡ k = omega arith in ap (λ n. level n l) e
  level-add (suc m) k l =
      let e : suc m + k ≡ suc (m + k) = omega arith in
      ap (λ n. level n l) e ∙ level-add m k (successors l [])

  module _ (same-sound : (a b : A) → same a b ≡ true → a ≡ b) where
    all-elem : (p : A → Bool) (a : A) (l : List A) → all p l ≡ true → elem a l ≡ true → p a ≡ true
    unfolding all elem
    all-elem p a [] h e = absurd (ground (arith, e))
    all-elem p a (b ∷ l) h e = elim (Bool-cases (same a b)) [
      | inl equal ↦ subst (λ c. p c ≡ true) (sym (same-sound a b equal)) (ground (arith, h))
      | inr other ↦ all-elem p a l (ground (arith, h)) (ground (arith, e, other))
    ]

    all-In : (p : A → Bool) (a : A) (l : List A) → all p l ≡ true → In a l → p a ≡ true
    unfolding all
    all-In p a l h (here {l = rest}) = ground (arith, h)
    all-In p a l h (later {b} {l = rest} i) = all-In p a rest (ground (arith, h)) i

    Reach-elem :
        (start a : A) (l : List A)
        → elem start l ≡ true
        → is_closed l ≡ true
        → Reach start a
        → elem a l ≡ true
    unfolding is_closed
    Reach-elem start a l first closed begin = first
    Reach-elem start a l first closed (on {a = b} r i) =
        all-In (λ c. elem c l) a (next b)
          (all-elem (λ c. all (λ d. elem d l) (next c)) b l closed
            (Reach-elem start b l first closed r))
          i

    -- A property that holds of each state of the list holds of every state that is reached.
    pub Reach-all :
        (p : A → Bool) (start a : A) (l : List A)
        → elem start l ≡ true
        → is_closed l ≡ true
        → all p l ≡ true
        → Reach start a
        → p a ≡ true
    Reach-all p start a l first closed good r =
        all-elem p a l good (Reach-elem start a l first closed r)

    module _ (same-refl : (a : A) → same a a ≡ true) where
      elem-left : (a : A) (l r : List A) → elem a l ≡ true → elem a (l ++ r) ≡ true
      unfolding elem
      elem-left a [] r e = absurd (ground (arith, e))
      elem-left a (b ∷ l) r e = elim (Bool-cases (same a b)) [
        | inl equal ↦ ground (arith, equal)
        | inr other ↦ let rest = elem-left a l r (ground (arith, e, other)) in ground (arith, rest)
      ]

      elem-right : (a : A) (l r : List A) → elem a r ≡ true → elem a (l ++ r) ≡ true
      unfolding elem
      elem-right a [] r e = e
      elem-right a (b ∷ l) r e = let rest = elem-right a l r e in ground (arith, rest)

      elem-fresh : (a : A) (l seen : List A) → In a l → elem a (fresh l seen ++ seen) ≡ true
      unfolding fresh elem
      elem-fresh a l seen (here {l = rest}) = elim (Bool-cases (elem a seen)) [
        | inl old ↦ rw old (elem-right a (fresh rest seen) seen old)
        | inr new ↦ let self = same-refl a in rw new (ground (arith, self))
      ]
      elem-fresh a l seen (later {b} {l = rest} i) =
          let there = elem-fresh a rest seen i in
          elim (Bool-cases (elem b seen)) [
            | inl old ↦ rw old there
            | inr new ↦ rw new (ground (arith, there))
          ]

      successors-found :
          (b : A) (l found : List A) → elem b found ≡ true → elem b (successors l found) ≡ true
      unfolding successors
      successors-found b [] found e = e
      successors-found b (a ∷ l) found e =
          successors-found b l _ (elem-right b (fresh (next a) found) found e)

      elem-successors :
          (a b : A) (l found : List A)
          → elem a l ≡ true
          → In b (next a)
          → elem b (successors l found) ≡ true
      unfolding successors elem
      elem-successors a b [] found e i = absurd (ground (arith, e))
      elem-successors a b (c ∷ l) found e i = elim (Bool-cases (same a c)) [
        | inl equal ↦
            successors-found b l _
              (elem-fresh b (next c) found (subst (λ d. In b (next d)) (same-sound a c equal) i))
        | inr other ↦ elem-successors a b l _ (ground (arith, e, other)) i
      ]

      elem-level :
          (n : ℕ) (a b : A) (l : List A) → elem a l ≡ true → Chain n a b → elem b (level n l) ≡ true
      unfolding level
      elem-level zero a b l e done = e
      elem-level (suc n) a c l e (step {b} i rest) =
          elem-level n b c (successors l []) (elem-successors a b l [] e i) rest

      -- When no state is left after `m` steps, there are no `m` steps.
      pub Chain-lt : (m n : ℕ) (a b : A) → level m (a ∷ []) ≡ [] → Chain n a b → n < m
      unfolding elem
      Chain-lt m n a b none_left steps = elim (dec_lt n m) [
        | yes h ↦ h
        | no h ↦
            let self = same-refl a in
            let there = elem-level n a b (a ∷ []) (ground (arith, self)) steps in
            let split : n ≡ m + (n - m) = omega (arith, h) in
            let gone : level n (a ∷ []) ≡ [] =
              ap (λ k. level k (a ∷ [])) split
              ∙ level-add m (n - m) (a ∷ [])
              ∙ ap (level (n - m)) none_left
              ∙ level-empty (n - m) in
            let empty = ap (elem b) gone in absurd (ground (arith, there, empty))
      ]
