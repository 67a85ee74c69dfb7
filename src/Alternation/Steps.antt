-- ===== src/Alternation/Steps.antt =====
-- A5/examples/E1.c: the processes in any order.
use os_lab_sp.Prelude.{
  ℕ, ◌+◌, ◌≡◌, refl, List, [], ◌∷◌, some, ◌>>=◌, arith, ap, sym, ◌∙◌, subst, inl, inr, Option-cases,
  length,
}
use mathlib.Core.Option.{some-injective}
use os_lab_sp.Alternation.{
  Exchange, Partner, the_producer, the_consumer, exchange_step, exchange_all,
}
use os_lab_sp.Alternation.Kept.{steps_left, IsAlternating, Onward}
use os_lab_sp.Alternation.Producing.{producer_at-Onward}
use os_lab_sp.Alternation.Consuming.{consumer_at-Onward}

exchange_step-Onward :
    (n : ℕ) (s : Exchange) → IsAlternating n s → (a : Partner) → Onward n s (exchange_step a s)
unfolding exchange_step
exchange_step-Onward n s v the_producer = producer_at-Onward n s v s.producer refl
exchange_step-Onward n s v the_consumer = consumer_at-Onward n s v s.consumer refl

pub exchange_all-IsAlternating :
    (n : ℕ) (order : List Partner) (s t : Exchange)
    → IsAlternating n s
    → exchange_all order s ≡ some t
    → IsAlternating n t × (length order + steps_left t ≡ steps_left s)
unfolding exchange_all
exchange_all-IsAlternating n [] s t v e =
    let same = some-injective s t e in
    let same_left = ap steps_left (sym same) in
    (subst (IsAlternating n) same v, omega (arith, same_left))
exchange_all-IsAlternating n (a ∷ order) s t v e = elim (Option-cases (exchange_step a s)) [
  | inl missing ↦ absurd (ground (arith, e, missing))
  | inr (u, found) ↦
      let (w, less) = subst (Onward n s) found (exchange_step-Onward n s v a) in
      let (z, rest) =
        exchange_all-IsAlternating n order u t w
          (sym (ap (λ o. o >>= exchange_all order) found) ∙ e) in
      (z, omega (arith, less, rest))
]
