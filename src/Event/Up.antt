-- ===== src/Event/Up.antt =====
-- A6/event.c: the loop of addevent restores the heap order.
use mathlib.Core.List.Perm
use os_lab_sp.Prelude.{
  ℕ, zero, suc, ◌<◌, ◌≡◌, ◌≢◌, refl, inl, inr, true, false, some, arith, ◌==◌, if◌then◌else◌,
  length, Bool-cases,
}
use os_lab_sp.Event.{EventQ, precedes, sift_up, at, swapped, load-at}
use os_lab_sp.Event.Order.{
  NotAfter, parent, IsHeapFrom, Sifts, Sifts-swap, swap-some, length-swapped, at-swapped,
  precedes_sound, precedes_complete,
}

-- Only the edge above `i` may be out of order.
pub record UpInv (q : EventQ) (i : ℕ) : Type 0 where
  pub inside : i < length q
  pub edges : (c : ℕ) → 0 < c → c < length q → c ≢ i → NotAfter (at q (parent c)) (at q c)
  pub bridged :
      (c : ℕ) → 0 < c → c < length q → parent c ≡ i → 0 < i → NotAfter (at q (parent i)) (at q c)

module _ (q : EventQ) (i : ℕ) (v : UpInv q i) (positive : 0 < i) where
  above : parent i < length q
  above = omega (arith, v.inside)

  swapped-UpInv :
      precedes (at q (parent i)) (at q i) ≡ false → UpInv (swapped q i (parent i)) (parent i)
  swapped-UpInv settled =
      let size = length-swapped q i (parent i) v.inside above in
      let entry = at-swapped q i (parent i) v.inside above in
      let later = precedes_complete (at q (parent i)) (at q i) settled in
      record {
        inside = omega (arith, size, above);
        edges = λ c p r s. ground (
          arith,
          size,
          later,
          entry c,
          entry (parent c),
          v.edges c,
          v.bridged c,
          v.edges (parent i),
        );
        bridged = λ c p r s t.
            ground (
              arith,
              size,
              later,
              entry c,
              entry (parent (parent i)),
              v.edges c,
              v.edges (parent i),
            );
      }

  sift_up-step :
      (k : ℕ)
      → sift_up (suc k) q i ≡ (
          if precedes (at q (parent i)) (at q i)
          then some q
          else sift_up k (swapped q i (parent i)) (parent i))
  unfolding sift_up
  sift_up-step k = elim (Bool-cases (i == 0)) [
    | inl root ↦ absurd (ground arith)
    | inr inner ↦ rw (
      inner,
      load-at q (parent i) above,
      load-at q i v.inside,
      swap-some q i (parent i) v.inside above,
    )
  ]

  stop-Sifts : precedes (at q (parent i)) (at q i) ≡ true → IsHeapFrom 0 q
  stop-Sifts early c p r s =
      ground (arith, v.edges c, precedes_sound (at q (parent i)) (at q i) early)

-- With fuel above `i` the loop ends, in a heap of the same events.
pub sift_up_restores : (k : ℕ) (q : EventQ) (i : ℕ) → i < k → UpInv q i → Sifts 0 q (sift_up k q i)
unfolding sift_up
sift_up_restores zero q i f v = absurd (omega arith)
sift_up_restores (suc k) q zero f v = (q, refl, λ c p r s. v.edges c p r (omega arith), Perm.rfl)
sift_up_restores (suc k) q (suc i) f v =
    let ih = sift_up_restores k (swapped q (suc i) (parent (suc i))) (parent (suc i)) in
    elim (Bool-cases (precedes (at q (parent (suc i))) (at q (suc i)))) [
      | inl early ↦
          rw (sift_up-step q (suc i) v (omega arith) k, early)
            (q, refl, stop-Sifts q (suc i) v (omega arith) early, Perm.rfl)
      | inr late ↦
          rw (sift_up-step q (suc i) v (omega arith) k, late)
            (Sifts-swap q (suc i) (parent (suc i)) v.inside (above q (suc i) v (omega arith))
              (ih (omega arith) (swapped-UpInv q (suc i) v (omega arith) late)))
    ]
