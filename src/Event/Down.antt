-- ===== src/Event/Down.antt =====
-- A6/event.c: the loop that initEQ and delevent share, and the heap that initEQ builds.
use mathlib.Core.List.Perm
use os_lab_sp.Prelude.{
  ℕ, zero, suc, ◌+◌, ◌*◌, ◌≤◌, ◌<◌, ◌≡◌, ◌≢◌, ◌⊎◌, refl, inl, inr, true, false, some, arith, ◌==◌,
  leb, if◌then◌else◌, length, Bool-cases,
}
use os_lab_sp.Event.{EventQ, precedes, lower_child, sift_down, heapify, at, swapped, load-at}
use os_lab_sp.Event.Order.{
  NotAfter, parent, IsHeapFrom, Sifts, Sifts-swap, swap-some, length-swapped, at-swapped,
  precedes_sound, precedes_complete,
}

-- From `lo` on, only the edges below `i` may be out of order.
pub record DownInv (lo : ℕ) (q : EventQ) (i : ℕ) : Type 0 where
  pub edges :
      (c : ℕ)
      → 0 < c
      → c < length q
      → lo ≤ parent c
      → parent c ≢ i
      → NotAfter (at q (parent c)) (at q c)
  pub bridged :
      (c : ℕ)
      → 0 < c
      → c < length q
      → parent c ≡ i
      → 0 < i
      → lo ≤ parent i
      → NotAfter (at q (parent i)) (at q c)

-- `m` is a child of `i` that is not after the other one.
record IsLowerChild (q : EventQ) (i m : ℕ) : Type 0 where
  inside : m < length q
  child : (m ≡ 2 * i + 1) ⊎ (m ≡ 2 * i + 2)
  least : (c : ℕ) → 0 < c → c < length q → parent c ≡ i → NotAfter (at q m) (at q c)

module _ (q : EventQ) (i : ℕ) (has_child : 2 * i + 1 < length q) where
  only_child : 2 * i + 2 ≡ length q → IsLowerChild q i (2 * i + 1)
  only_child e = record {
    inside = has_child;
    child = inl refl;
    least = λ c p r s. let c' : c ≡ 2 * i + 1 = omega arith in ground arith;
  }

  left_child :
      precedes (at q (2 * i + 1)) (at q (2 * i + 2)) ≡ true
      → 2 * i + 2 < length q
      → IsLowerChild q i (2 * i + 1)
  left_child t h = record {
    inside = has_child;
    child = inl refl;
    least = λ c p r s.
        let c' : (c ≡ 2 * i + 1) ⊎ (c ≡ 2 * i + 2) = omega arith in
        ground (arith, precedes_sound (at q (2 * i + 1)) (at q (2 * i + 2)) t);
  }

  right_child :
      precedes (at q (2 * i + 1)) (at q (2 * i + 2)) ≡ false
      → 2 * i + 2 < length q
      → IsLowerChild q i (2 * i + 2)
  right_child t h = record {
    inside = h;
    child = inr refl;
    least = λ c p r s.
        let c' : (c ≡ 2 * i + 1) ⊎ (c ≡ 2 * i + 2) = omega arith in
        ground (arith, precedes_complete (at q (2 * i + 1)) (at q (2 * i + 2)) t);
  }

  lower_child-some : (m : ℕ) × (lower_child q i ≡ some m) × IsLowerChild q i m
  unfolding lower_child
  lower_child-some = elim (Bool-cases (2 * i + 2 == length q)) [
    | inl last ↦ rw last (2 * i + 1, refl, only_child (ground arith))
    | inr more ↦
        let h : 2 * i + 2 < length q = ground arith in
        rw (more, load-at q (2 * i + 1) has_child, load-at q (2 * i + 2) h)
          (elim (Bool-cases (precedes (at q (2 * i + 1)) (at q (2 * i + 2)))) [
            | inl t ↦ rw t (2 * i + 1, refl, left_child t h)
            | inr t ↦ rw t (2 * i + 2, refl, right_child t h)
          ])
  ]

module _ (lo : ℕ) (q : EventQ) (i m : ℕ) (v : DownInv lo q i) (low : IsLowerChild q i m) where
  outer : i < length q
  outer = omega (arith, low.inside, low.child)

  swapped-DownInv : precedes (at q i) (at q m) ≡ false → DownInv lo (swapped q i m) m
  swapped-DownInv late =
      let size = length-swapped q i m outer low.inside in
      let entry = at-swapped q i m outer low.inside in
      let later = precedes_complete (at q i) (at q m) late in
      record {
        edges = λ c p r s t. ground (
          arith,
          size,
          later,
          low.child,
          entry c,
          entry (parent c),
          v.edges c,
          v.bridged m,
          v.bridged c,
          low.least c,
        );
        bridged = λ c p r s t u.
            ground
              (arith, size, later, low.child, entry c, entry (parent m), v.edges c, low.least c);
      }

  stop-IsHeapFrom : precedes (at q i) (at q m) ≡ true → IsHeapFrom lo q
  stop-IsHeapFrom early c p r s =
      ground (arith, v.edges c, low.least c, precedes_sound (at q i) (at q m) early)

  sift_down-step :
      lower_child q i ≡ some m
      → (k : ℕ)
      → sift_down (suc k) q i
        ≡ (if precedes (at q i) (at q m) then some q else sift_down k (swapped q i m) m)
  unfolding sift_down
  sift_down-step e k = elim (Bool-cases (leb (length q) (2 * i + 1))) [
    | inl leaf ↦ absurd (ground (arith, low.inside, low.child))
    | inr inner ↦
        rw (inner, e, load-at q i outer, load-at q m low.inside, swap-some q i m outer low.inside)
  ]

-- With fuel for the rest of the array the loop ends, in order from `lo`, with the same events.
pub sift_down_restores :
    (k lo : ℕ) (q : EventQ) (i : ℕ)
    → length q < k + i
    → 0 < k
    → DownInv lo q i
    → Sifts lo q (sift_down k q i)
unfolding sift_down
sift_down_restores zero lo q i f g v = absurd (omega arith)
sift_down_restores (suc k) lo q i f g v = elim (Bool-cases (leb (length q) (2 * i + 1))) [
  | inl leaf ↦ rw leaf (q, refl, (λ c p r s. ground (arith, v.edges c)), Perm.rfl)
  | inr inner ↦
      let (m, e, low) = lower_child-some q i (ground arith) in
      let ih = sift_down_restores k lo (swapped q i m) m in
      let hi = outer lo q i m v low in
      elim (Bool-cases (precedes (at q i) (at q m))) [
        | inl early ↦
            rw (sift_down-step lo q i m v low e k, early)
              (q, refl, stop-IsHeapFrom lo q i m v low early, Perm.rfl)
        | inr late ↦
            rw (sift_down-step lo q i m v low e k, late)
              (Sifts-swap q i m hi low.inside (
                ih (omega (arith, length-swapped q i m hi low.inside, low.child))
                  (omega (arith, low.inside, low.child)) (swapped-DownInv lo q i m v low late)))
      ]
]

-- Each round of the loop of initEQ puts one more parent in order.
pub heapify_orders : (j : ℕ) (q : EventQ) → IsHeapFrom j q → Sifts 0 q (heapify j q)
unfolding heapify
heapify_orders zero q h = (q, refl, h, Perm.rfl)
heapify_orders (suc j) q h =
    let start : DownInv j q j = record {
      edges = λ c p r s t. h c p r (omega arith);
      bridged = λ c p r s t u. absurd (omega arith);
    } in
    let (b, e, hb, pb) =
      sift_down_restores (length q + 1) j q j (omega arith) (omega arith) start in
    let (b', e', h', p') = heapify_orders j b hb in rw e (b', e', h', Perm.trans p' pb)
