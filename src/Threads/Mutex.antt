-- ===== src/Threads/Mutex.antt =====
-- A7/foothread.c: the mutex excludes, and what its unlock does after V.
use os_lab_sp.Prelude.{
  ℕ, ◌≤◌, ◌≡◌, ◌≢◌, refl, Bool, true, false, List, [], ◌∷◌, Option, none, some, ◌==◌, arith,
  Option-cases, Bool-cases, inl, inr, subst, ap, ◌∙◌,
}
use os_lab_sp.Threads.{
  Place, outside, entering, holding, checked, unlocking, leaving, MutexState, mutex_init, go,
  access_at, access, interleave,
}

-- Between P of the lock and V of the unlock.
abbrev pub is_inside : Place → Bool
is_inside entering = true
is_inside holding = true
is_inside checked = true
is_inside unlocking = true
is_inside _ = false

pub record IsExclusive (s : MutexState) : Type 0 where
  pub taken : (i : ℕ) → is_inside (s.place i) ≡ true → s.value ≡ 0
  pub one : (i j : ℕ) → is_inside (s.place i) ≡ true → is_inside (s.place j) ≡ true → i ≡ j
  pub binary : s.value ≤ 1

abbrev pub Reached : (MutexState → Type 0) → Option MutexState → Type 0
Reached P none = Unit
Reached P (some s) = P s

-- A thread that is refused goes on outside.
stepped_out : (i : ℕ) (s : MutexState) → IsExclusive s → IsExclusive (go i outside s)
stepped_out i s v = record {
  taken = λ j h. ground (arith, v.taken j);
  one = λ j k a b. ground (arith, v.one j k);
  binary = v.binary;
}

access_at-IsExclusive :
    (p : Place) (i : ℕ) (s : MutexState)
    → IsExclusive s
    → s.place i ≡ p
    → Reached IsExclusive (access_at p i s)
unfolding access_at
access_at-IsExclusive outside i s v e = elim (Bool-cases (s.value == 0)) [
  | inl z ↦ rw z tt
  | inr z ↦ rw z (record {
    taken = λ j h. ground (arith, v.binary);
    one = λ j k a b. ground (arith, v.taken j, v.taken k, v.one j k);
    binary = ground (arith, v.binary);
  })
]
access_at-IsExclusive entering i s v e = record {
  taken = λ j h. ground (arith, v.taken j, v.taken i);
  one = λ j k a b. ground (arith, v.one j k, v.one i k, v.one j i);
  binary = v.binary;
}
access_at-IsExclusive holding i s v e = elim (Bool-cases (s.tid == i)) [
  | inl mine ↦ rw mine (record {
    taken = λ j h. ground (arith, v.taken j, v.taken i);
    one = λ j k a b. ground (arith, v.one j k, v.one i k, v.one j i);
    binary = v.binary;
  })
  | inr other ↦ rw other (stepped_out i s v)
]
access_at-IsExclusive checked i s v e = elim (Bool-cases (s.value == 1)) [
  | inl open_already ↦ rw open_already (stepped_out i s v)
  | inr closed ↦ rw closed (record {
    taken = λ j h. ground (arith, v.taken j, v.taken i);
    one = λ j k a b. ground (arith, v.one j k, v.one i k, v.one j i);
    binary = v.binary;
  })
]
access_at-IsExclusive unlocking i s v e = record {
  taken = λ j h. ground (arith, v.one j i);
  one = λ j k a b. ground (arith, v.one j k);
  binary = ground (arith, v.taken i);
}
access_at-IsExclusive leaving i s v e = record {
  taken = λ j h. ground (arith, v.taken j);
  one = λ j k a b. ground (arith, v.one j k);
  binary = v.binary;
}

-- In every order of the threads, the semaphore of the mutex stays at most 1, and no two threads are
-- between the lock and the unlock at once.
pub interleave-IsExclusive :
    (order : List ℕ) (s : MutexState) → IsExclusive s → Reached IsExclusive (interleave order s)
unfolding interleave access
interleave-IsExclusive [] s v = v
interleave-IsExclusive (i ∷ order) s v = elim (Option-cases (access_at (s.place i) i s)) [
  | inl e ↦ rw e tt
  | inr (t, e) ↦ rw e (
      interleave-IsExclusive order t
        (subst (Reached IsExclusive) e (access_at-IsExclusive (s.place i) i s v refl)))
]

-- One access, by the place of the thread.
access-at :
    (p : Place) (i : ℕ) (s : MutexState) (t : Option MutexState)
    → s.place i ≡ p
    → access_at p i s ≡ t
    → access i s ≡ t
unfolding access
access-at p i s t e f = ap (λ q. access_at q i s) e ∙ f

interleave-cons :
    (i : ℕ) (order : List ℕ) (s t : MutexState) (u : Option MutexState)
    → access i s ≡ some t
    → interleave order t ≡ u
    → interleave (i ∷ order) s ≡ u
unfolding interleave
interleave-cons i order s t u e f = rw e f

-- Thread `a` locks the mutex and goes past V of the unlock.
abbrev past_v : ℕ → MutexState
unfolding mutex_init
past_v a =
    let s = go a holding (record (go a entering (record mutex_init { value = 0 })) { tid = a }) in
    go a leaving (record (go a unlocking (go a checked s)) { value = 1 })

unlocks_up_to_v :
    (a : ℕ) (order : List ℕ) (u : Option MutexState)
    → interleave order (past_v a) ≡ u
    → interleave (a ∷ a ∷ a ∷ a ∷ a ∷ order) mutex_init ≡ u
unfolding past_v mutex_init access_at
unlocks_up_to_v a order u rest =
    let s1 = go a entering (record mutex_init { value = 0 }) in
    let s2 = go a holding (record s1 { tid = a }) in
    let s3 = go a checked s2 in
    let s4 = go a unlocking s3 in
    interleave-cons a (a ∷ a ∷ a ∷ a ∷ order) mutex_init s1 u
      (access-at outside a mutex_init (some s1) refl refl)
      (interleave-cons a (a ∷ a ∷ a ∷ order) s1 s2 u
        (access-at entering a s1 (some s2) (ground arith) refl)
        (interleave-cons a (a ∷ a ∷ order) s2 s3 u
          (access-at holding a s2 (some s3) (ground arith) (ground arith))
          (interleave-cons a (a ∷ order) s3 s4 u
            (access-at checked a s3 (some s4) (ground arith) refl)
            (interleave-cons a order s4 (past_v a) u
              (access-at unlocking a s4 (some (past_v a)) (ground arith) refl) rest))))

-- Thread `b` locks the mutex before `a` clears tid, and unlocks it after.
abbrev lost : ℕ → ℕ → MutexState
unfolding past_v
lost a b =
    let s = go b holding (record (go b entering (record (past_v a) { value = 0 })) { tid = b }) in
    go b outside (go a outside (record s { tid = 0 }))

lost-blocks :
    (a b : ℕ) → ((i : ℕ) → (lost a b).place i ≡ outside) × ((i : ℕ) → access i (lost a b) ≡ none)
unfolding lost past_v mutex_init access_at
lost-blocks a b =
    let out : (i : ℕ) → (lost a b).place i ≡ outside = λ i. ground arith in
    (out, λ i. access-at outside i (lost a b) none (out i) refl)

-- For two threads of different numbers, the second not 0: the unlock clears tid after V, so if the second
-- thread locks the mutex in between, its own unlock is refused. No thread is then inside, and none can
-- lock the mutex any more.
pub unlock_lost :
    (a b : ℕ)
    → a ≢ b
    → b ≢ 0
    → (t : MutexState) × (interleave (a ∷ a ∷ a ∷ a ∷ a ∷ b ∷ b ∷ a ∷ b ∷ []) mutex_init ≡ some t)
      × ((i : ℕ) → t.place i ≡ outside)
      × ((i : ℕ) → access i t ≡ none)
unfolding lost past_v mutex_init access_at interleave
unlock_lost a b ne pos =
    let s5 = past_v a in
    let s6 = go b entering (record s5 { value = 0 }) in
    let s7 = go b holding (record s6 { tid = b }) in
    let s8 = go a outside (record s7 { tid = 0 }) in
    let t = lost a b in
    let u = some t in
    let (out, stuck) = lost-blocks a b in
    let run =
      interleave-cons b (b ∷ a ∷ b ∷ []) s5 s6 u
        (access-at outside b s5 (some s6) (ground arith) refl)
        (interleave-cons b (a ∷ b ∷ []) s6 s7 u
          (access-at entering b s6 (some s7) (ground arith) refl)
          (interleave-cons a (b ∷ []) s7 s8 u (access-at leaving a s7 (some s8) (ground arith) refl)
            (interleave-cons b [] s8 t u (access-at holding b s8 u (ground arith) (ground arith))
              refl))) in
    (t, unlocks_up_to_v a (b ∷ b ∷ a ∷ b ∷ []) u run, out, stuck)
