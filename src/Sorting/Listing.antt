-- ===== src/Sorting/Listing.antt =====
-- A5/worker.c: at each step of a worker, the list holds each worker that was there once.
use os_lab_sp.Prelude.{
  ℕ, zero, suc, ◌+◌, ◌-◌, ◌≤◌, ◌<◌, ◌≡◌, ◌≢◌, refl, Bool, true, false, Option, none, some, ◌==◌,
  if◌then◌else◌, arith, Bool-cases, inl, inr, subst, ap, sym, ◌∙◌, ℕ_discrete,
}
use os_lab_sp.Prelude.Family.{update, sum_below, sum_below-update}
use os_lab_sp.Sorting.{
  Phase, waiting, storing, counting, unlocking, notifying, releasing, finished, Board, enter_phase,
  work_at,
}

abbrev pub has_mtx : Phase → Bool
has_mtx storing = true
has_mtx counting = true
has_mtx unlocking = true
has_mtx _ = false

abbrev is_counting : Phase → Bool
is_counting counting = true
is_counting _ = false

abbrev pub is_listed : Phase → Bool
is_listed unlocking = true
is_listed notifying = true
is_listed (releasing k) = true
is_listed finished = true
is_listed _ = false

abbrev pub has_notified : Phase → Bool
has_notified (releasing k) = true
has_notified finished = true
has_notified _ = false

abbrev pub listed_weight : Phase → ℕ
listed_weight p = if is_listed p then 1 else 0

abbrev pub notified_weight : Phase → ℕ
notified_weight p = if has_notified p then 1 else 0

-- At most one worker has mtx; the first idx entries of the list are the workers that are listed, each
-- once; and the notifications are counted.
pub record IsListing (n : ℕ) (b : Board) : Type 0 where
  pub held : (i : ℕ) → has_mtx (b.phase i) ≡ true → b.mtx ≡ 0
  pub one : (i j : ℕ) → has_mtx (b.phase i) ≡ true → has_mtx (b.phase j) ≡ true → i ≡ j
  pub binary : b.mtx ≤ 1
  pub stored : (i : ℕ) → is_counting (b.phase i) ≡ true → b.list b.idx ≡ i
  pub listed : (a : ℕ) → a < b.idx → is_listed (b.phase (b.list a)) ≡ true
  pub distinct : (a c : ℕ) → a < c → c < b.idx → b.list a ≢ b.list c
  pub place_of : (i : ℕ) → is_listed (b.phase i) ≡ true → (a : ℕ) × (a < b.idx) × (b.list a ≡ i)
  pub size : b.idx ≡ sum_below listed_weight n b.phase
  pub notices : b.ntfy ≡ sum_below notified_weight n b.phase

abbrev pub Reached {ℓ} : (Board → Type ℓ) → Option Board → Type ℓ
Reached P none = Unit
Reached P (some b) = P b

counting-has_mtx : (p : Phase) → is_counting p ≡ true → has_mtx p ≡ true
counting-has_mtx counting h = refl
counting-has_mtx (waiting k) h = cc
counting-has_mtx storing h = cc
counting-has_mtx unlocking h = cc
counting-has_mtx notifying h = cc
counting-has_mtx (releasing k) h = cc
counting-has_mtx finished h = cc

module _ (n : ℕ) (edge : ℕ → ℕ → Bool) (i : ℕ) (b : Board) (v : IsListing n b) (small : i < n) where
  -- A step that keeps the list, and that nobody sees in the mutex, the list or the notices.
  stays :
      (p : Phase) (s : ℕ)
      → has_mtx (b.phase i) ≡ has_mtx p
      → is_counting p ≡ false
      → is_listed (b.phase i) ≡ is_listed p
      → has_notified (b.phase i) ≡ has_notified p
      → IsListing n (record b { syncid = s; phase = update b.phase i p })
  stays p s em ec el en =
      let places = sum_below-update listed_weight n i b.phase p small in
      let notes = sum_below-update notified_weight n i b.phase p small in
      record {
        held = λ j h. ground (arith, v.held j, v.held i, em);
        one = λ j k g h. ground (arith, v.one j k, v.one i k, v.one j i, em);
        binary = v.binary;
        stored = λ j h. ground (arith, v.stored j, ec);
        listed = λ a h. ground (arith, v.listed a h, el);
        distinct = v.distinct;
        place_of = λ j h. v.place_of j (ground (arith, el));
        size = ground (arith, places, v.size, el);
        notices = ground (arith, notes, v.notices, en);
      }

  takes_mtx :
      (k : ℕ)
      → b.phase i ≡ waiting k
      → (b.mtx == 0) ≡ false
      → IsListing n (enter_phase n edge i storing (record b { mtx = b.mtx - 1 }))
  takes_mtx k e free =
      let places = sum_below-update listed_weight n i b.phase storing small in
      let notes = sum_below-update notified_weight n i b.phase storing small in
      record {
        held = λ j h. ground (arith, v.binary);
        one = λ j l g h. ground (arith, v.held j, v.held l, v.one j l);
        binary = ground (arith, v.binary);
        stored = λ j h. ground (arith, v.stored j);
        listed = λ a h. ground (arith, v.listed a h, e);
        distinct = v.distinct;
        place_of = λ j h. v.place_of j (ground (arith, e));
        size = ground (arith, places, v.size, e);
        notices = ground (arith, notes, v.notices, e);
      }

  stores :
      b.phase i ≡ storing
      → IsListing n (enter_phase n edge i counting (record b { list = update b.list b.idx i }))
  stores e =
      let places = sum_below-update listed_weight n i b.phase counting small in
      let notes = sum_below-update notified_weight n i b.phase counting small in
      record {
        held = λ j h. ground (arith, v.held j, v.held i, e);
        one = λ j l g h. ground (arith, v.one j l, v.one i l, v.one j i, e);
        binary = v.binary;
        stored = λ j h. ground (arith, v.one j i, e, counting-has_mtx (b.phase j));
        listed = λ a h. ground (arith, v.listed a h, e);
        distinct = λ a c g h. ground (arith, v.distinct a c g h);
        place_of = λ j h.
            let (a, below, there) = v.place_of j (ground (arith, e)) in
            (a, below, ground (arith, there, below));
        size = ground (arith, places, v.size, e);
        notices = ground (arith, notes, v.notices, e);
      }

  counts :
      b.phase i ≡ counting
      → IsListing n (enter_phase n edge i unlocking (record b { idx = b.idx + 1 }))
  counts e =
      let places = sum_below-update listed_weight n i b.phase unlocking small in
      let notes = sum_below-update notified_weight n i b.phase unlocking small in
      let here : b.list b.idx ≡ i = v.stored i (ground (arith, e)) in
      record {
        held = λ j h. ground (arith, v.held j, v.held i, e);
        one = λ j l g h. ground (arith, v.one j l, v.one i l, v.one j i, e);
        binary = v.binary;
        stored = λ j h. absurd (ground (arith, h, v.one j i, e, counting-has_mtx (b.phase j)));
        listed = λ a h. elim (ℕ_discrete a b.idx) [
          | yes last ↦ let entry = ap b.list last in ground (arith, entry, here)
          | no earlier ↦ ground (arith, v.listed a (omega arith))
        ];
        distinct = λ a c g h. elim (ℕ_discrete c b.idx) [
          | yes last ↦ λ same.
              let entry : b.list a ≡ i = same ∙ ap b.list last ∙ here in
              let shown : is_listed (b.phase i) ≡ true =
                subst (λ x. is_listed (b.phase x) ≡ true) entry (v.listed a (omega arith)) in
              absurd (ground (arith, shown, e))
          | no earlier ↦ v.distinct a c g (omega arith)
        ];
        place_of = λ j h. elim (ℕ_discrete j i) [
          | yes same ↦ (b.idx, omega arith, here ∙ sym same)
          | no other ↦
              let (a, below, there) = v.place_of j (ground arith) in
              (a, omega (arith, below), there)
        ];
        size = ground (arith, places, v.size, e);
        notices = ground (arith, notes, v.notices, e);
      }

  unlocks :
      b.phase i ≡ unlocking
      → IsListing n (enter_phase n edge i notifying (record b { mtx = b.mtx + 1 }))
  unlocks e =
      let places = sum_below-update listed_weight n i b.phase notifying small in
      let notes = sum_below-update notified_weight n i b.phase notifying small in
      record {
        held = λ j h. ground (arith, v.one j i, e);
        one = λ j l g h. ground (arith, v.one j l);
        binary = ground (arith, v.held i, e);
        stored = λ j h. ground (arith, v.stored j);
        listed = λ a h. ground (arith, v.listed a h, e);
        distinct = v.distinct;
        place_of = λ j h. v.place_of j (ground (arith, e));
        size = ground (arith, places, v.size, e);
        notices = ground (arith, notes, v.notices, e);
      }

  notifies :
      b.phase i ≡ notifying
      → IsListing n (enter_phase n edge i (releasing n) (record b { ntfy = b.ntfy + 1 }))
  notifies e =
      let places = sum_below-update listed_weight n i b.phase (releasing n) small in
      let notes = sum_below-update notified_weight n i b.phase (releasing n) small in
      record {
        held = λ j h. ground (arith, v.held j);
        one = λ j l g h. ground (arith, v.one j l);
        binary = v.binary;
        stored = λ j h. ground (arith, v.stored j);
        listed = λ a h. ground (arith, v.listed a h, e);
        distinct = v.distinct;
        place_of = λ j h. v.place_of j (ground (arith, e));
        size = ground (arith, places, v.size, e);
        notices = ground (arith, notes, v.notices, e);
      }

  pub work_at-IsListing : (p : Phase) → b.phase i ≡ p → Reached (IsListing n) (work_at n edge p i b)
  unfolding work_at
  work_at-IsListing (waiting (suc k)) e = elim (Bool-cases (b.syncid == 0)) [
    | inl blocked ↦ rw blocked tt
    | inr free ↦
        rw free (
          stays (waiting k) (b.syncid - 1) (ap has_mtx e) refl (ap is_listed e) (ap has_notified e))
  ]
  work_at-IsListing (waiting zero) e = elim (Bool-cases (b.mtx == 0)) [
    | inl blocked ↦ rw blocked tt
    | inr free ↦ rw free (takes_mtx 0 e free)
  ]
  work_at-IsListing storing e = stores e
  work_at-IsListing counting e = counts e
  work_at-IsListing unlocking e = unlocks e
  work_at-IsListing notifying e = notifies e
  work_at-IsListing (releasing (suc k)) e = elim (Bool-cases (edge i (n - suc k))) [
    | inl next ↦ rw next (
        stays (releasing k) (b.syncid + 1) (ap has_mtx e) refl (ap is_listed e) (ap has_notified e))
    | inr other ↦
        rw other
          (stays (releasing k) b.syncid (ap has_mtx e) refl (ap is_listed e) (ap has_notified e))
  ]
  work_at-IsListing (releasing zero) e =
      stays finished b.syncid (ap has_mtx e) refl (ap is_listed e) (ap has_notified e)
  work_at-IsListing finished e = tt
