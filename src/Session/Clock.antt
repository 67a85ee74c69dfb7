-- ===== src/Session/Clock.antt =====
-- A6/session.c: get_time.
use os_lab_sp.Prelude.{
  ℕ, zero, suc, ◌+◌, ◌-◌, ◌*◌, ◌/◌, ◌%◌, ◌≤◌, ◌<◌, ◌≡◌, refl, Bool, false, ltb, leb, ◌==◌,
  if◌then◌else◌, arith, ap, ◌∙◌,
}
use os_lab_sp.Prelude.Int.{ℤ, pos, negsuc, ◌⊖◌}

-- What is printed: hours and minutes as %02d, and pm or am.
pub record Time : Type 0 where
  pub hours : ℤ
  pub minutes : ℕ
  pub pm : Bool

unfoldable pub twelve_hours : ℤ → ℕ → Time
twelve_hours (pos h) m = record {
  hours = if ltb 12 h then pos (h - 12) else pos h;
  minutes = m;
  pm = leb 12 h;
}
twelve_hours (negsuc h) m = record { hours = negsuc h; minutes = m; pm = false }

unfoldable pub get_time : ℤ → Time
unfolding twelve_hours
get_time (pos t) = twelve_hours (pos (9 + t / 60)) (t % 60)
get_time (negsuc t) = twelve_hours (8 ⊖ ((t + 1) / 60)) (60 - (t + 1) % 60)

-- The minutes since midnight that the line shows, for hours from 1 to 12.
abbrev pub minutes_of : ℕ → ℕ → Bool → ℕ
minutes_of h m pm = (if h == 12 then (if pm then 12 else 0) else if pm then h + 12 else h) * 60 + m

-- From 9 until midnight, the time shown is `t` minutes after 9, with fewer than 60 minutes.
pub get_time-minutes_of :
    (t : ℕ)
    → t < 900
    → (h : ℕ) × ((get_time (pos t)).hours ≡ pos h)
      × (1 ≤ h)
      × (h ≤ 12)
      × ((get_time (pos t)).minutes < 60)
      × (minutes_of h (get_time (pos t)).minutes (get_time (pos t)).pm ≡ 540 + t)
unfolding get_time twelve_hours
get_time-minutes_of t h =
    let n = 9 + t / 60 in
    (
      if ltb 12 n then n - 12 else n,
      ground arith,
      ground arith,
      ground arith,
      omega arith,
      ground arith,
    )

diff-le : (n k : ℕ) → k ≤ n → n ⊖ k ≡ pos (n - k)
diff-le n zero h = ap pos (omega arith)
diff-le zero (suc k) h = absurd (omega arith)
diff-le (suc n) (suc k) h = diff-le n k (omega arith) ∙ ap pos (omega arith)

-- Every full hour before 9 is shown as minute 60 of the hour before.
pub get_time-full_hour :
    (k : ℕ)
    → 1 ≤ k
    → k ≤ 8
    → (get_time (negsuc (60 * k - 1)) ≡ record { hours = pos (8 - k); minutes = 60; pm = false })
unfolding get_time twelve_hours
get_time-full_hour k lo hi =
    let hour : (60 * k - 1 + 1) / 60 ≡ k = omega arith in
    let left : (60 * k - 1 + 1) % 60 ≡ 0 = omega arith in
    let below : ltb 12 (8 - k) ≡ false = ground arith in
    let am : leb 12 (8 - k) ≡ false = ground arith in
    rw (hour, left, diff-le 8 k hi, below, am) refl
