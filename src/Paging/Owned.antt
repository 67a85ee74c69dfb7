-- ===== src/Paging/Owned.antt =====
-- A8/mmu.c: every frame has at most one owner, the free list is exact, and no frame is lost.
use os_lab_sp.Prelude.{ℕ, ◌<◌, Bool, true, false, Option, none, some, arith, ◌≡◌, ℕ_discrete}
use os_lab_sp.Paging.{Entry, Process, Memory, update}
use os_lab_sp.Paging.Mmu.{place, replace}

abbrev pub frame_of : (ℕ → ℕ → Entry) → ℕ → ℕ → Option ℕ
frame_of pt p j = (pt p j).frame

-- The valid bit that belongs to a frame field.
abbrev pub bit : Option ℕ → ℕ
bit none = 0
bit (some fr) = 1

pub record Owned (k f : ℕ) (table : ℕ → Process) (pt : ℕ → ℕ → Entry) (free : ℕ → Bool)
    : Type 0 where
  -- A frame in a table is a frame of the machine and marked as taken, in a table of a process.
  pub below :
      (p j fr : ℕ)
      → frame_of pt p j ≡ some fr
      → (fr < f) × (free fr ≡ false) × (p < k) × (j < (table p).m_i)
  -- No frame is in two entries.
  pub unique :
      (p j q l fr : ℕ) → frame_of pt p j ≡ some fr → frame_of pt q l ≡ some fr → (p ≡ q) × (j ≡ l)
  pub valid : (p j : ℕ) → (pt p j).valid_bit ≡ bit (frame_of pt p j)
  -- A frame that is marked as taken is in some table.
  pub covered :
      (fr : ℕ) → fr < f → free fr ≡ false → (p : ℕ) × (j : ℕ) × (frame_of pt p j ≡ some fr)

abbrev pub IsOwned : Memory → Type 0
IsOwned s = Owned s.k s.f s.table s.pt s.free

-- The counters of a process do not matter.
pub table-Owned :
    {k f : ℕ} {table : ℕ → Process} {pt : ℕ → ℕ → Entry} {free : ℕ → Bool} (p : ℕ) (e : Process)
    → e.m_i ≡ (table p).m_i
    → Owned k f table pt free
    → Owned k f (update table p e) pt free
table-Owned p e same v = record {
  below = λ q j fr h. ground (arith, v.below q j fr h);
  unique = v.unique;
  valid = v.valid;
  covered = v.covered;
}

module _ (p j fr : ℕ) (s : Memory) (v : IsOwned s) where
  pub place-Owned :
      p < s.k
      → j < (s.table p).m_i
      → fr < s.f
      → s.free fr ≡ true
      → frame_of s.pt p j ≡ none
      → IsOwned (place p j fr s)
  unfolding place
  place-Owned hp hj hf is_free empty = record {
    below = λ q l g h. ground (arith, v.below q l g);
    unique =
        λ q l q' l' g h h'. ground (arith, v.below q l g, v.below q' l' g, v.unique q l q' l' g);
    valid = λ q l. ground (arith, v.valid q l);
    covered = λ g hg h. elim (ℕ_discrete g fr) [
      | yes same ↦ (p, j, ground arith)
      | no other ↦ let (q, l, e) = v.covered g hg (ground arith) in (q, l, ground arith)
    ];
  }

  pub replace-Owned :
      (w : ℕ)
      → j < (s.table p).m_i
      → frame_of s.pt p w ≡ some fr
      → frame_of s.pt p j ≡ none
      → IsOwned (replace p j w s)
  unfolding replace
  replace-Owned w hj held empty = record {
    below = λ q l g h. ground (arith, v.below q l g, v.below p w g);
    unique = λ q l q' l' g h h'.
        ground (arith, v.unique q l q' l' g, v.unique p w q l g, v.unique p w q' l' g);
    valid = λ q l. ground (arith, v.valid q l);
    covered = λ g hg h. elim (ℕ_discrete g fr) [
      | yes same ↦ (p, j, ground arith)
      | no other ↦ let (q, l, e) = v.covered g hg h in (q, l, ground arith)
    ];
  }
