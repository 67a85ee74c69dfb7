-- ===== src/Paging/Master.antt =====
-- A8/master.c: the shared memory at the start, and the frames that each process gets.
-- The values of rand() are arguments: `draw p` is the one that sizes the process p.
pub mod Shares
pub mod Limits
pub mod Allocation
pub mod References
use os_lab_sp.Prelude.{
  ℕ, zero, suc, ◌+◌, ◌*◌, ◌/◌, ◌%◌, Bool, true, false, [], Option, none, some, ◌>>=◌, ltb, ◌==◌,
  ◌&&◌, leb, if◌then◌else◌,
}
use os_lab_sp.Paging.{Memory, update, update₂}

-- What the first loop over the processes and the one over the free-frame list store.
unfoldable pub blank : ℕ → ℕ → ℕ → (ℕ → ℕ) → Memory
blank k m f draw = record {
  k = k;
  m = m;
  f = f;
  table = λ p. record { m_i = draw p % m + 1; total_faults = 0; total_invalid_refs = 0 };
  pt = λ p j. record { page = j; frame = none; lru_ctr = 0; valid_bit = 0 };
  free = λ l. true;
  count = 0;
  terminated = 0;
  to_sched = [];
  to_process = [];
}

-- rand() % m stops a program whose `m` is 0, unless there is no process.
unfoldable pub set_up : ℕ → ℕ → ℕ → (ℕ → ℕ) → Option Memory
unfolding blank
set_up k m f draw = if ltb 0 k && (m == 0) then none else some (blank k m f draw)

-- for (int i = 0; i < k; i++) cumulative_m_i += SM1[i].m_i, with `n` rounds left
unfoldable pub sum_sizes : ℕ → ℕ → Memory → ℕ → ℕ
sum_sizes zero i s cumulative = cumulative
sum_sizes (suc n) i s cumulative = sum_sizes n (i + 1) s (cumulative + (s.table i).m_i)

-- SM2[frame_num] = 0; the entry gets the frame.
unfoldable pub grant : ℕ → ℕ → ℕ → Memory → Memory
grant p j frame_num s = record s {
  free = update s.free frame_num false;
  pt = update₂ s.pt p j (record (s.pt p j) { frame = some frame_num; valid_bit = 1 });
}

-- The loop over the pages of the process p, with `n` of them left; frame_num goes along.
unfoldable pub grant_pages : ℕ → ℕ → ℕ → ℕ → ℕ → ℕ → Memory → ℕ × Memory
grant_pages zero j count page_frames p frame_num s = (frame_num, s)
grant_pages (suc n) j count page_frames p frame_num s =
    let next =
      grant_pages n (j + 1) (count + 1) page_frames p (frame_num + 1) (grant p j frame_num s) in
    if leb page_frames count then (frame_num, s) else next

-- The loop over the processes, with `n` of them left.
unfoldable pub grant_all : ℕ → ℕ → ℕ → ℕ → Memory → Memory
grant_all zero i cumulative frame_num s = s
grant_all (suc n) i cumulative frame_num s =
    let page_frames = ((s.table i).m_i * s.f) / cumulative in
    let (fn, t) = grant_pages (s.table i).m_i 0 0 page_frames i frame_num s in
    grant_all n (i + 1) cumulative fn t

-- The frames are handed out.
unfoldable pub allocate : ℕ → Memory → Memory
unfolding grant_all sum_sizes
allocate k s = grant_all k 0 (sum_sizes k 0 s 0) 0 s

unfoldable pub start : ℕ → ℕ → ℕ → (ℕ → ℕ) → Option Memory
unfolding set_up allocate
start k m f draw = set_up k m f draw >>= λ s. some (allocate k s)
