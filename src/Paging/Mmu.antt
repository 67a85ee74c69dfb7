-- ===== src/Paging/Mmu.antt =====
-- A8/mmu.c: the handler of one message, branch by branch, and the report at the end.
use os_lab_sp.Prelude.{
  ℕ, zero, suc, ◌+◌, ◌-◌, ◌^◌, Bool, true, false, List, [], ◌∷◌, ◌++◌, Option, none, some, ◌==◌,
  leb, ltb, if◌then◌else◌,
}
use os_lab_sp.Prelude.Int.{ℤ, pos, negsuc}
use os_lab_sp.Paging.{Entry, Msq3, Memory, update, update₂}

abbrev pub int_max : ℕ
int_max = 2 ^ 31 - 1

-- msgsnd(msqid2, …)
unfoldable pub tell_sched : ℕ → ℕ → Memory → Memory
tell_sched type pid s = record s {
  to_sched = s.to_sched ++ (record { type = type; pid = pid }) ∷ [];
}

-- msgsnd(msqid3, …) with type 2
unfoldable pub reply : ℤ → ℕ → Memory → Memory
reply num pid s = record s {
  to_process = s.to_process ++ (record { type = 2; num = num; pid = pid }) ∷ [];
}

-- if (PT[i].frame != -1) { SM2[PT[i].frame] = 1; … }
unfoldable pub release_page : ℕ → ℕ → Memory → Memory
release_page p i s = elim (s.pt p i).frame [
  | none ↦ s
  | some fr ↦ record s {
    free = update s.free fr true;
    pt = update₂ s.pt p i (record (s.pt p i) { frame = none; valid_bit = 0; lru_ctr = 0 });
  }
]

-- for (int i = 0; i < SM1[index].m_i; i++), with `n` rounds left
unfoldable pub release_from : ℕ → ℕ → ℕ → Memory → Memory
release_from zero i p s = s
release_from (suc n) i p s = release_from n (i + 1) p (release_page p i s)

unfoldable pub release_all : ℕ → Memory → Memory
release_all p s = release_from (s.table p).m_i 0 p s

-- page == -9: the process has completed its execution
unfoldable pub finish : ℕ → Memory → Memory
unfolding tell_sched
finish p s = let t = tell_sched 2 p (release_all p s) in record t { terminated = t.terminated + 1 }

-- page >= m_i: an invalid page reference
unfoldable pub refuse : ℕ → Memory → Memory
unfolding tell_sched reply
refuse p s =
    let t = release_all p s in
    let e = t.table p in
    let counted = record t {
      table = update t.table p (record e { total_invalid_refs = e.total_invalid_refs + 1 });
    } in
    let u = reply (negsuc 1) p (tell_sched 2 p counted) in
    record u { terminated = u.terminated + 1 }

-- The page is in a frame.
unfoldable pub hit : ℕ → ℕ → ℕ → Memory → Memory
unfolding reply
hit p j fr s =
    let t = reply (pos fr) p s in
    record t { pt = update₂ t.pt p j (record (t.pt p j) { lru_ctr = t.count }) }

-- The scan of SM2 for a free frame, with `n` cells left before the end mark.
unfoldable pub find_free : ℕ → ℕ → (ℕ → Bool) → Option ℕ
find_free zero ind free = none
find_free (suc n) ind free =
    let rest = find_free n (ind + 1) free in if free ind then some ind else rest

-- The scan for the resident page with the least lru_ctr, with `n` pages left.
unfoldable pub find_victim : ℕ → ℕ → (ℕ → Entry) → ℕ → Option ℕ → Option ℕ
find_victim zero i row min_lru victim = victim
find_victim (suc n) i row min_lru victim =
    let skip = find_victim n (i + 1) row min_lru victim in
    let take = find_victim n (i + 1) row (row i).lru_ctr (some i) in
    elim (row i).frame [
      | none ↦ skip
      | some fr ↦ if ltb (row i).lru_ctr min_lru then take else skip
    ]

-- A free frame goes to the page.
unfoldable pub place : ℕ → ℕ → ℕ → Memory → Memory
place p j fr s = record s {
  pt = update₂ s.pt p j (record (s.pt p j) { frame = some fr; valid_bit = 1; lru_ctr = s.count });
  free = update s.free fr false;
}

-- Local page replacement: the page takes the frame of the victim.
unfoldable pub replace : ℕ → ℕ → ℕ → Memory → Memory
replace p j v s =
    let fr = (s.pt p v).frame in
    let taken = update₂ s.pt p j (record (s.pt p j) { frame = fr }) in
    let cleared = update₂ taken p v (record (taken p v) { frame = none; valid_bit = 0 }) in
    record s {
      pt = update₂ cleared p j (record (cleared p j) { valid_bit = 1; lru_ctr = s.count });
    }

-- PageFaultHandler
unfoldable pub load_page : ℕ → ℕ → Memory → Memory
load_page p j s = elim (find_free s.f 0 s.free) [
  | some fr ↦ place p j fr s
  | none ↦ elim (find_victim (s.table p).m_i 0 (s.pt p) int_max none) [
    | some v ↦ replace p j v s
    | none ↦ s
  ]
]

-- A page fault: tell the process, count, load the page, tell the scheduler.
unfoldable pub fault : ℕ → ℕ → Memory → Memory
unfolding tell_sched reply
fault p j s =
    let t = reply (negsuc 0) p s in
    let e = t.table p in
    let counted = record t {
      table = update t.table p (record e { total_faults = e.total_faults + 1 });
    } in
    tell_sched 1 p (load_page p j counted)

-- A reference to a page below m_i.
unfoldable pub access : ℕ → ℕ → Memory → Memory
access p j s = elim (s.pt p j).frame [ some fr ↦ hit p j fr s | none ↦ fault p j s ]

-- The tests on the page number of a message. `none` is an index out of range: a process number from
-- k on, or a negative page other than -2 and -9.
unfoldable pub dispatch : ℕ → ℤ → Memory → Option Memory
dispatch p (pos j) s =
    if leb s.k p then none else some (if leb (s.table p).m_i j then refuse p s else access p j s)
dispatch p (negsuc n) s =
    if n == 1
    then some (tell_sched 2 p s)
    else if leb s.k p
    then none
    else if n == 8
    then some (finish p s)
    else none

-- The body of the loop for one message of type 1.
unfoldable pub handle : Memory → Msq3 → Option Memory
unfolding dispatch
handle s msg = dispatch msg.pid msg.num (record s { count = s.count + 1 })

-- The loop over the messages that arrive: it ends when k processes have terminated. `none` is a
-- fault of the handler, or a wait for a message that never comes.
unfoldable pub serve : Memory → List Msq3 → Option Memory
serve s [] = if leb s.k s.terminated then some s else none
serve s (msg ∷ rest) =
    let next : Option Memory = elim (handle s msg) [ none ↦ none | some t ↦ serve t rest ] in
    if leb s.k s.terminated then some s else next

-- The report at the end adds the page faults to the invalid references of each process.
unfoldable pub report : Memory → ℕ → ℕ × ℕ
report s p = ((s.table p).total_faults, (s.table p).total_invalid_refs + (s.table p).total_faults)
