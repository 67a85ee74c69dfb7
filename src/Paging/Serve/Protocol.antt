-- ===== src/Paging/Serve/Protocol.antt =====
-- A8/mmu.c: the messages that the handler sends, on every branch.
use os_lab_sp.Prelude.{
  ℕ, ◌+◌, ◌<◌, false, Option, none, some, arith, leb, if◌then◌else◌, ◌≡◌, refl, inl, inr,
  Bool-cases, Option-cases, ◌++◌, List, [], ◌∷◌, ap, sym, ◌∙◌,
}
use mathlib.Core.List.{append-nil}
use os_lab_sp.Prelude.Int.{ℤ, pos, negsuc}
use os_lab_sp.Paging.{Process, Memory, Msq2, Msq3, update}
use os_lab_sp.Paging.Mmu.{fault, hit, access, refuse, finish, reply, handle, load_page}
use os_lab_sp.Paging.Owned.{frame_of, IsOwned}
use os_lab_sp.Paging.Release.{Kept, release_all-Released}
use os_lab_sp.Paging.Serve.{ticked}
use os_lab_sp.Paging.Faults.{load_page-Kept}

-- What one message changes besides the page tables: the messages sent to the process and to the
-- scheduler, and the number of processes that it ends.
pub record Exchange (replies : List Msq3) (notices : List Msq2) (n : ℕ) (s t : Memory)
    : Type 0 where
  pub to_process : t.to_process ≡ s.to_process ++ replies
  pub to_sched : t.to_sched ≡ s.to_sched ++ notices
  pub terminated : t.terminated ≡ s.terminated + n
  pub k : t.k ≡ s.k
  pub sizes : (q : ℕ) → (t.table q).m_i ≡ (s.table q).m_i

abbrev pub to_proc : ℕ → ℤ → List Msq3
to_proc p n = record { type = 2; num = n; pid = p } ∷ []

abbrev pub notice : ℕ → ℕ → List Msq2
notice type p = record { type = type; pid = p } ∷ []

module _ (p j : ℕ) (s : Memory) where
  hit-Exchange : (fr : ℕ) → Exchange (to_proc p (pos fr)) [] 0 s (hit p j fr s)
  unfolding hit
  hit-Exchange fr = record {
    to_process = refl;
    to_sched = sym (append-nil s.to_sched);
    terminated = omega arith;
    k = refl;
    sizes = λ q. refl;
  }

  fault-Exchange : Exchange (to_proc p (negsuc 0)) (notice 1 p) 0 s (fault p j s)
  unfolding fault
  fault-Exchange = after (load_page-Kept p j counted)
    where
      told : Memory
      told = reply (negsuc 0) p s

      counted : Memory
      counted = record told {
        table =
            update told.table p
              (record (told.table p) { total_faults = (told.table p).total_faults + 1 });
      }

      after :
          Kept counted (load_page p j counted)
          → Exchange (to_proc p (negsuc 0)) (notice 1 p) 0 s (fault p j s)
      after kept = record {
        to_process = kept.to_process;
        to_sched = ap (λ l. l ++ notice 1 p) kept.to_sched;
        terminated = omega (arith, kept.terminated);
        k = kept.k;
        sizes = λ q. ap (λ g. (g q).m_i) kept.table ∙ ground arith;
      }

module _ (p : ℕ) (s : Memory) (v : IsOwned s) where
  finish-Exchange : Exchange [] (notice 2 p) 1 s (finish p s)
  unfolding finish
  finish-Exchange =
      let kept = (release_all-Released p s v).kept in
      record {
        to_process = kept.to_process ∙ sym (append-nil s.to_process);
        to_sched = ap (λ l. l ++ notice 2 p) kept.to_sched;
        terminated = omega (arith, kept.terminated);
        k = kept.k;
        sizes = λ q. ap (λ g. (g q).m_i) kept.table;
      }

  refuse-Exchange : Exchange (to_proc p (negsuc 1)) (notice 2 p) 1 s (refuse p s)
  unfolding refuse
  refuse-Exchange =
      let kept = (release_all-Released p s v).kept in
      let same = λ (q : ℕ). ap (λ (g : ℕ → Process). (g q).m_i) kept.table in
      record {
        to_process = ap (λ l. l ++ to_proc p (negsuc 1)) kept.to_process;
        to_sched = ap (λ l. l ++ notice 2 p) kept.to_sched;
        terminated = omega (arith, kept.terminated);
        k = kept.k;
        sizes = λ q. ground (arith, same q, same p);
      }

-- The number that the process is answered with: -2 for a page that it does not have, the frame of a
-- page in memory, -1 for a page fault.
abbrev pub in_frame : Option ℕ → ℤ
in_frame none = negsuc 0
in_frame (some fr) = pos fr

abbrev pub answer : Memory → ℕ → ℕ → ℤ
answer s p j = if leb (s.table p).m_i j then negsuc 1 else in_frame (frame_of s.pt p j)

-- The scheduler hears of an end (type 2) and of a page fault (type 1), and nothing of a hit.
abbrev pub on_absence : List Msq2 → Option ℕ → List Msq2
on_absence l none = l
on_absence l (some fr) = []

abbrev pub notices : Memory → ℕ → ℕ → List Msq2
notices s p j =
    if leb (s.table p).m_i j then notice 2 p else on_absence (notice 1 p) (frame_of s.pt p j)

pub access-Exchange :
    (p j : ℕ) (s : Memory)
    → Exchange
        (to_proc p (in_frame (frame_of s.pt p j)))
        (on_absence (notice 1 p) (frame_of s.pt p j))
        0
        s
        (access p j s)
unfolding access
access-Exchange p j s = elim (Option-cases (frame_of s.pt p j)) [
  | inl absent ↦ rw (absent, access) (fault-Exchange p j s)
  | inr (fr, held) ↦ rw (held, access) (hit-Exchange p j s fr)
]

pub ticked-Exchange :
    {r : List Msq3} {l : List Msq2} {n : ℕ} {s t : Memory}
    → Exchange r l n (ticked s) t
    → Exchange r l n s t
ticked-Exchange x = record {
  to_process = x.to_process;
  to_sched = x.to_sched;
  terminated = x.terminated;
  k = x.k;
  sizes = x.sizes;
}

-- A reference by a process that exists is served: the process gets exactly one answer, the scheduler
-- the notice that goes with it, and only a page that the process does not have ends it.
pub reference_protocol :
    (s : Memory) (p j : ℕ)
    → IsOwned s
    → p < s.k
    → (t : Memory) × (handle s (record { type = 1; num = pos j; pid = p }) ≡ some t)
      × Exchange
          (to_proc p (answer s p j))
          (notices s p j)
          (if leb (s.table p).m_i j then 1 else 0)
          s
          t
unfolding handle
reference_protocol s p j v hp =
    let inside : leb s.k p ≡ false = ground arith in
    rw inside (elim (Bool-cases (leb (s.table p).m_i j)) [
      | inl invalid ↦ rw invalid (_, refl, ticked-Exchange (refuse-Exchange p (ticked s) v))
      | inr valid ↦ rw valid (_, refl, ticked-Exchange (access-Exchange p j (ticked s)))
    ])

-- The end of a process that exists is served: the scheduler hears of it, and the process is counted.
pub end_protocol :
    (s : Memory) (p : ℕ)
    → IsOwned s
    → p < s.k
    → (t : Memory) × (handle s (record { type = 1; num = negsuc 8; pid = p }) ≡ some t)
      × Exchange [] (notice 2 p) 1 s t
unfolding handle
end_protocol s p v hp =
    let inside : leb s.k p ≡ false = ground arith in
    rw inside (_, refl, ticked-Exchange (finish-Exchange p (ticked s) v))
