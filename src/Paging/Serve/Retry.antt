-- ===== src/Paging/Serve/Retry.antt =====
-- A8/mmu.c: what a page fault leaves for the same reference.
use os_lab_sp.Prelude.{
  ℕ, ◌+◌, ◌<◌, true, false, none, some, arith, leb, ◌≡◌, refl, inl, inr, ◌⊎◌, [], ap, sym, ◌∙◌,
}
use mathlib.Core.Bool.{false≢true}
use os_lab_sp.Prelude.Int.{pos, negsuc}
use os_lab_sp.Paging.{Memory, Msq3, update}
use os_lab_sp.Paging.Mmu.{fault, access, reply, handle, load_page}
use os_lab_sp.Paging.Owned.{frame_of}
use os_lab_sp.Paging.Lru.{IsResident}
use os_lab_sp.Paging.Faults.{NoneFree, Loads, placed, replaced, starved, IsEarly, load_page-Loads}
use os_lab_sp.Paging.Serve.{ticked}
use os_lab_sp.Paging.Serve.Protocol.{Exchange, to_proc, access-Exchange, ticked-Exchange}

abbrev pub reference : ℕ → ℕ → Msq3
reference p j = record { type = 1; num = pos j; pid = p }

-- A frame is free, or some page of `p` is in memory.
abbrev pub HasRoom : ℕ → Memory → Type 0
HasRoom p s =
    ((l : ℕ) × (l < s.f) × (s.free l ≡ true))
    ⊎ ((l : ℕ) × (l < (s.table p).m_i) × IsResident (s.pt p) l)

pub Loads-frame :
    (p j : ℕ) (s t : Memory)
    → HasRoom p s
    → Loads p j s t
    → (fr : ℕ) × (frame_of t.pt p j ≡ some fr)
Loads-frame p j s t room (placed fr first e others free) = (fr, ap (λ x. x.frame) e)
Loads-frame p j s t room (replaced w fr full least held e gone others free) =
    (fr, ap (λ x. x.frame) e)
Loads-frame p j s t (inl (l, b, h)) (starved full absent e) =
    let taken = full l b in absurd (false≢true (sym taken ∙ h))
Loads-frame p j s t (inr (l, b, h)) (starved full absent e) = absurd (h (absent l b))

pub Loads-still :
    (p j : ℕ) (s t : Memory)
    → NoneFree s
    → ((l : ℕ) → l < (s.table p).m_i → frame_of s.pt p l ≡ none)
    → Loads p j s t
    → t ≡ s
Loads-still p j s t full absent (placed fr first e others free) =
    absurd (false≢true (sym (full fr first.1) ∙ first.2))
Loads-still p j s t full absent (replaced w fr taken least held e gone others free) =
    absurd (least.1 (absent w least.0))
Loads-still p j s t full absent (starved taken empty e) = e

-- The state in which a fault loads the page.
abbrev pub faulted : ℕ → Memory → Memory
faulted p s =
    let t = reply (negsuc 0) p s in
    let e = t.table p in
    record t { table = update t.table p (record e { total_faults = e.total_faults + 1 }) }

pub faulted-sizes : (p q : ℕ) (s : Memory) → ((faulted p s).table q).m_i ≡ (s.table q).m_i
unfolding reply
faulted-sizes p q s = ground arith

pub faulted-HasRoom : (p : ℕ) (s : Memory) → HasRoom p s → HasRoom p (faulted p s)
unfolding reply
faulted-HasRoom p s (inl room) = inl room
faulted-HasRoom p s (inr (l, b, h)) = inr (l, omega (arith, b, faulted-sizes p p s), h)

pub fault-pt : (p j : ℕ) (s : Memory) → (fault p j s).pt ≡ (load_page p j (faulted p s)).pt
unfolding fault
fault-pt p j s = refl

pub fault-free : (p j : ℕ) (s : Memory) → (fault p j s).free ≡ (load_page p j (faulted p s)).free
unfolding fault
fault-free p j s = refl

module _ (p j : ℕ) (s : Memory) (absent : frame_of s.pt p j ≡ none) (early : IsEarly p s) where
  pub faulted-Loads : Loads p j (faulted p s) (load_page p j (faulted p s))
  unfolding reply
  faulted-Loads =
      load_page-Loads p j (faulted p s) absent (λ l b. early l (omega (arith, faulted-sizes p p s)))

  pub fault-frame : HasRoom p s → (fr : ℕ) × (frame_of (fault p j s).pt p j ≡ some fr)
  unfolding fault
  fault-frame room = Loads-frame p j (faulted p s) _ (faulted-HasRoom p s room) faulted-Loads

  pub access-frame : HasRoom p s → (fr : ℕ) × (frame_of (access p j s).pt p j ≡ some fr)
  unfolding access
  access-frame room = rw (absent, access) (fault-frame room)

module _ (s : Memory) (p j : ℕ) (hp : p < s.k) (hj : j < (s.table p).m_i) where
  pub handle-access : handle s (reference p j) ≡ some (access p j (ticked s))
  unfolding handle
  handle-access =
      let inside : leb s.k p ≡ false = ground arith in
      let valid : leb (s.table p).m_i j ≡ false = ground arith in rw (inside, valid)

  pub handle-hit :
      (fr : ℕ)
      → frame_of s.pt p j ≡ some fr
      → Exchange (to_proc p (pos fr)) [] 0 s (access p j (ticked s))
  handle-hit fr held = rw held at (ticked-Exchange (access-Exchange p j (ticked s)))
