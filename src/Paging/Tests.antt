-- ===== src/Paging/Tests.antt =====
-- A8: a small machine, and the theorems at concrete inputs.
use os_lab_sp.Prelude.{
  ◌≤◌, subst, sym, ℕ, ◌≤◌, ◌≡◌, refl, inl, List, [], ◌∷◌, some, none, arith, Option, map, leb,
  if◌then◌else◌,
}
use mathlib.Core.Option
use os_lab_sp.Prelude.Int.{pos, negsuc}
use os_lab_sp.Paging.{Memory, Msq3}
use os_lab_sp.Paging.Mmu.{
  serve, handle, dispatch, access, hit, fault, load_page, find_free, find_victim, place, replace,
  refuse, finish, release_all, release_from, release_page, tell_sched, reply,
}
use os_lab_sp.Paging.Owned.{frame_of, IsOwned}
use os_lab_sp.Paging.Faults.{Loads, load_page-Loads}
use os_lab_sp.Paging.Serve.{ticked, handle-IsOwned}
use os_lab_sp.Paging.Serve.Protocol.{Exchange, to_proc, notice, notices, answer, reference_protocol}
use os_lab_sp.Paging.Serve.Retry.{reference}
use os_lab_sp.Paging.Serve.Total.{retry_hits, starved_retries, IsGone, end_releases}
use mathlib.Core.Option.{some-injective}
use os_lab_sp.Paging.Master.{
  blank, set_up, allocate, start, sum_sizes, grant_all, grant_pages, grant,
}
use os_lab_sp.Paging.Master.Shares.{sizes}
use os_lab_sp.Paging.Master.Allocation.{start_correct}

-- Two processes of two pages each, and two frames: each process starts with its page 0 in memory.
abbrev machine : Memory
unfolding allocate blank sum_sizes grant_all grant_pages grant sizes
machine = allocate 2 (blank 2 3 2 (λ p. 1))

-- Served under this name the handler runs with all its branches.
abbrev run : Memory → List Msq3 → Option Memory
unfolding serve handle dispatch access hit fault load_page find_free find_victim place replace
    refuse finish release_all release_from release_page tell_sched reply
run = serve

abbrev goodbye : ℕ → Msq3
goodbye p = record { type = 1; num = negsuc 8; pid = p }

machine_frames :
    (map (frame_of machine.pt 0) (0 ∷ 1 ∷ []) ≡ some 0 ∷ none ∷ [])
    × (map (frame_of machine.pt 1) (0 ∷ 1 ∷ []) ≡ some 1 ∷ none ∷ [])
unfolding machine
machine_frames = (refl, refl)

-- A fault of process 0 on page 1 takes the frame of its page 0.
replacement_run :
    map (frame_of (access 0 1 (ticked machine)).pt 0) (0 ∷ 1 ∷ []) ≡ none ∷ some 0 ∷ []
unfolding machine run
replacement_run = refl

-- A page beyond the size of the process ends it, and so does -9.
abbrev requests : List Msq3
requests = reference 0 1 ∷ reference 1 0 ∷ reference 0 7 ∷ goodbye 1 ∷ []

answers_run :
    Option.map (λ t. map (λ r. r.num) t.to_process) (run machine requests)
    ≡ some (negsuc 0 ∷ pos 1 ∷ negsuc 1 ∷ [])
unfolding machine run requests
answers_run = refl

no_pages : start 2 0 2 (λ p. 1) ≡ none
unfolding start set_up
no_pages = refl

machine-IsOwned : IsOwned machine
unfolding machine start set_up allocate
machine-IsOwned =
    let (s, e, owned, rest, beyond) = start_correct 2 3 2 (λ p. 1) (omega arith) (omega arith) in
    subst IsOwned (sym (some-injective machine s e)) owned

handle-IsOwned_example : IsOwned (access 0 1 (ticked machine))
unfolding machine run
handle-IsOwned_example =
    handle-IsOwned machine (access 0 1 (ticked machine)) (reference 0 1) refl machine-IsOwned

load_page-Loads_example : Loads 0 1 machine (load_page 0 1 machine)
unfolding machine
load_page-Loads_example = load_page-Loads 0 1 machine refl (λ l b. ground arith)

reference_protocol_example :
    (t : Memory) × (handle machine (reference 0 7) ≡ some t)
    × Exchange
        (to_proc 0 (answer machine 0 7))
        (notices machine 0 7)
        (if leb (machine.table 0).m_i 7 then 1 else 0)
        machine
        t
unfolding machine
reference_protocol_example = reference_protocol machine 0 7 machine-IsOwned (omega arith)

-- The same processes with all frames free, and with the only frame taken.
abbrev idle : Memory
unfolding blank
idle = blank 2 3 2 (λ p. 1)

abbrev crowded : Memory
unfolding blank place
crowded = place 1 0 0 (blank 2 3 1 (λ p. 1))

retry_hits_example :
    (t : Memory) × (handle idle (reference 0 1) ≡ some t)
    × (fr : ℕ) × (u : Memory) × (handle t (reference 0 1) ≡ some u)
    × Exchange (to_proc 0 (pos fr)) [] 0 t u
unfolding idle
retry_hits_example =
    retry_hits idle 0 1 (omega arith) (omega arith) refl (λ l b. omega arith)
      (inl (0, omega arith, refl))

crowded_retry :
    (t : Memory) × (handle crowded (reference 0 1) ≡ some t)
    × (t.pt ≡ crowded.pt)
    × (t.free ≡ crowded.free)
    × Exchange (to_proc 0 (negsuc 0)) (notice 1 0) 0 crowded t
unfolding crowded
crowded_retry =
    starved_retries crowded 0 1 (omega arith) (omega arith) (λ l b. omega arith)
      (λ l b. ground arith) (λ l b. refl)

end_releases_example : IsGone 0 machine (finish 0 (ticked machine))
unfolding machine run
end_releases_example =
    end_releases machine (finish 0 (ticked machine)) (goodbye 0) machine-IsOwned refl refl
