-- ===== src/Shell/Conversation.antt =====
-- A3/CSE_21CS30009.c: a conversation of two processes.
use os_lab_sp.Prelude.{
  ◌≡◌, refl, Bool, true, false, List, [], ◌∷◌, ◌++◌, Option, some, not, if◌then◌else◌, ◌>>=◌, ap,
  ◌∙◌, length, Bool-cases, inl, inr, subst, sym,
}
use os_lab_sp.Shell.{
  Bytes, zeros, command_size, Shell, left_types, right_types, left_reads, right_reads, move,
  started,
}
use os_lab_sp.Shell.Buffer.{length-zeros}
use os_lab_sp.Shell.Relay.{
  Talk, obey, exchange, IsCommand, HasProgram, IsSide, IsTalking, send-command, receive-command,
}
use os_lab_sp.Shell.Exchange.{
  Follows, left_sends, right_gets, right_sends, left_gets, left_commanded, right_commanded,
}

-- Commands one after the other, until the processes have ended.
unfoldable pub converse : (Bytes → Bool) → List Bytes → Shell → Option Shell
converse can_run [] s = some s
converse can_run (text ∷ texts) s = exchange can_run text s >>= λ u.
    let rest = converse can_run texts u in if u.left.running then rest else some u

unfoldable pub obey_all : List Bytes → Talk → Talk
obey_all [] t = t
obey_all (text ∷ texts) t =
    let next = obey text t in let rest = obey_all texts next in if next.over then next else rest

abbrev pub AreCommands : List Bytes → Type 0
AreCommands [] = Unit
AreCommands (text ∷ texts) = IsCommand text × AreCommands texts

abbrev pub HavePrograms : (Bytes → Bool) → List Bytes → Type 0
HavePrograms can_run [] = Unit
HavePrograms can_run (text ∷ texts) = HasProgram can_run text × HavePrograms can_run texts

exchange-Follows :
    (can_run : Bytes → Bool) (text : Bytes) (t : Talk) (s : Shell)
    → IsCommand text
    → HasProgram can_run text
    → t.over ≡ false
    → IsTalking t s
    → (u : Shell) × (exchange can_run text s ≡ some u) × Follows (obey text t) u
exchange-Follows can_run text t s good has on v =
    let line = some (text ++ 10 ∷ []) in
    let choose = λ (b : Bool).
      if b
      then move can_run (left_types line) s >>= move can_run right_reads
      else move can_run (right_types line) s >>= move can_run left_reads in
    elim (Bool-cases t.left_commands) [
      | inl role ↦
          let l = subst (λ b. IsSide b t.left_executed s.left) role v.left_side in
          let r = subst (λ b. IsSide (not b) t.right_executed s.right) role v.right_side in
          let (a, entered, sent) = send-command text t.left_executed s.left good l in
          let (b, received, got) =
            receive-command can_run false text t.right_executed s.right good has r in
          let s1 = record s { left = a; first = text } in
          (
            record { left = a; right = b; first = []; second = [] },
            ap choose l.role_is
                ∙ ap (λ o. o >>= move can_run right_reads)
                    (left_sends can_run text good s a l.role_is l.runs v.first_empty entered)
                ∙ right_gets can_run text good s1 b refl r.role_is r.runs received
                ∙ ap (λ p. some (record { left = a; right = b; first = []; second = p }))
                    v.second_empty,
            left_commanded text t a b role on sent got,
          )
      | inr role ↦
          let l = subst (λ b. IsSide b t.left_executed s.left) role v.left_side in
          let r = subst (λ b. IsSide (not b) t.right_executed s.right) role v.right_side in
          let (a, entered, sent) = send-command text t.right_executed s.right good r in
          let (b, received, got) =
            receive-command can_run true text t.left_executed s.left good has l in
          let s1 = record s { right = a; second = text } in
          (
            record { left = b; right = a; first = []; second = [] },
            ap choose l.role_is
                ∙ ap (λ o. o >>= move can_run left_reads)
                    (right_sends can_run text good s a r.role_is r.runs v.second_empty entered)
                ∙ left_gets can_run text good s1 b refl l.role_is l.runs received
                ∙ ap (λ p. some (record { left = b; right = a; first = p; second = [] }))
                    v.first_empty,
            right_commanded text t a b role on sent got,
          )
    ]

-- When every command is received before the next one is entered, each command is not empty, without 0
-- and newline, and of at most 98 bytes, and execvp finds the program of each command but "exit" and
-- "swaprole", then two processes that have an empty array on the receiving side and nothing in the
-- pipes never block: each of them executes exactly the commands that the specification gives it, in
-- that order, "swaprole" exchanges who commands, and "exit" ends both.
pub converse-Follows :
    (can_run : Bytes → Bool) (texts : List Bytes) (t : Talk) (s : Shell)
    → AreCommands texts
    → HavePrograms can_run texts
    → t.over ≡ false
    → IsTalking t s
    → (u : Shell) × (converse can_run texts s ≡ some u) × Follows (obey_all texts t) u
unfolding converse obey_all
converse-Follows can_run [] t s good has on v =
    (s, refl, record { ended = λ h. cc; talking = λ h. v })
converse-Follows can_run (text ∷ texts) t s good has on v =
    let (u, done, follows) = exchange-Follows can_run text t s good.0 has.0 on v in
    let next = obey text t in
    elim (Bool-cases next.over) [
      | inl over ↦
          let stopped = (follows.ended over).0.0 in
          (
            u,
            rw (done, stopped) refl,
            subst (λ b. Follows (if b then next else obey_all texts next) u) (sym over) follows,
          )
      | inr still ↦
          let talking = follows.talking still in
          let (w, rest, after) =
            converse-Follows can_run texts (obey text t) u good.1 has.1 still talking in
          (
            w,
            rw (done, talking.left_side.runs) rest,
            subst (λ b. Follows (if b then next else obey_all texts next) w) (sym still) after,
          )
    ]

-- The processes at the start.
pub started-IsTalking :
    (garbage : Bytes)
    → length garbage ≡ command_size
    → IsTalking
        (record { left_commands = true; left_executed = []; right_executed = []; over = false })
        (started garbage (zeros command_size))
unfolding started
started-IsTalking garbage size = record {
  left_side = record { role_is = refl; runs = refl; size = size; clear = λ h. cc; logged = refl };
  right_side = record {
    role_is = refl;
    runs = refl;
    size = length-zeros command_size;
    clear = λ h. refl;
    logged = refl;
  };
  first_empty = refl;
  second_empty = refl;
}
