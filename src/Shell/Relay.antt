-- ===== src/Shell/Relay.antt =====
-- A3/CSE_21CS30009.c: while each command is received before the next one is entered, the two processes
-- follow the specification.
use os_lab_sp.Prelude.{
  Bool-cases, inl, inr, ◌-◌, ◌<◌, ◌≡◌, refl, Bool, true, false, List, [], ◌∷◌, ◌++◌, Option, some,
  not, if◌then◌else◌, ◌>>=◌, arith, ap, ◌∙◌, length,
}
use os_lab_sp.Shell.{
  Bytes, same_text, exit_text, swaprole, take, text_of, overwrite, zeros, command_size,
  remove_newline, fgets, Side, after_send, enter_command, after_receive, receive_command, Shell,
  is_empty, left_types, right_types, left_reads, right_reads, move,
}
use os_lab_sp.Shell.Buffer.{
  IsPlain, length-overwrite, length-remove_newline, length-zeros, text_of-zeros, text_of-fgets,
}

-- The specification: who commands, what each side has executed, and whether it is over.
pub record Talk : Type 0 where
  pub left_commands : Bool
  pub left_executed : List Bytes
  pub right_executed : List Bytes
  pub over : Bool

unfoldable pub obey : Bytes → Talk → Talk
obey text t =
    if same_text text exit_text
    then record t { over = true }
    else if same_text text swaprole
    then record t { left_commands = not t.left_commands }
    else if t.left_commands
    then record t { right_executed = t.right_executed ++ text ∷ [] }
    else record t { left_executed = t.left_executed ++ text ∷ [] }

-- The command that is entered on one side and received on the other, with the newline after it.
abbrev pub exchange : (Bytes → Bool) → Bytes → Shell → Option Shell
exchange can_run text s =
    let line = some (text ++ 10 ∷ []) in
    if s.left.curr_role
    then move can_run (left_types line) s >>= move can_run right_reads
    else move can_run (right_types line) s >>= move can_run left_reads

-- What the exchange works on: a command that is not empty and fits.
abbrev pub IsCommand : Bytes → Type 0
IsCommand s = (is_empty s ≡ false) × IsPlain s × (length s < command_size - 1)

-- The command has a program, unless it is "exit" or "swaprole".
abbrev pub HasProgram : (Bytes → Bool) → Bytes → Type 0
HasProgram can_run text =
    same_text text exit_text ≡ false → same_text text swaprole ≡ false → can_run text ≡ true

-- One side of a conversation that goes on: `role` is its role.
pub record IsSide (role : Bool) (log : List Bytes) (s : Side) : Type 0 where
  pub role_is : s.curr_role ≡ role
  pub runs : s.running ≡ true
  pub size : length s.command ≡ command_size
  pub clear : role ≡ false → s.command ≡ zeros command_size
  pub logged : s.executed ≡ log

-- The processes are in the state `t` of the specification: nothing is under way.
pub record IsTalking (t : Talk) (s : Shell) : Type 0 where
  pub left_side : IsSide t.left_commands t.left_executed s.left
  pub right_side : IsSide (not t.left_commands) t.right_executed s.right
  pub first_empty : s.first ≡ []
  pub second_empty : s.second ≡ []

-- One side after the conversation.
abbrev pub IsEnded : List Bytes → Side → Type 0
IsEnded log s = (s.running ≡ false) × (s.executed ≡ log)

-- What a command leaves of the sender and of the receiver.
pub record Sent (text : Bytes) (log : List Bytes) (s : Side) : Type 0 where
  pub exits : same_text text exit_text ≡ true → IsEnded log s
  pub swaps : same_text text exit_text ≡ false → same_text text swaprole ≡ true → IsSide false log s
  pub stays : same_text text exit_text ≡ false → same_text text swaprole ≡ false → IsSide true log s

pub record Received (text : Bytes) (log : List Bytes) (s : Side) : Type 0 where
  pub exits : same_text text exit_text ≡ true → IsEnded log s
  pub swaps : same_text text exit_text ≡ false → same_text text swaprole ≡ true → IsSide true log s
  pub stays :
      same_text text exit_text ≡ false
      → same_text text swaprole ≡ false
      → IsSide false (log ++ text ∷ []) s

after_send-Sent :
    (text : Bytes) (log : List Bytes) (s : Side)
    → IsSide true log s
    → Sent text log (after_send text s)
unfolding after_send
after_send-Sent text log s v = record {
  exits = λ e. rw e (refl, v.logged);
  swaps = λ e f.
      rw (e, f)
        record {
          role_is = refl;
          runs = v.runs;
          size = length-zeros command_size;
          clear = λ h. refl;
          logged = v.logged;
        };
  stays = λ e f. rw (e, f) v;
}

length-cleared :
    (clears : Bool) (command : Bytes)
    → length command ≡ command_size
    → length (if clears then zeros command_size else command) ≡ command_size
length-cleared true command size = length-zeros command_size
length-cleared false command size = size

after_receive-Received :
    (can_run : Bytes → Bool) (clears : Bool) (text : Bytes) (log : List Bytes) (s : Side)
    → HasProgram can_run text
    → s.running ≡ true
    → s.curr_role ≡ false
    → s.executed ≡ log
    → length s.command ≡ command_size
    → (t : Side) × (after_receive can_run clears text s ≡ some t) × Received text log t
unfolding after_receive
after_receive-Received can_run clears text log s has runs role log_is size =
    elim (Bool-cases (same_text text exit_text)) [
      | inl e ↦ (
        record s { running = false },
        rw e refl,
        record {
          exits = λ h. (refl, log_is);
          swaps = λ h f. absurd (ground (arith, e, h));
          stays = λ h f. absurd (ground (arith, e, h));
        },
      )
      | inr e ↦ elim (Bool-cases (same_text text swaprole)) [
        | inl f ↦ (
          record s { curr_role = true; command = if clears then zeros command_size else s.command },
          rw (e, f) refl,
          record {
            exits = λ h. absurd (ground (arith, e, h));
            swaps = λ h g. record {
              role_is = refl;
              runs = runs;
              size = length-cleared clears s.command size;
              clear = λ h. cc;
              logged = log_is;
            };
            stays = λ h g. absurd (ground (arith, f, g));
          },
        )
        | inr f ↦ (
          record s { executed = s.executed ++ text ∷ []; command = zeros command_size },
          rw (e, f, has e f) refl,
          record {
            exits = λ h. absurd (ground (arith, e, h));
            swaps = λ h g. absurd (ground (arith, f, g));
            stays = λ h g. record {
              role_is = role;
              runs = runs;
              size = length-zeros command_size;
              clear = λ h. refl;
              logged = ap (λ l. l ++ text ∷ []) log_is;
            };
          },
        )
      ]
    ]

-- The sender of a command.
pub send-command :
    (text : Bytes) (log : List Bytes) (s : Side)
    → IsCommand text
    → IsSide true log s
    → (t : Side) × (enter_command (some (text ++ 10 ∷ [])) s ≡ some (t, text)) × Sent text log t
unfolding enter_command fgets
send-command text log s good v =
    let c = remove_newline (fgets (some (text ++ 10 ∷ [])) s.command) in
    let whole = text_of-fgets text s.command good.1 good.2 v.size in
    let size =
      length-remove_newline (fgets (some (text ++ 10 ∷ [])) s.command)
      ∙ length-overwrite (take (command_size - 1) (text ++ 10 ∷ []) ++ 0 ∷ []) s.command
      ∙ v.size in
    (
      after_send text (record s { command = c }),
      rw whole refl,
      after_send-Sent text log (record s { command = c })
          record {
            role_is = v.role_is;
            runs = v.runs;
            size = size;
            clear = λ h. cc;
            logged = v.logged;
          },
    )

-- The receiver of a command.
pub receive-command :
    (can_run : Bytes → Bool) (clears : Bool) (text : Bytes) (log : List Bytes) (s : Side)
    → IsCommand text
    → HasProgram can_run text
    → IsSide false log s
    → (t : Side) × (receive_command can_run clears text s ≡ some t) × Received text log t
unfolding receive_command
receive-command can_run clears text log s good has v =
    let c = overwrite text s.command in
    let whole : text_of c ≡ some text =
      ap (λ a. text_of (overwrite text a)) (v.clear refl)
      ∙ text_of-zeros text command_size good.1 (omega (arith, good.2)) in
    let (t, e, got) =
      after_receive-Received can_run clears text log (record s { command = c }) has v.runs v.role_is
        v.logged (length-overwrite text s.command ∙ v.size) in
    (
      t,
      ap (λ o. o >>= λ u. after_receive can_run clears u (record s { command = c })) whole ∙ e,
      got,
    )
