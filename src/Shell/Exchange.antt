-- ===== src/Shell/Exchange.antt =====
-- A3/CSE_21CS30009.c: while each command is received before the next one is entered, the two processes
-- follow the specification.
use os_lab_sp.Prelude.{
  ◌≤◌, ◌≡◌, refl, Bool, true, false, [], ◌∷◌, ◌++◌, some, ◌&&◌, not, ◌>>=◌, arith, ap, ◌∙◌, length,
  Bool-cases, inl, inr,
}
use os_lab_sp.Shell.{
  Bytes, same_text, exit_text, swaprole, take, drop, command_size, Side, enter_command,
  receive_command, Shell, is_empty, guarded, left_types, right_types, left_reads, right_reads, move,
}
use os_lab_sp.Shell.Buffer.{take_short, drop_short}
use os_lab_sp.Shell.Relay.{Talk, obey, IsCommand, IsTalking, IsEnded, Sent, Received}

-- The state after a command: both processes have ended, or the conversation goes on.
pub record Follows (t : Talk) (s : Shell) : Type 0 where
  pub ended : t.over ≡ true → IsEnded t.left_executed s.left × IsEnded t.right_executed s.right
  pub talking : t.over ≡ false → IsTalking t s

not_empty-guard :
    (text : Bytes)
    → is_empty text ≡ false
    → (b : Bool) → b ≡ true
    → (b && not (is_empty text)) ≡ true
not_empty-guard text h b e = ground (arith, h, e)

module _ (can_run : Bytes → Bool) (text : Bytes) (good : IsCommand text) (s : Shell) where
  -- The left side commands.
  pub left_sends :
      (a : Side)
      → s.left.curr_role ≡ true
      → s.left.running ≡ true
      → s.first ≡ []
      → enter_command (some (text ++ 10 ∷ [])) s.left ≡ some (a, text)
      → move can_run (left_types (some (text ++ 10 ∷ []))) s
        ≡ some (record s { left = a; first = text })
  unfolding move
  left_sends a role runs empty sent =
      let test : (s.left.running && s.left.curr_role) ≡ true = ground (arith, role, runs) in
      ap
        (λ b. guarded b (
          enter_command (some (text ++ 10 ∷ [])) s.left >>= λ r.
          some (record s { left = r.0; first = s.first ++ r.1 })))
        test
      ∙ ap (λ o. o >>= λ r. some (record s { left = r.0; first = s.first ++ r.1 })) sent
      ∙ ap (λ p. some (record s { left = a; first = p ++ text })) empty

  pub right_gets :
      (b : Side)
      → s.first ≡ text
      → s.right.curr_role ≡ false
      → s.right.running ≡ true
      → receive_command can_run false text s.right ≡ some b
      → move can_run right_reads s ≡ some (record s { right = b; first = [] })
  unfolding move
  right_gets b full role runs got =
      let test : (s.right.running && not s.right.curr_role && not (is_empty s.first)) ≡ true =
        let some_text = ap is_empty full in ground (arith, role, runs, some_text, good.0) in
      let short : length text ≤ command_size = omega (arith, good.2) in
      ap
        (λ b. guarded b (
          receive_command can_run false (take command_size s.first) s.right >>= λ t.
          some (record s { right = t; first = drop command_size s.first })))
        test
      ∙ ap
          (λ p. receive_command can_run false (take command_size p) s.right >>= λ t.
            some (record s { right = t; first = drop command_size p }))
          full
      ∙ ap
          (λ p. receive_command can_run false p s.right >>= λ t.
            some (record s { right = t; first = drop command_size text }))
          (take_short command_size text short)
      ∙ ap (λ o. o >>= λ t. some (record s { right = t; first = drop command_size text })) got
      ∙ ap (λ p. some (record s { right = b; first = p })) (drop_short command_size text short)

  -- The right side commands.
  pub right_sends :
      (a : Side)
      → s.right.curr_role ≡ true
      → s.right.running ≡ true
      → s.second ≡ []
      → enter_command (some (text ++ 10 ∷ [])) s.right ≡ some (a, text)
      → move can_run (right_types (some (text ++ 10 ∷ []))) s
        ≡ some (record s { right = a; second = text })
  unfolding move
  right_sends a role runs empty sent =
      let test : (s.right.running && s.right.curr_role) ≡ true = ground (arith, role, runs) in
      ap
        (λ b. guarded b (
          enter_command (some (text ++ 10 ∷ [])) s.right >>= λ r.
          some (record s { right = r.0; second = s.second ++ r.1 })))
        test
      ∙ ap (λ o. o >>= λ r. some (record s { right = r.0; second = s.second ++ r.1 })) sent
      ∙ ap (λ p. some (record s { right = a; second = p ++ text })) empty

  pub left_gets :
      (b : Side)
      → s.second ≡ text
      → s.left.curr_role ≡ false
      → s.left.running ≡ true
      → receive_command can_run true text s.left ≡ some b
      → move can_run left_reads s ≡ some (record s { left = b; second = [] })
  unfolding move
  left_gets b full role runs got =
      let test : (s.left.running && not s.left.curr_role && not (is_empty s.second)) ≡ true =
        let some_text = ap is_empty full in ground (arith, role, runs, some_text, good.0) in
      let short : length text ≤ command_size = omega (arith, good.2) in
      ap
        (λ b. guarded b (
          receive_command can_run true (take command_size s.second) s.left >>= λ t.
          some (record s { left = t; second = drop command_size s.second })))
        test
      ∙ ap
          (λ p. receive_command can_run true (take command_size p) s.left >>= λ t.
            some (record s { left = t; second = drop command_size p }))
          full
      ∙ ap
          (λ p. receive_command can_run true p s.left >>= λ t.
            some (record s { left = t; second = drop command_size text }))
          (take_short command_size text short)
      ∙ ap (λ o. o >>= λ t. some (record s { left = t; second = drop command_size text })) got
      ∙ ap (λ p. some (record s { left = b; second = p })) (drop_short command_size text short)

-- The states that the two sides leave are those of the specification.
pub left_commanded :
    (text : Bytes) (t : Talk) (a b : Side)
    → t.left_commands ≡ true
    → t.over ≡ false
    → Sent text t.left_executed a
    → Received text t.right_executed b
    → Follows (obey text t) (record { left = a; right = b; first = []; second = [] })
unfolding obey
left_commanded text t a b role on sent got = elim (Bool-cases (same_text text exit_text)) [
  | inl e ↦ rw e record { ended = λ h. (sent.exits e, got.exits e); talking = λ h. cc }
  | inr e ↦ elim (Bool-cases (same_text text swaprole)) [
    | inl f ↦
        rw (e, f, role)
          record {
            ended = λ h. cc;
            talking = λ h. record {
              left_side = sent.swaps e f;
              right_side = got.swaps e f;
              first_empty = refl;
              second_empty = refl;
            };
          }
    | inr f ↦
        rw (e, f, role)
          record {
            ended = λ h. cc;
            talking = λ h. record {
              left_side = sent.stays e f;
              right_side = got.stays e f;
              first_empty = refl;
              second_empty = refl;
            };
          }
  ]
]

pub right_commanded :
    (text : Bytes) (t : Talk) (a b : Side)
    → t.left_commands ≡ false
    → t.over ≡ false
    → Sent text t.right_executed a
    → Received text t.left_executed b
    → Follows (obey text t) (record { left = b; right = a; first = []; second = [] })
unfolding obey
right_commanded text t a b role on sent got = elim (Bool-cases (same_text text exit_text)) [
  | inl e ↦ rw e record { ended = λ h. (got.exits e, sent.exits e); talking = λ h. cc }
  | inr e ↦ elim (Bool-cases (same_text text swaprole)) [
    | inl f ↦
        rw (e, f, role)
          record {
            ended = λ h. cc;
            talking = λ h. record {
              left_side = got.swaps e f;
              right_side = sent.swaps e f;
              first_empty = refl;
              second_empty = refl;
            };
          }
    | inr f ↦
        rw (e, f, role)
          record {
            ended = λ h. cc;
            talking = λ h. record {
              left_side = got.stays e f;
              right_side = sent.stays e f;
              first_empty = refl;
              second_empty = refl;
            };
          }
  ]
]
