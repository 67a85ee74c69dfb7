-- ===== src/Shell/Tests.antt =====
-- A3/CSE_21CS30009.c: conversations.
use os_lab_sp.Prelude.{
  ◌+◌, ◌≤◌, ◌≡◌, refl, Bool, true, false, List, [], ◌∷◌, ◌++◌, Option, none, some, ◌>>=◌, arith,
  length,
}
use os_lab_sp.Shell.{
  Bytes, exit_text, swaprole, text_of, overwrite, zeros, command_size, max_args, Shell, started,
  Move, left_types, right_reads, move, split_words, enter_command, receive_command, after_send,
  after_receive, remove_newline, fgets, take, drop, words_from,
}
use os_lab_sp.Shell.Words.{split_words-le}
use os_lab_sp.Shell.Relay.{Talk}
use os_lab_sp.Shell.Exchange.{Follows}
use os_lab_sp.Shell.Conversation.{converse, obey_all, converse-Follows, started-IsTalking}

abbrev ls : Bytes
ls = b'l' ∷ b's' ∷ []

abbrev ls_a : Bytes
ls_a = b'l' ∷ b's' ∷ b' ' ∷ b'-' ∷ b'a' ∷ []

abbrev fresh : Talk
fresh = record { left_commands = true; left_executed = []; right_executed = []; over = false }

abbrev commands : List Bytes
commands = ls ∷ swaprole ∷ ls_a ∷ exit_text ∷ []

-- What a state shows: the commands that were executed.
abbrev logs : Option Shell → Option (List Bytes × List Bytes)
logs o = o >>= λ s. some (s.left.executed, s.right.executed)

abbrev roles : Option Shell → Option (Bool × Bool)
roles o = o >>= λ s. some (s.left.curr_role, s.right.curr_role)

split_ls_a : split_words ls_a ≡ ls ∷ (b'-' ∷ b'a' ∷ []) ∷ []
unfolding split_words words_from
split_ls_a = refl

-- Every program is there.
abbrev every : Bytes → Bool
every text = true

abbrev run : List Move → Option Shell → Option Shell
run [] o = o
run (m ∷ ms) o = run ms (o >>= move every m)

abbrev at_start : Option Shell
at_start = some (started (zeros command_size) (zeros command_size))

abbrev ls_line : Option Bytes
ls_line = some (ls ++ 10 ∷ [])

-- Each command is received before the next one is entered.
ls_then_swaprole :
    roles (
      run
        (left_types ls_line
          ∷ right_reads
          ∷ left_types (some (swaprole ++ 10 ∷ []))
          ∷ right_reads
          ∷ [])
        at_start)
    ≡ some (false, true)
unfolding move enter_command receive_command after_send after_receive remove_newline fgets take drop
    text_of overwrite started zeros
ls_then_swaprole = refl

-- Two commands that are entered before a read are received as one, so that both sides then wait.
swaprole_lost :
    roles (
      run
        (left_types ls_line ∷ left_types (some (swaprole ++ 10 ∷ [])) ∷ right_reads ∷ [])
        at_start)
    ≡ some (false, false)
unfolding move enter_command receive_command after_send after_receive remove_newline fgets take drop
    text_of overwrite started zeros
swaprole_lost = refl

-- The input ends after "ls", which is then sent again.
ls_twice :
    logs (run (left_types ls_line ∷ right_reads ∷ left_types none ∷ right_reads ∷ []) at_start)
    ≡ some ([], ls ∷ ls ∷ [])
unfolding move enter_command receive_command after_send after_receive remove_newline fgets take drop
    text_of overwrite started zeros
ls_twice = refl

split_words-le_example : length (split_words ls_a) + 1 ≤ max_args
unfolding text_of overwrite zeros
split_words-le_example = split_words-le (overwrite ls_a (zeros command_size)) ls_a refl refl

converse-Follows_example :
    (u : Shell) × (converse every commands (started (zeros command_size) (zeros command_size))
      ≡ some u)
    × Follows (obey_all commands fresh) u
unfolding zeros
converse-Follows_example =
    converse-Follows every commands fresh (started (zeros command_size) (zeros command_size))
      (
        (refl, (refl, refl, (refl, refl, tt)), omega arith),
        (
          (
            refl,
            (
              refl,
              refl,
              (
                refl,
                refl,
                (
                  refl,
                  refl,
                  (refl, refl, (refl, refl, (refl, refl, (refl, refl, (refl, refl, tt))))),
                ),
              ),
            ),
            omega arith,
          ),
          (
            (
              refl,
              (refl, refl, (refl, refl, (refl, refl, (refl, refl, (refl, refl, tt))))),
              omega arith,
            ),
            ((refl, (refl, refl, (refl, refl, (refl, refl, (refl, refl, tt)))), omega arith), tt),
          ),
        ),
      )
      ((λ e f. refl), ((λ e f. refl), ((λ e f. refl), ((λ e f. refl), tt)))) refl
      (started-IsTalking (zeros command_size) refl)
