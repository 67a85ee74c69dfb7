-- ===== src/Shell.antt =====
-- A3/CSE_21CS30009.c: two processes with two pipes, of which one reads commands from the user and sends
-- them, and the other one receives and executes them; "swaprole" exchanges the roles. A text is the
-- list of its bytes. Use of memory that is not there, a read from an empty pipe, and the wrong role are
-- `none`. The parameter `can_run` tells whether execvp finds the program of a command: a child that
-- fails goes on in the loop of its parent, as a third process on the pipes, which is `none`. The writes
-- to a pipe fit into it.
pub mod Buffer
pub mod Words
pub mod Relay
pub mod Exchange
pub mod Conversation
mod Tests
use os_lab_sp.Prelude.{
  ℕ, zero, suc, ◌+◌, ◌-◌, Bool, true, false, List, [], ◌∷◌, ◌++◌, Option, none, some, ◌==◌, ◌&&◌,
  not, if◌then◌else◌, ◌>>=◌,
}

abbrev pub Bytes : Type 0
Bytes = List ℕ

abbrev pub same_text : Bytes → Bytes → Bool
same_text [] [] = true
same_text (a ∷ s) (b ∷ t) = (a == b) && same_text s t
same_text s t = false

abbrev pub exit_text : Bytes
exit_text = b'e' ∷ b'x' ∷ b'i' ∷ b't' ∷ []

abbrev pub swaprole : Bytes
swaprole = b's' ∷ b'w' ∷ b'a' ∷ b'p' ∷ b'r' ∷ b'o' ∷ b'l' ∷ b'e' ∷ []

unfoldable pub take : ℕ → Bytes → Bytes
take zero s = []
take (suc n) [] = []
take (suc n) (b ∷ s) = b ∷ take n s

unfoldable pub drop : ℕ → Bytes → Bytes
drop zero s = s
drop (suc n) [] = []
drop (suc n) (b ∷ s) = drop n s

-- The text in an array: the bytes before the first 0.
unfoldable pub text_of : Bytes → Option Bytes
text_of [] = none
text_of (b ∷ s) = let rest = text_of s >>= λ t. some (b ∷ t) in if b == 0 then some [] else rest

-- Bytes that are stored from the start of an array.
unfoldable pub overwrite : Bytes → Bytes → Bytes
overwrite [] array = array
overwrite (b ∷ s) [] = []
overwrite (b ∷ s) (c ∷ array) = b ∷ overwrite s array

unfoldable pub zeros : ℕ → Bytes
zeros zero = []
zeros (suc n) = 0 ∷ zeros n

abbrev pub command_size : ℕ
command_size = 100

-- The first newline becomes 0.
unfoldable pub remove_newline : Bytes → Bytes
remove_newline [] = []
remove_newline (b ∷ s) = let rest = b ∷ remove_newline s in if b == 10 then 0 ∷ s else rest

-- fgets(command, 100, stdin) with the rest of a line; at the end of the input nothing is stored.
unfoldable pub fgets : Option Bytes → Bytes → Bytes
unfolding take overwrite
fgets none command = command
fgets (some line) command = overwrite (take (command_size - 1) line ++ 0 ∷ []) command

-- One of the two processes.
pub record Side : Type 0 where
  pub curr_role : Bool  -- true: it reads commands from the user
  pub command : Bytes
  pub running : Bool
  pub executed : List Bytes  -- the commands for which it made a child

-- A command is entered: the side afterwards, and what is written to its pipe.
unfoldable pub after_send : Bytes → Side → Side
unfolding zeros
after_send text s =
    if same_text text exit_text
    then record s { running = false }
    else if same_text text swaprole
    then record s { curr_role = false; command = zeros command_size }
    else s

unfoldable pub enter_command : Option Bytes → Side → Option (Side × Bytes)
unfolding after_send fgets remove_newline text_of
enter_command line s =
    let t = record s { command = remove_newline (fgets line s.command) } in
    text_of t.command >>= λ text. some (after_send text t, text)

-- A command is received. The process that starts as E does not clear its array when it gets "swaprole".
unfoldable pub after_receive : (Bytes → Bool) → Bool → Bytes → Side → Option Side
unfolding zeros
after_receive can_run clears text s =
    if same_text text exit_text
    then some (record s { running = false })
    else if same_text text swaprole
    then some
        (record s { curr_role = true; command = if clears then zeros command_size else s.command })
    else if can_run text
    then some (record s { executed = s.executed ++ text ∷ []; command = zeros command_size })
    else none

unfoldable pub receive_command : (Bytes → Bool) → Bool → Bytes → Side → Option Side
unfolding after_receive overwrite text_of
receive_command can_run clears bytes s =
    let t = record s { command = overwrite bytes s.command } in
    text_of t.command >>= λ text. after_receive can_run clears text t

-- `left` starts as C and writes to the pipe `first`; `right` starts as E and writes to `second`.
pub record Shell : Type 0 where
  pub left : Side
  pub right : Side
  pub first : Bytes
  pub second : Bytes

-- The arrays are not initialised.
unfoldable pub started : Bytes → Bytes → Shell
started garbage rubbish = record {
  left = record { curr_role = true; command = garbage; running = true; executed = [] };
  right = record { curr_role = false; command = rubbish; running = true; executed = [] };
  first = [];
  second = [];
}

abbrev pub is_empty : Bytes → Bool
is_empty [] = true
is_empty _ = false

abbrev pub guarded {ℓ} : {A : Type ℓ} → Bool → Option A → Option A
guarded true o = o
guarded false o = none

pub data Move : Type 0 where
  left_types right_types : Option Bytes → Move
  left_reads right_reads : Move

unfoldable pub move : (Bytes → Bool) → Move → Shell → Option Shell
unfolding enter_command receive_command take drop
move can_run (left_types line) s =
    guarded (s.left.running && s.left.curr_role)
      (enter_command line s.left >>= λ r. some (record s { left = r.0; first = s.first ++ r.1 }))
move can_run (right_types line) s =
    guarded (s.right.running && s.right.curr_role) (
      enter_command line s.right >>= λ r. some (record s { right = r.0; second = s.second ++ r.1 }))
move can_run left_reads s =
    guarded (s.left.running && not s.left.curr_role && not (is_empty s.second)) (
      receive_command can_run true (take command_size s.second) s.left >>= λ t.
      some (record s { left = t; second = drop command_size s.second }))
move can_run right_reads s =
    guarded (s.right.running && not s.right.curr_role && not (is_empty s.first)) (
      receive_command can_run false (take command_size s.first) s.right >>= λ t.
      some (record s { right = t; first = drop command_size s.first }))

-- strtok(command, " "): the words of a command, with the bytes of the current one.
unfoldable pub words_from : Bytes → Bytes → List Bytes
words_from word [] = if is_empty word then [] else word ∷ []
words_from word (b ∷ s) =
    let next = words_from [] s in
    let longer = words_from (word ++ b ∷ []) s in
    if b == 32 then (if is_empty word then next else word ∷ next) else longer

-- char* args[100]
abbrev pub max_args : ℕ
max_args = 100

-- The arguments for execvp.
unfoldable pub split_words : Bytes → List Bytes
unfolding words_from
split_words s = words_from [] s
