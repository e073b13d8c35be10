-- ===== src/Shell.antt =====
-- 설계 2번/ssu_shell.c: a line is cut into tokens, the tokens are put together to commands at each "|",
-- and the commands run as a pipeline. A string is the list of its characters. What happens when tokens
-- or commands do not fit their arrays is not known: the result is `none` then.
pub mod Words
pub mod Batch
pub mod Pipeline
mod Tests
use ssuos_mminos.Base.{
  ltb, ◌==◌, if◌then◌else◌, length, ℕ, ◌+◌, Bool, true, false, ◌&&◌, ◌||◌, Option, none, some, List,
  [], ◌∷◌, ◌++◌, map,
}

abbrev pub space : ℕ
space = 32

abbrev pub newline : ℕ
newline = 10

abbrev pub is_separator : ℕ → Bool
is_separator c = c == space || c == newline || c == 9

-- The loop of `tokenize`; what stands behind the last separator is dropped.
unfoldable pub tokenize_from : (line token : List ℕ) → List (List ℕ)
tokenize_from [] token = []
tokenize_from (c ∷ line) token =
    let rest = tokenize_from line [] in
    let more = tokenize_from line (token ++ c ∷ []) in
    if is_separator c then if length token == 0 then rest else token ∷ rest else more

-- The strings fit into arrays of so many bytes, with their NULs.
unfoldable pub all_short : (size : ℕ) → List (List ℕ) → Bool
all_short size [] = true
all_short size (s ∷ ss) = let rest = all_short size ss in ltb (length s) size && rest

-- A line ends with a separator. MAX_TOKEN_NUM, MAX_TOKEN_SIZE and MAX_COMMAND_NUM are 64; an array of
-- pointers ends with a null pointer.
unfoldable pub tokenize : List ℕ → Option (List (List ℕ))
unfolding tokenize_from
tokenize line =
    let tokens = tokenize_from line [] in
    if ltb (length tokens) 64 && all_short 64 tokens then some tokens else none

unfoldable pub same_string : List ℕ → List ℕ → Bool
same_string [] [] = true
same_string (x ∷ xs) (y ∷ ys) = let rest = same_string xs ys in x == y && rest
same_string [] (y ∷ ys) = false
same_string (x ∷ xs) [] = false

abbrev pub pps : List ℕ
pps = 112 ∷ 112 ∷ 115 ∷ []

abbrev pub ttop : List ℕ
ttop = 116 ∷ 116 ∷ 111 ∷ 112 ∷ []

-- "pps" and "ttop" are looked up in the working directory.
unfoldable pub expand : List ℕ → List ℕ
unfolding same_string
expand token = if same_string token pps || same_string token ttop then 46 ∷ 47 ∷ token else token

-- The test for "|".
abbrev pub is_pipe : List ℕ → Bool
is_pipe (c ∷ []) = c == 124
is_pipe _ = false

-- The loop of `merge_to_command`.
unfoldable pub merge_from : (tokens : List (List ℕ)) → (command : List ℕ) → List (List ℕ)
merge_from [] command = command ∷ []
merge_from (t ∷ tokens) command =
    let next = merge_from tokens [] in
    let more = merge_from tokens (command ++ t ++ space ∷ []) in
    if is_pipe t then command ∷ next else more

unfoldable pub merge_to_command : List (List ℕ) → Option (List (List ℕ))
unfolding merge_from
merge_to_command tokens =
    let commands = merge_from tokens [] in
    if ltb (length commands) 64 && all_short 1024 commands then some commands else none

-- The commands of a line that has been read.
unfoldable pub commands_of : List ℕ → Option (List (List ℕ))
unfolding tokenize merge_to_command expand
commands_of line = elim (tokenize (line ++ newline ∷ [])) [
  | none ↦ none
  | some tokens ↦ merge_to_command (map expand tokens)
]

-- A process of the pipeline; `none` is the input or output of the shell itself.
pub record Stage : Type 0 where
  pub argv : Option (List (List ℕ))
  pub stdin : Option ℕ
  pub stdout : Option ℕ

-- `execute_commands`, where `stdin` is the input that the loop has come to and `pipe_no` the number of
-- its next pipe; each command is tokenized again by `execute_command`.
unfoldable pub execute_commands :
    (commands : List (List ℕ)) → (stdin : Option ℕ) → (pipe_no : ℕ) → List Stage
unfolding tokenize
execute_commands [] stdin pipe_no = []
execute_commands (c ∷ []) stdin pipe_no =
    record { argv = tokenize c; stdin = stdin; stdout = none } ∷ []
execute_commands (c ∷ d ∷ commands) stdin pipe_no =
    record { argv = tokenize c; stdin = stdin; stdout = some pipe_no }
    ∷ execute_commands (d ∷ commands) (some pipe_no) (pipe_no + 1)
