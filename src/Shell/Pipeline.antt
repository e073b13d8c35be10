-- ===== src/Shell/Pipeline.antt =====
-- What the processes of a pipeline run.
use ssuos_mminos.Base.{ℕ, ◌+◌, ◌≡◌, refl, ap, ◌∙◌, Option, none, some, List, [], ◌∷◌, map}
use ssuos_mminos.Shell.{tokenize, commands_of, execute_commands}
use ssuos_mminos.Shell.Words.{words_of, tokenize-commands_of}

execute_commands-tokenize :
    (commands : List (List ℕ)) (stdin : Option ℕ) (k : ℕ)
    → map (λ s. s.argv) (execute_commands commands stdin k) ≡ map tokenize commands
unfolding execute_commands
execute_commands-tokenize [] stdin k = refl
execute_commands-tokenize (c ∷ []) stdin k = refl
execute_commands-tokenize (c ∷ d ∷ commands) stdin k =
    ap (λ r. tokenize c ∷ r) (execute_commands-tokenize (d ∷ commands) (some k) (k + 1))

-- When the tokens and commands of a line fit their arrays, the processes that the line starts have as their
-- arguments the tokens of the line, with "pps" and "ttop" replaced, split at each "|": putting the tokens
-- together to commands and cutting the commands into tokens again loses nothing.
pub execute_commands-commands_of :
    (line : List ℕ) (commands : List (List ℕ))
    → commands_of line ≡ some commands
    → map (λ s. s.argv) (execute_commands commands none 0) ≡ map some (words_of line)
execute_commands-commands_of line commands e =
    execute_commands-tokenize commands none 0 ∙ tokenize-commands_of line commands e
