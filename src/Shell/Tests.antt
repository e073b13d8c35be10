-- ===== src/Shell/Tests.antt =====
-- A line with a pipe, a script, and the theorems about them.
use ssuos_mminos.Base.{ℕ, ◌≡◌, refl, none, some, List, [], ◌∷◌, ◌++◌, map}
use ssuos_mminos.Shell.{
  tokenize, tokenize_from, merge_to_command, merge_from, execute_commands, commands_of, expand,
  same_string, all_short,
}
use ssuos_mminos.Shell.Words.{words_of}
use ssuos_mminos.Shell.Batch.{main, started, groups, unlines, no_newline, all_lines, main-unlines}
use ssuos_mminos.Shell.Pipeline.{execute_commands-commands_of}

-- "ls | wc" and a newline
abbrev ls_wc : List ℕ
ls_wc = 108 ∷ 115 ∷ 32 ∷ 124 ∷ 32 ∷ 119 ∷ 99 ∷ 10 ∷ []

abbrev ls_line : List ℕ
ls_line = 108 ∷ 115 ∷ 32 ∷ 124 ∷ 32 ∷ 119 ∷ 99 ∷ []

tokens_of : tokenize ls_wc ≡ some ((108 ∷ 115 ∷ []) ∷ (124 ∷ []) ∷ (119 ∷ 99 ∷ []) ∷ [])
unfolding tokenize tokenize_from all_short
tokens_of = refl

-- "pps" becomes "./pps ".
pps_command : commands_of (112 ∷ 112 ∷ 115 ∷ []) ≡ some ((46 ∷ 47 ∷ 112 ∷ 112 ∷ 115 ∷ 32 ∷ []) ∷ [])
unfolding commands_of tokenize tokenize_from merge_to_command merge_from expand same_string
    all_short
pps_command = refl

abbrev two_commands : (cs : List (List ℕ)) × (commands_of ls_line ≡ some cs)
unfolding commands_of tokenize tokenize_from merge_to_command merge_from expand same_string
    all_short
two_commands = (_, refl)

execute_commands-commands_of_example :
    map (λ s. s.argv) (execute_commands two_commands.0 none 0) ≡ map some (words_of ls_line)
execute_commands-commands_of_example =
    execute_commands-commands_of ls_line two_commands.0 two_commands.1

-- A script with the lines "ls | wc" and "pps", without a newline behind the second.
main-unlines_example :
    (started (main (unlines (ls_line ∷ []))) ≡ map groups (ls_line ∷ []))
    × (started (main (unlines (ls_line ∷ []) ++ (112 ∷ 112 ∷ 115 ∷ [])))
        ≡ map groups (ls_line ∷ []) ++ groups (112 ∷ 112 ∷ []) ∷ [])
unfolding unlines no_newline all_lines commands_of tokenize tokenize_from merge_to_command
    merge_from expand same_string all_short
main-unlines_example = main-unlines (ls_line ∷ []) (112 ∷ 112 ∷ []) 115 refl refl refl
