-- ===== src/Shell/Batch.antt =====
-- 설계 2번/ssu_shell.c, the loop of `main` over the lines of a script. The script has no zero
-- characters, and every command starts, as `fork` does not fail.
use ssuos_mminos.Base.{
  ltb, ◌==◌, if◌then◌else◌, Option-cases, is_none, length, length-append, ℕ, zero, suc, ◌<◌, ◌≡◌,
  refl, sym, ap, ◌∙◌, inl, inr, Bool, true, false, not, ◌&&◌, Option, none, some, List, [], ◌∷◌,
  ◌++◌, map, arith, append_assoc, append-nil,
}
use ssuos_mminos.Shell.{newline, Stage, commands_of, execute_commands}
use ssuos_mminos.Shell.Words.{words_of}
use ssuos_mminos.Shell.Pipeline.{execute_commands-commands_of}

-- MAX_INPUT_SIZE
abbrev pub max_input_size : ℕ
max_input_size = 1024

-- `fgets` with room for so many characters: the line read, with its newline, and what is left.
unfoldable fgets_from : (room : ℕ) → List ℕ → List ℕ × List ℕ
fgets_from zero s = ([], s)
fgets_from (suc room) [] = ([], [])
fgets_from (suc room) (c ∷ s) =
    let (line, rest) = fgets_from room s in if c == newline then (c ∷ [], s) else (c ∷ line, rest)

-- The size counts the zero that `fgets` puts at the end.
abbrev fgets : (size : ℕ) → List ℕ → List ℕ × List ℕ
fgets zero s = ([], s)
fgets (suc room) s = fgets_from room s

-- `line[strlen(line) - 1] = '\0'`
unfoldable drop_last : List ℕ → List ℕ
drop_last [] = []
drop_last (c ∷ []) = []
drop_last (c ∷ d ∷ s) = c ∷ drop_last (d ∷ s)

-- The processes that the shell starts for a line, if its tokens and commands fit their arrays.
abbrev pub run_line : List ℕ → Option (List Stage)
run_line line = elim (commands_of line) [
  | none ↦ none
  | some commands ↦ some (execute_commands commands none 0)
]

-- The loop of `main` on a script: the pipelines, each of which is waited for before the next.
unfoldable batch : (fuel : ℕ) → (script : List ℕ) → List (Option (List Stage))
unfolding fgets_from drop_last
batch zero script = []
batch (suc fuel) [] = []
batch (suc fuel) (c ∷ s) =
    let (line, rest) = fgets max_input_size (c ∷ s) in run_line (drop_last line) ∷ batch fuel rest

-- A round of the loop takes a character or more, so the length of the script is rounds enough.
unfoldable pub main : (script : List ℕ) → List (Option (List Stage))
unfolding batch
main script = batch (suc (length script)) script

unfoldable pub no_newline : List ℕ → Bool
no_newline [] = true
no_newline (c ∷ l) = let rest = no_newline l in not (c == newline) && rest

-- The characters of a line that is short enough for one round.
abbrev pub is_short : List ℕ → Bool
is_short l = no_newline l && ltb (length l) 1023

fgets_from-line :
    (room : ℕ) (l s : List ℕ)
    → no_newline l ≡ true
    → length l < room
    → fgets_from room (l ++ newline ∷ s) ≡ (l ++ newline ∷ [], s)
unfolding fgets_from no_newline
fgets_from-line zero l s e f = ground (arith, f)
fgets_from-line (suc room) [] s e f = refl
fgets_from-line (suc room) (c ∷ l) s e f =
    let other : (c == newline) ≡ false = ground (arith, e) in
    let rest = fgets_from-line room l s (ground (arith, e)) (omega (arith, f)) in
    rw other (ap (λ r. (c ∷ r.0, r.1)) rest)

fgets_from-end :
    (room : ℕ) (l : List ℕ) → no_newline l ≡ true → length l < room → fgets_from room l ≡ (l, [])
unfolding fgets_from no_newline
fgets_from-end zero l e f = ground (arith, f)
fgets_from-end (suc room) [] e f = refl
fgets_from-end (suc room) (c ∷ l) e f =
    let other : (c == newline) ≡ false = ground (arith, e) in
    let rest = fgets_from-end room l (ground (arith, e)) (omega (arith, f)) in
    rw other (ap (λ r. (c ∷ r.0, r.1)) rest)

drop_last-snoc : (l : List ℕ) (c : ℕ) → drop_last (l ++ c ∷ []) ≡ l
unfolding drop_last
drop_last-snoc [] c = refl
drop_last-snoc (d ∷ []) c = refl
drop_last-snoc (d ∷ e ∷ l) c = ap (λ r. d ∷ r) (drop_last-snoc (e ∷ l) c)

-- The lines of a script, a newline behind each.
unfoldable pub unlines : List (List ℕ) → List ℕ
unlines [] = []
unlines (l ∷ ls) = l ++ newline ∷ unlines ls

-- The tokens and commands of a line fit their arrays.
abbrev pub fits : List ℕ → Bool
fits l = not (is_none (commands_of l))

unfoldable pub all_lines : List (List ℕ) → Bool
all_lines [] = true
all_lines (l ∷ ls) = let rest = all_lines ls in (is_short l && fits l) && rest

batch-line :
    (fuel : ℕ) (l s : List ℕ)
    → is_short l ≡ true
    → batch (suc fuel) (l ++ newline ∷ s) ≡ run_line l ∷ batch fuel s
unfolding batch
batch-line fuel [] s e = refl
batch-line fuel (c ∷ l) s e =
    let read = fgets_from-line 1023 (c ∷ l) s (ground (arith, e)) (ground (arith, e)) in
    ap (λ r. run_line (drop_last r.0) ∷ batch fuel r.1) read
    ∙ ap (λ r. run_line r ∷ batch fuel s) (drop_last-snoc (c ∷ l) newline)

batch-end :
    (fuel : ℕ) (l : List ℕ) (c : ℕ)
    → is_short (l ++ c ∷ []) ≡ true
    → batch (suc (suc fuel)) (l ++ c ∷ []) ≡ run_line l ∷ []
unfolding batch
batch-end fuel [] c e =
    let read = fgets_from-end 1023 (c ∷ []) (ground (arith, e)) (omega arith) in
    ap (λ r. run_line (drop_last r.0) ∷ batch (suc fuel) r.1) read
batch-end fuel (d ∷ l) c e =
    let read = fgets_from-end 1023 (d ∷ l ++ c ∷ []) (ground (arith, e)) (ground (arith, e)) in
    ap (λ r. run_line (drop_last r.0) ∷ batch (suc fuel) r.1) read
    ∙ ap (λ r. run_line r ∷ []) (drop_last-snoc (d ∷ l) c)

batch-unlines :
    (ls : List (List ℕ)) (s : List ℕ) (end : List (Option (List Stage)))
    → all_lines ls ≡ true
    → ((fuel : ℕ) → length s < fuel → batch fuel s ≡ end)
    → (fuel : ℕ) → length (unlines ls ++ s) < fuel
    → batch fuel (unlines ls ++ s) ≡ map run_line ls ++ end
unfolding unlines all_lines
batch-unlines [] s end e ends fuel f = ends fuel f
batch-unlines (l ∷ ls) s end e ends zero f = ground (arith, f)
batch-unlines (l ∷ ls) s end e ends (suc fuel) f =
    let split = append_assoc l (newline ∷ unlines ls) s in
    let less : length (unlines ls ++ s) < fuel =
      omega (arith, rw split at f, length-append l (newline ∷ (unlines ls ++ s))) in
    ap (batch (suc fuel)) split
    ∙ batch-line fuel l (unlines ls ++ s) (ground (arith, e))
    ∙ ap (λ r. run_line l ∷ r) (batch-unlines ls s end (ground (arith, e)) ends fuel less)

batch-nil : (fuel : ℕ) → 0 < fuel → batch fuel [] ≡ []
unfolding batch
batch-nil zero f = refl
batch-nil (suc fuel) f = refl

batch-unfinished :
    (l : List ℕ) (c : ℕ)
    → is_short (l ++ c ∷ []) ≡ true
    → (fuel : ℕ) → length (l ++ c ∷ []) < fuel
    → batch fuel (l ++ c ∷ []) ≡ run_line l ∷ []
batch-unfinished l c e zero f = ground (arith, f)
batch-unfinished l c e (suc zero) f = ground (arith, f, length-append l (c ∷ []))
batch-unfinished l c e (suc (suc fuel)) f = batch-end fuel l c e

-- The arguments of the processes, where they are known.
abbrev pub argvs : Option (List Stage) → Option (List (Option (List (List ℕ))))
argvs none = none
argvs (some stages) = some (map (λ s. s.argv) stages)

abbrev pub started : List (Option (List Stage)) → List (Option (List (Option (List (List ℕ)))))
started = map argvs

-- What a line is to start: a process for each group of its tokens.
abbrev pub groups : List ℕ → Option (List (Option (List (List ℕ))))
groups l = some (map some (words_of l))

run_line-groups : (l : List ℕ) → fits l ≡ true → argvs (run_line l) ≡ groups l
run_line-groups l e = elim (Option-cases (commands_of l)) [
  | inl unknown ↦ absurd (ground (arith, e, unknown))
  | inr (commands, at) ↦ rw (at, argvs) (ap some (execute_commands-commands_of l commands at))
]

started-lines :
    (ls : List (List ℕ)) (end : List (Option (List Stage)))
    → all_lines ls ≡ true
    → started (map run_line ls ++ end) ≡ map groups ls ++ started end
unfolding all_lines
started-lines [] end e = refl
started-lines (l ∷ ls) end e =
    ap (λ g. g ∷ started (map run_line ls ++ end)) (run_line-groups l (ground (arith, e)))
    ∙ ap (λ r. groups l ∷ r) (started-lines ls end (ground (arith, e)))

-- A script of lines that have at most 1022 characters, and whose tokens and commands fit their arrays, starts
-- for each line, in order, processes with the tokens of the line as their arguments, with "pps" and "ttop"
-- replaced, split at each "|". When there is no newline at the end of the script, the last character of the
-- last line is lost.
pub main-unlines :
    (ls : List (List ℕ)) (l : List ℕ) (c : ℕ)
    → all_lines ls ≡ true
    → is_short (l ++ c ∷ []) ≡ true
    → fits l ≡ true
    → (started (main (unlines ls)) ≡ map groups ls)
      × (started (main (unlines ls ++ (l ++ c ∷ []))) ≡ map groups ls ++ groups l ∷ [])
unfolding main
main-unlines ls l c e f known =
    let whole = batch-unlines ls [] [] e batch-nil (suc (length (unlines ls))) in
    let cut = batch-unlines ls (l ++ c ∷ []) (run_line l ∷ []) e (batch-unfinished l c f) in
    let script = append-nil (unlines ls) in
    (
      ap (λ s. started (batch (suc (length (unlines ls))) s)) (sym script)
          ∙ ap started (whole (ground (arith, script)))
          ∙ started-lines ls [] e
          ∙ append-nil (map groups ls),
      ap started (cut (suc (length (unlines ls ++ (l ++ c ∷ [])))) (omega arith))
          ∙ started-lines ls (run_line l ∷ []) e
          ∙ ap (λ g. map groups ls ++ g ∷ []) (run_line-groups l known),
    )
