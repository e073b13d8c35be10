-- ===== src/Shell/Words.antt =====
-- Tokens and commands: a command that is tokenized again gives the tokens it was put together from.
use ssuos_mminos.Base.{
  ltb, ◌==◌, if◌then◌else◌, Bool-cases, length, length-append, ℕ, suc, ◌+◌, ◌<◌, ◌≡◌, refl, sym, ap,
  ◌∙◌, inl, inr, Bool, true, false, not, ◌&&◌, some, List, [], ◌∷◌, ◌++◌, map, arith,
}
use mathlib.Core.List.{append_assoc, append-nil}
use ssuos_mminos.Shell.{
  newline, all_short, same_string, expand, pps, ttop, commands_of, space, is_separator,
  tokenize_from, tokenize, is_pipe, merge_from, merge_to_command,
}

-- No character of the string is a separator.
pub plain : List ℕ → Bool
plain [] = true
plain (c ∷ cs) = let rest = plain cs in not (is_separator c) && rest

abbrev pub word : List ℕ → Bool
word w = not (length w == 0) && plain w

pub all_words : List (List ℕ) → Bool
all_words [] = true
all_words (w ∷ ws) = let rest = all_words ws in word w && rest

plain-append : (xs ys : List ℕ) → plain (xs ++ ys) ≡ (plain xs && plain ys)
unfolding plain
plain-append [] ys = refl
plain-append (x ∷ xs) ys = ground (arith, plain-append xs ys)

tokenize_from-words :
    (line token : List ℕ) → plain token ≡ true → all_words (tokenize_from line token) ≡ true
unfolding tokenize_from all_words plain
tokenize_from-words [] token e = refl
tokenize_from-words (c ∷ line) token e = ground (
  arith,
  tokenize_from-words line [] refl,
  tokenize_from-words line (token ++ c ∷ []),
  plain-append token (c ∷ []),
)

-- Each token of a line is not empty and has no separator in it.
pub tokenize-words : (line : List ℕ) → all_words (tokenize_from line []) ≡ true
unfolding plain
tokenize-words line = tokenize_from-words line [] refl

tokenize_from-word :
    (w line token : List ℕ)
    → plain w ≡ true
    → tokenize_from (w ++ line) token ≡ tokenize_from line (token ++ w)
unfolding tokenize_from plain
tokenize_from-word [] line token e = ap (tokenize_from line) (sym (append-nil token))
tokenize_from-word (c ∷ w) line token e =
    let inside : is_separator c ≡ false = ground (arith, e) in
    let rest = tokenize_from-word w line (token ++ c ∷ []) (ground (arith, e)) in
    rw inside (rest ∙ ap (tokenize_from line) (append_assoc token (c ∷ []) w))

-- the tokens of a command, each with a space behind it
pub joined : List (List ℕ) → List ℕ
joined [] = []
joined (w ∷ ws) = (w ++ space ∷ []) ++ joined ws

joined-snoc :
    (ws : List (List ℕ)) (w : List ℕ) → joined (ws ++ w ∷ []) ≡ joined ws ++ w ++ space ∷ []
unfolding joined
joined-snoc [] w = append-nil (w ++ space ∷ [])
joined-snoc (v ∷ ws) w =
    ap (λ r. (v ++ space ∷ []) ++ r) (joined-snoc ws w)
    ∙ sym (append_assoc (v ++ space ∷ []) (joined ws ++ w) (space ∷ []))
    ∙ ap (λ r. r ++ space ∷ []) (sym (append_assoc (v ++ space ∷ []) (joined ws) w))

tokenize_from-joined :
    (ws : List (List ℕ)) → all_words ws ≡ true → tokenize_from (joined ws) [] ≡ ws
unfolding tokenize_from joined all_words
tokenize_from-joined [] e = refl
tokenize_from-joined (w ∷ ws) e =
    let some_word : (length w == 0) ≡ false = ground (arith, e) in
    let rest = tokenize_from-joined ws (ground (arith, e)) in
    ap (λ l. tokenize_from l []) (append_assoc w (space ∷ []) (joined ws))
    ∙ tokenize_from-word w (space ∷ joined ws) [] (ground (arith, e))
    ∙ (rw some_word (ap (λ r. w ∷ r) rest))

tokenize-joined :
    (ws : List (List ℕ))
    → all_words ws ≡ true
    → all_short 64 ws ≡ true
    → length ws < 64
    → tokenize (joined ws) ≡ some ws
unfolding tokenize
tokenize-joined ws e short few = rw (tokenize_from-joined ws e) (ground (arith, short, few))

-- The tokens of the commands, as a split of the tokens of a line at each "|".
pub split_from : (tokens group : List (List ℕ)) → List (List (List ℕ))
split_from [] group = group ∷ []
split_from (t ∷ tokens) group =
    let next = split_from tokens [] in
    let more = split_from tokens (group ++ t ∷ []) in if is_pipe t then group ∷ next else more

merge_from-split :
    (tokens group : List (List ℕ))
    → merge_from tokens (joined group) ≡ map joined (split_from tokens group)
unfolding merge_from split_from joined
merge_from-split [] group = refl
merge_from-split (t ∷ tokens) group = elim (Bool-cases (is_pipe t)) [
  | inl pipe ↦ rw pipe (ap (λ r. joined group ∷ r) (merge_from-split tokens []))
  | inr other ↦ rw other (
      ap (merge_from tokens) (sym (joined-snoc group t))
      ∙ merge_from-split tokens (group ++ t ∷ []))
]

all_words-snoc :
    (ws : List (List ℕ)) (w : List ℕ)
    → all_words ws ≡ true
    → word w ≡ true
    → all_words (ws ++ w ∷ []) ≡ true
unfolding all_words
all_words-snoc [] w e f = ground (arith, f)
all_words-snoc (v ∷ ws) w e f = ground (arith, e, f, all_words-snoc ws w)

all_short-snoc :
    (ws : List (List ℕ)) (w : List ℕ)
    → all_short 64 ws ≡ true
    → length w < 64
    → all_short 64 (ws ++ w ∷ []) ≡ true
unfolding all_short
all_short-snoc [] w e f = ground (arith, f)
all_short-snoc (v ∷ ws) w e f = ground (arith, e, f, all_short-snoc ws w)

split-tokens :
    (tokens group : List (List ℕ))
    → all_words tokens ≡ true
    → all_words group ≡ true
    → all_short 64 tokens ≡ true
    → all_short 64 group ≡ true
    → length group + length tokens < 64
    → map tokenize (map joined (split_from tokens group)) ≡ map some (split_from tokens group)
unfolding split_from all_words all_short
split-tokens [] group e f se sf few =
    ap (λ r. r ∷ []) (tokenize-joined group f sf (omega (arith, few)))
split-tokens (t ∷ tokens) group e f se sf few = elim (Bool-cases (is_pipe t)) [
  | inl pipe ↦
      let rest =
        split-tokens tokens [] (ground (arith, e)) refl (ground (arith, se)) refl
          (omega (arith, few)) in
      rw pipe (
        ap (λ r. tokenize (joined group) ∷ r) rest
        ∙ ap (λ r. r ∷ map some (split_from tokens []))
            (tokenize-joined group f sf (omega (arith, few))))
  | inr other ↦ rw other (
      split-tokens tokens (group ++ t ∷ []) (ground (arith, e))
        (all_words-snoc group t f (ground (arith, e))) (ground (arith, se))
        (all_short-snoc group t sf (ground (arith, se)))
        (omega (arith, few, length-append {0} group (t ∷ []))))
]

-- The replacements of "pps" and "ttop" are words that fit, too.
same_string-length : (xs ys : List ℕ) → same_string xs ys ≡ true → length xs ≡ length ys
unfolding same_string
same_string-length [] [] e = refl
same_string-length (x ∷ xs) (y ∷ ys) e = ap suc (same_string-length xs ys (ground (arith, e)))
same_string-length [] (y ∷ ys) e = absurd (ground (arith, e))
same_string-length (x ∷ xs) [] e = absurd (ground (arith, e))

expand-word : (t : List ℕ) → word t ≡ true → word (expand t) ≡ true
unfolding expand plain
expand-word t e = ground (arith, e)

expand-short : (t : List ℕ) → length t < 64 → length (expand t) < 64
unfolding expand
expand-short t e = ground (arith, e, same_string-length t pps, same_string-length t ttop)

all_words-expand : (ts : List (List ℕ)) → all_words ts ≡ true → all_words (map expand ts) ≡ true
unfolding all_words
all_words-expand [] e = refl
all_words-expand (t ∷ ts) e =
    ground (arith, expand-word t (ground (arith, e)), all_words-expand ts (ground (arith, e)))

all_short-expand :
    (ts : List (List ℕ)) → all_short 64 ts ≡ true → all_short 64 (map expand ts) ≡ true
unfolding all_short
all_short-expand [] e = refl
all_short-expand (t ∷ ts) e =
    ground (arith, expand-short t (ground (arith, e)), all_short-expand ts (ground (arith, e)))

length-map : (ts : List (List ℕ)) → length (map expand ts) ≡ length ts
length-map [] = refl
length-map (t ∷ ts) = ap suc (length-map ts)

-- The tokens of the commands of a line: those of the line, where "pps" and "ttop" are replaced, split at
-- each "|".
abbrev pub words_of : List ℕ → List (List (List ℕ))
words_of line = split_from (map expand (tokenize_from (line ++ newline ∷ []) [])) []

-- When `execute_command` cuts the commands of a line into tokens again, it gets the tokens that they were
-- put together from.
pub tokenize-commands_of :
    (line : List ℕ) (commands : List (List ℕ))
    → commands_of line ≡ some commands
    → map tokenize commands ≡ map some (words_of line)
unfolding commands_of tokenize merge_to_command joined all_words all_short
tokenize-commands_of line commands e =
    let ts = tokenize_from (line ++ newline ∷ []) [] in
    let fits : (ltb (length ts) 64 && all_short 64 ts) ≡ true = ground (arith, e) in
    let same : merge_from (map expand ts) [] ≡ commands = ground (arith, e, fits) in
    ap (map tokenize) (sym same ∙ merge_from-split (map expand ts) [])
    ∙ split-tokens (map expand ts) [] (all_words-expand ts (tokenize-words (line ++ newline ∷ [])))
        refl (all_short-expand ts (ground (arith, fits))) refl
        (omega (arith, length-map ts, ltb-lt (length ts) (all_short 64 ts) fits))
  where
    ltb-lt : (n : ℕ) (b : Bool) → (ltb n 64 && b) ≡ true → n < 64
    ltb-lt n b f = ground (arith, f)
