-- ===== src/Ps/Arguments.antt =====
-- The command that is shown for a list of arguments.
use ssuos_mminos.Base.{
  ◌==◌, length, length-append, ℕ, zero, suc, ◌+◌, ◌-◌, ◌≤◌, ◌≡◌, refl, sym, ap, ◌∙◌, Bool, true,
  false, not, ◌&&◌, Option, none, some, List, [], ◌∷◌, ◌++◌, arith,
}
use mathlib.Core.Option
use mathlib.Core.List.{append_assoc, append-nil}
use ssuos_mminos.Ps.Cmdline.{line_max, buffer, blank, string_in, bracket, shown_if, cmdline}

unfoldable pub no_nul : List ℕ → Bool
no_nul [] = true
no_nul (c ∷ cs) = let rest = no_nul cs in not (c == 0) && rest

-- Not empty, and without a NUL.
abbrev pub proper : List ℕ → Bool
proper arg = not (length arg == 0) && no_nul arg

unfoldable pub all_proper : List (List ℕ) → Bool
all_proper [] = true
all_proper (arg ∷ args) = let rest = all_proper args in proper arg && rest

-- Each argument with a NUL behind it, as the kernel writes them.
unfoldable pub with_nuls : List (List ℕ) → List ℕ
with_nuls [] = []
with_nuls (arg ∷ args) = arg ++ 0 ∷ with_nuls args

pub with_spaces : List (List ℕ) → List ℕ
with_spaces [] = []
with_spaces (arg ∷ []) = arg
with_spaces (arg ∷ next ∷ args) = arg ++ 32 ∷ with_spaces (next ∷ args)

-- The bytes end here, or an empty argument follows.
unfoldable pub stops : List ℕ → Bool
stops [] = true
stops (c ∷ cs) = c == 0

abbrev pub empty : List (List ℕ) → Bool
empty [] = true
empty (arg ∷ args) = false

abbrev seen : ℕ → List ℕ → Option (List ℕ)
seen n bytes = string_in (blank (buffer n bytes))

blank-cons : (c : ℕ) (l : List ℕ) → (c == 0) ≡ false → blank (c ∷ l) ≡ c ∷ blank l
unfolding blank
blank-cons c [] nz = refl
blank-cons c (d ∷ l) nz = rw nz refl

map_prefix :
    (o : Option (List ℕ)) (c : ℕ) (a : List ℕ)
    → Option.map (λ s. c ∷ s) (Option.map (λ s. a ++ s) o) ≡ Option.map (λ s. (c ∷ a) ++ s) o
map_prefix none c a = refl
map_prefix (some s) c a = refl

map_nothing : (o : Option (List ℕ)) → Option.map (λ s. [] ++ s) o ≡ o
map_nothing none = refl
map_nothing (some s) = refl

seen-prefix :
    (a r : List ℕ) (n m : ℕ)
    → no_nul a ≡ true
    → n ≡ length a + m
    → seen n (a ++ r) ≡ Option.map (λ s. a ++ s) (seen m r)
unfolding no_nul buffer string_in
seen-prefix [] r n m e en = ap (λ k. seen k r) (omega (arith, en)) ∙ sym (map_nothing (seen m r))
seen-prefix (c ∷ a) r zero m e en = absurd (omega (arith, en))
seen-prefix (c ∷ a) r (suc n) m e en =
    let nz : (c == 0) ≡ false = ground (arith, e) in
    let rest = seen-prefix a r n m (ground (arith, e)) (omega (arith, en)) in
    ap string_in (blank-cons c (buffer n (a ++ r)) nz)
    ∙ (rw nz (ap (Option.map (λ s. c ∷ s)) rest ∙ map_prefix (seen m r) c a))

seen-stop : (r : List ℕ) (n : ℕ) → stops r ≡ true → seen (suc n) (0 ∷ r) ≡ some []
unfolding stops buffer blank string_in
seen-stop r zero e = refl
seen-stop [] (suc n) e = refl
seen-stop (c ∷ r) (suc n) e = rw e refl

seen-space :
    (c : ℕ) (r : List ℕ) (n : ℕ)
    → (c == 0) ≡ false
    → seen (suc (suc n)) (0 ∷ c ∷ r) ≡ Option.map (λ s. 32 ∷ s) (seen (suc n) (c ∷ r))
unfolding buffer blank string_in
seen-space c r n nz = rw nz refl

seen-args :
    (args : List (List ℕ)) (r : List ℕ) (n : ℕ)
    → all_proper args ≡ true
    → empty args ≡ false
    → stops r ≡ true
    → length (with_nuls args) ≤ n
    → seen n (with_nuls args ++ r) ≡ some (with_spaces args)
unfolding all_proper no_nul with_nuls with_spaces
seen-args [] r n e some_arg st le = absurd (ground (arith, some_arg))
seen-args (arg ∷ []) r n e some_arg st le =
    let room = length-append arg (0 ∷ []) in
    ap (seen n) (append_assoc arg (0 ∷ []) r)
    ∙ seen-prefix arg (0 ∷ r) n (suc (n - length arg - 1)) (ground (arith, e))
        (omega (arith, le, room))
    ∙ ap (Option.map (λ s. arg ++ s)) (seen-stop r (n - length arg - 1) st)
    ∙ ap some (append-nil arg)
seen-args (arg ∷ [] ∷ args) r n e some_arg st le = absurd (ground (arith, e))
seen-args (arg ∷ (c ∷ cs) ∷ args) r n e some_arg st le =
    let behind = with_nuls ((c ∷ cs) ∷ args) in
    let room = length-append arg (0 ∷ behind) in
    let m = n - length arg - 2 in
    let rest =
      seen-args ((c ∷ cs) ∷ args) r (suc m) (ground (arith, e)) refl st (omega (arith, le, room)) in
    ap (seen n) (append_assoc arg (0 ∷ behind) r)
    ∙ seen-prefix arg (0 ∷ (behind ++ r)) n (suc (suc m)) (ground (arith, e))
        (omega (arith, le, room))
    ∙ ap (Option.map (λ s. arg ++ s))
        (seen-space c ((cs ++ 0 ∷ with_nuls args) ++ r) m (ground (arith, e)))
    ∙ ap (λ o. Option.map (λ s. arg ++ s) (Option.map (λ s. 32 ∷ s) o)) rest

shown_if-args :
    (comm : List ℕ) (args : List (List ℕ))
    → all_proper args ≡ true
    → empty args ≡ false
    → shown_if comm (with_spaces args) ≡ with_spaces args
unfolding all_proper with_spaces shown_if
shown_if-args comm [] e some_arg = absurd (ground (arith, some_arg))
shown_if-args comm ([] ∷ args) e some_arg = absurd (ground (arith, e))
shown_if-args comm ((c ∷ cs) ∷ []) e some_arg = refl
shown_if-args comm ((c ∷ cs) ∷ next ∷ args) e some_arg = refl

no_bytes : (comm : List ℕ) → cmdline comm [] ≡ some (bracket comm)
unfolding cmdline buffer blank string_in shown_if
no_bytes comm = refl

-- A process with arguments that are not empty, and that fit into 512 bytes with their NULs, is shown
-- as these arguments with spaces between them, up to the first empty argument or the end; a process
-- without any is shown as its name in brackets.
pub cmdline-args :
    (comm : List ℕ) (args : List (List ℕ)) (rest : List ℕ)
    → all_proper args ≡ true
    → empty args ≡ false
    → stops rest ≡ true
    → length (with_nuls args) ≤ line_max
    → (cmdline comm (with_nuls args ++ rest) ≡ some (with_spaces args))
      × (cmdline comm [] ≡ some (bracket comm))
unfolding cmdline
cmdline-args comm args rest e some_arg st le = (
  ap (Option.map (shown_if comm)) (seen-args args rest line_max e some_arg st le)
      ∙ ap some (shown_if-args comm args e some_arg),
  no_bytes comm,
)
