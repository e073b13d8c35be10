-- ===== src/Ps/Cmdline.antt =====
-- scan_proc of ssu_ps.c: how the bytes of /proc/<pid>/cmdline become the command that is shown. The
-- arguments stand in that file one after the other, each with a NUL behind it. What `fread` leaves in
-- the buffer for a short file is what it has read.
use ssuos_mminos.Base.{
  ◌==◌, if◌then◌else◌, length, set, ℕ, zero, suc, ◌-◌, Option, none, some, List, [], ◌∷◌,
}
use mathlib.Core.Option

abbrev pub line_max : ℕ
line_max = 512

-- `memset` and `fread` on a buffer of `n` bytes
unfoldable pub buffer : (n : ℕ) → List ℕ → List ℕ
buffer zero bytes = []
buffer (suc n) [] = 0 ∷ buffer n []
buffer (suc n) (b ∷ bytes) = b ∷ buffer n bytes

-- The loop over `line`: a NUL becomes a space, until one is followed by another or is the last byte.
unfoldable pub blank : List ℕ → List ℕ
blank [] = []
blank (c ∷ []) = c ∷ []
blank (c ∷ d ∷ line) =
    let rest = blank (d ∷ line) in
    if c == 0 then (if d == 0 then c ∷ d ∷ line else 32 ∷ rest) else c ∷ rest

-- The string in a buffer; `none` if it has no NUL, where `strlen` and `strcpy` read on behind it.
unfoldable pub string_in : List ℕ → Option (List ℕ)
string_in [] = none
string_in (c ∷ line) =
    let rest = string_in line in if c == 0 then some [] else Option.map (λ s. c ∷ s) rest

-- `pstat.cmdline`, where `comm` is the name in parentheses that `fscanf` has read.
unfoldable pub bracket : List ℕ → List ℕ
bracket comm = set (set comm 0 91) (length comm - 1) 93

unfoldable pub shown_if : (comm line : List ℕ) → List ℕ
shown_if comm [] = bracket comm
shown_if comm (c ∷ line) = c ∷ line

unfoldable pub cmdline : (comm bytes : List ℕ) → Option (List ℕ)
cmdline comm bytes = Option.map (shown_if comm) (string_in (blank (buffer line_max bytes)))
