-- ===== src/Console/Lines.antt =====
-- `consoleread` gives what has been handed over, line by line.
use ssuos_mminos.Base.{
  ◌==◌, if◌then◌else◌, length, has, ℕ, suc, ◌+◌, ◌%◌, ◌≡◌, refl, sym, ap, ◌∙◌, Bool, true, false,
  List, [], ◌∷◌, ◌++◌, arith, append-nil,
}
use mathlib.Core.Path.{subst}
use ssuos_mminos.Console.{Input, next, returns, sleeps, read_more, consoleread}
use ssuos_mminos.Console.Cells.{Holds}
use ssuos_mminos.Console.Taking.{taken-Holds, read_first, reading, passed, passed-Holds, text-read}

read_first-returns :
    (text ks : List ℕ) (c : Input) → read_first text (returns ks c) ≡ returns (text ++ ks) c
read_first-returns [] ks c = refl
read_first-returns (k ∷ text) ks c = ap (read_more k) (read_first-returns text ks c)

read_first-sleeps : (text : List ℕ) (c : Input) → read_first text (sleeps [] c) ≡ sleeps text c
read_first-sleeps [] c = refl
read_first-sleeps (k ∷ text) c = ap (read_more k) (read_first-sleeps text c)

-- Control-D is left for the next call if something has been read.
abbrev pub behind_eof : List ℕ → List ℕ → List ℕ
behind_eof [] rest = rest
behind_eof (k ∷ text) rest = 4 ∷ rest

-- When `text`, which has no end of a line and no control-D, is in front of what has been handed over,
-- `consoleread` with room for it copies it, and as much as it has room for if that is all; an end of a line
-- behind it is copied too, and the call returns; at control-D the call returns, and control-D is taken away
-- only if `text` is empty; and with nothing behind it the call sleeps. What is behind stays, and so does the
-- line that is being edited.
pub consoleread_lem :
    (text rest l : List ℕ) (c : Input)
    → has 10 text ≡ false
    → has 4 text ≡ false
    → Holds c (text ++ rest) l
    → (c' : Input) × Holds c' rest l
      × ((killed : Bool) → consoleread killed false (length text) c ≡ returns text c')
      × ((killed : Bool) (n : ℕ) (behind : List ℕ)
          → rest ≡ 10 ∷ behind
          → (c'' : Input) × Holds c'' behind l
            × (consoleread killed false (length text + suc n) c ≡ returns (text ++ 10 ∷ []) c''))
      × ((killed : Bool) (n : ℕ) (behind : List ℕ)
          → rest ≡ 4 ∷ behind
          → (c'' : Input) × Holds c'' (behind_eof text behind) l
            × (consoleread killed false (length text + suc n) c ≡ returns text c''))
      × ((n : ℕ) → rest ≡ [] → consoleread false false (length text + suc n) c ≡ sleeps text c')
unfolding consoleread
consoleread_lem text rest l c no_end no_eof h =
    let c' = passed text c in
    let h' = passed-Holds text rest l c h in
    let run = λ (killed : Bool) (n : ℕ). text-read killed false n text rest l c no_end no_eof h in
    let whole : length text + 0 ≡ length text = omega arith in
    (
      c',
      h',
      λ killed.
          ap (λ n. consoleread killed false n c) (sym whole)
          ∙ run killed 0
          ∙ read_first-returns text [] c'
          ∙ ap (λ ks. returns ks c') (append-nil text),
      λ killed n behind is.
          let (h'', at, more) = taken-Holds c' 10 behind l (subst (λ q. Holds c' q l) is h') in
          (
            record c' { r = next c'.r },
            h'',
            run killed (suc n)
                ∙ ap (read_first text) (line_end killed (reading false text) n c' at more)
                ∙ read_first-returns text (10 ∷ []) (record c' { r = next c'.r }),
          ),
      λ killed n behind is.
          at_eof text behind c' killed n (subst (λ q. Holds c' q l) is h') (run killed (suc n)),
      λ n is.
          let h'' : Holds c' [] l = subst (λ q. Holds c' q l) is h' in
          let empty : (c'.r == c'.w) ≡ true = ground (arith, h''.w_at, h''.r_fits) in
          run false (suc n)
          ∙ ap (read_first text) (nothing_left (reading false text) n c' empty)
          ∙ read_first-sleeps text c',
    )
  where
    line_end :
        (killed some_read : Bool) (n : ℕ) (x : Input)
        → x.buf (x.r % 128) ≡ 10
        → (x.r == x.w) ≡ false
        → consoleread killed some_read (suc n) x ≡ returns (10 ∷ []) (record x { r = next x.r })
    line_end killed some_read n x at more = rw (more, at) refl

    nothing_left :
        (some_read : Bool) (n : ℕ) (x : Input)
        → (x.r == x.w) ≡ true
        → consoleread false some_read (suc n) x ≡ sleeps [] x
    nothing_left some_read n x empty = rw empty refl

    eof_read :
        (killed some_read : Bool) (n : ℕ) (x : Input)
        → x.buf (x.r % 128) ≡ 4
        → (x.r == x.w) ≡ false
        → consoleread killed some_read (suc n) x
          ≡ returns [] (if some_read then x else record x { r = next x.r })
    eof_read killed some_read n x at more = rw (more, at) refl

    at_eof :
        (text behind : List ℕ) (x : Input) (killed : Bool) (n : ℕ)
        → Holds x (4 ∷ behind) l
        → consoleread killed false (length text + suc n) c
          ≡ read_first text (consoleread killed (reading false text) (suc n) x)
        → (c'' : Input) × Holds c'' (behind_eof text behind) l
          × (consoleread killed false (length text + suc n) c ≡ returns text c'')
    at_eof [] behind x killed n v e =
        let (w, at, more) = taken-Holds x 4 behind l v in
        (record x { r = next x.r }, w, e ∙ eof_read killed false n x at more)
    at_eof (k ∷ text) behind x killed n v e =
        let (w, at, more) = taken-Holds x 4 behind l v in
        (
          x,
          v,
          e
              ∙ ap (read_first (k ∷ text)) (eof_read killed true n x at more)
              ∙ read_first-returns (k ∷ text) [] x
              ∙ ap (λ ks. returns ks x) (append-nil (k ∷ text)),
        )
