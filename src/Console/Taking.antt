-- ===== src/Console/Taking.antt =====
-- Bytes that `consoleread` takes from the front of the ring.
use ssuos_mminos.Base.{
  ◌==◌, if◌then◌else◌, length, has, ℕ, suc, ◌+◌, ◌%◌, ◌≡◌, refl, sym, ap, ◌∙◌, Bool, true, false,
  List, [], ◌∷◌, ◌++◌, arith,
}
use mathlib.Core.Path.{subst}
use ssuos_mminos.Console.{Input, next, Read, returns, sleeps, interrupted, read_more, consoleread}
use ssuos_mminos.Console.Cells.{Holds}

-- A byte is taken from the front.
pub taken-Holds :
    (c : Input) (k : ℕ) (q l : List ℕ)
    → Holds c (k ∷ q) l
    → Holds (record c { r = next c.r }) q l × (c.buf (c.r % 128) ≡ k) × ((c.r == c.w) ≡ false)
taken-Holds c k q l h =
    let at : (c.r + 0) % 128 ≡ c.r % 128 = omega arith in
    (
      record {
        r_fits = omega arith;
        w_at = omega (arith, h.w_at);
        e_at = omega (arith, h.e_at);
        room = omega (arith, h.room);
        cells = λ i lt.
            let next_at : (next c.r + i) % 128 ≡ (c.r + suc i) % 128 = omega arith in
            ap c.buf next_at ∙ h.cells (suc i) (omega (arith, lt));
      },
      ap c.buf (sym at) ∙ h.cells 0 (omega arith),
      ground (arith, h.w_at, h.r_fits, h.room),
    )

consoleread_step :
    (killed some_read : Bool) (n : ℕ) (c : Input)
    → consoleread killed some_read (suc n) c ≡ (
        if c.r == c.w
        then if killed then interrupted c else sleeps [] c
        else if c.buf (c.r % 128) == 4
        then returns [] (if some_read then c else record c { r = next c.r })
        else if c.buf (c.r % 128) == 10
        then returns (c.buf (c.r % 128) ∷ []) (record c { r = next c.r })
        else read_more (c.buf (c.r % 128)) (consoleread killed true n (record c { r = next c.r })))
unfolding consoleread
consoleread_step killed some_read n c = refl

-- The bytes in front of what is read then.
abbrev pub read_first : List ℕ → Read → Read
read_first [] x = x
read_first (k ∷ ks) x = read_more k (read_first ks x)

-- Whether some byte has been read.
abbrev pub reading : Bool → List ℕ → Bool
reading some_read [] = some_read
reading some_read (k ∷ ks) = true

reading-true : (ks : List ℕ) → reading true ks ≡ true
reading-true [] = refl
reading-true (k ∷ ks) = refl

-- The console after as many bytes have been taken.
abbrev pub passed : List ℕ → Input → Input
passed [] c = c
passed (k ∷ ks) c = passed ks (record c { r = next c.r })

pub passed-Holds :
    (text rest l : List ℕ) (c : Input) → Holds c (text ++ rest) l → Holds (passed text c) rest l
passed-Holds [] rest l c h = h
passed-Holds (k ∷ text) rest l c h =
    passed-Holds text rest l (record c { r = next c.r }) (taken-Holds c k (text ++ rest) l h).0

-- Bytes that end no line are read one by one.
pub text-read :
    (killed some_read : Bool) (n : ℕ) (text rest l : List ℕ) (c : Input)
    → has 10 text ≡ false
    → has 4 text ≡ false
    → Holds c (text ++ rest) l
    → consoleread killed some_read (length text + n) c
      ≡ read_first text (consoleread killed (reading some_read text) n (passed text c))
text-read killed some_read n [] rest l c no_end no_eof h =
    let e : 0 + n ≡ n = omega arith in rw e refl
text-read killed some_read n (k ∷ text) rest l c no_end no_eof h =
    let (h₁, at, more) = taken-Holds c k (text ++ rest) l h in
    let c₁ = record c { r = next c.r } in
    let same =
      text-read killed true n text rest l c₁ (ground (arith, no_end)) (ground (arith, no_eof)) h₁ in
    let e : suc (length text) + n ≡ suc (length text + n) = omega arith in
    let not_end : (c.buf (c.r % 128) == 10) ≡ false = ground (arith, at, no_end) in
    let not_eof : (c.buf (c.r % 128) == 4) ≡ false = ground (arith, at, no_eof) in
    rw e (
      read_byte killed some_read (length text + n) c more not_eof not_end
      ∙ ap (λ b. read_more b (consoleread killed true (length text + n) c₁)) at
      ∙ ap (read_more k) (
          subst
            (λ b.
              consoleread killed true (length text + n) c₁
              ≡ read_first text (consoleread killed b n (passed text c₁)))
            (reading-true text) same))
  where
    read_byte :
        (killed some_read : Bool) (n : ℕ) (c : Input)
        → (c.r == c.w) ≡ false
        → (c.buf (c.r % 128) == 4) ≡ false
        → (c.buf (c.r % 128) == 10) ≡ false
        → consoleread killed some_read (suc n) c
          ≡ read_more (c.buf (c.r % 128)) (consoleread killed true n (record c { r = next c.r }))
    read_byte killed some_read n c more not_eof not_end =
        rw (consoleread_step killed some_read n c, more, not_eof, not_end) refl
