-- ===== src/Console/Typing.antt =====
-- What the characters from the keyboard make of the line.
use ssuos_mminos.Base.{
  ltb, leb, ◌==◌, if◌then◌else◌, Bool-cases, update, length, has, ℕ, ◌+◌, ◌-◌, ◌%◌, ◌<◌, ◌≡◌, refl,
  inl, inr, true, false, ◌||◌, List, [], ◌∷◌, ◌++◌, arith, has-append,
}
use ssuos_mminos.Console.{Input, next, store, as_newline, backspace, type_char, consoleintr}
use ssuos_mminos.Console.Cells.{Holds, init}
use ssuos_mminos.Console.Edit.{
  rub_out-Holds, at_end, stored-Holds, handed_over-Holds, has-init, kill_line-Holds,
}

-- What has been handed over and the line, after one more character.
unfoldable pub typed : ℕ → List ℕ × List ℕ → List ℕ × List ℕ
typed k (q, l) =
    let k' = as_newline k in
    if k == 16
    then (q, l)
    else if k == 21
    then (q, [])
    else if k == 8 || (k == 127)
    then (q, init l)
    else if k == 0 || leb 128 (length q + length l)
    then (q, l)
    else if k' == 10 || (k' == 4) || (length q + length l == 127)
    then (q ++ (l ++ k' ∷ []), [])
    else (q, l ++ k' ∷ [])

-- The console holds the two lists, and no end of a line is in the line.
abbrev pub Held : Input → List ℕ × List ℕ → Type 0
Held c (q, l) = Holds c q l × (has 10 l ≡ false)

module _ (c : Input) (q l : List ℕ) (h : Holds c q l) (off : has 10 l ≡ false) where
  backspace-Held : Held (backspace c) (q, init l)
  unfolding backspace
  backspace-Held = elim (Bool-cases (length l == 0)) [
    | inl empty ↦
        let ends : (c.e == c.w) ≡ true = ground (arith, empty, (at_end c q l h).1) in
        let same : init l ≡ l = init-nil l (ground (arith, empty)) in rw (ends, same) (h, off)
    | inr some_left ↦
        let goes : (c.e == c.w) ≡ false = ground (arith, some_left, (at_end c q l h).0) in
        rw goes (rub_out-Holds c q l h (ground (arith, some_left)), has-init 10 l off)
  ]
    where
      init-nil : (l : List ℕ) → length l ≡ 0 → init l ≡ l
      init-nil [] e = refl
      init-nil (x ∷ l) e = absurd (omega (arith, e))

  -- The line is handed over at its end, at control-D, and when the ring is full.
  store-Held :
      (k : ℕ)
      → length q + length l < 128
      → Held (store k c) (
          if k == 10 || (k == 4) || (length q + length l == 127)
          then (q ++ (l ++ k ∷ []), [])
          else (q, l ++ k ∷ []))
  unfolding store
  store-Held k more =
      let c' = record c { buf = update c.buf (c.e % 128) k; e = next c.e } in
      let h' = stored-Holds c q l h k more in
      let full : (c'.e == (c.r + 128) % 4294967296) ≡ (length q + length l == 127) =
        ground (arith, h.e_at, h.r_fits, more) in
      rw full (elim (Bool-cases (k == 10 || (k == 4) || (length q + length l == 127))) [
        | inl ends ↦ rw ends (handed_over-Holds c' q (l ++ k ∷ []) h', refl)
        | inr goes ↦ rw goes (h', ground (arith, off, goes, has-append 10 l (k ∷ [])))
      ])

  type_char-Held :
      (k : ℕ)
      → Held (type_char k c) (
          if k == 0 || leb 128 (length q + length l)
          then (q, l)
          else if as_newline k == 10 || (as_newline k == 4) || (length q + length l == 127)
          then (q ++ (l ++ as_newline k ∷ []), [])
          else (q, l ++ as_newline k ∷ []))
  unfolding type_char
  type_char-Held k =
      let count : (c.e + 4294967296 - c.r) % 4294967296 ≡ length q + length l =
        omega (arith, h.e_at, h.r_fits, h.room) in
      rw count (elim (Bool-cases (k == 0)) [
        | inl zero_char ↦ rw zero_char (h, off)
        | inr char ↦ elim (Bool-cases (leb 128 (length q + length l))) [
          | inl full ↦
              let no_room : ltb (length q + length l) 128 ≡ false = ground (arith, full) in
              rw (char, full, no_room) (h, off)
          | inr more ↦
              let room : ltb (length q + length l) 128 ≡ true = ground (arith, more) in
              rw (char, more, room) (store-Held (as_newline k) (ground (arith, more)))
        ]
      ])

-- Each character from the keyboard does to the ring what `typed` does to the lists: control-U drops the
-- line, a backspace its last character, and any other but NUL and control-P goes to its end while there
-- are fewer than 128 characters, `\r` as `\n`; the line is handed over when that was `\n`, control-D or the
-- 128th character.
pub consoleintr-typed :
    (k : ℕ) (c : Input) (q l : List ℕ) → Held c (q, l) → Held (consoleintr k c) (typed k (q, l))
unfolding consoleintr typed
consoleintr-typed k c q l (h, off) = elim (Bool-cases (k == 16)) [
  | inl listing ↦ rw listing (h, off)
  | inr no_listing ↦ elim (Bool-cases (k == 21)) [
    | inl kill ↦
        rw (no_listing, kill) (kill_line-Holds 128 c q l h off (omega (arith, h.room)), refl)
    | inr no_kill ↦ elim (Bool-cases (k == 8 || (k == 127))) [
      | inl back ↦ rw (no_listing, no_kill, back) (backspace-Held c q l h off)
      | inr char ↦ rw (no_listing, no_kill, char) (type_char-Held c q l h off k)
    ]
  ]
]
