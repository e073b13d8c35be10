-- ===== src/Console/Edit.antt =====
-- What a character from the keyboard does to the line.
use native.Mathlib.Decide.{dec_lt}
use ssuos_mminos.Base.{
  update_self, update-ne, ◌==◌, update, length, get_or, length-append, has, ℕ, zero, suc, ◌+◌, ◌%◌,
  ◌≤◌, ◌<◌, ◌≡◌, refl, sym, ap, ◌∙◌, ◌≢◌, ◌↔◌, true, false, List, [], ◌∷◌, ◌++◌, arith,
  append_assoc, append-nil,
}
use ssuos_mminos.Console.{Input, next, before, rub_out, kill_line}
use ssuos_mminos.Console.Cells.{
  Holds, init, length-init, get_or-append_left, get_or-append_right, get_or-append-init,
}

module _ (c : Input) (q l : List ℕ) (h : Holds c q l) where
  pub rub_out-Holds : 0 < length l → Holds (rub_out c) q (init l)
  rub_out-Holds some_left = record {
    r_fits = h.r_fits;
    w_at = h.w_at;
    e_at = omega (arith, h.e_at, h.room, length-init l, some_left);
    room = omega (arith, h.room, length-init l);
    cells =
        λ i lt. h.cells i (omega (arith, lt, length-init l)) ∙ sym (get_or-append-init q l i lt);
  }

  pub at_end : (c.e ≡ c.w) ↔ (length l ≡ 0)
  at_end =
      (λ e. omega (arith, e, h.w_at, h.e_at, h.room), λ e. omega (arith, e, h.w_at, h.e_at, h.room))

  stored_cell :
      (k : ℕ)
      → length q + length l < 128
      → (i : ℕ) → i ≤ length q + length l
      → update c.buf (c.e % 128) k ((c.r + i) % 128) ≡ get_or (q ++ (l ++ k ∷ [])) i 0
  stored_cell k more i le =
      let at : c.e % 128 ≡ (c.r + (length q + length l)) % 128 = omega (arith, h.e_at) in
      let long : length (q ++ l) ≡ length q + length l = length-append {0} q l in
      let split = append_assoc q l (k ∷ []) in
      elim (dec_lt i (length q + length l)) [
        | yes old ↦
            update-ne c.buf (c.e % 128) ((c.r + i) % 128) k (omega (arith, at, old, more))
            ∙ h.cells i old
            ∙ sym (get_or-append_left (q ++ l) (k ∷ []) i (omega (arith, old, long)))
            ∙ ap (λ xs. get_or xs i 0) split
        | no new ↦
            let same : c.e % 128 ≡ (c.r + i) % 128 = omega (arith, at, new, le) in
            let last : length (q ++ l) + 0 ≡ i = omega (arith, new, le, long) in
            rw same (update_self c.buf ((c.r + i) % 128) k)
            ∙ sym (get_or-append_right (q ++ l) (k ∷ []) 0)
            ∙ ap (λ j. get_or ((q ++ l) ++ k ∷ []) j 0) last
            ∙ ap (λ xs. get_or xs i 0) split
      ]

  pub stored-Holds :
      (k : ℕ)
      → length q + length l < 128
      → Holds (record c { buf = update c.buf (c.e % 128) k; e = next c.e }) q (l ++ k ∷ [])
  stored-Holds k more =
      let long : length (l ++ k ∷ []) ≡ length l + 1 = length-append {0} l (k ∷ []) in
      let at : c.e % 128 ≡ (c.r + (length q + length l)) % 128 = omega (arith, h.e_at) in
      record {
        r_fits = h.r_fits;
        w_at = h.w_at;
        e_at = omega (arith, h.e_at, long);
        room = omega (arith, long, more);
        cells = λ i lt. stored_cell k more i (omega (arith, lt, long));
      }

  pub handed_over-Holds : Holds (record c { w = c.e }) (q ++ l) []
  handed_over-Holds =
      let long = length-append {0} q l in
      record {
        r_fits = h.r_fits;
        w_at = omega (arith, h.e_at, long);
        e_at = omega (arith, h.e_at, long);
        room = omega (arith, h.room, long);
        cells = λ i lt.
            h.cells i (omega (arith, lt, long))
            ∙ ap (λ xs. get_or xs i 0) (sym (append-nil (q ++ l)));
      }

pub has-init : (x : ℕ) (l : List ℕ) → has x l ≡ false → has x (init l) ≡ false
has-init x [] off = refl
has-init x (y ∷ []) off = refl
has-init x (y ∷ z ∷ l) off = ground (arith, off, has-init x (z ∷ l))

get_or-other : (x : ℕ) (l : List ℕ) (i : ℕ) → i < length l → has x l ≡ false → get_or l i 0 ≢ x
get_or-other x [] i lt off = absurd (omega (arith, lt))
get_or-other x (y ∷ l) zero lt off = ground (arith, off)
get_or-other x (y ∷ l) (suc i) lt off = get_or-other x l i (omega (arith, lt)) (ground (arith, off))

-- No line that is being edited has the end of a line in it, so that control-U removes all of it.
pub kill_line-Holds :
    (n : ℕ) (c : Input) (q l : List ℕ)
    → Holds c q l
    → has 10 l ≡ false
    → length l ≤ n
    → Holds (kill_line n c) q []
unfolding kill_line
kill_line-Holds zero c q [] h off le = h
kill_line-Holds zero c q (x ∷ l) h off le = absurd (omega (arith, le))
kill_line-Holds (suc n) c q [] h off le =
    let ends : (c.e == c.w) ≡ true = ground (arith, (at_end c q [] h).1) in rw ends h
kill_line-Holds (suc n) c q (x ∷ l) h off le =
    let i : ℕ = length q + length l in
    let goes : (c.e == c.w) ≡ false = ground (arith, (at_end c q (x ∷ l) h).0) in
    let at : before c.e % 128 ≡ (c.r + i) % 128 = omega (arith, h.e_at) in
    let cell : c.buf (before c.e % 128) ≡ get_or (x ∷ l) (length l) 0 =
      ap c.buf at ∙ h.cells i (omega arith) ∙ get_or-append_right q (x ∷ l) (length l) in
    let inside : (c.buf (before c.e % 128) == 10) ≡ false =
      ground (arith, cell, get_or-other 10 (x ∷ l) (length l) (omega arith) off) in
    rw (goes, inside)
      (kill_line-Holds n (rub_out c) q (init (x ∷ l)) (rub_out-Holds c q (x ∷ l) h (omega arith))
        (has-init 10 (x ∷ l) off) (omega (arith, le, length-init (x ∷ l))))
