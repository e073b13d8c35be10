-- ===== src/Ps/Shown.antt =====
-- Which processes are printed.
use ssuos_mminos.Base.{
  not-some, ◌==◌, Bool-cases, ℕ, ◌≡◌, refl, sym, ap, ◌∙◌, ◌⊎◌, inl, inr, Bool, true, false, Option,
  none, some, List, [], ◌∷◌, arith,
}
use ssuos_mminos.Ps.{
  Flags, Process, Row, row, get_tty, is_no_tty, same_string, find_bash, select, default_shows,
  without_x_shows, without_a_shows, print_ps,
}

-- The list has the element.
abbrev pub Listed : {A : Type 0} → A → List A → Type 0
Listed x [] = ⊥
Listed x (y ∷ ys) = (x ≡ y) ⊎ Listed x ys

some-inj : {p q : Process} → some p ≡ some q → p ≡ q
some-inj {p} {q} e = ap (λ o. elim o [ none ↦ p | some r ↦ r ]) e

same_string_self : (xs : List ℕ) → same_string xs xs ≡ true
unfolding same_string
same_string_self [] = refl
same_string_self (x ∷ xs) = ground (arith, same_string_self xs)

find_bash-Listed :
    (ps : List Process) (k : ℕ) (acc : Option Process) (b : Process)
    → find_bash ps k acc ≡ some b
    → Listed b ps ⊎ (acc ≡ some b)
unfolding find_bash
find_bash-Listed [] k acc b e = inr e
find_bash-Listed (p ∷ ps) k acc b e = elim (Bool-cases (p.pid == k)) [
  | inl here ↦ elim (find_bash-Listed ps k (some p) b (sym (rw here refl) ∙ e)) [
    | inl later ↦ inl (inr later)
    | inr first ↦ inl (inl (sym (some-inj first)))
  ]
  | inr there ↦ elim (find_bash-Listed ps k acc b (sym (rw there refl) ∙ e)) [
    | inl later ↦ inl (inr later)
    | inr first ↦ inr first
  ]
]

select-Listed :
    (test : Process → Bool) (line : Process → Row) (ps : List Process) (p : Process)
    → test p ≡ true
    → Listed p ps
    → Listed (line p) (select test line ps)
unfolding select
select-Listed test line [] p on m = absurd m
select-Listed test line (q ∷ ps) p on (inl e) =
    let on' : test q ≡ true = ap test (sym e) ∙ on in rw on' (inl (ap line e))
select-Listed test line (q ∷ ps) p on (inr m) = elim (Bool-cases (test q)) [
  | inl yes_test ↦ rw yes_test (inr (select-Listed test line ps p on m))
  | inr no_test ↦ rw no_test (select-Listed test line ps p on m)
]

in_list : (ps : List Process) (k : ℕ) (b : Process) → find_bash ps k none ≡ some b → Listed b ps
in_list ps k b e = elim (find_bash-Listed ps k none b e) [
  | inl m ↦ m
  | inr f ↦ absurd (not-some (sym f))
]

-- What `print_ps` gives for some flags.
abbrev Prints : (major minor : ℕ → ℕ) → Flags → ℕ → List Process → Process → Type 0
Prints major minor f k ps b =
    (rows : List Row) × (print_ps major minor f k ps ≡ some rows)
    × Listed (row major minor f b) rows

each_mode :
    (major minor : ℕ → ℕ) (a u x : Bool) (k : ℕ) (ps : List Process) (b : Process)
    → find_bash ps k none ≡ some b
    → is_no_tty (get_tty major minor b.tty_nr) ≡ false
    → Prints major minor (record { a_flag = a; u_flag = u; x_flag = x }) k ps b
unfolding print_ps default_shows without_x_shows without_a_shows
each_mode major minor false false false k ps b e t = rw e (
  _,
  refl,
  select-Listed (default_shows b) _ ps b (ground (arith, same_string_self b.name))
      (in_list ps k b e),
)
each_mode major minor true u false k ps b e t = rw e (
  _,
  refl,
  select-Listed (without_x_shows major minor b) _ ps b (ground (arith, same_string_self b.name, t))
      (in_list ps k b e),
)
each_mode major minor false true false k ps b e t = rw e (
  _,
  refl,
  select-Listed (without_x_shows major minor b) _ ps b (ground (arith, same_string_self b.name, t))
      (in_list ps k b e),
)
each_mode major minor false false true k ps b e t =
    rw e (
      _,
      refl,
      select-Listed (without_a_shows b) _ ps b (same_string_self b.name) (in_list ps k b e),
    )
each_mode major minor false true true k ps b e t =
    rw e (
      _,
      refl,
      select-Listed (without_a_shows b) _ ps b (same_string_self b.name) (in_list ps k b e),
    )
each_mode major minor true u true k ps b e t =
    (_, refl, select-Listed (λ p. true) _ ps b refl (in_list ps k b e))

-- With any options, when the shell is among the processes and has a terminal, `print_ps` prints a
-- line for it.
pub print_ps-Listed :
    (major minor : ℕ → ℕ) (f : Flags) (k : ℕ) (ps : List Process) (b : Process)
    → find_bash ps k none ≡ some b
    → is_no_tty (get_tty major minor b.tty_nr) ≡ false
    → (rows : List Row) × (print_ps major minor f k ps ≡ some rows)
      × Listed (row major minor f b) rows
print_ps-Listed major minor f k ps b e has_tty =
    each_mode major minor f.a_flag f.u_flag f.x_flag k ps b e has_tty
