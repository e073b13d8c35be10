-- ===== src/Ps/Options.antt =====
-- `check_option` and the sizes of what `get_state` writes.
use ssuos_mminos.Base.{
  ℤ, pos, negsuc, ltb, ◌==◌, if◌then◌else◌, length, length-append, ℕ, ◌+◌, ◌≤◌, ◌≡◌, refl, Bool,
  true, false, ◌&&◌, ◌||◌, List, [], ◌∷◌, ◌++◌, arith,
}
use ssuos_mminos.Ps.{Flags, no_flags, set_flag, check_option, Process, nice_mark, get_state, is_pos}

-- The letter occurs in the string.
pub occurs : ℕ → List ℕ → Bool
occurs c [] = false
occurs c (x ∷ xs) = let rest = occurs c xs in x == c || rest

-- Every letter is an option.
pub valid : List ℕ → Bool
valid [] = true
valid (x ∷ xs) = let rest = valid xs in (x == 97 || x == 117 || x == 120) && rest

check_option-flags :
    (cs : List ℕ) (f : Flags)
    → ((check_option cs f).0 ≡ valid cs)
      × (valid cs ≡ true
          → ((check_option cs f).1.a_flag ≡ (f.a_flag || occurs 97 cs))
            × ((check_option cs f).1.u_flag ≡ (f.u_flag || occurs 117 cs))
            × ((check_option cs f).1.x_flag ≡ (f.x_flag || occurs 120 cs)))
unfolding check_option set_flag valid occurs
check_option-flags [] f = (refl, λ e. ground arith)
check_option-flags (c ∷ cs) f = (
  ground (
    arith,
    check_option-flags cs (record f { a_flag = true }),
    check_option-flags cs (record f { u_flag = true }),
    check_option-flags cs (record f { x_flag = true }),
  ),
  λ e. ground (
    arith,
    check_option-flags cs (record f { a_flag = true }),
    check_option-flags cs (record f { u_flag = true }),
    check_option-flags cs (record f { x_flag = true }),
  ),
)

-- `check_option` accepts exactly the strings of the letters a, u and x, and a flag is set then exactly
-- when its letter occurs.
pub check_option_lem :
    (cs : List ℕ)
    → ((check_option cs no_flags).0 ≡ valid cs)
      × (valid cs ≡ true
          → ((check_option cs no_flags).1.a_flag ≡ occurs 97 cs)
            × ((check_option cs no_flags).1.u_flag ≡ occurs 117 cs)
            × ((check_option cs no_flags).1.x_flag ≡ occurs 120 cs))
check_option_lem cs = check_option-flags cs no_flags

one-length : (b : Bool) (c : ℕ) → length (if b then c ∷ [] else []) ≤ 1
one-length true c = omega arith
one-length false c = omega arith

nice_mark-length : (z : ℤ) → length (nice_mark z) ≤ 1
unfolding nice_mark
nice_mark-length (pos n) = one-length (ltb 4 n) 78
nice_mark-length (negsuc n) = one-length (ltb 3 n) 60

-- The characters of `get_state` and a NUL fit the 6 bytes of its buffer.
pub length-get_state : (p : Process) → length (get_state p) + 1 ≤ 6
unfolding get_state
length-get_state p =
    let xs = nice_mark p.nice in
    let ys : List ℕ = if p.pid == p.sid then 115 ∷ [] else [] in
    let zs : List ℕ = if ltb 1 p.num_threads then 108 ∷ [] else [] in
    let ws : List ℕ = if is_pos p.tpgid p.pgrp then 43 ∷ [] else [] in
    omega (
      arith,
      length-append (xs ++ ys ++ zs) ws,
      length-append (xs ++ ys) zs,
      length-append xs ys,
      nice_mark-length p.nice,
      one-length (p.pid == p.sid) 115,
      one-length (ltb 1 p.num_threads) 108,
      one-length (is_pos p.tpgid p.pgrp) 43,
    )
