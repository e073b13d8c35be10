-- ===== src/Syscall/Pointers.antt =====
-- The pointers that a system call accepts.
use ssuos_mminos.Base.{
  pos, ◌==◌, Bool-cases, Option-cases, ℕ, zero, suc, ◌+◌, ◌-◌, ◌≤◌, ◌<◌, ◌≡◌, ◌∙◌, ◌≢◌, ◌↔◌, inl,
  inr, false, some, arith,
}
use ssuos_mminos.Syscall.{scan, fetchstr, argint, argptr, argstr}

-- When `argptr` accepts a pointer to a block of `size` bytes in a process of at most 2 GB, the block lies
-- in the memory of the process.
pub argptr-inside :
    (sz esp n size i : ℕ) (m : ℕ → ℕ)
    → sz ≤ 2147483648
    → size < 2147483648
    → argptr sz esp n (pos size) m ≡ some i
    → (i < sz) × (i + size ≤ sz)
unfolding argptr
argptr-inside sz esp n size i m small int e = elim (Option-cases (argint sz esp n m)) [
  | inl fails ↦ absurd (ground (arith, e, fails))
  | inr (j, is) ↦ ground (arith, e, is, small, int)
]

scan-string :
    (rounds n s len : ℕ) (m : ℕ → ℕ)
    → scan rounds n s m ≡ some len
    → (n ≤ len)
      × (len < n + rounds)
      × (m (s + (len - n)) ≡ 0)
      × ((j : ℕ) → j < len - n → m (s + j) ≢ 0)
unfolding scan
scan-string zero n s len m e = absurd (ground (arith, e))
scan-string (suc rounds) n s len m e = elim (Bool-cases (m s == 0)) [
  | inl ends ↦
      let is : n ≡ len = ground (arith, e, ends) in
      rw (← is) (
        omega arith,
        omega arith,
        rw (minus_self n) (ground (arith, ends)),
        λ j lt. absurd (omega (arith, lt)),
      )
  | inr goes ↦
      let rest : scan rounds (n + 1) (s + 1) m ≡ some len = ground (arith, e, goes) in
      let (lo, hi, zero_at, others) = scan-string rounds (n + 1) (s + 1) len m rest in
      let at : s + 1 + (len - (n + 1)) ≡ s + (len - n) = omega (arith, lo) in
      (omega (arith, lo), omega (arith, hi), rw at at zero_at, before n s len m rounds goes others)
]
  where
    minus_self : (n : ℕ) → n - n ≡ 0
    minus_self n = omega arith

    before :
        (n s len : ℕ) (m : ℕ → ℕ) (rounds : ℕ)
        → (m s == 0) ≡ false
        → ((j : ℕ) → j < len - (n + 1) → m (s + 1 + j) ≢ 0)
        → (j : ℕ) → j < len - n
        → m (s + j) ≢ 0
    before n s len m rounds goes others zero lt = ground (arith, goes)
    before n s len m rounds goes others (suc j) lt =
        let next : s + 1 + j ≡ s + suc j = omega arith in rw (← next) (others j (omega (arith, lt)))

scan-finds :
    (rounds n s len : ℕ) (m : ℕ → ℕ)
    → len < rounds
    → m (s + len) ≡ 0
    → ((j : ℕ) → j < len → m (s + j) ≢ 0)
    → scan rounds n s m ≡ some (n + len)
unfolding scan
scan-finds zero n s len m lt ends others = absurd (omega (arith, lt))
scan-finds (suc rounds) n s zero m lt ends others = ground (arith, ends)
scan-finds (suc rounds) n s (suc len) m lt ends others =
    let goes : m s ≢ 0 = ground (arith, others 0) in
    let at : s + suc len ≡ s + 1 + len = omega arith in
    let rest =
      scan-finds rounds (n + 1) (s + 1) len m (omega (arith, lt)) (rw (← at) ends) (λ j less.
        let next : s + 1 + j ≡ s + suc j = omega arith in
        rw next (others (suc j) (omega (arith, less)))) in
    ground (arith, goes, rest)

fetchstr_lem :
    (sz p len : ℕ) (m : ℕ → ℕ)
    → (fetchstr sz p m ≡ some len)
      ↔ ((p + len < sz) × (m (p + len) ≡ 0) × ((j : ℕ) → j < len → m (p + j) ≢ 0))
unfolding fetchstr
fetchstr_lem sz p len m = (
  λ e.
      let inside : p < sz = ground (arith, e) in
      let found : scan (sz - p) 0 p m ≡ some len = ground (arith, e) in
      let (lo, hi, ends, others) = scan-string (sz - p) 0 p len m found in
      let whole : len - 0 ≡ len = omega arith in
      (omega (arith, hi, inside), rw whole at ends, λ j lt. others j (omega (arith, lt))),
  λ (lt, ends, others).
      let found = scan-finds (sz - p) 0 p len m (omega (arith, lt)) ends others in
      ground (arith, lt, found),
)

-- `argstr` gives the pointer `p` and the length `len` exactly when the argument is `p`, the first NUL
-- from there on is behind `len` bytes, and it lies in the memory of the process.
pub argstr_lem :
    (sz esp n p len : ℕ) (m : ℕ → ℕ)
    → (argstr sz esp n m ≡ some (p, len)) ↔ (
        (argint sz esp n m ≡ some p)
        × (p + len < sz)
        × (m (p + len) ≡ 0)
        × ((j : ℕ) → j < len → m (p + j) ≢ 0))
unfolding argstr
argstr_lem sz esp n p len m = (
  λ e. elim (Option-cases (argint sz esp n m)) [
    | inl fails ↦ absurd (ground (arith, e, fails))
    | inr (q, is) ↦ elim (Option-cases (fetchstr sz q m)) [
      | inl fails ↦ absurd (ground (arith, e, is, fails))
      | inr (k, found) ↦
          let same : q ≡ p = ground (arith, e, is, found) in
          let long : k ≡ len = ground (arith, e, is, found) in
          let at : fetchstr sz p m ≡ some len = rw (← same, ← long) found in
          let (lt, ends, others) = (fetchstr_lem sz p len m).0 at in
          let arg : argint sz esp n m ≡ some p = is ∙ cc in (arg, lt, ends, others)
    ]
  ],
  λ (is, lt, ends, others).
      let found : fetchstr sz p m ≡ some len = (fetchstr_lem sz p len m).1 (lt, ends, others) in
      ground (arith, is, found),
)
