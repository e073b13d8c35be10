-- ===== src/String/Move.antt =====
-- `memmove` against the copy of all bytes at once, and `memset` against one byte at a time.
use ssuos_mminos.Base.{
  update-ne, ltb, leb, ◌==◌, if◌then◌else◌, Bool-cases, update, ℕ, zero, suc, ◌+◌, ◌-◌, ◌*◌, ◌/◌,
  ◌%◌, ◌≤◌, ◌<◌, ◌≡◌, ap, ◌∙◌, ◌⊎◌, inl, inr, ◌&&◌, arith,
}
use native.Mathlib.Decide.{ℕ_discrete, dec_lt}
use ssuos_mminos.String.{copy_up, copy_down, memmove, stosb, stosl, store_word, memset}

-- Byte `dst + i` of the result is the old byte `src + i`.
abbrev pub moved : (dst src n : ℕ) → (ℕ → ℕ) → ℕ → ℕ
moved dst src n m a = if leb dst a && ltb a (dst + n) then m (src + (a - dst)) else m a

copy_up-moved :
    (n d s : ℕ) (m : ℕ → ℕ) (a : ℕ) → (d ≤ s) ⊎ (s + n ≤ d) → copy_up n d s m a ≡ moved d s n m a
unfolding copy_up
copy_up-moved zero d s m a apart = ground arith
copy_up-moved (suc n) d s m a apart =
    let rest = copy_up-moved n (d + 1) (s + 1) (update m d (m s)) a (ground (arith, apart)) in
    elim (dec_lt d a) [
      | yes behind ↦
          let same : s + 1 + (a - (d + 1)) ≡ s + (a - d) = omega arith in
          let inside : a < d + suc n → update m d (m s) (s + 1 + (a - (d + 1))) ≡ m (s + (a - d)) =
            λ lt.
              update-ne m d (s + 1 + (a - (d + 1))) (m s) (λ e. ground (arith, apart, e, lt))
              ∙ ap m same in
          ground (arith, rest, inside)
      | no up_to ↦
          let first : a ≡ d → m s ≡ m (s + (a - d)) = λ e. ap m (omega (arith, e)) in
          ground (arith, rest, first)
    ]

copy_down-moved :
    (n d s : ℕ) (m : ℕ → ℕ) (a : ℕ) → s ≤ d → copy_down n (d + n) (s + n) m a ≡ moved d s n m a
unfolding copy_down
copy_down-moved zero d s m a le = ground arith
copy_down-moved (suc n) d s m a le =
    let last_to : d + suc n - 1 ≡ d + n = omega arith in
    let last_from : s + suc n - 1 ≡ s + n = omega arith in
    let m' = update m (d + n) (m (s + n)) in
    let rest = copy_down-moved n d s m' a le in
    ap (λ x. copy_down n x (s + suc n - 1) (update m x (m (s + suc n - 1))) a) last_to
    ∙ ap (λ x. copy_down n (d + n) x (update m (d + n) (m x)) a) last_from
    ∙ rest
    ∙ one_more
  where
    one_more : moved d s n (update m (d + n) (m (s + n))) a ≡ moved d s (suc n) m a
    one_more = elim (ℕ_discrete a (d + n)) [
      | yes last ↦
          let same : s + n ≡ s + (a - d) = omega (arith, last) in
          let new : update m (d + n) (m (s + n)) a ≡ m (s + (a - d)) =
            ground (arith, last, ap m same) in
          ground (arith, last, new)
      | no other ↦
          let kept : d ≤ a
              → a < d + n
              → update m (d + n) (m (s + n)) (s + (a - d)) ≡ m (s + (a - d)) =
            λ lo lt.
              update-ne m (d + n) (s + (a - d)) (m (s + n)) (λ e. omega (arith, e, lo, lt, le)) in
          ground (arith, other, kept)
    ]

-- `memmove` gives each byte of the destination the old byte of the source, also when the two overlap,
-- and changes no other byte.
pub memmove-moved :
    (dst src n : ℕ) (m : ℕ → ℕ) (a : ℕ) → memmove dst src n m a ≡ moved dst src n m a
unfolding memmove
memmove-moved dst src n m a = elim (Bool-cases (ltb src dst && ltb dst (src + n))) [
  | inl down ↦ rw down (copy_down-moved n dst src m a (ground (arith, down)))
  | inr up ↦ rw up (copy_up-moved n dst src m a (ground (arith, up)))
]

-- the byte of `c` in `n` places
abbrev pub filled : (dst c n : ℕ) → (ℕ → ℕ) → ℕ → ℕ
filled dst c n m a = if leb dst a && ltb a (dst + n) then c % 256 else m a

stosb-filled : (n dst c : ℕ) (m : ℕ → ℕ) (a : ℕ) → stosb dst c n m a ≡ filled dst c n m a
unfolding stosb
stosb-filled zero dst c m a = ground arith
stosb-filled (suc n) dst c m a =
    ground (arith, stosb-filled n (dst + 1) c (update m dst (c % 256)) a)

store_word-each :
    (dst word b : ℕ) (m : ℕ → ℕ) (a : ℕ)
    → word % 256 ≡ b
    → word / 256 % 256 ≡ b
    → word / 65536 % 256 ≡ b
    → word / 16777216 % 256 ≡ b
    → store_word dst word m a ≡ (if leb dst a && ltb a (dst + 4) then b else m a)
store_word-each dst word b m a byte_0 byte_1 byte_2 byte_3 =
    rw (byte_0, byte_1, byte_2, byte_3) (ground arith)

-- the word of four equal bytes
abbrev word_of : ℕ → ℕ
word_of b = b * 16777216 + b * 65536 + b * 256 + b

store_word-filled :
    (dst c : ℕ) (m : ℕ → ℕ) (a : ℕ) → store_word dst (word_of (c % 256)) m a ≡ filled dst c 4 m a
store_word-filled dst c m a =
    store_word-each dst (word_of (c % 256)) (c % 256) m a (omega arith) (omega arith) (omega arith)
      (omega arith)

stosl-filled :
    (n dst c : ℕ) (m : ℕ → ℕ) (a : ℕ)
    → stosl dst (word_of (c % 256)) n m a ≡ filled dst c (4 * n) m a
unfolding stosl
stosl-filled zero dst c m a = ground arith
stosl-filled (suc n) dst c m a =
    let rest = stosl-filled n (dst + 4) c (store_word dst (word_of (c % 256)) m) a in
    let word = store_word-filled dst c m a in rest ∙ rw word (ground arith)

-- `memset` gives each of the `n` bytes the low byte of `c`, also where it stores whole words, and
-- changes no other byte.
pub memset-filled : (dst c n : ℕ) (m : ℕ → ℕ) (a : ℕ) → memset dst c n m a ≡ filled dst c n m a
unfolding memset
memset-filled dst c n m a = elim (Bool-cases (dst % 4 == 0 && n % 4 == 0)) [
  | inl words ↦
      let all : 4 * (n / 4) ≡ n = ground (arith, words) in
      rw words (stosl-filled (n / 4) dst c m a ∙ ap (λ k. filled dst c k m a) all)
  | inr bytes ↦ rw bytes (stosb-filled n dst c m a)
]
