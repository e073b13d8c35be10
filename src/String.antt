-- ===== src/String.antt =====
-- 설계 3번/xv6/string.c: the functions on bytes of the kernel. Memory is a function from addresses to
-- bytes, and no object reaches the end of the addresses. A count that is not positive is 0 here.
pub mod Move
pub mod Copy
pub mod Compare
pub mod Pad
mod Tests
use ssuos_mminos.Base.{
  ℤ, pos, ltb, ◌==◌, if◌then◌else◌, update, ℕ, zero, suc, ◌+◌, ◌-◌, ◌*◌, ◌/◌, ◌%◌, not, ◌&&◌,
  Option, none, some, minus,
}
use mathlib.Core.Option

-- `while (n-- > 0) *d++ = *s++;`
unfoldable pub copy_up : (n d s : ℕ) → (ℕ → ℕ) → ℕ → ℕ
copy_up zero d s m = m
copy_up (suc n) d s m = copy_up n (d + 1) (s + 1) (update m d (m s))

-- `while (n-- > 0) *--d = *--s;`
unfoldable pub copy_down : (n d s : ℕ) → (ℕ → ℕ) → ℕ → ℕ
copy_down zero d s m = m
copy_down (suc n) d s m = copy_down n (d - 1) (s - 1) (update m (d - 1) (m (s - 1)))

unfoldable pub memmove : (dst src n : ℕ) → (ℕ → ℕ) → ℕ → ℕ
memmove dst src n m =
    if ltb src dst && ltb dst (src + n)
    then copy_down n (dst + n) (src + n) m
    else copy_up n dst src m

-- `memcpy`
abbrev pub memcpy : (dst src n : ℕ) → (ℕ → ℕ) → ℕ → ℕ
memcpy dst src n m = memmove dst src n m

-- `stosb`: `n` times the byte of `c`, and `stosl`: `n` words, the low byte first
unfoldable pub stosb : (dst c n : ℕ) → (ℕ → ℕ) → ℕ → ℕ
stosb dst c zero m = m
stosb dst c (suc n) m = stosb (dst + 1) c n (update m dst (c % 256))

abbrev pub store_word : (dst word : ℕ) → (ℕ → ℕ) → ℕ → ℕ
store_word dst word m =
    update
      (update (update (update m dst (word % 256)) (dst + 1) (word / 256 % 256)) (dst + 2)
        (word / 65536 % 256))
      (dst + 3) (word / 16777216 % 256)

unfoldable pub stosl : (dst word n : ℕ) → (ℕ → ℕ) → ℕ → ℕ
stosl dst word zero m = m
stosl dst word (suc n) m = stosl (dst + 4) word n (store_word dst word m)

-- `memset`; the four bytes that are put together do not overlap, so that `|` is `+`.
unfoldable pub memset : (dst c n : ℕ) → (ℕ → ℕ) → ℕ → ℕ
memset dst c n m =
    if dst % 4 == 0 && n % 4 == 0
    then (let b = c % 256 in stosl dst (b * 16777216 + b * 65536 + b * 256 + b) (n / 4) m)
    else stosb dst c n m

-- `strlen`, with so many rounds at most
unfoldable pub strlen : (rounds s : ℕ) → (ℕ → ℕ) → Option ℕ
strlen zero s m = none
strlen (suc rounds) s m =
    let rest = strlen rounds (s + 1) m in if m s == 0 then some 0 else Option.map (λ n. n + 1) rest

-- The loops of `safestrcpy`, from `--n > 0` on, and of `strncpy`.
unfoldable pub safe_loop : (n s t : ℕ) → (ℕ → ℕ) → ℕ → ℕ
safe_loop zero s t m = update m s 0
safe_loop (suc n) s t m =
    let m' = update m s (m t) in
    let rest = safe_loop n (s + 1) (t + 1) m' in if m t == 0 then update m' (s + 1) 0 else rest

unfoldable pub safestrcpy : (s t n : ℕ) → (ℕ → ℕ) → ℕ → ℕ
unfolding safe_loop
safestrcpy s t zero m = m
safestrcpy s t (suc n) m = safe_loop n s t m

unfoldable pub fill_zero : (n s : ℕ) → (ℕ → ℕ) → ℕ → ℕ
fill_zero zero s m = m
fill_zero (suc n) s m = fill_zero n (s + 1) (update m s 0)

unfoldable pub strncpy : (s t n : ℕ) → (ℕ → ℕ) → ℕ → ℕ
unfolding fill_zero
strncpy s t zero m = m
strncpy s t (suc n) m =
    let m' = update m s (m t) in
    let rest = strncpy (s + 1) (t + 1) n m' in if m t == 0 then fill_zero n (s + 1) m' else rest

-- `memcmp`; the bytes are unsigned.
unfoldable pub memcmp : (v1 v2 n : ℕ) → (ℕ → ℕ) → ℤ
memcmp v1 v2 zero m = pos 0
memcmp v1 v2 (suc n) m =
    let rest = memcmp (v1 + 1) (v2 + 1) n m in if m v1 == m v2 then rest else minus (m v1) (m v2)

unfoldable pub strncmp : (p q n : ℕ) → (ℕ → ℕ) → ℤ
strncmp p q zero m = pos 0
strncmp p q (suc n) m =
    let rest = strncmp (p + 1) (q + 1) n m in
    if not (m p == 0) && (m p == m q) then rest else minus (m p) (m q)
