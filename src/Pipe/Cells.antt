-- ===== src/Pipe/Cells.antt =====
-- The bytes that stand in the ring from `nread` on, as a list.
use ssuos_mminos.Base.{
  update-ne, update, length, length-append, ℕ, ◌+◌, ◌%◌, ◌≤◌, ◌<◌, ◌≡◌, refl, ◌∙◌, true, false,
  List, [], ◌∷◌, ◌++◌, arith,
}
use ssuos_mminos.Pipe.{Pipe, next, is_full, is_empty, write_byte, read_byte}

unfoldable pub Cells : (ℕ → ℕ) → ℕ → List ℕ → Type 0
Cells d r [] = Unit {0}
Cells d r (c ∷ q) = (d (r % 512) ≡ c) × Cells d (next r) q

-- The pipe holds the queue `q`.
pub record Holds (p : Pipe) (q : List ℕ) : Type 0 where
  pub read_bound : p.nread < 4294967296
  pub count : p.nwrite ≡ (p.nread + length q) % 4294967296
  pub room : length q ≤ 512
  pub cells : Cells p.data_of p.nread q

Cells-append :
    (d : ℕ → ℕ) (r w c : ℕ) (q : List ℕ)
    → r < 4294967296
    → length q < 512
    → w ≡ (r + length q) % 4294967296
    → Cells d r q
    → Cells (update d (w % 512) c) r (q ++ c ∷ [])
unfolding Cells
Cells-append d r w c [] bound lt e v = (ground (arith, bound, e), tt)
Cells-append d r w c (x ∷ q) bound lt e (at, rest) = (
  update-ne d (w % 512) (r % 512) c (λ same. omega (arith, same, bound, lt, e)) ∙ at,
  Cells-append d (next r) w c q (omega arith) (omega arith) (omega (arith, e)) rest,
)

pub write_byte-Holds :
    (p : Pipe) (q : List ℕ) (c : ℕ)
    → Holds p q
    → is_full p ≡ false
    → Holds (write_byte c p) (q ++ c ∷ [])
write_byte-Holds p q c v free =
    let not_full : length q < 512 = ground (arith, v.count, v.read_bound, v.room, free) in
    record {
      read_bound = v.read_bound;
      count = omega (arith, v.count, length-append q (c ∷ []));
      room = omega (arith, not_full, length-append q (c ∷ []));
      cells = Cells-append p.data_of p.nread p.nwrite c q v.read_bound not_full v.count v.cells;
    }

pub read_byte-Holds :
    (p : Pipe) (c : ℕ) (q : List ℕ)
    → Holds p (c ∷ q)
    → ((read_byte p).0 ≡ c) × Holds (read_byte p).1 q
unfolding Cells
read_byte-Holds p c q v =
    let (at, rest) = v.cells in
    (
      at,
      record {
        read_bound = omega arith;
        count = omega (arith, v.count);
        room = omega (arith, v.room);
        cells = rest;
      },
    )

pub empty-Holds : (p : Pipe) (q : List ℕ) → Holds p q → is_empty p ≡ true → q ≡ []
empty-Holds p [] v e = refl
empty-Holds p (c ∷ q) v e = absurd (ground (arith, v.count, v.read_bound, v.room, e))

pub some-Holds :
    (p : Pipe) (q : List ℕ)
    → Holds p q
    → is_empty p ≡ false
    → (c : ℕ) × (q' : List ℕ) × (q ≡ c ∷ q')
some-Holds p [] v e = absurd (ground (arith, v.count, v.read_bound, e))
some-Holds p (c ∷ q) v e = (c, q, refl)

pub full-Holds : (p : Pipe) (q : List ℕ) → Holds p q → is_full p ≡ true → length q ≡ 512
full-Holds p q v e = ground (arith, v.count, v.read_bound, v.room, e)
