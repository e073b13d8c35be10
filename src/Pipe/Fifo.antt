-- ===== src/Pipe/Fifo.antt =====
-- The pipe as a queue of bytes: what is read is what was written, in the order in which it was written.
use ssuos_mminos.Base.{
  Bool-cases, length, ℕ, zero, suc, ◌≡◌, refl, sym, ap, ◌∙◌, ◌⊎◌, inl, inr, Bool, true, false, not,
  ◌&&◌, ◌||◌, some, List, [], ◌∷◌, ◌++◌, arith,
}
use mathlib.Core.List.{append_assoc, append-nil, append_cancel_right}
use mathlib.Core.Path.{subst}
use ssuos_mminos.Pipe.{
  Pipe, pipealloc, pipeclose, Write, written, write_fails, write_sleeps, pipewrite, is_full,
  is_empty, write_byte, read_byte, read_loop, read, piperead,
}
use ssuos_mminos.Pipe.Cells.{
  Cells, Holds, write_byte-Holds, read_byte-Holds, empty-Holds, some-Holds,
}

abbrev pub pipe_after : Write → Pipe
pipe_after (written p) = p
pipe_after (write_fails bytes p) = p
pipe_after (write_sleeps bytes p) = p

abbrev pub left : Write → List ℕ
left (written p) = []
left (write_fails bytes p) = bytes
left (write_sleeps bytes p) = bytes

-- The pipe, and the bytes that have been written to it and read from it so far.
pub record System : Type 0 where
  pub pipe : Pipe
  pub sent : List ℕ
  pub got : List ℕ

-- A step of a call. `part` is what `pipewrite` has written of `bytes`.
pub data Step (s : System) : System → Type 0 where
  writes :
      (killed : Bool) (bytes part : List ℕ)
      → part ++ left (pipewrite killed bytes s.pipe) ≡ bytes
      → Step s
          (record s { pipe = pipe_after (pipewrite killed bytes s.pipe); sent = s.sent ++ part })
  reads :
      (killed : Bool) (n : ℕ) (bytes : List ℕ) (p : Pipe)
      → piperead killed n s.pipe ≡ read bytes p
      → Step s (record s { pipe = p; got = s.got ++ bytes })
  closes : (writable : Bool) → Step s (record s { pipe = (pipeclose writable s.pipe).0 })

pub data Reach (s : System) : System → Type 0 where
  here : Reach s s
  later : {t u : System} → Reach s t → Step t u → Reach s u

abbrev pub start : Pipe → System
start p = record { pipe = p; sent = []; got = [] }

pipewrite-Holds :
    (killed : Bool) (bytes : List ℕ) (p : Pipe) (q : List ℕ)
    → Holds p q
    → (part : List ℕ) × (part ++ left (pipewrite killed bytes p) ≡ bytes)
      × Holds (pipe_after (pipewrite killed bytes p)) (q ++ part)
      × ((left (pipewrite killed bytes p) ≡ [])
          ⊎ (is_full (pipe_after (pipewrite killed bytes p)) ≡ true))
unfolding pipewrite
pipewrite-Holds killed [] p q v = ([], refl, subst (Holds p) (sym (append-nil q)) v, inl refl)
pipewrite-Holds killed (c ∷ bytes) p q v = elim (Bool-cases (is_full p)) [
  | inl full ↦
      let same = subst (Holds p) (sym (append-nil q)) v in
      elim (Bool-cases (not p.readopen || killed)) [
        | inl fails ↦ rw full (rw fails ([], refl, same, inr full))
        | inr sleeps ↦ rw full (rw sleeps ([], refl, same, inr full))
      ]
  | inr free ↦
      let (part, e, v', stops) =
        pipewrite-Holds killed bytes (write_byte c p) (q ++ c ∷ [])
          (write_byte-Holds p q c v free) in
      rw free
        (c ∷ part, ap (λ l. c ∷ l) e, subst (Holds _) (append_assoc q (c ∷ []) part) v', stops)
]

read_loop-Holds :
    (n : ℕ) (p : Pipe) (q : List ℕ)
    → Holds p q
    → (rest : List ℕ) × ((read_loop n p).0 ++ rest ≡ q)
      × Holds (read_loop n p).1 rest
      × ((length (read_loop n p).0 ≡ n) ⊎ (rest ≡ []))
unfolding read_loop
read_loop-Holds zero p q v = (q, refl, v, inl refl)
read_loop-Holds (suc n) p q v = elim (Bool-cases (is_empty p)) [
  | inl empty ↦ rw empty (q, refl, v, inr (empty-Holds p q v empty))
  | inr more ↦
      let (c, q', e) = some-Holds p q v more in
      let (at, v') = read_byte-Holds p c q' (subst (Holds p) e v) in
      let (rest, e', v'', stops) = read_loop-Holds n (read_byte p).1 q' v' in
      rw more
        (rest, ap (λ l. (read_byte p).0 ∷ l) e' ∙ ap (λ x. x ∷ q') at ∙ sym e, v'', enough stops)
]
  where
    enough : {m k : ℕ} {l : List ℕ} → (m ≡ k) ⊎ (l ≡ []) → (suc m ≡ suc k) ⊎ (l ≡ [])
    enough (inl e) = inl (ap suc e)
    enough (inr e) = inr e

piperead-Holds :
    (killed : Bool) (n : ℕ) (p : Pipe) (q bytes : List ℕ) (p' : Pipe)
    → Holds p q
    → piperead killed n p ≡ read bytes p'
    → (rest : List ℕ) × (bytes ++ rest ≡ q) × Holds p' rest × ((length bytes ≡ n) ⊎ (rest ≡ []))
unfolding piperead
piperead-Holds killed n p q bytes p' v e = elim (Bool-cases (is_empty p && p.writeopen)) [
  | inl waits ↦ absurd (ground (arith, e, waits))
  | inr goes ↦
      let (rest, is_q, v', stops) = read_loop-Holds n p q v in
      let same_bytes : (read_loop n p).0 ≡ bytes = ground (arith, e, goes) in
      let same_pipe : (read_loop n p).1 ≡ p' = ground (arith, e, goes) in
      (
        rest,
        ap (λ l. l ++ rest) (sym same_bytes) ∙ is_q,
        subst (λ x. Holds x rest) same_pipe v',
        subst (λ l. (length l ≡ n) ⊎ (rest ≡ [])) same_bytes stops,
      )
]

pipeclose-Holds :
    (writable : Bool) (p : Pipe) (q : List ℕ) → Holds p q → Holds (pipeclose writable p).0 q
pipeclose-Holds true p q v = record {
  read_bound = v.read_bound;
  count = v.count;
  room = v.room;
  cells = v.cells;
}
pipeclose-Holds false p q v = record {
  read_bound = v.read_bound;
  count = v.count;
  room = v.room;
  cells = v.cells;
}

step-Holds :
    {s t : System} (q : List ℕ)
    → Holds s.pipe q
    → s.got ++ q ≡ s.sent
    → Step s t
    → (q' : List ℕ) × Holds t.pipe q' × (t.got ++ q' ≡ t.sent)
step-Holds {s} q v e (writes killed bytes part all) =
    let (part', all', v', stops) = pipewrite-Holds killed bytes s.pipe q v in
    let same =
      append_cancel_right part' part (left (pipewrite killed bytes s.pipe)) (all' ∙ sym all) in
    (
      q ++ part,
      subst (λ x. Holds (pipe_after (pipewrite killed bytes s.pipe)) (q ++ x)) same v',
      sym (append_assoc s.got q part) ∙ ap (λ l. l ++ part) e,
    )
step-Holds {s} q v e (reads killed n bytes p r) =
    let (rest, is_q, v', stops) = piperead-Holds killed n s.pipe q bytes p v r in
    (rest, v', append_assoc s.got bytes rest ∙ ap (λ l. s.got ++ l) is_q ∙ e)
step-Holds {s} q v e (closes writable) = (q, pipeclose-Holds writable s.pipe q v, e)

start-Holds : (bytes : ℕ → ℕ) (p : Pipe) → pipealloc true (some bytes) ≡ some p → Holds p []
unfolding Cells
start-Holds bytes p e = record {
  read_bound = ground (arith, e);
  count = ground (arith, e);
  room = omega arith;
  cells = tt;
}

Reach-Holds :
    (bytes : ℕ → ℕ) (p : Pipe) {s : System}
    → pipealloc true (some bytes) ≡ some p
    → Reach (start p) s
    → (q : List ℕ) × Holds s.pipe q × (s.got ++ q ≡ s.sent)
Reach-Holds bytes p e here = ([], start-Holds bytes p e, refl)
Reach-Holds bytes p e (later r st) =
    let (q, v, is_sent) = Reach-Holds bytes p e r in step-Holds q v is_sent st

-- Whatever the order of the calls on a new pipe, and although the counters wrap around: what has been
-- read, with the at most 512 bytes that the ring holds behind it, is what has been written, in its
-- order. A `pipewrite` that stops before its last byte leaves a full ring, and a `piperead` that
-- returns fewer bytes than it was asked for leaves none.
pub Reach-fifo :
    (contents : ℕ → ℕ) (p : Pipe) {s : System}
    → pipealloc true (some contents) ≡ some p
    → Reach (start p) s
    → (q : List ℕ) × Holds s.pipe q
      × (s.got ++ q ≡ s.sent)
      × ((killed : Bool) (bytes : List ℕ)
          → (left (pipewrite killed bytes s.pipe) ≡ [])
            ⊎ (is_full (pipe_after (pipewrite killed bytes s.pipe)) ≡ true))
      × ((killed : Bool) (n : ℕ) (bytes : List ℕ) (p' : Pipe)
          → piperead killed n s.pipe ≡ read bytes p'
          → (length bytes ≡ n) ⊎ (bytes ≡ q))
Reach-fifo contents p {s} e r =
    let (q, v, is_sent) = Reach-Holds contents p e r in
    (
      q,
      v,
      is_sent,
      λ killed bytes. (pipewrite-Holds killed bytes s.pipe q v).3,
      λ killed n bytes p' e'.
          let (rest, is_q, v', stops) = piperead-Holds killed n s.pipe q bytes p' v e' in
          all_read stops is_q,
    )
  where
    all_read :
        {n : ℕ} {bytes rest q : List ℕ}
        → (length bytes ≡ n) ⊎ (rest ≡ [])
        → bytes ++ rest ≡ q
        → (length bytes ≡ n) ⊎ (bytes ≡ q)
    all_read (inl e) is_q = inl e
    all_read {bytes = bytes} (inr e) is_q =
        inr (sym (append-nil bytes) ∙ ap (λ l. bytes ++ l) (sym e) ∙ is_q)
