-- ===== src/Ssufs/Extend.antt =====
-- The first loop of `ssufs_write`: the blocks that it adds are new, and owned by one file.
use ssuos_mminos.Base.{
  ltb, Option-cases, update, ℕ, zero, suc, ◌+◌, ◌*◌, ◌≤◌, ◌<◌, ◌≡◌, refl, sym, ap, ◌∙◌, ◌⊎◌, inl,
  inr, true, false, not, Option, none, some, arith,
}
use native.Mathlib.Decide.{dec_lt, ℕ_discrete}
use ssuos_mminos.Base.Loops.{find_below, find_below-some}
use ssuos_mminos.Ssufs.{
  block_size, num_data_blocks, Inode, Disk, alloc_data_block, write_data_block,
}
use ssuos_mminos.Ssufs.Ops.{Draft, fill, extend}
use ssuos_mminos.Ssufs.Blocks.{WfDisk, block_of}

pub alloc_data_block-at :
    (d : Disk) (b : ℕ)
    → find_below (λ k. not (d.datablock_freelist k)) num_data_blocks ≡ some b
    → alloc_data_block d
      ≡ (some b, record d { datablock_freelist = update d.datablock_freelist b true })
unfolding alloc_data_block
alloc_data_block-at d b e = rw (e, alloc_data_block)

pub alloc_data_block-none :
    (d : Disk)
    → find_below (λ k. not (d.datablock_freelist k)) num_data_blocks ≡ none
    → alloc_data_block d ≡ (none, d)
unfolding alloc_data_block
alloc_data_block-none d e = rw (e, alloc_data_block)

-- The disk that a draft of inode `i` stands for.
abbrev pub view : ℕ → Inode → Draft → Disk
view i n w = record w.disk {
  inodes = update w.disk.inodes i (record n { direct_blocks = w.blocks });
}

-- The draft after a new block `b` for place `k`.
abbrev pub with_block : Draft → ℕ → ℕ → Draft
with_block w k b =
    let d = record w.disk { datablock_freelist = update w.disk.datablock_freelist b true } in
    fill
      (record w {
        disk = record d { contents = update d.contents b (λ j. w.buf (block_size * k + j)) };
        blocks = update w.blocks k (some b);
      })
      k b

pub extend-none :
    (n k m : ℕ) (w : Draft)
    → w.blocks k ≡ none
    → k < m
    → find_below (λ j. not (w.disk.datablock_freelist j)) num_data_blocks ≡ none
    → extend (suc n) k m w ≡ (false, w)
unfolding extend
extend-none n k m w e lt none_left =
    let lt' : ltb k m ≡ true = ground arith in
    let at = alloc_data_block-none w.disk none_left in
    rw (e, extend, lt', at) (ap (λ (x : Option ℕ × Disk). (false, record w { disk = x.1 })) at)

pub extend-new :
    (n k m b : ℕ) (w : Draft)
    → w.blocks k ≡ none
    → k < m
    → find_below (λ j. not (w.disk.datablock_freelist j)) num_data_blocks ≡ some b
    → extend (suc n) k m w ≡ extend n (k + 1) m (with_block w k b)
unfolding extend write_data_block
extend-new n k m b w e lt slot =
    let lt' : ltb k m ≡ true = ground arith in
    let at = alloc_data_block-at w.disk b slot in
    rw (e, extend, lt', at)
      (ap
        (λ (x : Option ℕ × Disk). extend n (k + 1) m (
          fill
            (record w {
              disk = write_data_block b (λ j. w.buf (block_size * k + j)) x.1;
              blocks = update w.blocks k (some b);
            })
            k b))
        at)

pub extend-stop :
    (n k m : ℕ) (w : Draft) → w.blocks k ≡ none → m ≤ k → extend (suc n) k m w ≡ (true, w)
unfolding extend
extend-stop n k m w e le = let ge : ltb k m ≡ false = ground arith in rw (e, extend, ge)

pub extend-old :
    (n k m b : ℕ) (w : Draft)
    → w.blocks k ≡ some b
    → extend (suc n) k m w ≡ extend n (k + 1) m (fill w k b)
unfolding extend
extend-old n k m b w e = rw (e, extend)

pub with_block-cases :
    (i k b : ℕ) (n : Inode) (w : Draft) (i' k' b' : ℕ)
    → block_of (view i n (with_block w k b)) i' k' ≡ some b'
    → ((i' ≡ i) × (k' ≡ k) × (b' ≡ b)) ⊎ (block_of (view i n w) i' k' ≡ some b')
with_block-cases i k b n w i' k' b' e = elim (ℕ_discrete i i') [
  | no other ↦ inr (ground (arith, e))
  | yes here ↦ elim (ℕ_discrete k k') [
    | no other ↦ inr (ground (arith, e))
    | yes there ↦ inl (sym here, sym there, ground (arith, e))
  ]
]

pub with_block-WfDisk :
    (i k b : ℕ) (n : Inode) (w : Draft)
    → w.disk.inode_freelist i ≡ true
    → w.disk.datablock_freelist b ≡ false
    → b < num_data_blocks
    → WfDisk (view i n w)
    → WfDisk (view i n (with_block w k b))
with_block-WfDisk i k b n w live free lt v = record {
  used = λ i' k' b' hi' hk e. elim (with_block-cases i k b n w i' k' b' e) [
    | inl (_, _, same) ↦ (omega arith, ground arith)
    | inr old ↦ let (lt', on) = v.used i' k' b' hi' hk old in (lt', ground (arith, on))
  ];
  once = λ i' k' j l b' hi' hk hj hl e f. elim (with_block-cases i k b n w i' k' b' e) [
    | inl (pi, pk, pb) ↦ elim (with_block-cases i k b n w j l b' f) [
      | inl (qi, qk, _) ↦ (pi ∙ sym qi, pk ∙ sym qk)
      | inr old ↦ absurd (ground (arith, v.used j l b' hj hl old))
    ]
    | inr old ↦ elim (with_block-cases i k b n w j l b' f) [
      | inl (_, _, qb) ↦ absurd (ground (arith, v.used i' k' b' hi' hk old))
      | inr old' ↦ v.once i' k' j l b' hi' hk hj hl old old'
    ]
  ];
  none_free = λ i' k' hi' free' hk. ground (arith, v.none_free i' k' hi');
}

-- What the first loop of `write` leaves of the disk: the inodes, and the marks that are set.
abbrev pub Grows : Disk → Disk → Type 0
Grows d d' =
    (d'.inodes ≡ d.inodes)
    × (d'.inode_freelist ≡ d.inode_freelist)
    × ((b : ℕ) → d.datablock_freelist b ≡ true → d'.datablock_freelist b ≡ true)

pub extend-WfDisk :
    (i n k m : ℕ) (old : Inode) (w : Draft)
    → w.disk.inode_freelist i ≡ true
    → WfDisk (view i old w)
    → WfDisk (view i old (extend n k m w).1) × Grows w.disk (extend n k m w).1.disk
unfolding extend
extend-WfDisk i zero k m old w live v = (v, (refl, refl, λ b on. on))
extend-WfDisk i (suc n) k m old w live v = elim (Option-cases (w.blocks k)) [
  | inr (b, e) ↦ rw (extend-old n k m b w e) (extend-WfDisk i n (k + 1) m old (fill w k b) live v)
  | inl e ↦ elim (dec_lt k m) [
    | no enough ↦ rw (extend-stop n k m w e (omega arith)) (v, (refl, refl, λ b on. on))
    | yes lt ↦
        elim (Option-cases (find_below (λ j. not (w.disk.datablock_freelist j)) num_data_blocks)) [
          | inl none_left ↦ rw (extend-none n k m w e lt none_left) (v, (refl, refl, λ b on. on))
          | inr (b, slot) ↦
              let (b_lt, on) =
                find_below-some (λ j. not (w.disk.datablock_freelist j)) num_data_blocks b slot in
              let v' = with_block-WfDisk i k b old w live (ground arith) b_lt v in
              let (wf, (same, flags, more)) =
                extend-WfDisk i n (k + 1) m old (with_block w k b) live v' in
              rw (extend-new n k m b w e lt slot)
                (wf, (same, flags, λ j on'. more j (ground arith)))
        ]
  ]
]
