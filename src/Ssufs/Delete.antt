-- ===== src/Ssufs/Delete.antt =====
-- `ssufs_delete`: the assertions of `ssufs_freeInode` hold, and the blocks stay well formed.
use ssuos_mminos.Base.{
  not-some, ltb, if◌then◌else◌, Bool-cases, Option-cases, update, length, ℕ, zero, suc, ◌+◌, ◌≤◌,
  ◌<◌, ◌≡◌, refl, sym, ap, ◌∙◌, ◌≢◌, inl, inr, Bool, true, false, Option, none, some, List, arith,
}
use native.Mathlib.Decide.{ℕ_discrete}
use ssuos_mminos.Base.Loops.{find_below, find_below-some}
use ssuos_mminos.Ssufs.{
  num_inodes, max_file_size, max_name_strlen, named, Disk, Fs, write_inode, free_data_block,
  free_blocks, free_inode, open_namei,
}
use ssuos_mminos.Ssufs.Ops.{is_open_on, max_open_files, close, close_first, delete}
use ssuos_mminos.Ssufs.Blocks.{WfDisk, block_of}

-- The disk after the direct blocks from `k` on have been freed.
record Freed (n k : ℕ) (blocks : ℕ → Option ℕ) (d : Disk) : Type 0 where
  flags : ℕ → Bool
  result : free_blocks n k blocks d ≡ some (record d { datablock_freelist = flags })
  kept :
      (b : ℕ) → ((j : ℕ) → k ≤ j → j < k + n → blocks j ≢ some b) → flags b ≡ d.datablock_freelist b

free_data_block-used :
    (b : ℕ) (d : Disk)
    → d.datablock_freelist b ≡ true
    → free_data_block b d
      ≡ some (record d { datablock_freelist = update d.datablock_freelist b false })
unfolding free_data_block
free_data_block-used b d e = rw e

free_blocks-Freed :
    (n k : ℕ) (blocks : ℕ → Option ℕ) (d : Disk)
    → ((j b : ℕ) → k ≤ j → j < k + n → blocks j ≡ some b → d.datablock_freelist b ≡ true)
    → ((j l b : ℕ)
        → k ≤ j
        → j < k + n
        → k ≤ l
        → l < k + n
        → blocks j ≡ some b
        → blocks l ≡ some b
        → j ≡ l)
    → Freed n k blocks d
unfolding free_blocks
free_blocks-Freed zero k blocks d used once = record {
  flags = d.datablock_freelist;
  result = refl;
  kept = λ b none_is. refl;
}
free_blocks-Freed (suc n) k blocks d used once = elim (Option-cases (blocks k)) [
  | inl e ↦
      let f =
        free_blocks-Freed n (k + 1) blocks d (λ j b lo hi. used j b (omega arith) (omega arith))
          (λ j l b lo hi lo' hi'.
            once j l b (omega arith) (omega arith) (omega arith) (omega arith)) in
      record {
        flags = f.flags;
        result = rw (e, free_blocks) f.result;
        kept = λ b no_place. f.kept b (λ j lo hi. no_place j (omega arith) (omega arith));
      }
  | inr (b, e) ↦
      let d' : Disk = record d { datablock_freelist = update d.datablock_freelist b false } in
      let f =
        free_blocks-Freed n (k + 1) blocks d'
          (λ j b' lo hi e'. elim (ℕ_discrete b b') [
            | yes same ↦ absurd (
                omega (
                  arith,
                  once j k b' (omega arith) (omega arith) (omega arith) (omega arith) e'
                      (e ∙ ap some same),
                ))
            | no other ↦ ground (arith, used j b' (omega arith) (omega arith) e')
          ])
          (λ j l b lo hi lo' hi'.
            once j l b (omega arith) (omega arith) (omega arith) (omega arith)) in
      record {
        flags = f.flags;
        result =
            rw (e, free_blocks, free_data_block-used b d (used k b (omega arith) (omega arith) e))
              f.result;
        kept = λ b' no_place.
            f.kept b' (λ j lo hi. no_place j (omega arith) (omega arith))
            ∙ (elim (ℕ_discrete b b') [
              | yes same ↦ absurd (no_place k (omega arith) (omega arith) (e ∙ ap some same))
              | no other ↦ ground arith
            ]);
      }
]

-- The disk after inode `i` has been freed.
record FreedInode (i : ℕ) (d : Disk) : Type 0 where
  disk : Disk
  result : free_inode i d ≡ some disk
  wf : WfDisk disk
  free : disk.inode_freelist i ≡ false

abbrev freed_inode : ℕ → Disk → (ℕ → Bool) → Disk
freed_inode i d flags =
    let n = d.inodes i in
    record d {
      inode_freelist = update d.inode_freelist i false;
      datablock_freelist = flags;
      inodes = update d.inodes i (record n {
        status = false;
        file_size = 0;
        direct_blocks = λ k. if ltb k max_file_size then none else n.direct_blocks k;
      });
    }

freed_inode-block :
    (i : ℕ) (d : Disk) (flags : ℕ → Bool) (i' k b : ℕ)
    → k < max_file_size
    → block_of (freed_inode i d flags) i' k ≡ some b
    → (i ≢ i') × (block_of d i' k ≡ some b)
freed_inode-block i d flags i' k b hk e = elim (ℕ_discrete i i') [
  | yes same ↦ absurd (ground (arith, e))
  | no other ↦ (other, ground (arith, e))
]

freed_inode-WfDisk :
    (i : ℕ) {d : Disk} (flags : ℕ → Bool)
    → i < num_inodes
    → ((b : ℕ)
        → ((j : ℕ) → 0 ≤ j → j < 0 + max_file_size → block_of d i j ≢ some b)
        → flags b ≡ d.datablock_freelist b)
    → WfDisk d
    → WfDisk (freed_inode i d flags)
freed_inode-WfDisk i {d} flags lt kept w = record {
  used = λ i' k b hi hk e.
      let (other, e') = freed_inode-block i d flags i' k b hk e in
      let (b_lt, on) = w.used i' k b hi hk e' in
      (
        b_lt,
        kept b (λ j lo hj f. other (sym (w.once i' k i j b hi hk lt (omega arith) e' f).0)) ∙ on,
      );
  once = λ i' k j l b hi hk hj hl e f.
      let (_, e') = freed_inode-block i d flags i' k b hk e in
      let (_, f') = freed_inode-block i d flags j l b hl f in w.once i' k j l b hi hk hj hl e' f';
  none_free = λ i' k hi free hk. ground (arith, w.none_free i' k hi);
}

free_inode-at :
    (i : ℕ) (d : Disk) (flags : ℕ → Bool)
    → d.inode_freelist i ≡ true
    → free_blocks max_file_size 0
        (d.inodes i).direct_blocks
        (record d { inode_freelist = update d.inode_freelist i false })
      ≡ some (record d {
        inode_freelist = update d.inode_freelist i false;
        datablock_freelist = flags;
      })
    → free_inode i d ≡ some (freed_inode i d flags)
unfolding free_inode write_inode
free_inode-at i d flags live e = rw (live, free_inode, e)

free_inode-FreedInode :
    (i : ℕ) {d : Disk} → i < num_inodes → d.inode_freelist i ≡ true → WfDisk d → FreedInode i d
free_inode-FreedInode i {d} lt live w =
    let f =
      free_blocks-Freed max_file_size 0 (d.inodes i).direct_blocks
        (record d { inode_freelist = update d.inode_freelist i false })
        (λ j b lo hi e. (w.used i j b lt (omega arith) e).1)
        (λ j l b lo hi lo' hi' e e'. (w.once i j i l b lt (omega arith) lt (omega arith) e e').1) in
    record {
      disk = freed_inode i d f.flags;
      result = free_inode-at i d f.flags live f.result;
      wf = freed_inode-WfDisk i f.flags lt f.kept w;
      free = ground arith;
    }

-- The handles do not matter to the disk.
close_first-disk : (i : ℕ) (fs : Fs) → (close_first i fs).disk ≡ fs.disk
unfolding close_first close
close_first-disk i fs =
    elim (Option-cases (find_below (λ h. is_open_on i (fs.handles h)) max_open_files)) [
      | inl e ↦ rw (e, close_first) refl
      | inr (h, e) ↦ rw (e, close_first) refl
    ]

delete-none : (name : List ℕ) (fs : Fs) → open_namei name fs.disk ≡ none → delete name fs ≡ some fs
unfolding delete
delete-none name fs e = rw (e, delete)

delete-some :
    (name : List ℕ) (fs : Fs) (i : ℕ) (d : Disk)
    → open_namei name fs.disk ≡ some i
    → free_inode i (close_first i fs).disk ≡ some d
    → delete name fs ≡ some (record (close_first i fs) { disk = d })
unfolding delete
delete-some name fs i d e f = rw (e, delete, f)

open_namei-range :
    (name : List ℕ) (d : Disk) (i : ℕ)
    → open_namei name d ≡ some i
    → (i < num_inodes) × (d.inode_freelist i ≡ true)
unfolding open_namei
open_namei-range name d i e = elim (Bool-cases (ltb max_name_strlen (length name))) [
  | inl long ↦ absurd (not-some (sym e ∙ (rw (long, open_namei) refl)))
  | inr short ↦
      let e' : find_below (named name d) num_inodes ≡ some i = (rw (short, open_namei) refl) ∙ e in
      let (lt, on) = find_below-some (named name d) num_inodes i e' in (lt, ground arith)
]

-- On a well-formed disk `delete` ends with no failed assertion, whatever the name, and the disk stays
-- well formed. If the file is there, its inode is free afterwards.
pub delete-WfDisk :
    (name : List ℕ) (fs : Fs)
    → WfDisk fs.disk
    → (fs' : Fs) × (delete name fs ≡ some fs')
      × WfDisk fs'.disk
      × ((i : ℕ) → open_namei name fs.disk ≡ some i → fs'.disk.inode_freelist i ≡ false)
delete-WfDisk name fs w = elim (Option-cases (open_namei name fs.disk)) [
  | inl e ↦ (fs, delete-none name fs e, w, λ i e'. absurd (not-some (sym e' ∙ e)))
  | inr (i, e) ↦
      let (lt, live) = open_namei-range name fs.disk i e in
      let same = close_first-disk i fs in
      let f = free_inode-FreedInode i lt live w in
      (
        record (close_first i fs) { disk = f.disk },
        delete-some name fs i f.disk e (ap (λ d. free_inode i d) same ∙ f.result),
        f.wf,
        λ j e'.
            let same : i ≡ j = ground (arith, sym e ∙ e') in
            ap (λ x. f.disk.inode_freelist x) (sym same) ∙ f.free,
      )
]
