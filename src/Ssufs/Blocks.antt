-- ===== src/Ssufs/Blocks.antt =====
-- The ownership of data blocks: each block of a file is marked as used, and no two files, nor two
-- places of one file, share one.
use ssuos_mminos.Base.{ℕ, ◌<◌, ◌≡◌, sym, ◌∙◌, true, false, Option, none, some, List, arith}
use ssuos_mminos.Ssufs.{num_inodes, num_data_blocks, max_file_size, Disk, Fs}
use ssuos_mminos.Ssufs.Ops.{create}
use ssuos_mminos.Ssufs.Names.{exists, full, made, create-Created, added}

abbrev pub block_of : Disk → ℕ → ℕ → Option ℕ
block_of d i k = (d.inodes i).direct_blocks k

pub record WfDisk (d : Disk) : Type 0 where
  pub used :
      (i k b : ℕ)
      → i < num_inodes
      → k < max_file_size
      → block_of d i k ≡ some b
      → (b < num_data_blocks) × (d.datablock_freelist b ≡ true)
  pub once :
      (i k j l b : ℕ)
      → i < num_inodes
      → k < max_file_size
      → j < num_inodes
      → l < max_file_size
      → block_of d i k ≡ some b
      → block_of d j l ≡ some b
      → (i ≡ j) × (k ≡ l)
  pub none_free :
      (i k : ℕ)
      → i < num_inodes
      → d.inode_freelist i ≡ false
      → k < max_file_size
      → block_of d i k ≡ none

-- The invariant reads the blocks of the inodes and the two free lists only.
pub WfDisk-cong :
    (d d' : Disk)
    → ((i k : ℕ) → block_of d' i k ≡ block_of d i k)
    → ((i : ℕ) → d'.inode_freelist i ≡ d.inode_freelist i)
    → ((b : ℕ) → d.datablock_freelist b ≡ true → d'.datablock_freelist b ≡ true)
    → WfDisk d
    → WfDisk d'
WfDisk-cong d d' same flags more w = record {
  used = λ i k b hi hk e. let (lt, on) = w.used i k b hi hk (sym (same i k) ∙ e) in (lt, more b on);
  once = λ i k j l b hi hk hj hl e f.
      w.once i k j l b hi hk hj hl (sym (same i k) ∙ e) (sym (same j l) ∙ f);
  none_free = λ i k hi free hk. same i k ∙ w.none_free i k hi (sym (flags i) ∙ free) hk;
}

added-WfDisk : (name : List ℕ) (i : ℕ) {d : Disk} → WfDisk d → WfDisk (added name i d)
added-WfDisk name i {d} w = record {
  used = λ i' k b hi hk e. ground (arith, w.used i' k b hi hk);
  once = λ i' k j l b hi hk hj hl e f. ground (arith, w.once i' k j l b hi hk hj hl);
  none_free = λ i' k hi free hk. ground (arith, w.none_free i' k hi);
}

-- `create` keeps the blocks of the disk well formed.
pub create-WfDisk : (name : List ℕ) (fs : Fs) → WfDisk fs.disk → WfDisk (create name fs).1.disk
create-WfDisk name fs w = elim (create-Created name fs) [
  | exists i at r ↦ rw r w
  | full all r ↦ rw r w
  | made i lt free new r ↦ rw r (added-WfDisk name i w)
]
