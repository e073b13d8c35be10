-- ===== src/Ssufs.antt =====
-- 설계 6/ssufs-disk.c: the disk of the file system and its free lists.
-- A block is 64 bytes, and there are 8 inodes and 30 data blocks. A byte array is a function; an
-- index of -1 is `none`. The buffer of a superblock or inode that is read, changed and written back
-- is the part of the disk itself.
pub mod Ops
pub mod Names
pub mod Blocks
pub mod Extend
pub mod Commit
pub mod Delete
pub mod Contents
pub mod Written
pub mod ReadBack
pub mod Handles
mod Tests
use ssuos_mminos.Base.{
  ltb, ◌==◌, if◌then◌else◌, update, length, ℕ, zero, suc, ◌+◌, ◌%◌, Bool, true, false, not, ◌&&◌,
  Option, none, some, List, [], ◌∷◌, ◌++◌,
}
use ssuos_mminos.Base.Loops.{find_below}

abbrev pub block_size : ℕ
block_size = 64

abbrev pub num_inodes : ℕ
num_inodes = 8

abbrev pub num_data_blocks : ℕ
num_data_blocks = 30

abbrev pub max_file_size : ℕ
max_file_size = 4

abbrev pub max_name_strlen : ℕ
max_name_strlen = 8

-- `struct inode_t`; the name is the characters in front of the NUL, at most 8.
pub record Inode : Type 0 where
  pub status : Bool
  pub name : List ℕ
  pub file_size : ℕ
  pub direct_blocks : ℕ → Option ℕ

-- `struct superblock_t`, the inodes and the data blocks
pub record Disk : Type 0 where
  pub inode_freelist : ℕ → Bool
  pub datablock_freelist : ℕ → Bool
  pub inodes : ℕ → Inode
  pub contents : ℕ → ℕ → ℕ

-- `struct filehandle_t`
pub record Handle : Type 0 where
  pub offset : ℕ
  pub inode_number : Option ℕ

-- the disk and `file_handle_array`
pub record Fs : Type 0 where
  pub disk : Disk
  pub handles : ℕ → Handle

abbrev pub empty_inode : Inode
empty_inode = record { status = false; name = []; file_size = 0; direct_blocks = λ i. none }

abbrev pub closed : Handle
closed = record { offset = 0; inode_number = none }

-- The data blocks keep what the file on the host had, which `fopen` with "w+" empties.
unfoldable pub format_disk : Fs
format_disk = record {
  disk = record {
    inode_freelist = λ i. false;
    datablock_freelist = λ i. false;
    inodes = λ i. empty_inode;
    contents = λ i k. 0;
  };
  handles = λ i. closed;
}

unfoldable pub same_name : List ℕ → List ℕ → Bool
same_name [] [] = true
same_name (x ∷ xs) (y ∷ ys) = let rest = same_name xs ys in x == y && rest
same_name [] (y ∷ ys) = false
same_name (x ∷ xs) [] = false

-- What `strcmp` reads as the name of an inode: a name of 8 characters has no NUL, and goes on with
-- the first byte of `file_size`. A size is at most 256, so the second byte ends it if the first does
-- not.
unfoldable pub seen_name : Inode → List ℕ
seen_name n =
    if length n.name == max_name_strlen && not (n.file_size % 256 == 0)
    then n.name ++ n.file_size % 256 ∷ []
    else n.name

abbrev pub named : List ℕ → Disk → ℕ → Bool
named name d i = d.inode_freelist i && same_name (seen_name (d.inodes i)) name

unfoldable pub open_namei : List ℕ → Disk → Option ℕ
open_namei name d =
    if ltb max_name_strlen (length name) then none else find_below (named name d) num_inodes

unfoldable pub alloc_inode : Disk → Option ℕ × Disk
alloc_inode d = elim (find_below (λ i. not (d.inode_freelist i)) num_inodes) [
  | none ↦ (none, d)
  | some i ↦ (some i, record d { inode_freelist = update d.inode_freelist i true })
]

unfoldable pub write_inode : ℕ → Inode → Disk → Disk
write_inode i n d = record d { inodes = update d.inodes i n }

unfoldable pub alloc_data_block : Disk → Option ℕ × Disk
alloc_data_block d = elim (find_below (λ i. not (d.datablock_freelist i)) num_data_blocks) [
  | none ↦ (none, d)
  | some i ↦ (some i, record d { datablock_freelist = update d.datablock_freelist i true })
]

-- `none` when the assertion fails.
unfoldable pub free_data_block : ℕ → Disk → Option Disk
free_data_block b d =
    if d.datablock_freelist b
    then some (record d { datablock_freelist = update d.datablock_freelist b false })
    else none

unfoldable pub write_data_block : ℕ → (ℕ → ℕ) → Disk → Disk
write_data_block b buf d = record d { contents = update d.contents b buf }

-- The loop of `ssufs_freeInode` over the direct blocks.
unfoldable pub free_blocks : (rounds i : ℕ) → (ℕ → Option ℕ) → Disk → Option Disk
free_blocks zero i blocks d = some d
free_blocks (suc n) i blocks d = elim (blocks i) [
  | none ↦ free_blocks n (i + 1) blocks d
  | some b ↦ elim (free_data_block b d) [ none ↦ none | some d' ↦ free_blocks n (i + 1) blocks d' ]
]

-- `ssufs_freeInode`; `none` when an assertion fails.
unfoldable pub free_inode : ℕ → Disk → Option Disk
free_inode i d =
    let n = d.inodes i in
    let freed =
      free_blocks max_file_size 0 n.direct_blocks
        (record d { inode_freelist = update d.inode_freelist i false }) in
    if d.inode_freelist i
    then elim freed [
      | none ↦ none
      | some d' ↦ some (
          write_inode i
            (record n {
              status = false;
              file_size = 0;
              direct_blocks = λ k. if ltb k max_file_size then none else n.direct_blocks k;
            })
            d')
    ]
    else none
