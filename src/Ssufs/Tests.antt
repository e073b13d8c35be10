-- ===== src/Ssufs/Tests.antt =====
-- Runs of the file system, and the theorems at concrete states.
use ssuos_mminos.Base.{
  negsuc, ◌==◌, if◌then◌else◌, ℕ, ◌<◌, ◌≡◌, refl, false, some, List, [], ◌∷◌, arith,
}
use ssuos_mminos.Base.Loops.{find_from, find_below}
use ssuos_mminos.Ssufs.{
  Fs, empty_inode, closed, open_namei, same_name, seen_name, alloc_inode, write_inode,
  alloc_data_block, write_data_block,
}
use ssuos_mminos.Ssufs.Ops.{create, write, commit, extend, store, lseek, read, load, delete, ok}
use ssuos_mminos.Ssufs.Names.{new_file, open_namei-create}
use ssuos_mminos.Ssufs.Blocks.{WfDisk, create-WfDisk}
use ssuos_mminos.Ssufs.Commit.{write-WfDisk}
use ssuos_mminos.Ssufs.Delete.{delete-WfDisk}
use ssuos_mminos.Ssufs.ReadBack.{read-write}
use ssuos_mminos.Ssufs.Handles.{Rested}

abbrev name_a : List ℕ
name_a = 97 ∷ []

-- the file "a" in inode 0, open at handle 0
abbrev with_file : Fs
with_file = record {
  disk = record {
    inode_freelist = λ i. i == 0;
    datablock_freelist = λ b. false;
    inodes = λ i. if i == 0 then new_file name_a else empty_inode;
    contents = λ b k. 0;
  };
  handles = λ h. if h == 0 then record { offset = 0; inode_number = some 0 } else closed;
}

with_file-WfDisk : WfDisk with_file.disk
with_file-WfDisk = record {
  used = λ i k b hi hk e. ground (arith, e);
  once = λ i k j l b hi hk hj hl e f. ground (arith, e);
  none_free = λ i k hi free hk. ground arith;
}

-- 70 bytes take two blocks.
write_two : (write 0 (λ k. 7) 70 with_file).0 ≡ ok
unfolding write extend alloc_data_block write_data_block find_below find_from
write_two = refl

read_back : (read 0 3 (lseek 0 (negsuc 69) (write 0 (λ k. k) 70 with_file).1).1).1 2 ≡ 2
unfolding write extend commit store lseek read load alloc_data_block write_data_block write_inode
    find_below find_from
read_back = refl

find_a : open_namei name_a with_file.disk ≡ some 0
unfolding open_namei same_name seen_name find_below find_from
find_a = refl

create-WfDisk_example : WfDisk (create (98 ∷ []) with_file).1.disk
create-WfDisk_example = create-WfDisk (98 ∷ []) with_file with_file-WfDisk

write-WfDisk_example : WfDisk (write 0 (λ k. 7) 70 with_file).1.disk
write-WfDisk_example = write-WfDisk 0 (λ k. 7) 70 0 with_file refl refl with_file-WfDisk

delete-WfDisk_example :
    (fs' : Fs) × (delete name_a with_file ≡ some fs')
    × WfDisk fs'.disk
    × ((i : ℕ) → open_namei name_a with_file.disk ≡ some i → fs'.disk.inode_freelist i ≡ false)
delete-WfDisk_example = delete-WfDisk name_a with_file with_file-WfDisk

open_namei-create_example : open_namei (98 ∷ []) (create (98 ∷ []) with_file).1.disk ≡ some 1
unfolding create open_namei same_name seen_name alloc_inode find_below find_from
open_namei-create_example =
    open_namei-create (98 ∷ []) with_file 1 (create (98 ∷ []) with_file).1 (omega arith) refl

with_file-Rested : Rested with_file
with_file-Rested h shut = ground arith

-- 70 bytes, in two blocks
read-write_example :
    let fs' = (write 0 (λ k. k) 70 with_file).1 in
    ((lseek 0 (negsuc 69) fs').0 ≡ ok)
    × ((read 0 70 (lseek 0 (negsuc 69) fs').1).0 ≡ ok)
    × ((k : ℕ) → k < 70 → (read 0 70 (lseek 0 (negsuc 69) fs').1).1 k ≡ k)
unfolding write extend alloc_data_block write_data_block find_below find_from
read-write_example =
    read-write 0 0 (λ k. k) 69 with_file (write 0 (λ k. k) 70 with_file).1 with_file-WfDisk
      (omega arith) refl refl refl
