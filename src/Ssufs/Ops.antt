-- ===== src/Ssufs/Ops.antt =====
-- 설계 6/ssufs-ops.c: the operations on files and handles.
use ssuos_mminos.Base.{
  ℤ, pos, negsuc, ltb, leb, ◌==◌, if◌then◌else◌, is_none, update, take, ℕ, zero, suc, ◌+◌, ◌-◌, ◌*◌,
  ◌/◌, Bool, true, false, ◌&&◌, Option, none, some, List,
}
use ssuos_mminos.Base.Loops.{find_below}
use ssuos_mminos.Ssufs.{
  block_size, max_file_size, max_name_strlen, Inode, Disk, Handle, Fs, closed, open_namei,
  alloc_inode, write_inode, alloc_data_block, write_data_block, free_inode,
}

abbrev pub max_open_files : ℕ
max_open_files = 20

abbrev pub set_handle : ℕ → Handle → Fs → Fs
set_handle h x fs = record fs { handles = update fs.handles h x }

abbrev pub is_closed : Handle → Bool
is_closed x = is_none x.inode_number

unfoldable pub alloc_file_handle : Fs → Option ℕ
alloc_file_handle fs = find_below (λ i. is_closed (fs.handles i)) max_open_files

unfoldable pub create : List ℕ → Fs → Option ℕ × Fs
create name fs = elim (open_namei name fs.disk) [
  | some i ↦ (none, fs)
  | none ↦
      let (slot, d) = alloc_inode fs.disk in
      elim slot [
        | none ↦ (none, record fs { disk = d })
        | some i ↦
            let n : Inode = record {
              status = true;
              name = take max_name_strlen name;
              file_size = 0;
              direct_blocks = λ k. none;
            } in
            (some i, record fs { disk = write_inode i n d })
      ]
]

unfoldable pub close : ℕ → Fs → Fs
close h fs = set_handle h closed fs

abbrev pub is_open_on : ℕ → Handle → Bool
is_open_on i x = elim x.inode_number [ none ↦ false | some j ↦ j == i ]

-- The loop of `ssufs_delete`: the first handle on the inode is closed.
unfoldable pub close_first : ℕ → Fs → Fs
unfolding close
close_first i fs = elim (find_below (λ h. is_open_on i (fs.handles h)) max_open_files) [
  | none ↦ fs
  | some h ↦ close h fs
]

-- `none` when an assertion fails.
unfoldable pub delete : List ℕ → Fs → Option Fs
delete name fs = elim (open_namei name fs.disk) [
  | none ↦ some fs
  | some i ↦
      let fs' = close_first i fs in
      elim (free_inode i fs'.disk) [ none ↦ none | some d ↦ some (record fs' { disk = d }) ]
]

-- The offset of the handle is not set.
unfoldable pub open_file : List ℕ → Fs → Option ℕ × Fs
open_file name fs = elim (open_namei name fs.disk) [
  | none ↦ (none, fs)
  | some i ↦ elim (alloc_file_handle fs) [
    | none ↦ (none, fs)
    | some h ↦ (some h, set_handle h (record (fs.handles h) { inode_number = some i }) fs)
  ]
]

abbrev pub seek_to : ℕ → ℤ → ℤ
seek_to offset (pos n) = pos (offset + n)
seek_to offset (negsuc n) = if ltb n offset then pos (offset - (n + 1)) else negsuc (n - offset)

-- What a call returns: 0, -1, or that it reads what this model does not say.
pub data Result : Type 0 where
  ok failed unknown : Result

-- `ssufs_lseek`; a handle that is not open reads the superblock as an inode.
unfoldable pub lseek : ℕ → ℤ → Fs → Result × Fs
lseek h nseek fs = elim (fs.handles h).inode_number [
  | none ↦ (unknown, fs)
  | some i ↦ elim (seek_to (fs.handles h).offset nseek) [
    | negsuc n ↦ (failed, fs)
    | pos o ↦
        if ltb (fs.disk.inodes i).file_size o
        then (failed, fs)
        else (ok, set_handle h (record (fs.handles h) { offset = o }) fs)
  ]
]

-- The loop that fills `tmp_buf`, up to the first direct block that is -1. The buffer starts with
-- zeros.
unfoldable pub load : (rounds i : ℕ) → (ℕ → Option ℕ) → Disk → (ℕ → ℕ) → ℕ → ℕ
load zero i blocks d buf k = buf k
load (suc n) i blocks d buf k = elim (blocks i) [
  | none ↦ buf k
  | some b ↦
      load n (i + 1) blocks d
        (λ j.
          if leb (block_size * i) j && ltb j (block_size * i + block_size)
          then d.contents b (j - block_size * i)
          else buf j)
        k
]

abbrev pub zeros : ℕ → ℕ
zeros k = 0

-- `ssufs_read`: the bytes that are copied to the caller's buffer when the result is `ok`.
unfoldable pub read : ℕ → (nbytes : ℕ) → Fs → Result × (ℕ → ℕ) × Fs
unfolding lseek load
read h nbytes fs = elim (fs.handles h).inode_number [
  | none ↦ (failed, zeros, fs)
  | some i ↦
      let n = fs.disk.inodes i in
      let offset = (fs.handles h).offset in
      let tmp_buf = load max_file_size 0 n.direct_blocks fs.disk zeros in
      if ltb n.file_size (nbytes + offset)
      then (failed, zeros, fs)
      else (ok, (λ k. tmp_buf (offset + k)), (lseek h (pos nbytes) fs).1)
]

-- The state of the first loop of `ssufs_write`.
pub record Draft : Type 0 where
  pub disk : Disk
  pub blocks : ℕ → Option ℕ
  pub buf : ℕ → ℕ

abbrev pub fill : Draft → ℕ → ℕ → Draft
fill w i b = record w {
  buf = λ j.
      if leb (block_size * i) j && ltb j (block_size * i + block_size)
      then w.disk.contents b (j - block_size * i)
      else w.buf j;
}

-- The first loop of `ssufs_write`: the blocks that the file has are read, and the missing ones below
-- `num_blocks` are allocated, with zeros. The flag is false when no block is left.
unfoldable pub extend : (rounds i num_blocks : ℕ) → Draft → Bool × Draft
extend zero i num_blocks w = (true, w)
extend (suc n) i num_blocks w = elim (w.blocks i) [
  | some b ↦ extend n (i + 1) num_blocks (fill w i b)
  | none ↦
      if ltb i num_blocks
      then (let (slot, d) = alloc_data_block w.disk in
          elim slot [
            | none ↦ (false, record w { disk = d })
            | some b ↦
                let d' = write_data_block b (λ j. w.buf (block_size * i + j)) d in
                extend n (i + 1) num_blocks
                  (fill (record w { disk = d'; blocks = update w.blocks i (some b) }) i b)
          ])
      else (true, w)
]

-- The second loop: the blocks are written back.
unfoldable pub store : (rounds i : ℕ) → (ℕ → Option ℕ) → (ℕ → ℕ) → Disk → Disk
store zero i blocks buf d = d
store (suc n) i blocks buf d = elim (blocks i) [
  | none ↦ d
  | some b ↦ store n (i + 1) blocks buf (write_data_block b (λ j. buf (block_size * i + j)) d)
]

-- `ssufs_write` behind its first loop.
unfoldable pub commit : (h i : ℕ) → (bytes : ℕ → ℕ) → (nbytes : ℕ) → Draft → Fs → Fs
unfolding store lseek
commit h i bytes nbytes w fs =
    let offset = (fs.handles h).offset in
    let n = fs.disk.inodes i in
    let buf =
      λ (j : ℕ). if leb offset j && ltb j (offset + nbytes) then bytes (j - offset) else w.buf j in
    let n' = record n {
      direct_blocks = w.blocks;
      file_size = if ltb n.file_size (offset + nbytes) then offset + nbytes else n.file_size;
    } in
    let d = write_inode i n' (store max_file_size 0 w.blocks buf w.disk) in
    (lseek h (pos nbytes) (record fs { disk = d })).1

unfoldable pub write : ℕ → (bytes : ℕ → ℕ) → (nbytes : ℕ) → Fs → Result × Fs
unfolding extend commit
write h bytes nbytes fs = elim (fs.handles h).inode_number [
  | none ↦ (failed, fs)
  | some i ↦
      let offset = (fs.handles h).offset in
      let (more, w) =
        extend max_file_size 0 ((offset + nbytes - 1) / block_size + 1)
          (record { disk = fs.disk; blocks = (fs.disk.inodes i).direct_blocks; buf = zeros }) in
      if ltb (block_size * max_file_size) (offset + nbytes)
      then (failed, fs)
      else if more
      then (ok, commit h i bytes nbytes w fs)
      else (failed, record fs { disk = w.disk })
]
