-- ===== src/Ssufs/Commit.antt =====
-- All of `ssufs_write`: the ownership of the blocks is kept.
use ssuos_mminos.Base.{
  ℤ, pos, ltb, leb, if◌then◌else◌, Bool-cases, Option-cases, update, ℕ, zero, suc, ◌+◌, ◌-◌, ◌*◌,
  ◌/◌, ◌≡◌, refl, ap, inl, inr, Bool, true, ◌&&◌, Option, some, arith,
}
use ssuos_mminos.Ssufs.{block_size, max_file_size, Inode, Disk, Fs, write_inode, write_data_block}
use ssuos_mminos.Ssufs.Ops.{Draft, extend, store, zeros, write, commit, lseek}
use ssuos_mminos.Ssufs.Blocks.{WfDisk, WfDisk-cong}
use ssuos_mminos.Ssufs.Extend.{view, Grows, extend-WfDisk}

-- The second loop changes the contents of blocks only.
pub store-contents :
    (n k : ℕ) (blocks : ℕ → Option ℕ) (buf : ℕ → ℕ) (d : Disk)
    → (c : ℕ → ℕ → ℕ) × (store n k blocks buf d ≡ record d { contents = c })
unfolding store write_data_block
store-contents zero k blocks buf d = (d.contents, refl)
store-contents (suc n) k blocks buf d = elim (Option-cases (blocks k)) [
  | inl e ↦ rw (e, store) (d.contents, refl)
  | inr (b, e) ↦
      rw (e, store)
        (store-contents n (k + 1) blocks buf (write_data_block b (λ j. buf (block_size * k + j)) d))
]

pub lseek-disk : (h : ℕ) (z : ℤ) (fs : Fs) → (lseek h z fs).1.disk ≡ fs.disk
unfolding lseek
lseek-disk h z fs = ground arith

seek-WfDisk : (h : ℕ) (z : ℤ) (fs : Fs) → WfDisk fs.disk → WfDisk (lseek h z fs).1.disk
seek-WfDisk h z fs w = rw (lseek-disk h z fs) w

stored-WfDisk :
    (i : ℕ) (n n' : Inode) (w : Draft) (buf : ℕ → ℕ)
    → n'.direct_blocks ≡ w.blocks
    → WfDisk (view i n w)
    → WfDisk (write_inode i n' (store max_file_size 0 w.blocks buf w.disk))
unfolding write_inode
stored-WfDisk i n n' w buf e v =
    let (c, only_contents) = store-contents max_file_size 0 w.blocks buf w.disk in
    rw only_contents (
      WfDisk-cong (view i n w) (record w.disk { contents = c; inodes = update w.disk.inodes i n' })
        (λ j k. ground (arith, ap (λ f. f k) e)) (λ j. refl) (λ b on. on) v)

commit-WfDisk :
    (h i : ℕ) (bytes : ℕ → ℕ) (nbytes : ℕ) (w : Draft) (fs : Fs)
    → WfDisk (view i (fs.disk.inodes i) w)
    → WfDisk (commit h i bytes nbytes w fs).disk
unfolding commit
commit-WfDisk h i bytes nbytes w fs v =
    let offset = (fs.handles h).offset in
    let n = fs.disk.inodes i in
    let n' : Inode = record n {
      direct_blocks = w.blocks;
      file_size = if ltb n.file_size (offset + nbytes) then offset + nbytes else n.file_size;
    } in
    let buf =
      λ (j : ℕ). if leb offset j && ltb j (offset + nbytes) then bytes (j - offset) else w.buf j in
    seek-WfDisk h (pos nbytes)
      (record fs { disk = write_inode i n' (store max_file_size 0 w.blocks buf w.disk) })
      (stored-WfDisk i n n' w buf refl v)

-- What `write` starts its loops with.
abbrev pub draft : Fs → ℕ → Draft
draft fs i = record { disk = fs.disk; blocks = (fs.disk.inodes i).direct_blocks; buf = zeros }

abbrev pub drafted : Fs → (i offset nbytes : ℕ) → Bool × Draft
drafted fs i offset nbytes =
    extend max_file_size 0 ((offset + nbytes - 1) / block_size + 1) (draft fs i)

pub drafted-WfDisk :
    (fs : Fs) (i offset nbytes : ℕ)
    → fs.disk.inode_freelist i ≡ true
    → WfDisk fs.disk
    → WfDisk (view i (fs.disk.inodes i) (drafted fs i offset nbytes).1)
      × Grows fs.disk (drafted fs i offset nbytes).1.disk
drafted-WfDisk fs i offset nbytes live w =
    extend-WfDisk i max_file_size 0 ((offset + nbytes - 1) / block_size + 1) (fs.disk.inodes i)
      (draft fs i) live
      (WfDisk-cong fs.disk (view i (fs.disk.inodes i) (draft fs i)) (λ j k. ground arith)
        (λ j. refl) (λ b on. on) w)

Grows-WfDisk : (d d' : Disk) → Grows d d' → WfDisk d → WfDisk d'
Grows-WfDisk d d' (same, flags, more) w =
    WfDisk-cong d d' (λ i k. ap (λ f. (f i).direct_blocks k) same) (λ i. ap (λ f. f i) flags) more w

-- `write` through a handle on a file keeps the blocks of the disk well formed, also when it fails.
pub write-WfDisk :
    (h : ℕ) (bytes : ℕ → ℕ) (nbytes i : ℕ) (fs : Fs)
    → (fs.handles h).inode_number ≡ some i
    → fs.disk.inode_freelist i ≡ true
    → WfDisk fs.disk
    → WfDisk (write h bytes nbytes fs).1.disk
unfolding write
write-WfDisk h bytes nbytes i fs handle live w =
    let offset = (fs.handles h).offset in
    let (wf, grows) = drafted-WfDisk fs i offset nbytes live w in
    elim (Bool-cases (ltb (block_size * max_file_size) (offset + nbytes))) [
      | inl large ↦ rw (handle, write, large) w
      | inr fits ↦ elim (Bool-cases (drafted fs i offset nbytes).0) [
        | inl more ↦
            rw (handle, write, fits, more)
              (commit-WfDisk h i bytes nbytes (drafted fs i offset nbytes).1 fs wf)
        | inr no_block ↦
            rw (handle, write, fits, no_block)
              (Grows-WfDisk fs.disk (drafted fs i offset nbytes).1.disk grows w)
      ]
    ]
