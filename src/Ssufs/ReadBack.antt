-- ===== src/Ssufs/ReadBack.antt =====
-- `ssufs_write`, `ssufs_lseek` back and `ssufs_read` through one handle.
use ssuos_mminos.Base.{
  ℤ, pos, negsuc, update_self, ltb, leb, if◌then◌else◌, ℕ, ◌+◌, ◌-◌, ◌≤◌, ◌<◌, ◌≡◌, refl, sym, ap,
  ◌∙◌, true, false, ◌&&◌, some, arith,
}
use mathlib.Core.Path.{subst}
use ssuos_mminos.Ssufs.{num_inodes, max_file_size, Inode, Disk, Handle, Fs, write_inode}
use ssuos_mminos.Ssufs.Ops.{
  set_handle, seek_to, Draft, store, load, zeros, lseek, read, commit, write, Result, ok,
}
use ssuos_mminos.Ssufs.Blocks.{WfDisk}
use ssuos_mminos.Ssufs.Commit.{drafted, lseek-disk}
use ssuos_mminos.Ssufs.Written.{byte_of, byte_of-write, write-ok}

-- The handle is on file `i` at `o`, in a file of at least `size` bytes.
record Stands (h i o size : ℕ) (fs : Fs) : Type 0 where
  on_file : (fs.handles h).inode_number ≡ some i
  at : (fs.handles h).offset ≡ o
  long : size ≤ (fs.disk.inodes i).file_size

lseek-Stands :
    (h i o size o' : ℕ) (z : ℤ) (fs : Fs)
    → Stands h i o size fs
    → seek_to o z ≡ pos o'
    → o' ≤ size
    → ((lseek h z fs).0 ≡ ok)
      × Stands h i o' size (lseek h z fs).1
      × ((lseek h z fs).1.disk ≡ fs.disk)
unfolding lseek
lseek-Stands h i o size o' z fs v e le =
    let target : seek_to (fs.handles h).offset z ≡ pos o' = ap (λ x. seek_to x z) v.at ∙ e in
    let inside : ltb (fs.disk.inodes i).file_size o' ≡ false = ground (arith, v.long, le) in
    let handle : Handle = record { offset = o'; inode_number = some i } in
    let moved : lseek h z fs ≡ (ok, set_handle h handle fs) =
      rw (v.on_file, lseek, target, inside)
        (ap {B = Result × Fs}
          (λ x. (ok, set_handle h (record { offset = o'; inode_number = x }) fs)) v.on_file) in
    (
      ap (λ x. x.0) moved,
      subst (Stands h i o' size) (ap (λ x. x.1) (sym moved)) (record {
        on_file = ap (λ x. x.inode_number) (update_self fs.handles h handle);
        at = ap (λ x. x.offset) (update_self fs.handles h handle);
        long = v.long;
      }),
      lseek-disk h z fs,
    )

commit-Stands :
    (h i : ℕ) (bytes : ℕ → ℕ) (nbytes : ℕ) (w : Draft) (fs : Fs)
    → (fs.handles h).inode_number ≡ some i
    → Stands h i
        ((fs.handles h).offset + nbytes)
        ((fs.handles h).offset + nbytes)
        (commit h i bytes nbytes w fs)
unfolding commit write_inode
commit-Stands h i bytes nbytes w fs on =
    let o = (fs.handles h).offset in
    let n = fs.disk.inodes i in
    let buf = λ (j : ℕ). if leb o j && ltb j (o + nbytes) then bytes (j - o) else w.buf j in
    let n' : Inode = record n {
      direct_blocks = w.blocks;
      file_size = if ltb n.file_size (o + nbytes) then o + nbytes else n.file_size;
    } in
    let d = write_inode i n' (store max_file_size 0 w.blocks buf w.disk) in
    let grown : o + nbytes ≤ n'.file_size = ground arith in
    let written : Stands h i o (o + nbytes) (record fs { disk = d }) = record {
      on_file = on;
      at = refl;
      long =
          subst (λ x. o + nbytes ≤ x.file_size)
            (sym (update_self (store max_file_size 0 w.blocks buf w.disk).inodes i n')) grown;
    } in
    (lseek-Stands h i o (o + nbytes) (o + nbytes) (pos nbytes) (record fs { disk = d }) written refl
      (omega arith)).1

read-Stands :
    (h i o size nbytes : ℕ) (fs : Fs)
    → Stands h i o size fs
    → o + nbytes ≤ size
    → ((read h nbytes fs).0 ≡ ok) × ((k : ℕ) → (read h nbytes fs).1 k ≡ byte_of fs i (o + k))
unfolding read
read-Stands h i o size nbytes fs v le =
    let inside : ltb (fs.disk.inodes i).file_size (nbytes + (fs.handles h).offset) ≡ false =
      ground (arith, v.long, v.at, le) in
    rw (v.on_file, read, inside) (refl, λ k. ap (λ x. byte_of fs i (x + k)) v.at)

-- On a well-formed disk, when `write` through a handle on a file succeeds, then `lseek` back by as many
-- bytes succeeds, and `read` succeeds through the same handle and gives the bytes that were written.
pub read-write :
    (h i : ℕ) (bytes : ℕ → ℕ) (nbytes : ℕ) (fs fs' : Fs)
    → WfDisk fs.disk
    → i < num_inodes
    → fs.disk.inode_freelist i ≡ true
    → (fs.handles h).inode_number ≡ some i
    → write h bytes (nbytes + 1) fs ≡ (ok, fs')
    → ((lseek h (negsuc nbytes) fs').0 ≡ ok)
      × ((read h (nbytes + 1) (lseek h (negsuc nbytes) fs').1).0 ≡ ok)
      × ((k : ℕ)
          → k < nbytes + 1
          → (read h (nbytes + 1) (lseek h (negsuc nbytes) fs').1).1 k ≡ bytes k)
read-write h i bytes nbytes fs fs' wf lt live handle e =
    let o = (fs.handles h).offset in
    let (more, fits, result) = write-ok h i bytes (nbytes + 1) fs fs' handle e in
    let there =
      subst (Stands h i (o + (nbytes + 1)) (o + (nbytes + 1))) (sym result)
        (commit-Stands h i bytes (nbytes + 1) (drafted fs i o (nbytes + 1)).1 fs handle) in
    let (back, stands, same) =
      lseek-Stands h i (o + (nbytes + 1)) (o + (nbytes + 1)) o (negsuc nbytes) fs' there
        (ground arith) (omega arith) in
    let (good, gives) =
      read-Stands h i o (o + (nbytes + 1)) (nbytes + 1) (lseek h (negsuc nbytes) fs').1 stands
        (omega arith) in
    (
      back,
      good,
      λ k below.
          gives k
          ∙ ap (λ (d : Disk). load max_file_size 0 (d.inodes i).direct_blocks d zeros (o + k)) same
          ∙ byte_of-write h i bytes (nbytes + 1) k fs fs' wf lt live handle e below,
    )
