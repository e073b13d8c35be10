-- ===== src/Ssufs/Written.antt =====
-- After `ssufs_write` the file has the bytes that were written.
use ssuos_mminos.Base.{
  not-some, pos, ltb, leb, if◌then◌else◌, Bool-cases, Option-cases, ℕ, zero, suc, ◌+◌, ◌-◌, ◌*◌,
  ◌/◌, ◌≤◌, ◌<◌, ◌≡◌, refl, sym, ap, ◌∙◌, ◌≢◌, inl, inr, true, not, ◌&&◌, Option, none, some, arith,
}
use native.Mathlib.Decide.{dec_lt, ℕ_discrete}
use ssuos_mminos.Base.Loops.{find_below}
use ssuos_mminos.Ssufs.{
  block_size, num_inodes, num_data_blocks, max_file_size, Inode, Disk, Fs, write_inode,
}
use ssuos_mminos.Ssufs.Ops.{
  Draft, fill, extend, store, load, zeros, commit, write, Result, ok, failed,
}
use ssuos_mminos.Ssufs.Blocks.{WfDisk}
use ssuos_mminos.Ssufs.Extend.{view, with_block, extend-none, extend-new, extend-stop, extend-old}
use ssuos_mminos.Ssufs.Commit.{draft, drafted, drafted-WfDisk, lseek-disk}
use ssuos_mminos.Ssufs.Contents.{Apart, load-none, load-some, load-store}

-- The first loop leaves the places in front of it as they are.
extend-front : (n k m : ℕ) (w : Draft) (j : ℕ) → j < k → (extend n k m w).1.blocks j ≡ w.blocks j
unfolding extend
extend-front zero k m w j lt = refl
extend-front (suc n) k m w j lt = elim (Option-cases (w.blocks k)) [
  | inr (b, e) ↦ rw (extend-old n k m b w e) (extend-front n (k + 1) m (fill w k b) j (omega arith))
  | inl e ↦ elim (dec_lt k m) [
    | no enough ↦ rw (extend-stop n k m w e (omega arith)) refl
    | yes below ↦
        elim (Option-cases (find_below (λ i. not (w.disk.datablock_freelist i)) num_data_blocks)) [
          | inl none_left ↦ rw (extend-none n k m w e below none_left) refl
          | inr (b, slot) ↦
              let rest = extend-front n (k + 1) m (with_block w k b) j (omega arith) in
              rw (extend-new n k m b w e below slot) (ground (arith, rest))
        ]
  ]
]

some-place : {o : Option ℕ} {b : ℕ} → o ≡ some b → o ≢ none
some-place e f = not-some (sym e ∙ f)

-- When it succeeds, each place below `m` has a block.
extend-whole :
    (n k m : ℕ) (w : Draft) (j : ℕ)
    → (extend n k m w).0 ≡ true
    → k ≤ j
    → j < k + n
    → j < m
    → (extend n k m w).1.blocks j ≢ none
unfolding extend
extend-whole zero k m w j done lo hi lt = absurd (omega arith)
extend-whole (suc n) k m w j done lo hi lt = elim (Option-cases (w.blocks k)) [
  | inr (b, e) ↦
      let eq = extend-old n k m b w e in
      let done' = ap (λ x. x.0) (sym eq) ∙ done in
      rw eq (elim (ℕ_discrete k j) [
        | yes here ↦
            some-place
              (extend-front n (k + 1) m (fill w k b) j (omega arith) ∙ ap w.blocks (sym here) ∙ e)
        | no later ↦ extend-whole n (k + 1) m (fill w k b) j done' (omega arith) (omega arith) lt
      ])
  | inl e ↦
      elim (Option-cases (find_below (λ i. not (w.disk.datablock_freelist i)) num_data_blocks)) [
        | inl none_left ↦
            absurd
              (ground (arith, ap (λ x. x.0) (extend-none n k m w e (omega arith) none_left), done))
        | inr (b, slot) ↦
            let eq = extend-new n k m b w e (omega arith) slot in
            let done' = ap (λ x. x.0) (sym eq) ∙ done in
            let at : (with_block w k b).blocks k ≡ some b = ground arith in
            rw eq (elim (ℕ_discrete k j) [
              | yes here ↦ some-place (
                  extend-front n (k + 1) m (with_block w k b) j (omega arith)
                  ∙ ap (with_block w k b).blocks (sym here)
                  ∙ at)
              | no later ↦
                  extend-whole n (k + 1) m (with_block w k b) j done' (omega arith) (omega arith) lt
            ])
      ]
]

-- `load` reads the contents of the disk only.
load-contents :
    (n i : ℕ) (blocks : ℕ → Option ℕ) (d d' : Disk) (buf : ℕ → ℕ) (k : ℕ)
    → d'.contents ≡ d.contents
    → load n i blocks d' buf k ≡ load n i blocks d buf k
unfolding load
load-contents zero i blocks d d' buf k e = refl
load-contents (suc n) i blocks d d' buf k e = elim (Option-cases (blocks i)) [
  | inl none_at ↦ load-none n i blocks d' buf k none_at ∙ sym (load-none n i blocks d buf k none_at)
  | inr (b, at) ↦
      let with = λ (c : ℕ → ℕ → ℕ) (j : ℕ).
        if leb (block_size * i) j && ltb j (block_size * i + block_size)
        then c b (j - block_size * i)
        else buf j in
      load-some n i b blocks d' buf k at
      ∙ load-contents n (i + 1) blocks d d' (with d'.contents) k e
      ∙ ap (λ c. load n (i + 1) blocks d (with c) k) e
      ∙ sym (load-some n i b blocks d buf k at)
]

-- The bytes of file `i`, as `ssufs_read` loads them.
abbrev pub byte_of : Fs → (i k : ℕ) → ℕ
byte_of fs i k = load max_file_size 0 (fs.disk.inodes i).direct_blocks fs.disk zeros k

committed :
    (h i : ℕ) (bytes : ℕ → ℕ) (nbytes : ℕ) (w : Draft) (fs : Fs) (k : ℕ)
    → Apart w.blocks max_file_size 0
    → ((j : ℕ) → 0 ≤ j → block_size * j ≤ (fs.handles h).offset + k → w.blocks j ≢ none)
    → k < nbytes
    → (fs.handles h).offset + nbytes ≤ block_size * max_file_size
    → byte_of (commit h i bytes nbytes w fs) i ((fs.handles h).offset + k) ≡ bytes k
unfolding commit write_inode
committed h i bytes nbytes w fs k apart whole lt fits =
    let o = (fs.handles h).offset in
    let n = fs.disk.inodes i in
    let buf = λ (j : ℕ). if leb o j && ltb j (o + nbytes) then bytes (j - o) else w.buf j in
    let n' : Inode = record n {
      direct_blocks = w.blocks;
      file_size = if ltb n.file_size (o + nbytes) then o + nbytes else n.file_size;
    } in
    let st = store max_file_size 0 w.blocks buf w.disk in
    let d = write_inode i n' st in
    let own : (d.inodes i).direct_blocks ≡ w.blocks = ground arith in
    let inside : (leb o (o + k) && ltb (o + k) (o + nbytes)) ≡ true = ground arith in
    let first : buf (o + k) ≡ bytes (o + k - o) = rw inside refl in
    let same : o + k - o ≡ k = omega arith in
    ap (λ (x : Disk). load max_file_size 0 (x.inodes i).direct_blocks x zeros (o + k))
      (lseek-disk h (pos nbytes) (record fs { disk = d }))
    ∙ ap (λ r. load max_file_size 0 r d zeros (o + k)) own
    ∙ load-contents max_file_size 0 w.blocks st d zeros (o + k) refl
    ∙ load-store max_file_size 0 w.blocks buf w.disk zeros (o + k) apart whole (omega arith)
        (omega arith)
    ∙ first
    ∙ ap bytes same

view-Apart :
    (i : ℕ) (n : Inode) (w : Draft)
    → i < num_inodes
    → WfDisk (view i n w)
    → Apart w.blocks max_file_size 0
view-Apart i n w lt v = λ j l b lo hi lo' hi' e f.
    (v.once i j i l b lt (omega arith) lt (omega arith) (ground (arith, e)) (ground (arith, f))).1

pub write-ok :
    (h i : ℕ) (bytes : ℕ → ℕ) (nbytes : ℕ) (fs fs' : Fs)
    → (fs.handles h).inode_number ≡ some i
    → write h bytes nbytes fs ≡ (ok, fs')
    → ((drafted fs i (fs.handles h).offset nbytes).0 ≡ true)
      × ((fs.handles h).offset + nbytes ≤ block_size * max_file_size)
      × (fs' ≡ commit h i bytes nbytes (drafted fs i (fs.handles h).offset nbytes).1 fs)
unfolding write
write-ok h i bytes nbytes fs fs' handle e =
    elim (Bool-cases (ltb (block_size * max_file_size) ((fs.handles h).offset + nbytes))) [
      | inl large ↦
          let out : write h bytes nbytes fs ≡ (failed, fs) = rw (handle, write, large) refl in
          absurd (ok-failed (ap (λ x. x.0) (sym e ∙ out)))
      | inr fits ↦ elim (Bool-cases (drafted fs i (fs.handles h).offset nbytes).0) [
        | inr no_block ↦
            let out : write h bytes nbytes fs ≡ (
              failed,
              record fs { disk = (drafted fs i (fs.handles h).offset nbytes).1.disk },
            ) =
              rw (handle, write, fits, no_block) refl in
            absurd (ok-failed (ap (λ x. x.0) (sym e ∙ out)))
        | inl more ↦
            let out : write h bytes nbytes fs
                ≡ (ok, commit h i bytes nbytes (drafted fs i (fs.handles h).offset nbytes).1 fs) =
              rw (handle, write, fits, more) refl in
            (more, ground arith, ap (λ x. x.1) (sym e ∙ out))
      ]
    ]
  where
    ok-failed : ¬ (◌≡◌ {A = Result} ok failed)
    ok-failed eq = ground (arith, eq)

-- On a well-formed disk, when `write` through a handle on a file succeeds, the file has the bytes that
-- were given from the old offset of the handle on.
pub byte_of-write :
    (h i : ℕ) (bytes : ℕ → ℕ) (nbytes k : ℕ) (fs fs' : Fs)
    → WfDisk fs.disk
    → i < num_inodes
    → fs.disk.inode_freelist i ≡ true
    → (fs.handles h).inode_number ≡ some i
    → write h bytes nbytes fs ≡ (ok, fs')
    → k < nbytes
    → byte_of fs' i ((fs.handles h).offset + k) ≡ bytes k
byte_of-write h i bytes nbytes k fs fs' wf lt live handle e below =
    let o = (fs.handles h).offset in
    let (more, fits, result) = write-ok h i bytes nbytes fs fs' handle e in
    let w = (drafted fs i o nbytes).1 in
    let (v, grows) = drafted-WfDisk fs i o nbytes live wf in
    ap (λ x. byte_of x i (o + k)) result
    ∙ committed h i bytes nbytes w fs k (view-Apart i (fs.disk.inodes i) w lt v)
        (λ j lo le.
          extend-whole max_file_size 0 ((o + nbytes - 1) / block_size + 1) (draft fs i) j more lo
            (omega arith) (omega arith))
        below fits
