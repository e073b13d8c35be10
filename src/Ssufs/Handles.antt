-- ===== src/Ssufs/Handles.antt =====
-- The handles: a closed one has offset 0, and an offset does not go beyond its file.
use ssuos_mminos.Base.{
  not-some, ℤ, pos, negsuc, ltb, Bool-cases, Option-cases, ℕ, ◌≤◌, ◌<◌, ◌≡◌, refl, sym, ap, ◌∙◌,
  ◌≢◌, ◌⊎◌, inl, inr, true, false, Option, none, some, List, arith,
}
use ssuos_mminos.Base.Loops.{find_below-some, find_below-least}
use ssuos_mminos.Ssufs.{Fs, open_namei}
use ssuos_mminos.Ssufs.Ops.{
  max_open_files, set_handle, is_closed, alloc_file_handle, open_file, seek_to, Result, ok, failed,
  lseek,
}

-- Every closed handle has offset 0.
abbrev pub Rested : Fs → Type 0
Rested fs = (h : ℕ) → is_closed (fs.handles h) ≡ true → (fs.handles h).offset ≡ 0

open_file-none :
    (name : List ℕ) (fs : Fs) → open_namei name fs.disk ≡ none → open_file name fs ≡ (none, fs)
unfolding open_file
open_file-none name fs e = rw (e, open_file)

open_file-full :
    (name : List ℕ) (fs : Fs) (i : ℕ)
    → open_namei name fs.disk ≡ some i
    → alloc_file_handle fs ≡ none
    → open_file name fs ≡ (none, fs)
unfolding open_file
open_file-full name fs i e f = rw (e, open_file, f)

open_file-at :
    (name : List ℕ) (fs : Fs) (i h : ℕ)
    → open_namei name fs.disk ≡ some i
    → alloc_file_handle fs ≡ some h
    → open_file name fs
      ≡ (some h, set_handle h (record (fs.handles h) { inode_number = some i }) fs)
unfolding open_file
open_file-at name fs i h e f = rw (e, open_file, f)

-- What a call that opens a file gives: the lowest closed handle, at the start of the file.
pub record Opened (name : List ℕ) (fs : Fs) (h : ℕ) (fs' : Fs) : Type 0 where
  pub inode : ℕ
  pub found_at : open_namei name fs.disk ≡ some inode
  pub below : h < max_open_files
  pub was_closed : is_closed (fs.handles h) ≡ true
  pub lowest : (k : ℕ) → k < h → is_closed (fs.handles k) ≡ false
  pub handle : fs'.handles h ≡ record { offset = 0; inode_number = some inode }
  pub others : (k : ℕ) → h ≢ k → fs'.handles k ≡ fs.handles k
  pub same_disk : fs'.disk ≡ fs.disk
  pub rested : Rested fs'

-- When closed handles have offset 0, a file that is opened gets the lowest closed handle, with offset
-- 0. No other handle and nothing on the disk changes, and closed handles still have offset 0.
pub open_file-Opened :
    (name : List ℕ) (fs : Fs) (h : ℕ) (fs' : Fs)
    → Rested fs
    → open_file name fs ≡ (some h, fs')
    → Opened name fs h fs'
unfolding alloc_file_handle
open_file-Opened name fs h fs' rested e = elim (Option-cases (open_namei name fs.disk)) [
  | inl new ↦
      absurd (not-some (ap (λ (x : Option ℕ × Fs). x.0) (sym e ∙ open_file-none name fs new)))
  | inr (i, at) ↦ elim (Option-cases (alloc_file_handle fs)) [
    | inl full ↦
        absurd
          (not-some (ap (λ (x : Option ℕ × Fs). x.0) (sym e ∙ open_file-full name fs i at full)))
    | inr (k, slot) ↦
        let both = sym e ∙ open_file-at name fs i k at slot in
        let same : h ≡ k = ground (arith, both) in
        let file : fs' ≡ set_handle k (record (fs.handles k) { inode_number = some i }) fs =
          ap (λ (x : Option ℕ × Fs). x.1) both in
        let (lt, on) = find_below-some (λ j. is_closed (fs.handles j)) max_open_files k slot in
        let zero_offset = rested k on in
        rw (file, same)
          (record {
            inode = i;
            found_at = at;
            below = lt;
            was_closed = on;
            lowest = λ j less.
                find_below-least (λ l. is_closed (fs.handles l)) max_open_files k j slot less;
            handle = ground (arith, zero_offset);
            others = λ j ne. ground arith;
            same_disk = refl;
            rested = λ j shut. ground (arith, rested j);
          })
  ]
]

sign : (z : ℤ) → ((n : ℕ) × (z ≡ pos n)) ⊎ ((n : ℕ) × (z ≡ negsuc n))
sign (pos n) = inl (n, refl)
sign (negsuc n) = inr (n, refl)

pos-inj : {n m : ℕ} → pos n ≡ pos m → n ≡ m
pos-inj e = ground (arith, e)

pos-negsuc : {n m : ℕ} → ¬ (pos n ≡ negsuc m)
pos-negsuc e = ground (arith, e)

-- What `lseek` gives on an open handle.
pub Seeks : (h : ℕ) → ℤ → (file_size : ℕ) → Fs → Result × Fs → Type 0
Seeks h z size fs (r, fs') =
    ((r ≡ ok)
      × (seek_to (fs.handles h).offset z ≡ pos (fs'.handles h).offset)
      × ((fs'.handles h).offset ≤ size)
      × ((fs'.handles h).inode_number ≡ (fs.handles h).inode_number)
      × ((k : ℕ) → h ≢ k → fs'.handles k ≡ fs.handles k)
      × (fs'.disk ≡ fs.disk))
    ⊎ ((r ≡ failed) × (fs' ≡ fs) × ((o : ℕ) → seek_to (fs.handles h).offset z ≡ pos o → size < o))

-- `lseek` on an open handle moves the offset by the given number when that stays within the file, and
-- fails and changes nothing otherwise.
pub lseek-Seeks :
    (h i : ℕ) (z : ℤ) (fs : Fs)
    → (fs.handles h).inode_number ≡ some i
    → Seeks h z (fs.disk.inodes i).file_size fs (lseek h z fs)
unfolding Seeks lseek
lseek-Seeks h i z fs e = elim (sign (seek_to (fs.handles h).offset z)) [
  | inr (n, at) ↦ rw (e, lseek, at) (inr (refl, refl, λ o f. absurd (pos-negsuc (sym f))))
  | inl (o, at) ↦ elim (Bool-cases (ltb (fs.disk.inodes i).file_size o)) [
    | inl beyond ↦
        rw (e, lseek, at, beyond) (inr (refl, refl, λ o' f. let same = pos-inj f in ground arith))
    | inr within ↦
        rw (e, lseek, at, within)
          (inl (refl, ground arith, ground arith, ground arith, λ k ne. ground arith, refl))
  ]
]
