-- ===== src/Ssufs/Names.antt =====
-- The names of files: what `create` leaves to be found.
use ssuos_mminos.Base.{
  not-some, ltb, Option-cases, update, length, take, ℕ, zero, suc, ◌≤◌, ◌<◌, ◌≡◌, refl, sym, ap,
  ◌∙◌, inl, inr, true, false, not, Option, none, some, List, [], ◌∷◌, arith,
}
use native.Mathlib.Decide.{ℕ_discrete}
use ssuos_mminos.Base.Loops.{find_below, find_below-some, find_below-none, find_below_unique}
use ssuos_mminos.Ssufs.{
  num_inodes, max_name_strlen, Inode, Disk, Fs, same_name, seen_name, named, open_namei,
  alloc_inode, write_inode,
}
use ssuos_mminos.Ssufs.Ops.{create}

same_name_self : (xs : List ℕ) → same_name xs xs ≡ true
unfolding same_name
same_name_self [] = refl
same_name_self (x ∷ xs) = ground (arith, same_name_self xs)

take-all : (n : ℕ) (xs : List ℕ) → length xs ≤ n → take n xs ≡ xs
take-all zero [] le = refl
take-all zero (x ∷ xs) le = absurd (omega arith)
take-all (suc n) [] le = refl
take-all (suc n) (x ∷ xs) le = ap (λ ys. x ∷ ys) (take-all n xs (omega arith))

alloc_inode-at :
    (d : Disk) (i : ℕ)
    → find_below (λ k. not (d.inode_freelist k)) num_inodes ≡ some i
    → alloc_inode d ≡ (some i, record d { inode_freelist = update d.inode_freelist i true })
unfolding alloc_inode
alloc_inode-at d i e = rw (e, alloc_inode)

alloc_inode-none :
    (d : Disk)
    → find_below (λ k. not (d.inode_freelist k)) num_inodes ≡ none
    → alloc_inode d ≡ (none, d)
unfolding alloc_inode
alloc_inode-none d e = rw (e, alloc_inode)

-- the inode of a new file
abbrev pub new_file : List ℕ → Inode
new_file name = record {
  status = true;
  name = take max_name_strlen name;
  file_size = 0;
  direct_blocks = λ k. none;
}

-- the disk with a new file in slot `i`
abbrev pub added : List ℕ → ℕ → Disk → Disk
added name i d = record d {
  inode_freelist = update d.inode_freelist i true;
  inodes = update d.inodes i (new_file name);
}

create-exists :
    (name : List ℕ) (fs : Fs) (i : ℕ)
    → open_namei name fs.disk ≡ some i
    → create name fs ≡ (none, fs)
unfolding create
create-exists name fs i e = rw (e, create)

create-full :
    (name : List ℕ) (fs : Fs)
    → open_namei name fs.disk ≡ none
    → find_below (λ k. not (fs.disk.inode_freelist k)) num_inodes ≡ none
    → create name fs ≡ (none, fs)
unfolding create
create-full name fs new full =
    let at = alloc_inode-none fs.disk full in
    rw (new, create, at) (ap (λ (x : Option ℕ × Disk). (none, record fs { disk = x.1 })) at)

pub create-free :
    (name : List ℕ) (fs : Fs) (i : ℕ)
    → open_namei name fs.disk ≡ none
    → find_below (λ k. not (fs.disk.inode_freelist k)) num_inodes ≡ some i
    → create name fs ≡ (some i, record fs { disk = added name i fs.disk })
unfolding create write_inode
create-free name fs i new slot =
    let at = alloc_inode-at fs.disk i slot in
    rw (new, create, at)
      (ap
        (λ (x : Option ℕ × Disk). (some i, record fs { disk = write_inode i (new_file name) x.1 }))
        at)

-- What `create` does: it fails and changes nothing when the file is there or no inode is free, and
-- otherwise takes the first free inode.
pub data Created (name : List ℕ) (fs : Fs) (r : Option ℕ × Fs) : Type 0 where
  exists : (i : ℕ) → open_namei name fs.disk ≡ some i → r ≡ (none, fs) → Created name fs r
  full :
      ((k : ℕ) → k < num_inodes → fs.disk.inode_freelist k ≡ true)
      → r ≡ (none, fs)
      → Created name fs r
  made :
      (i : ℕ)
      → i < num_inodes
      → fs.disk.inode_freelist i ≡ false
      → open_namei name fs.disk ≡ none
      → r ≡ (some i, record fs { disk = added name i fs.disk })
      → Created name fs r

pub create-Created : (name : List ℕ) (fs : Fs) → Created name fs (create name fs)
create-Created name fs = elim (Option-cases (open_namei name fs.disk)) [
  | inr (i, e) ↦ exists i e (create-exists name fs i e)
  | inl new ↦ elim (Option-cases (find_below (λ k. not (fs.disk.inode_freelist k)) num_inodes)) [
    | inl none_free ↦
        full
          (λ k lt. ground (
            arith,
            find_below-none (λ k. not (fs.disk.inode_freelist k)) num_inodes k none_free lt,
          ))
          (create-full name fs new none_free)
    | inr (i, e) ↦
        let (lt, on) = find_below-some (λ k. not (fs.disk.inode_freelist k)) num_inodes i e in
        made i lt (ground arith) new (create-free name fs i new e)
  ]
]

open_namei-short :
    (name : List ℕ) (d : Disk)
    → length name ≤ max_name_strlen
    → open_namei name d ≡ find_below (named name d) num_inodes
unfolding open_namei
open_namei-short name d le =
    let e : ltb max_name_strlen (length name) ≡ false = ground arith in rw e

open_namei-long :
    (name : List ℕ) (d : Disk) → max_name_strlen < length name → open_namei name d ≡ none
unfolding open_namei
open_namei-long name d lt = let e : ltb max_name_strlen (length name) ≡ true = ground arith in rw e

named-added :
    (name : List ℕ) (d : Disk) (i : ℕ)
    → length name ≤ max_name_strlen
    → named name (added name i d) i ≡ true
unfolding seen_name
named-added name d i le =
    let all = take-all max_name_strlen name le in
    let self = same_name_self name in ground (arith, all, self)

-- No other inode has the name.
only :
    (name : List ℕ) (d : Disk) (i : ℕ)
    → find_below (named name d) num_inodes ≡ none
    → (k : ℕ) → k < num_inodes
    → named name (added name i d) k ≡ true
    → k ≡ i
only name d i none_has k lt on = elim (ℕ_discrete i k) [
  | yes same ↦ sym same
  | no other ↦
      let off = find_below-none (named name d) num_inodes k none_has lt in
      absurd (ground (arith, off, on))
]

-- Right after `create` has made a file with a name of at most 8 characters and returned its inode, when the
-- file has no blocks yet, `open_namei` finds this inode under the name.
pub open_namei-create :
    (name : List ℕ) (fs : Fs) (i : ℕ) (fs' : Fs)
    → length name ≤ max_name_strlen
    → create name fs ≡ (some i, fs')
    → open_namei name fs'.disk ≡ some i
open_namei-create name fs i fs' le e = elim (create-Created name fs) [
  | exists j at r ↦ absurd (not-some (ap (λ (x : Option ℕ × Fs). x.0) (sym e ∙ r)))
  | full all r ↦ absurd (not-some (ap (λ (x : Option ℕ × Fs). x.0) (sym e ∙ r)))
  | made j lt free new r ↦
      let both = sym e ∙ r in
      let same : i ≡ j = ground (arith, both) in
      let file : fs' ≡ record fs { disk = added name j fs.disk } =
        ap (λ (x : Option ℕ × Fs). x.1) both in
      rw (file, same, open_namei-short name (added name j fs.disk) le)
        (find_below_unique (named name (added name j fs.disk)) num_inodes j lt
          (named-added name fs.disk j le)
          (only name fs.disk j (sym (open_namei-short name fs.disk le) ∙ new)))
]

-- `create` takes a name of more than 8 characters, and the file cannot be found under it.
pub open_namei-create_long :
    (name : List ℕ) (fs : Fs)
    → max_name_strlen < length name
    → (k : ℕ) → k < num_inodes
    → fs.disk.inode_freelist k ≡ false
    → (i : ℕ) × (fs' : Fs) × (create name fs ≡ (some i, fs')) × (open_namei name fs'.disk ≡ none)
open_namei-create_long name fs long k lt free = elim (create-Created name fs) [
  | exists j at r ↦ absurd (not-some (sym at ∙ open_namei-long name fs.disk long))
  | full all r ↦ absurd (ground (arith, all k lt))
  | made j lt' free' new r ↦ (
    j,
    record fs { disk = added name j fs.disk },
    r,
    open_namei-long name (added name j fs.disk) long,
  )
]
