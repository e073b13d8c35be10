-- ===== src/Syscall/Info.antt =====
-- What `get_proc_info` leaves in the memory of the process that calls it.
use ssuos_mminos.Base.{
  pos, minus_one, ◌==◌, Option-cases, ℕ, ◌+◌, ◌≤◌, ◌<◌, ◌≡◌, refl, sym, ap, ◌∙◌, ◌≢◌, ◌⊎◌, inl, inr,
  some, arith,
}
use ssuos_mminos.Base.Loops.{find_below, find_below-some, find_below-least}
use ssuos_mminos.Proc.{Proc, Table, nproc}
use ssuos_mminos.Proc.Query.{ProcessInfo, get_proc_info}
use ssuos_mminos.Syscall.{
  System, returns, failed, size_of, arg, argptr, no_info, after_info, store_info, sys_get_proc_info,
}
use ssuos_mminos.Syscall.Pointers.{argptr-inside}
use ssuos_mminos.Syscall.Stores.{Holds, IsInfo, store_info-outside, store_info-Holds}

abbrev pub info_of : Proc → ProcessInfo
info_of p = record { pid = p.pid; ppid = p.ppid; psize = p.sz; nswitch = p.nswitch }

-- The first slot with the pid.
abbrev pub FirstWith : ℕ → Table → ℕ → Type 0
FirstWith pid t i = (i < nproc) × ((t.proc i).pid ≡ pid) × ((j : ℕ) → j < i → (t.proc j).pid ≢ pid)

get_proc_info-cases :
    (pid : ℕ) (t : Table)
    → (get_proc_info pid t no_info ≡ (minus_one, no_info))
      ⊎ ((i : ℕ) × FirstWith pid t i × (get_proc_info pid t no_info ≡ (pos 0, info_of (t.proc i))))
unfolding get_proc_info
get_proc_info-cases pid t = elim (Option-cases (find_below (λ i. (t.proc i).pid == pid) nproc)) [
  | inl missing ↦ inl (rw (missing, get_proc_info) refl)
  | inr (i, is) ↦
      let (lt, at) = find_below-some (λ j. (t.proc j).pid == pid) nproc i is in
      inr (
        i,
        (
          lt,
          ground (arith, at),
          λ j less same.
              ground (arith, find_below-least (λ j. (t.proc j).pid == pid) nproc i j is less, same),
        ),
        rw (is, get_proc_info) refl,
      )
]

-- When a process of at most 2 GB calls `get_proc_info` with `pid` and gets 0, there is a slot with the
-- pid; the 16 bytes at the pointer lie in the memory of the process and hold the fields of the first such
-- slot, if these fit into words; and no other byte of memory and nothing in the table has changed.
pub sys_get_proc_info-filled :
    (cur pid : ℕ) (s s' : System)
    → size_of cur s ≤ 2147483648
    → arg cur 0 s ≡ some pid
    → sys_get_proc_info cur s ≡ returns 0 s'
    → ((j : ℕ) → IsInfo (info_of (s.table.proc j)))
    → (p i : ℕ) × (argptr (size_of cur s) s.esp 1 (pos 16) s.bytes ≡ some p)
      × (p + 16 ≤ size_of cur s)
      × FirstWith pid s.table i
      × Holds p (info_of (s.table.proc i)) s'.bytes
      × ((b : ℕ) → (b < p) ⊎ (p + 16 ≤ b) → s'.bytes b ≡ s.bytes b)
      × (s'.table ≡ s.table)
unfolding sys_get_proc_info
sys_get_proc_info-filled cur pid s s' small is e fits =
    elim (Option-cases (argptr (size_of cur s) s.esp 1 (pos 16) s.bytes)) [
      | inl refused ↦ absurd (ground (arith, e, is, refused))
      | inr (p, at) ↦
          let runs : sys_get_proc_info cur s ≡ after_info p s (get_proc_info pid s.table no_info) =
            rw (is, at, sys_get_proc_info) refl in
          elim (get_proc_info-cases pid s.table) [
            | inl missing ↦
                let fails : failed s ≡ returns 0 s' =
                  sym (runs ∙ ap (after_info p s) missing) ∙ e in
                absurd (ground (arith, fails))
            | inr (i, first, found) ↦
                let ends : after_info p s (pos 0, info_of (s.table.proc i)) ≡ returns 0 s' =
                  sym (runs ∙ ap (after_info p s) found) ∙ e in
                let memory : s'.bytes ≡ store_info p (info_of (s.table.proc i)) s.bytes =
                  ground (arith, ends) in
                let table : s'.table ≡ s.table = ground (arith, ends) in
                (
                  p,
                  i,
                  at,
                  (argptr-inside (size_of cur s) s.esp 1 16 p s.bytes small (omega arith) at).1,
                  first,
                  rw memory (store_info-Holds p (info_of (s.table.proc i)) s.bytes (fits i)),
                  λ b far.
                      rw memory (store_info-outside p b (info_of (s.table.proc i)) s.bytes far),
                  table,
                )
          ]
    ]
