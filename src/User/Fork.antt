-- ===== src/User/Fork.antt =====
-- lab4/lib/fork.c and lab4/lib/pgfault.c, on the kernel's state: a system call is the kernel's
-- function, and the user's view of its page tables reads the tables of the current environment.
pub mod Sharing
use csdi_jos.Common.{
  ℕ, zero, suc, ◌+◌, ◌-◌, ◌*◌, ◌/◌, ◌%◌, ◌^◌, Bool, not, ◌&&◌, ◌||◌, ◌==◌, leb, none, some,
  if◌then◌else◌,
}
use csdi_jos.Kernel.State.{
  ret, fault, K, pure, panics, faults, and_then, ◌>>=◌, ◌>>◌, get, put, set_frame, status_runnable,
}
use csdi_jos.Kernel.State.Layout.{
  u_top, pg_size, pdx, ptx, round_down, pte_p, pte_w, pte_u, pte_frame, is_neg,
}
use csdi_jos.Kernel.Syscall.{
  with_curenv, sys_page_alloc, sys_page_map, sys_exofork, sys_env_set_status,
  sys_env_set_pgfault_upcall,
}

-- `UTEMP + PTSIZE - PGSIZE`
abbrev pub pftemp : ℕ
pftemp = 0x7f_f000

-- `PTE_COW`
abbrev pub pte_cow : ℕ → Bool
pte_cow pte = pte / 2048 % 2 == 1

abbrev pub perm_user : ℕ
perm_user = 4 + 1

abbrev pub perm_write : ℕ
perm_write = 4 + 1 + 2

abbrev pub perm_cow : ℕ
perm_cow = 4 + 1 + 2048

-- `vpd[PDX(addr)]`
abbrev pub vpd_entry : (addr : ℕ) → K ℕ
vpd_entry addr = with_curenv λ c k. elim (k.envs c).env_pgdir [
  | none ↦ fault
  | some pgdir ↦ ret (k.frames pgdir (pdx addr)) k
]

-- `vpt[PGNUM(addr)]`, which faults where the page table is absent.
abbrev pub vpt_entry : (addr : ℕ) → K ℕ
vpt_entry addr = vpd_entry addr >>= λ pde k.
    if pte_p pde then ret (k.frames (pte_frame pde) (ptx addr)) k else fault

-- A system call whose failure is a panic.
abbrev pub or_panic : K ℕ → K (Unit {0})
or_panic call = call >>= λ r. if is_neg r then panics else pure tt

-- The calls for a page with the entry `pte`.
unfoldable pub share_page : (envid addr pte : ℕ) → K ℕ
unfolding sys_page_map
share_page envid addr pte =
    if pte_w pte || pte_cow pte
    then (do
      or_panic (sys_page_map 0 addr envid addr perm_cow)
      or_panic (sys_page_map 0 addr 0 addr perm_cow)
      pure 0)
    else (do or_panic (sys_page_map 0 addr envid addr perm_user); pure 0)

-- `duppage` from the entry of the page table on.
unfoldable pub dup_entry : (envid addr pte : ℕ) → K ℕ
unfolding share_page
dup_entry envid addr pte = if not (pte_p pte) then pure 0 else share_page envid addr pte

-- `duppage` from the entry of the directory on.
unfoldable pub dup_table : (envid addr pde : ℕ) → K ℕ
unfolding dup_entry
dup_table envid addr pde =
    if not (pte_p pde) then pure 0 else (vpt_entry addr >>= λ pte. dup_entry envid addr pte)

unfoldable pub dup_address : (envid addr : ℕ) → K ℕ
unfolding dup_table
dup_address envid addr =
    if leb u_top addr then panics else (vpd_entry addr >>= λ pde. dup_table envid addr pde)

unfoldable pub duppage : (envid pn : ℕ) → K ℕ
unfolding dup_address
duppage envid pn = dup_address envid (pn * pg_size % 2 ^ 32)

-- The loop of `fork`, for `n` pages from `pn` on.
unfoldable pub dup_pages : (envid n pn : ℕ) → K (Unit {0})
unfolding duppage
dup_pages envid zero pn = pure tt
dup_pages envid (suc n) pn = do duppage envid pn; dup_pages envid n (suc pn)

-- What the parent does once it has a child; `upcall` is the address of `_pgfault_upcall`.
unfoldable pub finish_fork : (upcall envid : ℕ) → K ℕ
unfolding dup_pages sys_page_alloc sys_env_set_pgfault_upcall sys_env_set_status
finish_fork upcall envid = do
  dup_pages envid (u_top / pg_size - 1) 0
  or_panic (sys_page_alloc envid (u_top - pg_size) perm_write)
  or_panic (sys_env_set_pgfault_upcall envid upcall)
  sys_env_set_status envid status_runnable
  pure envid

-- `set_pgfault_handler`, with whether there is a handler already.
unfoldable pub set_pgfault_handler : (upcall : ℕ) → (installed : Bool) → K (Unit {0})
unfolding sys_page_alloc sys_env_set_pgfault_upcall
set_pgfault_handler upcall installed = if installed then pure tt else do
  or_panic (sys_page_alloc 0 (u_top - pg_size) perm_write)
  sys_env_set_pgfault_upcall 0 upcall
  pure tt

-- The parent's and the child's way through `fork` part at the result of `sys_exofork`.
unfoldable pub fork : (upcall : ℕ) → (installed : Bool) → K ℕ
unfolding set_pgfault_handler sys_exofork finish_fork
fork upcall installed = do
  set_pgfault_handler upcall installed
  envid ← sys_exofork
  if is_neg envid then panics else if envid == 0 then pure 0 else finish_fork upcall envid

-- `memmove(dst, src, PGSIZE)` of whole pages by the user.
abbrev pub copy_page : (dst src : ℕ) → K (Unit {0})
copy_page dst src = do
  to ← vpt_entry dst
  from ← vpt_entry src
  k ← get
  if pte_p to && pte_p from
      then put (set_frame (pte_frame to) (k.frames (pte_frame from)) k)
      else faults

-- The handler, for the address that faulted. The first of the two allocations is not looked at.
unfoldable pub pgfault : (addr : ℕ) → K (Unit {0})
unfolding sys_page_alloc sys_page_map
pgfault addr = do
  pde ← vpd_entry addr
  pte ← vpt_entry addr
  if not (pte_p pde) then panics else do
    if not (pte_u pte) && not (pte_p pte) && not (pte_cow pte) then panics else do
      sys_page_alloc 0 pftemp perm_write
      or_panic (sys_page_alloc 0 pftemp perm_write)
      copy_page pftemp (round_down addr)
      or_panic (sys_page_map 0 pftemp 0 (round_down addr) perm_write)
