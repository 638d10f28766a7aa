-- ===== src/Kernel/Syscall.antt =====
-- The system calls of kern/syscall.c.
pub mod Ipc
pub mod Dispatch
pub mod Forking
pub mod Messages
pub mod Mapping
pub mod Sharing
pub mod Isolation
pub mod Status
pub mod Blocking
use csdi_jos.Common.{
  ℕ, ◌+◌, ◌-◌, ◌*◌, ◌/◌, ◌%◌, ◌≡◌, Bool, true, false, not, ◌&&◌, ◌||◌, ◌==◌, leb, ltb, Option, none,
  some, List, ◌∷◌, if◌then◌else◌, update, same_ptr, bit_or,
}
use csdi_jos.Kernel.State.{
  Kernel, Env, Outcome, ret, panic, fault, K, pure, panics, faults, and_then, ◌>>=◌, ◌>>◌, get, put,
  set_env, status_runnable, status_not_runnable,
}
use csdi_jos.Kernel.State.Layout.{
  PushRegs, Trapframe, kern_base, u_top, pg_size, pgnum, round_up, pte_p, pte_w, pte_u, is_neg,
  e_bad_env, e_inval, e_no_mem, e_ipc_not_recv,
}
use csdi_jos.Kernel.Pages.{page_alloc, page_free}
use csdi_jos.Kernel.Vm.{pa2page, page_lookup, page_insert, page_remove, read_pte, user_mem_check}
use csdi_jos.Kernel.Envs.{envid2env, env_alloc}
use csdi_jos.Kernel.Envs.Switch.{env_run}
use csdi_jos.Kernel.Sched.{env_destroy, sched_yield}
use csdi_jos.Kernel.Spinlock.{lock_kernel}
use csdi_jos.Kernel.Console.{cons_getc}

-- Go on with the current environment; a null `curenv` is a fault.
abbrev pub with_curenv : {A : Type 0} → (ℕ → K A) → K A
with_curenv f k = elim k.curenv [ none ↦ fault | some c ↦ f c k ]

-- Go on with an environment that was stored; a null one is a fault.
abbrev pub with_env : {A : Type 0} → Option ℕ → (ℕ → K A) → K A
with_env env f k = elim env [ none ↦ fault | some e ↦ f e k ]

-- `perm & ~PTE_SYSCALL`: any bit but 0, 1, 2, 9, 10 and 11.
abbrev pub outside_syscall : ℕ → Bool
outside_syscall perm = not (perm / 8 % 64 == 0 && perm / 4096 == 0)

unfoldable pub user_mem_assert : (e va len perm : ℕ) → K (Unit {0})
unfolding user_mem_check env_destroy
user_mem_assert e va len perm = do
  k ← get
  r ← user_mem_check (k.envs e) va len (bit_or perm 4)
  if is_neg r then env_destroy e else pure tt

unfoldable pub sys_cputs : (s len : ℕ) → K (Unit {0})
unfolding user_mem_assert
sys_cputs s len =
    with_curenv
      λ c. do user_mem_assert c s len 5; k ← get; put (record k { printed = (s, len) ∷ k.printed })

unfoldable pub sys_cgetc : K ℕ
unfolding cons_getc
sys_cgetc = cons_getc

unfoldable pub sys_getenvid : K ℕ
sys_getenvid = with_curenv λ c k. ret (k.envs c).env_id k

unfoldable pub sys_env_destroy : (envid : ℕ) → K ℕ
unfolding envid2env env_destroy
sys_env_destroy envid = do
  (r, env) ← envid2env envid true
  if is_neg r then pure r else with_curenv λ c. with_env env λ e. (do env_destroy e; pure 0)

-- `PADDR` panics below `KERNBASE`.
unfoldable pub sys_map_kernel_page : (kpage va : ℕ) → K ℕ
unfolding pa2page page_insert
sys_map_kernel_page kpage va = if ltb kpage kern_base then panics else do
  p ← pa2page (pgnum (kpage - kern_base))
  with_curenv λ c k. page_insert (k.envs c).env_pgdir p va 6 k

unfoldable pub sys_yield : K (Unit {0})
unfolding sched_yield
sys_yield = sched_yield

-- What `sys_exofork` makes of a new environment, by the frame of the current one.
unfoldable pub fork_env : Trapframe → Env → Env
fork_env tf env = record env {
  env_status = status_not_runnable;
  env_tf = record tf { tf_regs = record tf.tf_regs { reg_eax = 0 } };
}

-- `sys_exofork` in the environment `c`. The result of `env_alloc` is ignored; `new_env` is then
-- unset.
unfoldable pub finish_fork : (c : ℕ) → ℕ × Option ℕ → K ℕ
unfolding fork_env
finish_fork c (r, new_env) =
    with_env new_env
      λ e k. ret (k.envs e).env_id (set_env e (fork_env (k.envs c).env_tf (k.envs e)) k)

unfoldable pub fork_from : (c : ℕ) → K ℕ
unfolding env_alloc finish_fork
fork_from c k = (env_alloc (k.envs c).env_id >>= finish_fork c) k

unfoldable pub sys_exofork : K ℕ
unfolding fork_from
sys_exofork = with_curenv fork_from

unfoldable pub sys_env_set_status : (envid status : ℕ) → K ℕ
unfolding envid2env
sys_env_set_status envid status = do
  (r, targetenv) ← envid2env envid true
  if is_neg r
      then pure r
      else with_env targetenv λ e k. ret r (set_env e (record (k.envs e) { env_status = status }) k)

unfoldable pub sys_env_set_pgfault_upcall : (envid func : ℕ) → K ℕ
unfolding envid2env
sys_env_set_pgfault_upcall envid func = do
  (r, env) ← envid2env envid true
  if is_neg r
      then pure e_bad_env
      else with_env env λ e k. ret 0 (set_env e (record (k.envs e) { env_pgfault_upcall = func }) k)

-- `sys_page_alloc` once it has a page.
unfoldable pub insert_new : Option ℕ → (new_page va perm : ℕ) → K ℕ
unfolding page_insert page_free
insert_new env new_page va perm = with_env env λ e. do
  k ← get
  r ← page_insert (k.envs e).env_pgdir new_page va perm
  if is_neg r then (do page_free new_page; pure e_no_mem) else pure 0

unfoldable pub sys_page_alloc : (envid va perm : ℕ) → K ℕ
unfolding envid2env page_alloc insert_new
sys_page_alloc envid va perm =
    if not (leb va u_top) || not (va % pg_size == 0) || not (pte_u perm) || not (pte_p perm)
    then pure e_inval
    else do
      (r, env) ← envid2env envid true
      if r == e_bad_env then pure r else do
        page ← page_alloc 1
        elim page [ none ↦ pure e_no_mem | some p ↦ insert_new env p va perm ]

-- `sys_page_map` once it has both environments.
unfoldable pub map_between : (src srcva dst dstva perm : ℕ) → K ℕ
unfolding page_lookup page_insert
map_between src srcva dst dstva perm k =
    (do
      found ← page_lookup (k.envs src).env_pgdir srcva
      k' ← get
      elim found [
        | none ↦ pure e_inval
        | some (pp, pte) ↦ if pte_w perm && not (pte_w (read_pte k' pte)) then pure e_inval else (do
          r ← page_insert (k'.envs dst).env_pgdir pp dstva perm
          if is_neg r then pure e_no_mem else pure 0)
      ])
      k

unfoldable pub sys_page_map : (srcenvid srcva dstenvid dstva perm : ℕ) → K ℕ
unfolding envid2env map_between
sys_page_map srcenvid srcva dstenvid dstva perm =
    if leb u_top srcva
      || not (round_up srcva == srcva)
      || leb u_top dstva
      || not (round_up dstva == dstva)
    then pure e_inval
    else if not (pte_u perm) || not (pte_p perm) || outside_syscall perm
    then pure e_inval
    else do
      (r, srcenv) ← envid2env srcenvid true
      if is_neg r then pure e_bad_env else do
        (s, dstenv) ← envid2env dstenvid true
        if is_neg s
            then pure e_bad_env
            else with_env srcenv λ src. with_env dstenv λ dst. map_between src srcva dst dstva perm

unfoldable pub sys_page_unmap : (envid va : ℕ) → K ℕ
unfolding envid2env page_remove
sys_page_unmap envid va = if leb u_top va || not (round_up va == va) then pure e_inval else do
  (r, env) ← envid2env envid true
  if is_neg r
      then pure e_inval
      else with_env env λ e k. (do page_remove (k.envs e).env_pgdir va; pure 0) k
