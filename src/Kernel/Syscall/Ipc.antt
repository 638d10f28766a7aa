-- ===== src/Kernel/Syscall/Ipc.antt =====
-- The system calls of kern/syscall.c that send and receive messages.
use csdi_jos.Common.{
  ℕ, ◌%◌, Bool, true, false, not, ◌&&◌, ◌||◌, ◌==◌, ltb, Option, none, some, if◌then◌else◌,
}
use csdi_jos.Kernel.State.{
  Env, ret, fault, K, pure, ◌>>=◌, ◌>>◌, get, put, set_env, status_runnable, status_not_runnable,
}
use csdi_jos.Kernel.State.Layout.{
  u_top, pg_size, pte_p, pte_w, pte_u, is_neg, e_bad_env, e_inval, e_ipc_not_recv,
}
use csdi_jos.Kernel.Vm.{PtePtr, page_lookup, read_pte}
use csdi_jos.Kernel.Envs.{envid2env}
use csdi_jos.Kernel.Sched.{sched_yield}
use csdi_jos.Kernel.Syscall.{with_curenv, with_env, outside_syscall, sys_page_map}

-- The fields that a message sets in the environment that receives it.
unfoldable pub deliver : (from value perm : ℕ) → Env → Env
deliver from value perm env = record env {
  env_ipc_recving = false;
  env_ipc_from = from;
  env_ipc_value = value;
  env_ipc_perm = if ltb env.env_ipc_dstva u_top then perm else 0;
  env_status = status_runnable;
  env_tf = record env.env_tf { tf_regs = record env.env_tf.tf_regs { reg_eax = 0 } };
}

-- The last lines of `sys_ipc_try_send`.
unfoldable pub finish_send : (e value perm : ℕ) → K ℕ
unfolding deliver
finish_send e value perm =
    with_curenv λ c k. ret 0 (set_env e (deliver (k.envs c).env_id value perm (k.envs e)) k)

-- `perm & PTE_W` with a read-only page; a pointer that `page_lookup` left unset is a fault.
unfoldable pub refuses_write : (perm : ℕ) → Option (ℕ × PtePtr) → K Bool
refuses_write perm found k =
    if pte_w perm
    then elim found [ none ↦ fault | some (page, pte) ↦ ret (not (pte_w (read_pte k pte))) k ]
    else ret false k

-- The page that is sent with the message: the result, `r` if none is asked for.
unfoldable pub send_page : (r e envid srcva perm : ℕ) → K ℕ
unfolding page_lookup refuses_write sys_page_map
send_page r e envid srcva perm =
    if not (srcva % pg_size == 0) || not (pte_u perm) || not (pte_p perm) || outside_syscall perm
    then pure e_inval
    else with_curenv λ c k.
      (do
        found ← page_lookup (k.envs c).env_pgdir srcva
        refused ← refuses_write perm found
        k' ← get
        if refused
            then pure e_inval
            else if ltb (k'.envs e).env_ipc_dstva u_top
            then sys_page_map (k'.envs c).env_id srcva envid (k'.envs e).env_ipc_dstva perm
            else pure r)
        k

unfoldable pub sys_ipc_try_send : (envid value srcva perm : ℕ) → K ℕ
unfolding envid2env send_page finish_send
sys_ipc_try_send envid value srcva perm = do
  (r, env) ← envid2env envid false
  if is_neg r
      then pure e_bad_env
      else with_env env λ e k.
        (if not ((k.envs e).env_ipc_from == 0) || not (k.envs e).env_ipc_recving
            then pure e_ipc_not_recv
            else if ltb srcva u_top
            then (do
              s ← send_page r e envid srcva perm
              if is_neg s then pure s else finish_send e value perm)
            else finish_send e value perm)
          k

unfoldable pub start_recv : (dstva : ℕ) → Env → Env
start_recv dstva env = record env {
  env_ipc_recving = true;
  env_ipc_dstva = dstva;
  env_ipc_from = 0;
  env_status = status_not_runnable;
}

-- `sys_ipc_recv` in the environment `c`.
unfoldable pub wait_for : (dstva c : ℕ) → K ℕ
unfolding start_recv sched_yield
wait_for dstva c k = (do put (set_env c (start_recv dstva (k.envs c)) k); sched_yield; pure 0) k

unfoldable pub sys_ipc_recv : (dstva : ℕ) → K ℕ
unfolding wait_for
sys_ipc_recv dstva =
    if ltb dstva u_top && not (dstva % pg_size == 0)
    then pure e_inval
    else with_curenv (wait_for dstva)
