-- ===== src/Kernel/Syscall/Dispatch.antt =====
-- `syscall` and `syscall_dummy` of kern/syscall.c, and the numbers of inc/syscall.h.
use csdi_jos.Common.{ℕ, ◌-◌, ◌*◌, ◌/◌, ◌==◌, if◌then◌else◌}
use csdi_jos.Kernel.State.{Env, ret, K, pure, ◌>>=◌, ◌>>◌, set_env}
use csdi_jos.Kernel.State.Layout.{e_inval}
use csdi_jos.Kernel.Envs.Switch.{env_run}
use csdi_jos.Kernel.Spinlock.{lock_kernel}
use csdi_jos.Kernel.Syscall.{
  with_curenv, sys_cputs, sys_cgetc, sys_getenvid, sys_env_destroy, sys_map_kernel_page, sys_yield,
  sys_exofork, sys_env_set_status, sys_env_set_pgfault_upcall, sys_page_alloc, sys_page_map,
  sys_page_unmap,
}
use csdi_jos.Kernel.Syscall.Ipc.{sys_ipc_try_send, sys_ipc_recv}

pub data Call : Type 0 where
  cputs cgetc getenvid env_destroy map_kernel_page page_alloc page_map page_unmap exofork : Call
  env_set_status env_set_pgfault_upcall yield ipc_try_send ipc_recv unknown : Call

-- The labels of the `switch`, in the order of the `enum`.
unfoldable pub call_of : (syscallno : ℕ) → Call
call_of n =
    if n == 0
    then cputs
    else if n == 1
    then cgetc
    else if n == 2
    then getenvid
    else if n == 3
    then env_destroy
    else if n == 4
    then map_kernel_page
    else if n == 5
    then page_alloc
    else if n == 6
    then page_map
    else if n == 7
    then page_unmap
    else if n == 8
    then exofork
    else if n == 9
    then env_set_status
    else if n == 10
    then env_set_pgfault_upcall
    else if n == 11
    then yield
    else if n == 12
    then ipc_try_send
    else if n == 13
    then ipc_recv
    else unknown

unfoldable pub run_call : Call → (a1 a2 a3 a4 a5 : ℕ) → K ℕ
unfolding sys_cputs sys_cgetc sys_getenvid sys_env_destroy sys_map_kernel_page sys_yield sys_exofork
    sys_env_set_status sys_env_set_pgfault_upcall sys_page_alloc sys_page_map sys_page_unmap
    sys_ipc_try_send sys_ipc_recv
run_call cputs a1 a2 a3 a4 a5 = do sys_cputs a1 a2; pure 0
run_call cgetc a1 a2 a3 a4 a5 = sys_cgetc
run_call getenvid a1 a2 a3 a4 a5 = sys_getenvid
run_call env_destroy a1 a2 a3 a4 a5 = sys_env_destroy a1
run_call map_kernel_page a1 a2 a3 a4 a5 = sys_map_kernel_page a1 a2
run_call page_alloc a1 a2 a3 a4 a5 = sys_page_alloc a1 a2 a3
run_call page_map a1 a2 a3 a4 a5 = sys_page_map a1 a2 a3 a4 a5
run_call page_unmap a1 a2 a3 a4 a5 = sys_page_unmap a1 a2
run_call exofork a1 a2 a3 a4 a5 = sys_exofork
run_call env_set_status a1 a2 a3 a4 a5 = sys_env_set_status a1 a2
run_call env_set_pgfault_upcall a1 a2 a3 a4 a5 = sys_env_set_pgfault_upcall a1 a2
run_call yield a1 a2 a3 a4 a5 = do sys_yield; pure 0
run_call ipc_try_send a1 a2 a3 a4 a5 = sys_ipc_try_send a1 a2 a3 a4
run_call ipc_recv a1 a2 a3 a4 a5 = sys_ipc_recv a1
run_call unknown a1 a2 a3 a4 a5 = pure e_inval

-- The fifth argument comes in the upper 24 bits of the number.
unfoldable pub syscall : (syscallno a1 a2 a3 a4 : ℕ) → K ℕ
unfolding call_of run_call
syscall syscallno a1 a2 a3 a4 =
    let a5 = syscallno / 256 in run_call (call_of (syscallno - a5 * 256)) a1 a2 a3 a4 a5

unfoldable pub save_user : (aesp aeip : ℕ) → Env → Env
save_user aesp aeip env = record env { env_tf = record env.env_tf { tf_eip = aeip; tf_esp = aesp } }

unfoldable pub set_eax : (res : ℕ) → Env → Env
set_eax res env = record env {
  env_tf = record env.env_tf { tf_regs = record env.env_tf.tf_regs { reg_eax = res } };
}

-- The lines after `env_run`, which does not return, are left out.
unfoldable pub syscall_dummy : (syscallno a1 a2 a3 a4 aesp aeip : ℕ) → K (Unit {0})
unfolding lock_kernel syscall save_user set_eax env_run
syscall_dummy syscallno a1 a2 a3 a4 aesp aeip = do
  lock_kernel
  with_curenv λ c k. ret tt (set_env c (save_user aesp aeip (k.envs c)) k)
  res ← syscall syscallno a1 a2 a3 a4
  with_curenv λ c k. env_run c (set_env c (set_eax res (k.envs c)) k)
