-- ===== src/Kernel/Trap.antt =====
-- kern/trap.c: what the kernel does with a trap, less the interrupt descriptors and the printing.
pub mod Frame
pub mod Ends
use csdi_jos.Common.{
  ℕ, ◌+◌, ◌-◌, ◌*◌, ◌/◌, ◌%◌, ◌^◌, Bool, not, ◌&&◌, ◌==◌, leb, none, some, if◌then◌else◌,
}
use csdi_jos.Kernel.State.{
  Env, ret, panic, monitor, K, pure, panics, and_then, ◌>>=◌, ◌>>◌, get, put, set_env, set_word,
  status_dying, status_running,
}
use csdi_jos.Kernel.State.Layout.{
  PushRegs, Trapframe, u_top, pg_size, pdx, ptx, pg_off, pte_p, pte_w, pte_frame, add32, sub32,
}
use csdi_jos.Kernel.Envs.Switch.{env_run}
use csdi_jos.Kernel.Envs.Free.{env_free}
use csdi_jos.Kernel.Sched.{sched_yield, env_destroy}
use csdi_jos.Kernel.Spinlock.{lock_kernel}
use csdi_jos.Kernel.Syscall.{with_curenv, user_mem_assert}
use csdi_jos.Kernel.Syscall.Dispatch.{syscall, set_eax}

-- The top of the exception stack, and `sizeof(struct UTrapframe)`.
abbrev pub ux_stack_top : ℕ
ux_stack_top = u_top

abbrev pub utf_size : ℕ
utf_size = 52

-- Byte `j` of a word replaced.
abbrev pub set_byte : (j b w : ℕ) → ℕ
set_byte j b w = w - w / 256 ^ j % 256 * 256 ^ j + b * 256 ^ j

-- The kernel's write of a byte through the current page directory; where no writable page is mapped,
-- it faults in kernel mode, which is a panic.
unfoldable pub store_byte : (va b : ℕ) → K (Unit {0})
store_byte va b = do
  k ← get
  let pde = k.frames k.cr3 (pdx va)
  let pte = k.frames (pte_frame pde) (ptx va)
  let i = pg_off va / 4
  if pte_p pde && pte_w pde && pte_p pte && pte_w pte
      then put (set_word (pte_frame pte) i (set_byte (va % 4) b (k.frames (pte_frame pte) i)) k)
      else panics

unfoldable pub store_word : (va w : ℕ) → K (Unit {0})
unfolding store_byte
store_word va w = do
  store_byte va (w % 256)
  store_byte (add32 va 1) (w / 256 % 256)
  store_byte (add32 va 2) (w / 256 ^ 2 % 256)
  store_byte (add32 va 3) (w / 256 ^ 3 % 256)

-- `*((struct PushRegs *)esp) = tf->tf_regs`
unfoldable pub store_regs : (esp : ℕ) → PushRegs → K (Unit {0})
unfolding store_word
store_regs esp regs = do
  store_word esp regs.reg_edi
  store_word (add32 esp 4) regs.reg_esi
  store_word (add32 esp 8) regs.reg_ebp
  store_word (add32 esp 12) regs.reg_oesp
  store_word (add32 esp 16) regs.reg_ebx
  store_word (add32 esp 20) regs.reg_edx
  store_word (add32 esp 24) regs.reg_ecx
  store_word (add32 esp 28) regs.reg_eax

-- Did the fault happen on the exception stack?
abbrev pub on_ux_stack : (esp : ℕ) → Bool
on_ux_stack esp = leb (ux_stack_top - pg_size) esp && leb esp ux_stack_top

-- The range that `user_mem_assert` is asked for: its start and its length.
unfoldable pub asserted : (esp : ℕ) → ℕ × ℕ
asserted esp =
    if on_ux_stack esp
    then (sub32 esp (utf_size + 4), utf_size + 4)
    else (sub32 ux_stack_top utf_size, utf_size)

-- `esp` before the pushes.
unfoldable pub push_base : (esp : ℕ) → ℕ
push_base esp = if on_ux_stack esp then sub32 esp 4 else ux_stack_top

-- The pushes, from `esp` down; the new `esp`.
unfoldable pub push_frame : (fault_va esp : ℕ) → Trapframe → K ℕ
unfolding store_word store_regs
push_frame fault_va esp tf = do
  let esp1 = sub32 esp 4
  store_word esp1 tf.tf_esp
  let esp2 = sub32 esp1 4
  store_word esp2 tf.tf_eflags
  let esp3 = sub32 esp2 4
  store_word esp3 tf.tf_eip
  let esp4 = sub32 esp3 32
  store_regs esp4 tf.tf_regs
  let esp5 = sub32 esp4 4
  store_word esp5 tf.tf_err
  let esp6 = sub32 esp5 4
  store_word esp6 fault_va
  pure esp6

unfoldable pub set_upcall : (esp : ℕ) → Env → Env
set_upcall esp env = record env {
  env_tf = record env.env_tf { tf_eip = env.env_pgfault_upcall; tf_esp = esp };
}

-- `page_fault_handler` where there is an upcall.
unfoldable pub run_upcall : (fault_va : ℕ) → Trapframe → (c : ℕ) → K (Unit {0})
unfolding asserted push_base push_frame set_upcall user_mem_assert env_run
run_upcall fault_va tf c = do
  user_mem_assert c (asserted tf.tf_esp).0 (asserted tf.tf_esp).1 7
  esp ← push_frame fault_va (push_base tf.tf_esp) tf
  with_curenv λ c' k. env_run c' (set_env c' (set_upcall esp (k.envs c')) k)

-- `fault_va` is what register CR2 holds.
unfoldable pub page_fault_handler : (fault_va : ℕ) → Trapframe → K (Unit {0})
unfolding run_upcall env_destroy
page_fault_handler fault_va tf =
    if tf.tf_cs % 4 == 0
    then panics
    else with_curenv λ c k.
      (if not ((k.envs c).env_pgfault_upcall == 0)
          then (do run_upcall fault_va tf c; with_curenv env_destroy)
          else env_destroy c)
        k

-- The last lines of `trap_dispatch`; `GD_KT` is 8.
unfoldable pub unexpected_trap : Trapframe → K (Unit {0})
unfolding env_destroy
unexpected_trap tf = if tf.tf_cs == 8 then panics else with_curenv env_destroy

-- The system call for `exofork`. Its result goes to the frame, which is the current environment's
-- where the trap came from user mode.
unfoldable pub exofork_trap : Trapframe → K (Unit {0})
unfolding syscall set_eax
exofork_trap tf = do
  res ← syscall tf.tf_regs.reg_eax 0 0 0 0
  if tf.tf_cs % 4 == 3
      then (with_curenv λ c k. put (set_env c (set_eax res (k.envs c)) k) k)
      else pure tt

-- What `trap_dispatch` does after the interrupts. `leaves` says whether the user leaves the monitor.
unfoldable pub dispatch_exception : (fault_va : ℕ) (leaves : Bool) → Trapframe → K (Unit {0})
unfolding page_fault_handler unexpected_trap exofork_trap
dispatch_exception fault_va leaves tf =
    if tf.tf_trapno == 14
    then (do page_fault_handler fault_va tf; unexpected_trap tf)
    else if tf.tf_trapno == 3
    then (if leaves then unexpected_trap tf else monitor)
    else if tf.tf_trapno == 48 && tf.tf_regs.reg_eax == 8
    then exofork_trap tf
    else unexpected_trap tf

-- `IRQ_OFFSET` is 32; the acknowledgement of the timer is left out.
unfoldable pub trap_dispatch : (fault_va : ℕ) (leaves : Bool) → Trapframe → K (Unit {0})
unfolding sched_yield dispatch_exception
trap_dispatch fault_va leaves tf = if tf.tf_trapno == 32 + 7 then pure tt else do
  if tf.tf_trapno == 32 then sched_yield else pure tt
  dispatch_exception fault_va leaves tf

-- `assert(curenv)`
abbrev assert_curenv : K (Unit {0})
assert_curenv k = elim k.curenv [ none ↦ panic | some c ↦ ret tt k ]

-- Entry from user mode: the lock, an environment that is to die, and the copy of the frame.
unfoldable pub enter_kernel : Trapframe → K (Unit {0})
unfolding lock_kernel env_free sched_yield
enter_kernel tf = do
  assert_curenv
  lock_kernel
  with_curenv λ c k.
      (if (k.envs c).env_status == status_dying
          then (do env_free c; k' ← get; put (record k' { curenv = none }); sched_yield)
          else pure tt)
        k
  with_curenv λ c k. put (set_env c (record (k.envs c) { env_tf = tf }) k) k

-- The last lines of `trap`.
unfoldable pub leave_trap : K (Unit {0})
unfolding env_run sched_yield
leave_trap k = elim k.curenv [
  | none ↦ sched_yield k
  | some c ↦ if (k.envs c).env_status == status_running then env_run c k else sched_yield k
]

unfoldable pub trap : (fault_va : ℕ) (leaves : Bool) → Trapframe → K (Unit {0})
unfolding enter_kernel trap_dispatch leave_trap
trap fault_va leaves tf = do
  if tf.tf_cs % 4 == 3 then enter_kernel tf else pure tt
  trap_dispatch fault_va leaves tf
  leave_trap
