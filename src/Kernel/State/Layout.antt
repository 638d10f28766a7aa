-- ===== src/Kernel/State/Layout.antt =====
-- The constants and macros of inc/memlayout.h, inc/mmu.h, inc/types.h, inc/error.h, inc/env.h and
-- inc/trap.h. An address or a word is a number below 2 ^ 32.
use csdi_jos.Common.{ℕ, ◌+◌, ◌-◌, ◌*◌, ◌/◌, ◌%◌, ◌^◌, Bool, ◌==◌, leb, bit_or}

abbrev pub pg_size : ℕ
pg_size = 4096

abbrev pub kern_base : ℕ
kern_base = 0xf000_0000

abbrev pub u_lim : ℕ
u_lim = 0xef80_0000

abbrev pub uvpt : ℕ
uvpt = 0xef40_0000

abbrev pub u_top : ℕ
u_top = 0xeec0_0000

abbrev pub u_stack_top : ℕ
u_stack_top = 0xeebf_e000

-- `MPENTRY_PADDR` is the start of this page.
abbrev pub mpentry_page : ℕ
mpentry_page = 7

abbrev pub n_env : ℕ
n_env = 1024

-- Page number, page directory index, page table index, and offset of a linear address.
abbrev pub pgnum : ℕ → ℕ
pgnum la = la / 2 ^ 12

abbrev pub pdx : ℕ → ℕ
pdx la = la / 2 ^ 22 % 1024

abbrev pub ptx : ℕ → ℕ
ptx la = la / 2 ^ 12 % 1024

abbrev pub pg_off : ℕ → ℕ
pg_off la = la % 4096

abbrev pub envx : ℕ → ℕ
envx id = id % 1024

abbrev pub pgaddr : ℕ → ℕ → ℕ
pgaddr d t = d * 2 ^ 22 + t * 2 ^ 12

abbrev pub add32 : ℕ → ℕ → ℕ
add32 a b = (a + b) % 2 ^ 32

abbrev pub sub32 : ℕ → ℕ → ℕ
sub32 a b = (a + 2 ^ 32 - b) % 2 ^ 32

-- `ROUNDDOWN` and `ROUNDUP` to a page, with the wrap of 32-bit arithmetic.
abbrev pub round_down : ℕ → ℕ
round_down a = a - a % pg_size

abbrev pub round_up : ℕ → ℕ
round_up a = round_down (add32 a 4095)

-- The bits of a page table entry, and `PTE_ADDR` as a page number.
abbrev pub pte_p : ℕ → Bool
pte_p pte = pte % 2 == 1

abbrev pub pte_w : ℕ → Bool
pte_w pte = pte / 2 % 2 == 1

abbrev pub pte_u : ℕ → Bool
pte_u pte = pte / 4 % 2 == 1

abbrev pub pte_frame : ℕ → ℕ
pte_frame pte = pte / 4096

-- `add | PTE_P | perm`
abbrev pub make_pte : ℕ → ℕ → ℕ
make_pte add perm = bit_or (bit_or add 1) perm

-- The negative error codes, as 32-bit words, and `r < 0`.
abbrev pub e_bad_env : ℕ
e_bad_env = 2 ^ 32 - 2

abbrev pub e_inval : ℕ
e_inval = 2 ^ 32 - 3

abbrev pub e_no_mem : ℕ
e_no_mem = 2 ^ 32 - 4

abbrev pub e_no_free_env : ℕ
e_no_free_env = 2 ^ 32 - 5

abbrev pub e_fault : ℕ
e_fault = 2 ^ 32 - 6

abbrev pub e_ipc_not_recv : ℕ
e_ipc_not_recv = 2 ^ 32 - 7

abbrev pub is_neg : ℕ → Bool
is_neg r = leb (2 ^ 31) r

-- `struct PushRegs` and `struct Trapframe`, less the padding.
pub record PushRegs : Type 0 where
  pub reg_edi : ℕ
  pub reg_esi : ℕ
  pub reg_ebp : ℕ
  pub reg_oesp : ℕ
  pub reg_ebx : ℕ
  pub reg_edx : ℕ
  pub reg_ecx : ℕ
  pub reg_eax : ℕ

pub record Trapframe : Type 0 where
  pub tf_regs : PushRegs
  pub tf_es : ℕ
  pub tf_ds : ℕ
  pub tf_trapno : ℕ
  pub tf_err : ℕ
  pub tf_eip : ℕ
  pub tf_cs : ℕ
  pub tf_eflags : ℕ
  pub tf_esp : ℕ
  pub tf_ss : ℕ

abbrev pub zero_regs : PushRegs
zero_regs = record {
  reg_edi = 0;
  reg_esi = 0;
  reg_ebp = 0;
  reg_oesp = 0;
  reg_ebx = 0;
  reg_edx = 0;
  reg_ecx = 0;
  reg_eax = 0;
}

-- What `memset(&e->env_tf, 0, sizeof(e->env_tf))` leaves.
abbrev pub zero_trapframe : Trapframe
zero_trapframe = record {
  tf_regs = zero_regs;
  tf_es = 0;
  tf_ds = 0;
  tf_trapno = 0;
  tf_err = 0;
  tf_eip = 0;
  tf_cs = 0;
  tf_eflags = 0;
  tf_esp = 0;
  tf_ss = 0;
}
