-- ===== src/Kernel/Load.antt =====
-- kern/env.c: `load_icode` and `env_create`, which make an environment of an ELF image.
pub mod Image
pub mod Store
pub mod Copy
pub mod Pages
pub mod Segments
pub mod Loop
pub mod Entry
pub mod Create
use csdi_jos.Common.{ℕ, zero, suc, ◌+◌, ◌-◌, ◌*◌, ◌^◌, ◌==◌, ltb, none, some, if◌then◌else◌}
use csdi_jos.Library.Memory.{Memory}
use csdi_jos.Boot.Elf.{
  elf_magic, e_magic, e_phoff, e_phnum, e_entry, proghdr_size, p_type, p_va, p_memsz, p_filesz,
  p_offset,
}
use csdi_jos.Kernel.State.{
  Kernel, EnvType, Outcome, ret, fault, K, pure, panics, and_then, ◌>>=◌, ◌>>◌, get, put, set_env,
}
use csdi_jos.Kernel.State.Layout.{u_stack_top, pg_size, add32, is_neg}
use csdi_jos.Kernel.Envs.{region_alloc, env_alloc}
use csdi_jos.Kernel.Envs.Switch.{lcr3}
use csdi_jos.Kernel.Trap.{store_byte}

-- `memmove` to the user's memory. The source, in the kernel's memory `m`, lies above it, so that the
-- bytes are copied upwards.
unfoldable pub copy_up : (n dst src : ℕ) → Memory → K (Unit {0})
copy_up zero dst src m = pure tt
copy_up (suc n) dst src m = do store_byte dst (m src); copy_up n (add32 dst 1) (add32 src 1) m

-- A round of the loop over the program headers: `ELF_PROG_LOAD` is 1.
unfoldable pub load_segment : (e : ℕ) → Memory → (binary ph : ℕ) → K (Unit {0})
load_segment e m binary ph =
    if p_type m ph == 1
    then (do
      region_alloc e (p_va m ph) (p_memsz m ph)
      copy_up (p_filesz m ph) (p_va m ph) (add32 binary (p_offset m ph)) m)
    else pure tt

unfoldable pub load_headers : (fuel e : ℕ) → Memory → (binary ph eph : ℕ) → K (Unit {0})
load_headers zero e m binary ph eph k = Outcome.diverge
load_headers (suc fuel) e m binary ph eph k =
    let rest =
      (do load_segment e m binary ph; load_headers fuel e m binary (add32 ph proghdr_size) eph) k in
    if ltb ph eph then rest else ret tt k

unfoldable pub set_entry : (e entry : ℕ) → Kernel → Kernel
set_entry e entry k =
    set_env e (record (k.envs e) { env_tf = record (k.envs e).env_tf { tf_eip = entry } }) k

-- The header's fields are read before and after the copies, which leave the kernel's memory alone.
unfoldable pub load_icode : (e : ℕ) → Memory → (binary : ℕ) → K (Unit {0})
load_icode e m binary =
    let ph = add32 binary (e_phoff m binary) in
    if e_magic m binary == elf_magic
    then (do
      k ← get
      lcr3 (k.envs e).env_pgdir
      load_headers (2 ^ 16 + 1) e m binary ph (add32 ph (e_phnum m binary * proghdr_size))
      k' ← get
      put (set_entry e (e_entry m binary) k')
      region_alloc e (u_stack_top - pg_size) pg_size)
    else panics

-- `env_alloc` sets `e` where it does not answer an error.
unfoldable pub env_create : Memory → (binary : ℕ) → EnvType → K (Unit {0})
env_create m binary type = do
  (r, new) ← env_alloc 0
  if is_neg r then panics else elim new [
    | none ↦ λ k. fault
    | some e ↦ (do
      k ← get
      put (set_env e (record (k.envs e) { env_type = type }) k)
      load_icode e m binary)
  ]
