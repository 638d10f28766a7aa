-- ===== src/Kernel/Start.antt =====
-- `mem_init` of kern/pmap.c, which builds the kernel's page directory.
pub mod Root
pub mod MemInit
use csdi_jos.Common.{ℕ, zero, suc, ◌+◌, ◌-◌, ◌*◌, ◌/◌, ◌^◌, ltb, some, if◌then◌else◌, bit_or}
use csdi_jos.Kernel.State.{Kernel, K, pure, panics, ◌>>=◌, ◌>>◌, get, put, set_frame, set_word}
use csdi_jos.Kernel.State.Layout.{pg_size, kern_base, uvpt, n_env, pdx, round_up}
use csdi_jos.Kernel.Pages.{boot_alloc, page_init}
use csdi_jos.Kernel.Vm.{page2pa, boot_map_region}
use csdi_jos.Kernel.Envs.Switch.{lcr3}

abbrev pub kstacktop : ℕ
kstacktop = 0xefc0_0000

-- `KSTKSIZE`, and `KSTKGAP`, which is as large.
abbrev pub kstksize : ℕ
kstksize = 0x8000

abbrev pub upages : ℕ
upages = 0xef00_0000

abbrev pub uenvs : ℕ
uenvs = 0xeec0_0000

-- `IOMEMBASE` and `IOMEM_PADDR`
abbrev pub iomembase : ℕ
iomembase = 0xfe00_0000

abbrev pub n_cpu_stacks : ℕ
n_cpu_stacks = 8

-- The sizes of `struct Page` and `struct Env`.
abbrev pub page_size : ℕ
page_size = 8

abbrev pub env_size : ℕ
env_size = 124

-- `boot_map_region` in `kern_pgdir`.
unfoldable pub map_root : (va size pa perm : ℕ) → K (Unit {0})
map_root va size pa perm k = boot_map_region (some k.kern_pgdir) va size pa perm k

-- The loop of `mem_init_mp` from CPU `i` on, for `n` of them; `kstacks` has the physical addresses.
unfoldable pub map_stacks : (ℕ → ℕ) → (i n : ℕ) → K (Unit {0})
map_stacks kstacks i zero = pure tt
map_stacks kstacks i (suc n) = do
  map_root (kstacktop - i * (kstksize + kstksize) - kstksize) kstksize (kstacks i) 2
  map_stacks kstacks (suc i) n

unfoldable pub mem_init_mp : (ℕ → ℕ) → K (Unit {0})
mem_init_mp kstacks = do
  map_root iomembase (2 ^ 32 - iomembase) iomembase 2
  map_stacks kstacks 0 n_cpu_stacks

-- `mem_init` from its first mapping to the last one; the arguments are physical addresses.
unfoldable pub map_kernel : (pages envs bootstack : ℕ) → (ℕ → ℕ) → K (Unit {0})
map_kernel pages envs bootstack kstacks = do
  k ← get
  map_root upages (round_up (k.npages * page_size)) pages 5
  map_root uenvs (round_up (n_env * env_size)) envs 5
  map_root (kstacktop - kstksize) kstksize bootstack 2
  map_root kern_base (round_up (0xffff_ffff - kern_base)) 0 2
  mem_init_mp kstacks

-- `PADDR`, which panics below `KERNBASE`.
unfoldable pub paddr : ℕ → K ℕ
paddr a = if ltb a kern_base then panics else pure (a - kern_base)

-- The page directory in the page at physical address `pa`, with itself at `UVPT`.
unfoldable pub init_pgdir : (pa : ℕ) → Kernel → Kernel
init_pgdir pa k =
    let d = pa / 4096 in
    set_word d (pdx uvpt) (bit_or (bit_or (page2pa d) 4) 1)
      (set_frame d (λ i. 0) (record k { kern_pgdir = d }))

-- The size of memory is in the state, as `i386_detect_memory` leaves it; the tests are left out.
unfoldable pub mem_init : (end bootstack : ℕ) → (ℕ → ℕ) → K (Unit {0})
mem_init end bootstack kstacks = do
  pgdir ← boot_alloc end pg_size
  root ← paddr pgdir
  k ← get
  put (init_pgdir root k)
  pages ← boot_alloc end (k.npages * page_size)
  envs ← boot_alloc end (n_env * env_size)
  page_init end
  pages_pa ← paddr pages
  envs_pa ← paddr envs
  map_kernel pages_pa envs_pa bootstack kstacks
  k' ← get
  lcr3 (some k'.kern_pgdir)
