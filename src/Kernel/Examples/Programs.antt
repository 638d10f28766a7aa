-- ===== src/Kernel/Examples/Programs.antt =====
-- The theorems about `env_create`, `boot_map_region` and `mem_init` on the small machine.
use csdi_jos.Common.{
  ℕ, ◌+◌, ◌-◌, ◌<◌, ◌≡◌, refl, subst, false, ◌==◌, some, none, List, [], ◌∷◌, if◌then◌else◌, arith,
}
use csdi_jos.Library.Memory.{Memory}
use csdi_jos.Boot.Elf.{word_at, half_at}
use csdi_jos.Kernel.State.{Kernel, Page, user}
use csdi_jos.Kernel.State.Returns.{Returns}
use csdi_jos.Kernel.Pages.FreeList.{FreeList}
use csdi_jos.Kernel.Vm.View.{translate}
use csdi_jos.Kernel.Vm.{boot_map_region}
use csdi_jos.Kernel.Vm.Static.Range.{Ranged, boot_map_region-Ranged}
use csdi_jos.Kernel.Vm.Fresh.{Space}
use csdi_jos.Kernel.Start.{mem_init}
use csdi_jos.Kernel.Start.Root.{Root, kernel_view}
use csdi_jos.Kernel.Start.MemInit.{mem_init-Root}
use csdi_jos.Kernel.Load.{env_create}
use csdi_jos.Kernel.Load.Image.{Image, with_pages}
use csdi_jos.Kernel.Load.Loop.{load_image, FitsAll}
use csdi_jos.Kernel.Load.Entry.{stack_page}
use csdi_jos.Kernel.Load.Create.{no_memory, Created, env_create-Created}
use csdi_jos.Kernel.Examples.{machine, machine-EnvLinks}

abbrev binary : ℕ
binary = 0xf020_0000

-- An ELF header with a program header at 52: three bytes from 100 on, of eight at 0x800020.
abbrev program_byte : ℕ → ℕ
program_byte x =
    if x == 0
    then 0x7f
    else if x == 1
    then 0x45
    else if x == 2
    then 0x4c
    else if x == 3
    then 0x46
    else if x == 24
    then 0x20
    else if x == 26
    then 0x80
    else if x == 28
    then 52
    else if x == 44
    then 1
    else if x == 52
    then 1
    else if x == 56
    then 100
    else if x == 60
    then 0x20
    else if x == 62
    then 0x80
    else if x == 68
    then 3
    else if x == 72
    then 8
    else if x == 100
    then 7
    else if x == 102
    then 9
    else 0

program_byte-small : (x : ℕ) → program_byte x < 256
program_byte-small x = ground arith

abbrev program : Memory
program a = program_byte (a - binary)

-- Pages 3, 4 and 10 to 12 are free.
abbrev loader_pages : ℕ → Page
loader_pages p =
    if p == 3
    then record { pp_link = some 4; pp_ref = 0 }
    else if p == 4
    then record { pp_link = some 10; pp_ref = 0 }
    else if p == 10
    then record { pp_link = some 11; pp_ref = 0 }
    else if p == 11
    then record { pp_link = some 12; pp_ref = 0 }
    else if p == 12
    then record { pp_link = none; pp_ref = 0 }
    else record { pp_link = none; pp_ref = 1 }

abbrev loader : Kernel
loader = record machine { pages = loader_pages }

abbrev free_pages : List ℕ
free_pages = 3 ∷ 4 ∷ 10 ∷ 11 ∷ 12 ∷ []

loader-FreeList : FreeList loader free_pages
loader-FreeList = record {
  chain = (refl, (refl, (refl, (refl, (refl, refl)))));
  distinct = (
    (omega arith, (omega arith, (omega arith, (omega arith, tt)))),
    (
      (omega arith, (omega arith, (omega arith, tt))),
      ((omega arith, (omega arith, tt)), ((omega arith, tt), (tt, tt))),
    ),
  );
  bounded = (omega arith, (omega arith, (omega arith, (omega arith, (omega arith, tt)))));
  unused = (refl, (refl, (refl, (refl, (refl, tt)))));
}

program-FitsAll : (img : Image) → img.has 2048 ≡ false → FitsAll program binary 1 (binary + 52) img
unfolding word_at
program-FitsAll img free = (
  λ t. record {
    whole = refl;
    below = omega arith;
    covered = omega arith;
    source = omega arith;
    new = λ q from to. subst (λ r. img.has r ≡ false) (omega (arith, from, to)) free;
  },
  tt,
)

-- The kernel's directory, in frame 1, has no entries.
root-Space : Space loader 1 free_pages
root-Space = record {
  dir = record {
    tables = λ a out set. absurd (ground (arith, set));
    distinct = λ a b out out' ne set. absurd (ground (arith, set));
  };
  free = loader-FreeList;
  busy = record {
    directory = (omega arith, (omega arith, (omega arith, (omega arith, (omega arith, tt)))));
    tables = λ a out set. absurd (ground (arith, set));
  };
  memory = omega arith;
  writable = λ a out set. absurd (ground (arith, set));
}

root_empty : (a : ℕ) → translate loader 1 a ≡ none
unfolding translate
root_empty a = refl

env_create-Created_example :
    Returns
      (λ _ k'.
        (qs : List ℕ) × Created loader k' 2 3 0x80_0020 user
          (with_pages stack_page 1 (load_image program binary 1 (binary + 52) no_memory))
          qs)
      (env_create program binary user loader)
unfolding word_at half_at
env_create-Created_example =
    env_create-Created program (λ a. program_byte-small (a - binary)) binary user 2 3 (3 ∷ [])
      (4 ∷ 10 ∷ 11 ∷ 12 ∷ []) machine-EnvLinks ((omega arith, tt), (tt, tt))
      ((omega arith, omega arith), ((omega arith, omega arith), tt)) root-Space
      (λ a low. root_empty a) refl (omega arith) (program-FitsAll no_memory refl) refl (omega arith)

-- Two pages at 0xef000000, for the user to read.
boot_map_region-Ranged_example :
    Returns
      (λ _ k'. (qs : List ℕ) × Ranged loader k' 1 0xef00_0000 0x5000 5 2 free_pages qs)
      (boot_map_region (some 1) 0xef00_0000 0x2000 0x5000 5 loader)
boot_map_region-Ranged_example =
    boot_map_region-Ranged 0xef00_0000 0x2000 0x5000 5 free_pages root-Space
      (λ j lt e. absurd (omega (arith, lt, e))) (omega arith) (omega arith) (omega arith)

-- The kernel ends in page 15.
abbrev booting : Kernel
booting = record machine { nextfree = 0 }

mem_init-Root_example :
    Returns
      (λ _ k'. Root k' 800 (kernel_view 1024 0x1_1000 0x1_3000 0x9000 (λ j. 0xa000) (λ a. none)))
      (mem_init 0xf000_f123 0x9000 (λ j. 0xa000) booting)
mem_init-Root_example =
    mem_init-Root 0xf000_f123 0x9000 (λ j. 0xa000) 16 800 booting refl (omega arith) (omega arith)
      (omega arith) (omega arith) (omega arith) (omega arith) (λ j. omega arith)
