-- ===== src/Kernel/Examples/Memory.antt =====
-- The theorems about pages and page tables on the small machine.
use csdi_jos.Common.{ℕ, ◌≤◌, ◌<◌, ◌≡◌, refl, none, [], ◌∷◌, arith}
use csdi_jos.Kernel.State.{Kernel, set_page, ret, fault}
use csdi_jos.Kernel.State.Returns.{Returns}
use csdi_jos.Kernel.Pages.{page_alloc, page_init, page_alloc_4pages}
use csdi_jos.Kernel.Pages.FreeList.{FreeList, Allocates, page_alloc_lem}
use csdi_jos.Kernel.Pages.Init.{Initialised, page_init-Initialised}
use csdi_jos.Kernel.Pages.FourPages.{page_alloc_4pages_lem}
use csdi_jos.Kernel.Vm.{user_mem_check}
use csdi_jos.Kernel.Vm.Remove.{Held}
use csdi_jos.Kernel.Vm.Check.{
  IsDirectory, Checked, Accessible, user_mem_check-Checked, user_mem_check_wraps,
}
use csdi_jos.Kernel.Examples.{machine, machine-FreeList}

zero-Held : Held machine (3 ∷ 4 ∷ []) 0
zero-Held = record {
  inside = omega arith;
  busy = (omega arith, (omega arith, tt));
  counted = omega arith;
  short = omega arith;
}

machine-IsDirectory : IsDirectory machine 2
machine-IsDirectory i h = ground arith

-- The machine with page 9 without references.
abbrev unused_nine : Kernel
unused_nine = set_page 9 (record { pp_link = none; pp_ref = 0 }) machine

unused_nine-FreeList : FreeList unused_nine (3 ∷ 4 ∷ [])
unused_nine-FreeList = record {
  chain = machine-FreeList.chain;
  distinct = machine-FreeList.distinct;
  bounded = machine-FreeList.bounded;
  unused = machine-FreeList.unused;
}

page_alloc_lem_example : Allocates 1 machine (3 ∷ 4 ∷ []) (page_alloc 1 machine)
page_alloc_lem_example = page_alloc_lem 1 (3 ∷ 4 ∷ []) machine-FreeList

page_init-Initialised_example : Returns (λ _ k'. Initialised 10 machine k') (page_init 0 machine)
page_init-Initialised_example =
    page_init-Initialised 0 10 machine refl (omega arith) (omega arith) (omega arith)

page_alloc_4pages_lem_example : page_alloc_4pages 3 0 machine ≡ fault
page_alloc_4pages_lem_example =
    page_alloc_4pages_lem machine (3 ∷ 4 ∷ []) 3 (refl, (refl, refl)) (omega arith)

user_mem_check-Checked_example :
    Returns
      (λ r k'.
        Checked machine 2 7 0x1000 0x2000 r k'
        × (r ≡ 0 → (a : ℕ) → 0x1000 ≤ a → a < 0x1800 → Accessible machine 2 7 a))
      (user_mem_check (machine.envs 0) 0x1000 0x800 7 machine)
user_mem_check-Checked_example =
    user_mem_check-Checked machine (machine.envs 0) 0x1000 0x800 7 refl machine-IsDirectory
      (omega arith)

user_mem_check_wraps_example :
    user_mem_check (machine.envs 0) 0xffff_f000 0x1000 7 machine ≡ ret 0 machine
user_mem_check_wraps_example =
    user_mem_check_wraps machine (machine.envs 0) 0xffff_f000 0x1000 7 (omega arith) (omega arith)
      (omega arith)
