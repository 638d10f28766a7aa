-- ===== src/Kernel/Examples/Spaces.antt =====
-- The theorems about address spaces on the small machine.
use csdi_jos.Common.{ℕ, ◌≡◌, inl, refl, subst, true, none, some, [], ◌∷◌, arith}
use csdi_jos.Kernel.State.Returns.{Returns}
use csdi_jos.Kernel.State.Layout.{pdx, pte_p, pte_frame, make_pte}
use csdi_jos.Kernel.Vm.{page2pa, page_insert, page_remove}
use csdi_jos.Kernel.Vm.Remove.{Held}
use csdi_jos.Kernel.Vm.View.{translate, Directory, Busy}
use csdi_jos.Kernel.Vm.Refinement.{
  Becomes, Assigns, MapsHeld, page_insert-Assigns, page_remove-Becomes,
}
use csdi_jos.Kernel.Envs.Ids.{Resolves, envid2env-Resolves}
use csdi_jos.Kernel.Envs.{region_alloc}
use csdi_jos.Kernel.Envs.Region.{Loads}
use csdi_jos.Kernel.Envs.Region.Loop.{region_alloc-Region}
use csdi_jos.Kernel.Vm.Fresh.{Space}
use csdi_jos.Kernel.Syscall.{sys_page_map}
use csdi_jos.Kernel.Syscall.Sharing.{sys_page_map-Maps}
use csdi_jos.Kernel.Examples.{machine, machine-FreeList, machine-Held}

-- Only the first entry of the directory is present.
first_entry : (a : ℕ) → pte_p (machine.frames 2 (pdx a)) ≡ true → machine.frames 2 (pdx a) ≡ 0x5007
first_entry a h = ground (arith, h)

machine-Directory : Directory machine 2
machine-Directory = record {
  tables = λ a out set. record {
    present = set;
    at = refl;
    inside = rw (first_entry a set) (omega arith);
    apart = rw (first_entry a set) (omega arith);
  };
  distinct = λ a b out out' ne set set'. absurd (ne (ground (arith, set, set')));
}

machine-Busy : Busy machine 2 (3 ∷ 4 ∷ [])
machine-Busy = record {
  directory = (omega arith, (omega arith, tt));
  tables = λ a out set. rw (first_entry a set) (omega arith, (omega arith, tt));
}

translate_mapped : translate machine 2 0x1000 ≡ some 0x6007
unfolding translate
translate_mapped = refl

machine-MapsHeld : MapsHeld machine 2 0x1000 (3 ∷ 4 ∷ [])
unfolding translate
machine-MapsHeld pte h =
    let same : 0x6007 ≡ pte = ground (arith, h) in
    subst (λ p. Held machine (3 ∷ 4 ∷ []) (pte_frame p)) same machine-Held

page_insert-Assigns_example :
    Returns
      (Assigns machine 2 0x1000 (make_pte (page2pa 8) 7) (3 ∷ 4 ∷ []))
      (page_insert (some 2) 8 0x1000 7 machine)
page_insert-Assigns_example =
    page_insert-Assigns machine 2 0x1000 8 7 (omega arith) (omega arith) (omega arith)
      machine-Directory machine-FreeList (omega arith) machine-Busy machine-MapsHeld

page_remove-Becomes_example :
    Returns (λ _ k'. Becomes machine 2 0x1000 none k') (page_remove (some 2) 0x1000 machine)
page_remove-Becomes_example =
    page_remove-Becomes machine 2 0x1000 0x6007 (3 ∷ 4 ∷ []) (omega arith) machine-Directory
      machine-FreeList translate_mapped machine-Held

vacant-MapsHeld : MapsHeld machine 2 0x3000 (3 ∷ 4 ∷ [])
unfolding translate
vacant-MapsHeld pte h = absurd (ground (arith, h))

machine-Resolves : Resolves machine 4096 true 0 0
machine-Resolves = record {
  slot = refl;
  current = refl;
  live = omega arith;
  allowed = λ check. inl refl;
}

sys_page_map-Maps_example :
    Returns
      (Assigns machine 2 0x3000 (make_pte (page2pa 6) 5) (3 ∷ 4 ∷ []))
      (sys_page_map 4096 0x1000 4096 0x3000 5 machine)
sys_page_map-Maps_example =
    let found = envid2env-Resolves machine 4096 true 0 refl 0 (omega arith) machine-Resolves in
    sys_page_map-Maps {k = machine} 0 0x1000 0 0x3000 5 2 2 0x6007 (3 ∷ 4 ∷ []) (omega arith)
      (omega arith) (omega arith) (omega arith) refl refl machine-Directory machine-Directory
      machine-FreeList machine-Busy vacant-MapsHeld translate_mapped (omega arith) refl 4096 4096
      found found refl refl refl refl refl

machine-Space : Space machine 2 (3 ∷ 4 ∷ [])
machine-Space = record {
  dir = machine-Directory;
  free = machine-FreeList;
  busy = machine-Busy;
  memory = omega arith;
  writable = λ a out set. rw (first_entry a set) refl;
}

-- A hundred bytes from 0x3123 lie in one page, which maps nothing.
region_alloc-Region_example :
    Returns (Loads machine 2 0x3000 1 (3 ∷ 4 ∷ [])) (region_alloc 0 0x3123 100 machine)
unfolding translate
region_alloc-Region_example =
    region_alloc-Region 0 0x3123 100 (3 ∷ 4 ∷ []) refl (omega arith) machine-Space
      (λ j lt. ground (arith, lt)) (omega arith)
