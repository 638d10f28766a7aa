-- ===== src/Kernel/Vm.antt =====
-- Page tables: the second half of kern/pmap.c. A page directory or table is the frame that holds
-- it, a pointer to an entry is a frame and an index, and a null page directory is `none`.
pub mod Walk
pub mod Insert
pub mod Store
pub mod Remap
pub mod View
pub mod EmptyTable
pub mod Refinement
pub mod Isolation
pub mod Fresh
pub mod Static
pub mod Remove
pub mod Check
use csdi_jos.Common.{
  ℕ, zero, suc, ◌+◌, ◌-◌, ◌*◌, ◌/◌, ◌%◌, ◌^◌, ◌≡◌, Bool, true, false, not, ◌&&◌, ◌||◌, ◌==◌, leb,
  ltb, Option, none, some, List, ◌∷◌, if◌then◌else◌, update, same_ptr, bit_or,
}
use csdi_jos.Kernel.State.{
  Kernel, Env, Page, Outcome, ret, panic, fault, diverge, K, pure, panics, faults, and_then, ◌>>=◌,
  ◌>>◌, get, put, set_page, set_frame, set_word,
}
use csdi_jos.Kernel.State.Layout.{
  pg_size, u_lim, pdx, ptx, add32, round_up, round_down, pte_p, pte_w, pte_u, pte_frame, make_pte,
  e_no_mem, e_fault, is_neg,
}
use csdi_jos.Kernel.Pages.{kaddr, page2kva, page_alloc, page_decref, page_incref}

abbrev pub PtePtr : Type 0
PtePtr = ℕ × ℕ

abbrev pub read_pte : Kernel → PtePtr → ℕ
read_pte k (f, i) = k.frames f i

abbrev pub write_pte : PtePtr → ℕ → Kernel → Kernel
write_pte (f, i) w k = set_word f i w k

-- `page2pa`
abbrev pub page2pa : ℕ → ℕ
page2pa pp = pp * 4096 % 2 ^ 32

-- `pa2page` panics beyond the end of memory.
unfoldable pub pa2page : ℕ → K ℕ
pa2page f k = if leb k.npages f then panic else ret f k

-- The last lines of `pgdir_walk`: install the page as a page table and point into it.
unfoldable pub install_table : (pgdir va newpage : ℕ) → K (Option PtePtr)
unfolding page_incref page2kva
install_table pgdir va newpage = do
  page_incref newpage
  k ← get
  put (set_word pgdir (pdx va) (bit_or (bit_or (bit_or (page2pa newpage) 1) 2) 4) k)
  table ← page2kva newpage
  pure (some (table, ptx va))

unfoldable pub create_table : (pgdir va : ℕ) → K (Option PtePtr)
unfolding page_alloc install_table
create_table pgdir va = do
  newpage ← page_alloc 1
  elim newpage [ none ↦ pure none | some p ↦ install_table pgdir va p ]

unfoldable pub pgdir_walk : Option ℕ → (va : ℕ) → (create : Bool) → K (Option PtePtr)
unfolding kaddr create_table
pgdir_walk none va create k = panic
pgdir_walk (some pgdir) va create k =
    let pde = k.frames pgdir (pdx va) in
    if pte_p pde
    then (do table ← kaddr (pte_frame pde); pure (some (table, ptx va))) k
    else if create
    then create_table pgdir va k
    else ret none k

-- `numPG` rounds; a failed walk is a write through a null pointer.
unfoldable pub boot_map_loop : ℕ → Option ℕ → (va pa perm : ℕ) → K (Unit {0})
unfolding pgdir_walk
boot_map_loop zero pgdir va pa perm = pure tt
boot_map_loop (suc n) pgdir va pa perm = do
  pte ← pgdir_walk pgdir va true
  elim pte [
    | none ↦ faults
    | some p ↦ λ k.
        boot_map_loop n pgdir (add32 va pg_size) (add32 pa pg_size) perm
          (write_pte p (make_pte pa perm) k)
  ]

unfoldable pub boot_map_region : Option ℕ → (va size pa perm : ℕ) → K (Unit {0})
unfolding boot_map_loop
boot_map_region pgdir va size pa perm = boot_map_loop (size / pg_size) pgdir va pa perm

-- The page and the pointer that `pte_store` receives.
unfoldable pub page_lookup : Option ℕ → (va : ℕ) → K (Option (ℕ × PtePtr))
unfolding pgdir_walk pa2page
page_lookup pgdir va = do
  pte ← pgdir_walk pgdir va false
  k ← get
  elim pte [
    | none ↦ pure none
    | some p ↦ (do page ← pa2page (pte_frame (read_pte k p)); pure (some (page, p)))
  ]

-- `!curenv || curenv->env_pgdir == pgdir`
abbrev pub is_current : Kernel → Option ℕ → Bool
is_current k pgdir = elim k.curenv [ none ↦ true | some e ↦ same_ptr (k.envs e).env_pgdir pgdir ]

unfoldable pub tlb_invalidate : Option ℕ → (va : ℕ) → K (Unit {0})
tlb_invalidate pgdir va k =
    ret tt (record k { flushed = if is_current k pgdir then va ∷ k.flushed else k.flushed })

unfoldable pub page_remove : Option ℕ → (va : ℕ) → K (Unit {0})
unfolding page_lookup page_decref tlb_invalidate
page_remove pgdir va = do
  found ← page_lookup pgdir va
  elim found [
    | none ↦ pure tt
    | some (page, ppte) ↦ (do
      page_decref page
      k ← get
      put (write_pte ppte 0 k)
      tlb_invalidate pgdir va)
  ]

-- `if (pp == page_free_list) page_free_list = page_free_list->pp_link`
unfoldable pub unlink_head : ℕ → Kernel → Kernel
unlink_head pp k = record k {
  page_free_list =
      if same_ptr (some pp) k.page_free_list then (k.pages pp).pp_link else k.page_free_list;
}

-- The last lines of `page_insert`.
unfoldable pub map_page : (pte : PtePtr) → (pp perm : ℕ) → K ℕ
unfolding unlink_head page_incref
map_page pte pp perm k =
    (do page_incref pp; pure 0) (write_pte pte (make_pte (page2pa pp) perm) (unlink_head pp k))

unfoldable pub page_insert : Option ℕ → (pp va perm : ℕ) → K ℕ
unfolding pgdir_walk page_remove map_page
page_insert pgdir pp va perm = do
  walked ← pgdir_walk pgdir va false
  k ← get
  elim walked [
    | none ↦ (do
      created ← pgdir_walk pgdir va true
      elim created [ none ↦ pure e_no_mem | some pte ↦ map_page pte pp perm ])
    | some pte ↦ (do
      if pte_p (read_pte k pte) then page_remove pgdir va else pure tt
      map_page pte pp perm)
  ]

-- The tests of one round of `user_mem_check` on a page table entry.
unfoldable pub previ_allows : (pte perm : ℕ) → Bool
previ_allows pte perm =
    if not (pte_p pte)
    then false
    else if pte_u pte
    then (if not (pte_w pte) && pte_w perm then false else true)
    else false

-- One round at `index`: may the page that holds it be accessed?
unfoldable pub check_index : Option ℕ → (index perm : ℕ) → K Bool
unfolding pgdir_walk previ_allows
check_index pgdir index perm = if leb u_lim index then pure false else do
  tmppte ← pgdir_walk pgdir index false
  k ← get
  elim tmppte [ none ↦ pure false | some p ↦ pure (previ_allows (read_pte k p) perm) ]

-- The loop, on fuel; a failure stores the address.
unfoldable pub check_loop : ℕ → Option ℕ → (index bound perm : ℕ) → K ℕ
unfolding check_index
check_loop zero pgdir index bound perm k = diverge
check_loop (suc fuel) pgdir index bound perm k =
    let rest =
      (do
        allowed ← check_index pgdir index perm
        if allowed
            then check_loop fuel pgdir (add32 (round_down index) pg_size) bound perm
            else λ k'. ret e_fault (record k' { user_mem_check_addr = index }))
        k in
    if ltb index bound then rest else ret 0 k

-- The fuel is one more than the number of pages of 32-bit memory.
unfoldable pub user_mem_check : Env → (va len perm : ℕ) → K ℕ
user_mem_check env va len perm =
    check_loop (2 ^ 20 + 1) env.env_pgdir va (round_up (add32 va len)) perm
