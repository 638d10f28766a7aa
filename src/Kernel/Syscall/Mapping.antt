-- ===== src/Kernel/Syscall/Mapping.antt =====
-- `sys_page_alloc`: the page that it maps.
use csdi_jos.Common.{
  ℕ, ◌%◌, ◌^◌, ◌≤◌, ◌<◌, ◌≡◌, ◌≢◌, refl, sym, ap, ◌∙◌, subst, true, false, some, List, [], ◌∷◌,
  NotIn, arith,
}
use csdi_jos.Kernel.State.{Kernel, Outcome, ret}
use csdi_jos.Kernel.State.Returns.{Returns, Returns-bind}
use csdi_jos.Kernel.State.Layout.{u_top, pg_size, ptx, pte_p, pte_u, e_no_mem}
use csdi_jos.Kernel.Pages.FreeList.{FreeList, FreeList-frame, page_alloc_lem}
use csdi_jos.Kernel.Vm.{page_insert, map_page}
use csdi_jos.Kernel.Vm.Walk.{HasTable, pgdir_walk-present}
use csdi_jos.Kernel.Vm.Insert.{Mapping, HasTable-frame, map_page-Mapping}
use csdi_jos.Kernel.Vm.Remap.{unlink_head-FreeList}
use csdi_jos.Kernel.Envs.{envid2env}
use csdi_jos.Kernel.Syscall.{sys_page_alloc, insert_new}

-- The state in which `va` maps the page `p`, which was free.
pub record Allocated (k' : Kernel) (pgdir va table p perm : ℕ) (ps : List ℕ) : Type 0 where
  pub mapping : Mapping k' pgdir va table p perm
  pub zeroed : (i : ℕ) → k'.frames p i ≡ 0
  pub counted : (k'.pages p).pp_ref ≡ 1
  pub free : FreeList k' ps

-- What `sys_page_alloc` answers where nothing is mapped, by the free pages.
abbrev pub PageAllocs : Kernel → (pgdir va table perm : ℕ) → List ℕ → Outcome ℕ → Type 0
PageAllocs k pgdir va table perm [] o = o ≡ ret e_no_mem k
PageAllocs k pgdir va table perm (p ∷ ps) o =
    Returns (λ r k'. (r ≡ 0) × Allocated k' pgdir va table p perm ps) o

module _ {k : Kernel} (pgdir va table p perm : ℕ) (ps : List ℕ) (low : perm < 4096)
    (small : k.npages ≤ 2 ^ 20) (inside : p < k.npages) (h : HasTable k pgdir va table)
    (free : FreeList k ps) (out : NotIn p ps) (unused : (k.pages p).pp_ref ≡ 0)
    (zeroed : (i : ℕ) → k.frames p i ≡ 0) (apart : p ≢ table) where
  abbrev Done : ℕ → Kernel → Type 0
  Done r k' = (r ≡ 0) × Allocated k' pgdir va table p perm ps

  map_new : Returns Done (map_page (table, ptx va) p perm k)
  unfolding map_page
  map_new =
      let mapped = map_page-Mapping pgdir va table p perm low h small inside in
      let list = unlink_head-FreeList p ps false free out in
      (
        mapped.0,
        record {
          mapping = mapped.1;
          zeroed = λ i. ground (arith, zeroed i);
          counted = ground (arith, unused);
          free = FreeList-frame list p out _ refl (λ q ne. ground arith) refl;
        },
      )

  insert_new-Done :
      (e : ℕ)
      → (k.envs e).env_pgdir ≡ some pgdir
      → pte_p (k.frames table (ptx va)) ≡ false
      → Returns Done (insert_new (some e) p va perm k)
  unfolding insert_new page_insert
  insert_new-Done e dir clear =
      let vacant : page_insert (k.envs e).env_pgdir p va perm k
          ≡ map_page (table, ptx va) p perm k =
        rw (dir, pgdir_walk-present false h, clear) refl in
      Returns-bind Done Done (page_insert (k.envs e).env_pgdir p va perm k) _
        (subst (Returns Done) (sym vacant) map_new) λ r k' (ok, done). rw ok (refl, done)

-- Let `envid` resolve to `e`, and let the page table for `va` be present, in memory and not the
-- directory, with no page at `va`; let neither it nor the directory be a free page, and memory have
-- at most 2 ^ 20 pages. For a page-aligned `va` up to `UTOP` itself and any `perm` below 4096 with
-- `PTE_U` and `PTE_P`, `sys_page_alloc` returns the error for no memory without a change when no
-- page is free. Otherwise it returns 0 and `va` maps the first free page with exactly `perm`; the
-- page's words are 0, it has one reference, and the free list holds exactly the other pages.
pub sys_page_alloc-PageAllocs :
    {k : Kernel} (envid e pgdir va table perm : ℕ) (ps : List ℕ)
    → envid2env envid true k ≡ ret (0, some e) k
    → (k.envs e).env_pgdir ≡ some pgdir
    → HasTable k pgdir va table
    → pte_p (k.frames table (ptx va)) ≡ false
    → FreeList k ps
    → NotIn pgdir ps
    → NotIn table ps
    → k.npages ≤ 2 ^ 20
    → va ≤ u_top
    → va % pg_size ≡ 0
    → pte_u perm ≡ true
    → pte_p perm ≡ true
    → perm < 4096
    → PageAllocs k pgdir va table perm ps (sys_page_alloc envid va perm k)
unfolding sys_page_alloc
sys_page_alloc-PageAllocs envid e pgdir va table perm [] found dir h clear free apart away small
      below aligned u p low =
    ground (arith, found, page_alloc_lem 1 [] free)
sys_page_alloc-PageAllocs {k} envid e pgdir va table perm (p ∷ ps) found dir h clear free apart away
      small below aligned u present low =
    let (k', taken, rest, zeroed, same, kept) = page_alloc_lem 1 (p ∷ ps) free in
    let called : sys_page_alloc envid va perm k ≡ insert_new (some e) p va perm k' =
      ground (arith, found, taken) in
    let size : k'.npages ≡ k.npages = ap (λ (s : Kernel). s.npages) kept in
    let tables : k'.frames table ≡ k.frames table = same table (λ q. away.0 (sym q)) in
    subst (Returns (λ r k''. (r ≡ 0) × Allocated k'' pgdir va table p perm ps)) (sym called) (
      insert_new-Done pgdir va table p perm ps low (rw size small) (rw size free.bounded.0)
        (HasTable-frame (same pgdir (λ q. apart.0 (sym q))) size h) rest free.distinct.0
        (ap (λ (s : Kernel). (s.pages p).pp_ref) kept ∙ free.unused.0) zeroed (λ q. away.0 (sym q))
        e (ap (λ (s : Kernel). (s.envs e).env_pgdir) kept ∙ dir)
        (subst (λ ws. pte_p (ws (ptx va)) ≡ false) (sym tables) clear))
