-- ===== src/Kernel/Vm/Insert.antt =====
-- `page_insert`: what it maps, and what it counts.
use csdi_jos.Common.{
  ℕ, ◌+◌, ◌%◌, ◌^◌, ◌≤◌, ◌<◌, ◌≡◌, ◌≢◌, refl, sym, ap, ◌∙◌, subst, true, false, some, List, [], ◌∷◌,
  NotIn, arith,
}
use csdi_jos.Kernel.State.{Kernel, ret}
use csdi_jos.Kernel.State.Returns.{Returns, Returns-bind, Returns-mono}
use csdi_jos.Kernel.State.Layout.{pdx, ptx, pte_p, pte_frame, make_pte, e_no_mem}
use csdi_jos.Kernel.Pages.FreeList.{FreeList}
use csdi_jos.Kernel.Vm.{
  page2pa, pgdir_walk, page_lookup, page_remove, map_page, page_insert, unlink_head,
}
use csdi_jos.Kernel.Vm.Walk.{
  HasTable, pgdir_walk-present, pgdir_walk-absent, pgdir_walk-create, make_pte-frame,
}
use csdi_jos.Kernel.Vm.Remove.{Held, page_lookup-entry, page_remove-Removed}

-- `va` leads to the page with the permissions.
pub record Mapping (k : Kernel) (pgdir va table pp perm : ℕ) : Type 0 where
  pub walks : HasTable k pgdir va table
  pub word : k.frames table (ptx va) ≡ make_pte (page2pa pp) perm
  pub lookup : page_lookup (some pgdir) va k ≡ ret (some (pp, (table, ptx va))) k

pub HasTable-frame :
    {k k' : Kernel} {pgdir va table : ℕ}
    → k'.frames pgdir ≡ k.frames pgdir
    → k'.npages ≡ k.npages
    → HasTable k pgdir va table
    → HasTable k' pgdir va table
HasTable-frame {va} same size h = record {
  present = subst (λ ws. pte_p (ws (pdx va)) ≡ true) (sym same) h.present;
  at = ap (λ (ws : ℕ → ℕ). pte_frame (ws (pdx va))) same ∙ h.at;
  inside = rw size h.inside;
  apart = h.apart;
}

module _ (pgdir va table pp perm : ℕ) (low : perm < 4096) where
  Mapping-intro :
      {k : Kernel}
      → HasTable k pgdir va table
      → k.frames table (ptx va) ≡ make_pte (page2pa pp) perm
      → k.npages ≤ 2 ^ 20
      → pp < k.npages
      → Mapping k pgdir va table pp perm
  Mapping-intro {k} h word small inside = record {
    walks = h;
    word = word;
    lookup =
        page_lookup-entry h (rw page inside)
        ∙ ap (λ (q : ℕ). ret (some (q, (table, ptx va))) k) page;
  }
    where
      page : pte_frame (k.frames table (ptx va)) ≡ pp
      page = ap (λ (w : ℕ). pte_frame w) word ∙ make_pte-frame pp perm (omega arith) low

  -- The write maps the page, and adds one reference.
  pub map_page-Mapping :
      {k : Kernel}
      → HasTable k pgdir va table
      → k.npages ≤ 2 ^ 20
      → pp < k.npages
      → Returns
          (λ r k'.
            (r ≡ 0)
            × Mapping k' pgdir va table pp perm
            × ((k'.pages pp).pp_ref ≡ ((k.pages pp).pp_ref + 1) % 65536)
            × ((q : ℕ) → pp ≢ q → k'.pages q ≡ k.pages q)
            × (k'.page_free_list ≡ (unlink_head pp k).page_free_list)
            × (k'.npages ≡ k.npages))
          (map_page (table, ptx va) pp perm k)
  unfolding map_page
  map_page-Mapping {k} h small inside = (
    refl,
    Mapping-intro (HasTable-frame (ground (arith, h.apart)) refl h) (ground arith) small inside,
    ground arith,
    λ q ne. ground arith,
    refl,
    refl,
  )

-- The entry for `va` as `page_insert` may find it.
pub data Slot (k : Kernel) (pgdir va : ℕ) (ps : List ℕ) : Type 0 where
  absent : pte_p (k.frames pgdir (pdx va)) ≡ false → Slot k pgdir va ps
  vacant :
      (table : ℕ)
      → HasTable k pgdir va table
      → pte_p (k.frames table (ptx va)) ≡ false
      → Slot k pgdir va ps
  taken :
      (table : ℕ)
      → HasTable k pgdir va table
      → pte_p (k.frames table (ptx va)) ≡ true
      → Held k ps (pte_frame (k.frames table (ptx va)))
      → Slot k pgdir va ps

abbrev Maps : (pgdir va pp perm : ℕ) → ℕ → Kernel → Type 0
Maps pgdir va pp perm r k' = (r ≡ 0) × (table : ℕ) × Mapping k' pgdir va table pp perm

-- What `page_insert` answers: the mapping, or no memory for a page table and nothing changed.
abbrev pub Inserts :
    (k : Kernel) (pgdir va pp perm : ℕ) (ps : List ℕ) → Slot k pgdir va ps → ℕ → Kernel → Type 0
Inserts k pgdir va pp perm ps (absent _) r k' = elim ps [
  | [] ↦ (r ≡ e_no_mem) × (k' ≡ k)
  | _ ∷ _ ↦ Maps pgdir va pp perm r k'
]
Inserts k pgdir va pp perm ps (vacant _ _ _) r k' = Maps pgdir va pp perm r k'
Inserts k pgdir va pp perm ps (taken _ _ _ _) r k' = Maps pgdir va pp perm r k'

module _ (k : Kernel) (pgdir va pp perm : ℕ) (low : perm < 4096) (small : k.npages ≤ 2 ^ 20)
    (inside : pp < k.npages) where
  map_page-Maps :
      {k' : Kernel} {table : ℕ}
      → HasTable k' pgdir va table
      → k'.npages ≡ k.npages
      → Returns (Maps pgdir va pp perm) (map_page (table, ptx va) pp perm k')
  map_page-Maps {k'} {table} h size =
      Returns-mono _ (Maps pgdir va pp perm) (map_page (table, ptx va) pp perm k')
        (map_page-Mapping pgdir va table pp perm low h (rw size small) (rw size inside))
        λ r k'' done. (done.0, table, done.1)

  -- Let the free list hold `ps`, let memory have at most 2 ^ 20 pages, let `pp` be one of them, let
  -- `perm` be below 4096 and let the directory not be a free page. Where the page table for `va` is
  -- present, in memory and not the directory itself, and its entry maps nothing or a page in use,
  -- `page_insert` returns 0 and `page_lookup` then finds `pp` under an entry with exactly these
  -- permissions. Where the page table is absent the same holds when a page is free; when none is
  -- free it returns the error for no memory and changes nothing.
  pub page_insert-Inserts :
      {ps : List ℕ}
      → FreeList k ps
      → NotIn pgdir ps
      → (slot : Slot k pgdir va ps)
      → Returns (Inserts k pgdir va pp perm ps slot) (page_insert (some pgdir) pp va perm k)
  unfolding page_insert
  page_insert-Inserts {ps = []} free out (absent no_table) =
      let walked = pgdir_walk-create pgdir va [] free small out no_table in
      rw (pgdir_walk-absent k pgdir va no_table, walked) (refl, refl)
  page_insert-Inserts {ps = p ∷ ps} free out (absent no_table) =
      let walked = pgdir_walk-create pgdir va (p ∷ ps) free small out no_table in
      rw (pgdir_walk-absent k pgdir va no_table) (
        Returns-bind _ (Maps pgdir va pp perm) (pgdir_walk (some pgdir) va true k) _ walked
          λ r k' (made, list, new).
            rw made (map_page-Maps new.table (ap (λ (s : Kernel). s.npages) new.kept)))
  page_insert-Inserts {ps} free out (vacant table h clear) =
      rw (pgdir_walk-present false h, clear) (map_page-Maps h refl)
  page_insert-Inserts {ps} free out (taken table h set held) =
      rw (pgdir_walk-present false h, set)
        (Returns-bind _ (Maps pgdir va pp perm) (page_remove (some pgdir) va k) _
          (page_remove-Removed h free held)
          λ _ k' (removed, log).
            let same : k'.frames pgdir ≡ k.frames pgdir =
              ap (λ (fs : ℕ → ℕ → ℕ). fs pgdir) removed.cleared ∙ ground (arith, h.apart) in
            let size : k'.npages ≡ k.npages = ap (λ (s : Kernel). s.npages) removed.kept in
            map_page-Maps {k' = k'} (HasTable-frame same size h) size)
