-- ===== src/Kernel/Vm/Remove.antt =====
-- What `page_remove` does with the entry for an address, mapped or not.
use csdi_jos.Common.{
  ℕ, suc, ◌<◌, ◌≡◌, ◌≢◌, sym, ap, ◌∙◌, subst, false, ◌==◌, some, List, ◌∷◌, NotIn, if◌then◌else◌,
  update, arith,
}
use csdi_jos.Kernel.State.{Kernel, ret, set_word}
use csdi_jos.Kernel.State.Returns.{Returns, Returns-bind, Returns-mono}
use csdi_jos.Kernel.State.Layout.{ptx, pte_frame}
use csdi_jos.Kernel.Pages.{page_decref}
use csdi_jos.Kernel.Pages.FreeList.{FreeList, page_decref_lem}
use csdi_jos.Kernel.Vm.{page_lookup, is_current, page_remove}
use csdi_jos.Kernel.Vm.Walk.{HasTable, pgdir_walk-present}

-- A page in use: in memory, not free, and with a count that can fall.
pub record Held (k : Kernel) (ps : List ℕ) (page : ℕ) : Type 0 where
  pub inside : page < k.npages
  pub busy : NotIn page ps
  pub counted : 0 < (k.pages page).pp_ref
  pub short : (k.pages page).pp_ref < 65536

-- `page_lookup` answers the page of the entry, present or not.
pub page_lookup-entry :
    {k : Kernel} {pgdir va table : ℕ}
    → HasTable k pgdir va table
    → pte_frame (k.frames table (ptx va)) < k.npages
    → page_lookup (some pgdir) va k
      ≡ ret (some (pte_frame (k.frames table (ptx va)), (table, ptx va))) k
unfolding page_lookup
page_lookup-entry h lt = rw (pgdir_walk-present false h) (ground arith)

-- The state after the entry of `page` has been cleared.
pub record Removed (k k' : Kernel) (va table page : ℕ) (ps : List ℕ) : Type 0 where
  pub free : FreeList k' (if (k.pages page).pp_ref == 1 then page ∷ ps else ps)
  pub count : suc (k'.pages page).pp_ref ≡ (k.pages page).pp_ref
  pub others : (q : ℕ) → page ≢ q → k'.pages q ≡ k.pages q
  pub cleared : k'.frames ≡ (set_word table (ptx va) 0 k).frames
  pub kept : k' ≡ record k {
    pages = k'.pages;
    page_free_list = k'.page_free_list;
    frames = k'.frames;
    flushed = k'.flushed;
  }

-- Let the page table for `va` be present, in memory and not the directory, and let its entry name a
-- page in use: one of memory, not free, with a count from 1 to 65535. `page_remove` takes one
-- reference from the page, which goes to the front of the free list with its last reference and
-- stays off it otherwise, sets the entry to 0 and no other word, and flushes `va` when the
-- directory is the current one.
pub page_remove-Removed :
    {k : Kernel} {pgdir va table : ℕ} {ps : List ℕ}
    → HasTable k pgdir va table
    → FreeList k ps
    → Held k ps (pte_frame (k.frames table (ptx va)))
    → Returns
        (λ _ k'.
          Removed k k' va table (pte_frame (k.frames table (ptx va))) ps
          × (k'.flushed ≡ (if is_current k (some pgdir) then va ∷ k.flushed else k.flushed)))
        (page_remove (some pgdir) va k)
unfolding page_remove
page_remove-Removed {k} {pgdir} {va} {table} {ps} h free held =
    rw (page_lookup-entry h held.inside) (
      Returns-bind _ _ (page_decref (pte_frame (k.frames table (ptx va))) k) _
        (page_decref_lem (pte_frame (k.frames table (ptx va))) free held.busy held.inside
          held.counted held.short)
        λ _ k' (count, list, others, kept).
          let memory : k'.frames ≡ k.frames = ap (λ (s : Kernel). s.frames) kept in
          let log : k'.flushed ≡ k.flushed = ap (λ (s : Kernel). s.flushed) kept in
          let current : is_current k' (some pgdir) ≡ is_current k (some pgdir) =
            ap (λ (s : Kernel). is_current s (some pgdir)) kept in
          (
            record {
              free = record {
                chain = list.chain;
                distinct = list.distinct;
                bounded = list.bounded;
                unused = list.unused;
              };
              count = count;
              others = others;
              cleared =
                  ap (λ (fs : ℕ → ℕ → ℕ). update fs table (update (fs table) (ptx va) 0)) memory;
              kept =
                  ap
                    (λ (s : Kernel). record s {
                      frames = update k'.frames table (update (k'.frames table) (ptx va) 0);
                      flushed = if is_current k' (some pgdir) then va ∷ k'.flushed else k'.flushed;
                    })
                    kept;
            },
            rw (current, log),
          ))

-- Where the page table for `va` is present, in memory and not the directory, and its entry is 0, as
-- `page_remove` leaves it, `page_lookup` answers page 0. As page 0 is not free and has references,
-- `page_remove` takes one, and puts page 0 on the free list with the last.
pub page_remove_unmapped :
    {k : Kernel} {pgdir va table : ℕ} {ps : List ℕ}
    → HasTable k pgdir va table
    → k.frames table (ptx va) ≡ 0
    → FreeList k ps
    → Held k ps 0
    → (page_lookup (some pgdir) va k ≡ ret (some (0, (table, ptx va))) k)
      × Returns
          (λ _ k'.
            (suc (k'.pages 0).pp_ref ≡ (k.pages 0).pp_ref)
            × FreeList k' (if (k.pages 0).pp_ref == 1 then 0 ∷ ps else ps))
          (page_remove (some pgdir) va k)
page_remove_unmapped {k} {pgdir} {va} {table} {ps} h empty free held =
    let page : pte_frame (k.frames table (ptx va)) ≡ 0 = omega arith in
    let held' = subst (Held k ps) (sym page) held in
    (
      page_lookup-entry h (rw page held.inside)
          ∙ ap (λ (q : ℕ). ret (some (q, (table, ptx va))) k) page,
      Returns-mono _ _ (page_remove (some pgdir) va k) (page_remove-Removed h free held')
          λ _ k' (removed, log). (
            subst (λ q. suc (k'.pages q).pp_ref ≡ (k.pages q).pp_ref) page removed.count,
            subst (λ q. FreeList k' (if (k.pages q).pp_ref == 1 then q ∷ ps else ps)) page
                removed.free,
          ),
    )
