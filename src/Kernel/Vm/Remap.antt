-- ===== src/Kernel/Vm/Remap.antt =====
-- `page_insert` of the page that is mapped there already.
use csdi_jos.Common.{
  ℕ, suc, ◌^◌, ◌≤◌, ◌<◌, ◌≡◌, ◌≢◌, refl, sym, ap, ◌∙◌, subst, Bool, true, false, ◌==◌, some, List,
  [], ◌∷◌, NotIn, if◌then◌else◌, arith, ℕ_discrete,
}
use csdi_jos.Kernel.State.{Kernel, Page}
use csdi_jos.Kernel.State.Returns.{Returns, Returns-bind, Returns-mono}
use csdi_jos.Kernel.State.Layout.{ptx, pte_p, pte_frame}
use csdi_jos.Kernel.Pages.FreeList.{FreeList, FreeList-frame}
use csdi_jos.Kernel.Vm.{page_remove, map_page, page_insert, unlink_head}
use csdi_jos.Kernel.Vm.Walk.{HasTable, pgdir_walk-present}
use csdi_jos.Kernel.Vm.Remove.{Held, page_remove-Removed}
use csdi_jos.Kernel.Vm.Insert.{Mapping, HasTable-frame, map_page-Mapping}

-- The page leaves the free list if it stands at the front of it.
pub unlink_head-FreeList :
    {k : Kernel} (pp : ℕ) (ps : List ℕ) (front : Bool)
    → FreeList k (if front then pp ∷ ps else ps)
    → NotIn pp ps
    → FreeList (unlink_head pp k) ps
unfolding unlink_head
unlink_head-FreeList pp ps true free out = record {
  chain = ground (arith, free.chain);
  distinct = free.distinct.1;
  bounded = free.bounded.1;
  unused = free.unused.1;
}
unlink_head-FreeList pp [] false free out = record {
  chain = ground (arith, free.chain);
  distinct = tt;
  bounded = tt;
  unused = tt;
}
unlink_head-FreeList pp (q ∷ ps) false free out = record {
  chain = (ground (arith, free.chain), free.chain.1);
  distinct = free.distinct;
  bounded = free.bounded;
  unused = free.unused;
}

module _ (k : Kernel) (pgdir va pp perm : ℕ) (low : perm < 4096) (small : k.npages ≤ 2 ^ 20) where
  -- From `k'`, where `pp` has lost a reference, back to the counts of `k`.
  abbrev Recounts : Kernel → (table : ℕ) → List ℕ → ℕ → Kernel → Type 0
  Recounts k' table ps r k'' =
      (r ≡ 0)
      × FreeList k'' ps
      × Mapping k'' pgdir va table pp perm
      × ((k''.pages pp).pp_ref ≡ (k.pages pp).pp_ref)
      × ((q : ℕ) → pp ≢ q → k''.pages q ≡ k'.pages q)

  map_page-FreeList :
      {k' : Kernel} {table : ℕ} (ps : List ℕ) (front : Bool)
      → FreeList k' (if front then pp ∷ ps else ps)
      → NotIn pp ps
      → HasTable k' pgdir va table
      → k'.npages ≡ k.npages
      → pp < k.npages
      → suc (k'.pages pp).pp_ref ≡ (k.pages pp).pp_ref
      → (k.pages pp).pp_ref < 65536
      → Returns (Recounts k' table ps) (map_page (table, ptx va) pp perm k')
  map_page-FreeList {k'} {table} ps front free out h size inside count short =
      Returns-mono _ _ (map_page (table, ptx va) pp perm k')
        (map_page-Mapping pgdir va table pp perm low h (rw size small) (rw size inside))
        λ r k'' (done, mapping, counted, others, list, same). (
          done,
          FreeList-frame (unlink_head-FreeList pp ps front free out) pp out k'' list
              (λ q ne. others q ne ∙ unfold unlink_head in refl)
              (same ∙ unfold unlink_head in refl),
          mapping,
          omega arith,
          others,
        )

  -- The mapping stands, and no count and no free page has changed.
  abbrev pub Unchanged : (table : ℕ) → List ℕ → ℕ → Kernel → Type 0
  Unchanged table ps r k' =
      (r ≡ 0)
      × FreeList k' ps
      × Mapping k' pgdir va table pp perm
      × ((q : ℕ) → (k'.pages q).pp_ref ≡ (k.pages q).pp_ref)

  -- Let `va` map the page `pp`, which is in use, with `perm` below 4096 and at most 2 ^ 20 pages of
  -- memory. `page_insert` of `pp` at `va` returns 0, the entry has the new permissions, and neither
  -- the free list nor the reference count of any page has changed.
  pub page_insert_same :
      {table : ℕ} {ps : List ℕ}
      → FreeList k ps
      → HasTable k pgdir va table
      → pte_p (k.frames table (ptx va)) ≡ true
      → pte_frame (k.frames table (ptx va)) ≡ pp
      → Held k ps pp
      → Returns (Unchanged table ps) (page_insert (some pgdir) pp va perm k)
  unfolding page_insert
  page_insert_same {table} {ps} free h set names held =
      rw (pgdir_walk-present false h, set)
        (Returns-bind _ (Unchanged table ps) (page_remove (some pgdir) va k) _
          (page_remove-Removed h free (subst (Held k ps) (sym names) held))
          λ _ k' (removed, log).
            let same : k'.frames pgdir ≡ k.frames pgdir =
              ap (λ (fs : ℕ → ℕ → ℕ). fs pgdir) removed.cleared ∙ ground (arith, h.apart) in
            let size : k'.npages ≡ k.npages = ap (λ (s : Kernel). s.npages) removed.kept in
            let count =
              subst (λ q. suc (k'.pages q).pp_ref ≡ (k.pages q).pp_ref) names removed.count in
            Returns-mono (Recounts k' table ps) (Unchanged table ps)
              (map_page (table, ptx va) pp perm k')
              (map_page-FreeList ps ((k.pages pp).pp_ref == 1)
                (subst (λ q. FreeList k' (if (k.pages q).pp_ref == 1 then q ∷ ps else ps)) names
                  removed.free)
                held.busy (HasTable-frame same size h) size held.inside count held.short)
              λ r k'' (done, list, mapping, counted, others).
                let back : (q : ℕ) → (k''.pages q).pp_ref ≡ (k.pages q).pp_ref = λ q.
                  elim (ℕ_discrete pp q) [
                    | yes e ↦ subst (λ p. (k''.pages p).pp_ref ≡ (k.pages p).pp_ref) e counted
                    | no ne ↦
                        ap (λ (p : Page). p.pp_ref)
                          (others q ne ∙ removed.others q λ e. ne (sym names ∙ e))
                  ] in
                (done, list, mapping, back))
