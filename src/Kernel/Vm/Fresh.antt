-- ===== src/Kernel/Vm/Fresh.antt =====
-- `page_insert` at an address that maps nothing: the free list, and the pages that it leaves alone.
use csdi_jos.Common.{
  ℕ, ◌+◌, ◌%◌, ◌^◌, ◌≤◌, ◌<◌, ◌≡◌, ◌≢◌, ◌⊎◌, inl, inr, refl, sym, ap, ◌∙◌, subst, true, false,
  Bool-cases, none, some, List, [], ◌∷◌, NotIn, if◌then◌else◌, ℕ_discrete, arith,
}
use csdi_jos.Kernel.State.{Kernel, Page}
use csdi_jos.Kernel.State.Returns.{Returns, Returns-bind, Returns-mono, Returns-both}
use csdi_jos.Kernel.State.Layout.{pdx, ptx, pte_p, pte_w, pte_frame, make_pte, e_no_mem}
use csdi_jos.Kernel.Pages.FreeList.{FreeList, FreeList-frame}
use csdi_jos.Kernel.Vm.{page2pa, pgdir_walk, map_page, unlink_head, page_insert}
use csdi_jos.Kernel.Vm.Walk.{
  HasTable, NewTable, pgdir_walk-present, pgdir_walk-absent, pgdir_walk-create, make_pte-present,
}
use csdi_jos.Kernel.Vm.EmptyTable.{pde_kept, here_frame, NewTable-Directory, NewTable-translate}
use csdi_jos.Kernel.Vm.Insert.{map_page-Mapping}
use csdi_jos.Kernel.Vm.Store.{Writes, map_page-Writes}
use csdi_jos.Kernel.Vm.View.{
  present, translate, translate_table, assigned, same_page, Ordinary, Directory, Busy,
  Writes-Directory, Writes-translate, pde_same,
}

-- A well-formed directory with writable entries, and a free list without its pages.
pub record Space (k : Kernel) (pgdir : ℕ) (ps : List ℕ) : Type 0 where
  pub dir : Directory k pgdir
  pub free : FreeList k ps
  pub busy : Busy k pgdir ps
  pub memory : k.npages ≤ 2 ^ 20
  pub writable :
      (a : ℕ)
      → Ordinary a
      → pte_p (k.frames pgdir (pdx a)) ≡ true
      → pte_w (k.frames pgdir (pdx a)) ≡ true

-- A page that is neither free, nor the directory, nor one of its page tables.
pub record Private (k : Kernel) (pgdir : ℕ) (ps : List ℕ) (page : ℕ) : Type 0 where
  pub taken : NotIn page ps
  pub no_directory : page ≢ pgdir
  pub no_table :
      (a : ℕ)
      → Ordinary a
      → pte_p (k.frames pgdir (pdx a)) ≡ true
      → page ≢ pte_frame (k.frames pgdir (pdx a))

-- The list is `ps`, or `ps` without its first page.
pub data Used (ps : List ℕ) : List ℕ → Type 0 where
  none_used : Used ps ps
  one_used : (p : ℕ) (qs : List ℕ) → ps ≡ p ∷ qs → Used ps qs

-- `va` maps the entry now, and what was private is private and unchanged.
pub record Mapped (k k' : Kernel) (pgdir va pp entry : ℕ) (ps qs : List ℕ) : Type 0 where
  pub space : Space k' pgdir qs
  pub used : Used ps qs
  pub view :
      (a : ℕ) → Ordinary a → translate k' pgdir a ≡ assigned (translate k pgdir) va (some entry) a
  pub private : (f : ℕ) → Private k pgdir ps f → Private k' pgdir qs f × (k'.frames f ≡ k.frames f)
  pub counted : (k'.pages pp).pp_ref ≡ ((k.pages pp).pp_ref + 1) % 65536
  pub kept :
      k' ≡ record k { pages = k'.pages; page_free_list = k'.page_free_list; frames = k'.frames }

-- What `page_insert` comes to: the mapping, or no page for a page table.
abbrev pub MapsFresh : (k : Kernel) (pgdir va pp entry : ℕ) (ps : List ℕ) → ℕ → Kernel → Type 0
MapsFresh k pgdir va pp entry ps r k' =
    ((r ≡ 0) × (qs : List ℕ) × Mapped k k' pgdir va pp entry ps qs)
    ⊎ ((r ≡ e_no_mem) × (k' ≡ k) × (ps ≡ []))

map_page-kept :
    (table i pp perm : ℕ) (k : Kernel)
    → Returns
        (λ r k'.
          k'
          ≡ record k { pages = k'.pages; page_free_list = k'.page_free_list; frames = k'.frames })
        (map_page (table, i) pp perm k)
unfolding map_page
map_page-kept table i pp perm k = refl

-- A page that is not the first of the list is not taken off it.
unlink_head-kept :
    {k : Kernel} (pp : ℕ) (ps : List ℕ)
    → FreeList k ps
    → NotIn pp ps
    → (unlink_head pp k).page_free_list ≡ k.page_free_list
unfolding unlink_head
unlink_head-kept pp [] free out = ground (arith, free.chain)
unlink_head-kept pp (p ∷ ps) free out = ground (arith, free.chain.0, out.0)

-- A new page table takes the first page off the list.
module _ {k k₁ : Kernel} {pgdir va p : ℕ} {qs : List ℕ} (new : NewTable k k₁ pgdir va p)
    (space : Space k pgdir (p ∷ qs)) (rest : FreeList k₁ qs)
    (no_table : pte_p (k.frames pgdir (pdx va)) ≡ false) (at : Ordinary va) where
  -- An entry of the directory is the new table's, or one of before.
  table_cases :
      (a : ℕ)
      → pte_p (k₁.frames pgdir (pdx a)) ≡ true
      → (pte_frame (k₁.frames pgdir (pdx a)) ≡ p)
        ⊎ ((pte_frame (k₁.frames pgdir (pdx a)) ≡ pte_frame (k.frames pgdir (pdx a)))
            × (pte_p (k.frames pgdir (pdx a)) ≡ true))
  table_cases a set = elim (ℕ_discrete (pdx va) (pdx a)) [
    | yes same ↦ inl (here_frame new space.dir space.busy no_table at a same)
    | no ne ↦
        let e = pde_kept new space.dir space.busy no_table at a ne in
        inr (ap pte_frame e, sym (ap pte_p e) ∙ set)
  ]

  pub NewTable-Space : Space k₁ pgdir qs
  NewTable-Space = record {
    dir = NewTable-Directory new space.dir space.busy no_table at;
    free = rest;
    busy = record {
      directory = space.busy.directory.1;
      tables = λ a out set. elim (table_cases a set) [
        | inl e ↦ subst (λ f. NotIn f qs) (sym e) space.free.distinct.0
        | inr (e, was) ↦ subst (λ f. NotIn f qs) (sym e) (space.busy.tables a out was).1
      ];
    };
    memory = subst (λ n. n ≤ 2 ^ 20) (sym (ap (λ (s : Kernel). s.npages) new.kept)) space.memory;
    writable = λ a out set. elim (ℕ_discrete (pdx va) (pdx a)) [
      | yes here ↦ subst (λ i. pte_w (k₁.frames pgdir i) ≡ true) here new.writable
      | no ne ↦
          let e = pde_kept new space.dir space.busy no_table at a ne in
          ap pte_w e ∙ space.writable a out (sym (ap pte_p e) ∙ set)
    ];
  }

  NewTable-Private :
      (f : ℕ) → Private k pgdir (p ∷ qs) f → Private k₁ pgdir qs f × (k₁.frames f ≡ k.frames f)
  NewTable-Private f own = (
    record {
      taken = own.taken.1;
      no_directory = own.no_directory;
      no_table = λ a out set. elim (table_cases a set) [
        | inl e ↦ λ e'. own.taken.0 (e' ∙ e)
        | inr (e, was) ↦ λ e'. own.no_table a out was (e' ∙ e)
      ];
    },
    new.others f own.taken.0 own.no_directory,
  )

  -- The mapping, seen from before the table.
  Mapped-after :
      {k' : Kernel} {pp entry : ℕ}
      → p ≢ pp
      → Mapped k₁ k' pgdir va pp entry qs qs
      → Mapped k k' pgdir va pp entry (p ∷ qs) qs
  Mapped-after {k'} {pp} {entry} other m = record {
    space = m.space;
    used = one_used p qs refl;
    view = λ a out.
        m.view a out
        ∙ ap (λ e. if same_page va a then some entry else e)
            (NewTable-translate new space.dir space.busy no_table at a out);
    private = λ f own.
        let (own', same) = NewTable-Private f own in
        let (own'', same') = m.private f own' in (own'', same' ∙ same);
    counted = m.counted ∙ ap (λ (q : Page). (q.pp_ref + 1) % 65536) (new.counts pp other);
    kept =
        m.kept
        ∙ ap
            (λ (s : Kernel). record s {
              pages = k'.pages;
              page_free_list = k'.page_free_list;
              frames = k'.frames;
            })
            new.kept;
  }

module _ (pgdir va pp perm : ℕ) (low : perm < 4096) (at : Ordinary va) where
  abbrev entry : ℕ
  entry = make_pte (page2pa pp) perm

  entry-present : pp < 2 ^ 20 → present entry ≡ some entry
  entry-present small = rw (make_pte-present pp perm small low) refl

  -- The write of the entry, from a state `k₀` with a page table for `va`.
  module _ {k₀ : Kernel} {qs : List ℕ} {table : ℕ} (space : Space k₀ pgdir qs)
      (h : HasTable k₀ pgdir va table) (private : Private k₀ pgdir qs pp)
      (inside : pp < k₀.npages) where
    frames_kept :
        {k' : Kernel} {pte : ℕ}
        → Writes k₀ k' pgdir va table pte
        → (f : ℕ) → Private k₀ pgdir qs f
        → Private k' pgdir qs f × (k'.frames f ≡ k₀.frames f)
    frames_kept {k'} w f own = (
      record {
        taken = own.taken;
        no_directory = own.no_directory;
        no_table = λ a out set.
            subst (λ d. f ≢ pte_frame d) (sym (pde_same w a))
              (own.no_table a out (sym (ap pte_p (pde_same w a)) ∙ set));
      },
      w.others f (λ e. own.no_table va at h.present (e ∙ sym h.at)),
    )

    Busy-Writes : {k' : Kernel} {pte : ℕ} → Writes k₀ k' pgdir va table pte → Busy k' pgdir qs
    Busy-Writes {k'} w = record {
      directory = space.busy.directory;
      tables = λ a out set.
          subst (λ d. NotIn (pte_frame d) qs) (sym (pde_same w a))
            (space.busy.tables a out (sym (ap pte_p (pde_same w a)) ∙ set));
    }

    map_page-Mapped :
        Returns
          (λ r k'. (r ≡ 0) × Mapped k₀ k' pgdir va pp entry qs qs)
          (map_page (table, ptx va) pp perm k₀)
    map_page-Mapped =
        Returns-mono _ _ (map_page (table, ptx va) pp perm k₀)
          (Returns-both _ _ (map_page (table, ptx va) pp perm k₀)
            (Returns-both _ _ (map_page (table, ptx va) pp perm k₀)
              (map_page-Writes pgdir va table pp perm h)
              (map_page-Mapping pgdir va table pp perm low h space.memory inside))
            (map_page-kept table (ptx va) pp perm k₀))
          λ r k' ((wrote, mapping), kept).
            let (done, w) = wrote in
            let (done', m, count, others, head, size) = mapping in
            (
              done,
              record {
                space = record {
                  dir = Writes-Directory w space.dir;
                  free =
                      FreeList-frame space.free pp private.taken k'
                        (head ∙ unlink_head-kept pp qs space.free private.taken) others size;
                  busy = Busy-Writes w;
                  memory = subst (λ n. n ≤ 2 ^ 20) (sym size) space.memory;
                  writable = λ a out set.
                      ap pte_w (pde_same w a)
                      ∙ space.writable a out (sym (ap pte_p (pde_same w a)) ∙ set);
                };
                used = none_used;
                view = λ a out.
                    Writes-translate w space.dir h at a out
                    ∙ ap (λ e. assigned (translate k₀ pgdir) va e a)
                        (entry-present (omega (arith, inside, space.memory)));
                private = frames_kept w;
                counted = count;
                kept = kept;
              },
            )

  -- `page_insert` where nothing is mapped.
  insert_present :
      {k : Kernel} {ps : List ℕ}
      → Space k pgdir ps
      → Private k pgdir ps pp
      → pp < k.npages
      → translate k pgdir va ≡ none
      → pte_p (k.frames pgdir (pdx va)) ≡ true
      → Returns (MapsFresh k pgdir va pp entry ps) (page_insert (some pgdir) pp va perm k)
  unfolding page_insert
  insert_present {k} {ps} space private inside unmapped set =
      let table = pte_frame (k.frames pgdir (pdx va)) in
      let h = space.dir.tables va at set in
      let clear : pte_p (k.frames table (ptx va)) ≡ false =
        ground (arith, translate_table h, unmapped) in
      rw (pgdir_walk-present false h, clear)
        (Returns-mono (λ r k'. (r ≡ 0) × Mapped k k' pgdir va pp entry ps ps)
          (MapsFresh k pgdir va pp entry ps) (map_page (table, ptx va) pp perm k)
          (map_page-Mapped space h private inside) λ r k' (done, m). inl (done, ps, m))

  insert_absent :
      {k : Kernel} (ps : List ℕ)
      → Space k pgdir ps
      → Private k pgdir ps pp
      → pp < k.npages
      → pte_p (k.frames pgdir (pdx va)) ≡ false
      → Returns (MapsFresh k pgdir va pp entry ps) (page_insert (some pgdir) pp va perm k)
  unfolding page_insert
  insert_absent {k} [] space private inside no_table =
      let walked =
        pgdir_walk-create pgdir va [] space.free space.memory space.busy.directory no_table in
      rw (pgdir_walk-absent k pgdir va no_table, walked) (inr (refl, refl, refl))
  insert_absent {k} (p ∷ qs) space private inside no_table =
      let walked =
        pgdir_walk-create pgdir va (p ∷ qs) space.free space.memory space.busy.directory no_table in
      rw (pgdir_walk-absent k pgdir va no_table) (
        Returns-bind _ (MapsFresh k pgdir va pp entry (p ∷ qs)) (pgdir_walk (some pgdir) va true k)
          _ walked
          λ r k₁ (made, list, new). rw made (
            Returns-mono (λ r k'. (r ≡ 0) × Mapped k₁ k' pgdir va pp entry qs qs)
              (MapsFresh k pgdir va pp entry (p ∷ qs)) (map_page (p, ptx va) pp perm k₁)
              (map_page-Mapped (NewTable-Space new space list no_table at) new.table
                (NewTable-Private new space list no_table at pp private).0
                (subst (λ n. pp < n) (sym (ap (λ (s : Kernel). s.npages) new.kept)) inside))
              λ r k' (done, m). inl (
                done,
                qs,
                Mapped-after new space list no_table at (λ e. private.taken.0 (sym e)) m,
              )))

  pub page_insert-MapsFresh :
      {k : Kernel} {ps : List ℕ}
      → Space k pgdir ps
      → Private k pgdir ps pp
      → pp < k.npages
      → translate k pgdir va ≡ none
      → Returns (MapsFresh k pgdir va pp entry ps) (page_insert (some pgdir) pp va perm k)
  page_insert-MapsFresh {k} {ps} space private inside unmapped =
      elim (Bool-cases (pte_p (k.frames pgdir (pdx va)))) [
        | inl set ↦ insert_present space private inside unmapped set
        | inr no_table ↦ insert_absent ps space private inside no_table
      ]
