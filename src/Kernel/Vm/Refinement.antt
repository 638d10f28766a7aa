-- ===== src/Kernel/Vm/Refinement.antt =====
-- `page_insert` and `page_remove` against the address space of the directory.
use csdi_jos.Common.{
  ℕ, ◌^◌, ◌≤◌, ◌<◌, ◌≡◌, ◌⊎◌, inl, inr, refl, sym, ap, ◌∙◌, subst, true, false, Bool-cases, Option,
  none, some, List, [], ◌∷◌, if◌then◌else◌, arith,
}
use csdi_jos.Kernel.State.{Kernel}
use csdi_jos.Kernel.State.Returns.{Returns, Returns-bind, Returns-mono}
use csdi_jos.Kernel.State.Layout.{pdx, ptx, pte_p, pte_frame, make_pte, e_no_mem}
use csdi_jos.Kernel.Pages.FreeList.{FreeList}
use csdi_jos.Kernel.Vm.{page2pa, pgdir_walk, page_remove, map_page, page_insert}
use csdi_jos.Kernel.Vm.Walk.{
  HasTable, pgdir_walk-present, pgdir_walk-absent, pgdir_walk-create, make_pte-present,
}
use csdi_jos.Kernel.Vm.Remove.{Held, page_remove-Removed}
use csdi_jos.Kernel.Vm.EmptyTable.{NewTable-Directory, NewTable-translate}
use csdi_jos.Kernel.Vm.Store.{Writes, Writes-trans, map_page-Writes, Removed-Writes}
use csdi_jos.Kernel.Vm.View.{
  present, translate, translate_table, translate-none, same_page, assigned, Ordinary, Directory,
  Busy, Writes-Directory, Writes-translate,
}

-- The directory is well formed, and its address space is that of `k` but for the page of `va`.
abbrev pub Becomes : (k : Kernel) (pgdir va : ℕ) (entry : Option ℕ) → Kernel → Type 0
Becomes k pgdir va entry k' =
    Directory k' pgdir
    × ((a : ℕ) → Ordinary a → translate k' pgdir a ≡ assigned (translate k pgdir) va entry a)

-- What `page_insert` does to the address space: it maps the page, or there is no page for a table.
abbrev pub Assigns : (k : Kernel) (pgdir va entry : ℕ) (ps : List ℕ) → ℕ → Kernel → Type 0
Assigns k pgdir va entry ps r k' =
    ((r ≡ 0) × Becomes k pgdir va (some entry) k')
    ⊎ ((r ≡ e_no_mem) × (k' ≡ k) × (ps ≡ []) × (pte_p (k.frames pgdir (pdx va)) ≡ false))

-- The page that `va` maps, if any, is in use.
abbrev pub MapsHeld : (k : Kernel) (pgdir va : ℕ) (ps : List ℕ) → Type 0
MapsHeld k pgdir va ps = (pte : ℕ) → translate k pgdir va ≡ some pte → Held k ps (pte_frame pte)

Writes-Becomes :
    {k k' : Kernel} {pgdir va table pte : ℕ}
    → Writes k k' pgdir va table pte
    → Directory k pgdir
    → HasTable k pgdir va table
    → Ordinary va
    → Becomes k pgdir va (present pte) k'
Writes-Becomes w dir here at = (Writes-Directory w dir, Writes-translate w dir here at)

module _ (k : Kernel) (pgdir va pp perm : ℕ) (low : perm < 4096) (small : pp < 2 ^ 20)
    (at : Ordinary va) where
  abbrev entry : ℕ
  entry = make_pte (page2pa pp) perm

  entry-present : present entry ≡ some entry
  entry-present = rw (make_pte-present pp perm small low) refl

  map_page-Assigns :
      {k' : Kernel} {table : ℕ} (ps : List ℕ)
      → Directory k' pgdir
      → HasTable k' pgdir va table
      → ((a : ℕ) → Ordinary a → translate k' pgdir a ≡ translate k pgdir a)
      → Returns (Assigns k pgdir va entry ps) (map_page (table, ptx va) pp perm k')
  map_page-Assigns {k'} {table} ps dir h same =
      Returns-mono _ (Assigns k pgdir va entry ps) (map_page (table, ptx va) pp perm k')
        (map_page-Writes pgdir va table pp perm h)
        λ r k'' (done, w).
          let (dir', view) = Writes-Becomes w dir h at in
          inl (
            done,
            (
              dir',
              λ a out.
                  view a out
                  ∙ ap (λ e. assigned (translate k' pgdir) va e a) entry-present
                  ∙ ap (λ e. if same_page va a then some entry else e) (same a out),
            ),
          )

  -- After `page_remove` has cleared the entry.
  map_page_after :
      {k' : Kernel} {table : ℕ} (ps : List ℕ)
      → Directory k pgdir
      → HasTable k pgdir va table
      → Writes k k' pgdir va table 0
      → Returns (Assigns k pgdir va entry ps) (map_page (table, ptx va) pp perm k')
  map_page_after {k'} {table} ps dir h first =
      Returns-mono _ (Assigns k pgdir va entry ps) (map_page (table, ptx va) pp perm k')
        (map_page-Writes pgdir va table pp perm first.walks)
        λ r k'' (done, second).
          let becomes = Writes-Becomes (Writes-trans first second) dir h at in
          inl (done, subst (λ e. Becomes k pgdir va e k'') entry-present becomes)

  module _ {ps : List ℕ} (dir : Directory k pgdir) (free : FreeList k ps) where
    insert_present :
        pte_p (k.frames pgdir (pdx va)) ≡ true
        → MapsHeld k pgdir va ps
        → Returns (Assigns k pgdir va entry ps) (page_insert (some pgdir) pp va perm k)
    unfolding page_insert
    insert_present set held =
        let table = pte_frame (k.frames pgdir (pdx va)) in
        let h = dir.tables va at set in
        elim (Bool-cases (pte_p (k.frames table (ptx va)))) [
          | inr clear ↦
              rw (pgdir_walk-present false h, clear) (map_page-Assigns ps dir h λ a out. refl)
          | inl mapped ↦
              let found = translate_table h ∙ ground (arith, mapped) in
              rw (pgdir_walk-present false h, mapped)
                (Returns-bind _ (Assigns k pgdir va entry ps) (page_remove (some pgdir) va k) _
                  (page_remove-Removed h free (held (k.frames table (ptx va)) found))
                  λ _ k' (removed, log). map_page_after ps dir h (Removed-Writes h removed))
        ]

  insert_absent :
      (ps : List ℕ)
      → Directory k pgdir
      → FreeList k ps
      → pte_p (k.frames pgdir (pdx va)) ≡ false
      → k.npages ≤ 2 ^ 20
      → Busy k pgdir ps
      → Returns (Assigns k pgdir va entry ps) (page_insert (some pgdir) pp va perm k)
  unfolding page_insert
  insert_absent [] dir free no_table memory busy =
      let walked = pgdir_walk-create pgdir va [] free memory busy.directory no_table in
      rw (pgdir_walk-absent k pgdir va no_table, walked) (inr (refl, refl, refl, no_table))
  insert_absent (p ∷ ps) dir free no_table memory busy =
      let walked = pgdir_walk-create pgdir va (p ∷ ps) free memory busy.directory no_table in
      rw (pgdir_walk-absent k pgdir va no_table) (
        Returns-bind _ (Assigns k pgdir va entry (p ∷ ps)) (pgdir_walk (some pgdir) va true k) _
          walked
          λ r k' (made, list, new). rw made (
            map_page-Assigns (p ∷ ps) (NewTable-Directory new dir busy no_table at) new.table
              (NewTable-translate new dir busy no_table at)))

  -- The address space of a directory is what the processor translates: the present entry of a
  -- present table. Let the directory be well formed at the addresses outside the window at `UVPT`:
  -- each page table lies in memory and is not the directory, and no two entries share one. Let
  -- neither the directory nor these tables be free pages, let `va` be outside the window and map
  -- nothing or a page in use, let memory have at most 2 ^ 20 pages, `pp` be below 2 ^ 20 and `perm`
  -- below 4096. Then `page_insert` returns 0, the directory is well formed, and outside the window
  -- the address space is that of before with the entry for `pp` and `perm` at the page of `va` and
  -- no other change, also where it has made a page table. The exception is that the page table is
  -- absent and no page is free: then it returns the error for no memory and changes nothing.
  pub page_insert-Assigns :
      {ps : List ℕ}
      → Directory k pgdir
      → FreeList k ps
      → k.npages ≤ 2 ^ 20
      → Busy k pgdir ps
      → MapsHeld k pgdir va ps
      → Returns (Assigns k pgdir va entry ps) (page_insert (some pgdir) pp va perm k)
  page_insert-Assigns {ps} dir free memory busy held =
      elim (Bool-cases (pte_p (k.frames pgdir (pdx va)))) [
        | inl set ↦ insert_present dir free set held
        | inr no_table ↦ insert_absent ps dir free no_table memory busy
      ]

pub present_inv : (w pte : ℕ) → present w ≡ some pte → w ≡ pte
present_inv w pte h = elim (Bool-cases (pte_p w)) [
  | inl set ↦ ground (arith, h, set)
  | inr clear ↦ ground (arith, h, clear)
]

pub table_of_entry :
    (k : Kernel) (pgdir va pte : ℕ)
    → translate k pgdir va ≡ some pte
    → (pte_p (k.frames pgdir (pdx va)) ≡ true)
table_of_entry k pgdir va pte found = elim (Bool-cases (pte_p (k.frames pgdir (pdx va)))) [
  | inl set ↦ set
  | inr clear ↦ absurd (ground (arith, found, translate-none k pgdir va clear))
]

-- Let `va`, outside the window at `UVPT`, map an entry of a well-formed directory whose page is in
-- use. `page_remove` returns, the directory is well formed, and outside the window the address
-- space maps nothing at the page of `va` and is else the same.
pub page_remove-Becomes :
    (k : Kernel) (pgdir va pte : ℕ) (ps : List ℕ)
    → Ordinary va
    → Directory k pgdir
    → FreeList k ps
    → translate k pgdir va ≡ some pte
    → Held k ps (pte_frame pte)
    → Returns (λ _ k'. Becomes k pgdir va none k') (page_remove (some pgdir) va k)
page_remove-Becomes k pgdir va pte ps at dir free found held =
    let table = pte_frame (k.frames pgdir (pdx va)) in
    let h = dir.tables va at (table_of_entry k pgdir va pte found) in
    let word = present_inv (k.frames table (ptx va)) pte (sym (translate_table h) ∙ found) in
    Returns-mono _ (λ _ k'. Becomes k pgdir va none k') (page_remove (some pgdir) va k)
      (page_remove-Removed h free (subst (λ w. Held k ps (pte_frame w)) (sym word) held))
      λ _ k' (removed, log). Writes-Becomes (Removed-Writes h removed) dir h at
