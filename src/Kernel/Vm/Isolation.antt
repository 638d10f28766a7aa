-- ===== src/Kernel/Vm/Isolation.antt =====
-- What `page_insert` in one directory does to the address space of another: nothing.
use csdi_jos.Common.{
  ℕ, ◌^◌, ◌≤◌, ◌<◌, ◌≡◌, ◌≢◌, ◌⊎◌, inl, inr, refl, ap, ◌∙◌, subst, true, false, Bool-cases, none,
  some, List, [], ◌∷◌, NotIn, if◌then◌else◌, arith,
}
use csdi_jos.Kernel.State.{Kernel}
use csdi_jos.Kernel.State.Returns.{Returns, Returns-bind, Returns-mono}
use csdi_jos.Kernel.State.Layout.{u_top, pdx, ptx, pte_p, pte_frame, make_pte}
use csdi_jos.Kernel.Pages.FreeList.{FreeList}
use csdi_jos.Kernel.Vm.{page2pa, pgdir_walk, page_remove, map_page, page_insert}
use csdi_jos.Kernel.Vm.Walk.{
  HasTable, NewTable, pgdir_walk-present, pgdir_walk-absent, pgdir_walk-create,
}
use csdi_jos.Kernel.Vm.Remove.{page_remove-Removed}
use csdi_jos.Kernel.Vm.Insert.{Slot, absent, vacant, taken}
use csdi_jos.Kernel.Vm.Store.{Writes, Writes-trans, map_page-Writes, Removed-Writes}
use csdi_jos.Kernel.Vm.View.{
  present, translate, translate_table, below_top-Ordinary, Ordinary, Directory, Busy,
}
use csdi_jos.Kernel.Vm.Refinement.{MapsHeld}

-- What `page_insert` has stored: the entry, in a table that was there or in a new one.
pub data Stored (k : Kernel) (pgdir va pte : ℕ) (ps : List ℕ) (k' : Kernel) : Type 0 where
  in_place :
      (table : ℕ)
      → HasTable k pgdir va table
      → Writes k k' pgdir va table pte
      → Stored k pgdir va pte ps k'
  in_new :
      (p : ℕ) (qs : List ℕ) (k₁ : Kernel)
      → ps ≡ p ∷ qs
      → NewTable k k₁ pgdir va p
      → Writes k₁ k' pgdir va p pte
      → Stored k pgdir va pte ps k'

abbrev pub Stores : (k : Kernel) (pgdir va pte : ℕ) (ps : List ℕ) → ℕ → Kernel → Type 0
Stores k pgdir va pte ps r k' = Stored k pgdir va pte ps k' ⊎ (k' ≡ k)

Directory-Slot :
    (k : Kernel) (pgdir va : ℕ) (ps : List ℕ)
    → Directory k pgdir
    → Ordinary va
    → MapsHeld k pgdir va ps
    → Slot k pgdir va ps
Directory-Slot k pgdir va ps dir at held = elim (Bool-cases (pte_p (k.frames pgdir (pdx va)))) [
  | inr no_table ↦ absent no_table
  | inl set ↦
      let table = pte_frame (k.frames pgdir (pdx va)) in
      let h = dir.tables va at set in
      elim (Bool-cases (pte_p (k.frames table (ptx va)))) [
        | inr clear ↦ vacant table h clear
        | inl mapped ↦
            taken table h mapped
              (held (k.frames table (ptx va)) (translate_table h ∙ ground (arith, mapped)))
      ]
]

module _ (k : Kernel) (pgdir va pp perm : ℕ) (small : k.npages ≤ 2 ^ 20) where
  abbrev entry : ℕ
  entry = make_pte (page2pa pp) perm

  map_page-Stores :
      {k₁ : Kernel} {table : ℕ} (ps : List ℕ)
      → HasTable k₁ pgdir va table
      → ((k' : Kernel) → Writes k₁ k' pgdir va table entry → Stored k pgdir va entry ps k')
      → Returns (Stores k pgdir va entry ps) (map_page (table, ptx va) pp perm k₁)
  map_page-Stores {k₁} {table} ps h stored =
      Returns-mono _ (Stores k pgdir va entry ps) (map_page (table, ptx va) pp perm k₁)
        (map_page-Writes pgdir va table pp perm h) λ r k' (done, w). inl (stored k' w)

  page_insert-Stores :
      (ps : List ℕ)
      → FreeList k ps
      → NotIn pgdir ps
      → Slot k pgdir va ps
      → Returns (Stores k pgdir va entry ps) (page_insert (some pgdir) pp va perm k)
  unfolding page_insert
  page_insert-Stores [] free out (absent no_table) =
      let walked = pgdir_walk-create pgdir va [] free small out no_table in
      rw (pgdir_walk-absent k pgdir va no_table, walked) (inr refl)
  page_insert-Stores (p ∷ ps) free out (absent no_table) =
      let walked = pgdir_walk-create pgdir va (p ∷ ps) free small out no_table in
      rw (pgdir_walk-absent k pgdir va no_table) (
        Returns-bind _ (Stores k pgdir va entry (p ∷ ps)) (pgdir_walk (some pgdir) va true k) _
          walked
          λ r k₁ (made, list, new).
            rw made (map_page-Stores (p ∷ ps) new.table λ k' w. in_new p ps k₁ refl new w))
  page_insert-Stores ps free out (vacant table h clear) =
      rw (pgdir_walk-present false h, clear) (map_page-Stores ps h λ k' w. in_place table h w)
  page_insert-Stores ps free out (taken table h set held) =
      rw (pgdir_walk-present false h, set)
        (Returns-bind _ (Stores k pgdir va entry ps) (page_remove (some pgdir) va k) _
          (page_remove-Removed h free held)
          λ _ k₁ (removed, log).
            let first = Removed-Writes h removed in
            map_page-Stores ps first.walks λ k' w. in_place table h (Writes-trans first w))

-- Below `UTOP`, the directories share no page table, and neither is a table of the other.
pub record Apart (k : Kernel) (pgdir other : ℕ) : Type 0 where
  pub distinct : other ≢ pgdir
  pub other_table :
      (b : ℕ)
      → b < u_top
      → pte_p (k.frames other (pdx b)) ≡ true
      → pte_frame (k.frames other (pdx b)) ≢ pgdir
  pub own_table : (a table : ℕ) → a < u_top → HasTable k pgdir a table → other ≢ table
  pub tables :
      (a b table : ℕ)
      → a < u_top
      → b < u_top
      → HasTable k pgdir a table
      → pte_p (k.frames other (pdx b)) ≡ true
      → pte_frame (k.frames other (pdx b)) ≢ table

-- Below `UTOP` the address space of `other` is the same.
abbrev pub Same : (k : Kernel) (other : ℕ) → Kernel → Type 0
Same k other k' = (b : ℕ) → b < u_top → translate k' other b ≡ translate k other b

-- The words that the processor reads for `b` are the same.
translate_frame :
    (k k' : Kernel) (other b : ℕ)
    → k'.frames other ≡ k.frames other
    → (pte_p (k.frames other (pdx b)) ≡ true
        → k'.frames (pte_frame (k.frames other (pdx b)))
          ≡ k.frames (pte_frame (k.frames other (pdx b))))
    → translate k' other b ≡ translate k other b
unfolding translate
translate_frame k k' other b dir table =
    let pde = k.frames other (pdx b) in
    ap
      (λ (ws : ℕ → ℕ).
        if pte_p (ws (pdx b)) then present (k'.frames (pte_frame (ws (pdx b))) (ptx b)) else none)
      dir
    ∙ (elim (Bool-cases (pte_p pde)) [
      | inr clear ↦ rw clear refl
      | inl set ↦ ap (λ (ws : ℕ → ℕ). if pte_p pde then present (ws (ptx b)) else none) (table set)
    ])

module _ {k : Kernel} {pgdir va other pte : ℕ} {ps : List ℕ} (below : va < u_top)
    (apart : Apart k pgdir other) (busy : Busy k other ps) where
  Stored-Same : (k' : Kernel) → Stored k pgdir va pte ps k' → Same k other k'
  Stored-Same k' (in_place table h w) = λ b low.
      translate_frame k k' other b (w.others other (apart.own_table va table below h))
        λ set. w.others _ (apart.tables va b table below low h set)
  Stored-Same k' (in_new p qs k₁ at new w) = λ b low.
      let busy' = subst (Busy k other) at busy in
      let fresh : other ≢ p = busy'.directory.0 in
      translate_frame k k' other b (w.others other fresh ∙ new.others other fresh apart.distinct)
        λ set.
          let unused = (busy'.tables b (below_top-Ordinary b low) set).0 in
          w.others _ unused ∙ new.others _ unused (apart.other_table b low set)

module _ (k : Kernel) (pgdir va other pp perm : ℕ) (ps : List ℕ) (memory : k.npages ≤ 2 ^ 20)
    (below : va < u_top) (dir : Directory k pgdir) (free : FreeList k ps) (busy : Busy k pgdir ps)
    (held : MapsHeld k pgdir va ps) (apart : Apart k pgdir other) (its : Busy k other ps) where
  pub page_insert-Same : Returns (λ r k'. Same k other k') (page_insert (some pgdir) pp va perm k)
  page_insert-Same =
      Returns-mono (Stores k pgdir va (make_pte (page2pa pp) perm) ps) (λ r k'. Same k other k')
        (page_insert (some pgdir) pp va perm k)
        (page_insert-Stores k pgdir va pp perm memory ps free busy.directory
          (Directory-Slot k pgdir va ps dir (below_top-Ordinary va below) held))
        λ r k' stores. elim stores [
          | inl stored ↦ Stored-Same below apart its k' stored
          | inr same ↦ λ b low. ap (λ s. translate s other b) same
        ]
