-- ===== src/Kernel/Vm/EmptyTable.antt =====
-- Creating a page table keeps the directory well formed, and its address space.
use csdi_jos.Common.{
  ℕ, ◌<◌, ◌≡◌, ◌≢◌, inl, inr, refl, sym, ap, ◌∙◌, subst, true, false, Bool-cases, List, ◌∷◌,
  ℕ_discrete,
}
use csdi_jos.Kernel.State.{Kernel}
use csdi_jos.Kernel.State.Layout.{pdx, ptx, pte_p, pte_frame}
use csdi_jos.Kernel.Vm.Walk.{HasTable, NewTable}
use csdi_jos.Kernel.Vm.View.{
  present, translate, translate_table, translate-none, Ordinary, Directory, Busy, HasTable_same,
}

-- A new page table maps nothing, so the address space is the same.
module _ {k k' : Kernel} {pgdir va p : ℕ} {ps : List ℕ} (new : NewTable k k' pgdir va p)
    (dir : Directory k pgdir) (busy : Busy k pgdir (p ∷ ps))
    (no_table : pte_p (k.frames pgdir (pdx va)) ≡ false) (at : Ordinary va) where
  pub pde_kept : (a : ℕ) → pdx va ≢ pdx a → k'.frames pgdir (pdx a) ≡ k.frames pgdir (pdx a)
  pde_kept a ne = new.directory (pdx a) λ e. ne (sym e)

  old_table :
      (a : ℕ)
      → Ordinary a
      → pdx va ≢ pdx a
      → pte_p (k'.frames pgdir (pdx a)) ≡ true
      → HasTable k pgdir a (pte_frame (k'.frames pgdir (pdx a)))
        × (pte_frame (k'.frames pgdir (pdx a)) ≢ p)
  old_table a out ne set =
      let was = sym (ap pte_p (pde_kept a ne)) ∙ set in
      subst (λ d. HasTable k pgdir a (pte_frame d) × (pte_frame d ≢ p)) (sym (pde_kept a ne))
        (dir.tables a out was, (busy.tables a out was).0)

  pub here_frame : (a : ℕ) → pdx va ≡ pdx a → pte_frame (k'.frames pgdir (pdx a)) ≡ p
  here_frame a same = (HasTable_same a new.table same).at

  size_kept : k'.npages ≡ k.npages
  size_kept = ap (λ (s : Kernel). s.npages) new.kept

  new_table :
      (a : ℕ)
      → Ordinary a
      → pte_p (k'.frames pgdir (pdx a)) ≡ true
      → HasTable k' pgdir a (pte_frame (k'.frames pgdir (pdx a)))
  new_table a out set = elim (ℕ_discrete (pdx va) (pdx a)) [
    | yes same ↦
        subst (HasTable k' pgdir a) (sym (here_frame a same)) (HasTable_same a new.table same)
    | no ne ↦
        let (h, other) = old_table a out ne set in
        record {
          present = set;
          at = refl;
          inside = subst (λ n. pte_frame (k'.frames pgdir (pdx a)) < n) (sym size_kept) h.inside;
          apart = h.apart;
        }
  ]

  pub NewTable-Directory : Directory k' pgdir
  NewTable-Directory = record {
    tables = new_table;
    distinct = λ a b out out' ne set set'. elim (ℕ_discrete (pdx va) (pdx a)) [
      | yes same ↦
          let (h, other) = old_table b out' (λ e. ne (sym same ∙ e)) set' in
          λ e. other (sym e ∙ here_frame a same)
      | no ne_a ↦ elim (ℕ_discrete (pdx va) (pdx b)) [
        | yes same ↦ let (h, other) = old_table a out ne_a set in λ e. other (e ∙ here_frame b same)
        | no ne_b ↦
            rw (pde_kept a ne_a, pde_kept b ne_b)
              (dir.distinct a b out out' ne (sym (ap pte_p (pde_kept a ne_a)) ∙ set)
                (sym (ap pte_p (pde_kept b ne_b)) ∙ set'))
      ]
    ];
  }

  pub NewTable-translate : (a : ℕ) → Ordinary a → translate k' pgdir a ≡ translate k pgdir a
  NewTable-translate a out = elim (ℕ_discrete (pdx va) (pdx a)) [
    | yes same ↦
        translate_table (HasTable_same a new.table same)
        ∙ ap present (new.cleared (ptx a))
        ∙ sym
            (translate-none k pgdir a (subst (λ i. pte_p (k.frames pgdir i) ≡ false) same no_table))
    | no ne ↦ elim (Bool-cases (pte_p (k'.frames pgdir (pdx a)))) [
      | inr clear ↦
          translate-none k' pgdir a clear
          ∙ sym (translate-none k pgdir a (sym (ap pte_p (pde_kept a ne)) ∙ clear))
      | inl set ↦
          let (h, other) = old_table a out ne set in
          translate_table (new_table a out set)
          ∙ ap (λ (ws : ℕ → ℕ). present (ws (ptx a)))
              (new.others (pte_frame (k'.frames pgdir (pdx a))) other λ e. h.apart (sym e))
          ∙ sym (translate_table h)
    ]
  ]
