-- ===== src/Kernel/Vm/Store.antt =====
-- Which words `page_insert` and `page_remove` write.
use csdi_jos.Common.{ℕ, ◌≡◌, ◌≢◌, refl, ap, ◌∙◌, List, arith}
use csdi_jos.Kernel.State.{Kernel, set_word}
use csdi_jos.Kernel.State.Returns.{Returns}
use csdi_jos.Kernel.State.Layout.{ptx, make_pte}
use csdi_jos.Kernel.Vm.{page2pa, map_page}
use csdi_jos.Kernel.Vm.Walk.{HasTable}
use csdi_jos.Kernel.Vm.Remove.{Removed}
use csdi_jos.Kernel.Vm.Insert.{HasTable-frame}

-- From `k` to `k'` only the entry for `va` in the page table has been written.
pub record Writes (k k' : Kernel) (pgdir va table pte : ℕ) : Type 0 where
  pub walks : HasTable k' pgdir va table
  pub word : k'.frames table (ptx va) ≡ pte
  pub rest : (i : ℕ) → i ≢ ptx va → k'.frames table i ≡ k.frames table i
  pub directory : k'.frames pgdir ≡ k.frames pgdir
  pub others : (f : ℕ) → f ≢ table → k'.frames f ≡ k.frames f
  pub size : k'.npages ≡ k.npages

module _ (pgdir va table pp perm : ℕ) where
  pub map_page-Writes :
      {k : Kernel}
      → HasTable k pgdir va table
      → Returns
          (λ r k'. (r ≡ 0) × Writes k k' pgdir va table (make_pte (page2pa pp) perm))
          (map_page (table, ptx va) pp perm k)
  unfolding map_page
  map_page-Writes {k} h = (
    refl,
    record {
      walks = HasTable-frame (ground (arith, h.apart)) refl h;
      word = ground arith;
      rest = λ i ne. ground arith;
      directory = ground (arith, h.apart);
      others = λ f ne. ground arith;
      size = refl;
    },
  )

-- Two writes of one entry are the second one.
pub Writes-trans :
    {k k' k'' : Kernel} {pgdir va table a b : ℕ}
    → Writes k k' pgdir va table a
    → Writes k' k'' pgdir va table b
    → Writes k k'' pgdir va table b
Writes-trans v w = record {
  walks = w.walks;
  word = w.word;
  rest = λ i ne. w.rest i ne ∙ v.rest i ne;
  directory = w.directory ∙ v.directory;
  others = λ f ne. w.others f ne ∙ v.others f ne;
  size = w.size ∙ v.size;
}

pub Removed-Writes :
    {k k' : Kernel} {pgdir va table page : ℕ} {ps : List ℕ}
    → HasTable k pgdir va table
    → Removed k k' va table page ps
    → Writes k k' pgdir va table 0
Removed-Writes {k} {k'} {pgdir} {va} {table} h removed =
    let frame : (f : ℕ) → k'.frames f ≡ (set_word table (ptx va) 0 k).frames f =
      λ f. ap (λ (fs : ℕ → ℕ → ℕ). fs f) removed.cleared in
    let word : (i : ℕ) → k'.frames table i ≡ (set_word table (ptx va) 0 k).frames table i =
      λ i. ap (λ (fs : ℕ → ℕ → ℕ). fs table i) removed.cleared in
    let directory : k'.frames pgdir ≡ k.frames pgdir = frame pgdir ∙ ground (arith, h.apart) in
    let size : k'.npages ≡ k.npages = ap (λ (s : Kernel). s.npages) removed.kept in
    record {
      walks = HasTable-frame directory size h;
      word = word (ptx va) ∙ ground arith;
      rest = λ i ne. word i ∙ ground arith;
      directory = directory;
      others = λ f ne. frame f ∙ ground arith;
      size = size;
    }
