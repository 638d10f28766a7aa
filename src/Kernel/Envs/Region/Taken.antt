-- ===== src/Kernel/Envs/Region/Taken.antt =====
-- The address space after `page_alloc` of kern/pmap.c, for `region_alloc` of kern/env.c.
use csdi_jos.Common.{
  ℕ, ◌^◌, ◌≤◌, ◌<◌, ◌≡◌, ◌≢◌, inl, inr, refl, sym, ap, ◌∙◌, subst, true, Bool-cases, List, ◌∷◌,
  NotIn, arith,
}
use csdi_jos.Kernel.State.{Kernel}
use csdi_jos.Kernel.State.Layout.{pdx, pte_p, pte_w, pte_frame}
use csdi_jos.Kernel.Pages.FreeList.{FreeList}
use csdi_jos.Kernel.Vm.View.{translate, Ordinary, Directory}
use csdi_jos.Kernel.Vm.Fresh.{Space, Private}

-- After `page_alloc` has taken page `p`, which the address space does not read.
module _ {k k₁ : Kernel} {pgdir p : ℕ} {ps : List ℕ} (space : Space k pgdir (p ∷ ps))
    (rest : FreeList k₁ ps) (same : (f : ℕ) → p ≢ f → k₁.frames f ≡ k.frames f)
    (kept : k₁ ≡ record k { page_free_list = k₁.page_free_list; frames = k₁.frames }) where
  directory_same : k₁.frames pgdir ≡ k.frames pgdir
  directory_same = same pgdir (λ e. space.busy.directory.0 (sym e))

  pub size_same : k₁.npages ≡ k.npages
  size_same = ap (λ (s : Kernel). s.npages) kept

  Directory-alloc : Directory k₁ pgdir
  Directory-alloc = record {
    tables = λ a out set.
        let was = subst (λ ws. pte_p (ws (pdx a)) ≡ true) directory_same set in
        let h = space.dir.tables a out was in
        record {
          present = set;
          at = refl;
          inside =
              subst (λ ws. pte_frame (ws (pdx a)) < k₁.npages) (sym directory_same)
                (subst (λ n. pte_frame (k.frames pgdir (pdx a)) < n) (sym size_same) h.inside);
          apart = subst (λ ws. pgdir ≢ pte_frame (ws (pdx a))) (sym directory_same) h.apart;
        };
    distinct =
        subst
          (λ ws.
            (a b : ℕ)
            → Ordinary a
            → Ordinary b
            → pdx a ≢ pdx b
            → pte_p (ws (pdx a)) ≡ true
            → pte_p (ws (pdx b)) ≡ true
            → pte_frame (ws (pdx a)) ≢ pte_frame (ws (pdx b)))
          (sym directory_same) space.dir.distinct;
  }

  pub Space-alloc : Space k₁ pgdir ps
  Space-alloc = record {
    dir = Directory-alloc;
    free = rest;
    busy = record {
      directory = space.busy.directory.1;
      tables = λ a out set.
          subst (λ ws. NotIn (pte_frame (ws (pdx a))) ps) (sym directory_same)
            (space.busy.tables a out
              (subst (λ ws. pte_p (ws (pdx a)) ≡ true) directory_same set)).1;
    };
    memory = subst (λ n. n ≤ 2 ^ 20) (sym size_same) space.memory;
    writable = λ a out set.
        subst (λ ws. pte_w (ws (pdx a)) ≡ true) (sym directory_same)
          (space.writable a out (subst (λ ws. pte_p (ws (pdx a)) ≡ true) directory_same set));
  }

  pub translate-alloc : (a : ℕ) → Ordinary a → translate k₁ pgdir a ≡ translate k pgdir a
  unfolding translate
  translate-alloc a out = elim (Bool-cases (pte_p (k.frames pgdir (pdx a)))) [
    | inl set ↦
        let e =
          same (pte_frame (k.frames pgdir (pdx a)))
            (λ e. (space.busy.tables a out set).0 (sym e)) in
        ground (arith, directory_same, e)
    | inr clear ↦ ground (arith, directory_same, clear)
  ]

  pub Private-alloc :
      (f : ℕ) → Private k pgdir (p ∷ ps) f → Private k₁ pgdir ps f × (k₁.frames f ≡ k.frames f)
  Private-alloc f own = (
    record {
      taken = own.taken.1;
      no_directory = own.no_directory;
      no_table = λ a out set.
          subst (λ ws. f ≢ pte_frame (ws (pdx a))) (sym directory_same)
            (own.no_table a out (subst (λ ws. pte_p (ws (pdx a)) ≡ true) directory_same set));
    },
    same f (λ e. own.taken.0 (sym e)),
  )

  pub Private-new : Private k₁ pgdir ps p
  Private-new = record {
    taken = space.free.distinct.0;
    no_directory = λ e. space.busy.directory.0 (sym e);
    no_table = λ a out set e.
        (space.busy.tables a out (subst (λ ws. pte_p (ws (pdx a)) ≡ true) directory_same set)).0
          (sym (e ∙ ap (λ (ws : ℕ → ℕ). pte_frame (ws (pdx a))) directory_same));
  }
