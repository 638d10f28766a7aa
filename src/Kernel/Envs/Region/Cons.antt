-- ===== src/Kernel/Envs/Region/Cons.antt =====
-- One round of `region_alloc` of kern/env.c before the region of the rounds after it.
use csdi_jos.Common.{
  ℕ, zero, suc, ◌+◌, ◌*◌, ◌≤◌, ◌<◌, ◌≡◌, ◌≢◌, sym, ap, ◌∙◌, subst, Bool, false, some, List, ◌∷◌,
  length, if◌then◌else◌, arith,
}
use csdi_jos.Kernel.State.{Kernel}
use csdi_jos.Kernel.State.Layout.{u_top, pg_size, make_pte}
use csdi_jos.Kernel.Pages.FreeList.{FreeList}
use csdi_jos.Kernel.Vm.{page2pa}
use csdi_jos.Kernel.Vm.View.{translate, same_page, Ordinary, below_top-Ordinary}
use csdi_jos.Kernel.Vm.Fresh.{Space, Private, Used, none_used, one_used, Mapped}
use csdi_jos.Kernel.Envs.Region.{page_at, Region, not_below_zero, pages_apart, same_page_self}
use csdi_jos.Kernel.Envs.Region.Taken.{translate-alloc, Private-alloc, Private-new}

pub Used-length : (ps qs : List ℕ) → Used ps qs → length ps ≤ length qs + 1
Used-length ps _ none_used = omega arith
Used-length ps qs (one_used p _ e) = omega (arith, ap length e)

abbrev cons_pages : ℕ → (ℕ → ℕ) → ℕ → ℕ
cons_pages p pages zero = p
cons_pages p pages (suc j) = pages j

module _ {k k₁ k₂ k' : Kernel} {pgdir p start n : ℕ} {ps qs rs : List ℕ}
    (space : Space k pgdir (p ∷ ps)) (rest : FreeList k₁ ps) (cleared : (i : ℕ) → k₁.frames p i ≡ 0)
    (same : (f : ℕ) → p ≢ f → k₁.frames f ≡ k.frames f)
    (kept : k₁ ≡ record k { page_free_list = k₁.page_free_list; frames = k₁.frames })
    (m : Mapped k₁ k₂ pgdir start p (make_pte (page2pa p) 6) ps qs)
    (r : Region k₂ k' pgdir (start + pg_size) n qs rs) (top : start + pg_size * suc n ≤ u_top) where
  own_then : Private k₂ pgdir qs p × (k₂.frames p ≡ k₁.frames p)
  own_then = m.private p (Private-new space rest same kept)

  own_later :
      (f : ℕ) → Private k pgdir (p ∷ ps) f → Private k₂ pgdir qs f × (k₂.frames f ≡ k.frames f)
  own_later f own =
      let (own₁, e₁) = Private-alloc space rest same kept f own in
      let (own₂, e₂) = m.private f own₁ in (own₂, e₂ ∙ e₁)

  page_at-suc : (j : ℕ) → page_at (start + pg_size) j ≡ page_at start (suc j)
  page_at-suc j = omega arith

  first_mapped : translate k' pgdir start ≡ some (make_pte (page2pa p) 6)
  first_mapped =
      let out = below_top-Ordinary start (omega (arith, top)) in
      r.others start out (λ j lt.
        subst (λ a. same_page a start ≡ false) (sym (page_at-suc j))
          (pages_apart start (suc j) (omega arith) (omega (arith, lt, top))).0)
      ∙ m.view start out
      ∙ ap (λ (b : Bool). if b then some (make_pte (page2pa p) 6) else translate k₁ pgdir start)
          (same_page_self start)

  others_kept :
      (a : ℕ)
      → Ordinary a
      → ((j : ℕ) → j < suc n → same_page (page_at start j) a ≡ false)
      → translate k' pgdir a ≡ translate k pgdir a
  others_kept a out away =
      let here : same_page start a ≡ false =
        subst (λ b. same_page b a ≡ false) (omega arith) (away 0 (omega arith)) in
      r.others a out (λ j lt.
        subst (λ b. same_page b a ≡ false) (sym (page_at-suc j)) (away (suc j) (omega (arith, lt))))
      ∙ m.view a out
      ∙ ap (λ (b : Bool). if b then some (make_pte (page2pa p) 6) else translate k₁ pgdir a) here
      ∙ translate-alloc space rest same kept a out

  kept_all :
      k' ≡ record k { pages = k'.pages; page_free_list = k'.page_free_list; frames = k'.frames }
  kept_all =
      r.kept
      ∙ ap
          (λ (s : Kernel). record s {
            pages = k'.pages;
            page_free_list = k'.page_free_list;
            frames = k'.frames;
          })
          (m.kept
            ∙ ap
                (λ (s : Kernel). record s {
                  pages = k₂.pages;
                  page_free_list = k₂.page_free_list;
                  frames = k₂.frames;
                })
                kept)

  page_mapped :
      (j : ℕ)
      → j < suc n
      → translate k' pgdir (page_at start j) ≡ some (make_pte (page2pa (cons_pages p r.pages j)) 6)
  page_mapped zero _ =
      subst (λ a. translate k' pgdir a ≡ some (make_pte (page2pa p) 6)) (omega arith) first_mapped
  page_mapped (suc j) lt =
      subst (λ a. translate k' pgdir a ≡ some (make_pte (page2pa (r.pages j)) 6)) (page_at-suc j)
        (r.mapped j (omega (arith, lt)))

  page_own : (j : ℕ) → j < suc n → Private k' pgdir rs (cons_pages p r.pages j)
  page_own zero _ = (r.private p own_then.0).0
  page_own (suc j) lt = r.own j (omega (arith, lt))

  size_kept : k'.npages ≡ k.npages
  size_kept =
      ap (λ (s : Kernel). s.npages) r.kept
      ∙ ap (λ (s : Kernel). s.npages) m.kept
      ∙ ap (λ (s : Kernel). s.npages) kept

  page_inside : (j : ℕ) → j < suc n → cons_pages p r.pages j < k'.npages
  page_inside zero _ = subst (λ m. p < m) (sym size_kept) space.free.bounded.0
  page_inside (suc j) lt = r.inside j (omega (arith, lt))

  page_clear : (j i : ℕ) → j < suc n → k'.frames (cons_pages p r.pages j) i ≡ 0
  page_clear zero i _ =
      ap (λ (ws : ℕ → ℕ). ws i) ((r.private p own_then.0).1 ∙ own_then.1) ∙ cleared i
  page_clear (suc j) i lt = r.clear j i (omega (arith, lt))

  pages_distinct : (i j : ℕ) → i < j → j < suc n → cons_pages p r.pages i ≢ cons_pages p r.pages j
  pages_distinct zero (suc j) _ lt = r.fresh p j own_then.0 (omega (arith, lt))
  pages_distinct (suc i) (suc j) below lt =
      r.distinct i j (omega (arith, below)) (omega (arith, lt))
  pages_distinct i zero below _ = λ _. absurd (not_below_zero i below)

  pages_fresh : (f j : ℕ) → Private k pgdir (p ∷ ps) f → j < suc n → f ≢ cons_pages p r.pages j
  pages_fresh f zero own _ = own.taken.0
  pages_fresh f (suc j) own lt = r.fresh f j (own_later f own).0 (omega (arith, lt))

  pub Region-cons : Region k k' pgdir start (suc n) (p ∷ ps) rs
  Region-cons = record {
    space = r.space;
    pages = cons_pages p r.pages;
    mapped = page_mapped;
    own = page_own;
    inside = page_inside;
    clear = page_clear;
    distinct = pages_distinct;
    fresh = pages_fresh;
    others = others_kept;
    private = λ f own.
        let (own₂, e₂) = own_later f own in let (own', e') = r.private f own₂ in (own', e' ∙ e₂);
    fewer = omega (arith, r.fewer, Used-length ps qs m.used);
    kept = kept_all;
  }
