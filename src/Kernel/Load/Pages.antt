-- ===== src/Kernel/Load/Pages.antt =====
-- The pages of a segment, by `region_alloc` of kern/env.c, in the memory of a user program.
use csdi_jos.Common.{
  ℕ, zero, suc, ◌+◌, ◌-◌, ◌*◌, ◌/◌, ◌%◌, ◌≤◌, ◌<◌, ◌≡◌, ◌≢◌, ◌⊎◌, inl, inr, refl, sym, ap, subst,
  ◌∙◌, Bool, Bool-cases, true, false, ◌&&◌, ltb, leb, List, some, if◌then◌else◌, arith,
}
use csdi_jos.Kernel.State.{Kernel}
use csdi_jos.Kernel.State.Layout.{u_top, make_pte, pdx, ptx}
use csdi_jos.Kernel.Vm.{page2pa}
use csdi_jos.Kernel.Vm.View.{translate, same_page, below_top-Ordinary}
use csdi_jos.Kernel.Vm.Fresh.{Private}
use csdi_jos.Kernel.Envs.Region.{Region, page_at}
use csdi_jos.Kernel.Load.Image.{Image, Holds, with_pages, get_byte}

translate_page :
    (k : Kernel) (pgdir a b : ℕ) → a / 4096 ≡ b / 4096 → translate k pgdir a ≡ translate k pgdir b
unfolding translate
translate_page k pgdir a b page =
    let d : pdx a ≡ pdx b = omega (arith, page) in
    let t : ptx a ≡ ptx b = omega (arith, page) in rw (d, t) refl

other_page : (a b : ℕ) → a < u_top → b < u_top → b / 4096 ≢ a / 4096 → same_page b a ≡ false
other_page a b low low' ne = ground (arith, low, low', ne)

pub zero_byte : (j : ℕ) → j < 4 → get_byte j 0 ≡ 0
zero_byte zero _ = refl
zero_byte (suc zero) _ = refl
zero_byte (suc (suc zero)) _ = refl
zero_byte (suc (suc (suc zero))) _ = refl
zero_byte (suc (suc (suc (suc j)))) lt = absurd (omega (arith, lt))

-- The pages of the region are not in the image yet.
module _ {k k' : Kernel} {pgdir start n : ℕ} {ps qs : List ℕ} {img : Image}
    (h : Holds k pgdir ps img) (r : Region k k' pgdir start n ps qs) (q₀ : ℕ)
    (aligned : start ≡ 4096 * q₀) (top : start + 4096 * n ≤ u_top) where
  abbrev inside : ℕ → Bool
  inside q = leb q₀ q && ltb q (q₀ + n)

  abbrev page_of : ℕ → ℕ
  page_of q = if inside q then r.pages (q - q₀) else h.page q

  abbrev img' : Image
  img' = with_pages q₀ n img

  bounds : (q : ℕ) → inside q ≡ true → (q₀ ≤ q) × (q < q₀ + n) × (q - q₀ < n)
  bounds q i = (ground (arith, i), ground (arith, i), ground (arith, i))

  old : (q : ℕ) → inside q ≡ false → img'.has q ≡ true → img.has q ≡ true
  old q out has = ground (arith, out, has)

  away :
      (a : ℕ) → a < u_top → inside (a / 4096) ≡ false → translate k' pgdir a ≡ translate k pgdir a
  away a low out = r.others a (below_top-Ordinary a low) λ j lt.
      let place : page_at start j / 4096 ≡ q₀ + j = omega (arith, aligned) in
      other_page a (page_at start j) low (omega (arith, top, lt))
        λ e. absurd (ground (arith, out, lt, sym place ∙ e))

  page_mapped :
      (a : ℕ)
      → a < u_top
      → img'.has (a / 4096) ≡ true
      → translate k' pgdir a ≡ some (make_pte (page2pa (page_of (a / 4096))) 6)
  page_mapped a low has = elim (Bool-cases (inside (a / 4096))) [
    | inl i ↦
        let (from, to, lt) = bounds (a / 4096) i in
        rw i (
          translate_page k' pgdir a (page_at start (a / 4096 - q₀)) (omega (arith, aligned, from))
          ∙ r.mapped (a / 4096 - q₀) lt)
    | inr out ↦ rw out (away a low out ∙ h.mapped a low (old (a / 4096) out has))
  ]

  page_own : (q : ℕ) → img'.has q ≡ true → Private k' pgdir qs (page_of q)
  page_own q has = elim (Bool-cases (inside q)) [
    | inl i ↦ rw i (r.own (q - q₀) (bounds q i).2)
    | inr out ↦ rw out (r.private (h.page q) (h.own q (old q out has))).0
  ]

  page_inside : (q : ℕ) → img'.has q ≡ true → page_of q < k'.npages
  page_inside q has = elim (Bool-cases (inside q)) [
    | inl i ↦ rw i (r.inside (q - q₀) (bounds q i).2)
    | inr out ↦ rw out (
        subst (λ m. h.page q < m) (sym (ap (λ (s : Kernel). s.npages) r.kept))
          (h.inside q (old q out has)))
  ]

  pages_distinct : (i j : ℕ) → i < n → j < n → i ≢ j → r.pages i ≢ r.pages j
  pages_distinct i j lt lt' ne = elim (order i j ne) [
    | inl less ↦ r.distinct i j less lt'
    | inr more ↦ λ e. r.distinct j i more lt (sym e)
  ]
    where
      order : (i j : ℕ) → i ≢ j → (i < j) ⊎ (j < i)
      order i j ne = elim (Bool-cases (ltb i j)) [
        | inl e ↦ inl (ground (arith, e))
        | inr e ↦ inr (ground (arith, e, ne))
      ]

  page_apart : (q s : ℕ) → img'.has q ≡ true → img'.has s ≡ true → q ≢ s → page_of q ≢ page_of s
  page_apart q s has has' ne = elim (Bool-cases (inside q)) [
    | inl i ↦ elim (Bool-cases (inside s)) [
      | inl i' ↦
          let (from, to, lt) = bounds q i in
          let (from', to', lt') = bounds s i' in
          rw (i, i') (pages_distinct (q - q₀) (s - q₀) lt lt' (omega (arith, from, from', ne)))
      | inr out' ↦
          rw (i, out')
            λ e. r.fresh (h.page s) (q - q₀) (h.own s (old s out' has')) (bounds q i).2 (sym e)
    ]
    | inr out ↦ elim (Bool-cases (inside s)) [
      | inl i' ↦
          rw (out, i') (r.fresh (h.page q) (s - q₀) (h.own q (old q out has)) (bounds s i').2)
      | inr out' ↦ rw (out, out') (h.apart q s (old q out has) (old s out' has') ne)
    ]
  ]

  page_stored :
      (a : ℕ)
      → a < u_top
      → img'.has (a / 4096) ≡ true
      → get_byte (a % 4) (k'.frames (page_of (a / 4096)) (a % 4096 / 4)) ≡ img'.bytes a
  page_stored a low has = elim (Bool-cases (inside (a / 4096))) [
    | inl i ↦
        let word = r.clear (a / 4096 - q₀) (a % 4096 / 4) (bounds (a / 4096) i).2 in
        rw (i, word) (zero_byte (a % 4) (omega arith))
    | inr out ↦
        let has' = old (a / 4096) out has in
        let e = (r.private (h.page (a / 4096)) (h.own (a / 4096) has')).1 in
        rw (out, e) (h.stored a low has')
  ]

  pub Holds-pages : Holds k' pgdir qs img'
  Holds-pages = record {
    space = r.space;
    page = page_of;
    mapped = page_mapped;
    own = page_own;
    inside = page_inside;
    apart = page_apart;
    stored = page_stored;
    empty = λ a low out. away a low (ground (arith, out)) ∙ h.empty a low (ground (arith, out));
  }
