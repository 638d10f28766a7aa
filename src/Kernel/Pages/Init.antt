-- ===== src/Kernel/Pages/Init.antt =====
-- The free list that `page_init` builds.
use csdi_jos.Common.{
  ℕ, zero, suc, ◌+◌, ◌-◌, ◌*◌, ◌/◌, ◌≤◌, ◌<◌, ◌≡◌, ◌⊎◌, refl, subst, Bool, true, false, not, ◌&&◌,
  ◌||◌, ◌==◌, leb, ltb, none, ap, ◌∙◌, length, List, [], ◌∷◌, All, NotIn, if◌then◌else◌, arith, inl,
  inr, Bool-cases,
}
use csdi_jos.Kernel.State.{Kernel, set_page}
use csdi_jos.Kernel.State.Returns.{Returns}
use csdi_jos.Kernel.State.Layout.{kern_base, pg_size, mpentry_page}
use csdi_jos.Kernel.Pages.{page_init, fill_free_list, release, release_down, reserve_up}
use csdi_jos.Kernel.Pages.FreeList.{FreeList, FreeList-push, FreeList-frame}

abbrev pub has : ℕ → List ℕ → Bool
has i [] = false
has i (p ∷ ps) = i == p || has i ps

pub NotIn-has : (i : ℕ) (ps : List ℕ) → has i ps ≡ false → NotIn i ps
NotIn-has i [] h = tt
NotIn-has i (p ∷ ps) h = (ground arith, NotIn-has i ps (ground arith))

abbrev Above : ℕ → List ℕ → Type 0
Above m = All (λ q. m ≤ q)

Above-mono : (m n : ℕ) (ps : List ℕ) → m ≤ n → Above n ps → Above m ps
Above-mono m n [] le h = tt
Above-mono m n (q ∷ ps) le h = (omega arith, Above-mono m n ps le h.1)

NotIn-Above : (m : ℕ) (ps : List ℕ) → Above (suc m) ps → NotIn m ps
NotIn-Above m [] h = tt
NotIn-Above m (q ∷ ps) h = (omega arith, NotIn-Above m ps h.1)

module _ (skip : ℕ → Bool) where
  -- The pages of `lo .. lo + n - 1` that are not skipped, in front of `ps`.
  released : (lo n : ℕ) → List ℕ → List ℕ
  released lo zero ps = ps
  released lo (suc n) ps = released lo n (if skip (lo + n) then ps else (lo + n) ∷ ps)

  has-released :
      (lo n i : ℕ) (ps : List ℕ)
      → has i (released lo n ps) ≡ ((leb lo i && ltb i (lo + n) && not (skip i)) || has i ps)
  unfolding released
  has-released lo zero i ps = ground arith
  has-released lo (suc n) i ps =
      ground (arith, has-released lo n i (if skip (lo + n) then ps else (lo + n) ∷ ps))

  length-released : (lo n : ℕ) (ps : List ℕ) → length ps ≤ length (released lo n ps)
  unfolding released
  length-released lo zero ps = omega arith
  length-released lo (suc n) ps = elim (Bool-cases (skip (lo + n))) [
    | inl e ↦ rw e (length-released lo n ps)
    | inr e ↦ rw e (omega (arith, length-released lo n ((lo + n) ∷ ps)))
  ]

  Above-released : (lo n : ℕ) (ps : List ℕ) → Above (lo + n) ps → Above lo (released lo n ps)
  unfolding released
  Above-released lo zero ps h = subst (λ m. Above m ps) (omega arith) h
  Above-released lo (suc n) ps h =
      let above : Above (suc (lo + n)) ps = subst (λ m. Above m ps) (omega arith) h in
      elim (Bool-cases (skip (lo + n))) [
        | inl e ↦
            rw e
              (Above-released lo n ps (Above-mono (lo + n) (suc (lo + n)) ps (omega arith) above))
        | inr e ↦ rw e (
            Above-released lo n ((lo + n) ∷ ps)
              (omega arith, Above-mono (lo + n) (suc (lo + n)) ps (omega arith) above))
      ]

  release_down-FreeList :
      (lo n : ℕ) {k : Kernel} (ps : List ℕ)
      → FreeList k ps
      → Above (lo + n) ps
      → lo + n ≤ k.npages
      → FreeList (release_down skip lo n k) (released lo n ps)
  unfolding release_down released release
  release_down-FreeList lo zero ps free above fits = free
  release_down-FreeList lo (suc n) {k} ps free above fits =
      let above' : Above (suc (lo + n)) ps = subst (λ m. Above m ps) (omega arith) above in
      elim (Bool-cases (skip (lo + n))) [
        | inl e ↦ rw e (
            release_down-FreeList lo n ps free
              (Above-mono (lo + n) (suc (lo + n)) ps (omega arith) above') (omega arith))
        | inr e ↦
            let out = NotIn-Above (lo + n) ps above' in
            rw e (
              release_down-FreeList lo n ((lo + n) ∷ ps)
                (FreeList-push free (lo + n) out (release (lo + n) k) refl (ground arith)
                  (ground arith) (λ q ne. ground arith) refl (omega arith))
                (omega arith, Above-mono (lo + n) (suc (lo + n)) ps (omega arith) above')
                (omega arith))
      ]

  release_down-same :
      (lo n i : ℕ) (k : Kernel)
      → (i < lo) ⊎ (lo + n ≤ i)
      → (release_down skip lo n k).pages i ≡ k.pages i
  unfolding release_down release
  release_down-same lo zero i k out = refl
  release_down-same lo (suc n) i k out =
      ground (arith, release_down-same lo n i (if skip (lo + n) then k else release (lo + n) k))

released_all : (lo n : ℕ) (ps : List ℕ) → n + length ps ≤ length (released (λ i. false) lo n ps)
unfolding released
released_all lo zero ps = omega arith
released_all lo (suc n) ps = omega (arith, released_all lo n ((lo + n) ∷ ps))

-- Only the pages and the head of the list change.
abbrev Listed : Kernel → Kernel → Type 0
Listed k k' = k' ≡ record k { pages = k'.pages; page_free_list = k'.page_free_list }

Listed-trans : (k k₁ : Kernel) {k₂ : Kernel} → Listed k k₁ → Listed k₁ k₂ → Listed k k₂
Listed-trans k k₁ {k₂} first next =
    next
    ∙ ap (λ (s : Kernel). record s { pages = k₂.pages; page_free_list = k₂.page_free_list }) first

release_if-Listed : (b : Bool) (i : ℕ) (k : Kernel) → Listed k (if b then k else release i k)
unfolding release
release_if-Listed true i k = refl
release_if-Listed false i k = refl

release_down-Listed :
    (skip : ℕ → Bool) (lo n : ℕ) (k : Kernel) → Listed k (release_down skip lo n k)
unfolding release_down
release_down-Listed skip lo zero k = refl
release_down-Listed skip lo (suc n) k =
    let k₁ = if skip (lo + n) then k else release (lo + n) k in
    Listed-trans k k₁ (release_if-Listed (skip (lo + n)) (lo + n) k)
      (release_down-Listed skip lo n k₁)

reserve_up-Listed : (lo n : ℕ) (k : Kernel) → Listed k (reserve_up lo n k)
unfolding reserve_up
reserve_up-Listed lo zero k = refl
reserve_up-Listed lo (suc n) k =
    let k₁ = set_page lo (record (k.pages lo) { pp_ref = 1 }) k in
    Listed-trans k k₁ refl (reserve_up-Listed (suc lo) n k₁)

release_down-npages :
    (skip : ℕ → Bool) (lo n : ℕ) (k : Kernel) → (release_down skip lo n k).npages ≡ k.npages
unfolding release_down release
release_down-npages skip lo zero k = refl
release_down-npages skip lo (suc n) k =
    ground (arith, release_down-npages skip lo n (if skip (lo + n) then k else release (lo + n) k))

reserve_up-FreeList :
    (lo n : ℕ) {k : Kernel} (ps : List ℕ)
    → FreeList k ps
    → ((i : ℕ) → lo ≤ i → i < lo + n → NotIn i ps)
    → FreeList (reserve_up lo n k) ps
unfolding reserve_up
reserve_up-FreeList lo zero ps free out = free
reserve_up-FreeList lo (suc n) ps free out =
    reserve_up-FreeList (suc lo) n ps
      (FreeList-frame free lo (out lo (omega arith) (omega arith)) _ refl (λ q ne. ground arith)
        refl)
      (λ i ge lt. out i (omega arith) (omega arith))

reserve_up-pp_ref :
    (lo n i : ℕ) (k : Kernel)
    → ((reserve_up lo n k).pages i).pp_ref
      ≡ (if leb lo i && ltb i (lo + n) then 1 else (k.pages i).pp_ref)
unfolding reserve_up
reserve_up-pp_ref lo zero i k = ground arith
reserve_up-pp_ref lo (suc n) i k =
    ground
      (arith, reserve_up-pp_ref (suc lo) n i (set_page lo (record (k.pages lo) { pp_ref = 1 }) k))

-- Which pages `page_init` frees, by the first page after the kernel.
abbrev pub usable : Kernel → (mile i : ℕ) → Bool
usable k mile i =
    (leb 1 i && ltb i k.npages_basemem && not (i == mpentry_page)) || (leb mile i && ltb i k.npages)

pub record Initialised (mile : ℕ) (k k' : Kernel) : Type 0 where
  pub list : List ℕ
  pub free : FreeList k' list
  pub members : (i : ℕ) → has i list ≡ usable k mile i
  pub many : k.npages - mile ≤ length list
  pub kept : k' ≡ record k { pages = k'.pages; page_free_list = k'.page_free_list }
  pub reserved : (i : ℕ) → k.npages_basemem ≤ i → i < mile → (k'.pages i).pp_ref ≡ 1
  pub page_zero : (k'.pages 0).pp_ref ≡ 1

module _ (mile : ℕ) (k : Kernel) (low : 1 ≤ k.npages_basemem) (mid : k.npages_basemem ≤ mile)
    (high : mile ≤ k.npages) where
  start : Kernel
  start = set_page 0 (record (k.pages 0) { pp_ref = 1 }) (record k { page_free_list = none })

  extended : Kernel
  unfolding start
  extended = release_down (λ i. false) mile (k.npages - mile) start

  extended_list : List ℕ
  extended_list = released (λ i. false) mile (k.npages - mile) []

  extended-FreeList : FreeList extended extended_list
  unfolding extended extended_list
  extended-FreeList =
      release_down-FreeList (λ i. false) mile (k.npages - mile) []
        (record { chain = refl; distinct = tt; bounded = tt; unused = tt }) tt (omega arith)

  base : Kernel
  unfolding extended
  base = release_down (λ i. i == mpentry_page) 1 (k.npages_basemem - 1) extended

  base_list : List ℕ
  unfolding extended_list
  base_list = released (λ i. i == mpentry_page) 1 (k.npages_basemem - 1) extended_list

  base-FreeList : FreeList base base_list
  unfolding base base_list
  base-FreeList =
      release_down-FreeList (λ i. i == mpentry_page) 1 (k.npages_basemem - 1) extended_list
        extended-FreeList above (omega (arith, extended-npages))
    where
      above : Above (1 + (k.npages_basemem - 1)) extended_list
      above =
          Above-mono (1 + (k.npages_basemem - 1)) mile extended_list (omega arith)
            (Above-released (λ i. false) mile (k.npages - mile) [] tt)

      extended-npages : extended.npages ≡ k.npages
      extended-npages = release_down-npages (λ i. false) mile (k.npages - mile) start

  base_list-usable : (i : ℕ) → has i base_list ≡ usable k mile i
  unfolding base_list
  base_list-usable i = ground (
    arith,
    has-released (λ i. i == mpentry_page) 1 (k.npages_basemem - 1) i extended_list,
    has-released (λ i. false) mile (k.npages - mile) i [],
  )

  base_list-many : k.npages - mile ≤ length base_list
  unfolding base_list extended_list
  base_list-many = omega (
    arith,
    length-released (λ i. i == mpentry_page) 1 (k.npages_basemem - 1) extended_list,
    released_all mile (k.npages - mile) [],
  )

  extended-Listed : Listed k extended
  unfolding extended start
  extended-Listed =
      Listed-trans k start refl (release_down-Listed (λ i. false) mile (k.npages - mile) start)

  pub fill_free_list-Initialised : Initialised mile k (fill_free_list mile k)
  unfolding fill_free_list base
  fill_free_list-Initialised = record {
    list = base_list;
    free =
        reserve_up-FreeList k.npages_basemem (mile - k.npages_basemem) base_list base-FreeList
          (λ i ge lt. NotIn-has i base_list (ground (arith, base_list-usable i)));
    members = base_list-usable;
    many = base_list-many;
    kept = Listed-trans k extended extended-Listed (
        Listed-trans extended base
          (release_down-Listed (λ i. i == mpentry_page) 1 (k.npages_basemem - 1) extended)
          (reserve_up-Listed k.npages_basemem (mile - k.npages_basemem) base));
    reserved = λ i ge lt.
        ground (arith, reserve_up-pp_ref k.npages_basemem (mile - k.npages_basemem) i base);
    page_zero = ground (
      arith,
      reserve_up-pp_ref k.npages_basemem (mile - k.npages_basemem) 0 base,
      release_down-same (λ i. i == mpentry_page) 1 (k.npages_basemem - 1) 0 extended,
      release_down-same (λ i. false) mile (k.npages - mile) 0 start,
    );
  }

-- Let `boot_alloc` have handed out the memory up to page `mile`, with at least one page of base
-- memory, base memory ending at or before `mile`, and `mile` within memory. `page_init` builds a
-- free list of distinct pages without references that holds exactly the base memory but for page 0
-- and the page for the other CPUs' start, and the memory from `mile` on; page 0 and the pages
-- between have one reference. The list has at least as many pages as memory from `mile` on, and
-- only the pages and the head of the list change.
pub page_init-Initialised :
    (end mile : ℕ) (k : Kernel)
    → k.nextfree ≡ kern_base + mile * pg_size
    → 1 ≤ k.npages_basemem
    → k.npages_basemem ≤ mile
    → mile ≤ k.npages
    → Returns (λ _ k'. Initialised mile k k') (page_init end k)
unfolding page_init
page_init-Initialised end mile k next low mid high =
    let set : (k.nextfree == 0) ≡ false = ground arith in
    let kernel : ltb k.nextfree kern_base ≡ false = ground arith in
    let page : (k.nextfree - kern_base) / pg_size ≡ mile = omega arith in
    rw (set, kernel, page) (fill_free_list-Initialised mile k low mid high)
