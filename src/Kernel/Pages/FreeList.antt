-- ===== src/Kernel/Pages/FreeList.antt =====
-- The free list as a list of pages, and what the allocator does to it.
use csdi_jos.Common.{
  ℕ, suc, ◌+◌, ◌%◌, ◌<◌, ◌≡◌, ◌≢◌, refl, sym, subst, true, false, ◌==◌, Option, none, some, List,
  [], ◌∷◌, All, NotIn, Distinct, update, inl, inr, Bool-cases, if◌then◌else◌, arith,
}
use csdi_jos.Kernel.State.{Kernel, Page, Outcome, ret}
use csdi_jos.Kernel.State.Returns.{Returns}
use csdi_jos.Kernel.Pages.{page_alloc, page_free, page_decref}

-- From `l` the links lead through the pages of the list to the null link.
abbrev pub Links : (ℕ → Page) → Option ℕ → List ℕ → Type 0
Links pages l [] = l ≡ none
Links pages l (p ∷ ps) = (l ≡ some p) × Links pages (pages p).pp_link ps

-- The free list runs through distinct pages of memory, all with no reference.
pub record FreeList (k : Kernel) (ps : List ℕ) : Type 0 where
  pub chain : Links k.pages k.page_free_list ps
  pub distinct : Distinct ps
  pub bounded : All (λ p. p < k.npages) ps
  pub unused : All (λ p. (k.pages p).pp_ref ≡ 0) ps

module _ (pages pages' : ℕ → Page) (p : ℕ) (same : (q : ℕ) → p ≢ q → pages' q ≡ pages q) where
  -- A write to a page that is not on the list keeps the list.
  pub Links-frame : (l : Option ℕ) (ps : List ℕ) → NotIn p ps → Links pages l ps → Links pages' l ps
  Links-frame l [] out h = h
  Links-frame l (q ∷ ps) out h =
      (h.0, rw (same q out.0) (Links-frame (pages q).pp_link ps out.1 h.1))

  pub unused-frame :
      (ps : List ℕ)
      → NotIn p ps
      → All (λ q. (pages q).pp_ref ≡ 0) ps
      → All (λ q. (pages' q).pp_ref ≡ 0) ps
  unused-frame [] out h = tt
  unused-frame (q ∷ ps) out h = (rw (same q out.0) h.0, unused-frame ps out.1 h.1)

-- Putting a page at the front, as `page_free` and `page_init` do.
module _ {k : Kernel} {ps : List ℕ} (free : FreeList k ps) (p : ℕ) (out : NotIn p ps) where
  pub FreeList-push :
      (k' : Kernel)
      → k'.page_free_list ≡ some p
      → (k'.pages p).pp_link ≡ k.page_free_list
      → (k'.pages p).pp_ref ≡ 0
      → ((q : ℕ) → p ≢ q → k'.pages q ≡ k.pages q)
      → k'.npages ≡ k.npages
      → p < k.npages
      → FreeList k' (p ∷ ps)
  FreeList-push k' head link ref same size lt = record {
    chain =
        (head, rw link (Links-frame k.pages k'.pages p same k.page_free_list ps out free.chain));
    distinct = (out, free.distinct);
    bounded = subst (λ n. All (λ q. q < n) (p ∷ ps)) (sym size) (lt, free.bounded);
    unused = (ref, unused-frame k.pages k'.pages p same ps out free.unused);
  }

  -- A write to a page that is not on the list.
  pub FreeList-frame :
      (k' : Kernel)
      → k'.page_free_list ≡ k.page_free_list
      → ((q : ℕ) → p ≢ q → k'.pages q ≡ k.pages q)
      → k'.npages ≡ k.npages
      → FreeList k' ps
  FreeList-frame k' head same size = record {
    chain = rw head (Links-frame k.pages k'.pages p same k.page_free_list ps out free.chain);
    distinct = free.distinct;
    bounded = subst (λ n. All (λ q. q < n) ps) (sym size) free.bounded;
    unused = unused-frame k.pages k'.pages p same ps out free.unused;
  }

  -- `page_free` of a page of memory that has no references and is not on the free list returns, and
  -- the free list then holds the page followed by exactly the pages of before.
  pub page_free-FreeList :
      p < k.npages
      → (k.pages p).pp_ref ≡ 0
      → (k' : Kernel) × (page_free p k ≡ ret tt k') × FreeList k' (p ∷ ps)
  unfolding page_free
  page_free-FreeList lt ref =
      (_, refl, FreeList-push _ refl (ground arith) (ground arith) (λ q ne. ground arith) refl lt)

-- What `page_alloc` does on a free list, by the list.
abbrev pub Allocates : (flags : ℕ) → Kernel → List ℕ → Outcome (Option ℕ) → Type 0
Allocates flags k [] o = o ≡ ret none k
Allocates flags k (p ∷ ps) o =
    (k' : Kernel) × (o ≡ ret (some p) k')
    × FreeList k' ps
    × ((i : ℕ) → k'.frames p i ≡ (if flags % 2 == 1 then 0 else k.frames p i))
    × ((f : ℕ) → p ≢ f → k'.frames f ≡ k.frames f)
    × (k' ≡ record k { page_free_list = k'.page_free_list; frames = k'.frames })

-- On a free list that holds exactly `ps`, `page_alloc` answers null and changes nothing when `ps`
-- is empty. Otherwise it returns the first page, the list then holds exactly the rest, the page's
-- words are 0 when bit 0 of the flags is set and are kept otherwise, and nothing else but the
-- list's head changes.
pub page_alloc_lem :
    (flags : ℕ) {k : Kernel} (ps : List ℕ)
    → FreeList k ps
    → Allocates flags k ps (page_alloc flags k)
unfolding page_alloc
page_alloc_lem flags [] free = ground (arith, free.chain)
page_alloc_lem flags {k} (p ∷ ps) free = (
  record k {
    page_free_list = (k.pages p).pp_link;
    frames = if flags % 2 == 1 then update k.frames p (λ _. 0) else k.frames;
  },
  ground (arith, free.chain.0, free.bounded.0),
  record {
    chain = free.chain.1;
    distinct = free.distinct.1;
    bounded = free.bounded.1;
    unused = free.unused.1;
  },
  λ i. ground arith,
  λ f ne. ground arith,
  refl,
)

-- For a page of memory that is not on the free list and whose count is from 1 to 65535,
-- `page_decref` returns with the count one lower. The page is at the front of the free list if the
-- count was 1, and the list is as before otherwise; no other page changes.
pub page_decref_lem :
    {k : Kernel} {ps : List ℕ} (p : ℕ)
    → FreeList k ps
    → NotIn p ps
    → p < k.npages
    → 0 < (k.pages p).pp_ref
    → (k.pages p).pp_ref < 65536
    → Returns
        (λ _ k'.
          (suc (k'.pages p).pp_ref ≡ (k.pages p).pp_ref)
          × FreeList k' (if (k.pages p).pp_ref == 1 then p ∷ ps else ps)
          × ((q : ℕ) → p ≢ q → k'.pages q ≡ k.pages q)
          × (k' ≡ record k { pages = k'.pages; page_free_list = k'.page_free_list }))
        (page_decref p k)
unfolding page_decref
page_decref_lem {k} p free out lt pos small = elim (Bool-cases ((k.pages p).pp_ref == 1)) [
  | inl last ↦
      let zero : ((((k.pages p).pp_ref + 65535) % 65536) == 0) ≡ true = ground arith in
      rw (zero, last)
        (
          ground arith,
          FreeList-push free p out _ refl (ground arith) (ground arith) (λ q ne. ground arith) refl
              lt,
          λ q ne. ground arith,
          refl,
        )
  | inr shared ↦
      let more : ((((k.pages p).pp_ref + 65535) % 65536) == 0) ≡ false = ground arith in
      rw (more, shared)
        (
          ground arith,
          FreeList-frame free p out _ refl (λ q ne. ground arith) refl,
          λ q ne. ground arith,
          refl,
        )
]
