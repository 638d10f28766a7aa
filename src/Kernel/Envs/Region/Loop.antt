-- ===== src/Kernel/Envs/Region/Loop.antt =====
-- `region_alloc` of kern/env.c maps new pages over a range of addresses.
use csdi_jos.Common.{
  ℕ, zero, suc, ◌+◌, ◌*◌, ◌/◌, ◌^◌, ◌≤◌, ◌<◌, ◌≡◌, ◌≢◌, inl, inr, refl, sym, ap, ◌∙◌, subst, Bool,
  ◌==◌, ltb_of_lt, Option, none, some, List, [], ◌∷◌, length, if◌then◌else◌, arith,
}
use csdi_jos.Kernel.State.{Kernel, ret, K, panics, and_then, ◌>>=◌}
use csdi_jos.Kernel.State.Returns.{Returns, Returns-bind, Returns-mono}
use csdi_jos.Kernel.State.Layout.{u_top, pg_size, add32, round_down, make_pte}
use csdi_jos.Kernel.Pages.{page_alloc}
use csdi_jos.Kernel.Pages.FreeList.{FreeList, page_alloc_lem}
use csdi_jos.Kernel.Vm.{page2pa, page_insert}
use csdi_jos.Kernel.Vm.View.{translate, Ordinary, below_top-Ordinary}
use csdi_jos.Kernel.Vm.Fresh.{Space, Mapped, MapsFresh, page_insert-MapsFresh}
use csdi_jos.Kernel.Envs.{region_loop, region_alloc}
use csdi_jos.Kernel.Envs.Region.{page_at, Region, Loads, Unmapped, not_below_zero, pages_apart}
use csdi_jos.Kernel.Envs.Region.Taken.{size_same, Space-alloc, translate-alloc, Private-new}
use csdi_jos.Kernel.Envs.Region.Cons.{Used-length, Region-cons}

Region-nil :
    {k : Kernel} {pgdir start : ℕ} {ps : List ℕ} → Space k pgdir ps → Region k k pgdir start 0 ps ps
Region-nil {k} {pgdir} {start} {ps} space = record {
  space = space;
  pages = λ j. 0;
  mapped = λ j lt. absurd (not_below_zero j lt);
  own = λ j lt. absurd (not_below_zero j lt);
  inside = λ j lt. absurd (not_below_zero j lt);
  clear = λ j i lt. absurd (not_below_zero j lt);
  distinct = λ i j _ lt. absurd (not_below_zero j lt);
  fresh = λ f j _ lt. absurd (not_below_zero j lt);
  others = λ a out away. refl;
  private = λ f own. (own, refl);
  fewer = omega arith;
  kept = refl;
}

abbrev insert_then : ℕ → (pgdir start u_bound : ℕ) → ℕ → K (Unit {0})
insert_then fuel pgdir start u_bound r =
    if r == 0 then region_loop fuel (some pgdir) (add32 start pg_size) u_bound else panics

abbrev page_then : ℕ → (pgdir start u_bound : ℕ) → Option ℕ → K (Unit {0})
page_then fuel pgdir start u_bound none = panics
page_then fuel pgdir start u_bound (some p) =
    page_insert (some pgdir) p start 6 >>= insert_then fuel pgdir start u_bound

abbrev round_of : ℕ → (pgdir start u_bound : ℕ) → K (Unit {0})
round_of fuel pgdir start u_bound = page_alloc 1 >>= page_then fuel pgdir start u_bound

region_loop-done :
    (fuel pgdir start u_bound : ℕ) (k : Kernel)
    → u_bound ≤ start
    → region_loop (suc fuel) (some pgdir) start u_bound k ≡ ret tt k
unfolding region_loop
region_loop-done fuel pgdir start u_bound k le = ground (arith, le)

region_loop-round :
    (fuel pgdir start u_bound : ℕ) (k : Kernel)
    → start < u_bound
    → region_loop (suc fuel) (some pgdir) start u_bound k ≡ round_of fuel pgdir start u_bound k
unfolding region_loop
region_loop-round fuel pgdir start u_bound k lt =
    ap (λ (b : Bool). if b then round_of fuel pgdir start u_bound k else ret tt k)
      (ltb_of_lt start u_bound lt)

first_empty :
    (k : Kernel) (pgdir start n : ℕ)
    → Unmapped k pgdir start (suc n)
    → translate k pgdir start ≡ none
first_empty k pgdir start n unmapped =
    subst (λ a. translate k pgdir a ≡ none) (omega arith) (unmapped 0 (omega arith))

later_empty :
    {k k₁ k₂ : Kernel} {pgdir p start n : ℕ} {ps qs : List ℕ} (space : Space k pgdir (p ∷ ps))
    → FreeList k₁ ps
    → ((f : ℕ) → p ≢ f → k₁.frames f ≡ k.frames f)
    → (k₁ ≡ record k { page_free_list = k₁.page_free_list; frames = k₁.frames })
    → Mapped k₁ k₂ pgdir start p (make_pte (page2pa p) 6) ps qs
    → start + pg_size * suc n ≤ u_top
    → Unmapped k pgdir start (suc n)
    → Unmapped k₂ pgdir (start + pg_size) n
later_empty {k} {k₁} {k₂} {pgdir} {p} {start} {n} space rest same kept m top unmapped j lt =
    let out = below_top-Ordinary (page_at start (suc j)) (omega (arith, lt, top)) in
    subst (λ a. translate k₂ pgdir a ≡ none) (omega arith)
      (m.view (page_at start (suc j)) out
        ∙ ap
            (λ (b : Bool).
              if b
              then some (make_pte (page2pa p) 6)
              else translate k₁ pgdir (page_at start (suc j)))
            (pages_apart start (suc j) (omega arith) (omega (arith, lt, top))).1
        ∙ translate-alloc space rest same kept (page_at start (suc j)) out
        ∙ unmapped (suc j) (omega (arith, lt)))

one_more : (ps : List ℕ) → 1 ≤ length ps → ps ≡ [] → ⊥
one_more ps more empty = omega (arith, more, ap length empty)

region_round :
    (fuel n start u_bound : ℕ) {k : Kernel} {pgdir p : ℕ} (ps : List ℕ)
    → Space k pgdir (p ∷ ps)
    → start + pg_size * suc n ≤ u_top
    → Unmapped k pgdir start (suc n)
    → 1 ≤ length ps
    → ((k₂ : Kernel) (qs : List ℕ)
        → Space k₂ pgdir qs
        → length ps ≤ length qs + 1
        → Unmapped k₂ pgdir (start + pg_size) n
        → Returns
            (Loads k₂ pgdir (start + pg_size) n qs)
            (region_loop fuel (some pgdir) (add32 start pg_size) u_bound k₂))
    → Returns (Loads k pgdir start (suc n) (p ∷ ps)) (round_of fuel pgdir start u_bound k)
region_round fuel n start u_bound {k} {pgdir} {p} ps space top unmapped more next =
    let (k₁, e, rest, cleared, same, kept) = page_alloc_lem 1 (p ∷ ps) space.free in
    let out : Ordinary start = below_top-Ordinary start (omega (arith, top)) in
    subst
      (λ o.
        Returns (Loads k pgdir start (suc n) (p ∷ ps))
          (and_then o (page_then fuel pgdir start u_bound)))
      (sym e)
      (Returns-bind (MapsFresh k₁ pgdir start p (make_pte (page2pa p) 6) ps)
        (Loads k pgdir start (suc n) (p ∷ ps)) (page_insert (some pgdir) p start 6 k₁)
        (insert_then fuel pgdir start u_bound)
        (page_insert-MapsFresh pgdir start p 6 (omega arith) out (Space-alloc space rest same kept)
          (Private-new space rest same kept)
          (subst (λ m. p < m) (sym (size_same space rest same kept)) space.free.bounded.0)
          (translate-alloc space rest same kept start out ∙ first_empty k pgdir start n unmapped))
        (λ r k₂ h. elim h [
          | inl (ok, qs, m) ↦
              subst
                (λ s.
                  Returns (Loads k pgdir start (suc n) (p ∷ ps))
                    (insert_then fuel pgdir start u_bound s k₂))
                (sym ok)
                (Returns-mono (Loads k₂ pgdir (start + pg_size) n qs)
                  (Loads k pgdir start (suc n) (p ∷ ps))
                  (region_loop fuel (some pgdir) (add32 start pg_size) u_bound k₂)
                  (next k₂ qs m.space (Used-length ps qs m.used)
                    (later_empty space rest same kept m top unmapped))
                  (λ _ k' (rs, r). (rs, Region-cons space rest cleared same kept m r top)))
          | inr (_, _, empty) ↦ absurd (one_more ps more empty)
        ]))

next_start : (start n : ℕ) → start + pg_size * suc n ≤ u_top → start + pg_size ≡ add32 start pg_size
next_start start n top = ground (arith, top)

no_pages : (n : ℕ) → 2 * suc n ≤ length {A = ℕ} [] → ⊥
no_pages n more = omega (arith, more)

region_loop_lem :
    (fuel n start u_bound : ℕ) {k : Kernel} {pgdir : ℕ} (ps : List ℕ)
    → n < fuel
    → u_bound ≤ start + pg_size * n
    → start + pg_size * n < u_bound + pg_size
    → start + pg_size * n ≤ u_top
    → Space k pgdir ps
    → Unmapped k pgdir start n
    → 2 * n ≤ length ps
    → Returns (Loads k pgdir start n ps) (region_loop fuel (some pgdir) start u_bound k)
region_loop_lem (suc fuel) zero start u_bound {k} {pgdir} ps _ above _ _ space _ _ =
    subst (Returns (Loads k pgdir start 0 ps))
      (sym (region_loop-done fuel pgdir start u_bound k (omega (arith, above))))
      (ps, Region-nil space)
region_loop_lem (suc fuel) (suc n) start u_bound {k} {pgdir} (p ∷ ps) lt above near top space
      unmapped more =
    subst (Returns (Loads k pgdir start (suc n) (p ∷ ps)))
      (sym (region_loop-round fuel pgdir start u_bound k (omega (arith, near))))
      (region_round fuel n start u_bound ps space top unmapped (omega (arith, more))
        (λ k₂ qs space₂ fewer unmapped₂.
          subst
            (λ a.
              Returns (Loads k₂ pgdir (start + pg_size) n qs)
                (region_loop fuel (some pgdir) a u_bound k₂))
            (next_start start n top)
            (region_loop_lem fuel n (start + pg_size) u_bound qs (omega (arith, lt))
              (omega (arith, above)) (omega (arith, near)) (omega (arith, top)) space₂ unmapped₂
              (omega (arith, more, fewer)))))
region_loop_lem (suc fuel) (suc n) start u_bound [] _ _ _ _ _ _ more = absurd (no_pages n more)
region_loop_lem zero n start u_bound ps lt _ _ _ _ _ _ = absurd (not_below_zero n lt)

-- The pages that hold `len` bytes.
abbrev pub page_count : ℕ → ℕ
page_count len = (len + 4095) / 4096

region_bound :
    (start len : ℕ)
    → start + pg_size * page_count len ≤ u_top
    → (add32 start len ≤ start + pg_size * page_count len)
      × (start + pg_size * page_count len < add32 start len + pg_size)
region_bound start len top =
    let e : add32 start len ≡ start + len = ground (arith, top) in
    (rw e (omega (arith, top)), rw e (omega (arith, top)))

-- Let the directory of `e` be well formed with writable entries, with a free list that holds
-- exactly `ps` and neither the directory nor a page table in it, let memory have at most 2 ^ 20
-- pages, and let the pages from `va` rounded down, as many as `len` bytes take from a page boundary
-- on, map nothing and end at or below `UTOP`, with two free pages for each. `region_alloc` returns.
-- These pages map distinct pages of zeros that the user may write, none of them free, the
-- directory, a page table or a page that was private to someone before; any other address outside
-- the window at `UVPT` translates as before, pages that are neither free nor part of the directory
-- keep their words, the directory is well formed, and at most two pages for each one mapped have
-- left the free list.
pub region_alloc-Region :
    (e va len : ℕ) {k : Kernel} {pgdir : ℕ} (ps : List ℕ)
    → (k.envs e).env_pgdir ≡ some pgdir
    → round_down va + pg_size * page_count len ≤ u_top
    → Space k pgdir ps
    → Unmapped k pgdir (round_down va) (page_count len)
    → 2 * page_count len ≤ length ps
    → Returns (Loads k pgdir (round_down va) (page_count len) ps) (region_alloc e va len k)
unfolding region_alloc
region_alloc-Region e va len {k} {pgdir} ps own top space unmapped more =
    let start = round_down va in
    subst
      (λ d.
        Returns (Loads k pgdir (round_down va) (page_count len) ps)
          (region_loop (2 ^ 20 + 1) d start (add32 start len) k))
      (sym own)
      (region_loop_lem (2 ^ 20 + 1) (page_count len) start (add32 start len) ps (omega (arith, top))
        (region_bound (round_down va) len top).0 (region_bound (round_down va) len top).1 top space
        unmapped more)
