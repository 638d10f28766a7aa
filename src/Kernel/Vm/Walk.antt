-- ===== src/Kernel/Vm/Walk.antt =====
-- What `pgdir_walk` and `page_lookup` answer, and the bits of the entries that the code writes.
use csdi_jos.Common.{
  ℕ, ◌+◌, ◌/◌, ◌%◌, ◌^◌, ◌≤◌, ◌<◌, ◌≡◌, ◌≢◌, refl, sym, ap, ◌∙◌, Bool, true, false, leb, Option,
  none, some, List, [], ◌∷◌, NotIn, update, bit_or, arith,
}
use csdi_jos.Common.Bits.{bit_or-page, bit_or-mod, bit_or-mod_half, bit_or-mod_quarter, bit_or-zero}
use csdi_jos.Kernel.State.{Kernel, Outcome, ret}
use csdi_jos.Kernel.State.Returns.{Returns}
use csdi_jos.Kernel.State.Layout.{pdx, ptx, pte_p, pte_w, pte_frame, make_pte}
use csdi_jos.Kernel.Pages.FreeList.{FreeList, FreeList-frame, page_alloc_lem}
use csdi_jos.Kernel.Vm.{PtePtr, page2pa, pgdir_walk, create_table, install_table}

-- The entry that maps a page of memory names the page, is present, and has the permissions.
module _ (pp perm : ℕ) (small : pp < 2 ^ 20) (low : perm < 4096) where
  pub make_pte-frame : pte_frame (make_pte (page2pa pp) perm) ≡ pp
  make_pte-frame =
      let outer = bit_or-page (bit_or (page2pa pp) 1) perm in
      let inner = bit_or-page (page2pa pp) 1 in
      let zeros = bit_or-zero pp in
      let perm_page : perm / 4096 ≡ 0 = omega arith in
      let page : page2pa pp / 4096 ≡ pp = omega arith in
      rw (outer, inner, perm_page, page, zeros) zeros

  pub make_pte-present : make_pte (page2pa pp) perm % 2 ≡ 1
  make_pte-present =
      omega (arith, bit_or-mod (bit_or (page2pa pp) 1) perm, bit_or-mod (page2pa pp) 1)

  pub make_pte-writable : make_pte (page2pa pp) perm / 2 % 2 ≡ perm / 2 % 2
  make_pte-writable =
      omega (arith, bit_or-mod_half (bit_or (page2pa pp) 1) perm, bit_or-mod_half (page2pa pp) 1)

  pub make_pte-user : make_pte (page2pa pp) perm / 4 % 2 ≡ perm / 4 % 2
  make_pte-user =
      omega
        (arith, bit_or-mod_quarter (bit_or (page2pa pp) 1) perm, bit_or-mod_quarter (page2pa pp) 1)

-- The page table for `va` is present, lies in memory, and is not the directory itself.
pub record HasTable (k : Kernel) (pgdir va table : ℕ) : Type 0 where
  pub present : pte_p (k.frames pgdir (pdx va)) ≡ true
  pub at : pte_frame (k.frames pgdir (pdx va)) ≡ table
  pub inside : table < k.npages
  pub apart : pgdir ≢ table

pub pgdir_walk-present :
    {k : Kernel} {pgdir va table : ℕ} (create : Bool)
    → HasTable k pgdir va table
    → pgdir_walk (some pgdir) va create k ≡ ret (some (table, ptx va)) k
unfolding pgdir_walk
pgdir_walk-present create h = ground arith

pub pgdir_walk-absent :
    (k : Kernel) (pgdir va : ℕ)
    → pte_p (k.frames pgdir (pdx va)) ≡ false
    → pgdir_walk (some pgdir) va false k ≡ ret none k
unfolding pgdir_walk
pgdir_walk-absent k pgdir va h = ground arith

-- The entry that installs a page table.
abbrev table_entry : ℕ → ℕ
table_entry p = bit_or (bit_or (bit_or (page2pa p) 1) 2) 4

table_entry-present : (p : ℕ) → pte_p (table_entry p) ≡ true
table_entry-present p = ground (
  arith,
  bit_or-mod (bit_or (bit_or (page2pa p) 1) 2) 4,
  bit_or-mod (bit_or (page2pa p) 1) 2,
  bit_or-mod (page2pa p) 1,
)

table_entry-writable : (p : ℕ) → pte_w (table_entry p) ≡ true
table_entry-writable p = ground (
  arith,
  bit_or-mod_half (bit_or (bit_or (page2pa p) 1) 2) 4,
  bit_or-mod_half (bit_or (page2pa p) 1) 2,
  bit_or-mod_half (page2pa p) 1,
)

table_entry-frame : (p : ℕ) → p < 2 ^ 20 → pte_frame (table_entry p) ≡ p
table_entry-frame p small =
    let page : page2pa p / 4096 ≡ p = omega arith in
    rw
      (
        bit_or-page (bit_or (bit_or (page2pa p) 1) 2) 4,
        bit_or-page (bit_or (page2pa p) 1) 2,
        bit_or-page (page2pa p) 1,
        page,
        bit_or-zero p,
        bit_or-zero p,
      )
      (bit_or-zero p)

-- The state after a page table has been made out of page `p`.
pub record NewTable (k k' : Kernel) (pgdir va p : ℕ) : Type 0 where
  pub table : HasTable k' pgdir va p
  pub writable : pte_w (k'.frames pgdir (pdx va)) ≡ true
  pub counted : (k'.pages p).pp_ref ≡ 1
  pub cleared : (i : ℕ) → k'.frames p i ≡ 0
  pub directory : (i : ℕ) → i ≢ pdx va → k'.frames pgdir i ≡ k.frames pgdir i
  pub others : (f : ℕ) → f ≢ p → f ≢ pgdir → k'.frames f ≡ k.frames f
  pub counts : (q : ℕ) → p ≢ q → k'.pages q ≡ k.pages q
  pub kept :
      k' ≡ record k { pages = k'.pages; page_free_list = k'.page_free_list; frames = k'.frames }

abbrev pub Creates : Kernel → (pgdir va : ℕ) → List ℕ → Outcome (Option PtePtr) → Type 0
Creates k pgdir va [] o = o ≡ ret none k
Creates k pgdir va (p ∷ ps) o =
    Returns (λ r k'. (r ≡ some (p, ptx va)) × FreeList k' ps × NewTable k k' pgdir va p) o

module _ {k : Kernel} (k₀ : Kernel) (pgdir va : ℕ) {ps : List ℕ} (p : ℕ) (free : FreeList k ps)
    (out : NotIn p ps) (lt : p < k.npages) (small : k.npages ≤ 2 ^ 20) (ne : pgdir ≢ p)
    (unused : (k.pages p).pp_ref ≡ 0) (clear : (i : ℕ) → k.frames p i ≡ 0)
    (same : (f : ℕ) → p ≢ f → k.frames f ≡ k₀.frames f)
    (kept : k ≡ record k₀ { page_free_list = k.page_free_list; frames = k.frames }) where
  install_table_lem :
      Returns
        (λ r k'. (r ≡ some (p, ptx va)) × FreeList k' ps × NewTable k₀ k' pgdir va p)
        (install_table pgdir va p k)
  unfolding install_table
  install_table_lem =
      let inside : leb k.npages p ≡ false = ground arith in
      let word : k.frames pgdir ≡ k₀.frames pgdir = same pgdir (λ e. ne (sym e)) in
      rw inside (
        refl,
        FreeList-frame free p out _ refl (λ q other. ground arith) refl,
        record {
          table = record {
            present = ground (arith, table_entry-present p);
            at = ground (arith, table_entry-frame p (omega arith));
            inside = lt;
            apart = ne;
          };
          writable = ground (arith, table_entry-writable p);
          counted = ground arith;
          cleared = λ i. ground (arith, clear i);
          directory = λ i other. ground (arith, word);
          others = λ f away elsewhere. ground (arith, same f);
          counts = λ q other. ground (arith, ap (λ (s : Kernel). s.pages q) kept);
          kept =
              ap
                (λ (s : Kernel). record s {
                  pages =
                      update k.pages p
                        (record (k.pages p) { pp_ref = ((k.pages p).pp_ref + 1) % 65536 });
                  frames = update k.frames pgdir (update (k.frames pgdir) (pdx va) (table_entry p));
                })
                kept;
        },
      )

pub create_table_lem :
    {k : Kernel} (pgdir va : ℕ) (ps : List ℕ)
    → FreeList k ps
    → k.npages ≤ 2 ^ 20
    → NotIn pgdir ps
    → Creates k pgdir va ps (create_table pgdir va k)
unfolding create_table
create_table_lem pgdir va [] free small out = ground (arith, page_alloc_lem 1 [] free)
create_table_lem {k} pgdir va (p ∷ ps) free small out =
    let (k', taken, rest, clear, same, kept) = page_alloc_lem 1 (p ∷ ps) free in
    let memory : k'.npages ≡ k.npages = ap (λ (s : Kernel). s.npages) kept in
    let pages : (k'.pages p).pp_ref ≡ 0 =
      ap (λ (s : Kernel). (s.pages p).pp_ref) kept ∙ free.unused.0 in
    rw taken (
      install_table_lem k pgdir va p rest free.distinct.0 (rw memory free.bounded.0)
        (rw memory small) out.0 pages clear same kept)

-- Where the page table for `va` is absent, with at most 2 ^ 20 pages of memory and a directory that
-- is not a free page, `pgdir_walk` with `create` answers null without a change when no page is
-- free. Otherwise it makes the first free page the page table, cleared and with one reference, and
-- answers its entry for `va`; no other entry of the directory and no other page's words change.
pub pgdir_walk-create :
    {k : Kernel} (pgdir va : ℕ) (ps : List ℕ)
    → FreeList k ps
    → k.npages ≤ 2 ^ 20
    → NotIn pgdir ps
    → pte_p (k.frames pgdir (pdx va)) ≡ false
    → Creates k pgdir va ps (pgdir_walk (some pgdir) va true k)
unfolding pgdir_walk
pgdir_walk-create pgdir va ps free small out absent =
    rw absent (create_table_lem pgdir va ps free small out)
