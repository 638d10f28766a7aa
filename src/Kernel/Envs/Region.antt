-- ===== src/Kernel/Envs/Region.antt =====
-- What `region_alloc` of kern/env.c does to an address space, a page after another.
pub mod Taken
pub mod Cons
pub mod Loop
use csdi_jos.Common.{
  ℕ, ◌+◌, ◌*◌, ◌^◌, ◌≤◌, ◌<◌, ◌≡◌, ◌≢◌, true, false, none, some, List, length, arith,
}
use csdi_jos.Kernel.State.{Kernel, ◌>>=◌}
use csdi_jos.Kernel.State.Layout.{pg_size, make_pte}
use csdi_jos.Kernel.Vm.{page2pa}
use csdi_jos.Kernel.Vm.View.{translate, same_page, Ordinary}
use csdi_jos.Kernel.Vm.Fresh.{Space, Private}

-- The page of round `j`.
abbrev pub page_at : (start j : ℕ) → ℕ
page_at start j = start + pg_size * j

-- `n` pages from `start` on map new pages of zeros that the user may write; the rest of the address
-- space and all pages in use are as before.
pub record Region (k k' : Kernel) (pgdir start n : ℕ) (ps qs : List ℕ) : Type 0 where
  pub space : Space k' pgdir qs
  pub pages : ℕ → ℕ
  pub mapped :
      (j : ℕ) → j < n → translate k' pgdir (page_at start j) ≡ some (make_pte (page2pa (pages j)) 6)
  pub own : (j : ℕ) → j < n → Private k' pgdir qs (pages j)
  pub inside : (j : ℕ) → j < n → pages j < k'.npages
  pub clear : (j i : ℕ) → j < n → k'.frames (pages j) i ≡ 0
  pub distinct : (i j : ℕ) → i < j → j < n → pages i ≢ pages j
  pub fresh : (f j : ℕ) → Private k pgdir ps f → j < n → f ≢ pages j
  pub others :
      (a : ℕ)
      → Ordinary a
      → ((j : ℕ) → j < n → same_page (page_at start j) a ≡ false)
      → translate k' pgdir a ≡ translate k pgdir a
  pub private : (f : ℕ) → Private k pgdir ps f → Private k' pgdir qs f × (k'.frames f ≡ k.frames f)
  pub fewer : length ps ≤ length qs + 2 * n
  pub kept :
      k' ≡ record k { pages = k'.pages; page_free_list = k'.page_free_list; frames = k'.frames }

abbrev pub Loads : (k : Kernel) (pgdir start n : ℕ) (ps : List ℕ) → Unit {0} → Kernel → Type 0
Loads k pgdir start n ps _ k' = (qs : List ℕ) × Region k k' pgdir start n ps qs

-- The pages of the region map nothing.
abbrev pub Unmapped : (k : Kernel) (pgdir start n : ℕ) → Type 0
Unmapped k pgdir start n = (j : ℕ) → j < n → translate k pgdir (page_at start j) ≡ none

pub not_below_zero : (i : ℕ) → i < 0 → ⊥
not_below_zero i lt = omega (arith, lt)

pub pages_apart :
    (a d : ℕ)
    → 0 < d
    → a + pg_size * d < 2 ^ 32
    → (same_page (a + pg_size * d) a ≡ false) × (same_page a (a + pg_size * d) ≡ false)
pages_apart a d pos lt = (ground arith, ground arith)

pub same_page_self : (a : ℕ) → same_page a a ≡ true
same_page_self a = ground arith
