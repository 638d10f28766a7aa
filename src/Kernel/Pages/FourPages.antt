-- ===== src/Kernel/Pages/FourPages.antt =====
-- `page_alloc_4pages` against the free list as a list.
use csdi_jos.Common.{
  ℕ, zero, suc, ◌+◌, ◌<◌, ◌≡◌, refl, ◌==◌, Option, none, some, List, [], ◌∷◌, length, ltb,
  if◌then◌else◌, arith,
}
use csdi_jos.Kernel.State.{Kernel, ret, fault}
use csdi_jos.Kernel.Pages.{page_alloc_4pages, seek}
use csdi_jos.Kernel.Pages.FreeList.{Links}

-- The first entry `a` with `a + 3` three places further on.
abbrev pub window : List ℕ → Option ℕ
window [] = none
window (a ∷ []) = none
window (a ∷ b ∷ []) = none
window (a ∷ b ∷ c ∷ []) = none
window (a ∷ b ∷ c ∷ d ∷ ps) = if d == a + 3 then some a else window (b ∷ c ∷ d ∷ ps)

-- The search from the first page and the one three links on.
seek_lem :
    (k : Kernel) (a b c : ℕ) (ps : List ℕ) (fuel : ℕ) (head : Option ℕ)
    → (k.pages a).pp_link ≡ some b
    → (k.pages b).pp_link ≡ some c
    → (k.pages c).pp_link ≡ head
    → Links k.pages head ps
    → length ps < fuel
    → (tail : Option ℕ) × (seek fuel head (some a) k ≡ elim (window (a ∷ b ∷ c ∷ ps)) [
      | none ↦ ret (none, tail) k
      | some t ↦ ret (some (t + 3), some t) k
    ])
unfolding seek
seek_lem k a b c ps zero head ab bc ch links lt = absurd (omega arith)
seek_lem k a b c [] (suc fuel) head ab bc ch links lt = (some a, ground (arith, links))
seek_lem k a b c (d ∷ ps) (suc fuel) head ab bc ch links lt =
    let (tail, e) =
      seek_lem k b c d ps fuel (k.pages d).pp_link bc (ground arith) refl links.1 (omega arith) in
    (tail, ground arith)

-- On a free list that holds exactly `ps`, with more fuel than its length and no clearing asked for,
-- `page_alloc_4pages` goes through a null pointer when the list has fewer than three pages.
-- Otherwise it answers the first page `a` with page `a + 3` three places further on, or null when
-- there is none, and leaves every page on the free list.
pub page_alloc_4pages_lem :
    (k : Kernel) (ps : List ℕ) (fuel : ℕ)
    → Links k.pages k.page_free_list ps
    → length ps < fuel
    → page_alloc_4pages fuel 0 k ≡ (if ltb (length ps) 3 then fault else ret (window ps) k)
unfolding page_alloc_4pages
page_alloc_4pages_lem k [] fuel links lt = ground (arith, links)
page_alloc_4pages_lem k (a ∷ []) fuel links lt = ground (arith, links)
page_alloc_4pages_lem k (a ∷ b ∷ []) fuel links lt = ground (arith, links)
page_alloc_4pages_lem k (a ∷ b ∷ c ∷ ps) fuel links lt =
    let found =
      seek_lem k a b c ps fuel (k.pages c).pp_link links.1.0 links.1.1.0 refl links.1.1.1
        (omega arith) in
    ground (arith, found.1)
