-- ===== src/Kernel/Load/Segments.antt =====
-- A round of `load_icode` of kern/env.c against the memory that the program header describes.
use csdi_jos.Common.{
  ℕ, ◌+◌, ◌*◌, ◌/◌, ◌%◌, ◌^◌, ◌≤◌, ◌<◌, ◌≡◌, inl, inr, refl, sym, ap, subst, ◌∙◌, Bool, Bool-cases,
  true, false, ◌==◌, List, length, some, if◌then◌else◌, arith,
}
use csdi_jos.Library.Memory.{Memory}
use csdi_jos.Boot.Elf.{p_type, p_va, p_memsz, p_filesz, p_offset}
use csdi_jos.Kernel.State.{Kernel, ◌>>◌}
use csdi_jos.Kernel.State.Returns.{Returns, Returns-bind, Returns-mono}
use csdi_jos.Kernel.State.Layout.{u_top, add32, round_down}
use csdi_jos.Kernel.Envs.{region_alloc}
use csdi_jos.Kernel.Envs.Region.{Loads, Unmapped, page_at}
use csdi_jos.Kernel.Envs.Region.Loop.{page_count, region_alloc-Region}
use csdi_jos.Kernel.Vm.Fresh.{Space}
use csdi_jos.Kernel.Load.{copy_up, load_segment}
use csdi_jos.Kernel.Load.Image.{Image, Holds, with_pages, with_bytes}
use csdi_jos.Kernel.Load.Copy.{Copied, copy_up-Copied}
use csdi_jos.Kernel.Load.Pages.{Holds-pages}

-- The pages from that of `va` on with a byte of the `len` bytes at `va`.
abbrev pub pages_of : (va len : ℕ) → ℕ
pages_of va len = (va % 4096 + len + 4095) / 4096

-- What a program header of type 1 asks for: pages for its bytes in memory, and there the bytes of the
-- file.
abbrev pub segment_image : Memory → (binary ph : ℕ) → Image → Image
segment_image m binary ph img =
    if p_type m ph == 1
    then with_bytes (p_filesz m ph) (p_va m ph) (add32 binary (p_offset m ph)) m
        (with_pages (p_va m ph / 4096) (pages_of (p_va m ph) (p_memsz m ph)) img)
    else img

abbrev pub segment_pages : Memory → (ph : ℕ) → ℕ
segment_pages m ph = if p_type m ph == 1 then pages_of (p_va m ph) (p_memsz m ph) else 0

-- The bytes from a page boundary on would take as many pages as they take at `va`, the pages end at or
-- below `UTOP`, the file's bytes lie in them, the image does not wrap round, and none of the pages is
-- there yet.
pub record Fits (m : Memory) (binary ph : ℕ) (img : Image) : Type 0 where
  pub whole : pages_of (p_va m ph) (p_memsz m ph) ≡ page_count (p_memsz m ph)
  pub below : round_down (p_va m ph) + 4096 * pages_of (p_va m ph) (p_memsz m ph) ≤ u_top
  pub covered :
      p_va m ph + p_filesz m ph
      ≤ round_down (p_va m ph) + 4096 * pages_of (p_va m ph) (p_memsz m ph)
  pub source : add32 binary (p_offset m ph) + p_filesz m ph < 2 ^ 32
  pub new :
      (q : ℕ)
      → p_va m ph / 4096 ≤ q
      → q < p_va m ph / 4096 + pages_of (p_va m ph) (p_memsz m ph)
      → img.has q ≡ false

-- Only the pages and the words of memory change.
abbrev pub Kept : Kernel → Kernel → Type 0
Kept k k' =
    k' ≡ record k { pages = k'.pages; page_free_list = k'.page_free_list; frames = k'.frames }

pub Kept-then : (k : Kernel) {k₁ k₂ : Kernel} → Kept k k₁ → Kept k₁ k₂ → Kept k k₂
Kept-then k {k₁} {k₂} first next =
    next
    ∙ ap
        (λ (s : Kernel). record s {
          pages = k₂.pages;
          page_free_list = k₂.page_free_list;
          frames = k₂.frames;
        })
        first

Kept-frames : (k : Kernel) {k₁ : Kernel} → k₁ ≡ record k { frames = k₁.frames } → Kept k k₁
Kept-frames k {k₁} e =
    e
    ∙ ap (λ pages. record k { pages = pages; frames = k₁.frames })
        (sym (ap (λ (s : Kernel). s.pages) e))
    ∙ ap (λ list. record k { pages = k₁.pages; page_free_list = list; frames = k₁.frames })
        (sym (ap (λ (s : Kernel). s.page_free_list) e))

-- The memory of the program is as the image says, for two pages at most of each page asked for.
abbrev pub Loaded :
    (k : Kernel) (pgdir pages : ℕ) (ps : List ℕ) → Image → Unit {0} → Kernel → Type 0
Loaded k pgdir pages ps img _ k' =
    (qs : List ℕ) × Holds k' pgdir qs img × (length ps ≤ length qs + 2 * pages) × Kept k k'

pub segment-Unmapped :
    {k : Kernel} {pgdir : ℕ} {ps : List ℕ} {img : Image} (va n : ℕ)
    → Holds k pgdir ps img
    → round_down va + 4096 * n ≤ u_top
    → ((q : ℕ) → va / 4096 ≤ q → q < va / 4096 + n → img.has q ≡ false)
    → Unmapped k pgdir (round_down va) n
segment-Unmapped {k} {pgdir} {ps} {img} va n h below new j lt =
    h.empty (page_at (round_down va) j) (omega (arith, below, lt)) (
      subst (λ q. img.has q ≡ false) (omega arith)
        (new (va / 4096 + j) (omega arith) (omega (arith, lt))))

segment_has :
    (img : Image) (va n size j : ℕ)
    → va + size ≤ round_down va + 4096 * n
    → j < size
    → (with_pages (va / 4096) n img).has ((va + j) / 4096) ≡ true
segment_has img va n size j covered lt =
    let from : va / 4096 ≤ (va + j) / 4096 = omega arith in
    let to : (va + j) / 4096 < va / 4096 + n = omega (arith, covered, lt) in
    ground (arith, from, to)

-- `region_alloc` for as many pages as the bytes take at `va`.
region_alloc_whole :
    {k : Kernel} (e va len n : ℕ) {pgdir : ℕ} (ps : List ℕ)
    → n ≡ page_count len
    → (k.envs e).env_pgdir ≡ some pgdir
    → round_down va + 4096 * n ≤ u_top
    → Space k pgdir ps
    → Unmapped k pgdir (round_down va) n
    → 2 * n ≤ length ps
    → Returns (Loads k pgdir (round_down va) n ps) (region_alloc e va len k)
region_alloc_whole {k} e va len n {pgdir} ps whole own below space new more =
    subst (λ i. Returns (Loads k pgdir (round_down va) i ps) (region_alloc e va len k)) (sym whole)
      (region_alloc-Region e va len ps own
        (subst (λ i. round_down va + 4096 * i ≤ u_top) whole below) space
        (subst (Unmapped k pgdir (round_down va)) whole new)
        (subst (λ i. 2 * i ≤ length ps) whole more))

module _ (e : ℕ) (m : Memory) (byte : (a : ℕ) → m a < 256) (binary : ℕ) where
  loadable :
      (ph : ℕ) {k : Kernel} {pgdir : ℕ} {ps : List ℕ} (img : Image)
      → Holds k pgdir ps img
      → (k.envs e).env_pgdir ≡ some pgdir
      → k.cr3 ≡ pgdir
      → Fits m binary ph img
      → 2 * pages_of (p_va m ph) (p_memsz m ph) ≤ length ps
      → Returns
          (Loaded k pgdir (pages_of (p_va m ph) (p_memsz m ph)) ps (
            with_bytes
              (p_filesz m ph)
              (p_va m ph)
              (add32 binary (p_offset m ph))
              m
              (with_pages (p_va m ph / 4096) (pages_of (p_va m ph) (p_memsz m ph)) img)))
          ((region_alloc e (p_va m ph) (p_memsz m ph)
              >> copy_up (p_filesz m ph) (p_va m ph) (add32 binary (p_offset m ph)) m)
            k)
  loadable ph {k} {pgdir} {ps} img h own cr3 fits more =
      let va = p_va m ph in
      let n = pages_of (p_va m ph) (p_memsz m ph) in
      let size = p_filesz m ph in
      let src = add32 binary (p_offset m ph) in
      let img₁ : Image = with_pages (va / 4096) n img in
      Returns-bind (Loads k pgdir (round_down va) n ps)
        (Loaded k pgdir n ps (with_bytes size va src m img₁)) (region_alloc e va (p_memsz m ph) k)
        (λ _. copy_up size va src m)
        (region_alloc_whole e va (p_memsz m ph) n ps fits.whole own fits.below h.space
          (segment-Unmapped va n h fits.below fits.new) more)
        λ _ k₁ (qs, r).
          Returns-mono (Copied k₁ pgdir qs (with_bytes size va src m img₁))
            (Loaded k pgdir n ps (with_bytes size va src m img₁)) (copy_up size va src m k₁)
            (copy_up-Copied size va src m img₁ byte
              (Holds-pages h r (va / 4096) (omega arith) fits.below)
              (ap (λ (s : Kernel). s.cr3) r.kept ∙ cr3) (omega (arith, fits.covered, fits.below))
              fits.source (λ j lt. segment_has img va n size j fits.covered lt))
            λ _ k₂ (h₂, kept₂). (qs, h₂, r.fewer, Kept-then k r.kept (Kept-frames k₁ kept₂))

  pub load_segment-Loaded :
      (ph : ℕ) {k : Kernel} {pgdir : ℕ} {ps : List ℕ} (img : Image)
      → Holds k pgdir ps img
      → (k.envs e).env_pgdir ≡ some pgdir
      → k.cr3 ≡ pgdir
      → (p_type m ph ≡ 1 → Fits m binary ph img)
      → 2 * segment_pages m ph ≤ length ps
      → Returns
          (Loaded k pgdir (segment_pages m ph) ps (segment_image m binary ph img))
          (load_segment e m binary ph k)
  unfolding load_segment
  load_segment-Loaded ph {k} {pgdir} {ps} img h own cr3 fits more =
      elim (Bool-cases (p_type m ph == 1)) [
        | inl t ↦ rw t (
            loadable ph img h own cr3 (fits (ground (arith, t))) (
              subst
                (λ (b : Bool).
                  2 * (if b then pages_of (p_va m ph) (p_memsz m ph) else 0) ≤ length ps)
                t more))
        | inr f ↦ rw f (ps, h, omega arith, refl)
      ]
