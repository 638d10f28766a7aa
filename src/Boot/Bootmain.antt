-- ===== src/Boot/Bootmain.antt =====
-- `bootmain` loads every segment of the kernel and calls its entry point.
use csdi_jos.Common.{
  ℕ, zero, suc, ◌+◌, ◌-◌, ◌*◌, ◌%◌, ◌^◌, ◌≤◌, ◌<◌, ◌≡◌, ◌⊎◌, refl, sym, ap, ◌∙◌, subst, true, false,
  ◌==◌, ltb, some, dec_lt, arith,
}
use csdi_jos.Kernel.State.Layout.{add32}
use csdi_jos.Library.Memory.{Memory}
use csdi_jos.Boot.{sect_size, elf_hdr, Drive, readseg, entered, load_loop, load_segments, bootmain}
use csdi_jos.Boot.Elf.{
  elf_magic, word_at, half_at, e_magic, e_phoff, e_phnum, e_entry, proghdr_size, p_pa, p_memsz,
  p_offset,
}
use csdi_jos.Boot.Readseg.{Serves, Loaded, readseg-Loaded}

-- The kernel image, from the disk's second sector on.
abbrev pub image_of : (ℕ → ℕ) → ℕ → ℕ
image_of disk x = disk (sect_size + x)

-- Where the image has its program header `k`.
abbrev pub header : (image : ℕ → ℕ) → ℕ → ℕ
header image k = e_phoff image 0 + k * proghdr_size

-- The address is not in the sectors that segment `k` is read to.
abbrev pub Outside : (image : ℕ → ℕ) (k a : ℕ) → Type 0
Outside image k a =
    (a < p_pa image (header image k) - p_pa image (header image k) % sect_size)
    ⊎ (p_pa image (header image k) + p_memsz image (header image k) + 511 ≤ a)

-- Segment `k` can be read, and not over the headers.
pub record Readable (image : ℕ → ℕ) (k : ℕ) : Type 0 where
  pub inside : p_pa image (header image k) + p_memsz image (header image k) ≤ 2 ^ 32 - 512
  pub on_disk : p_offset image (header image k) + p_memsz image (header image k) < 2 ^ 36
  pub same : p_pa image (header image k) % sect_size ≡ p_offset image (header image k) % sect_size
  pub clear : (x : ℕ) → x < 4096 → Outside image k (elf_hdr + x)

-- Memory has segment `k` of the image.
abbrev pub InMemory : (image : ℕ → ℕ) (m : Memory) (k : ℕ) → Type 0
InMemory image m k =
    (x : ℕ)
    → x < p_memsz image (header image k)
    → m (p_pa image (header image k) + x) ≡ image (p_offset image (header image k) + x)

-- Every segment that comes later leaves a segment alone.
abbrev pub InOrder : (image : ℕ → ℕ) → Type 0
InOrder image =
    (j k x : ℕ)
    → j < k
    → k < e_phnum image 0
    → x < p_memsz image (header image j)
    → Outside image k (p_pa image (header image j) + x)

-- The image's first 4096 bytes are at `ELFHDR`.
Scratch : (image : ℕ → ℕ) (m : Memory) → Type 0
Scratch image m = (x : ℕ) → x < 4096 → m (elf_hdr + x) ≡ image x

half_at-Scratch :
    (image : ℕ → ℕ) (m : Memory) (a x : ℕ)
    → Scratch image m
    → x + 2 ≤ 4096
    → a ≡ elf_hdr + x
    → half_at m a ≡ half_at image x
unfolding Scratch half_at
half_at-Scratch image m a x s lt at =
    let byte : (j : ℕ) → j < 2 → m (a + j) ≡ image (x + j) = λ j lt'.
      subst (λ b. m b ≡ image (x + j)) (omega (arith, at)) (s (x + j) (omega (arith, lt, lt'))) in
    let b₀ : m a ≡ image x = subst (λ b. m b ≡ image x) (sym at) (s x (omega (arith, lt))) in
    ground (arith, b₀, byte 1 (omega arith))

word_at-Scratch :
    (image : ℕ → ℕ) (m : Memory) (a x : ℕ)
    → Scratch image m
    → x + 4 ≤ 4096
    → a ≡ elf_hdr + x
    → word_at m a ≡ word_at image x
unfolding Scratch word_at
word_at-Scratch image m a x s lt at =
    let byte : (j : ℕ) → j < 4 → m (a + j) ≡ image (x + j) = λ j lt'.
      subst (λ b. m b ≡ image (x + j)) (omega (arith, at)) (s (x + j) (omega (arith, lt, lt'))) in
    let b₀ : m a ≡ image x = subst (λ b. m b ≡ image x) (sym at) (s x (omega (arith, lt))) in
    ground (arith, b₀, byte 1 (omega arith), byte 2 (omega arith), byte 3 (omega arith))

bootmain_loaded :
    (drive : Drive) (m m₀ : Memory)
    → readseg drive elf_hdr (sect_size * 8) 0 m ≡ some m₀
    → bootmain drive m ≡ load_segments drive m₀
unfolding bootmain
bootmain_loaded drive m m₀ done = rw (done, bootmain) refl

module _ (drive : Drive) (disk : ℕ → ℕ) (serves : Serves drive disk) where
  abbrev image : ℕ → ℕ
  image = image_of disk

  module _ (headers : header image (e_phnum image 0) ≤ 4096)
      (readable : (k : ℕ) → k < e_phnum image 0 → Readable image k) (ordered : InOrder image) where
    -- One segment is read, with the fields that memory has.
    read_segment :
        (k : ℕ) (m : Memory)
        → k < e_phnum image 0
        → Scratch image m
        → (m' : Memory) × (readseg drive
              (p_pa m (elf_hdr + header image k))
              (p_memsz m (elf_hdr + header image k))
              (p_offset m (elf_hdr + header image k))
              m
            ≡ some m')
          × Loaded disk m m'
              (p_pa image (header image k))
              (p_memsz image (header image k))
              (p_offset image (header image k))
    read_segment k m lt s =
        let r = readable k lt in
        let (m', done, loaded) =
          readseg-Loaded drive disk serves (p_pa image (header image k))
            (p_memsz image (header image k)) (p_offset image (header image k)) m r.inside r.on_disk
            r.same in
        let field : (o : ℕ)
            → o ≤ 28
            → word_at m (elf_hdr + header image k + o) ≡ word_at image (header image k + o) =
          λ o le.
            word_at-Scratch image m (elf_hdr + header image k + o) (header image k + o) s
              (omega (arith, le, lt, headers)) (omega arith) in
        (
          m',
          cc (field 12 (omega arith), field 20 (omega arith), field 4 (omega arith), done),
          loaded,
        )

    Scratch-kept :
        (k : ℕ) (m m' : Memory)
        → k < e_phnum image 0
        → Scratch image m
        → Loaded disk m m'
            (p_pa image (header image k))
            (p_memsz image (header image k))
            (p_offset image (header image k))
        → Scratch image m'
    unfolding Scratch
    Scratch-kept k m m' lt s loaded x small =
        loaded.kept (elf_hdr + x) ((readable k lt).clear x small) ∙ s x small

    load_round :
        (fuel k : ℕ) (m m₁ : Memory)
        → k < e_phnum image 0
        → readseg drive
            (p_pa m (elf_hdr + header image k))
            (p_memsz m (elf_hdr + header image k))
            (p_offset m (elf_hdr + header image k))
            m
          ≡ some m₁
        → load_loop drive
            (suc fuel)
            (elf_hdr + header image k)
            (elf_hdr + header image (e_phnum image 0))
            m
          ≡ load_loop drive fuel
              (elf_hdr + header image (suc k))
              (elf_hdr + header image (e_phnum image 0))
              m₁
    unfolding load_loop
    load_round fuel k m m₁ lt done =
        let go : ltb (elf_hdr + header image k) (elf_hdr + header image (e_phnum image 0)) ≡ true =
          ground (arith, lt) in
        let next : add32 (elf_hdr + header image k) proghdr_size ≡ elf_hdr + header image (suc k) =
          omega (arith, lt, headers) in
        rw (go, done, next) refl

    -- The loop, from segment `k` on, with `n` to come.
    load_loop-entered :
        (n fuel k : ℕ) (m : Memory)
        → n < fuel
        → k + n ≡ e_phnum image 0
        → Scratch image m
        → (m' : Memory) × (load_loop drive fuel
              (elf_hdr + header image k)
              (elf_hdr + header image (e_phnum image 0))
              m
            ≡ entered (e_entry image 0) m')
          × ((j : ℕ) → k ≤ j → j < e_phnum image 0 → InMemory image m' j)
          × ((a : ℕ) → ((j : ℕ) → k ≤ j → j < e_phnum image 0 → Outside image j a) → m' a ≡ m a)
    unfolding load_loop
    load_loop-entered n zero k m more end s = absurd (omega (arith, more))
    load_loop-entered zero (suc fuel) k m more end s =
        let stop : ltb (elf_hdr + header image k) (elf_hdr + header image (e_phnum image 0))
            ≡ false =
          ground (arith, end) in
        let entry : e_entry m elf_hdr ≡ e_entry image 0 =
          word_at-Scratch image m (elf_hdr + 24) 24 s (omega arith) refl in
        (m, rw (stop, entry) refl, λ j le lt. absurd (omega (arith, le, lt, end)), λ a out. refl)
    load_loop-entered (suc n) (suc fuel) k m more end s =
        let lt : k < e_phnum image 0 = omega (arith, end) in
        let (m₁, done, loaded) = read_segment k m lt s in
        let (m', entered_it, in_memory, kept) =
          load_loop-entered n fuel (suc k) m₁ (omega (arith, more)) (omega (arith, end))
            (Scratch-kept k m m₁ lt s loaded) in
        (
          m',
          load_round fuel k m m₁ lt done ∙ entered_it,
          λ j le lt' x small. elim (dec_lt k j) [
            | yes later ↦ in_memory j (omega (arith, later)) lt' x small
            | no here ↦
                let e : k ≡ j = omega (arith, le, here) in
                subst
                  (λ j.
                    x < p_memsz image (header image j)
                    → m' (p_pa image (header image j) + x)
                      ≡ image (p_offset image (header image j) + x))
                  e
                  (λ small'.
                    kept (p_pa image (header image k) + x)
                      (λ i le' lt''. ordered k i x (omega (arith, le')) lt'' small')
                    ∙ loaded.loaded x small')
                  small
          ],
          λ a out.
              kept a (λ j le lt'. out j (omega (arith, le)) lt')
              ∙ loaded.kept a (out k (omega arith) lt),
        )

    load_segments-load_loop :
        (m : Memory)
        → Scratch image m
        → e_magic image 0 ≡ elf_magic
        → load_segments drive m
          ≡ load_loop drive
              (suc (2 ^ 16))
              (elf_hdr + header image 0)
              (elf_hdr + header image (e_phnum image 0))
              m
    unfolding load_segments
    load_segments-load_loop m s magic =
        let is_elf : (e_magic m elf_hdr == elf_magic) ≡ true =
          ground (arith, word_at-Scratch image m elf_hdr 0 s (omega arith) refl, magic) in
        let phoff : e_phoff m elf_hdr ≡ e_phoff image 0 =
          word_at-Scratch image m (elf_hdr + 28) 28 s (omega arith) refl in
        let phnum : e_phnum m elf_hdr ≡ e_phnum image 0 =
          half_at-Scratch image m (elf_hdr + 44) 44 s (omega arith) refl in
        let ph : add32 elf_hdr (e_phoff m elf_hdr) ≡ elf_hdr + header image 0 =
          omega (arith, phoff, headers) in
        let eph : add32 (elf_hdr + header image 0) (e_phnum m elf_hdr * proghdr_size)
            ≡ elf_hdr + header image (e_phnum image 0) =
          omega (arith, phnum, headers) in
        rw (is_elf, ph, eph) refl

    -- Let the drive have the sectors of the disk, the image on it have the ELF magic number and all
    -- program headers in its first 4096 bytes, and let each segment end 512 bytes below 4 GB and
    -- below 64 GB on the disk, have an offset with the same remainder by 512 as its address, not be
    -- read over the headers, and come in an order in which no later segment is read over an earlier
    -- one. Then from any memory `bootmain` ends by a call of the image's entry point, and memory
    -- has every segment of the image.
    pub bootmain-entered :
        e_magic image 0 ≡ elf_magic
        → (m : Memory)
        → (m' : Memory) × (bootmain drive m ≡ entered (e_entry image 0) m')
          × ((k : ℕ) → k < e_phnum image 0 → InMemory image m' k)
    unfolding Scratch
    bootmain-entered magic m =
        let (m₀, done, loaded) =
          readseg-Loaded drive disk serves elf_hdr (sect_size * 8) 0 m (omega arith) (omega arith)
            refl in
        let s : Scratch image m₀ =
          λ x small. loaded.loaded x small ∙ ap (λ y. disk (sect_size + y)) (omega arith) in
        let (m', entered_it, in_memory, kept) =
          load_loop-entered (e_phnum image 0) (suc (2 ^ 16)) 0 m₀ (omega (arith, headers))
            (omega arith) s in
        (
          m',
          bootmain_loaded drive m m₀ done ∙ load_segments-load_loop m₀ s magic ∙ entered_it,
          λ k lt. in_memory k (omega arith) lt,
        )
