-- ===== src/Kernel/Load/Loop.antt =====
-- The loop of `load_icode` of kern/env.c over the program headers.
use csdi_jos.Common.{
  ℕ, zero, suc, ◌+◌, ◌*◌, ◌^◌, ◌≤◌, ◌<◌, ◌≡◌, refl, sym, ap, subst, ◌∙◌, Bool, ltb_of_lt, List,
  length, some, if◌then◌else◌, arith,
}
use csdi_jos.Library.Memory.{Memory}
use csdi_jos.Boot.Elf.{proghdr_size, p_type}
use csdi_jos.Kernel.State.{Kernel, ret, ◌>>◌}
use csdi_jos.Kernel.State.Returns.{Returns, Returns-bind, Returns-mono}
use csdi_jos.Kernel.State.Layout.{add32}
use csdi_jos.Kernel.Load.{load_segment, load_headers}
use csdi_jos.Kernel.Load.Image.{Image, Holds}
use csdi_jos.Kernel.Load.Segments.{
  segment_image, segment_pages, Fits, Loaded, Kept-then, load_segment-Loaded,
}

-- The program headers one after another.
abbrev pub load_image : Memory → (binary n ph : ℕ) → Image → Image
load_image m binary zero ph img = img
load_image m binary (suc n) ph img = load_image m binary n (ph + 32) (segment_image m binary ph img)

abbrev pub load_pages : Memory → (n ph : ℕ) → ℕ
load_pages m zero ph = 0
load_pages m (suc n) ph = segment_pages m ph + load_pages m n (ph + 32)

abbrev pub FitsAll : Memory → (binary n ph : ℕ) → Image → Type 0
FitsAll m binary zero ph img = Unit
FitsAll m binary (suc n) ph img =
    (p_type m ph ≡ 1 → Fits m binary ph img)
    × FitsAll m binary n (ph + 32) (segment_image m binary ph img)

module _ (e : ℕ) (m : Memory) (byte : (a : ℕ) → m a < 256) (binary : ℕ) where
  load_headers-done :
      (fuel ph : ℕ) (k : Kernel) → load_headers (suc fuel) e m binary ph ph k ≡ ret tt k
  unfolding load_headers
  load_headers-done fuel ph k = ground arith

  load_headers-round :
      (fuel ph eph : ℕ) (k : Kernel)
      → ph < eph
      → load_headers (suc fuel) e m binary ph eph k
        ≡ (load_segment e m binary ph >> load_headers fuel e m binary (add32 ph proghdr_size) eph) k
  unfolding load_headers
  load_headers-round fuel ph eph k lt =
      ap
        (λ (b : Bool).
          if b
          then (load_segment e m binary ph
                >> load_headers fuel e m binary (add32 ph proghdr_size) eph)
              k
          else ret tt k)
        (ltb_of_lt ph eph lt)

  pub load_headers-Loaded :
      (fuel n ph : ℕ) {k : Kernel} {pgdir : ℕ} {ps : List ℕ} (img : Image)
      → n < fuel
      → ph + 32 * n < 2 ^ 32
      → Holds k pgdir ps img
      → (k.envs e).env_pgdir ≡ some pgdir
      → k.cr3 ≡ pgdir
      → FitsAll m binary n ph img
      → 2 * load_pages m n ph ≤ length ps
      → Returns
          (Loaded k pgdir (load_pages m n ph) ps (load_image m binary n ph img))
          (load_headers fuel e m binary ph (ph + 32 * n) k)
  load_headers-Loaded zero n ph img lt _ _ _ _ _ _ = absurd (omega (arith, lt))
  load_headers-Loaded (suc fuel) zero ph {k} {pgdir} {ps} img _ _ h own cr3 _ more =
      subst (Returns (Loaded k pgdir 0 ps img))
        (sym (load_headers-done fuel ph k)
          ∙ ap (λ eph. load_headers (suc fuel) e m binary ph eph k) (omega arith))
        (ps, h, omega arith, refl)
  load_headers-Loaded (suc fuel) (suc n) ph {k} {pgdir} {ps} img lt top h own cr3 (fits, rest)
        more =
      let Q = Loaded k pgdir (load_pages m (suc n) ph) ps (load_image m binary (suc n) ph img) in
      let img₁ = segment_image m binary ph img in
      let enter : ph + 32 ≡ add32 ph proghdr_size = ground (arith, top) in
      let end : ph + 32 + 32 * n ≡ ph + 32 * suc n = omega arith in
      subst (Returns Q) (sym (load_headers-round fuel ph (ph + 32 * suc n) k (omega arith))) (
        Returns-bind (Loaded k pgdir (segment_pages m ph) ps img₁) Q (load_segment e m binary ph k)
          (λ _. load_headers fuel e m binary (add32 ph proghdr_size) (ph + 32 * suc n))
          (load_segment-Loaded e m byte binary ph img h own cr3 fits (omega (arith, more)))
          λ _ k₁ (qs, h₁, fewer₁, kept₁).
            subst (λ a. Returns Q (load_headers fuel e m binary a (ph + 32 * suc n) k₁)) enter
              (subst (λ b. Returns Q (load_headers fuel e m binary (ph + 32) b k₁)) end
                (Returns-mono
                  (Loaded k₁ pgdir (load_pages m n (ph + 32)) qs
                    (load_image m binary n (ph + 32) img₁))
                  Q (load_headers fuel e m binary (ph + 32) (ph + 32 + 32 * n) k₁)
                  (load_headers-Loaded fuel n (ph + 32) img₁ (omega (arith, lt))
                    (omega (arith, top)) h₁ (ap (λ (s : Kernel). (s.envs e).env_pgdir) kept₁ ∙ own)
                    (ap (λ (s : Kernel). s.cr3) kept₁ ∙ cr3) rest (omega (arith, more, fewer₁)))
                  λ _ k₂ (rs, h₂, fewer₂, kept₂).
                    (rs, h₂, omega (arith, fewer₁, fewer₂), Kept-then k kept₁ kept₂))))
