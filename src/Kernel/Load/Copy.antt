-- ===== src/Kernel/Load/Copy.antt =====
-- The copy of a segment's bytes to the user's memory, for `load_icode` of kern/env.c.
use csdi_jos.Common.{
  ℕ, zero, suc, ◌+◌, ◌-◌, ◌/◌, ◌^◌, ◌≤◌, ◌<◌, ◌≡◌, refl, ap, subst, ◌∙◌, true, ◌==◌, List,
  if◌then◌else◌, ℕ_discrete, arith,
}
use csdi_jos.Library.Memory.{Memory}
use csdi_jos.Kernel.State.{Kernel}
use csdi_jos.Kernel.State.Returns.{Returns, Returns-bind, Returns-mono}
use csdi_jos.Kernel.State.Layout.{u_top, add32}
use csdi_jos.Kernel.Trap.{store_byte}
use csdi_jos.Kernel.Load.{copy_up}
use csdi_jos.Kernel.Load.Image.{Image, Holds, Holds-bytes, with_bytes}
use csdi_jos.Kernel.Load.Store.{store_byte-Holds}

module _ (m : Memory) (img : Image) where
  with_bytes-none : (dst src x : ℕ) → img.bytes x ≡ (with_bytes 0 dst src m img).bytes x
  with_bytes-none dst src x = ground arith

  with_bytes-next :
      (n dst src x : ℕ)
      → (with_bytes n
            (dst + 1)
            (src + 1)
            m
            (record img { bytes = λ y. if dst == y then m src else img.bytes y })).bytes
          x
        ≡ (with_bytes (suc n) dst src m img).bytes x
  with_bytes-next n dst src x = elim (ℕ_discrete dst x) [
    | yes e ↦ ground (arith, e, ap (λ y. m (src + (y - dst))) e, zero_offset dst src)
    | no ne ↦ ground (arith, ne, later dst src x)
  ]
    where
      zero_offset : (dst src : ℕ) → m (src + (dst - dst)) ≡ m src
      zero_offset dst src = ap m (omega arith)

      later : (dst src x : ℕ) → dst < x → m (src + 1 + (x - (dst + 1))) ≡ m (src + (x - dst))
      later dst src x lt = ap m (omega (arith, lt))

abbrev pub Copied : (k : Kernel) (pgdir : ℕ) (ps : List ℕ) → Image → Unit {0} → Kernel → Type 0
Copied k pgdir ps img _ k' = Holds k' pgdir ps img × (k' ≡ record k { frames = k'.frames })

pub copy_up-Copied :
    (n dst src : ℕ) (m : Memory) {k : Kernel} {pgdir : ℕ} {ps : List ℕ} (img : Image)
    → ((a : ℕ) → m a < 256)
    → Holds k pgdir ps img
    → k.cr3 ≡ pgdir
    → dst + n ≤ u_top
    → src + n < 2 ^ 32
    → ((j : ℕ) → j < n → img.has ((dst + j) / 4096) ≡ true)
    → Returns (Copied k pgdir ps (with_bytes n dst src m img)) (copy_up n dst src m k)
unfolding copy_up
copy_up-Copied zero dst src m img byte h cr3 top word has =
    (Holds-bytes img _ h (with_bytes-none m img dst src), refl)
copy_up-Copied (suc n) dst src m {k} {pgdir} {ps} img byte h cr3 top word has =
    let here : img.has (dst / 4096) ≡ true =
      subst (λ a. img.has (a / 4096) ≡ true) (omega arith) (has 0 (omega arith)) in
    let img' : Image = record img { bytes = λ y. if dst == y then m src else img.bytes y } in
    Returns-bind (Copied k pgdir ps img') (Copied k pgdir ps (with_bytes (suc n) dst src m img))
      (store_byte dst (m src) k) (λ _. copy_up n (add32 dst 1) (add32 src 1) m)
      (store_byte-Holds h dst (omega (arith, top)) here (m src) (byte src) cr3)
      λ _ k₁ (h₁, kept₁).
        let e1 : dst + 1 ≡ add32 dst 1 = ground (arith, top) in
        let e2 : src + 1 ≡ add32 src 1 = ground (arith, word) in
        subst
          (λ d.
            Returns (Copied k pgdir ps (with_bytes (suc n) dst src m img))
              (copy_up n d (add32 src 1) m k₁))
          e1
          (subst
            (λ s.
              Returns (Copied k pgdir ps (with_bytes (suc n) dst src m img))
                (copy_up n (dst + 1) s m k₁))
            e2
            (Returns-mono (Copied k₁ pgdir ps (with_bytes n (dst + 1) (src + 1) m img'))
              (Copied k pgdir ps (with_bytes (suc n) dst src m img))
              (copy_up n (dst + 1) (src + 1) m k₁)
              (copy_up-Copied n (dst + 1) (src + 1) m img' byte h₁
                (ap (λ (s : Kernel). s.cr3) kept₁ ∙ cr3) (omega (arith, top)) (omega (arith, word))
                (λ j lt.
                  subst (λ a. img.has (a / 4096) ≡ true) (omega arith)
                    (has (suc j) (omega (arith, lt)))))
              λ _ k₂ (h₂, kept₂). (
                Holds-bytes _ _ h₂ (with_bytes-next m img n dst src),
                kept₂ ∙ ap (λ (s : Kernel). record s { frames = k₂.frames }) kept₁,
              )))
