-- ===== src/Library/Buffers.antt =====
-- `sprintputch`, `vsnprintf` and `snprintf` of lab4/lib/printfmt.c. A buffer is the bytes of its
-- object, a pointer into it an offset, and a write beyond it is `none`.
pub mod Bounds
use csdi_jos.Common.{
  ℕ, zero, suc, ◌+◌, ◌-◌, ◌%◌, ◌^◌, ◌||◌, ◌==◌, ltb, Option, none, some, List, [], ◌∷◌,
  if◌then◌else◌,
}
use mathlib.Core.Option
use csdi_jos.Kernel.State.Layout.{e_inval, is_neg}
use csdi_jos.Library.Strings.{Bytes}
use csdi_jos.Library.Formats.{printed, stray, no_fuel, vprintfmt}

-- `struct sprintbuf`, where `memory` is the object of the buffer.
pub record Sprintbuf : Type 0 where
  pub memory : Bytes
  pub buf : ℕ
  pub ebuf : ℕ
  pub cnt : ℕ

-- A write through a `char` pointer keeps the lowest byte of the value.
abbrev pub write_byte : Bytes → (i v : ℕ) → Option Bytes
write_byte [] i v = none
write_byte (b ∷ s) zero v = some ((v % 256) ∷ s)
write_byte (b ∷ s) (suc i) v = Option.map (λ t. b ∷ t) (write_byte s i v)

unfoldable pub sprintputch : (ch : ℕ) → Sprintbuf → Option Sprintbuf
sprintputch ch b =
    let counted = record b { cnt = (b.cnt + 1) % 2 ^ 32 } in
    if ltb b.buf b.ebuf
    then Option.map (λ m. record counted { memory = m; buf = b.buf + 1 })
        (write_byte b.memory b.buf ch)
    else some counted

unfoldable pub sprint_all : List ℕ → Sprintbuf → Option Sprintbuf
unfolding sprintputch
sprint_all [] b = some b
sprint_all (c ∷ cs) b = elim (sprintputch c b) [ none ↦ none | some b' ↦ sprint_all cs b' ]

-- The lowest byte of the pointer `buf`, which `%n` finds at `putdat`, after `k` characters.
abbrev pub pointer_byte : (address n k : ℕ) → ℕ
pointer_byte address n k = (address + (if ltb k (n - 1) then k else n - 1)) % 256

-- `*b.buf = '\\0'`, and what is returned.
unfoldable pub terminate : Sprintbuf → Option (ℕ × Bytes)
terminate b = Option.map (λ m. (b.cnt, m)) (write_byte b.memory b.buf 0)

-- The result and the buffer.
unfoldable pub vsnprintf :
    (mem : ℕ → Bytes)
    → (address : ℕ) → (buf : Option Bytes) → (n : ℕ) → (fmt : Bytes) → List ℕ
    → Option (ℕ × Bytes)
unfolding vprintfmt sprint_all terminate
vsnprintf mem address none n fmt args = some (e_inval, [])
vsnprintf mem address (some m) n fmt args =
    if n == 0 || is_neg n
    then some (e_inval, m)
    else elim (vprintfmt mem (pointer_byte address n) fmt args) [
      | printed st ↦
          elim (sprint_all st.out (record { memory = m; buf = 0; ebuf = n - 1; cnt = 0 })) [
            | none ↦ none
            | some b ↦ terminate b
          ]
      | stray ↦ none
      | no_fuel ↦ none
    ]
