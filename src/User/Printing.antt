-- ===== src/User/Printing.antt =====
-- `putch` and `vcprintf` of lab4/lib/printf.c, which collect what is printed for `sys_cputs`.
pub mod Chunks
use csdi_jos.Common.{
  ℕ, zero, suc, ◌+◌, ◌-◌, ◌%◌, ◌^◌, ◌==◌, Option, none, some, List, [], ◌∷◌, ◌++◌, if◌then◌else◌,
  update,
}
use csdi_jos.Library.Strings.{Bytes}
use csdi_jos.Library.Formats.{printed, stray, no_fuel, vprintfmt}

-- `struct printbuf`, and what `sys_cputs` has been given, latest last.
pub record Printbuf : Type 0 where
  pub idx : ℕ
  pub cnt : ℕ
  pub buf : ℕ → ℕ
  pub calls : List (List ℕ)

-- The first bytes of the buffer.
unfoldable pub first_of : (ℕ → ℕ) → (n : ℕ) → List ℕ
first_of buf zero = []
first_of buf (suc n) = first_of buf n ++ (buf n ∷ [])

-- `sys_cputs(b->buf, b->idx)`
abbrev pub flush : Printbuf → Printbuf
flush b = record b { calls = b.calls ++ (first_of b.buf b.idx ∷ []) }

unfoldable pub putch : (ch : ℕ) → Printbuf → Printbuf
unfolding first_of
putch ch b =
    let stored = record b { buf = update b.buf b.idx (ch % 256); idx = b.idx + 1 } in
    let flushed = record (flush stored) { idx = 0 } in
    let sent = if b.idx + 1 == 256 - 1 then flushed else stored in
    record sent { cnt = (b.cnt + 1) % 2 ^ 32 }

unfoldable pub putch_all : List ℕ → Printbuf → Printbuf
unfolding putch
putch_all [] b = b
putch_all (c ∷ cs) b = putch_all cs (putch c b)

abbrev pub empty_printbuf : (ℕ → ℕ) → Printbuf
empty_printbuf buf = record { idx = 0; cnt = 0; buf = buf; calls = [] }

-- The count, and the calls; `%n` finds the lowest byte of `idx` at `putdat`.
unfoldable pub vcprintf :
    (mem : ℕ → Bytes) (buf : ℕ → ℕ) (fmt : Bytes) (args : List ℕ) → Option (ℕ × List (List ℕ))
unfolding vprintfmt putch_all
vcprintf mem buf fmt args = elim (vprintfmt mem (λ n. n % 255) fmt args) [
  | printed st ↦ let b = putch_all st.out (empty_printbuf buf) in some (b.cnt, (flush b).calls)
  | stray ↦ none
  | no_fuel ↦ none
]
