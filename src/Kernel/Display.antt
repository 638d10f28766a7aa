-- ===== src/Kernel/Display.antt =====
-- The display of kern/console.c: `cga_putc`, on the words of the display's memory. A cell is 16 bits.
pub mod Cells
use csdi_jos.Common.{
  ℕ, zero, suc, ◌+◌, ◌-◌, ◌*◌, ◌/◌, ◌%◌, ◌==◌, leb, ltb, if◌then◌else◌, update, bit_or,
}

abbrev pub crt_cols : ℕ
crt_cols = 80

abbrev pub crt_size : ℕ
crt_size = 25 * 80

-- `crt_buf` and `crt_pos`.
pub record Crt : Type 0 where
  pub crt_buf : ℕ → ℕ
  pub crt_pos : ℕ

-- `if (!(c & ~0xFF)) c |= 0x0700`, on a word.
abbrev pub with_attribute : ℕ → ℕ
with_attribute c = if c / 256 == 0 then bit_or c 0x700 else c

-- A character that is not a tab.
unfoldable pub put_cell : (c : ℕ) → Crt → Crt
put_cell c s =
    let low = c % 256 in
    if low == 8
    then (if ltb 0 s.crt_pos
        then record {
          crt_buf = update s.crt_buf (s.crt_pos - 1) (bit_or (c / 256 * 256) 32 % 65536);
          crt_pos = s.crt_pos - 1;
        }
        else s)
    else if low == 10
    then record s { crt_pos = s.crt_pos + crt_cols - (s.crt_pos + crt_cols) % crt_cols }
    else if low == 13
    then record s { crt_pos = s.crt_pos - s.crt_pos % crt_cols }
    else record { crt_buf = update s.crt_buf s.crt_pos (c % 65536); crt_pos = s.crt_pos + 1 }

-- `memmove` by a row, and a blank last row.
abbrev pub scrolled : (ℕ → ℕ) → ℕ → ℕ
scrolled buf i =
    if ltb i (crt_size - crt_cols)
    then buf (i + crt_cols)
    else if ltb i crt_size
    then 0x720
    else buf i

unfoldable pub scroll : Crt → Crt
scroll s =
    if leb crt_size s.crt_pos
    then record { crt_buf = scrolled s.crt_buf; crt_pos = s.crt_pos - crt_cols }
    else s

-- `cga_putc(' ')`, as often as `n`.
unfoldable pub put_spaces : (n : ℕ) → Crt → Crt
unfolding put_cell scroll
put_spaces zero s = s
put_spaces (suc n) s = put_spaces n (scroll (put_cell (with_attribute 32) s))

unfoldable pub cga_putc : (c : ℕ) → Crt → Crt
unfolding put_cell scroll put_spaces
cga_putc c s =
    if with_attribute c % 256 == 9
    then scroll (put_spaces 5 s)
    else scroll (put_cell (with_attribute c) s)
