-- ===== src/Library/Printing.antt =====
-- The number printer of lab4/lib/printfmt.c. What it gives to `putch` is a list.
pub mod Numerals
use csdi_jos.Common.{ℕ, zero, suc, ◌+◌, ◌-◌, ◌/◌, ◌%◌, leb, ltb, List, [], ◌∷◌, ◌++◌, if◌then◌else◌}

-- `"0123456789abcdef"[d]`
abbrev pub digit_char : ℕ → ℕ
digit_char d = if ltb d 10 then d + 48 else d + 87

-- `while (--width > 0) putch(padc)`
abbrev pub pads : (n padc : ℕ) → List ℕ
pads zero padc = []
pads (suc n) padc = padc ∷ pads n padc

-- A width below 0 pads no more than 0 does, and stands as 0.
unfoldable pub printnum_fuel : (fuel num base width padc : ℕ) → List ℕ
printnum_fuel zero num base width padc = []
printnum_fuel (suc fuel) num base width padc =
    let higher = printnum_fuel fuel (num / base) base (width - 1) padc in
    (if leb base num then higher else pads (width - 1) padc) ++ (digit_char (num % base) ∷ [])

-- A number has no more digits than itself and one.
unfoldable pub printnum : (num base width padc : ℕ) → List ℕ
unfolding printnum_fuel
printnum num base width padc = printnum_fuel (suc num) num base width padc
