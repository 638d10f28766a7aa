-- ===== src/Library/Printing/Numerals.antt =====
-- The digits that `printnum` prints, and `strtol` on them.
use csdi_jos.Common.{
  ℕ, zero, suc, ◌+◌, ◌-◌, ◌*◌, ◌/◌, ◌%◌, ◌^◌, ◌≤◌, ◌<◌, ◌≡◌, refl, sym, ap, ◌∙◌, true, leb, some,
  List, [], ◌∷◌, ◌++◌, map, append_assoc, length, length-append, All, arith, inl, inr, Bool-cases,
}
use csdi_jos.Library.Strings.{Bytes}
use csdi_jos.Library.Numbers.{strtol}
use csdi_jos.Library.Numbers.Values.{char_of, number, stops, blank, unsigned, given, strtol_lem}
use csdi_jos.Library.Printing.{printnum, printnum_fuel, pads, digit_char}
use native.Mathlib.Nat.{div-lt_self, mod-lt, mod-eq_of_lt, mod-add-div'}

-- Padding up to the width, and then the digits of the number.
pub record Numeral (num base width padc : ℕ) (out : List ℕ) : Type 0 where
  pub first : ℕ
  pub later : List ℕ
  pub digits : All (λ d. d < base) (first ∷ later)
  pub value : number base 0 (first ∷ later) ≡ num
  pub text : out ≡ pads (width - length (first ∷ later)) padc ++ map char_of (first ∷ later)

number-snoc :
    (base val d : ℕ) (ds : List ℕ)
    → number base val (ds ++ (d ∷ [])) ≡ number base val ds * base + d
number-snoc base val d [] = refl
number-snoc base val d (e ∷ ds) = number-snoc base (val * base + e) d ds

All-snoc :
    (base d : ℕ) (ds : List ℕ)
    → All (λ i. i < base) ds
    → d < base
    → All (λ i. i < base) (ds ++ (d ∷ []))
All-snoc base d [] h lt = (lt, tt)
All-snoc base d (e ∷ ds) h lt = (h.0, All-snoc base d ds h.1 lt)

map-snoc : (d : ℕ) (ds : List ℕ) → map char_of (ds ++ (d ∷ [])) ≡ map char_of ds ++ (char_of d ∷ [])
map-snoc d [] = refl
map-snoc d (e ∷ ds) = ap (λ l. char_of e ∷ l) (map-snoc d ds)

Numeral-snoc :
    (num base width padc : ℕ) (out : List ℕ)
    → 0 < base
    → Numeral (num / base) base (width - 1) padc out
    → Numeral num base width padc (out ++ (digit_char (num % base) ∷ []))
Numeral-snoc num base width padc out pos n = record {
  first = n.first;
  later = n.later ++ (num % base ∷ []);
  digits = All-snoc base (num % base) (n.first ∷ n.later) n.digits (mod-lt num pos);
  value =
      number-snoc base 0 (num % base) (n.first ∷ n.later)
      ∙ ap (λ (v : ℕ). v * base + num % base) n.value
      ∙ omega (arith, mod-add-div' num base);
  text =
      ap (λ (o : List ℕ). o ++ (digit_char (num % base) ∷ [])) n.text
      ∙ append_assoc (pads (width - 1 - length (n.first ∷ n.later)) padc)
          (map char_of (n.first ∷ n.later)) (digit_char (num % base) ∷ [])
      ∙ ap (λ (l : List ℕ). pads (width - 1 - length (n.first ∷ n.later)) padc ++ l)
          (sym (map-snoc (num % base) (n.first ∷ n.later)))
      ∙ ap (λ (w : ℕ). pads w padc ++ map char_of (n.first ∷ (n.later ++ (num % base ∷ []))))
          (omega (arith, length-append n.later (num % base ∷ [])));
}

printnum_fuel-Numeral :
    (fuel num base width padc : ℕ)
    → num < fuel
    → 2 ≤ base
    → Numeral num base width padc (printnum_fuel fuel num base width padc)
unfolding printnum_fuel
printnum_fuel-Numeral zero num base width padc enough two = absurd (omega arith)
printnum_fuel-Numeral (suc fuel) num base width padc enough two = elim (Bool-cases (leb base num)) [
  | inl more ↦
      let smaller : num / base < num = div-lt_self (ground (arith, more)) (omega arith) in
      rw more (
        Numeral-snoc num base width padc (printnum_fuel fuel (num / base) base (width - 1) padc)
          (omega arith)
          (printnum_fuel-Numeral fuel (num / base) base (width - 1) padc (omega arith) two))
  | inr last ↦
      let small : num % base ≡ num = mod-eq_of_lt (ground (arith, last)) in
      rw last (record {
        first = num % base;
        later = [];
        digits = (mod-lt num (omega arith), tt);
        value = omega (arith, small);
        text = refl;
      })
]

-- For a base of at least 2, `printnum` prints padding up to the width, less the number of digits,
-- and then digits of the base that stand for the number.
pub printnum-Numeral :
    (num base width padc : ℕ)
    → 2 ≤ base
    → Numeral num base width padc (printnum num base width padc)
unfolding printnum
printnum-Numeral num base width padc two =
    printnum_fuel-Numeral (suc num) num base width padc (omega arith) two

pads-blank : (n : ℕ) → All (λ a. blank a ≡ true) (pads n 32)
pads-blank zero = tt
pads-blank (suc n) = (refl, pads-blank n)

-- For a base from 2 to 15, any width, padding by blanks, and any character behind that is no digit
-- of the base, `strtol` in that base reads back from what `printnum` prints the number modulo 2 ^
-- 32, and stops at the character behind.
pub strtol-printnum :
    (num base width c : ℕ) (rest : Bytes)
    → 2 ≤ base
    → base < 16
    → stops base c ≡ true
    → strtol (printnum num base width 32 ++ (c ∷ rest)) base ≡ some (num % 2 ^ 32, c ∷ rest)
strtol-printnum num base width c rest two small stop =
    let n = printnum-Numeral num base width 32 two in
    let padding : Bytes = pads (width - length (n.first ∷ n.later)) 32 in
    ap (λ (o : Bytes). strtol (o ++ (c ∷ rest)) base) n.text
    ∙ ap (λ (o : Bytes). strtol o base)
        (append_assoc padding (map char_of (n.first ∷ n.later)) (c ∷ rest))
    ∙ strtol_lem padding unsigned n.first n.later c rest
        (pads-blank (width - length (n.first ∷ n.later))) (given (omega arith) (omega arith))
        (omega arith) n.digits stop
    ∙ ap (λ (v : ℕ). some (v % 2 ^ 32, c ∷ rest)) n.value
