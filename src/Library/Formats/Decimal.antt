-- ===== src/Library/Formats/Decimal.antt =====
-- What `vprintfmt` prints for "%d", and `strtol` on it.
use csdi_jos.Common.{
  ℕ, ◌-◌, ◌%◌, ◌^◌, ◌<◌, ◌≡◌, refl, ap, ◌∙◌, leb, some, [], ◌∷◌, ◌++◌, map, length, Bool-cases, inl,
  inr, arith,
}
use csdi_jos.Library.Strings.{Bytes}
use csdi_jos.Library.Numbers.{strtol, digit_of}
use csdi_jos.Library.Numbers.Values.{
  char_of, Sign, unsigned, minus, sign_text, apply_sign, given, strtol_lem,
}
use csdi_jos.Library.Printing.{printnum, pads}
use csdi_jos.Library.Printing.Numerals.{printnum-Numeral}
use csdi_jos.Library.Formats.{Print, printed, vprintfmt}

strtol_signed :
    (sign : Sign) (num : ℕ) (rest : Bytes)
    → strtol (sign_text sign ++ (printnum num 10 0 32 ++ (0 ∷ rest))) 10
      ≡ some (apply_sign sign (num % 2 ^ 32), 0 ∷ rest)
unfolding digit_of
strtol_signed sign num rest =
    let n = printnum-Numeral num 10 0 32 (omega arith) in
    let none : 0 - length (n.first ∷ n.later) ≡ 0 = omega arith in
    ap (λ (o : Bytes). strtol (sign_text sign ++ (o ++ (0 ∷ rest))) 10)
      (n.text ∙ ap (λ i. pads i 32 ++ map char_of (n.first ∷ n.later)) none)
    ∙ strtol_lem [] sign n.first n.later 0 rest tt (given (omega arith) (omega arith)) (omega arith)
        n.digits refl
    ∙ ap (λ (v : ℕ). some (apply_sign sign (v % 2 ^ 32), 0 ∷ rest)) n.value

-- "%d"
abbrev pub decimal_format : Bytes
decimal_format = 37 ∷ 100 ∷ 0 ∷ []

module _ (mem : ℕ → Bytes) (first_byte : ℕ → ℕ) (a : ℕ) (word : a < 2 ^ 32) where
  -- For every 32-bit word, `vprintfmt` prints "%d" with the word as its argument, and `strtol` in
  -- base 10 reads the word back from the text, negative numbers included, and stops at the 0 behind
  -- it.
  pub strtol-vprintfmt :
      (st : Print) × (vprintfmt mem first_byte decimal_format (a ∷ []) ≡ printed st)
      × (strtol (st.out ++ (0 ∷ [])) 10 ≡ some (a, 0 ∷ []))
  unfolding vprintfmt
  strtol-vprintfmt = elim (Bool-cases (leb (2 ^ 31) a)) [
    | inl neg ↦ rw neg (
      _,
      refl,
      strtol_signed minus (2 ^ 32 - a) [] ∙ ap (λ v. some (v, 0 ∷ [])) (ground (arith, neg)),
    )
    | inr pos ↦
        rw pos (_, refl, strtol_signed unsigned a [] ∙ ap (λ v. some (v, 0 ∷ [])) (ground arith))
  ]
