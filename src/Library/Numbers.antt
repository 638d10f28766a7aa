-- ===== src/Library/Numbers.antt =====
-- `strtol` of lab4/lib/string.c. A `long` is a 32-bit word.
pub mod Values
use csdi_jos.Common.{
  ℕ, ◌+◌, ◌-◌, ◌*◌, ◌%◌, ◌^◌, Bool, true, false, ◌&&◌, ◌||◌, ◌==◌, leb, Option, none, some, [], ◌∷◌,
  if◌then◌else◌,
}
use csdi_jos.Kernel.State.Layout.{sub32}
use csdi_jos.Library.Strings.{Bytes}

-- The blanks and tabs at the front are passed over.
unfoldable pub skip_space : Bytes → Option Bytes
skip_space [] = none
skip_space (c ∷ s) = let rest = skip_space s in if c == 32 || c == 9 then rest else some (c ∷ s)

-- `neg`, and what is behind the sign.
unfoldable pub read_sign : Bytes → Option (Bool × Bytes)
read_sign [] = none
read_sign (c ∷ s) =
    some (if c == 43 then (false, s) else if c == 45 then (true, s) else (false, c ∷ s))

-- The base, and what is behind its prefix; `s[1]` is read only behind a '0'.
unfoldable pub read_prefix : (base : ℕ) → Bytes → Option (ℕ × Bytes)
read_prefix base [] = if base == 0 || base == 16 then none else some (base, [])
read_prefix base (c ∷ s) =
    let plain : ℕ × Bytes =
      if base == 0 && c == 48 then (8, s) else if base == 0 then (10, c ∷ s) else (base, c ∷ s) in
    if (base == 0 || base == 16) && c == 48
    then elim s [ [] ↦ none | x ∷ t ↦ if x == 120 then some (16, t) else some plain ]
    else some plain

unfoldable pub digit_of : ℕ → Option ℕ
digit_of c =
    if leb 48 c && leb c 57
    then some (c - 48)
    else if leb 97 c && leb c 122
    then some (c - 97 + 10)
    else if leb 65 c && leb c 90
    then some (c - 65 + 10)
    else none

-- The loop over the digits: the value, and the pointer to the first character that is none.
unfoldable pub read_digits : (base val : ℕ) → Bytes → Option (ℕ × Bytes)
read_digits base val [] = none
read_digits base val (c ∷ s) = elim (digit_of c) [
  | none ↦ some (val, c ∷ s)
  | some dig ↦
      let rest = read_digits base ((val * base + dig) % 2 ^ 32) s in
      if leb base dig then some (val, c ∷ s) else rest
]

-- The value, and what `endptr` is set to.
unfoldable pub strtol : Bytes → (base : ℕ) → Option (ℕ × Bytes)
unfolding skip_space read_sign read_prefix read_digits
strtol s base = elim (skip_space s) [
  | none ↦ none
  | some s1 ↦ elim (read_sign s1) [
    | none ↦ none
    | some (neg, s2) ↦ elim (read_prefix base s2) [
      | none ↦ none
      | some (b, s3) ↦ elim (read_digits b 0 s3) [
        | none ↦ none
        | some (val, rest) ↦ some (if neg then sub32 0 val else val, rest)
      ]
    ]
  ]
]
