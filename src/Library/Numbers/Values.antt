-- ===== src/Library/Numbers/Values.antt =====
-- The value that `strtol` reads.
use csdi_jos.Common.{
  ℕ, ◌+◌, ◌*◌, ◌/◌, ◌%◌, ◌^◌, ◌≤◌, ◌<◌, ◌≡◌, ◌≢◌, ◌⊎◌, refl, sym, ap, ◌∙◌, subst, Bool, true, false,
  ◌||◌, ◌==◌, leb, ltb, none, some, List, [], ◌∷◌, ◌++◌, map, All, if◌then◌else◌, arith,
}
use csdi_jos.Kernel.State.Layout.{sub32}
use csdi_jos.Library.Strings.{Bytes}
use csdi_jos.Library.Numbers.{strtol, skip_space, read_sign, read_prefix, read_digits, digit_of}
use native.Mathlib.Nat.{add-mul-mod_self_right, add-mul, mul_right_comm}

-- A digit as the character that stands for it.
abbrev pub char_of : ℕ → ℕ
char_of d = if ltb d 10 then d + 48 else d + 87

-- The number that the digits stand for, behind the digits that have been read.
abbrev pub number : (base val : ℕ) → List ℕ → ℕ
number base val [] = val
number base val (d ∷ ds) = number base (val * base + d) ds

-- Reading stops at this character.
abbrev pub stops : (base c : ℕ) → Bool
stops base c = elim (digit_of c) [ none ↦ true | some d ↦ leb base d ]

digit_of-char_of : (d : ℕ) → d < 36 → digit_of (char_of d) ≡ some d
unfolding digit_of
digit_of-char_of d lt = ground arith

digit_step : (val base d : ℕ) → (val % 2 ^ 32 * base + d) % 2 ^ 32 ≡ (val * base + d) % 2 ^ 32
digit_step val base d =
    let split : val % 2 ^ 32 + val / 2 ^ 32 * 2 ^ 32 ≡ val = omega arith in
    let product : val * base + d ≡ val % 2 ^ 32 * base + d + val / 2 ^ 32 * base * 2 ^ 32 = omega (
      arith,
      ap (λ (v : ℕ). v * base) (sym split),
      add-mul (val % 2 ^ 32) (val / 2 ^ 32 * 2 ^ 32) base,
      mul_right_comm (val / 2 ^ 32) (2 ^ 32) base,
    ) in
    sym (
      ap (λ (v : ℕ). v % 2 ^ 32) product
      ∙ add-mul-mod_self_right (val % 2 ^ 32 * base + d) (val / 2 ^ 32 * base) (2 ^ 32))

read_digits_lem :
    (base val : ℕ) (ds : List ℕ) (c : ℕ) (rest : Bytes)
    → base ≤ 36
    → All (λ d. d < base) ds
    → stops base c ≡ true
    → read_digits base (val % 2 ^ 32) (map char_of ds ++ (c ∷ rest))
      ≡ some (number base val ds % 2 ^ 32, c ∷ rest)
unfolding read_digits
read_digits_lem base val [] c rest small digits stop = ground (arith, stop)
read_digits_lem base val (d ∷ ds) c rest small digits stop =
    let read = digit_of-char_of d (omega arith) in
    let more : leb base d ≡ false = ground arith in
    ground (
      arith,
      read,
      more,
      digit_step val base d,
      read_digits_lem base (val * base + d) ds c rest small digits.1 stop,
    )

pub data Sign : Type 0 where
  unsigned plus minus : Sign

abbrev pub sign_text : Sign → Bytes
sign_text unsigned = []
sign_text plus = 43 ∷ []
sign_text minus = 45 ∷ []

abbrev pub apply_sign : Sign → ℕ → ℕ
apply_sign minus n = sub32 0 n
apply_sign _ n = n

-- The prefix `p` with which a number in base `b` may begin where `base` is asked for.
pub data Prefix : (base b : ℕ) (p text : Bytes) → Type 0 where
  given : {base : ℕ} {text : Bytes} → base ≢ 0 → base ≢ 16 → Prefix base base [] text
  hexadecimal :
      {base : ℕ} {text : Bytes} → (base ≡ 0) ⊎ (base ≡ 16) → Prefix base 16 (48 ∷ 120 ∷ []) text
  octal : {c : ℕ} {text : Bytes} → c ≢ 120 → Prefix 0 8 (48 ∷ []) (c ∷ text)
  decimal : {c : ℕ} {text : Bytes} → c ≢ 48 → Prefix 0 10 [] (c ∷ text)

read_prefix-Prefix :
    {base b : ℕ} {p text : Bytes}
    → Prefix base b p text
    → read_prefix base (p ++ text) ≡ some (b, text)
unfolding read_prefix
read_prefix-Prefix {base} {text = []} (given zero_base sixteen) = ground (arith, zero_base, sixteen)
read_prefix-Prefix {base} {text = c ∷ text} (given zero_base sixteen) =
    ground (arith, zero_base, sixteen)
read_prefix-Prefix (hexadecimal h) = ground (arith, h)
read_prefix-Prefix (octal h) = ground (arith, h)
read_prefix-Prefix (decimal h) = ground (arith, h)

abbrev pub blank : ℕ → Bool
blank c = c == 32 || c == 9

skip_space_lem :
    (blanks s : Bytes) (c : ℕ)
    → All (λ c. blank c ≡ true) blanks
    → blank c ≡ false
    → skip_space (blanks ++ (c ∷ s)) ≡ some (c ∷ s)
unfolding skip_space
skip_space_lem [] s c h solid = ground (arith, solid)
skip_space_lem (b ∷ blanks) s c h solid = ground (arith, h.0, skip_space_lem blanks s c h.1 solid)

-- The text begins with a character that is neither a blank nor a sign.
abbrev Solid : Bytes → Type 0
Solid text = (c : ℕ) × (s : Bytes) × (text ≡ c ∷ s) × (blank c ≡ false) × (c ≢ 43) × (c ≢ 45)

Prefix-Solid : {base b : ℕ} {p text : Bytes} → Prefix base b p text → Solid text → Solid (p ++ text)
Prefix-Solid (given zero_base sixteen) solid = solid
Prefix-Solid {text} (hexadecimal h) solid = (48, 120 ∷ text, refl, refl, omega arith, omega arith)
Prefix-Solid (octal {c} {text} h) solid = (48, c ∷ text, refl, refl, omega arith, omega arith)
Prefix-Solid (decimal h) solid = solid

digits-Solid : (d : ℕ) (s : Bytes) → d < 36 → Solid (char_of d ∷ s)
digits-Solid d s lt = (char_of d, s, refl, ground arith, ground arith, ground arith)

skip_space-Solid :
    (blanks text : Bytes)
    → All (λ c. blank c ≡ true) blanks
    → Solid text
    → skip_space (blanks ++ text) ≡ some text
skip_space-Solid blanks text h (c, s, e, solid, no_plus, no_minus) =
    subst (λ t. skip_space (blanks ++ t) ≡ some t) (sym e) (skip_space_lem blanks s c h solid)

is_minus : Sign → Bool
is_minus minus = true
is_minus _ = false

-- With or without a sign the text begins with a character that is no blank.
signed-skip :
    (blanks : Bytes) (sign : Sign) (text : Bytes)
    → All (λ c. blank c ≡ true) blanks
    → Solid text
    → skip_space (blanks ++ (sign_text sign ++ text)) ≡ some (sign_text sign ++ text)
signed-skip blanks unsigned text h solid = skip_space-Solid blanks text h solid
signed-skip blanks plus text h solid = skip_space_lem blanks text 43 h refl
signed-skip blanks minus text h solid = skip_space_lem blanks text 45 h refl

read_sign-Solid :
    (sign : Sign) (text : Bytes)
    → Solid text
    → read_sign (sign_text sign ++ text) ≡ some (is_minus sign, text)
unfolding read_sign is_minus
read_sign-Solid unsigned text (c, s, e, solid, no_plus, no_minus) =
    subst (λ t. read_sign t ≡ some (false, t)) (sym e) (ground (arith, no_plus, no_minus))
read_sign-Solid plus text solid = refl
read_sign-Solid minus text solid = refl

is_minus-apply_sign :
    (sign : Sign) (v : ℕ) → (if is_minus sign then sub32 0 v else v) ≡ apply_sign sign v
unfolding is_minus
is_minus-apply_sign unsigned v = refl
is_minus-apply_sign plus v = refl
is_minus-apply_sign minus v = refl

strtol_steps :
    (base : ℕ) (s s1 s2 s3 rest : Bytes) (neg : Bool) (b v : ℕ)
    → skip_space s ≡ some s1
    → read_sign s1 ≡ some (neg, s2)
    → read_prefix base s2 ≡ some (b, s3)
    → read_digits b 0 s3 ≡ some (v, rest)
    → strtol s base ≡ some (if neg then sub32 0 v else v, rest)
unfolding strtol
strtol_steps base s s1 s2 s3 rest neg b v skipped signed prefixed read =
    ground (arith, skipped, signed, prefixed, read)

-- Let a text begin with any blanks and tabs, a sign or none, a prefix that fits the base asked for
-- (none for a base given other than 16, `0x` for 16 or 0, `0` for 0, and none for 0 with a first
-- digit other than 0), and at least one digit of the base `b`, which is at most 36, up to a
-- character that is no such digit. `strtol` returns the number that the digits stand for, modulo 2
-- ^ 32, negated for a minus, and sets `endptr` to the character behind the digits.
pub strtol_lem :
    {base b : ℕ} {p : Bytes} (blanks : Bytes) (sign : Sign) (d : ℕ) (ds : List ℕ) (c : ℕ)
    (rest : Bytes)
    → All (λ a. blank a ≡ true) blanks
    → Prefix base b p (map char_of (d ∷ ds) ++ (c ∷ rest))
    → b ≤ 36
    → All (λ i. i < b) (d ∷ ds)
    → stops b c ≡ true
    → strtol (blanks ++ (sign_text sign ++ (p ++ (map char_of (d ∷ ds) ++ (c ∷ rest))))) base
      ≡ some (apply_sign sign (number b 0 (d ∷ ds) % 2 ^ 32), c ∷ rest)
unfolding strtol
strtol_lem {base} {b} {p} blanks sign d ds c rest space prefix small digits stop =
    let text : Bytes = map char_of (d ∷ ds) ++ (c ∷ rest) in
    let solid : Solid (p ++ text) =
      Prefix-Solid prefix (digits-Solid d (map char_of ds ++ (c ∷ rest)) (omega arith)) in
    let read = read_digits_lem b 0 (d ∷ ds) c rest small digits stop in
    let prefixed = read_prefix-Prefix prefix in
    strtol_steps base (blanks ++ (sign_text sign ++ (p ++ text))) (sign_text sign ++ (p ++ text))
      (p ++ text) text (c ∷ rest) (is_minus sign) b (number b 0 (d ∷ ds) % 2 ^ 32)
      (signed-skip blanks sign (p ++ text) space solid) (read_sign-Solid sign (p ++ text) solid)
      prefixed read
    ∙ ap (λ (v : ℕ). some (v, c ∷ rest)) (is_minus-apply_sign sign (number b 0 (d ∷ ds) % 2 ^ 32))
