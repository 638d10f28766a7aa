-- ===== src/Library/Escapes.antt =====
-- The escape sequences of `vprintfmt` in lab4/lib/printfmt.c, and its arguments. An `int` is a
-- 32-bit word, and a `long long` takes two words of the argument list, the lower one first.
use csdi_jos.Common.{
  ℕ, ◌+◌, ◌-◌, ◌*◌, ◌/◌, ◌%◌, ◌^◌, Bool, true, false, ◌&&◌, ◌==◌, leb, Option, none, some, List, [],
  ◌∷◌, if◌then◌else◌,
}
use mathlib.Core.Option
use csdi_jos.Kernel.State.Layout.{is_neg}
use csdi_jos.Library.Strings.{Bytes}

-- The variables of one escape sequence.
pub record Spec : Type 0 where
  pub padc : ℕ
  pub width : ℕ
  pub precision : ℕ
  pub lflag : ℕ
  pub altflag : Bool

abbrev pub initial_spec : Spec
initial_spec = record {
  padc = 32;
  width = 2 ^ 32 - 1;
  precision = 2 ^ 32 - 1;
  lflag = 0;
  altflag = false;
}

-- `process_precision`
abbrev pub process_precision : ℕ → Spec → Spec
process_precision n spec =
    if is_neg spec.width
    then record spec { width = n; precision = 2 ^ 32 - 1 }
    else record spec { precision = n }

-- What a character behind '%' is: a flag, with the arguments left and the number that is being read,
-- or the conversion, or a '*' without an argument.
pub data Switch : Type 0 where
  again : Spec → List ℕ → Option ℕ → Switch
  convert : Spec → Switch
  missing : Switch

abbrev pub is_digit : ℕ → Bool
is_digit c = leb 48 c && leb c 57

abbrev pub star : Spec → List ℕ → Switch
star spec [] = missing
star spec (a ∷ args) = again (process_precision a spec) args none

unfoldable pub flag : (c : ℕ) → Spec → List ℕ → Switch
flag c spec args =
    if c == 45
    then again (record spec { padc = 45 }) args none
    else if c == 48
    then again (record spec { padc = 48 }) args none
    else if is_digit c
    then again spec args (some (c - 48))
    else if c == 42
    then star spec args
    else if c == 46
    then again (if is_neg spec.width then record spec { width = 0 } else spec) args none
    else if c == 35
    then again (record spec { altflag = true }) args none
    else if c == 108
    then again (record spec { lflag = spec.lflag + 1 }) args none
    else convert spec

-- Behind a digit from 1 to 9, further digits belong to the number.
unfoldable pub switch : (c : ℕ) → Spec → List ℕ → (number : Option ℕ) → Switch
unfolding flag
switch c spec args none = flag c spec args
switch c spec args (some n) =
    if is_digit c
    then again spec args (some ((n * 10 + (c - 48)) % 2 ^ 32))
    else flag c (process_precision n spec) args

-- An escape sequence: its flags, its last character, what is behind it, and the arguments left.
pub record Escape : Type 0 where
  pub spec : Spec
  pub ch : ℕ
  pub behind : Bytes
  pub args : List ℕ

unfoldable pub read_escape : Bytes → Spec → List ℕ → (number : Option ℕ) → Option Escape
unfolding switch
read_escape [] spec args number = none
read_escape (c ∷ s) spec args number = elim (switch c spec args number) [
  | again spec' args' number' ↦ read_escape s spec' args' number'
  | convert spec' ↦ some (record { spec = spec'; ch = c; behind = s; args = args })
  | missing ↦ none
]

-- `getuint`, and the arguments left.
unfoldable pub getuint : List ℕ → (lflag : ℕ) → Option (ℕ × List ℕ)
getuint [] lflag = none
getuint (a ∷ args) lflag =
    if leb 2 lflag
    then elim args [ [] ↦ none | b ∷ args' ↦ some (a + b * 2 ^ 32, args') ]
    else some (a, args)

-- `getint`: the sign, and the absolute value.
unfoldable pub getint : List ℕ → (lflag : ℕ) → Option ((Bool × ℕ) × List ℕ)
unfolding getuint
getint args lflag =
    let bits = if leb 2 lflag then 2 ^ 64 else 2 ^ 32 in
    Option.map (λ r. (if leb (bits / 2) r.0 then (true, bits - r.0) else (false, r.0), r.1))
      (getuint args lflag)
