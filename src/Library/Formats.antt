-- ===== src/Library/Formats.antt =====
-- `vprintfmt` of lab4/lib/printfmt.c. What is given to `putch` is a list. The memory that `%s` reads
-- and the byte that `%n` finds at `putdat` are arguments.
pub mod Fuel
pub mod Decimal
use csdi_jos.Common.{
  ℕ, zero, suc, ◌+◌, ◌-◌, ◌%◌, ◌^◌, Bool, not, ◌&&◌, ◌||◌, ◌==◌, ltb, leb, length, Option, none,
  some, List, [], ◌∷◌, ◌++◌, if◌then◌else◌,
}
use mathlib.Core.Option
use csdi_jos.Kernel.State.Layout.{is_neg}
use csdi_jos.Library.Strings.{Bytes, strnlen}
use csdi_jos.Library.Printing.{printnum, pads}
use csdi_jos.Library.Texts.{null_text, null_error, overflow_error, error_prefix, error_string}
use csdi_jos.Library.Escapes.{Spec, initial_spec, Escape, read_escape, getuint, getint}

-- A width that is not positive pads like 0.
abbrev pub positive : ℕ → ℕ
positive n = if is_neg n then 0 else n

-- The characters of a string up to its end or the precision, which -1 does not limit.
unfoldable pub take_string : Bytes → (limit : Option ℕ) → Option Bytes
take_string [] limit = none
take_string (c ∷ s) none =
    let rest = take_string s none in if c == 0 then some [] else Option.map (λ t. c ∷ t) rest
take_string (c ∷ s) (some zero) = some []
take_string (c ∷ s) (some (suc n)) =
    let rest = take_string s (some n) in if c == 0 then some [] else Option.map (λ t. c ∷ t) rest

abbrev pub limit_of : (precision : ℕ) → Option ℕ
limit_of precision = if is_neg precision then none else some precision

-- With `#`, what can not be printed is a '?'.
unfoldable pub shown : Bool → Bytes → Bytes
shown alt [] = []
shown alt (c ∷ s) = (if alt && (ltb c 32 || ltb 126 c) then 63 else c) ∷ shown alt s

-- The string with its padding: in front up to `strnlen`, or behind up to what was printed.
unfoldable pub put_string : Spec → Bytes → Option Bytes
unfolding take_string shown
put_string spec p = elim (take_string p (limit_of spec.precision)) [
  | none ↦ none
  | some text ↦
      if ltb 0 (positive spec.width) && not (spec.padc == 45)
      then Option.map (λ n. pads (positive spec.width - n) spec.padc ++ shown spec.altflag text)
          (strnlen p spec.precision)
      else some (shown spec.altflag text ++ pads (positive spec.width - length text) 32)
]

-- The output so far, the arguments left, and what `%n` has stored, latest first.
pub record Print : Type 0 where
  pub out : List ℕ
  pub args : List ℕ
  pub stored : List (ℕ × ℕ)

abbrev pub put_all : List ℕ → List ℕ → Print → Print
put_all text args st = record st { out = st.out ++ text; args = args }

-- `printfmt` with "error %d" for an error code that is not negative, or the string of the code.
unfoldable pub put_error : (err : ℕ) → Bytes
put_error err = elim (error_string err) [ none ↦ error_prefix ++ printnum err 10 0 32 | some p ↦ p ]

-- The absolute value of the code; the least `int` has none, and is an index before the table.
unfoldable pub put_error_code : (a : ℕ) → Option Bytes
unfolding put_error
put_error_code a =
    if a == 2 ^ 31 then none else some (put_error (if is_neg a then 2 ^ 32 - a else a))

-- The number of a numeric conversion.
unfoldable pub put_number : Spec → (prefix : List ℕ) → (base : ℕ) → ℕ × List ℕ → Print → Print
put_number spec prefix base (num, args) =
    put_all (prefix ++ printnum num base (positive spec.width) spec.padc) args

unfoldable pub put_signed : Spec → (Bool × ℕ) × List ℕ → Print → Print
unfolding put_number
put_signed spec ((neg, num), args) = put_number spec (if neg then 45 ∷ [] else []) 10 (num, args)

-- `%n` with the pointer `a`, where `byte` is found at `putdat`.
unfoldable pub put_count : (a byte : ℕ) → List ℕ → Print → Print
put_count a byte args st =
    if a == 0
    then put_all null_error args st
    else put_all (if leb 128 byte then overflow_error else []) args
        (record st { stored = (a, byte) ∷ st.stored })

-- A conversion that takes one argument.
abbrev pub with_arg : List ℕ → (ℕ → List ℕ → Option Print) → Option Print
with_arg [] f = none
with_arg (a ∷ args) f = f a args

-- How a format is printed: to its end, up to what is not there, or out of fuel.
pub data Printed : Type 0 where
  printed : Print → Printed
  stray no_fuel : Printed

-- The conversions; every other character prints '%' itself, and then what follows it.
abbrev pub is_conversion : ℕ → Bool
is_conversion ch =
    ch == 99
    || ch == 101
    || ch == 115
    || ch == 100
    || ch == 117
    || ch == 111
    || ch == 112
    || ch == 120
    || ch == 110
    || ch == 37

-- What is left of the format behind an escape sequence that began at `s`.
abbrev pub format_left : Escape → (s : Bytes) → Bytes
format_left e s = if is_conversion e.ch then e.behind else s

-- What a conversion prints; `none` for an argument or a byte that is not there.
module _ (mem : ℕ → Bytes) (first_byte : ℕ → ℕ) where
  unfoldable pub put_conversion : Escape → Print → Option Print
  unfolding put_string put_error_code put_number put_signed put_count getuint getint
  put_conversion e st =
      if e.ch == 99
      then with_arg e.args (λ a args. some (put_all (a ∷ []) args st))
      else if e.ch == 101
      then with_arg e.args (λ a args. Option.map (λ text. put_all text args st) (put_error_code a))
      else if e.ch == 115
      then with_arg e.args (λ a args.
        Option.map (λ text. put_all text args st)
          (put_string e.spec (if a == 0 then null_text ++ (0 ∷ []) else mem a)))
      else if e.ch == 100
      then Option.map (λ r. put_signed e.spec r st) (getint e.args e.spec.lflag)
      else if e.ch == 117
      then Option.map (λ r. put_number e.spec [] 10 r st) (getuint e.args e.spec.lflag)
      else if e.ch == 111
      then Option.map (λ r. put_number e.spec [] 8 r st) (getuint e.args e.spec.lflag)
      else if e.ch == 112
      then with_arg e.args (λ a args. some (put_number e.spec (48 ∷ 120 ∷ []) 16 (a, args) st))
      else if e.ch == 120
      then Option.map (λ r. put_number e.spec [] 16 r st) (getuint e.args e.spec.lflag)
      else if e.ch == 110
      then with_arg e.args (λ a args. some (put_count a (first_byte (length st.out)) args st))
      else some (put_all (37 ∷ []) e.args st)

  -- The escape sequence at `s`: what is printed, and the format that is left.
  unfoldable pub put_escape : (s : Bytes) → Print → Option (Print × Bytes)
  unfolding read_escape put_conversion
  put_escape s st = elim (read_escape s initial_spec st.args none) [
    | none ↦ none
    | some e ↦ Option.map (λ st'. (st', format_left e s)) (put_conversion e st)
  ]

  unfoldable pub print_loop : (fuel : ℕ) → Bytes → Print → Printed
  unfolding put_escape
  print_loop zero fmt st = no_fuel
  print_loop (suc fuel) [] st = stray
  print_loop (suc fuel) (c ∷ s) st =
      let plain = print_loop fuel s (record st { out = st.out ++ (c ∷ []) }) in
      if c == 37
      then (elim (put_escape s st) [ none ↦ stray | some (st', left) ↦ print_loop fuel left st' ])
      else if c == 0
      then printed st
      else plain

  -- A format has no more rounds than bytes.
  unfoldable pub vprintfmt : (fmt : Bytes) → (args : List ℕ) → Printed
  unfolding print_loop
  vprintfmt fmt args =
      print_loop (suc (length fmt)) fmt (record { out = []; args = args; stored = [] })

-- `vcprintf` of lab4/kern/printf.c, whose `putch` counts at `putdat`: what it returns, and what goes
-- to the console.
unfoldable pub console_vcprintf :
    (mem : ℕ → Bytes) (fmt : Bytes) (args : List ℕ) → Option (ℕ × List ℕ)
unfolding vprintfmt
console_vcprintf mem fmt args = elim (vprintfmt mem (λ n. n % 256) fmt args) [
  | printed st ↦ some (length st.out % 2 ^ 32, st.out)
  | stray ↦ none
  | no_fuel ↦ none
]
