-- ===== src/Library/Formats/Fuel.antt =====
-- `vprintfmt` comes to an end on every format.
use csdi_jos.Common.{
  ℕ, zero, suc, ◌≤◌, ◌<◌, ◌≢◌, ◌==◌, length, Option, none, some, List, [], ◌∷◌, ◌++◌, Bool-cases,
  inl, inr, arith,
}
use mathlib.Core.Option
use csdi_jos.Library.Strings.{Bytes}
use csdi_jos.Library.Escapes.{
  Spec, initial_spec, Escape, Switch, again, convert, missing, switch, read_escape,
}
use csdi_jos.Library.Formats.{
  Print, Printed, stray, no_fuel, is_conversion, format_left, put_conversion, put_escape,
  print_loop, vprintfmt,
}

-- An escape sequence has at least one character.
abbrev Shorter : Bytes → Option Escape → Type 0
Shorter s none = Unit
Shorter s (some e) = length e.behind < length s

Shorter-suc : (c : ℕ) (s : Bytes) (o : Option Escape) → Shorter s o → Shorter (c ∷ s) o
Shorter-suc c s none h = tt
Shorter-suc c s (some e) h = omega (arith, h)

read_escape-Shorter :
    (s : Bytes) (spec : Spec) (args : List ℕ) (number : Option ℕ)
    → Shorter s (read_escape s spec args number)
unfolding read_escape
read_escape-Shorter [] spec args number = tt
read_escape-Shorter (c ∷ s) spec args number =
    by_switch (read_escape-Shorter s) (switch c spec args number)
  where
    by_switch :
        ((spec : Spec) (args : List ℕ) (number : Option ℕ)
          → Shorter s (read_escape s spec args number))
        → (w : Switch)
        → Shorter (c ∷ s) (elim w [
          | again spec' args' number' ↦ read_escape s spec' args' number'
          | convert spec' ↦ some (record { spec = spec'; ch = c; behind = s; args = args })
          | missing ↦ none
        ])
    by_switch shorter (again spec' args' number') =
        Shorter-suc c s (read_escape s spec' args' number') (shorter spec' args' number')
    by_switch shorter (convert spec') = omega arith
    by_switch shorter missing = tt

module _ (mem : ℕ → Bytes) (first_byte : ℕ → ℕ) where
  -- What is left of the format is no longer than what stands behind the '%'.
  abbrev Left : Bytes → Option (Print × Bytes) → Type 0
  Left s none = Unit
  Left s (some (st, left)) = length left ≤ length s

  Left-escape :
      (s : Bytes) (e : Escape) (o : Option Print)
      → length e.behind < length s
      → Left s (Option.map (λ st. (st, format_left e s)) o)
  Left-escape s e none h = tt
  Left-escape s e (some st) h = elim (Bool-cases (is_conversion e.ch)) [
    | inl yes_conversion ↦ rw yes_conversion (omega (arith, h))
    | inr no_conversion ↦ rw no_conversion (omega arith)
  ]

  put_escape-Left : (s : Bytes) (st : Print) → Left s (put_escape mem first_byte s st)
  unfolding put_escape
  put_escape-Left s st =
      by_escape (read_escape s initial_spec st.args none)
        (read_escape-Shorter s initial_spec st.args none)
    where
      by_escape :
          (o : Option Escape)
          → Shorter s o
          → Left s (elim o [
            | none ↦ none
            | some e ↦
                Option.map (λ st'. (st', format_left e s)) (put_conversion mem first_byte e st)
          ])
      by_escape none h = tt
      by_escape (some e) h = Left-escape s e (put_conversion mem first_byte e st) h

  abbrev Ends : Printed → Type 0
  Ends p = p ≢ no_fuel

  Ends-escape :
      (fuel : ℕ) (s : Bytes) (o : Option (Print × Bytes))
      → Left s o
      → ((left : Bytes) (st : Print)
          → length left ≤ length s
          → Ends (print_loop mem first_byte fuel left st))
      → Ends (elim o [ none ↦ stray | some (st', left) ↦ print_loop mem first_byte fuel left st' ])
  Ends-escape fuel s none h ends = λ e. ground (arith, e)
  Ends-escape fuel s (some (st', left)) h ends = ends left st' h

  print_loop-Ends :
      (fuel : ℕ) (fmt : Bytes) (st : Print)
      → length fmt < fuel
      → Ends (print_loop mem first_byte fuel fmt st)
  unfolding print_loop
  print_loop-Ends zero fmt st enough = absurd (omega (arith, enough))
  print_loop-Ends (suc fuel) [] st enough = λ e. ground (arith, e)
  print_loop-Ends (suc fuel) (c ∷ s) st enough = elim (Bool-cases (c == 37)) [
    | inl escape ↦ rw escape (
        Ends-escape fuel s (put_escape mem first_byte s st) (put_escape-Left s st)
          λ left st' short. print_loop-Ends fuel left st' (omega (arith, enough, short)))
    | inr plain ↦ elim (Bool-cases (c == 0)) [
      | inl end ↦ rw (plain, end) (λ e. ground (arith, e))
      | inr more ↦
          rw (plain, more)
            (print_loop-Ends fuel s (record st { out = st.out ++ (c ∷ []) })
              (omega (arith, enough)))
    ]
  ]

  -- For every format, list of arguments and memory, `vprintfmt` comes to an end: its loop has no
  -- more rounds than the format has bytes and one.
  pub vprintfmt-Ends : (fmt : Bytes) (args : List ℕ) → vprintfmt mem first_byte fmt args ≢ no_fuel
  unfolding vprintfmt
  vprintfmt-Ends fmt args =
      print_loop-Ends (suc (length fmt)) fmt (record { out = []; args = args; stored = [] })
        (omega arith)
