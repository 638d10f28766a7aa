-- ===== src/Library/Samples.antt =====
-- The theorems about the library on short strings.
use csdi_jos.Common.{ℕ, ◌%◌, ◌≡◌, ◌≢◌, refl, true, some, [], ◌∷◌, ◌++◌, arith}
use csdi_jos.Library.Strings.{strcpy}
use csdi_jos.Library.Strings.Copies.{strcpy_lem}
use csdi_jos.Library.Numbers.{strtol}
use csdi_jos.Library.Strings.{Bytes}
use csdi_jos.Library.Formats.{console_vcprintf, Print, printed, no_fuel, vprintfmt}
use csdi_jos.Library.Formats.Fuel.{vprintfmt-Ends}
use csdi_jos.Library.Formats.Decimal.{decimal_format, strtol-vprintfmt}
use csdi_jos.Library.Buffers.{vsnprintf}
use csdi_jos.Library.Buffers.Bounds.{Holds, vsnprintf-Holds}
use csdi_jos.Library.Readline.{readline}
use csdi_jos.Library.Readline.Editing.{LineIs, readline-LineIs}
use csdi_jos.Library.Memory.{memmove, memmove_portable}
use csdi_jos.Library.Memory.Moves.{Copied}
use csdi_jos.Library.Memory.Copies.{memmove-Copied, memmove-memmove_portable}
use csdi_jos.Library.Printing.{printnum}

strcpy_lem_example : strcpy (1 ∷ 2 ∷ 3 ∷ 4 ∷ []) (65 ∷ 66 ∷ 0 ∷ []) ≡ some (65 ∷ 66 ∷ 0 ∷ 4 ∷ [])
strcpy_lem_example =
    strcpy_lem (1 ∷ 2 ∷ 3 ∷ 4 ∷ []) (65 ∷ 66 ∷ []) [] (omega arith, (omega arith, tt)) (omega arith)

-- At every address there is the empty string.
abbrev empty_strings : ℕ → Bytes
empty_strings a = 0 ∷ []

abbrev count_byte : ℕ → ℕ
count_byte n = n % 256

-- "%5x%" with its argument, and an end behind '%'.
vprintfmt-Ends_example :
    vprintfmt empty_strings count_byte (37 ∷ 53 ∷ 120 ∷ 37 ∷ 0 ∷ []) (255 ∷ []) ≢ no_fuel
vprintfmt-Ends_example =
    vprintfmt-Ends empty_strings count_byte (37 ∷ 53 ∷ 120 ∷ 37 ∷ 0 ∷ []) (255 ∷ [])

strtol-vprintfmt_example :
    (st : Print) × (vprintfmt empty_strings count_byte decimal_format (4294967254 ∷ [])
      ≡ printed st)
    × (strtol (st.out ++ (0 ∷ [])) 10 ≡ some (4294967254, 0 ∷ []))
strtol-vprintfmt_example = strtol-vprintfmt empty_strings count_byte 4294967254 (omega arith)

-- "a%xbc" into two bytes of a buffer of four.
abbrev short_format : Bytes
short_format = 97 ∷ 37 ∷ 120 ∷ 98 ∷ 99 ∷ 0 ∷ []

vsnprintf-Holds_example :
    (m : Bytes) × (vsnprintf empty_strings 0 (some (1 ∷ 2 ∷ 3 ∷ 4 ∷ [])) 3 short_format (255 ∷ [])
      ≡ some (5, m))
    × Holds (1 ∷ 2 ∷ 3 ∷ 4 ∷ []) 3 (97 ∷ 102 ∷ 102 ∷ 98 ∷ 99 ∷ []) m
unfolding vprintfmt printnum
vsnprintf-Holds_example =
    vsnprintf-Holds empty_strings 0 (1 ∷ 2 ∷ 3 ∷ 4 ∷ []) 3 short_format (255 ∷ [])
      (record { out = 97 ∷ 102 ∷ 102 ∷ 98 ∷ 99 ∷ []; args = []; stored = [] }) (omega arith)
      (omega arith) (omega arith) refl

-- "K", an 'a', a backspace, a 'b' and a carriage return.
readline-LineIs_example :
    LineIs (98 ∷ []) (readline (some (75 ∷ 0 ∷ [])) true (97 ∷ 8 ∷ 98 ∷ 13 ∷ []) (λ i. 0))
unfolding console_vcprintf
readline-LineIs_example =
    readline-LineIs (some (75 ∷ 0 ∷ [])) (1, 75 ∷ []) true (97 ∷ 8 ∷ 98 ∷ []) 13 [] (λ i. 0) refl
      ((refl, refl), ((refl, refl), ((refl, refl), tt)))
      ((λ _. omega arith), ((λ _. omega arith), ((λ _. omega arith), tt))) refl refl

-- Eight bytes of memory, moved up by two.
memmove-Copied_example :
    Copied (λ a. a % 256) (memmove 0x1002 0x1000 8 (λ a. a % 256)) 0x1002 0x1000 8
memmove-Copied_example = memmove-Copied 0x1002 0x1000 8 (λ a. a % 256) (omega arith) (omega arith)

memmove-memmove_portable_example :
    memmove 0x1004 0x1000 8 (λ a. a % 256) 0x1004
    ≡ memmove_portable 0x1004 0x1000 8 (λ a. a % 256) 0x1004
memmove-memmove_portable_example =
    memmove-memmove_portable 0x1004 0x1000 8 (λ a. a % 256) (omega arith) (omega arith) 0x1004
