-- ===== src/Library/Strings/Copies.antt =====
-- The functions that measure and copy strings.
use csdi_jos.Common.{
  ℕ, zero, suc, ◌≤◌, ◌<◌, ◌≡◌, ◌≢◌, refl, Option, some, [], ◌∷◌, ◌++◌, length, All, arith,
}
use csdi_jos.Library.Strings.{Bytes, strlen, strcpy, strlcpy, strlcpy_loop, strcat, at_offset}

-- The characters of a string: none is 0.
abbrev pub Chars : Bytes → Type 0
Chars = All (λ c. c ≢ 0)

-- A string in memory: its characters, a 0, and what comes behind it.
abbrev pub cstring : (s rest : Bytes) → Bytes
cstring s rest = s ++ (0 ∷ rest)

abbrev pub take : ℕ → Bytes → Bytes
take zero s = []
take (suc n) [] = []
take (suc n) (c ∷ s) = c ∷ take n s

abbrev pub drop : ℕ → Bytes → Bytes
drop zero s = s
drop (suc n) [] = []
drop (suc n) (c ∷ s) = drop n s

pub strlen_lem : (s rest : Bytes) → Chars s → strlen (cstring s rest) ≡ some (length s)
unfolding strlen
strlen_lem [] rest chars = refl
strlen_lem (c ∷ s) rest chars = ground (arith, strlen_lem s rest chars.1)

pub strcpy_lem :
    (dst s rest : Bytes)
    → Chars s
    → length s < length dst
    → strcpy dst (cstring s rest) ≡ some (s ++ (0 ∷ drop (suc (length s)) dst))
unfolding strcpy
strcpy_lem [] s rest chars fits = absurd (omega arith)
strcpy_lem (d ∷ dst) [] rest chars fits = refl
strcpy_lem (d ∷ dst) (c ∷ s) rest chars fits =
    ground (arith, strcpy_lem dst s rest chars.1 (omega arith))

strlcpy_loop_lem :
    (dst s rest : Bytes) (size : ℕ)
    → Chars s
    → size < length dst
    → strlcpy_loop dst (cstring s rest) size
      ≡ some (length (take size s), take size s ++ (0 ∷ drop (suc (length (take size s))) dst))
unfolding strlcpy_loop
strlcpy_loop_lem [] s rest size chars fits = absurd (omega arith)
strlcpy_loop_lem (d ∷ dst) s rest zero chars fits = refl
strlcpy_loop_lem (d ∷ dst) [] rest (suc size) chars fits = refl
strlcpy_loop_lem (d ∷ dst) (c ∷ s) rest (suc size) chars fits =
    ground (arith, strlcpy_loop_lem dst s rest size chars.1 (omega arith))

-- For a size above 0 that `dst` has room for, `strlcpy` leaves in `dst` as much of the string as
-- fits before a 0 within the size, the bytes behind that 0 unchanged, and returns the number of
-- characters copied.
pub strlcpy_lem :
    (dst s rest : Bytes) (size : ℕ)
    → Chars s
    → size < length dst
    → strlcpy dst (cstring s rest) (suc size)
      ≡ some (length (take size s), cstring (take size s) (drop (suc (length (take size s))) dst))
unfolding strlcpy
strlcpy_lem dst s rest size chars fits = strlcpy_loop_lem dst s rest size chars fits

at_offset-append :
    (d rest : Bytes) (f : Bytes → Option Bytes) (out : Bytes)
    → f rest ≡ some out
    → at_offset (length d) f (d ++ rest) ≡ some (d ++ out)
unfolding at_offset
at_offset-append [] rest f out h = h
at_offset-append (c ∷ d) rest f out h = ground (arith, at_offset-append d rest f out h)

-- Where the room behind the first string holds the second, `strcat` leaves the two strings one
-- behind the other with a 0, and the bytes behind unchanged.
pub strcat_lem :
    (d s room rest : Bytes)
    → Chars d
    → Chars s
    → length s ≤ length room
    → strcat (cstring d room) (cstring s rest) ≡ some (d ++ cstring s (drop (length s) room))
unfolding strcat
strcat_lem d s room rest head tail fits =
    simp (strcat, strlen_lem d room head)
      (at_offset-append d (0 ∷ room) (λ b. strcpy b (cstring s rest))
        (cstring s (drop (length s) room)) (strcpy_lem (0 ∷ room) s rest tail (omega arith)))
