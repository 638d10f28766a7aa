-- ===== src/Library/Strings.antt =====
-- lab4/lib/string.c less `memset` and `memmove`, which are inline assembly, and `strtol`, which is in
-- Library/Numbers. A pointer is the bytes from it to the end of its object; an access beyond them is
-- `none`. What a function writes does not overlap what it reads.
pub mod Copies
pub mod Order
use csdi_jos.Common.{
  ℕ, zero, suc, not, ◌&&◌, ◌==◌, Option, none, some, List, [], ◌∷◌, if◌then◌else◌,
}
use csdi_jos.Kernel.State.Layout.{sub32}
use mathlib.Core.Option

abbrev pub Bytes : Type 0
Bytes = List ℕ

unfoldable pub strlen : Bytes → Option ℕ
strlen [] = none
strlen (c ∷ s) = let rest = strlen s in if c == 0 then some 0 else Option.map suc rest

unfoldable pub strnlen : Bytes → (size : ℕ) → Option ℕ
strnlen s zero = some 0
strnlen [] (suc size) = none
strnlen (c ∷ s) (suc size) =
    let rest = strnlen s size in if c == 0 then some 0 else Option.map suc rest

-- What `dst` holds afterwards; the functions that return `dst` return no more than that.
unfoldable pub strcpy : (dst src : Bytes) → Option Bytes
strcpy [] src = none
strcpy (d ∷ dst) [] = none
strcpy (d ∷ dst) (c ∷ src) =
    let rest = strcpy dst src in if c == 0 then some (0 ∷ dst) else Option.map (λ s. c ∷ s) rest

-- A write through `dst + n`.
unfoldable pub at_offset : (n : ℕ) → (Bytes → Option Bytes) → Bytes → Option Bytes
at_offset zero f dst = f dst
at_offset (suc n) f [] = none
at_offset (suc n) f (d ∷ dst) = Option.map (λ s. d ∷ s) (at_offset n f dst)

unfoldable pub strcat : (dst src : Bytes) → Option Bytes
unfolding strlen strcpy at_offset
strcat dst src = elim (strlen dst) [
  | none ↦ none
  | some len ↦ at_offset len (λ d. strcpy d src) dst
]

unfoldable pub strncpy : (dst src : Bytes) (size : ℕ) → Option Bytes
strncpy dst src zero = some dst
strncpy [] src (suc n) = none
strncpy (d ∷ dst) [] (suc n) = none
strncpy (d ∷ dst) (c ∷ src) (suc n) =
    Option.map (λ s. c ∷ s) (strncpy dst (if c == 0 then c ∷ src else src) n)

-- The loop, with the size that is left; `src` is not read when none is.
unfoldable pub strlcpy_loop : (dst src : Bytes) (size : ℕ) → Option (ℕ × Bytes)
strlcpy_loop [] src size = none
strlcpy_loop (d ∷ dst) src zero = some (0, 0 ∷ dst)
strlcpy_loop (d ∷ dst) [] (suc size) = none
strlcpy_loop (d ∷ dst) (c ∷ src) (suc size) =
    let rest = strlcpy_loop dst src size in
    if c == 0 then some (0, 0 ∷ dst) else Option.map (λ r. (suc r.0, c ∷ r.1)) rest

-- The number of bytes copied, and `dst`.
unfoldable pub strlcpy : (dst src : Bytes) (size : ℕ) → Option (ℕ × Bytes)
unfolding strlcpy_loop
strlcpy dst src zero = some (0, dst)
strlcpy dst src (suc size) = strlcpy_loop dst src size

-- A difference of bytes as a 32-bit word.
unfoldable pub strcmp : (p q : Bytes) → Option ℕ
strcmp [] q = none
strcmp (a ∷ p) [] = none
strcmp (a ∷ p) (b ∷ q) =
    let rest = strcmp p q in if not (a == 0) && a == b then rest else some (sub32 a b)

unfoldable pub strncmp : (p q : Bytes) (n : ℕ) → Option ℕ
strncmp p q zero = some 0
strncmp [] q (suc n) = none
strncmp (a ∷ p) [] (suc n) = none
strncmp (a ∷ p) (b ∷ q) (suc n) =
    let rest = strncmp p q n in if not (a == 0) && a == b then rest else some (sub32 a b)

unfoldable pub memcmp : (v1 v2 : Bytes) (n : ℕ) → Option ℕ
memcmp v1 v2 zero = some 0
memcmp [] v2 (suc n) = none
memcmp (a ∷ v1) [] (suc n) = none
memcmp (a ∷ v1) (b ∷ v2) (suc n) =
    let rest = memcmp v1 v2 n in if a == b then rest else some (sub32 a b)

-- A pointer into `s`, or a null pointer.
unfoldable pub strchr : (s : Bytes) (c : ℕ) → Option (Option Bytes)
strchr [] c = none
strchr (a ∷ s) c =
    let rest = strchr s c in
    if a == 0 then some none else if a == c then some (some (a ∷ s)) else rest

unfoldable pub strfind : (s : Bytes) (c : ℕ) → Option Bytes
strfind [] c = none
strfind (a ∷ s) c =
    let rest = strfind s c in if a == 0 then some (a ∷ s) else if a == c then some (a ∷ s) else rest

unfoldable pub memfind : (s : Bytes) (c n : ℕ) → Option Bytes
memfind s c zero = some s
memfind [] c (suc n) = none
memfind (a ∷ s) c (suc n) = let rest = memfind s c n in if a == c then some (a ∷ s) else rest
