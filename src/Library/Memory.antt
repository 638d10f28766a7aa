-- ===== src/Library/Memory.antt =====
-- `memset`, `memmove` and `memcpy` of lab4/lib/string.c, in assembly and in C, on the bytes of memory.
-- The string instructions are `rep stos` and `rep movs` on units of `w` bytes, up or down by the
-- direction flag.
pub mod Moves
pub mod Copies
pub mod Fills
use csdi_jos.Common.{
  ℕ, zero, suc, ◌+◌, ◌-◌, ◌*◌, ◌/◌, ◌%◌, ◌^◌, ◌&&◌, ◌==◌, ltb, leb, if◌then◌else◌, update, bit_or,
}
use csdi_jos.Kernel.State.Layout.{add32, sub32, is_neg}

-- The byte at an address.
abbrev pub Memory : Type 0
Memory = ℕ → ℕ

-- Byte `j` of a word.
abbrev pub byte_of : (v j : ℕ) → ℕ
byte_of v j =
    if j == 0
    then v % 256
    else if j == 1
    then v / 256 % 256
    else if j == 2
    then v / 2 ^ 16 % 256
    else v / 2 ^ 24 % 256

-- One `stos` and one `movs` of `w` bytes.
abbrev pub stos : (w d v : ℕ) → Memory → Memory
stos w d v m a = if leb d a && ltb a (d + w) then byte_of v (a - d) else m a

abbrev pub movs : (w d s : ℕ) → Memory → Memory
movs w d s m a = if leb d a && ltb a (d + w) then m (s + (a - d)) else m a

unfoldable pub rep_stos : (w n d v : ℕ) → Memory → Memory
rep_stos w zero d v m = m
rep_stos w (suc n) d v m = rep_stos w n (add32 d w) v (stos w d v m)

-- `cld; rep movs` and `std; rep movs`.
unfoldable pub rep_movs : (w n d s : ℕ) → Memory → Memory
rep_movs w zero d s m = m
rep_movs w (suc n) d s m = rep_movs w n (add32 d w) (add32 s w) (movs w d s m)

unfoldable pub rep_movs_down : (w n d s : ℕ) → Memory → Memory
rep_movs_down w zero d s m = m
rep_movs_down w (suc n) d s m = rep_movs_down w n (sub32 d w) (sub32 s w) (movs w d s m)

-- `(c<<24)|(c<<16)|(c<<8)|c`
abbrev pub splat : ℕ → ℕ
splat c = bit_or (bit_or (bit_or (c * 2 ^ 24 % 2 ^ 32) (c * 2 ^ 16)) (c * 256)) c

unfoldable pub memset : (v c n : ℕ) → Memory → Memory
unfolding rep_stos
memset v c n m =
    if n == 0
    then m
    else if v % 4 == 0 && n % 4 == 0
    then rep_stos 4 (n / 4) v (splat (c % 256)) m
    else rep_stos 1 n v c m

unfoldable pub memmove : (dst src n : ℕ) → Memory → Memory
unfolding rep_movs rep_movs_down
memmove dst src n m =
    if ltb src dst && ltb dst (add32 src n)
    then (let s = add32 src n in
        let d = add32 dst n in
        if s % 4 == 0 && d % 4 == 0 && n % 4 == 0
        then rep_movs_down 4 (n / 4) (sub32 d 4) (sub32 s 4) m
        else rep_movs_down 1 n (sub32 d 1) (sub32 s 1) m)
    else if src % 4 == 0 && dst % 4 == 0 && n % 4 == 0
    then rep_movs 4 (n / 4) dst src m
    else rep_movs 1 n dst src m

unfoldable pub memcpy : (dst src n : ℕ) → Memory → Memory
unfolding memmove
memcpy = memmove

-- The versions in C: `*p++ = c`, `*d++ = *s++` and `*--d = *--s`.
unfoldable pub set_bytes : (n p c : ℕ) → Memory → Memory
set_bytes zero p c m = m
set_bytes (suc n) p c m = set_bytes n (add32 p 1) c (update m p (c % 256))

unfoldable pub move_up : (n d s : ℕ) → Memory → Memory
move_up zero d s m = m
move_up (suc n) d s m = move_up n (add32 d 1) (add32 s 1) (update m d (m s))

unfoldable pub move_down : (n d s : ℕ) → Memory → Memory
move_down zero d s m = m
move_down (suc n) d s m = move_down n (sub32 d 1) (sub32 s 1) (update m (sub32 d 1) (m (sub32 s 1)))

-- `m` is an `int`.
unfoldable pub memset_portable : (v c n : ℕ) → Memory → Memory
unfolding set_bytes
memset_portable v c n m = set_bytes (if is_neg n then 0 else n) v c m

unfoldable pub memmove_portable : (dst src n : ℕ) → Memory → Memory
unfolding move_up move_down
memmove_portable dst src n m =
    if ltb src dst && ltb dst (add32 src n)
    then move_down n (add32 dst n) (add32 src n) m
    else move_up n dst src m
