-- ===== src/Kernel/Console.antt =====
-- The console's input buffer in kern/console.c.
pub mod Buffer
use csdi_jos.Common.{ℕ, ◌+◌, ◌==◌, List, [], ◌∷◌, if◌then◌else◌, update}
use csdi_jos.Kernel.State.{Cons, ret, K}

abbrev pub consbufsize : ℕ
consbufsize = 512

-- A position moved on by one, round the end of the buffer.
abbrev pub advance : ℕ → ℕ
advance pos = if pos + 1 == consbufsize then 0 else pos + 1

-- The characters that the device's procedure answers until it answers -1.
unfoldable pub cons_intr : List ℕ → Cons → Cons
cons_intr [] cons = cons
cons_intr (c ∷ cs) cons = cons_intr cs (
    if c == 0
    then cons
    else record cons { buf = update cons.buf cons.wpos c; wpos = advance cons.wpos })

-- `cons_getc` after it has polled the devices.
unfoldable pub take_char : Cons → ℕ × Cons
take_char cons =
    if cons.rpos == cons.wpos
    then (0, cons)
    else (cons.buf cons.rpos, record cons { rpos = advance cons.rpos })

unfoldable pub cons_getc : K ℕ
unfolding cons_intr take_char
cons_getc k =
    let taken = take_char (cons_intr k.polled k.cons) in
    ret taken.0 (record k { cons = taken.1; polled = [] })
