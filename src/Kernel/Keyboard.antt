-- ===== src/Kernel/Keyboard.antt =====
-- The keyboard and the serial port of lab4/kern/console.c, on the bytes that they have. `none` is the
-- answer -1. The bits of `shift` are Booleans.
pub mod Strokes
use csdi_jos.Common.{
  ℕ, zero, suc, ◌+◌, ◌-◌, ◌%◌, Bool, true, false, not, ◌&&◌, ◌||◌, ◌==◌, ltb, leb, Option, none,
  some, List, [], ◌∷◌, if◌then◌else◌,
}
use csdi_jos.Kernel.State.{Cons}
use csdi_jos.Kernel.Console.{cons_intr}
use csdi_jos.Kernel.Display.{Crt, with_attribute, scroll, cga_putc}

-- `shift`
pub record Modifiers : Type 0 where
  pub shift : Bool
  pub ctl : Bool
  pub alt : Bool
  pub capslock : Bool
  pub numlock : Bool
  pub scrolllock : Bool
  pub e0esc : Bool

-- An entry of a table, 0 beyond the list, and the entries that are given by their index.
abbrev pub entry : (table : List ℕ) → ℕ → ℕ
entry [] i = 0
entry (c ∷ table) zero = c
entry (c ∷ table) (suc i) = entry table i

-- The keys with an index in `normalmap` and `shiftmap`, and in `ctlmap`.
abbrev pub special_key : (code : ℕ) → ℕ
special_key code =
    if code == 0xC7
    then 224
    else if code == 0x9C
    then 10
    else if code == 0xB5
    then 47
    else if code == 0xC8
    then 226
    else if code == 0xC9
    then 230
    else if code == 0xCB
    then 228
    else if code == 0xCD
    then 229
    else if code == 0xCF
    then 225
    else if code == 0xD0
    then 227
    else if code == 0xD1
    then 231
    else if code == 0xD2
    then 232
    else if code == 0xD3
    then 233
    else 0

abbrev pub special_ctl : (code : ℕ) → ℕ
special_ctl code =
    if code == 0x97
    then 224
    else if code == 0xB5
    then 239
    else if code == 0xC8
    then 226
    else if code == 0xC9
    then 230
    else if code == 0xCB
    then 228
    else if code == 0xCD
    then 229
    else if code == 0xCF
    then 225
    else if code == 0xD0
    then 227
    else if code == 0xD1
    then 231
    else if code == 0xD2
    then 232
    else if code == 0xD3
    then 233
    else 0

abbrev pub normal_keys : List ℕ
normal_keys =
    0 ∷ 27 ∷ 49 ∷ 50 ∷ 51 ∷ 52 ∷ 53 ∷ 54 ∷ 55 ∷ 56 ∷ 57 ∷ 48 ∷ 45 ∷ 61 ∷ 8 ∷ 9 ∷ 113 ∷ 119 ∷ 101
    ∷ 114 ∷ 116 ∷ 121 ∷ 117 ∷ 105 ∷ 111 ∷ 112 ∷ 91 ∷ 93 ∷ 10 ∷ 0 ∷ 97 ∷ 115 ∷ 100 ∷ 102 ∷ 103 ∷ 104
    ∷ 106 ∷ 107 ∷ 108 ∷ 59 ∷ 39 ∷ 96 ∷ 0 ∷ 92 ∷ 122 ∷ 120 ∷ 99 ∷ 118 ∷ 98 ∷ 110 ∷ 109 ∷ 44 ∷ 46 ∷ 47
    ∷ 0 ∷ 42 ∷ 0 ∷ 32 ∷ 0 ∷ 0 ∷ 0 ∷ 0 ∷ 0 ∷ 0 ∷ 0 ∷ 0 ∷ 0 ∷ 0 ∷ 0 ∷ 0 ∷ 0 ∷ 55 ∷ 56 ∷ 57 ∷ 45 ∷ 52
    ∷ 53 ∷ 54 ∷ 43 ∷ 49 ∷ 50 ∷ 51 ∷ 48 ∷ 46 ∷ 0 ∷ 0 ∷ 0 ∷ 0 ∷ []

abbrev pub shifted_keys : List ℕ
shifted_keys =
    0 ∷ 27 ∷ 33 ∷ 64 ∷ 35 ∷ 36 ∷ 37 ∷ 94 ∷ 38 ∷ 42 ∷ 40 ∷ 41 ∷ 95 ∷ 43 ∷ 8 ∷ 9 ∷ 81 ∷ 87 ∷ 69 ∷ 82
    ∷ 84 ∷ 89 ∷ 85 ∷ 73 ∷ 79 ∷ 80 ∷ 123 ∷ 125 ∷ 10 ∷ 0 ∷ 65 ∷ 83 ∷ 68 ∷ 70 ∷ 71 ∷ 72 ∷ 74 ∷ 75 ∷ 76
    ∷ 58 ∷ 34 ∷ 126 ∷ 0 ∷ 124 ∷ 90 ∷ 88 ∷ 67 ∷ 86 ∷ 66 ∷ 78 ∷ 77 ∷ 60 ∷ 62 ∷ 63 ∷ 0 ∷ 42 ∷ 0 ∷ 32
    ∷ 0 ∷ 0 ∷ 0 ∷ 0 ∷ 0 ∷ 0 ∷ 0 ∷ 0 ∷ 0 ∷ 0 ∷ 0 ∷ 0 ∷ 0 ∷ 55 ∷ 56 ∷ 57 ∷ 45 ∷ 52 ∷ 53 ∷ 54 ∷ 43 ∷ 49
    ∷ 50 ∷ 51 ∷ 48 ∷ 46 ∷ 0 ∷ 0 ∷ 0 ∷ 0 ∷ []

abbrev pub control_keys : List ℕ
control_keys =
    0 ∷ 0 ∷ 0 ∷ 0 ∷ 0 ∷ 0 ∷ 0 ∷ 0 ∷ 0 ∷ 0 ∷ 0 ∷ 0 ∷ 0 ∷ 0 ∷ 0 ∷ 0 ∷ 17 ∷ 23 ∷ 5 ∷ 18 ∷ 20 ∷ 25 ∷ 21
    ∷ 9 ∷ 15 ∷ 16 ∷ 0 ∷ 0 ∷ 13 ∷ 0 ∷ 1 ∷ 19 ∷ 4 ∷ 6 ∷ 7 ∷ 8 ∷ 10 ∷ 11 ∷ 12 ∷ 0 ∷ 0 ∷ 0 ∷ 0 ∷ 28 ∷ 26
    ∷ 24 ∷ 3 ∷ 22 ∷ 2 ∷ 14 ∷ 13 ∷ 0 ∷ 0 ∷ 239 ∷ 0 ∷ 0 ∷ []

unfoldable pub normalmap : (code : ℕ) → ℕ
normalmap code = if ltb code 0x58 then entry normal_keys code else special_key code

unfoldable pub shiftmap : (code : ℕ) → ℕ
shiftmap code = if ltb code 0x58 then entry shifted_keys code else special_key code

unfoldable pub ctlmap : (code : ℕ) → ℕ
ctlmap code = if ltb code 0x38 then entry control_keys code else special_ctl code

-- `shiftcode`
abbrev pub is_shift : (code : ℕ) → Bool
is_shift code = code == 0x2a || code == 0x36

abbrev pub is_ctl : (code : ℕ) → Bool
is_ctl code = code == 0x1d || code == 0x9d

abbrev pub is_alt : (code : ℕ) → Bool
is_alt code = code == 0x38 || code == 0xb8

-- `shift &= ~(shiftcode[code] | E0ESC)`
abbrev pub release : (code : ℕ) → Modifiers → Modifiers
release code s = record s {
  shift = s.shift && not (is_shift code);
  ctl = s.ctl && not (is_ctl code);
  alt = s.alt && not (is_alt code);
  e0esc = false;
}

-- `shift |= shiftcode[code]; shift ^= togglecode[code]`
abbrev pub press : (code : ℕ) → Modifiers → Modifiers
press code s = record {
  shift = s.shift || is_shift code;
  ctl = s.ctl || is_ctl code;
  alt = s.alt || is_alt code;
  capslock = if code == 0x3a then not s.capslock else s.capslock;
  numlock = if code == 0x45 then not s.numlock else s.numlock;
  scrolllock = if code == 0x46 then not s.scrolllock else s.scrolllock;
  e0esc = false;
}

-- `charcode[shift & (CTL | SHIFT)][code]`
unfoldable pub charcode : (code : ℕ) → Modifiers → ℕ
unfolding normalmap shiftmap ctlmap
charcode code s = if s.ctl then ctlmap code else if s.shift then shiftmap code else normalmap code

-- Where the caps lock is on.
abbrev pub swap_case : ℕ → ℕ
swap_case c = if leb 97 c && leb c 122 then c - 32 else if leb 65 c && leb c 90 then c + 32 else c

-- `KEY_DEL`
abbrev pub key_del : ℕ
key_del = 0xe9

-- The character of a key, with the modifiers after it; whether the machine is reset.
unfoldable pub key_char : (code : ℕ) → Modifiers → ℕ
unfolding charcode
key_char code s = if s.capslock then swap_case (charcode code s) else charcode code s

unfoldable pub reboots : (code : ℕ) → Modifiers → Bool
unfolding key_char
reboots code s = s.ctl && s.alt && key_char code s == key_del

-- What a byte of the keyboard comes to.
pub record Keyed : Type 0 where
  pub answer : ℕ
  pub modifiers : Modifiers
  pub reset : Bool

abbrev pub press_key : (code : ℕ) → Modifiers → Keyed
press_key code s = record {
  answer = key_char code (press code s);
  modifiers = press code s;
  reset = reboots code (press code s);
}

-- `kbd_proc_data` with a byte in the keyboard's buffer.
unfoldable pub take_scancode : (code : ℕ) → Modifiers → Keyed
take_scancode code s =
    if code == 0xe0
    then record { answer = 0; modifiers = record s { e0esc = true }; reset = false }
    else if leb 0x80 code
    then record {
      answer = 0;
      modifiers = release (if s.e0esc then code else code - 0x80) s;
      reset = false;
    }
    else press_key (if s.e0esc then code + 0x80 else code) s

unfoldable pub kbd_proc_data : (buffer : Option ℕ) → Modifiers → Option Keyed
kbd_proc_data none s = none
kbd_proc_data (some code) s = some (take_scancode code s)

-- The answers until there is no byte left, and the modifiers then.
unfoldable pub kbd_answers : (scancodes : List ℕ) → Modifiers → List ℕ × Modifiers
kbd_answers [] s = ([], s)
kbd_answers (code ∷ scancodes) s =
    let k = take_scancode code s in
    let rest = kbd_answers scancodes k.modifiers in (k.answer ∷ rest.0, rest.1)

unfoldable pub kbd_intr : (scancodes : List ℕ) → Modifiers → Cons → Cons × Modifiers
unfolding kbd_answers cons_intr
kbd_intr scancodes s cons = let r = kbd_answers scancodes s in (cons_intr r.0 cons, r.1)

-- `serial_proc_data` until there is no byte.
unfoldable pub serial_intr : (exists : Bool) → (received : List ℕ) → Cons → Cons
unfolding cons_intr
serial_intr exists received cons = if exists then cons_intr received cons else cons

-- What has been sent to the serial port and to the parallel port, latest first, and the display.
pub record Outputs : Type 0 where
  pub serial : List ℕ
  pub parallel : List ℕ
  pub crt : Crt

-- The bytes are sent also where the port has not become ready.
unfoldable pub serial_putc : (c : ℕ) → Outputs → Outputs
serial_putc c o = record o { serial = (c % 256) ∷ o.serial }

unfoldable pub lpt_putc : (c : ℕ) → Outputs → Outputs
lpt_putc c o = record o { parallel = (c % 256) ∷ o.parallel }

-- `cons_putc(' ')`
unfoldable pub put_space : Outputs → Outputs
unfolding lpt_putc serial_putc cga_putc
put_space o =
    let sent = lpt_putc 32 (serial_putc 32 o) in record sent { crt = cga_putc 32 sent.crt }

-- On a tab `cga_putc` calls `cons_putc` for the spaces, which the ports get as well.
unfoldable pub cons_putc : (c : ℕ) → Outputs → Outputs
unfolding serial_putc lpt_putc put_space cga_putc scroll
cons_putc c o =
    let sent = lpt_putc c (serial_putc c o) in
    let spaced = put_space (put_space (put_space (put_space (put_space sent)))) in
    if with_attribute c % 256 == 9
    then record spaced { crt = scroll spaced.crt }
    else record sent { crt = cga_putc c sent.crt }
