-- ===== src/Kernel/Keyboard/Strokes.antt =====
-- What the console gets from keys that are pressed and released.
use csdi_jos.Common.{
  ℕ, ◌+◌, ◌-◌, ◌<◌, ◌≡◌, refl, ap, ◌∙◌, Bool, true, false, ◌==◌, leb, List, [], ◌∷◌, ◌++◌, All, map,
  if◌then◌else◌, arith,
}
use csdi_jos.Kernel.Console.Buffer.{typed}
use csdi_jos.Kernel.Keyboard.{
  Modifiers, is_shift, is_ctl, is_alt, release, press, key_char, reboots, Keyed, press_key,
  take_scancode, kbd_answers,
}

-- A key that changes no modifier.
abbrev pub IsPlain : ℕ → Type 0
IsPlain k =
    (k < 0x60)
    × (is_shift k ≡ false)
    × (is_ctl k ≡ false)
    × (is_alt k ≡ false)
    × ((k == 0x3a) ≡ false)
    × ((k == 0x45) ≡ false)
    × ((k == 0x46) ≡ false)

-- The bytes of keys that are pressed and released, one after the other.
abbrev pub strokes : List ℕ → List ℕ
strokes [] = []
strokes (k ∷ ks) = k ∷ (k + 0x80) ∷ strokes ks

press_plain : (k : ℕ) (s : Modifiers) → s.e0esc ≡ false → IsPlain k → press k s ≡ s
press_plain k s up p = ground arith

release_plain : (k : ℕ) (s : Modifiers) → s.e0esc ≡ false → IsPlain k → release k s ≡ s
release_plain k s up p = ground arith

take_scancode_low :
    (k : ℕ) (s : Modifiers) → k < 0x80 → s.e0esc ≡ false → take_scancode k s ≡ press_key k s
unfolding take_scancode
take_scancode_low k s lt up =
    let code : (k == 0xe0) ≡ false = ground arith in
    let down : leb 0x80 k ≡ false = ground arith in
    rw (code, down) (ap (λ (b : Bool). press_key (if b then k + 0x80 else k) s) up)

take_scancode_high :
    (k : ℕ) (s : Modifiers)
    → k < 0x60
    → s.e0esc ≡ false
    → take_scancode (k + 0x80) s ≡ record { answer = 0; modifiers = release k s; reset = false }
unfolding take_scancode
take_scancode_high k s lt up =
    let code : (k + 0x80 == 0xe0) ≡ false = ground arith in
    let released : leb 0x80 (k + 0x80) ≡ true = ground arith in
    let low : k + 0x80 - 0x80 ≡ k = omega arith in
    rw (code, released, low)
      (ap
        (λ (b : Bool).
          let k' : Keyed = record {
            answer = 0;
            modifiers = release (if b then k + 0x80 else k) s;
            reset = false;
          } in
          k')
        up)

take_scancode-press :
    (k : ℕ) (s : Modifiers)
    → s.e0esc ≡ false
    → IsPlain k
    → take_scancode k s ≡ record { answer = key_char k s; modifiers = s; reset = reboots k s }
take_scancode-press k s up p =
    take_scancode_low k s (omega arith) up
    ∙ ap
        (λ (t : Modifiers).
          let k' : Keyed = record { answer = key_char k t; modifiers = t; reset = reboots k t } in
          k')
        (press_plain k s up p)

take_scancode-release :
    (k : ℕ) (s : Modifiers)
    → s.e0esc ≡ false
    → IsPlain k
    → take_scancode (k + 0x80) s ≡ record { answer = 0; modifiers = s; reset = false }
take_scancode-release k s up p =
    take_scancode_high k s (omega arith) up
    ∙ ap
        (λ (t : Modifiers).
          let k' : Keyed = record { answer = 0; modifiers = t; reset = false } in k')
        (release_plain k s up p)

-- One byte, with what it comes to.
kbd_answers-cons :
    (x : ℕ) (xs : List ℕ) (s : Modifiers) {k : Keyed}
    → take_scancode x s ≡ k
    → kbd_answers (x ∷ xs) s
      ≡ (k.answer ∷ (kbd_answers xs k.modifiers).0, (kbd_answers xs k.modifiers).1)
unfolding kbd_answers
kbd_answers-cons x xs s e =
    ap
      (λ (k : Keyed).
        let r : List ℕ × Modifiers =
          (k.answer ∷ (kbd_answers xs k.modifiers).0, (kbd_answers xs k.modifiers).1) in
        r)
      e

stroke :
    (k : ℕ) (xs : List ℕ) (s : Modifiers)
    → s.e0esc ≡ false
    → IsPlain k
    → kbd_answers (k ∷ (k + 0x80) ∷ xs) s
      ≡ (key_char k s ∷ 0 ∷ (kbd_answers xs s).0, (kbd_answers xs s).1)
stroke k xs s up p =
    kbd_answers-cons k ((k + 0x80) ∷ xs) s (take_scancode-press k s up p)
    ∙ ap (λ (r : List ℕ × Modifiers). let r' : List ℕ × Modifiers = (key_char k s ∷ r.0, r.1) in r')
        (kbd_answers-cons (k + 0x80) xs s (take_scancode-release k s up p))

pub kbd_answers-strokes :
    (ks tail : List ℕ) (s : Modifiers)
    → s.e0esc ≡ false
    → All IsPlain ks
    → (typed (kbd_answers (strokes ks ++ tail) s).0
        ≡ typed (map (λ k. key_char k s) ks) ++ typed (kbd_answers tail s).0)
      × ((kbd_answers (strokes ks ++ tail) s).1 ≡ (kbd_answers tail s).1)
kbd_answers-strokes [] tail s up plain = (refl, refl)
kbd_answers-strokes (k ∷ ks) tail s up (p, ps) =
    let (chars, same) = kbd_answers-strokes ks tail s up ps in
    rw (stroke k (strokes ks ++ tail) s up p) (ground (arith, chars), same)

-- Shift is pressed, the keys, and shift is released.
abbrev pub with_shift : (h : ℕ) (ks : List ℕ) → List ℕ
with_shift h ks = h ∷ (strokes ks ++ ((h + 0x80) ∷ []))
