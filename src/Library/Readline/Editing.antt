-- ===== src/Library/Readline/Editing.antt =====
-- The line that `readline` returns is the one that a stack of characters gives.
use csdi_jos.Common.{
  ℕ, suc, ◌%◌, ◌≤◌, ◌≡◌, ◌≢◌, refl, sym, ap, subst, Bool, Bool-cases, inl, inr, true, false, ◌&&◌,
  ◌||◌, ◌==◌, ltb, leb, length, Option, some, List, [], ◌∷◌, ◌++◌, All, update, if◌then◌else◌,
  arith,
}
use csdi_jos.Kernel.State.Layout.{is_neg}
use csdi_jos.Library.Strings.{Bytes}
use csdi_jos.Library.Readline.{
  Typing, Read, line, failed, waiting, stray, erases, stores, ends_line, take_key, readline_loop,
  show_prompt, readline,
}

-- A key on a text, of which the latest character is first: it is taken back, or added if the line
-- has room.
abbrev pub edit : (key : ℕ) → List ℕ → List ℕ
edit key [] = if key == 8 || key == 127 then [] else if leb 32 key then key ∷ [] else []
edit key (c ∷ text) =
    if key == 8 || key == 127
    then text
    else if leb 32 key && ltb (suc (length text)) 1023
    then key ∷ c ∷ text
    else c ∷ text

abbrev pub edits : (keys text : List ℕ) → List ℕ
edits [] text = text
edits (key ∷ keys) text = edits keys (edit key text)

-- No delete comes on an empty text.
abbrev pub NoEmptyDelete : (keys text : List ℕ) → Type 0
NoEmptyDelete [] text = Unit
NoEmptyDelete (key ∷ keys) text = (text ≡ [] → key ≢ 127) × NoEmptyDelete keys (edit key text)

-- The bytes of the buffer are the text's.
abbrev pub Stored : (ℕ → ℕ) → List ℕ → Type 0
Stored buf [] = Unit
Stored buf (c ∷ text) = (buf (length text) ≡ c % 256) × Stored buf text

-- The buffer holds the text with a 0 behind it.
abbrev pub LineIs : List ℕ → Read → Type 0
LineIs text (line buf out) = (length text ≤ 1023) × (buf (length text) ≡ 0) × Stored buf text
LineIs text (failed out) = ⊥
LineIs text (waiting l) = ⊥
LineIs text stray = ⊥

-- A character that goes on with the line.
abbrev pub Goes : ℕ → Type 0
Goes c = (is_neg c ≡ false) × (ends_line c ≡ false)

Stored-update :
    (buf : ℕ → ℕ) (text : List ℕ) (n v : ℕ)
    → length text ≤ n
    → Stored buf text
    → Stored (update buf n v) text
Stored-update buf [] n v few h = tt
Stored-update buf (c ∷ text) n v few (at, h) =
    (ground (arith, at, few), Stored-update buf text n v (omega (arith, few)) h)

-- Between two rounds the buffer holds the text.
record Holds (l : Typing) (text : List ℕ) : Type 0 where
  position : l.i ≡ length text
  room : length text ≤ 1023
  stored : Stored l.buf text

no_erase : (c i : ℕ) → ends_line c ≡ true → erases c i ≡ false
no_erase c i end = ground (arith, end)

no_store : (c i : ℕ) → ends_line c ≡ true → stores c i ≡ false
no_store c i end = ground (arith, end)

edit-erases : (c d i : ℕ) (text : List ℕ) → erases c i ≡ true → edit c (d ∷ text) ≡ text
edit-erases c d i text e = ground (arith, e)

erases_nothing : (c : ℕ) → erases c 0 ≡ false
erases_nothing c = ground arith

edit-stores :
    (c : ℕ) (text : List ℕ)
    → (text ≡ [] → c ≢ 127)
    → erases c (length text) ≡ false
    → stores c (length text) ≡ true
    → edit c text ≡ c ∷ text
edit-stores c [] other e s = let other' : c ≢ 127 = other refl in ground (arith, e, s, other')
edit-stores c (d ∷ text) other e s = ground (arith, e, s)

edit-keeps :
    (c : ℕ) (text : List ℕ)
    → erases c (length text) ≡ false
    → stores c (length text) ≡ false
    → edit c text ≡ text
edit-keeps c [] e s = ground (arith, e, s)
edit-keeps c (d ∷ text) e s = ground (arith, e, s)

module _ (rounds : Typing → Read) (echoing : Bool) (c : ℕ) (l : Typing) where
  take_key_end :
      (text : List ℕ)
      → is_neg c ≡ false
      → ends_line c ≡ true
      → Holds l text
      → LineIs text (take_key rounds echoing c l)
  unfolding take_key
  take_key_end text pos end h =
      rw (pos, no_erase c l.i end, no_store c l.i end, end)
        (
          h.room,
          ground (arith, h.position),
          Stored-update l.buf text l.i 0 (omega (arith, h.position)) h.stored,
        )

  module _ (P : Read → Type 0) (go : Goes c) where
    take_key_erase :
        (text : List ℕ)
        → erases c l.i ≡ true
        → Holds l text
        → ((l' : Typing) → Holds l' (edit c text) → P (rounds l'))
        → P (take_key rounds echoing c l)
    unfolding take_key
    take_key_erase [] e h next =
        absurd (ground (arith, e, ap (erases c) h.position, erases_nothing c))
    take_key_erase (d ∷ text) e h next =
        rw (go.0, e)
          (next _ (
            subst (Holds _) (sym (edit-erases c d l.i text e)) (record {
              position = omega (arith, h.position);
              room = omega (arith, h.room);
              stored = h.stored.1;
            })))

    take_key_keep :
        (text : List ℕ)
        → (text ≡ [] → c ≢ 127)
        → erases c l.i ≡ false
        → Holds l text
        → ((l' : Typing) → Holds l' (edit c text) → P (rounds l'))
        → P (take_key rounds echoing c l)
    unfolding take_key
    take_key_keep text other e h next =
        let e' : erases c (length text) ≡ false = subst (λ i. erases c i ≡ false) h.position e in
        elim (Bool-cases (stores c l.i)) [
          | inl s ↦
              let s' : stores c (length text) ≡ true =
                subst (λ i. stores c i ≡ true) h.position s in
              rw (go.0, e, s)
                (next _ (
                  subst (Holds _) (sym (edit-stores c text other e' s')) (record {
                    position = omega (arith, h.position);
                    room = ground (arith, s');
                    stored = (
                      ground (arith, h.position),
                      Stored-update l.buf text l.i (c % 256) (omega (arith, h.position)) h.stored,
                    );
                  })))
          | inr s ↦
              let s' : stores c (length text) ≡ false =
                subst (λ i. stores c i ≡ false) h.position s in
              rw (go.0, e, s, go.1) (next l (subst (Holds l) (sym (edit-keeps c text e' s')) h))
        ]

    take_key_on :
        (text : List ℕ)
        → (text ≡ [] → c ≢ 127)
        → Holds l text
        → ((l' : Typing) → Holds l' (edit c text) → P (rounds l'))
        → P (take_key rounds echoing c l)
    take_key_on text other h next = elim (Bool-cases (erases c l.i)) [
      | inl e ↦ take_key_erase text e h next
      | inr e ↦ take_key_keep text other e h next
    ]

readline_loop-LineIs :
    (echoing : Bool) (keys : List ℕ) (end : ℕ) (rest : List ℕ) (l : Typing) (text : List ℕ)
    → All Goes keys
    → NoEmptyDelete keys text
    → is_neg end ≡ false
    → ends_line end ≡ true
    → Holds l text
    → LineIs (edits keys text) (readline_loop echoing (keys ++ (end ∷ rest)) l)
unfolding readline_loop
readline_loop-LineIs echoing [] end rest l text go _ pos ends h =
    take_key_end (readline_loop echoing rest) echoing end l text pos ends h
readline_loop-LineIs echoing (key ∷ keys) end rest l text (go, goes) (other, others) pos ends h =
    take_key_on (readline_loop echoing (keys ++ (end ∷ rest))) echoing key l
      (LineIs (edits keys (edit key text))) go text other h
      λ l' h'. readline_loop-LineIs echoing keys end rest l' (edit key text) goes others pos ends h'

-- The text of a line is a stack of characters: a backspace or a delete takes the latest back if
-- there is one, any other key from a space on is added if the text has less than 1023 characters,
-- and all other keys are passed over. For a prompt that can be printed, whatever the buffer holds,
-- and keys that are neither errors nor end a line, with no delete on an empty text, followed by a
-- line feed or a carriage return, `readline` returns with the text's bytes at the front of the
-- buffer and a 0 behind them, and the text has at most 1023 characters.
pub readline-LineIs :
    (prompt : Option Bytes) (printed : ℕ × List ℕ) (echoing : Bool) (keys : List ℕ) (end : ℕ)
    (rest : List ℕ) (buf : ℕ → ℕ)
    → show_prompt prompt ≡ some printed
    → All Goes keys
    → NoEmptyDelete keys []
    → is_neg end ≡ false
    → ends_line end ≡ true
    → LineIs (edits keys []) (readline prompt echoing (keys ++ (end ∷ rest)) buf)
unfolding readline
readline-LineIs prompt printed echoing keys end rest buf shown goes others pos ends =
    rw (shown, readline)
      (readline_loop-LineIs echoing keys end rest (record { buf = buf; i = 0; out = printed.1 }) []
        goes others pos ends (record { position = refl; room = omega arith; stored = tt }))
