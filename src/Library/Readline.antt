-- ===== src/Library/Readline.antt =====
-- `readline` of lab4/lib/readline.c, on the list of the characters that `getchar` returns.
pub mod Editing
use csdi_jos.Common.{
  ℕ, ◌+◌, ◌-◌, ◌%◌, Bool, ◌&&◌, ◌||◌, ◌==◌, ltb, leb, Option, none, some, List, [], ◌∷◌, ◌++◌,
  update, if◌then◌else◌,
}
use csdi_jos.Kernel.State.Layout.{is_neg}
use csdi_jos.Library.Strings.{Bytes}
use csdi_jos.Library.Formats.{console_vcprintf}

abbrev pub buflen : ℕ
buflen = 1024

-- The buffer, the position in it, and what is printed.
pub record Typing : Type 0 where
  pub buf : ℕ → ℕ
  pub i : ℕ
  pub out : List ℕ

-- How it ends: with the buffer, with null, waiting for a character, or beyond a string.
pub data Read : Type 0 where
  line : (buf : ℕ → ℕ) → (out : List ℕ) → Read
  failed : (out : List ℕ) → Read
  waiting : Typing → Read
  stray : Read

abbrev pub erases : (c i : ℕ) → Bool
erases c i = (c == 8 || c == 127) && ltb 0 i

abbrev pub stores : (c i : ℕ) → Bool
stores c i = leb 32 c && ltb i (buflen - 1)

abbrev pub ends_line : (c : ℕ) → Bool
ends_line c = c == 10 || c == 13

-- `cputchar` where it echoes.
abbrev pub echo : (echoing : Bool) → (c : ℕ) → List ℕ → List ℕ
echo echoing c out = if echoing then out ++ (c ∷ []) else out

-- "read error: %e\n"
abbrev pub read_error : Bytes
read_error =
    114 ∷ 101 ∷ 97 ∷ 100 ∷ 32 ∷ 101 ∷ 114 ∷ 114 ∷ 111 ∷ 114 ∷ 58 ∷ 32 ∷ 37 ∷ 101 ∷ 10 ∷ 0 ∷ []

abbrev pub fail : (c : ℕ) → (out : List ℕ) → Read
fail c out = elim (console_vcprintf (λ a. []) read_error (c ∷ [])) [
  | none ↦ stray
  | some (n, text) ↦ failed (out ++ text)
]

-- A round of the loop, with the rounds that follow.
unfoldable pub take_key : (rounds : Typing → Read) → (echoing : Bool) → (c : ℕ) → Typing → Read
unfolding console_vcprintf
take_key rounds echoing c l =
    if is_neg c
    then fail c l.out
    else if erases c l.i
    then rounds (record l { i = l.i - 1; out = echo echoing 8 l.out })
    else if stores c l.i
    then rounds
        (record { buf = update l.buf l.i (c % 256); i = l.i + 1; out = echo echoing c l.out })
    else if ends_line c
    then line (update l.buf l.i 0) (echo echoing 10 l.out)
    else rounds l

unfoldable pub readline_loop : (echoing : Bool) → (input : List ℕ) → Typing → Read
unfolding take_key
readline_loop echoing [] l = waiting l
readline_loop echoing (c ∷ input) l = take_key (readline_loop echoing input) echoing c l

-- "%s"
abbrev pub prompt_format : Bytes
prompt_format = 37 ∷ 115 ∷ 0 ∷ []

-- What is printed of the prompt, if there is one.
abbrev pub show_prompt : Option Bytes → Option (ℕ × List ℕ)
show_prompt none = some (0, [])
show_prompt (some prompt) = console_vcprintf (λ a. prompt) prompt_format (1 ∷ [])

unfoldable pub readline :
    (prompt : Option Bytes) → (echoing : Bool) → (input : List ℕ) → (ℕ → ℕ) → Read
unfolding console_vcprintf readline_loop
readline prompt echoing input buf = elim (show_prompt prompt) [
  | none ↦ stray
  | some (n, out) ↦ readline_loop echoing input (record { buf = buf; i = 0; out = out })
]
