-- ===== src/Kernel/Monitor.antt =====
-- The command parser of kern/monitor.c. A buffer is the bytes up to the end of its object, and a
-- pointer into it an offset.
pub mod Words
pub mod Arguments
use csdi_jos.Common.{
  ℕ, zero, suc, ◌+◌, ◌-◌, Bool, not, ◌&&◌, ◌||◌, ◌==◌, length, Option, none, some, List, [], ◌∷◌,
  ◌++◌, if◌then◌else◌,
}
use mathlib.Core.Option
use csdi_jos.Library.Strings.{Bytes, strcmp}

-- `strchr(WHITESPACE, c)` for a character that is not 0.
abbrev pub is_space : ℕ → Bool
is_space c = c == 9 || c == 13 || c == 10 || c == 32

abbrev pub max_args : ℕ
max_args = 16

-- `while (*buf && strchr(WHITESPACE, *buf)) *buf++ = 0`: the bytes passed, which are 0 now, and what
-- is left; `none` where no 0 ends the buffer.
unfoldable pub gobble : Bytes → Option (Bytes × Bytes)
gobble [] = none
gobble (c ∷ s) =
    let rest = gobble s in
    if not (c == 0) && is_space c then Option.map (λ r. (0 ∷ r.0, r.1)) rest else some ([], c ∷ s)

-- `while (*buf && !strchr(WHITESPACE, *buf)) buf++`
unfoldable pub scan : Bytes → Option (Bytes × Bytes)
scan [] = none
scan (c ∷ s) =
    let rest = scan s in
    if not (c == 0) && not (is_space c)
    then Option.map (λ r. (c ∷ r.0, r.1)) rest
    else some ([], c ∷ s)

-- How the parser ends: with the offsets of the arguments and the buffer, with too many arguments,
-- beyond the buffer, or out of fuel.
pub data Parse : Type 0 where
  parsed : List ℕ → Bytes → Parse
  too_many stray no_fuel : Parse

-- The argument that `scan` has passed, and the rounds that follow.
abbrev pub take_word :
    (rounds : Bytes → Bytes → List ℕ → Parse)
    → (at : Bytes) → (argv : List ℕ) → Option (Bytes × Bytes)
    → Parse
take_word rounds at argv none = stray
take_word rounds at argv (some (word, left)) = rounds (at ++ word) left (argv ++ (length at ∷ []))

-- Behind the white space: the end, or an argument and the rounds that follow.
unfoldable pub take_arg :
    (rounds : Bytes → Bytes → List ℕ → Parse) → (at left : Bytes) → (argv : List ℕ) → Parse
unfolding scan
take_arg rounds at [] argv = stray
take_arg rounds at (c ∷ s) argv =
    if c == 0
    then parsed argv (at ++ (c ∷ s))
    else if length argv == max_args - 1
    then too_many
    else take_word rounds at argv (scan (c ∷ s))

-- The loop, with the bytes before `buf`, those from it on, and the arguments so far.
unfoldable pub parse_loop : (fuel : ℕ) → (before buf : Bytes) → (argv : List ℕ) → Parse
unfolding gobble take_arg
parse_loop zero before buf argv = no_fuel
parse_loop (suc fuel) before buf argv = elim (gobble buf) [
  | none ↦ stray
  | some (zeros, left) ↦ take_arg (parse_loop fuel) (before ++ zeros) left argv
]

-- Every round but the last takes an argument.
unfoldable pub parse_args : Bytes → Parse
unfolding parse_loop
parse_args buf = parse_loop (suc max_args) [] buf []

abbrev pub drop : ℕ → Bytes → Bytes
drop zero s = s
drop (suc n) [] = []
drop (suc n) (c ∷ s) = drop n s

-- The loop over the commands: the number of the one with the name; `none` for a read beyond a string.
unfoldable pub find_command : List Bytes → (name : Bytes) → (i : ℕ) → Option (Option ℕ)
unfolding strcmp
find_command [] name i = some none
find_command (command ∷ commands) name i = elim (strcmp name command) [
  | none ↦ none
  | some r ↦ let rest = find_command commands name (suc i) in if r == 0 then some (some i) else rest
]

-- What `runcmd` comes to: nothing, a complaint, or a command with its arguments.
pub data Ran : Type 0 where
  nothing unknown complained beyond : Ran
  command : (i : ℕ) → (argv : List ℕ) → (buf : Bytes) → Ran

unfoldable pub run_command : List Bytes → List ℕ → Bytes → Ran
unfolding find_command
run_command commands [] buf = nothing
run_command commands (name ∷ argv) buf = elim (find_command commands (drop name buf) 0) [
  | none ↦ beyond
  | some none ↦ unknown
  | some (some i) ↦ command i (name ∷ argv) buf
]

-- The commands' names are an argument.
unfoldable pub runcmd : List Bytes → (buf : Bytes) → Ran
unfolding parse_args run_command
runcmd commands buf = elim (parse_args buf) [
  | parsed argv buf' ↦ run_command commands argv buf'
  | too_many ↦ complained
  | stray ↦ beyond
  | no_fuel ↦ beyond
]
