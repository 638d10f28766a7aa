-- ===== src/Kernel/Monitor/Arguments.antt =====
-- The arguments that the parser finds are the words of the text.
use csdi_jos.Common.{
  ℕ, zero, suc, ◌+◌, ◌-◌, ◌≤◌, ◌<◌, ◌≡◌, ◌≢◌, ◌⊎◌, inl, inr, refl, sym, ap, ◌∙◌, subst, true, false,
  ◌==◌, ==_ne, eq_of_==, ne_of_==, Bool-cases, length, length-append, some, List, [], ◌∷◌, ◌++◌,
  append_assoc, append-nil, All, if◌then◌else◌, arith,
}
use csdi_jos.Library.Strings.{Bytes}
use csdi_jos.Kernel.Monitor.{
  max_args, scan, Parse, parsed, too_many, take_word, take_arg, parse_loop, parse_args, drop,
}
use csdi_jos.Kernel.Monitor.Words.{
  starts, words, c_string, Ended, first_byte, Gobbled, gobble-Gobbled, Scanned, scan-Scanned,
  starts_parts, Ended-later,
}

-- The strings at the offsets are the words.
abbrev pub Strings : Bytes → List ℕ → List Bytes → Type 0
Strings buf [] [] = Unit
Strings buf [] (w ∷ ws) = ⊥
Strings buf (o ∷ os) [] = ⊥
Strings buf (o ∷ os) (w ∷ ws) = (c_string (drop o buf) ≡ w) × Strings buf os ws

drop-length : (a b : Bytes) → drop (length a) (a ++ b) ≡ b
drop-length [] b = refl
drop-length (c ∷ a) b = drop-length a b

c_string-solid : (w t : Bytes) → All (λ c. c ≢ 0) w → c_string (w ++ (0 ∷ t)) ≡ w
c_string-solid [] t h = refl
c_string-solid (c ∷ w) t h = rw (==_ne c 0 h.0, c_string-solid w t h.1) refl

-- What the loop comes to, from `buf` behind `before` with the arguments so far.
abbrev pub Takes : (before buf : Bytes) (argv : List ℕ) → Parse → Type 0
Takes before buf argv o =
    ((15 < length argv + length (words buf)) × (o ≡ too_many))
    ⊎ ((os : List ℕ) × (tail : Bytes) × (o ≡ parsed (argv ++ os) (before ++ tail))
        × (length argv + length (words buf) ≤ 15)
        × Strings (before ++ tail) os (words buf)
        × (starts buf ≡ false → (t : Bytes) × (tail ≡ 0 ∷ t)))

leading_zero :
    (zeros left y x : Bytes)
    → starts left ≡ true
    → zeros ++ left ≡ 0 ∷ x
    → (t : Bytes) × (zeros ++ y ≡ 0 ∷ t)
leading_zero [] left y x begins e = absurd (ground (arith, sym begins ∙ ap starts e))
leading_zero (z ∷ zeros) left y x begins e =
    (zeros ++ y, ap (λ d. d ∷ (zeros ++ y)) (ap first_byte e))

module _ (before buf zeros left : Bytes) (argv : List ℕ) (g : Gobbled buf zeros left) where
  -- The text ends.
  taken_none :
      (s : Bytes)
      → left ≡ 0 ∷ s
      → length argv ≤ 15
      → Takes before buf argv (parsed argv ((before ++ zeros) ++ left))
  taken_none s at few =
      let empty : words buf ≡ [] = sym g.same ∙ ap words at in
      rw empty (
        inr (
          [],
          zeros ++ left,
          rw (append-nil argv, append_assoc before zeros left) refl,
          omega (arith, few),
          tt,
          λ e. g.first e,
        ))

  module _ (word left' : Bytes) (r : Scanned left word left') where
    abbrev at : Bytes
    at = before ++ zeros

    one_more :
        length argv + length (words buf) ≡ length (argv ++ (length at ∷ [])) + length (words left')
    one_more =
        ap (λ ws. length argv + length ws) (sym g.same ∙ r.split)
        ∙ omega (arith, length-append argv (length at ∷ []))

    -- An argument, before those of the rounds that follow.
    taken_more :
        (o : Parse)
        → starts left ≡ true
        → Takes (at ++ word) left' (argv ++ (length at ∷ [])) o
        → Takes before buf argv o
    taken_more o begins (inl (many, result)) = inl (omega (arith, many, one_more), result)
    taken_more o begins (inr (os, tail, result, few, strings, first)) =
        let (t, tail_zero) = first r.behind in
        let whole : (at ++ word) ++ tail ≡ before ++ (zeros ++ (word ++ tail)) =
          append_assoc at word tail ∙ append_assoc before zeros (word ++ tail) in
        let string : c_string (drop (length at) (before ++ (zeros ++ (word ++ tail)))) ≡ word =
          ap (λ b. c_string (drop (length at) b)) (sym (append_assoc before zeros (word ++ tail)))
          ∙ ap c_string (drop-length at (word ++ tail))
          ∙ ap (λ e. c_string (word ++ e)) tail_zero
          ∙ c_string-solid word t r.solid in
        inr (
          length at ∷ os,
          zeros ++ (word ++ tail),
          result
              ∙ ap (λ a. parsed a ((at ++ word) ++ tail)) (append_assoc argv (length at ∷ []) os)
              ∙ ap (parsed (argv ++ (length at ∷ os))) whole,
          omega (arith, few, one_more),
          subst (Strings (before ++ (zeros ++ (word ++ tail))) (length at ∷ os))
              (sym (sym g.same ∙ r.split))
              (string, subst (λ b. Strings b os (words left')) whole strings),
          λ e.
              let (x, zero_first) = g.first e in
              leading_zero zeros left (word ++ tail) x begins zero_first,
        )

take_arg_word :
    (rounds : Bytes → Bytes → List ℕ → Parse) (at : Bytes) (c : ℕ) (s : Bytes) (argv : List ℕ)
    (word left : Bytes)
    → (c == 0) ≡ false
    → (length argv == max_args - 1) ≡ false
    → scan (c ∷ s) ≡ some (word, left)
    → take_arg rounds at (c ∷ s) argv ≡ rounds (at ++ word) left (argv ++ (length at ∷ []))
unfolding take_arg
take_arg_word rounds at c s argv word left solid room scanned =
    let taken = take_word rounds at argv (scan (c ∷ s)) in
    let others : Parse = if length argv == max_args - 1 then too_many else taken in
    ap (λ b. if b then parsed argv (at ++ (c ∷ s)) else others) solid
    ∙ ap (λ b. if b then too_many else taken) room
    ∙ ap (take_word rounds at argv) scanned

take_arg-Takes :
    (before buf zeros left : Bytes) (argv : List ℕ) (rounds : Bytes → Bytes → List ℕ → Parse)
    → Gobbled buf zeros left
    → length argv ≤ 15
    → ((at left' : Bytes) (argv' : List ℕ)
        → Ended left'
        → length argv' ≡ suc (length argv)
        → length argv' ≤ 15
        → Takes at left' argv' (rounds at left' argv'))
    → Takes before buf argv (take_arg rounds (before ++ zeros) left argv)
unfolding take_arg
take_arg-Takes before buf zeros [] argv rounds g few more = absurd g.ended
take_arg-Takes before buf zeros (c ∷ s) argv rounds g few more = elim g.stops [
  | inr (s', e) ↦
      rw (subst (λ d. (d == 0) ≡ true) (sym (ap first_byte e)) refl)
        (taken_none before buf zeros (c ∷ s) argv g s' e few)
  | inl begins ↦
      let (solid, no_space) = starts_parts c s begins in
      let (word, left', r) = scan-Scanned c s (Ended-later c s solid g.ended) begins in
      elim (Bool-cases (length argv == max_args - 1)) [
        | inl full ↦
            rw (solid, full)
              (inl (
                omega (
                  arith,
                  eq_of_== (length argv) 15 full,
                  ap (λ (ws : List Bytes). length ws) (sym g.same ∙ r.split),
                ),
                refl,
              ))
        | inr room ↦
            let longer : length (argv ++ (length (before ++ zeros) ∷ [])) ≡ suc (length argv) =
              length-append argv (length (before ++ zeros) ∷ []) ∙ omega arith in
            let next =
              more ((before ++ zeros) ++ word) left' (argv ++ (length (before ++ zeros) ∷ []))
                r.ended longer (omega (arith, longer, few, ne_of_== (length argv) 15 room)) in
            subst (Takes before buf argv)
              (sym (take_arg_word rounds (before ++ zeros) c s argv word left' solid room r.result))
              (taken_more before buf zeros (c ∷ s) argv g word left' r
                (rounds ((before ++ zeros) ++ word) left' (argv ++ (length (before ++ zeros) ∷ [])))
                begins next)
      ]
]

parse_loop-Takes :
    (fuel : ℕ) (before buf : Bytes) (argv : List ℕ)
    → Ended buf
    → fuel + length argv ≡ 17
    → length argv ≤ 15
    → Takes before buf argv (parse_loop fuel before buf argv)
unfolding parse_loop
parse_loop-Takes zero before buf argv ends fuels few = absurd (omega (arith, fuels, few))
parse_loop-Takes (suc fuel) before buf argv ends fuels few =
    let (zeros, left, g) = gobble-Gobbled buf ends in
    rw (parse_loop, g.result)
      (take_arg-Takes before buf zeros left argv (parse_loop fuel) g few
        λ at left' argv' ends' one few'.
          parse_loop-Takes fuel at left' argv' ends' (omega (arith, fuels, one)) few')

-- The parser takes the words, or there are too many.
abbrev pub ArgsAre : (buf : Bytes) → Parse → Type 0
ArgsAre buf o =
    ((15 < length (words buf)) × (o ≡ too_many))
    ⊎ ((length (words buf) ≤ 15)
        × (argv : List ℕ) × (buf' : Bytes) × (o ≡ parsed argv buf')
        × Strings buf' argv (words buf))

-- For every buffer that a 0 ends, the parser of `runcmd` finds the words of the text up to that 0,
-- as an independent definition splits it at blanks, tabs and line ends: with at most 15 words, the
-- strings at the offsets in `argv`, in the buffer that it has written 0 bytes into, are the words
-- in their order; with more words it complains.
pub parse_args-ArgsAre : (buf : Bytes) → Ended buf → ArgsAre buf (parse_args buf)
unfolding parse_args
parse_args-ArgsAre buf ends = elim (parse_loop-Takes 17 [] buf [] ends refl (omega arith)) [
  | inl (many, result) ↦ inl (omega (arith, many), result)
  | inr (os, tail, result, few, strings, first) ↦
      inr (omega (arith, few), os, tail, result, strings)
]
