-- ===== src/Kernel/Debuginfo/Entries.antt =====
-- What kern/kdebug.c reads in its tables for a function: the name, the name's length, and the entries
-- of parameters behind it.
use csdi_jos.Common.{
  ℕ, zero, suc, ◌+◌, ◌-◌, ◌≤◌, ◌<◌, ◌≡◌, ◌≢◌, ◌⊎◌, inl, inr, refl, sym, ap, subst, ◌∙◌, false, ◌==◌,
  eq_of_==, Bool-cases, [], ◌∷◌, length, Option, some, none, arith,
}
use csdi_jos.Kernel.Kdebug.{Stab}
use csdi_jos.Kernel.Debuginfo.{n_psym, bad_strings, from_offset, count_args}
use csdi_jos.Library.Strings.{Bytes, strfind}

abbrev pub byte_at : Bytes → ℕ → Option ℕ
byte_at [] i = none
byte_at (c ∷ s) zero = some c
byte_at (c ∷ s) (suc i) = byte_at s i

-- The bytes from `n` on are `len` bytes other than 0 and the colon, and then one of these two.
pub record NameEnds (s : Bytes) (n len : ℕ) : Type 0 where
  pub within : (j : ℕ) → j < len → (c : ℕ) × (byte_at s (n + j) ≡ some c) × (c ≢ 0) × (c ≢ 58)
  pub ends : (byte_at s (n + len) ≡ some 0) ⊎ (byte_at s (n + len) ≡ some 58)

-- The `a` entries behind `g` are parameters and stand before the entry that precedes `e`, and the
-- next one is not a parameter or does not stand before it.
pub record Parameters (stabs : ℕ → Stab) (g e a : ℕ) : Type 0 where
  pub inside : (j : ℕ) → j < a → g + 1 + j + 1 < e
  pub parameter : (j : ℕ) → j < a → (stabs (g + 1 + j)).n_type ≡ n_psym
  pub stops : (e ≤ g + 1 + a + 1) ⊎ ((stabs (g + 1 + a)).n_type ≢ n_psym)

record Ends (s : Bytes) (len : ℕ) : Type 0 where
  within : (j : ℕ) → j < len → (c : ℕ) × (byte_at s j ≡ some c) × (c ≢ 0) × (c ≢ 58)
  ends : (byte_at s len ≡ some 0) ⊎ (byte_at s len ≡ some 58)

-- The distance from the name to the character found.
abbrev Finds : Bytes → Type 0
Finds s =
    (rest : Bytes) × (strfind s 58 ≡ some rest)
    × (length rest ≤ length s)
    × Ends s (length s - length rest)

byte_at_eq : (s : Bytes) (i j : ℕ) → i ≡ j → byte_at s i ≡ byte_at s j
byte_at_eq s i j e = ap (byte_at s) e

Ends-0 : (s : Bytes) → byte_at s 0 ≡ some 0 → Ends s (length s - length s)
Ends-0 s at = record {
  within = λ j lt. absurd (omega (arith, lt));
  ends = inl (byte_at_eq s (length s - length s) 0 (omega arith) ∙ at);
}

Ends-suc : (c : ℕ) (s : Bytes) (len : ℕ) → c ≢ 0 → c ≢ 58 → Ends s len → Ends (c ∷ s) (suc len)
Ends-suc c s len nonzero other h = record { within = within; ends = h.ends }
  where
    within : (j : ℕ) → j < suc len → (d : ℕ) × (byte_at (c ∷ s) j ≡ some d) × (d ≢ 0) × (d ≢ 58)
    within zero lt = (c, refl, nonzero, other)
    within (suc j) lt = h.within j (omega (arith, lt))

ne_of_test : (c d : ℕ) → (c == d) ≡ false → c ≢ d
ne_of_test c d ne e = ground (arith, ne, e)

-- A string table that ends in 0 lets every name end.
strfind-Finds : (s : Bytes) → bad_strings s ≡ false → Finds s
unfolding bad_strings strfind
strfind-Finds [] bad = absurd (ground (arith, bad))
strfind-Finds (c ∷ []) bad =
    let zero_at : c ≡ 0 = ground (arith, bad) in
    (c ∷ [], ground (arith, bad), omega arith, Ends-0 (c ∷ []) (ap some zero_at))
strfind-Finds (c ∷ d ∷ s) bad =
    let (rest, found, shorter, ends) = strfind-Finds (d ∷ s) bad in
    elim (Bool-cases (c == 0)) [
      | inl end ↦
          rw end (c ∷ d ∷ s, refl, omega arith, Ends-0 (c ∷ d ∷ s) (ap some (eq_of_== c 0 end)))
      | inr more ↦ elim (Bool-cases (c == 58)) [
        | inl colon ↦
            rw (more, colon)
              (
                c ∷ d ∷ s,
                refl,
                omega arith,
                record {
                  within = λ j lt. absurd (omega (arith, lt));
                  ends = inr (
                      byte_at_eq (c ∷ d ∷ s) (length (c ∷ d ∷ s) - length (c ∷ d ∷ s)) 0
                        (omega arith)
                      ∙ ap some (eq_of_== c 58 colon));
                },
              )
        | inr other ↦
            rw (more, other)
              (
                rest,
                found,
                omega (arith, shorter),
                subst (Ends (c ∷ d ∷ s)) (omega (arith, shorter)) (
                    Ends-suc c (d ∷ s) (length (d ∷ s) - length rest) (ne_of_test c 0 more)
                      (ne_of_test c 58 other) ends),
              )
      ]
    ]

from_offset_good :
    (n : ℕ) (s : Bytes)
    → n < length s
    → bad_strings s ≡ false
    → bad_strings (from_offset n s) ≡ false
unfolding bad_strings from_offset
from_offset_good zero s lt bad = bad
from_offset_good (suc n) [] lt bad = absurd (omega (arith, lt))
from_offset_good (suc n) (c ∷ []) lt bad = absurd (omega (arith, lt))
from_offset_good (suc n) (c ∷ d ∷ s) lt bad = from_offset_good n (d ∷ s) (omega (arith, lt)) bad

byte_at-from_offset : (n : ℕ) (s : Bytes) (i : ℕ) → byte_at (from_offset n s) i ≡ byte_at s (n + i)
unfolding from_offset
byte_at-from_offset zero s i = byte_at_eq s i (0 + i) (omega arith)
byte_at-from_offset (suc n) [] i = refl
byte_at-from_offset (suc n) (c ∷ s) i =
    byte_at-from_offset n s i ∙ byte_at_eq (c ∷ s) (suc (n + i)) (suc n + i) (omega arith)

NameEnds-from_offset : (n : ℕ) (s : Bytes) (len : ℕ) → Ends (from_offset n s) len → NameEnds s n len
NameEnds-from_offset n s len h = record {
  within = λ j lt.
      let (c, at, nonzero, other) = h.within j lt in
      (c, sym (byte_at-from_offset n s j) ∙ at, nonzero, other);
  ends = elim h.ends [
    | inl at ↦ inl (sym (byte_at-from_offset n s len) ∙ at)
    | inr at ↦ inr (sym (byte_at-from_offset n s len) ∙ at)
  ];
}

-- The length of the name at an offset in the table, as the code finds it.
pub name_at :
    (n : ℕ) (s : Bytes)
    → n < length s
    → bad_strings s ≡ false
    → (rest : Bytes) × (strfind (from_offset n s) 58 ≡ some rest)
      × NameEnds s n (length (from_offset n s) - length rest)
name_at n s lt bad =
    let (rest, found, _, ends) = strfind-Finds (from_offset n s) (from_offset_good n s lt bad) in
    (rest, found, NameEnds-from_offset n s (length (from_offset n s) - length rest) ends)

-- Among `n` entries from `l` on.
record Counted (stabs : ℕ → Stab) (n l a : ℕ) : Type 0 where
  few : a ≤ n
  parameter : (j : ℕ) → j < a → (stabs (l + j)).n_type ≡ n_psym
  stops : (a ≡ n) ⊎ ((stabs (l + a)).n_type ≢ n_psym)

count_args-Counted : (stabs : ℕ → Stab) (n l : ℕ) → Counted stabs n l (count_args stabs n l)
unfolding count_args
count_args-Counted stabs zero l = record {
  few = omega arith;
  parameter = λ j lt. absurd (omega (arith, lt));
  stops = inl refl;
}
count_args-Counted stabs (suc n) l =
    let h = count_args-Counted stabs n (suc l) in
    elim (Bool-cases ((stabs l).n_type == n_psym)) [
      | inl is ↦ rw is (Counted-suc h (ground (arith, is)))
      | inr other ↦ rw other (record {
        few = omega arith;
        parameter = λ j lt. absurd (omega (arith, lt));
        stops = inr (
            subst (λ i. (stabs i).n_type ≢ n_psym) (omega arith)
              (ne_of_test (stabs l).n_type n_psym other));
      })
    ]
  where
    Counted-suc :
        {a : ℕ}
        → Counted stabs n (suc l) a
        → (stabs l).n_type ≡ n_psym
        → Counted stabs (suc n) l (suc a)
    Counted-suc {a} h is = record {
      few = omega (arith, h.few);
      parameter = parameter;
      stops = elim h.stops [
        | inl all ↦ inl (ap suc all)
        | inr other ↦ inr (subst (λ i. (stabs i).n_type ≢ n_psym) (omega arith) other)
      ];
    }
      where
        parameter : (j : ℕ) → j < suc a → (stabs (l + j)).n_type ≡ n_psym
        parameter zero lt = subst (λ i. (stabs i).n_type ≡ n_psym) (omega arith) is
        parameter (suc j) lt =
            subst (λ i. (stabs i).n_type ≡ n_psym) (omega arith) (h.parameter j (omega (arith, lt)))

pub count_args-Parameters :
    (stabs : ℕ → Stab) (g r : ℕ) → Parameters stabs g (suc r) (count_args stabs (r - suc g) (suc g))
count_args-Parameters stabs g r =
    let h = count_args-Counted stabs (r - suc g) (suc g) in
    record {
      inside = λ j lt. omega (arith, lt, h.few);
      parameter = λ j lt. subst (λ i. (stabs i).n_type ≡ n_psym) (omega arith) (h.parameter j lt);
      stops = elim h.stops [
        | inl all ↦ inl (omega (arith, all))
        | inr other ↦ inr (subst (λ i. (stabs i).n_type ≢ n_psym) (omega arith) other)
      ];
    }
