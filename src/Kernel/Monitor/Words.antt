-- ===== src/Kernel/Monitor/Words.antt =====
-- The words of a text, and what `gobble` and `scan` do to it.
use csdi_jos.Common.{
  ℕ, ◌≡◌, ◌≢◌, ◌⊎◌, inl, inr, refl, ap, Bool, true, false, not, ◌&&◌, ◌==◌, eq_of_==, ne_of_==,
  Bool-cases, some, List, [], ◌∷◌, ◌++◌, All, if◌then◌else◌, arith,
}
use csdi_jos.Library.Strings.{Bytes}
use csdi_jos.Kernel.Monitor.{is_space, gobble, scan}

-- A word begins here.
abbrev pub starts : Bytes → Bool
starts [] = false
starts (c ∷ s) = not (c == 0) && not (is_space c)

abbrev pub cons_first : ℕ → List Bytes → List Bytes
cons_first c [] = (c ∷ []) ∷ []
cons_first c (w ∷ ws) = (c ∷ w) ∷ ws

-- The words of a text up to its 0, without the white space between them.
abbrev pub words : Bytes → List Bytes
words [] = []
words (c ∷ s) =
    let rest = words s in
    if c == 0
    then []
    else if is_space c
    then rest
    else if starts s
    then cons_first c rest
    else (c ∷ []) ∷ rest

-- The string that begins here, up to its 0.
abbrev pub c_string : Bytes → Bytes
c_string [] = []
c_string (c ∷ s) = let rest = c_string s in if c == 0 then [] else c ∷ rest

-- A 0 ends the buffer.
abbrev pub Ended : Bytes → Type 0
Ended [] = ⊥
Ended (c ∷ s) = (c ≡ 0) ⊎ Ended s

pub Ended-later : (c : ℕ) (s : Bytes) → (c == 0) ≡ false → Ended (c ∷ s) → Ended s
Ended-later c s more ends = elim ends [ inl e ↦ absurd (ne_of_== c 0 more e) | inr h ↦ h ]

abbrev pub first_byte : Bytes → ℕ
first_byte [] = 0
first_byte (c ∷ s) = c

-- What `gobble` leaves, and the bytes that it has set to 0.
pub record Gobbled (buf zeros left : Bytes) : Type 0 where
  pub result : gobble buf ≡ some (zeros, left)
  pub same : words left ≡ words buf
  pub ended : Ended left
  pub stops : (starts left ≡ true) ⊎ ((s : Bytes) × (left ≡ 0 ∷ s))
  pub first : starts buf ≡ false → (t : Bytes) × (zeros ++ left ≡ 0 ∷ t)

pub gobble-Gobbled :
    (buf : Bytes) → Ended buf → (zeros : Bytes) × (left : Bytes) × Gobbled buf zeros left
unfolding gobble
gobble-Gobbled [] ends = absurd ends
gobble-Gobbled (c ∷ s) ends = elim (Bool-cases (c == 0)) [
  | inl zero_here ↦ (
    [],
    c ∷ s,
    record {
      result = rw zero_here refl;
      same = refl;
      ended = ends;
      stops = inr (s, ap (λ d. d ∷ s) (eq_of_== c 0 zero_here));
      first = λ _. (s, ap (λ d. d ∷ s) (eq_of_== c 0 zero_here));
    },
  )
  | inr more ↦ elim (Bool-cases (is_space c)) [
    | inr solid ↦ (
      [],
      c ∷ s,
      record {
        result = rw (more, solid) refl;
        same = refl;
        ended = ends;
        stops = inl (rw (more, solid) refl);
        first = λ e. absurd (ground (arith, e, more, solid));
      },
    )
    | inl space ↦
        let (zeros, left, g) = gobble-Gobbled s (Ended-later c s more ends) in
        (
          0 ∷ zeros,
          left,
          record {
            result = rw (more, space, g.result) refl;
            same = rw (more, space) g.same;
            ended = g.ended;
            stops = g.stops;
            first = λ _. (zeros ++ left, refl);
          },
        )
  ]
]

-- The word that `scan` passes.
pub record Scanned (buf word left : Bytes) : Type 0 where
  pub result : scan buf ≡ some (word, left)
  pub split : words buf ≡ word ∷ words left
  pub ended : Ended left
  pub behind : starts left ≡ false
  pub solid : All (λ c. c ≢ 0) word

pub starts_parts :
    (c : ℕ) (s : Bytes) → starts (c ∷ s) ≡ true → ((c == 0) ≡ false) × (is_space c ≡ false)
starts_parts c s h = elim (Bool-cases (c == 0)) [
  | inl zero_here ↦ absurd (ground (arith, h, zero_here))
  | inr more ↦ elim (Bool-cases (is_space c)) [
    | inl space ↦ absurd (ground (arith, h, more, space))
    | inr solid ↦ (more, solid)
  ]
]

scan_stops : (s : Bytes) → Ended s → starts s ≡ false → scan s ≡ some ([], s)
unfolding scan
scan_stops [] ends h = absurd ends
scan_stops (c ∷ s) ends h = ground (arith, h)

pub scan-Scanned :
    (c : ℕ) (s : Bytes)
    → Ended s
    → starts (c ∷ s) ≡ true
    → (word : Bytes) × (left : Bytes) × Scanned (c ∷ s) word left
unfolding scan
scan-Scanned c [] ends first = absurd ends
scan-Scanned c (d ∷ s) ends first =
    let (more, solid) = starts_parts c (d ∷ s) first in
    elim (Bool-cases (starts (d ∷ s))) [
      | inl goes_on ↦
          let (more', solid') = starts_parts d s goes_on in
          let (w, left, r) = scan-Scanned d s (Ended-later d s more' ends) goes_on in
          (
            c ∷ w,
            left,
            record {
              result = rw (more, solid, r.result) refl;
              split = rw (more, solid, goes_on, r.split) refl;
              ended = r.ended;
              behind = r.behind;
              solid = (ne_of_== c 0 more, r.solid);
            },
          )
      | inr stops ↦ (
        c ∷ [],
        d ∷ s,
        record {
          result = rw (more, solid, scan_stops (d ∷ s) ends stops) refl;
          split = rw (more, solid, stops) refl;
          ended = ends;
          behind = stops;
          solid = (ne_of_== c 0 more, tt);
        },
      )
    ]
