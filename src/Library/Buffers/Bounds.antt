-- ===== src/Library/Buffers/Bounds.antt =====
-- What `vsnprintf` leaves in the buffer.
use csdi_jos.Common.{
  ℕ, zero, suc, ◌+◌, ◌-◌, ◌%◌, ◌^◌, ◌≤◌, ◌<◌, ◌≡◌, ◌≢◌, ◌⊎◌, inl, inr, refl, ap, ◌∙◌, subst, ltb,
  ltb_of_lt, ltb_of_le, ==_ne, leb_of_lt, length, Option, none, some, List, [], ◌∷◌, if◌then◌else◌,
  dec_lt, arith,
}
use mathlib.Core.Option
use csdi_jos.Library.Strings.{Bytes}
use csdi_jos.Library.Formats.{Print, printed, vprintfmt}
use csdi_jos.Library.Buffers.{
  Sprintbuf, write_byte, sprintputch, sprint_all, pointer_byte, terminate, vsnprintf,
}

abbrev pub get_elem? : Bytes → ℕ → Option ℕ
get_elem? [] i = none
get_elem? (b ∷ s) zero = some b
get_elem? (b ∷ s) (suc i) = get_elem? s i

-- The byte that each character is stored as.
abbrev pub bytes_of : List ℕ → Bytes
bytes_of [] = []
bytes_of (c ∷ cs) = (c % 256) ∷ bytes_of cs

pub length-bytes_of : (cs : List ℕ) → length (bytes_of cs) ≡ length cs
length-bytes_of [] = refl
length-bytes_of (c ∷ cs) = ap suc (length-bytes_of cs)

-- The bytes `m'` are `m` but for the value `v` at `i`.
pub record Written (m : Bytes) (i v : ℕ) (m' : Bytes) : Type 0 where
  pub size : length m' ≡ length m
  pub here : get_elem? m' i ≡ some v
  pub others : (j : ℕ) → i ≢ j → get_elem? m' j ≡ get_elem? m j

write_byte-Written :
    (m : Bytes) (i v : ℕ)
    → i < length m
    → (m' : Bytes) × (write_byte m i v ≡ some m') × Written m i (v % 256) m'
write_byte-Written [] i v lt = absurd (omega (arith, lt))
write_byte-Written (b ∷ s) zero v lt =
    ((v % 256) ∷ s, refl, record { size = refl; here = refl; others = λ j ne. other j ne })
  where
    other : (j : ℕ) → 0 ≢ j → get_elem? ((v % 256) ∷ s) j ≡ get_elem? (b ∷ s) j
    other zero ne = absurd (ne refl)
    other (suc j) ne = refl
write_byte-Written (b ∷ s) (suc i) v lt =
    let (t, done, w) = write_byte-Written s i v (omega (arith, lt)) in
    (
      b ∷ t,
      ap (Option.map (λ t. b ∷ t)) done,
      record { size = ap suc w.size; here = w.here; others = λ j ne. other t w j ne },
    )
  where
    other :
        (t : Bytes)
        → Written s i (v % 256) t
        → (j : ℕ) → suc i ≢ j
        → get_elem? (b ∷ t) j ≡ get_elem? (b ∷ s) j
    other t w zero ne = refl
    other t w (suc j) ne = w.others j λ e. ne (ap suc e)

-- From `b` to `b'` the characters have been put: counted all, and written as far as there is room.
pub record Filled (b b' : Sprintbuf) (out : List ℕ) : Type 0 where
  pub size : length b'.memory ≡ length b.memory
  pub room : b'.ebuf ≡ b.ebuf
  pub at : b'.buf ≡ (if ltb (b.buf + length out) b.ebuf then b.buf + length out else b.ebuf)
  pub count : b'.cnt ≡ (b.cnt + length out) % 2 ^ 32
  pub before : (i : ℕ) → i < b.buf → get_elem? b'.memory i ≡ get_elem? b.memory i
  pub written :
      (i : ℕ) → b.buf + i < b'.buf → get_elem? b'.memory (b.buf + i) ≡ get_elem? (bytes_of out) i
  pub after : (i : ℕ) → b'.buf ≤ i → get_elem? b'.memory i ≡ get_elem? b.memory i

-- There is room for the final 0, and the count is a word.
pub record Fits (b : Sprintbuf) : Type 0 where
  pub low : b.buf ≤ b.ebuf
  pub high : b.ebuf < length b.memory
  pub word : b.cnt < 2 ^ 32

abbrev Fills : Sprintbuf → List ℕ → Option Sprintbuf → Type 0
Fills b out o = (b' : Sprintbuf) × (o ≡ some b') × Filled b b' out

-- A character in front of those that fit after it.
Filled-Written :
    (b : Sprintbuf) (c : ℕ) (cs : List ℕ) (m : Bytes) (b' : Sprintbuf)
    → b.buf < b.ebuf
    → Written b.memory b.buf (c % 256) m
    → Filled (record b { cnt = (b.cnt + 1) % 2 ^ 32; memory = m; buf = b.buf + 1 }) b' cs
    → Filled b b' (c ∷ cs)
Filled-Written b c cs m b' lt w f = record {
  size = f.size ∙ w.size;
  room = f.room;
  at = f.at ∙ ground arith;
  count = f.count ∙ omega arith;
  before =
      λ i near. f.before i (omega (arith, near)) ∙ w.others i λ e. absurd (omega (arith, e, near));
  written = λ i near. written i near;
  after = λ i far. f.after i far ∙ w.others i λ e. absurd (omega (arith, e, far, f.at, reach));
}
  where
    reach : b.buf + 1 ≤ b'.buf
    reach = ground (arith, f.at)

    written :
        (i : ℕ)
        → b.buf + i < b'.buf
        → get_elem? b'.memory (b.buf + i) ≡ get_elem? (bytes_of (c ∷ cs)) i
    written zero near =
        subst (λ j. get_elem? b'.memory j ≡ some (c % 256)) (omega arith)
          (f.before b.buf (omega arith) ∙ w.here)
    written (suc i) near =
        subst (λ j. get_elem? b'.memory j ≡ get_elem? (bytes_of cs) i) (omega arith)
          (f.written i (omega (arith, near)))

Filled-full :
    (b : Sprintbuf) (c : ℕ) (cs : List ℕ) (b' : Sprintbuf)
    → b.buf ≡ b.ebuf
    → Filled (record b { cnt = (b.cnt + 1) % 2 ^ 32 }) b' cs
    → Filled b b' (c ∷ cs)
Filled-full b c cs b' full f =
    let still : b'.buf ≡ b.buf = f.at ∙ ground (arith, full) in
    record {
      size = f.size;
      room = f.room;
      at = still ∙ ground (arith, full);
      count = f.count ∙ omega arith;
      before = f.before;
      written = λ i near. absurd (omega (arith, near, still));
      after = f.after;
    }

sprintputch_room :
    (b : Sprintbuf) (c : ℕ) (m : Bytes)
    → b.buf < b.ebuf
    → write_byte b.memory b.buf c ≡ some m
    → sprintputch c b ≡ some (record b { cnt = (b.cnt + 1) % 2 ^ 32; memory = m; buf = b.buf + 1 })
unfolding sprintputch
sprintputch_room b c m lt done = rw (ltb_of_lt b.buf b.ebuf lt, done) refl

sprintputch_full :
    (b : Sprintbuf) (c : ℕ)
    → b.ebuf ≤ b.buf
    → sprintputch c b ≡ some (record b { cnt = (b.cnt + 1) % 2 ^ 32 })
unfolding sprintputch
sprintputch_full b c le = rw (ltb_of_le b.buf b.ebuf le) refl

sprint_all-Filled : (out : List ℕ) (b : Sprintbuf) → Fits b → Fills b out (sprint_all out b)
unfolding sprint_all
sprint_all-Filled [] b fits = (
  b,
  refl,
  record {
    size = refl;
    room = refl;
    at = ground (arith, fits.low);
    count = omega (arith, fits.word);
    before = λ i near. refl;
    written = λ i near. absurd (omega (arith, near));
    after = λ i far. refl;
  },
)
sprint_all-Filled (c ∷ cs) b fits = elim (dec_lt b.buf b.ebuf) [
  | yes lt ↦
      let (m, done, w) = write_byte-Written b.memory b.buf c (omega (arith, lt, fits.high)) in
      let b₁ : Sprintbuf = record b { cnt = (b.cnt + 1) % 2 ^ 32; memory = m; buf = b.buf + 1 } in
      let (b', runs, filled) = sprint_all-Filled cs b₁ (record {
        low = omega (arith, lt);
        high = omega (arith, fits.high, w.size);
        word = omega arith;
      }) in
      rw (sprint_all, sprintputch_room b c m lt done)
        (b', runs, Filled-Written b c cs m b' lt w filled)
  | no full ↦
      let b₁ : Sprintbuf = record b { cnt = (b.cnt + 1) % 2 ^ 32 } in
      let (b', runs, filled) =
        sprint_all-Filled cs b₁ (record { low = fits.low; high = fits.high; word = omega arith }) in
      rw (sprint_all, sprintputch_full b c (omega (arith, full)))
        (b', runs, Filled-full b c cs b' (omega (arith, full, fits.low)) filled)
]

-- The buffer after `vsnprintf` of the text `out` with the size `n`: the text as far as it fits in
-- front of a final 0, and the bytes behind that unchanged.
pub record Holds (m : Bytes) (n : ℕ) (out : List ℕ) (m' : Bytes) : Type 0 where
  pub size : length m' ≡ length m
  pub text : (i : ℕ) → i < n - 1 → i < length out → get_elem? m' i ≡ get_elem? (bytes_of out) i
  pub ended : get_elem? m' (if ltb (length out) (n - 1) then length out else n - 1) ≡ some 0
  pub behind : (i : ℕ) → (n ≤ i) ⊎ (length out < i) → get_elem? m' i ≡ get_elem? m i

-- Where the text ends in a buffer of the size `n`.
module _ (m : Bytes) (n : ℕ) (positive : 0 < n) (out : List ℕ) (b : Sprintbuf)
    (f : Filled (record { memory = m; buf = 0; ebuf = n - 1; cnt = 0 }) b out) where
  limit : b.buf ≤ n - 1
  limit = ground (arith, f.at)

  below : (i : ℕ) → i < n - 1 → i < length out → i < b.buf
  below i near short = ground (arith, f.at)

  above : (i : ℕ) → (n ≤ i) ⊎ (length out < i) → b.buf < i
  above i (inl far) = ground (arith, f.at)
  above i (inr far) = ground (arith, f.at)

  Holds-intro : (m' : Bytes) → Written b.memory b.buf 0 m' → Holds m n out m'
  Holds-intro m' w = record {
    size = w.size ∙ f.size;
    text = λ i near short.
        let lt = below i near short in
        w.others i (λ e. absurd (omega (arith, e, lt)))
        ∙ subst (λ j. get_elem? b.memory j ≡ get_elem? (bytes_of out) i) (omega arith)
            (f.written i (omega (arith, lt)));
    ended = subst (λ j. get_elem? m' j ≡ some 0) (f.at ∙ ground arith) w.here;
    behind = λ i far.
        let lt = above i far in
        w.others i (λ e. absurd (omega (arith, e, lt))) ∙ f.after i (omega (arith, lt));
  }

module _ (mem : ℕ → Bytes) (address : ℕ) (m : Bytes) (n : ℕ) (fmt : Bytes) (args : List ℕ)
    (st : Print) (positive : 0 < n) (int : n < 2 ^ 31) (inside : n ≤ length m)
    (prints : vprintfmt mem (pointer_byte address n) fmt args ≡ printed st) where
  -- For a size from 1 below 2 ^ 31 that the buffer has room for, where the format prints a text,
  -- `vsnprintf` returns the length of the whole text modulo 2 ^ 32, and leaves in the buffer the
  -- bytes of the text, each character modulo 256, as far as they fit within the size less 1, a 0
  -- behind them, and every byte beyond the size or behind that 0 unchanged.
  pub vsnprintf-Holds :
      (m' : Bytes) × (vsnprintf mem address (some m) n fmt args ≡ some (length st.out % 2 ^ 32, m'))
      × Holds m n st.out m'
  unfolding vsnprintf terminate
  vsnprintf-Holds =
      let b : Sprintbuf = record { memory = m; buf = 0; ebuf = n - 1; cnt = 0 } in
      let (b', runs, f) = sprint_all-Filled st.out b (record {
        low = omega arith;
        high = omega (arith, positive, inside);
        word = omega arith;
      }) in
      let (m', ends, w) =
        write_byte-Written b'.memory b'.buf 0
          (omega (arith, f.size, positive, inside, limit m n positive st.out b' f)) in
      rw (==_ne n 0 (omega (arith, positive)), leb_of_lt (2 ^ 31) n int, prints, runs, ends)
        (
          m',
          ap (λ c. some (c, m')) (f.count ∙ omega arith),
          Holds-intro m n positive st.out b' f m' w,
        )
