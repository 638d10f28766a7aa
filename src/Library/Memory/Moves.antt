-- ===== src/Library/Memory/Moves.antt =====
-- What the loops over bytes and the string instructions leave in memory.
use csdi_jos.Common.{
  ℕ, zero, suc, ◌+◌, ◌-◌, ◌*◌, ◌^◌, ◌≤◌, ◌<◌, ◌≡◌, ◌⊎◌, inl, inr, refl, ap, ◌∙◌, dec_lt, arith,
}
use csdi_jos.Kernel.State.Layout.{add32, sub32}
use csdi_jos.Library.Memory.{Memory, movs, rep_movs, rep_movs_down}

-- The `n` bytes at `s` have been copied to `d`, and nothing else has changed.
pub record Copied (m m' : Memory) (d s n : ℕ) : Type 0 where
  pub copied : (i : ℕ) → i < n → m' (d + i) ≡ m (s + i)
  pub kept : (a : ℕ) → (a < d) ⊎ (d + n ≤ a) → m' a ≡ m a

-- The `n` bytes at `d` are `b`, and nothing else has changed.
pub record Filled (m m' : Memory) (d n b : ℕ) : Type 0 where
  pub filled : (i : ℕ) → i < n → m' (d + i) ≡ b
  pub kept : (a : ℕ) → (a < d) ⊎ (d + n ≤ a) → m' a ≡ m a

-- The bytes of `n` units.
abbrev pub bytes : (w n : ℕ) → ℕ
bytes w zero = 0
bytes w (suc n) = w + bytes w n

pub bytes_one : (n : ℕ) → bytes 1 n ≡ n
bytes_one zero = refl
bytes_one (suc n) = omega (arith, bytes_one n)

pub bytes_four : (n : ℕ) → bytes 4 n ≡ 4 * n
bytes_four zero = refl
bytes_four (suc n) = omega (arith, bytes_four n)

pub add32_lt : (a b : ℕ) → a + b < 2 ^ 32 → add32 a b ≡ a + b
add32_lt a b h = omega arith

sub32_le : (a b : ℕ) → b ≤ a → a < 2 ^ 32 → sub32 a b ≡ a - b
sub32_le a b le h = omega arith

movs_outside : (w d s a : ℕ) (m : Memory) → (a < d) ⊎ (d + w ≤ a) → movs w d s m a ≡ m a
movs_outside w d s a m out = ground arith

movs_inside : (w d s i : ℕ) (m : Memory) → i < w → movs w d s m (d + i) ≡ m (s + i)
movs_inside w d s i m lt = let e : d + i - d ≡ i = omega arith in ground (arith, e)

-- A unit at the bottom, and the rest above it.
Copied-first :
    (w n d s : ℕ) (m m' : Memory)
    → (d ≤ s) ⊎ (s + (w + n) ≤ d)
    → Copied (movs w d s m) m' (d + w) (s + w) n
    → Copied m m' d s (w + n)
Copied-first w n d s m m' apart h = record {
  copied = λ i lt. elim (dec_lt i w) [
    | yes low ↦ h.kept (d + i) (inl (omega (arith, low))) ∙ movs_inside w d s i m low
    | no high ↦
        ap m' (omega (arith, high))
        ∙ h.copied (i - w) (omega (arith, lt, high))
        ∙ ap (movs w d s m) (omega (arith, high))
        ∙ movs_outside w d s (s + i) m (ground (arith, apart, high, lt))
  ];
  kept = λ a out. h.kept a (ground (arith, out)) ∙ movs_outside w d s a m (ground (arith, out));
}

-- A unit at the top, and the rest below it.
Copied-last :
    (w n d s : ℕ) (m m' : Memory)
    → s ≤ d
    → Copied (movs w (d + n) (s + n) m) m' d s n
    → Copied m m' d s (w + n)
Copied-last w n d s m m' le h = record {
  copied = λ i lt. elim (dec_lt i n) [
    | yes low ↦ h.copied i low ∙ movs_outside w (d + n) (s + n) (s + i) m (inl (omega (arith, low)))
    | no high ↦
        h.kept (d + i) (inr (omega (arith, high)))
        ∙ ap (movs w (d + n) (s + n) m) (omega (arith, high))
        ∙ movs_inside w (d + n) (s + n) (i - n) m (omega (arith, lt, high))
        ∙ ap m (omega (arith, high))
  ];
  kept = λ a out.
      h.kept a (ground (arith, out)) ∙ movs_outside w (d + n) (s + n) a m (ground (arith, out));
}

module _ (w : ℕ) where
  pub rep_movs-Copied :
      (n d s : ℕ) (m : Memory)
      → d + bytes w n < 2 ^ 32
      → s + bytes w n < 2 ^ 32
      → (d ≤ s) ⊎ (s + bytes w n ≤ d)
      → Copied m (rep_movs w n d s m) d s (bytes w n)
  unfolding rep_movs
  rep_movs-Copied zero d s m lt lt' apart = record {
    copied = λ i lt. absurd (omega arith);
    kept = λ a out. refl;
  }
  rep_movs-Copied (suc n) d s m lt lt' apart =
      rw (add32_lt d w (omega (arith, lt)), add32_lt s w (omega (arith, lt')))
        (Copied-first w (bytes w n) d s m (rep_movs w n (d + w) (s + w) (movs w d s m)) apart (
          rep_movs-Copied n (d + w) (s + w) (movs w d s m) (omega (arith, lt)) (omega (arith, lt'))
            (ground (arith, apart))))

  -- From the top unit down.
  pub rep_movs_down-Copied :
      (n d s : ℕ) (m : Memory)
      → d + bytes w (suc n) < 2 ^ 32
      → s ≤ d
      → Copied m (rep_movs_down w (suc n) (d + bytes w n) (s + bytes w n) m) d s (bytes w (suc n))
  unfolding rep_movs_down
  rep_movs_down-Copied zero d s m lt le =
      Copied-last w 0 d s m (movs w (d + 0) (s + 0) m) le
        (record { copied = λ i lt. absurd (omega arith); kept = λ a out. refl })
  rep_movs_down-Copied (suc n) d s m lt le =
      let back : (a : ℕ)
          → a + bytes w (suc n) < 2 ^ 32
          → sub32 (a + bytes w (suc n)) w ≡ a + bytes w n =
        λ a lt'. omega (arith, lt') in
      Copied-last w (bytes w (suc n)) d s m
        (rep_movs_down w (suc n) (sub32 (d + bytes w (suc n)) w) (sub32 (s + bytes w (suc n)) w)
          (movs w (d + bytes w (suc n)) (s + bytes w (suc n)) m))
        le
        (rw (back d (omega (arith, lt)), back s (omega (arith, lt, le)))
          (rep_movs_down-Copied n d s (movs w (d + bytes w (suc n)) (s + bytes w (suc n)) m)
            (omega (arith, lt)) le))
