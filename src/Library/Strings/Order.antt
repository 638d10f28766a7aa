-- ===== src/Library/Strings/Order.antt =====
-- The functions that compare strings.
use csdi_jos.Common.{
  ℕ, ◌<◌, ◌≡◌, ◌≢◌, inl, inr, refl, Bool, true, false, ◌&&◌, ◌==◌, ltb, some, [], ◌∷◌, All,
  if◌then◌else◌, arith, Bool-cases,
}
use csdi_jos.Kernel.State.Layout.{sub32, is_neg}
use csdi_jos.Library.Strings.{Bytes, strcmp}
use csdi_jos.Library.Strings.Copies.{cstring}

-- The order of a dictionary on characters.
abbrev pub before : (p q : Bytes) → Bool
before p [] = false
before [] (b ∷ q) = true
before (a ∷ p) (b ∷ q) = if a == b then before p q else ltb a b

abbrev pub same : (p q : Bytes) → Bool
same [] [] = true
same [] (b ∷ q) = false
same (a ∷ p) [] = false
same (a ∷ p) (b ∷ q) = a == b && same p q

-- For two strings of non-zero bytes, `strcmp` returns a word that is 0 exactly when the strings are
-- the same, and negative exactly when the first is before the second in the order of a dictionary.
pub strcmp_lem :
    (p q rest rest' : Bytes)
    → All (λ c. (c ≢ 0) × (c < 256)) p
    → All (λ c. (c ≢ 0) × (c < 256)) q
    → (r : ℕ) × (strcmp (cstring p rest) (cstring q rest') ≡ some r)
      × ((r == 0) ≡ same p q)
      × (is_neg r ≡ before p q)
unfolding strcmp
strcmp_lem [] [] rest rest' ps qs = (0, refl, refl, refl)
strcmp_lem [] (b ∷ q) rest rest' ps qs =
    (sub32 0 b, refl, ground (arith, qs.0), ground (arith, qs.0))
strcmp_lem (a ∷ p) [] rest rest' ps qs =
    (sub32 a 0, ground (arith, ps.0), ground (arith, ps.0), ground (arith, ps.0))
strcmp_lem (a ∷ p) (b ∷ q) rest rest' ps qs = elim (Bool-cases (a == b)) [
  | inl e ↦
      let (r, found, equal, less) = strcmp_lem p q rest rest' ps.1 qs.1 in
      (r, ground (arith, found, ps.0), ground (arith, equal), ground (arith, less))
  | inr e ↦
      (sub32 a b, ground (arith, e), ground (arith, e, ps.0, qs.0), ground (arith, e, ps.0, qs.0))
]
