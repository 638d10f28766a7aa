-- ===== src/Common/Tests.antt =====
-- C's comparisons as Boolean tests, the conditional, and the splits on a computed value.
use Prim.Native.Nat.{ℕ, zero, suc, ◌≤◌, ◌<◌, compare, Ordering}
use mathlib.Core.Path.{◌≡◌, refl, ap}
use mathlib.Core.Logic.{◌≢◌, ◌⊎◌, inl, inr}
use mathlib.Core.Bool.{Bool, true, false, ◌&&◌}
use mathlib.Core.Option.{Option, none, some}
use native.Mathlib.Omega.{arith}

infix 50 ◌==◌
abbrev pub ◌==◌ : ℕ → ℕ → Bool
a == b = elim (compare a b) [ Ordering.eq ↦ true | _ ↦ false ]

abbrev pub ltb : ℕ → ℕ → Bool
ltb a b = elim (compare a b) [ Ordering.lt ↦ true | _ ↦ false ]

abbrev pub leb : ℕ → ℕ → Bool
leb a b = elim (compare a b) [ Ordering.gt ↦ false | _ ↦ true ]

infix 1 if◌then◌else◌
abbrev pub if◌then◌else◌ {ℓ} : {A : Type ℓ} → Bool → A → A → A
if true then t else e = t
if false then t else e = e

pub eq_of_== : (a b : ℕ) → (a == b) ≡ true → a ≡ b
eq_of_== a b h = ground arith

pub ne_of_== : (a b : ℕ) → (a == b) ≡ false → a ≢ b
ne_of_== a b h = ground arith

pub ==_refl : (a : ℕ) → (a == a) ≡ true
==_refl a = ground arith

pub ==_ne : (a b : ℕ) → a ≢ b → (a == b) ≡ false
==_ne a b h = ground arith

pub ltb_of_lt : (a b : ℕ) → a < b → ltb a b ≡ true
ltb_of_lt a b h = ground arith

pub ltb_of_le : (a b : ℕ) → b ≤ a → ltb a b ≡ false
ltb_of_le a b h = ground arith

pub leb_of_le : (a b : ℕ) → a ≤ b → leb a b ≡ true
leb_of_le a b h = ground arith

pub leb_of_lt : (a b : ℕ) → b < a → leb a b ≡ false
leb_of_lt a b h = ground arith

pub Bool-cases : (b : Bool) → (b ≡ true) ⊎ (b ≡ false)
Bool-cases true = inl refl
Bool-cases false = inr refl

pub Option-cases {ℓ} : {A : Type ℓ} (o : Option A) → (o ≡ none) ⊎ ((a : A) × (o ≡ some a))
Option-cases none = inl refl
Option-cases (some a) = inr (a, refl)

-- `f` with the value at `i` replaced: a write to an array.
abbrev pub update {ℓ} : {A : Type ℓ} → (ℕ → A) → ℕ → A → ℕ → A
update f i v j = if i == j then v else f j

-- `o == Some n` for pointers given by an index.
abbrev pub same_ptr : Option ℕ → Option ℕ → Bool
same_ptr none none = true
same_ptr none (some b) = false
same_ptr (some a) none = false
same_ptr (some a) (some b) = a == b

pub eq_of_same_ptr : (o : Option ℕ) (n : ℕ) → same_ptr o (some n) ≡ true → o ≡ some n
eq_of_same_ptr none n h = ground arith
eq_of_same_ptr (some m) n h = ap some (eq_of_== m n h)

-- A test on every number below `n`, by evaluation.
unfoldable pub all_below : ℕ → (ℕ → Bool) → Bool
all_below zero p = true
all_below (suc n) p = p n && all_below n p

pub all_below-apply : (n : ℕ) (p : ℕ → Bool) (x : ℕ) → all_below n p ≡ true → x < n → p x ≡ true
unfolding all_below
all_below-apply zero p x h lt = absurd (omega arith)
all_below-apply (suc n) p x h lt = ground (arith, all_below-apply n p x)
