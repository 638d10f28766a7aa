-- ===== src/Common/Lists.antt =====
-- Lists over the native numbers, and predicates on lists that compute.
use Prim.Native.Nat.{ℕ, suc, ◌+◌}
use mathlib.Core.Path.{◌≡◌}
use mathlib.Core.Logic.{◌≢◌}
use mathlib.Core.List.{List, [], ◌∷◌, ◌++◌}
use native.Mathlib.Omega.{arith}

module _ {ℓ} {A : Type ℓ} where
  abbrev pub length : List A → ℕ
  length [] = 0
  length (_ ∷ xs) = suc (length xs)

  pub length-append : (xs ys : List A) → length (xs ++ ys) ≡ length xs + length ys
  length-append [] ys = omega arith
  length-append (_ ∷ xs) ys = omega (arith, length-append xs ys)

abbrev pub All {ℓ κ} : {A : Type ℓ} → (A → Type κ) → List A → Type κ
All P [] = Unit
All P (x ∷ xs) = P x × All P xs

-- `p` is not an entry of the list.
abbrev pub NotIn : ℕ → List ℕ → Type 0
NotIn p = All (λ q. p ≢ q)

abbrev pub Distinct : List ℕ → Type 0
Distinct [] = Unit
Distinct (p ∷ ps) = NotIn p ps × Distinct ps
