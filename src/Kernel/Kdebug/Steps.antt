-- ===== src/Kernel/Kdebug/Steps.antt =====
-- The search comes to its end.
use csdi_jos.Common.{
  ℕ, zero, suc, ◌+◌, ◌%◌, ◌^◌, ◌≤◌, ◌<◌, ◌≡◌, ◌≢◌, inl, inr, subst, true, ◌==◌, ltb, leb, Option,
  none, some, Bool-cases, dec_le, eq_of_==, ne_of_==, arith,
}
use csdi_jos.Kernel.Kdebug.{Stab, Search, match_down, compare_at, middle, search_step}

-- Where `match_down` stops: at the last index of the type, or there is none from `l` on.
abbrev pub Last : (ℕ → Stab) → (type l m : ℕ) → Option ℕ → Type 0
Last stabs type l m none = (i : ℕ) → l ≤ i → i ≤ m → (stabs i).n_type ≢ type
Last stabs type l m (some j) =
    (l ≤ j)
    × (j ≤ m)
    × ((stabs j).n_type ≡ type)
    × ((i : ℕ) → j < i → i ≤ m → (stabs i).n_type ≢ type)

module _ (stabs : ℕ → Stab) (type l : ℕ) where
  above_last :
      (m : ℕ) (P : ℕ → Type 0)
      → (stabs (suc m)).n_type ≢ type
      → ((i : ℕ) → P i → i ≤ m → (stabs i).n_type ≢ type)
      → (i : ℕ) → P i
      → i ≤ suc m
      → (stabs i).n_type ≢ type
  above_last m P other h i low high = elim (dec_le i m) [
    | yes le ↦ h i low le
    | no gt ↦ subst (λ j. (stabs j).n_type ≢ type) (omega (arith, gt)) other
  ]

  Last-suc :
      (m : ℕ) (o : Option ℕ)
      → (stabs (suc m)).n_type ≢ type
      → Last stabs type l m o
      → Last stabs type l (suc m) o
  Last-suc m none other h = above_last m (λ i. l ≤ i) other h
  Last-suc m (some j) other (low, high, at, none_after) =
      (low, omega arith, at, above_last m (λ i. j < i) other none_after)

  pub match_down-Last : (m : ℕ) → Last stabs type l m (match_down stabs type l m)
  unfolding match_down
  match_down-Last zero = elim (Bool-cases (leb l 0)) [
    | inr above ↦ rw above (λ i low high. absurd (ground (arith, above)))
    | inl within ↦ elim (Bool-cases ((stabs 0).n_type == type)) [
      | inl yes_type ↦
          rw (within, yes_type)
            (
              ground (arith, within),
              omega arith,
              eq_of_== (stabs 0).n_type type yes_type,
              λ i after high. absurd (omega arith),
            )
      | inr no_type ↦
          rw (within, no_type)
            λ i low high.
              subst (λ j. (stabs j).n_type ≢ type) (omega arith)
                (ne_of_== (stabs 0).n_type type no_type)
    ]
  ]
  match_down-Last (suc m) = elim (Bool-cases (leb l (suc m))) [
    | inr above ↦ rw above (λ i low high. absurd (ground (arith, above)))
    | inl within ↦ elim (Bool-cases ((stabs (suc m)).n_type == type)) [
      | inl yes_type ↦
          rw (within, yes_type)
            (
              ground (arith, within),
              omega arith,
              eq_of_== (stabs (suc m)).n_type type yes_type,
              λ i after high. absurd (omega arith),
            )
      | inr no_type ↦
          rw (within, no_type)
            (Last-suc m (match_down stabs type l m) (ne_of_== (stabs (suc m)).n_type type no_type)
              (match_down-Last m))
    ]
  ]

-- What a round of the loop does, from the state in which `l <= r`.
pub data Step (stabs : ℕ → Stab) (type : ℕ) (s : Search) : Search → Type 0 where
  no_match :
      ((i : ℕ) → s.l ≤ i → i ≤ middle s → (stabs i).n_type ≢ type)
      → Step stabs type s (record s { l = middle s + 1 })
  below :
      (m : ℕ)
      → Last stabs type s.l (middle s) (some m)
      → (stabs m).n_value < s.addr
      → Step stabs type s (record s { any_matches = true; left = m; l = middle s + 1 })
  above :
      (m : ℕ)
      → Last stabs type s.l (middle s) (some m)
      → s.addr < (stabs m).n_value
      → Step stabs type s (record s { any_matches = true; end = m; right = m })
  exact :
      (m : ℕ)
      → Last stabs type s.l (middle s) (some m)
      → (stabs m).n_value ≡ s.addr
      → Step stabs type s
          (record s { any_matches = true; left = m; l = m; addr = (s.addr + 1) % 2 ^ 32 })

module _ (stabs : ℕ → Stab) (type : ℕ) (s : Search) where
  compare_at-Step :
      (m : ℕ)
      → Last stabs type s.l (middle s) (some m)
      → Step stabs type s (compare_at stabs (middle s) m s)
  unfolding compare_at
  compare_at-Step m last = elim (Bool-cases (ltb (stabs m).n_value s.addr)) [
    | inl lt ↦ rw lt (below m last (ground (arith, lt)))
    | inr ge ↦ elim (Bool-cases (ltb s.addr (stabs m).n_value)) [
      | inl gt ↦ rw (ge, gt) (above m last (ground (arith, gt)))
      | inr le ↦ rw (ge, le) (exact m last (ground (arith, ge, le)))
    ]
  ]

  pub search_step-Step : Step stabs type s (search_step stabs type s)
  unfolding search_step
  search_step-Step =
      by_match (match_down stabs type s.l (middle s)) (match_down-Last stabs type s.l (middle s))
    where
      by_match :
          (o : Option ℕ)
          → Last stabs type s.l (middle s) o
          → Step stabs type s (elim o [
            | none ↦ record s { l = middle s + 1 }
            | some m ↦ compare_at stabs (middle s) m s
          ])
      by_match none last = no_match last
      by_match (some m) last = compare_at-Step m last
