-- ===== src/Kernel/Kdebug/Loop.antt =====
-- The loop of `stab_binsearch` ends, and keeps what its rounds keep.
use csdi_jos.Common.{
  ℕ, zero, suc, ◌+◌, ◌-◌, ◌*◌, ◌≤◌, ◌<◌, ◌≡◌, refl, ap, ◌∙◌, Bool, ◌==◌, some, if◌then◌else◌,
  ℕ_discrete, dec_lt, arith, ltb_of_lt, ltb_of_le,
}
use csdi_jos.Kernel.Kdebug.{Stab, Search, search_step, search_loop}
use csdi_jos.Kernel.Kdebug.Steps.{Step, no_match, below, above, exact, search_step-Step}

-- Twice the stabs that are left, and one if the first of them has the address that is looked for:
-- a round that finds it there does not shorten the range.
abbrev pub measure : (ℕ → Stab) → Search → ℕ
measure stabs s = 2 * (s.right - s.l) + (if (stabs s.l).n_value == s.addr then 1 else 0)

pub at_most_one : (b : Bool) → (if b then 1 else 0) ≤ 1
at_most_one b = ground arith

module _ (stabs : ℕ → Stab) (type : ℕ) where
  Step-measure :
      (s s' : Search) → s.l < s.right → Step stabs type s s' → measure stabs s' < measure stabs s
  Step-measure s _ more (no_match _) = ground arith
  Step-measure s _ more (below m last lt) = ground arith
  Step-measure s _ more (above m (low, high, at, after) gt) = ground arith
  Step-measure s _ more (exact m (low, high, at, after) eq) = elim (ℕ_discrete s.l m) [
    | no ne ↦ ground arith
    | yes same ↦
        let was : (stabs s.l).n_value ≡ s.addr = ap (λ i. (stabs i).n_value) same ∙ eq in
        let is : (stabs m).n_value ≡ s.addr = eq in ground arith
  ]

  -- What every round keeps holds at the end, which comes with fuel beyond the measure.
  pub search_loop_rule :
      (Inv : Search → Type 0)
      → ((s s' : Search) → s.l < s.right → Inv s → Step stabs type s s' → Inv s')
      → (fuel : ℕ) (s : Search) → measure stabs s < fuel
      → Inv s
      → (s' : Search) × (search_loop fuel stabs type s ≡ some s') × Inv s' × (s'.right ≤ s'.l)
  unfolding search_loop
  search_loop_rule Inv keeps zero s enough inv = absurd (omega (arith, enough))
  search_loop_rule Inv keeps (suc fuel) s enough inv = elim (dec_lt s.l s.right) [
    | no done ↦ rw (ltb_of_le s.l s.right (omega (arith, done))) (s, refl, inv, omega (arith, done))
    | yes more ↦
        let step = search_step-Step stabs type s in
        rw (ltb_of_lt s.l s.right more) (
          search_loop_rule Inv keeps fuel (search_step stabs type s)
            (omega (arith, enough, Step-measure s (search_step stabs type s) more step))
            (keeps s (search_step stabs type s) more inv step))
  ]
