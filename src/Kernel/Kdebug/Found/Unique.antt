-- ===== src/Kernel/Kdebug/Found/Unique.antt =====
-- An entry that the search must answer is the one it answers.
use csdi_jos.Common.{
  ℕ, suc, ◌≤◌, ◌<◌, ◌≡◌, inl, inr, refl, sym, ap, ◌∙◌, subst, some, dec_le, dec_lt, arith,
}
use csdi_jos.Kernel.Kdebug.{ℤ, pos, Stab, Region, int_before, one_above, stab_binsearch}
use csdi_jos.Kernel.Kdebug.Found.{Ascending, Reaches}
use csdi_jos.Kernel.Kdebug.Found.Ends.{
  Next, Answer, no_entry, entry, all_beyond, stab_binsearch-Answer,
}

module _ {stabs : ℕ → Stab} {type first end addr : ℕ} where
  Next-bound : {m e : ℕ} → Next stabs type first end addr m e → e ≤ end
  Next-bound n = elim n.stops [ inl e ↦ omega (arith, e) | inr b ↦ omega (arith, b.high) ]

  Next-least :
      {m e e' : ℕ}
      → Next stabs type first end addr m e
      → Next stabs type first end addr m e'
      → m ≤ e
      → e' ≤ e
  Next-least {m} {e} {e'} n n' low = elim n.stops [
    | inl at ↦ omega (arith, at, Next-bound n')
    | inr b ↦ elim (dec_le e' e) [
      | yes le ↦ le
      | no gt ↦ absurd (n'.clear e low (omega (arith, gt)) b.at)
    ]
  ]

  module _ (asc : Ascending stabs type first end addr) where
    -- An entry at or below the address is not behind one that lies beyond.
    pub Reaches-before :
        {m i e : ℕ}
        → Reaches stabs type first end addr i
        → Next stabs type first end addr m e
        → i < e
    Reaches-before {m} {i} {e} r n = elim n.stops [
      | inl at ↦ omega (arith, at, r.high)
      | inr b ↦ elim (dec_le e i) [
        | no gt ↦ omega (arith, gt)
        | yes le ↦
            absurd (omega (arith, asc.sorted e i b.low le r.high b.at r.at, b.value, r.value))
      ]
    ]

    last_one :
        {m i e : ℕ}
        → Reaches stabs type first end addr i
        → Next stabs type first end addr (suc m) e
        → i ≤ m
    last_one {m} {i} r n = elim (dec_le i m) [
      | yes le ↦ le
      | no gt ↦ absurd (n.clear i (omega (arith, gt)) (Reaches-before r n) r.at)
    ]

    -- There is one answer.
    Answer-entry :
        (m e : ℕ) (g : Region)
        → Reaches stabs type first end addr m
        → Next stabs type first end addr (suc m) e
        → Answer stabs type first end addr g
        → g ≡ record { region_left = pos m; region_right = int_before e }
    Answer-entry m e _ r n (no_entry none_in) = absurd (none_in m r.low r.high r.at)
    Answer-entry m e _ r n (entry i e' r' n' lt) =
        let same : i ≡ m = omega (arith, last_one r' n, last_one r n') in
        let next' = subst (λ j. Next stabs type first end addr (suc j) e') same n' in
        let ends : e' ≡ e = omega (
          arith,
          Next-least n next' (Reaches-before r n),
          Next-least next' n (Reaches-before r next'),
        ) in
        rw (same, ends) refl
    Answer-entry m e _ r n (all_beyond e' b none_in) = elim (dec_lt m e') [
      | yes lt ↦ absurd (none_in m r.low lt r.at)
      | no ge ↦ absurd (
          omega
            (arith, asc.sorted e' m b.low (omega (arith, ge)) r.high b.at r.at, b.value, r.value))
    ]

    pub stab_binsearch-entry :
        (right : ℤ) (m e : ℕ)
        → end ≡ one_above right
        → Reaches stabs type first end addr m
        → Next stabs type first end addr (suc m) e
        → stab_binsearch stabs (pos first) right type addr
          ≡ some (record { region_left = pos m; region_right = int_before e })
    stab_binsearch-entry right m e at r n =
        let asc' = subst (λ x. Ascending stabs type first x addr) at asc in
        let (g, found, answer) =
          stab_binsearch-Answer right asc' (omega (arith, at, r.low, r.high)) in
        found
        ∙ ap some
            (Answer-entry m e g r n (subst (λ x. Answer stabs type first x addr g) (sym at) answer))
