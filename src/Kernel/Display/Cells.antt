-- ===== src/Kernel/Display/Cells.antt =====
-- The position stays on the screen, and what the operations write lies on it.
use csdi_jos.Common.{
  ℕ, zero, suc, ◌+◌, ◌%◌, ◌≤◌, ◌<◌, ◌≡◌, refl, ◌∙◌, ◌==◌, Bool-cases, inl, inr, arith,
}
use csdi_jos.Kernel.Display.{
  crt_cols, crt_size, Crt, with_attribute, put_cell, scroll, put_spaces, cga_putc,
}

-- From `s` to `s'` no word beyond the screen has changed, and the position is on the screen.
pub record OnScreen (s s' : Crt) : Type 0 where
  pub inside : s'.crt_pos < crt_size
  pub beyond : (i : ℕ) → crt_size ≤ i → s'.crt_buf i ≡ s.crt_buf i

put_cell-beyond :
    (c : ℕ) (s : Crt)
    → s.crt_pos < crt_size
    → (i : ℕ) → crt_size ≤ i
    → (put_cell c s).crt_buf i ≡ s.crt_buf i
unfolding put_cell
put_cell-beyond c s lt i far = ground arith

put_cell-position :
    (c : ℕ) (s : Crt) → s.crt_pos < crt_size → (put_cell c s).crt_pos < crt_size + crt_cols
unfolding put_cell
put_cell-position c s lt = ground arith

scroll-OnScreen : (s : Crt) → s.crt_pos < crt_size + crt_cols → OnScreen s (scroll s)
unfolding scroll
scroll-OnScreen s lt = record { inside = ground arith; beyond = λ i far. ground arith }

-- One cell, and the scrolling that it may need.
put_scroll-OnScreen : (c : ℕ) (s : Crt) → s.crt_pos < crt_size → OnScreen s (scroll (put_cell c s))
put_scroll-OnScreen c s lt =
    let o = scroll-OnScreen (put_cell c s) (put_cell-position c s lt) in
    record { inside = o.inside; beyond = λ i far. o.beyond i far ∙ put_cell-beyond c s lt i far }

OnScreen-trans : {s s' s'' : Crt} → OnScreen s s' → OnScreen s' s'' → OnScreen s s''
OnScreen-trans o o' = record {
  inside = o'.inside;
  beyond = λ i far. o'.beyond i far ∙ o.beyond i far;
}

put_spaces-OnScreen : (n : ℕ) (s : Crt) → s.crt_pos < crt_size → OnScreen s (put_spaces n s)
unfolding put_spaces
put_spaces-OnScreen zero s lt = record { inside = lt; beyond = λ i far. refl }
put_spaces-OnScreen (suc n) s lt =
    let first = put_scroll-OnScreen (with_attribute 32) s lt in
    OnScreen-trans first
      (put_spaces-OnScreen n (scroll (put_cell (with_attribute 32) s)) first.inside)

-- With the position on the screen of 25 rows of 80 cells, `cga_putc` of any word leaves the
-- position on the screen, scrolling where it is needed, and writes no cell beyond the screen.
pub cga_putc-OnScreen : (c : ℕ) (s : Crt) → s.crt_pos < crt_size → OnScreen s (cga_putc c s)
unfolding cga_putc
cga_putc-OnScreen c s lt = elim (Bool-cases (with_attribute c % 256 == 9)) [
  | inl tab ↦
      let spaces = put_spaces-OnScreen 5 s lt in
      rw tab
        (OnScreen-trans spaces (scroll-OnScreen (put_spaces 5 s) (omega (arith, spaces.inside))))
  | inr other ↦ rw other (put_scroll-OnScreen (with_attribute c) s lt)
]
