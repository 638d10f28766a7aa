-- ===== src/Library/Memory/Copies.antt =====
-- `memmove` copies also where the two ranges overlap, and the version in C does the same.
use csdi_jos.Common.{
  ℕ, zero, suc, ◌+◌, ◌-◌, ◌/◌, ◌%◌, ◌^◌, ◌≤◌, ◌<◌, ◌≡◌, ◌⊎◌, inl, inr, refl, sym, ◌∙◌, subst, ◌&&◌,
  ◌==◌, ltb, update, dec_lt, Bool-cases, arith,
}
use mathlib.Core.Path.{fun_ext}
use csdi_jos.Kernel.State.Layout.{add32, sub32}
use csdi_jos.Library.Memory.{
  Memory, movs, rep_movs, rep_movs_down, move_up, move_down, memmove, memmove_portable,
}
use csdi_jos.Library.Memory.Moves.{
  Copied, bytes, bytes_one, bytes_four, rep_movs-Copied, rep_movs_down-Copied,
}

update-movs : (m : Memory) (d s : ℕ) → update m d (m s) ≡ movs 1 d s m
update-movs m d s = fun_ext (λ a. let e : s + (d - d) ≡ s = omega arith in ground (arith, e))

move_up-rep_movs : (n d s : ℕ) (m : Memory) → move_up n d s m ≡ rep_movs 1 n d s m
unfolding move_up rep_movs
move_up-rep_movs zero d s m = refl
move_up-rep_movs (suc n) d s m =
    rw (update-movs m d s) (move_up-rep_movs n (add32 d 1) (add32 s 1) (movs 1 d s m))

move_down-rep_movs_down :
    (n d s : ℕ) (m : Memory) → move_down n d s m ≡ rep_movs_down 1 n (sub32 d 1) (sub32 s 1) m
unfolding move_down rep_movs_down
move_down-rep_movs_down zero d s m = refl
move_down-rep_movs_down (suc n) d s m =
    rw (update-movs m (sub32 d 1) (sub32 s 1))
      (move_down-rep_movs_down n (sub32 d 1) (sub32 s 1) (movs 1 (sub32 d 1) (sub32 s 1) m))

module _ (dst src n : ℕ) (m : Memory) (to : dst + n < 2 ^ 32) (from : src + n < 2 ^ 32) where
  -- The copies of `k` units of `w` bytes, downwards from the top one and upwards.
  down :
      (w k : ℕ)
      → bytes w k ≡ n
      → 0 < w
      → src < dst
      → dst < src + n
      → Copied m (rep_movs_down w k (sub32 (add32 dst n) w) (sub32 (add32 src n) w) m) dst src n
  down w zero e pos lt overlap = absurd (omega (arith, e))
  down w (suc k) e pos lt overlap =
      let top : (a : ℕ) → a + n < 2 ^ 32 → sub32 (add32 a n) w ≡ a + bytes w k =
        λ a lt'. omega (arith, lt', e) in
      rw (top dst to, top src from)
        (subst (Copied m (rep_movs_down w (suc k) (dst + bytes w k) (src + bytes w k) m) dst src) e
          (rep_movs_down-Copied w k dst src m (omega (arith, e)) (omega arith)))

  up :
      (w k : ℕ)
      → bytes w k ≡ n
      → (dst ≤ src) ⊎ (src + n ≤ dst)
      → Copied m (rep_movs w k dst src m) dst src n
  up w k e apart = subst (Copied m (rep_movs w k dst src m) dst src) e (
      rep_movs-Copied w k dst src m (omega (arith, e)) (omega (arith, e))
        (ground (arith, apart, e)))

  -- For two ranges of `n` bytes below the last byte of the address space, which may overlap,
  -- `memmove` with its string instructions leaves at `dst` the bytes that `src` had, and changes no
  -- other byte.
  pub memmove-Copied : Copied m (memmove dst src n m) dst src n
  unfolding memmove
  memmove-Copied = elim (Bool-cases (ltb src dst && ltb dst (add32 src n))) [
    | inl over ↦ elim (Bool-cases (add32 src n % 4 == 0 && add32 dst n % 4 == 0 && n % 4 == 0)) [
      | inl four ↦
          rw (over, four)
            (down 4 (n / 4) (ground (arith, bytes_four (n / 4), four)) (omega arith)
              (ground (arith, over)) (ground (arith, over)))
      | inr one ↦
          rw (over, one)
            (down 1 n (bytes_one n) (omega arith) (ground (arith, over)) (ground (arith, over)))
    ]
    | inr apart ↦ elim (Bool-cases (src % 4 == 0 && dst % 4 == 0 && n % 4 == 0)) [
      | inl four ↦
          rw (apart, four)
            (up 4 (n / 4) (ground (arith, bytes_four (n / 4), four)) (ground (arith, apart)))
      | inr one ↦ rw (apart, one) (up 1 n (bytes_one n) (ground (arith, apart)))
    ]
  ]

  pub memmove_portable-Copied : Copied m (memmove_portable dst src n m) dst src n
  unfolding memmove_portable
  memmove_portable-Copied = elim (Bool-cases (ltb src dst && ltb dst (add32 src n))) [
    | inl over ↦
        rw (over, move_down-rep_movs_down n (add32 dst n) (add32 src n) m)
          (down 1 n (bytes_one n) (omega arith) (ground (arith, over)) (ground (arith, over)))
    | inr apart ↦
        rw (apart, move_up-rep_movs n dst src m) (up 1 n (bytes_one n) (ground (arith, apart)))
  ]

  -- For two ranges of `n` bytes below the last byte of the address space, which may overlap,
  -- `memmove` in assembly, which copies words where all is aligned, and `memmove` in C leave the
  -- same memory.
  pub memmove-memmove_portable : (a : ℕ) → memmove dst src n m a ≡ memmove_portable dst src n m a
  memmove-memmove_portable a =
      let c = memmove-Copied in
      let c' = memmove_portable-Copied in
      elim (dec_lt a dst) [
        | yes low ↦ c.kept a (inl low) ∙ sym (c'.kept a (inl low))
        | no high ↦ elim (dec_lt a (dst + n)) [
          | yes inside ↦
              let e : dst + (a - dst) ≡ a = omega (arith, high) in
              let lt : a - dst < n = omega (arith, high, inside) in
              subst (λ a. memmove dst src n m a ≡ memmove_portable dst src n m a) e
                (c.copied (a - dst) lt ∙ sym (c'.copied (a - dst) lt))
          | no out ↦
              c.kept a (inr (omega (arith, out))) ∙ sym (c'.kept a (inr (omega (arith, out))))
        ]
      ]
