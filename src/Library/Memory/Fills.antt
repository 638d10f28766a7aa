-- ===== src/Library/Memory/Fills.antt =====
-- `memset` fills, and up to `2 ^ 31 - 1` bytes the version in C does the same.
use csdi_jos.Common.{
  ℕ, zero, suc, ◌+◌, ◌-◌, ◌/◌, ◌%◌, ◌^◌, ◌≤◌, ◌<◌, ◌≡◌, ◌⊎◌, inl, inr, refl, sym, ap, ◌∙◌, subst,
  Bool, true, false, ◌&&◌, ◌==◌, update, dec_lt, Bool-cases, eq_of_==, all_below, all_below-apply,
  arith,
}
use mathlib.Core.Path.{fun_ext}
use csdi_jos.Kernel.State.Layout.{add32, is_neg}
use csdi_jos.Library.Memory.{
  Memory, byte_of, stos, rep_stos, splat, memset, set_bytes, memset_portable,
}
use csdi_jos.Library.Memory.Moves.{Filled, bytes, bytes_one, bytes_four, add32_lt}

abbrev splat_byte : (c j : ℕ) → Bool
splat_byte c j = byte_of (splat c) j == c

splat_table : all_below 256 (λ c. all_below 4 (splat_byte c)) ≡ true
unfolding all_below
splat_table = refl

-- Every byte of the word that `stosl` stores is `c`.
byte_of-splat : (c j : ℕ) → c < 256 → j < 4 → byte_of (splat c) j ≡ c
byte_of-splat c j lt lt' = eq_of_== (byte_of (splat c) j) c (
    all_below-apply 4 (splat_byte c) j
      (all_below-apply 256 (λ c. all_below 4 (splat_byte c)) c splat_table lt) lt')

stos_outside : (w d v a : ℕ) (m : Memory) → (a < d) ⊎ (d + w ≤ a) → stos w d v m a ≡ m a
stos_outside w d v a m out = ground arith

stos_inside :
    (w d v b i : ℕ) (m : Memory)
    → ((j : ℕ) → j < w → byte_of v j ≡ b)
    → i < w
    → stos w d v m (d + i) ≡ b
stos_inside w d v b i m each lt =
    let e : d + i - d ≡ i = omega arith in
    let stored : stos w d v m (d + i) ≡ byte_of v i = ground (arith, e) in stored ∙ each i lt

rep_stos-Filled :
    (w n d v b : ℕ) (m : Memory)
    → ((j : ℕ) → j < w → byte_of v j ≡ b)
    → d + bytes w n < 2 ^ 32
    → Filled m (rep_stos w n d v m) d (bytes w n) b
unfolding rep_stos
rep_stos-Filled w zero d v b m each lt = record {
  filled = λ i lt. absurd (omega arith);
  kept = λ a out. refl;
}
rep_stos-Filled w (suc n) d v b m each lt =
    let h = rep_stos-Filled w n (d + w) v b (stos w d v m) each (omega (arith, lt)) in
    let m' = rep_stos w n (d + w) v (stos w d v m) in
    rw (add32_lt d w (omega (arith, lt))) (record {
      filled = λ i lt'. elim (dec_lt i w) [
        | yes low ↦ h.kept (d + i) (inl (omega (arith, low))) ∙ stos_inside w d v b i m each low
        | no high ↦
            let e : d + i ≡ d + w + (i - w) = omega (arith, high) in
            ap m' e ∙ h.filled (i - w) (omega (arith, high, lt'))
      ];
      kept = λ a out. h.kept a (ground (arith, out)) ∙ stos_outside w d v a m (ground (arith, out));
    })

update-stos : (m : Memory) (d c : ℕ) → update m d (c % 256) ≡ stos 1 d c m
update-stos m d c = fun_ext (λ a. let e : d - d ≡ 0 = omega arith in ground (arith, e))

set_bytes-rep_stos : (n p c : ℕ) (m : Memory) → set_bytes n p c m ≡ rep_stos 1 n p c m
unfolding set_bytes rep_stos
set_bytes-rep_stos zero p c m = refl
set_bytes-rep_stos (suc n) p c m =
    rw (update-stos m p c) (set_bytes-rep_stos n (add32 p 1) c (stos 1 p c m))

Filled-unique :
    {m m' m'' : Memory} {d n b : ℕ}
    → Filled m m' d n b
    → Filled m m'' d n b
    → (a : ℕ) → m' a ≡ m'' a
Filled-unique {m' = m'} {m'' = m''} {d = d} {n = n} h h' a = elim (dec_lt a d) [
  | yes low ↦ h.kept a (inl low) ∙ sym (h'.kept a (inl low))
  | no high ↦ elim (dec_lt a (d + n)) [
    | yes inside ↦
        let e : d + (a - d) ≡ a = omega (arith, high) in
        let lt : a - d < n = omega (arith, high, inside) in
        subst (λ a. m' a ≡ m'' a) e (h.filled (a - d) lt ∙ sym (h'.filled (a - d) lt))
    | no out ↦ h.kept a (inr (omega (arith, out))) ∙ sym (h'.kept a (inr (omega (arith, out))))
  ]
]

module _ (v c n : ℕ) (m : Memory) (inside : v + n < 2 ^ 32) where
  by_bytes : Filled m (rep_stos 1 n v c m) v n (c % 256)
  by_bytes =
      subst (λ k. Filled m (rep_stos 1 n v c m) v k (c % 256)) (bytes_one n)
        (rep_stos-Filled 1 n v c (c % 256) m (λ j lt. ground (arith, lt))
          (omega (arith, bytes_one n)))

  by_words : n % 4 ≡ 0 → Filled m (rep_stos 4 (n / 4) v (splat (c % 256)) m) v n (c % 256)
  by_words four =
      let e : bytes 4 (n / 4) ≡ n = omega (arith, bytes_four (n / 4), four) in
      subst (λ k. Filled m (rep_stos 4 (n / 4) v (splat (c % 256)) m) v k (c % 256)) e
        (rep_stos-Filled 4 (n / 4) v (splat (c % 256)) (c % 256) m
          (λ j lt. byte_of-splat (c % 256) j (omega arith) lt) (omega (arith, e)))

  pub memset-Filled : Filled m (memset v c n m) v n (c % 256)
  unfolding memset
  memset-Filled = elim (Bool-cases (n == 0)) [
    | inl zero_bytes ↦
        rw zero_bytes (record {
          filled = λ i lt. absurd (ground (arith, zero_bytes, lt));
          kept = λ a out. refl;
        })
    | inr some_bytes ↦ elim (Bool-cases (v % 4 == 0 && n % 4 == 0)) [
      | inl four ↦ rw (some_bytes, four) (by_words (ground (arith, four)))
      | inr one ↦ rw (some_bytes, one) by_bytes
    ]
  ]

  pub memset_portable-Filled : n < 2 ^ 31 → Filled m (memset_portable v c n m) v n (c % 256)
  unfolding memset_portable
  memset_portable-Filled small =
      let pos : is_neg n ≡ false = ground (arith, small) in
      rw (pos, set_bytes-rep_stos n v c m) by_bytes

  -- Both versions leave the same memory.
  pub memset-memset_portable : n < 2 ^ 31 → (a : ℕ) → memset v c n m a ≡ memset_portable v c n m a
  memset-memset_portable small = Filled-unique memset-Filled (memset_portable-Filled small)
