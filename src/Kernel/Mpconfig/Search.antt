-- ===== src/Kernel/Mpconfig/Search.antt =====
-- The search answers the first structure with the signature and the checksum.
use csdi_jos.Common.{
  ℕ, zero, suc, ◌+◌, ◌*◌, ◌-◌, ◌^◌, ◌<◌, ◌≡◌, inl, inr, refl, sym, subst, true, false, none, some,
  Option, Bool-cases, arith,
}
use csdi_jos.Kernel.State.Layout.{add32}
use csdi_jos.Library.Memory.{Memory}
use csdi_jos.Kernel.Mpconfig.{
  mp_size, rounds, kernel_pointer, is_mp, search_loop, Answer, found, null, panics, in_memory,
  mpsearch1,
}

-- The answer is the first structure among `n` from `a` on, or null if there is none.
pub data FirstMp (m : Memory) (a n : ℕ) : Option ℕ → Type 0 where
  first :
      (k : ℕ)
      → k < n
      → is_mp m (a + mp_size * k) ≡ true
      → ((j : ℕ) → j < k → is_mp m (a + mp_size * j) ≡ false)
      → FirstMp m a n (some (a + mp_size * k))
  no_mp : ((j : ℕ) → j < n → is_mp m (a + mp_size * j) ≡ false) → FirstMp m a n none

module _ (m : Memory) where
  further :
      (a n j : ℕ)
      → is_mp m a ≡ false
      → ((i : ℕ) → i < n → is_mp m (a + mp_size + mp_size * i) ≡ false)
      → j < suc n
      → is_mp m (a + mp_size * j) ≡ false
  further a n zero here later lt = subst (λ b. is_mp m b ≡ false) (omega arith) here
  further a n (suc j) here later lt =
      subst (λ b. is_mp m b ≡ false) (omega arith) (later j (omega (arith, lt)))

  FirstMp-next :
      (a n : ℕ) (o : Option ℕ)
      → is_mp m a ≡ false
      → FirstMp m (a + mp_size) n o
      → FirstMp m a (suc n) o
  FirstMp-next a n _ here (first k lt is before) =
      let e : a + mp_size * suc k ≡ a + mp_size + mp_size * k = omega arith in
      subst (λ b. FirstMp m a (suc n) (some b)) e
        (first (suc k) (omega (arith, lt)) (subst (λ b. is_mp m b ≡ true) (sym e) is)
          (λ j lt'. further a k j here before lt'))
  FirstMp-next a n _ here (no_mp all) = no_mp (λ j lt. further a n j here all lt)

  search_loop-FirstMp : (n a : ℕ) → FirstMp m a n (search_loop m n a)
  unfolding search_loop
  search_loop-FirstMp zero a = no_mp (λ j lt. absurd (omega (arith, lt)))
  search_loop-FirstMp (suc n) a = elim (Bool-cases (is_mp m a)) [
    | inl is ↦
        let e : a + mp_size * 0 ≡ a = omega arith in
        rw is (
          subst (λ b. FirstMp m a (suc n) (some b)) e
            (first 0 (omega arith) (subst (λ b. is_mp m b ≡ true) (sym e) is)
              (λ j lt. absurd (omega (arith, lt)))))
    | inr no_match ↦ rw no_match (
        FirstMp-next a n (search_loop m n (a + mp_size)) no_match
          (search_loop-FirstMp n (a + mp_size)))
  ]

-- What `mpsearch1` answers is the first structure that begins before `stop`, and null means that none
-- does.
abbrev pub Finds : (m : Memory) (a stop : ℕ) → Answer ℕ → Type 0
Finds m a stop (found mp) =
    (k : ℕ) × (mp ≡ a + mp_size * k)
    × (mp < stop)
    × (is_mp m mp ≡ true)
    × ((j : ℕ) → j < k → is_mp m (a + mp_size * j) ≡ false)
Finds m a stop null = (j : ℕ) → a + mp_size * j < stop → is_mp m (a + mp_size * j) ≡ false
Finds m a stop panics = ⊥

module _ (a stop : ℕ) (start : a < 2 ^ 28 - 4096) (end : stop < 2 ^ 28 - 4096) where
  round_inside :
      (k : ℕ) → k < rounds (kernel_pointer a) (kernel_pointer stop) → a + mp_size * k < stop
  round_inside k lt = ground (arith, start, end, lt)

  round_before :
      (k : ℕ) → a + mp_size * k < stop → k < rounds (kernel_pointer a) (kernel_pointer stop)
  round_before k lt = ground (arith, start, end, lt)

  Finds-answer :
      (m : Memory) (o : Option ℕ)
      → FirstMp m a (rounds (kernel_pointer a) (kernel_pointer stop)) o
      → Finds m a stop (elim o [ none ↦ null | some mp ↦ found mp ])
  Finds-answer m _ (first k lt is before) = (k, refl, round_inside k lt, is, before)
  Finds-answer m _ (no_mp all) = λ j lt. all j (round_before j lt)

in_memory_below : (npages a : ℕ) → npages < 2 ^ 16 → in_memory npages a ≡ true → a < 2 ^ 28 - 4096
in_memory_below npages a small inside = ground (arith, small, inside)

-- Let memory have less than 2 ^ 16 pages, and let `a` and the sum of `a` and `len`, modulo 2 ^ 32,
-- lie in memory. Then `mpsearch1` answers the first of the addresses at a multiple of 16 bytes from
-- `a` and below this sum at which the signature is `_MP_` and the 16 bytes add up to 0 modulo 256,
-- and null exactly if there is none.
pub mpsearch1-Finds :
    (npages : ℕ) (m : Memory) (a len : ℕ)
    → npages < 2 ^ 16
    → in_memory npages a ≡ true
    → in_memory npages (add32 a len) ≡ true
    → Finds m a (add32 a len) (mpsearch1 npages m a len)
unfolding mpsearch1
mpsearch1-Finds npages m a len small start end =
    rw (start, end)
      (Finds-answer a (add32 a len) (in_memory_below npages a small start)
        (in_memory_below npages (add32 a len) small end) m
        (search_loop m (rounds (kernel_pointer a) (kernel_pointer (add32 a len))) a)
        (search_loop-FirstMp m (rounds (kernel_pointer a) (kernel_pointer (add32 a len))) a))
