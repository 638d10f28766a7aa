-- ===== src/Boot/Readseg.antt =====
-- `readseg` reads a segment of the kernel image into memory, and ends.
use csdi_jos.Common.{
  ℕ, zero, suc, ◌+◌, ◌-◌, ◌*◌, ◌/◌, ◌%◌, ◌^◌, ◌≤◌, ◌<◌, ◌≡◌, ◌⊎◌, inl, inr, refl, ap, ◌∙◌, subst,
  true, false, ltb, some, dec_lt, arith, bit_or,
}
use csdi_jos.Kernel.State.Layout.{add32}
use csdi_jos.Library.Memory.{Memory}
use csdi_jos.Boot.{sect_size, Drive, readsect, readseg_loop, readseg}

-- The drive has the sectors of `disk`: the bits of an address that its ports take are 28.
pub record Serves (drive : Drive) (disk : ℕ → ℕ) : Type 0 where
  pub sector :
      (o i : ℕ)
      → o < 2 ^ 28
      → i < sect_size
      → drive (o % 256) (o / 256 % 256) (o / 2 ^ 16 % 256) (bit_or (o / 2 ^ 24) 0xe0) i
        ≡ disk (sect_size * o + i)

-- Between `m` and `m'` the `n` bytes at `pa` have been read from the disk's byte `from` on, and
-- nothing else has changed.
record Reads (disk : ℕ → ℕ) (m m' : Memory) (pa from n : ℕ) : Type 0 where
  read : (i : ℕ) → i < n → m' (pa + i) ≡ disk (from + i)
  kept : (a : ℕ) → (a < pa) ⊎ (pa + n ≤ a) → m' a ≡ m a

-- The `count` bytes at `pa` are those of the image, which starts at the disk's second sector, from
-- `offset` on; nothing beyond their sectors has changed.
pub record Loaded (disk : ℕ → ℕ) (m m' : Memory) (pa count offset : ℕ) : Type 0 where
  pub loaded : (i : ℕ) → i < count → m' (pa + i) ≡ disk (sect_size + (offset + i))
  pub kept : (a : ℕ) → (a < pa - pa % sect_size) ⊎ (pa + count + 511 ≤ a) → m' a ≡ m a

module _ (drive : Drive) (disk : ℕ → ℕ) (serves : Serves drive disk) where
  readsect-inside :
      (pa o i : ℕ) (m : Memory)
      → o < 2 ^ 28
      → i < sect_size
      → readsect drive pa o m (pa + i) ≡ disk (sect_size * o + i)
  readsect-inside pa o i m small lt =
      let e : pa + i - pa ≡ i = omega arith in ground (arith, serves.sector o i small lt, e)

  readsect-outside :
      (pa o a : ℕ) (m : Memory) → (a < pa) ⊎ (pa + sect_size ≤ a) → readsect drive pa o m a ≡ m a
  readsect-outside pa o a m out = ground (arith, out)

  -- A sector, and the sectors that follow it.
  Reads-first :
      (pa o n : ℕ) (m m' : Memory)
      → o < 2 ^ 28
      → Reads disk (readsect drive pa o m) m' (pa + 512) (sect_size * (o + 1)) n
      → Reads disk m m' pa (sect_size * o) (512 + n)
  Reads-first pa o n m m' small h = record {
    read = λ i lt. elim (dec_lt i 512) [
      | yes low ↦ h.kept (pa + i) (inl (omega (arith, low))) ∙ readsect-inside pa o i m small low
      | no high ↦
          let at : pa + i ≡ pa + 512 + (i - 512) = omega (arith, high) in
          let from : sect_size * (o + 1) + (i - 512) ≡ sect_size * o + i = omega (arith, high) in
          ap m' at ∙ h.read (i - 512) (omega (arith, high, lt)) ∙ ap disk from
    ];
    kept =
        λ a out. h.kept a (ground (arith, out)) ∙ readsect-outside pa o a m (ground (arith, out));
  }

  round :
      (fuel pa end_pa o : ℕ) (m : Memory)
      → pa < end_pa
      → pa + 512 < 2 ^ 32
      → o + 1 < 2 ^ 28
      → readseg_loop drive (suc fuel) pa end_pa o m
        ≡ readseg_loop drive fuel (pa + 512) end_pa (o + 1) (readsect drive pa o m)
  unfolding readseg_loop
  round fuel pa end_pa o m lt wrap small =
      let go : ltb pa end_pa ≡ true = ground (arith, lt) in
      let next : add32 pa sect_size ≡ pa + 512 = omega (arith, wrap) in
      let next_o : add32 o 1 ≡ o + 1 = omega (arith, small) in rw (go, next, next_o) refl

  -- `n` rounds, with more fuel than that.
  readseg_loop-Reads :
      (n fuel pa end_pa o : ℕ) (m : Memory)
      → n < fuel
      → end_pa ≤ pa + 512 * n
      → pa + 512 * n < end_pa + 512
      → pa + 512 * n < 2 ^ 32
      → o + n < 2 ^ 28
      → (m' : Memory) × (readseg_loop drive fuel pa end_pa o m ≡ some m')
        × Reads disk m m' pa (sect_size * o) (512 * n)
  unfolding readseg_loop
  readseg_loop-Reads n zero pa end_pa o m more far near wrap small = absurd (omega (arith, more))
  readseg_loop-Reads zero (suc fuel) pa end_pa o m more far near wrap small =
      let stop : ltb pa end_pa ≡ false = ground (arith, far) in
      (m, rw stop refl, record { read = λ i lt. absurd (omega (arith, lt)); kept = λ a out. refl })
  readseg_loop-Reads (suc n) (suc fuel) pa end_pa o m more far near wrap small =
      let (m', done, reads) =
        readseg_loop-Reads n fuel (pa + 512) end_pa (o + 1) (readsect drive pa o m)
          (omega (arith, more)) (omega (arith, far)) (omega (arith, near)) (omega (arith, wrap))
          (omega (arith, small)) in
      let size : 512 + 512 * n ≡ 512 * suc n = omega arith in
      (
        m',
        round fuel pa end_pa o m (omega (arith, near)) (omega (arith, wrap)) (omega (arith, small))
            ∙ done,
        subst (Reads disk m m' pa (sect_size * o)) size
            (Reads-first pa o (512 * n) m m' (omega (arith, small)) reads),
      )

  pub readseg-Loaded :
      (pa count offset : ℕ) (m : Memory)
      → pa + count ≤ 2 ^ 32 - 512
      → offset + count < 2 ^ 36
      → pa % sect_size ≡ offset % sect_size
      → (m' : Memory) × (readseg drive pa count offset m ≡ some m')
        × Loaded disk m m' pa count offset
  unfolding readseg
  readseg-Loaded pa count offset m inside on_disk same =
      let start : ℕ = pa - pa % sect_size in
      let n : ℕ = (pa + count - start + 511) / 512 in
      let end_pa : add32 pa count ≡ pa + count = omega (arith, inside) in
      let (m', done, reads) =
        readseg_loop-Reads n (suc (2 ^ 23)) start (pa + count) (offset / sect_size + 1) m
          (omega (arith, inside)) (omega arith) (omega arith) (omega (arith, inside))
          (omega (arith, on_disk, same)) in
      (
        m',
        ap (λ e. readseg_loop drive (suc (2 ^ 23)) start e (offset / sect_size + 1) m) end_pa
            ∙ done,
        record {
          loaded = λ i lt.
              let at : pa + i ≡ start + (pa % sect_size + i) = omega arith in
              let from : sect_size * (offset / sect_size + 1) + (pa % sect_size + i)
                  ≡ sect_size + (offset + i) =
                omega (arith, same) in
              ap m' at ∙ reads.read (pa % sect_size + i) (omega (arith, lt)) ∙ ap disk from;
          kept = λ a out.
              reads.kept a (elim out [ inl low ↦ inl low | inr high ↦ inr (omega (arith, high)) ]);
        },
      )
