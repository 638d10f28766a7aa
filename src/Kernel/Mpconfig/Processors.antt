-- ===== src/Kernel/Mpconfig/Processors.antt =====
-- The processors that `mp_init` counts, against the list of the table's entries.
use csdi_jos.Common.{
  ℕ, zero, suc, ◌+◌, ◌/◌, ◌%◌, ◌≤◌, ◌<◌, ◌≡◌, refl, ap, ◌∙◌, subst, ◌≢◌, inl, inr, Bool, true,
  false, ◌&&◌, ◌==◌, ltb, leb, length, Option, none, some, List, [], ◌∷◌, if◌then◌else◌, Bool-cases,
  dec_lt, arith,
}
use csdi_jos.Library.Memory.{Memory}
use csdi_jos.Kernel.Mpconfig.{
  n_cpu, mpproc_size, found, Cpus, add_cpu, read_entries, finish_init, conf_entry, conf_lapicaddr,
  mpconfig, mp_init,
}

-- The flags of the processors among `n` entries from `p` on, up to an entry of unknown type.
unfoldable pub processors : Memory → (n p : ℕ) → List ℕ
processors m zero p = []
processors m (suc n) p =
    let next = processors m n (p + mpproc_size) in
    let later = processors m n (p + 8) in
    if m p == 0 then m (p + 3) ∷ next else if leb (m p) 4 then later else []

-- Are all types known?
unfoldable pub known : Memory → (n p : ℕ) → Bool
known m zero p = true
known m (suc n) p =
    let next = known m n (p + mpproc_size) in
    let later = known m n (p + 8) in if m p == 0 then next else if leb (m p) 4 then later else false

-- The number of the last processor that is marked as the one that boots.
abbrev pub last_boot : List ℕ → Option ℕ
last_boot [] = none
last_boot (f ∷ fs) = elim (last_boot fs) [
  | some k ↦ some (suc k)
  | none ↦ if f / 2 % 2 == 1 then some 0 else none
]

abbrev pub at_most : ℕ → ℕ
at_most n = if ltb n n_cpu then n else n_cpu

-- The index of the processor that boots, from `c` on, or `b` if none is marked.
abbrev pub boot_index : (c b : ℕ) → Option ℕ → ℕ
boot_index c b none = b
boot_index c b (some k) = at_most (c + k)

-- From `s` on, the processors with these flags have been counted.
pub record Counted (s : Cpus) (fs : List ℕ) (s' : Cpus) : Type 0 where
  pub count : s'.ncpu ≡ at_most (s.ncpu + length fs)
  pub boot : s'.bootcpu ≡ boot_index s.ncpu s.bootcpu (last_boot fs)
  pub numbered : (i : ℕ) → s.ncpu ≤ i → i < s'.ncpu → s'.cpu_id i ≡ i
  pub kept : (i : ℕ) → i < s.ncpu → s'.cpu_id i ≡ s.cpu_id i
  pub others : s'.started ≡ s.started

module _ (f : ℕ) (s : Cpus) (few : s.ncpu ≤ n_cpu) where
  add_cpu-count : (add_cpu f s).ncpu ≡ at_most (suc s.ncpu)
  unfolding add_cpu
  add_cpu-count = ground arith

  add_cpu-boot : (add_cpu f s).bootcpu ≡ (if f / 2 % 2 == 1 then s.ncpu else s.bootcpu)
  unfolding add_cpu
  add_cpu-boot = ground arith

  add_cpu-last : s.ncpu < n_cpu → (add_cpu f s).cpu_id s.ncpu ≡ s.ncpu
  unfolding add_cpu
  add_cpu-last lt = ground arith

  add_cpu-kept : (i : ℕ) → i < s.ncpu → (add_cpu f s).cpu_id i ≡ s.cpu_id i
  unfolding add_cpu
  add_cpu-kept i lt = ground arith

  add_cpu-others : (add_cpu f s).started ≡ s.started
  unfolding add_cpu
  add_cpu-others = ground arith

  add_cpu-ismp : (add_cpu f s).ismp ≡ s.ismp
  unfolding add_cpu
  add_cpu-ismp = ground arith

  boot_index-cons :
      (last : Option ℕ)
      → boot_index (add_cpu f s).ncpu (add_cpu f s).bootcpu last
        ≡ boot_index s.ncpu s.bootcpu
            (elim last [ some k ↦ some (suc k) | none ↦ if f / 2 % 2 == 1 then some 0 else none ])
  boot_index-cons none = ground (arith, add_cpu-boot)
  boot_index-cons (some k) = ground (arith, add_cpu-count)

  Counted-cons : {fs : List ℕ} {s' : Cpus} → Counted (add_cpu f s) fs s' → Counted s (f ∷ fs) s'
  Counted-cons {fs} {s'} h = record {
    count = ground (arith, h.count, add_cpu-count);
    boot = h.boot ∙ boot_index-cons (last_boot fs);
    numbered = λ i le lt. elim (dec_lt s.ncpu i) [
      | yes later ↦ h.numbered i (ground (arith, later, add_cpu-count)) lt
      | no here ↦
          let e : s.ncpu ≡ i = omega (arith, le, here) in
          let room : s.ncpu < n_cpu = ground (arith, h.count, e, lt) in
          subst (λ i. s'.cpu_id i ≡ i) e
            (h.kept s.ncpu (ground (arith, add_cpu-count, room)) ∙ add_cpu-last room)
    ];
    kept = λ i lt. h.kept i (ground (arith, add_cpu-count, lt)) ∙ add_cpu-kept i lt;
    others = h.others ∙ add_cpu-others;
  }

module _ (m : Memory) where
  read_entries-Counted :
      (n p : ℕ) (s : Cpus)
      → s.ncpu ≤ n_cpu
      → Counted s (processors m n p) (read_entries m n p s)
        × ((read_entries m n p s).ismp ≡ (s.ismp && known m n p))
  unfolding read_entries processors known
  read_entries-Counted zero p s few = (
    record {
      count = ground arith;
      boot = refl;
      numbered = λ i le lt. absurd (omega (arith, le, lt));
      kept = λ i lt. refl;
      others = refl;
    },
    ground arith,
  )
  read_entries-Counted (suc n) p s few = elim (Bool-cases (m p == 0)) [
    | inl processor ↦
        let s₁ = add_cpu (m (p + 3)) s in
        let (h, mp) =
          read_entries-Counted n (p + mpproc_size) s₁
            (ground (arith, add_cpu-count (m (p + 3)) s few)) in
        rw processor (
          Counted-cons (m (p + 3)) s few h,
          mp ∙ ap (λ b. b && known m n (p + mpproc_size)) (add_cpu-ismp (m (p + 3)) s few),
        )
    | inr not_processor ↦ elim (Bool-cases (leb (m p) 4)) [
      | inl other ↦ rw (not_processor, other) (read_entries-Counted n (p + 8) s few)
      | inr unknown ↦
          rw (not_processor, unknown)
            (
              record {
                count = ground arith;
                boot = refl;
                numbered = λ i le lt. absurd (omega (arith, le, lt));
                kept = λ i lt. refl;
                others = refl;
              },
              ground arith,
            )
    ]
  ]

-- What `mp_init` leaves, for the entries of the table at `conf`.
pub record Initialised (m : Memory) (conf : ℕ) (s s' : Cpus) : Type 0 where
  pub mp : s'.ismp ≡ known m (conf_entry m conf) (conf + 44)
  pub count : s'.ncpu ≡ (
      if known m (conf_entry m conf) (conf + 44)
      then at_most (length (processors m (conf_entry m conf) (conf + 44)))
      else 1)
  pub boot : s'.bootcpu ≡ boot_index 0 0 (last_boot (processors m (conf_entry m conf) (conf + 44)))
  pub up : s'.started s'.bootcpu ≡ true
  pub numbered :
      (i : ℕ)
      → i < at_most (length (processors m (conf_entry m conf) (conf + 44)))
      → s'.cpu_id i ≡ i
  pub others : (i : ℕ) → s'.bootcpu ≢ i → s'.started i ≡ s.started i

finish_init-Initialised :
    (m : Memory) (conf : ℕ) (s s₀ s₁ : Cpus)
    → s₀.ncpu ≡ 0
    → s₀.bootcpu ≡ 0
    → s₀.started ≡ s.started
    → Counted s₀ (processors m (conf_entry m conf) (conf + 44)) s₁
    → s₁.ismp ≡ known m (conf_entry m conf) (conf + 44)
    → Initialised m conf s (finish_init s₁)
unfolding finish_init
finish_init-Initialised m conf s s₀ s₁ none_yet first same h mp =
    let fs = processors m (conf_entry m conf) (conf + 44) in
    let count : s₁.ncpu ≡ at_most (length fs) = ground (arith, h.count, none_yet) in
    let boot : s₁.bootcpu ≡ boot_index 0 0 (last_boot fs) =
      h.boot
      ∙ ap (λ c. boot_index c s₀.bootcpu (last_boot fs)) none_yet
      ∙ ap (λ b. boot_index 0 b (last_boot fs)) first in
    let started : (i : ℕ) → s₁.started i ≡ s.started i =
      λ i. ap (λ (f : ℕ → Bool). f i) (h.others ∙ same) in
    let numbered : (i : ℕ) → i < at_most (length fs) → s₁.cpu_id i ≡ i =
      λ i lt. h.numbered i (omega (arith, none_yet)) (omega (arith, count, lt)) in
    elim (Bool-cases s₁.ismp) [
      | inl up ↦ (record {
        mp = ground (arith, up, mp);
        count = ground (arith, up, mp, count);
        boot = ground (arith, up, boot);
        up = ground (arith, up);
        numbered = λ i lt. ground (arith, up, numbered i lt);
        others = λ i ne. ground (arith, up, started i);
      })
      | inr down ↦ (record {
        mp = ground (arith, down, mp);
        count = ground (arith, down, mp, count);
        boot = ground (arith, down, boot);
        up = ground (arith, down);
        numbered = λ i lt. ground (arith, down, numbered i lt);
        others = λ i ne. ground (arith, down, started i);
      })
    ]

mp_init_run :
    (npages : ℕ) (m : Memory) (s : Cpus) {conf : ℕ}
    → mpconfig npages m ≡ found conf
    → mp_init npages m s
      ≡ found (
          finish_init (
            read_entries m
              (conf_entry m conf)
              (conf + 44)
              (record s { bootcpu = 0; ismp = true; lapic = some (conf_lapicaddr m conf) })))
unfolding mp_init
mp_init_run npages m s at = rw (at, mp_init) refl

-- Let no processor have been counted, and `mpconfig` find the table at `conf`. Then `mp_init`
-- returns. The machine is multiprocessor exactly if all entry types are known; the count is then
-- that of the table's processors or 8, and else 1. The processors up to 8 are numbered from 0. The
-- one that boots is the last that is marked, or number 0, and it alone has been started; it is
-- number 8, which there is not, if more than 8 processors come before the mark.
pub mp_init-Initialised :
    (npages : ℕ) (m : Memory) (s : Cpus) {conf : ℕ}
    → s.ncpu ≡ 0
    → mpconfig npages m ≡ found conf
    → (s' : Cpus) × (mp_init npages m s ≡ found s') × Initialised m conf s s'
mp_init-Initialised npages m s {conf} none_yet at =
    let s₀ : Cpus = record s { bootcpu = 0; ismp = true; lapic = some (conf_lapicaddr m conf) } in
    let (h, mp) =
      read_entries-Counted m (conf_entry m conf) (conf + 44) s₀ (omega (arith, none_yet)) in
    (
      finish_init (read_entries m (conf_entry m conf) (conf + 44) s₀),
      mp_init_run npages m s at,
      finish_init-Initialised m conf s s₀ (read_entries m (conf_entry m conf) (conf + 44) s₀)
          none_yet refl refl h mp,
    )
