-- ===== src/Kernel/Vm/Check.antt =====
-- `user_mem_check` against the range of addresses that it is about.
use csdi_jos.Common.{
  ℕ, zero, suc, ◌+◌, ◌-◌, ◌*◌, ◌/◌, ◌%◌, ◌^◌, ◌≤◌, ◌<◌, ◌≡◌, ◌⊎◌, inl, inr, refl, ap, ◌∙◌, Bool,
  true, false, leb, ltb, Option, some, if◌then◌else◌, arith, Bool-cases, dec_lt,
}
use csdi_jos.Kernel.State.{Kernel, Env, ret}
use csdi_jos.Kernel.State.Returns.{Returns, Returns-mono}
use csdi_jos.Kernel.State.Layout.{
  u_lim, pdx, ptx, add32, round_up, round_down, pte_p, pte_w, pte_u, pte_frame, e_fault, pg_size,
}
use csdi_jos.Kernel.Vm.{previ_allows, check_index, check_loop, user_mem_check}

-- Every page table that the directory names lies in memory.
abbrev pub IsDirectory : Kernel → ℕ → Type 0
IsDirectory k pgdir =
    (i : ℕ) → pte_p (k.frames pgdir i) ≡ true → pte_frame (k.frames pgdir i) < k.npages

-- The entry for an address, where its page table is present.
abbrev pub entry : Kernel → (pgdir a : ℕ) → ℕ
entry k pgdir a = k.frames (pte_frame (k.frames pgdir (pdx a))) (ptx a)

-- A user program may access the address with these permissions.
pub record Accessible (k : Kernel) (pgdir perm a : ℕ) : Type 0 where
  pub below : a < u_lim
  pub table : pte_p (k.frames pgdir (pdx a)) ≡ true
  pub present : pte_p (entry k pgdir a) ≡ true
  pub user : pte_u (entry k pgdir a) ≡ true
  pub writable : pte_w perm ≡ true → pte_w (entry k pgdir a) ≡ true

module _ (k : Kernel) (pgdir perm : ℕ) where
  allowed : ℕ → Bool
  allowed a =
      if leb u_lim a
      then false
      else if pte_p (k.frames pgdir (pdx a))
      then previ_allows (entry k pgdir a) perm
      else false

  allowed-Accessible : (a : ℕ) → allowed a ≡ true → Accessible k pgdir perm a
  unfolding allowed previ_allows
  allowed-Accessible a h = ground arith

  Accessible-allowed : (a : ℕ) → Accessible k pgdir perm a → allowed a ≡ true
  unfolding allowed previ_allows
  Accessible-allowed a h = ground (arith, h.writable)

  allowed-page : (a b : ℕ) → a / 4096 ≡ b / 4096 → allowed a ≡ allowed b
  unfolding allowed
  allowed-page a b e =
      let d : pdx a ≡ pdx b = omega arith in
      let t : ptx a ≡ ptx b = omega arith in
      let limit : leb u_lim a ≡ leb u_lim b = ground arith in
      let same : entry k pgdir a ≡ entry k pgdir b =
        ap (λ (i : ℕ). k.frames (pte_frame (k.frames pgdir i)) (ptx a)) d
        ∙ ap (k.frames (pte_frame (k.frames pgdir (pdx b)))) t in
      rw (d, limit, ap (λ (w : ℕ). previ_allows w perm) same)

  check_index-allowed :
      IsDirectory k pgdir → (a : ℕ) → check_index (some pgdir) a perm k ≡ ret (allowed a) k
  unfolding check_index allowed
  check_index-allowed d a = ground (arith, d (pdx a))

  -- What the loop has found out when it ends: the whole range is accessible and nothing is written,
  -- or the first address that is not is stored.
  abbrev pub Checked : (lo bound : ℕ) → ℕ → Kernel → Type 0
  Checked lo bound r k' =
      ((r ≡ 0) × (k' ≡ k) × ((a : ℕ) → lo ≤ a → a < bound → Accessible k pgdir perm a))
      ⊎ ((b : ℕ) × (r ≡ e_fault)
          × (k' ≡ record k { user_mem_check_addr = b })
          × (lo ≤ b)
          × (b < bound)
          × (¬ Accessible k pgdir perm b)
          × ((a : ℕ) → lo ≤ a → a < b → Accessible k pgdir perm a))

  -- An address of the page of `lo`, whose check has passed.
  same_page :
      (lo a : ℕ) → allowed lo ≡ true → lo ≤ a → a < round_down lo + 4096 → Accessible k pgdir perm a
  same_page lo a ok ge lt = allowed-Accessible a (allowed-page a lo (omega arith) ∙ ok)

  Checked-extend :
      (lo bound : ℕ) (r : ℕ) (k' : Kernel)
      → allowed lo ≡ true
      → Checked (round_down lo + 4096) bound r k'
      → Checked lo bound r k'
  Checked-extend lo bound r k' ok (inl (done, same, rest)) = inl (
    done,
    same,
    λ a ge lt. elim (dec_lt a (round_down lo + 4096)) [
      | yes here ↦ same_page lo a ok ge here
      | no later ↦ rest a (omega arith) lt
    ],
  )
  Checked-extend lo bound r k' ok (inr (b, done, stored, ge, lt, bad, rest)) = inr (
    b,
    done,
    stored,
    omega arith,
    lt,
    bad,
    λ a from to. elim (dec_lt a (round_down lo + 4096)) [
      | yes here ↦ same_page lo a ok from here
      | no later ↦ rest a (omega arith) to
    ],
  )

  module _ (d : IsDirectory k pgdir) (bound : ℕ) (aligned : bound % 4096 ≡ 0)
      (word : bound < 2 ^ 32) where
    check_loop-Checked :
        (fuel lo : ℕ)
        → 0 < fuel
        → bound < round_down lo + fuel * 4096
        → Returns (Checked lo bound) (check_loop fuel (some pgdir) lo bound perm k)
    unfolding check_loop
    check_loop-Checked zero lo some_fuel enough = absurd (omega arith)
    check_loop-Checked (suc fuel) lo some_fuel enough = elim (Bool-cases (ltb lo bound)) [
      | inr end ↦ rw end (inl (refl, refl, λ a ge lt. absurd (ground arith)))
      | inl more ↦
          let lt : lo < bound = ground arith in
          let next : add32 (round_down lo) pg_size ≡ round_down lo + 4096 = omega arith in
          elim (Bool-cases (allowed lo)) [
            | inl ok ↦
                rw (more, check_index-allowed d lo, ok, next)
                  (Returns-mono (Checked (round_down lo + 4096) bound) (Checked lo bound)
                    (check_loop fuel (some pgdir) (round_down lo + 4096) bound perm k)
                    (check_loop-Checked fuel (round_down lo + 4096) (omega arith) (omega arith))
                    λ r k' rest. Checked-extend lo bound r k' ok rest)
            | inr bad ↦
                rw (more, check_index-allowed d lo, bad)
                  (inr (
                    lo,
                    refl,
                    refl,
                    omega arith,
                    lt,
                    (λ good. cc (bad, Accessible-allowed lo good)),
                    λ a from to. absurd (omega arith),
                  ))
          ]
    ]

-- Let every page table that the directory names lie in memory, and let the range end below 2 ^ 32
-- less one page. `user_mem_check` returns 0 without a change exactly when a user program may
-- access, with these permissions, every address from `va` up to the end of the range rounded up to
-- a page; otherwise it returns the fault error and stores the first address that may not be
-- accessed. In particular a result of 0 makes every address of the range accessible.
pub user_mem_check-Checked :
    (k : Kernel) (env : Env) {pgdir : ℕ} (va len perm : ℕ)
    → env.env_pgdir ≡ some pgdir
    → IsDirectory k pgdir
    → va + len + 4095 < 2 ^ 32
    → Returns
        (λ r k'.
          Checked k pgdir perm va (round_up (va + len)) r k'
          × (r ≡ 0 → (a : ℕ) → va ≤ a → a < va + len → Accessible k pgdir perm a))
        (user_mem_check env va len perm k)
unfolding user_mem_check
user_mem_check-Checked k env {pgdir} va len perm dir d fits =
    let range : add32 va len ≡ va + len = omega arith in
    rw (dir, range)
      (Returns-mono (Checked k pgdir perm va (round_up (va + len))) _
        (check_loop (2 ^ 20 + 1) (some pgdir) va (round_up (va + len)) perm k)
        (check_loop-Checked k pgdir perm d (round_up (va + len)) (omega arith) (omega arith)
          (2 ^ 20 + 1) va (omega arith) (omega arith))
        λ r k' checked. (checked, whole r k' checked))
  where
    whole :
        (r : ℕ) (k' : Kernel)
        → Checked k pgdir perm va (round_up (va + len)) r k'
        → r ≡ 0
        → (a : ℕ) → va ≤ a
        → a < va + len
        → Accessible k pgdir perm a
    whole r k' (inl (done, same, all)) ok a ge lt = all a ge (omega arith)
    whole r k' (inr (b, done, stored, from, to, bad, rest)) ok a ge lt = absurd (omega arith)

check_loop-ends :
    (fuel : ℕ) (pgdir : Option ℕ) (lo bound perm : ℕ) (k : Kernel)
    → bound ≤ lo
    → check_loop (suc fuel) pgdir lo bound perm k ≡ ret 0 k
unfolding check_loop
check_loop-ends fuel pgdir lo bound perm k le = ground arith

-- Where the end of the range, rounded up to a page, wraps round 2 ^ 32, with the length at most 2 ^
-- 32 - 4095, `user_mem_check` returns 0 without a check for any directory and permissions.
pub user_mem_check_wraps :
    (k : Kernel) (env : Env) (va len perm : ℕ)
    → va < 2 ^ 32
    → len ≤ 2 ^ 32 - 4095
    → 2 ^ 32 ≤ va + len + 4095
    → user_mem_check env va len perm k ≡ ret 0 k
unfolding user_mem_check
user_mem_check_wraps k env va len perm word short wraps =
    check_loop-ends (2 ^ 20) env.env_pgdir va (round_up (add32 va len)) perm k (omega arith)
