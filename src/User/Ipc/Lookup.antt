-- ===== src/User/Ipc/Lookup.antt =====
-- Which environment `ipc_find_env` finds.
use csdi_jos.Common.{
  ℕ, zero, suc, ◌+◌, ◌≤◌, ◌<◌, ◌≡◌, ◌⊎◌, inl, inr, refl, subst, true, false, Bool-cases, arith,
  dec_lt,
}
use csdi_jos.Kernel.State.{Kernel, EnvType}
use csdi_jos.Kernel.State.Layout.{n_env}
use csdi_jos.User.Ipc.{same_type, find_env, ipc_find_env}

-- `id` is that of the first environment of the type from `i` on below `end`, or 0 if there is none.
abbrev pub FirstOf : Kernel → EnvType → (i end id : ℕ) → Type 0
FirstOf k type i end id =
    ((e : ℕ) × (e < end)
      × (i ≤ e)
      × (same_type (k.envs e).env_type type ≡ true)
      × (id ≡ (k.envs e).env_id)
      × ((j : ℕ) → i ≤ j → j < e → same_type (k.envs j).env_type type ≡ false))
    ⊎ ((id ≡ 0) × ((j : ℕ) → i ≤ j → j < end → same_type (k.envs j).env_type type ≡ false))

module _ (k : Kernel) (type : EnvType) where
  further :
      (i j : ℕ)
      → same_type (k.envs i).env_type type ≡ false
      → i ≤ j
      → (suc i ≤ j → same_type (k.envs j).env_type type ≡ false)
      → same_type (k.envs j).env_type type ≡ false
  further i j here le later = elim (dec_lt i j) [
    | yes lt ↦ later (omega (arith, lt))
    | no ge ↦
        let eq : i ≡ j = omega (arith, le, ge) in
        subst (λ j. same_type (k.envs j).env_type type ≡ false) eq here
  ]

  find_env-FirstOf : (n i : ℕ) → FirstOf k type i (i + n) (find_env k type n i)
  unfolding find_env
  find_env-FirstOf zero i = inr (refl, λ j le lt. absurd (omega (arith, le, lt)))
  find_env-FirstOf (suc n) i = elim (Bool-cases (same_type (k.envs i).env_type type)) [
    | inl it ↦
        rw it
          (inl (i, omega arith, omega arith, it, refl, λ j le lt. absurd (omega (arith, le, lt))))
    | inr not_it ↦ rw not_it (elim (find_env-FirstOf n (suc i)) [
      | inl (e, lt, le, same, is, before) ↦ inl (
        e,
        omega (arith, lt),
        omega (arith, le),
        same,
        is,
        λ j le' lt'. further i j not_it le' λ le''. before j le'' lt',
      )
      | inr (is, none_left) ↦
          inr
            (is, λ j le' lt'. further i j not_it le' λ le''. none_left j le'' (omega (arith, lt')))
    ])
  ]

  pub ipc_find_env-FirstOf : FirstOf k type 0 n_env (ipc_find_env type k)
  unfolding ipc_find_env
  ipc_find_env-FirstOf = find_env-FirstOf n_env 0
