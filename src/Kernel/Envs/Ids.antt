-- ===== src/Kernel/Envs/Ids.antt =====
-- Environment identifiers: how they are made, and how `envid2env` resolves them.
use csdi_jos.Common.{
  ℕ, ◌+◌, ◌*◌, ◌/◌, ◌%◌, ◌^◌, ◌<◌, ◌≡◌, ◌≢◌, ◌⊎◌, ◌↔◌, inl, inr, refl, subst, Bool, true, ◌==◌, not,
  ◌&&◌, ◌||◌, same_ptr, none, some, bit_or, arith, Bool-cases,
}
use csdi_jos.Common.Bits.{bit_or-fields_ten}
use csdi_jos.Kernel.State.{Kernel, ret, status_free}
use csdi_jos.Kernel.State.Layout.{envx, n_env, e_bad_env}
use csdi_jos.Kernel.Envs.{envid2env, next_env_id, next_generation}

next_generation-bounds :
    (env_id : ℕ)
    → env_id < 2 ^ 32
    → (next_generation env_id % 1024 ≡ 0)
      × (0 < next_generation env_id)
      × (next_generation env_id < 2 ^ 31)
      × (next_generation env_id / 1024 ≢ env_id / 1024)
unfolding next_generation
next_generation-bounds env_id word = ground arith

next_env_id-sum :
    (env_id e : ℕ) → env_id < 2 ^ 32 → e < n_env → next_env_id env_id e ≡ next_generation env_id + e
unfolding next_env_id
next_env_id-sum env_id e word slot =
    let bounds = next_generation-bounds env_id word in
    let split : next_generation env_id / 1024 * 1024 ≡ next_generation env_id = omega arith in
    subst (λ g. bit_or g e ≡ g + e) split (bit_or-fields_ten (next_generation env_id / 1024) e slot)

-- For any 32-bit identifier and any slot, the slot's next identifier is positive as a signed word,
-- has the slot in its lower bits, and differs from the identifier before.
pub next_env_id_lem :
    (env_id e : ℕ)
    → env_id < 2 ^ 32
    → e < n_env
    → (0 < next_env_id env_id e)
      × (next_env_id env_id e < 2 ^ 31)
      × (envx (next_env_id env_id e) ≡ e)
      × (next_env_id env_id e ≢ env_id)
next_env_id_lem env_id e word slot =
    let bounds = next_generation-bounds env_id word in
    let sum = next_env_id-sum env_id e word slot in
    (omega arith, omega arith, omega arith, λ same. bounds.3 (omega arith))

-- What `envid2env` requires of an identifier other than 0 for the slot that it answers.
pub record Resolves (k : Kernel) (envid : ℕ) (checkperm : Bool) (c e : ℕ) : Type 0 where
  pub slot : envx envid ≡ e
  pub current : (k.envs e).env_id ≡ envid
  pub live : (k.envs e).env_status ≢ status_free
  pub allowed : checkperm ≡ true → (c ≡ e) ⊎ ((k.envs e).env_parent_id ≡ (k.envs c).env_id)

module _ (k : Kernel) (envid : ℕ) (checkperm : Bool) (c : ℕ) (running : k.curenv ≡ some c) where
  pub envid2env-Resolves :
      (e : ℕ)
      → envid ≢ 0
      → Resolves k envid checkperm c e
      → envid2env envid checkperm k ≡ ret (0, some e) k
  unfolding envid2env
  envid2env-Resolves e other h = ground (arith, h.allowed)

  Resolves-envid2env :
      (e : ℕ)
      → envid ≢ 0
      → envid2env envid checkperm k ≡ ret (0, some e) k
      → Resolves k envid checkperm c e
  unfolding envid2env
  Resolves-envid2env e other h = record {
    slot = ground arith;
    current = ground arith;
    live = ground arith;
    allowed = ground arith;
  }

  -- With `c` the current environment and `envid` not 0, `envid2env` returns 0 with slot `e`, and
  -- changes nothing, exactly when `e` is the slot in the identifier's lower bits, the slot's
  -- environment is not free and has this very identifier, and, if the permission is checked, it is
  -- `c` or a child of `c`.
  pub envid2env_iff :
      (e : ℕ)
      → envid ≢ 0
      → (envid2env envid checkperm k ≡ ret (0, some e) k) ↔ Resolves k envid checkperm c e
  envid2env_iff e other = (Resolves-envid2env e other, envid2env-Resolves e other)

  -- An identifier that resolves to no slot is an error, and changes nothing.
  pub envid2env-rejects :
      envid ≢ 0
      → ¬ Resolves k envid checkperm c (envx envid)
      → envid2env envid checkperm k ≡ ret (e_bad_env, none) k
  unfolding envid2env
  envid2env-rejects other bad =
      let e = envx envid in
      elim (Bool-cases ((k.envs e).env_status == status_free || not ((k.envs e).env_id == envid))) [
        | inl stale ↦ ground (arith, stale)
        | inr live ↦ elim (Bool-cases (checkperm && not (same_ptr k.curenv (some e)))) [
          | inr free_access ↦ absurd (
              bad (record {
                slot = refl;
                current = ground arith;
                live = ground arith;
                allowed = λ check. ground arith;
              }))
          | inl checked ↦ elim (Bool-cases ((k.envs e).env_parent_id == (k.envs c).env_id)) [
            | inl child ↦ absurd (
                bad (record {
                  slot = refl;
                  current = ground arith;
                  live = ground arith;
                  allowed = λ check. inr (ground arith);
                }))
            | inr stranger ↦ ground (arith, live, checked, stranger)
          ]
        ]
      ]
