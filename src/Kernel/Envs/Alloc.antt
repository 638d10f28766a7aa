-- ===== src/Kernel/Envs/Alloc.antt =====
-- The free environments as a list of slots, and the list that `env_init` makes.
use csdi_jos.Common.{
  ℕ, zero, suc, ◌+◌, ◌<◌, ◌≡◌, ◌≢◌, refl, subst, ◌&&◌, leb, ltb, Option, none, some, List, [], ◌∷◌,
  NotIn, if◌then◌else◌, arith,
}
use csdi_jos.Kernel.State.{Kernel, Env, set_env, status_free}
use csdi_jos.Kernel.State.Layout.{n_env}
use csdi_jos.Kernel.Envs.{env_init, init_envs, reset_envs, link_envs}

-- From `l` the links lead through the slots of the list to the null link.
abbrev pub EnvLinks : (ℕ → Env) → Option ℕ → List ℕ → Type 0
EnvLinks envs l [] = l ≡ none
EnvLinks envs l (e ∷ es) = (l ≡ some e) × EnvLinks envs (envs e).env_link es

-- `lo, lo + 1, …`, `n` of them.
abbrev pub count_up : (lo n : ℕ) → List ℕ
count_up lo zero = []
count_up lo (suc n) = lo ∷ count_up (suc lo) n

pub EnvLinks-frame :
    (envs envs' : ℕ → Env) (e : ℕ)
    → ((i : ℕ) → e ≢ i → envs' i ≡ envs i)
    → (l : Option ℕ) (es : List ℕ) → NotIn e es
    → EnvLinks envs l es
    → EnvLinks envs' l es
EnvLinks-frame envs envs' e same l [] out h = h
EnvLinks-frame envs envs' e same l (i ∷ es) out h =
    (h.0, rw (same i out.0) (EnvLinks-frame envs envs' e same (envs i).env_link es out.1 h.1))

NotIn-count_up : (i lo n : ℕ) → i < lo → NotIn i (count_up lo n)
NotIn-count_up i lo zero lt = tt
NotIn-count_up i lo (suc n) lt = (omega arith, NotIn-count_up i (suc lo) n (omega arith))

link_envs-EnvLinks :
    (n m : ℕ) (k : Kernel)
    → EnvLinks k.envs k.env_free_list (count_up n m)
    → EnvLinks (link_envs n k).envs (link_envs n k).env_free_list (count_up 0 (n + m))
unfolding link_envs
link_envs-EnvLinks zero m k h =
    subst (λ j. EnvLinks k.envs k.env_free_list (count_up 0 j)) (omega arith) h
link_envs-EnvLinks (suc i) m k h =
    subst (λ j. EnvLinks (link_envs i after).envs (link_envs i after).env_free_list (count_up 0 j))
      (omega arith)
      (link_envs-EnvLinks i (suc m) after
        (refl, subst (λ l. EnvLinks after.envs l (count_up (suc i) m)) (ground arith) kept))
  where
    after : Kernel
    after = record (set_env i (record (k.envs i) { env_link = k.env_free_list }) k) {
      env_free_list = some i;
    }

    kept : EnvLinks after.envs k.env_free_list (count_up (suc i) m)
    kept =
        EnvLinks-frame k.envs after.envs i (λ j ne. ground arith) k.env_free_list
          (count_up (suc i) m) (NotIn-count_up i (suc i) m (omega arith)) h

link_envs-status :
    (n i : ℕ) (k : Kernel)
    → (((link_envs n k).envs i).env_status ≡ (k.envs i).env_status)
      × (((link_envs n k).envs i).env_id ≡ (k.envs i).env_id)
unfolding link_envs
link_envs-status zero i k = (refl, refl)
link_envs-status (suc n) i k = ground (
  arith,
  link_envs-status n i (record (set_env n (record (k.envs n) { env_link = k.env_free_list }) k) {
    env_free_list = some n;
  }),
)

reset_envs-status :
    (lo n i : ℕ) (k : Kernel)
    → (((reset_envs lo n k).envs i).env_status
        ≡ (if leb lo i && ltb i (lo + n) then status_free else (k.envs i).env_status))
      × (((reset_envs lo n k).envs i).env_id
          ≡ (if leb lo i && ltb i (lo + n) then 0 else (k.envs i).env_id))
unfolding reset_envs
reset_envs-status lo zero i k = ground arith
reset_envs-status lo (suc n) i k = ground (
  arith,
  reset_envs-status (suc lo) n i
      (set_env lo (record (k.envs lo) { env_status = status_free; env_id = 0 }) k),
)

init_envs-status :
    (n i : ℕ) (k : Kernel)
    → i < n
    → (((init_envs n k).envs i).env_status ≡ status_free) × (((init_envs n k).envs i).env_id ≡ 0)
unfolding init_envs
init_envs-status n i k lt = ground (
  arith,
  link_envs-status n i (record (reset_envs 0 n k) { env_free_list = none }),
  reset_envs-status 0 n i k,
)

init_envs-EnvLinks :
    (n : ℕ) (k : Kernel)
    → EnvLinks (init_envs n k).envs (init_envs n k).env_free_list (count_up 0 n)
unfolding init_envs
init_envs-EnvLinks n k =
    let linked = link_envs-EnvLinks n 0 (record (reset_envs 0 n k) { env_free_list = none }) refl in
    subst (λ j. EnvLinks (init_envs n k).envs (init_envs n k).env_free_list (count_up 0 j))
      (omega arith) linked

-- After `env_init` the list of free environments runs through all 1024 slots in order, and every
-- slot is free and has identifier 0.
pub env_init_lem :
    (k : Kernel)
    → EnvLinks (env_init k).envs (env_init k).env_free_list (count_up 0 n_env)
      × ((i : ℕ)
          → i < n_env
          → (((env_init k).envs i).env_status ≡ status_free) × (((env_init k).envs i).env_id ≡ 0))
unfolding env_init
env_init_lem k = (init_envs-EnvLinks n_env k, λ i lt. init_envs-status n_env i k lt)
