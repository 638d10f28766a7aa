-- ===== src/Kernel/Syscall/Status.antt =====
-- Identifiers that the calls refuse, and `sys_env_set_status`.
use csdi_jos.Common.{ℕ, ◌%◌, ◌≤◌, ◌≡◌, ◌≢◌, refl, Bool, true, none, some, List, NotIn, arith}
use csdi_jos.Kernel.State.{Kernel, ret, set_env, status_free}
use csdi_jos.Kernel.State.Layout.{envx, u_top, pg_size, pte_p, pte_u, e_bad_env, e_inval}
use csdi_jos.Kernel.Envs.{envid2env}
use csdi_jos.Kernel.Envs.Ids.{Resolves, envid2env-Resolves, envid2env-rejects}
use csdi_jos.Kernel.Envs.Alloc.{EnvLinks, EnvLinks-frame}
use csdi_jos.Kernel.Syscall.{
  sys_env_destroy, sys_env_set_status, sys_env_set_pgfault_upcall, sys_page_alloc, sys_page_unmap,
}

-- For an identifier other than 0 that names no environment that the current one may change,
-- `sys_env_destroy`, `sys_env_set_status`, `sys_env_set_pgfault_upcall` and, with arguments that
-- are valid otherwise, `sys_page_alloc` return the error for a bad environment, `sys_page_unmap`
-- returns the error for an invalid argument, and none of them changes anything.
pub bad_env_lem :
    (k : Kernel) (envid c : ℕ)
    → k.curenv ≡ some c
    → envid ≢ 0
    → ¬ Resolves k envid true c (envx envid)
    → (sys_env_destroy envid k ≡ ret e_bad_env k)
      × ((status : ℕ) → sys_env_set_status envid status k ≡ ret e_bad_env k)
      × ((func : ℕ) → sys_env_set_pgfault_upcall envid func k ≡ ret e_bad_env k)
      × ((va perm : ℕ)
          → va ≤ u_top
          → va % pg_size ≡ 0
          → pte_u perm ≡ true
          → pte_p perm ≡ true
          → sys_page_alloc envid va perm k ≡ ret e_bad_env k)
      × ((va : ℕ) → sys_page_unmap envid va k ≡ ret e_inval k)
unfolding sys_env_destroy sys_env_set_status sys_env_set_pgfault_upcall sys_page_alloc
    sys_page_unmap
bad_env_lem k envid c running other bad =
    let refused = envid2env-rejects k envid true c running other bad in
    (
      rw refused refl,
      λ status. rw refused refl,
      λ func. rw refused refl,
      λ va perm low page u p. ground (arith, refused),
      λ va. ground (arith, refused),
    )

-- `sys_env_set_status` accepts the status of a free environment for a live environment that the
-- caller may change: it returns 0, the slot is on the list of free environments no more than
-- before, and `envid2env` refuses its identifier from then on.
pub sys_env_set_status_loses :
    (k : Kernel) (envid c e : ℕ) (es : List ℕ)
    → k.curenv ≡ some c
    → envid ≢ 0
    → Resolves k envid true c e
    → EnvLinks k.envs k.env_free_list es
    → NotIn e es
    → (k' : Kernel) × (sys_env_set_status envid status_free k ≡ ret 0 k')
      × EnvLinks k'.envs k'.env_free_list es
      × ((checkperm : Bool) → envid2env envid checkperm k' ≡ ret (e_bad_env, none) k')
unfolding sys_env_set_status
sys_env_set_status_loses k envid c e es running other found slots live =
    let k' : Kernel = set_env e (record (k.envs e) { env_status = status_free }) k in
    let gone : (k'.envs (envx envid)).env_status ≡ status_free = ground (arith, found.slot) in
    (
      k',
      rw (envid2env-Resolves k envid true c running e other found) refl,
      EnvLinks-frame k.envs k'.envs e (λ i ne. ground arith) k.env_free_list es live slots,
      λ checkperm. envid2env-rejects k' envid checkperm c running other λ r. r.live gone,
    )
