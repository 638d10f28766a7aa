-- ===== src/Kernel/Syscall/Forking.antt =====
-- `sys_exofork`: the child that it makes.
use csdi_jos.Common.{
  ℕ, ◌^◌, ◌≤◌, ◌<◌, ◌≡◌, ◌≢◌, ◌⊎◌, inr, sym, subst, ◌∙◌, true, Option, some, List, [], ◌∷◌, All,
  NotIn, Distinct, arith,
}
use csdi_jos.Kernel.State.{Kernel, ret, fault, set_env, status_not_runnable}
use csdi_jos.Kernel.State.Returns.{Returns, Returns-bind}
use csdi_jos.Kernel.State.Layout.{n_env}
use csdi_jos.Kernel.Pages.FreeList.{FreeList}
use csdi_jos.Kernel.Envs.{envid2env, env_alloc}
use csdi_jos.Kernel.Envs.Ids.{envid2env-Resolves}
use csdi_jos.Kernel.Envs.Alloc.{EnvLinks}
use csdi_jos.Kernel.Envs.Create.{NewEnv, env_alloc_lem}
use csdi_jos.Kernel.Syscall.{sys_exofork, fork_from, finish_fork, fork_env}

-- What `sys_exofork` answers the caller `c`, and the child that it leaves in slot `e`.
pub record Forked (k k' : Kernel) (c e r : ℕ) : Type 0 where
  pub name : r ≡ (k'.envs e).env_id
  pub blocked : (k'.envs e).env_status ≡ status_not_runnable
  pub parent : (k'.envs e).env_parent_id ≡ (k.envs c).env_id
  pub frame :
      (k'.envs e).env_tf
      ≡ record (k.envs c).env_tf { tf_regs = record (k.envs c).env_tf.tf_regs { reg_eax = 0 } }
  pub caller : k'.envs c ≡ k.envs c
  pub resolves : envid2env r true k' ≡ ret (0, some e) k'

module _ {k k' : Kernel} (c e p : ℕ) (es ps : List ℕ) (running : k.curenv ≡ some c) (apart : e ≢ c)
    (new : NewEnv k k' (k.envs c).env_id e p es ps) where
  child : Kernel
  child = set_env e (fork_env (k'.envs c).env_tf (k'.envs e)) k'

  child-Forked : Forked k child c e (k'.envs e).env_id
  unfolding child fork_env
  child-Forked = record {
    name = ground arith;
    blocked = ground arith;
    parent = ground (arith, new.parent);
    frame = ground (arith, new.others c apart);
    caller = ground (arith, new.others c apart);
    resolves =
        envid2env-Resolves child (k'.envs e).env_id true c (new.current ∙ running) e
          (ground (arith, new.positive))
          (record {
            slot = new.names;
            current = ground arith;
            live = ground arith;
            allowed = λ check. inr (ground (arith, new.parent, new.others c apart));
          });
  }

  finish_fork-Forked :
      (r : ℕ × Option ℕ)
      → r ≡ (0, some e)
      → Returns (λ r k''. Forked k k'' c e r) (finish_fork c r k')
  unfolding finish_fork child
  finish_fork-Forked r got = rw got child-Forked

-- Let the lists of free environments and of free pages be as `env_alloc` wants them, with slot `e`
-- and page `p` in front, and let the caller's slot not be free. `sys_exofork` returns the
-- identifier of the child in slot `e`, which is not runnable, has the caller as its parent and the
-- caller's registers with `eax` set to 0. The caller's own slot is unchanged, and `envid2env` with
-- the permission check resolves the identifier to `e`.
pub sys_exofork-Forked :
    {k : Kernel} (c e p : ℕ) (es ps : List ℕ)
    → k.curenv ≡ some c
    → EnvLinks k.envs k.env_free_list (e ∷ es)
    → Distinct (e ∷ es)
    → All (λ i. (i < n_env) × ((k.envs i).env_id < 2 ^ 32)) (e ∷ es)
    → NotIn c (e ∷ es)
    → FreeList k (p ∷ ps)
    → k.npages ≤ 2 ^ 20
    → NotIn k.kern_pgdir (p ∷ ps)
    → Returns (λ r k'. Forked k k' c e r) (sys_exofork k)
unfolding sys_exofork
sys_exofork-Forked {k} c e p es ps running slots distinct valid busy free small apart =
    let allocated =
      env_alloc_lem (k.envs c).env_id (e ∷ es) (p ∷ ps) slots distinct valid free small apart in
    let called : sys_exofork k ≡ fork_from c k = ground (arith, running) in
    subst (Returns (λ r k'. Forked k k' c e r)) (sym called) (
      Returns-bind _ (λ r k'. Forked k k' c e r) (env_alloc (k.envs c).env_id k) (finish_fork c)
        allocated
        λ r k' (got, new). finish_fork-Forked c e p es ps running (λ h. busy.0 (sym h)) new r got)

-- Let the lists of free environments and of free pages be as `env_alloc` wants them. With no free
-- slot or no free page `sys_exofork` does not return an error: it goes through the pointer that
-- `env_alloc` left unset.
pub sys_exofork_faults :
    {k : Kernel} (c : ℕ) (es ps : List ℕ)
    → k.curenv ≡ some c
    → EnvLinks k.envs k.env_free_list es
    → Distinct es
    → All (λ i. (i < n_env) × ((k.envs i).env_id < 2 ^ 32)) es
    → FreeList k ps
    → k.npages ≤ 2 ^ 20
    → NotIn k.kern_pgdir ps
    → (es ≡ []) ⊎ (ps ≡ [])
    → sys_exofork k ≡ fault
unfolding sys_exofork fork_from finish_fork
sys_exofork_faults {k} c [] ps running slots distinct valid free small apart spent =
    let failed = env_alloc_lem (k.envs c).env_id [] ps slots distinct valid free small apart in
    ground (arith, running, failed)
sys_exofork_faults {k} c (e ∷ es) [] running slots distinct valid free small apart spent =
    let failed =
      env_alloc_lem (k.envs c).env_id (e ∷ es) [] slots distinct valid free small apart in
    ground (arith, running, failed)
sys_exofork_faults c (e ∷ es) (p ∷ ps) running slots distinct valid free small apart spent =
    absurd (ground (arith, spent))
