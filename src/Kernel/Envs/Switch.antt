-- ===== src/Kernel/Envs/Switch.antt =====
-- kern/env.c: `env_run`, which enters an environment.
use csdi_jos.Common.{ℕ, ◌+◌, ◌%◌, ◌^◌, ◌==◌, Option, none, some, if◌then◌else◌, update, same_ptr}
use csdi_jos.Kernel.State.{
  Kernel, Env, ret, enter, panic, K, pure, ◌>>◌, put, set_env, status_runnable, status_running,
}
use csdi_jos.Kernel.Spinlock.{unlock_kernel}

-- `lcr3(PADDR(pgdir))`, which panics on a null pointer.
unfoldable pub lcr3 : Option ℕ → K (Unit {0})
lcr3 none k = panic
lcr3 (some d) k = ret tt (record k { cr3 = d })

-- The part of `env_run` that switches environments.
unfoldable pub switch_to : (e : ℕ) → Kernel → Kernel
switch_to e k =
    let envs : ℕ → Env = elim k.curenv [
      | none ↦ k.envs
      | some c ↦
          if (k.envs c).env_status == status_running
          then update k.envs c (record (k.envs c) { env_status = status_runnable })
          else k.envs
    ] in
    record k {
      envs = update envs e (record (envs e) {
        env_status = status_running;
        env_runs = ((envs e).env_runs + 1) % 2 ^ 32;
      });
      curenv = some e;
    }

-- `env_pop_tf` notes the CPU and drops into user mode.
unfoldable pub env_pop_tf : (e : ℕ) → K (Unit {0})
env_pop_tf e k = enter e (set_env e (record (k.envs e) { env_cpunum = k.cpunum }) k)

unfoldable pub env_run : (e : ℕ) → K (Unit {0})
unfolding lcr3 switch_to env_pop_tf unlock_kernel
env_run e k =
    (do
      if same_ptr k.curenv (some e)
          then pure tt
          else (do put (switch_to e k); lcr3 ((switch_to e k).envs e).env_pgdir)
      unlock_kernel
      env_pop_tf e)
      k
