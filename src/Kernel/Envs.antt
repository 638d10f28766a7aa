-- ===== src/Kernel/Envs.antt =====
-- The environments of kern/env.c.
pub mod Region
pub mod Ids
pub mod Alloc
pub mod Create
pub mod Switch
pub mod Free
pub mod Run
use csdi_jos.Common.{
  ℕ, zero, suc, ◌+◌, ◌-◌, ◌%◌, ◌^◌, Bool, false, not, ◌&&◌, ◌||◌, ◌==◌, ltb, Option, none, some,
  if◌then◌else◌, same_ptr, bit_or,
}
use csdi_jos.Kernel.State.{
  Kernel, Env, user, Outcome, ret, fault, K, pure, panics, and_then, ◌>>=◌, ◌>>◌, get, put,
  set_page, set_env, set_frame, set_word, status_free, status_runnable,
}
use csdi_jos.Kernel.State.Layout.{
  pg_size, u_stack_top, uvpt, n_env, envx, pdx, add32, e_no_mem, e_bad_env, e_no_free_env, is_neg,
  round_down, zero_trapframe,
}
use csdi_jos.Kernel.Pages.{page2kva, page_alloc}
use csdi_jos.Kernel.Vm.{page2pa, page_insert}

-- The result and `*env_store`. A null `curenv` is read through only where the source reads it.
unfoldable pub envid2env : (envid : ℕ) → (checkperm : Bool) → K (ℕ × Option ℕ)
envid2env envid checkperm k =
    if envid == 0
    then ret (0, k.curenv) k
    else let e = envx envid in
      let env = k.envs e in
      let found : Outcome (ℕ × Option ℕ) = ret (0, some e) k in
      if env.env_status == status_free || not (env.env_id == envid)
      then ret (e_bad_env, none) k
      else if checkperm && not (same_ptr k.curenv (some e))
      then elim k.curenv [
        | none ↦ fault
        | some c ↦
            if env.env_parent_id == (k.envs c).env_id
            then ret (0, some e) k
            else ret (e_bad_env, none) k
      ]
      else found

-- The first loop of `env_init`, upwards, and the second, from `n - 1` down to 0.
unfoldable pub reset_envs : (lo n : ℕ) → Kernel → Kernel
reset_envs lo zero k = k
reset_envs lo (suc n) k =
    reset_envs (suc lo) n
      (set_env lo (record (k.envs lo) { env_status = status_free; env_id = 0 }) k)

unfoldable pub link_envs : (n : ℕ) → Kernel → Kernel
link_envs zero k = k
link_envs (suc i) k =
    link_envs i (record (set_env i (record (k.envs i) { env_link = k.env_free_list }) k) {
      env_free_list = some i;
    })

unfoldable pub init_envs : (n : ℕ) → Kernel → Kernel
unfolding reset_envs link_envs
init_envs n k = link_envs n (record (reset_envs 0 n k) { env_free_list = none })

-- Less `env_init_percpu`, which loads segment registers.
unfoldable pub env_init : Kernel → Kernel
env_init k = init_envs n_env k

-- `e->env_pgdir[PDX(UVPT)] = PADDR(e->env_pgdir) | PTE_P | PTE_U`, after the copy of `kern_pgdir`.
unfoldable pub fill_pgdir : (e p f : ℕ) → Kernel → Kernel
fill_pgdir e p f k =
    let k1 = set_env e (record (k.envs e) { env_pgdir = some f }) k in
    let k2 = set_frame f (k1.frames k1.kern_pgdir) k1 in
    let k3 = set_page p (record (k2.pages p) { pp_ref = ((k2.pages p).pp_ref + 1) % 65536 }) k2 in
    set_word f (pdx uvpt) (bit_or (bit_or (page2pa f) 1) 4) k3

unfoldable pub env_setup_vm : (e : ℕ) → K ℕ
unfolding page_alloc page2kva fill_pgdir
env_setup_vm e = do
  page ← page_alloc 1
  elim page [
    | none ↦ pure e_no_mem
    | some p ↦ (do f ← page2kva p; k ← get; put (fill_pgdir e p f k); pure 0)
  ]

-- `generation`, by 32-bit signed arithmetic written out, and the identifier for slot `e`.
unfoldable pub next_generation : (env_id : ℕ) → ℕ
next_generation env_id =
    let sum = add32 env_id (2 ^ 12) in
    let generation = sum - sum % n_env in
    if generation == 0 || is_neg generation then 2 ^ 12 else generation

unfoldable pub next_env_id : (env_id e : ℕ) → ℕ
unfolding next_generation
next_env_id env_id e = bit_or (next_generation env_id) e

-- The segment registers, the stack and the interrupt flag of a new environment.
abbrev pub initial_tf_of : Env → Env
initial_tf_of env = record env {
  env_tf = record zero_trapframe {
    tf_ds = 0x23;
    tf_es = 0x23;
    tf_ss = 0x23;
    tf_esp = u_stack_top;
    tf_cs = 0x1b;
    tf_eflags = 0x200;
  };
}

unfoldable pub init_env : (e parent_id : ℕ) → Env → Env
unfolding next_env_id
init_env e parent_id env = record (initial_tf_of env) {
  env_id = next_env_id env.env_id e;
  env_parent_id = parent_id;
  env_type = user;
  env_status = status_runnable;
  env_runs = 0;
  env_pgfault_upcall = 0;
  env_ipc_recving = false;
}

-- `env_alloc` from the slot at the head of the list.
unfoldable pub take_slot : (parent_id e : ℕ) → K (ℕ × Option ℕ)
unfolding env_setup_vm init_env
take_slot parent_id e = do
  r ← env_setup_vm e
  k ← get
  if is_neg r then pure (r, none) else (do
    put (record (set_env e (init_env e parent_id (k.envs e)) k) {
      env_free_list = (k.envs e).env_link;
    })
    pure (0, some e))

-- The result and `*newenv_store`, which an error leaves unset.
unfoldable pub env_alloc : (parent_id : ℕ) → K (ℕ × Option ℕ)
unfolding take_slot
env_alloc parent_id k = elim k.env_free_list [
  | none ↦ ret (e_no_free_env, none) k
  | some e ↦ take_slot parent_id e k
]

-- `region_alloc`, a page at a time from `start`; it panics when memory runs out.
unfoldable pub region_loop : ℕ → Option ℕ → (start u_bound : ℕ) → K (Unit {0})
region_loop zero pgdir start u_bound k = Outcome.diverge
region_loop (suc fuel) pgdir start u_bound k =
    let rest =
      (do
        page ← page_alloc 1
        elim page [
          | none ↦ panics
          | some p ↦ (do
            r ← page_insert pgdir p start 6
            if r == 0 then region_loop fuel pgdir (add32 start pg_size) u_bound else panics)
        ])
        k in
    if ltb start u_bound then rest else ret tt k

-- The bound is `start + len`, as the source has it.
unfoldable pub region_alloc : (e va len : ℕ) → K (Unit {0})
region_alloc e va len k =
    let start = round_down va in
    region_loop (2 ^ 20 + 1) (k.envs e).env_pgdir start (add32 start len) k
