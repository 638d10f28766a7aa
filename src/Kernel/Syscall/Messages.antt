-- ===== src/Kernel/Syscall/Messages.antt =====
-- What `sys_ipc_try_send` and `sys_ipc_recv` do with a message.
use csdi_jos.Common.{
  ℕ, ◌%◌, ◌≤◌, ◌<◌, ◌≡◌, ◌≢◌, inl, inr, refl, ◌∙◌, subst, Bool, true, false, not, ◌&&◌, ◌||◌, ◌==◌,
  leb, some, if◌then◌else◌, arith,
}
use csdi_jos.Kernel.State.{Kernel, Env, ret, set_env, status_runnable}
use csdi_jos.Kernel.State.Layout.{
  envx, u_top, pg_size, round_up, pte_p, pte_w, pte_u, e_bad_env, e_ipc_not_recv,
}
use csdi_jos.Kernel.Envs.Ids.{Resolves, envid2env-Resolves, envid2env-rejects}
use csdi_jos.Kernel.Vm.{PtePtr, read_pte, page_lookup}
use csdi_jos.Kernel.Syscall.{outside_syscall, sys_page_map}
use csdi_jos.Kernel.Syscall.Ipc.{
  sys_ipc_try_send, send_page, refuses_write, deliver, finish_send, start_recv,
}

-- Is the environment waiting for a message?
abbrev pub waiting : Kernel → ℕ → Bool
waiting k e = (k.envs e).env_ipc_from == 0 && (k.envs e).env_ipc_recving

-- `envid` names the live environment of slot `e`, for the caller `c`.
module _ (k : Kernel) (envid c e : ℕ) (running : k.curenv ≡ some c) (other : envid ≢ 0)
    (found : Resolves k envid false c e) (value srcva perm : ℕ) (no_page : u_top ≤ srcva) where
  -- For an `envid` that names the live environment `e` and no page to send, `sys_ipc_try_send`
  -- delivers the message and returns 0 when `e` waits and no message has come since, and returns
  -- the error for an environment that does not receive, without a change, otherwise.
  pub sys_ipc_try_send_lem : sys_ipc_try_send envid value srcva perm k ≡ (
      if waiting k e
      then ret 0 (set_env e (deliver (k.envs c).env_id value perm (k.envs e)) k)
      else ret e_ipc_not_recv k)
  unfolding sys_ipc_try_send finish_send
  sys_ipc_try_send_lem =
      rw (envid2env-Resolves k envid false c running e other found) (ground (arith, running))

-- A message to an environment that waits as `sys_ipc_recv` left it: it is received once.
module _ (k : Kernel) (envid c e dstva : ℕ) (env : Env) (running : k.curenv ≡ some c)
    (other : envid ≢ 0) (found : Resolves k envid false c e)
    (waits : k.envs e ≡ start_recv dstva env) (value srcva perm : ℕ) (no_page : u_top ≤ srcva)
    (named : (k.envs c).env_id ≢ 0) where
  -- The state after the message.
  received : Kernel
  received = set_env e (deliver (k.envs c).env_id value perm (k.envs e)) k

  received-Resolves : (c' : ℕ) → Resolves (record received { curenv = some c' }) envid false c' e
  unfolding received deliver
  received-Resolves c' = record {
    slot = found.slot;
    current = ground (arith, found.current);
    live = ground arith;
    allowed = λ check. absurd (ground arith);
  }

  -- Let `envid` name the live environment `e`, which waits as `sys_ipc_recv` left it, and let the
  -- current environment `c` have an identifier other than 0. Then `sys_ipc_try_send` without a page
  -- (`srcva` at or above `UTOP`) returns 0, `e` is runnable with the value, the sender's identifier
  -- and a result of 0, and no other environment has changed. Any further message without a page to
  -- `envid`, from any environment, is refused because `e` no longer waits, and changes nothing.
  pub recv_send :
      (k' : Kernel) × (sys_ipc_try_send envid value srcva perm k ≡ ret 0 k')
      × ((k'.envs e).env_ipc_value ≡ value)
      × ((k'.envs e).env_ipc_from ≡ (k.envs c).env_id)
      × ((k'.envs e).env_status ≡ status_runnable)
      × ((k'.envs e).env_tf.tf_regs.reg_eax ≡ 0)
      × ((i : ℕ) → e ≢ i → k'.envs i ≡ k.envs i)
      × ((c' value' srcva' perm' : ℕ)
          → u_top ≤ srcva'
          → sys_ipc_try_send envid value' srcva' perm' (record k' { curenv = some c' })
            ≡ ret e_ipc_not_recv (record k' { curenv = some c' }))
  unfolding received deliver start_recv
  recv_send = (
    received,
    sys_ipc_try_send_lem k envid c e running other found value srcva perm no_page ∙ rw waits refl,
    ground arith,
    ground arith,
    ground arith,
    ground arith,
    λ i ne. ground arith,
    λ c' value' srcva' perm' no_page'.
        sys_ipc_try_send_lem (record received { curenv = some c' }) envid c' e refl other
          (received-Resolves c') value' srcva' perm' no_page'
        ∙ ground arith,
  )

-- A page sent to an environment that waits for one, by a sender that is not its parent.
module _ (k : Kernel) (envid c e : ℕ) (running : k.curenv ≡ some c) (other : envid ≢ 0)
    (found : Resolves k envid false c e) (caller : Resolves k (k.envs c).env_id true c c)
    (named : (k.envs c).env_id ≢ 0) (apart : c ≢ e)
    (stranger : (k.envs e).env_parent_id ≢ (k.envs c).env_id) where
  no_access : ¬ Resolves k envid true c (envx envid)
  no_access r = elim (r.allowed refl) [
    | inl same ↦ apart (same ∙ found.slot)
    | inr child ↦
        stranger (subst (λ i. (k.envs i).env_parent_id ≡ (k.envs c).env_id) found.slot child)
  ]

  sys_page_map_rejects :
      (srcva dstva perm : ℕ)
      → srcva < u_top
      → srcva % pg_size ≡ 0
      → dstva < u_top
      → dstva % pg_size ≡ 0
      → pte_u perm ≡ true
      → pte_p perm ≡ true
      → outside_syscall perm ≡ false
      → sys_page_map (k.envs c).env_id srcva envid dstva perm k ≡ ret e_bad_env k
  unfolding sys_page_map
  sys_page_map_rejects srcva dstva perm src src_page dst dst_page u p allowed =
      let s : (leb u_top srcva
            || not (round_up srcva == srcva)
            || leb u_top dstva
            || not (round_up dstva == dstva))
          ≡ false =
        ground arith in
      rw
        (
          s,
          u,
          p,
          allowed,
          envid2env-Resolves k (k.envs c).env_id true c running c named caller,
          envid2env-rejects k envid true c running other no_access,
        )
        refl

  -- Let `e` wait for a message with a page at an aligned address, and let the sender `c`, which has
  -- an identifier of its own, be neither `e` nor its parent. A message with a page, at an aligned
  -- address, with valid permissions, mapped and writable, is refused with the error for a bad
  -- environment, and nothing changes.
  pub sys_ipc_try_send_refuses :
      (value srcva perm : ℕ) {page : ℕ} {pte : PtePtr}
      → waiting k e ≡ true
      → srcva < u_top
      → srcva % pg_size ≡ 0
      → (k.envs e).env_ipc_dstva < u_top
      → (k.envs e).env_ipc_dstva % pg_size ≡ 0
      → pte_u perm ≡ true
      → pte_p perm ≡ true
      → outside_syscall perm ≡ false
      → page_lookup (k.envs c).env_pgdir srcva k ≡ ret (some (page, pte)) k
      → pte_w (read_pte k pte) ≡ true
      → sys_ipc_try_send envid value srcva perm k ≡ ret e_bad_env k
  unfolding sys_ipc_try_send send_page refuses_write
  sys_ipc_try_send_refuses value srcva perm waits src src_page dst dst_page u p allowed looked
        writable =
      let refused : sys_page_map (k.envs c).env_id srcva envid (k.envs e).env_ipc_dstva perm k
          ≡ ret e_bad_env k =
        sys_page_map_rejects srcva (k.envs e).env_ipc_dstva perm src src_page dst dst_page u p
          allowed in
      rw (envid2env-Resolves k envid false c running e other found)
        (ground (arith, running, looked, refused))
