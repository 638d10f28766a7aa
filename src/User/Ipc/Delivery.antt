-- ===== src/User/Ipc/Delivery.antt =====
-- A message from `ipc_send` to `ipc_recv`.
use csdi_jos.Common.{ℕ, ◌≡◌, ◌≢◌, refl, ◌∙◌, true, false, ltb, some, none, if◌then◌else◌, arith}
use csdi_jos.Kernel.State.{Kernel, Env, ret, set_env}
use csdi_jos.Kernel.State.Layout.{u_top}
use csdi_jos.Kernel.Envs.Ids.{Resolves}
use csdi_jos.Kernel.Syscall.{sys_getenvid}
use csdi_jos.Kernel.Syscall.Ipc.{sys_ipc_try_send, deliver, start_recv}
use csdi_jos.Kernel.Syscall.Messages.{sys_ipc_try_send_lem}
use csdi_jos.User.Ipc.{ipc_received, ipc_send}

module _ (k : Kernel) (envid c e dstva : ℕ) (env : Env) (running : k.curenv ≡ some c)
    (other : envid ≢ 0) (found : Resolves k envid false c e)
    (waits : k.envs e ≡ start_recv dstva env) (val perm : ℕ) where
  -- The state after the message.
  sent : Kernel
  sent = set_env e (deliver (k.envs c).env_id val perm (k.envs e)) k

  ipc_send-sent : ipc_send envid val none perm k ≡ ret true sent
  unfolding ipc_send sent start_recv
  ipc_send-sent =
      let call : sys_ipc_try_send envid val u_top perm k ≡ ret 0 sent =
        sys_ipc_try_send_lem k envid c e running other found val u_top perm (omega arith)
        ∙ rw waits refl in
      rw call refl

  -- Let `envid` name the live environment `e`, which waits as `sys_ipc_recv` left it at `dstva`.
  -- Then `ipc_send` without a page to `envid` sends at its first attempt, and when `e` runs, with
  -- the result 0, `ipc_recv` gives the value that was sent and the identifier of the sender. For
  -- the permissions it gives those of `ipc_send` if `dstva` is below `UTOP`, although no page was
  -- sent, and 0 otherwise.
  pub ipc_send-ipc_received :
      (k' : Kernel) × (ipc_send envid val none perm k ≡ ret true k')
      × (ipc_received 0 (record k' { curenv = some e })
          ≡ ret
              (record {
                value = val;
                from_env = (k.envs c).env_id;
                perm = if ltb dstva u_top then perm else 0;
              })
              (record k' { curenv = some e }))
  unfolding sent deliver start_recv ipc_received sys_getenvid
  ipc_send-ipc_received = (sent, ipc_send-sent, ground (arith, found.slot, found.current, waits))
