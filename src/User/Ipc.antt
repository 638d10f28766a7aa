-- ===== src/User/Ipc.antt =====
-- lab4/lib/ipc.c, on the kernel's state: a system call is the kernel's function. A null pointer is
-- `none`.
pub mod Lookup
pub mod Delivery
use csdi_jos.Common.{ℕ, zero, suc, Bool, true, false, not, ◌==◌, Option, none, some, if◌then◌else◌}
use csdi_jos.Kernel.State.{Kernel, EnvType, is_idle, ret, K, pure, panics, ◌>>=◌, ◌>>◌}
use csdi_jos.Kernel.State.Layout.{n_env, envx, u_top, is_neg, e_ipc_not_recv}
use csdi_jos.Kernel.Sched.{sched_yield}
use csdi_jos.Kernel.Syscall.{sys_getenvid}
use csdi_jos.Kernel.Syscall.Ipc.{sys_ipc_try_send, sys_ipc_recv}

-- The page's address, or `UTOP` for none.
abbrev pub page_or_top : Option ℕ → ℕ
page_or_top none = u_top
page_or_top (some pg) = pg

-- What is returned, and what is stored for the sender and the permissions where a pointer is given.
pub record Received : Type 0 where
  pub value : ℕ
  pub from_env : ℕ
  pub perm : ℕ

-- `ipc_recv` once the system call has returned `r`.
unfoldable pub ipc_received : (r : ℕ) → K Received
unfolding sys_getenvid
ipc_received r = sys_getenvid >>= λ id k.
    let env = k.envs (envx id) in
    ret
      (if is_neg r then record { value = r; from_env = 0; perm = 0 } else record {
        value = env.env_ipc_value;
        from_env = env.env_ipc_from;
        perm = env.env_ipc_perm;
      })
      k

unfoldable pub ipc_recv : (pg : Option ℕ) → K Received
unfolding sys_ipc_recv ipc_received
ipc_recv pg = sys_ipc_recv (page_or_top pg) >>= λ r. ipc_received r

-- The loop of `ipc_send` up to the end, `true`, or to the return of `sys_yield`, `false`.
unfoldable pub ipc_send : (to_env val : ℕ) → (pg : Option ℕ) → (perm : ℕ) → K Bool
unfolding sys_ipc_try_send sched_yield
ipc_send to_env val pg perm = do
  r ← sys_ipc_try_send to_env val (page_or_top pg) perm
  if r == 0 then pure true else if r == e_ipc_not_recv then (do sched_yield; pure false) else panics

abbrev pub same_type : EnvType → EnvType → Bool
same_type a b = if is_idle a then is_idle b else not (is_idle b)

-- The loop, for `n` environments from `i` on.
unfoldable pub find_env : Kernel → EnvType → (n i : ℕ) → ℕ
find_env k type zero i = 0
find_env k type (suc n) i =
    let rest = find_env k type n (suc i) in
    if same_type (k.envs i).env_type type then (k.envs i).env_id else rest

unfoldable pub ipc_find_env : (type : EnvType) → Kernel → ℕ
unfolding find_env
ipc_find_env type k = find_env k type n_env 0
