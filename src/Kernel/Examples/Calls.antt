-- ===== src/Kernel/Examples/Calls.antt =====
-- The theorems about system calls on the small machine.
use csdi_jos.Common.{ℕ, ◌≤◌, ◌≡◌, ◌≢◌, inl, refl, true, false, none, some, [], ◌∷◌, arith}
use csdi_jos.Kernel.State.{Kernel, ret, status_runnable}
use csdi_jos.Kernel.State.Returns.{Returns}
use csdi_jos.Kernel.State.Layout.{u_top, e_ipc_not_recv}
use csdi_jos.Kernel.Pages.FreeList.{FreeList}
use csdi_jos.Kernel.Envs.Ids.{Resolves, envid2env-Resolves}
use csdi_jos.Kernel.Syscall.{sys_page_alloc, sys_exofork}
use csdi_jos.Kernel.Syscall.Ipc.{sys_ipc_try_send, start_recv}
use csdi_jos.Kernel.Syscall.Messages.{recv_send}
use csdi_jos.Kernel.Syscall.Forking.{Forked, sys_exofork-Forked}
use csdi_jos.Kernel.Syscall.Mapping.{PageAllocs, sys_page_alloc-PageAllocs}
use csdi_jos.Kernel.Examples.{machine, blank, machine-FreeList, machine-EnvLinks, empty-HasTable}

receiver-Resolves : Resolves machine 4097 false 0 1
unfolding start_recv
receiver-Resolves = record {
  slot = refl;
  current = refl;
  live = omega arith;
  allowed = λ check. absurd (ground arith);
}

caller-Resolves : Resolves machine 4096 true 0 0
caller-Resolves = record {
  slot = refl;
  current = refl;
  live = omega arith;
  allowed = λ check. inl refl;
}

stranger-not_Resolves : ¬ Resolves machine 4100 true 0 4
stranger-not_Resolves r = ground (arith, r.allowed refl)

recv_send_example :
    (k' : Kernel) × (sys_ipc_try_send 4097 42 u_top 0 machine ≡ ret 0 k')
    × ((k'.envs 1).env_ipc_value ≡ 42)
    × ((k'.envs 1).env_ipc_from ≡ 4096)
    × ((k'.envs 1).env_status ≡ status_runnable)
    × ((k'.envs 1).env_tf.tf_regs.reg_eax ≡ 0)
    × ((i : ℕ) → 1 ≢ i → k'.envs i ≡ machine.envs i)
    × ((c' value' srcva' perm' : ℕ)
        → u_top ≤ srcva'
        → sys_ipc_try_send 4097 value' srcva' perm' (record k' { curenv = some c' })
          ≡ ret e_ipc_not_recv (record k' { curenv = some c' }))
recv_send_example =
    recv_send machine 4097 0 1 0x2000
      (record blank { env_id = 4097; env_parent_id = 9; env_pgdir = some 2 }) refl (omega arith)
      receiver-Resolves refl 42 u_top 0 (omega arith) (omega arith)

sys_exofork-Forked_example : Returns (λ r k'. Forked machine k' 0 2 r) (sys_exofork machine)
sys_exofork-Forked_example =
    sys_exofork-Forked 0 2 3 (3 ∷ []) (4 ∷ []) refl machine-EnvLinks ((omega arith, tt), (tt, tt))
      ((omega arith, omega arith), ((omega arith, omega arith), tt))
      (omega arith, (omega arith, tt)) machine-FreeList (omega arith)
      (omega arith, (omega arith, tt))

-- The machine with no free slot.
abbrev full : Kernel
full = record machine { env_free_list = none }

full-FreeList : FreeList full (3 ∷ 4 ∷ [])
full-FreeList = record {
  chain = machine-FreeList.chain;
  distinct = machine-FreeList.distinct;
  bounded = machine-FreeList.bounded;
  unused = machine-FreeList.unused;
}

sys_page_alloc-PageAllocs_example :
    PageAllocs machine 2 0x2000 5 0xff7 (3 ∷ 4 ∷ []) (sys_page_alloc 4096 0x2000 0xff7 machine)
sys_page_alloc-PageAllocs_example =
    sys_page_alloc-PageAllocs 4096 0 2 0x2000 5 0xff7 (3 ∷ 4 ∷ [])
      (envid2env-Resolves machine 4096 true 0 refl 0 (omega arith) caller-Resolves) refl
      empty-HasTable refl machine-FreeList (omega arith, (omega arith, tt))
      (omega arith, (omega arith, tt)) (omega arith) (omega arith) refl refl refl (omega arith)
