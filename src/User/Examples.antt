-- ===== src/User/Examples.antt =====
-- The theorems about the user library on a short text and on the small machine.
use csdi_jos.Common.{
  ℕ, ◌≡◌, inl, inr, refl, true, false, ◌==◌, none, some, List, [], ◌∷◌, if◌then◌else◌, arith,
}
use csdi_jos.Kernel.State.{Kernel, status_runnable}
use csdi_jos.Kernel.State.Layout.{pdx, pte_p}
use csdi_jos.Kernel.Pages.FreeList.{FreeList}
use csdi_jos.Kernel.Vm.View.{translate, Directory, Busy}
use csdi_jos.Kernel.Vm.Refinement.{MapsHeld}
use csdi_jos.Kernel.State.Returns.{Returns}
use csdi_jos.Kernel.Vm.Isolation.{Apart, Same}
use csdi_jos.Kernel.Syscall.{sys_page_map}
use csdi_jos.Kernel.Syscall.Isolation.{sys_page_map-Same}
use csdi_jos.Kernel.Envs.Ids.{Resolves, envid2env-Resolves}
use csdi_jos.Kernel.Examples.{machine, blank, machine-FreeList}
use csdi_jos.Library.Strings.{Bytes}
use csdi_jos.Library.Formats.{vprintfmt}
use csdi_jos.User.Printing.{vcprintf}
use csdi_jos.User.Printing.Chunks.{Chunks, vcprintf-Chunks}
use csdi_jos.Kernel.State.{ret}
use csdi_jos.Kernel.Syscall.Ipc.{start_recv}
use csdi_jos.User.Ipc.{ipc_received, ipc_send}
use csdi_jos.User.Ipc.Delivery.{ipc_send-ipc_received}
use csdi_jos.User.Fork.{duppage}
use csdi_jos.User.Fork.Sharing.{Shares, duppage-Shares}

abbrev empty_strings : ℕ → Bytes
empty_strings a = 0 ∷ []

vcprintf-Chunks_example :
    (calls : List (List ℕ)) × (vcprintf empty_strings (λ i. 0) (97 ∷ 98 ∷ 0 ∷ []) []
      ≡ some (2, calls))
    × Chunks calls (97 ∷ 98 ∷ [])
unfolding vprintfmt
vcprintf-Chunks_example =
    vcprintf-Chunks empty_strings (λ i. 0) (97 ∷ 98 ∷ 0 ∷ []) []
      (record { out = 97 ∷ 98 ∷ []; args = []; stored = [] }) refl

-- Environment 0 has a child in slot 2 with the empty directory of page 8, and a read-only page at
-- 0x3000.
abbrev parent_machine : Kernel
parent_machine = record machine {
  envs = λ e.
      if e == 2
      then record blank {
        env_id = 4098;
        env_parent_id = 4096;
        env_status = status_runnable;
        env_pgdir = some 8;
      }
      else machine.envs e;
  frames = λ f i.
      if f == 2
      then (if i == 0 then 0x5007 else 0)
      else if f == 5
      then (if i == 3 then 0x6005 else 0)
      else 0;
}

parent-FreeList : FreeList parent_machine (3 ∷ 4 ∷ [])
parent-FreeList = record {
  chain = machine-FreeList.chain;
  distinct = machine-FreeList.distinct;
  bounded = machine-FreeList.bounded;
  unused = machine-FreeList.unused;
}

parent_entry :
    (a : ℕ)
    → pte_p (parent_machine.frames 2 (pdx a)) ≡ true
    → parent_machine.frames 2 (pdx a) ≡ 0x5007
parent_entry a h = ground (arith, h)

parent-Directory : Directory parent_machine 2
parent-Directory = record {
  tables = λ a out set. record {
    present = set;
    at = refl;
    inside = rw (parent_entry a set) (omega arith);
    apart = rw (parent_entry a set) (omega arith);
  };
  distinct = λ a b out out' ne set set'. absurd (ne (ground (arith, set, set')));
}

child-Directory : Directory parent_machine 8
child-Directory = record {
  tables = λ a out set. absurd (ground (arith, set));
  distinct = λ a b out out' ne set set'. absurd (ground (arith, set));
}

child-Busy : Busy parent_machine 8 (3 ∷ 4 ∷ [])
child-Busy = record {
  directory = (omega arith, (omega arith, tt));
  tables = λ a out set. absurd (ground (arith, set));
}

child-Resolves : Resolves parent_machine 4098 true 0 2
child-Resolves = record {
  slot = refl;
  current = refl;
  live = omega arith;
  allowed = λ check. inr refl;
}

parent_maps : translate parent_machine 2 0x3000 ≡ some 0x6005
unfolding translate
parent_maps = refl

child-MapsHeld : MapsHeld parent_machine 8 0x3000 (3 ∷ 4 ∷ [])
unfolding translate
child-MapsHeld pte h = absurd (ground (arith, h))

duppage-Shares_example :
    Shares parent_machine 8 0x3000 0x6005 (3 ∷ 4 ∷ []) (duppage 4098 3 parent_machine)
duppage-Shares_example =
    duppage-Shares parent_machine 0 2 2 8 4098 3 0x6005 (3 ∷ 4 ∷ []) (omega arith) (omega arith)
      refl refl refl
      (envid2env-Resolves parent_machine 4098 true 0 refl 2 (omega arith) child-Resolves)
      parent-Directory child-Directory parent-FreeList child-Busy child-MapsHeld parent_maps
      (omega arith) refl

parent-Busy : Busy parent_machine 2 (3 ∷ 4 ∷ [])
parent-Busy = record {
  directory = (omega arith, (omega arith, tt));
  tables = λ a out set. rw (parent_entry a set) (omega arith, (omega arith, tt));
}

child-Apart : Apart parent_machine 8 2
child-Apart = record {
  distinct = omega arith;
  other_table = λ b low set. rw (parent_entry b set) (omega arith);
  own_table = λ a table low h. absurd (ground (arith, h.present));
  tables = λ a b table low low' h set. absurd (ground (arith, h.present));
}

self-Resolves : Resolves parent_machine 4096 true 0 0
self-Resolves = record {
  slot = refl;
  current = refl;
  live = omega arith;
  allowed = λ check. inl refl;
}

sys_page_map-Same_example :
    Returns
      (λ r k'. Same parent_machine 2 k')
      (sys_page_map 4096 0x3000 4098 0x3000 5 parent_machine)
sys_page_map-Same_example =
    sys_page_map-Same parent_machine 0 0x3000 2 0x3000 5 2 8 2 0x6005 (3 ∷ 4 ∷ []) (omega arith)
      (omega arith) (omega arith) refl refl parent-Directory child-Directory parent-FreeList
      child-Busy child-MapsHeld parent_maps (omega arith) child-Apart parent-Busy 4096 4098
      (envid2env-Resolves parent_machine 4096 true 0 refl 0 (omega arith) self-Resolves)
      (envid2env-Resolves parent_machine 4098 true 0 refl 2 (omega arith) child-Resolves) refl refl
      refl refl refl

receiving-Resolves : Resolves machine 4097 false 0 1
unfolding start_recv
receiving-Resolves = record {
  slot = refl;
  current = refl;
  live = omega arith;
  allowed = λ check. absurd (ground (arith, check));
}

ipc_send-ipc_received_example :
    (k' : Kernel) × (ipc_send 4097 42 none 7 machine ≡ ret true k')
    × (ipc_received 0 (record k' { curenv = some 1 })
        ≡ ret (record { value = 42; from_env = 4096; perm = 7 }) (record k' { curenv = some 1 }))
ipc_send-ipc_received_example =
    ipc_send-ipc_received machine 4097 0 1 0x2000
      (record blank { env_id = 4097; env_parent_id = 9; env_pgdir = some 2 }) refl (omega arith)
      receiving-Resolves refl 42 7
