-- ===== src/Kernel/Examples.antt =====
-- A small machine, on which the theorems about the kernel are applied.
pub mod Processors
pub mod Memory
pub mod Spaces
pub mod Turns
pub mod Tables
pub mod Commands
pub mod Environments
pub mod Calls
pub mod Traps
pub mod Programs
pub mod Locks
use csdi_jos.Common.{ℕ, refl, true, false, ◌&&◌, ◌==◌, none, some, [], ◌∷◌, if◌then◌else◌, arith}
use csdi_jos.Kernel.State.{Kernel, Page, Env, user, status_free, status_runnable, status_running}
use csdi_jos.Kernel.State.Layout.{zero_trapframe}
use csdi_jos.Kernel.Pages.FreeList.{FreeList}
use csdi_jos.Kernel.Vm.Walk.{HasTable}
use csdi_jos.Kernel.Vm.Remove.{Held}
use csdi_jos.Kernel.Envs.Alloc.{EnvLinks}
use csdi_jos.Kernel.Syscall.Ipc.{start_recv}

-- Pages 3 and 4 are free; the others have one reference.
abbrev pub pages_of : ℕ → Page
pages_of p =
    if p == 3
    then record { pp_link = some 4; pp_ref = 0 }
    else if p == 4
    then record { pp_link = none; pp_ref = 0 }
    else record { pp_link = none; pp_ref = 1 }

-- Frame 2 is a directory whose first entry leads to the table in frame 5. The table maps address
-- 0x1000 to page 6, writable for users, and has an entry of 0 for address 0x2000.
abbrev pub memory : ℕ → ℕ → ℕ
memory f i = if f == 2 && i == 0 then 0x5007 else if f == 5 && i == 1 then 0x6007 else 0

abbrev pub blank : Env
blank = record {
  env_tf = zero_trapframe;
  env_link = none;
  env_id = 0;
  env_parent_id = 0;
  env_type = user;
  env_status = status_free;
  env_runs = 0;
  env_cpunum = 0;
  env_pgdir = none;
  env_pgfault_upcall = 0;
  env_ipc_recving = false;
  env_ipc_dstva = 0;
  env_ipc_value = 0;
  env_ipc_from = 0;
  env_ipc_perm = 0;
}

-- Slot 0 runs, slot 1 waits for a message with a page, slots 2 and 3 are free, slot 4 is a stranger
-- that is runnable.
abbrev pub slots : ℕ → Env
slots e =
    if e == 0
    then record blank { env_id = 4096; env_status = status_running; env_pgdir = some 2 }
    else if e == 1
    then start_recv 0x2000 (record blank { env_id = 4097; env_parent_id = 9; env_pgdir = some 2 })
    else if e == 2
    then record blank { env_link = some 3 }
    else if e == 4
    then record blank {
      env_id = 4100;
      env_parent_id = 9;
      env_status = status_runnable;
      env_pgdir = some 2;
    }
    else blank

abbrev pub machine : Kernel
machine = record {
  npages = 1024;
  npages_basemem = 8;
  pages = pages_of;
  nextfree = 0xf000_a000;
  page_free_list = some 3;
  chunck_list = record { pp_link = none; pp_ref = 0 };
  frames = memory;
  kern_pgdir = 1;
  cr3 = 2;
  flushed = [];
  user_mem_check_addr = 0;
  envs = slots;
  env_free_list = some 2;
  curenv = some 0;
  cpunum = 0;
  kernel_lock = record { locked = true; cpu = some 0 };
  cons = record { buf = λ i. 65; rpos = 511; wpos = 0 };
  polled = 0 ∷ 66 ∷ [];
  printed = [];
}

pub machine-FreeList : FreeList machine (3 ∷ 4 ∷ [])
machine-FreeList = record {
  chain = (refl, (refl, refl));
  distinct = ((omega arith, tt), (tt, tt));
  bounded = (omega arith, (omega arith, tt));
  unused = (refl, (refl, tt));
}

pub machine-HasTable : HasTable machine 2 0x1000 5
machine-HasTable = record { present = refl; at = refl; inside = omega arith; apart = omega arith }

pub empty-HasTable : HasTable machine 2 0x2000 5
empty-HasTable = record { present = refl; at = refl; inside = omega arith; apart = omega arith }

pub machine-EnvLinks : EnvLinks machine.envs machine.env_free_list (2 ∷ 3 ∷ [])
machine-EnvLinks = (refl, (refl, refl))

pub machine-Held : Held machine (3 ∷ 4 ∷ []) 6
machine-Held = record {
  inside = omega arith;
  busy = (omega arith, (omega arith, tt));
  counted = omega arith;
  short = omega arith;
}
