-- ===== src/Kernel/State.antt =====
-- The state that one CPU's kernel code works on, and the monad of its functions.
pub mod Layout
pub mod Returns
use csdi_jos.Common.{
  ℕ, zero, suc, ◌+◌, ◌%◌, ◌^◌, ◌≡◌, Bool, true, false, ◌&&◌, ◌==◌, Option, none, some, List,
  if◌then◌else◌, update, same_ptr,
}
use Layout.{Trapframe}

-- `struct Page`: a page is named by its index in `pages`, and a null link is `none`.
pub record Page : Type 0 where
  pub pp_link : Option ℕ
  pub pp_ref : ℕ  -- uint16_t

-- `env_status`, kept as the `unsigned` that the source keeps: system calls store any value in it.
abbrev pub status_free : ℕ
status_free = 0

abbrev pub status_dying : ℕ
status_dying = 1

abbrev pub status_runnable : ℕ
status_runnable = 2

abbrev pub status_running : ℕ
status_running = 3

abbrev pub status_not_runnable : ℕ
status_not_runnable = 4

pub data EnvType : Type 0 where
  user idle : EnvType

abbrev pub is_idle : EnvType → Bool
is_idle user = false
is_idle idle = true

-- `struct Env`: an environment is named by its index in `envs`. `env_pgdir` is the frame of the
-- page directory, or `none` for a null pointer.
pub record Env : Type 0 where
  pub env_tf : Trapframe
  pub env_link : Option ℕ
  pub env_id : ℕ
  pub env_parent_id : ℕ
  pub env_type : EnvType
  pub env_status : ℕ
  pub env_runs : ℕ
  pub env_cpunum : ℕ
  pub env_pgdir : Option ℕ
  pub env_pgfault_upcall : ℕ
  pub env_ipc_recving : Bool
  pub env_ipc_dstva : ℕ
  pub env_ipc_value : ℕ
  pub env_ipc_from : ℕ
  pub env_ipc_perm : ℕ

-- `struct spinlock` less its name and call stack, which only error messages read.
pub record Spinlock : Type 0 where
  pub locked : Bool
  pub cpu : Option ℕ

-- The console's input buffer.
pub record Cons : Type 0 where
  pub buf : ℕ → ℕ
  pub rpos : ℕ
  pub wpos : ℕ

-- `frames f i` is word `i` of physical page `f`. `cpunum` and `curenv` are those of the CPU that
-- runs the code; `flushed` lists the addresses given to `invlpg` and `printed` the ranges given to
-- `cprintf` by `sys_cputs`, latest first. `polled` lists what the serial port and the keyboard answer
-- until they answer -1, when the console is next polled.
pub record Kernel : Type 0 where
  pub npages : ℕ
  pub npages_basemem : ℕ
  pub pages : ℕ → Page
  pub nextfree : ℕ  -- `boot_alloc`'s own variable
  pub page_free_list : Option ℕ
  pub chunck_list : Page
  pub frames : ℕ → ℕ → ℕ
  pub kern_pgdir : ℕ
  pub cr3 : ℕ
  pub flushed : List ℕ
  pub user_mem_check_addr : ℕ
  pub envs : ℕ → Env
  pub env_free_list : Option ℕ
  pub curenv : Option ℕ
  pub cpunum : ℕ
  pub kernel_lock : Spinlock
  pub cons : Cons
  pub polled : List ℕ
  pub printed : List (ℕ × ℕ)

-- How a call ends: it returns; it enters user mode in an environment or stays in the kernel
-- monitor for ever, and does not return; it panics; it goes through
-- a null or an unset pointer; or a loop has run out of the fuel that the model gave it.
pub data Outcome (A : Type 0) : Type 0 where
  ret : A → Kernel → Outcome A
  enter : ℕ → Kernel → Outcome A
  monitor : Kernel → Outcome A
  panic : Outcome A
  fault : Outcome A
  diverge : Outcome A

abbrev pub K : Type 0 → Type 0
K A = Kernel → Outcome A

abbrev pub pure : {A : Type 0} → A → K A
pure = ret

abbrev pub panics : {A : Type 0} → K A
panics k = panic

abbrev pub diverges : {A : Type 0} → K A
diverges k = diverge

abbrev pub faults : {A : Type 0} → K A
faults k = fault

module _ {A B : Type 0} where
  abbrev pub and_then : Outcome A → (A → K B) → Outcome B
  and_then (ret a k) f = f a k
  and_then (enter e k) f = enter e k
  and_then (monitor k) f = monitor k
  and_then panic f = panic
  and_then fault f = fault
  and_then diverge f = diverge

  infixl 5 ◌>>=◌ ◌>>◌
  abbrev pub ◌>>=◌ : K A → (A → K B) → K B
  m >>= f = λ k. and_then (m k) f

  abbrev pub ◌>>◌ : K A → K B → K B
  m >> n = m >>= λ _. n

abbrev pub get : K Kernel
get k = ret k k

abbrev pub put : Kernel → K (Unit {0})
put k' k = ret tt k'

abbrev pub set_page : ℕ → Page → Kernel → Kernel
set_page p v k = record k { pages = update k.pages p v }

abbrev pub set_env : ℕ → Env → Kernel → Kernel
set_env e v k = record k { envs = update k.envs e v }

-- A word of physical memory.
abbrev pub set_word : ℕ → ℕ → ℕ → Kernel → Kernel
set_word f i w k = record k { frames = update k.frames f (update (k.frames f) i w) }

-- The 1024 words of a frame at once, as `memset` and `memmove` write them.
abbrev pub set_frame : ℕ → (ℕ → ℕ) → Kernel → Kernel
set_frame f ws k = record k { frames = update k.frames f ws }
