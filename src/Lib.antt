-- ===== src/Lib.antt =====
-- The JOS kernel of lab4: its pages, page tables, environments, scheduler, system calls,
-- traps and console, and the library that it shares with user programs.
--
-- lab1 to lab3 hold earlier states of the code that lab4 contains; lab4 is what is modelled.
--
-- The program and the files:
--   * Kernel/State: the data that the kernel's functions share. `Kernel` is one record of what
--     lab4/kern keeps in global variables, and of physical memory: `frames f i` is word `i` of page
--     `f`. A `struct Page *` or `struct Env *` is an index, a null pointer is `none`, a kernel
--     pointer into physical memory is the frame that it points into. `Outcome` is how a call ends:
--     a return, an entry into user mode, the kernel monitor, a panic, a fault through a null or unset
--     pointer, or a lock that is never released. `K` chains calls by do blocks.
--     State/Layout has the constants and macros of lab4/inc, State/Returns the postconditions.
--   * Kernel/Pages: the page allocator of lab4/kern/pmap.c, `boot_alloc` to `page_free_4pages`.
--     Pages/FreeList reads the free list as a list of pages, Pages/Init is about `page_init`,
--     Pages/FourPages about `page_alloc_4pages`.
--   * Kernel/Vm: `pgdir_walk` to `user_mem_check` of lab4/kern/pmap.c. Vm/Walk, Vm/Insert, Vm/Remap,
--     Vm/Remove and Vm/Check hold what is shown of each. Vm/Store has the words that `page_insert` and
--     `page_remove` write, Vm/View the address space of a directory as a function from addresses to
--     entries, Vm/EmptyTable a new page table in it, Vm/Refinement the operations against it,
--     Vm/Isolation the address spaces of other directories, Vm/Fresh `page_insert` where nothing is
--     mapped, with the free list and the pages that it leaves alone, Vm/Static
--     `boot_map_region`: a round, and in Static/Range all of them.
--   * Kernel/Spinlock: lab4/kern/spinlock.c as the CPU that runs the code sees it. Spinlock/Cpus has
--     several CPUs, whose steps interleave, and Spinlock/Exclusion its invariant.
--   * Kernel/Console: the input buffer of lab4/kern/console.c; Console/Buffer reads it as a queue.
--   * Kernel/Envs: lab4/kern/env.c, with `env_run` in Envs/Switch and `env_free` in Envs/Free.
--     Envs/Ids is about identifiers, Envs/Alloc about the list of free slots, Envs/Create about
--     `env_alloc`, Envs/Run about `env_run`, Envs/Region about `region_alloc`: Region/Taken after a page
--     is taken, Region/Cons a round before the others, Region/Loop all of them.
--   * Kernel/Load: `load_icode` and `env_create` of lab4/kern/env.c, whose copies into the user's memory
--     go a byte at a time through the current directory; the image is in the bytes of the kernel's
--     memory, an argument. Load/Image describes the memory of a program by its pages and bytes,
--     Load/Store writes a byte, Load/Copy many, Load/Pages adds pages, Load/Segments and Load/Loop
--     take the program headers, Load/Entry ends `load_icode`, Load/Create is about `env_create`.
--   * Kernel/Start: `mem_init` and `mem_init_mp` of lab4/kern/pmap.c, with the addresses of the linker
--     and of the static stacks as arguments. Start/Root describes the address space by the ranges
--     that are mapped, Start/MemInit goes from the memory behind the kernel to it.
--   * Kernel/Sched: lab4/kern/sched.c and `env_destroy`; Sched/Choice is about the choice,
--     Sched/Fair about how long a runnable environment waits.
--   * Kernel/Syscall: lab4/kern/syscall.c, with the message calls in Syscall/Ipc and the dispatch in
--     Syscall/Dispatch. Syscall/Mapping, Syscall/Status, Syscall/Forking, Syscall/Messages and
--     Syscall/Blocking hold what is shown of them, Syscall/Sharing what `sys_page_map` does to the
--     address spaces that it is about, Syscall/Isolation the same for all others.
--   * Kernel/Trap: lab4/kern/trap.c, with the writes of the page fault handler to the user's exception
--     stack a byte at a time through the current page directory. Trap/Frame is about the pushes,
--     Trap/Ends about how a trap ends.
--   * Kernel/Kdebug: `stab_binsearch` of lab4/kern/kdebug.c. Kdebug/Steps has what a round does,
--     Kdebug/Loop the end of the loop, Kdebug/Found what the rounds keep, and below it Found/Ends the
--     answers and Found/Unique that there is one. Kernel/Debuginfo: `debuginfo_eip`, on tables that
--     are its arguments; Debuginfo/Entries is about a name and the parameters in the tables, and
--     Debuginfo/Functions about the function that it names.
--     Kernel/Monitor: the parser of `runcmd` in lab4/kern/monitor.c; Monitor/Words splits a text into
--     words, Monitor/Arguments compares. Kernel/Display: `cga_putc` of lab4/kern/console.c, and
--     Display/Cells where it writes. Kernel/Keyboard: the keyboard's tables and modifiers in the same
--     file, and the ports; Keyboard/Strokes is about keys that are pressed and released.
--     Kernel/Mpconfig: lab4/kern/mpconfig.c; Mpconfig/Search is about the search for the structure,
--     Mpconfig/Processors about the count.
--   * User/Fork: lab4/lib/fork.c and lab4/lib/pgfault.c, run on the kernel's state as the current
--     environment; Fork/Sharing is about `duppage`. User/Printing: lab4/lib/printf.c;
--     Printing/Chunks is about its system calls. User/Ipc: lab4/lib/ipc.c, where `ipc_send` ends at
--     the return of `sys_yield` and `ipc_received` is `ipc_recv` once the system call is back;
--     Ipc/Delivery is about a message, Ipc/Lookup about `ipc_find_env`. User/Examples applies the
--     results.
--   * Library/Strings and Library/Numbers: lab4/lib/string.c; a pointer is the list of the bytes from
--     it on. Library/Printing: `printnum` of lab4/lib/printfmt.c. Library/Escapes and
--     Library/Formats: `vprintfmt`, with the memory of `%s` and the byte that `%n` finds as arguments;
--     Formats/Fuel is about its end, Formats/Decimal about "%d". Library/Texts has its strings.
--     Library/Buffers: `vsnprintf`, and Buffers/Bounds what it writes. Library/Readline:
--     lab4/lib/readline.c on a list of characters; Readline/Editing is about the line it returns.
--     Library/Memory: `memset` and `memmove` of lab4/lib/string.c, in assembly and in C, on the bytes
--     of memory; Memory/Moves is about their loops, Memory/Copies and Memory/Fills about what they
--     leave. Library/Samples applies the results to short strings.
--   * Boot: the boot loader lab4/boot/main.c, with the drive as an argument and the fields of
--     lab4/inc/elf.h in Boot/Elf; Boot/Readseg is about a segment, Boot/Bootmain about the kernel,
--     Boot/Examples applies both to a small disk.
--   * Kernel/Examples: a small machine, on which the results are applied.
--   * Common: numbers, tests, lists and the laws of `|` that the others share.
-- The system calls work on environments by Kernel/Envs and Kernel/Sched, these on page tables by
-- Kernel/Vm, and these on pages by Kernel/Pages.
--
-- Machine words are natural numbers with the wrap-around written out: addresses modulo 2 ^ 32,
-- `pp_ref` modulo 2 ^ 16. Errors are the words that the negative codes are. An unsigned field
-- `env_status` keeps any number, since the code stores any.
--
-- Fuel: `user_mem_check` has 2 ^ 20 + 1 rounds, one more than memory has pages; the loops over the
-- environments have 1024 rounds as in the source; `page_alloc_4pages` takes its fuel as an argument,
-- which the length of the free list bounds; `region_alloc` has 2 ^ 20 + 1 rounds, one more than the
-- address space has pages. `readseg` has 2 ^ 23 + 1 rounds, one more than memory has sectors, and the
-- loop over the program headers 2 ^ 16 + 1, since their number is a half word.
-- `stab_binsearch` has twice as many rounds as stabs and two, since a round that finds the address
-- does not shorten the range; `vprintfmt` has a round for each byte of the format and one; the
-- command parser has 17 rounds, since each but the last takes an argument.
-- Where the source asks the user at the console whether to leave the monitor, the answer is an
-- argument of the model.
--
-- Not modelled: ports, interrupt controllers and the devices but for what the console reads; assembly
-- other than the string instructions; the other CPUs' steps but for the lock; the text that `cprintf`
-- prints; the start of the kernel but for its memory; the interrupt descriptors; what is left of the
-- user library; the programs of user mode; the search for the line in `debuginfo_eip`, which the
-- source leaves out.
pub mod Common
pub mod Kernel
pub mod Library
pub mod User
pub mod Boot
