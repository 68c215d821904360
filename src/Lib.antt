-- ===== src/Lib.antt =====
-- The JOS kernel of this repository: physical memory, address spaces, environments, system calls,
-- traps, the console, the monitor's command line, the debugging information, the boot loader, and the
-- string and formatting library that they use.
--
-- How the parts fit. A trap (trap.c) saves the registers of the current environment and dispatches; a
-- system call (syscall.c) checks the ids and the memory that a program names, by `envid2env` (env.c)
-- and `user_mem_check` (pmap.c). An environment (env.c) owns a page directory, which `page_insert` and
-- `page_remove` (pmap.c) change, with pages from the page allocator (pmap.c). Output goes through
-- lib/printfmt.c to the console (console.c), which also keeps the characters typed. The boot loader
-- (boot/main.c) brings the kernel into memory; the monitor (monitor.c) reads commands, and names the
-- functions on the stack by the debugging information (kdebug.c).
--
-- Which file models what. A C function is the definition of the same name; a piece of a function that
-- is a definition of its own says so in a comment.
--   Base      names that all modules share; `Base.Monad` is the form of stateful code: a command takes
--             a state to a result and a new state, or to `panicked`, for `panic` and `assert`
--   Pmap      pmap.c, pmap.h, inc/mmu.h, inc/memlayout.h: `Addr` the macros, `State` the variables
--             and physical memory by pages of words, `Alloc` the page allocator, `Table` the page
--             tables, `UserMem` the check of user memory, with `UserMem.Text` the text that `%.*s`
--             of lib/printfmt.c reads there, `Boot` the tables of entrypgdir.c,
--             `BootAlloc` the allocator used at boot, `Detect` the size of memory. `MemInit` is
--             `mem_init`: `SetUp` its first part, `Map` the mappings, `Check` on `check_kern_pgdir`,
--             `Whole` all of it, `Access` what users may do with it. `Check` is `check_page_alloc`, with
--             `Split` for `check_page_free_list` and the pointer code by which it sorts the list.
--             `Alloc.FreeList` (the free list as a list), `Table.Space` (the translations of a
--             directory), `MemInit.SetUp.Laws` (the memory that is set up at boot) and `MemInit.Map`
--             (the kernel's address space) are the abstract views
--   Env       env.c: `State` the table of environments, `Ops` and `Life` its operations, `Ids` the ids
--             that `env_alloc` makes, `Init` the free list at the start, `Lookup` how `envid2env` answers
--   Syscall   syscall.c
--   Trap      trap.c: `Name` is `trapname`
--   CString   lib/string.c: `Scan` on NUL-terminated strings, `Move` on `memmove` and `memset`, `Compare`
--             on `strcmp`, `Number` with `strtol`, `Number.RoundTrip` on it and `printnum`,
--             whose digits are `Number.Digits`
--   Format    lib/printfmt.c: `Digits` on `printnum`, `Buffer` on `snprintf`, `Directive` the flags and
--             conversions of `vprintfmt`, `Vprintfmt` its loop, `Plain` formats with one `%d`; `Output`
--             is `cprintf` of user programs (lib/printf.c), `Output.Kernel` that of the kernel
--             (printf.c), and `Chunks` what both hand on
--   Kdebug    kdebug.c and inc/stab.h: the search of the stabs, with `Kinds` the stabs of one kind,
--             `Bracket` its invariant, `Regions` its answers and `Overlap` stabs too close for it; `Eip` is
--             `debuginfo_eip`
--   Loader    boot/main.c: `Sectors` on `readseg`, `Segments` on `bootmain`
--   Monitor   monitor.c: `Words` the words of a line, `Parse` how `runcmd` splits it, `Command` what it
--             calls, `Round` a round of its loop, `Backtrace` the walk over the stack
--   Console   console.c: `Input` the ring buffer, `Queue` its abstract view, `Keyboard` the decoder of
--             scan codes, `Keys` what it types, `Screen` the CGA screen, `Rows` its bounds; and
--             `Readline` the line editor of lib/readline.c
--   Tests     concrete data on which the hypotheses hold
--
-- State. A pointer to `struct PageInfo` or `struct Env` is the index in its array, and NULL is `none`.
-- A page table is the physical page that holds it. Numbers are unbounded, and each 32-bit operation
-- that can leave its range has its wrap-around written out. A call that ends in the loop
-- `while (1) monitor(NULL)` of `env_destroy` is the value `in_monitor`.
--
-- Fuel. `check_pages` is given one round for each page of the range, counted from the wrapped ends,
-- and one more; `strlen` and `strcpy` need one more than the length of the string, and `printnum` one
-- for each digit. `vprintfmt` needs one round for each character of the format and one more, the search
-- of the stabs one for each stab of its range and two more, `readseg` one for each sector and three
-- more, `bootmain` one for each program header and one more, and `runcmd` one for each character of the
-- line and one more. The loops along the free list need one round for each free page, and `mem_init` gives
-- them one for each page of the machine. The results below and the lemmas on these
-- routines prove that this is enough. Other loops recur on what is left.
--
-- Parameters. The headers inc/env.h, inc/trap.h, inc/syscall.h and inc/lib.h are not in the
-- repository: the number of environments, ENVX and ENV_TYPE_USER (`Layout`, with `IsLayout` for what
-- env.c relies on), the size of `struct Env`, the trap and call numbers and the monitor (`Platform`), and the range
-- of `pp_ref` (`ref_mod`) are arguments. The structures have the fields that the code uses. The
-- arguments of `vprintfmt` are the words behind `ap`, and `text_at` gives the characters at a pointer.
-- `vsnprintf` is given the characters put. The disk drive is a function of its registers, of which
-- `Holds` says that it answers the sector that they name.
--
-- Not modelled: the start of the kernel (init.c), `check_page_installed_pgdir` and the end of
-- `mem_init`, which loads control registers, what `check_page` does (`mem_init` calls it as a parameter,
-- of which `Passes` says that it passes and leaves the same pages free), loading of ELF
-- images into environments (`load_icode`, `env_create`), the processor tables of `trap_init` and
-- `env_init_percpu`, `print_trapframe`, device setup, the monitor's commands that only print, and the
-- stubs of the user library; kern/ holds earlier copies of files of the top directory. What a call
-- of `cprintf` prints is left out, the line that `%o` prints included, but for `sys_cputs` and the
-- results on `cprintf`, and so are waits on device registers.
pub mod Base
pub mod Pmap
pub mod Env
pub mod Syscall
pub mod Trap
pub mod CString
pub mod Format
pub mod Kdebug
pub mod Loader
pub mod Monitor
pub mod Console
pub mod Tests
