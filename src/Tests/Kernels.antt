-- ===== src/Tests/Kernels.antt =====
-- Instances for environments, system calls and traps.
use at_jos.Base.{
  ℕ, ◌+◌, ◌%◌, ◌^◌, ◌≤◌, ◌<◌, ◌≡◌, refl, ◌≢◌, true, false, ◌&&◌, Option, none, some, List, [], ◌∷◌,
  ◌==◌, if◌then◌else◌, arith, ◌⊎◌,
}
use at_jos.Base.Int.{ℤ, pos, neg}
use at_jos.Base.Monad.{done, panicked, pure, Cmd}
use at_jos.Pmap.Addr.{pdx, uvpt, pte_u, round_down, page_size}
use at_jos.Pmap.UserMem.Range.{TablesInRange, may_access}
use at_jos.Env.State.{
  Status, free, runnable, running, Trapframe, Env, Layout, IsLayout, Kernel, is_free,
}
use at_jos.Env.Ops.{e_bad_env, next_id, envid2env, is_denied}
use at_jos.Pmap.Alloc.FreeList.{IsFreeList}
use at_jos.Pmap.Alloc.Laws.{after_decref}
use at_jos.Pmap.Alloc.{page_decref, page_free}
use at_jos.Pmap.State.{pa2page, Memory}
use at_jos.Pmap.Addr.{pgnum, page2pa, ptx, pte_addr}
use at_jos.Env.Life.{free_space, free_tables, returned, in_monitor, no_regs, fresh_tf, env_alloc}
use at_jos.Env.Ids.{next_id_lem}
use at_jos.Env.State.{nenv}
use at_jos.Env.Ops.{env_init}
use at_jos.Env.Init.{linked, env_init_lem}
use at_jos.Env.Lookup.{self_entry, envid2env-allowed, env_alloc_lem, env_alloc-stale}
use at_jos.Syscall.{sys_cputs, sys_getenvid, sys_env_destroy, unknown, syscall, destroy}
use at_jos.Syscall.Laws.{syscall-destroy_stranger}
use at_jos.Syscall.Cputs.{IsCurrent, with_text, cputs_lem, cputs-panics_behind}
use at_jos.Pmap.UserMem.Text.{user_byte, IsText, Holds}
use at_jos.Trap.{Platform, trap}
use at_jos.Trap.Laws.{trap-user_fault}
use at_jos.Tests.Machine.{
  mapping_words, empty_machine, mapping_machine, mapping_machine-IsFreeList, first_table,
}

-- 1024 environments.
abbrev layout : Layout
layout = record { lognenv = 10; envx = λ id. id % 1024; env_type_user = 0 }

layout-IsLayout : IsLayout layout
layout-IsLayout = record { narrow = omega arith; index_part = λ g i h. omega arith }

-- Environment 0 runs, 1 is ready and no child of it, the others are free.
abbrev env_of : ℕ → Status → ℕ → Option ℕ → Env
env_of id status runs pgdir = record {
  env_tf = fresh_tf;
  env_link = none;
  env_id = id;
  env_parent_id = 0;
  env_type = 0;
  env_status = status;
  env_runs = runs;
  env_pgdir = pgdir;
}

abbrev kernel_envs : ℕ → Env
kernel_envs e =
    if e == 0
    then env_of 4096 running 1 (some 1)
    else if e == 1
    then env_of 4097 runnable 0 (some 6)
    else env_of 4098 free 0 none

abbrev kernel : Kernel
kernel = record {
  mem = mapping_machine;
  envs = kernel_envs;
  curenv = some 0;
  env_free_list = some 2;
  loaded = 1;
  printed = [];
}

kernel-IsCurrent : IsCurrent layout kernel 0 1
kernel-IsCurrent = record {
  cur = refl;
  index = refl;
  live = refl;
  positive = omega arith;
  has_space = refl;
  in_space = refl;
}

abbrev no_input : Cmd Kernel ℕ
no_input = pure 0

abbrev platform : Platform
platform = record {
  t_pgflt = 14;
  t_brkpt = 3;
  t_syscall = 48;
  sysno = λ n. if n == 2 then sys_getenvid else unknown;
  layout = layout;
  monitor = λ tf. pure in_monitor;
  cons_getc = no_input;
}

-- A trapframe with code segment, trap number and EAX.
abbrev frame : ℕ → ℕ → ℕ → Trapframe
frame cs trapno eax = record fresh_tf {
  tf_cs = cs;
  tf_trapno = trapno;
  tf_regs = record no_regs { reg_eax = eax };
}

tables : TablesInRange mapping_machine 1
tables d h = let t = first_table d h in omega arith

next_id_lem_example :
    (0 < next_id layout 0x7fff_f401 1)
    × (next_id layout 0x7fff_f401 1 < 2 ^ 31)
    × (layout.envx (next_id layout 0x7fff_f401 1) ≡ 1)
    × (next_id layout 0x7fff_f401 1 ≢ 0x7fff_f401)
next_id_lem_example = next_id_lem layout layout-IsLayout 0x7fff_f401 1 (omega arith) (omega arith)

-- What is free once page 3 is taken.
abbrev free_pages : List ℕ
free_pages = 4 ∷ []

env_alloc_lem_example :
    (k' : Kernel) × (env_alloc layout 4096 kernel ≡ done ((pos 0, some 2), k'))
    × ((k'.envs 2).env_status ≡ runnable)
    × ((k'.envs 2).env_parent_id ≡ 4096)
    × ((k'.envs 2).env_type ≡ layout.env_type_user)
    × ((k'.envs 2).env_tf ≡ fresh_tf)
    × ((k'.envs 2).env_pgdir ≡ some 3)
    × (k'.env_free_list ≡ (kernel.envs 2).env_link)
    × IsFreeList k'.mem free_pages
    × ((i : ℕ)
        → k'.mem.words 3 i
          ≡ (if pdx uvpt == i then self_entry 3 else kernel.mem.words kernel.mem.kern_pgdir i))
    × ((j : ℕ) → 2 ≢ j → k'.envs j ≡ kernel.envs j)
    × (envid2env layout (k'.envs 2).env_id false k' ≡ done ((pos 0, some 2), k'))
env_alloc_lem_example =
    env_alloc_lem layout layout-IsLayout kernel 4096 2 3 free_pages refl (omega arith) (omega arith)
      mapping_machine-IsFreeList (omega arith) (omega arith)

env_alloc-stale_example :
    (k' : Kernel) × (env_alloc layout 4096 kernel ≡ done ((pos 0, some 2), k'))
    × (envid2env layout (kernel.envs 2).env_id true k' ≡ done ((neg e_bad_env, none), k'))
env_alloc-stale_example =
    env_alloc-stale layout layout-IsLayout kernel 4096 2 3 free_pages true refl (omega arith)
      (omega arith) (omega arith) refl mapping_machine-IsFreeList (omega arith)

syscall-destroy_stranger_example :
    (destroy layout no_input (kernel.envs 1).env_id kernel
      ≡ done (returned (neg e_bad_env), kernel))
    × (syscall layout no_input sys_env_destroy (kernel.envs 1).env_id 0 kernel
        ≡ done (returned (pos 0), kernel))
syscall-destroy_stranger_example =
    syscall-destroy_stranger layout layout-IsLayout no_input kernel 0 1 0 refl refl refl
      (omega arith) (omega arith) (omega arith)

-- The page mapped at 0 ends in "AAAA", and nothing is mapped behind it.
abbrev text_machine : Memory
text_machine = record mapping_machine {
  words = λ p i. if (p == 5) && (i == 1023) then 0x4141_4141 else mapping_words p i;
}

abbrev text_kernel : Kernel
text_kernel = record kernel { mem = text_machine }

text_kernel-IsCurrent : IsCurrent layout text_kernel 0 1
text_kernel-IsCurrent = record {
  cur = refl;
  index = refl;
  live = refl;
  positive = omega arith;
  has_space = refl;
  in_space = refl;
}

text_tables : TablesInRange text_machine 1
text_tables d h = let t = first_table d h in omega arith

readable :
    (a : ℕ)
    → 0xffc ≤ a
    → a < 0xffc + 4
    → may_access text_machine 1 pte_u (round_down a page_size) ≡ true
unfolding round_down pdx ptx pgnum pte_addr
readable a low high = let start : round_down a page_size ≡ 0 = omega arith in rw start refl

byte_behind : user_byte text_machine 1 (0xffc + 3) ≡ some 65
unfolding user_byte pdx ptx pgnum pte_addr
byte_behind = refl

no_byte_behind : user_byte text_machine 1 (0xffc + 4) ≡ none
unfolding user_byte pdx ptx pgnum pte_addr
no_byte_behind = refl

abbrev last_text : List ℕ
last_text = 65 ∷ 65 ∷ 65 ∷ 65 ∷ []

last_text-Holds : Holds text_machine 1 0xffc last_text
unfolding user_byte pdx ptx pgnum pte_addr
last_text-Holds =
    (refl, omega arith, (refl, omega arith, (refl, omega arith, (refl, omega arith, tt))))

cputs_lem_example :
    (((a : ℕ)
        → 0xffc ≤ a
        → a < 0xffc + 3
        → may_access text_machine 1 pte_u (round_down a page_size) ≡ true)
      × ((bs : List ℕ) × IsText text_machine 1 3 0xffc bs
          × (syscall layout no_input sys_cputs 0xffc 3 text_kernel
              ≡ done (returned (pos 0), with_text bs text_kernel))))
    ⊎ ((bad : ℕ) × (0xffc ≤ bad)
        × (bad < 0xffc + 3)
        × (may_access text_machine 1 pte_u (round_down bad page_size) ≡ false)
        × ((r : ℤ) (k' : Kernel)
            → syscall layout no_input sys_cputs 0xffc 3 text_kernel ≢ done (returned r, k')))
cputs_lem_example =
    cputs_lem layout layout-IsLayout no_input text_kernel 0 1 text_kernel-IsCurrent 0xffc 3
      text_tables (omega arith) (omega arith) (omega arith) (omega arith) 65 byte_behind

cputs-panics_behind_example : syscall layout no_input sys_cputs 0xffc 4 text_kernel ≡ panicked
cputs-panics_behind_example =
    cputs-panics_behind layout layout-IsLayout no_input text_kernel 0 1 text_kernel-IsCurrent 0xffc
      4 text_tables (omega arith) (omega arith) (omega arith) (omega arith) last_text readable refl
      last_text-Holds no_byte_behind

-- A lookup of the id of the current environment.
own_lookup : envid2env layout 4096 true kernel ≡ done ((pos 0, some 0), kernel)
unfolding envid2env is_denied
own_lookup = refl

envid2env-allowed_example :
    (◌≡◌ {A = ℕ} 0 0 ⊎ ((kernel.envs 0).env_parent_id ≡ (kernel.envs 0).env_id))
    × (◌≡◌ {A = ℕ} 4096 0
        ⊎ ((is_free (kernel.envs 0).env_status ≡ false) × ((kernel.envs 0).env_id ≡ 4096)))
    × (pos 0 ≡ pos 0)
    × (kernel ≡ kernel)
envid2env-allowed_example =
    envid2env-allowed layout layout-IsLayout kernel kernel 0 4096 0 (pos 0) refl own_lookup

-- The same kernel with a program that has mapped nothing.
abbrev idle_kernel : Kernel
idle_kernel = record kernel {
  mem = empty_machine;
  envs = λ e. if e == 0 then env_of 4096 running 1 (some 5) else kernel_envs e;
  loaded = 5;
}

idle_kernel-freed : free_space 5 empty_machine ≡ done (tt, after_decref 5 empty_machine)
unfolding free_space free_tables pa2page page_decref page_free pgnum page2pa pdx
idle_kernel-freed = refl

trap-user_fault_example :
    (k' : Kernel) × (trap platform (frame 0x1b 14 0) idle_kernel ≡ done (in_monitor, k'))
    × ((k'.envs 0).env_status ≡ free)
    × ((k'.envs 0).env_pgdir ≡ none)
    × ((k'.envs 0).env_link ≡ idle_kernel.env_free_list)
    × (k'.env_free_list ≡ some 0)
    × ((e : ℕ) → 0 ≢ e → k'.envs e ≡ idle_kernel.envs e)
    × (k'.mem ≡ after_decref 5 empty_machine)
    × (k'.loaded ≡ idle_kernel.mem.kern_pgdir)
trap-user_fault_example =
    trap-user_fault platform (frame 0x1b 14 0) idle_kernel 0 5 (after_decref 5 empty_machine) refl
      (omega arith) (omega arith) refl refl idle_kernel-freed

env_init_lem_example :
    ((env_init layout kernel).env_free_list ≡ some 0)
    × ((i : ℕ)
        → i < nenv layout
        → (env_init layout kernel).envs i
          ≡ linked (nenv layout) kernel.env_free_list i (kernel.envs i))
    × ((i : ℕ) → nenv layout ≤ i → (env_init layout kernel).envs i ≡ kernel.envs i)
    × ((env_init layout kernel).mem ≡ kernel.mem)
    × ((env_init layout kernel).curenv ≡ kernel.curenv)
    × ((env_init layout kernel).loaded ≡ kernel.loaded)
    × ((env_init layout kernel).printed ≡ kernel.printed)
env_init_lem_example = env_init_lem layout kernel
