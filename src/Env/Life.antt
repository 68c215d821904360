-- ===== src/Env/Life.antt =====
-- The life of an environment in env.c: allocation, memory, running, freeing, destruction.
use at_jos.Base.{ℕ, zero, suc, ◌+◌, ◌/◌, ◌%◌, Option, none, some, ltb, if◌then◌else◌, bit_or}
use at_jos.Base.Int.{ℤ, pos, neg, is_negative}
use at_jos.Base.Monad.{done, panicked, Cmd, ◌>>=◌, ◌>>◌, pure, panic, modify}
use at_jos.Pmap.Addr.{
  pte_p, pte_u, pte_w, page_size, word_mod, page2pa, pdx, utop, ustack_top, has_flag, pte_addr,
  pgaddr, round_down, round_up, table_entries,
}
use at_jos.Pmap.State.{Memory, update, kaddr, pa2page}
use at_jos.Pmap.Alloc.{page_alloc, page_decref}
use at_jos.Pmap.Table.{page_insert, page_remove, load, store}
use at_jos.Pmap.UserMem.{user_mem_check}
use at_jos.Env.State.{free, runnable, running, PushRegs, Trapframe, Layout, Kernel, on_mem}
use at_jos.Env.Ops.{e_no_free_env, next_id, env_setup_vm, is_env}

-- A call returns, or it ends in the loop `while (1) monitor(NULL)` and never returns.
pub data Flow (A : Type 0) : Type 0 where
  returned : A → Flow A
  in_monitor : Flow A

-- `memset(&e->env_tf, 0, ...)`
abbrev pub no_regs : PushRegs
no_regs = record {
  reg_edi = 0;
  reg_esi = 0;
  reg_ebp = 0;
  reg_oesp = 0;
  reg_ebx = 0;
  reg_edx = 0;
  reg_ecx = 0;
  reg_eax = 0;
}

-- GD_UD | 3, GD_UT | 3
abbrev pub user_data : ℕ
user_data = 0x23

abbrev pub user_text : ℕ
user_text = 0x1b

-- The registers of a new environment.
abbrev pub fresh_tf : Trapframe
fresh_tf = record {
  tf_regs = no_regs;
  tf_es = user_data;
  tf_ds = user_data;
  tf_trapno = 0;
  tf_err = 0;
  tf_eip = 0;
  tf_cs = user_text;
  tf_eflags = 0;
  tf_esp = ustack_top;
  tf_ss = user_data;
}

-- The fields that `env_alloc` sets once the address space is there.
abbrev pub commit_env : Layout → ℕ → ℕ → Kernel → Kernel
commit_env l e parent_id k =
    let old = k.envs e in
    record k {
      envs = update k.envs e (record old {
        env_tf = fresh_tf;
        env_id = next_id l old.env_id e;
        env_parent_id = parent_id;
        env_type = l.env_type_user;
        env_status = runnable;
        env_runs = 0;
      });
      env_free_list = old.env_link;
    }

unfoldable pub init_env : Layout → ℕ → ℕ → Cmd Kernel (ℤ × Option ℕ)
init_env l parent_id e = do
  r ← env_setup_vm e
  if is_negative r
      then pure (r, none)
      else (modify (commit_env l e parent_id) >> pure (pos 0, some e))

unfoldable pub env_alloc : Layout → ℕ → Cmd Kernel (ℤ × Option ℕ)
env_alloc l parent_id k = elim k.env_free_list [
  | none ↦ done ((neg e_no_free_env, none), k)
  | some e ↦ init_env l parent_id e k
]

-- One page of `region_alloc`, which does not look at what `page_insert` returns.
unfoldable pub alloc_at : ℕ → ℕ → Cmd Memory (Unit {0})
alloc_at pgdir begin = do
  page ← page_alloc 0
  elim page [
    | none ↦ panic
    | some pg ↦ do r ← page_insert pgdir pg begin (bit_or pte_w pte_u); pure tt
  ]

-- The loop, with fuel.
unfoldable pub alloc_pages : ℕ → ℕ → ℕ → ℕ → Cmd Memory (Unit {0})
alloc_pages zero pgdir begin end = panic
alloc_pages (suc fuel) pgdir begin end =
    let rest = alloc_pages fuel pgdir ((begin + page_size) % word_mod) end in
    if ltb begin end then (alloc_at pgdir begin >> rest) else pure tt

unfoldable pub region_alloc : ℕ → ℕ → ℕ → Cmd Memory (Unit {0})
region_alloc pgdir va len =
    let end = round_up ((va + len) % word_mod) page_size in
    alloc_pages (suc (end / page_size)) pgdir (round_down va page_size) end

-- `env_free`: the entries of one page table, of which `rounds` are left.
unfoldable pub unmap_table : ℕ → ℕ → ℕ → ℕ → ℕ → Cmd Memory (Unit {0})
unmap_table zero pgdir pt pdeno pteno = pure tt
unmap_table (suc rounds) pgdir pt pdeno pteno = do
  pte ← load pt pteno
  if has_flag pte pte_p then page_remove pgdir (pgaddr pdeno pteno 0) else pure tt
  unmap_table rounds pgdir pt pdeno (pteno + 1)

-- One slot of the directory: its pages, then the table itself.
unfoldable pub free_table : ℕ → ℕ → Cmd Memory (Unit {0})
free_table pgdir pdeno = do
  pde ← load pgdir pdeno
  pt ← kaddr (pte_addr pde)
  unmap_table table_entries pgdir pt pdeno 0
  store pgdir pdeno 0
  pg ← pa2page (pte_addr pde)
  page_decref pg

unfoldable pub free_tables : ℕ → ℕ → ℕ → Cmd Memory (Unit {0})
free_tables zero pgdir pdeno = pure tt
free_tables (suc rounds) pgdir pdeno = do
  pde ← load pgdir pdeno
  if has_flag pde pte_p then free_table pgdir pdeno else pure tt
  free_tables rounds pgdir (pdeno + 1)

-- The user part of the address space, then the directory.
unfoldable pub free_space : ℕ → Cmd Memory (Unit {0})
free_space pgdir = do free_tables (pdx utop) pgdir 0; pg ← pa2page (page2pa pgdir); page_decref pg

-- `lcr3(PADDR(kern_pgdir))` if the environment is the current one.
abbrev pub leave_space : ℕ → Kernel → Kernel
leave_space e k = if is_env k.curenv e then record k { loaded = k.mem.kern_pgdir } else k

-- The environment goes back to the free list.
abbrev pub release_env : ℕ → Kernel → Kernel
release_env e k = record k {
  envs =
      update k.envs e
        (record (k.envs e) { env_pgdir = none; env_status = free; env_link = k.env_free_list });
  env_free_list = some e;
}

-- `env_free`; a null `env_pgdir` faults.
unfoldable pub env_free : ℕ → Cmd Kernel (Unit {0})
env_free e k = elim (k.envs e).env_pgdir [
  | none ↦ panicked
  | some pgdir ↦ (modify (leave_space e) >> (on_mem (free_space pgdir) >> modify (release_env e))) k
]

unfoldable pub env_destroy : ℕ → Cmd Kernel (Flow (Unit {0}))
env_destroy e = env_free e >> pure in_monitor

-- `env_run` up to the `iret`, which returns to user mode with the registers in `env_tf`.
unfoldable pub env_run : ℕ → Cmd Kernel (Unit {0})
env_run e k = elim (k.envs e).env_pgdir [
  | none ↦ panicked
  | some pgdir ↦
      let env = k.envs e in
      done (
        tt,
        record k {
          curenv = some e;
          envs = update k.envs e (record env { env_status = running; env_runs = env.env_runs + 1 });
          loaded = pgdir;
        },
      )
]

-- `user_mem_assert`
unfoldable pub user_mem_assert : ℕ → ℕ → ℕ → ℕ → Cmd Kernel (Flow (Unit {0}))
user_mem_assert e va len perm k = elim (k.envs e).env_pgdir [
  | none ↦ panicked
  | some pgdir ↦
      (do
        r ← on_mem (user_mem_check pgdir va len (bit_or perm pte_u))
        if is_negative r then env_destroy e else pure (returned tt))
        k
]
