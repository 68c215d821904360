-- ===== src/Trap/Laws.antt =====
-- What a trap leads to: a system call returns to its caller, a fault in user mode never does, and a
-- fault in the kernel stops it.
use at_jos.Base.{ℕ, ◌+◌, ◌%◌, ◌≡◌, refl, ◌≢◌, some, none, arith}
use at_jos.Base.Monad.{done, panicked}
use at_jos.Pmap.Addr.{word_mod}
use at_jos.Pmap.State.{update}
use at_jos.Env.State.{running, Trapframe, Env, Kernel}
use at_jos.Pmap.State.{Memory}
use at_jos.Env.State.{free}
use at_jos.Env.Life.{in_monitor, free_space, env_free, release_env, returned, env_destroy, env_run}
use at_jos.Syscall.{syscall, sys_getenvid, getenvid}
use at_jos.Trap.{
  Platform, gd_kt, cpl, page_fault_handler, dispatch_syscall, trap_dispatch, resume, trap,
}

-- The frame with the result of the call in it.
abbrev pub with_eax : ℕ → Trapframe → Trapframe
with_eax v tf = record tf { tf_regs = record (tf.tf_regs) { reg_eax = v } }

-- The environment as it runs again.
abbrev pub rerun : Trapframe → Env → Env
rerun tf env = record env { env_tf = tf; env_status = running; env_runs = env.env_runs + 1 }

module _ (p : Platform) (tf : Trapframe) (k : Kernel) where
  -- A trap in user mode that is no breakpoint and no system call, such as a page fault, ends the current
  -- environment. If the pages of its address space can be given back, which leaves memory `m'`, control
  -- goes to the monitor for good; the environment is free, at the head of the free list, and without a
  -- directory, no other environment has changed, and the processor uses the kernel's directory.
  pub trap-user_fault :
      (c pgdir : ℕ) (m' : Memory)
      → cpl tf ≡ 3
      → tf.tf_trapno ≢ p.t_brkpt
      → tf.tf_trapno ≢ p.t_syscall
      → k.curenv ≡ some c
      → (k.envs c).env_pgdir ≡ some pgdir
      → free_space pgdir k.mem ≡ done (tt, m')
      → (k' : Kernel) × (trap p tf k ≡ done (in_monitor, k'))
        × ((k'.envs c).env_status ≡ free)
        × ((k'.envs c).env_pgdir ≡ none)
        × ((k'.envs c).env_link ≡ k.env_free_list)
        × (k'.env_free_list ≡ some c)
        × ((e : ℕ) → c ≢ e → k'.envs e ≡ k.envs e)
        × (k'.mem ≡ m')
        × (k'.loaded ≡ k.mem.kern_pgdir)
  unfolding trap trap_dispatch page_fault_handler env_destroy env_free
  trap-user_fault c pgdir m' user ne_brk ne_sys cur space freed = (
    k',
    ground arith,
    ground arith,
    ground arith,
    ground arith,
    refl,
    (λ e ne. ground arith),
    refl,
    refl,
  )
    where
      k' : Kernel
      k' = release_env c (record k {
        envs = update k.envs c (record (k.envs c) { env_tf = tf });
        loaded = k.mem.kern_pgdir;
        mem = m';
      })

  -- A trap in the kernel that is no breakpoint and no system call, such as a page fault, panics.
  pub trap-kernel_fault :
      tf.tf_cs ≡ gd_kt
      → tf.tf_trapno ≢ p.t_brkpt
      → tf.tf_trapno ≢ p.t_syscall
      → trap p tf k ≡ panicked
  unfolding trap trap_dispatch page_fault_handler
  trap-kernel_fault kernel ne_brk ne_sys = ground arith

  -- `sys_getenvid` from user mode, with the current environment running: it runs on in its own
  -- address space, with its id in EAX and all other registers as they were at the trap, and
  -- nothing else of memory or of the other environments changes.
  pub trap-getenvid :
      (c pgdir : ℕ)
      → cpl tf ≡ 3
      → tf.tf_trapno ≡ p.t_syscall
      → p.t_syscall ≢ p.t_brkpt
      → p.t_syscall ≢ p.t_pgflt
      → p.sysno tf.tf_regs.reg_eax ≡ sys_getenvid
      → k.curenv ≡ some c
      → (k.envs c).env_status ≡ running
      → (k.envs c).env_pgdir ≡ some pgdir
      → (k' : Kernel) × (trap p tf k ≡ done (returned tt, k'))
        × (k'.envs c ≡ rerun (with_eax ((k.envs c).env_id % word_mod) tf) (k.envs c))
        × ((e : ℕ) → c ≢ e → k'.envs e ≡ k.envs e)
        × (k'.curenv ≡ some c)
        × (k'.loaded ≡ pgdir)
        × (k'.mem ≡ k.mem)
  unfolding trap trap_dispatch dispatch_syscall syscall getenvid resume env_run
  trap-getenvid c pgdir user is_sys ne_brk ne_pg is_getenvid cur live space =
      (k', ground arith, ground arith, (λ e ne. ground arith), refl, refl, refl)
    where
      k' : Kernel
      k' = record k {
        curenv = some c;
        loaded = pgdir;
        envs = update k.envs c (rerun (with_eax ((k.envs c).env_id % word_mod) tf) (k.envs c));
      }
