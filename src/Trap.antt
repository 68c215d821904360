-- ===== src/Trap.antt =====
-- Traps and their dispatch: trap.c.
pub mod Laws
pub mod Name
use at_jos.Base.{ℕ, ◌+◌, ◌-◌, ◌%◌, ◌^◌, Bool, true, false, Option, none, some, ◌==◌, if◌then◌else◌}
use at_jos.Base.Int.{ℤ, pos, negsuc}
use at_jos.Base.Monad.{Outcome, done, panicked, Cmd, ◌>>=◌, ◌>>◌, pure, panic, modify, gets, assert}
use at_jos.Pmap.Addr.{word_mod}
use at_jos.Env.State.{
  Status, running, free, runnable, PushRegs, Trapframe, Env, Layout, Kernel, edit_env,
}
use at_jos.Env.Life.{Flow, returned, in_monitor, env_destroy, env_run}
use at_jos.Syscall.{Sysno, syscall}

-- The trap numbers of inc/trap.h and the call numbers of inc/syscall.h, which are not in the
-- repository, and what trap.c calls in other parts: the monitor and the console.
pub record Platform : Type 0 where
  pub t_pgflt : ℕ
  pub t_brkpt : ℕ
  pub t_syscall : ℕ
  pub sysno : ℕ → Sysno
  pub layout : Layout
  pub monitor : Trapframe → Cmd Kernel (Flow (Unit {0}))
  pub cons_getc : Cmd Kernel ℕ

-- GD_KT
abbrev pub gd_kt : ℕ
gd_kt = 0x08

-- The 32-bit pattern of an `int32_t`.
abbrev pub pattern_of : ℤ → ℕ
pattern_of (pos n) = n % word_mod
pattern_of (negsuc n) = word_mod - (n + 1)

abbrev pub is_running : Status → Bool
is_running running = true
is_running _ = false

-- A handler of the current environment; a null `curenv` faults.
abbrev pub with_curenv : {A : Type 0} → (ℕ → Cmd Kernel A) → Cmd Kernel A
with_curenv f k = elim k.curenv [ none ↦ panicked | some c ↦ f c k ]

-- The low two bits of CS are the privilege level of the trapped code.
abbrev pub cpl : Trapframe → ℕ
cpl tf = tf.tf_cs % 2 ^ 2

unfoldable pub page_fault_handler : Trapframe → Cmd Kernel (Flow (Unit {0}))
page_fault_handler tf = if cpl tf == 0 then panic else with_curenv env_destroy

-- `tf->tf_regs.reg_eax = ...`, where `tf` points into the current environment.
abbrev pub put_eax : ℕ → Env → Env
put_eax v env = record env {
  env_tf = record (env.env_tf) { tf_regs = record (env.env_tf.tf_regs) { reg_eax = v } };
}

module _ (p : Platform) where
  -- The trap frame of a system call holds its number and arguments, and takes its result. `slot` is
  -- the environment that `tf` points into, if any; a frame on the stack is not read again.
  unfoldable pub dispatch_syscall : Option ℕ → Trapframe → Cmd Kernel (Flow (Unit {0}))
  dispatch_syscall slot tf = do
    r ←
        syscall p.layout p.cons_getc (p.sysno tf.tf_regs.reg_eax) tf.tf_regs.reg_edx
          tf.tf_regs.reg_ecx
    elim r [
      | in_monitor ↦ pure in_monitor
      | returned v ↦ elim slot [
        | none ↦ pure (returned tt)
        | some e ↦ edit_env e (put_eax (pattern_of v)) >> pure (returned tt)
      ]
    ]

  unfoldable pub trap_dispatch : Option ℕ → Trapframe → Cmd Kernel (Flow (Unit {0}))
  trap_dispatch slot tf =
      if tf.tf_trapno == p.t_pgflt
      then page_fault_handler tf
      else if tf.tf_trapno == p.t_brkpt
      then p.monitor tf
      else if tf.tf_trapno == p.t_syscall
      then dispatch_syscall slot tf
      else if tf.tf_cs == gd_kt
      then panic
      else with_curenv env_destroy

  -- The end of `trap`: `assert(curenv && curenv->env_status == ENV_RUNNING); env_run(curenv);`
  unfoldable pub resume : Cmd Kernel (Unit {0})
  resume =
      with_curenv (λ c. do ok ← gets (λ k. is_running (k.envs c).env_status); assert ok; env_run c)

  abbrev pub then_resume : Flow (Unit {0}) → Cmd Kernel (Flow (Unit {0}))
  then_resume (returned _) = resume >> pure (returned tt)
  then_resume in_monitor = pure in_monitor

  -- `trap`, after the test of the interrupt flag. A trap from user mode copies its frame into the
  -- environment, and works on the copy. It ends in user mode, in the environment `curenv`.
  unfoldable pub trap : Trapframe → Cmd Kernel (Flow (Unit {0}))
  trap tf =
      if cpl tf == 3
      then with_curenv (λ c. do
        edit_env c (λ env. record env { env_tf = tf })
        r ← trap_dispatch (some c) tf
        then_resume r)
      else (trap_dispatch none tf >>= then_resume)
