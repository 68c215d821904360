-- ===== src/Syscall.antt =====
-- System calls: syscall.c.
pub mod Laws
pub mod Cputs
use at_jos.Base.{ℕ, true, none, some, ◌∷◌, if◌then◌else◌}
use at_jos.Base.Int.{ℤ, pos, neg, is_negative}
use at_jos.Base.Monad.{Outcome, done, panicked, Cmd, ◌>>=◌, ◌>>◌, pure, panic, modify, gets}
use at_jos.Pmap.Addr.{pte_u}
use at_jos.Pmap.UserMem.Text.{cprintf_text}
use at_jos.Env.State.{Env, Layout, Kernel}
use at_jos.Env.Ops.{envid2env, is_env}
use at_jos.Env.Life.{Flow, returned, in_monitor, env_destroy, user_mem_assert}

-- The call numbers; their values are in inc/syscall.h, which is not in the repository.
pub data Sysno : Type 0 where
  sys_cputs sys_cgetc sys_getenvid sys_env_destroy unknown : Sysno

abbrev pub e_inval : ℕ
e_inval = 3

-- `curenv->env_id`; a null `curenv` faults.
unfoldable pub getenvid : Cmd Kernel ℕ
getenvid k = elim k.curenv [ none ↦ panicked | some c ↦ done ((k.envs c).env_id, k) ]

-- The end of a call that may have ended in the monitor.
abbrev pub then_flow :
    {A : Type 0} → Cmd Kernel (Flow (Unit {0})) → Cmd Kernel A → Cmd Kernel (Flow A)
then_flow c next k = elim (c k) [
  | done (in_monitor, k') ↦ done (in_monitor, k')
  | done (returned _, k') ↦ (next >>= λ a. pure (returned a)) k'
  | panicked ↦ panicked
]

module _ (l : Layout) (cons_getc : Cmd Kernel ℕ) where
  -- `cprintf("%.*s", len, s)`, in the address space that is loaded. A fault in the kernel panics.
  unfoldable pub print_text : ℕ → ℕ → Cmd Kernel (Unit {0})
  print_text s len k = elim (cprintf_text k.mem k.loaded s len) [
    | none ↦ panicked
    | some bs ↦ done (tt, record k { printed = bs ∷ k.printed })
  ]

  -- `sys_cputs`. A null `e` faults inside `user_mem_assert`.
  unfoldable pub cputs : ℕ → ℕ → Cmd Kernel (Flow (Unit {0}))
  cputs s len = do
    id ← getenvid
    (r, e) ← envid2env l id true
    elim e [ none ↦ panic | some i ↦ then_flow (user_mem_assert i s len pte_u) (print_text s len) ]

  -- `sys_env_destroy`. With an id of 0 and no current environment it faults.
  unfoldable pub destroy : ℕ → Cmd Kernel (Flow ℤ)
  destroy envid = do
    (r, e) ← envid2env l envid true
    if is_negative r
        then pure (returned r)
        else elim e [ none ↦ panic | some i ↦ then_flow (env_destroy i) (pure (pos 0)) ]

  -- The dispatcher. `getenvid` gives the 32-bit pattern of the id, which is not negative.
  unfoldable pub syscall : Sysno → ℕ → ℕ → Cmd Kernel (Flow ℤ)
  syscall sys_cputs a1 a2 = then_flow (cputs a1 a2) (pure (pos 0))
  syscall sys_cgetc a1 a2 = do c ← cons_getc; pure (returned (pos c))
  syscall sys_getenvid a1 a2 = do id ← getenvid; pure (returned (pos id))
  syscall sys_env_destroy a1 a2 = do
    r ← destroy a1
    elim r [ returned _ ↦ pure (returned (pos 0)) | in_monitor ↦ pure in_monitor ]
  syscall unknown a1 a2 = pure (returned (neg e_inval))
