-- ===== src/Env/State.antt =====
-- The variables of env.c. A `struct Env *` is the index in `envs`, and NULL is `none`. The headers
-- inc/env.h and inc/trap.h are not in the repository: the number of environments and ENVX are a
-- parameter, and the structures have the fields that the code uses.
use at_jos.Base.{ℕ, ◌+◌, ◌*◌, ◌^◌, ◌≤◌, ◌<◌, ◌≡◌, Bool, true, false, Option, List}
use at_jos.Base.Monad.{done, panicked, Cmd, modify}
use at_jos.Pmap.State.{Memory, update}

pub data Status : Type 0 where
  free runnable running : Status

-- `struct PushRegs` and `struct Trapframe`.
pub record PushRegs : Type 0 where
  pub reg_edi : ℕ
  pub reg_esi : ℕ
  pub reg_ebp : ℕ
  pub reg_oesp : ℕ
  pub reg_ebx : ℕ
  pub reg_edx : ℕ
  pub reg_ecx : ℕ
  pub reg_eax : ℕ

pub record Trapframe : Type 0 where
  pub tf_regs : PushRegs
  pub tf_es : ℕ
  pub tf_ds : ℕ
  pub tf_trapno : ℕ
  pub tf_err : ℕ
  pub tf_eip : ℕ
  pub tf_cs : ℕ
  pub tf_eflags : ℕ
  pub tf_esp : ℕ
  pub tf_ss : ℕ

-- `env_id` and `env_parent_id` are the 32-bit patterns of an `int32_t`; `env_pgdir` is the page
-- that holds the directory.
pub record Env : Type 0 where
  pub env_tf : Trapframe
  pub env_link : Option ℕ
  pub env_id : ℕ
  pub env_parent_id : ℕ
  pub env_type : ℕ
  pub env_status : Status
  pub env_runs : ℕ
  pub env_pgdir : Option ℕ

-- NENV is `2 ^ lognenv`, `envx` is the macro ENVX, and `env_type_user` is ENV_TYPE_USER.
pub record Layout : Type 0 where
  pub lognenv : ℕ
  pub envx : ℕ → ℕ
  pub env_type_user : ℕ

abbrev pub nenv : Layout → ℕ
nenv l = 2 ^ l.lognenv

-- What env.c relies on: the index part of an id is its low `lognenv` bits, at most ENVGENSHIFT.
pub record IsLayout (l : Layout) : Type 0 where
  pub narrow : l.lognenv ≤ 12
  pub index_part : (g i : ℕ) → i < nenv l → l.envx (g * nenv l + i) ≡ i

-- `loaded` is the page directory in CR3, and `printed` lists the texts of user programs that were
-- printed, latest first.
pub record Kernel : Type 0 where
  pub mem : Memory
  pub envs : ℕ → Env
  pub curenv : Option ℕ
  pub env_free_list : Option ℕ
  pub loaded : ℕ
  pub printed : List (List ℕ)

abbrev pub on_mem : {A : Type 0} → Cmd Memory A → Cmd Kernel A
on_mem c k = elim (c k.mem) [ done (a, m) ↦ done (a, record k { mem = m }) | panicked ↦ panicked ]

abbrev pub set_env : ℕ → Env → Kernel → Kernel
set_env i e k = record k { envs = update k.envs i e }

-- A change of one environment.
abbrev pub edit_env : ℕ → (Env → Env) → Cmd Kernel (Unit {0})
edit_env i f = modify (λ k. set_env i (f (k.envs i)) k)

abbrev pub is_free : Status → Bool
is_free free = true
is_free _ = false
