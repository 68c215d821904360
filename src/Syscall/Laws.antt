-- ===== src/Syscall/Laws.antt =====
-- What the system calls do to the environments, and what they answer.
use at_jos.Base.{ℕ, ◌<◌, ◌≡◌, ◌≢◌, true, false, none, some, arith, ◌∙◌, ◌⊎◌}
use at_jos.Base.Int.{pos, neg}
use at_jos.Base.Monad.{done, Cmd}
use at_jos.Env.State.{Layout, IsLayout, Kernel, is_free}
use at_jos.Env.Ops.{envid2env, e_bad_env}
use at_jos.Env.Life.{returned, in_monitor, env_destroy, env_free}
use at_jos.Env.Lookup.{envid2env-checkperm}
use at_jos.Syscall.{sys_env_destroy, syscall, destroy}

module _ (l : Layout) (is : IsLayout l) (cons_getc : Cmd Kernel ℕ) where
  -- A live environment that is neither the caller nor its child is not destroyed:
  -- `sys_env_destroy` answers -E_BAD_ENV and changes nothing, but `syscall` gives the caller 0 in
  -- its place.
  pub syscall-destroy_stranger :
      (k : Kernel) (c e a2 : ℕ)
      → k.curenv ≡ some c
      → l.envx (k.envs e).env_id ≡ e
      → is_free (k.envs e).env_status ≡ false
      → 0 < (k.envs e).env_id
      → c ≢ e
      → (k.envs e).env_parent_id ≢ (k.envs c).env_id
      → (destroy l cons_getc (k.envs e).env_id k ≡ done (returned (neg e_bad_env), k))
        × (syscall l cons_getc sys_env_destroy (k.envs e).env_id a2 k ≡ done (returned (pos 0), k))
  unfolding destroy syscall
  syscall-destroy_stranger k c e a2 cur index live positive ne_cur ne_child =
      (ground (arith, refused), ground (arith, refused))
    where
      refused : envid2env l (k.envs e).env_id true k ≡ done ((neg e_bad_env, none), k)
      refused = envid2env-checkperm l is k c e cur index live positive ∙ ground arith

  -- A call that destroys an environment never returns to its caller, also if the environment is
  -- another one.
  pub destroy-in_monitor :
      (k k' : Kernel) (c e : ℕ)
      → k.curenv ≡ some c
      → l.envx (k.envs e).env_id ≡ e
      → is_free (k.envs e).env_status ≡ false
      → 0 < (k.envs e).env_id
      → (c ≡ e) ⊎ ((k.envs e).env_parent_id ≡ (k.envs c).env_id)
      → env_free e k ≡ done (tt, k')
      → destroy l cons_getc (k.envs e).env_id k ≡ done (in_monitor, k')
  unfolding destroy env_destroy
  destroy-in_monitor k k' c e cur index live positive allowed freed = ground (arith, found, freed)
    where
      found : envid2env l (k.envs e).env_id true k ≡ done ((pos 0, some e), k)
      found = envid2env-checkperm l is k c e cur index live positive ∙ ground (arith, allowed)
