-- ===== src/Env/Ops.antt =====
-- The operations of env.c on environments.
use at_jos.Base.{
  ℕ, zero, suc, ◌+◌, ◌-◌, ◌%◌, ◌^◌, Bool, true, false, not, ◌||◌, ◌&&◌, Option, none, some, ◌==◌,
  leb, if◌then◌else◌, bit_and, bit_or,
}
use at_jos.Base.Int.{ℤ, pos, neg}
use at_jos.Base.Monad.{done, panicked, Cmd, ◌>>=◌, ◌>>◌, pure, panic, modify}
use at_jos.Pmap.Addr.{pte_p, pte_u, word_mod, page2pa, pdx, uvpt}
use at_jos.Pmap.State.{update, incref}
use at_jos.Pmap.Alloc.{page_alloc, alloc_zero}
use at_jos.Pmap.Table.{store}
use at_jos.Env.State.{Layout, nenv, Kernel, on_mem, edit_env, is_free}

abbrev pub e_bad_env : ℕ
e_bad_env = 2

abbrev pub e_no_free_env : ℕ
e_no_free_env = 5

-- ENVGENSHIFT
abbrev pub env_gen_shift : ℕ
env_gen_shift = 12

abbrev pub is_env : Option ℕ → ℕ → Bool
is_env none e = false
is_env (some c) e = c == e

-- `e->env_parent_id != curenv->env_id`; a null `curenv` faults here.
unfoldable pub is_stranger : ℕ → Cmd Kernel Bool
is_stranger e k = elim k.curenv [
  | none ↦ panicked
  | some c ↦ done (not ((k.envs e).env_parent_id == (k.envs c).env_id), k)
]

-- The permission test, with its short circuits.
unfoldable pub is_denied : Bool → ℕ → Cmd Kernel Bool
is_denied checkperm e k =
    if checkperm && not (is_env k.curenv e) then is_stranger e k else done (false, k)

module _ (l : Layout) where
  -- The result and what goes through `env_store`.
  unfoldable pub envid2env : ℕ → Bool → Cmd Kernel (ℤ × Option ℕ)
  envid2env envid checkperm k =
      let e = l.envx envid in
      if envid == 0
      then done ((pos 0, k.curenv), k)
      else if is_free (k.envs e).env_status || not ((k.envs e).env_id == envid)
      then done ((neg e_bad_env, none), k)
      else elim (is_denied checkperm e k) [
        | done (true, k') ↦ done ((neg e_bad_env, none), k')
        | done (false, k') ↦ done ((pos 0, some e), k')
        | panicked ↦ panicked
      ]

  -- One round of `env_init`.
  abbrev pub link_env : ℕ → Kernel → Kernel
  link_env i k = record k {
    envs = update k.envs i (record (k.envs i) { env_id = 0; env_link = k.env_free_list });
    env_free_list = some i;
  }

  -- `for (i = rounds - 1; i >= 0; --i)`
  unfoldable pub link_envs : ℕ → Kernel → Kernel
  link_envs zero k = k
  link_envs (suc i) k = link_envs i (link_env i k)

  unfoldable pub env_init : Kernel → Kernel
  env_init k = link_envs (nenv l) k

  -- The generation part of an id, from the id of the last environment in the slot. The sum is
  -- taken at 32 bits, and the test `<= 0` is on the signed value.
  unfoldable pub generation : ℕ → ℕ
  generation old =
      let gen = bit_and ((old + 2 ^ env_gen_shift) % word_mod) (word_mod - nenv l) in
      if gen == 0 || leb (2 ^ 31) gen then 2 ^ env_gen_shift else gen

  -- The id of the next environment in slot `e`.
  unfoldable pub next_id : ℕ → ℕ → ℕ
  next_id old e = bit_or (generation old) e

-- `env_setup_vm`: out of memory it panics, before its `return -E_NO_MEM`.
unfoldable pub env_setup_vm : ℕ → Cmd Kernel ℤ
env_setup_vm e = do
  page ← on_mem (page_alloc alloc_zero)
  elim page [
    | none ↦ panic
    | some p ↦ do
      on_mem (incref p)
      edit_env e (λ env. record env { env_pgdir = some p })
      on_mem (modify (λ m. record m { words = update m.words p (m.words m.kern_pgdir) }))
      on_mem (store p (pdx uvpt) (bit_or (bit_or (page2pa p) pte_p) pte_u))
      pure (pos 0)
  ]
