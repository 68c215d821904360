-- ===== src/Env/Lookup.antt =====
-- `env_alloc` and `envid2env` together: a new id is found, and an old one no longer.
use at_jos.Base.{
  ℕ, ◌+◌, ◌%◌, ◌^◌, ◌<◌, ◌≡◌, ◌≢◌, Bool, true, false, ◌||◌, none, some, List, [], ◌∷◌, ◌==◌,
  if◌then◌else◌, arith, ◌∙◌, sym, inl, inr, bit_or, ◌⊎◌,
}
use at_jos.Base.Int.{ℤ, pos, neg}
use at_jos.Base.Monad.{done, panicked}
use at_jos.Pmap.Addr.{pte_p, pte_u, page2pa, pdx, uvpt}
use at_jos.Pmap.State.{Memory, update, set_ref, set_word, incref}
use at_jos.Pmap.Alloc.{alloc_zero}
use at_jos.Pmap.Alloc.FreeList.{IsFreeList, IsFreeList-set_off}
use at_jos.Pmap.Table.Slots.{IsFreeList-words}
use at_jos.Pmap.Alloc.Laws.{
  Addressable, after_alloc-IsFreeList, page_alloc-some, page_alloc-none, cleared, unlinked,
}
use at_jos.Env.State.{runnable, Layout, IsLayout, nenv, Kernel, is_free}
use at_jos.Env.Ids.{next_id_lem}
use at_jos.Env.Ops.{e_bad_env, envid2env, is_denied, is_stranger, next_id, env_setup_vm}
use at_jos.Env.Life.{env_alloc, init_env, commit_env, fresh_tf}

-- The entry of a directory for itself: PADDR(pgdir) | PTE_P | PTE_U.
abbrev pub self_entry : ℕ → ℕ
self_entry p = bit_or (bit_or (page2pa p) pte_p) pte_u

-- Memory and environments after `env_setup_vm` took page `p` for the directory.
abbrev pub set_up_mem : ℕ → Memory → Memory
set_up_mem p m =
    let m1 = cleared p (unlinked p m) in
    let m2 = set_ref p (((m1.pages p).pp_ref + 1) % m1.ref_mod) m1 in
    let m3 = record m2 { words = update m2.words p (m2.words m2.kern_pgdir) } in
    set_word p (pdx uvpt) (self_entry p) m3

set_up_mem-IsFreeList :
    (m : Memory) (p : ℕ) (free : List ℕ)
    → IsFreeList m (p ∷ free)
    → Addressable m
    → IsFreeList (set_up_mem p m) free
set_up_mem-IsFreeList m p free f small =
    IsFreeList-words (set_up_mem p m).words
      (IsFreeList-set_off (after_alloc-IsFreeList m free small alloc_zero p f) p _ f.distinct.0)

abbrev pub set_up : ℕ → ℕ → Kernel → Kernel
set_up e p k = record k {
  mem = set_up_mem p k.mem;
  envs = update k.envs e (record (k.envs e) { env_pgdir = some p });
}

env_setup_vm-done :
    (k : Kernel) (e p : ℕ)
    → k.mem.page_free_list ≡ some p
    → p < k.mem.npages
    → Addressable k.mem
    → env_setup_vm e k ≡ done (pos 0, set_up e p k)
unfolding env_setup_vm incref
env_setup_vm-done k e p head lt small =
    ground (arith, page_alloc-some k.mem alloc_zero p head lt small)

-- Out of pages the kernel panics.
pub env_setup_vm-no_mem : (k : Kernel) (e : ℕ) → IsFreeList k.mem [] → env_setup_vm e k ≡ panicked
unfolding env_setup_vm
env_setup_vm-no_mem k e f = ground (arith, page_alloc-none k.mem alloc_zero f)

module _ (l : Layout) (is : IsLayout l) where
  -- The environment that a slot holds is found by its id, unless it is free.
  pub envid2env-live :
      (k : Kernel) (e : ℕ)
      → l.envx (k.envs e).env_id ≡ e
      → is_free (k.envs e).env_status ≡ false
      → 0 < (k.envs e).env_id
      → envid2env l (k.envs e).env_id false k ≡ done ((pos 0, some e), k)
  unfolding envid2env is_denied
  envid2env-live k e index live positive = rw index (ground arith)

  -- A positive id whose slot is free or holds another id is refused with -E_BAD_ENV, whoever
  -- asks.
  pub envid2env-stale :
      (k : Kernel) (envid e : ℕ) (checkperm : Bool)
      → l.envx envid ≡ e
      → 0 < envid
      → (is_free (k.envs e).env_status ≡ true) ⊎ ((k.envs e).env_id ≢ envid)
      → envid2env l envid checkperm k ≡ done ((neg e_bad_env, none), k)
  unfolding envid2env
  envid2env-stale k envid e checkperm index positive (inl gone) = rw index (ground arith)
  envid2env-stale k envid e checkperm index positive (inr other) = rw index (ground arith)

  -- With `checkperm`, the id of a live environment is handed out exactly if it is the current
  -- environment or a child of it, and else refused with -E_BAD_ENV.
  pub envid2env-checkperm :
      (k : Kernel) (c e : ℕ)
      → k.curenv ≡ some c
      → l.envx (k.envs e).env_id ≡ e
      → is_free (k.envs e).env_status ≡ false
      → 0 < (k.envs e).env_id
      → envid2env l (k.envs e).env_id true k
        ≡ done (
          (if (c == e) || ((k.envs e).env_parent_id == (k.envs c).env_id)
              then (pos 0, some e)
              else (neg e_bad_env, none)),
          k,
        )
  unfolding envid2env is_denied is_stranger
  envid2env-checkperm k c e cur index live positive = rw index (ground arith)

  -- With `checkperm` and a current environment, whatever id is asked for, the environment that `envid2env` hands out is the current one or
  -- a child of it, and for an id other than 0 it is live and has that id. The kernel does not change.
  pub envid2env-allowed :
      (k k' : Kernel) (c envid e : ℕ) (r : ℤ)
      → k.curenv ≡ some c
      → envid2env l envid true k ≡ done ((r, some e), k')
      → ((c ≡ e) ⊎ ((k.envs e).env_parent_id ≡ (k.envs c).env_id))
        × ((envid ≡ 0) ⊎ ((is_free (k.envs e).env_status ≡ false) × ((k.envs e).env_id ≡ envid)))
        × (r ≡ pos 0)
        × (k' ≡ k)
  unfolding envid2env is_denied is_stranger
  envid2env-allowed k k' c envid e r cur h = ground arith

  abbrev allocated : ℕ → ℕ → ℕ → Kernel → Kernel
  allocated e p parent_id k = commit_env l e parent_id (set_up e p k)

  env_alloc-done :
      (k : Kernel) (parent_id e p : ℕ)
      → k.env_free_list ≡ some e
      → k.mem.page_free_list ≡ some p
      → p < k.mem.npages
      → Addressable k.mem
      → env_alloc l parent_id k ≡ done ((pos 0, some e), allocated e p parent_id k)
  unfolding env_alloc init_env
  env_alloc-done k parent_id e p first head lt small =
      ground (arith, env_setup_vm-done k e p head lt small)

  -- With a free environment in the table, whose last id has 31 bits, and a well-formed list of free pages that
  -- starts with one other than the kernel's directory, `env_alloc` takes both off their lists, where the list of
  -- free pages stays well formed, and sets the environment up: runnable, of user type, with the parent given, with
  -- fresh registers, and with a directory that holds the kernel's entries but for the one for itself. `envid2env`
  -- finds the new id, and no other environment changes.
  pub env_alloc_lem :
      (k : Kernel) (parent_id e p : ℕ) (free : List ℕ)
      → k.env_free_list ≡ some e
      → e < nenv l
      → (k.envs e).env_id < 2 ^ 31
      → IsFreeList k.mem (p ∷ free)
      → Addressable k.mem
      → p ≢ k.mem.kern_pgdir
      → (k' : Kernel) × (env_alloc l parent_id k ≡ done ((pos 0, some e), k'))
        × ((k'.envs e).env_status ≡ runnable)
        × ((k'.envs e).env_parent_id ≡ parent_id)
        × ((k'.envs e).env_type ≡ l.env_type_user)
        × ((k'.envs e).env_tf ≡ fresh_tf)
        × ((k'.envs e).env_pgdir ≡ some p)
        × (k'.env_free_list ≡ (k.envs e).env_link)
        × IsFreeList k'.mem free
        × ((i : ℕ)
            → k'.mem.words p i
              ≡ (if pdx uvpt == i then self_entry p else k.mem.words k.mem.kern_pgdir i))
        × ((j : ℕ) → e ≢ j → k'.envs j ≡ k.envs j)
        × (envid2env l (k'.envs e).env_id false k' ≡ done ((pos 0, some e), k'))
  env_alloc_lem k parent_id e p free first lt low f small apart = (
    k',
    env_alloc-done k parent_id e p first f.chain.0 f.all_free.0 small,
    ground arith,
    ground arith,
    ground arith,
    ground arith,
    ground arith,
    ground arith,
    set_up_mem-IsFreeList k.mem p free f small,
    (λ i. ground arith),
    (λ j ne. ground arith),
    envid2env-live k' e (rw slot_id ids.2) live (rw slot_id ids.0),
  )
    where
      k' : Kernel
      k' = allocated e p parent_id k

      ids :
          (0 < next_id l (k.envs e).env_id e)
          × (next_id l (k.envs e).env_id e < 2 ^ 31)
          × (l.envx (next_id l (k.envs e).env_id e) ≡ e)
          × (next_id l (k.envs e).env_id e ≢ (k.envs e).env_id)
      ids = next_id_lem l is (k.envs e).env_id e lt low

      slot_id : (k'.envs e).env_id ≡ next_id l (k.envs e).env_id e
      slot_id = ground arith

      live : is_free (k'.envs e).env_status ≡ false
      live = ground arith

  -- When `env_alloc` reuses a slot of the table and finds a free page on a well-formed list, the positive
  -- 31-bit id that the slot had before, with the slot as its index part, is refused in the state that it leaves,
  -- whoever asks.
  pub env_alloc-stale :
      (k : Kernel) (parent_id e p : ℕ) (free : List ℕ) (checkperm : Bool)
      → k.env_free_list ≡ some e
      → e < nenv l
      → (k.envs e).env_id < 2 ^ 31
      → 0 < (k.envs e).env_id
      → l.envx (k.envs e).env_id ≡ e
      → IsFreeList k.mem (p ∷ free)
      → Addressable k.mem
      → (k' : Kernel) × (env_alloc l parent_id k ≡ done ((pos 0, some e), k'))
        × (envid2env l (k.envs e).env_id checkperm k' ≡ done ((neg e_bad_env, none), k'))
  env_alloc-stale k parent_id e p free checkperm first lt low positive index f small = (
    k',
    env_alloc-done k parent_id e p first f.chain.0 f.all_free.0 small,
    envid2env-stale k' (k.envs e).env_id e checkperm index positive
        (inr (λ same. (next_id_lem l is (k.envs e).env_id e lt low).3 (sym slot_id ∙ same))),
  )
    where
      k' : Kernel
      k' = allocated e p parent_id k

      slot_id : (k'.envs e).env_id ≡ next_id l (k.envs e).env_id e
      slot_id = ground arith
