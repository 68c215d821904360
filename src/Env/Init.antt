-- ===== src/Env/Init.antt =====
-- The free list that `env_init` of env.c makes.
use at_jos.Base.{
  ℕ, zero, suc, ◌≤◌, ◌<◌, ◌≡◌, refl, true, false, Option, some, ◌==◌, if◌then◌else◌, arith, ap, ◌∙◌,
  Bool-cases, inl, inr, ◌⊎◌,
}
use at_jos.Base.Bits.{two_pow_pos}
use at_jos.Env.State.{Layout, nenv, Env, Kernel}
use at_jos.Env.Ops.{link_env, link_envs, env_init}

-- Environment `i` of the first `n`, with the free list `free` behind them.
abbrev pub linked : ℕ → Option ℕ → ℕ → Env → Env
linked n free i e = record e { env_id = 0; env_link = if suc i == n then free else some (suc i) }

-- The environments from `from` to `n` are linked in order, and the others are as in `k`.
record IsLinked (n from : ℕ) (k k' : Kernel) : Type 0 where
  first : k'.env_free_list ≡ (if from == n then k.env_free_list else some from)
  inside : (i : ℕ) → from ≤ i → i < n → k'.envs i ≡ linked n k.env_free_list i (k.envs i)
  outside : (i : ℕ) → (i < from) ⊎ (n ≤ i) → k'.envs i ≡ k.envs i
  mem : k'.mem ≡ k.mem
  curenv : k'.curenv ≡ k.curenv
  loaded : k'.loaded ≡ k.loaded
  printed : k'.printed ≡ k.printed

unlinked : (n : ℕ) (free : Option ℕ) → free ≡ (if n == n then free else some n)
unlinked n free = let same : (n == n) ≡ true = ground arith in rw same refl

module _ (l : Layout) where
  link_env-IsLinked :
      (n from : ℕ) (k k' : Kernel)
      → from < n
      → IsLinked n (suc from) k k'
      → IsLinked n from k (link_env l from k')
  link_env-IsLinked n from k k' lt is =
      let same = is.outside from (inl (omega arith)) in
      let head : (from == n) ≡ false = ground arith in
      record {
        first = rw head refl;
        inside = λ i lo hi. elim (Bool-cases (from == i)) [
          | inl here ↦
              let at : from ≡ i = ground arith in
              rw here (
                ap {A = Env} {B = Env} (λ e. record e { env_id = 0; env_link = k'.env_free_list })
                  same
                ∙ ap {B = Env} (λ f. record (k.envs from) { env_id = 0; env_link = f }) is.first
                ∙ ap (λ j. linked n k.env_free_list j (k.envs j)) at)
          | inr other ↦ rw other (is.inside i (ground arith) hi)
        ];
        outside = λ i far.
            let other : (from == i) ≡ false = elim far [
              | inl a ↦ ground arith
              | inr b ↦ ground arith
            ] in
            rw other (is.outside i (elim far [ inl a ↦ inl (omega arith) | inr b ↦ inr b ]));
        mem = is.mem;
        curenv = is.curenv;
        loaded = is.loaded;
        printed = is.printed;
      }

  link_envs-IsLinked :
      (n from : ℕ) (k k' : Kernel)
      → from ≤ n
      → IsLinked n from k k'
      → IsLinked n 0 k (link_envs l from k')
  unfolding link_envs
  link_envs-IsLinked n zero k k' le is = is
  link_envs-IsLinked n (suc from) k k' le is =
      link_envs-IsLinked n from k (link_env l from k') (omega arith)
        (link_env-IsLinked n from k k' (omega arith) is)

  -- After `env_init` the free list is all environments in the order of the array, and then what was on it before;
  -- each has the id 0, and `env_init` changes nothing else.
  pub env_init_lem :
      (k : Kernel)
      → ((env_init l k).env_free_list ≡ some 0)
        × ((i : ℕ)
            → i < nenv l
            → (env_init l k).envs i ≡ linked (nenv l) k.env_free_list i (k.envs i))
        × ((i : ℕ) → nenv l ≤ i → (env_init l k).envs i ≡ k.envs i)
        × ((env_init l k).mem ≡ k.mem)
        × ((env_init l k).curenv ≡ k.curenv)
        × ((env_init l k).loaded ≡ k.loaded)
        × ((env_init l k).printed ≡ k.printed)
  unfolding env_init
  env_init_lem k =
      let pos : 0 < nenv l = two_pow_pos l.lognenv in
      let some_env : (0 == nenv l) ≡ false = ground arith in
      let is = link_envs-IsLinked (nenv l) (nenv l) k k (omega arith) (record {
        first = unlinked (nenv l) k.env_free_list;
        inside = λ i lo hi. absurd (omega arith);
        outside = λ i far. refl;
        mem = refl;
        curenv = refl;
        loaded = refl;
        printed = refl;
      }) in
      (
        is.first ∙ rw some_env refl,
        λ i hi. is.inside i (omega arith) hi,
        λ i far. is.outside i (inr far),
        is.mem,
        is.curenv,
        is.loaded,
        is.printed,
      )
