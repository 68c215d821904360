-- ===== src/Env/Ids.antt =====
-- The ids that `env_alloc` gives out.
use at_jos.Base.{
  ℕ, suc, ◌+◌, ◌-◌, ◌*◌, ◌/◌, ◌%◌, ◌^◌, ◌≤◌, ◌<◌, ◌≡◌, refl, ◌≢◌, ◌||◌, ◌==◌, leb, arith, ap, sym,
  Bool-cases, inl, inr, bit_and,
}
use native.Mathlib.Decide.{dec_lt}
use native.Mathlib.Nat.{lt-div-mul-add, div-mul-le_self, pow-le-pow_right, div-lt_iff_lt-mul}
use at_jos.Base.Bits.{pow_split, two_pow_pos, and_high, and_ones, or_disjoint}
use at_jos.Pmap.Addr.{word_mod}
use at_jos.Env.State.{Layout, IsLayout, nenv}
use at_jos.Env.Ops.{generation, next_id, env_gen_shift}

-- `x & ~(2 ^ n - 1)` clears the low `n` bits of a word.
pub clear_low : (n x : ℕ) → n ≤ 32 → x < word_mod → bit_and x (word_mod - 2 ^ n) ≡ x / 2 ^ n * 2 ^ n
clear_low n x le lt = cc (ap (bit_and x) mask, and_high n c x, ap (λ (t : ℕ). t * 2 ^ n) kept)
  where
    split : 2 ^ (32 - n) * 2 ^ n ≡ word_mod
    split = pow_split n 32 le

    c : ℕ
    c = 2 ^ (32 - n) - 1

    above : 2 ^ (32 - n) ≡ c + 1
    above = omega (arith, two_pow_pos (32 - n))

    mask : word_mod - 2 ^ n ≡ c * 2 ^ n
    mask = omega (arith, split, ap (λ (t : ℕ). t * 2 ^ n) above)

    kept : bit_and (x / 2 ^ n) c ≡ x / 2 ^ n
    kept = and_ones (32 - n) (x / 2 ^ n) ((div-lt_iff_lt-mul (two_pow_pos n)).1 (rw split lt))

module _ (l : Layout) (is : IsLayout l) where
  -- 2 ^ 12 and 2 ^ 31 are multiples of the number of environments.
  shift_split : 2 ^ (12 - l.lognenv) * nenv l ≡ 2 ^ 12
  shift_split = pow_split l.lognenv 12 is.narrow

  sign_split : 2 ^ (31 - l.lognenv) * nenv l ≡ 2 ^ 31
  sign_split = pow_split l.lognenv 31 (omega (arith, is.narrow))

  pub nenv_pos : 0 < nenv l
  nenv_pos = two_pow_pos l.lognenv

  cleared_gen :
      (old : ℕ)
      → bit_and ((old + 2 ^ env_gen_shift) % word_mod) (word_mod - nenv l)
        ≡ (old + 2 ^ env_gen_shift) % word_mod / nenv l * nenv l
  cleared_gen old = clear_low l.lognenv _ (omega (arith, is.narrow)) (omega arith)

  -- The generation is a positive multiple of the number of environments, as a signed number too.
  pub generation_lem :
      (old : ℕ)
      → (g : ℕ) × (generation l old ≡ g * nenv l) × (0 < g * nenv l) × (g * nenv l < 2 ^ 31)
  unfolding generation
  generation_lem old = elim (Bool-cases (gen == 0 || leb (2 ^ 31) gen)) [
    | inl bad ↦ (2 ^ (12 - l.lognenv), rw bad shift, omega (arith, shift), omega (arith, shift))
    | inr good ↦ (
      (old + 2 ^ env_gen_shift) % word_mod / nenv l,
      rw good (cleared_gen old),
      ground (arith, cleared_gen old),
      ground (arith, cleared_gen old),
    )
  ]
    where
      gen : ℕ
      gen = bit_and ((old + 2 ^ env_gen_shift) % word_mod) (word_mod - nenv l)

      shift : 2 ^ 12 ≡ 2 ^ (12 - l.lognenv) * nenv l
      shift = sym shift_split

  nenv-le : nenv l ≤ 4096
  nenv-le = pow-le-pow_right {n = 2} (omega arith) is.narrow

  -- Taking the low part away lowers a number by less than the number of environments.
  near : (x : ℕ) → (x / nenv l * nenv l ≤ x) × (x < x / nenv l * nenv l + nenv l)
  near x = (div-mul-le_self x (nenv l), lt-div-mul-add nenv_pos)

  next_id-sum : (old e : ℕ) → e < nenv l → next_id l old e ≡ generation l old + e
  unfolding next_id
  next_id-sum old e lt =
      let (g, same, _, _) = generation_lem old in rw same (or_disjoint l.lognenv g e lt)

  gen_bounds :
      (old gen : ℕ)
      → old < 2 ^ 31
      → bit_and ((old + 2 ^ env_gen_shift) % word_mod) (word_mod - nenv l) ≡ gen
      → (gen ≤ old + 4096) × (old < gen)
  gen_bounds old gen small e =
      let y : (old + 2 ^ env_gen_shift) % word_mod ≡ old + 4096 = omega arith in
      let bounds = near ((old + 2 ^ env_gen_shift) % word_mod) in
      omega (arith, cleared_gen old, nenv-le)

  -- The generation moves on from any id that was given out.
  generation-ne : (old e : ℕ) → e < nenv l → old < 2 ^ 31 → generation l old + e ≢ old
  unfolding generation
  generation-ne old e lt small = elim (Bool-cases (gen == 0 || leb (2 ^ 31) gen)) [
    | inl bad ↦ λ again.
        let bounds = gen_bounds old gen small refl in
        let first : 4096 + e ≡ old = rw bad at again in ground (arith, nenv-le)
    | inr good ↦ λ again.
        let bounds = gen_bounds old gen small refl in
        let next : gen + e ≡ old = rw good at again in omega arith
  ]
    where
      gen : ℕ
      gen = bit_and ((old + 2 ^ env_gen_shift) % word_mod) (word_mod - nenv l)

  times_mono : (a b n : ℕ) → a ≤ b → a * n ≤ b * n
  times_mono a b n h = grind arith

  -- A multiple of the number of environments below 2 ^ 31 leaves room for an index.
  index_room : (g e : ℕ) → e < nenv l → g * nenv l < 2 ^ 31 → g * nenv l + e < 2 ^ 31
  index_room g e lt low = elim (dec_lt g (2 ^ (31 - l.lognenv))) [
    | yes h ↦ omega (arith, times_mono (suc g) (2 ^ (31 - l.lognenv)) (nenv l) h, sign_split)
    | no h ↦
        absurd
          (omega (arith, times_mono (2 ^ (31 - l.lognenv)) g (nenv l) (omega arith), sign_split))
  ]

  -- An id that `env_alloc` gives to slot `e` is positive as a signed number, its index part is
  -- `e`, and it differs from the last id of that slot, whichever 31-bit number that was.
  pub next_id_lem :
      (old e : ℕ)
      → e < nenv l
      → old < 2 ^ 31
      → (0 < next_id l old e)
        × (next_id l old e < 2 ^ 31)
        × (l.envx (next_id l old e) ≡ e)
        × (next_id l old e ≢ old)
  next_id_lem old e lt small =
      let (g, same, positive, low) = generation_lem old in
      let sum = next_id-sum old e lt in
      (
        omega arith,
        omega (arith, index_room g e lt low),
        rw (sum, same) (is.index_part g e lt),
        rw sum (generation-ne old e lt small),
      )
