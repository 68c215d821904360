-- ===== src/Kdebug/Kinds.antt =====
-- The stabs of one kind, kdebug.c.
use at_jos.Base.{
  ℕ, zero, suc, ◌+◌, ◌≤◌, ◌<◌, ◌≡◌, refl, none, some, ◌==◌, ltb, arith, ap, ◌∙◌, sym, Bool-cases,
  inl, inr, ◌⊎◌,
}
use at_jos.Kdebug.{Stab, find_down}

pub lt_or_ge : (i k : ℕ) → (i < k) ⊎ (k ≤ i)
lt_or_ge i k = elim (Bool-cases (ltb i k)) [
  | inl y ↦ inl (ground arith)
  | inr z ↦ inr (ground arith)
]

module _ (stabs : ℕ → Stab) (kind : ℕ) where
  abbrev pub Has : ℕ → Type 0
  Has i = (stabs i).n_type ≡ kind

  -- No stab of the kind from `l` up to `stop`.
  abbrev pub Lacks : ℕ → ℕ → Type 0
  Lacks l stop = (i : ℕ) → l ≤ i → i < stop → ¬ Has i

  pub Lacks-snoc : (l k n : ℕ) → Lacks l k → ¬ Has k → n ≤ k + 1 → Lacks l n
  Lacks-snoc l k n lacks miss le i g h has = elim (Bool-cases (i == k)) [
    | inl e ↦ let same : i ≡ k = ground arith in miss (ap (λ j. (stabs j).n_type) (sym same) ∙ has)
    | inr e ↦ lacks i g (ground arith) has
  ]

  pub find_down_lem :
      (l count : ℕ)
      → ((find_down stabs kind l count ≡ none) × Lacks l (l + count))
        ⊎ ((m : ℕ) × (find_down stabs kind l count ≡ some m)
            × (l ≤ m)
            × (m < l + count)
            × Has m
            × Lacks (m + 1) (l + count))
  unfolding find_down
  find_down_lem l zero = inl (refl, λ i g h. omega arith)
  find_down_lem l (suc count) = elim (Bool-cases ((stabs (l + count)).n_type == kind)) [
    | inl here ↦
        inr (l + count, rw here refl, omega arith, omega arith, ground arith, λ i g h. omega arith)
    | inr other ↦
        let miss : ¬ Has (l + count) = λ e. ground arith in
        elim (find_down_lem l count) [
          | inl (e, lacks) ↦
              inl (rw other e, Lacks-snoc l (l + count) (l + suc count) lacks miss (omega arith))
          | inr (m, e, lo, hi, has, lacks) ↦ inr (
            m,
            rw other e,
            lo,
            omega arith,
            has,
            Lacks-snoc (m + 1) (l + count) (l + suc count) lacks miss (omega arith),
          )
        ]
  ]

  pub Lacks-join : (l k n : ℕ) → Lacks l k → Lacks k n → Lacks l n
  Lacks-join l k n first second i g h has = elim (lt_or_ge i k) [
    | inl y ↦ first i g y has
    | inr z ↦ second i z h has
  ]

  -- Stabs of the kind stand in the order of their addresses, two stabs at least two bytes apart.
  abbrev pub Spaced : ℕ → ℕ → Type 0
  Spaced from end =
      (i j : ℕ)
      → from ≤ i
      → i < j
      → j < end
      → Has i
      → Has j
      → (stabs i).n_value + 2 ≤ (stabs j).n_value
