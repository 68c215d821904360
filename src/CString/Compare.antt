-- ===== src/CString/Compare.antt =====
-- The order that `strcmp` of lib/string.c decides.
use at_jos.Base.{
  ℕ, zero, suc, ◌+◌, ◌<◌, ◌≡◌, refl, ◌≢◌, Bool, true, false, some, List, [], ◌∷◌, ◌==◌, leb, arith,
  ◌∙◌, sym, Bool-cases, inl, inr, ◌⊎◌, length,
}
use at_jos.Base.Int.{ℤ, pos, negsuc, sub_ℕ}
use at_jos.CString.{Bytes, strcmp}

-- The characters stand at `p`, and a NUL after them.
abbrev pub Text : Bytes → ℕ → List ℕ → Type 0
Text m p [] = m p ≡ 0
Text m p (c ∷ cs) = (m p ≡ c) × (c ≢ 0) × Text m (p + 1) cs

-- A result of `strcmp`, against 0.
abbrev pub is_zero : ℤ → Bool
is_zero (pos n) = n == 0
is_zero (negsuc n) = false

pub sub_ℕ-is_zero : (x y : ℕ) → x ≢ y → is_zero (sub_ℕ x y) ≡ false
sub_ℕ-is_zero x y ne = elim (Bool-cases (leb y x)) [
  | inl e ↦ rw e (ground arith)
  | inr e ↦ rw e refl
]

strcmp-step :
    (fuel p q : ℕ) (m : Bytes)
    → m p ≢ 0
    → m p ≡ m q
    → strcmp (suc fuel) m p q ≡ strcmp fuel m (p + 1) (q + 1)
unfolding strcmp
strcmp-step fuel p q m ne e =
    let z : (m p == 0) ≡ false = ground arith in
    let f : (m p == m q) ≡ true = ground arith in rw (z, f) refl

strcmp-differ :
    (fuel p q x y : ℕ) (m : Bytes)
    → m p ≡ x
    → m q ≡ y
    → x ≢ y
    → strcmp (suc fuel) m p q ≡ some (sub_ℕ x y)
unfolding strcmp
strcmp-differ fuel p q x y m e f ne =
    let h : (x == y) ≡ false = ground arith in
    rw (e, f) (elim (Bool-cases (x == 0)) [ inl z ↦ rw z refl | inr z ↦ rw (z, h) refl ])

strcmp-end : (fuel p q : ℕ) (m : Bytes) → m p ≡ 0 → m q ≡ 0 → strcmp (suc fuel) m p q ≡ some (pos 0)
unfolding strcmp
strcmp-end fuel p q m e f = rw (e, f) refl

-- On two strings `strcmp` ends, and its result is 0 if they have the same characters, and not 0 if
-- they have not.
pub strcmp_lem :
    (fuel p q : ℕ) (xs ys : List ℕ) (m : Bytes)
    → Text m p xs
    → Text m q ys
    → length ys < fuel
    → (d : ℤ) × (strcmp fuel m p q ≡ some d)
      × (((is_zero d ≡ true) × (xs ≡ ys)) ⊎ ((is_zero d ≡ false) × (xs ≢ ys)))
strcmp_lem zero p q xs ys m is js enough = absurd (omega arith)
strcmp_lem (suc fuel) p q [] [] m is js enough =
    (pos 0, strcmp-end fuel p q m is js, inl (refl, refl))
strcmp_lem (suc fuel) p q [] (y ∷ ys) m is (f, ne, js) enough = (
  sub_ℕ 0 y,
  strcmp-differ fuel p q 0 y m is f (ground arith),
  inr (sub_ℕ-is_zero 0 y (ground arith), λ e. ground (arith, e)),
)
strcmp_lem (suc fuel) p q (x ∷ xs) [] m (e, ne, is) js enough = (
  sub_ℕ x 0,
  strcmp-differ fuel p q x 0 m e js ne,
  inr (sub_ℕ-is_zero x 0 ne, λ e. ground (arith, e)),
)
strcmp_lem (suc fuel) p q (x ∷ xs) (y ∷ ys) m (e, ne, is) (f, ne', js) enough =
    elim (Bool-cases (x == y)) [
      | inr differ ↦
          let h : x ≢ y = ground arith in
          (
            sub_ℕ x y,
            strcmp-differ fuel p q x y m e f h,
            inr (sub_ℕ-is_zero x y h, λ g. ground (arith, g)),
          )
      | inl same ↦
          let h : x ≡ y = ground arith in
          let (d, g, out) = strcmp_lem fuel (p + 1) (q + 1) xs ys m is js (omega arith) in
          (
            d,
            strcmp-step fuel p q m (rw e ne) (e ∙ h ∙ sym f) ∙ g,
            elim out [
              | inl (z, eq) ↦ inl (z, rw (h, eq) refl)
              | inr (z, no_eq) ↦ inr (z, λ g. ground (arith, g, no_eq))
            ],
          )
    ]
