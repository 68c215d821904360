-- ===== src/Base/Bits.antt =====
-- Laws of `&` and `|` on numbers of any width, which the page table entries and the flag words of
-- the kernel are built with.
use Prim.Native.Nat.{
  ℕ, zero, suc, ◌+◌, ◌-◌, ◌*◌, ◌/◌, ◌%◌, ◌^◌, ◌≤◌, ◌<◌, min, max, bit_and, bit_or, digits,
  bit_and-bitwise, bit_or-bitwise,
}
use mathlib.Core.Path.{◌≡◌, refl, sym, ap, ◌∙◌}
use native.Mathlib.Nat.{
  pow-suc, add-zero, mul-one, add-suc, mul_assoc, one-le-pow, pow-succ', div-div-eq-div-mul,
  div-one,
}
use native.Mathlib.Omega.{arith}

-- More fuel than the first number needs changes nothing.
module _ (end : ℕ → ℕ) (op : ℕ → ℕ → ℕ) where
  digits_enough : (x y i j : ℕ) → x ≤ i → x ≤ j → digits end op i x y ≡ digits end op j x y
  digits_enough zero y zero zero li lj = refl
  digits_enough zero y zero (suc j) li lj = refl
  digits_enough zero y (suc i) zero li lj = refl
  digits_enough zero y (suc i) (suc j) li lj = refl
  digits_enough (suc x) y zero j li lj = absurd (omega arith)
  digits_enough (suc x) y (suc i) zero li lj = absurd (omega arith)
  digits_enough (suc x) y (suc i) (suc j) li lj =
      rw (digits_enough (suc x / 2) (y / 2) i j (omega arith) (omega arith))

pub or_step : (x y : ℕ) → bit_or x y ≡ 2 * bit_or (x / 2) (y / 2) + max (x % 2) (y % 2)
or_step zero y = omega (arith, bit_or-bitwise 0 y, bit_or-bitwise 0 (y / 2))
or_step (suc x) y = omega (
  arith,
  bit_or-bitwise (suc x) y,
  bit_or-bitwise (suc x / 2) (y / 2),
  digits_enough (λ b. b) max (suc x / 2) (y / 2) x (suc x / 2) (omega arith) (omega arith),
)

pub and_step : (x y : ℕ) → bit_and x y ≡ 2 * bit_and (x / 2) (y / 2) + min (x % 2) (y % 2)
and_step zero y = omega (arith, bit_and-bitwise 0 y, bit_and-bitwise 0 (y / 2))
and_step (suc x) y = omega (
  arith,
  bit_and-bitwise (suc x) y,
  bit_and-bitwise (suc x / 2) (y / 2),
  digits_enough (λ b. 0) min (suc x / 2) (y / 2) x (suc x / 2) (omega arith) (omega arith),
)

-- Induction on the number of binary digits.
module _ (P : ℕ → ℕ → Type 0) (base : (y : ℕ) → P 0 y) where
  by_halves : ((x y : ℕ) → P (suc x / 2) (y / 2) → P (suc x) y) → (n x y : ℕ) → x ≤ n → P x y
  by_halves step n zero y h = base y
  by_halves step zero (suc x) y h = absurd (omega arith)
  by_halves step (suc n) (suc x) y h = step x y (by_halves step n (suc x / 2) (y / 2) (omega arith))

pub zero-or : (y : ℕ) → bit_or 0 y ≡ y
zero-or y = bit_or-bitwise 0 y

pub zero-and : (y : ℕ) → bit_and 0 y ≡ 0
zero-and y = bit_and-bitwise 0 y

pub or-zero : (x : ℕ) → bit_or x 0 ≡ x
or-zero x =
    by_halves (λ x y. bit_or x 0 ≡ x) (λ y. refl) (λ x y ih. omega (arith, or_step (suc x) 0)) x x 0
      (omega arith)

pub and-zero : (x : ℕ) → bit_and x 0 ≡ 0
and-zero x =
    by_halves (λ x y. bit_and x 0 ≡ 0) (λ y. refl) (λ x y ih. omega (arith, and_step (suc x) 0)) x x
      0 (omega arith)

pub and_self : (x : ℕ) → bit_and x x ≡ x
and_self x =
    by_halves (λ x y. bit_and x x ≡ x) (λ y. refl)
      (λ x y ih. omega (arith, and_step (suc x) (suc x))) x x 0 (omega arith)

-- The lowest bit.
pub and-one : (x : ℕ) → bit_and x 1 ≡ x % 2
and-one x = omega (arith, and_step x 1, and-zero (x / 2))

-- Every bit of `y` is set in `x | y`.
pub and-or_absorb : (x y : ℕ) → bit_and (bit_or x y) y ≡ y
and-or_absorb x y = by_halves Absorbs none_left one_more x x y (omega arith)
  where
    Absorbs : ℕ → ℕ → Type 0
    Absorbs x y = bit_and (bit_or x y) y ≡ y

    none_left : (y : ℕ) → Absorbs 0 y
    none_left y = rw zero-or (and_self y)

    one_more : (x y : ℕ) → Absorbs (suc x / 2) (y / 2) → Absorbs (suc x) y
    one_more x y ih = omega (
      arith,
      or_step (suc x) y,
      and_step (bit_or (suc x) y) y,
      ap (λ (t : ℕ). bit_and t (y / 2)) halved,
    )
      where
        halved : bit_or (suc x) y / 2 ≡ bit_or (suc x / 2) (y / 2)
        halved = omega (arith, or_step (suc x) y)

pub half-or : (x y : ℕ) → bit_or x y / 2 ≡ bit_or (x / 2) (y / 2)
half-or x y = omega (arith, or_step x y)

shift-suc : (k x : ℕ) → x / 2 ^ suc k ≡ x / 2 / 2 ^ k
shift-suc k x = rw (pow-succ', div-div-eq-div-mul)

-- A shift to the right goes through `|`.
pub shift-or : (k x y : ℕ) → bit_or x y / 2 ^ k ≡ bit_or (x / 2 ^ k) (y / 2 ^ k)
shift-or zero x y = cc (div-one (bit_or x y), div-one x, div-one y)
shift-or (suc k) x y = simp (shift-suc, half-or) (shift-or k (x / 2) (y / 2))

-- Flags below a page boundary leave the page number alone.
pub or-page : (x y : ℕ) → y < 4096 → bit_or x y / 4096 ≡ x / 4096
or-page x y h = shift-or 12 x y ∙ rw (small) (or-zero _)
  where
    small : y / 2 ^ 12 ≡ 0
    small = omega arith

-- Two numbers below a page boundary stay below it.
pub or-lt-page : (x y : ℕ) → x < 4096 → y < 4096 → bit_or x y < 4096
or-lt-page x y hx hy = omega (arith, or-page x y hy)

double-pow : (q k : ℕ) → q * 2 ^ suc k ≡ 2 * (q * 2 ^ k)
double-pow q k = omega (arith, ap (λ (t : ℕ). q * t) (pow-succ' 2 k))

-- `|` of fields that do not overlap is their sum.
pub or_disjoint : (k q y : ℕ) → y < 2 ^ k → bit_or (q * 2 ^ k) y ≡ q * 2 ^ k + y
or_disjoint zero q y h = omega (arith, or-zero (q * 1), ap (λ (t : ℕ). bit_or (q * 1) t) none_left)
  where
    none_left : y ≡ 0
    none_left = omega arith
or_disjoint (suc k) q y h = omega (
  arith,
  or_step (q * 2 ^ suc k) y,
  ap (λ (t : ℕ). bit_or t (y / 2)) halved,
  or_disjoint k q (y / 2) fits,
  double-pow q k,
)
  where
    halved : q * 2 ^ suc k / 2 ≡ q * 2 ^ k
    halved = omega (arith, double-pow q k)

    fits : y / 2 < 2 ^ k
    fits = omega (arith, pow-succ' 2 k)

pub pow_add : (j k : ℕ) → 2 ^ (j + k) ≡ 2 ^ j * 2 ^ k
pow_add j zero = simp (add-zero, mul-one)
pow_add j (suc k) = simp (add-suc, pow-suc, pow_add j k, mul_assoc)

pub pow_split : (n w : ℕ) → n ≤ w → 2 ^ (w - n) * 2 ^ n ≡ 2 ^ w
pow_split n w h = sym (pow_add (w - n) n) ∙ ap (λ (t : ℕ). 2 ^ t) back
  where
    back : w - n + n ≡ w
    back = omega arith

pub two_pow_pos : (n : ℕ) → 0 < 2 ^ n
two_pow_pos n = one-le-pow n 2 (omega arith)

-- A mask whose low bits are clear.
pub and_high : (k c x : ℕ) → bit_and x (c * 2 ^ k) ≡ bit_and (x / 2 ^ k) c * 2 ^ k
and_high zero c x = simp (mul-one, div-one)
and_high (suc k) c x = omega (
  arith,
  and_step x (c * 2 ^ suc k),
  double-pow c k,
  double-pow (bit_and (x / 2 ^ suc k) c) k,
  ap (λ (t : ℕ). bit_and (x / 2) t) halved,
  and_high k c (x / 2),
  ap (λ (t : ℕ). bit_and t c * 2 ^ k) (shift-suc k x),
)
  where
    halved : c * 2 ^ suc k / 2 ≡ c * 2 ^ k
    halved = omega (arith, double-pow c k)

-- A mask of `j` ones keeps a number of `j` bits.
pub and_ones : (j y : ℕ) → y < 2 ^ j → bit_and y (2 ^ j - 1) ≡ y
and_ones zero y h = let e : y ≡ 0 = omega arith in rw e
and_ones (suc j) y h = omega (
  arith,
  and_step y (2 ^ suc j - 1),
  pow-succ' 2 j,
  two_pow_pos j,
  ap (λ (t : ℕ). bit_and (y / 2) t) halved,
  and_ones j (y / 2) (omega (arith, pow-succ' 2 j)),
)
  where
    halved : (2 ^ suc j - 1) / 2 ≡ 2 ^ j - 1
    halved = omega (arith, pow-succ' 2 j)
