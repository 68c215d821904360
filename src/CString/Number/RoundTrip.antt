-- ===== src/CString/Number/RoundTrip.antt =====
-- `strtol` of lib/string.c reads back what `printnum` of lib/printfmt.c puts.
use at_jos.Base.{
  ℕ, zero, suc, ◌+◌, ◌-◌, ◌*◌, ◌%◌, ◌^◌, ◌≤◌, ◌<◌, ◌≡◌, refl, ◌≢◌, true, false, Option, some, List,
  [], ◌∷◌, ◌==◌, ltb, leb, arith, ap, ◌∙◌, sym, Bool-cases, inl, inr, length, length-map, map,
}
use mathlib.Core.Option.{some-injective}
use native.Mathlib.Nat.{le-mul_of_pos_right, mod-eq_of_lt}
use at_jos.CString.{Bytes}
use at_jos.CString.Compare.{Text}
use at_jos.Format.{hex_digit, printnum}
use at_jos.CString.Number.{
  digit_below, digit_of, skip_blanks, read_digits, base_prefix, negated, strtol,
}
use at_jos.CString.Number.Digits.{AllBelow, digits_value, printnum-IsDigits}

digit_below-lt : (base d : ℕ) → d < base → digit_below base d ≡ some d
digit_below-lt base d lt = let e : leb base d ≡ false = ground arith in rw e refl

digit_of-hex_digit : (base d : ℕ) → d < base → base ≤ 16 → digit_of base (hex_digit d) ≡ some d
digit_of-hex_digit base d lt high = elim (Bool-cases (ltb d 10)) [
  | inl small ↦
      let a : leb 48 (48 + d) ≡ true = ground arith in
      let b : leb (48 + d) 57 ≡ true = ground arith in
      rw small (
        rw (a, b)
          (ap (digit_below base) {x = 48 + d - 48} (omega arith) ∙ digit_below-lt base d lt))
  | inr large ↦
      let n : leb (87 + d) 57 ≡ false = ground arith in
      let a : leb 97 (87 + d) ≡ true = ground arith in
      let b : leb (87 + d) 122 ≡ true = ground arith in
      let ten : 10 ≤ d = ground arith in
      let m : leb 48 (87 + d) ≡ true = ground arith in
      rw large (
        rw (n, m, a, b)
          (ap (digit_below base) {x = 87 + d - 97 + 10} (omega arith) ∙ digit_below-lt base d lt))
]

digits_value-le : (base acc : ℕ) (ds : List ℕ) → 1 ≤ base → acc ≤ digits_value base acc ds
digits_value-le base acc [] low = omega arith
digits_value-le base acc (d ∷ ds) low =
    let rest = digits_value-le base (acc * base + d) ds low in
    let more : acc ≤ acc * base = le-mul_of_pos_right acc low in omega arith

read_digits-step :
    (fuel base s acc d : ℕ) (m : Bytes)
    → digit_of base (m s) ≡ some d
    → acc * base + d < 2 ^ 32
    → read_digits (suc fuel) m base s acc ≡ read_digits fuel m base (s + 1) (acc * base + d)
unfolding read_digits
read_digits-step fuel base s acc d m e small =
    let fits : (acc * base + d) % 2 ^ 32 ≡ acc * base + d = mod-eq_of_lt small in rw (e, fits) refl

read_digits-stop :
    (fuel base s acc : ℕ) (m : Bytes)
    → m s ≡ 0
    → read_digits (suc fuel) m base s acc ≡ some (acc, s)
unfolding read_digits
read_digits-stop fuel base s acc m e = rw e refl

read_digits_lem :
    (fuel base s acc : ℕ) (ds : List ℕ) (m : Bytes)
    → 2 ≤ base
    → base ≤ 16
    → AllBelow base ds
    → Text m s (map hex_digit ds)
    → digits_value base acc ds < 2 ^ 32
    → length ds < fuel
    → read_digits fuel m base s acc ≡ some (digits_value base acc ds, s + length ds)
read_digits_lem zero base s acc ds m low high all is small enough = absurd (omega arith)
read_digits_lem (suc fuel) base s acc [] m low high all is small enough =
    read_digits-stop fuel base s acc m is ∙ ap (λ e. some (acc, e)) (omega arith)
read_digits_lem (suc fuel) base s acc (d ∷ ds) m low high (lt, all) (e, ne, is) small enough =
    let more = digits_value-le base (acc * base + d) ds (omega arith) in
    read_digits-step fuel base s acc d m (ap (digit_of base) e ∙ digit_of-hex_digit base d lt high)
      (omega arith)
    ∙ read_digits_lem fuel base (s + 1) (acc * base + d) ds m low high all is small (omega arith)
    ∙ ap (λ e. some (digits_value base (acc * base + d) ds, e)) (omega arith)

hex_digit-low : (d : ℕ) → 48 ≤ hex_digit d
hex_digit-low d = ground arith

base_prefix-plain :
    (s base : ℕ) (m : Bytes) → 2 ≤ base → m (s + 1) ≢ 120 → base_prefix m base s ≡ (base, s)
unfolding base_prefix
base_prefix-plain s base m low plain =
    let e : (base == 0) ≡ false = ground arith in
    let f : (m (s + 1) == 120) ≡ false = ground arith in
    elim (Bool-cases (base == 16)) [
      | inr g ↦ rw (e, g) refl
      | inl g ↦ elim (Bool-cases (m s == 48)) [
        | inr h ↦ rw (e, g, h) refl
        | inl h ↦ rw (e, g, h, f) refl
      ]
    ]

strtol-start :
    (fuel s base : ℕ) (m : Bytes)
    → 2 ≤ base
    → 48 ≤ m s
    → m (s + 1) ≢ 120
    → strtol (suc fuel) m s base ≡ negated false (read_digits (suc fuel) m base s 0)
unfolding strtol skip_blanks
strtol-start fuel s base m low char plain =
    let a : (m s == 32) ≡ false = ground arith in
    let b : (m s == 9) ≡ false = ground arith in
    let c : (m s == 43) ≡ false = ground arith in
    let d : (m s == 45) ≡ false = ground arith in
    rw (a, b, c, d) (ap (λ t. read_from t) (base_prefix-plain s base m low plain))
  where
    read_from : ℕ × ℕ → Option (ℕ × ℕ)
    read_from (base', s') = negated false (read_digits (suc fuel) m base' s' 0)

digit-not_x :
    (p base : ℕ) (ds : List ℕ) (m : Bytes)
    → base ≤ 16
    → AllBelow base ds
    → Text m p (map hex_digit ds)
    → m p ≢ 120
digit-not_x p base [] m high all is = rw is (λ e. ground (arith, e))
digit-not_x p base (d ∷ ds) m high all is =
    let lt : d < base = all.0 in
    let low : hex_digit d < 120 = ground arith in rw is.0 (λ e. omega (arith, e, low))

strtol-digits :
    (fuel s base : ℕ) (ds : List ℕ) (m : Bytes)
    → 2 ≤ base
    → base ≤ 16
    → AllBelow base ds
    → 0 < length ds
    → digits_value base 0 ds < 2 ^ 32
    → length ds < suc fuel
    → Text m s (map hex_digit ds)
    → strtol (suc fuel) m s base ≡ some (digits_value base 0 ds, s + length ds)
strtol-digits fuel s base [] m low high all some_digit small enough is = absurd (omega arith)
strtol-digits fuel s base (d ∷ ds) m low high all some_digit small enough is =
    strtol-start fuel s base m low (rw is.0 (hex_digit-low d))
      (digit-not_x (s + 1) base ds m high all.1 is.2)
    ∙ ap (negated false)
        (read_digits_lem (suc fuel) base s 0 (d ∷ ds) m low high all is small enough)

-- Where `printnum` puts a number below 2 ^ 32 in a base from 2 to 16, with no padding, the text ends the
-- number for `strtol` in that base, and `strtol` reads the same number back.
pub strtol-printnum :
    (fuel digits num base padc s : ℕ) (out : List ℕ) (m : Bytes)
    → 2 ≤ base
    → base ≤ 16
    → num < 2 ^ 32
    → num < base ^ suc digits
    → printnum (suc digits) num base 0 padc ≡ some out
    → Text m s out
    → length out < fuel
    → strtol fuel m s base ≡ some (num, s + length out)
strtol-printnum fuel digits num base padc s out m low high word small e text enough =
    let is = printnum-IsDigits digits num base padc low small in
    let same : out ≡ map hex_digit is.digits = some-injective _ _ (sym e ∙ is.output) in
    let long : length out ≡ length is.digits = ap length same ∙ length-map is.digits hex_digit in
    let at : Text m s (map hex_digit is.digits) = rw same at text in
    ap (λ n. strtol n m s base) {x = fuel} {y = suc (fuel - 1)} (omega arith)
    ∙ strtol-digits (fuel - 1) s base is.digits m low high is.all is.nonempty (rw is.value word)
        (omega arith) at
    ∙ ap (λ n. some (n, s + length is.digits)) is.value
    ∙ ap (λ n. some (num, s + n)) (sym long)
