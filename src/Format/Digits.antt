-- ===== src/Format/Digits.antt =====
-- What `printnum` puts reads back as the number, padded on the left to the width.
use at_jos.Base.{
  ℕ, zero, suc, ◌+◌, ◌-◌, ◌*◌, ◌/◌, ◌%◌, ◌^◌, ◌≤◌, ◌<◌, ◌≡◌, refl, false, Option, some, List, [],
  ◌∷◌, ltb, leb, if◌then◌else◌, arith, ap, ◌∙◌, Bool-cases, inl, inr, length, ◌++◌, replicate,
  length-append,
}
use mathlib.Core.List.{append_assoc}
use at_jos.Format.{hex_digit, printnum, and_put}
use native.Mathlib.Nat.{
  div-lt_iff_lt-mul, lt_of_lt_of_le, mod-lt, div-add-mod', mod-eq_of_lt, pow-suc, pow-zero, one-mul,
}

-- The value of a digit character.
abbrev pub digit_value : ℕ → ℕ
digit_value c = if ltb c 58 then c - 48 else c - 87

abbrev pub number : ℕ → ℕ → List ℕ → ℕ
number base acc [] = acc
number base acc (c ∷ cs) = number base (acc * base + digit_value c) cs

number-snoc :
    (base acc : ℕ) (cs : List ℕ) (c : ℕ)
    → number base acc (cs ++ c ∷ []) ≡ number base acc cs * base + digit_value c
number-snoc base acc [] c = refl
number-snoc base acc (x ∷ cs) c = number-snoc base (acc * base + digit_value x) cs c

-- The output: padding, then the digits of the number.
pub record IsNumeral (out : Option (List ℕ)) (num base width padc : ℕ) : Type 0 where
  pub digits : List ℕ
  pub nonempty : 0 < length digits
  pub output : out ≡ some (replicate (width - length digits) padc ++ digits)
  pub value : number base 0 digits ≡ num

digit_back : (d : ℕ) → d < 16 → digit_value (hex_digit d) ≡ d
digit_back d h = ground arith

-- One more digit behind a numeral.
IsNumeral-put :
    {out : Option (List ℕ)} {num base width padc : ℕ}
    → 2 ≤ base
    → base ≤ 16
    → IsNumeral out (num / base) base (width - 1) padc
    → IsNumeral (and_put out (hex_digit (num % base))) num base width padc
IsNumeral-put {out} {num} {base} {width} {padc} low high is =
    let ds = is.digits in
    let c = hex_digit (num % base) in
    let longer : length (ds ++ c ∷ []) ≡ length ds + 1 = length-append ds (c ∷ []) in
    let digit : digit_value c ≡ num % base =
      digit_back (num % base)
        (lt_of_lt_of_le (mod-lt num (lt_of_lt_of_le (omega arith) low)) high) in
    record {
      digits = ds ++ c ∷ [];
      nonempty = omega arith;
      output =
          let pads : width - 1 - length ds ≡ width - length (ds ++ c ∷ []) = omega arith in
          rw is.output (
            ap some (
              rw pads (append_assoc (replicate (width - length (ds ++ c ∷ [])) padc) ds (c ∷ []))));
      value = number-snoc base 0 ds c ∙ (rw (is.value, digit) (div-add-mod' num base));
    }

IsNumeral-one :
    (fuel num base width padc : ℕ)
    → 2 ≤ base
    → base ≤ 16
    → num < base
    → IsNumeral (printnum (suc fuel) num base width padc) num base width padc
unfolding printnum
IsNumeral-one fuel num base width padc low high under =
    let last : leb base num ≡ false = ground arith in
    let digit : num % base ≡ num = mod-eq_of_lt under in
    rw (last, digit)
      (record {
        digits = hex_digit num ∷ [];
        nonempty = omega arith;
        output = refl;
        value = let back = digit_back num (omega arith) in omega arith;
      })

pub printnum_lem :
    (fuel num base width padc : ℕ)
    → 2 ≤ base
    → base ≤ 16
    → num < base ^ suc fuel
    → IsNumeral (printnum (suc fuel) num base width padc) num base width padc
unfolding printnum
printnum_lem zero num base width padc low high small =
    IsNumeral-one 0 num base width padc low high (rw (pow-suc, pow-zero, one-mul) at small)
printnum_lem (suc fuel) num base width padc low high small = elim (Bool-cases (leb base num)) [
  | inl more ↦ rw more (
      IsNumeral-put low high (
        printnum_lem fuel (num / base) base (width - 1) padc low high
          ((div-lt_iff_lt-mul (lt_of_lt_of_le (omega arith) low)).1 (rw pow-suc at small))))
  | inr last ↦ IsNumeral-one (suc fuel) num base width padc low high (ground arith)
]
