-- ===== src/CString/Number/Digits.antt =====
-- The digits that `printnum` of lib/printfmt.c puts with no padding.
use at_jos.Base.{
  ℕ, zero, suc, ◌+◌, ◌*◌, ◌/◌, ◌%◌, ◌^◌, ◌≤◌, ◌<◌, ◌≡◌, refl, true, false, some, List, [], ◌∷◌, leb,
  arith, ap, ◌∙◌, sym, Bool-cases, inl, inr, length, ◌++◌, length-append, map,
}
use native.Mathlib.Nat.{
  div-lt_iff_lt-mul, lt_of_lt_of_le, mod-lt, div-add-mod', mod-eq_of_lt, pow-suc, pow-zero, one-mul,
}
use at_jos.Format.{hex_digit, printnum, and_put}

-- Numbers as digits below a base.
abbrev pub AllBelow : ℕ → List ℕ → Type 0
AllBelow base [] = Unit {0}
AllBelow base (d ∷ ds) = (d < base) × AllBelow base ds

abbrev pub digits_value : ℕ → ℕ → List ℕ → ℕ
digits_value base acc [] = acc
digits_value base acc (d ∷ ds) = digits_value base (acc * base + d) ds

digits_value-snoc :
    (base acc : ℕ) (ds : List ℕ) (d : ℕ)
    → digits_value base acc (ds ++ d ∷ []) ≡ digits_value base acc ds * base + d
digits_value-snoc base acc [] d = refl
digits_value-snoc base acc (x ∷ ds) d = digits_value-snoc base (acc * base + x) ds d

AllBelow-snoc :
    (base : ℕ) (ds : List ℕ) (d : ℕ) → AllBelow base ds → d < base → AllBelow base (ds ++ d ∷ [])
AllBelow-snoc base [] d all lt = (lt, tt)
AllBelow-snoc base (x ∷ ds) d (h, all) lt = (h, AllBelow-snoc base ds d all lt)

map-snoc :
    (ds : List ℕ) (d : ℕ) → map hex_digit (ds ++ d ∷ []) ≡ map hex_digit ds ++ hex_digit d ∷ []
map-snoc [] d = refl
map-snoc (x ∷ ds) d = ap (λ t. hex_digit x ∷ t) (map-snoc ds d)

-- What `printnum` puts with no padding.
pub record IsDigits (base num padc fuel : ℕ) : Type 0 where
  pub digits : List ℕ
  pub output : printnum fuel num base 0 padc ≡ some (map hex_digit digits)
  pub all : AllBelow base digits
  pub value : digits_value base 0 digits ≡ num
  pub nonempty : 0 < length digits

printnum-last :
    (fuel num base padc : ℕ)
    → num < base
    → printnum (suc fuel) num base 0 padc ≡ some (hex_digit num ∷ [])
unfolding printnum
printnum-last fuel num base padc lt =
    let e : leb base num ≡ false = ground arith in
    let f : num % base ≡ num = mod-eq_of_lt lt in rw (e, f) refl

printnum-next :
    (fuel num base padc : ℕ)
    → leb base num ≡ true
    → printnum (suc fuel) num base 0 padc
      ≡ and_put (printnum fuel (num / base) base 0 padc) (hex_digit (num % base))
unfolding printnum
printnum-next fuel num base padc e = rw e refl

IsDigits-next :
    (fuel num base padc : ℕ)
    → 2 ≤ base
    → leb base num ≡ true
    → IsDigits base (num / base) padc fuel
    → IsDigits base num padc (suc fuel)
IsDigits-next fuel num base padc low more is =
    let ds = is.digits in
    let d = num % base in
    let longer : length (ds ++ d ∷ []) ≡ length ds + 1 = length-append ds (d ∷ []) in
    record {
      digits = ds ++ d ∷ [];
      output =
          printnum-next fuel num base padc more
          ∙ ap (λ t. and_put t (hex_digit d)) is.output
          ∙ ap some (sym (map-snoc ds d));
      all = AllBelow-snoc base ds d is.all (mod-lt num (lt_of_lt_of_le (omega arith) low));
      value = digits_value-snoc base 0 ds d ∙ rw is.value (div-add-mod' num base);
      nonempty = omega arith;
    }

IsDigits-last : (fuel num base padc : ℕ) → num < base → IsDigits base num padc (suc fuel)
IsDigits-last fuel num base padc lt = record {
  digits = num ∷ [];
  output = printnum-last fuel num base padc lt;
  all = (lt, tt);
  value = omega arith;
  nonempty = omega arith;
}

pub printnum-IsDigits :
    (fuel num base padc : ℕ) → 2 ≤ base → num < base ^ suc fuel → IsDigits base num padc (suc fuel)
printnum-IsDigits zero num base padc low small =
    IsDigits-last zero num base padc (rw (pow-suc, pow-zero, one-mul) at small)
printnum-IsDigits (suc fuel) num base padc low small = elim (Bool-cases (leb base num)) [
  | inr last ↦ IsDigits-last (suc fuel) num base padc (ground arith)
  | inl more ↦ IsDigits-next (suc fuel) num base padc low more (
      printnum-IsDigits fuel (num / base) base padc low
        ((div-lt_iff_lt-mul (lt_of_lt_of_le (omega arith) low)).1 (rw pow-suc at small)))
]
