-- ===== src/CString/Number.antt =====
-- `strtol` and `strcat` of lib/string.c. `strtol` works on 32-bit words: its value wraps round, and
-- the signed long that it returns stands as its 32-bit pattern.
pub mod Digits
pub mod RoundTrip
use at_jos.Base.{
  ℕ, zero, suc, ◌+◌, ◌-◌, ◌*◌, ◌%◌, ◌^◌, Bool, true, false, ◌||◌, ◌&&◌, Option, none, some, List,
  ◌==◌, leb, if◌then◌else◌,
}
use mathlib.Core.List.{append_assoc}
use native.Mathlib.Nat.{
  le-mul_of_pos_right, div-lt_iff_lt-mul, lt_of_lt_of_le, mod-lt, div-add-mod', mod-eq_of_lt,
  pow-suc, pow-zero, one-mul,
}
use mathlib.Core.Option.{some-injective}
use at_jos.CString.{Bytes, strlen, strcpy}
use at_jos.CString.Compare.{Text}
use at_jos.Format.{hex_digit, printnum, and_put}

abbrev pub append_at : ℕ → ℕ → ℕ → Bytes → Option ℕ → Option Bytes
append_at fuel dst src m none = none
append_at fuel dst src m (some len) = strcpy fuel (dst + len) src m

unfoldable pub strcat : ℕ → ℕ → ℕ → Bytes → Option Bytes
strcat fuel dst src m = append_at fuel dst src m (strlen fuel m dst)

-- `while (*s == ' ' || *s == '\t') s++`
unfoldable pub skip_blanks : ℕ → Bytes → ℕ → Option ℕ
skip_blanks zero m s = none
skip_blanks (suc fuel) m s =
    let rest = skip_blanks fuel m (s + 1) in if m s == 32 || m s == 9 then rest else some s

abbrev pub digit_below : ℕ → ℕ → Option ℕ
digit_below base dig = if leb base dig then none else some dig

-- `dig`, or `none` where the loop breaks.
abbrev pub digit_of : ℕ → ℕ → Option ℕ
digit_of base c =
    if leb 48 c && leb c 57
    then digit_below base (c - 48)
    else if leb 97 c && leb c 122
    then digit_below base (c - 97 + 10)
    else if leb 65 c && leb c 90
    then digit_below base (c - 65 + 10)
    else none

abbrev pub step_or : Option (ℕ × ℕ) → (ℕ → Option (ℕ × ℕ)) → Option ℕ → Option (ℕ × ℕ)
step_or stop next none = stop
step_or stop next (some dig) = next dig

-- The value and the end of the digits.
unfoldable pub read_digits : ℕ → Bytes → ℕ → ℕ → ℕ → Option (ℕ × ℕ)
read_digits zero m base s val = none
read_digits (suc fuel) m base s val =
    let next = λ (dig : ℕ). read_digits fuel m base (s + 1) ((val * base + dig) % 2 ^ 32) in
    step_or (some (val, s)) next (digit_of base (m s))

-- The base and the start of the digits.
unfoldable pub base_prefix : Bytes → ℕ → ℕ → ℕ × ℕ
base_prefix m base s =
    if (base == 0 || base == 16) && (m s == 48 && m (s + 1) == 120)
    then (16, s + 2)
    else if base == 0 && m s == 48
    then (8, s + 1)
    else if base == 0
    then (10, s)
    else (base, s)

abbrev pub negated : Bool → Option (ℕ × ℕ) → Option (ℕ × ℕ)
negated neg none = none
negated neg (some (val, s)) = some (if neg then (2 ^ 32 - val) % 2 ^ 32 else val, s)

abbrev pub read_number : ℕ → Bytes → ℕ → Bool → ℕ → Option (ℕ × ℕ)
read_number fuel m base neg s =
    let (base', s') = base_prefix m base s in negated neg (read_digits fuel m base' s' 0)

abbrev pub read_signed : ℕ → Bytes → ℕ → Option ℕ → Option (ℕ × ℕ)
read_signed fuel m base none = none
read_signed fuel m base (some s) =
    if m s == 43
    then read_number fuel m base false (s + 1)
    else if m s == 45
    then read_number fuel m base true (s + 1)
    else read_number fuel m base false s

-- The result, as its 32-bit pattern, and `*endptr`.
unfoldable pub strtol : ℕ → Bytes → ℕ → ℕ → Option (ℕ × ℕ)
strtol fuel m s base = read_signed fuel m base (skip_blanks fuel m s)
