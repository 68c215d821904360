-- ===== src/Format/Plain.antt =====
-- Formats of plain text with a signed number in it.
use at_jos.Base.{
  ℕ, suc, ◌+◌, ◌-◌, ◌^◌, ◌<◌, ◌≡◌, refl, Bool, false, ◌||◌, Option, none, some, List, [], ◌∷◌, ◌==◌,
  leb, if◌then◌else◌, arith, ap, ◌∙◌, sym, Bool-cases, inl, inr, length, ◌++◌, map,
}
use mathlib.Core.List.{append_assoc, append-nil}
use at_jos.Format.{printnum}
use at_jos.Format.{hex_digit}
use at_jos.CString.Number.Digits.{AllBelow, digits_value, printnum-IsDigits}
use at_jos.Format.Directive.{fresh_flags, flag_char, parse_flags, getint, after_chars, convert}
use at_jos.Format.Vprintfmt.{vprintfmt, put_then}

abbrev pub has_percent : List ℕ → Bool
has_percent [] = false
has_percent (c ∷ cs) = (c == b'%') || has_percent cs

put_then_assoc :
    (xs ys : List ℕ) (o : Option (List ℕ))
    → put_then (some xs) (put_then (some ys) o) ≡ put_then (some (xs ++ ys)) o
put_then_assoc xs ys none = refl
put_then_assoc xs ys (some zs) = ap some (sym (append_assoc xs ys zs))

put_then-nil : (o : Option (List ℕ)) → put_then (some []) o ≡ o
put_then-nil none = refl
put_then-nil (some zs) = refl

-- The sign of a word as an `int`.
abbrev pub minus_of : ℕ → List ℕ
minus_of w = if leb (2 ^ 31) w then b'-' ∷ [] else []

abbrev pub size_of : ℕ → ℕ
size_of w = if leb (2 ^ 31) w then 2 ^ 32 - w else w

-- The character of a decimal digit.
abbrev pub decimal_char : ℕ → ℕ
decimal_char d = b'0' + d

hex_digit-decimal : (ds : List ℕ) → AllBelow 10 ds → map hex_digit ds ≡ map decimal_char ds
hex_digit-decimal [] all = refl
hex_digit-decimal (d ∷ ds) (lt, all) =
    let one : hex_digit d ≡ decimal_char d = ground arith in rw (one, hex_digit-decimal ds all) refl

module _ (text_at : ℕ → List ℕ) (args : ℕ → ℕ) where
  vprintfmt-plain :
      (fuel : ℕ) (pre fmt : List ℕ) (arg : ℕ)
      → has_percent pre ≡ false
      → vprintfmt text_at args (length pre + fuel) (pre ++ fmt) arg
        ≡ put_then (some pre) (vprintfmt text_at args fuel fmt arg)
  unfolding vprintfmt
  vprintfmt-plain fuel [] fmt arg plain =
      let same : 0 + fuel ≡ fuel = omega arith in
      ap (λ f. vprintfmt text_at args f fmt arg) same ∙ sym (put_then-nil _)
  vprintfmt-plain fuel (c ∷ pre) fmt arg plain =
      let here : (c == b'%') ≡ false = ground arith in
      let rest = vprintfmt-plain fuel pre fmt arg (ground arith) in
      let same : suc (length pre) + fuel ≡ suc (length pre + fuel) = omega arith in
      ap (λ f. vprintfmt text_at args f (c ∷ (pre ++ fmt)) arg) same
      ∙ rw (here, rest) (put_then_assoc (c ∷ []) pre (vprintfmt text_at args fuel fmt arg))

  -- `%d` alone.
  convert-decimal :
      (arg : ℕ)
      → args arg < 2 ^ 32
      → (digits : List ℕ) × (convert text_at args b'd' fresh_flags arg
          ≡ some (some (minus_of (args arg) ++ map decimal_char digits), arg + 1))
        × AllBelow 10 digits
        × (0 < length digits)
        × (digits_value 10 0 digits ≡ size_of (args arg))
  unfolding convert getint
  convert-decimal arg word =
      let is = printnum-IsDigits 63 (size_of (args arg)) 10 b' ' (omega arith) (ground arith) in
      let put : printnum 64 (size_of (args arg)) 10 0 b' ' ≡ some (map decimal_char is.digits) =
        is.output ∙ ap some (hex_digit-decimal is.digits is.all) in
      (
        is.digits,
        elim (Bool-cases (leb (2 ^ 31) (args arg))) [
          | inl e ↦
              rw e (ap (λ o. some (after_chars text_at args (b'-' ∷ []) o, arg + 1)) (rw e at put))
          | inr e ↦ rw e (ap (λ o. some (after_chars text_at args [] o, arg + 1)) (rw e at put))
        ],
        is.all,
        is.nonempty,
        is.value,
      )

  directive-decimal :
      (arg : ℕ) (digits post : List ℕ)
      → convert text_at args b'd' fresh_flags arg
        ≡ some (some (minus_of (args arg) ++ digits), arg + 1)
      → has_percent post ≡ false
      → vprintfmt text_at args (length post + 2) (b'%' ∷ b'd' ∷ post) arg
        ≡ some ((minus_of (args arg) ++ digits) ++ post)
  unfolding vprintfmt parse_flags flag_char
  directive-decimal arg digits post e plain =
      let fuel : length post + 2 ≡ suc (length post + 1) = omega arith in
      let rest : vprintfmt text_at args (length post + 1) post (arg + 1) ≡ some post =
        ap (λ f. vprintfmt text_at args (length post + 1) f (arg + 1)) (sym (append-nil post))
        ∙ vprintfmt-plain 1 post [] (arg + 1) plain
        ∙ ap some (append-nil post) in
      ap (λ f. vprintfmt text_at args f (b'%' ∷ b'd' ∷ post) arg) fuel ∙ rw (e, rest) refl

  -- A format of plain text around one `%d` puts the text before it, a minus sign exactly if the argument
  -- is negative as an `int`, at least one character from 0 to 9, which are the decimal digits of its
  -- absolute value, and the text behind.
  pub vprintfmt-decimal :
      (pre post : List ℕ) (arg : ℕ)
      → has_percent pre ≡ false
      → has_percent post ≡ false
      → args arg < 2 ^ 32
      → (digits : List ℕ) × (vprintfmt text_at args
            (length pre + (length post + 2))
            (pre ++ b'%' ∷ b'd' ∷ post)
            arg
          ≡ some (pre ++ (minus_of (args arg) ++ map decimal_char digits) ++ post))
        × AllBelow 10 digits
        × (0 < length digits)
        × (digits_value 10 0 digits ≡ size_of (args arg))
  vprintfmt-decimal pre post arg plain plain' word =
      let (digits, e, all, some_digit, v) = convert-decimal arg word in
      let shown = map decimal_char digits in
      let tail = directive-decimal arg shown post e plain' in
      (
        digits,
        vprintfmt-plain (length post + 2) pre (b'%' ∷ b'd' ∷ post) arg plain
            ∙ ap (put_then (some pre)) tail
            ∙ ap some (sym (append_assoc pre (minus_of (args arg) ++ shown) post)),
        all,
        some_digit,
        v,
      )
