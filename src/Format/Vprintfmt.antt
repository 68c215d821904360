-- ===== src/Format/Vprintfmt.antt =====
-- `vprintfmt` ends on every format.
use at_jos.Base.{
  ℕ, zero, suc, ◌+◌, ◌-◌, ◌*◌, ◌^◌, ◌≤◌, ◌<◌, ◌≡◌, refl, Bool, true, false, Option, none, some,
  List, [], ◌∷◌, ◌==◌, leb, if◌then◌else◌, arith, ap, Bool-cases, inl, inr, ◌⊎◌, length, ◌++◌,
}
use native.Mathlib.Nat.{pow-le-pow_left, lt_of_lt_of_le}
use at_jos.Base.{Option-cases}
use at_jos.Format.{printnum}
use at_jos.Format.Digits.{printnum_lem}
use at_jos.Format.Directive.{
  Flags, fresh_flags, end_number, in_number, number_so_far, flag_char, parse_flags, getuint, getint,
  signed, put_number, after_chars, error_text, put_string, convert, text,
}

abbrev pub put_then : Option (List ℕ) → Option (List ℕ) → Option (List ℕ)
put_then none rest = none
put_then (some out) none = none
put_then (some out) (some rest) = some (out ++ rest)

module _ (text_at : ℕ → List ℕ) (args : ℕ → ℕ) where
  -- The characters that `vprintfmt` puts. An unknown conversion puts the `%`, and goes back to the
  -- character behind it.
  unfoldable pub vprintfmt : ℕ → List ℕ → ℕ → Option (List ℕ)
  vprintfmt zero fmt arg = none
  vprintfmt (suc fuel) [] arg = some []
  vprintfmt (suc fuel) (c ∷ cs) arg =
      let d = parse_flags text_at args cs none fresh_flags arg in
      if c == b'%'
      then elim (convert text_at args d.ch d.flags d.ap) [
        | some (out, arg') ↦ put_then out (vprintfmt fuel d.rest arg')
        | none ↦ put_then (some (b'%' ∷ [])) (vprintfmt fuel cs d.ap)
      ]
      else put_then (some (c ∷ [])) (vprintfmt fuel cs arg)

  -- The flags take characters from the front.
  parse_flags-length :
      (cs : List ℕ) (num : Option ℕ) (fl : Flags) (arg : ℕ)
      → length (parse_flags text_at args cs num fl arg).rest ≤ length cs
  unfolding parse_flags
  parse_flags-length [] num fl arg = omega arith
  parse_flags-length (c ∷ cs) num fl arg = elim (Bool-cases (in_number num c)) [
    | inl more ↦
        let rest = parse_flags-length cs (some (number_so_far num * 10 + (c - b'0'))) fl arg in
        rw more (omega arith)
    | inr over ↦ elim (Option-cases (flag_char text_at args c (end_number num fl) arg)) [
      | inl e ↦ rw (over, e) (omega arith)
      | inr ((fl', arg'), e) ↦
          let rest = parse_flags-length cs none fl' arg' in rw (over, e) (omega arith)
    ]
  ]

  -- Numbers below 2 ^ 64 are put.
  pub put_number-some :
      (num base : ℕ) (fl : Flags)
      → 8 ≤ base
      → base ≤ 16
      → num < 2 ^ 64
      → (out : List ℕ) × (put_number text_at args num base fl ≡ some out)
  put_number-some num base fl lo hi small =
      let is =
        printnum_lem 63 num base (number_so_far fl.width) fl.padc (omega arith) hi
          (lt_of_lt_of_le small (pow-le-pow_left {n = 2} (omega arith) 64)) in
      (_, is.output)

  -- A conversion that is known puts its characters.
  Puts : Option (Option (List ℕ) × ℕ) → Type 0
  Puts r = (r ≡ none) ⊎ ((out : List ℕ) × (next : ℕ) × (r ≡ some (some out, next)))

  Puts-if :
      (b : Bool) (x y : Option (Option (List ℕ) × ℕ)) → Puts x → Puts y → Puts (if b then x else y)
  Puts-if true x y h g = h
  Puts-if false x y h g = g

  Out-if :
      (b : Bool) (x y : Option (List ℕ))
      → (out : List ℕ) × (x ≡ some out)
      → (out : List ℕ) × (y ≡ some out)
      → (out : List ℕ) × ((if b then x else y) ≡ some out)
  Out-if true x y h g = h
  Out-if false x y h g = g

  Puts-some :
      (o : Option (List ℕ)) (next : ℕ) → (out : List ℕ) × (o ≡ some out) → Puts (some (o, next))
  unfolding Puts
  Puts-some o next (out, e) = inr (out, next, ap (λ q. some (q, next)) e)

  after_chars-some :
      (before : List ℕ) (o : Option (List ℕ))
      → (out : List ℕ) × (o ≡ some out)
      → (out : List ℕ) × (after_chars text_at args before o ≡ some out)
  after_chars-some before o (out, e) = (before ++ out, ap (after_chars text_at args before) e)

  module _ (words : (i : ℕ) → args i < 2 ^ 32) where
    unsigned-small : (lflag arg : ℕ) → (getuint text_at args lflag arg).0 < 2 ^ 64
    unfolding getuint
    unsigned-small lflag arg =
        let a = words arg in
        let b = words (arg + 1) in
        elim (Bool-cases (leb 2 lflag)) [ inl e ↦ rw e (omega arith) | inr e ↦ rw e (omega arith) ]

    signed-small :
        (half n next : ℕ) → half ≤ 2 ^ 63 → n < 2 * half → (signed half n next).1 < 2 ^ 64
    signed-small half n next h g = elim (Bool-cases (leb half n)) [
      | inl e ↦ let high : half ≤ n = ground arith in rw e (omega arith)
      | inr e ↦ rw e (omega arith)
    ]

    size-small : (lflag arg : ℕ) → (getint text_at args lflag arg).1 < 2 ^ 64
    unfolding getint
    size-small lflag arg =
        let a = words arg in
        let b = words (arg + 1) in
        elim (Bool-cases (leb 2 lflag)) [
          | inl e ↦ rw e (
              signed-small (2 ^ 63) (args arg + args (arg + 1) * 2 ^ 32) (arg + 2) (omega arith)
                (omega arith))
          | inr e ↦ rw e (signed-small (2 ^ 31) (args arg) (arg + 1) (omega arith) (omega arith))
        ]

    error_text-some :
        (err : ℕ) → err < 2 ^ 64 → (out : List ℕ) × (error_text text_at args err ≡ some out)
    unfolding error_text
    error_text-some err small =
        Out-if (err == 1) _ _ (_, refl)
          (Out-if (err == 2) _ _ (_, refl)
            (Out-if (err == 3) _ _ (_, refl)
              (Out-if (err == 4) _ _ (_, refl)
                (Out-if (err == 5) _ _ (_, refl)
                  (Out-if (err == 6) _ _ (_, refl)
                    (after_chars-some (text "error ") (printnum 64 err 10 0 b' ')
                      (put_number-some err 10 fresh_flags (omega arith) (omega arith) small)))))))

    convert-Puts : (ch : ℕ) (fl : Flags) (arg : ℕ) → Puts (convert text_at args ch fl arg)
    unfolding convert Puts
    convert-Puts ch fl arg =
        let u = unsigned-small fl.lflag arg in
        let s = size-small fl.lflag arg in
        let w = words arg in
        let (n, next) = getuint text_at args fl.lflag arg in
        let (negative, size, next_s) = getint text_at args fl.lflag arg in
        let num = put_number text_at args in
        Puts-if (ch == b'c') _ _ (inr (args arg ∷ [], arg + 1, refl)) (
          Puts-if (ch == b'e') _ _
            (Puts-some
              (error_text text_at args
                (if leb (2 ^ 31) (args arg) then 2 ^ 32 - args arg else args arg))
              (arg + 1) (error_text-some _ (ground arith)))
            (Puts-if (ch == b's') _ _ (inr (put_string text_at args (args arg) fl, arg + 1, refl)) (
              Puts-if (ch == b'd') _ _
                (Puts-some
                  (after_chars text_at args (if negative then b'-' ∷ [] else []) (num size 10 fl))
                  next_s
                  (after_chars-some (if negative then b'-' ∷ [] else []) (num size 10 fl)
                    (put_number-some size 10 fl (omega arith) (omega arith) s)))
                (Puts-if (ch == b'u') _ _
                  (Puts-some (num n 10 fl) next
                    (put_number-some n 10 fl (omega arith) (omega arith) u))
                  (Puts-if (ch == b'o') _ _
                    (Puts-some (num n 8 fl) next
                      (put_number-some n 8 fl (omega arith) (omega arith) u))
                    (Puts-if (ch == b'p') _ _
                      (Puts-some
                        (after_chars text_at args (b'0' ∷ b'x' ∷ []) (num (args arg) 16 fl))
                        (arg + 1)
                        (after_chars-some (b'0' ∷ b'x' ∷ []) (num (args arg) 16 fl) (
                          put_number-some (args arg) 16 fl (omega arith) (omega arith)
                            (omega arith))))
                      (Puts-if (ch == b'x') _ _
                        (Puts-some (num n 16 fl) next
                          (put_number-some n 16 fl (omega arith) (omega arith) u))
                        (Puts-if (ch == b'%') _ _ (inr (b'%' ∷ [], arg, refl)) (inl refl)))))))))

    -- On every format, whatever its conversions and words of arguments, `vprintfmt` ends after at most one round
    -- for each character and one more.
    pub vprintfmt-total :
        (fuel : ℕ) (fmt : List ℕ) (arg : ℕ)
        → length fmt < fuel
        → (out : List ℕ) × (vprintfmt fuel fmt arg ≡ some out)
    unfolding vprintfmt Puts
    vprintfmt-total zero fmt arg enough = absurd (omega arith)
    vprintfmt-total (suc fuel) [] arg enough = ([], refl)
    vprintfmt-total (suc fuel) (c ∷ cs) arg enough =
        let d = parse_flags text_at args cs none fresh_flags arg in
        let shorter = parse_flags-length cs none fresh_flags arg in
        let later = vprintfmt-total fuel cs in
        elim (Bool-cases (c == b'%')) [
          | inr plain ↦ let (out, e) = later arg (omega arith) in (c ∷ out, rw (plain, e) refl)
          | inl percent ↦ elim (convert-Puts d.ch d.flags d.ap) [
            | inl e ↦
                let (out, g) = later d.ap (omega arith) in (b'%' ∷ out, rw (percent, e, g) refl)
            | inr (out, next, e) ↦
                let (rest, g) = vprintfmt-total fuel d.rest next (omega arith) in
                (out ++ rest, rw (percent, e, g) refl)
          ]
        ]
