-- ===== src/Tests/Print.antt =====
-- Concrete formats and numbers.
use at_jos.Base.{
  ℕ, ◌^◌, ◌<◌, ◌≡◌, refl, some, List, [], ◌∷◌, ◌==◌, if◌then◌else◌, arith, length, ◌++◌, map,
}
use at_jos.Format.{printnum}
use at_jos.Format.Directive.{text}
use at_jos.Format.Vprintfmt.{vprintfmt, vprintfmt-total}
use at_jos.CString.Number.Digits.{AllBelow, digits_value}
use at_jos.Format.Plain.{decimal_char, minus_of, vprintfmt-decimal}
use at_jos.Format.Output.{vcprintf}
use at_jos.Format.Output.Kernel as Kernel
use at_jos.Format.Chunks.{concat, low_bytes, AllShort, vcprintf_lem, kernel_vcprintf_lem}
use at_jos.Console.Screen.{Screen, crt_size}
use at_jos.Console.Rows.{IsWithin}
use at_jos.CString.{Bytes}
use at_jos.CString.Number.{strtol}
use at_jos.CString.Number.RoundTrip.{strtol-printnum}

abbrev no_text : ℕ → List ℕ
no_text p = text "text"

-- The first argument is -5.
abbrev arguments : ℕ → ℕ
arguments i = if i == 0 then 4294967291 else 7

arguments-small : (i : ℕ) → arguments i < 2 ^ 32
arguments-small i = ground arith

vprintfmt-total_example :
    (out : List ℕ) × (vprintfmt no_text arguments 20 (text "n=%d, %5x %s%") 0 ≡ some out)
vprintfmt-total_example =
    vprintfmt-total no_text arguments arguments-small 20 (text "n=%d, %5x %s%") 0 (omega arith)

vprintfmt-decimal_example :
    (digits : List ℕ) × (vprintfmt no_text arguments 7 (text "n=" ++ text "%d" ++ text " ok") 0
      ≡ some (text "n=" ++ (minus_of 4294967291 ++ map decimal_char digits) ++ text " ok"))
    × AllBelow 10 digits
    × (0 < length digits)
    × (digits_value 10 0 digits ≡ 5)
vprintfmt-decimal_example =
    vprintfmt-decimal no_text arguments (text "n=") (text " ok") 0 refl refl (omega arith)

vcprintf_lem_example :
    (out : List ℕ) × (calls : List (List ℕ)) × (vprintfmt no_text arguments 5 (text "n=%d") 0
      ≡ some out)
    × (vcprintf no_text arguments 5 (text "n=%d") 0 ≡ some (length out, calls))
    × (concat calls ≡ low_bytes out)
    × AllShort calls
vcprintf_lem_example = vcprintf_lem no_text arguments (text "n=%d") 0 arguments-small refl

abbrev blank : Screen
blank = record { addr_6845 = 0x3d4; crt_buf = λ i. 32; crt_pos = 80; ports = [] }

kernel_vcprintf_lem_example :
    (scr' : Screen) × (Kernel.vcprintf no_text arguments 5 (text "n=%d") 0 blank ≡ some (scr', 0))
    × IsWithin crt_size blank scr'
kernel_vcprintf_lem_example =
    kernel_vcprintf_lem no_text arguments (text "n=%d") 0 blank arguments-small (omega arith)

-- "1c8" at 40
abbrev numeral : Bytes
numeral a = if a == 40 then 49 else if a == 41 then 99 else if a == 42 then 56 else 0

printed : printnum 8 456 16 0 32 ≡ some (49 ∷ 99 ∷ 56 ∷ [])
unfolding printnum
printed = refl

strtol-printnum_example : strtol 9 numeral 40 16 ≡ some (456, 43)
strtol-printnum_example =
    strtol-printnum 9 7 456 16 32 40 (49 ∷ 99 ∷ 56 ∷ []) numeral (omega arith) (omega arith)
      (omega arith) (omega arith) printed
      (
        refl,
        (λ e. omega (arith, e)),
        (refl, (λ e. omega (arith, e)), (refl, (λ e. omega (arith, e)), refl)),
      )
      (omega arith)
