-- ===== src/Format.antt =====
-- Formatted output, lib/printfmt.c: numbers and the buffer of `snprintf`. A run of `putch` calls is
-- the list of the characters put.
pub mod Digits
pub mod Buffer
pub mod Directive
pub mod Vprintfmt
pub mod Plain
pub mod Output
pub mod Chunks
use at_jos.Base.{
  ℕ, zero, suc, ◌+◌, ◌-◌, ◌/◌, ◌%◌, ◌||◌, Option, none, some, List, [], ◌∷◌, ◌==◌, ltb, leb,
  if◌then◌else◌, ◌++◌, replicate,
}

-- `"0123456789abcdef"[d]`
abbrev pub hex_digit : ℕ → ℕ
hex_digit d = if ltb d 10 then 48 + d else 87 + d

abbrev pub and_put : Option (List ℕ) → ℕ → Option (List ℕ)
and_put none c = none
and_put (some out) c = some (out ++ c ∷ [])

-- `printnum`; a negative width stands as 0, which pads as little. `none`: the fuel ran out.
unfoldable pub printnum : ℕ → ℕ → ℕ → ℕ → ℕ → Option (List ℕ)
printnum zero num base width padc = none
printnum (suc fuel) num base width padc =
    let before = printnum fuel (num / base) base (width - 1) padc in
    and_put (if leb base num then before else some (replicate (width - 1) padc))
      (hex_digit (num % base))

-- `struct sprintbuf`, with the memory behind it.
pub record Sprintbuf : Type 0 where
  pub mem : ℕ → ℕ
  pub buf : ℕ
  pub ebuf : ℕ
  pub cnt : ℕ

unfoldable pub sprintputch : ℕ → Sprintbuf → Sprintbuf
sprintputch ch b =
    if ltb b.buf b.ebuf
    then record b {
      mem = λ a. if a == b.buf then ch % 256 else b.mem a;
      buf = b.buf + 1;
      cnt = b.cnt + 1;
    }
    else record b { cnt = b.cnt + 1 }

unfoldable pub put_all : List ℕ → Sprintbuf → Sprintbuf
put_all [] b = b
put_all (ch ∷ chs) b = put_all chs (sprintputch ch b)

-- `vsnprintf` with the characters that `vprintfmt` puts for its format; the result is the count and
-- the memory, or `none` for `-E_INVAL`.
unfoldable pub vsnprintf : ℕ → ℕ → List ℕ → (ℕ → ℕ) → Option (ℕ × (ℕ → ℕ))
vsnprintf buf n out m =
    let b = put_all out (record { mem = m; buf = buf; ebuf = buf + n - 1; cnt = 0 }) in
    if buf == 0 || ltb n 1 then none else some (b.cnt, λ a. if a == b.buf then 0 else b.mem a)
