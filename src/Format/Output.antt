-- ===== src/Format/Output.antt =====
-- `cprintf` in a user program, lib/printf.c, and in the kernel, printf.c.
pub mod Kernel
use at_jos.Base.{
  ℕ, ◌+◌, ◌-◌, ◌%◌, Option, none, some, List, [], ◌∷◌, ◌==◌, if◌then◌else◌, length, ◌++◌,
}
use at_jos.Format.Vprintfmt.{vprintfmt}

-- `struct printbuf`: the characters before `idx`, and what was handed to `sys_cputs`, in order.
pub record Printbuf : Type 0 where
  pub buf : List ℕ
  pub cnt : ℕ
  pub calls : List (List ℕ)

-- `sys_cputs(b->buf, b->idx)`
unfoldable pub flush : Printbuf → Printbuf
flush b = record b { calls = b.calls ++ b.buf ∷ [] }

unfoldable pub putch : ℕ → Printbuf → Printbuf
putch ch b =
    let full = b.buf ++ ch % 256 ∷ [] in
    if length full == 256 - 1
    then record { buf = []; cnt = b.cnt + 1; calls = b.calls ++ full ∷ [] }
    else record b { buf = full; cnt = b.cnt + 1 }

unfoldable pub putch_all : List ℕ → Printbuf → Printbuf
putch_all [] b = b
putch_all (ch ∷ chs) b = putch_all chs (putch ch b)

unfoldable pub collect : List ℕ → ℕ × List (List ℕ)
collect out =
    let b = flush (putch_all out (record { buf = []; cnt = 0; calls = [] })) in (b.cnt, b.calls)

abbrev pub collected : Option (List ℕ) → Option (ℕ × List (List ℕ))
collected none = none
collected (some out) = some (collect out)

-- The result and the calls of `sys_cputs`.
unfoldable pub vcprintf : (ℕ → List ℕ) → (ℕ → ℕ) → ℕ → List ℕ → ℕ → Option (ℕ × List (List ℕ))
vcprintf text_at args fuel fmt arg = collected (vprintfmt text_at args fuel fmt arg)
