-- ===== src/Format/Output/Kernel.antt =====
-- `cprintf` in the kernel, printf.c: each character goes to the console at once.
use at_jos.Base.{ℕ, Option, none, some, List, [], ◌∷◌}
use at_jos.Console.Screen.{Screen, cons_putc}
use at_jos.Format.Vprintfmt.{vprintfmt}

-- `*cnt++` steps the pointer, and leaves the count.
unfoldable pub putch : ℕ → Screen × ℕ → Screen × ℕ
putch ch (scr, cnt) = (cons_putc ch scr, cnt)

unfoldable pub putch_all : List ℕ → Screen × ℕ → Screen × ℕ
putch_all [] s = s
putch_all (ch ∷ chs) s = putch_all chs (putch ch s)

abbrev pub shown : Screen → Option (List ℕ) → Option (Screen × ℕ)
shown scr none = none
shown scr (some out) = some (putch_all out (scr, 0))

-- The console and the result.
unfoldable pub vcprintf : (ℕ → List ℕ) → (ℕ → ℕ) → ℕ → List ℕ → ℕ → Screen → Option (Screen × ℕ)
vcprintf text_at args fuel fmt arg scr = shown scr (vprintfmt text_at args fuel fmt arg)
