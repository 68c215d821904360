-- ===== src/Tests/Library.antt =====
-- Instances for the string library, the formatting and the console.
use at_jos.Base.{
  ℕ, zero, suc, ◌<◌, ◌≡◌, refl, true, some, List, [], ◌∷◌, ◌==◌, if◌then◌else◌, arith, sym, length,
  replicate,
}
use at_jos.CString.{Bytes, memmove}
use at_jos.CString.Move.{memmove_lem}
use at_jos.CString.Scan.{IsString}
use at_jos.Format.{vsnprintf}
use at_jos.Format.Buffer.{stored, vsnprintf_lem}
use at_jos.Console.Input.{Cons, cons_getc}
use at_jos.Console.Queue.{IsQueue, nth, cons_getc_lem}
use at_jos.Console.Screen.{Screen, cons_putc, crt_size}
use at_jos.Console.Readline.{Line, readline, IsText, readline_lem}
use at_jos.Console.Rows.{IsWithin, cons_putc_lem}

-- "Hi" at address 16, in memory that is 0 elsewhere.
abbrev greeting : Bytes
greeting a = if a == 16 then 72 else if a == 17 then 105 else 0

greeting-IsString : IsString greeting 16 2
greeting-IsString = record { text = λ i h. ground arith; nul = refl }

memmove_lem_example : memmove 17 16 2 greeting 18 ≡ 105
memmove_lem_example = memmove_lem 17 16 2 greeting 18

vsnprintf_lem_example :
    (m' : ℕ → ℕ) × (vsnprintf 8 3 (72 ∷ 105 ∷ 33 ∷ []) (λ a. 1) ≡ some (3, m'))
    × ((a : ℕ) → m' a ≡ (if a == 10 then 0 else stored 8 (72 ∷ 105 ∷ 33 ∷ []) 2 (λ a. 1) a))
vsnprintf_lem_example = vsnprintf_lem 8 2 (72 ∷ 105 ∷ 33 ∷ []) (λ a. 1) (omega arith)

-- One character, 65, waits at the end of the buffer.
abbrev one_waits : Cons
one_waits = record { buf = λ i. if i == 511 then 65 else 0; rpos = 511; wpos = 0 }

one_waits-IsQueue : IsQueue one_waits (65 ∷ [])
one_waits-IsQueue = record {
  in_buffer = omega arith;
  fits = omega arith;
  next_free = refl;
  held = λ i h. ground arith;
}

cons_getc_lem_example :
    ((cons_getc true (66 ∷ 0 ∷ []) (67 ∷ []) one_waits).0 ≡ 65)
    × IsQueue ((cons_getc true (66 ∷ 0 ∷ []) (67 ∷ []) one_waits).1) (66 ∷ 67 ∷ [])
cons_getc_lem_example =
    cons_getc_lem true (66 ∷ 0 ∷ []) (67 ∷ []) one_waits (65 ∷ []) one_waits-IsQueue (omega arith)
      (65 ∷ 66 ∷ 67 ∷ []) refl

-- 511 characters wait.
abbrev all_wait : Cons
all_wait = record { buf = λ i. 65; rpos = 0; wpos = 511 }

abbrev many : ℕ → List ℕ
many n = replicate n 65

length-many : (n : ℕ) → length (many n) ≡ n
length-many zero = refl
length-many (suc n) = let r = length-many n in omega arith

nth-many : (n i : ℕ) → i < n → nth (many n) i ≡ 65
nth-many zero i h = omega arith
nth-many (suc n) zero h = refl
nth-many (suc n) (suc i) h = nth-many n i (omega arith)

all_wait-IsQueue : IsQueue all_wait (many 511)
all_wait-IsQueue =
    let n = length-many 511 in
    record {
      in_buffer = omega arith;
      fits = omega arith;
      next_free = ground arith;
      held = λ i h. sym (nth-many 511 i (omega arith));
    }

-- The cursor stands in the last row.
abbrev last_row : Screen
last_row = record { addr_6845 = 0x3d4; crt_buf = λ i. i; crt_pos = 1999; ports = [] }

cons_putc_lem_example : IsWithin crt_size last_row (cons_putc 65 last_row)
cons_putc_lem_example = cons_putc_lem 65 last_row (omega arith)

-- "ab", a backspace, "c" and Enter.
readline_lem_example :
    (end : Line) × (readline (97 ∷ 98 ∷ 8 ∷ 99 ∷ 10 ∷ []) (λ j. 1) ≡ some end)
    × IsText end (99 ∷ 97 ∷ [])
    × (end.buf 2 ≡ 0)
readline_lem_example = readline_lem (97 ∷ 98 ∷ 8 ∷ 99 ∷ []) [] 10 (λ j. 1) refl refl
