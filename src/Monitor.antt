-- ===== src/Monitor.antt =====
-- The kernel monitor's command line, `runcmd` of monitor.c. A command stands as the address of its
-- name; that the commands themselves print is left out.
pub mod Words
pub mod Parse
pub mod Command
pub mod Backtrace
pub mod Round
use at_jos.Base.{
  ℕ, zero, suc, ◌+◌, ◌-◌, Bool, not, ◌||◌, ◌&&◌, Option, none, some, List, [], ◌∷◌, ◌==◌,
  if◌then◌else◌, length, ◌++◌,
}
use at_jos.Base.Int.{ℤ}
use at_jos.CString.{Bytes, poke, strcmp}
use at_jos.CString.Compare.{is_zero}

abbrev pub max_args : ℕ
max_args = 16

-- `strchr(WHITESPACE, c)`, for `c` not NUL
abbrev pub is_white : ℕ → Bool
is_white c = c == 9 || c == 13 || c == 10 || c == 32

-- The rest of the buffer, and the memory; `none`: the fuel ran out.
unfoldable pub gobble : ℕ → ℕ → Bytes → Option (ℕ × Bytes)
gobble zero buf m = none
gobble (suc fuel) buf m =
    let rest = gobble fuel (buf + 1) (poke buf 0 m) in
    if not (m buf == 0) && is_white (m buf) then rest else some (buf, m)

unfoldable pub scan_past : ℕ → ℕ → Bytes → Option ℕ
scan_past zero buf m = none
scan_past (suc fuel) buf m =
    let rest = scan_past fuel (buf + 1) m in
    if not (m buf == 0) && not (is_white (m buf)) then rest else some buf

-- The arguments `argv`, whose number is `argc`.
pub data Line : Type 0 where
  arguments : List ℕ → Bytes → Line
  too_many : Bytes → Line

abbrev pub after_gobble : (ℕ → Bytes → Option Line) → Option (ℕ × Bytes) → Option Line
after_gobble next none = none
after_gobble next (some (buf, m)) = next buf m

abbrev pub after_scan : (ℕ → Option Line) → Option ℕ → Option Line
after_scan next none = none
after_scan next (some buf) = next buf

-- A round after the white space, with the rounds to come.
abbrev pub parse_next : ℕ → (ℕ → Option Line) → List ℕ → ℕ → Bytes → Option Line
parse_next chars rest argv buf m =
    if m buf == 0
    then some (arguments argv m)
    else if length argv == max_args - 1
    then some (too_many m)
    else after_scan rest (scan_past chars buf m)

-- The `while (1)` of `runcmd`; each loop in it has the fuel `chars`.
unfoldable pub parse : ℕ → ℕ → List ℕ → ℕ → Bytes → Option Line
parse chars zero argv buf m = none
parse chars (suc fuel) argv buf m =
    let rest = λ (arg : ℕ) (m1 : Bytes) (next : ℕ). parse chars fuel (argv ++ arg ∷ []) next m1 in
    after_gobble (λ arg m1. parse_next chars (rest arg m1) argv arg m1) (gobble chars buf m)

pub data Ran : Type 0 where
  nothing : Ran
  refused : Ran
  called : ℕ → List ℕ → Bytes → Ran
  unknown : ℕ → Ran

abbrev pub call_or : Ran → Option Ran → Option ℤ → Option Ran
call_or hit rest none = none
call_or hit rest (some d) = if is_zero d then some hit else rest

-- The loop over `commands`, from the one of index `i` on.
unfoldable pub find_command : ℕ → ℕ → List ℕ → ℕ → List ℕ → Bytes → Option Ran
find_command fuel i [] name argv m = some (unknown name)
find_command fuel i (c ∷ commands) name argv m =
    let rest = find_command fuel (i + 1) commands name argv m in
    call_or (called i argv m) rest (strcmp fuel m name c)

abbrev pub run_line : ℕ → List ℕ → Option Line → Option Ran
run_line fuel commands none = none
run_line fuel commands (some (too_many m)) = some refused
run_line fuel commands (some (arguments [] m)) = some nothing
run_line fuel commands (some (arguments (name ∷ argv) m)) =
    find_command fuel 0 commands name (name ∷ argv) m

unfoldable pub runcmd : ℕ → List ℕ → ℕ → Bytes → Option Ran
runcmd fuel commands buf m = run_line fuel commands (parse fuel fuel [] buf m)
