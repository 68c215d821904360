-- ===== src/Monitor/Round.antt =====
-- One round of the loop of `monitor` in monitor.c: `readline` of lib/readline.c, then `runcmd`. The line
-- buffer stands at the address `buf`.
use at_jos.Base.{
  ℕ, suc, ◌+◌, ◌-◌, ◌≤◌, ◌<◌, ◌≡◌, refl, ◌≢◌, true, false, ◌||◌, ◌&&◌, Option, none, some, List, [],
  ◌∷◌, ◌==◌, ltb, leb, if◌then◌else◌, arith, ap, ◌∙◌, Bool-cases, inl, inr, length, ◌++◌,
}
use at_jos.CString.{Bytes}
use at_jos.CString.Compare.{Text}
use at_jos.Console.Readline.{
  Line, buflen, readline, typed, typed_all, has_end, ends_line, Holds, readline_lem,
}
use at_jos.Monitor.{Ran, runcmd}
use at_jos.Monitor.Words.{words, Text-at}
use at_jos.Monitor.Command.{Named, Named-same, IsRun, runcmd_lem}

-- Memory with the line buffer in it.
abbrev pub with_line : ℕ → (ℕ → ℕ) → Bytes → Bytes
with_line buf line m a = if leb buf a && ltb a (buf + buflen) then line (a - buf) else m a

abbrev pub run_read : ℕ → List ℕ → ℕ → Bytes → Option Line → Option Ran
run_read fuel commands buf m none = none
run_read fuel commands buf m (some line) = runcmd fuel commands buf (with_line buf line.buf m)

-- The round on the characters that the console answers.
unfoldable pub monitor_round : ℕ → List ℕ → ℕ → List ℕ → Bytes → Option Ran
monitor_round fuel commands buf chars m =
    run_read fuel commands buf m (readline chars (λ i. m (buf + i)))

-- A stack of characters, from its bottom on.
abbrev pub unstack : List ℕ → List ℕ → List ℕ
unstack [] after = after
unstack (t ∷ ts) after = unstack ts (t ∷ after)

abbrev pub AllBytes : List ℕ → Type 0
AllBytes [] = Unit {0}
AllBytes (c ∷ cs) = (c < 256) × AllBytes cs

abbrev AllChars : List ℕ → Type 0
AllChars [] = Unit {0}
AllChars (c ∷ cs) = (c ≢ 0) × AllChars cs

typed-AllChars : (c : ℕ) (text : List ℕ) → c < 256 → AllChars text → AllChars (typed text c)
typed-AllChars c [] small all = elim (Bool-cases (leb 32 c)) [
  | inl key ↦ rw key (λ e. ground arith, tt)
  | inr low ↦ rw low tt
]
typed-AllChars c (t ∷ ts) small (ne, all) = elim (Bool-cases (c == 8 || c == 127)) [
  | inl erase ↦ rw erase all
  | inr other ↦ elim (Bool-cases (leb 32 c && ltb (suc (length ts)) (buflen - 1))) [
    | inl key ↦ rw (other, key) (λ e. ground arith, (ne, all))
    | inr low ↦ rw (other, low) (ne, all)
  ]
]

typed_all-AllChars : (cs text : List ℕ) → AllBytes cs → AllChars text → AllChars (typed_all cs text)
typed_all-AllChars [] text small all = all
typed_all-AllChars (c ∷ cs) text (h, small) all =
    typed_all-AllChars cs (typed text c) small (typed-AllChars c text h all)

length-unstack : (ts after : List ℕ) → length (unstack ts after) ≡ length ts + length after
length-unstack [] after = omega arith
length-unstack (t ∷ ts) after = let e = length-unstack ts (t ∷ after) in omega arith

with_line-in :
    (buf i : ℕ) (line : ℕ → ℕ) (m : Bytes) → i < 1024 → with_line buf line m (buf + i) ≡ line i
with_line-in buf i line m h =
    let lo : leb buf (buf + i) ≡ true = ground arith in
    let hi : ltb (buf + i) (buf + buflen) ≡ true = ground arith in
    rw (lo, hi) (ap line (omega arith))

with_line-below : (buf a : ℕ) (line : ℕ → ℕ) (m : Bytes) → a < buf → with_line buf line m a ≡ m a
with_line-below buf a line m h = let lo : leb buf a ≡ false = ground arith in rw lo refl

-- A stack in the line buffer is text in memory.
Holds-Text :
    (buf : ℕ) (line : ℕ → ℕ) (m : Bytes) (ts after : List ℕ)
    → Holds line ts
    → AllChars ts
    → length ts < 1024
    → Text (with_line buf line m) (buf + length ts) after
    → Text (with_line buf line m) buf (unstack ts after)
Holds-Text buf line m [] after holds all small is =
    Text-at (with_line buf line m) (buf + 0) buf after (omega arith) is
Holds-Text buf line m (t ∷ ts) after (top, holds) (ne, all) small is =
    Holds-Text buf line m ts (t ∷ after) holds all (omega arith) (
      with_line-in buf (length ts) line m (omega arith) ∙ top,
      ne,
      Text-at (with_line buf line m) (buf + suc (length ts)) (buf + length ts + 1) after
          (omega arith) is,
    )

-- A round of the monitor on bytes typed ends at the first newline or carriage return, with fuel for the
-- 1024 characters of the buffer, which stands behind the names of the commands. The characters before it,
-- less those that were erased, are the line whose words `runcmd` takes: the round calls the command that the
-- first of them names, or does what `runcmd` does otherwise.
pub monitor_round_lem :
    (fuel buf c : ℕ) (commands cs more : List ℕ) (names : List (List ℕ)) (m : Bytes)
    → has_end cs ≡ false
    → ends_line c ≡ true
    → AllBytes cs
    → Named m fuel buf commands names
    → 1024 ≤ fuel
    → IsRun names
        (words (unstack (typed_all cs []) []))
        (monitor_round fuel commands buf (cs ++ c ∷ more) m)
unfolding monitor_round
monitor_round_lem fuel buf c commands cs more names m clear stop small named enough =
    let (line, e, is, nul) = readline_lem cs more c (λ i. m (buf + i)) clear stop in
    let text = typed_all cs [] in
    let room = is.room in
    let long = length-unstack text [] in
    let m' = with_line buf line.buf m in
    let held : Text m' buf (unstack text []) =
      Holds-Text buf line.buf m text [] is.holds (typed_all-AllChars cs [] small tt) (omega arith)
        (with_line-in buf (length text) line.buf m (omega arith) ∙ nul) in
    rw e (
      runcmd_lem fuel buf commands (unstack text []) names m' held
        (Named-same m m' fuel buf commands names (λ a h. with_line-below buf a line.buf m h) named)
        (omega arith))
