-- ===== src/Console/Readline.antt =====
-- The line editor, lib/readline.c, on the characters that `getchar` answers, with `echoing` set, as
-- `iscons` answers. Each of them is at least 0, so the branch for a read error is not reached.
use at_jos.Base.{
  ℕ, suc, ◌+◌, ◌-◌, ◌%◌, ◌≤◌, ◌<◌, ◌≡◌, refl, Bool, true, false, ◌&&◌, ◌||◌, Option, none, some,
  List, [], ◌∷◌, ◌==◌, ltb, leb, if◌then◌else◌, arith, Bool-cases, inl, inr, length, ◌++◌,
}

-- BUFLEN
abbrev pub buflen : ℕ
buflen = 1024

-- The buffer, the index `i`, and the characters echoed, the latest first.
pub record Line : Type 0 where
  pub buf : ℕ → ℕ
  pub i : ℕ
  pub echoed : List ℕ

-- One round of the loop on a character that does not end the line.
unfoldable pub edit : ℕ → Line → Line
edit c line =
    if (c == 8 || c == 127) && ltb 0 line.i
    then record line { i = line.i - 1; echoed = 8 ∷ line.echoed }
    else if leb 32 c && ltb line.i (buflen - 1)
    then record {
      buf = λ j. if j == line.i then c % 256 else line.buf j;
      i = line.i + 1;
      echoed = c ∷ line.echoed;
    }
    else line

-- The loop: `none` while no newline or carriage return has come.
unfoldable pub read_chars : List ℕ → Line → Option Line
read_chars [] line = none
read_chars (c ∷ cs) line =
    let rest = read_chars cs (edit c line) in
    if c == 10 || c == 13
    then some (record line {
      buf = λ j. if j == line.i then 0 else line.buf j;
      echoed = 10 ∷ line.echoed;
    })
    else rest

unfoldable pub readline : List ℕ → (ℕ → ℕ) → Option Line
readline chars buf = read_chars chars (record { buf = buf; i = 0; echoed = [] })

-- The text as a stack of characters, the last one first.
abbrev pub typed : List ℕ → ℕ → List ℕ
typed text c = elim text [
  | [] ↦ if leb 32 c then c % 256 ∷ [] else []
  | t ∷ ts ↦
      if c == 8 || c == 127
      then ts
      else if leb 32 c && ltb (suc (length ts)) (buflen - 1)
      then c % 256 ∷ t ∷ ts
      else t ∷ ts
]

abbrev pub typed_all : List ℕ → List ℕ → List ℕ
typed_all [] text = text
typed_all (c ∷ cs) text = typed_all cs (typed text c)

-- Newline and carriage return end a line.
abbrev pub ends_line : ℕ → Bool
ends_line c = c == 10 || c == 13

abbrev pub has_end : List ℕ → Bool
has_end [] = false
has_end (c ∷ cs) = ends_line c || has_end cs

-- The stack stands in the buffer below `n`, its last character first.
abbrev pub Holds : (ℕ → ℕ) → List ℕ → Type 0
Holds buf [] = Unit {0}
Holds buf (t ∷ ts) = (buf (length ts) ≡ t) × Holds buf ts

Holds-above :
    (buf : ℕ → ℕ) (ts : List ℕ) (n v : ℕ)
    → length ts ≤ n
    → Holds buf ts
    → Holds (λ j. if j == n then v else buf j) ts
Holds-above buf [] n v h holds = tt
Holds-above buf (t ∷ ts) n v h (top, holds) =
    (ground arith, Holds-above buf ts n v (omega arith) holds)

-- What the buffer and the stack have in common.
pub record IsText (line : Line) (text : List ℕ) : Type 0 where
  pub count : line.i ≡ length text
  pub room : length text < buflen
  pub holds : Holds line.buf text

edit-IsText :
    (c : ℕ) (line : Line) (text : List ℕ) → IsText line text → IsText (edit c line) (typed text c)
unfolding edit
edit-IsText c line [] is =
    let n = is.count in
    let still : ((c == 8 || c == 127) && ltb 0 line.i) ≡ false = ground arith in
    elim (Bool-cases (leb 32 c)) [
      | inl key ↦
          let fits : (leb 32 c && ltb line.i (buflen - 1)) ≡ true = ground arith in
          rw (still, fits, key)
            (record { count = omega arith; room = omega arith; holds = (ground arith, tt) })
      | inr low ↦
          let skip : (leb 32 c && ltb line.i (buflen - 1)) ≡ false = ground arith in
          rw (still, skip, low) is
    ]
edit-IsText c line (t ∷ ts) is =
    let n = is.count in
    let full = is.room in
    let some_typed : ltb 0 line.i ≡ true = ground arith in
    let same : line.i ≡ suc (length ts) = n in
    elim (Bool-cases (c == 8 || c == 127)) [
      | inl erase ↦
          let goes : ((c == 8 || c == 127) && ltb 0 line.i) ≡ true = ground arith in
          rw (goes, erase) (record { count = omega arith; room = omega arith; holds = is.holds.1 })
      | inr other ↦
          let still : ((c == 8 || c == 127) && ltb 0 line.i) ≡ false = ground arith in
          elim (Bool-cases (leb 32 c && ltb line.i (buflen - 1))) [
            | inl key ↦
                let fits : (leb 32 c && ltb (suc (length ts)) (buflen - 1)) ≡ true = ground arith in
                let last : line.i ≡ suc (length ts) = n in
                rw (still, key, other, fits)
                  (record {
                    count = omega arith;
                    room = ground arith;
                    holds = (
                      ground arith,
                      Holds-above line.buf (t ∷ ts) line.i (c % 256) (omega arith) is.holds,
                    );
                  })
            | inr low ↦
                let skip : (leb 32 c && ltb (suc (length ts)) (buflen - 1)) ≡ false =
                  ground arith in
                rw (still, low, other, skip) is
          ]
    ]

read_chars-IsText :
    (cs more : List ℕ) (c : ℕ) (line : Line) (text : List ℕ)
    → IsText line text
    → has_end cs ≡ false
    → ends_line c ≡ true
    → (end : Line) × (read_chars (cs ++ c ∷ more) line ≡ some end)
      × IsText end (typed_all cs text)
      × (end.buf (length (typed_all cs text)) ≡ 0)
unfolding read_chars
read_chars-IsText [] more c line text is clear stop =
    let n = is.count in
    (
      record line { buf = λ j. if j == line.i then 0 else line.buf j; echoed = 10 ∷ line.echoed },
      rw stop refl,
      record {
        count = n;
        room = is.room;
        holds = Holds-above line.buf text line.i 0 (omega arith) is.holds;
      },
      ground arith,
    )
read_chars-IsText (d ∷ cs) more c line text is clear stop =
    let on : ends_line d ≡ false = ground arith in
    let rest : has_end cs ≡ false = ground arith in
    let (end, found, held, nul) =
      read_chars-IsText cs more c (edit d line) (typed text d) (edit-IsText d line text is) rest
        stop in
    (end, rw on found, held, nul)

-- At the first newline or carriage return `readline` ends. The buffer then holds the characters
-- typed before it, less those erased by a backspace or a delete, at most 1023 of them, and a NUL. A
-- delete at the start of the line is taken as a character.
pub readline_lem :
    (cs more : List ℕ) (c : ℕ) (buf : ℕ → ℕ)
    → has_end cs ≡ false
    → ends_line c ≡ true
    → (end : Line) × (readline (cs ++ c ∷ more) buf ≡ some end)
      × IsText end (typed_all cs [])
      × (end.buf (length (typed_all cs [])) ≡ 0)
unfolding readline
readline_lem cs more c buf clear stop =
    read_chars-IsText cs more c (record { buf = buf; i = 0; echoed = [] }) []
      (record { count = refl; room = omega arith; holds = tt }) clear stop
