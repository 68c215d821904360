-- ===== src/Monitor/Command.antt =====
-- The command that `runcmd` of monitor.c calls.
use at_jos.Base.{
  ℕ, zero, suc, ◌+◌, ◌≤◌, ◌<◌, ◌≡◌, refl, ◌≢◌, Option, some, List, [], ◌∷◌, arith, ap, ◌∙◌, inl,
  inr, ◌⊎◌, length,
}
use at_jos.CString.{Bytes}
use at_jos.CString.Compare.{Text, strcmp_lem}
use at_jos.Monitor.{
  arguments, too_many, Ran, nothing, refused, called, unknown, find_command, run_line, runcmd,
}
use at_jos.Monitor.Words.{words}
use at_jos.Monitor.Parse.{Point, parse_lem}

-- The pointers are at the names, each name and its NUL stand before `buf`, and it is shorter than the
-- fuel.
abbrev pub Named : Bytes → ℕ → ℕ → List ℕ → List (List ℕ) → Type 0
Named m fuel buf [] [] = Unit {0}
Named m fuel buf (p ∷ ps) (w ∷ ws) =
    Text m p w × (p + length w < buf) × (length w < fuel) × Named m fuel buf ps ws
Named m fuel buf [] (w ∷ ws) = ⊥
Named m fuel buf (p ∷ ps) [] = ⊥

-- The command with the index `k` is the first of the name `w`.
abbrev pub IsFirst : List ℕ → List (List ℕ) → ℕ → Type 0
IsFirst w [] k = ⊥
IsFirst w (v ∷ names) zero = w ≡ v
IsFirst w (v ∷ names) (suc k) = (w ≢ v) × IsFirst w names k

abbrev pub IsMissing : List ℕ → List (List ℕ) → Type 0
IsMissing w [] = Unit {0}
IsMissing w (v ∷ names) = (w ≢ v) × IsMissing w names

Text-before :
    (m m' : Bytes) (buf p : ℕ) (w : List ℕ)
    → ((a : ℕ) → a < buf → m' a ≡ m a)
    → p + length w < buf
    → Text m p w
    → Text m' p w
Text-before m m' buf p [] same lt is = same p (omega arith) ∙ is
Text-before m m' buf p (c ∷ w) same lt (e, ne, is) =
    (same p (omega arith) ∙ e, ne, Text-before m m' buf (p + 1) w same (omega arith) is)

pub Named-same :
    (m m' : Bytes) (fuel buf : ℕ) (ps : List ℕ) (ws : List (List ℕ))
    → ((a : ℕ) → a < buf → m' a ≡ m a)
    → Named m fuel buf ps ws
    → Named m' fuel buf ps ws
Named-same m m' fuel buf [] [] same is = tt
Named-same m m' fuel buf (p ∷ ps) (w ∷ ws) same (is, lt, short, rest) =
    (Text-before m m' buf p w same lt is, lt, short, Named-same m m' fuel buf ps ws same rest)
Named-same m m' fuel buf [] (w ∷ ws) same is = elim is [ ]
Named-same m m' fuel buf (p ∷ ps) [] same is = elim is [ ]

find_command_lem :
    (fuel buf i p : ℕ) (w commands argv : List ℕ) (names : List (List ℕ)) (m : Bytes)
    → Text m p w
    → Named m fuel buf commands names
    → ((k : ℕ) × (find_command fuel i commands p argv m ≡ some (called (i + k) argv m))
        × IsFirst w names k)
      ⊎ ((find_command fuel i commands p argv m ≡ some (unknown p)) × IsMissing w names)
unfolding find_command
find_command_lem fuel buf i p w [] argv [] m is named = inr (refl, tt)
find_command_lem fuel buf i p w [] argv (v ∷ names) m is named = elim named [ ]
find_command_lem fuel buf i p w (c ∷ commands) argv [] m is named = elim named [ ]
find_command_lem fuel buf i p w (c ∷ commands) argv (v ∷ names) m is (at, lt, short, named) =
    let (d, e, out) = strcmp_lem fuel p c w v m is at short in
    elim out [
      | inl (z, same) ↦ inl (0, rw (e, z) (ap (λ n. some (called n argv m)) (omega arith)), same)
      | inr (z, differ) ↦
          elim (find_command_lem fuel buf (i + 1) p w commands argv names m is named) [
            | inl (k, f, first) ↦ inl (
              suc k,
              rw (e, z) (f ∙ ap (λ n. some (called n argv m)) (omega arith)),
              (differ, first),
            )
            | inr (f, missing) ↦ inr (rw (e, z) f, (differ, missing))
          ]
    ]

-- What `runcmd` makes of the words of a line.
abbrev pub IsRun : List (List ℕ) → List (List ℕ) → Option Ran → Type 0
IsRun names [] result = result ≡ some nothing
IsRun names (w ∷ ws) result =
    ((result ≡ some refused) × (15 ≤ length ws))
    ⊎ ((length ws < 15)
        × (((k : ℕ) × (argv : List ℕ) × (m : Bytes) × (result ≡ some (called k argv m))
              × IsFirst w names k
              × Point m argv (w ∷ ws))
            ⊎ ((p : ℕ) × (result ≡ some (unknown p)) × IsMissing w names)))

run_line_lem :
    (fuel buf : ℕ) (commands argv : List ℕ) (names ws : List (List ℕ)) (m : Bytes)
    → Named m fuel buf commands names
    → Point m argv ws
    → length ws ≤ 15
    → IsRun names ws (run_line fuel commands (some (arguments argv m)))
run_line_lem fuel buf commands [] names [] m named point few = refl
run_line_lem fuel buf commands [] names (w ∷ ws) m named point few = elim point [ ]
run_line_lem fuel buf commands (p ∷ argv) names [] m named point few = elim point [ ]
run_line_lem fuel buf commands (p ∷ argv) names (w ∷ ws) m named (is, point) few = inr (
  omega arith,
  elim (find_command_lem fuel buf 0 p w commands (p ∷ argv) names m is named) [
    | inl (k, e, first) ↦ inl (
      k,
      p ∷ argv,
      m,
      e ∙ ap (λ n. some (called n (p ∷ argv) m)) (omega arith),
      first,
      (is, point),
    )
    | inr (e, missing) ↦ inr (p, e, missing)
  ],
)

run_line-refused :
    (fuel : ℕ) (commands : List ℕ) (names ws : List (List ℕ)) (m : Bytes)
    → 15 < length ws
    → IsRun names ws (run_line fuel commands (some (too_many m)))
run_line-refused fuel commands names [] m many = absurd (omega arith)
run_line-refused fuel commands names (w ∷ ws) m many = inl (refl, omega arith)

-- On a line of text `runcmd` ends, with more fuel than the line and each name of a command have
-- characters. It does nothing if the line has no word, and refuses it if it has more than 15. Else it
-- calls the first command whose name is the first word, with arguments that point at the words of the line
-- in order, or reports an unknown command if there is none. The names of the commands stand in memory
-- before the line.
pub runcmd_lem :
    (fuel buf : ℕ) (commands cs : List ℕ) (names : List (List ℕ)) (m : Bytes)
    → Text m buf cs
    → Named m fuel buf commands names
    → length cs < fuel
    → IsRun names (words cs) (runcmd fuel commands buf m)
unfolding runcmd
runcmd_lem fuel buf commands cs names m is named enough = elim (parse_lem fuel buf cs m is enough) [
  | inl (argv, m', e, few, point, below) ↦ rw e (
      run_line_lem fuel buf commands argv names (words cs) m'
        (Named-same m m' fuel buf commands names below named) point few)
  | inr (m', e, many) ↦ rw e (run_line-refused fuel commands names (words cs) m' many)
]
