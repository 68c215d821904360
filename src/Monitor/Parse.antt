-- ===== src/Monitor/Parse.antt =====
-- How `runcmd` of monitor.c splits a command line.
use at_jos.Base.{
  ℕ, zero, suc, ◌+◌, ◌≤◌, ◌<◌, ◌≡◌, refl, ◌≢◌, false, Option, some, List, [], ◌∷◌, ◌==◌, arith, ap,
  ◌∙◌, sym, Bool-cases, inl, inr, ◌⊎◌, length, ◌++◌, length-append,
}
use at_jos.CString.{Bytes}
use at_jos.CString.Compare.{Text}
use mathlib.Core.List.{append_assoc, append-nil}
use at_jos.Monitor.{is_white, gobble, scan_past, Line, arguments, too_many, parse_next, parse}
use at_jos.Monitor.Words.{
  pieces, words, add_word, Prefix-Text, Starts, Stops, gobble_lem, scan_past_lem,
}

-- Each pointer is at one of the words, in order, with a NUL after it.
abbrev pub Point : Bytes → List ℕ → List (List ℕ) → Type 0
Point m [] [] = Unit {0}
Point m (p ∷ ps) (w ∷ ws) = Text m p w × Point m ps ws
Point m [] (w ∷ ws) = ⊥
Point m (p ∷ ps) [] = ⊥

-- What the rounds make of the words `ws` that are left from `buf` on, if `argv` came before them.
abbrev pub IsParsed : List ℕ → List (List ℕ) → ℕ → Bytes → Type 0 → Option Line → Type 0
IsParsed argv ws buf m Clears result =
    ((ps : List ℕ) × (m' : Bytes) × (result ≡ some (arguments (argv ++ ps) m'))
      × (length argv + length ws ≤ 15)
      × Point m' ps ws
      × ((a : ℕ) → a < buf → m' a ≡ m a)
      × (Clears → m' buf ≡ 0))
    ⊎ ((m' : Bytes) × (result ≡ some (too_many m')) × (15 < length argv + length ws))

words-scanned :
    (c : ℕ) (cs w : List ℕ) (ws : List (List ℕ))
    → is_white c ≡ false
    → pieces (c ∷ cs) ≡ (w, ws)
    → (words (c ∷ cs) ≡ w ∷ ws) × (0 < length w)
words-scanned c cs [] ws word e =
    let z : (pieces (c ∷ cs)).0 ≡ c ∷ (pieces cs).0 = rw word refl in
    absurd (ground (arith, z, ap (λ t. t.0) e))
words-scanned c cs (x ∷ w) ws word e = (ap add_word e, omega arith)

parse_next-word :
    (chars : ℕ) (rest : ℕ → Option Line) (argv : List ℕ) (arg next : ℕ) (m : Bytes)
    → m arg ≢ 0
    → length argv < 15
    → scan_past chars arg m ≡ some next
    → parse_next chars rest argv arg m ≡ rest next
parse_next-word chars rest argv arg next m ne few e =
    let z : (m arg == 0) ≡ false = ground arith in
    let f : (length argv == 15) ≡ false = ground arith in rw (z, f, e) refl

parse_next-full :
    (chars : ℕ) (rest : ℕ → Option Line) (argv : List ℕ) (arg : ℕ) (m : Bytes)
    → m arg ≢ 0
    → length argv ≡ 15
    → parse_next chars rest argv arg m ≡ some (too_many m)
parse_next-full chars rest argv arg m ne full =
    let z : (m arg == 0) ≡ false = ground arith in rw (z, full) refl

module _ (chars : ℕ) where
  -- The lemma for the rounds to come.
  Later : ℕ → Type 0
  Later fuel =
      (argv : List ℕ) (buf : ℕ) (cs : List ℕ) (m : Bytes)
      → Text m buf cs
      → length cs < chars
      → length cs < fuel
      → length argv ≤ 15
      → IsParsed argv (words cs) buf m (Stops cs) (parse chars fuel argv buf m)

  parse_next_lem :
      (fuel : ℕ) (argv : List ℕ) (arg : ℕ) (cs : List ℕ) (m : Bytes)
      → Later fuel
      → Text m arg cs
      → Starts cs
      → length cs < chars
      → length cs < suc fuel
      → length argv ≤ 15
      → IsParsed argv
          (words cs)
          arg
          m
          (m arg ≡ 0)
          (parse_next chars (λ next. parse chars fuel (argv ++ arg ∷ []) next m) argv arg m)
  unfolding Later
  parse_next_lem fuel argv arg [] m later is starts more enough few = inl (
    [],
    m,
    rw is (ap some (ap (λ t. arguments t m) (sym (append-nil argv)))),
    omega arith,
    tt,
    λ a lt. refl,
    λ z. z,
  )
  parse_next_lem fuel argv arg (c ∷ cs) m later (e, ne, is) word more enough few =
      let (w, cs', f, g) = scan_past_lem chars arg (c ∷ cs) m (e, ne, is) more in
      let (split, some_char) = words-scanned c cs w (words cs') word g.same_pieces in
      let longer : length (argv ++ arg ∷ []) ≡ length argv + 1 = length-append argv (arg ∷ []) in
      let count : length (words (c ∷ cs)) ≡ suc (length (words cs')) = ap length split in
      let fewer = g.shorter in
      let ne' : m arg ≢ 0 = rw e ne in
      elim (Bool-cases (length argv == 15)) [
        | inl full ↦ inr (m, parse_next-full chars _ argv arg m ne' (ground arith), ground arith)
        | inr room ↦
            let few' : length argv < 15 = ground arith in
            let step =
              parse_next-word chars (λ next. parse chars fuel (argv ++ arg ∷ []) next m) argv arg
                (arg + length w) m ne' few' f in
            elim (later (argv ++ arg ∷ []) (arg + length w) cs' m g.rest (omega arith) (omega arith)
              (omega arith)) [
                | inl (ps, m', h, n, points, below, clears) ↦ inl (
                  arg ∷ ps,
                  m',
                  step ∙ h ∙ ap (λ t. some (arguments t m')) (append_assoc argv (arg ∷ []) ps),
                  omega arith,
                  rw split (Prefix-Text m m' arg w below (clears g.stops) g.word, points),
                  λ a lt. below a (omega arith),
                  λ z. absurd (ne' z),
                )
                | inr (m', h, many) ↦ inr (m', step ∙ h, omega arith)
              ]
      ]

  parse-round :
      (fuel : ℕ) (argv : List ℕ) (buf arg : ℕ) (m m1 : Bytes)
      → gobble chars buf m ≡ some (arg, m1)
      → parse chars (suc fuel) argv buf m
        ≡ parse_next chars (λ next. parse chars fuel (argv ++ arg ∷ []) next m1) argv arg m1
  unfolding parse
  parse-round fuel argv buf arg m m1 e = rw e refl

  parse-words : (fuel : ℕ) → Later fuel
  unfolding Later
  parse-words zero argv buf cs m is more enough few = absurd (omega arith)
  parse-words (suc fuel) argv buf cs m is more enough few =
      let (arg, cs1, m1, e, g) = gobble_lem chars buf cs m is more in
      let fewer = g.shorter in
      let round = parse-round fuel argv buf arg m m1 e in
      let past = g.on in
      let same : length (words cs1) ≡ length (words cs) = ap length g.same_words in
      elim (parse_next_lem fuel argv arg cs1 m1 (parse-words fuel) g.text g.starts (omega arith)
        (omega arith) few) [
          | inl (ps, m', h, n, points, below, clears) ↦ inl (
            ps,
            m',
            round ∙ h,
            omega arith,
            rw g.same_words at points,
            λ a lt. below a (omega arith) ∙ g.below a lt,
            λ s. elim (Bool-cases (buf == arg)) [
              | inl here ↦
                  let at : buf ≡ arg = ground arith in
                  ap m' at ∙ clears (sym (ap m1 at) ∙ g.cleared s)
              | inr moved ↦ below buf (ground arith) ∙ g.cleared s
            ],
          )
          | inr (m', h, many) ↦ inr (m', round ∙ h, omega arith)
        ]

-- `runcmd` splits the text at `buf` into its words, if there are at most 15: the arguments point, in order,
-- at the words, each of which has a NUL after it. If there are more, it refuses the line.
pub parse_lem :
    (fuel buf : ℕ) (cs : List ℕ) (m : Bytes)
    → Text m buf cs
    → length cs < fuel
    → ((argv : List ℕ) × (m' : Bytes) × (parse fuel fuel [] buf m ≡ some (arguments argv m'))
        × (length (words cs) ≤ 15)
        × Point m' argv (words cs)
        × ((a : ℕ) → a < buf → m' a ≡ m a))
      ⊎ ((m' : Bytes) × (parse fuel fuel [] buf m ≡ some (too_many m')) × (15 < length (words cs)))
unfolding Later
parse_lem fuel buf cs m is enough =
    elim (parse-words fuel fuel [] buf cs m is enough enough (omega arith)) [
      | inl (argv, m', e, few, points, below, clears) ↦
          inl (argv, m', e, omega arith, points, below)
      | inr (m', e, many) ↦ inr (m', e, omega arith)
    ]
