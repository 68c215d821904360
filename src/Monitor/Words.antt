-- ===== src/Monitor/Words.antt =====
-- Text in memory, the words of a line, and the loops of `runcmd` in monitor.c that pass over a line.
use at_jos.Base.{
  ℕ, zero, suc, ◌+◌, ◌≤◌, ◌<◌, ◌≡◌, refl, ◌≢◌, true, false, some, List, [], ◌∷◌, ◌==◌,
  if◌then◌else◌, arith, ap, ◌∙◌, sym, Bool-cases, inl, inr, length,
}
use at_jos.CString.{Bytes, poke}
use at_jos.CString.Compare.{Text}
use at_jos.Monitor.{is_white, gobble, scan_past}

abbrev pub add_word : List ℕ × List (List ℕ) → List (List ℕ)
add_word ([], ws) = ws
add_word (c ∷ w, ws) = (c ∷ w) ∷ ws

abbrev pub add_char : ℕ → List ℕ × List (List ℕ) → List ℕ × List (List ℕ)
add_char c (w, ws) = if is_white c then ([], add_word (w, ws)) else (c ∷ w, ws)

-- The characters before the first white space, and the words after them.
abbrev pub pieces : List ℕ → List ℕ × List (List ℕ)
pieces [] = ([], [])
pieces (c ∷ cs) = add_char c (pieces cs)

-- The words of a line, in order.
abbrev pub words : List ℕ → List (List ℕ)
words cs = add_word (pieces cs)

-- The characters stand at `p`, none of them NUL.
abbrev pub Prefix : Bytes → ℕ → List ℕ → Type 0
Prefix m p [] = Unit {0}
Prefix m p (c ∷ cs) = (m p ≡ c) × (c ≢ 0) × Prefix m (p + 1) cs

pub Text-same :
    (m m' : Bytes) (p : ℕ) (cs : List ℕ)
    → ((a : ℕ) → p ≤ a → m' a ≡ m a)
    → Text m p cs
    → Text m' p cs
Text-same m m' p [] same is = same p (omega arith) ∙ is
Text-same m m' p (c ∷ cs) same (e, ne, is) =
    (same p (omega arith) ∙ e, ne, Text-same m m' (p + 1) cs (λ a le. same a (omega arith)) is)

pub Prefix-Text :
    (m m' : Bytes) (p : ℕ) (w : List ℕ)
    → ((a : ℕ) → a < p + length w → m' a ≡ m a)
    → m' (p + length w) ≡ 0
    → Prefix m p w
    → Text m' p w
Prefix-Text m m' p [] same end is = ap m' (omega arith) ∙ end
Prefix-Text m m' p (c ∷ w) same end (e, ne, is) = (
  same p (omega arith) ∙ e,
  ne,
  Prefix-Text m m' (p + 1) w (λ a lt. same a (omega arith)) (ap m' (omega arith) ∙ end) is,
)

-- A line that starts with no white space, and one that is at its end or starts with white space.
abbrev pub Starts : List ℕ → Type 0
Starts [] = Unit {0}
Starts (c ∷ cs) = is_white c ≡ false

abbrev pub Stops : List ℕ → Type 0
Stops [] = Unit {0}
Stops (c ∷ cs) = is_white c ≡ true

-- What `gobble` leaves of the line `cs` at `buf`: the line `cs'` at `buf'`.
pub record IsGobbled (buf : ℕ) (cs : List ℕ) (m : Bytes) (buf' : ℕ) (cs' : List ℕ) (m' : Bytes)
    : Type 0 where
  pub text : Text m' buf' cs'
  pub same_words : words cs' ≡ words cs
  pub starts : Starts cs'
  pub below : (a : ℕ) → a < buf → m' a ≡ m a
  pub shorter : length cs' ≤ length cs
  pub on : buf ≤ buf'
  pub cleared : Stops cs → m' buf ≡ 0

words-white : (c : ℕ) (cs : List ℕ) → is_white c ≡ true → words (c ∷ cs) ≡ words cs
words-white c cs e = rw e refl

pub poke-here : (a v : ℕ) (m : Bytes) → poke a v m a ≡ v
poke-here a v m = ground arith

pub poke-other : (a v : ℕ) (m : Bytes) (b : ℕ) → a ≢ b → poke a v m b ≡ m b
poke-other a v m b ne = ground arith

gobble-white :
    (fuel buf : ℕ) (m : Bytes)
    → m buf ≢ 0
    → is_white (m buf) ≡ true
    → gobble (suc fuel) buf m ≡ gobble fuel (buf + 1) (poke buf 0 m)
unfolding gobble
gobble-white fuel buf m ne e = let z : (m buf == 0) ≡ false = ground arith in rw (z, e) refl

gobble-stop :
    (fuel buf : ℕ) (m : Bytes) → is_white (m buf) ≡ false → gobble (suc fuel) buf m ≡ some (buf, m)
unfolding gobble
gobble-stop fuel buf m e = elim (Bool-cases (m buf == 0)) [
  | inl z ↦ rw z refl
  | inr z ↦ rw (z, e) refl
]

pub gobble_lem :
    (fuel buf : ℕ) (cs : List ℕ) (m : Bytes)
    → Text m buf cs
    → length cs < fuel
    → (buf' : ℕ) × (cs' : List ℕ) × (m' : Bytes) × (gobble fuel buf m ≡ some (buf', m'))
      × IsGobbled buf cs m buf' cs' m'
gobble_lem zero buf cs m is enough = absurd (omega arith)
gobble_lem (suc fuel) buf [] m is enough = (
  buf,
  [],
  m,
  gobble-stop fuel buf m (rw is refl),
  record {
    text = is;
    same_words = refl;
    starts = tt;
    below = λ a lt. refl;
    shorter = omega arith;
    on = omega arith;
    cleared = λ s. is;
  },
)
gobble_lem (suc fuel) buf (c ∷ cs) m (e, ne, is) enough = elim (Bool-cases (is_white c)) [
  | inr word ↦ (
    buf,
    c ∷ cs,
    m,
    gobble-stop fuel buf m (rw e word),
    record {
      text = (e, ne, is);
      same_words = refl;
      starts = word;
      below = λ a lt. refl;
      shorter = omega arith;
      on = omega arith;
      cleared = λ s. absurd (ground arith);
    },
  )
  | inl white ↦
      let m1 = poke buf 0 m in
      let is1 = Text-same m m1 (buf + 1) cs (λ a le. poke-other buf 0 m a (omega arith)) is in
      let (buf', cs', m', f, g) = gobble_lem fuel (buf + 1) cs m1 is1 (omega arith) in
      let past = g.on in
      let fewer = g.shorter in
      (
        buf',
        cs',
        m',
        gobble-white fuel buf m (rw e ne) (rw e white) ∙ f,
        record {
          text = g.text;
          same_words = g.same_words ∙ sym (words-white c cs white);
          starts = g.starts;
          below = λ a lt. g.below a (omega arith) ∙ poke-other buf 0 m a (omega arith);
          shorter = omega arith;
          on = omega arith;
          cleared = λ s. g.below buf (omega arith) ∙ poke-here buf 0 m;
        },
      )
]

pub Text-at : (m : Bytes) (p q : ℕ) (cs : List ℕ) → p ≡ q → Text m p cs → Text m q cs
Text-at m p q cs e is = rw e at is

-- What `scan_past` passes over of the line `cs` at `buf`: a word `w`, and then the line `cs'`.
pub record IsScanned (buf : ℕ) (cs : List ℕ) (m : Bytes) (w cs' : List ℕ) : Type 0 where
  pub word : Prefix m buf w
  pub rest : Text m (buf + length w) cs'
  pub stops : Stops cs'
  pub same_pieces : pieces cs ≡ (w, words cs')
  pub shorter : length w + length cs' ≤ length cs

scan_past-word :
    (fuel buf : ℕ) (m : Bytes)
    → m buf ≢ 0
    → is_white (m buf) ≡ false
    → scan_past (suc fuel) buf m ≡ scan_past fuel (buf + 1) m
unfolding scan_past
scan_past-word fuel buf m ne e = let z : (m buf == 0) ≡ false = ground arith in rw (z, e) refl

scan_past-stop :
    (fuel buf : ℕ) (m : Bytes) → is_white (m buf) ≡ true → scan_past (suc fuel) buf m ≡ some buf
unfolding scan_past
scan_past-stop fuel buf m e = elim (Bool-cases (m buf == 0)) [
  | inl z ↦ rw z refl
  | inr z ↦ rw (z, e) refl
]

pub scan_past_lem :
    (fuel buf : ℕ) (cs : List ℕ) (m : Bytes)
    → Text m buf cs
    → length cs < fuel
    → (w cs' : List ℕ) × (scan_past fuel buf m ≡ some (buf + length w)) × IsScanned buf cs m w cs'
unfolding scan_past
scan_past_lem zero buf cs m is enough = absurd (omega arith)
scan_past_lem (suc fuel) buf [] m is enough = (
  [],
  [],
  rw is (ap some (omega arith)),
  record {
    word = tt;
    rest = ap m (omega arith) ∙ is;
    stops = tt;
    same_pieces = refl;
    shorter = omega arith;
  },
)
scan_past_lem (suc fuel) buf (c ∷ cs) m (e, ne, is) enough = elim (Bool-cases (is_white c)) [
  | inl white ↦ (
    [],
    c ∷ cs,
    scan_past-stop fuel buf m (rw e white) ∙ ap some (omega arith),
    record {
      word = tt;
      rest = Text-at m buf _ (c ∷ cs) (omega arith) (e, ne, is);
      stops = white;
      same_pieces = rw white refl;
      shorter = omega arith;
    },
  )
  | inr word ↦
      let (w, cs', f, g) = scan_past_lem fuel (buf + 1) cs m is (omega arith) in
      let fewer = g.shorter in
      (
        c ∷ w,
        cs',
        scan_past-word fuel buf m (rw e ne) (rw e word) ∙ f ∙ ap some (omega arith),
        record {
          word = (e, ne, g.word);
          rest = Text-at m (buf + 1 + length w) _ cs' (omega arith) g.rest;
          stops = g.stops;
          same_pieces = ap (add_char c) g.same_pieces ∙ rw word refl;
          shorter = omega arith;
        },
      )
]
