-- ===== src/Format/Buffer.antt =====
-- `snprintf` stays in its buffer and ends it with a NUL.
use at_jos.Base.{
  ℕ, zero, suc, ◌+◌, ◌-◌, ◌%◌, ◌<◌, ◌≡◌, ◌≢◌, true, false, ◌||◌, ◌&&◌, some, List, [], ◌∷◌, ◌==◌,
  ltb, leb, if◌then◌else◌, arith, ap, ◌∙◌, length,
}
use at_jos.Console.Queue.{nth}
use at_jos.Format.{Sprintbuf, sprintputch, put_all, vsnprintf}

-- What memory holds at `a` after the first `k` of the characters `out` were stored from `buf` on.
abbrev pub stored : ℕ → List ℕ → ℕ → (ℕ → ℕ) → ℕ → ℕ
stored buf out k m a = if leb buf a && ltb a (buf + k) then nth out (a - buf) % 256 else m a

-- The smaller of the output's length and the room.
abbrev pub fitting : List ℕ → ℕ → ℕ
fitting out room = if leb (length out) room then length out else room

put_all_lem :
    (out : List ℕ) (b : Sprintbuf) (room : ℕ) (a : ℕ)
    → b.ebuf ≡ b.buf + room
    → ((put_all out b).cnt ≡ b.cnt + length out)
      × ((put_all out b).buf ≡ b.buf + fitting out room)
      × ((put_all out b).mem a ≡ stored b.buf out (fitting out room) b.mem a)
unfolding put_all sprintputch
put_all_lem [] b room a e = (omega arith, ground arith, ground arith)
put_all_lem (ch ∷ out) b zero a e =
    let full : ltb b.buf b.ebuf ≡ false = ground arith in
    let (c, p, m) = put_all_lem out (record b { cnt = b.cnt + 1 }) zero a e in
    rw (put_all, full) (ground arith, ground arith, ground arith)
put_all_lem (ch ∷ out) b (suc room) a e =
    let space : ltb b.buf b.ebuf ≡ true = ground arith in
    let (c, p, m) =
      put_all_lem out
        (record b {
          mem = λ a. if a == b.buf then ch % 256 else b.mem a;
          buf = b.buf + 1;
          cnt = b.cnt + 1;
        })
        room a (omega arith) in
    let first : a ≡ b.buf → nth (ch ∷ out) (a - b.buf) ≡ ch =
      λ h. ap (nth (ch ∷ out)) {y = 0} (omega arith) in
    let later : b.buf < a → nth (ch ∷ out) (a - b.buf) ≡ nth out (a - (b.buf + 1)) =
      λ h. ap (nth (ch ∷ out)) {y = suc (a - (b.buf + 1))} (omega arith) in
    rw (put_all, space) (ground arith, ground arith, m ∙ (ground arith))

-- For a buffer of `n ≥ 1` bytes that is not NULL, `vsnprintf` stores as many of the characters as fit
-- in `n - 1` bytes and a NUL behind them, writes nothing else, and answers the number of all the
-- characters.
pub vsnprintf_lem :
    (buf room : ℕ) (out : List ℕ) (m : ℕ → ℕ)
    → buf ≢ 0
    → let k = fitting out room in
      (m' : ℕ → ℕ) × (vsnprintf buf (suc room) out m ≡ some (length out, m'))
      × ((a : ℕ) → m' a ≡ (if a == buf + k then 0 else stored buf out k m a))
unfolding vsnprintf
vsnprintf_lem buf room out m real =
    let b : Sprintbuf = record { mem = m; buf = buf; ebuf = buf + suc room - 1; cnt = 0 } in
    let given : (buf == 0 || ltb (suc room) 1) ≡ false = ground arith in
    let ends = put_all_lem out b room 0 (omega arith) in
    let count : (put_all out b).cnt ≡ length out = let c = ends.0 in omega arith in
    let last = ends.1 in
    (
      (λ a. if a == (put_all out b).buf then 0 else (put_all out b).mem a),
      rw given (
          ap (λ c. some (c, λ a. if a == (put_all out b).buf then 0 else (put_all out b).mem a))
            count),
      λ a. let here = (put_all_lem out b room a (omega arith)).2 in ground arith,
    )
