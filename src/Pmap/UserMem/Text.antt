-- ===== src/Pmap/UserMem/Text.antt =====
-- Text in the memory of a program, as `%.*s` of lib/printfmt.c reads it.
use at_jos.Base.{
  ℕ, zero, suc, ◌+◌, ◌/◌, ◌%◌, ◌^◌, ◌≤◌, ◌<◌, ◌≡◌, refl, ◌≢◌, Bool, true, false, Option, none, some,
  List, [], ◌∷◌, ◌==◌, ltb, if◌then◌else◌, arith, Bool-cases, inl, inr, ◌⊎◌, length, take,
}
use at_jos.Pmap.Addr.{
  pte_p, pte_addr, page_size, pgnum, has_flag, word_mod, round_down, pdx, ptx, pte_u,
}
use at_jos.Pmap.State.{Memory}
use at_jos.Pmap.Table.Space.{entry}
use at_jos.Pmap.UserMem.Range.{may_access}
use at_jos.CString.{byte_of}

-- What the processor reads at a mapped address. On others it faults.
unfoldable pub user_byte : Memory → ℕ → ℕ → Option ℕ
user_byte m pgdir a =
    let e = entry m pgdir a in
    if has_flag e pte_p
    then some (byte_of (m.words (pgnum (pte_addr e)) (a % page_size / 4)) (a % 4))
    else none

abbrev null_text : List ℕ
null_text = b'(' ∷ b'n' ∷ b'u' ∷ b'l' ∷ b'l' ∷ b')' ∷ []

abbrev prefixed : ℕ → Option (List ℕ) → Option (List ℕ)
prefixed b (some bs) = some (b ∷ bs)
prefixed b none = none

-- The characters up to a 0, and up to `n` of them if the precision is not negative. The byte behind them is
-- read too. Without a limit, a text that goes once around the address space has no end.
unfoldable pub read_text : Memory → ℕ → Bool → ℕ → ℕ → Option (List ℕ)
read_text m pgdir limited zero a = elim (user_byte m pgdir a) [
  | none ↦ none
  | some _ ↦ if limited then some [] else none
]
read_text m pgdir limited (suc n) a = elim (user_byte m pgdir a) [
  | none ↦ none
  | some b ↦ elim (b == 0) [
    | true ↦ some []
    | false ↦ prefixed b (read_text m pgdir limited n ((a + 1) % word_mod))
  ]
]

-- What `cprintf("%.*s", len, s)` prints; a `len` of 2 ^ 31 or more is a negative precision.
unfoldable pub cprintf_text : Memory → ℕ → ℕ → ℕ → Option (List ℕ)
cprintf_text m pgdir s len =
    if s == 0
    then some (take len null_text)
    else if ltb len (2 ^ 31)
    then read_text m pgdir true len s
    else read_text m pgdir false word_mod s

-- From `a` on stand the bytes given, none of them 0.
abbrev pub Holds : Memory → ℕ → ℕ → List ℕ → Type 0
Holds m pgdir a [] = Unit {0}
Holds m pgdir a (b ∷ bs) = (user_byte m pgdir a ≡ some b) × (b ≢ 0) × Holds m pgdir (a + 1) bs

-- The bytes given are the text: there are `n` of them, or a 0 follows.
abbrev pub IsText : Memory → ℕ → ℕ → ℕ → List ℕ → Type 0
IsText m pgdir n a bs =
    Holds m pgdir a bs
    × ((length bs ≡ n) ⊎ ((length bs < n) × (user_byte m pgdir (a + length bs) ≡ some 0)))

entry-round_down :
    (m : Memory) (pgdir a : ℕ) → entry m pgdir (round_down a page_size) ≡ entry m pgdir a
unfolding round_down pdx ptx
entry-round_down m pgdir a =
    let same_slot : pdx (round_down a page_size) ≡ pdx a = omega arith in
    let same_index : ptx (round_down a page_size) ≡ ptx a = omega arith in
    rw (same_slot, same_index)

pub user_byte-accessible :
    (m : Memory) (pgdir a : ℕ)
    → may_access m pgdir pte_u (round_down a page_size) ≡ true
    → (b : ℕ) × (user_byte m pgdir a ≡ some b)
unfolding user_byte
user_byte-accessible m pgdir a h =
    let h' = rw (entry-round_down m pgdir a) at h in
    let here : has_flag (entry m pgdir a) pte_p ≡ true = ground (arith, h') in
    (
      byte_of (m.words (pgnum (pte_addr (entry m pgdir a))) (a % page_size / 4)) (a % 4),
      ground (arith, here),
    )

module _ (m : Memory) (pgdir : ℕ) where
  longer :
      (n a : ℕ) (bs : List ℕ)
      → (length bs ≡ n) ⊎ ((length bs < n) × (user_byte m pgdir (a + 1 + length bs) ≡ some 0))
      → (suc (length bs) ≡ suc n)
        ⊎ ((suc (length bs) < suc n) × (user_byte m pgdir (a + suc (length bs)) ≡ some 0))
  longer n a bs (inl whole) = inl (omega arith)
  longer n a bs (inr (short, nul)) =
      let shift : a + 1 + length bs ≡ a + suc (length bs) = omega arith in
      inr (omega arith, rw shift at nul)

  -- If all bytes and the one behind them can be read, so can the text.
  pub read_text_lem :
      (n a : ℕ)
      → ((i : ℕ) → a ≤ i → i ≤ a + n → (b : ℕ) × (user_byte m pgdir i ≡ some b))
      → a + n < word_mod
      → (bs : List ℕ) × (read_text m pgdir true n a ≡ some bs) × IsText m pgdir n a bs
  unfolding read_text
  read_text_lem zero a all small =
      let (b, e) = all a (omega arith) (omega arith) in ([], ground (arith, e), (tt, inl refl))
  read_text_lem (suc n) a all small =
      let (b, e) = all a (omega arith) (omega arith) in
      elim (Bool-cases (b == 0)) [
        | inl is_nul ↦ ([], ground (arith, e, is_nul), (tt, inr (omega arith, ground (arith, e))))
        | inr other ↦
            let (bs, run, (held, end)) =
              read_text_lem n (a + 1) (λ i low high. all i (omega arith) (omega arith))
                (omega arith) in
            let next : (a + 1) % word_mod ≡ a + 1 = omega arith in
            (
              b ∷ bs,
              ground (arith, e, other, next, run),
              ((e, ground arith, held), longer n a bs end),
            )
      ]

  -- If the byte behind the text cannot be read, the processor faults.
  pub read_text-fault :
      (bs : List ℕ) (a : ℕ)
      → Holds m pgdir a bs
      → a + length bs < word_mod
      → user_byte m pgdir (a + length bs) ≡ none
      → read_text m pgdir true (length bs) a ≡ none
  unfolding read_text
  read_text-fault [] a held small gone = ground (arith, gone)
  read_text-fault (b ∷ bs) a (here, other, held) small gone =
      let next : (a + 1) % word_mod ≡ a + 1 = omega arith in
      let b_set : (b == 0) ≡ false = ground arith in
      let shift : a + suc (length bs) ≡ a + 1 + length bs = omega arith in
      let gone' = rw shift at gone in
      ground (arith, here, b_set, next, read_text-fault bs (a + 1) held (omega arith) gone')
