-- ===== src/Console/Queue.antt =====
-- The input buffer is a queue of at most 511 characters; a 512th makes it look empty.
use at_jos.Base.{
  ℕ, zero, suc, ◌+◌, ◌-◌, ◌%◌, ◌<◌, ◌≡◌, refl, ◌≢◌, Bool, true, false, List, [], ◌∷◌, ◌==◌, ltb,
  if◌then◌else◌, arith, ap, ◌∙◌, Bool-cases, inl, inr, ◌⊎◌, length, ◌++◌, length-append,
}
use at_jos.Console.Input.{
  Cons, store_input, cons_intr, serial_intr, kbd_intr, next_input, cons_getc,
}

-- The entry `i` of a list, 0 past its end.
abbrev pub nth : List ℕ → ℕ → ℕ
nth [] i = 0
nth (x ∷ xs) zero = x
nth (x ∷ xs) (suc i) = nth xs i

-- The characters that the values of a device put in the buffer.
abbrev pub characters : List ℕ → List ℕ
characters [] = []
characters (c ∷ cs) = if c == 0 then characters cs else c % 256 ∷ characters cs

-- Where the character `i` places behind the next one to be read stands.
abbrev pub place : Cons → ℕ → ℕ
place cons i = if ltb (cons.rpos + i) 512 then cons.rpos + i else cons.rpos + i - 512

-- The buffer holds the queue `q`, the next character to be read first.
pub record IsQueue (cons : Cons) (q : List ℕ) : Type 0 where
  pub in_buffer : cons.rpos < 512
  pub fits : length q < 512
  pub next_free : cons.wpos ≡ place cons (length q)
  pub held : (i : ℕ) → i < length q → cons.buf (place cons i) ≡ nth q i

length-snoc : (q : List ℕ) (c : ℕ) → length (q ++ c ∷ []) ≡ length q + 1
length-snoc [] c = refl
length-snoc (x ∷ q) c = let rest = length-snoc q c in omega arith

nth-snoc : (q : List ℕ) (c i : ℕ) → i < length q → nth (q ++ c ∷ []) i ≡ nth q i
nth-snoc [] c i h = omega arith
nth-snoc (x ∷ q) c zero h = refl
nth-snoc (x ∷ q) c (suc i) h = nth-snoc q c i (omega arith)

nth-snoc_last : (q : List ℕ) (c : ℕ) → nth (q ++ c ∷ []) (length q) ≡ c
nth-snoc_last [] c = refl
nth-snoc_last (x ∷ q) c = nth-snoc_last q c

append_assoc : (q : List ℕ) (c : ℕ) (r : List ℕ) → (q ++ c ∷ []) ++ r ≡ q ++ c ∷ r
append_assoc [] c r = refl
append_assoc (x ∷ q) c r = ap (λ t. x ∷ t) (append_assoc q c r)

last_or_before : (i n : ℕ) → i < n + 1 → (i < n) ⊎ (i ≡ n)
last_or_before i n h = elim (Bool-cases (ltb i n)) [
  | inl y ↦ inl (ground arith)
  | inr z ↦ inr (ground arith)
]

append_nil : (q : List ℕ) → q ++ [] ≡ q
append_nil [] = refl
append_nil (x ∷ q) = ap (λ t. x ∷ t) (append_nil q)

store_input-zero : (c : ℕ) (cons : Cons) → (c == 0) ≡ true → store_input c cons ≡ cons
unfolding store_input
store_input-zero c cons z = rw z refl

store_input-IsQueue :
    (c : ℕ) (cons : Cons) (q : List ℕ)
    → IsQueue cons q
    → (c == 0) ≡ false
    → length q < 511
    → IsQueue (store_input c cons) (q ++ c % 256 ∷ [])
unfolding store_input
store_input-IsQueue c cons q is real room =
    let longer = length-snoc q (c % 256) in
    let w = is.next_free in
    let r = is.in_buffer in
    rw real (record {
      in_buffer = r;
      fits = omega arith;
      next_free = ground arith;
      held = λ i h. elim (last_or_before i (length q) (omega arith)) [
        | inl before ↦
            let old = is.held i before in
            let same = nth-snoc q (c % 256) i before in
            let apart : place cons i ≢ cons.wpos = λ e. ground arith in ground arith
        | inr last ↦
            let new : nth (q ++ c % 256 ∷ []) i ≡ c % 256 =
              ap (nth (q ++ c % 256 ∷ [])) last ∙ nth-snoc_last q (c % 256) in
            let here : place cons i ≡ cons.wpos = ground arith in ground arith
      ];
    })

-- On a buffer with room for them, an interrupt appends the non-zero characters it is given to the
-- queue, in order.
cons_intr_lem :
    (cs : List ℕ) (cons : Cons) (q : List ℕ)
    → IsQueue cons q
    → length q + length (characters cs) < 512
    → IsQueue (cons_intr cs cons) (q ++ characters cs)
unfolding cons_intr
cons_intr_lem [] cons q is room = rw append_nil is
cons_intr_lem (c ∷ cs) cons q is room = elim (Bool-cases (c == 0)) [
  | inl z ↦ rw (z, store_input-zero c cons z) (cons_intr_lem cs cons q is (rw z at room))
  | inr real ↦
      let room' : length q + suc (length (characters cs)) < 512 = rw real at room in
      let longer = length-snoc q (c % 256) in
      rw (real, ← append_assoc q (c % 256) (characters cs))
        (cons_intr_lem cs (store_input c cons) (q ++ c % 256 ∷ [])
          (store_input-IsQueue c cons q is real (omega arith)) (omega arith))
]

-- What `next_input` takes from a queue, and what is left.
abbrev pub first : List ℕ → ℕ
first [] = 0
first (x ∷ q) = x

abbrev pub rest : List ℕ → List ℕ
rest [] = []
rest (x ∷ q) = q

next_input_lem :
    (cons : Cons) (q : List ℕ)
    → IsQueue cons q
    → ((next_input cons).0 ≡ first q) × IsQueue ((next_input cons).1) (rest q)
unfolding next_input
next_input_lem cons [] is =
    let none_waits : (cons.rpos == cons.wpos) ≡ true =
      let w = is.next_free in let r = is.in_buffer in ground arith in
    rw none_waits (refl, is)
next_input_lem cons (x ∷ q) is =
    let w = is.next_free in
    let r = is.in_buffer in
    let f = is.fits in
    let some_waits : (cons.rpos == cons.wpos) ≡ false = ground arith in
    let head : cons.buf cons.rpos ≡ x =
      let at = is.held 0 (omega arith) in ap cons.buf (ground arith) ∙ at in
    rw some_waits (
      head,
      record {
        in_buffer = ground arith;
        fits = omega arith;
        next_free = ground arith;
        held = λ i h. let at = is.held (suc i) (omega arith) in ap cons.buf (ground arith) ∙ at;
      },
    )

-- While no more than 511 characters are unread, `cons_getc` polls both devices, appends what they
-- sent to the queue, the characters of the serial port first, answers the first character of the
-- queue, or 0 when it is empty, and removes it.
pub cons_getc_lem :
    (exists : Bool) (received typed : List ℕ) (cons : Cons) (q : List ℕ)
    → IsQueue cons q
    → length q + length (characters received) + length (characters typed) < 512
    → (polled : List ℕ)
    → polled ≡ (q ++ (if exists then characters received else [])) ++ characters typed
    → ((cons_getc exists received typed cons).0 ≡ first polled)
      × IsQueue ((cons_getc exists received typed cons).1) (rest polled)
unfolding cons_getc kbd_intr serial_intr
cons_getc_lem true received typed cons q is room polled e =
    let one = cons_intr_lem received cons q is (omega arith) in
    let sum = length-append q (characters received) in
    rw e (next_input_lem _ _ (cons_intr_lem typed _ _ one (omega arith)))
cons_getc_lem false received typed cons q is room polled e =
    rw (e, append_nil) (next_input_lem _ _ (cons_intr_lem typed cons q is (omega arith)))

-- A character that arrives while 511 are unread empties the queue: all 512 are lost.
store_input-overrun :
    (c : ℕ) (cons : Cons) (q : List ℕ)
    → IsQueue cons q
    → length q ≡ 511
    → (c == 0) ≡ false
    → IsQueue (store_input c cons) []
unfolding store_input
store_input-overrun c cons q is full real =
    let w = is.next_free in
    let r = is.in_buffer in
    rw real (record {
      in_buffer = r;
      fits = omega arith;
      next_free = ground arith;
      held = λ i h. omega arith;
    })

-- A character that the serial port sends while 511 are unread empties the buffer: `cons_getc`
-- answers 0, as when nothing was typed, and all 512 characters are lost.
pub cons_getc-overrun :
    (c : ℕ) (cons : Cons) (q : List ℕ)
    → IsQueue cons q
    → length q ≡ 511
    → (c == 0) ≡ false
    → ((cons_getc true (c ∷ []) [] cons).0 ≡ 0) × IsQueue ((cons_getc true (c ∷ []) [] cons).1) []
unfolding cons_getc kbd_intr serial_intr cons_intr
cons_getc-overrun c cons q is full real =
    next_input_lem _ [] (store_input-overrun c cons q is full real)
