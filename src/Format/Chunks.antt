-- ===== src/Format/Chunks.antt =====
-- What `cprintf` hands on, and what it returns.
use at_jos.Base.{
  ℕ, ◌+◌, ◌%◌, ◌^◌, ◌≤◌, ◌<◌, ◌≡◌, refl, Bool, true, false, ◌||◌, some, List, [], ◌∷◌, ◌==◌, arith,
  ap, ◌∙◌, sym, Bool-cases, inl, inr, length, ◌++◌, length-append, map,
}
use mathlib.Core.List.{append_assoc, append-nil}
use at_jos.Console.Screen.{Screen, crt_size, cons_putc}
use at_jos.Console.Rows.{IsWithin, cons_putc_lem}
use at_jos.Format.Vprintfmt.{vprintfmt, vprintfmt-total}
use at_jos.Format.Output.{Printbuf, flush, putch, putch_all, collect, collected, vcprintf}
use at_jos.Format.Output.Kernel as Kernel

abbrev pub concat : List (List ℕ) → List ℕ
concat [] = []
concat (xs ∷ xss) = xs ++ concat xss

abbrev pub low_bytes : List ℕ → List ℕ
low_bytes = map (λ c. c % 256)

abbrev pub AllShort : List (List ℕ) → Type 0
AllShort [] = Unit {0}
AllShort (xs ∷ xss) = (length xs ≤ 255) × AllShort xss

concat-snoc : (xss : List (List ℕ)) (xs : List ℕ) → concat (xss ++ xs ∷ []) ≡ concat xss ++ xs
concat-snoc [] xs = append-nil xs
concat-snoc (ys ∷ xss) xs =
    ap (λ t. ys ++ t) (concat-snoc xss xs) ∙ sym (append_assoc ys (concat xss) xs)

AllShort-snoc :
    (xss : List (List ℕ)) (xs : List ℕ) → AllShort xss → length xs ≤ 255 → AllShort (xss ++ xs ∷ [])
AllShort-snoc [] xs all h = (h, tt)
AllShort-snoc (ys ∷ xss) xs (l, all) h = (l, AllShort-snoc xss xs all h)

-- What the buffer and the calls hold after the characters `out`.
record IsCollected (b : Printbuf) (out : List ℕ) : Type 0 where
  content : concat b.calls ++ b.buf ≡ low_bytes out
  count : b.cnt ≡ length out
  short : AllShort b.calls
  room : length b.buf < 255

putch-more :
    (ch : ℕ) (b : Printbuf)
    → (length (b.buf ++ ch % 256 ∷ []) == 255) ≡ false
    → putch ch b ≡ record b { buf = b.buf ++ ch % 256 ∷ []; cnt = b.cnt + 1 }
unfolding putch
putch-more ch b e = rw e refl

putch-full :
    (ch : ℕ) (b : Printbuf)
    → (length (b.buf ++ ch % 256 ∷ []) == 255) ≡ true
    → putch ch b
      ≡ record { buf = []; cnt = b.cnt + 1; calls = b.calls ++ (b.buf ++ ch % 256 ∷ []) ∷ [] }
unfolding putch
putch-full ch b e = rw e refl

low_bytes-snoc :
    (out : List ℕ) (ch : ℕ) → low_bytes (out ++ ch ∷ []) ≡ low_bytes out ++ ch % 256 ∷ []
low_bytes-snoc [] ch = refl
low_bytes-snoc (c ∷ out) ch = ap (λ t. c % 256 ∷ t) (low_bytes-snoc out ch)

putch-IsCollected :
    (ch : ℕ) (b : Printbuf) (out : List ℕ)
    → IsCollected b out
    → IsCollected (putch ch b) (out ++ ch ∷ [])
putch-IsCollected ch b out is =
    let full = b.buf ++ ch % 256 ∷ [] in
    let longer : length full ≡ length b.buf + 1 = length-append b.buf (ch % 256 ∷ []) in
    let more : length (out ++ ch ∷ []) ≡ length out + 1 = length-append out (ch ∷ []) in
    let r = is.room in
    let n = is.count in
    let whole : concat b.calls ++ full ≡ low_bytes (out ++ ch ∷ []) =
      sym (append_assoc (concat b.calls) b.buf (ch % 256 ∷ []))
      ∙ ap (λ t. t ++ ch % 256 ∷ []) is.content
      ∙ sym (low_bytes-snoc out ch) in
    elim (Bool-cases (length full == 255)) [
      | inl e ↦ rw (putch-full ch b e) (record {
        content = append-nil _ ∙ concat-snoc b.calls full ∙ whole;
        count = omega arith;
        short = AllShort-snoc b.calls full is.short (omega arith);
        room = omega arith;
      })
      | inr e ↦
          rw (putch-more ch b e)
            (record { content = whole; count = omega arith; short = is.short; room = ground arith })
    ]

putch_all-IsCollected :
    (chs : List ℕ) (b : Printbuf) (out : List ℕ)
    → IsCollected b out
    → IsCollected (putch_all chs b) (out ++ chs)
unfolding putch_all
putch_all-IsCollected [] b out is = rw append-nil is
putch_all-IsCollected (ch ∷ chs) b out is =
    let rest =
      putch_all-IsCollected chs (putch ch b) (out ++ ch ∷ []) (putch-IsCollected ch b out is) in
    rw (append_assoc out (ch ∷ []) chs) at rest

abbrev pub has_char : ℕ → List ℕ → Bool
has_char ch [] = false
has_char ch (c ∷ cs) = (c == ch) || has_char ch cs

-- In a user program `cprintf` ends on every format without the letter `o`, so that no `%o`, which prints
-- a line of its own, is in it: it returns the number of characters that the format
-- puts, and hands them, as bytes and in order, to `sys_cputs` in pieces of at most 255.
pub vcprintf_lem :
    (text_at : ℕ → List ℕ) (args : ℕ → ℕ) (fmt : List ℕ) (arg : ℕ)
    → ((i : ℕ) → args i < 2 ^ 32)
    → has_char b'o' fmt ≡ false
    → (out : List ℕ) × (calls : List (List ℕ)) × (vprintfmt text_at args (length fmt + 1) fmt arg
        ≡ some out)
      × (vcprintf text_at args (length fmt + 1) fmt arg ≡ some (length out, calls))
      × (concat calls ≡ low_bytes out)
      × AllShort calls
unfolding vcprintf collect flush
vcprintf_lem text_at args fmt arg words plain =
    let (out, e) = vprintfmt-total text_at args words (length fmt + 1) fmt arg (omega arith) in
    let b = putch_all out (record { buf = []; cnt = 0; calls = [] }) in
    let is =
      putch_all-IsCollected out (record { buf = []; cnt = 0; calls = [] }) []
        (record { content = refl; count = refl; short = tt; room = omega arith }) in
    let r = is.room in
    (
      out,
      b.calls ++ b.buf ∷ [],
      e,
      ap collected e ∙ ap (λ n. some (n, b.calls ++ b.buf ∷ [])) is.count,
      concat-snoc b.calls b.buf ∙ is.content,
      AllShort-snoc b.calls b.buf is.short (omega arith),
    )

kernel_putch_all :
    (out : List ℕ) (scr : Screen) (cnt : ℕ)
    → scr.crt_pos < crt_size
    → (scr' : Screen) × (Kernel.putch_all out (scr, cnt) ≡ (scr', cnt)) × IsWithin crt_size scr scr'
unfolding Kernel.putch_all Kernel.putch
kernel_putch_all [] scr cnt h = (scr, refl, record { cursor = h; outside = λ i far. refl })
kernel_putch_all (ch ∷ out) scr cnt h =
    let one = cons_putc_lem ch scr h in
    let (scr', e, is) = kernel_putch_all out (cons_putc ch scr) cnt one.cursor in
    (
      scr',
      e,
      record { cursor = is.cursor; outside = λ i far. is.outside i far ∙ one.outside i far },
    )

-- In the kernel `cprintf` ends on every format and returns 0, however much it prints; from a cursor on
-- the screen it leaves the cursor on the screen and changes no memory past the screen buffer.
pub kernel_vcprintf_lem :
    (text_at : ℕ → List ℕ) (args : ℕ → ℕ) (fmt : List ℕ) (arg : ℕ) (scr : Screen)
    → ((i : ℕ) → args i < 2 ^ 32)
    → scr.crt_pos < crt_size
    → (scr' : Screen) × (Kernel.vcprintf text_at args (length fmt + 1) fmt arg scr ≡ some (scr', 0))
      × IsWithin crt_size scr scr'
unfolding Kernel.vcprintf
kernel_vcprintf_lem text_at args fmt arg scr words h =
    let (out, e) = vprintfmt-total text_at args words (length fmt + 1) fmt arg (omega arith) in
    let (scr', f, is) = kernel_putch_all out scr 0 h in
    (scr', ap (Kernel.shown scr) e ∙ ap some f, is)
