-- ===== src/Format/Directive.antt =====
-- One conversion of `vprintfmt`: its flags, and the characters that it puts. An `int` that is compared
-- with 0 is `none` where it is negative. The arguments are the 32-bit words behind `ap`, and a `%s`
-- argument is given by the characters before its NUL.
use at_jos.Base.{
  ℕ, ◌+◌, ◌-◌, ◌*◌, ◌^◌, Bool, true, false, not, ◌||◌, ◌&&◌, Option, none, some, List, [], ◌∷◌,
  ◌==◌, ltb, leb, if◌then◌else◌, length, ◌++◌, replicate, map,
}
use Prim.Native.Char.{code}
use Prim.Native.String.{String}
use at_jos.Base.{take}
use at_jos.Format.{printnum}

-- The characters of a literal.
abbrev pub text : String → List ℕ
text String.[] = []
text (String.◌∷◌ c s) = code c ∷ text s

pub record Flags : Type 0 where
  pub padc : ℕ
  pub width : Option ℕ
  pub precision : Option ℕ
  pub lflag : ℕ
  pub altflag : Bool

abbrev pub fresh_flags : Flags
fresh_flags = record { padc = b' '; width = none; precision = none; lflag = 0; altflag = false }

-- `process_precision`. The source computes in `int`; a number of 2 ^ 31 or more overflows there, which C
-- leaves undefined.
unfoldable pub set_precision : Option ℕ → Flags → Flags
set_precision v fl = elim fl.width [
  | none ↦ record fl { width = v; precision = none }
  | some w ↦ record fl { precision = v }
]

-- `.`
unfoldable pub set_point : Flags → Flags
set_point fl = elim fl.width [ none ↦ record fl { width = some 0 } | some w ↦ fl ]

-- The value of a word as an `int`, for a count.
abbrev pub int_count : ℕ → Option ℕ
int_count w = if leb (2 ^ 31) w then none else some w

-- What follows a `%` up to the character of the conversion, which is 0 at the end of the format.
pub record Parsed : Type 0 where
  pub ch : ℕ
  pub rest : List ℕ
  pub flags : Flags
  pub ap : ℕ

abbrev pub is_digit : ℕ → Bool
is_digit c = leb b'0' c && leb c b'9'

abbrev pub end_number : Option ℕ → Flags → Flags
end_number none fl = fl
end_number (some v) fl = set_precision (some v) fl

abbrev pub number_so_far : Option ℕ → ℕ
number_so_far none = 0
number_so_far (some v) = v

-- Whether `c` goes on with a number, or starts one.
abbrev pub in_number : Option ℕ → ℕ → Bool
in_number none c = is_digit c && not (c == b'0')
in_number (some v) c = is_digit c

-- A word, of half range `half`, as a sign and an absolute value.
abbrev pub signed : ℕ → ℕ → ℕ → Bool × ℕ × ℕ
signed half n next = if leb half n then (true, 2 * half - n, next) else (false, n, next)

module _ (text_at : ℕ → List ℕ) (args : ℕ → ℕ) where
  -- The flags that are no numbers, with the next argument.
  unfoldable pub flag_char : ℕ → Flags → ℕ → Option (Flags × ℕ)
  flag_char c fl ap =
      if c == b'-'
      then some (record fl { padc = b'-' }, ap)
      else if c == b'0'
      then some (record fl { padc = b'0' }, ap)
      else if c == b'*'
      then some (set_precision (int_count (args ap)) fl, ap + 1)
      else if c == b'.'
      then some (set_point fl, ap)
      else if c == b'#'
      then some (record fl { altflag = true }, ap)
      else if c == b'l'
      then some (record fl { lflag = fl.lflag + 1 }, ap)
      else none

  -- `reswitch`, in or out of a number.
  unfoldable pub parse_flags : List ℕ → Option ℕ → Flags → ℕ → Parsed
  parse_flags [] num fl ap = record { ch = 0; rest = []; flags = end_number num fl; ap = ap }
  parse_flags (c ∷ cs) num fl ap =
      let more = parse_flags cs (some (number_so_far num * 10 + (c - b'0'))) fl ap in
      let settled = end_number num fl in
      if in_number num c then more else elim (flag_char c settled ap) [
        | some (fl', ap') ↦ parse_flags cs none fl' ap'
        | none ↦ record { ch = c; rest = cs; flags = settled; ap = ap }
      ]

  -- `getuint`, with the next argument.
  unfoldable pub getuint : ℕ → ℕ → ℕ × ℕ
  getuint lflag ap =
      if leb 2 lflag then (args ap + args (ap + 1) * 2 ^ 32, ap + 2) else (args ap, ap + 1)

  -- `getint`: whether the number is negative, and its absolute value.
  unfoldable pub getint : ℕ → ℕ → Bool × ℕ × ℕ
  getint lflag ap =
      if leb 2 lflag
      then signed (2 ^ 63) (args ap + args (ap + 1) * 2 ^ 32) (ap + 2)
      else signed (2 ^ 31) (args ap) (ap + 1)

  abbrev pub width_of : Flags → ℕ
  width_of fl = number_so_far fl.width

  -- 2 ^ 64 is less than 2 to the power of the fuel.
  abbrev pub put_number : ℕ → ℕ → Flags → Option (List ℕ)
  put_number num base fl = printnum 64 num base (width_of fl) fl.padc

  -- A prefix before what a number puts.
  abbrev pub after_chars : List ℕ → Option (List ℕ) → Option (List ℕ)
  after_chars before none = none
  after_chars before (some out) = some (before ++ out)

  -- "error %d", and the messages of `error_string`, of the absolute value of `err`. Negating the least `int`
  -- overflows, which C leaves undefined; it is taken as 2 ^ 31 here.
  unfoldable pub error_text : ℕ → Option (List ℕ)
  error_text err =
      if err == 1
      then some (text "unspecified error")
      else if err == 2
      then some (text "bad environment")
      else if err == 3
      then some (text "invalid parameter")
      else if err == 4
      then some (text "out of memory")
      else if err == 5
      then some (text "out of environments")
      else if err == 6
      then some (text "segmentation fault")
      else after_chars (text "error ") (printnum 64 err 10 0 b' ')

  -- `%s` with its padding: the loops put `width` less what is shown. That the loop also reads the byte behind
  -- the precision is left out; for `sys_cputs` it is in Pmap.UserMem.Text.
  abbrev pub limited : Option ℕ → List ℕ → List ℕ
  limited none s = s
  limited (some k) s = take k s

  unfoldable pub show_char : Bool → ℕ → ℕ
  show_char alt c = if alt && (ltb c 32 || ltb 126 c) then b'?' else c

  unfoldable pub put_string : ℕ → Flags → List ℕ
  put_string p fl =
      let shown = limited fl.precision (if p == 0 then text "(null)" else text_at p) in
      let out = map (show_char fl.altflag) shown in
      let gap = width_of fl - length shown in
      if fl.padc == b'-' then out ++ replicate gap 32 else replicate gap fl.padc ++ out

  -- The conversion of a character: what it puts through `putch`, and the next argument; `none` if it is
  -- unknown. Left out is the line about three other variables that `%o` gives to `cprintf`.
  unfoldable pub convert : ℕ → Flags → ℕ → Option (Option (List ℕ) × ℕ)
  convert ch fl ap =
      let (unsigned, ap_u) = getuint fl.lflag ap in
      let (negative, size, ap_s) = getint fl.lflag ap in
      if ch == b'c'
      then some (some (args ap ∷ []), ap + 1)
      else if ch == b'e'
      then some (error_text (if leb (2 ^ 31) (args ap) then 2 ^ 32 - args ap else args ap), ap + 1)
      else if ch == b's'
      then some (some (put_string (args ap) fl), ap + 1)
      else if ch == b'd'
      then some (after_chars (if negative then b'-' ∷ [] else []) (put_number size 10 fl), ap_s)
      else if ch == b'u'
      then some (put_number unsigned 10 fl, ap_u)
      else if ch == b'o'
      then some (put_number unsigned 8 fl, ap_u)
      else if ch == b'p'
      then some (after_chars (b'0' ∷ b'x' ∷ []) (put_number (args ap) 16 fl), ap + 1)
      else if ch == b'x'
      then some (put_number unsigned 16 fl, ap_u)
      else if ch == b'%'
      then some (some (b'%' ∷ []), ap)
      else none
