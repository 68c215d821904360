-- ===== src/CString.antt =====
-- The string and memory routines of lib/string.c. Memory is a function from addresses to bytes, and
-- a pointer is an address; the objects that a routine is given do not wrap round address 2 ^ 32.
-- A loop that ends at a NUL byte takes fuel, and `none` means that the fuel ran out.
pub mod Scan
pub mod Move
pub mod Compare
pub mod Number
use at_jos.Base.{
  ℕ, zero, suc, ◌+◌, ◌-◌, ◌*◌, ◌/◌, ◌%◌, ◌^◌, Bool, not, ◌&&◌, Option, none, some, ◌==◌, ltb, leb,
  if◌then◌else◌,
}
use at_jos.Base.Int.{ℤ, sub_ℕ, pos}

abbrev pub Bytes : Type 0
Bytes = ℕ → ℕ

abbrev pub poke : ℕ → ℕ → Bytes → Bytes
poke a v m b = if a == b then v else m b

-- The loop of `strlen`, with the count so far.
unfoldable pub strlen_loop : ℕ → Bytes → ℕ → ℕ → Option ℕ
strlen_loop zero m s n = none
strlen_loop (suc fuel) m s n =
    let rest = strlen_loop fuel m (s + 1) (n + 1) in if m s == 0 then some n else rest

unfoldable pub strlen : ℕ → Bytes → ℕ → Option ℕ
strlen fuel m s = strlen_loop fuel m s 0

-- `strnlen` recurs on `size`.
unfoldable pub strnlen_loop : Bytes → ℕ → ℕ → ℕ → ℕ
strnlen_loop m s zero n = n
strnlen_loop m s (suc size) n =
    let rest = strnlen_loop m (s + 1) size (n + 1) in if m s == 0 then n else rest

unfoldable pub strnlen : Bytes → ℕ → ℕ → ℕ
strnlen m s size = strnlen_loop m s size 0

unfoldable pub strcpy : ℕ → ℕ → ℕ → Bytes → Option Bytes
strcpy zero dst src m = none
strcpy (suc fuel) dst src m =
    let m' = poke dst (m src) m in
    let rest = strcpy fuel (dst + 1) (src + 1) m' in if m src == 0 then some m' else rest

-- `strncpy`, with `rounds` bytes left to write.
unfoldable pub strncpy : ℕ → ℕ → ℕ → Bytes → Bytes
strncpy zero dst src m = m
strncpy (suc rounds) dst src m =
    let m' = poke dst (m src) m in
    strncpy rounds (dst + 1) (if m' src == 0 then src else src + 1) m'

-- The loop of `strlcpy` with `room` for characters before the NUL; the result is the end of `dst`.
unfoldable pub strlcpy_loop : ℕ → ℕ → ℕ → Bytes → ℕ × Bytes
strlcpy_loop zero dst src m = (dst, poke dst 0 m)
strlcpy_loop (suc room) dst src m =
    let rest = strlcpy_loop room (dst + 1) (src + 1) (poke dst (m src) m) in
    if m src == 0 then (dst, poke dst 0 m) else rest

unfoldable pub strlcpy : ℕ → ℕ → ℕ → Bytes → ℕ × Bytes
strlcpy dst src zero m = (0, m)
strlcpy dst src (suc room) m = let (end, m') = strlcpy_loop room dst src m in (end - dst, m')

-- Bytes are unsigned here, as the casts in `strcmp` make them.
unfoldable pub strcmp : ℕ → Bytes → ℕ → ℕ → Option ℤ
strcmp zero m p q = none
strcmp (suc fuel) m p q =
    let rest = strcmp fuel m (p + 1) (q + 1) in
    if not (m p == 0) && (m p == m q) then rest else some (sub_ℕ (m p) (m q))

-- `strncmp` recurs on `n`.
unfoldable pub strncmp : ℕ → Bytes → ℕ → ℕ → ℤ
strncmp zero m p q = pos 0
strncmp (suc n) m p q =
    let rest = strncmp n m (p + 1) (q + 1) in
    if not (m p == 0) && (m p == m q) then rest else sub_ℕ (m p) (m q)

-- `strchr`: the inner option is the pointer returned, NULL or not.
unfoldable pub strchr : ℕ → Bytes → ℕ → ℕ → Option (Option ℕ)
strchr zero m s c = none
strchr (suc fuel) m s c =
    let rest = strchr fuel m (s + 1) c in
    if m s == 0 then some none else if m s == c then some (some s) else rest

unfoldable pub strfind : ℕ → Bytes → ℕ → ℕ → Option ℕ
strfind zero m s c = none
strfind (suc fuel) m s c =
    let rest = strfind fuel m (s + 1) c in
    if m s == 0 then some s else if m s == c then some s else rest

-- `memcmp` recurs on `n`.
unfoldable pub memcmp : ℕ → Bytes → ℕ → ℕ → ℤ
memcmp zero m s1 s2 = pos 0
memcmp (suc n) m s1 s2 =
    let rest = memcmp n m (s1 + 1) (s2 + 1) in if m s1 == m s2 then rest else sub_ℕ (m s1) (m s2)

-- `memfind`, with `rounds` bytes before `ends`.
unfoldable pub memfind : ℕ → Bytes → ℕ → ℕ → ℕ
memfind zero m s c = s
memfind (suc rounds) m s c =
    let rest = memfind rounds m (s + 1) c in if m s == c % 256 then s else rest

-- One `stos` or `movs`: `width` bytes, read before any is written.
abbrev pub put_unit : ℕ → ℕ → (ℕ → ℕ) → Bytes → Bytes
put_unit width d value m a = if leb d a && ltb a (d + width) then value (a - d) else m a

-- `rep stos` of a unit whose bytes are `value`.
unfoldable pub rep_stos : ℕ → ℕ → ℕ → (ℕ → ℕ) → Bytes → Bytes
rep_stos width zero d value m = m
rep_stos width (suc rounds) d value m =
    rep_stos width rounds (d + width) value (put_unit width d value m)

-- The byte `i` of a word, lowest first.
abbrev pub byte_of : ℕ → ℕ → ℕ
byte_of w i = w / 2 ^ (8 * i) % 256

unfoldable pub memset : ℕ → ℕ → ℕ → Bytes → Bytes
memset v c n m =
    if n == 0
    then m
    else if (v % 4 == 0) && (n % 4 == 0)
    then rep_stos 4 (n / 4) v (byte_of (c % 256 * 0x101_0101)) m
    else rep_stos 1 n v (λ i. c % 256) m

-- `cld; rep movs`
unfoldable pub move_up : ℕ → ℕ → ℕ → ℕ → Bytes → Bytes
move_up width zero d s m = m
move_up width (suc rounds) d s m =
    move_up width rounds (d + width) (s + width) (put_unit width d (λ i. m (s + i)) m)

-- `std; rep movs`, from the last unit down.
unfoldable pub move_down : ℕ → ℕ → ℕ → ℕ → Bytes → Bytes
move_down width zero d s m = m
move_down width (suc rounds) d s m =
    move_down width rounds d s
      (put_unit width (d + rounds * width) (λ i. m (s + rounds * width + i)) m)

abbrev pub is_aligned : ℕ → ℕ → ℕ → Bool
is_aligned s d n = (s % 4 == 0) && (d % 4 == 0) && (n % 4 == 0)

unfoldable pub memmove : ℕ → ℕ → ℕ → Bytes → Bytes
memmove dst src n m =
    if ltb src dst && ltb dst (src + n)
    then (if is_aligned (src + n) (dst + n) n
        then move_down 4 (n / 4) dst src m
        else move_down 1 n dst src m)
    else (if is_aligned src dst n then move_up 4 (n / 4) dst src m else move_up 1 n dst src m)

unfoldable pub memcpy : ℕ → ℕ → ℕ → Bytes → Bytes
memcpy dst src n m = memmove dst src n m
