-- ===== src/CString/Move.antt =====
-- `memmove` copies overlapping objects rightly, and `memset` fills exactly its object.
use at_jos.Base.{
  ℕ, zero, suc, ◌+◌, ◌-◌, ◌*◌, ◌/◌, ◌%◌, ◌≤◌, ◌<◌, ◌≡◌, refl, Bool, true, false, ◌&&◌, ltb, leb,
  if◌then◌else◌, arith, ap, ◌∙◌, sym, ◌⊎◌,
}
use native.Mathlib.Nat.{zero-mul, suc-mul}
use at_jos.CString.{Bytes, put_unit, rep_stos, byte_of, memset, move_up, move_down, memmove}

-- What memory holds after a copy of `n` bytes.
abbrev pub copied : ℕ → ℕ → ℕ → Bytes → Bytes
copied dst src n m a = if leb dst a && ltb a (dst + n) then m (src + (a - dst)) else m a

move_up_lem :
    (width rounds n d s : ℕ) (m : Bytes) (a : ℕ)
    → rounds * width ≡ n
    → (d ≤ s) ⊎ (s + n ≤ d)
    → move_up width rounds d s m a ≡ copied d s n m a
unfolding move_up
move_up_lem width zero n d s m a e apart =
    let none_left : 0 ≡ n = sym (zero-mul width) ∙ e in ground arith
move_up_lem width (suc rounds) n d s m a e apart =
    let k = rounds * width in
    let all : k + width ≡ n = sym (suc-mul rounds width) ∙ e in
    let rest =
      move_up_lem width rounds k (d + width) (s + width) (put_unit width d (λ i. m (s + i)) m) a
        refl (ground arith) in
    let same : d + width ≤ a → m (s + width + (a - (d + width))) ≡ m (s + (a - d)) =
      λ h. ap m (omega arith) in
    rest ∙ (ground arith)

move_down_lem :
    (width rounds n d s : ℕ) (m : Bytes) (a : ℕ)
    → rounds * width ≡ n
    → s ≤ d
    → move_down width rounds d s m a ≡ copied d s n m a
unfolding move_down
move_down_lem width zero n d s m a e above =
    let none_left : 0 ≡ n = sym (zero-mul width) ∙ e in ground arith
move_down_lem width (suc rounds) n d s m a e above =
    let k = rounds * width in
    let all : k + width ≡ n = sym (suc-mul rounds width) ∙ e in
    let same : d + k ≤ a → m (s + k + (a - (d + k))) ≡ m (s + (a - d)) = λ h. ap m (omega arith) in
    move_down_lem width rounds k d s (put_unit width (d + k) (λ i. m (s + k + i)) m) a refl above
    ∙ (ground arith)

if_at : (b : Bool) (f g : Bytes) (a : ℕ) → (if b then f else g) a ≡ (if b then f a else g a)
if_at true f g a = refl
if_at false f g a = refl

module _ (dst src n : ℕ) (m : Bytes) (a : ℕ) where
  word_rounds : n % 4 ≡ 0 → n / 4 * 4 ≡ n
  word_rounds h = omega arith

  byte_rounds : n * 1 ≡ n
  byte_rounds = omega arith

  -- However the two objects overlap, `memmove` leaves in `dst` what `src` held before, and the rest of
  -- memory as it was.
  pub memmove_lem : memmove dst src n m a ≡ copied dst src n m a
  unfolding memmove
  memmove_lem =
      let h1 : n % 4 ≡ 0 → src < dst → move_down 4 (n / 4) dst src m a ≡ copied dst src n m a =
        λ whole above. move_down_lem 4 (n / 4) n dst src m a (word_rounds whole) (omega arith) in
      let h2 : src < dst → move_down 1 n dst src m a ≡ copied dst src n m a =
        λ above. move_down_lem 1 n n dst src m a byte_rounds (omega arith) in
      let h3 : n % 4 ≡ 0
          → (dst ≤ src) ⊎ (src + n ≤ dst)
          → move_up 4 (n / 4) dst src m a ≡ copied dst src n m a =
        λ whole apart. move_up_lem 4 (n / 4) n dst src m a (word_rounds whole) apart in
      let h4 : (dst ≤ src) ⊎ (src + n ≤ dst) → move_up 1 n dst src m a ≡ copied dst src n m a =
        λ apart. move_up_lem 1 n n dst src m a byte_rounds apart in
      rw (if_at, if_at, if_at) (ground arith)

rep_stos_lem :
    (width rounds n d b : ℕ) (value : ℕ → ℕ) (m : Bytes) (a : ℕ)
    → ((i : ℕ) → i < width → value i ≡ b)
    → rounds * width ≡ n
    → rep_stos width rounds d value m a ≡ (if leb d a && ltb a (d + n) then b else m a)
unfolding rep_stos
rep_stos_lem width zero n d b value m a same e =
    let none_left : 0 ≡ n = sym (zero-mul width) ∙ e in ground arith
rep_stos_lem width (suc rounds) n d b value m a same e =
    let k = rounds * width in
    let all : k + width ≡ n = sym (suc-mul rounds width) ∙ e in
    let rest =
      rep_stos_lem width rounds k (d + width) b value (put_unit width d value m) a same refl in
    let here : d ≤ a → a < d + width → value (a - d) ≡ b = λ g h. same (a - d) (omega arith) in
    rest ∙ (ground arith)

byte_of_spread : (c i : ℕ) → c < 256 → i < 4 → byte_of (c * 0x101_0101) i ≡ c
byte_of_spread c zero h g = omega arith
byte_of_spread c (suc zero) h g = omega arith
byte_of_spread c (suc (suc zero)) h g = omega arith
byte_of_spread c (suc (suc (suc zero))) h g = omega arith
byte_of_spread c (suc (suc (suc (suc i)))) h g = omega arith

-- `memset` writes the low byte of `c` to each of the `n` bytes at `v`, and nothing else.
pub memset_lem :
    (v c n : ℕ) (m : Bytes) (a : ℕ)
    → memset v c n m a ≡ (if leb v a && ltb a (v + n) then c % 256 else m a)
unfolding memset
memset_lem v c n m a =
    let words : n % 4 ≡ 0
        → rep_stos 4 (n / 4) v (byte_of (c % 256 * 0x101_0101)) m a
          ≡ (if leb v a && ltb a (v + n) then c % 256 else m a) =
      λ whole.
        rep_stos_lem 4 (n / 4) n v (c % 256) _ m a
          (λ i small. byte_of_spread (c % 256) i (omega arith) small) (omega arith) in
    let bytes = rep_stos_lem 1 n n v (c % 256) (λ i. c % 256) m a (λ i small. refl) (omega arith) in
    rw (if_at, if_at) (ground arith)
