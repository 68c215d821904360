-- ===== src/CString/Scan.antt =====
-- The routines of lib/string.c that stop at a NUL byte, on C strings of a known length.
use at_jos.Base.{
  ℕ, zero, suc, ◌+◌, ◌-◌, ◌≤◌, ◌<◌, ◌≡◌, ◌≢◌, false, some, ◌==◌, leb, if◌then◌else◌, arith, ap, ◌∙◌,
  fun_ext, ◌⊎◌,
}
use at_jos.CString.{Bytes, poke, strlen_loop, strlen, strnlen_loop, strnlen, strcpy}
use at_jos.CString.Move.{copied}

-- A NUL-terminated string of `n` characters at `s`.
pub record IsString (m : Bytes) (s n : ℕ) : Type 0 where
  pub text : (i : ℕ) → i < n → m (s + i) ≢ 0
  pub nul : m (s + n) ≡ 0

IsString-tail : {m : Bytes} {s n : ℕ} → IsString m s (suc n) → IsString m (s + 1) n
IsString-tail {m} {s} {n} str = record {
  text = λ i h e. str.text (suc i) (omega arith) (ap m (omega arith) ∙ e);
  nul = ap m (omega arith) ∙ str.nul;
}

IsString-head : {m : Bytes} {s n : ℕ} → IsString m s (suc n) → (m s == 0) ≡ false
IsString-head {m} {s} {n} str =
    let here : m (s + 0) ≡ m s = ap m (omega arith) in
    let there = str.text 0 (omega arith) in ground arith

IsString-end : {m : Bytes} {s : ℕ} → IsString m s 0 → m s ≡ 0
IsString-end {m} {s} str = ap m (omega arith) ∙ str.nul

strlen_loop_lem :
    (fuel n c : ℕ) (m : Bytes) (s : ℕ)
    → IsString m s n
    → n < fuel
    → strlen_loop fuel m s c ≡ some (c + n)
unfolding strlen_loop
strlen_loop_lem zero n c m s str h = ground arith
strlen_loop_lem (suc fuel) zero c m s str h =
    let here = IsString-end str in let sum : c + 0 ≡ c = omega arith in ground arith
strlen_loop_lem (suc fuel) (suc n) c m s str h =
    let here = IsString-head str in
    let rest = strlen_loop_lem fuel n (c + 1) m (s + 1) (IsString-tail str) (omega arith) in
    let sum : c + 1 + n ≡ c + suc n = omega arith in ground arith

-- On a string of `n` characters `strlen` ends within `n + 1` tests and answers `n`.
pub strlen_lem :
    (fuel n : ℕ) (m : Bytes) (s : ℕ) → IsString m s n → n < fuel → strlen fuel m s ≡ some n
unfolding strlen
strlen_lem fuel n m s str h = strlen_loop_lem fuel n 0 m s str h ∙ ap some (omega arith)

strnlen_loop_lem :
    (size n c : ℕ) (m : Bytes) (s : ℕ)
    → IsString m s n
    → strnlen_loop m s size c ≡ c + (if leb size n then size else n)
unfolding strnlen_loop
strnlen_loop_lem zero n c m s str = ground arith
strnlen_loop_lem (suc size) zero c m s str = let here = IsString-end str in ground arith
strnlen_loop_lem (suc size) (suc n) c m s str =
    let here = IsString-head str in
    let rest = strnlen_loop_lem size n (c + 1) m (s + 1) (IsString-tail str) in ground arith

-- On a string of `n` characters `strnlen` answers the smaller of its bound and `n`.
pub strnlen_lem :
    (size n : ℕ) (m : Bytes) (s : ℕ)
    → IsString m s n
    → strnlen m s size ≡ (if leb size n then size else n)
unfolding strnlen
strnlen_lem size n m s str = strnlen_loop_lem size n 0 m s str ∙ (ground arith)

-- Two objects of `n` bytes that do not overlap.
abbrev pub AreApart : ℕ → ℕ → ℕ → Type 0
AreApart dst src n = (dst + n ≤ src) ⊎ (src + n ≤ dst)

IsString-poke :
    {m : Bytes} {s n a : ℕ} (v : ℕ)
    → (a < s) ⊎ (s + n < a)
    → IsString m s n
    → IsString (poke a v m) s n
IsString-poke {m} {s} {n} {a} v out str = record {
  text = λ i h. let old = str.text i h in ground arith;
  nul = let old = str.nul in ground arith;
}

copied_next :
    (dst src n : ℕ) (m : Bytes) (a : ℕ)
    → AreApart dst src (suc n + 1)
    → copied (dst + 1) (src + 1) (n + 1) (poke dst (m src) m) a ≡ copied dst src (suc n + 1) m a
copied_next dst src n m a apart =
    let first : a ≡ dst → m (src + (a - dst)) ≡ m src = λ h. ap m (omega arith) in
    let later : dst < a → m (src + 1 + (a - (dst + 1))) ≡ m (src + (a - dst)) =
      λ h. ap m (omega arith) in
    ground arith

-- `strcpy` of a string copies its characters and its NUL and changes nothing else, where the objects
-- do not overlap.
pub strcpy_lem :
    (fuel n dst src : ℕ) (m : Bytes)
    → IsString m src n
    → AreApart dst src (n + 1)
    → n < fuel
    → strcpy fuel dst src m ≡ some (copied dst src (n + 1) m)
unfolding strcpy
strcpy_lem zero n dst src m str apart h = ground arith
strcpy_lem (suc fuel) zero dst src m str apart h =
    let here = IsString-end str in
    let done : poke dst (m src) m ≡ copied dst src 1 m = fun_ext (λ a.
      let first : a ≡ dst → m (src + (a - dst)) ≡ m src = λ e. ap m (omega arith) in
      ground arith) in
    ground arith
strcpy_lem (suc fuel) (suc n) dst src m str apart h =
    let here = IsString-head str in
    let rest =
      strcpy_lem fuel n (dst + 1) (src + 1) (poke dst (m src) m)
        (IsString-poke (m src) (omega arith) (IsString-tail str)) (omega arith) (omega arith) in
    let same : copied (dst + 1) (src + 1) (n + 1) (poke dst (m src) m)
        ≡ copied dst src (suc n + 1) m =
      fun_ext (λ a. copied_next dst src n m a apart) in
    rw here (rest ∙ ap some same)
