-- ===== src/Base/Monad.antt =====
-- Kernel code as commands on a state: a command ends with a result and the state it leaves, or it
-- panics, which stands for `panic` and for a failed `assert`.
use mathlib.Core.Bool.{Bool, true, false}

pub data Outcome (A : Type 0) : Type 0 where
  done : A → Outcome A
  panicked : Outcome A

abbrev pub Cmd : Type 0 → Type 0 → Type 0
Cmd S A = S → Outcome (A × S)

abbrev pub pure : {S A : Type 0} → A → Cmd S A
pure a s = done (a, s)

infixl 5 ◌>>=◌ ◌>>◌
abbrev pub ◌>>=◌ : {S A B : Type 0} → Cmd S A → (A → Cmd S B) → Cmd S B
◌>>=◌ m f s = elim (m s) [ done (a, s') ↦ f a s' | panicked ↦ panicked ]

abbrev pub ◌>>◌ : {S B : Type 0} → Cmd S (Unit {0}) → Cmd S B → Cmd S B
m >> k = m >>= λ _. k

abbrev pub panic : {S A : Type 0} → Cmd S A
panic _ = panicked

-- `assert(b)`.
abbrev pub assert : {S : Type 0} → Bool → Cmd S (Unit {0})
assert true s = done (tt, s)
assert false s = panicked

-- A value computed from the state.
abbrev pub gets : {S A : Type 0} → (S → A) → Cmd S A
gets f s = done (f s, s)

-- A change of the state.
abbrev pub modify : {S : Type 0} → (S → S) → Cmd S (Unit {0})
modify f s = done (tt, f s)
