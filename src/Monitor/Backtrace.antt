-- ===== src/Monitor/Backtrace.antt =====
-- `mon_backtrace` of monitor.c. Memory is a function from addresses to 32-bit words; that each frame is
-- looked up in the debugging information and printed is left out.
use at_jos.Base.{
  ℕ, zero, suc, ◌+◌, ◌-◌, ◌<◌, ◌≡◌, refl, ◌≢◌, Option, none, some, List, [], ◌∷◌, ◌==◌,
  if◌then◌else◌, arith, Bool-cases, inl, inr, ◌⊎◌,
}

-- What is printed of a frame.
pub record Frame : Type 0 where
  pub ebp : ℕ
  pub eip : ℕ
  pub args : List ℕ

abbrev pub frame_at : (ℕ → ℕ) → ℕ → Frame
frame_at word ebp = record {
  ebp = ebp;
  eip = word (ebp + 4);
  args =
      word (ebp + 8) ∷ word (ebp + 12) ∷ word (ebp + 16) ∷ word (ebp + 20) ∷ word (ebp + 24) ∷ [];
}

abbrev pub add_frame : Frame → Option (List Frame) → Option (List Frame)
add_frame f none = none
add_frame f (some fs) = some (f ∷ fs)

-- The loop from `ebp` on; `none`: the fuel ran out.
unfoldable pub mon_backtrace : ℕ → (ℕ → ℕ) → ℕ → Option (List Frame)
mon_backtrace zero word ebp = none
mon_backtrace (suc fuel) word ebp =
    let rest = mon_backtrace fuel word (word ebp) in
    if ebp == 0 then some [] else add_frame (frame_at word ebp) rest

-- The frames from `ebp` on: each is where the one before it points, and the last points to 0.
abbrev pub Linked : (ℕ → ℕ) → ℕ → List Frame → Type 0
Linked word ebp [] = ebp ≡ 0
Linked word ebp (f ∷ fs) = (f.ebp ≡ ebp) × (f.eip ≡ word (ebp + 4)) × Linked word (word ebp) fs

mon_backtrace-end :
    (fuel ebp : ℕ) (word : ℕ → ℕ) → 0 < fuel → ebp ≡ 0 → mon_backtrace fuel word ebp ≡ some []
unfolding mon_backtrace
mon_backtrace-end zero ebp word enough e = absurd (omega arith)
mon_backtrace-end (suc fuel) ebp word enough e = rw e refl

-- Where the saved base pointers below `top` lead upwards until one is 0, `mon_backtrace` ends, and lists
-- the frames of the calls from the innermost to the outermost, each with its return address.
pub mon_backtrace_lem :
    (fuel top ebp : ℕ) (word : ℕ → ℕ)
    → ((e : ℕ) → e ≢ 0 → e < top → (word e ≡ 0) ⊎ ((e < word e) × (word e < top)))
    → ebp < top
    → top + 1 - ebp < fuel
    → (frames : List Frame) × (mon_backtrace fuel word ebp ≡ some frames) × Linked word ebp frames
unfolding mon_backtrace
mon_backtrace_lem zero top ebp word up low enough = absurd (omega arith)
mon_backtrace_lem (suc fuel) top ebp word up low enough = elim (Bool-cases (ebp == 0)) [
  | inl last ↦ ([], rw last refl, ground arith)
  | inr more ↦
      let ne : ebp ≢ 0 = ground arith in
      elim (up ebp ne low) [
        | inl last ↦
            let e = mon_backtrace-end fuel (word ebp) word (omega arith) last in
            (frame_at word ebp ∷ [], rw (more, e) refl, (refl, refl, last))
        | inr (higher, lower) ↦
            let (fs, e, linked) =
              mon_backtrace_lem fuel top (word ebp) word up lower (omega arith) in
            (frame_at word ebp ∷ fs, rw (more, e) refl, (refl, refl, linked))
      ]
]
