-- ===== src/Console/Keys.antt =====
-- What the keyboard decoder types, and how it follows the modifier keys.
use at_jos.Base.{
  ℕ, zero, suc, ◌<◌, ◌≡◌, refl, Bool, true, false, not, ◌&&◌, ◌||◌, List, [], ◌∷◌, ◌==◌, ltb,
  if◌then◌else◌, arith, ap, ◌∙◌, bit_and, get_or, Bool-cases, inl, inr,
}
use at_jos.Console.Keyboard.{
  normalmap, shiftmap, ctlmap, charcode, change_case, typed_char, Key, press, release,
  kbd_proc_data, shiftcode, togglecode, e0_esc, shift_key, named_entry, map_entry, normal_keys,
  shift_keys, ctl_keys, far_keys, far_ctl_keys,
}

are_bytes : List ℕ → Bool
are_bytes [] = true
are_bytes (c ∷ cs) = ltb c 256 && are_bytes cs

get_or-small : (cs : List ℕ) (i : ℕ) → are_bytes cs ≡ true → get_or cs i 0 < 256
unfolding are_bytes
get_or-small [] i h = omega arith
get_or-small (c ∷ cs) zero h = ground arith
get_or-small (c ∷ cs) (suc i) h = get_or-small cs i (ground arith)

are_byte_entries : List (ℕ × ℕ) → Bool
are_byte_entries [] = true
are_byte_entries ((k, c) ∷ es) = ltb c 256 && are_byte_entries es

named_entry-small :
    (es : List (ℕ × ℕ)) (i : ℕ) → are_byte_entries es ≡ true → named_entry es i < 256
unfolding are_byte_entries
named_entry-small [] i h = omega arith
named_entry-small ((k, c) ∷ es) i h =
    let later = named_entry-small es i (ground arith) in ground arith

map_entry-small :
    (cs : List ℕ) (es : List (ℕ × ℕ)) (i : ℕ)
    → are_bytes cs ≡ true
    → are_byte_entries es ≡ true
    → map_entry cs es i < 256
map_entry-small cs es i h g =
    let near = get_or-small cs i h in let far = named_entry-small es i g in ground arith

charcode-small : (mode i : ℕ) → charcode mode i < 256
unfolding charcode normalmap shiftmap ctlmap are_bytes are_byte_entries
charcode-small mode i =
    let a = map_entry-small normal_keys far_keys i refl refl in
    let b = map_entry-small shift_keys far_keys i refl refl in
    let c = map_entry-small ctl_keys far_ctl_keys i refl refl in
    elim (Bool-cases (mode == 0)) [
      | inl e ↦ rw e a
      | inr e ↦ elim (Bool-cases (mode == 1)) [ inl f ↦ rw (e, f) b | inr f ↦ rw (e, f) c ]
    ]

typed_char-small : (shift scan : ℕ) → typed_char shift scan < 256
unfolding typed_char change_case
typed_char-small shift scan =
    let c = charcode-small (bit_and shift 0x03) scan in
    elim (Bool-cases (bit_and shift 8 == 0)) [ inl e ↦ rw e c | inr e ↦ rw e (ground arith) ]

char-if : (b : Bool) (x y : Key) → x.char < 256 → y.char < 256 → (if b then x else y).char < 256
char-if true x y h g = h
char-if false x y h g = g

-- Whatever byte the keyboard sends, and whatever modifier keys are held, `kbd_proc_data` answers a
-- byte. So it never answers the -1 that would end `cons_intr` while bytes wait.
pub kbd_proc_data-byte : (scan shift : ℕ) → (kbd_proc_data scan shift).char < 256
unfolding kbd_proc_data press release
kbd_proc_data-byte scan shift = char-if (scan == 0xe0) _ _ (omega arith) (
    char-if (not (bit_and scan 0x80 == 0)) _ _ (omega arith)
      (char-if (not (bit_and shift e0_esc == 0)) _ _ (typed_char-small _ _) (typed_char-small _ _)))

-- A test of every number below a bound.
all_below : ℕ → (ℕ → Bool) → Bool
all_below zero test = true
all_below (suc n) test = test n && all_below n test

all_below_lem :
    (n : ℕ) (test : ℕ → Bool) → all_below n test ≡ true → (i : ℕ) → i < n → test i ≡ true
unfolding all_below
all_below_lem zero test all i h = ground arith
all_below_lem (suc n) test all i h =
    let here : test n ≡ true = ground arith in
    let rest : all_below n test ≡ true = ground arith in
    elim (Bool-cases (i == n)) [
      | inl e ↦ let same : i ≡ n = ground arith in ap test same ∙ here
      | inr e ↦ all_below_lem n test rest i (ground arith)
    ]

after_shift : ℕ → ℕ
after_shift shift = (kbd_proc_data 0xaa ((kbd_proc_data 0x2a shift).shift)).shift

shift_test : ℕ → Bool
shift_test shift =
    not ((bit_and shift shift_key == 0) && (bit_and shift e0_esc == 0))
    || (after_shift shift == shift)

shift_test_all : all_below 128 shift_test ≡ true
unfolding all_below shift_test after_shift kbd_proc_data press release shiftcode togglecode
shift_test_all = refl

-- Pressing and releasing a left Shift key, with no escape code before, leaves the modifiers as they
-- were, if no Shift key was down.
pub kbd_proc_data-shift_key :
    (shift : ℕ)
    → shift < 128
    → bit_and shift shift_key ≡ 0
    → bit_and shift e0_esc ≡ 0
    → (kbd_proc_data 0xaa ((kbd_proc_data 0x2a shift).shift)).shift ≡ shift
unfolding shift_test after_shift
kbd_proc_data-shift_key shift small off plain =
    let passed = all_below_lem 128 shift_test shift_test_all shift small in ground arith
