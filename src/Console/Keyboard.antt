-- ===== src/Console/Keyboard.antt =====
-- Keyboard input: the key maps, and the decoding of scan codes. What is typed is 0 where a scan code
-- makes no character.
use at_jos.Base.{
  ℕ, zero, suc, ◌+◌, ◌-◌, Bool, false, not, ◌&&◌, ◌||◌, List, [], ◌∷◌, ◌==◌, ltb, leb,
  if◌then◌else◌, bit_and, bit_or, bit_xor, get_or, length,
}

abbrev pub shift_key : ℕ
shift_key = 0x01

abbrev pub ctl_key : ℕ
ctl_key = 0x02

abbrev pub alt_key : ℕ
alt_key = 0x04

abbrev pub caps_lock : ℕ
caps_lock = 0x08

abbrev pub e0_esc : ℕ
e0_esc = 0x40

abbrev pub key_del : ℕ
key_del = 0xe9

unfoldable pub shiftcode : ℕ → ℕ
shiftcode i =
    if i == 0x1d
    then ctl_key
    else if (i == 0x2a) || (i == 0x36)
    then shift_key
    else if i == 0x38
    then alt_key
    else if i == 0x9d
    then ctl_key
    else if i == 0xb8
    then alt_key
    else 0

unfoldable pub togglecode : ℕ → ℕ
togglecode i =
    if i == 0x3a then caps_lock else if i == 0x45 then 0x10 else if i == 0x46 then 0x20 else 0

-- The entries that a map names by their index, 0 elsewhere.
abbrev pub named_entry : List (ℕ × ℕ) → ℕ → ℕ
named_entry [] i = 0
named_entry ((k, c) ∷ rest) i = if i == k then c else named_entry rest i

abbrev pub entry_of : List ℕ → List (ℕ × ℕ) → ℕ → ℕ
entry_of [] named i = named_entry named i
entry_of (c ∷ cs) named i = elim i [ zero ↦ c | suc j ↦ 0 ]

abbrev pub normal_keys : List ℕ
normal_keys =
    0 ∷ 27 ∷ 49 ∷ 50 ∷ 51 ∷ 52 ∷ 53 ∷ 54 ∷ 55 ∷ 56 ∷ 57 ∷ 48 ∷ 45 ∷ 61 ∷ 8 ∷ 9 ∷ 113 ∷ 119 ∷ 101
    ∷ 114 ∷ 116 ∷ 121 ∷ 117 ∷ 105 ∷ 111 ∷ 112 ∷ 91 ∷ 93 ∷ 10 ∷ 0 ∷ 97 ∷ 115 ∷ 100 ∷ 102 ∷ 103 ∷ 104
    ∷ 106 ∷ 107 ∷ 108 ∷ 59 ∷ 39 ∷ 96 ∷ 0 ∷ 92 ∷ 122 ∷ 120 ∷ 99 ∷ 118 ∷ 98 ∷ 110 ∷ 109 ∷ 44 ∷ 46 ∷ 47
    ∷ 0 ∷ 42 ∷ 0 ∷ 32 ∷ 0 ∷ 0 ∷ 0 ∷ 0 ∷ 0 ∷ 0 ∷ 0 ∷ 0 ∷ 0 ∷ 0 ∷ 0 ∷ 0 ∷ 0 ∷ 55 ∷ 56 ∷ 57 ∷ 45 ∷ 52
    ∷ 53 ∷ 54 ∷ 43 ∷ 49 ∷ 50 ∷ 51 ∷ 48 ∷ 46 ∷ 0 ∷ 0 ∷ 0 ∷ 0 ∷ []

abbrev pub shift_keys : List ℕ
shift_keys =
    0 ∷ 27 ∷ 33 ∷ 64 ∷ 35 ∷ 36 ∷ 37 ∷ 94 ∷ 38 ∷ 42 ∷ 40 ∷ 41 ∷ 95 ∷ 43 ∷ 8 ∷ 9 ∷ 81 ∷ 87 ∷ 69 ∷ 82
    ∷ 84 ∷ 89 ∷ 85 ∷ 73 ∷ 79 ∷ 80 ∷ 123 ∷ 125 ∷ 10 ∷ 0 ∷ 65 ∷ 83 ∷ 68 ∷ 70 ∷ 71 ∷ 72 ∷ 74 ∷ 75 ∷ 76
    ∷ 58 ∷ 34 ∷ 126 ∷ 0 ∷ 124 ∷ 90 ∷ 88 ∷ 67 ∷ 86 ∷ 66 ∷ 78 ∷ 77 ∷ 60 ∷ 62 ∷ 63 ∷ 0 ∷ 42 ∷ 0 ∷ 32
    ∷ 0 ∷ 0 ∷ 0 ∷ 0 ∷ 0 ∷ 0 ∷ 0 ∷ 0 ∷ 0 ∷ 0 ∷ 0 ∷ 0 ∷ 0 ∷ 55 ∷ 56 ∷ 57 ∷ 45 ∷ 52 ∷ 53 ∷ 54 ∷ 43 ∷ 49
    ∷ 50 ∷ 51 ∷ 48 ∷ 46 ∷ 0 ∷ 0 ∷ 0 ∷ 0 ∷ []

abbrev pub ctl_keys : List ℕ
ctl_keys =
    0 ∷ 0 ∷ 0 ∷ 0 ∷ 0 ∷ 0 ∷ 0 ∷ 0 ∷ 0 ∷ 0 ∷ 0 ∷ 0 ∷ 0 ∷ 0 ∷ 0 ∷ 0 ∷ 17 ∷ 23 ∷ 5 ∷ 18 ∷ 20 ∷ 25 ∷ 21
    ∷ 9 ∷ 15 ∷ 16 ∷ 0 ∷ 0 ∷ 13 ∷ 0 ∷ 1 ∷ 19 ∷ 4 ∷ 6 ∷ 7 ∷ 8 ∷ 10 ∷ 11 ∷ 12 ∷ 0 ∷ 0 ∷ 0 ∷ 0 ∷ 28 ∷ 26
    ∷ 24 ∷ 3 ∷ 22 ∷ 2 ∷ 14 ∷ 13 ∷ 0 ∷ 0 ∷ 239 ∷ 0 ∷ 0 ∷ []

abbrev pub far_keys : List (ℕ × ℕ)
far_keys =
    (0xc7, 224)
    ∷ (0x9c, 10)
    ∷ (0xb5, 47)
    ∷ (0xc8, 226)
    ∷ (0xc9, 230)
    ∷ (0xcb, 228)
    ∷ (0xcd, 229)
    ∷ (0xcf, 225)
    ∷ (0xd0, 227)
    ∷ (0xd1, 231)
    ∷ (0xd2, 232)
    ∷ (0xd3, 233)
    ∷ []

abbrev pub far_ctl_keys : List (ℕ × ℕ)
far_ctl_keys =
    (0x97, 224)
    ∷ (0xb5, 239)
    ∷ (0xc8, 226)
    ∷ (0xc9, 230)
    ∷ (0xcb, 228)
    ∷ (0xcd, 229)
    ∷ (0xcf, 225)
    ∷ (0xd0, 227)
    ∷ (0xd1, 231)
    ∷ (0xd2, 232)
    ∷ (0xd3, 233)
    ∷ []

-- A map, by its leading entries and the named ones.
abbrev pub map_entry : List ℕ → List (ℕ × ℕ) → ℕ → ℕ
map_entry keys named i = if ltb i (length keys) then get_or keys i 0 else named_entry named i

unfoldable pub normalmap : ℕ → ℕ
normalmap i = map_entry normal_keys far_keys i

unfoldable pub shiftmap : ℕ → ℕ
shiftmap i = map_entry shift_keys far_keys i

unfoldable pub ctlmap : ℕ → ℕ
ctlmap i = map_entry ctl_keys far_ctl_keys i

-- `charcode[shift & (CTL | SHIFT)]`
unfoldable pub charcode : ℕ → ℕ → ℕ
charcode mode i = if mode == 0 then normalmap i else if mode == 1 then shiftmap i else ctlmap i

abbrev pub without_bits : ℕ → ℕ → ℕ
without_bits bits shift = bit_and shift (0xffff_ffff - bits)

-- What Caps Lock makes of a character.
unfoldable pub change_case : ℕ → ℕ
change_case c = if leb 97 c && leb c 122 then c - 32 else if leb 65 c && leb c 90 then c + 32 else c

-- The character of a key press, with the modifiers `shift` in force.
unfoldable pub typed_char : ℕ → ℕ → ℕ
typed_char shift scan =
    let c = charcode (bit_and shift 0x03) scan in
    if bit_and shift caps_lock == 0 then c else change_case c

pub record Key : Type 0 where
  pub char : ℕ
  pub shift : ℕ
  pub reboots : Bool

-- A key press, where `scan` has its escape bit.
unfoldable pub press : ℕ → ℕ → Key
press shift scan =
    let now = bit_xor (bit_or shift (shiftcode scan)) (togglecode scan) in
    let c = typed_char now scan in
    record {
      char = c;
      shift = now;
      reboots = (bit_and (0xffff_ffff - now) 0x06 == 0) && (c == key_del);
    }

unfoldable pub release : ℕ → ℕ → Key
release shift scan =
    let key = if bit_and shift e0_esc == 0 then bit_and scan 0x7f else scan in
    record { char = 0; shift = without_bits (bit_or (shiftcode key) e0_esc) shift; reboots = false }

-- `kbd_proc_data` on the byte read from the keyboard.
unfoldable pub kbd_proc_data : ℕ → ℕ → Key
kbd_proc_data scan shift =
    if scan == 0xe0
    then record { char = 0; shift = bit_or shift e0_esc; reboots = false }
    else if not (bit_and scan 0x80 == 0)
    then release shift scan
    else if not (bit_and shift e0_esc == 0)
    then press (without_bits e0_esc shift) (bit_or scan 0x80)
    else press shift scan
