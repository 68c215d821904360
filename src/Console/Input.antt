-- ===== src/Console/Input.antt =====
-- The console input buffer. An interrupt routine polls its device until the device answers -1; it is
-- given here as the list of the values the device answers before that.
use at_jos.Base.{ℕ, ◌+◌, ◌%◌, Bool, List, [], ◌∷◌, ◌==◌, if◌then◌else◌}

-- `CONSBUFSIZE`
abbrev pub cons_buf_size : ℕ
cons_buf_size = 512

pub record Cons : Type 0 where
  pub buf : ℕ → ℕ
  pub rpos : ℕ
  pub wpos : ℕ

abbrev pub wrap : ℕ → ℕ
wrap i = if i == cons_buf_size then 0 else i

-- One round of the loop of `cons_intr`.
unfoldable pub store_input : ℕ → Cons → Cons
store_input c cons = if c == 0 then cons else record cons {
  buf = λ i. if i == cons.wpos then c % 256 else cons.buf i;
  wpos = wrap (cons.wpos + 1);
}

unfoldable pub cons_intr : List ℕ → Cons → Cons
cons_intr [] cons = cons
cons_intr (c ∷ cs) cons = cons_intr cs (store_input c cons)

-- `serial_exists`, and what `serial_proc_data` answers.
unfoldable pub serial_intr : Bool → List ℕ → Cons → Cons
serial_intr exists received cons = if exists then cons_intr received cons else cons

unfoldable pub kbd_intr : List ℕ → Cons → Cons
kbd_intr typed cons = cons_intr typed cons

-- The end of `cons_getc`, after the devices are polled.
unfoldable pub next_input : Cons → ℕ × Cons
next_input cons =
    if cons.rpos == cons.wpos
    then (0, cons)
    else (cons.buf cons.rpos, record cons { rpos = wrap (cons.rpos + 1) })

unfoldable pub cons_getc : Bool → List ℕ → List ℕ → Cons → ℕ × Cons
cons_getc exists received typed cons =
    next_input (kbd_intr typed (serial_intr exists received cons))
