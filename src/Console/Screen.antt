-- ===== src/Console/Screen.antt =====
-- Console output: the CGA text screen, and what is written to the ports of the devices, the latest
-- write first. The waits on the status registers, which change no state, are left out.
use at_jos.Base.{ℕ, ◌+◌, ◌-◌, ◌/◌, ◌%◌, ◌^◌, List, ◌∷◌, ◌==◌, ltb, leb, if◌then◌else◌, bit_or}

abbrev pub crt_cols : ℕ
crt_cols = 80

abbrev pub crt_size : ℕ
crt_size = 2000

pub record Screen : Type 0 where
  pub addr_6845 : ℕ
  pub crt_buf : ℕ → ℕ
  pub crt_pos : ℕ
  pub ports : List (ℕ × ℕ)

abbrev pub outb : ℕ → ℕ → Screen → Screen
outb port v scr = record scr { ports = (port, v % 256) ∷ scr.ports }

unfoldable pub serial_putc : ℕ → Screen → Screen
serial_putc c scr = outb 0x3f8 c scr

unfoldable pub lpt_putc : ℕ → Screen → Screen
lpt_putc c scr = outb 0x37a 0x08 (outb 0x37a 0x0d (outb 0x378 c scr))

-- A 16-bit cell is stored.
abbrev pub put_cell : ℕ → ℕ → Screen → Screen
put_cell i v scr = record scr { crt_buf = λ j. if j == i then v % 2 ^ 16 else scr.crt_buf j }

-- `if (!(c & ~0xFF)) c |= 0x0700;`
unfoldable pub with_attribute : ℕ → ℕ
with_attribute c = if c / 256 == 0 then bit_or c 0x700 else c

-- The `default` case, where `c` has its attribute.
unfoldable pub put_char : ℕ → Screen → Screen
put_char c scr = record (put_cell scr.crt_pos c scr) { crt_pos = (scr.crt_pos + 1) % 2 ^ 16 }

unfoldable pub backspace : ℕ → Screen → Screen
backspace c scr =
    if ltb 0 scr.crt_pos
    then record (put_cell (scr.crt_pos - 1) (bit_or (c - c % 256) 0x20) scr) {
      crt_pos = scr.crt_pos - 1;
    }
    else scr

unfoldable pub carriage_return : Screen → Screen
carriage_return scr = record scr { crt_pos = scr.crt_pos - scr.crt_pos % crt_cols }

unfoldable pub newline : Screen → Screen
newline scr = carriage_return (record scr { crt_pos = (scr.crt_pos + crt_cols) % 2 ^ 16 })

-- The rows move up by one, and the last one is blank.
unfoldable pub scroll : Screen → Screen
scroll scr =
    if leb crt_size scr.crt_pos
    then record scr {
      crt_buf = λ i.
          if ltb i (crt_size - crt_cols)
          then scr.crt_buf (i + crt_cols)
          else if ltb i crt_size
          then bit_or 0x700 0x20
          else scr.crt_buf i;
      crt_pos = scr.crt_pos - crt_cols;
    }
    else scr

unfoldable pub move_cursor : Screen → Screen
move_cursor scr = outb (scr.addr_6845 + 1) scr.crt_pos (
    outb scr.addr_6845 15
      (outb (scr.addr_6845 + 1) (scr.crt_pos / 256) (outb scr.addr_6845 14 scr)))

-- `cons_putc(' ')`, which reaches the `default` case of `cga_putc`.
unfoldable pub put_blank : Screen → Screen
put_blank scr =
    move_cursor (scroll (put_char (with_attribute 0x20) (lpt_putc 0x20 (serial_putc 0x20 scr))))

unfoldable pub tab : Screen → Screen
tab scr = put_blank (put_blank (put_blank (put_blank (put_blank scr))))

-- The `switch` of `cga_putc`.
unfoldable pub put_key : ℕ → Screen → Screen
put_key c scr =
    if c % 256 == 8
    then backspace c scr
    else if c % 256 == 10
    then newline scr
    else if c % 256 == 13
    then carriage_return scr
    else if c % 256 == 9
    then tab scr
    else put_char c scr

unfoldable pub cga_putc : ℕ → Screen → Screen
cga_putc c scr = move_cursor (scroll (put_key (with_attribute c) scr))

unfoldable pub cons_putc : ℕ → Screen → Screen
cons_putc c scr = cga_putc c (lpt_putc c (serial_putc c scr))
