-- ===== src/Console/Rows.antt =====
-- The cursor stays on the screen, and output writes no cell outside it.
use at_jos.Base.{
  ℕ, ◌+◌, ◌-◌, ◌*◌, ◌/◌, ◌%◌, ◌^◌, ◌≤◌, ◌<◌, ◌≡◌, refl, Bool, true, false, ltb, leb, if◌then◌else◌,
  arith, Bool-cases, inl, inr,
}
use at_jos.Console.Screen.{
  Screen, crt_size, serial_putc, lpt_putc, with_attribute, put_char, backspace, carriage_return,
  newline, scroll, move_cursor, put_blank, tab, put_key, cga_putc, cons_putc,
}

-- After a change of `scr` to `scr'` the cursor is before `limit`, and no cell past the screen changed.
pub record IsWithin (limit : ℕ) (scr scr' : Screen) : Type 0 where
  pub cursor : scr'.crt_pos < limit
  pub outside : (i : ℕ) → crt_size ≤ i → scr'.crt_buf i ≡ scr.crt_buf i

scroll-IsWithin : {old scr : Screen} → IsWithin 2080 old scr → IsWithin crt_size old (scroll scr)
unfolding scroll
scroll-IsWithin {old} {scr} is =
    let c = is.cursor in
    elim (Bool-cases (leb crt_size scr.crt_pos)) [
      | inl full ↦ rw full (record {
        cursor = omega arith;
        outside = λ i far. let o = is.outside i far in ground arith;
      })
      | inr room ↦ rw room (record { cursor = ground arith; outside = is.outside })
    ]

move_cursor-IsWithin :
    {limit : ℕ} {old scr : Screen} → IsWithin limit old scr → IsWithin limit old (move_cursor scr)
unfolding move_cursor
move_cursor-IsWithin is = record { cursor = is.cursor; outside = is.outside }

put_char-IsWithin :
    {old scr : Screen} (c : ℕ) → IsWithin crt_size old scr → IsWithin 2080 old (put_char c scr)
unfolding put_char
put_char-IsWithin {old} {scr} c is =
    let p = is.cursor in
    record { cursor = omega arith; outside = λ i far. let o = is.outside i far in ground arith }

put_blank-IsWithin :
    {old scr : Screen} → IsWithin crt_size old scr → IsWithin crt_size old (put_blank scr)
unfolding put_blank lpt_putc serial_putc
put_blank-IsWithin is = move_cursor-IsWithin (
    scroll-IsWithin (
      put_char-IsWithin (with_attribute 0x20)
        (record { cursor = is.cursor; outside = is.outside })))

IsWithin-if :
    {limit : ℕ} {old x y : Screen} (b : Bool)
    → IsWithin limit old x
    → IsWithin limit old y
    → IsWithin limit old (if b then x else y)
IsWithin-if true l r = l
IsWithin-if false l r = r

IsWithin-up : {old scr : Screen} → IsWithin crt_size old scr → IsWithin 2080 old scr
IsWithin-up is = let c = is.cursor in record { cursor = omega arith; outside = is.outside }

backspace-IsWithin :
    {old scr : Screen} (c : ℕ) → IsWithin crt_size old scr → IsWithin 2080 old (backspace c scr)
unfolding backspace
backspace-IsWithin {old} {scr} c is =
    let p = is.cursor in
    IsWithin-if (ltb 0 scr.crt_pos)
      (record { cursor = omega arith; outside = λ i far. let o = is.outside i far in ground arith })
      (IsWithin-up is)

newline-IsWithin : {old scr : Screen} → IsWithin crt_size old scr → IsWithin 2080 old (newline scr)
unfolding newline carriage_return
newline-IsWithin is = let p = is.cursor in record { cursor = omega arith; outside = is.outside }

carriage_return-IsWithin :
    {old scr : Screen} → IsWithin crt_size old scr → IsWithin 2080 old (carriage_return scr)
unfolding carriage_return
carriage_return-IsWithin is =
    let p = is.cursor in record { cursor = omega arith; outside = is.outside }

tab-IsWithin : {old scr : Screen} → IsWithin crt_size old scr → IsWithin 2080 old (tab scr)
unfolding tab
tab-IsWithin is = IsWithin-up (
    put_blank-IsWithin
      (put_blank-IsWithin (put_blank-IsWithin (put_blank-IsWithin (put_blank-IsWithin is)))))

put_key-IsWithin :
    {old scr : Screen} (c : ℕ) → IsWithin crt_size old scr → IsWithin 2080 old (put_key c scr)
unfolding put_key
put_key-IsWithin {old} {scr} c is = IsWithin-if _ (backspace-IsWithin c is) (
    IsWithin-if _ (newline-IsWithin is) (
      IsWithin-if _ (carriage_return-IsWithin is)
        (IsWithin-if _ (tab-IsWithin is) (put_char-IsWithin c is))))

-- From a cursor on the screen, whatever is printed, control characters and scrolling included,
-- the cursor stays before the end of the screen and no cell past the screen buffer changes.
pub cons_putc_lem :
    (c : ℕ) (scr : Screen) → scr.crt_pos < crt_size → IsWithin crt_size scr (cons_putc c scr)
unfolding cons_putc cga_putc lpt_putc serial_putc
cons_putc_lem c scr h = move_cursor-IsWithin (
    scroll-IsWithin
      (put_key-IsWithin (with_attribute c) (record { cursor = h; outside = λ i far. refl })))

-- From a cursor on the screen, a newline in the last row moves every row up by one, blanks the
-- last one and puts the cursor at its start; in an earlier row it only moves the cursor to the
-- start of the next.
pub cga_putc-newline :
    (scr : Screen) (i : ℕ)
    → scr.crt_pos < crt_size
    → i < crt_size
    → let last = leb 1920 scr.crt_pos in
      ((cga_putc 10 scr).crt_pos ≡ (if last then 1920 else (scr.crt_pos / 80 + 1) * 80))
      × ((cga_putc 10 scr).crt_buf i
          ≡ (if last then (if ltb i 1920 then scr.crt_buf (i + 80) else 0x720) else scr.crt_buf i))
unfolding cga_putc put_key newline carriage_return scroll move_cursor with_attribute
cga_putc-newline scr i h g =
    let next = (scr.crt_pos + 80) % 2 ^ 16 - (scr.crt_pos + 80) % 2 ^ 16 % 80 in
    elim (Bool-cases (leb 1920 scr.crt_pos)) [
      | inl last ↦
          let low : 1920 ≤ scr.crt_pos = ground arith in
          let to : next ≡ 2000 = omega arith in
          let full : leb crt_size next ≡ true = ground arith in
          rw (last, full) (omega arith, ground arith)
      | inr more ↦
          let high : scr.crt_pos < 1920 = ground arith in
          let to : next ≡ (scr.crt_pos / 80 + 1) * 80 = omega arith in
          let room : leb crt_size next ≡ false = ground arith in rw (more, room) (to, refl)
    ]
