-- ===== src/Pmap/UserMem.antt =====
-- `user_mem_check` of pmap.c, which the kernel calls before it reads memory for a user program.
pub mod Range
pub mod Text
pub mod Wrap
use at_jos.Base.{
  ℕ, zero, suc, ◌+◌, ◌/◌, ◌%◌, Bool, true, false, not, ◌||◌, Option, none, some, ◌==◌, ltb, leb,
  if◌then◌else◌, bit_and,
}
use at_jos.Base.Int.{ℤ, pos, neg}
use at_jos.Base.Monad.{Outcome, done, Cmd, ◌>>=◌, ◌>>◌, pure, panic, modify, gets}
use at_jos.Pmap.Addr.{pte_p, has_flag, page_size, word_mod, ulim, round_down, round_up}
use at_jos.Pmap.State.{Memory}
use at_jos.Pmap.Table.{Slot, pgdir_walk}

-- E_FAULT
abbrev pub e_fault : ℕ
e_fault = 6

-- `*page_tbl_entry`, or `none` for a null pointer.
unfoldable pub slot_word : Memory → Option Slot → Option ℕ
slot_word m none = none
slot_word m (some s) = some (m.words s.table s.index)

-- The test of one page, as the source writes it.
unfoldable pub is_refused : ℕ → ℕ → Option ℕ → Bool
is_refused perm start none = true
is_refused perm start (some pte) =
    leb ulim start || not (has_flag pte pte_p) || not (bit_and pte perm == perm)

-- `return -E_FAULT` with the first bad address noted.
abbrev pub fault_at : ℕ → ℕ → Cmd Memory ℤ
fault_at va start m =
    done (neg e_fault, record m { user_mem_check_addr = if ltb start va then va else start })

-- The `while` loop, with fuel.
unfoldable pub check_pages : ℕ → ℕ → ℕ → ℕ → ℕ → ℕ → Cmd Memory ℤ
check_pages zero pgdir va perm start end = panic
check_pages (suc fuel) pgdir va perm start end =
    let rest = check_pages fuel pgdir va perm ((start + page_size) % word_mod) end in
    if ltb start end
    then (do
      slot ← pgdir_walk pgdir start false
      refused ← gets (λ m. is_refused perm start (slot_word m slot))
      if refused then fault_at va start else rest)
    else pure (pos 0)

unfoldable pub user_mem_check : ℕ → ℕ → ℕ → ℕ → Cmd Memory ℤ
user_mem_check pgdir va len perm =
    let start = round_down va page_size in
    let end = round_up ((va + len) % word_mod) page_size in
    check_pages (suc (end / page_size)) pgdir va perm start end
