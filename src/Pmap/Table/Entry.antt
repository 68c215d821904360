-- ===== src/Pmap/Table/Entry.antt =====
-- Page table entries as the hardware reads them: the present bit and the page number.
use at_jos.Base.{ℕ, ◌^◌, ◌<◌, ◌≡◌, refl, true, false, arith, bit_or, not, ap, ◌==◌, ◌⊎◌}
use at_jos.Base.Bits.{or-page, or_step, and-or_absorb}
use at_jos.Pmap.Addr.{pgnum, pte_addr, pte_p, pte_w, pte_u, has_flag, page2pa, present_iff}
use at_jos.Pmap.Alloc.Laws.{pgnum-page2pa}

-- The entry that `page_insert` stores, and the one that `pgdir_walk` stores for a new table.
abbrev pub pte_of : ℕ → ℕ → ℕ
pte_of pp perm = bit_or (bit_or (page2pa pp) perm) pte_p

abbrev pub pde_of : ℕ → ℕ
pde_of pp = bit_or (bit_or (bit_or (page2pa pp) pte_p) pte_u) pte_w

pub pgnum-pte_addr : (x : ℕ) → pgnum (pte_addr x) ≡ pgnum x
unfolding pgnum pte_addr
pgnum-pte_addr x = omega arith

pub present-zero : has_flag 0 pte_p ≡ false
present-zero = refl

-- An entry made by the kernel is present and names its page.
pub present-pte : (pp perm : ℕ) → has_flag (pte_of pp perm) pte_p ≡ true
present-pte pp perm = (present_iff _).1 (omega (arith, or_step (bit_or (page2pa pp) perm) 1))

pub present-pde : (pp : ℕ) → has_flag (pde_of pp) pte_p ≡ true
present-pde pp = (present_iff _).1 (
    omega (
      arith,
      or_step (bit_or (bit_or (page2pa pp) pte_p) pte_u) pte_w,
      or_step (bit_or (page2pa pp) pte_p) pte_u,
      or_step (page2pa pp) pte_p,
    ))

pub writable-pde : (pp : ℕ) → has_flag (pde_of pp) pte_w ≡ true
writable-pde pp =
    ap (λ w. not (w == 0)) (and-or_absorb (bit_or (bit_or (page2pa pp) pte_p) pte_u) pte_w)

-- A directory slot that is empty, or names a page table that may be written through.
abbrev pub IsPlain : ℕ → Type 0
IsPlain w = (w ≡ 0) ⊎ ((has_flag w pte_p ≡ true) × (has_flag w pte_w ≡ true))

pub pgnum-pte : (pp perm : ℕ) → pp < 2 ^ 20 → perm < 4096 → pgnum (pte_addr (pte_of pp perm)) ≡ pp
unfolding pgnum
pgnum-pte pp perm small low = omega (
  arith,
  pgnum-pte_addr (pte_of pp perm),
  or-page (bit_or (page2pa pp) perm) 1 (omega arith),
  or-page (page2pa pp) perm low,
  pgnum-page2pa pp small,
)

pub pgnum-pde : (pp : ℕ) → pp < 2 ^ 20 → pgnum (pte_addr (pde_of pp)) ≡ pp
unfolding pgnum
pgnum-pde pp small = omega (
  arith,
  pgnum-pte_addr (pde_of pp),
  or-page (bit_or (bit_or (page2pa pp) pte_p) pte_u) pte_w (omega arith),
  or-page (bit_or (page2pa pp) pte_p) pte_u (omega arith),
  or-page (page2pa pp) pte_p (omega arith),
  pgnum-page2pa pp small,
)
