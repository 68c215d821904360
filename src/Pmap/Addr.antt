-- ===== src/Pmap/Addr.antt =====
-- Addresses: the macros of inc/mmu.h, inc/types.h and pmap.h. An address is a number below 2 ^ 32;
-- `x >> k` is `x / 2 ^ k` and `x << k` is `x * 2 ^ k`, cut to 32 bits.
use at_jos.Base.{
  ℕ, ◌+◌, ◌-◌, ◌*◌, ◌/◌, ◌%◌, ◌^◌, ◌≤◌, ◌<◌, ◌≡◌, bit_or, bit_and, Bool, true, not, ◌==◌, arith, ap,
  ◌↔◌,
}
use at_jos.Base.Bits.{or_disjoint, and-one, or-page}

abbrev pub word_mod : ℕ
word_mod = 2 ^ 32

abbrev pub page_size : ℕ
page_size = 4096

-- NPTENTRIES, NPDENTRIES
abbrev pub table_entries : ℕ
table_entries = 1024

abbrev pub kern_base : ℕ
kern_base = 0xf000_0000

abbrev pub ext_phys_mem : ℕ
ext_phys_mem = 0x10_0000

-- PTSIZE
abbrev pub table_size : ℕ
table_size = page_size * table_entries

abbrev pub kstack_top : ℕ
kstack_top = kern_base

abbrev pub kstack_size : ℕ
kstack_size = 8 * page_size

-- MMIOLIM, MMIOBASE and ULIM
abbrev pub ulim : ℕ
ulim = kstack_top - table_size - table_size

abbrev pub uvpt : ℕ
uvpt = ulim - table_size

abbrev pub upages : ℕ
upages = uvpt - table_size

abbrev pub uenvs : ℕ
uenvs = upages - table_size

abbrev pub utop : ℕ
utop = uenvs

abbrev pub ustack_top : ℕ
ustack_top = utop - 2 * page_size

abbrev pub pte_p : ℕ
pte_p = 0x001

abbrev pub pte_w : ℕ
pte_w = 0x002

abbrev pub pte_u : ℕ
pte_u = 0x004

-- `word & flag`, read as a condition.
abbrev pub has_flag : ℕ → ℕ → Bool
has_flag word flag = not (bit_and word flag == 0)

unfoldable pub pgnum : ℕ → ℕ
pgnum la = la / 2 ^ 12

unfoldable pub pdx : ℕ → ℕ
pdx la = la / 2 ^ 22 % 2 ^ 10

unfoldable pub ptx : ℕ → ℕ
ptx la = la / 2 ^ 12 % 2 ^ 10

unfoldable pub pgoff : ℕ → ℕ
pgoff la = la % 2 ^ 12

unfoldable pub pgaddr : ℕ → ℕ → ℕ → ℕ
pgaddr d t o = bit_or (bit_or (d * 2 ^ 22 % word_mod) (t * 2 ^ 12 % word_mod)) o

-- PTE_ADDR clears the low twelve bits.
unfoldable pub pte_addr : ℕ → ℕ
pte_addr pte = pte / 2 ^ 12 * 2 ^ 12

unfoldable pub round_down : ℕ → ℕ → ℕ
round_down a n = a - a % n

-- The sum is cut to 32 bits before it is rounded down.
unfoldable pub round_up : ℕ → ℕ → ℕ
unfolding round_down
round_up a n = round_down ((a + n - 1) % word_mod) n

-- `page2pa`: a page is named by its index in `pages`.
unfoldable pub page2pa : ℕ → ℕ
page2pa pp = pp * 2 ^ 12 % word_mod

-- The macro adds three fields that do not overlap.
pub pgaddr_sum :
    (d t o : ℕ) → d < 1024 → t < 1024 → o < 4096 → pgaddr d t o ≡ d * 2 ^ 22 + t * 2 ^ 12 + o
unfolding pgaddr
pgaddr_sum d t o hd ht ho = cc (
  ap (λ (x : ℕ). bit_or (bit_or x (t * 2 ^ 12 % word_mod)) o) dir,
  ap (λ (x : ℕ). bit_or (bit_or (d * 2 ^ 22) x) o) table,
  ap (λ (x : ℕ). bit_or x o) upper,
  or_disjoint 12 (d * 2 ^ 10 + t) o ho,
  both,
)
  where
    dir : d * 2 ^ 22 % word_mod ≡ d * 2 ^ 22
    dir = omega arith

    table : t * 2 ^ 12 % word_mod ≡ t * 2 ^ 12
    table = omega arith

    upper : bit_or (d * 2 ^ 22) (t * 2 ^ 12) ≡ (d * 2 ^ 10 + t) * 2 ^ 12
    upper = omega (arith, or_disjoint 22 d (t * 2 ^ 12) (omega arith))

    both : (d * 2 ^ 10 + t) * 2 ^ 12 + o ≡ d * 2 ^ 22 + t * 2 ^ 12 + o
    both = omega arith

-- A 32-bit address is put together again by PGADDR from its PDX, PTX and PGOFF.
pub pgaddr-parts : (la : ℕ) → la < word_mod → pgaddr (pdx la) (ptx la) (pgoff la) ≡ la
unfolding pdx ptx pgoff
pgaddr-parts la h = omega (
  arith,
  pgaddr_sum (la / 2 ^ 22 % 2 ^ 10) (la / 2 ^ 12 % 2 ^ 10) (la % 2 ^ 12) (omega arith) (omega arith)
      (omega arith),
)

pub parts-pgaddr :
    (d t o : ℕ)
    → d < 1024
    → t < 1024
    → o < 4096
    → (pdx (pgaddr d t o) ≡ d) × (ptx (pgaddr d t o) ≡ t) × (pgoff (pgaddr d t o) ≡ o)
unfolding pdx ptx pgoff
parts-pgaddr d t o hd ht ho = omega (arith, pgaddr_sum d t o hd ht ho)

-- Two addresses are on one page exactly if they share both indices.
pub pgnum-pdx-ptx :
    (a b : ℕ) → a < word_mod → b < word_mod → pdx a ≡ pdx b → ptx a ≡ ptx b → pgnum a ≡ pgnum b
unfolding pdx ptx pgnum
pgnum-pdx-ptx a b ha hb hd ht = omega arith

-- ROUNDUP to a page gives the first multiple of PGSIZE at or above the address, unless the sum
-- leaves the word.
pub round_up_bounds :
    (a : ℕ)
    → a + (page_size - 1) < word_mod
    → (a ≤ round_up a page_size)
      × (round_up a page_size < a + page_size)
      × (round_up a page_size % page_size ≡ 0)
unfolding round_up
round_up_bounds a h = omega arith

-- Past that bound the macro gives 0.
pub round_up-wraps :
    (a : ℕ) → a < word_mod → word_mod ≤ a + (page_size - 1) → round_up a page_size ≡ 0
unfolding round_up
round_up-wraps a h k = omega arith

pub present_iff : (x : ℕ) → (has_flag x pte_p ≡ true) ↔ (x % 2 ≡ 1)
present_iff x = rw and-one (ground arith)

-- An entry for page `p` with flags below a page boundary: it names the page, and it is present.
pub pgnum-entry : (x flags : ℕ) → flags < 4096 → pgnum (pte_addr (bit_or x flags)) ≡ pgnum x
unfolding pgnum pte_addr
pgnum-entry x flags h = omega (arith, or-page x flags h)
