-- ===== src/Pmap/Check.antt =====
-- `check_page_alloc` and `check_page_free_list` of pmap.c. The loops along the free list get fuel; a list
-- that is longer counts as a panic.
pub mod Same
pub mod Alloc
pub mod Passes
pub mod Split
use at_jos.Base.{ℕ, zero, suc, ◌+◌, ◌*◌, ◌/◌, ◌%◌, not, ◌&&◌, Option, none, some, ◌==◌, ltb}
use at_jos.Base.Monad.{Cmd, done, panicked, pure, panic, assert, gets, modify, ◌>>=◌, ◌>>◌}
use at_jos.Pmap.Addr.{page_size, word_mod, ext_phys_mem, kern_base, pdx, page2pa}
use at_jos.Pmap.State.{Memory, PageInfo, page2kva, update}
use at_jos.Pmap.Alloc.{page_alloc, page_free, alloc_zero}

abbrev one_more : Option ℕ → Option ℕ
one_more none = none
one_more (some n) = some (n + 1)

-- `for (pp = page_free_list, nfree = 0; pp; pp = pp->pp_link) ++nfree;`
unfoldable pub count_pages : ℕ → (ℕ → PageInfo) → Option ℕ → Option ℕ
count_pages fuel pages none = some 0
count_pages zero pages (some pp) = none
count_pages (suc fuel) pages (some pp) = one_more (count_pages fuel pages (pages pp).pp_link)

unfoldable pub count_free : ℕ → Cmd Memory ℕ
count_free fuel m = elim (count_pages fuel m.pages m.page_free_list) [
  | none ↦ panicked
  | some n ↦ done (n, m)
]

-- `assert((pp = page_alloc(flags)))`
unfoldable pub must_alloc : ℕ → Cmd Memory ℕ
must_alloc flags = do pp ← page_alloc flags; elim pp [ none ↦ panic | some p ↦ pure p ]

-- `assert(!page_alloc(0))`
unfoldable pub must_be_out : Cmd Memory (Unit {0})
must_be_out = do pp ← page_alloc 0; elim pp [ none ↦ pure tt | some p ↦ panic ]

-- `memset(page2kva(pp), byte, PGSIZE)`, where `word` is four times the byte.
unfoldable pub fill_page : ℕ → ℕ → Cmd Memory (Unit {0})
fill_page word pp = do
  p ← page2kva pp
  modify (λ m. record m { words = update m.words p (λ i. word) })

unfoldable pub set_free_list : Option ℕ → Cmd Memory (Unit {0})
set_free_list head = modify (λ m. record m { page_free_list = head })

-- `assert(c[i] == 0)` for the bytes of a page, four at a time, with `rounds` words left.
unfoldable pub check_cleared : ℕ → ℕ → ℕ → Cmd Memory (Unit {0})
check_cleared c zero i = pure tt
check_cleared c (suc rounds) i = do
  word ← gets (λ m. m.words c i)
  assert (word == 0)
  check_cleared c rounds (i + 1)

-- Three pages, all different and in memory.
unfoldable pub take_three : Cmd Memory (ℕ × ℕ × ℕ)
take_three = do
  pp0 ← must_alloc 0
  pp1 ← must_alloc 0
  pp2 ← must_alloc 0
  assert (not (pp1 == pp0))
  assert (not (pp2 == pp1) && not (pp2 == pp0))
  npages ← gets (λ m. m.npages)
  assert (ltb (page2pa pp0) (npages * page_size % word_mod))
  assert (ltb (page2pa pp1) (npages * page_size % word_mod))
  assert (ltb (page2pa pp2) (npages * page_size % word_mod))
  pure (pp0, pp1, pp2)

unfoldable pub free_three : ℕ → ℕ → ℕ → Cmd Memory (Unit {0})
free_three pp0 pp1 pp2 = do page_free pp0; page_free pp1; page_free pp2

-- With no other free page: the pages are freed and allocated again, and then there is none.
unfoldable pub take_again : ℕ → ℕ → ℕ → Cmd Memory (ℕ × ℕ × ℕ)
take_again pp0 pp1 pp2 = do
  must_be_out
  free_three pp0 pp1 pp2
  pp0' ← must_alloc 0
  pp1' ← must_alloc 0
  pp2' ← must_alloc 0
  assert (not (pp1' == pp0'))
  assert (not (pp2' == pp1') && not (pp2' == pp0'))
  must_be_out
  pure (pp0', pp1', pp2')

-- A page full of ones comes back cleared.
unfoldable pub check_zeroed : ℕ → Cmd Memory (Unit {0})
check_zeroed pp0 = do
  fill_page 0x0101_0101 pp0
  page_free pp0
  pp ← must_alloc alloc_zero
  assert (pp0 == pp)
  c ← page2kva pp
  check_cleared c (page_size / 4) 0

-- The array `pages` is there, so that its test for NULL is left out.
unfoldable pub check_page_alloc : ℕ → Cmd Memory (Unit {0})
check_page_alloc fuel = do
  nfree ← count_free fuel
  (pp0, pp1, pp2) ← take_three
  fl ← gets (λ m. m.page_free_list)
  set_free_list none
  (pp0', pp1', pp2') ← take_again pp0 pp1 pp2
  check_zeroed pp0'
  set_free_list fl
  free_three pp0' pp1' pp2'
  left ← count_free fuel
  assert (left == nfree)
