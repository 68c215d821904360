-- ===== src/Pmap/Check/Split.antt =====
-- `check_page_free_list` of pmap.c: the pages with low addresses are moved to the front of the free
-- list, and each page of the list is checked.
pub mod Segment
pub mod Sort
pub mod Joined
pub mod Spoil
pub mod Listed
pub mod Passes
use at_jos.Base.{
  ℕ, zero, suc, ◌+◌, ◌-◌, ◌%◌, Bool, not, Option, none, some, ◌==◌, ltb, leb, if◌then◌else◌,
}
use at_jos.Base.Monad.{Cmd, done, panicked, pure, panic, assert, gets, modify, ◌>>=◌, ◌>>◌}
use at_jos.Pmap.Addr.{page_size, word_mod, ext_phys_mem, kern_base, pdx, page2pa, table_entries}
use at_jos.Pmap.State.{Memory, PageInfo, page2kva, update}

-- The variables `pp1` and `pp2` and the `pp_link` fields, with `tp[0]` and `tp[1]`: `none` is the address
-- of the variable, and `some p` that of the link of page `p`.
pub record Split : Type 0 where
  pub pages : ℕ → PageInfo
  pub low_head : Option ℕ
  pub high_head : Option ℕ
  pub low_tail : Option ℕ
  pub high_tail : Option ℕ

abbrev pub set_link : ℕ → Option ℕ → (ℕ → PageInfo) → ℕ → PageInfo
set_link p v pages = update pages p (record { pp_ref = (pages p).pp_ref; pp_link = v })

-- A store through one of the two: to the link, or to the variable.
abbrev pub put_pages : Option ℕ → Option ℕ → (ℕ → PageInfo) → ℕ → PageInfo
put_pages none v pages = pages
put_pages (some p) v pages = set_link p v pages

abbrev pub put_head : Option ℕ → Option ℕ → Option ℕ → Option ℕ
put_head none v head = v
put_head (some p) v head = head

-- `*tp[0] = v` and `*tp[1] = v`
unfoldable pub put_low : Option ℕ → Split → Split
put_low v s = record s {
  pages = put_pages s.low_tail v s.pages;
  low_head = put_head s.low_tail v s.low_head;
}

unfoldable pub put_high : Option ℕ → Split → Split
put_high v s = record s {
  pages = put_pages s.high_tail v s.pages;
  high_head = put_head s.high_tail v s.high_head;
}

-- One round of the first loop.
unfoldable pub sort_page : ℕ → ℕ → Split → Split
sort_page pdx_limit pp s =
    if leb pdx_limit (pdx (page2pa pp))
    then (record (put_high (some pp) s) { high_tail = some pp })
    else (record (put_low (some pp) s) { low_tail = some pp })

unfoldable pub sort_pages : ℕ → ℕ → Option ℕ → Split → Option Split
sort_pages fuel pdx_limit none s = some s
sort_pages zero pdx_limit (some pp) s = none
sort_pages (suc fuel) pdx_limit (some pp) s =
    let t = sort_page pdx_limit pp s in sort_pages fuel pdx_limit (t.pages pp).pp_link t

-- `*tp[1] = 0; *tp[0] = pp2; page_free_list = pp1;`
unfoldable pub join : Split → Memory → Memory
join s m =
    let ended = put_high none s in
    let whole = put_low ended.high_head ended in
    record m { pages = whole.pages; page_free_list = whole.low_head }

-- The variables are not initialized; each is written before it is read.
unfoldable pub low_first : ℕ → ℕ → ℕ → ℕ → Cmd Memory (Unit {0})
low_first fuel pdx_limit pp1 pp2 m =
    elim (sort_pages fuel pdx_limit m.page_free_list (record {
      pages = m.pages;
      low_head = some pp1;
      high_head = some pp2;
      low_tail = none;
      high_tail = none;
    })) [ none ↦ panicked | some s ↦ done (tt, join s m) ]

-- `memset(page2kva(pp), 0x97, 128)` on the pages below the limit; 128 bytes are 32 words.
unfoldable pub spoil_page : ℕ → ℕ → Cmd Memory (Unit {0})
spoil_page pdx_limit pp =
    if ltb (pdx (page2pa pp)) pdx_limit
    then (do
      p ← page2kva pp
      modify (λ m. record m {
        words = update m.words p (λ i. if ltb i 32 then 0x9797_9797 else m.words p i);
      }))
    else pure tt

unfoldable pub spoil_pages : ℕ → ℕ → Option ℕ → Cmd Memory (Unit {0})
spoil_pages fuel pdx_limit none = pure tt
spoil_pages zero pdx_limit (some pp) = panic
spoil_pages (suc fuel) pdx_limit (some pp) = do
  spoil_page pdx_limit pp
  next ← gets (λ m. (m.pages pp).pp_link)
  spoil_pages fuel pdx_limit next

-- IOPHYSMEM
abbrev pub io_phys_mem : ℕ
io_phys_mem = 0x0_A0000

-- One page of the last loop: what may not be on the list. `page2kva` is the address KERNBASE + pa.
unfoldable pub check_free_page : ℕ → ℕ → Cmd Memory (Unit {0})
check_free_page first_free_page pp = do
  npages ← gets (λ m. m.npages)
  assert (ltb pp npages)
  assert (not (page2pa pp == 0))
  assert (not (page2pa pp == io_phys_mem))
  assert (not (page2pa pp == ext_phys_mem - page_size))
  assert (not (page2pa pp == ext_phys_mem))
  if ltb (page2pa pp) ext_phys_mem
      then pure tt
      else (do p ← page2kva pp; assert (leb first_free_page ((page2pa pp + kern_base) % word_mod)))

-- The pages below and above EXTPHYSMEM are counted.
unfoldable pub check_free_pages : ℕ → ℕ → Option ℕ → ℕ → ℕ → Cmd Memory (ℕ × ℕ)
check_free_pages fuel first_free_page none base ext = pure (base, ext)
check_free_pages zero first_free_page (some pp) base ext = panic
check_free_pages (suc fuel) first_free_page (some pp) base ext = do
  check_free_page first_free_page pp
  next ← gets (λ m. (m.pages pp).pp_link)
  if ltb (page2pa pp) ext_phys_mem
      then check_free_pages fuel first_free_page next (base + 1) ext
      else check_free_pages fuel first_free_page next base (ext + 1)

-- `first_free_page` is what `boot_alloc(0)` returns.
unfoldable pub check_page_free_list : ℕ → ℕ → ℕ → ℕ → Bool → Cmd Memory (Unit {0})
check_page_free_list fuel first_free_page pp1 pp2 only_low_memory = do
  let pdx_limit = if only_low_memory then 1 else table_entries
  head ← gets (λ m. m.page_free_list)
  elim head [ none ↦ panic | some p ↦ pure tt ]
  if only_low_memory then low_first fuel pdx_limit pp1 pp2 else pure tt
  sorted ← gets (λ m. m.page_free_list)
  spoil_pages fuel pdx_limit sorted
  counts ← check_free_pages fuel first_free_page sorted 0 0
  assert (ltb 0 (counts.0))
  assert (ltb 0 (counts.1))
