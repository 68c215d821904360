-- ===== src/Pmap/Boot.antt =====
-- The page directory and page table that the kernel starts on, entrypgdir.c.
use at_jos.Base.{
  ℕ, ◌+◌, ◌-◌, ◌*◌, ◌/◌, ◌%◌, ◌^◌, ◌<◌, ◌≡◌, refl, true, ◌==◌, ltb, if◌then◌else◌, arith, ap, ◌∙◌,
  bit_or,
}
use at_jos.Base.Bits.{or_step, or-page}
use at_jos.Base.Monad.{done}
use at_jos.Pmap.Addr.{
  page_size, kern_base, pte_p, pte_w, has_flag, pdx, ptx, pgnum, pte_addr, round_down, present_iff,
}
use at_jos.Pmap.State.{Memory, kaddr}
use at_jos.Pmap.Table.{check_va2pa}
use at_jos.Pmap.Table.Walk.{kaddr-done}

-- The initializer, by index. The table of 1024 entries names the pages of the first 4 MB in order.
unfoldable pub entry_pgtable : ℕ → ℕ
entry_pgtable i = if ltb i 1024 then bit_or (bit_or (i * 2 ^ 12) pte_p) pte_w else 0

-- The directory, where `pt` is the physical page that holds `entry_pgtable`.
unfoldable pub entry_pgdir : ℕ → ℕ → ℕ
entry_pgdir pt d =
    if d == 0
    then pt * 2 ^ 12 + pte_p
    else if d == kern_base / 2 ^ 22
    then pt * 2 ^ 12 + pte_p + pte_w
    else 0

table_entry :
    (i : ℕ)
    → i < 1024
    → (has_flag (entry_pgtable i) pte_p ≡ true) × (pte_addr (entry_pgtable i) ≡ i * 2 ^ 12)
unfolding entry_pgtable pte_addr
table_entry i h =
    let inside : ltb i 1024 ≡ true = ground arith in
    let a = or-page (bit_or (i * 2 ^ 12) pte_p) pte_w (omega arith) in
    let b = or-page (i * 2 ^ 12) pte_p (omega arith) in
    rw inside (
      (present_iff _).1
          (omega (arith, or_step (bit_or (i * 2 ^ 12) pte_p) pte_w, or_step (i * 2 ^ 12) pte_p)),
      omega arith,
    )

module _ (m : Memory) (pgdir pt : ℕ) (pt_lt : pt < m.npages) (dir : m.words pgdir ≡ entry_pgdir pt)
    (table : m.words pt ≡ entry_pgtable) where
  low_entry :
      (has_flag (entry_pgdir pt 0) pte_p ≡ true) × (pgnum (pte_addr (entry_pgdir pt 0)) ≡ pt)
  unfolding entry_pgdir pgnum pte_addr
  low_entry = ((present_iff _).1 (omega arith), omega arith)

  high_entry :
      (has_flag (entry_pgdir pt 960) pte_p ≡ true) × (pgnum (pte_addr (entry_pgdir pt 960)) ≡ pt)
  unfolding entry_pgdir pgnum pte_addr
  high_entry = ((present_iff _).1 (omega arith), omega arith)

  through :
      (va a : ℕ)
      → (has_flag (entry_pgdir pt (pdx va)) pte_p ≡ true)
      → pgnum (pte_addr (entry_pgdir pt (pdx va))) ≡ pt
      → ptx va ≡ ptx a
      → a < 2 ^ 22
      → check_va2pa pgdir va m ≡ done (round_down a page_size, m)
  unfolding check_va2pa ptx round_down
  through va a flag names same small =
      let pde : m.words pgdir (pdx va) ≡ entry_pgdir pt (pdx va) = ap (λ f. f (pdx va)) dir in
      let here : has_flag (m.words pgdir (pdx va)) pte_p ≡ true = rw pde flag in
      let page : pgnum (pte_addr (m.words pgdir (pdx va))) ≡ pt = rw pde names in
      let pte : m.words pt (ptx va) ≡ entry_pgtable (ptx a) =
        ap (λ f. f (ptx va)) table ∙ ap entry_pgtable same in
      let found = table_entry (ptx a) (omega arith) in
      let shown : has_flag (m.words pt (ptx va)) pte_p ≡ true = rw pte found.0 in
      let address : pte_addr (m.words pt (ptx va)) ≡ a - a % page_size =
        ap pte_addr pte ∙ found.1 ∙ omega arith in
      let reached : kaddr (pte_addr (m.words pgdir (pdx va))) m ≡ done (pt, m) =
        kaddr-done (pte_addr (m.words pgdir (pdx va))) m (rw page pt_lt)
        ∙ ap (λ q. done (q, m)) page in
      ground (arith, here, reached, shown, address)

  -- The kernel's first page tables map both the first 4 MB of addresses and the 4 MB at KERNBASE to
  -- the first 4 MB of physical memory.
  pub entry_pgdir_lem :
      (a : ℕ)
      → a < 2 ^ 22
      → (check_va2pa pgdir a m ≡ done (round_down a page_size, m))
        × (check_va2pa pgdir (kern_base + a) m ≡ done (round_down a page_size, m))
  unfolding entry_pgdir pdx ptx pgnum pte_addr
  entry_pgdir_lem a small =
      let low : pdx a ≡ 0 = omega arith in
      let high : pdx (kern_base + a) ≡ 960 = omega arith in
      (
        through a a (rw low (low_entry.0)) (rw low (low_entry.1)) refl small,
        through (kern_base + a) a (rw high (high_entry.0)) (rw high (high_entry.1)) (omega arith)
            small,
      )
