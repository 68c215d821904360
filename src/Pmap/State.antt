-- ===== src/Pmap/State.antt =====
-- The variables of pmap.c and the physical memory behind them. A `struct PageInfo *` is the index of
-- the page in `pages`, and NULL is `none`; a page directory or page table is the physical page that
-- holds it, since the kernel reaches it at KADDR of that page.
use at_jos.Base.{ℕ, ◌+◌, ◌-◌, ◌%◌, Option, List, ◌==◌, leb, ltb, if◌then◌else◌}
use at_jos.Base.Monad.{Cmd, pure, panic, modify}
use at_jos.Pmap.Addr.{pgnum, page2pa, kern_base}

-- `struct PageInfo` as the code uses it.
pub record PageInfo : Type 0 where
  pub pp_ref : ℕ
  pub pp_link : Option ℕ

-- `ref_mod` is the number of values of the counter `pp_ref`, whose declaration is in a header that
-- the repository does not have. `words p i` is the i-th 32-bit word of physical page `p`.
-- `flushed` lists the addresses given to `invlpg`, latest first.
pub record Memory : Type 0 where
  pub npages : ℕ
  pub npages_basemem : ℕ
  pub ref_mod : ℕ
  pub pages : ℕ → PageInfo
  pub page_free_list : Option ℕ
  pub words : ℕ → ℕ → ℕ
  pub kern_pgdir : ℕ
  pub flushed : List ℕ
  pub user_mem_check_addr : ℕ

abbrev pub update {ℓ} : {A : Type ℓ} → (ℕ → A) → ℕ → A → ℕ → A
update f p v q = if p == q then v else f q

-- Changes of one field.
abbrev pub set_page : ℕ → PageInfo → Memory → Memory
set_page p i m = record m { pages = update m.pages p i }

abbrev pub set_ref : ℕ → ℕ → Memory → Memory
set_ref p r m = set_page p (record { pp_ref = r; pp_link = (m.pages p).pp_link }) m

abbrev pub set_word : ℕ → ℕ → ℕ → Memory → Memory
set_word p i w m = record m { words = update m.words p (update (m.words p) i w) }

-- `pp->pp_ref++`
unfoldable pub incref : ℕ → Cmd Memory (Unit {0})
incref p = modify (λ m. set_ref p (((m.pages p).pp_ref + 1) % m.ref_mod) m)

-- `_kaddr`: the page that a kernel pointer to `pa` reaches; it panics past the end of memory.
unfoldable pub kaddr : ℕ → Cmd Memory ℕ
kaddr pa m = if leb m.npages (pgnum pa) then panic m else pure (pgnum pa) m

-- `_paddr`
unfoldable pub paddr : ℕ → Cmd Memory ℕ
paddr kva = if ltb kva kern_base then panic else pure (kva - kern_base)

-- `pa2page`
unfoldable pub pa2page : ℕ → Cmd Memory ℕ
pa2page pa m = if leb m.npages (pgnum pa) then panic m else pure (pgnum pa) m

-- `page2kva`
unfoldable pub page2kva : ℕ → Cmd Memory ℕ
page2kva pp = kaddr (page2pa pp)
