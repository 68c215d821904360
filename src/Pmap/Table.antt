-- ===== src/Pmap/Table.antt =====
-- The two-level page tables of pmap.c: `pgdir_walk`, `page_insert`, `page_lookup`, `page_remove`,
-- `boot_map_region`, and `check_va2pa`, which reads a translation back.
pub mod Entry
pub mod Space
pub mod Walk
pub mod Update
pub mod Insert
pub mod Slots
pub mod Region
use at_jos.Base.{
  ℕ, zero, suc, ◌+◌, ◌-◌, ◌/◌, ◌%◌, Bool, true, false, Option, none, some, ◌∷◌, if◌then◌else◌,
  bit_or,
}
use at_jos.Base.Int.{ℤ, pos, neg}
use at_jos.Base.Monad.{Outcome, Cmd, done, panicked, ◌>>=◌, ◌>>◌, pure, panic, gets, modify}
use at_jos.Pmap.Addr.{
  pdx, ptx, pgnum, pte_addr, pte_p, pte_w, pte_u, has_flag, page2pa, page_size, word_mod,
}
use at_jos.Pmap.State.{Memory, PageInfo, set_word, incref, kaddr, pa2page}
use at_jos.Pmap.Alloc.{page_alloc, page_decref, alloc_zero}

-- A `pte_t *`: the page that holds the table, and the index in it.
pub record Slot : Type 0 where
  pub table : ℕ
  pub index : ℕ

abbrev pub load : ℕ → ℕ → Cmd Memory ℕ
load table index = gets (λ m. m.words table index)

abbrev pub store : ℕ → ℕ → ℕ → Cmd Memory (Unit {0})
store table index w = modify (set_word table index w)

-- The end of `pgdir_walk`: `(pte_t *) KADDR(PTE_ADDR(pgdir[dindex])) + tindex`.
unfoldable pub walk_table : ℕ → ℕ → Cmd Memory (Option Slot)
walk_table pgdir va = do
  pde ← load pgdir (pdx va)
  p ← kaddr (pte_addr pde)
  pure (some (record { table = p; index = ptx va }))

-- The missing page table is made and linked, unless memory is out.
unfoldable pub new_table : ℕ → ℕ → Option ℕ → Cmd Memory (Option Slot)
new_table pgdir va none = pure none
new_table pgdir va (some pg) = do
  incref pg
  store pgdir (pdx va) (bit_or (bit_or (bit_or (page2pa pg) pte_p) pte_u) pte_w)
  walk_table pgdir va

unfoldable pub pgdir_walk : ℕ → ℕ → Bool → Cmd Memory (Option Slot)
pgdir_walk pgdir va create m =
    if has_flag (m.words pgdir (pdx va)) pte_p
    then walk_table pgdir va m
    else (if create then (page_alloc alloc_zero >>= new_table pgdir va) else pure none) m

-- The returned slot is what goes through `pte_store`.
unfoldable pub found : Slot → Cmd Memory (Option (ℕ × Slot))
found s = do
  pte ← load s.table s.index
  if has_flag pte pte_p then (do pg ← pa2page (pte_addr pte); pure (some (pg, s))) else pure none

unfoldable pub page_lookup : ℕ → ℕ → Cmd Memory (Option (ℕ × Slot))
page_lookup pgdir va = do
  slot ← pgdir_walk pgdir va false
  elim slot [ none ↦ pure none | some s ↦ found s ]

-- `invlpg`
unfoldable pub tlb_invalidate : ℕ → Cmd Memory (Unit {0})
tlb_invalidate va = modify (λ m. record m { flushed = va ∷ m.flushed })

unfoldable pub unmap : ℕ → ℕ → Slot → Cmd Memory (Unit {0})
unmap va pg s = do
  pte ← load s.table s.index
  if has_flag pte pte_p
      then (do page_decref pg; store s.table s.index 0; tlb_invalidate va)
      else pure tt

unfoldable pub page_remove : ℕ → ℕ → Cmd Memory (Unit {0})
page_remove pgdir va = do
  hit ← page_lookup pgdir va
  elim hit [ none ↦ pure tt | some (pg, s) ↦ unmap va pg s ]

-- E_NO_MEM
abbrev pub e_no_mem : ℕ
e_no_mem = 4

-- The page is counted before the old mapping goes, so that it cannot be freed in between.
unfoldable pub insert_at : ℕ → ℕ → ℕ → ℕ → Slot → Cmd Memory ℤ
insert_at pgdir pp va perm s = do
  incref pp
  old ← load s.table s.index
  if has_flag old pte_p then page_remove pgdir va else pure tt
  store s.table s.index (bit_or (bit_or (page2pa pp) perm) pte_p)
  pure (pos 0)

unfoldable pub page_insert : ℕ → ℕ → ℕ → ℕ → Cmd Memory ℤ
page_insert pgdir pp va perm = do
  slot ← pgdir_walk pgdir va true
  elim slot [ none ↦ pure (neg e_no_mem) | some s ↦ insert_at pgdir pp va perm s ]

-- One page of `boot_map_region`.
unfoldable pub map_page : ℕ → ℕ → ℕ → ℕ → Cmd Memory (Unit {0})
map_page pgdir va pa perm = do
  slot ← pgdir_walk pgdir va true
  elim slot [ none ↦ panic | some s ↦ store s.table s.index (bit_or (bit_or pa perm) pte_p) ]

-- The loop, with `rounds` pages left; the addresses wrap at 32 bits.
unfoldable pub map_pages : ℕ → ℕ → ℕ → ℕ → ℕ → Cmd Memory (Unit {0})
map_pages pgdir zero va pa perm = pure tt
map_pages pgdir (suc rounds) va pa perm = do
  map_page pgdir va pa perm
  map_pages pgdir rounds ((va + page_size) % word_mod) ((pa + page_size) % word_mod) perm

unfoldable pub boot_map_region : ℕ → ℕ → ℕ → ℕ → ℕ → Cmd Memory (Unit {0})
boot_map_region pgdir va size pa perm = map_pages pgdir (size / page_size) va pa perm

-- `~0`
abbrev pub no_address : ℕ
no_address = word_mod - 1

unfoldable pub check_va2pa : ℕ → ℕ → Cmd Memory ℕ
check_va2pa pgdir va = do
  pde ← load pgdir (pdx va)
  if has_flag pde pte_p
      then (do
        p ← kaddr (pte_addr pde)
        pte ← load p (ptx va)
        pure (if has_flag pte pte_p then pte_addr pte else no_address))
      else pure no_address
