-- ===== src/Tests/Memory.antt =====
-- Instances for the page allocator, the page tables and the check of user memory.
use at_jos.Base.{
  ℕ, ◌+◌, ◌-◌, ◌≤◌, ◌<◌, ◌≡◌, refl, ◌≢◌, true, false, none, some, List, [], ◌∷◌, ◌==◌,
  if◌then◌else◌, arith, ◌⊎◌, length,
}
use at_jos.Base.Int.{pos, neg}
use at_jos.Base.Monad.{done}
use at_jos.Pmap.Addr.{pgnum, pdx, ptx, pte_addr, pte_p, has_flag, round_up, round_down, page_size}
use at_jos.Pmap.State.{Memory}
use at_jos.Pmap.Alloc.{page_alloc, page_decref, page_init, first_free, alloc_zero}
use at_jos.Pmap.Alloc.FreeList.{IsFreeList, has}
use at_jos.Pmap.Alloc.Laws.{page_alloc-cons, page_decref_lem}
use at_jos.Pmap.Alloc.Init.{page_init_lem, is_free_at_boot}
use at_jos.Pmap.Table.{check_va2pa, page_remove, page_insert, e_no_mem}
use at_jos.Pmap.Boot.{entry_pgdir, entry_pgtable, entry_pgdir_lem}
use at_jos.Pmap.Table.Entry.{pte_of}
use at_jos.Pmap.Table.{boot_map_region}
use at_jos.Pmap.Table.Region.Loop.{IsRegion, boot_map_region_lem}
use at_jos.Pmap.Table.Space.{IsSpace, present, entry, self_index}
use at_jos.Pmap.Table.Slots.{same_page}
use at_jos.Pmap.Table.Update.{IsUserPage, released, page_remove_lem}
use at_jos.Pmap.Table.Insert.{CanInsert, IsInserted, page_insert_lem}
use at_jos.Pmap.UserMem.{user_mem_check, e_fault}
use at_jos.Pmap.UserMem.Wrap.{user_mem_check-wraps}
use at_jos.Pmap.UserMem.Range.{TablesInRange, may_access, faulted, user_mem_check_lem}
use at_jos.Tests.Machine.{
  empty_machine, mapping_machine, empty_machine-IsFreeList, mapping_machine-IsSpace, first_table,
}

abbrev free_pages : List ℕ
free_pages = 3 ∷ 4 ∷ []

user_ten : pdx 0x10 ≢ self_index
unfolding pdx
user_ten = omega arith

page_alloc-cons_example :
    (m' : Memory) × (page_alloc alloc_zero empty_machine ≡ done (some 3, m'))
    × IsFreeList m' (4 ∷ [])
    × (has 3 (4 ∷ []) ≡ false)
    × ((i : ℕ) → has_flag alloc_zero alloc_zero ≡ true → m'.words 3 i ≡ 0)
    × ((q i : ℕ) → 3 ≢ q → m'.words q i ≡ empty_machine.words q i)
    × (m'.pages ≡ empty_machine.pages)
page_alloc-cons_example =
    page_alloc-cons empty_machine (4 ∷ []) (omega arith) alloc_zero 3 empty_machine-IsFreeList

page_decref_lem_example :
    (m' : Memory) × (page_decref 5 empty_machine ≡ done (tt, m'))
    × ((m'.pages 5).pp_ref ≡ (empty_machine.pages 5).pp_ref - 1)
    × IsFreeList m' (if (empty_machine.pages 5).pp_ref == 1 then 5 ∷ free_pages else free_pages)
    × ((q : ℕ) → 5 ≢ q → m'.pages q ≡ empty_machine.pages q)
    × (m'.words ≡ empty_machine.words)
    × (m'.npages ≡ empty_machine.npages)
page_decref_lem_example =
    page_decref_lem empty_machine free_pages (omega arith) 5 empty_machine-IsFreeList refl
      (omega arith) (omega arith) (omega arith)

-- A machine of 1024 pages before `page_init`.
abbrev booting : Memory
booting = record empty_machine { npages = 1024; npages_basemem = 160; page_free_list = none }

first_free-booting : first_free 0xf011_8000 0x1_8000 ≡ 304
unfolding first_free round_up
first_free-booting = refl

page_init_lem_example :
    (free : List ℕ) × IsFreeList (page_init 0xf011_8000 0x1_8000 booting) free
    × ((p : ℕ) → has p free ≡ is_free_at_boot booting (first_free 0xf011_8000 0x1_8000) p)
    × (length free
        ≡ booting.npages_basemem - 1 + (booting.npages - first_free 0xf011_8000 0x1_8000))
page_init_lem_example =
    let f = first_free-booting in
    page_init_lem booting 0xf011_8000 0x1_8000 refl (omega arith) (omega arith)

page_five-IsUserPage :
    IsUserPage mapping_machine 1 (pgnum (pte_addr (entry mapping_machine 1 0x10))) free_pages
unfolding pgnum pte_addr pdx ptx
page_five-IsUserPage = record {
  page_lt = omega arith;
  used = refl;
  ne_dir = omega arith;
  ne_table = λ d h. let t = first_table d h in omega arith;
  counted = omega arith;
  fits = omega arith;
}

mapped_ten : has_flag (entry mapping_machine 1 0x10) pte_p ≡ true
unfolding pgnum pte_addr pdx ptx
mapped_ten = refl

page_remove_lem_example :
    (m' : Memory) × (page_remove 1 0x10 mapping_machine ≡ done (tt, m'))
    × IsSpace m' 1
        (released mapping_machine (pgnum (pte_addr (entry mapping_machine 1 0x10))) free_pages)
    × ((a : ℕ)
        → pdx a ≢ self_index
        → entry m' 1 a ≡ (if same_page 0x10 a then 0 else entry mapping_machine 1 a))
    × ((m'.pages (pgnum (pte_addr (entry mapping_machine 1 0x10)))).pp_ref
        ≡ (mapping_machine.pages (pgnum (pte_addr (entry mapping_machine 1 0x10)))).pp_ref - 1)
    × (m'.flushed ≡ 0x10 ∷ mapping_machine.flushed)
page_remove_lem_example =
    page_remove_lem mapping_machine 1 0x10 mapping_machine-IsSpace user_ten mapped_ten
      page_five-IsUserPage

-- Page 6 can be mapped at address 0, where page 5 is mapped.
page_six-CanInsert : CanInsert mapping_machine 1 0x10 6 free_pages
unfolding pdx
page_six-CanInsert = record {
  space = mapping_machine-IsSpace;
  user = omega arith;
  off = refl;
  room = omega arith;
  displaced = λ h. page_five-IsUserPage;
}

page_insert_lem_example :
    ((m' : Memory) × (page_insert 1 6 0x10 6 mapping_machine ≡ done (pos 0, m'))
      × IsInserted mapping_machine m' 1 0x10 (pte_of 6 6))
    ⊎ ((page_insert 1 6 0x10 6 mapping_machine ≡ done (neg e_no_mem, mapping_machine))
        × (free_pages ≡ [])
        × (present (mapping_machine.words 1) (pdx 0x10) ≡ false))
page_insert_lem_example = page_insert_lem mapping_machine 1 0x10 6 6 free_pages page_six-CanInsert

user_mem_check-wraps_example :
    user_mem_check 1 0xf010_0000 0xfeff_ffff 5 empty_machine ≡ done (pos 0, empty_machine)
user_mem_check-wraps_example =
    user_mem_check-wraps 1 0xf010_0000 0xfeff_ffff 5 empty_machine (omega arith) (omega arith)
      (omega arith)

tables_in_range : TablesInRange mapping_machine 1
tables_in_range d h = let t = first_table d h in omega arith

user_mem_check_lem_example :
    ((user_mem_check 1 0xf00 0x200 5 mapping_machine ≡ done (pos 0, mapping_machine))
      × ((a : ℕ)
          → 0xf00 ≤ a
          → a < 0xf00 + 0x200
          → may_access mapping_machine 1 5 (round_down a page_size) ≡ true))
    ⊎ ((bad : ℕ) × (user_mem_check 1 0xf00 0x200 5 mapping_machine
          ≡ done (neg e_fault, faulted bad mapping_machine))
        × (0xf00 ≤ bad)
        × (bad < 0xf00 + 0x200)
        × (may_access mapping_machine 1 5 (round_down bad page_size) ≡ false)
        × ((a : ℕ)
            → 0xf00 ≤ a
            → a < bad
            → may_access mapping_machine 1 5 (round_down a page_size) ≡ true))
user_mem_check_lem_example =
    user_mem_check_lem mapping_machine 1 0xf00 5 tables_in_range 0x200 (omega arith) (omega arith)

-- The machine at boot, with its directory in page 5 and its table in page 6.
abbrev at_boot : Memory
at_boot = record empty_machine {
  words = λ p. if p == 5 then entry_pgdir 6 else if p == 6 then entry_pgtable else (λ i. 0);
}

entry_pgdir_lem_example :
    (check_va2pa 5 0x1234 at_boot ≡ done (round_down 0x1234 page_size, at_boot))
    × (check_va2pa 5 0xf000_1234 at_boot ≡ done (round_down 0x1234 page_size, at_boot))
entry_pgdir_lem_example = entry_pgdir_lem at_boot 5 6 (omega arith) refl refl 0x1234 (omega arith)

-- Two pages on both sides of the end of a page table.
slots_off : (a : ℕ) → 0x3f_f000 ≤ a → a < 0x3f_f000 + 0x2000 → pdx a ≢ self_index
unfolding pdx
slots_off a lo hi = omega arith

slots_enough : pdx (0x3f_f000 + 0x2000 - 4096) < pdx 0x3f_f000 + 2
unfolding pdx
slots_enough = omega arith

boot_map_region_lem_example :
    (m' : Memory) × (boot_map_region 1 0x3f_f000 0x2000 0x1000 2 mapping_machine ≡ done (tt, m'))
    × (region : IsRegion mapping_machine m' 1 2 0x3f_f000 0x1000 2) × (length free_pages
          + pdx 0x3f_f000
        ≤ length region.free' + pdx (0x3f_f000 + 0x2000 - 4096) + 1)
boot_map_region_lem_example =
    boot_map_region_lem mapping_machine 1 0x3f_f000 0x2000 0x1000 2 free_pages
      mapping_machine-IsSpace (omega arith) (omega arith) (omega arith) (omega arith) (omega arith)
      slots_off slots_enough
