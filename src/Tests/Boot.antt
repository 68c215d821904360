-- ===== src/Tests/Boot.antt =====
-- Instances for the start of memory management.
use at_jos.Base.{
  ℕ, ◌+◌, ◌*◌, ◌≡◌, refl, ◌≢◌, true, not, none, some, List, [], ◌∷◌, ◌==◌, ltb, if◌then◌else◌,
  arith, inl, inr, ◌⊎◌, ◌++◌,
}
use at_jos.Base.Monad.{done}
use at_jos.Pmap.Addr.{page2pa, kern_base}
use at_jos.Pmap.State.{Memory, PageInfo}
use at_jos.Pmap.Alloc.FreeList.{IsFreeList, has}
use at_jos.Pmap.Check.{check_page_alloc}
use at_jos.Pmap.Check.Same.{IsSameList}
use at_jos.Pmap.Check.Passes.{check_page_alloc_lem}
use at_jos.Pmap.Check.Split.{low_first, check_page_free_list}
use at_jos.Pmap.Check.Split.Sort.{select, is_low, is_high}
use at_jos.Pmap.Check.Split.Joined.{low_first_lem}
use at_jos.Pmap.Check.Split.Listed.{IsAllowed}
use at_jos.Pmap.Check.Split.Passes.{check_page_free_list_lem}
use at_jos.Pmap.MemInit.Whole.{Passes}

-- Page 1500 lies above the first 4 MB; it links to page 2, and that to page 300.
abbrev listed_pages : ℕ → PageInfo
listed_pages p =
    if p == 1500
    then record { pp_ref = 0; pp_link = some 2 }
    else if p == 2
    then record { pp_ref = 0; pp_link = some 300 }
    else record { pp_ref = 0; pp_link = none }

abbrev list_machine : Memory
list_machine = record {
  npages = 2048;
  npages_basemem = 160;
  ref_mod = 65_536;
  pages = listed_pages;
  page_free_list = some 1500;
  words = λ p i. 0;
  kern_pgdir = 0;
  flushed = [];
  user_mem_check_addr = 0;
}

abbrev listed : List ℕ
listed = 1500 ∷ 2 ∷ 300 ∷ []

list_machine-IsFreeList : IsFreeList list_machine listed
list_machine-IsFreeList = record {
  chain = (refl, (refl, (refl, refl)));
  distinct = (refl, (refl, (refl, tt)));
  all_free = (omega arith, refl, (omega arith, refl, (omega arith, refl, tt)));
}

abbrev first_page : ℕ
first_page = kern_base + 4096 * 260

listed-IsAllowed : (p : ℕ) → has p listed ≡ true → IsAllowed first_page 2048 p
unfolding page2pa
listed-IsAllowed p h =
    let which : (p ≡ 1500) ⊎ ((p ≡ 2) ⊎ (p ≡ 300)) = ground (arith, h) in
    elim which [
      | inl e ↦
          rw e (omega arith, omega arith, omega arith, omega arith, omega arith, inr (omega arith))
      | inr (inl e) ↦
          rw e (omega arith, omega arith, omega arith, omega arith, omega arith, inl (omega arith))
      | inr (inr e) ↦
          rw e (omega arith, omega arith, omega arith, omega arith, omega arith, inr (omega arith))
    ]

two_base : (has 2 listed ≡ true) × (ltb (page2pa 2) 0x10_0000 ≡ true)
unfolding page2pa
two_base = (refl, refl)

ext_page : (has 300 listed ≡ true) × (not (ltb (page2pa 300) 0x10_0000) ≡ true)
unfolding page2pa
ext_page = (refl, refl)

low_first_lem_example :
    (m' : Memory) × (low_first 3 1 7 9 list_machine ≡ done (tt, m'))
    × IsFreeList m' (select (is_low 1) listed ++ select (is_high 1) listed)
    × ((q : ℕ) → (m'.pages q).pp_ref ≡ (list_machine.pages q).pp_ref)
    × (m'.words ≡ list_machine.words)
    × (m'.npages ≡ list_machine.npages)
    × (m'.npages_basemem ≡ list_machine.npages_basemem)
    × (m'.kern_pgdir ≡ list_machine.kern_pgdir)
low_first_lem_example =
    low_first_lem list_machine listed 3 1 7 9 list_machine-IsFreeList (omega arith)

check_page_free_list_lem_example :
    (m' : Memory) × (check_page_free_list 3 first_page 7 9 true list_machine ≡ done (tt, m'))
    × IsSameList list_machine m' listed
check_page_free_list_lem_example =
    check_page_free_list_lem list_machine listed 3 first_page 7 9 2 300 list_machine-IsFreeList
      (omega arith) (omega arith) listed-IsAllowed two_base ext_page true

check_page_alloc_lem_example :
    (m' : Memory) × (check_page_alloc 3 list_machine ≡ done (tt, m'))
    × IsFreeList m' listed
    × ((q : ℕ) → (m'.pages q).pp_ref ≡ (list_machine.pages q).pp_ref)
    × ((q : ℕ) → 300 ≢ q → m'.words q ≡ list_machine.words q)
    × (m'.npages ≡ list_machine.npages)
    × (m'.npages_basemem ≡ list_machine.npages_basemem)
    × (m'.kern_pgdir ≡ list_machine.kern_pgdir)
check_page_alloc_lem_example =
    check_page_alloc_lem list_machine 1500 2 300 [] list_machine-IsFreeList (omega arith) 3
      (omega arith)

-- A clock that reports 640 KB of base memory and 31 MB of extended memory.
abbrev nvram : ℕ → ℕ
nvram r = if r == 21 then 0x80 else if r == 22 then 0x02 else if r == 24 then 0x7c else 0

-- The machine before `mem_init`.
abbrev fresh : Memory
fresh = record list_machine { page_free_list = none }
