-- ===== src/Tests/Machine.antt =====
-- Two small machines of eight pages, with pages 3 and 4 free and the directory in page 1.
use at_jos.Base.{
  ℕ, zero, suc, ◌≡◌, refl, true, ◌&&◌, none, some, [], ◌∷◌, ◌==◌, if◌then◌else◌, arith, ap,
}
use at_jos.Pmap.Addr.{pgnum, pte_addr}
use at_jos.Pmap.State.{PageInfo, Memory}
use at_jos.Pmap.Alloc.FreeList.{IsFreeList, has}
use at_jos.Pmap.Table.Space.{IsSpace, present, table_of}

-- Page 5 is in use once, page 3 links to page 4.
abbrev pub small_pages : ℕ → PageInfo
small_pages p =
    if p == 3
    then record { pp_ref = 0; pp_link = some 4 }
    else if p == 5
    then record { pp_ref = 1; pp_link = none }
    else record { pp_ref = 0; pp_link = none }

-- Nothing is mapped.
abbrev pub empty_machine : Memory
empty_machine = record {
  npages = 8;
  npages_basemem = 8;
  ref_mod = 65_536;
  pages = small_pages;
  page_free_list = some 3;
  words = λ p i. 0;
  kern_pgdir = 0;
  flushed = [];
  user_mem_check_addr = 0;
}

-- The table in page 2 maps address 0 to page 5.
abbrev pub mapping_words : ℕ → ℕ → ℕ
mapping_words p i =
    if (p == 1) && (i == 0) then 0x2007 else if (p == 2) && (i == 0) then 0x5007 else 0

abbrev pub mapping_machine : Memory
mapping_machine = record empty_machine { words = mapping_words }

pub empty_machine-IsFreeList : IsFreeList empty_machine (3 ∷ 4 ∷ [])
empty_machine-IsFreeList = record {
  chain = (refl, (refl, refl));
  distinct = (refl, (refl, tt));
  all_free = (omega arith, refl, (omega arith, refl, tt));
}

pub mapping_machine-IsFreeList : IsFreeList mapping_machine (3 ∷ 4 ∷ [])
mapping_machine-IsFreeList = record {
  chain = (refl, (refl, refl));
  distinct = (refl, (refl, tt));
  all_free = (omega arith, refl, (omega arith, refl, tt));
}

absurd_present : {A : Type 0} → (d : ℕ) → present (empty_machine.words 1) d ≡ true → A
absurd_present d h = ground arith

pub empty_machine-IsSpace : IsSpace empty_machine 1 (3 ∷ 4 ∷ [])
empty_machine-IsSpace = record {
  addressable = omega arith;
  free_list = empty_machine-IsFreeList;
  is_dir = record {
    dir_lt = omega arith;
    dir_used = refl;
    table_lt = λ d h. absurd_present d h;
    table_used = λ d h. absurd_present d h;
    table_ne_dir = λ d h g. absurd_present d h;
    table_ne_table = λ d e h g n. absurd_present d h;
  };
}

-- Only the first slot of the directory is present, and it names page 2.
pub only_first : (d : ℕ) → present (mapping_words 1) d ≡ true → d ≡ 0
only_first zero h = refl
only_first (suc d) h = ground arith

pub first_table : (d : ℕ) → present (mapping_words 1) d ≡ true → table_of (mapping_words 1) d ≡ 2
unfolding pgnum pte_addr
first_table d h = ap (table_of (mapping_words 1)) (only_first d h)

pub mapping_machine-IsSpace : IsSpace mapping_machine 1 (3 ∷ 4 ∷ [])
mapping_machine-IsSpace = record {
  addressable = omega arith;
  free_list = mapping_machine-IsFreeList;
  is_dir = record {
    dir_lt = omega arith;
    dir_used = refl;
    table_lt = λ d h. let t = first_table d h in omega arith;
    table_used = λ d h. ap (λ t. has t (3 ∷ 4 ∷ [])) (first_table d h);
    table_ne_dir = λ d h g. let t = first_table d h in omega arith;
    table_ne_table = λ d e h g n. let a = only_first d h in let b = only_first e g in omega arith;
  };
}
