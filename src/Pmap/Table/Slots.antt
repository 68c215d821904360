-- ===== src/Pmap/Table/Slots.antt =====
-- Writes to a slot of a page table, and reads through `page_lookup` and `check_va2pa`.
use at_jos.Base.{
  ℕ, ◌<◌, ◌≡◌, ◌≢◌, Bool, true, false, ◌&&◌, none, some, List, ◌==◌, if◌then◌else◌, arith,
  Bool-cases, inl, inr,
}
use at_jos.Base.Monad.{done}
use at_jos.Pmap.Addr.{pdx, ptx, pgnum, pte_addr, pte_p, has_flag}
use at_jos.Pmap.State.{Memory, set_word, pa2page}
use at_jos.Pmap.Alloc.FreeList.{IsFreeList}
use at_jos.Pmap.Table.{Slot, found, page_lookup, check_va2pa, no_address}
use at_jos.Pmap.Table.Space.{present, table_of, entry, IsSpace, self_index}
use at_jos.Pmap.Table.Walk.{slot_of, walk-present, walk-absent, kaddr-done}

-- Two addresses go through the same slot.
abbrev pub same_page : ℕ → ℕ → Bool
same_page a b = (pdx a == pdx b) && (ptx a == ptx b)

-- A free list does not depend on the contents of memory.
pub IsFreeList-words :
    {m : Memory} {free : List ℕ} (w : ℕ → ℕ → ℕ)
    → IsFreeList m free
    → IsFreeList (record m { words = w }) free
IsFreeList-words w f = record { chain = f.chain; distinct = f.distinct; all_free = f.all_free }

module _ (m : Memory) (pgdir va w : ℕ) {free : List ℕ} (space : IsSpace m pgdir free)
    (here : present (m.words pgdir) (pdx va) ≡ true) (user : pdx va ≢ self_index) where
  -- The memory after `w` is stored in the slot of `va`.
  abbrev stored : Memory
  stored = set_word (table_of (m.words pgdir) (pdx va)) (ptx va) w m

  table_ne : (table_of (m.words pgdir) (pdx va) == pgdir) ≡ false
  table_ne = ground (arith, space.is_dir.table_ne_dir (pdx va) here user)

  pub dir-stored : stored.words pgdir ≡ m.words pgdir
  dir-stored = rw table_ne

  pub stored-IsSpace : IsSpace stored pgdir free
  stored-IsSpace = record {
    addressable = space.addressable;
    free_list = IsFreeList-words stored.words space.free_list;
    is_dir = rw dir-stored space.is_dir;
  }

  pub stored-entry :
      (a : ℕ)
      → pdx a ≢ self_index
      → entry stored pgdir a ≡ (if same_page va a then w else entry m pgdir a)
  stored-entry a user' = elim (Bool-cases (pdx va == pdx a)) [
    | inl same ↦ let e : pdx va ≡ pdx a = ground arith in rw (dir-stored, ← e, here) (ground arith)
    | inr other ↦ elim (Bool-cases (present (m.words pgdir) (pdx a))) [
      | inl here' ↦
          rw (dir-stored, other, here')
            (ground (arith, space.is_dir.table_ne_table (pdx va) (pdx a) here here'))
      | inr absent ↦ rw (dir-stored, other, absent)
    ]
  ]

pa2page-done : (x : ℕ) (m : Memory) → pgnum x < m.npages → pa2page x m ≡ done (pgnum x, m)
unfolding pa2page
pa2page-done x m lt = ground arith

-- The end of `page_lookup`, at the slot of the address.
found-hit :
    (m : Memory) (s : Slot)
    → has_flag (m.words s.table s.index) pte_p ≡ true
    → pgnum (pte_addr (m.words s.table s.index)) < m.npages
    → found s m ≡ done (some (pgnum (pte_addr (m.words s.table s.index)), s), m)
unfolding found
found-hit m s h lt = ground (arith, pa2page-done (pte_addr (m.words s.table s.index)) m lt)

found-miss :
    (m : Memory) (s : Slot)
    → has_flag (m.words s.table s.index) pte_p ≡ false
    → found s m ≡ done (none, m)
unfolding found
found-miss m s h = rw h

-- Reads. A translation that is present is found, if it names a page of the machine.
module _ (m : Memory) (pgdir va : ℕ) {free : List ℕ} (space : IsSpace m pgdir free) where
  entry-absent : present (m.words pgdir) (pdx va) ≡ false → entry m pgdir va ≡ 0
  entry-absent absent = rw absent

  entry-slot :
      present (m.words pgdir) (pdx va) ≡ true
      → entry m pgdir va ≡ m.words (table_of (m.words pgdir) (pdx va)) (ptx va)
  entry-slot here = rw here

  -- A present translation stands in a present table.
  pub present_of_entry :
      has_flag (entry m pgdir va) pte_p ≡ true → present (m.words pgdir) (pdx va) ≡ true
  present_of_entry h = elim (Bool-cases (present (m.words pgdir) (pdx va))) [
    | inl here ↦ here
    | inr absent ↦ cc (rw (entry-absent absent) at h)
  ]

  pub page_lookup-hit :
      has_flag (entry m pgdir va) pte_p ≡ true
      → pgnum (pte_addr (entry m pgdir va)) < m.npages
      → page_lookup pgdir va m
        ≡ done (some (pgnum (pte_addr (entry m pgdir va)), slot_of m pgdir va), m)
  unfolding page_lookup
  page_lookup-hit h lt = ground (
    arith,
    walk-present m pgdir va false here (space.is_dir.table_lt (pdx va) here),
    found-hit m (slot_of m pgdir va) (rw (entry-slot here) at h) (rw (entry-slot here) at lt),
    entry-slot here,
  )
    where
      here : present (m.words pgdir) (pdx va) ≡ true
      here = present_of_entry h

  pub page_lookup-miss :
      has_flag (entry m pgdir va) pte_p ≡ false → page_lookup pgdir va m ≡ done (none, m)
  unfolding page_lookup
  page_lookup-miss h = elim (Bool-cases (present (m.words pgdir) (pdx va))) [
    | inl here ↦ ground (
      arith,
      walk-present m pgdir va false here (space.is_dir.table_lt (pdx va) here),
      found-miss m (slot_of m pgdir va) (rw (entry-slot here) at h),
    )
    | inr absent ↦ ground (arith, walk-absent m pgdir va absent)
  ]

  -- In a well-formed address space, `check_va2pa` reads the page address of the translation, or
  -- `~0` where there is none.
  pub check_va2pa-entry :
      check_va2pa pgdir va m
      ≡ done
          (if has_flag (entry m pgdir va) pte_p then pte_addr (entry m pgdir va) else no_address, m)
  unfolding check_va2pa
  check_va2pa-entry = elim (Bool-cases (present (m.words pgdir) (pdx va))) [
    | inl here ↦ ground (
      arith,
      here,
      kaddr-done (pte_addr (m.words pgdir (pdx va))) m (space.is_dir.table_lt (pdx va) here),
    )
    | inr absent ↦ ground (arith, absent)
  ]
