-- ===== src/Pmap/Table/Update.antt =====
-- `page_remove` and `page_insert` as updates of the address space.
use at_jos.Base.{
  ℕ, ◌+◌, ◌-◌, ◌%◌, ◌<◌, ◌≡◌, refl, ◌≢◌, true, false, List, ◌∷◌, ◌==◌, if◌then◌else◌, arith,
  Bool-cases, inl, inr,
}
use native.Mathlib.Nat.{mod-eq_of_lt}
use at_jos.Base.Monad.{done}
use at_jos.Pmap.Addr.{pdx, ptx, pgnum, pte_addr, pte_p, has_flag}
use at_jos.Pmap.State.{Memory, set_word, set_ref}
use at_jos.Pmap.Alloc.FreeList.{has, IsFreeList-set_off}
use at_jos.Pmap.Alloc.Laws.{after_decref, after_decref-IsFreeList, page_decref-done}
use at_jos.Pmap.Table.{page_remove, unmap, tlb_invalidate}
use at_jos.Pmap.Table.Space.{present, table_of, entry, IsSpace, IsDir-give, self_index}
use at_jos.Pmap.Table.Slots.{
  same_page, stored-IsSpace, stored-entry, present_of_entry, page_lookup-hit, page_lookup-miss,
}

-- A page that may be unmapped: it is counted, not free, and no part of the tables.
pub record IsUserPage (m : Memory) (pgdir q : ℕ) (free : List ℕ) : Type 0 where
  pub page_lt : q < m.npages
  pub used : has q free ≡ false
  pub ne_dir : pgdir ≢ q
  pub ne_table : (d : ℕ) → present (m.words pgdir) d ≡ true → table_of (m.words pgdir) d ≢ q
  pub counted : 0 < (m.pages q).pp_ref
  pub fits : (m.pages q).pp_ref < m.ref_mod

-- The free list after one reference to `q` went.
abbrev pub released : Memory → ℕ → List ℕ → List ℕ
released m q free = if (m.pages q).pp_ref == 1 then q ∷ free else free

after_decref-IsSpace :
    {m : Memory} {pgdir q : ℕ} {free : List ℕ}
    → IsSpace m pgdir free
    → IsUserPage m pgdir q free
    → IsSpace (after_decref q m) pgdir (released m q free)
after_decref-IsSpace {m} {pgdir} {q} {free} space page = record {
  addressable = space.addressable;
  free_list = after_decref-IsFreeList m free q space.free_list page.used page.page_lt page.counted;
  is_dir = elim (Bool-cases ((m.pages q).pp_ref == 1)) [
    | inl last ↦ rw last (IsDir-give q space.is_dir page.ne_dir page.ne_table)
    | inr more ↦ rw more space.is_dir
  ];
}

-- The page that `va` translates to.
abbrev pub mapped : Memory → ℕ → ℕ → ℕ
mapped m pgdir va = pgnum (pte_addr (entry m pgdir va))

-- The memory after a translation is removed.
abbrev pub without : Memory → ℕ → ℕ → Memory
without m pgdir va =
    let m1 = after_decref (mapped m pgdir va) m in
    let m2 = set_word (table_of (m.words pgdir) (pdx va)) (ptx va) 0 m1 in
    record m2 { flushed = va ∷ m2.flushed }

-- The memory after a page is counted once more.
abbrev pub counted_up : Memory → ℕ → Memory
counted_up m pp = set_ref pp (((m.pages pp).pp_ref + 1) % m.ref_mod) m

module _ (m : Memory) (pgdir va : ℕ) {free : List ℕ} (space : IsSpace m pgdir free)
    (user : pdx va ≢ self_index) where
  pub page_remove-hit :
      has_flag (entry m pgdir va) pte_p ≡ true
      → IsUserPage m pgdir (mapped m pgdir va) free
      → page_remove pgdir va m ≡ done (tt, (without m pgdir va))
  unfolding page_remove unmap tlb_invalidate
  page_remove-hit h page = ground (
    arith,
    page_lookup-hit m pgdir va space h page.page_lt,
    page_decref-done m (mapped m pgdir va) page.counted page.fits,
    slot_entry,
  )
    where
      slot_entry : m.words (table_of (m.words pgdir) (pdx va)) (ptx va) ≡ entry m pgdir va
      slot_entry = rw (present_of_entry m pgdir va space h)

  pub page_remove-miss :
      has_flag (entry m pgdir va) pte_p ≡ false → page_remove pgdir va m ≡ done (tt, m)
  unfolding page_remove
  page_remove-miss h = ground (arith, page_lookup-miss m pgdir va space h)

  -- Removing keeps the tables well formed, and takes away just the translation of that page.
  pub without-IsSpace :
      has_flag (entry m pgdir va) pte_p ≡ true
      → IsUserPage m pgdir (mapped m pgdir va) free
      → IsSpace (without m pgdir va) pgdir (released m (mapped m pgdir va) free)
  without-IsSpace h page =
      let s =
        stored-IsSpace (after_decref (mapped m pgdir va) m) pgdir va 0
          (after_decref-IsSpace space page) (present_of_entry m pgdir va space h) user in
      record {
        addressable = s.addressable;
        free_list = record {
          chain = s.free_list.chain;
          distinct = s.free_list.distinct;
          all_free = s.free_list.all_free;
        };
        is_dir = s.is_dir;
      }

  pub without-entry :
      has_flag (entry m pgdir va) pte_p ≡ true
      → IsUserPage m pgdir (mapped m pgdir va) free
      → (a : ℕ) → pdx a ≢ self_index
      → entry (without m pgdir va) pgdir a ≡ (if same_page va a then 0 else entry m pgdir a)
  without-entry h page =
      stored-entry (after_decref (mapped m pgdir va) m) pgdir va 0 (after_decref-IsSpace space page)
        (present_of_entry m pgdir va space h) user

  -- In a well-formed address space, where a user address `va` is mapped to a page that is
  -- counted, not free and no part of the tables, `page_remove` takes its translation away and no
  -- other, flushes it from the TLB, and gives back one reference: the page goes to the free list
  -- exactly if that was the last.
  pub page_remove_lem :
      has_flag (entry m pgdir va) pte_p ≡ true
      → IsUserPage m pgdir (pgnum (pte_addr (entry m pgdir va))) free
      → (m' : Memory) × (page_remove pgdir va m ≡ done (tt, m'))
        × IsSpace m' pgdir (released m (pgnum (pte_addr (entry m pgdir va))) free)
        × ((a : ℕ)
            → pdx a ≢ self_index
            → entry m' pgdir a ≡ (if same_page va a then 0 else entry m pgdir a))
        × ((m'.pages (pgnum (pte_addr (entry m pgdir va)))).pp_ref
            ≡ (m.pages (pgnum (pte_addr (entry m pgdir va)))).pp_ref - 1)
        × (m'.flushed ≡ va ∷ m.flushed)
  page_remove_lem h page = (
    (without m pgdir va),
    page_remove-hit h page,
    without-IsSpace h page,
    without-entry h page,
    ground arith,
    refl,
  )

-- Counting a page up keeps everything but the count.
module _ (m : Memory) (pgdir pp : ℕ) {free : List ℕ} (space : IsSpace m pgdir free)
    (off : has pp free ≡ false) where
  pub counted_up-IsSpace : IsSpace (counted_up m pp) pgdir free
  counted_up-IsSpace = record {
    addressable = space.addressable;
    free_list = IsFreeList-set_off space.free_list pp _ off;
    is_dir = space.is_dir;
  }

  pub counted_up-IsUserPage :
      (q : ℕ)
      → (m.pages pp).pp_ref + 1 < m.ref_mod
      → IsUserPage m pgdir q free
      → IsUserPage (counted_up m pp) pgdir q free
  counted_up-IsUserPage q room page = record {
    page_lt = page.page_lt;
    used = page.used;
    ne_dir = page.ne_dir;
    ne_table = page.ne_table;
    counted = ground (arith, mod-eq_of_lt room);
    fits = ground (arith, mod-eq_of_lt room);
  }
