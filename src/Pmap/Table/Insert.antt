-- ===== src/Pmap/Table/Insert.antt =====
-- `page_insert` maps a page at an address, whatever was there before.
use at_jos.Base.{
  ℕ, ◌+◌, ◌^◌, ◌<◌, ◌≡◌, refl, ◌≢◌, true, false, List, [], ◌∷◌, if◌then◌else◌, arith, ap, ◌∙◌,
  Bool-cases, inl, inr, ◌⊎◌,
}
use at_jos.Base.Int.{pos, neg}
use at_jos.Base.Monad.{done, Cmd, pure}
use at_jos.Pmap.Addr.{pdx, ptx, pte_p, has_flag}
use at_jos.Pmap.State.{Memory, set_word, incref}
use at_jos.Pmap.Alloc.FreeList.{has}
use at_jos.Pmap.Alloc.Laws.{cleared, unlinked}
use at_jos.Pmap.Table.{Slot, page_remove, insert_at, page_insert, e_no_mem}
use at_jos.Pmap.Table.Entry.{pte_of}
use at_jos.Pmap.Table.Space.{present, table_of, entry, IsSpace, self_index}
use at_jos.Pmap.Table.Walk.{
  table-linked, slot_of, walk-present, walk-no_mem, walk-new, with_table, with_table-IsSpace,
  with_table-present, with_table-entry,
}
use at_jos.Pmap.Table.Slots.{same_page, dir-stored, stored-IsSpace, stored-entry}
use at_jos.Pmap.Table.Update.{
  IsUserPage, released, mapped, without, page_remove-hit, without-IsSpace, without-entry,
  counted_up, counted_up-IsSpace, counted_up-IsUserPage,
}

-- What the insertion leaves: well-formed tables, and the address space with one new translation.
pub record IsInserted (m m' : Memory) (pgdir va w : ℕ) : Type 0 where
  pub free' : List ℕ
  pub space : IsSpace m' pgdir free'
  pub entries :
      (a : ℕ)
      → pdx a ≢ self_index
      → entry m' pgdir a ≡ (if same_page va a then w else entry m pgdir a)

-- What `page_insert` needs of the page, and of the page that it may displace.
pub record CanInsert (m : Memory) (pgdir va pp : ℕ) (free : List ℕ) : Type 0 where
  pub space : IsSpace m pgdir free
  pub user : pdx va ≢ self_index
  pub off : has pp free ≡ false
  pub room : (m.pages pp).pp_ref + 1 < m.ref_mod
  pub displaced :
      has_flag (entry m pgdir va) pte_p ≡ true → IsUserPage m pgdir (mapped m pgdir va) free

-- The memory before the last store: only the translation of `va` may have gone.
record IsEmptied (m m2 : Memory) (pgdir va pp : ℕ) : Type 0 where
  free2 : List ℕ
  space : IsSpace m2 pgdir free2
  dir : m2.words pgdir ≡ m.words pgdir
  entries :
      (a : ℕ) → pdx a ≢ self_index → same_page va a ≡ false → entry m2 pgdir a ≡ entry m pgdir a

module _ (m : Memory) (pgdir va pp perm : ℕ) {free : List ℕ} (can : CanInsert m pgdir va pp free)
    (here : present (m.words pgdir) (pdx va) ≡ true) where
  abbrev m1 : Memory
  m1 = counted_up m pp

  -- The removal inside `page_insert`.
  abbrev vacate : Cmd Memory (Unit {0})
  vacate = if has_flag (entry m pgdir va) pte_p then page_remove pgdir va else pure tt

  vacated : (m2 : Memory) × (vacate m1 ≡ done (tt, m2)) × IsEmptied m m2 pgdir va pp
  vacated = elim (Bool-cases (has_flag (entry m pgdir va) pte_p)) [
    | inl old ↦
        let page =
          counted_up-IsUserPage m pgdir pp can.space can.off (mapped m pgdir va) can.room
            (can.displaced old) in
        let s1 = counted_up-IsSpace m pgdir pp can.space can.off in
        (
          without m1 pgdir va,
          rw old (page_remove-hit m1 pgdir va s1 can.user old page),
          record {
            free2 = released m1 (mapped m pgdir va) free;
            space = without-IsSpace m1 pgdir va s1 can.user old page;
            dir = dir-stored m1 pgdir va 0 s1 here can.user;
            entries =
                λ a user other. without-entry m1 pgdir va s1 can.user old page a user ∙ rw other;
          },
        )
    | inr none_there ↦ (
      m1,
      rw none_there,
      record {
        free2 = free;
        space = counted_up-IsSpace m pgdir pp can.space can.off;
        dir = refl;
        entries = λ a user other. refl;
      },
    )
  ]

  abbrev final : Memory
  final = set_word (table_of (vacated.0.words pgdir) (pdx va)) (ptx va) (pte_of pp perm) vacated.0

  slot_entry : m.words (table_of (m.words pgdir) (pdx va)) (ptx va) ≡ entry m pgdir va
  slot_entry = rw here

  same_slot : table_of (vacated.0.words pgdir) (pdx va) ≡ table_of (m.words pgdir) (pdx va)
  same_slot = ap (λ (d : ℕ → ℕ). table_of d (pdx va)) vacated.2.dir

  insert_at-done : insert_at pgdir pp va perm (slot_of m pgdir va) m ≡ done (pos 0, final)
  unfolding insert_at incref
  insert_at-done = ground (arith, vacated.1, slot_entry, same_slot)

  still_here : present (vacated.0.words pgdir) (pdx va) ≡ true
  still_here = rw (vacated.2.dir) here

  insert_at-IsInserted : IsInserted m final pgdir va (pte_of pp perm)
  insert_at-IsInserted = record {
    free' = vacated.2.free2;
    space = stored-IsSpace vacated.0 pgdir va (pte_of pp perm) vacated.2.space still_here can.user;
    entries = λ a user. elim (Bool-cases (same_page va a)) [
      | inl same ↦
          stored-entry vacated.0 pgdir va (pte_of pp perm) vacated.2.space still_here can.user a
            user
          ∙ rw same
      | inr other ↦
          stored-entry vacated.0 pgdir va (pte_of pp perm) vacated.2.space still_here can.user a
            user
          ∙ rw other (vacated.2.entries a user other)
    ];
  }

-- Inserting where the page table is there already.
insert_present :
    (m : Memory) (pgdir va pp perm : ℕ) {free : List ℕ}
    → CanInsert m pgdir va pp free
    → present (m.words pgdir) (pdx va) ≡ true
    → (m' : Memory) × (page_insert pgdir pp va perm m ≡ done (pos 0, m'))
      × IsInserted m m' pgdir va (pte_of pp perm)
unfolding page_insert
insert_present m pgdir va pp perm can here = (
  final m pgdir va pp perm can here,
  ground (
    arith,
    walk-present m pgdir va true here (can.space.is_dir.table_lt (pdx va) here),
    insert_at-done m pgdir va pp perm can here,
  ),
  insert_at-IsInserted m pgdir va pp perm can here,
)

-- Inserting where `pgdir_walk` first makes the page table, of page `p`.
module _ (m : Memory) (pgdir va pp perm p : ℕ) {free : List ℕ}
    (can : CanInsert m pgdir va pp (p ∷ free))
    (gone : present (m.words pgdir) (pdx va) ≡ false) where
  abbrev grown : Memory
  grown = with_table pgdir va p m

  grown-entry : (a : ℕ) → pdx a ≢ self_index → entry grown pgdir a ≡ entry m pgdir a
  grown-entry = with_table-entry m pgdir va p free can.space gone

  nothing_there : has_flag (entry grown pgdir va) pte_p ≡ false
  nothing_there = rw (grown-entry va can.user, gone)

  grown-CanInsert : CanInsert grown pgdir va pp free
  grown-CanInsert = record {
    space = with_table-IsSpace m pgdir va p free can.space gone;
    user = can.user;
    off = ground (arith, can.off);
    room = ground (arith, can.off, can.room);
    displaced = λ h. cc (nothing_there);
  }

  grown-present : present (grown.words pgdir) (pdx va) ≡ true
  grown-present = with_table-present m pgdir va p free can.space gone

  page_lt : p < 2 ^ 20
  page_lt = omega (arith, can.space.free_list.all_free.0, can.space.addressable)

  slot-grown : slot_of grown pgdir va ≡ record { table = p; index = ptx va }
  slot-grown =
      ap {B = Slot} (λ (t : ℕ). record { table = t; index = ptx va })
        (table-linked (cleared p (unlinked p m)) pgdir va p page_lt)

  insert_absent :
      (m' : Memory) × (page_insert pgdir pp va perm m ≡ done (pos 0, m'))
      × IsInserted m m' pgdir va (pte_of pp perm)
  unfolding page_insert
  insert_absent = (
    final grown pgdir va pp perm grown-CanInsert grown-present,
    ground (
      arith,
      walk-new m pgdir va p gone can.space.free_list.chain.0 can.space.free_list.all_free.0
          can.space.addressable,
      insert_at-done grown pgdir va pp perm grown-CanInsert grown-present,
      slot-grown,
    ),
    record {
      free' = inserted.free';
      space = inserted.space;
      entries = λ a user. inserted.entries a user ∙ rw (grown-entry a user);
    },
  )
    where
      inserted :
          IsInserted grown
            (final grown pgdir va pp perm grown-CanInsert grown-present)
            pgdir
            va
            (pte_of pp perm)
      inserted = insert_at-IsInserted grown pgdir va pp perm grown-CanInsert grown-present

-- In a well-formed address space, for a page that is not free and whose counter has room,
-- `page_insert` at a user address either maps it there with the given permissions, and changes no
-- other translation, whether or not a page was mapped there or the page table had to be made; or
-- it returns -E_NO_MEM and changes nothing, and then no page is free and the page table is
-- missing.
pub page_insert_lem :
    (m : Memory) (pgdir va pp perm : ℕ) (free : List ℕ)
    → CanInsert m pgdir va pp free
    → ((m' : Memory) × (page_insert pgdir pp va perm m ≡ done (pos 0, m'))
        × IsInserted m m' pgdir va (pte_of pp perm))
      ⊎ ((page_insert pgdir pp va perm m ≡ done (neg e_no_mem, m))
          × (free ≡ [])
          × (present (m.words pgdir) (pdx va) ≡ false))
unfolding page_insert
page_insert_lem m pgdir va pp perm [] can = elim (Bool-cases (present (m.words pgdir) (pdx va))) [
  | inl here ↦ inl (insert_present m pgdir va pp perm can here)
  | inr gone ↦ inr (ground (arith, walk-no_mem m pgdir va gone can.space.free_list), refl, gone)
]
page_insert_lem m pgdir va pp perm (p ∷ free) can =
    elim (Bool-cases (present (m.words pgdir) (pdx va))) [
      | inl here ↦ inl (insert_present m pgdir va pp perm can here)
      | inr gone ↦ inl (insert_absent m pgdir va pp perm p can gone)
    ]
