-- ===== src/Pmap/Table/Region.antt =====
-- One page of `boot_map_region` of pmap.c.
pub mod Step
pub mod Loop
use at_jos.Base.{
  ℕ, ◌+◌, ◌-◌, ◌^◌, ◌≤◌, ◌<◌, ◌≡◌, refl, ◌≢◌, true, false, List, [], ◌∷◌, ◌==◌, if◌then◌else◌,
  arith, ap, ◌∙◌, Bool-cases, inl, inr, bit_or, length,
}
use at_jos.Base.Monad.{done, Cmd}
use at_jos.Pmap.Addr.{pdx, ptx, pte_p, page_size, word_mod}
use at_jos.Pmap.State.{Memory, set_word, update}
use at_jos.Pmap.Alloc.Laws.{cleared, unlinked}
use at_jos.Pmap.Table.{Slot, map_page, map_pages, boot_map_region}
use at_jos.Pmap.Table.Entry.{pde_of, IsPlain, present-pde, writable-pde}
use at_jos.Pmap.Table.Space.{present, table_of, entry, IsSpace, self_index}
use at_jos.Pmap.Table.Walk.{
  table-linked, slot_of, walk-present, walk-new, with_table, with_table-IsSpace, with_table-present,
  with_table-entry, dir-with_table,
}
use at_jos.Pmap.Table.Slots.{same_page, dir-stored, stored-IsSpace, stored-entry}

-- The entry that the code writes.
abbrev pub entry_for : ℕ → ℕ → ℕ
entry_for pa perm = bit_or (bit_or pa perm) pte_p

-- One translation is new, and its page table is there.
pub record IsMapped (m m' : Memory) (pgdir va w : ℕ) (free' : List ℕ) : Type 0 where
  pub space : IsSpace m' pgdir free'
  pub entries :
      (a : ℕ)
      → pdx a ≢ self_index
      → entry m' pgdir a ≡ (if same_page va a then w else entry m pgdir a)
  pub there : present (m'.words pgdir) (pdx va) ≡ true
  pub kept : (d : ℕ) → pdx va ≢ d → m'.words pgdir d ≡ m.words pgdir d
  pub plain : (d : ℕ) → IsPlain (m.words pgdir d) → IsPlain (m'.words pgdir d)
  pub npages : m'.npages ≡ m.npages
  pub kern_pgdir : m'.kern_pgdir ≡ m.kern_pgdir

-- The pages that a missing table takes.
abbrev pub needed : Memory → ℕ → ℕ → ℕ
needed m pgdir va = if present (m.words pgdir) (pdx va) then 0 else 1

map_page-present :
    (m : Memory) (pgdir va pa perm : ℕ) (free : List ℕ)
    → IsSpace m pgdir free
    → present (m.words pgdir) (pdx va) ≡ true
    → pdx va ≢ self_index
    → (m' : Memory) × (map_page pgdir va pa perm m ≡ done (tt, m'))
      × IsMapped m m' pgdir va (entry_for pa perm) free
unfolding map_page
map_page-present m pgdir va pa perm free space here user = (
  set_word (table_of (m.words pgdir) (pdx va)) (ptx va) (entry_for pa perm) m,
  ground (arith, walk-present m pgdir va true here (space.is_dir.table_lt (pdx va) here)),
  record {
    space = stored-IsSpace m pgdir va (entry_for pa perm) space here user;
    entries = stored-entry m pgdir va (entry_for pa perm) space here user;
    there = rw (dir-stored m pgdir va (entry_for pa perm) space here user) here;
    kept = λ d apart. ap (λ f. f d) (dir-stored m pgdir va (entry_for pa perm) space here user);
    plain = λ d is. rw (dir-stored m pgdir va (entry_for pa perm) space here user) is;
    npages = refl;
    kern_pgdir = refl;
  },
)

-- Where `pgdir_walk` first makes the page table, of page `p`.
module _ (m : Memory) (pgdir va pa perm p : ℕ) (free : List ℕ) (space : IsSpace m pgdir (p ∷ free))
    (gone : present (m.words pgdir) (pdx va) ≡ false) (user : pdx va ≢ self_index) where
  abbrev grown : Memory
  grown = with_table pgdir va p m

  grown-IsSpace : IsSpace grown pgdir free
  grown-IsSpace = with_table-IsSpace m pgdir va p free space gone

  grown-present : present (grown.words pgdir) (pdx va) ≡ true
  grown-present = with_table-present m pgdir va p free space gone

  page_lt : p < 2 ^ 20
  page_lt = omega (arith, space.free_list.all_free.0, space.addressable)

  slot-grown : slot_of grown pgdir va ≡ record { table = p; index = ptx va }
  slot-grown =
      ap {B = Slot} (λ (t : ℕ). record { table = t; index = ptx va })
        (table-linked (cleared p (unlinked p m)) pgdir va p page_lt)

  dir-grown :
      (set_word (table_of (grown.words pgdir) (pdx va)) (ptx va) (entry_for pa perm) grown).words
        pgdir
      ≡ update (m.words pgdir) (pdx va) (pde_of p)
  dir-grown =
      dir-stored grown pgdir va (entry_for pa perm) grown-IsSpace grown-present user
      ∙ dir-with_table m pgdir va p free space gone

  grown-IsPlain :
      (d : ℕ) → IsPlain (m.words pgdir d) → IsPlain (update (m.words pgdir) (pdx va) (pde_of p) d)
  grown-IsPlain d is = elim (Bool-cases (pdx va == d)) [
    | inl same ↦ rw same (inr (present-pde p, writable-pde p))
    | inr other ↦ rw other is
  ]

  map_page-absent :
      (m' : Memory) × (map_page pgdir va pa perm m ≡ done (tt, m'))
      × IsMapped m m' pgdir va (entry_for pa perm) free
  unfolding map_page
  map_page-absent = (
    set_word (table_of (grown.words pgdir) (pdx va)) (ptx va) (entry_for pa perm) grown,
    ground (
      arith,
      walk-new m pgdir va p gone space.free_list.chain.0 space.free_list.all_free.0
          space.addressable,
      slot-grown,
    ),
    record {
      space = stored-IsSpace grown pgdir va (entry_for pa perm) grown-IsSpace grown-present user;
      entries = λ a user'.
          stored-entry grown pgdir va (entry_for pa perm) grown-IsSpace grown-present user a user'
          ∙ rw (with_table-entry m pgdir va p free space gone a user') refl;
      there =
          rw (dir-stored grown pgdir va (entry_for pa perm) grown-IsSpace grown-present user)
            grown-present;
      kept = λ d apart. rw dir-grown (ground arith);
      plain = λ d is. rw dir-grown (grown-IsPlain d is);
      npages = refl;
      kern_pgdir = refl;
    },
  )

-- One page, if there is a free page where its table is missing.
pub map_page_lem :
    (m : Memory) (pgdir va pa perm : ℕ) (free : List ℕ)
    → IsSpace m pgdir free
    → pdx va ≢ self_index
    → needed m pgdir va ≤ length free
    → (m' : Memory) × (free' : List ℕ) × (map_page pgdir va pa perm m ≡ done (tt, m'))
      × IsMapped m m' pgdir va (entry_for pa perm) free'
      × (length free ≤ length free' + needed m pgdir va)
map_page_lem m pgdir va pa perm [] space user enough =
    elim (Bool-cases (present (m.words pgdir) (pdx va))) [
      | inl here ↦
          let (m', e, is) = map_page-present m pgdir va pa perm [] space here user in
          (m', [], e, is, omega arith)
      | inr gone ↦ absurd (ground arith)
    ]
map_page_lem m pgdir va pa perm (p ∷ free) space user enough =
    elim (Bool-cases (present (m.words pgdir) (pdx va))) [
      | inl here ↦
          let (m', e, is) = map_page-present m pgdir va pa perm (p ∷ free) space here user in
          (m', p ∷ free, e, is, omega arith)
      | inr gone ↦
          let (m', e, is) = map_page-absent m pgdir va pa perm p free space gone user in
          (m', free, e, is, rw gone (omega arith))
    ]
