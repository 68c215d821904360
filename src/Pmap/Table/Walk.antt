-- ===== src/Pmap/Table/Walk.antt =====
-- `pgdir_walk` on well-formed tables: where it stops, and that it never changes a translation.
use at_jos.Base.{
  ℕ, ◌+◌, ◌%◌, ◌^◌, ◌<◌, ◌≡◌, ◌≢◌, Bool, true, false, none, some, List, [], ◌∷◌, ◌==◌, arith, ap,
  ◌∙◌, fun_ext, Bool-cases, inl, inr,
}
use at_jos.Base.Monad.{done}
use at_jos.Pmap.Addr.{pdx, ptx, pgnum, pte_addr}
use at_jos.Pmap.State.{Memory, update, set_word, set_ref, incref, kaddr}
use at_jos.Pmap.Alloc.{alloc_zero}
use at_jos.Pmap.Alloc.Laws.{
  Addressable, page_alloc-some, page_alloc-none, after_alloc-IsFreeList, unlinked, cleared,
}
use at_jos.Pmap.Alloc.FreeList.{IsFreeList, IsFreeList-set_off}
use at_jos.Pmap.Table.{Slot, pgdir_walk, walk_table, new_table}
use at_jos.Pmap.Table.Entry.{pde_of, present-pde, pgnum-pde, pgnum-pte_addr}
use at_jos.Pmap.Table.Space.{present, table_of, entry, IsSpace, IsDir-grow, self_index}

abbrev pub slot_of : Memory → ℕ → ℕ → Slot
slot_of m pgdir va = record { table = table_of (m.words pgdir) (pdx va); index = ptx va }

pub kaddr-done : (x : ℕ) (m : Memory) → pgnum x < m.npages → kaddr x m ≡ done (pgnum x, m)
unfolding kaddr
kaddr-done x m lt = ground arith

pub walk_table-done :
    (m : Memory) (pgdir va : ℕ)
    → table_of (m.words pgdir) (pdx va) < m.npages
    → walk_table pgdir va m ≡ done (some (slot_of m pgdir va), m)
unfolding walk_table
walk_table-done m pgdir va lt = ground (
  arith,
  pgnum-pte_addr (m.words pgdir (pdx va)),
  kaddr-done (pte_addr (m.words pgdir (pdx va))) m lt,
)

-- With a page table in place the walk changes nothing.
pub walk-present :
    (m : Memory) (pgdir va : ℕ) (create : Bool)
    → present (m.words pgdir) (pdx va) ≡ true
    → table_of (m.words pgdir) (pdx va) < m.npages
    → pgdir_walk pgdir va create m ≡ done (some (slot_of m pgdir va), m)
unfolding pgdir_walk
walk-present m pgdir va create here lt = ground (arith, walk_table-done m pgdir va lt)

pub walk-absent :
    (m : Memory) (pgdir va : ℕ)
    → present (m.words pgdir) (pdx va) ≡ false
    → pgdir_walk pgdir va false m ≡ done (none, m)
unfolding pgdir_walk
walk-absent m pgdir va gone = ground arith

pub walk-no_mem :
    (m : Memory) (pgdir va : ℕ)
    → present (m.words pgdir) (pdx va) ≡ false
    → IsFreeList m []
    → pgdir_walk pgdir va true m ≡ done (none, m)
unfolding pgdir_walk new_table
walk-no_mem m pgdir va gone f = ground (arith, page_alloc-none m alloc_zero f)

-- The memory after the directory slot is filled.
abbrev pub linked : ℕ → ℕ → ℕ → Memory → Memory
linked pgdir va p m =
    set_word pgdir (pdx va) (pde_of p) (set_ref p (((m.pages p).pp_ref + 1) % m.ref_mod) m)

-- The memory after a page table was made of page `p`.
abbrev pub with_table : ℕ → ℕ → ℕ → Memory → Memory
with_table pgdir va p m = linked pgdir va p (cleared p (unlinked p m))

word-linked : (m : Memory) (pgdir va p : ℕ) → (linked pgdir va p m).words pgdir (pdx va) ≡ pde_of p
word-linked m pgdir va p = ground arith

pub table-linked :
    (m : Memory) (pgdir va p : ℕ)
    → p < 2 ^ 20
    → table_of ((linked pgdir va p m).words pgdir) (pdx va) ≡ p
table-linked m pgdir va p small =
    ap (λ (w : ℕ). pgnum (pte_addr w)) (word-linked m pgdir va p) ∙ pgnum-pde p small

new_table-done :
    (m : Memory) (pgdir va p : ℕ)
    → p < m.npages
    → Addressable m
    → new_table pgdir va (some p) m
      ≡ done (some (record { table = p; index = ptx va }), linked pgdir va p m)
unfolding new_table incref
new_table-done m pgdir va p lt small =
    walk_table-done (linked pgdir va p m) pgdir va (omega (arith, named))
    ∙ ap (λ (t : ℕ). done (some (record { table = t; index = ptx va }), linked pgdir va p m)) named
  where
    named : table_of ((linked pgdir va p m).words pgdir) (pdx va) ≡ p
    named = table-linked m pgdir va p (omega arith)

pub walk-new :
    (m : Memory) (pgdir va p : ℕ)
    → present (m.words pgdir) (pdx va) ≡ false
    → m.page_free_list ≡ some p
    → p < m.npages
    → Addressable m
    → pgdir_walk pgdir va true m
      ≡ done (some (record { table = p; index = ptx va }), with_table pgdir va p m)
unfolding pgdir_walk
walk-new m pgdir va p gone e lt small = ground (
  arith,
  page_alloc-some m alloc_zero p e lt small,
  new_table-done (cleared p (unlinked p m)) pgdir va p lt small,
)

-- Making a page table keeps the tables well formed, and changes no translation.
module _ (m : Memory) (pgdir va p : ℕ) (free : List ℕ) (space : IsSpace m pgdir (p ∷ free))
    (gone : present (m.words pgdir) (pdx va) ≡ false) where
  abbrev m' : Memory
  m' = with_table pgdir va p m

  page_ne_dir : (p == pgdir) ≡ false
  page_ne_dir = ground (arith, space.is_dir.dir_used)

  page_lt : p < 2 ^ 20
  page_lt = omega (arith, space.free_list.all_free.0, space.addressable)

  pub dir-with_table : m'.words pgdir ≡ update (m.words pgdir) (pdx va) (pde_of p)
  dir-with_table = fun_ext λ i. ground (arith, page_ne_dir)

  pub with_table-IsSpace : IsSpace m' pgdir free
  with_table-IsSpace = record {
    addressable = space.addressable;
    free_list = record {
      chain = taken.chain;
      distinct = taken.distinct;
      all_free = taken.all_free;
    };
    is_dir = rw dir-with_table (
        IsDir-grow p (pdx va) space.is_dir space.free_list.all_free.0 page_lt
          space.free_list.distinct.0);
  }
    where
      taken :
          IsFreeList
            (set_ref p (((m.pages p).pp_ref + 1) % m.ref_mod) (cleared p (unlinked p m)))
            free
      taken =
          IsFreeList-set_off
            (after_alloc-IsFreeList m free space.addressable alloc_zero p space.free_list) p _
            space.free_list.distinct.0

  pub with_table-present : present (m'.words pgdir) (pdx va) ≡ true
  with_table-present = rw dir-with_table (ground (arith, present-pde p))

  -- In the slot that was filled every translation is still absent.
  entry-new : (a : ℕ) → pdx va ≡ pdx a → entry m' pgdir a ≡ entry m pgdir a
  entry-new a e = rw (← e, gone, with_table-present, table) (ground (arith, page_ne_dir))
    where
      table : table_of (m'.words pgdir) (pdx va) ≡ p
      table = table-linked (cleared p (unlinked p m)) pgdir va p page_lt

  word-with_table : (t i : ℕ) → t ≢ p → t ≢ pgdir → m'.words t i ≡ m.words t i
  word-with_table t i ne_page ne_dir = ground arith

  entry-old : (a : ℕ) → pdx va ≢ pdx a → pdx a ≢ self_index → entry m' pgdir a ≡ entry m pgdir a
  entry-old a ne user = elim (Bool-cases (present (m.words pgdir) (pdx a))) [
    | inl here ↦
        rw (kept, here)
          (word-with_table (table_of (m.words pgdir) (pdx a)) (ptx a)
            (ground (arith, space.is_dir.table_used (pdx a) here))
            (space.is_dir.table_ne_dir (pdx a) here user))
    | inr absent ↦ rw (kept, absent)
  ]
    where
      kept : m'.words pgdir (pdx a) ≡ m.words pgdir (pdx a)
      kept = rw dir-with_table (ground arith)

  pub with_table-entry : (a : ℕ) → pdx a ≢ self_index → entry m' pgdir a ≡ entry m pgdir a
  with_table-entry a user = elim (Bool-cases (pdx va == pdx a)) [
    | inl same ↦ entry-new a (ground arith)
    | inr other ↦ entry-old a (ground arith) user
  ]
