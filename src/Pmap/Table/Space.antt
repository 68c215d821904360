-- ===== src/Pmap/Table/Space.antt =====
-- The address space that a page directory describes, and when its tables are well formed.
use at_jos.Base.{
  ℕ, ◌^◌, ◌<◌, ◌≡◌, refl, ◌≢◌, Bool, true, false, List, ◌∷◌, ◌==◌, if◌then◌else◌, arith, Bool-cases,
  inl, inr,
}
use at_jos.Pmap.Addr.{pdx, ptx, pgnum, pte_addr, pte_p, has_flag, uvpt}
use at_jos.Pmap.State.{Memory, update}
use at_jos.Pmap.Alloc.Laws.{Addressable}
use at_jos.Pmap.Alloc.FreeList.{has, IsFreeList}
use at_jos.Pmap.Table.Entry.{pde_of, pgnum-pde}

-- The directory slot through which the page directory maps itself.
abbrev pub self_index : ℕ
self_index = 957

pub pdx-uvpt : pdx uvpt ≡ self_index
unfolding pdx
pdx-uvpt = refl

abbrev pub present : (ℕ → ℕ) → ℕ → Bool
present dir d = has_flag (dir d) pte_p

abbrev pub table_of : (ℕ → ℕ) → ℕ → ℕ
table_of dir d = pgnum (pte_addr (dir d))

-- The page table entry of an address: 0 where there is no page table.
abbrev pub entry : Memory → ℕ → ℕ → ℕ
entry m pgdir va =
    if present (m.words pgdir) (pdx va)
    then m.words (table_of (m.words pgdir) (pdx va)) (ptx va)
    else 0

-- The page tables of a directory are pages of the machine that are not free, differ from the
-- directory (but for its slot for itself) and from one another.
pub record IsDir (dir : ℕ → ℕ) (pgdir npages : ℕ) (free : List ℕ) : Type 0 where
  pub dir_lt : pgdir < npages
  pub dir_used : has pgdir free ≡ false
  pub table_lt : (d : ℕ) → present dir d ≡ true → table_of dir d < npages
  pub table_used : (d : ℕ) → present dir d ≡ true → has (table_of dir d) free ≡ false
  pub table_ne_dir : (d : ℕ) → present dir d ≡ true → d ≢ self_index → table_of dir d ≢ pgdir
  pub table_ne_table :
      (d e : ℕ)
      → present dir d ≡ true
      → present dir e ≡ true
      → d ≢ e
      → table_of dir d ≢ table_of dir e

pub record IsSpace (m : Memory) (pgdir : ℕ) (free : List ℕ) : Type 0 where
  pub addressable : Addressable m
  pub free_list : IsFreeList m free
  pub is_dir : IsDir (m.words pgdir) pgdir m.npages free

-- Taking a page off the free list keeps the tables well formed.
pub IsDir-take :
    {dir : ℕ → ℕ} {pgdir npages p : ℕ} {free : List ℕ}
    → IsDir dir pgdir npages (p ∷ free)
    → IsDir dir pgdir npages free
IsDir-take i = record {
  dir_lt = i.dir_lt;
  dir_used = ground (arith, i.dir_used);
  table_lt = i.table_lt;
  table_used = λ d h. ground (arith, i.table_used d h);
  table_ne_dir = i.table_ne_dir;
  table_ne_table = i.table_ne_table;
}

-- So does putting back a page that is no table.
pub IsDir-give :
    {dir : ℕ → ℕ} {pgdir npages : ℕ} {free : List ℕ} (p : ℕ)
    → IsDir dir pgdir npages free
    → pgdir ≢ p
    → ((d : ℕ) → present dir d ≡ true → table_of dir d ≢ p)
    → IsDir dir pgdir npages (p ∷ free)
IsDir-give p i ne_dir ne_table = record {
  dir_lt = i.dir_lt;
  dir_used = ground (arith, i.dir_used);
  table_lt = i.table_lt;
  table_used = λ d h. ground (arith, i.table_used d h, ne_table d h);
  table_ne_dir = i.table_ne_dir;
  table_ne_table = i.table_ne_table;
}

-- A new table for an empty slot of the directory, made of the head of the free list.
pub IsDir-grow :
    {dir : ℕ → ℕ} {pgdir npages : ℕ} {free : List ℕ} (p d0 : ℕ)
    → IsDir dir pgdir npages (p ∷ free)
    → p < npages
    → p < 2 ^ 20
    → has p free ≡ false
    → IsDir (update dir d0 (pde_of p)) pgdir npages free
IsDir-grow {dir} {pgdir} p d0 i lt small off = record {
  dir_lt = i.dir_lt;
  dir_used = ground (arith, i.dir_used);
  table_lt = λ d h. elim (Bool-cases (d0 == d)) [
    | inl new ↦ rw (new, pgnum-pde p small) lt
    | inr old ↦ rw old (i.table_lt d (rw old at h))
  ];
  table_used = λ d h. elim (Bool-cases (d0 == d)) [
    | inl new ↦ rw (new, pgnum-pde p small) off
    | inr old ↦ rw old (let u = i.table_used d (rw old at h) in ground arith)
  ];
  table_ne_dir = λ d h ne. elim (Bool-cases (d0 == d)) [
    | inl new ↦ rw (new, pgnum-pde p small) (ground (arith, i.dir_used))
    | inr old ↦ rw old (i.table_ne_dir d (rw old at h) ne)
  ];
  table_ne_table = λ d e hd he ne. elim (Bool-cases (d0 == d)) [
    | inl new ↦ elim (Bool-cases (d0 == e)) [
      | inl new' ↦ absurd (ground arith)
      | inr old' ↦
          rw (new, old', pgnum-pde p small) (let u = i.table_used e (rw old' at he) in ground arith)
    ]
    | inr old ↦ elim (Bool-cases (d0 == e)) [
      | inl new' ↦
          rw (old, new', pgnum-pde p small) (let u = i.table_used d (rw old at hd) in ground arith)
      | inr old' ↦ rw (old, old') (i.table_ne_table d e (rw old at hd) (rw old' at he) ne)
    ]
  ];
}
