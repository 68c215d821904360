-- ===== src/Pmap/Table/Region/Loop.antt =====
-- `boot_map_region` of pmap.c maps a range of pages.
use at_jos.Base.{
  ℕ, zero, suc, ◌+◌, ◌-◌, ◌*◌, ◌/◌, ◌%◌, ◌^◌, ◌≤◌, ◌<◌, ◌≡◌, refl, ◌≢◌, List, ltb, arith, ap, ◌∙◌,
  Bool-cases, inl, inr, ◌⊎◌, length,
}
use at_jos.Base.Monad.{done}
use at_jos.Pmap.Addr.{pdx}
use at_jos.Pmap.State.{Memory}
use at_jos.Pmap.Table.{map_page, map_pages, boot_map_region}
use at_jos.Pmap.Table.Entry.{IsPlain}
use at_jos.Pmap.Table.Space.{entry, IsSpace, self_index}
use at_jos.Pmap.Table.Region.{entry_for, IsMapped, needed, map_page_lem}
use at_jos.Pmap.Table.Region.Step.{
  same_page-in, same_page-out, pdx-le, needed-le, needed-next, map_pages-step, map_pages-next,
  slot-off,
}

-- The whole pages from `va` on are mapped from `pa` on, and no other translation has changed.
pub record IsRegion (m m' : Memory) (pgdir rounds va pa perm : ℕ) : Type 0 where
  pub free' : List ℕ
  pub space : IsSpace m' pgdir free'
  pub inside :
      (a : ℕ)
      → va ≤ a
      → a < va + 4096 * rounds
      → entry m' pgdir a ≡ entry_for (pa + (a - va) / 4096 * 4096) perm
  pub outside :
      (a : ℕ)
      → a < 2 ^ 32
      → pdx a ≢ self_index
      → (a < va) ⊎ (va + 4096 * rounds ≤ a)
      → entry m' pgdir a ≡ entry m pgdir a
  pub kept :
      (d : ℕ)
      → ((k : ℕ) → k < rounds → pdx (va + 4096 * k) ≢ d)
      → m'.words pgdir d ≡ m.words pgdir d
  pub plain : (d : ℕ) → IsPlain (m.words pgdir d) → IsPlain (m'.words pgdir d)
  pub npages : m'.npages ≡ m.npages
  pub kern_pgdir : m'.kern_pgdir ≡ m.kern_pgdir

-- The first page of a range is mapped, and then the rest of it, to `m'`.
IsRegion-step :
    (m m1 m' : Memory) (pgdir rounds va pa perm : ℕ) (free1 : List ℕ)
    → va % 4096 ≡ 0
    → va + 4096 * suc rounds ≤ 2 ^ 32
    → pdx va ≢ self_index
    → IsMapped m m1 pgdir va (entry_for pa perm) free1
    → IsRegion m1 m' pgdir rounds (va + 4096) (pa + 4096) perm
    → IsRegion m m' pgdir (suc rounds) va pa perm
IsRegion-step m m1 m' pgdir rounds va pa perm free1 whole fits user is rest = record {
  free' = rest.free';
  space = rest.space;
  inside = λ a lo hi. elim (Bool-cases (ltb a (va + 4096))) [
    | inl near ↦
        let lt : a < va + 4096 = ground arith in
        let in_page = same_page-in va a whole lo lt in
        let slot : pdx va ≡ pdx a = ground arith in
        rest.outside a (omega arith) (rw slot at user) (inl lt)
        ∙ is.entries a (rw slot at user)
        ∙ rw in_page (ap (λ b. entry_for b perm) (omega arith))
    | inr far ↦
        let le : va + 4096 ≤ a = ground arith in
        rest.inside a le (omega arith) ∙ ap (λ b. entry_for b perm) (omega arith)
  ];
  outside = λ a small user' far.
      let off =
        same_page-out va a whole (omega arith) small
          (elim far [ inl b ↦ inl b | inr b ↦ inr (omega arith) ]) in
      rest.outside a small user'
        (elim far [ inl b ↦ inl (omega arith) | inr b ↦ inr (omega arith) ])
      ∙ is.entries a user'
      ∙ rw off refl;
  kept = λ d off.
      rest.kept d (λ k lt.
        slot-off (va + 4096 * suc k) (va + 4096 + 4096 * k) d (omega arith)
          (off (suc k) (omega arith)))
      ∙ is.kept d (slot-off (va + 4096 * 0) va d (omega arith) (off 0 (omega arith)));
  plain = λ d p. rest.plain d (is.plain d p);
  npages = rest.npages ∙ is.npages;
  kern_pgdir = rest.kern_pgdir ∙ is.kern_pgdir;
}

IsRegion-none :
    (m : Memory) (pgdir va pa perm : ℕ) (free : List ℕ)
    → IsSpace m pgdir free
    → IsRegion m m pgdir 0 va pa perm
IsRegion-none m pgdir va pa perm free space = record {
  free' = free;
  space = space;
  inside = λ a lo hi. absurd (omega arith);
  outside = λ a small user far. refl;
  kept = λ d off. refl;
  plain = λ d p. p;
  npages = refl;
  kern_pgdir = refl;
}

map_pages-none : (m : Memory) (pgdir va pa perm : ℕ) → map_pages pgdir 0 va pa perm m ≡ done (tt, m)
unfolding map_pages
map_pages-none m pgdir va pa perm = refl

-- A range of one page.
map_pages-one :
    (m m1 : Memory) (pgdir va pa perm : ℕ) (free free1 : List ℕ)
    → va % 4096 ≡ 0
    → va + 4096 * 1 ≤ 2 ^ 32
    → pdx va ≢ self_index
    → map_page pgdir va pa perm m ≡ done (tt, m1)
    → IsMapped m m1 pgdir va (entry_for pa perm) free1
    → length free ≤ length free1 + needed m pgdir va
    → (m' : Memory) × (map_pages pgdir 1 va pa perm m ≡ done (tt, m'))
      × (region : IsRegion m m' pgdir 1 va pa perm) × (length free
          ≤ length region.free' + (pdx (va + 4096 * 0) - pdx va + needed m pgdir va))
unfolding IsRegion-step IsRegion-none
map_pages-one m m1 pgdir va pa perm free free1 whole fits first e is used = (
  m1,
  map_pages-step m m1 pgdir 0 va pa perm e ∙ map_pages-none m1 pgdir _ _ perm,
  IsRegion-step m m1 m1 pgdir 0 va pa perm free1 whole fits first is
      (IsRegion-none m1 pgdir (va + 4096) (pa + 4096) perm free1 is.space),
  omega arith,
)

map_pages_lem :
    (rounds : ℕ) (m : Memory) (pgdir va pa perm : ℕ) (free : List ℕ)
    → IsSpace m pgdir free
    → va % 4096 ≡ 0
    → va + 4096 * suc rounds ≤ 2 ^ 32
    → pa + 4096 * suc rounds ≤ 2 ^ 32
    → ((k : ℕ) → k ≤ rounds → pdx (va + 4096 * k) ≢ self_index)
    → pdx (va + 4096 * rounds) - pdx va + needed m pgdir va ≤ length free
    → (m' : Memory) × (map_pages pgdir (suc rounds) va pa perm m ≡ done (tt, m'))
      × (region : IsRegion m m' pgdir (suc rounds) va pa perm) × (length free
          ≤ length region.free' + (pdx (va + 4096 * rounds) - pdx va + needed m pgdir va))
unfolding IsRegion-step
map_pages_lem zero m pgdir va pa perm free space whole fits fits' user enough =
    let first : pdx va ≢ self_index =
      slot-off (va + 4096 * 0) va self_index (omega arith) (user 0 (omega arith)) in
    let (m1, free1, e, is, used) = map_page_lem m pgdir va pa perm free space first (omega arith) in
    map_pages-one m m1 pgdir va pa perm free free1 whole fits first e is used
map_pages_lem (suc rounds) m pgdir va pa perm free space whole fits fits' user enough =
    let first : pdx va ≢ self_index =
      slot-off (va + 4096 * 0) va self_index (omega arith) (user 0 (omega arith)) in
    let (m1, free1, e, is, used) = map_page_lem m pgdir va pa perm free space first (omega arith) in
    let last : pdx (va + 4096 + 4096 * rounds) ≡ pdx (va + 4096 * suc rounds) =
      ap pdx (omega arith) in
    let next = λ (n : ℕ).
      needed-next m1 pgdir va (pdx (va + 4096 + 4096 * rounds)) n is.there (omega arith)
        (pdx-le (va + 4096) (va + 4096 + 4096 * rounds) (omega arith) (omega arith)) in
    let all_tables = next (pdx (va + 4096 + 4096 * rounds) - pdx va) (omega arith) in
    let (m', f, region, used') =
      map_pages_lem rounds m1 pgdir (va + 4096) (pa + 4096) perm free1 is.space (omega arith)
        (omega arith) (omega arith)
        (λ k le.
          slot-off (va + 4096 * suc k) (va + 4096 + 4096 * k) self_index (omega arith)
            (user (suc k) (omega arith)))
        (next (length free1) (omega arith)) in
    (
      m',
      map_pages-next m m1 pgdir (suc rounds) va pa perm (omega arith) (omega arith) e ∙ f,
      IsRegion-step m m1 m' pgdir (suc rounds) va pa perm free1 whole fits first is region,
      omega arith,
    )

-- On whole pages within the addresses, off the slot through which the directory maps itself, and with
-- enough free pages for a page table in each of its directory slots, `boot_map_region` ends. It maps each
-- page of the range to the page at the same distance from `pa`, with the permissions given, and changes no
-- other translation and no other directory slot; the tables stay well formed, and at most one free page is
-- gone for each directory slot of the range.
pub boot_map_region_lem :
    (m : Memory) (pgdir va size pa perm : ℕ) (free : List ℕ)
    → IsSpace m pgdir free
    → va % 4096 ≡ 0
    → size % 4096 ≡ 0
    → 0 < size
    → va + size ≤ 2 ^ 32
    → pa + size ≤ 2 ^ 32
    → ((a : ℕ) → va ≤ a → a < va + size → pdx a ≢ self_index)
    → pdx (va + size - 4096) < pdx va + length free
    → (m' : Memory) × (boot_map_region pgdir va size pa perm m ≡ done (tt, m'))
      × (region : IsRegion m m' pgdir (size / 4096) va pa perm) × (length free + pdx va
          ≤ length region.free' + pdx (va + size - 4096) + 1)
unfolding boot_map_region
boot_map_region_lem m pgdir va size pa perm free space whole whole' some_page fits fits' user
      enough =
    let n = size / 4096 - 1 in
    let pages : size / 4096 ≡ suc n = omega arith in
    let last : pdx (va + 4096 * n) ≡ pdx (va + size - 4096) = ap pdx (omega arith) in
    let one = needed-le m pgdir va in
    let up = pdx-le va (va + 4096 * n) (omega arith) (omega arith) in
    let (m', e, region, used) =
      map_pages_lem n m pgdir va pa perm free space whole (omega arith) (omega arith)
        (λ k le. user (va + 4096 * k) (omega arith) (omega arith)) (omega arith) in
    rw pages (m', e, region, omega arith)
