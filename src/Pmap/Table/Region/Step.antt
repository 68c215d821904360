-- ===== src/Pmap/Table/Region/Step.antt =====
-- One round of the loop of `boot_map_region`, pmap.c, and the addresses and page tables around it.
use at_jos.Base.{
  ℕ, suc, ◌+◌, ◌-◌, ◌%◌, ◌^◌, ◌≤◌, ◌<◌, ◌≡◌, refl, ◌≢◌, true, false, ◌==◌, arith, ◌∙◌, Bool-cases,
  inl, inr, ◌⊎◌,
}
use at_jos.Base.Monad.{done}
use at_jos.Pmap.Addr.{pdx, ptx, page_size, word_mod}
use at_jos.Pmap.State.{Memory}
use at_jos.Pmap.Table.{map_page, map_pages}
use at_jos.Pmap.Table.Space.{present}
use at_jos.Pmap.Table.Slots.{same_page}
use at_jos.Pmap.Table.Region.{needed}

pub same_page-in : (va a : ℕ) → va % 4096 ≡ 0 → va ≤ a → a < va + 4096 → same_page va a ≡ true
unfolding pdx ptx
same_page-in va a whole lo hi =
    let d : (pdx va == pdx a) ≡ true = ground arith in
    let t : (ptx va == ptx a) ≡ true = ground arith in rw (d, t) refl

pub same_page-out :
    (va a : ℕ)
    → va % 4096 ≡ 0
    → va < 2 ^ 32
    → a < 2 ^ 32
    → (a < va) ⊎ (va + 4096 ≤ a)
    → same_page va a ≡ false
unfolding pdx ptx
same_page-out va a whole small small' far = elim (Bool-cases (same_page va a)) [
  | inl e ↦ absurd (elim far [ inl lt ↦ ground arith | inr le ↦ ground arith ])
  | inr e ↦ e
]

pub pdx-next :
    (va : ℕ) → va + 4096 < 2 ^ 32 → (pdx (va + 4096) ≡ pdx va) ⊎ (pdx (va + 4096) ≡ pdx va + 1)
unfolding pdx
pdx-next va small = omega arith

pub pdx-le : (a b : ℕ) → a ≤ b → b < 2 ^ 32 → pdx a ≤ pdx b
unfolding pdx
pdx-le a b le small = omega arith

pub needed-le : (m : Memory) (pgdir va : ℕ) → needed m pgdir va ≤ 1
needed-le m pgdir va = ground arith

-- The tables that the rest of a range needs, once the table of its first page is there.
pub needed-next :
    (m : Memory) (pgdir va last n : ℕ)
    → present (m.words pgdir) (pdx va) ≡ true
    → va + 4096 < 2 ^ 32
    → pdx (va + 4096) ≤ last
    → last - pdx va ≤ n
    → last - pdx (va + 4096) + needed m pgdir (va + 4096) ≤ n
needed-next m pgdir va last n here small le enough = elim (pdx-next va small) [
  | inl same ↦
      let z : present (m.words pgdir) (pdx (va + 4096)) ≡ true = rw same here in rw z (omega arith)
  | inr next ↦ let one = needed-le m pgdir (va + 4096) in omega arith
]

pub map_pages-step :
    (m m1 : Memory) (pgdir rounds va pa perm : ℕ)
    → map_page pgdir va pa perm m ≡ done (tt, m1)
    → map_pages pgdir (suc rounds) va pa perm m
      ≡ map_pages pgdir rounds ((va + page_size) % word_mod) ((pa + page_size) % word_mod) perm m1
unfolding map_pages
map_pages-step m m1 pgdir rounds va pa perm e = ground (arith, e)

pub map_pages-next :
    (m m1 : Memory) (pgdir rounds va pa perm : ℕ)
    → va + 4096 < 2 ^ 32
    → pa + 4096 < 2 ^ 32
    → map_page pgdir va pa perm m ≡ done (tt, m1)
    → map_pages pgdir (suc rounds) va pa perm m
      ≡ map_pages pgdir rounds (va + 4096) (pa + 4096) perm m1
map_pages-next m m1 pgdir rounds va pa perm small small' e =
    let next : (va + page_size) % word_mod ≡ va + 4096 = omega arith in
    let next' : (pa + page_size) % word_mod ≡ pa + 4096 = omega arith in
    map_pages-step m m1 pgdir rounds va pa perm e ∙ rw (next, next') refl

pub slot-off : (a b d : ℕ) → a ≡ b → pdx a ≢ d → pdx b ≢ d
slot-off a b d e ne = rw e at ne
