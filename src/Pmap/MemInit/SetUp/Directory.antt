-- ===== src/Pmap/MemInit/SetUp/Directory.antt =====
-- A page directory that holds nothing but its own slot.
use at_jos.Base.{
  ℕ, ◌%◌, ◌<◌, ◌≡◌, true, false, List, ◌==◌, if◌then◌else◌, arith, Bool-cases, inl, inr, bit_or,
}
use at_jos.Base.Bits.{or-page, or_step}
use at_jos.Pmap.Addr.{pte_u, pte_p, has_flag, pte_addr, pgnum, present_iff}
use at_jos.Pmap.Alloc.FreeList.{has}
use at_jos.Pmap.Table.Space.{IsDir, self_index}

-- A directory in which only the slot for itself is set, to `w`.
abbrev pub only_self : ℕ → ℕ → ℕ
only_self w d = if self_index == d then w else 0

pub only_self-IsDir :
    (w p npages : ℕ) (free : List ℕ)
    → p < npages
    → has p free ≡ false
    → pgnum (pte_addr w) ≡ p
    → IsDir (only_self w) p npages free
only_self-IsDir w p npages free lt used names = record {
  dir_lt = lt;
  dir_used = used;
  table_lt = λ d h. elim (Bool-cases (self_index == d)) [
    | inl self ↦ rw (self, names) lt
    | inr other ↦ cc (rw other at h)
  ];
  table_used = λ d h. elim (Bool-cases (self_index == d)) [
    | inl self ↦ rw (self, names) used
    | inr other ↦ cc (rw other at h)
  ];
  table_ne_dir = λ d h ne. elim (Bool-cases (self_index == d)) [
    | inl self ↦ absurd (ground arith)
    | inr other ↦ cc (rw other at h)
  ];
  table_ne_table = λ d e hd he ne. elim (Bool-cases (self_index == d)) [
    | inl self ↦ elim (Bool-cases (self_index == e)) [
      | inl self' ↦ absurd (ground arith)
      | inr other ↦ cc (rw other at he)
    ]
    | inr other ↦ cc (rw other at hd)
  ];
}

-- The directory's entry for itself.
abbrev pub self_entry : ℕ → ℕ
self_entry pa = bit_or (bit_or pa pte_u) pte_p

pub self_entry-reads :
    (pa : ℕ)
    → pa % 4096 ≡ 0
    → (has_flag (self_entry pa) pte_p ≡ true) × (pgnum (pte_addr (self_entry pa)) ≡ pgnum pa)
unfolding pte_addr pgnum
self_entry-reads pa whole = (
  (present_iff _).1 (omega (arith, or_step (bit_or pa pte_u) 1)),
  omega (arith, or-page (bit_or pa pte_u) 1 (omega arith), or-page pa pte_u (omega arith)),
)
