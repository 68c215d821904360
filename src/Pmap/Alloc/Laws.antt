-- ===== src/Pmap/Alloc/Laws.antt =====
-- What each operation of the page allocator does to the free list.
use at_jos.Base.{
  ℕ, zero, suc, ◌+◌, ◌-◌, ◌%◌, ◌^◌, ◌≤◌, ◌<◌, ◌≡◌, refl, ◌≢◌, true, false, none, some, List, [],
  ◌∷◌, ◌==◌, if◌then◌else◌, arith, Bool-cases, inl, inr,
}
use at_jos.Base.Monad.{done}
use at_jos.Pmap.Addr.{has_flag, page2pa, pgnum}
use at_jos.Pmap.State.{Memory, update, set_ref, page2kva, kaddr}
use at_jos.Pmap.Alloc.{alloc_zero, page_alloc, page_free, page_decref, clear_page}
use at_jos.Pmap.Alloc.FreeList.{has, IsFreeList, IsFreeList-set_off, IsFreeList-push}

-- The machine's pages have 32-bit addresses.
abbrev pub Addressable : Memory → Type 0
Addressable m = m.npages ≤ 2 ^ 20

pub pgnum-page2pa : (p : ℕ) → p < 2 ^ 20 → pgnum (page2pa p) ≡ p
unfolding pgnum page2pa
pgnum-page2pa p h = omega arith

pub page2kva-done : (p : ℕ) (m : Memory) → p < 2 ^ 20 → p < m.npages → page2kva p m ≡ done (p, m)
unfolding page2kva kaddr
page2kva-done p m h lt = rw (pgnum-page2pa p h) (ground arith)

-- The memory after the head `p` of the free list is taken.
abbrev pub unlinked : ℕ → Memory → Memory
unlinked p m = record m { page_free_list = (m.pages p).pp_link }

abbrev pub cleared : ℕ → Memory → Memory
cleared p m = record m { words = update m.words p (λ i. 0) }

abbrev pub after_alloc : ℕ → ℕ → Memory → Memory
after_alloc flags p m = if has_flag flags alloc_zero then cleared p (unlinked p m) else unlinked p m

module _ (m : Memory) where
  pub page_alloc-none : (flags : ℕ) → IsFreeList m [] → page_alloc flags m ≡ done (none, m)
  unfolding page_alloc
  page_alloc-none flags f = ground (arith, f.chain)

  pub page_alloc-some :
      (flags p : ℕ)
      → m.page_free_list ≡ some p
      → p < m.npages
      → Addressable m
      → page_alloc flags m ≡ done (some p, after_alloc flags p m)
  unfolding page_alloc clear_page
  page_alloc-some flags p e lt small =
      ground (arith, page2kva-done p (unlinked p m) (omega arith) lt)

-- The memory after `page_free`.
abbrev pub after_free : ℕ → Memory → Memory
after_free p m = record m {
  pages = update m.pages p (record { pp_ref = (m.pages p).pp_ref; pp_link = m.page_free_list });
  page_free_list = some p;
}

pub after_free-IsFreeList :
    (m : Memory) (free : List ℕ) (p : ℕ)
    → IsFreeList m free
    → has p free ≡ false
    → p < m.npages
    → (m.pages p).pp_ref ≡ 0
    → IsFreeList (after_free p m) (p ∷ free)
after_free-IsFreeList m free p f off lt unused = rw unused (IsFreeList-push f p off lt)

-- The memory after `page_decref` of a page with references.
abbrev pub less_ref : ℕ → Memory → Memory
less_ref p m = set_ref p ((m.pages p).pp_ref - 1) m

abbrev pub after_decref : ℕ → Memory → Memory
after_decref p m = record m {
  pages =
      if (m.pages p).pp_ref == 1 then (after_free p (less_ref p m)).pages else (less_ref p m).pages;
  page_free_list = if (m.pages p).pp_ref == 1 then some p else m.page_free_list;
}

-- Subtracting 1 modulo `n` from a number between 1 and `n`.
pub pred_mod : (r n : ℕ) → 0 < r → r < n → (r + n - 1) % n ≡ r - 1
pred_mod zero n pos fits = absurd (omega arith)
pred_mod (suc r) n pos fits = let e : suc r + n - 1 ≡ r + n = omega arith in rw e (grind arith)

pub page_decref-done :
    (m : Memory) (p : ℕ)
    → 0 < (m.pages p).pp_ref
    → (m.pages p).pp_ref < m.ref_mod
    → page_decref p m ≡ done (tt, after_decref p m)
unfolding page_decref page_free
page_decref-done m p pos fits = elim (Bool-cases ((m.pages p).pp_ref == 1)) [
  | inl last ↦
      let none_left : ((m.pages p).pp_ref - 1 == 0) ≡ true = ground arith in
      simp (pred_mod _ _ pos fits, none_left, last)
  | inr more ↦
      let some_left : ((m.pages p).pp_ref - 1 == 0) ≡ false = ground arith in
      simp (pred_mod _ _ pos fits, some_left, more)
]

pub after_decref-IsFreeList :
    (m : Memory) (free : List ℕ) (p : ℕ)
    → IsFreeList m free
    → has p free ≡ false
    → p < m.npages
    → 0 < (m.pages p).pp_ref
    → IsFreeList (after_decref p m) (if (m.pages p).pp_ref == 1 then p ∷ free else free)
after_decref-IsFreeList m free p f off lt pos = elim (Bool-cases ((m.pages p).pp_ref == 1)) [
  | inl last ↦ rw last (after_free-IsFreeList (less_ref p m) free p less off lt (ground arith))
  | inr more ↦ rw more less
]
  where
    less : IsFreeList (less_ref p m) free
    less = IsFreeList-set_off f p _ off

module _ (m : Memory) (free : List ℕ) (small : Addressable m) where
  pub after_alloc-IsFreeList :
      (flags p : ℕ) → IsFreeList m (p ∷ free) → IsFreeList (after_alloc flags p m) free
  after_alloc-IsFreeList flags p f = elim (Bool-cases (has_flag flags alloc_zero)) [
    | inl zeroed ↦
        rw zeroed (record { chain = f.chain.1; distinct = f.distinct.1; all_free = f.all_free.2 })
    | inr kept ↦
        rw kept (record { chain = f.chain.1; distinct = f.distinct.1; all_free = f.all_free.2 })
  ]

  -- On a well-formed free list of an addressable machine, `page_alloc` hands out the first page,
  -- which leaves the list. With ALLOC_ZERO its words are all 0; the words of every other page
  -- stay, and so does each `struct PageInfo`.
  pub page_alloc-cons :
      (flags p : ℕ)
      → IsFreeList m (p ∷ free)
      → (m' : Memory) × (page_alloc flags m ≡ done (some p, m'))
        × IsFreeList m' free
        × (has p free ≡ false)
        × ((i : ℕ) → has_flag flags alloc_zero ≡ true → m'.words p i ≡ 0)
        × ((q i : ℕ) → p ≢ q → m'.words q i ≡ m.words q i)
        × (m'.pages ≡ m.pages)
  page_alloc-cons flags p f = (
    after_alloc flags p m,
    page_alloc-some m flags p f.chain.0 f.all_free.0 small,
    after_alloc-IsFreeList flags p f,
    f.distinct.0,
    (λ i zeroed. ground arith),
    (λ q i apart. ground arith),
    ground arith,
  )

  -- On a well-formed free list, `page_free` of a page of the machine that is off the list and not
  -- referred to puts it in front, and the next `page_alloc` returns it.
  pub page_alloc-page_free :
      (p : ℕ)
      → IsFreeList m free
      → has p free ≡ false
      → p < m.npages
      → (m.pages p).pp_ref ≡ 0
      → (m' : Memory) × (page_free p m ≡ done (tt, m'))
        × IsFreeList m' (p ∷ free)
        × (page_alloc 0 m' ≡ done (some p, unlinked p m'))
  unfolding page_free
  page_alloc-page_free p f off lt unused = (
    after_free p m,
    refl,
    after_free-IsFreeList m free p f off lt unused,
    page_alloc-some (after_free p m) 0 p refl lt small,
  )

  -- On a well-formed free list, `page_decref` of a page off the list that has references takes
  -- one away. The page goes to the front of the list exactly if that was the last one; no other
  -- page changes, and no word of memory.
  pub page_decref_lem :
      (p : ℕ)
      → IsFreeList m free
      → has p free ≡ false
      → p < m.npages
      → 0 < (m.pages p).pp_ref
      → (m.pages p).pp_ref < m.ref_mod
      → (m' : Memory) × (page_decref p m ≡ done (tt, m'))
        × ((m'.pages p).pp_ref ≡ (m.pages p).pp_ref - 1)
        × IsFreeList m' (if (m.pages p).pp_ref == 1 then p ∷ free else free)
        × ((q : ℕ) → p ≢ q → m'.pages q ≡ m.pages q)
        × (m'.words ≡ m.words)
        × (m'.npages ≡ m.npages)
  page_decref_lem p f off lt pos fits = (
    after_decref p m,
    page_decref-done m p pos fits,
    ground arith,
    after_decref-IsFreeList m free p f off lt pos,
    (λ q apart. ground arith),
    ground arith,
    ground arith,
  )
