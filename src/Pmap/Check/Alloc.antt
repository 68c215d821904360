-- ===== src/Pmap/Check/Alloc.antt =====
-- The parts of `check_page_alloc` of pmap.c on a well-formed free list.
use at_jos.Base.{
  ℕ, zero, suc, ◌+◌, ◌*◌, ◌/◌, ◌%◌, ◌^◌, ◌≤◌, ◌<◌, ◌≡◌, refl, ◌≢◌, true, false, Option, none, some,
  List, [], ◌∷◌, ◌==◌, ltb, arith, ◌∙◌, length,
}
use at_jos.Base.Monad.{done}
use at_jos.Pmap.Addr.{page_size, word_mod, page2pa}
use at_jos.Pmap.State.{Memory, PageInfo, update}
use at_jos.Pmap.Alloc.{page_alloc, page_free, alloc_zero}
use at_jos.Pmap.Alloc.FreeList.{IsFreeList, has, Chain}
use at_jos.Pmap.Alloc.Laws.{
  Addressable, page_alloc-some, after_alloc, unlinked, cleared, after_free, page2kva-done,
  after_free-IsFreeList,
}
use at_jos.Pmap.Check.{
  count_pages, count_free, must_alloc, must_be_out, fill_page, check_cleared, take_three,
  free_three, take_again, check_zeroed,
}

-- With more fuel than pages the loop counts the pages of the list.
count_pages_lem :
    (fuel : ℕ) (pages : ℕ → PageInfo) (head : Option ℕ) (free : List ℕ)
    → Chain pages head free
    → length free ≤ fuel
    → count_pages fuel pages head ≡ some (length free)
unfolding count_pages
count_pages_lem fuel pages head [] chain enough = rw chain refl
count_pages_lem zero pages head (p ∷ free) chain enough = absurd (omega arith)
count_pages_lem (suc fuel) pages head (p ∷ free) chain enough =
    rw (chain.0, count_pages_lem fuel pages (pages p).pp_link free chain.1 (omega arith))
      (ground arith)

pub count_free_lem :
    (fuel : ℕ) (m : Memory) (free : List ℕ)
    → Chain m.pages m.page_free_list free
    → length free ≤ fuel
    → count_free fuel m ≡ done (length free, m)
unfolding count_free
count_free_lem fuel m free chain enough =
    ground (arith, count_pages_lem fuel m.pages m.page_free_list free chain enough)

must_alloc-some :
    (m : Memory) (flags p : ℕ)
    → m.page_free_list ≡ some p
    → p < m.npages
    → Addressable m
    → must_alloc flags m ≡ done (p, after_alloc flags p m)
unfolding must_alloc
must_alloc-some m flags p e lt small = ground (arith, page_alloc-some m flags p e lt small)

must_be_out_lem : (m : Memory) → m.page_free_list ≡ none → must_be_out m ≡ done (tt, m)
unfolding must_be_out page_alloc
must_be_out_lem m e = ground (arith, e)

check_cleared_lem :
    (m : Memory) (c rounds i : ℕ)
    → ((k : ℕ) → m.words c k ≡ 0)
    → check_cleared c rounds i m ≡ done (tt, m)
unfolding check_cleared
check_cleared_lem m c zero i zeros = refl
check_cleared_lem m c (suc rounds) i zeros =
    rw (zeros i) (check_cleared_lem m c rounds (i + 1) zeros)

-- The memory with another head of the free list.
abbrev pub with_head : Option ℕ → Memory → Memory
with_head head m = record m { page_free_list = head }

module _ (m : Memory) (p0 p1 p2 : ℕ) (rest : List ℕ) (list : IsFreeList m (p0 ∷ p1 ∷ p2 ∷ rest))
    (small : m.npages < 2 ^ 20) where
  page_below : (p : ℕ) → p < m.npages → ltb (page2pa p) (m.npages * page_size % word_mod) ≡ true
  unfolding page2pa
  page_below p lt = ground arith

  pub take_three_lem : take_three m ≡ done ((p0, p1, p2), with_head (m.pages p2).pp_link m)
  unfolding take_three
  take_three_lem =
      let (h0, (h1, (h2, _))) = list.chain in
      let (lt0, _, (lt1, _, (lt2, _, _))) = list.all_free in
      let apart10 : (p1 == p0) ≡ false = ground (arith, list.distinct) in
      let apart20 : (p2 == p0) ≡ false = ground (arith, list.distinct) in
      let apart21 : (p2 == p1) ≡ false = ground (arith, list.distinct) in
      ground (
        arith,
        must_alloc-some m 0 p0 h0 lt0 (omega arith),
        must_alloc-some (with_head (m.pages p0).pp_link m) 0 p1 h1 lt1 (omega arith),
        must_alloc-some (with_head (m.pages p1).pp_link m) 0 p2 h2 lt2 (omega arith),
        apart10,
        apart20,
        apart21,
        page_below p0 lt0,
        page_below p1 lt1,
        page_below p2 lt2,
      )

-- Three pages off the list, none of them in use.
pub record CanFree (m : Memory) (free : List ℕ) (p0 p1 p2 : ℕ) : Type 0 where
  pub off0 : has p0 free ≡ false
  pub off1 : has p1 free ≡ false
  pub off2 : has p2 free ≡ false
  pub ne01 : p0 ≢ p1
  pub ne02 : p0 ≢ p2
  pub ne12 : p1 ≢ p2
  pub lt0 : p0 < m.npages
  pub lt1 : p1 < m.npages
  pub lt2 : p2 < m.npages
  pub unused0 : (m.pages p0).pp_ref ≡ 0
  pub unused1 : (m.pages p1).pp_ref ≡ 0
  pub unused2 : (m.pages p2).pp_ref ≡ 0

abbrev pub freed : ℕ → ℕ → ℕ → Memory → Memory
freed p0 p1 p2 m = after_free p2 (after_free p1 (after_free p0 m))

pub same_ref : (m : Memory) (p q : ℕ) → ((after_free p m).pages q).pp_ref ≡ (m.pages q).pp_ref
same_ref m p q = ground arith

module _ (m : Memory) (free : List ℕ) (p0 p1 p2 : ℕ) (list : IsFreeList m free)
    (can : CanFree m free p0 p1 p2) where
  pub free_three_lem : free_three p0 p1 p2 m ≡ done (tt, freed p0 p1 p2 m)
  unfolding free_three page_free
  free_three_lem = refl

  pub freed-IsFreeList : IsFreeList (freed p0 p1 p2 m) (p2 ∷ p1 ∷ p0 ∷ free)
  freed-IsFreeList =
      let one = after_free-IsFreeList m free p0 list can.off0 can.lt0 can.unused0 in
      let two =
        after_free-IsFreeList (after_free p0 m) (p0 ∷ free) p1 one
          (ground (arith, can.off1, can.ne01)) can.lt1 (same_ref m p0 p1 ∙ can.unused1) in
      after_free-IsFreeList (after_free p1 (after_free p0 m)) (p1 ∷ p0 ∷ free) p2 two
        (ground (arith, can.off2, can.ne02, can.ne12)) can.lt2
        (same_ref (after_free p0 m) p1 p2 ∙ same_ref m p0 p2 ∙ can.unused2)

-- Three pages of a machine without free pages, freed and allocated again.
module _ (m : Memory) (p0 p1 p2 : ℕ) (small : m.npages < 2 ^ 20) (out : IsFreeList m [])
    (can : CanFree m [] p0 p1 p2) where
  pub take_again_lem :
      take_again p0 p1 p2 m ≡ done ((p2, p1, p0), with_head none (freed p0 p1 p2 m))
  unfolding take_again
  take_again_lem =
      let list = freed-IsFreeList m [] p0 p1 p2 out can in
      let (h0, (h1, (h2, last))) = list.chain in
      let n = freed p0 p1 p2 m in
      let apart01 : (p0 == p1) ≡ false = ground (arith, can.ne01) in
      let apart02 : (p0 == p2) ≡ false = ground (arith, can.ne02) in
      let apart12 : (p1 == p2) ≡ false = ground (arith, can.ne12) in
      ground (
        arith,
        must_be_out_lem m out.chain,
        free_three_lem m [] p0 p1 p2 out can,
        must_alloc-some n 0 p2 h0 can.lt2 (omega arith),
        must_alloc-some (with_head (n.pages p2).pp_link n) 0 p1 h1 can.lt1 (omega arith),
        must_alloc-some (with_head (n.pages p1).pp_link n) 0 p0 h2 can.lt0 (omega arith),
        last,
        apart01,
        apart02,
        apart12,
        must_be_out_lem (with_head (n.pages p0).pp_link n) last,
      )

abbrev pub filled : ℕ → ℕ → Memory → Memory
filled word p m = record m { words = update m.words p (λ i. word) }

-- The memory after the page was filled, freed and allocated again with ALLOC_ZERO.
abbrev pub zeroed : ℕ → Memory → Memory
zeroed p m = cleared p (unlinked p (after_free p (filled 0x0101_0101 p m)))

pub check_zeroed_lem :
    (m : Memory) (p : ℕ)
    → p < m.npages
    → m.npages < 2 ^ 20
    → check_zeroed p m ≡ done (tt, zeroed p m)
unfolding check_zeroed fill_page page_free
check_zeroed_lem m p lt small =
    let same : (p == p) ≡ true = ground arith in
    ground (
      arith,
      page2kva-done p m (omega arith) lt,
      must_alloc-some (after_free p (filled 0x0101_0101 p m)) alloc_zero p refl lt (omega arith),
      same,
      page2kva-done p (zeroed p m) (omega arith) lt,
      check_cleared_lem (zeroed p m) p (page_size / 4) 0 (λ k. ground arith),
    )
