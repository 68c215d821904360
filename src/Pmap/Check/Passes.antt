-- ===== src/Pmap/Check/Passes.antt =====
-- `check_page_alloc` of pmap.c passes on a well-formed free list, and keeps it.
use at_jos.Base.{
  ℕ, ◌+◌, ◌^◌, ◌≤◌, ◌<◌, ◌≡◌, refl, ◌≢◌, true, Option, none, List, [], ◌∷◌, ◌==◌, arith, ◌∙◌,
  length,
}
use at_jos.Base.Monad.{done}
use at_jos.Pmap.State.{Memory}
use at_jos.Pmap.Alloc.FreeList.{IsFreeList, IsFreeList-set_off}
use at_jos.Pmap.Check.{set_free_list, check_page_alloc}
use at_jos.Pmap.Check.Alloc.{
  count_free_lem, take_again_lem, take_three_lem, free_three_lem, freed-IsFreeList,
  check_zeroed_lem, with_head, freed, zeroed, CanFree,
}
use at_jos.Pmap.Table.Slots.{IsFreeList-words}

module _ (m : Memory) (p0 p1 p2 : ℕ) (rest : List ℕ) (list : IsFreeList m (p0 ∷ p1 ∷ p2 ∷ rest))
    (small : m.npages < 2 ^ 20) where
  -- The machine without its free pages, but for the head of the rest of them.
  abbrev taken : Option ℕ → Memory
  taken head = with_head head m

  taken-CanFree : (head : Option ℕ) → CanFree (taken head) [] p0 p1 p2
  taken-CanFree head =
      let (lt0, unused0, (lt1, unused1, (lt2, unused2, _))) = list.all_free in
      record {
        off0 = refl;
        off1 = refl;
        off2 = refl;
        ne01 = ground (arith, list.distinct);
        ne02 = ground (arith, list.distinct);
        ne12 = ground (arith, list.distinct);
        lt0 = lt0;
        lt1 = lt1;
        lt2 = lt2;
        unused0 = unused0;
        unused1 = unused1;
        unused2 = unused2;
      }

  -- Before the rest of the free pages is given back, and after.
  abbrev tested : Memory
  tested = zeroed p2 (with_head none (freed p0 p1 p2 (taken none)))

  abbrev given_back : Memory
  given_back = with_head (m.pages p2).pp_link tested

  same_refs : (q : ℕ) → (given_back.pages q).pp_ref ≡ (m.pages q).pp_ref
  same_refs q = ground arith

  given_back-CanFree : CanFree given_back rest p2 p1 p0
  given_back-CanFree =
      let c = taken-CanFree none in
      record {
        off0 = ground (arith, list.distinct);
        off1 = ground (arith, list.distinct);
        off2 = ground (arith, list.distinct);
        ne01 = ground (arith, c.ne12);
        ne02 = ground (arith, c.ne02);
        ne12 = ground (arith, c.ne01);
        lt0 = c.lt2;
        lt1 = c.lt1;
        lt2 = c.lt0;
        unused0 = same_refs p2 ∙ c.unused2;
        unused1 = same_refs p1 ∙ c.unused1;
        unused2 = same_refs p0 ∙ c.unused0;
      }

  given_back-IsFreeList : IsFreeList given_back rest
  given_back-IsFreeList =
      let c = given_back-CanFree in
      let tail : IsFreeList (taken (m.pages p2).pp_link) rest = record {
        chain = list.chain.1.1.1;
        distinct = list.distinct.1.1.1;
        all_free = list.all_free.2.2.2;
      } in
      IsFreeList-words given_back.words (
        IsFreeList-set_off
          (IsFreeList-set_off (IsFreeList-set_off (IsFreeList-set_off tail p0 _ c.off2) p1 _ c.off1)
            p2 _ c.off0)
          p2 _ c.off0)

  steps :
      (fuel : ℕ)
      → length rest + 3 ≤ fuel
      → check_page_alloc fuel m ≡ done (tt, freed p2 p1 p0 given_back)
  unfolding check_page_alloc set_free_list
  steps fuel enough =
      let c = taken-CanFree none in
      let none_yet : IsFreeList (taken none) [] = record {
        chain = refl;
        distinct = tt;
        all_free = tt;
      } in
      let final =
        freed-IsFreeList given_back rest p2 p1 p0 given_back-IsFreeList given_back-CanFree in
      let same : (length rest + 1 + 1 + 1 == length rest + 1 + 1 + 1) ≡ true = ground arith in
      ground (
        arith,
        count_free_lem fuel m (p0 ∷ p1 ∷ p2 ∷ rest) list.chain (omega arith),
        take_three_lem m p0 p1 p2 rest list small,
        take_again_lem (taken none) p0 p1 p2 small none_yet c,
        check_zeroed_lem (with_head none (freed p0 p1 p2 (taken none))) p2 c.lt2 small,
        free_three_lem given_back rest p2 p1 p0 given_back-IsFreeList given_back-CanFree,
        count_free_lem fuel (freed p2 p1 p0 given_back) (p0 ∷ p1 ∷ p2 ∷ rest) final.chain
            (omega arith),
        same,
      )

  -- With three free pages at least, on a well-formed free list of a machine with less than 4 GB, and with
  -- fuel for each free page, `check_page_alloc` passes. The free list has the same pages in the same order
  -- again, no page has gained or lost a reference, and no word has changed but those of the third page.
  pub check_page_alloc_lem :
      (fuel : ℕ)
      → length rest + 3 ≤ fuel
      → (m' : Memory) × (check_page_alloc fuel m ≡ done (tt, m'))
        × IsFreeList m' (p0 ∷ p1 ∷ p2 ∷ rest)
        × ((q : ℕ) → (m'.pages q).pp_ref ≡ (m.pages q).pp_ref)
        × ((q : ℕ) → p2 ≢ q → m'.words q ≡ m.words q)
        × (m'.npages ≡ m.npages)
        × (m'.npages_basemem ≡ m.npages_basemem)
        × (m'.kern_pgdir ≡ m.kern_pgdir)
  check_page_alloc_lem fuel enough = (
    freed p2 p1 p0 given_back,
    steps fuel enough,
    freed-IsFreeList given_back rest p2 p1 p0 given_back-IsFreeList given_back-CanFree,
    (λ q. ground arith),
    (λ q apart. ground arith),
    refl,
    refl,
    refl,
  )
