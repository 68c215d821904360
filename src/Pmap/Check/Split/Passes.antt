-- ===== src/Pmap/Check/Split/Passes.antt =====
-- `check_page_free_list` of pmap.c passes on a list of pages that may be free.
use at_jos.Base.{
  ℕ, ◌+◌, ◌≤◌, ◌<◌, ◌≡◌, refl, Bool, true, false, ◌&&◌, some, List, [], ◌∷◌, ◌==◌, ltb, arith, ap,
  ◌∙◌, sym, Bool-cases, inl, inr, length, ◌++◌, length-append,
}
use at_jos.Base.Monad.{done}
use at_jos.Pmap.Addr.{table_entries}
use at_jos.Pmap.State.{Memory}
use at_jos.Pmap.Alloc.Laws.{Addressable}
use at_jos.Pmap.Alloc.FreeList.{IsFreeList, has, Chain}
use at_jos.Pmap.Check.Split.{spoil_pages, check_free_pages, check_page_free_list, low_first}
use at_jos.Pmap.Check.Split.Sort.{select, has-append, is_low, is_high}
use at_jos.Pmap.Check.Split.Joined.{low_first_lem}
use at_jos.Pmap.Check.Split.Spoil.{IsSpoiled, spoil_pages_lem}
use at_jos.Pmap.Check.Same.{IsSameList}
use at_jos.Pmap.Check.Split.Listed.{IsAllowed, is_base, is_ext, check_free_pages_lem}

-- A page is selected exactly if it is listed and passes the test.
has-select_iff :
    (test : ℕ → Bool) (p : ℕ) (xs : List ℕ) → has p (select test xs) ≡ (has p xs && test p)
has-select_iff test p [] = refl
has-select_iff test p (x ∷ xs) = elim (Bool-cases (p == x)) [
  | inl same ↦
      let e : p ≡ x = ground arith in
      elim (Bool-cases (test x)) [
        | inl pass ↦ rw (pass, same, e) (sym pass)
        | inr fail ↦
            let pass' : test p ≡ false = rw e fail in
            rw (fail, same, pass') (has-select_iff test p xs ∙ rw pass' (ground arith))
      ]
  | inr other ↦ elim (Bool-cases (test x)) [
    | inl pass ↦ rw (pass, other) (has-select_iff test p xs)
    | inr fail ↦ rw (fail, other) (has-select_iff test p xs)
  ]
]

length-select-pos :
    (test : ℕ → Bool) (p : ℕ) (xs : List ℕ)
    → has p (select test xs) ≡ true
    → 0 < length (select test xs)
length-select-pos test p xs h = pos (select test xs) h
  where
    pos : (ys : List ℕ) → has p ys ≡ true → 0 < length ys
    pos [] g = cc
    pos (y ∷ ys) g = omega arith

length-select-both :
    (limit : ℕ) (xs : List ℕ)
    → length (select (is_low limit) xs) + length (select (is_high limit) xs) ≡ length xs
length-select-both limit [] = refl
length-select-both limit (x ∷ xs) = elim (Bool-cases (is_high limit x)) [
  | inl high ↦ rw high (omega (arith, length-select-both limit xs))
  | inr low ↦ rw low (omega (arith, length-select-both limit xs))
]

has-both_iff :
    (limit p : ℕ) (xs : List ℕ)
    → has p (select (is_low limit) xs ++ select (is_high limit) xs) ≡ has p xs
has-both_iff limit p xs =
    has-append p (select (is_low limit) xs) (select (is_high limit) xs)
    ∙ ground (arith, has-select_iff (is_low limit) p xs, has-select_iff (is_high limit) p xs)

module _ (m m1 m2 : Memory) (fuel first_free_page pp1 pp2 p base ext : ℕ)
    (some_page : m.page_free_list ≡ some p) (some_base : 0 < base) (some_ext : 0 < ext) where
  low_steps :
      low_first fuel 1 pp1 pp2 m ≡ done (tt, m1)
      → spoil_pages fuel 1 m1.page_free_list m1 ≡ done (tt, m2)
      → check_free_pages fuel first_free_page m1.page_free_list 0 0 m2 ≡ done ((base, ext), m2)
      → check_page_free_list fuel first_free_page pp1 pp2 true m ≡ done (tt, m2)
  unfolding check_page_free_list
  low_steps e f g =
      let b : ltb 0 base ≡ true = ground arith in
      let x : ltb 0 ext ≡ true = ground arith in ground (arith, some_page, e, f, g, b, x)

  all_steps :
      spoil_pages fuel table_entries m.page_free_list m ≡ done (tt, m2)
      → check_free_pages fuel first_free_page m.page_free_list 0 0 m2 ≡ done ((base, ext), m2)
      → check_page_free_list fuel first_free_page pp1 pp2 false m ≡ done (tt, m2)
  unfolding check_page_free_list
  all_steps f g =
      let b : ltb 0 base ≡ true = ground arith in
      let x : ltb 0 ext ≡ true = ground arith in ground (arith, some_page, f, g, b, x)

-- The two loops after the sorting.
loops :
    (m : Memory) (xs : List ℕ) (fuel first_free_page limit : ℕ)
    → IsFreeList m xs
    → length xs ≤ fuel
    → Addressable m
    → ((p : ℕ) → has p xs ≡ true → IsAllowed first_free_page m.npages p)
    → (m' : Memory) × (spoil_pages fuel limit m.page_free_list m ≡ done (tt, m'))
      × (check_free_pages fuel first_free_page m.page_free_list 0 0 m'
          ≡ done ((length (select is_base xs), length (select is_ext xs)), m'))
      × IsSpoiled m m' xs
loops m xs fuel first_free_page limit list enough small allowed =
    let (m', e, is) =
      spoil_pages_lem fuel limit m m.page_free_list xs list.chain enough (λ p h. (allowed p h).0)
        small in
    (
      m',
      e,
      check_free_pages_lem fuel first_free_page m' m.page_free_list xs 0 0 (rw is.pages list.chain)
            enough (λ p h. rw is.npages (allowed p h)) (rw is.npages small)
          ∙ ap {A = ℕ × ℕ} (λ n. done (n, m')) (ground arith),
      is,
    )

spoiled-IsFreeList :
    (m m' : Memory) (xs ys : List ℕ) → IsSpoiled m m' ys → IsFreeList m xs → IsFreeList m' xs
spoiled-IsFreeList m m' xs ys is list = record {
  chain = rw (is.pages, is.page_free_list) list.chain;
  distinct = list.distinct;
  all_free = rw (is.pages, is.npages) list.all_free;
}

module _ (m : Memory) (free : List ℕ) (fuel first_free_page pp1 pp2 b x : ℕ)
    (list : IsFreeList m free) (enough : length free ≤ fuel) (small : Addressable m)
    (allowed : (p : ℕ) → has p free ≡ true → IsAllowed first_free_page m.npages p)
    (base_page : (has b free ≡ true) × (is_base b ≡ true))
    (ext_page : (has x free ≡ true) × (is_ext x ≡ true)) where
  abbrev sorted : List ℕ
  sorted = select (is_low 1) free ++ select (is_high 1) free

  sorted-length : length sorted ≡ length free
  sorted-length = omega (
    arith,
    length-append (select (is_low 1) free) (select (is_high 1) free),
    length-select-both 1 free,
  )

  some_page :
      (xs : List ℕ)
      → Chain m.pages m.page_free_list xs
      → has b xs ≡ true
      → (p : ℕ) × (m.page_free_list ≡ some p)
  some_page [] chain h = cc
  some_page (p ∷ xs) chain h = (p, chain.0)

  pos_of :
      (test : ℕ → Bool) (xs : List ℕ) (p : ℕ)
      → has p xs ≡ has p free
      → has p free ≡ true
      → test p ≡ true
      → 0 < length (select test xs)
  pos_of test xs p same listed pass =
      length-select-pos test p xs (has-select_iff test p xs ∙ ground (arith, same, listed, pass))

  -- The check passes after the pages with low addresses were moved to the front.
  passes-low :
      (m' : Memory) × (check_page_free_list fuel first_free_page pp1 pp2 true m ≡ done (tt, m'))
      × IsSameList m m' free
  passes-low =
      let (p, e0) = some_page free list.chain (base_page.0) in
      let (m1, e, list1, refs, words, npages, basemem, dir) =
        low_first_lem m free fuel 1 pp1 pp2 list enough in
      let same = λ (q : ℕ). has-both_iff 1 q free in
      let (m2, f, g, is) =
        loops m1 sorted fuel first_free_page 1 list1 (omega (arith, sorted-length))
          (rw npages small) (λ q h. rw npages (allowed q (sym (same q) ∙ h))) in
      (
        m2,
        low_steps m m1 m2 fuel first_free_page pp1 pp2 p _ _ e0
            (pos_of is_base sorted b (same b) (base_page.0) (base_page.1))
            (pos_of is_ext sorted x (same x) (ext_page.0) (ext_page.1)) e f g,
        record {
          free' = sorted;
          list = spoiled-IsFreeList m1 m2 sorted sorted is list1;
          same_pages = same;
          refs = λ q. ap (λ f. (f q).pp_ref) is.pages ∙ refs q;
          words = λ q off. is.words q (same q ∙ off) ∙ ap (λ f. f q) words;
          count = sorted-length;
          npages = is.npages ∙ npages;
          npages_basemem = is.npages_basemem ∙ basemem;
          kern_pgdir = is.kern_pgdir ∙ dir;
        },
      )

  passes-all :
      (m' : Memory) × (check_page_free_list fuel first_free_page pp1 pp2 false m ≡ done (tt, m'))
      × IsSameList m m' free
  passes-all =
      let (p, e0) = some_page free list.chain (base_page.0) in
      let (m2, f, g, is) =
        loops m free fuel first_free_page table_entries list enough small allowed in
      (
        m2,
        all_steps m m m2 fuel first_free_page pp1 pp2 p _ _ e0
            (pos_of is_base free b refl (base_page.0) (base_page.1))
            (pos_of is_ext free x refl (ext_page.0) (ext_page.1)) f g,
        record {
          free' = free;
          list = spoiled-IsFreeList m m2 free free is list;
          same_pages = λ q. refl;
          refs = λ q. ap (λ f. (f q).pp_ref) is.pages;
          words = is.words;
          count = refl;
          npages = is.npages;
          npages_basemem = is.npages_basemem;
          kern_pgdir = is.kern_pgdir;
        },
      )

  -- `check_page_free_list` passes, for both values of its argument, on a well-formed free list for which
  -- its loops have fuel, if the list has a page below EXTPHYSMEM and one that is not, and each of its
  -- pages is allowed: it is not page 0, not a page at the ends of the IO hole, not the first page of the
  -- kernel, and lies behind what `boot_alloc` has handed out if it is above EXTPHYSMEM. The pages on the
  -- list stay the same, and only words of them have changed.
  pub check_page_free_list_lem :
      (only_low_memory : Bool)
      → (m' : Memory) × (check_page_free_list fuel first_free_page pp1 pp2 only_low_memory m
          ≡ done (tt, m'))
        × IsSameList m m' free
  check_page_free_list_lem true = passes-low
  check_page_free_list_lem false = passes-all
