-- ===== src/Pmap/Check/Split/Joined.antt =====
-- `check_page_free_list` of pmap.c moves the pages with low addresses to the front of the free list.
use at_jos.Base.{
  ℕ, ◌≤◌, ◌<◌, ◌≡◌, refl, Bool, true, Option, none, some, List, [], ◌∷◌, ◌==◌, arith, ◌∙◌,
  Bool-cases, inl, inr, length, ◌++◌,
}
use mathlib.Core.List.{append-nil}
use at_jos.Base.Monad.{done}
use at_jos.Pmap.State.{Memory, PageInfo}
use at_jos.Pmap.Alloc.FreeList.{IsFreeList, has, Chain, AllFree}
use at_jos.Pmap.Check.Split.{Split, put_pages, put_low, put_high, join, low_first}
use at_jos.Pmap.Check.Split.Segment.{Segment-Chain, Segment-other}
use at_jos.Pmap.Alloc.FreeList.{lt_of_has}
use at_jos.Pmap.Check.Split.Sort.{
  select, has-append, flip_off, is_high, is_low, IsSorting, sort_pages_lem, put_pages-ref,
  Distinct-append,
}

ref_of_has :
    (npages : ℕ) (pages : ℕ → PageInfo) (p : ℕ) (xs : List ℕ)
    → AllFree npages pages xs
    → has p xs ≡ true
    → (pages p).pp_ref ≡ 0
ref_of_has npages pages p [] a h = cc
ref_of_has npages pages p (x ∷ xs) (_, unused, a) h = elim (Bool-cases (p == x)) [
  | inl same ↦ let e : p ≡ x = ground arith in rw e unused
  | inr other ↦ ref_of_has npages pages p xs a (ground arith)
]

has-AllFree :
    (npages : ℕ) (pages : ℕ → PageInfo) (xs : List ℕ)
    → ((p : ℕ) → has p xs ≡ true → (p < npages) × ((pages p).pp_ref ≡ 0))
    → AllFree npages pages xs
has-AllFree npages pages [] each = tt
has-AllFree npages pages (x ∷ xs) each =
    let here : (x == x) ≡ true = ground arith in
    let (lt, unused) = each x (rw here refl) in
    (lt, unused, has-AllFree npages pages xs (λ p h. each p (ground (arith, h))))

pub has-select :
    (test : ℕ → Bool) (p : ℕ) (xs : List ℕ) → has p (select test xs) ≡ true → has p xs ≡ true
has-select test p [] h = h
has-select test p (x ∷ xs) h = elim (Bool-cases (test x)) [
  | inl pass ↦ elim (Bool-cases (p == x)) [
    | inl same ↦ rw same refl
    | inr other ↦
        let h' : has p (select test xs) ≡ true = ground arith in
        rw (other, has-select test p xs h') refl
  ]
  | inr fail ↦
      let h' : has p (select test xs) ≡ true = rw fail at h in
      ground (arith, has-select test p xs h')
]

-- The end: the two lists are closed and joined.
join-Chain :
    (s : Split) (lows highs : List ℕ) (end : Option ℕ) (refs : ℕ → ℕ) (m : Memory)
    → IsSorting s lows highs [] end refs
    → Chain (join s m).pages (join s m).page_free_list (lows ++ highs)
unfolding join put_low put_high
join-Chain s lows highs end refs m is =
    let ended = put_high none s in
    let highs_end =
      Segment-Chain s.pages s.high_head s.high_tail none highs [] is.distinct_high (λ p h. refl)
        refl is.high in
    let lows_kept =
      Segment-other s.pages s.high_head s.high_tail none highs lows
        (flip_off lows highs is.low_high) is.high s.low_head s.low_tail is.low in
    Segment-Chain ended.pages s.low_head s.low_tail ended.high_head lows highs is.distinct_low
      is.low_high (rw (append-nil highs) at highs_end) lows_kept

join-ref : (s : Split) (m : Memory) (q : ℕ) → ((join s m).pages q).pp_ref ≡ (s.pages q).pp_ref
unfolding join put_low put_high
join-ref s m q =
    put_pages-ref s.low_tail _ (put_pages s.high_tail none s.pages) q
    ∙ put_pages-ref s.high_tail none s.pages q

has-both :
    (limit p : ℕ) (xs : List ℕ)
    → has p (select (is_low limit) xs ++ select (is_high limit) xs) ≡ true
    → has p xs ≡ true
has-both limit p xs h = elim (Bool-cases (has p (select (is_low limit) xs))) [
  | inl low ↦ has-select (is_low limit) p xs low
  | inr other ↦
      has-select (is_high limit) p xs
        (ground (arith, h, has-append p (select (is_low limit) xs) (select (is_high limit) xs)))
]

-- The list that the two variables and the links start from.
start-IsSorting :
    (m : Memory) (free : List ℕ) (pp1 pp2 : ℕ)
    → IsFreeList m free
    → IsSorting
        (record {
          pages = m.pages;
          low_head = some pp1;
          high_head = some pp2;
          low_tail = none;
          high_tail = none;
        })
        []
        []
        free
        m.page_free_list
        (λ q. (m.pages q).pp_ref)
start-IsSorting m free pp1 pp2 list = record {
  low = refl;
  high = refl;
  left = list.chain;
  distinct_low = tt;
  distinct_high = tt;
  distinct_left = list.distinct;
  low_high = λ p h. refl;
  low_left = λ p h. cc;
  high_left = λ p h. cc;
  same_refs = λ q. refl;
}

-- The first loop of `check_page_free_list` ends on every well-formed free list for which it has fuel. The
-- free list is well formed again, with the pages below the limit first and each part in its old order;
-- nothing but links has changed.
pub low_first_lem :
    (m : Memory) (free : List ℕ) (fuel pdx_limit pp1 pp2 : ℕ)
    → IsFreeList m free
    → length free ≤ fuel
    → (m' : Memory) × (low_first fuel pdx_limit pp1 pp2 m ≡ done (tt, m'))
      × IsFreeList m' (select (is_low pdx_limit) free ++ select (is_high pdx_limit) free)
      × ((q : ℕ) → (m'.pages q).pp_ref ≡ (m.pages q).pp_ref)
      × (m'.words ≡ m.words)
      × (m'.npages ≡ m.npages)
      × (m'.npages_basemem ≡ m.npages_basemem)
      × (m'.kern_pgdir ≡ m.kern_pgdir)
unfolding low_first join
low_first_lem m free fuel pdx_limit pp1 pp2 list enough =
    let (s, end, e, is) =
      sort_pages_lem fuel pdx_limit _ [] [] free m.page_free_list (λ q. (m.pages q).pp_ref) enough
        (start-IsSorting m free pp1 pp2 list) in
    let refs = λ (q : ℕ). join-ref s m q ∙ is.same_refs q in
    (
      join s m,
      ground (arith, e),
      record {
        chain = join-Chain s _ _ end _ m is;
        distinct = Distinct-append _ _ is.distinct_low is.distinct_high is.low_high;
        all_free = has-AllFree m.npages (join s m).pages _ (λ p h.
            let old = has-both pdx_limit p free h in
            (
              lt_of_has m.npages m.pages p free list.all_free old,
              refs p ∙ ref_of_has m.npages m.pages p free list.all_free old,
            ));
      },
      refs,
      refl,
      refl,
      refl,
      refl,
    )
