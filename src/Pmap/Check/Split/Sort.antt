-- ===== src/Pmap/Check/Split/Sort.antt =====
-- The first loop of `check_page_free_list` of pmap.c, which sorts the free pages into two lists.
use at_jos.Base.{
  ℕ, zero, suc, ◌≤◌, ◌≡◌, refl, Bool, true, false, not, ◌||◌, Option, none, some, List, [], ◌∷◌,
  ◌==◌, leb, if◌then◌else◌, arith, ap, ◌∙◌, Bool-cases, inl, inr, length, ◌++◌,
}
use mathlib.Core.List.{append-nil, append_assoc}
use at_jos.Pmap.Addr.{pdx, page2pa}
use at_jos.Pmap.State.{PageInfo}
use at_jos.Pmap.Alloc.FreeList.{has, Chain, Distinct}
use at_jos.Pmap.Check.Split.{Split, put_pages, put_low, put_high, sort_page, sort_pages}
use at_jos.Pmap.Check.Split.Segment.{Segment, Segment-put, Segment-other, Chain-other}

-- The pages of a list that pass a test, in their order.
abbrev pub select : (ℕ → Bool) → List ℕ → List ℕ
select test [] = []
select test (x ∷ xs) = if test x then x ∷ select test xs else select test xs

abbrev pub is_high : ℕ → ℕ → Bool
is_high limit p = leb limit (pdx (page2pa p))

pub has-append : (p : ℕ) (xs ys : List ℕ) → has p (xs ++ ys) ≡ (has p xs || has p ys)
has-append p [] ys = refl
has-append p (x ∷ xs) ys = ground (arith, has-append p xs ys)

pub Distinct-append :
    (xs ys : List ℕ)
    → Distinct xs
    → Distinct ys
    → ((p : ℕ) → has p xs ≡ true → has p ys ≡ false)
    → Distinct (xs ++ ys)
Distinct-append [] ys dx dy off = dy
Distinct-append (x ∷ xs) ys dx dy off =
    let here : (x == x) ≡ true = ground arith in
    let off_x : has x ys ≡ false = off x (rw here refl) in
    (
      has-append x xs ys ∙ ground (arith, dx, off_x),
      Distinct-append xs ys (dx.1) dy (λ p h. off p (ground (arith, h))),
    )

-- The lists built so far, and the pages `xs` from `cur` on that are left.
pub record IsSorting (s : Split) (lows highs xs : List ℕ) (cur : Option ℕ) (refs : ℕ → ℕ)
    : Type 0 where
  pub low : Segment s.pages s.low_head s.low_tail lows
  pub high : Segment s.pages s.high_head s.high_tail highs
  pub left : Chain s.pages cur xs
  pub distinct_low : Distinct lows
  pub distinct_high : Distinct highs
  pub distinct_left : Distinct xs
  pub low_high : (p : ℕ) → has p lows ≡ true → has p highs ≡ false
  pub low_left : (p : ℕ) → has p lows ≡ true → has p xs ≡ false
  pub high_left : (p : ℕ) → has p highs ≡ true → has p xs ≡ false
  pub same_refs : (q : ℕ) → (s.pages q).pp_ref ≡ refs q

-- A page that is on none of the lists `xs` and `ys`.
pushed_off :
    (x : ℕ) (xs ys : List ℕ)
    → ((p : ℕ) → has p xs ≡ true → has p ys ≡ false)
    → has x ys ≡ false
    → (p : ℕ) → has p (xs ++ x ∷ []) ≡ true
    → has p ys ≡ false
pushed_off x xs ys off off_x p h = elim (Bool-cases (p == x)) [
  | inl same ↦ let e : p ≡ x = ground arith in rw e off_x
  | inr other ↦ off p (ground (arith, h, has-append p xs (x ∷ [])))
]

not_in :
    (x : ℕ) (xs ys : List ℕ)
    → ((p : ℕ) → has p xs ≡ true → has p (x ∷ ys) ≡ false)
    → has x xs ≡ false
not_in x xs ys off = elim (Bool-cases (has x xs)) [
  | inl there ↦ absurd (ground (arith, off x there))
  | inr gone ↦ gone
]

rest_off :
    (x : ℕ) (xs ys : List ℕ)
    → ((p : ℕ) → has p xs ≡ true → has p (x ∷ ys) ≡ false)
    → (p : ℕ) → has p xs ≡ true
    → has p ys ≡ false
rest_off x xs ys off p h = ground (arith, off p h)

one_off :
    (x : ℕ) (xs ys : List ℕ)
    → ((p : ℕ) → has p xs ≡ true → has p (x ∷ ys) ≡ false)
    → (p : ℕ) → has p xs ≡ true
    → has p (x ∷ []) ≡ false
one_off x xs ys off p h = ground (arith, off p h)

pub flip_off :
    (xs ys : List ℕ)
    → ((p : ℕ) → has p xs ≡ true → has p ys ≡ false)
    → (p : ℕ) → has p ys ≡ true
    → has p xs ≡ false
flip_off xs ys off p h = elim (Bool-cases (has p xs)) [
  | inl there ↦ absurd (ground (arith, off p there))
  | inr gone ↦ gone
]

pub put_pages-ref :
    (tail v : Option ℕ) (pages : ℕ → PageInfo) (q : ℕ)
    → (put_pages tail v pages q).pp_ref ≡ (pages q).pp_ref
put_pages-ref none v pages q = refl
put_pages-ref (some p) v pages q = ground arith

-- One round, for a page with a low address and for one with a high address.
module _ (s : Split) (lows highs xs : List ℕ) (x : ℕ) (refs : ℕ → ℕ)
    (is : IsSorting s lows highs (x ∷ xs) (some x) refs) where
  abbrev taken_low : Split
  taken_low = record (put_low (some x) s) { low_tail = some x }

  abbrev taken_high : Split
  taken_high = record (put_high (some x) s) { high_tail = some x }

  low-IsSorting : IsSorting taken_low (lows ++ x ∷ []) highs xs (taken_low.pages x).pp_link refs
  unfolding put_low
  low-IsSorting = record {
    low = Segment-put s.pages s.low_head s.low_tail x lows is.distinct_low is.low;
    high =
        Segment-other s.pages s.low_head s.low_tail (some x) lows highs is.low_high is.low
          s.high_head s.high_tail is.high;
    left =
        (Chain-other s.pages s.low_head s.low_tail (some x) lows (x ∷ xs) is.low_left is.low
          (some x) is.left).1;
    distinct_low =
        Distinct-append lows (x ∷ []) is.distinct_low (refl, tt) (one_off x lows xs is.low_left);
    distinct_high = is.distinct_high;
    distinct_left = is.distinct_left.1;
    low_high = pushed_off x lows highs is.low_high (not_in x highs xs is.high_left);
    low_left = pushed_off x lows xs (rest_off x lows xs is.low_left) (is.distinct_left.0);
    high_left = rest_off x highs xs is.high_left;
    same_refs = λ q. put_pages-ref s.low_tail (some x) s.pages q ∙ is.same_refs q;
  }

  high-IsSorting : IsSorting taken_high lows (highs ++ x ∷ []) xs (taken_high.pages x).pp_link refs
  unfolding put_high
  high-IsSorting = record {
    low =
        Segment-other s.pages s.high_head s.high_tail (some x) highs lows
          (flip_off lows highs is.low_high) is.high s.low_head s.low_tail is.low;
    high = Segment-put s.pages s.high_head s.high_tail x highs is.distinct_high is.high;
    left =
        (Chain-other s.pages s.high_head s.high_tail (some x) highs (x ∷ xs) is.high_left is.high
          (some x) is.left).1;
    distinct_low = is.distinct_low;
    distinct_high =
        Distinct-append highs (x ∷ []) is.distinct_high (refl, tt)
          (one_off x highs xs is.high_left);
    distinct_left = is.distinct_left.1;
    low_high =
        flip_off (highs ++ x ∷ []) lows (
          pushed_off x highs lows (flip_off lows highs is.low_high) (not_in x lows xs is.low_left));
    low_left = rest_off x lows xs is.low_left;
    high_left = pushed_off x highs xs (rest_off x highs xs is.high_left) (is.distinct_left.0);
    same_refs = λ q. put_pages-ref s.high_tail (some x) s.pages q ∙ is.same_refs q;
  }

sort_page-low :
    (limit x : ℕ) (s : Split)
    → is_high limit x ≡ false
    → sort_page limit x s ≡ record (put_low (some x) s) { low_tail = some x }
unfolding sort_page
sort_page-low limit x s low = ground (arith, low)

sort_page-high :
    (limit x : ℕ) (s : Split)
    → is_high limit x ≡ true
    → sort_page limit x s ≡ record (put_high (some x) s) { high_tail = some x }
unfolding sort_page
sort_page-high limit x s high = ground (arith, high)

sort_pages-next :
    (fuel limit x : ℕ) (s t : Split) (cur : Option ℕ)
    → cur ≡ some x
    → sort_page limit x s ≡ t
    → sort_pages (suc fuel) limit cur s ≡ sort_pages fuel limit (t.pages x).pp_link t
unfolding sort_pages
sort_pages-next fuel limit x s t cur at_x e =
    ap (λ c. sort_pages (suc fuel) limit c s) at_x
    ∙ ap (λ (u : Split). sort_pages fuel limit (u.pages x).pp_link u) e

sort_pages-none : (fuel limit : ℕ) (s : Split) → sort_pages fuel limit none s ≡ some s
unfolding sort_pages
sort_pages-none zero limit s = refl
sort_pages-none (suc fuel) limit s = refl

abbrev pub is_low : ℕ → ℕ → Bool
is_low limit p = not (is_high limit p)

-- The loop to its end.
pub sort_pages_lem :
    (fuel limit : ℕ) (s : Split) (lows highs xs : List ℕ) (cur : Option ℕ) (refs : ℕ → ℕ)
    → length xs ≤ fuel
    → IsSorting s lows highs xs cur refs
    → (t : Split) × (end : Option ℕ) × (sort_pages fuel limit cur s ≡ some t)
      × IsSorting t
          (lows ++ select (is_low limit) xs)
          (highs ++ select (is_high limit) xs)
          []
          end
          refs
sort_pages_lem fuel limit s lows highs [] cur refs enough is = (
  s,
  cur,
  ap (λ c. sort_pages fuel limit c s) is.left ∙ sort_pages-none fuel limit s,
  rw (append-nil lows, append-nil highs) is,
)
sort_pages_lem zero limit s lows highs (x ∷ xs) cur refs enough is = absurd (omega arith)
sort_pages_lem (suc fuel) limit s lows highs (x ∷ xs) cur refs enough is =
    let at_x : IsSorting s lows highs (x ∷ xs) (some x) refs = rw (is.left.0) at is in
    elim (Bool-cases (is_high limit x)) [
      | inl high ↦
          let (t, end, e, done_is) =
            sort_pages_lem fuel limit (taken_high s lows highs xs x refs at_x) lows
              (highs ++ x ∷ []) xs _ refs (omega arith)
              (high-IsSorting s lows highs xs x refs at_x) in
          (
            t,
            end,
            sort_pages-next fuel limit x s _ cur (is.left.0) (sort_page-high limit x s high) ∙ e,
            rw (high, ← append_assoc highs (x ∷ []) (select (is_high limit) xs)) done_is,
          )
      | inr low ↦
          let (t, end, e, done_is) =
            sort_pages_lem fuel limit (taken_low s lows highs xs x refs at_x) (lows ++ x ∷ []) highs
              xs _ refs (omega arith) (low-IsSorting s lows highs xs x refs at_x) in
          (
            t,
            end,
            sort_pages-next fuel limit x s _ cur (is.left.0) (sort_page-low limit x s low) ∙ e,
            rw (low, ← append_assoc lows (x ∷ []) (select (is_low limit) xs)) done_is,
          )
    ]
