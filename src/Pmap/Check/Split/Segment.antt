-- ===== src/Pmap/Check/Split/Segment.antt =====
-- The two half-built lists of `check_page_free_list`, pmap.c, while their last links are still open.
use at_jos.Base.{
  ℕ, ◌≡◌, refl, true, false, Option, none, some, List, [], ◌∷◌, ◌==◌, arith, sym, ◌++◌,
}
use at_jos.Pmap.State.{PageInfo}
use at_jos.Pmap.Alloc.FreeList.{has, Chain, Chain-update, Distinct}
use at_jos.Pmap.Check.Split.{set_link, put_pages, put_head}

-- The links lead from `head` through the pages of the list; `tail` is where the next one is stored.
abbrev pub Segment : (ℕ → PageInfo) → Option ℕ → Option ℕ → List ℕ → Type 0
Segment pages head tail [] = tail ≡ none
Segment pages head tail (x ∷ []) = (head ≡ some x) × (tail ≡ some x)
Segment pages head tail (x ∷ y ∷ ys) =
    (head ≡ some x) × Segment pages (pages x).pp_link tail (y ∷ ys)

some-injective : (x y : ℕ) → some x ≡ some y → x ≡ y
some-injective x y e = ground (arith, e)

-- The tail is a page of the list.
pub has-tail :
    (pages : ℕ → PageInfo) (head : Option ℕ) (p : ℕ) (xs : List ℕ)
    → Segment pages head (some p) xs
    → has p xs ≡ true
has-tail pages head p [] s = absurd (ground (arith, s))
has-tail pages head p (x ∷ []) s = let e = some-injective p x (s.1) in ground arith
has-tail pages head p (x ∷ y ∷ ys) s =
    let in_rest = has-tail pages (pages x).pp_link p (y ∷ ys) (s.1) in ground (arith, in_rest)

link-other :
    (pages : ℕ → PageInfo) (p x : ℕ) (v : Option ℕ)
    → (p == x) ≡ false
    → (set_link p v pages x).pp_link ≡ (pages x).pp_link
link-other pages p x v apart = rw apart refl

link-same : (pages : ℕ → PageInfo) (p : ℕ) (v : Option ℕ) → (set_link p v pages p).pp_link ≡ v
link-same pages p v = let e : (p == p) ≡ true = ground arith in rw e refl

-- A store to the link of a page off the list.
pub Segment-off :
    (pages : ℕ → PageInfo) (head tail : Option ℕ) (p : ℕ) (v : Option ℕ) (xs : List ℕ)
    → has p xs ≡ false
    → Segment pages head tail xs
    → Segment (set_link p v pages) head tail xs
Segment-off pages head tail p v [] off s = s
Segment-off pages head tail p v (x ∷ []) off s = s
Segment-off pages head tail p v (x ∷ y ∷ ys) off s =
    let apart : (p == x) ≡ false = ground arith in
    (
      s.0,
      rw (link-other pages p x v apart)
          (Segment-off pages (pages x).pp_link tail p v (y ∷ ys) (ground arith) (s.1)),
    )

-- The page `y` is stored at the tail, and becomes the tail.
Segment-grow :
    (pages : ℕ → PageInfo) (head : Option ℕ) (p y x : ℕ) (xs : List ℕ)
    → Distinct (x ∷ xs)
    → Segment pages head (some p) (x ∷ xs)
    → Segment (set_link p (some y) pages) head (some y) (x ∷ xs ++ y ∷ [])
Segment-grow pages head p y x [] distinct s =
    let e = some-injective p x (s.1) in (s.0, (rw (sym e) (link-same pages p (some y)), refl))
Segment-grow pages head p y x (z ∷ zs) distinct s =
    let in_rest = has-tail pages (pages x).pp_link p (z ∷ zs) (s.1) in
    let apart : (p == x) ≡ false = ground (arith, in_rest, distinct) in
    (
      s.0,
      rw (link-other pages p x (some y) apart)
          (Segment-grow pages (pages x).pp_link p y z zs (distinct.1) (s.1)),
    )

-- A whole list is stored at the tail.
Segment-end :
    (pages : ℕ → PageInfo) (head v : Option ℕ) (p x : ℕ) (xs ys : List ℕ)
    → Distinct (x ∷ xs)
    → has p ys ≡ false
    → Chain pages v ys
    → Segment pages head (some p) (x ∷ xs)
    → Chain (set_link p v pages) head (x ∷ xs ++ ys)
Segment-end pages head v p x [] ys distinct off chain s =
    let e = some-injective p x (s.1) in
    (s.0, rw (sym e, link-same pages p v) (Chain-update pages v p _ ys off chain))
Segment-end pages head v p x (z ∷ zs) ys distinct off chain s =
    let in_rest = has-tail pages (pages x).pp_link p (z ∷ zs) (s.1) in
    let apart : (p == x) ≡ false = ground (arith, in_rest, distinct) in
    (
      s.0,
      rw (link-other pages p x v apart)
          (Segment-end pages (pages x).pp_link v p z zs ys (distinct.1) off chain (s.1)),
    )

no_tail :
    {A : Type 0} (pages : ℕ → PageInfo) (head : Option ℕ) (x : ℕ) (xs : List ℕ)
    → Segment pages head none (x ∷ xs)
    → A
no_tail pages head x [] s = absurd (ground (arith, s))
no_tail pages head x (y ∷ ys) s = no_tail pages (pages x).pp_link y ys (s.1)

-- The same for any tail: the variable, while the list is empty, or the link of its last page.
pub Segment-put :
    (pages : ℕ → PageInfo) (head tail : Option ℕ) (y : ℕ) (xs : List ℕ)
    → Distinct xs
    → Segment pages head tail xs
    → Segment (put_pages tail (some y) pages) (put_head tail (some y) head) (some y) (xs ++ y ∷ [])
Segment-put pages head none y [] distinct s = (refl, refl)
Segment-put pages head none y (x ∷ xs) distinct s = no_tail pages head x xs s
Segment-put pages head (some p) y [] distinct s = absurd (ground (arith, s))
Segment-put pages head (some p) y (x ∷ xs) distinct s = Segment-grow pages head p y x xs distinct s

pub Segment-Chain :
    (pages : ℕ → PageInfo) (head tail v : Option ℕ) (xs ys : List ℕ)
    → Distinct xs
    → ((p : ℕ) → has p xs ≡ true → has p ys ≡ false)
    → Chain pages v ys
    → Segment pages head tail xs
    → Chain (put_pages tail v pages) (put_head tail v head) (xs ++ ys)
Segment-Chain pages head none v [] ys distinct off chain s = chain
Segment-Chain pages head none v (x ∷ xs) ys distinct off chain s = no_tail pages head x xs s
Segment-Chain pages head (some p) v [] ys distinct off chain s = absurd (ground (arith, s))
Segment-Chain pages head (some p) v (x ∷ xs) ys distinct off chain s =
    Segment-end pages head v p x xs ys distinct (off p (has-tail pages head p (x ∷ xs) s)) chain s

-- A store that does not go to the link of a page of the list.
Segment-put_off :
    (pages : ℕ → PageInfo) (tail v head' tail' : Option ℕ) (ys : List ℕ)
    → ((p : ℕ) → tail ≡ some p → has p ys ≡ false)
    → Segment pages head' tail' ys
    → Segment (put_pages tail v pages) head' tail' ys
Segment-put_off pages none v head' tail' ys off s = s
Segment-put_off pages (some p) v head' tail' ys off s =
    Segment-off pages head' tail' p v ys (off p refl) s

Chain-put_off :
    (pages : ℕ → PageInfo) (tail v cur : Option ℕ) (ys : List ℕ)
    → ((p : ℕ) → tail ≡ some p → has p ys ≡ false)
    → Chain pages cur ys
    → Chain (put_pages tail v pages) cur ys
Chain-put_off pages none v cur ys off chain = chain
Chain-put_off pages (some p) v cur ys off chain = Chain-update pages cur p _ ys (off p refl) chain

-- A store through the tail of one list leaves a list without its pages alone.
module _ (pages : ℕ → PageInfo) (head tail v : Option ℕ) (xs ys : List ℕ)
    (off : (p : ℕ) → has p xs ≡ true → has p ys ≡ false) (s : Segment pages head tail xs) where
  off_tail : (p : ℕ) → tail ≡ some p → has p ys ≡ false
  off_tail p e = off p (has-tail pages head p xs (rw e at s))

  pub Segment-other :
      (head' tail' : Option ℕ)
      → Segment pages head' tail' ys
      → Segment (put_pages tail v pages) head' tail' ys
  Segment-other head' tail' other = Segment-put_off pages tail v head' tail' ys off_tail other

  pub Chain-other : (cur : Option ℕ) → Chain pages cur ys → Chain (put_pages tail v pages) cur ys
  Chain-other cur chain = Chain-put_off pages tail v cur ys off_tail chain
