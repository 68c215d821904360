-- ===== src/Pmap/Alloc/FreeList.antt =====
-- What the page allocator keeps: the pages linked from `page_free_list`, as a list.
use at_jos.Base.{
  ℕ, ◌<◌, ◌≡◌, refl, Bool, true, false, ◌||◌, Option, none, some, List, [], ◌∷◌, ◌==◌, arith,
}
use at_jos.Pmap.State.{PageInfo, Memory, update}

abbrev pub has : ℕ → List ℕ → Bool
has p [] = false
has p (x ∷ xs) = (p == x) || has p xs

-- The links lead from `head` through exactly the pages of the list.
abbrev pub Chain : (ℕ → PageInfo) → Option ℕ → List ℕ → Type 0
Chain pages head [] = head ≡ none
Chain pages head (x ∷ xs) = (head ≡ some x) × Chain pages (pages x).pp_link xs

abbrev pub Distinct : List ℕ → Type 0
Distinct [] = Unit {0}
Distinct (x ∷ xs) = (has x xs ≡ false) × Distinct xs

-- A free page is a page of the machine, and nothing refers to it.
abbrev pub AllFree : ℕ → (ℕ → PageInfo) → List ℕ → Type 0
AllFree npages pages [] = Unit {0}
AllFree npages pages (x ∷ xs) = (x < npages) × ((pages x).pp_ref ≡ 0) × AllFree npages pages xs

pub record IsFreeList (m : Memory) (free : List ℕ) : Type 0 where
  pub chain : Chain m.pages m.page_free_list free
  pub distinct : Distinct free
  pub all_free : AllFree m.npages m.pages free

-- A change of a page off the list leaves the list alone.
pub Chain-update :
    (pages : ℕ → PageInfo) (head : Option ℕ) (p : ℕ) (i : PageInfo) (xs : List ℕ)
    → has p xs ≡ false
    → Chain pages head xs
    → Chain (update pages p i) head xs
Chain-update pages head p i [] off c = c
Chain-update pages head p i (x ∷ xs) off (e, c) =
    (e, rw (apart) (Chain-update pages _ p i xs rest c))
  where
    rest : has p xs ≡ false
    rest = ground arith

    apart : (p == x) ≡ false
    apart = ground arith

pub AllFree-update :
    (npages : ℕ) (pages : ℕ → PageInfo) (p : ℕ) (i : PageInfo) (xs : List ℕ)
    → has p xs ≡ false
    → AllFree npages pages xs
    → AllFree npages (update pages p i) xs
AllFree-update npages pages p i [] off a = tt
AllFree-update npages pages p i (x ∷ xs) off (lt, unused, a) =
    (lt, rw (apart) unused, AllFree-update npages pages p i xs rest a)
  where
    rest : has p xs ≡ false
    rest = ground arith

    apart : (p == x) ≡ false
    apart = ground arith

-- A page of the list is in range.
pub lt_of_has :
    (npages : ℕ) (pages : ℕ → PageInfo) (p : ℕ) (xs : List ℕ)
    → AllFree npages pages xs
    → has p xs ≡ true
    → p < npages
lt_of_has npages pages p [] a h = cc
lt_of_has npages pages p (x ∷ xs) (lt, _, a) h = ground (arith, lt_of_has npages pages p xs a)

-- A list that keeps its pages and links is still the free list.
module _ {m : Memory} {free : List ℕ} (f : IsFreeList m free) where
  pub IsFreeList-set_off :
      (p : ℕ) (i : PageInfo)
      → has p free ≡ false
      → IsFreeList (record m { pages = update m.pages p i }) free
  IsFreeList-set_off p i off = record {
    chain = Chain-update m.pages m.page_free_list p i free off f.chain;
    distinct = f.distinct;
    all_free = AllFree-update m.npages m.pages p i free off f.all_free;
  }

  -- A page off the list that is linked in front of it.
  pub IsFreeList-push :
      (p : ℕ)
      → has p free ≡ false
      → p < m.npages
      → IsFreeList
          (record m {
            pages = update m.pages p (record { pp_ref = 0; pp_link = m.page_free_list });
            page_free_list = some p;
          })
          (p ∷ free)
  IsFreeList-push p off lt = record {
    chain = (refl, rw (same p) (Chain-update m.pages m.page_free_list p _ free off f.chain));
    distinct = (off, f.distinct);
    all_free = (lt, rw (same p) refl, AllFree-update m.npages m.pages p _ free off f.all_free);
  }
    where
      same : (q : ℕ) → (q == q) ≡ true
      same q = ground arith
