-- ===== src/Pmap/Alloc/Init.antt =====
-- `page_init` links exactly the pages that are free at boot.
use at_jos.Base.{
  ℕ, zero, suc, ◌+◌, ◌-◌, ◌*◌, ◌≤◌, ◌<◌, ◌≡◌, refl, Bool, false, ◌||◌, ◌&&◌, none, List, [], ◌∷◌,
  ltb, leb, arith, length, ◌∙◌,
}
use at_jos.Pmap.Addr.{page_size, word_mod, kern_base, round_up}
use at_jos.Pmap.State.{Memory}
use at_jos.Pmap.Alloc.{link_page, link_pages, first_free, page_init}
use at_jos.Pmap.Alloc.FreeList.{has, IsFreeList, IsFreeList-push}

-- The pages from `i` on, pushed in front one after the other.
pushed : ℕ → ℕ → List ℕ → List ℕ
pushed zero i xs = xs
pushed (suc rounds) i xs = pushed rounds (i + 1) (i ∷ xs)

has-pushed :
    (rounds i p : ℕ) (xs : List ℕ)
    → has p (pushed rounds i xs) ≡ (leb i p && ltb p (i + rounds) || has p xs)
unfolding pushed
has-pushed zero i p xs = ground arith
has-pushed (suc rounds) i p xs = ground (arith, has-pushed rounds (i + 1) p (i ∷ xs))

length-pushed : (rounds i : ℕ) (xs : List ℕ) → length (pushed rounds i xs) ≡ rounds + length xs
unfolding pushed
length-pushed zero i xs = omega arith
length-pushed (suc rounds) i xs = omega (arith, length-pushed rounds (i + 1) (i ∷ xs))

-- What the loops of `page_init` leave alone.
npages-link_pages : (rounds i : ℕ) (m : Memory) → (link_pages rounds i m).npages ≡ m.npages
unfolding link_pages
npages-link_pages zero i m = refl
npages-link_pages (suc rounds) i m = npages-link_pages rounds (i + 1) (link_page i m)

-- Nothing but the pages and the head of the list.
pub record KeepsOthers (m m' : Memory) : Type 0 where
  pub words : m'.words ≡ m.words
  pub npages : m'.npages ≡ m.npages
  pub npages_basemem : m'.npages_basemem ≡ m.npages_basemem
  pub kern_pgdir : m'.kern_pgdir ≡ m.kern_pgdir

link_pages-KeepsOthers : (rounds i : ℕ) (m : Memory) → KeepsOthers m (link_pages rounds i m)
unfolding link_pages
link_pages-KeepsOthers zero i m = record {
  words = refl;
  npages = refl;
  npages_basemem = refl;
  kern_pgdir = refl;
}
link_pages-KeepsOthers (suc rounds) i m =
    let rest = link_pages-KeepsOthers rounds (i + 1) (link_page i m) in
    record {
      words = rest.words;
      npages = rest.npages;
      npages_basemem = rest.npages_basemem;
      kern_pgdir = rest.kern_pgdir;
    }

pub page_init-KeepsOthers :
    (m : Memory) (envs_va envs_size : ℕ) → KeepsOthers m (page_init envs_va envs_size m)
unfolding page_init
page_init-KeepsOthers m envs_va envs_size =
    let low = link_pages (m.npages_basemem - 1) 1 m in
    let a = link_pages-KeepsOthers (m.npages_basemem - 1) 1 m in
    let b =
      link_pages-KeepsOthers (m.npages - first_free envs_va envs_size)
        (first_free envs_va envs_size) low in
    record {
      words = b.words ∙ a.words;
      npages = b.npages ∙ a.npages;
      npages_basemem = b.npages_basemem ∙ a.npages_basemem;
      kern_pgdir = b.kern_pgdir ∙ a.kern_pgdir;
    }

link_pages-IsFreeList :
    (rounds i : ℕ) (m : Memory) (xs : List ℕ)
    → IsFreeList m xs
    → ((p : ℕ) → i ≤ p → has p xs ≡ false)
    → ((p : ℕ) → i ≤ p → p < i + rounds → p < m.npages)
    → IsFreeList (link_pages rounds i m) (pushed rounds i xs)
unfolding link_pages pushed
link_pages-IsFreeList zero i m xs f off fits = f
link_pages-IsFreeList (suc rounds) i m xs f off fits =
    link_pages-IsFreeList rounds (i + 1) (link_page i m) (i ∷ xs)
      (IsFreeList-push f i (off i (omega arith)) (fits i (omega arith) (omega arith)))
      (λ p above. ground (arith, off p)) (λ p above under. fits p (omega arith) (omega arith))

-- The pages that the machine may hand out after boot, when the kernel's data ends below page `med`:
-- base memory but for page 0, and what lies behind the kernel.
abbrev pub is_free_at_boot : Memory → ℕ → ℕ → Bool
is_free_at_boot m med p = leb 1 p && ltb p m.npages_basemem || leb med p && ltb p m.npages

module _ (m : Memory) (envs_va envs_size : ℕ) where
  abbrev med : ℕ
  med = first_free envs_va envs_size

  abbrev low : Memory
  low = link_pages (m.npages_basemem - 1) 1 m

  -- From an empty list `page_init` makes a well-formed free list, and a page is on it exactly if it
  -- is a page of base memory other than page 0, or lies between the end of `envs` and the end of
  -- memory. The list has as many entries as there are such pages. Base memory must end below the kernel's data, which must end inside memory.
  pub page_init_lem :
      m.page_free_list ≡ none
      → m.npages_basemem ≤ first_free envs_va envs_size
      → first_free envs_va envs_size ≤ m.npages
      → (free : List ℕ) × IsFreeList (page_init envs_va envs_size m) free
        × ((p : ℕ) → has p free ≡ is_free_at_boot m (first_free envs_va envs_size) p)
        × (length free ≡ m.npages_basemem - 1 + (m.npages - first_free envs_va envs_size))
  unfolding page_init
  page_init_lem empty below inside = (
    pushed (m.npages - med) med (pushed (m.npages_basemem - 1) 1 []),
    link_pages-IsFreeList (m.npages - med) med low (pushed (m.npages_basemem - 1) 1 [])
        (link_pages-IsFreeList (m.npages_basemem - 1) 1 m [] none_yet (λ p h. refl)
          (λ p h k. omega arith))
        (λ p h. ground (arith, has-pushed (m.npages_basemem - 1) 1 p []))
        (λ p h k. omega (arith, npages-link_pages (m.npages_basemem - 1) 1 m)),
    λ p. ground (
      arith,
      has-pushed (m.npages - med) med p (pushed (m.npages_basemem - 1) 1 []),
      has-pushed (m.npages_basemem - 1) 1 p [],
    ),
    omega (
      arith,
      length-pushed (m.npages - med) med (pushed (m.npages_basemem - 1) 1 []),
      length-pushed (m.npages_basemem - 1) 1 [],
    ),
  )
    where
      none_yet : IsFreeList m []
      none_yet = record { chain = empty; distinct = tt; all_free = tt }

-- If `envs` lies above KERNBASE and ends at least a page before 2 ^ 32, the page that the second
-- loop of `page_init` starts at is the first one whose physical address is not below the end of
-- `envs`.
pub first_free_bounds :
    (envs_va envs_size : ℕ)
    → kern_base ≤ envs_va
    → envs_va + envs_size + page_size ≤ word_mod
    → (envs_va + envs_size ≤ kern_base + first_free envs_va envs_size * page_size)
      × (kern_base + first_free envs_va envs_size * page_size < envs_va + envs_size + page_size)
unfolding first_free round_up
first_free_bounds envs_va envs_size above fits = omega arith
