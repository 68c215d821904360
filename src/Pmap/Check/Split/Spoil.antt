-- ===== src/Pmap/Check/Split/Spoil.antt =====
-- The loop of `check_page_free_list` of pmap.c that overwrites the free pages.
use at_jos.Base.{
  ℕ, zero, suc, ◌≤◌, ◌<◌, ◌≡◌, refl, true, false, Option, none, some, List, [], ◌∷◌, ◌==◌, ltb,
  if◌then◌else◌, arith, ap, ◌∙◌, Bool-cases, inl, inr, length,
}
use at_jos.Base.Monad.{done}
use at_jos.Pmap.Addr.{pdx, page2pa}
use at_jos.Pmap.State.{Memory, update}
use at_jos.Pmap.Alloc.Laws.{page2kva-done, Addressable}
use at_jos.Pmap.Alloc.FreeList.{has, Chain}
use at_jos.Pmap.Check.Split.{spoil_page, spoil_pages}

-- Only words of the pages in the list have changed.
pub record IsSpoiled (m m' : Memory) (xs : List ℕ) : Type 0 where
  pub pages : m'.pages ≡ m.pages
  pub page_free_list : m'.page_free_list ≡ m.page_free_list
  pub npages : m'.npages ≡ m.npages
  pub kern_pgdir : m'.kern_pgdir ≡ m.kern_pgdir
  pub npages_basemem : m'.npages_basemem ≡ m.npages_basemem
  pub words : (q : ℕ) → has q xs ≡ false → m'.words q ≡ m.words q

spoil_page_lem :
    (m : Memory) (limit p : ℕ)
    → p < m.npages
    → Addressable m
    → (m' : Memory) × (spoil_page limit p m ≡ done (tt, m')) × IsSpoiled m m' (p ∷ [])
unfolding spoil_page
spoil_page_lem m limit p lt small = elim (Bool-cases (ltb (pdx (page2pa p)) limit)) [
  | inl low ↦ (
    record m { words = update m.words p (λ i. if ltb i 32 then 0x9797_9797 else m.words p i) },
    ground (arith, low, page2kva-done p m (omega arith) lt),
    record {
      pages = refl;
      page_free_list = refl;
      npages = refl;
      kern_pgdir = refl;
      npages_basemem = refl;
      words = λ q off. ground (arith, off);
    },
  )
  | inr high ↦ (
    m,
    ground (arith, high),
    record {
      pages = refl;
      page_free_list = refl;
      npages = refl;
      kern_pgdir = refl;
      npages_basemem = refl;
      words = λ q off. refl;
    },
  )
]

spoil_pages-next :
    (m m1 : Memory) (fuel limit p : ℕ) (head next : Option ℕ)
    → head ≡ some p
    → spoil_page limit p m ≡ done (tt, m1)
    → (m1.pages p).pp_link ≡ next
    → spoil_pages (suc fuel) limit head m ≡ spoil_pages fuel limit next m1
unfolding spoil_pages
spoil_pages-next m m1 fuel limit p head next at_p e link = ground (arith, at_p, e, link)

spoil_pages-none : (m : Memory) (fuel limit : ℕ) → spoil_pages fuel limit none m ≡ done (tt, m)
unfolding spoil_pages
spoil_pages-none m zero limit = refl
spoil_pages-none m (suc fuel) limit = refl

pub spoil_pages_lem :
    (fuel limit : ℕ) (m : Memory) (head : Option ℕ) (xs : List ℕ)
    → Chain m.pages head xs
    → length xs ≤ fuel
    → ((p : ℕ) → has p xs ≡ true → p < m.npages)
    → Addressable m
    → (m' : Memory) × (spoil_pages fuel limit head m ≡ done (tt, m')) × IsSpoiled m m' xs
spoil_pages_lem fuel limit m head [] chain enough fits small = (
  m,
  ap (λ h. spoil_pages fuel limit h m) chain ∙ spoil_pages-none m fuel limit,
  record {
    pages = refl;
    page_free_list = refl;
    npages = refl;
    kern_pgdir = refl;
    npages_basemem = refl;
    words = λ q off. refl;
  },
)
spoil_pages_lem zero limit m head (p ∷ xs) chain enough fits small = absurd (omega arith)
spoil_pages_lem (suc fuel) limit m head (p ∷ xs) chain enough fits small =
    let here : (p == p) ≡ true = ground arith in
    let (m1, e, one) = spoil_page_lem m limit p (fits p (rw here refl)) small in
    let (m', f, rest) =
      spoil_pages_lem fuel limit m1 (m.pages p).pp_link xs (rw one.pages (chain.1)) (omega arith)
        (λ q h. rw one.npages (fits q (ground (arith, h)))) (rw one.npages small) in
    (
      m',
      spoil_pages-next m m1 fuel limit p head (m.pages p).pp_link (chain.0) e
            (ap (λ f. (f p).pp_link) one.pages)
          ∙ f,
      record {
        pages = rest.pages ∙ one.pages;
        page_free_list = rest.page_free_list ∙ one.page_free_list;
        npages = rest.npages ∙ one.npages;
        kern_pgdir = rest.kern_pgdir ∙ one.kern_pgdir;
        npages_basemem = rest.npages_basemem ∙ one.npages_basemem;
        words = λ q off. rest.words q (ground (arith, off)) ∙ one.words q (ground (arith, off));
      },
    )
