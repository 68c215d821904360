-- ===== src/Pmap/Check/Split/Listed.antt =====
-- The last two loops of `check_page_free_list` of pmap.c, on a list of pages that may be free.
use at_jos.Base.{
  ℕ, zero, suc, ◌+◌, ◌-◌, ◌%◌, ◌≤◌, ◌<◌, ◌≡◌, refl, ◌≢◌, Bool, true, false, not, Option, none, some,
  List, [], ◌∷◌, ◌==◌, ltb, leb, arith, ap, ◌∙◌, Bool-cases, inl, inr, ◌⊎◌, length,
}
use at_jos.Base.Monad.{done}
use at_jos.Pmap.Addr.{page2pa, page_size, ext_phys_mem, kern_base, word_mod}
use at_jos.Pmap.State.{Memory}
use at_jos.Pmap.Alloc.Laws.{page2kva-done, Addressable}
use at_jos.Pmap.Alloc.FreeList.{has, Chain}
use at_jos.Pmap.Check.Split.{io_phys_mem, check_free_page, check_free_pages}
use at_jos.Pmap.Check.Split.Sort.{select}

-- What the check wants of a free page: it is none of those that the machine or the kernel uses.
abbrev pub IsAllowed : ℕ → ℕ → ℕ → Type 0
IsAllowed first_free_page npages p =
    (p < npages)
    × (page2pa p ≢ 0)
    × (page2pa p ≢ io_phys_mem)
    × (page2pa p ≢ ext_phys_mem - page_size)
    × (page2pa p ≢ ext_phys_mem)
    × ((page2pa p < ext_phys_mem) ⊎ (first_free_page ≤ (page2pa p + kern_base) % word_mod))

check_free_page_lem :
    (m : Memory) (first_free_page p : ℕ)
    → Addressable m
    → IsAllowed first_free_page m.npages p
    → check_free_page first_free_page p m ≡ done (tt, m)
unfolding check_free_page
check_free_page_lem m first_free_page p small (lt, ne_zero, ne_io, ne_last, ne_ext, placed) =
    let a : ltb p m.npages ≡ true = ground arith in
    let b : (page2pa p == 0) ≡ false = ground arith in
    let c : (page2pa p == io_phys_mem) ≡ false = ground arith in
    let d : (page2pa p == ext_phys_mem - page_size) ≡ false = ground arith in
    let e : (page2pa p == ext_phys_mem) ≡ false = ground arith in
    elim (Bool-cases (ltb (page2pa p) ext_phys_mem)) [
      | inl low ↦ ground (arith, a, b, c, d, e, low)
      | inr high ↦
          let behind : leb first_free_page ((page2pa p + kern_base) % word_mod) ≡ true =
            ground arith in
          ground (arith, a, b, c, d, e, high, behind, page2kva-done p m (omega arith) lt)
    ]

abbrev pub is_base : ℕ → Bool
is_base p = ltb (page2pa p) ext_phys_mem

abbrev pub is_ext : ℕ → Bool
is_ext p = not (is_base p)

check_free_pages-base :
    (m : Memory) (fuel first_free_page p base ext : ℕ) (head : Option ℕ)
    → head ≡ some p
    → check_free_page first_free_page p m ≡ done (tt, m)
    → is_base p ≡ true
    → check_free_pages (suc fuel) first_free_page head base ext m
      ≡ check_free_pages fuel first_free_page (m.pages p).pp_link (base + 1) ext m
unfolding check_free_pages
check_free_pages-base m fuel first_free_page p base ext head at_p e low =
    ground (arith, at_p, e, low)

check_free_pages-ext :
    (m : Memory) (fuel first_free_page p base ext : ℕ) (head : Option ℕ)
    → head ≡ some p
    → check_free_page first_free_page p m ≡ done (tt, m)
    → is_base p ≡ false
    → check_free_pages (suc fuel) first_free_page head base ext m
      ≡ check_free_pages fuel first_free_page (m.pages p).pp_link base (ext + 1) m
unfolding check_free_pages
check_free_pages-ext m fuel first_free_page p base ext head at_p e high =
    ground (arith, at_p, e, high)

check_free_pages-none :
    (m : Memory) (fuel first_free_page base ext : ℕ)
    → check_free_pages fuel first_free_page none base ext m ≡ done ((base, ext), m)
unfolding check_free_pages
check_free_pages-none m zero first_free_page base ext = refl
check_free_pages-none m (suc fuel) first_free_page base ext = refl

-- The last loop counts the pages below and above EXTPHYSMEM.
pub check_free_pages_lem :
    (fuel first_free_page : ℕ) (m : Memory) (head : Option ℕ) (xs : List ℕ) (base ext : ℕ)
    → Chain m.pages head xs
    → length xs ≤ fuel
    → ((p : ℕ) → has p xs ≡ true → IsAllowed first_free_page m.npages p)
    → Addressable m
    → check_free_pages fuel first_free_page head base ext m
      ≡ done ((base + length (select is_base xs), ext + length (select is_ext xs)), m)
check_free_pages_lem fuel first_free_page m head [] base ext chain enough allowed small =
    ap (λ h. check_free_pages fuel first_free_page h base ext m) chain
    ∙ check_free_pages-none m fuel first_free_page base ext
    ∙ ap {A = ℕ × ℕ} (λ n. done (n, m)) (ground arith)
check_free_pages_lem zero first_free_page m head (p ∷ xs) base ext chain enough allowed small =
    absurd (omega arith)
check_free_pages_lem (suc fuel) first_free_page m head (p ∷ xs) base ext chain enough allowed
      small =
    let here : (p == p) ≡ true = ground arith in
    let e = check_free_page_lem m first_free_page p small (allowed p (rw here refl)) in
    let rest = λ (b x : ℕ).
      check_free_pages_lem fuel first_free_page m (m.pages p).pp_link xs b x (chain.1) (omega arith)
        (λ q h. allowed q (ground (arith, h))) small in
    elim (Bool-cases (is_base p)) [
      | inl low ↦
          check_free_pages-base m fuel first_free_page p base ext head (chain.0) e low
          ∙ rest (base + 1) ext
          ∙ ap {A = ℕ × ℕ} (λ n. done (n, m)) (rw low (ground arith))
      | inr high ↦
          check_free_pages-ext m fuel first_free_page p base ext head (chain.0) e high
          ∙ rest base (ext + 1)
          ∙ ap {A = ℕ × ℕ} (λ n. done (n, m)) (rw high (ground arith))
    ]
