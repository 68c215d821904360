-- ===== src/Pmap/MemInit/Whole/Keeps.antt =====
-- The checks of the page allocator keep what the first part of `mem_init` of pmap.c has set up.
use at_jos.Base.{
  ℕ, ◌+◌, ◌^◌, ◌≤◌, ◌<◌, ◌≡◌, refl, true, List, [], ◌∷◌, arith, ◌∙◌, sym, inl, inr, ◌⊎◌, length,
}
use at_jos.Base.Monad.{done}
use at_jos.Pmap.Addr.{kern_base, ext_phys_mem, page2pa}
use at_jos.Pmap.State.{Memory}
use at_jos.Pmap.Alloc.{first_free}
use at_jos.Pmap.Alloc.Init.{is_free_at_boot}
use at_jos.Pmap.Alloc.FreeList.{IsFreeList, has}
use at_jos.Pmap.Table.Space.{IsDir}
use at_jos.Pmap.Check.Same.{IsSameList}
use at_jos.Pmap.Check.{check_page_alloc}
use at_jos.Pmap.Check.Passes.{check_page_alloc_lem}
use at_jos.Pmap.Check.Split.{check_page_free_list}
use at_jos.Pmap.Check.Split.Listed.{IsAllowed, is_base, is_ext}
use at_jos.Pmap.Check.Split.Passes.{check_page_free_list_lem}
use at_jos.Pmap.MemInit.{KernelData}
use at_jos.Pmap.MemInit.SetUp.Laws.{IsSetUp}

-- Well-formed tables depend on which pages are free, not on their order.
IsDir-same :
    {dir : ℕ → ℕ} {pgdir npages : ℕ} {free free' : List ℕ}
    → IsDir dir pgdir npages free
    → ((p : ℕ) → has p free' ≡ has p free)
    → IsDir dir pgdir npages free'
IsDir-same {pgdir = pgdir} i same = record {
  dir_lt = i.dir_lt;
  dir_used = same pgdir ∙ i.dir_used;
  table_lt = i.table_lt;
  table_used = λ d h. same _ ∙ i.table_used d h;
  table_ne_dir = i.table_ne_dir;
  table_ne_table = i.table_ne_table;
}

-- A check that keeps the free list keeps the rest too.
pub IsSetUp-same :
    (m m' : Memory) (at : KernelData) (kernel_end info_size envs_size : ℕ)
    → (ready : IsSetUp m at kernel_end info_size envs_size) → IsSameList m m' ready.free
    → IsSetUp m' at kernel_end info_size envs_size
IsSetUp-same m m' at kernel_end info_size envs_size ready same =
    let dir : m'.words m'.kern_pgdir ≡ m.words m.kern_pgdir =
      rw same.kern_pgdir (same.words m.kern_pgdir ready.space.is_dir.dir_used) in
    record {
      free = same.free';
      space = record {
        addressable = rw same.npages ready.space.addressable;
        free_list = same.list;
        is_dir =
            rw (dir, same.kern_pgdir, same.npages) (IsDir-same ready.space.is_dir same.same_pages);
      };
      bare = rw dir ready.bare;
      self_there = rw dir ready.self_there;
      self_read_only = rw dir ready.self_read_only;
      self_names = rw (dir, same.kern_pgdir) ready.self_names;
      behind_kernel = rw same.kern_pgdir ready.behind_kernel;
      pages_behind = rw same.kern_pgdir ready.pages_behind;
      envs_behind = rw same.npages ready.envs_behind;
      free_behind = ready.free_behind;
      next_real = ready.next_real;
      next_behind = ready.next_behind;
      pages_whole = ready.pages_whole;
      envs_whole = ready.envs_whole;
      exactly_free = λ p.
          same.same_pages p ∙ ready.exactly_free p ∙ rw (same.npages, same.npages_basemem) refl;
      free_count = same.count ∙ ready.free_count ∙ rw (same.npages, same.npages_basemem) refl;
      free_inside = rw same.npages ready.free_inside;
    }

-- The pages that are free at boot are allowed on the free list.
module _ (m : Memory) (at : KernelData) (kernel_end info_size envs_size : ℕ)
    (ready : IsSetUp m at kernel_end info_size envs_size)
    (loaded : kern_base + ext_phys_mem ≤ kernel_end) (base_memory : m.npages_basemem ≤ 160)
    (memory : m.npages ≤ 65536) where
  med_behind : 257 ≤ first_free at.envs_at envs_size
  med_behind =
      omega (arith, ready.behind_kernel, ready.pages_behind, ready.envs_behind, ready.free_behind)

  boot-IsAllowed : (p : ℕ) → has p ready.free ≡ true → IsAllowed at.nextfree m.npages p
  unfolding page2pa
  boot-IsAllowed p h =
      let med = first_free at.envs_at envs_size in
      let behind = med_behind in
      let next = ready.next_behind in
      let inside = ready.free_inside in
      let free : is_free_at_boot m med p ≡ true = sym (ready.exactly_free p) ∙ h in
      let place : ((1 ≤ p) × (p < m.npages_basemem)) ⊎ ((med ≤ p) × (p < m.npages)) =
        ground (arith, free) in
      elim place [
        | inl base ↦
            (omega arith, omega arith, omega arith, omega arith, omega arith, inl (omega arith))
        | inr ext ↦ (ext.1, omega arith, omega arith, omega arith, omega arith, inr (omega arith))
      ]

  -- Page 1 is free below EXTPHYSMEM, and the first page behind `envs` above it.
  some_base : 2 ≤ m.npages_basemem → (has 1 ready.free ≡ true) × (is_base 1 ≡ true)
  unfolding page2pa
  some_base two = (ready.exactly_free 1 ∙ ground arith, refl)

  some_ext :
      (has (first_free at.envs_at envs_size) ready.free ≡ true)
      × (is_ext (first_free at.envs_at envs_size) ≡ true)
  unfolding page2pa
  some_ext =
      let behind = med_behind in
      let inside = ready.free_inside in
      (ready.exactly_free (first_free at.envs_at envs_size) ∙ ground arith, ground arith)

  free_fits : length ready.free ≤ m.npages
  free_fits =
      let behind = med_behind in let inside = ready.free_inside in omega (arith, ready.free_count)

-- `check_page_free_list` and then `check_page_alloc` pass.
pub checks_lem :
    (m : Memory) (at : KernelData) (kernel_end info_size envs_size first_free_page pp1 pp2 : ℕ)
    → IsSetUp m at kernel_end info_size envs_size
    → kern_base + ext_phys_mem ≤ kernel_end
    → (2 ≤ m.npages_basemem) × (m.npages_basemem ≤ 160)
    → m.npages ≤ 65536
    → first_free_page ≡ at.nextfree
    → (m1 : Memory) × (check_page_free_list m.npages first_free_page pp1 pp2 true m ≡ done (tt, m1))
      × IsSetUp m1 at kernel_end info_size envs_size
      × (m1.npages ≡ m.npages)
      × (m1.npages_basemem ≡ m.npages_basemem)
checks_lem m at kernel_end info_size envs_size first_free_page pp1 pp2 ready loaded base memory
      same =
    let (m1, e, is) =
      check_page_free_list_lem m ready.free m.npages first_free_page pp1 pp2 1
        (first_free at.envs_at envs_size) ready.space.free_list
        (free_fits m at kernel_end info_size envs_size ready loaded (base.1) memory)
        ready.space.addressable
        (λ p h.
          rw same
            (boot-IsAllowed m at kernel_end info_size envs_size ready loaded (base.1) memory p h))
        (some_base m at kernel_end info_size envs_size ready loaded (base.1) memory (base.0))
        (some_ext m at kernel_end info_size envs_size ready loaded (base.1) memory) true in
    (
      m1,
      e,
      IsSetUp-same m m1 at kernel_end info_size envs_size ready is,
      is.npages,
      is.npages_basemem,
    )

-- The first three pages of the list.
alloc_checked :
    (m : Memory) (free : List ℕ) (fuel : ℕ)
    → IsFreeList m free
    → 3 ≤ length free
    → length free ≤ fuel
    → m.npages < 2 ^ 20
    → (m' : Memory) × (check_page_alloc fuel m ≡ done (tt, m')) × IsSameList m m' free
alloc_checked m [] fuel list three enough small = absurd (omega arith)
alloc_checked m (p0 ∷ []) fuel list three enough small = absurd (omega arith)
alloc_checked m (p0 ∷ p1 ∷ []) fuel list three enough small = absurd (omega arith)
alloc_checked m (p0 ∷ p1 ∷ p2 ∷ rest) fuel list three enough small =
    let (m', e, list', refs, words, npages, basemem, dir) =
      check_page_alloc_lem m p0 p1 p2 rest list small fuel (omega arith) in
    (
      m',
      e,
      record {
        free' = p0 ∷ p1 ∷ p2 ∷ rest;
        list = list';
        same_pages = λ p. refl;
        refs = refs;
        words = λ p off. words p (ground (arith, off));
        count = refl;
        npages = npages;
        npages_basemem = basemem;
        kern_pgdir = dir;
      },
    )

pub alloc_check_lem :
    (m : Memory) (at : KernelData) (kernel_end info_size envs_size fuel : ℕ)
    → IsSetUp m at kernel_end info_size envs_size
    → kern_base + ext_phys_mem ≤ kernel_end
    → (4 ≤ m.npages_basemem) × (m.npages_basemem ≤ 160)
    → m.npages ≤ 65536
    → fuel ≡ m.npages
    → (m' : Memory) × (check_page_alloc fuel m ≡ done (tt, m'))
      × IsSetUp m' at kernel_end info_size envs_size
      × (m'.npages ≡ m.npages)
      × (m'.npages_basemem ≡ m.npages_basemem)
alloc_check_lem m at kernel_end info_size envs_size fuel ready loaded base memory same =
    let fits = free_fits m at kernel_end info_size envs_size ready loaded (base.1) memory in
    let (m', e, is) =
      alloc_checked m ready.free fuel ready.space.free_list (omega (arith, ready.free_count))
        (omega arith) (omega arith) in
    (
      m',
      e,
      IsSetUp-same m m' at kernel_end info_size envs_size ready is,
      is.npages,
      is.npages_basemem,
    )
