-- ===== src/Pmap/MemInit/SetUp/Laws.antt =====
-- What the first part of `mem_init` of pmap.c leaves: a bare page directory and the free pages.
use at_jos.Base.{
  ℕ, ◌+◌, ◌-◌, ◌*◌, ◌%◌, ◌≤◌, ◌<◌, ◌≡◌, ◌≢◌, true, false, none, List, arith, ◌∙◌, sym, fun_ext,
  length,
}
use at_jos.Base.Monad.{done}
use at_jos.Pmap.Addr.{
  page_size, word_mod, kern_base, ext_phys_mem, uvpt, pdx, pte_p, pte_w, has_flag, pgnum,
}
use at_jos.Pmap.State.{Memory, set_word, update}
use at_jos.Pmap.BootAlloc.{boot_alloc, boot_alloc-first, boot_alloc-next}
use at_jos.Pmap.Detect.{i386_detect_memory}
use at_jos.Pmap.Alloc.{clear_page, page_init, first_free}
use at_jos.Pmap.Alloc.FreeList.{IsFreeList, has}
use at_jos.Pmap.Alloc.Init.{
  page_init_lem, KeepsOthers, page_init-KeepsOthers, is_free_at_boot, first_free_bounds,
}
use at_jos.Pmap.Table.Space.{IsSpace, self_index, table_of}
use at_jos.Pmap.MemInit.{KernelData}
use at_jos.Pmap.MemInit.Map.{paddr-kernel}
use at_jos.Pmap.MemInit.SetUp.{set_up}
use at_jos.Pmap.MemInit.SetUp.Directory.{only_self, only_self-IsDir, self_entry, self_entry-reads}
use at_jos.Pmap.MemInit.Flags.{user_entry-writable}

-- The kernel's data after the first part of `mem_init`.
pub record IsSetUp (m : Memory) (at : KernelData) (kernel_end info_size envs_size : ℕ)
    : Type 0 where
  pub free : List ℕ
  pub space : IsSpace m m.kern_pgdir free
  pub bare : (d : ℕ) → d ≢ self_index → m.words m.kern_pgdir d ≡ 0
  pub self_there : has_flag (m.words m.kern_pgdir self_index) pte_p ≡ true
  pub self_read_only : has_flag (m.words m.kern_pgdir self_index) pte_w ≡ false
  pub self_names : table_of (m.words m.kern_pgdir) self_index ≡ m.kern_pgdir
  pub behind_kernel : kernel_end ≤ kern_base + page_size * m.kern_pgdir
  pub pages_behind : kern_base + page_size * (m.kern_pgdir + 1) ≤ at.pages_at
  pub envs_behind : at.pages_at + m.npages * info_size ≤ at.envs_at
  pub free_behind : at.envs_at + envs_size ≤ kern_base + page_size * first_free at.envs_at envs_size
  pub next_real : 0 < at.nextfree
  pub next_behind : at.nextfree ≤ kern_base + page_size * first_free at.envs_at envs_size
  pub pages_whole : at.pages_at % page_size ≡ 0
  pub envs_whole : at.envs_at % page_size ≡ 0
  pub exactly_free : (p : ℕ) → has p free ≡ is_free_at_boot m (first_free at.envs_at envs_size) p
  pub free_count : length free ≡ m.npages_basemem - 1 + (m.npages - first_free at.envs_at envs_size)
  pub free_inside : first_free at.envs_at envs_size < m.npages

module _ (mc146818_read : ℕ → ℕ) (kernel_end info_size envs_size bootstack : ℕ) (m : Memory)
    (loaded : kern_base + ext_phys_mem ≤ kernel_end)
    (base_memory : (i386_detect_memory mc146818_read).0 ≤ 256)
    (memory : (i386_detect_memory mc146818_read).1 ≤ 65536)
    (room : kernel_end
        + 5 * page_size
        + (i386_detect_memory mc146818_read).1 * info_size
        + envs_size
      ≤ kern_base + page_size * (i386_detect_memory mc146818_read).1)
    (no_list : m.page_free_list ≡ none) where
  abbrev dir : ℕ × ℕ
  dir = boot_alloc kernel_end page_size 0

  abbrev pages : ℕ × ℕ
  pages =
      boot_alloc kernel_end (info_size * (i386_detect_memory mc146818_read).1 % word_mod) (dir.1)

  abbrev envs : ℕ × ℕ
  envs = boot_alloc kernel_end envs_size (pages.1)

  abbrev p : ℕ
  p = pgnum (dir.0 - kern_base)

  -- The memory before the directory's entry for itself is made, and before `page_init`.
  abbrev before_entry : Memory
  before_entry = record m {
    npages_basemem = (i386_detect_memory mc146818_read).0;
    npages = (i386_detect_memory mc146818_read).1;
    kern_pgdir = p;
    words = update m.words p (λ i. 0);
  }

  abbrev with_directory : Memory
  with_directory = set_word p (pdx uvpt) (self_entry (dir.0 - kern_base)) before_entry

  set_up-steps :
      kern_base ≤ dir.0
      → set_up mc146818_read kernel_end info_size envs_size bootstack m
        ≡ done (
          record { pages_at = pages.0; envs_at = envs.0; bootstack = bootstack; nextfree = envs.1 },
          page_init (envs.0) envs_size with_directory,
        )
  unfolding set_up clear_page
  set_up-steps above = ground (arith, paddr-kernel (dir.0) before_entry above)

  set_up-words : with_directory.words p ≡ only_self (self_entry (dir.0 - kern_base))
  unfolding pdx
  set_up-words = fun_ext (λ d. ground arith)

  record Chunks : Type 0 where
    dir_lo : kernel_end ≤ dir.0
    dir_hi : dir.0 < kernel_end + page_size
    dir_whole : dir.0 % page_size ≡ 0
    pages_lo : dir.0 + page_size ≤ pages.0
    pages_whole : pages.0 % page_size ≡ 0
    envs_lo : pages.0 + (i386_detect_memory mc146818_read).1 * info_size ≤ envs.0
    envs_hi :
        envs.0
        < kernel_end + 3 * page_size + (i386_detect_memory mc146818_read).1 * info_size + page_size
    envs_whole : envs.0 % page_size ≡ 0
    next_hi : envs.1 < envs.0 + envs_size + page_size
    next_lo : envs.0 + envs_size ≤ envs.1
    next_whole : envs.1 % page_size ≡ 0

  chunks : Chunks
  chunks =
      let size = info_size * (i386_detect_memory mc146818_read).1 % word_mod in
      let exact : size ≡ (i386_detect_memory mc146818_read).1 * info_size = omega arith in
      let (lo, hi, whole, behind, close, whole') =
        boot_alloc-first kernel_end page_size (omega arith) (omega arith) in
      let (starts, behind2, close2, whole2) =
        boot_alloc-next kernel_end size (dir.1) (omega arith) whole' (omega arith) in
      let (starts3, behind3, close3, whole3) =
        boot_alloc-next kernel_end envs_size (pages.1) (omega arith) whole2 (omega arith) in
      record {
        dir_lo = lo;
        dir_hi = hi;
        dir_whole = whole;
        pages_lo = rw starts behind;
        pages_whole = rw starts whole';
        envs_lo = rw (starts, starts3) (omega arith);
        envs_hi = rw starts3 (omega arith);
        envs_whole = rw starts3 whole2;
        next_hi = rw starts3 close3;
        next_lo = rw starts3 behind3;
        next_whole = whole3;
      }

  -- The page that holds the directory is not free.
  directory_used : (med : ℕ) → Chunks → p < med → is_free_at_boot with_directory med p ≡ false
  unfolding pgnum
  directory_used med c below =
      let above : 256 ≤ p = omega (arith, c.dir_lo, c.dir_whole) in ground arith

  page_exact : Chunks → page_size * p ≡ dir.0 - kern_base
  unfolding pgnum
  page_exact c = omega (arith, c.dir_lo, c.dir_whole)

  abbrev at : KernelData
  at = record { pages_at = pages.0; envs_at = envs.0; bootstack = bootstack; nextfree = envs.1 }

  -- A memory with these words and this free list.
  IsSetUp-made :
      (m' : Memory) (free : List ℕ)
      → KeepsOthers with_directory m'
      → IsFreeList m' free
      → ((q : ℕ) → has q free ≡ is_free_at_boot with_directory (first_free (envs.0) envs_size) q)
      → length free
        ≡ with_directory.npages_basemem
          - 1
          + (with_directory.npages - first_free (envs.0) envs_size)
      → Chunks
      → envs.0 + envs_size ≤ kern_base + first_free (envs.0) envs_size * page_size
      → p < first_free (envs.0) envs_size
      → first_free envs.0 envs_size < (i386_detect_memory mc146818_read).1
      → IsSetUp m' at kernel_end info_size envs_size
  IsSetUp-made m' free keeps list exactly count c behind below inside =
      let same_words : m'.words m'.kern_pgdir ≡ only_self (self_entry (dir.0 - kern_base)) =
        rw (keeps.words, keeps.kern_pgdir) set_up-words in
      let reads = self_entry-reads (dir.0 - kern_base) (omega (arith, c.dir_lo, c.dir_whole)) in
      let exact : page_size * p ≡ dir.0 - kern_base = page_exact c in
      record {
        free = free;
        space = record {
          addressable = rw keeps.npages (omega arith);
          free_list = list;
          is_dir = rw same_words (
              rw keeps.kern_pgdir (
                only_self-IsDir (self_entry (dir.0 - kern_base)) p m'.npages free
                  (rw keeps.npages (omega arith))
                  (exactly p ∙ directory_used (first_free (envs.0) envs_size) c below) (reads.1)));
        };
        bare = λ d ne. rw same_words (ground arith);
        self_there = rw same_words (reads.0);
        self_read_only =
            rw same_words (user_entry-writable _ (omega (arith, c.dir_lo, c.dir_whole)));
        self_names = rw same_words (reads.1 ∙ sym keeps.kern_pgdir);
        behind_kernel = rw keeps.kern_pgdir (omega (arith, c.dir_lo, c.dir_whole));
        pages_behind = rw keeps.kern_pgdir (omega (arith, c.dir_lo, c.pages_lo));
        envs_behind = rw keeps.npages c.envs_lo;
        free_behind = omega arith;
        next_real = omega (arith, c.dir_lo, c.pages_lo, c.envs_lo, c.next_lo);
        next_behind = omega (arith, c.next_hi, c.next_whole);
        pages_whole = c.pages_whole;
        envs_whole = c.envs_whole;
        exactly_free = λ q. rw (keeps.npages, keeps.npages_basemem) (exactly q);
        free_count = rw (keeps.npages, keeps.npages_basemem) count;
        free_inside = rw keeps.npages inside;
      }

  -- If the kernel was loaded at 1 MB, base memory ends below it, the machine has at most 256 MB, and the
  -- kernel, its directory and the two arrays fit in memory, the first part of `mem_init` ends. It leaves a
  -- page directory that holds nothing but its slot for itself; the directory, `pages` and `envs` lie behind
  -- the kernel and one behind the other, on pages; and the free pages are a well-formed list of exactly the
  -- pages of base memory but page 0 and of those behind `envs`.
  pub set_up_lem :
      (m' : Memory) × (set_up mc146818_read kernel_end info_size envs_size bootstack m
        ≡ done (at, m'))
      × IsSetUp m' at kernel_end info_size envs_size
      × (m'.npages ≡ (i386_detect_memory mc146818_read).1)
      × (m'.npages_basemem ≡ (i386_detect_memory mc146818_read).0)
  unfolding pgnum
  set_up_lem =
      let c = chunks in
      let (med_lo, med_hi) =
        first_free_bounds (envs.0) envs_size (omega (arith, c.dir_lo, c.pages_lo, c.envs_lo))
          (omega (arith, c.envs_hi)) in
      let med = first_free (envs.0) envs_size in
      let below : p < med = omega (arith, c.dir_lo, c.dir_whole, c.pages_lo, c.envs_lo) in
      let inside : med < (i386_detect_memory mc146818_read).1 = omega (arith, c.envs_hi) in
      let low : (i386_detect_memory mc146818_read).0 ≤ med = omega (arith, c.dir_lo, c.dir_whole) in
      let (free, list, exactly, count) =
        page_init_lem with_directory (envs.0) envs_size no_list low (omega arith) in
      let keeps = page_init-KeepsOthers with_directory (envs.0) envs_size in
      (
        page_init (envs.0) envs_size with_directory,
        set_up-steps (omega (arith, c.dir_lo)),
        IsSetUp-made (page_init (envs.0) envs_size with_directory) free keeps list exactly count c
            med_lo below inside,
        keeps.npages,
        keeps.npages_basemem,
      )
