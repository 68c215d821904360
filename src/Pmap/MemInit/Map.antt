-- ===== src/Pmap/MemInit/Map.antt =====
-- The address space of the kernel that `mem_init` of pmap.c sets up.
use at_jos.Base.{
  ℕ, ◌+◌, ◌-◌, ◌*◌, ◌/◌, ◌≤◌, ◌<◌, ◌≡◌, refl, ◌≢◌, List, arith, ap, ◌∙◌, inl, inr, ◌⊎◌, length,
}
use at_jos.Base.Monad.{done}
use at_jos.Pmap.Addr.{
  word_mod, kern_base, upages, uenvs, uvpt, table_size, kstack_top, kstack_size, pte_u, pte_w, pdx,
}
use at_jos.Pmap.State.{Memory, paddr}
use at_jos.Pmap.Table.{boot_map_region}
use at_jos.Pmap.Table.Entry.{IsPlain}
use at_jos.Pmap.Table.Space.{IsSpace, entry, self_index}
use at_jos.Pmap.Table.Region.{entry_for}
use at_jos.Pmap.Table.Region.Loop.{IsRegion, boot_map_region_lem}
use at_jos.Pmap.MemInit.{KernelData, map_kernel}

-- The kernel's address space, made from a directory in which only the slot for itself is set.
pub record IsKernelSpace (m m' : Memory) (at : KernelData) : Type 0 where
  pub free' : List ℕ
  pub space : IsSpace m' m.kern_pgdir free'
  pub pages_there :
      (a : ℕ)
      → upages ≤ a
      → a < uvpt
      → entry m' m.kern_pgdir a
        ≡ entry_for (at.pages_at - kern_base + (a - upages) / 4096 * 4096) pte_u
  pub envs_there :
      (a : ℕ)
      → uenvs ≤ a
      → a < upages
      → entry m' m.kern_pgdir a
        ≡ entry_for (at.envs_at - kern_base + (a - uenvs) / 4096 * 4096) pte_u
  pub stack_there :
      (a : ℕ)
      → kstack_top - kstack_size ≤ a
      → a < kstack_top
      → entry m' m.kern_pgdir a
        ≡ entry_for
            (at.bootstack - kern_base + (a - (kstack_top - kstack_size)) / 4096 * 4096)
            pte_w
  pub memory_there :
      (a : ℕ)
      → kern_base ≤ a
      → a < word_mod
      → entry m' m.kern_pgdir a ≡ entry_for ((a - kern_base) / 4096 * 4096) pte_w
  pub nothing_else :
      (a : ℕ)
      → a < word_mod
      → pdx a ≢ self_index
      → (a < uenvs) ⊎ ((uvpt ≤ a) × (a < kstack_top - kstack_size))
      → entry m' m.kern_pgdir a ≡ 0
  pub slots_empty :
      (d : ℕ)
      → d < pdx uenvs ⊎ ((pdx uvpt < d) × (d < pdx (kstack_top - 1)))
      → m'.words m.kern_pgdir d ≡ 0
  pub self_kept : m'.words m.kern_pgdir self_index ≡ m.words m.kern_pgdir self_index
  pub slots_plain : (d : ℕ) → d ≢ self_index → IsPlain (m'.words m.kern_pgdir d)
  pub npages : m'.npages ≡ m.npages
  pub kern_pgdir : m'.kern_pgdir ≡ m.kern_pgdir

pub paddr-kernel : (a : ℕ) (m : Memory) → kern_base ≤ a → paddr a m ≡ done (a - kern_base, m)
unfolding paddr
paddr-kernel a m above = ground arith

map_kernel-steps :
    (m m1 m2 m3 m4 : Memory) (at : KernelData)
    → kern_base ≤ at.pages_at
    → kern_base ≤ at.envs_at
    → kern_base ≤ at.bootstack
    → boot_map_region m.kern_pgdir upages table_size (at.pages_at - kern_base) pte_u m
      ≡ done (tt, m1)
    → boot_map_region m.kern_pgdir uenvs table_size (at.envs_at - kern_base) pte_u m1
      ≡ done (tt, m2)
    → boot_map_region m.kern_pgdir
        (kstack_top - kstack_size)
        kstack_size
        (at.bootstack - kern_base)
        pte_w
        m2
      ≡ done (tt, m3)
    → boot_map_region m.kern_pgdir kern_base (word_mod - kern_base) 0 pte_w m3 ≡ done (tt, m4)
    → map_kernel at m ≡ done (tt, m4)
unfolding map_kernel
map_kernel-steps m m1 m2 m3 m4 at p e s e1 e2 e3 e4 = ground (
  arith,
  paddr-kernel at.pages_at m p,
  e1,
  paddr-kernel at.envs_at m1 e,
  e2,
  paddr-kernel at.bootstack m2 s,
  e3,
  e4,
)

entry-none : (m : Memory) (pgdir a : ℕ) → m.words pgdir (pdx a) ≡ 0 → entry m pgdir a ≡ 0
entry-none m pgdir a e = rw e refl

-- The four regions one after the other.
module _ (m m1 m2 m3 m4 : Memory) (at : KernelData)
    (bare : (d : ℕ) → d ≢ self_index → m.words m.kern_pgdir d ≡ 0)
    (r1 : IsRegion m m1 m.kern_pgdir 1024 upages (at.pages_at - kern_base) pte_u)
    (r2 : IsRegion m1 m2 m.kern_pgdir 1024 uenvs (at.envs_at - kern_base) pte_u)
    (r3 : IsRegion m2 m3 m.kern_pgdir 8 (kstack_top - kstack_size) (at.bootstack - kern_base) pte_w)
    (r4 : IsRegion m3 m4 m.kern_pgdir 65536 kern_base 0 pte_w) where
  -- The slots that no region has.
  kept-all :
      (d : ℕ)
      → (d < 955) ⊎ ((957 ≤ d) × (d < 959))
      → m4.words m.kern_pgdir d ≡ m.words m.kern_pgdir d
  unfolding pdx
  kept-all d off =
      r4.kept d (λ k lt. ground arith)
      ∙ r3.kept d (λ k lt. ground arith)
      ∙ r2.kept d (λ k lt. ground arith)
      ∙ r1.kept d (λ k lt. ground arith)

  user : (a : ℕ) → a < word_mod → (a < uvpt) ⊎ (uvpt + table_size ≤ a) → pdx a ≢ self_index
  unfolding pdx
  user a small off = elim off [ inl lo ↦ omega arith | inr hi ↦ omega arith ]

  map_kernel-IsKernelSpace : IsKernelSpace m m4 at
  unfolding pdx
  map_kernel-IsKernelSpace = record {
    free' = r4.free';
    space = r4.space;
    pages_there = λ a lo hi.
        let u = user a (omega arith) (inl hi) in
        r4.outside a (omega arith) u (inl (omega arith))
        ∙ r3.outside a (omega arith) u (inl (omega arith))
        ∙ r2.outside a (omega arith) u (inr (omega arith))
        ∙ r1.inside a lo (omega arith);
    envs_there = λ a lo hi.
        let u = user a (omega arith) (inl (omega arith)) in
        r4.outside a (omega arith) u (inl (omega arith))
        ∙ r3.outside a (omega arith) u (inl (omega arith))
        ∙ r2.inside a lo (omega arith);
    stack_there = λ a lo hi.
        let u = user a (omega arith) (inr (omega arith)) in
        r4.outside a (omega arith) u (inl (omega arith)) ∙ r3.inside a lo (omega arith);
    memory_there =
        λ a lo hi. r4.inside a lo (omega arith) ∙ ap (λ b. entry_for b pte_w) (omega arith);
    nothing_else = λ a small u off.
        r4.outside a small u (ground arith)
        ∙ r3.outside a small u (ground arith)
        ∙ r2.outside a small u (ground arith)
        ∙ r1.outside a small u (ground arith)
        ∙ entry-none m m.kern_pgdir a (bare (pdx a) u);
    slots_empty = λ d off. kept-all d (ground arith) ∙ bare d (ground arith);
    self_kept = kept-all self_index (inr (omega arith));
    slots_plain = λ d ne. r4.plain d (r3.plain d (r2.plain d (r1.plain d (inl (bare d ne)))));
    npages = r4.npages ∙ r3.npages ∙ r2.npages ∙ r1.npages;
    kern_pgdir = r4.kern_pgdir ∙ r3.kern_pgdir ∙ r2.kern_pgdir ∙ r1.kern_pgdir;
  }

-- With an empty directory but for its slot for itself, 67 free pages for page tables, and `pages`, `envs`
-- and the stack at kernel addresses, the mappings of `mem_init` are all made. `pages` and `envs` are then
-- readable by the user at UPAGES and UENVS, the stack is writable by the kernel below KSTACKTOP, and all
-- of physical memory at KERNBASE; every other address but those of the self-map is unmapped, the page
-- below the stack included.
pub map_kernel_lem :
    (m : Memory) (at : KernelData) (free : List ℕ)
    → IsSpace m m.kern_pgdir free
    → ((d : ℕ) → d ≢ self_index → m.words m.kern_pgdir d ≡ 0)
    → 67 ≤ length free
    → (kern_base ≤ at.pages_at) × (at.pages_at < word_mod)
    → (kern_base ≤ at.envs_at) × (at.envs_at < word_mod)
    → (kern_base ≤ at.bootstack) × (at.bootstack < word_mod)
    → (m' : Memory) × (map_kernel at m ≡ done (tt, m')) × IsKernelSpace m m' at
unfolding pdx
map_kernel_lem m at free space bare enough pages_fit envs_fit stack_fits =
    let (m1, e1, r1, u1) =
      boot_map_region_lem m m.kern_pgdir upages table_size (at.pages_at - kern_base) pte_u free
        space (omega arith) (omega arith) (omega arith) (omega arith) (omega arith)
        (λ a lo hi. omega arith) (omega arith) in
    let (m2, e2, r2, u2) =
      boot_map_region_lem m1 m.kern_pgdir uenvs table_size (at.envs_at - kern_base) pte_u r1.free'
        r1.space (omega arith) (omega arith) (omega arith) (omega arith) (omega arith)
        (λ a lo hi. omega arith) (omega arith) in
    let (m3, e3, r3, u3) =
      boot_map_region_lem m2 m.kern_pgdir (kstack_top - kstack_size) kstack_size
        (at.bootstack - kern_base) pte_w r2.free' r2.space (omega arith) (omega arith) (omega arith)
        (omega arith) (omega arith) (λ a lo hi. omega arith) (omega arith) in
    let (m4, e4, r4, u4) =
      boot_map_region_lem m3 m.kern_pgdir kern_base (word_mod - kern_base) 0 pte_w r3.free' r3.space
        (omega arith) (omega arith) (omega arith) (omega arith) (omega arith)
        (λ a lo hi. omega arith) (omega arith) in
    (
      m4,
      map_kernel-steps m m1 m2 m3 m4 at (pages_fit.0) (envs_fit.0) (stack_fits.0) e1 e2 e3 e4,
      map_kernel-IsKernelSpace m m1 m2 m3 m4 at bare r1 r2 r3 r4,
    )
