-- ===== src/Pmap/MemInit.antt =====
-- The mappings that `mem_init` of pmap.c makes, and `check_kern_pgdir`, which reads them back.
pub mod Map
pub mod Runs
pub mod Check
pub mod Flags
pub mod SetUp
pub mod Whole
pub mod Access
use at_jos.Base.{ℕ, zero, suc, ◌+◌, ◌-◌, ◌*◌, ◌/◌, ◌%◌, ◌||◌, ◌==◌, leb, if◌then◌else◌}
use at_jos.Base.Monad.{Cmd, ◌>>=◌, ◌>>◌, gets, pure, assert}
use at_jos.Pmap.Addr.{
  page_size, word_mod, kern_base, upages, uenvs, table_size, kstack_top, kstack_size, pte_u, pte_w,
  pte_p, pdx, uvpt, has_flag, round_up, table_entries,
}
use at_jos.Pmap.State.{Memory, paddr}
use at_jos.Pmap.Table.{boot_map_region, check_va2pa, load, no_address}

-- Where the arrays `pages` and `envs` and the stack `bootstack` lie, as kernel addresses, and the
-- variable of `boot_alloc`.
pub record KernelData : Type 0 where
  pub pages_at : ℕ
  pub envs_at : ℕ
  pub bootstack : ℕ
  pub nextfree : ℕ

-- `mem_init` from the mapping of `pages` to that of all of physical memory; `-KERNBASE` is what is left
-- of the addresses.
unfoldable pub map_kernel : KernelData → Cmd Memory (Unit {0})
map_kernel at = do
  kern_pgdir ← gets (λ m. m.kern_pgdir)
  pages_pa ← paddr at.pages_at
  boot_map_region kern_pgdir upages table_size pages_pa pte_u
  envs_pa ← paddr at.envs_at
  boot_map_region kern_pgdir uenvs table_size envs_pa pte_u
  stack_pa ← paddr at.bootstack
  boot_map_region kern_pgdir (kstack_top - kstack_size) kstack_size stack_pa pte_w
  boot_map_region kern_pgdir kern_base (word_mod - kern_base) 0 pte_w

-- `for (i = 0; ...; i += PGSIZE) assert(check_va2pa(pgdir, va + i) == pa + i)`, with `rounds` rounds left;
-- `pa` is computed in each of them.
unfoldable pub check_run : ℕ → ℕ → Cmd Memory ℕ → ℕ → ℕ → Cmd Memory (Unit {0})
check_run pgdir va pa zero i = pure tt
check_run pgdir va pa (suc rounds) i = do
  found ← check_va2pa pgdir ((va + i) % word_mod)
  base ← pa
  assert (found == (base + i) % word_mod)
  check_run pgdir va pa rounds (i + page_size)

-- The `switch` of `check_kern_pgdir` at directory slot `i`.
unfoldable pub check_slot : ℕ → ℕ → Cmd Memory (Unit {0})
check_slot i pde =
    if ((i == pdx uvpt) || (i == pdx (kstack_top - 1))) || ((i == pdx upages) || (i == pdx uenvs))
    then assert (has_flag pde pte_p)
    else if leb (pdx kern_base) i
    then (do assert (has_flag pde pte_p); assert (has_flag pde pte_w))
    else assert (pde == 0)

unfoldable pub check_slots : ℕ → ℕ → ℕ → Cmd Memory (Unit {0})
check_slots pgdir zero i = pure tt
check_slots pgdir (suc rounds) i = do
  pde ← load pgdir i
  check_slot i pde
  check_slots pgdir rounds (i + 1)

-- `info_size` is sizeof(struct PageInfo), and `envs_size` the size of the array `envs`.
unfoldable pub check_kern_pgdir : ℕ → ℕ → KernelData → Cmd Memory (Unit {0})
check_kern_pgdir info_size envs_size at = do
  pgdir ← gets (λ m. m.kern_pgdir)
  npages ← gets (λ m. m.npages)
  check_run pgdir upages (paddr at.pages_at)
      (round_up (npages * info_size % word_mod) page_size / page_size) 0
  check_run pgdir uenvs (paddr at.envs_at) (round_up envs_size page_size / page_size) 0
  check_run pgdir kern_base (pure 0) (npages * page_size % word_mod / page_size) 0
  check_run pgdir (kstack_top - kstack_size) (paddr at.bootstack) (kstack_size / page_size) 0
  guard_page ← check_va2pa pgdir (kstack_top - table_size)
  assert (guard_page == no_address)
  check_slots pgdir table_entries 0
