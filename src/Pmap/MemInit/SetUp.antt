-- ===== src/Pmap/MemInit/SetUp.antt =====
-- The first part of `mem_init` of pmap.c: the memory of the machine, the page directory, the arrays
-- `pages` and `envs`, and the list of free pages.
pub mod Directory
pub mod Laws
use at_jos.Base.{ℕ, ◌-◌, ◌*◌, ◌%◌, bit_or}
use at_jos.Base.Bits.{or-page, or_step}
use at_jos.Base.Monad.{done, Cmd, pure, ◌>>=◌, ◌>>◌, gets, modify}
use at_jos.Pmap.Addr.{
  page_size, word_mod, kern_base, ext_phys_mem, uvpt, pte_u, pte_w, pdx, pte_p, has_flag, pte_addr,
  pgnum, present_iff, round_up, round_up_bounds,
}
use at_jos.Pmap.State.{Memory, paddr, set_word, update}
use at_jos.Pmap.BootAlloc.{boot_alloc, boot_alloc-first, boot_alloc-next, boot_alloc-starts}
use at_jos.Pmap.Detect.{i386_detect_memory}
use at_jos.Pmap.Alloc.{clear_page, page_init, first_free}
use at_jos.Pmap.Alloc.FreeList.{IsFreeList, has}
use at_jos.Pmap.Alloc.Init.{
  page_init_lem, KeepsOthers, page_init-KeepsOthers, is_free_at_boot, first_free_bounds,
}
use at_jos.Pmap.Table.{store}
use at_jos.Pmap.Table.Space.{IsDir, IsSpace, entry, self_index, present, table_of}
use at_jos.Pmap.MemInit.{KernelData}
use at_jos.Pmap.MemInit.Map.{paddr-kernel}

-- `info_size` is sizeof(struct PageInfo), `envs_size` the size of the array `envs`, and `kernel_end` the
-- address of the linker's symbol `end`.
module _ (mc146818_read : ℕ → ℕ) (kernel_end info_size envs_size : ℕ) where
  -- The sizes that `i386_detect_memory` stores.
  detect : Cmd Memory (Unit {0})
  detect =
      let sizes = i386_detect_memory mc146818_read in
      modify (λ m. record m { npages_basemem = sizes.0; npages = sizes.1 })

  -- `kern_pgdir`, at the address `dir`: cleared, and mapped by itself at UVPT.
  make_directory : ℕ → Cmd Memory (Unit {0})
  make_directory dir = do
    modify (λ m. record m { kern_pgdir = pgnum (dir - kern_base) })
    clear_page (pgnum (dir - kern_base))
    pa ← paddr dir
    store (pgnum (dir - kern_base)) (pdx uvpt) (bit_or (bit_or pa pte_u) pte_p)

  unfoldable pub set_up : ℕ → Cmd Memory KernelData
  unfolding detect make_directory
  set_up bootstack = do
    detect
    npages ← gets (λ m. m.npages)
    let dir = boot_alloc kernel_end page_size 0
    let pages = boot_alloc kernel_end (info_size * npages % word_mod) (dir.1)
    let envs = boot_alloc kernel_end envs_size (pages.1)
    make_directory (dir.0)
    modify (page_init (envs.0) envs_size)
    pure (record { pages_at = pages.0; envs_at = envs.0; bootstack = bootstack; nextfree = envs.1 })
