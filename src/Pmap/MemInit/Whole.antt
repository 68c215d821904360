-- ===== src/Pmap/MemInit/Whole.antt =====
-- `mem_init` of pmap.c up to `check_kern_pgdir`. `check_page` is a parameter: it tests `page_insert` and
-- `page_remove` on three pages that it takes, and gives them back.
pub mod Keeps
use at_jos.Base.{
  ℕ, zero, suc, ◌-◌, ◌/◌, ◌^◌, ◌≡◌, ◌≢◌, Bool, true, false, not, ◌||◌, ◌&&◌, Option, some, List, [],
  ◌∷◌, ◌==◌, ltb, leb, if◌then◌else◌, ap, ◌∙◌, fun_ext, Bool-cases, inl, inr, bit_and, bit_or, ◌⊎◌,
  length, ◌++◌, replicate, length-append, map,
}
use at_jos.Base.Monad.{done, Cmd, pure, gets, ◌>>=◌, ◌>>◌}
use at_jos.Pmap.State.{Memory}
use at_jos.Pmap.BootAlloc.{boot_alloc}
use at_jos.Pmap.Check.{check_page_alloc}
use at_jos.Pmap.Check.Split.{check_page_free_list}
use at_jos.Pmap.MemInit.{KernelData, map_kernel, check_kern_pgdir}
use at_jos.Pmap.MemInit.Map.{IsKernelSpace}
use at_jos.Pmap.MemInit.SetUp.{set_up}
use at_jos.Pmap.MemInit.SetUp.Laws.{IsSetUp}
use at_jos.Pmap.Check.Same.{IsSameList}

-- `info_size` is sizeof(struct PageInfo), `envs_size` the size of the array `envs`, and `kernel_end` the
-- address of the linker's symbol `end`.
module _ (mc146818_read : ℕ → ℕ) (check_page : Cmd Memory (Unit {0}))
    (kernel_end info_size envs_size : ℕ) where
  -- The loops along the free list have fuel for every page. `pp1` and `pp2` are what the variables of
  -- `check_page_free_list` hold before it writes them.
  unfoldable pub mem_init : ℕ → ℕ → ℕ → Cmd Memory KernelData
  mem_init bootstack pp1 pp2 = do
    at ← set_up mc146818_read kernel_end info_size envs_size bootstack
    npages ← gets (λ m. m.npages)
    let first_free_page = (boot_alloc kernel_end 0 (at.nextfree)).0
    check_page_free_list npages first_free_page pp1 pp2 true
    check_page_alloc npages
    check_page
    map_kernel at
    check_kern_pgdir info_size envs_size at
    pure at

-- What `mem_init` relies on: on a machine that is set up, the test passes, and it gives back the pages
-- that it took and changes no words but those of free pages.
abbrev pub Passes : Cmd Memory (Unit {0}) → ℕ → ℕ → ℕ → Type 0
Passes check_page kernel_end info_size envs_size =
    (m : Memory) (at : KernelData) (ready : IsSetUp m at kernel_end info_size envs_size)
    → (m' : Memory) × (check_page m ≡ done (tt, m')) × IsSameList m m' ready.free

-- A run of `mem_init`, with the memory after each part: `m1` after the first part, `m2`, `m3` and `m4`
-- after the checks, `m5` after the mappings, which the last check leaves alone.
pub record IsRun (mc146818_read : ℕ → ℕ) (check_page : Cmd Memory (Unit {0}))
    (kernel_end info_size envs_size bootstack pp1 pp2 : ℕ) (m : Memory) (at : KernelData)
    (m5 : Memory) : Type 0 where
  pub m1 : Memory
  pub m2 : Memory
  pub m3 : Memory
  pub m4 : Memory
  pub first_part : set_up mc146818_read kernel_end info_size envs_size bootstack m ≡ done (at, m1)
  pub list_check :
      check_page_free_list m1.npages ((boot_alloc kernel_end 0 at.nextfree).0) pp1 pp2 true m1
      ≡ done (tt, m2)
  pub alloc_check : check_page_alloc m1.npages m2 ≡ done (tt, m3)
  pub page_check : check_page m3 ≡ done (tt, m4)
  pub mappings : map_kernel at m4 ≡ done (tt, m5)
  pub mappings_check : check_kern_pgdir info_size envs_size at m5 ≡ done (tt, m5)
  pub stack : at.bootstack ≡ bootstack
  pub set_up_before : IsSetUp m1 at kernel_end info_size envs_size
  pub set_up_after : IsSetUp m4 at kernel_end info_size envs_size
  pub kernel_space : IsKernelSpace m4 m5 at
