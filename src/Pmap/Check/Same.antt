-- ===== src/Pmap/Check/Same.antt =====
-- What the checks of the page allocator in pmap.c leave of the free list.
use at_jos.Base.{ℕ, ◌≡◌, false, List, length}
use at_jos.Pmap.State.{Memory}
use at_jos.Pmap.Alloc.FreeList.{IsFreeList, has}

-- The pages of the list are the same as before, and only words of free pages have changed.
pub record IsSameList (m m' : Memory) (free : List ℕ) : Type 0 where
  pub free' : List ℕ
  pub list : IsFreeList m' free'
  pub same_pages : (p : ℕ) → has p free' ≡ has p free
  pub refs : (p : ℕ) → (m'.pages p).pp_ref ≡ (m.pages p).pp_ref
  pub words : (p : ℕ) → has p free ≡ false → m'.words p ≡ m.words p
  pub count : length free' ≡ length free
  pub npages : m'.npages ≡ m.npages
  pub npages_basemem : m'.npages_basemem ≡ m.npages_basemem
  pub kern_pgdir : m'.kern_pgdir ≡ m.kern_pgdir
