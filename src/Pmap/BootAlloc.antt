-- ===== src/Pmap/BootAlloc.antt =====
-- The allocator that runs before `page_init`, pmap.c.
use at_jos.Base.{ℕ, ◌+◌, ◌*◌, ◌%◌, ◌≤◌, ◌<◌, ◌≡◌, ◌==◌, false, if◌then◌else◌, arith}
use at_jos.Pmap.Addr.{page_size, word_mod, round_up, round_up_bounds}

-- `nextfree` is 0 before the first call, and `kernel_end` the address of the linker's symbol `end`. The
-- results are the address returned and the new `nextfree`.
unfoldable pub boot_alloc : ℕ → ℕ → ℕ → ℕ × ℕ
boot_alloc kernel_end n nextfree =
    let free_from = if nextfree == 0 then round_up kernel_end page_size else nextfree in
    (free_from, if n == 0 then free_from else round_up ((free_from + n) % word_mod) page_size)

-- The first chunk starts on a page at the end of the kernel.
pub boot_alloc-first :
    (kernel_end n : ℕ)
    → 0 < kernel_end
    → kernel_end + n + 2 * page_size < word_mod
    → let r = boot_alloc kernel_end n 0 in
      (kernel_end ≤ r.0)
      × (r.0 < kernel_end + page_size)
      × (r.0 % page_size ≡ 0)
      × (r.0 + n ≤ r.1)
      × (r.1 < r.0 + n + page_size)
      × (r.1 % page_size ≡ 0)
unfolding boot_alloc
boot_alloc-first kernel_end n real low =
    let r = round_up kernel_end page_size in
    let b = round_up_bounds kernel_end (omega arith) in
    let inside : (r + n) % word_mod ≡ r + n = omega arith in
    let c = round_up_bounds (r + n) (omega arith) in rw inside (ground arith)

pub boot_alloc-starts :
    (kernel_end n nextfree : ℕ) → 0 < nextfree → (boot_alloc kernel_end n nextfree).0 ≡ nextfree
unfolding boot_alloc
boot_alloc-starts kernel_end n nextfree real = ground arith

-- Each next chunk starts where the last one ended.
pub boot_alloc-next :
    (kernel_end n nextfree : ℕ)
    → 0 < nextfree
    → nextfree % page_size ≡ 0
    → nextfree + n + page_size < word_mod
    → let r = boot_alloc kernel_end n nextfree in
      (r.0 ≡ nextfree)
      × (nextfree + n ≤ r.1)
      × (r.1 < nextfree + n + page_size)
      × (r.1 % page_size ≡ 0)
unfolding boot_alloc
boot_alloc-next kernel_end n nextfree real whole low =
    let real' : (nextfree == 0) ≡ false = ground arith in
    let inside : (nextfree + n) % word_mod ≡ nextfree + n = omega arith in
    let c = round_up_bounds (nextfree + n) (omega arith) in rw (real', inside) (ground arith)

-- If the memory asked for ends at least a page before 2 ^ 32, the first `boot_alloc` returns the first
-- page boundary at or above the end of the kernel, and whatever is asked for next starts at the first
-- page boundary behind the memory returned.
pub boot_alloc_lem :
    (kernel_end n k : ℕ)
    → 0 < kernel_end
    → kernel_end + n + 2 * page_size < word_mod
    → let first = boot_alloc kernel_end n 0 in
      let second = boot_alloc kernel_end k first.1 in
      (kernel_end ≤ first.0)
      × (first.0 < kernel_end + page_size)
      × (first.0 % page_size ≡ 0)
      × (first.0 + n ≤ second.0)
      × (second.0 < first.0 + n + page_size)
      × (second.0 % page_size ≡ 0)
boot_alloc_lem kernel_end n k real low =
    let first = boot_alloc kernel_end n 0 in
    let (lo, hi, whole, behind, close, whole') = boot_alloc-first kernel_end n real (omega arith) in
    rw (boot_alloc-starts kernel_end k (first.1) (omega arith))
      (lo, hi, whole, behind, close, whole')
