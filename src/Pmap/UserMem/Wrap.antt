-- ===== src/Pmap/UserMem/Wrap.antt =====
-- A range that wraps past the top of the address space is accepted unseen.
use at_jos.Base.{ℕ, suc, ◌+◌, ◌-◌, ◌*◌, ◌%◌, ◌≤◌, ◌<◌, ◌≡◌, false, ltb, arith}
use at_jos.Base.Int.{pos}
use at_jos.Base.Monad.{done}
use at_jos.Pmap.Addr.{page_size, word_mod, round_down, round_up}
use at_jos.Pmap.State.{Memory}
use at_jos.Pmap.UserMem.{check_pages, user_mem_check}

pub check_pages-empty :
    (fuel pgdir va perm start end : ℕ) (m : Memory)
    → end ≤ start
    → check_pages (suc fuel) pgdir va perm start end m ≡ done (pos 0, m)
unfolding check_pages
check_pages-empty fuel pgdir va perm start end m h =
    let stop : ltb start end ≡ false = ground arith in rw stop

wrapped_end :
    (va len : ℕ)
    → va < word_mod
    → word_mod ≤ va + len + (page_size - 1)
    → len + 2 * page_size ≤ word_mod
    → round_up ((va + len) % word_mod) page_size ≤ round_down va page_size
unfolding round_up
wrapped_end va len small over short = omega arith

-- If the end of the range, rounded up to a page, passes 2 ^ 32, and the range is at most
-- 2 ^ 32 - 2 * PGSIZE long, `user_mem_check` looks at no page and answers 0, whatever the page
-- tables hold, also for addresses of the kernel.
pub user_mem_check-wraps :
    (pgdir va len perm : ℕ) (m : Memory)
    → va < word_mod
    → word_mod ≤ va + len + (page_size - 1)
    → len + 2 * page_size ≤ word_mod
    → user_mem_check pgdir va len perm m ≡ done (pos 0, m)
unfolding user_mem_check
user_mem_check-wraps pgdir va len perm m small over short =
    check_pages-empty _ pgdir va perm _ _ m (wrapped_end va len small over short)
