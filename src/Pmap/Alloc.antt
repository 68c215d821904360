-- ===== src/Pmap/Alloc.antt =====
-- The page allocator of pmap.c: `page_alloc`, `page_free`, `page_decref` and `page_init`.
pub mod FreeList
pub mod Laws
pub mod Init
use at_jos.Base.{ℕ, zero, suc, ◌+◌, ◌-◌, ◌/◌, ◌%◌, Option, none, some, ◌==◌, if◌then◌else◌}
use at_jos.Base.Monad.{Outcome, Cmd, ◌>>=◌, ◌>>◌, pure, gets, modify}
use at_jos.Pmap.Addr.{has_flag, page_size, round_up, word_mod, kern_base}
use at_jos.Pmap.State.{PageInfo, Memory, update, set_page, set_ref, page2kva}

-- ALLOC_ZERO
abbrev pub alloc_zero : ℕ
alloc_zero = 1

-- `memset(kva, 0, PGSIZE)` at the start of a page.
unfoldable pub clear_page : ℕ → Cmd Memory (Unit {0})
clear_page p = modify (λ m. record m { words = update m.words p (λ i. 0) })

-- The head of the list goes, and is cleared if the flags ask for it.
take_head : ℕ → ℕ → Cmd Memory (Option ℕ)
unfolding clear_page
take_head flags ret = do
  modify (λ m. record m { page_free_list = (m.pages ret).pp_link })
  if has_flag flags alloc_zero then (do p ← page2kva ret; clear_page p) else pure tt
  pure (some ret)

unfoldable pub page_alloc : ℕ → Cmd Memory (Option ℕ)
unfolding take_head
page_alloc alloc_flags m = elim m.page_free_list [
  | none ↦ pure none m
  | some ret ↦ take_head alloc_flags ret m
]

unfoldable pub page_free : ℕ → Cmd Memory (Unit {0})
page_free pp m = pure tt (record m {
  pages = update m.pages pp (record { pp_ref = (m.pages pp).pp_ref; pp_link = m.page_free_list });
  page_free_list = some pp;
})

-- `--pp->pp_ref` wraps at the width of the counter.
unfoldable pub page_decref : ℕ → Cmd Memory (Unit {0})
unfolding page_free
page_decref pp m =
    let ref = ((m.pages pp).pp_ref + m.ref_mod - 1) % m.ref_mod in
    if ref == 0 then page_free pp (set_ref pp ref m) else pure tt (set_ref pp ref m)

-- One round of the loops of `page_init`.
abbrev pub link_page : ℕ → Memory → Memory
link_page i m = record m {
  pages = update m.pages i (record { pp_ref = 0; pp_link = m.page_free_list });
  page_free_list = some i;
}

-- `for (; i < i + rounds; i++)`
unfoldable pub link_pages : ℕ → ℕ → Memory → Memory
link_pages zero i m = m
link_pages (suc rounds) i m = link_pages rounds (i + 1) (link_page i m)

-- The first page behind the array `envs`, at `envs_va` and of `envs_size` bytes.
unfoldable pub first_free : ℕ → ℕ → ℕ
first_free envs_va envs_size =
    round_up ((envs_va + envs_size + word_mod - kern_base) % word_mod) page_size / page_size

unfoldable pub page_init : ℕ → ℕ → Memory → Memory
unfolding link_pages
page_init envs_va envs_size m =
    let low = link_pages (m.npages_basemem - 1) 1 m in
    let med = first_free envs_va envs_size in link_pages (m.npages - med) med low
