-- ===== src/Pmap/MemInit/Check.antt =====
-- `check_kern_pgdir` of pmap.c on the address space that `mem_init` sets up.
use at_jos.Base.{
  ℕ, ◌+◌, ◌-◌, ◌*◌, ◌/◌, ◌%◌, ◌^◌, ◌≤◌, ◌<◌, ◌≡◌, refl, ◌≢◌, true, arith, ap, ◌∙◌, sym, inl, inr,
  ◌⊎◌,
}
use at_jos.Base.Monad.{done, Cmd, pure}
use at_jos.Pmap.Addr.{
  page_size, word_mod, kern_base, upages, uenvs, table_size, kstack_top, kstack_size, pte_u, pte_w,
  pdx, pte_p, has_flag, round_up, table_entries,
}
use at_jos.Pmap.State.{Memory, paddr}
use at_jos.Pmap.Table.{check_va2pa, no_address}
use at_jos.Pmap.Table.Entry.{present-zero}
use at_jos.Pmap.Table.Slots.{present_of_entry}
use at_jos.Pmap.Table.Space.{entry, self_index}
use at_jos.Pmap.Table.Region.{entry_for}
use at_jos.Pmap.MemInit.{KernelData, check_run, check_slot, check_slots, check_kern_pgdir}
use at_jos.Pmap.MemInit.Map.{IsKernelSpace, paddr-kernel}
use at_jos.Pmap.MemInit.Runs.{
  entry_for-reads, check_va2pa-there, check_va2pa-gone, check_run_lem, check_slots_lem,
  listed-passes, high-passes, low-passes,
}

-- The kinds of directory slot that the check knows.
slot_cases :
    (k : ℕ)
    → ((k < 955) ⊎ (k ≡ 958)) ⊎ (((k ≡ 955) ⊎ (k ≡ 956)) ⊎ (((k ≡ 957) ⊎ (k ≡ 959)) ⊎ (960 ≤ k)))
slot_cases k = ground arith

module _ (m m' : Memory) (at : KernelData) (is : IsKernelSpace m m' at) where
  -- A page that is mapped has its directory slot.
  slot-there :
      (a pa perm : ℕ)
      → pa % 4096 ≡ 0
      → perm < 4096
      → entry m' m.kern_pgdir a ≡ entry_for pa perm
      → has_flag (m'.words m.kern_pgdir (pdx a)) pte_p ≡ true
  slot-there a pa perm whole low e =
      present_of_entry m' m.kern_pgdir a is.space (rw e ((entry_for-reads pa perm whole low).0))

  plain-writable :
      (d : ℕ)
      → d ≢ self_index
      → has_flag (m'.words m.kern_pgdir d) pte_p ≡ true
      → has_flag (m'.words m.kern_pgdir d) pte_w ≡ true
  plain-writable d ne there = elim (is.slots_plain d ne) [
    | inl empty ↦ cc (rw empty at there, present-zero)
    | inr both ↦ both.1
  ]

  run-there :
      (va base perm size rounds : ℕ) (pa : Cmd Memory ℕ)
      → 4096 * rounds ≤ size
      → va + size ≤ word_mod
      → base + size ≤ word_mod
      → base % 4096 ≡ 0
      → perm < 4096
      → ((a : ℕ)
          → va ≤ a
          → a < va + size
          → entry m' m.kern_pgdir a ≡ entry_for (base + (a - va) / 4096 * 4096) perm)
      → pa m' ≡ done (base, m')
      → check_run m.kern_pgdir va pa rounds 0 m' ≡ done (tt, m')
  run-there va base perm size rounds pa short fits fits' whole low entries known =
      check_run_lem m' m.kern_pgdir va base pa rounds 0 known (λ k lo hi same.
        let at_k : (va + k) % word_mod ≡ va + k = omega arith in
        let to_k : (base + k) % word_mod ≡ base + (va + k - va) / 4096 * 4096 = omega arith in
        let read =
          check_va2pa-there m' m.kern_pgdir (va + k) (base + (va + k - va) / 4096 * 4096) perm
            is.space (entries (va + k) (omega arith) (omega arith)) (omega arith) low in
        ap (λ a. check_va2pa m.kern_pgdir a m') at_k ∙ read ∙ ap (λ a. done (a, m')) (sym to_k))

  module _ (self : has_flag (m.words m.kern_pgdir self_index) pte_p ≡ true)
      (pages_at : (kern_base ≤ at.pages_at) × (at.pages_at % 4096 ≡ 0) × (at.pages_at < word_mod))
      (envs_at : (kern_base ≤ at.envs_at) × (at.envs_at % 4096 ≡ 0) × (at.envs_at < word_mod))
      (stack_at : (kern_base ≤ at.bootstack)
        × (at.bootstack % 4096 ≡ 0)
        × (at.bootstack < word_mod)) where
    low_empty : (k : ℕ) → (k < 955) ⊎ (k ≡ 958) → m'.words m.kern_pgdir k ≡ 0
    unfolding pdx
    low_empty k low = is.slots_empty k (ground arith)

    uenvs_there : has_flag (m'.words m.kern_pgdir 955) pte_p ≡ true
    unfolding pdx
    uenvs_there =
        slot-there uenvs _ pte_u (omega arith) (omega arith)
          (is.envs_there uenvs (omega arith) (omega arith))

    upages_there : has_flag (m'.words m.kern_pgdir 956) pte_p ≡ true
    unfolding pdx
    upages_there =
        slot-there upages _ pte_u (omega arith) (omega arith)
          (is.pages_there upages (omega arith) (omega arith))

    self_there : has_flag (m'.words m.kern_pgdir 957) pte_p ≡ true
    self_there = rw is.self_kept self

    stack_there : has_flag (m'.words m.kern_pgdir 959) pte_p ≡ true
    unfolding pdx
    stack_there =
        slot-there (kstack_top - 1) _ pte_w (omega arith) (omega arith)
          (is.stack_there (kstack_top - 1) (omega arith) (omega arith))

    high_there : (k : ℕ) → 960 ≤ k → k < 1024 → has_flag (m'.words m.kern_pgdir k) pte_p ≡ true
    unfolding pdx
    high_there k lo hi =
        let slot : pdx (k * 2 ^ 22) ≡ k = omega arith in
        rw slot at (
          slot-there (k * 2 ^ 22) _ pte_w (omega arith) (omega arith)
            (is.memory_there (k * 2 ^ 22) (omega arith) (omega arith)))

    slot-passes : (k : ℕ) → k < 1024 → check_slot k (m'.words m.kern_pgdir k) m' ≡ done (tt, m')
    slot-passes k small = elim (slot_cases k) [
      | inl low ↦ low-passes k _ m' low (low_empty k low)
      | inr (inl envs_pages) ↦
          listed-passes k _ m' (inl envs_pages)
            (elim envs_pages [ inl e ↦ rw e uenvs_there | inr e ↦ rw e upages_there ])
      | inr (inr (inl self_stack)) ↦
          listed-passes k _ m' (inr self_stack)
            (elim self_stack [ inl e ↦ rw e self_there | inr e ↦ rw e stack_there ])
      | inr (inr (inr high)) ↦
          let there = high_there k high small in
          high-passes k _ m' high there (plain-writable k (omega arith) there)
    ]

    page_runs :
        (rounds1 rounds2 rounds3 : ℕ)
        → 4096 * rounds1 ≤ table_size
        → 4096 * rounds2 ≤ table_size
        → rounds3 ≤ 65536
        → (check_run m.kern_pgdir upages (paddr at.pages_at) rounds1 0 m' ≡ done (tt, m'))
          × (check_run m.kern_pgdir uenvs (paddr at.envs_at) rounds2 0 m' ≡ done (tt, m'))
          × (check_run m.kern_pgdir kern_base (pure 0) rounds3 0 m' ≡ done (tt, m'))
          × (check_run m.kern_pgdir (kstack_top - kstack_size) (paddr at.bootstack) 8 0 m'
              ≡ done (tt, m'))
    page_runs rounds1 rounds2 rounds3 short1 short2 short3 = (
      run-there upages (at.pages_at - kern_base) pte_u table_size rounds1 (paddr at.pages_at) short1
          (omega arith) (omega arith) (omega arith) (omega arith)
          (λ a lo hi. is.pages_there a lo (omega arith)) (paddr-kernel at.pages_at m' (pages_at.0)),
      run-there uenvs (at.envs_at - kern_base) pte_u table_size rounds2 (paddr at.envs_at) short2
          (omega arith) (omega arith) (omega arith) (omega arith)
          (λ a lo hi. is.envs_there a lo (omega arith)) (paddr-kernel at.envs_at m' (envs_at.0)),
      run-there kern_base 0 pte_w (word_mod - kern_base) rounds3 (pure 0) (omega arith)
          (omega arith) (omega arith) (omega arith) (omega arith)
          (λ a lo hi.
            is.memory_there a lo (omega arith) ∙ ap (λ b. entry_for b pte_w) (omega arith))
          refl,
      run-there (kstack_top - kstack_size) (at.bootstack - kern_base) pte_w kstack_size 8
          (paddr at.bootstack) (omega arith) (omega arith) (omega arith) (omega arith) (omega arith)
          (λ a lo hi. is.stack_there a lo (omega arith))
          (paddr-kernel at.bootstack m' (stack_at.0)),
    )

    guard_page-gone : check_va2pa m.kern_pgdir (kstack_top - table_size) m' ≡ done (no_address, m')
    unfolding pdx
    guard_page-gone =
        check_va2pa-gone m' m.kern_pgdir (kstack_top - table_size) is.space (
          is.nothing_else (kstack_top - table_size) (omega arith) (omega arith) (inr (omega arith)))

    slots-pass : check_slots m.kern_pgdir table_entries 0 m' ≡ done (tt, m')
    slots-pass = check_slots_lem m' m.kern_pgdir table_entries 0 (λ k lt. slot-passes k lt)

    -- `check_kern_pgdir` passes on the address space that the mappings of `mem_init` make, if the slot of
    -- the directory for itself was set, `pages`, `envs` and the stack start on pages, the two arrays fit in
    -- the 4 MB that is mapped for them, and the machine has no more memory than is mapped at KERNBASE.
    pub check_kern_pgdir_lem :
        (info_size envs_size : ℕ)
        → m.npages * info_size ≤ table_size
        → envs_size ≤ table_size
        → m.npages ≤ 65536
        → check_kern_pgdir info_size envs_size at m' ≡ done (tt, m')
    unfolding check_kern_pgdir round_up
    check_kern_pgdir_lem info_size envs_size pages_fit envs_fit memory_fits =
        let (one, two, three, four) =
          page_runs (round_up (m.npages * info_size % word_mod) page_size / page_size)
            (round_up envs_size page_size / page_size) (m.npages * page_size % word_mod / page_size)
            (omega arith) (omega arith) (omega arith) in
        ground (arith, is.kern_pgdir, is.npages, one, two, three, four, guard_page-gone, slots-pass)
