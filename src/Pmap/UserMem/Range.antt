-- ===== src/Pmap/UserMem/Range.antt =====
-- `user_mem_check` decides whether every byte of a range may be accessed.
use at_jos.Base.{
  ℕ, zero, suc, ◌+◌, ◌-◌, ◌*◌, ◌/◌, ◌%◌, ◌≤◌, ◌<◌, ◌≡◌, refl, Bool, true, false, ◌&&◌, ◌==◌, ltb,
  if◌then◌else◌, arith, ap, Bool-cases, inl, inr, bit_and, ◌⊎◌,
}
use native.Mathlib.Decide.{dec_lt}
use at_jos.Pmap.UserMem.Wrap.{check_pages-empty}
use at_jos.Base.Int.{ℤ, pos, neg}
use at_jos.Base.Monad.{Outcome, done}
use at_jos.Pmap.Addr.{pte_p, has_flag, page_size, word_mod, ulim, round_down, round_up, pdx}
use at_jos.Pmap.State.{Memory}
use at_jos.Pmap.Table.Space.{present, table_of, entry}
use at_jos.Pmap.Table.Walk.{walk-present, walk-absent}
use at_jos.Pmap.UserMem.{check_pages, user_mem_check, is_refused, slot_word, e_fault, fault_at}

-- The page tables that the check may visit are pages of the machine.
abbrev pub TablesInRange : Memory → ℕ → Type 0
TablesInRange m pgdir =
    (d : ℕ) → present (m.words pgdir) d ≡ true → table_of (m.words pgdir) d < m.npages

-- What the program may do at the page that starts at `a`: it lies below ULIM, and its translation
-- is present with all bits of `perm`.
abbrev pub may_access : Memory → ℕ → ℕ → ℕ → Bool
may_access m pgdir perm a =
    ltb a ulim && has_flag (entry m pgdir a) pte_p && (bit_and (entry m pgdir a) perm == perm)

abbrev pub faulted : ℕ → Memory → Memory
faulted a m = record m { user_mem_check_addr = a }

module _ (m : Memory) (pgdir va perm : ℕ) (tables : TablesInRange m pgdir) where
  -- One round of the loop.
  check_round :
      (fuel start end : ℕ)
      → start < end
      → check_pages (suc fuel) pgdir va perm start end m ≡ (
          if may_access m pgdir perm start
          then check_pages fuel pgdir va perm ((start + page_size) % word_mod) end m
          else fault_at va start m)
  unfolding check_pages slot_word is_refused
  check_round fuel start end h = elim (Bool-cases (present (m.words pgdir) (pdx start))) [
    | inl here ↦
        let e = walk-present m pgdir start false here (tables (pdx start) here) in
        ground (arith, e, here)
    | inr gone ↦ let e = walk-absent m pgdir start gone in ground (arith, e, gone)
  ]

  -- Every address of `[lo, hi)` that is not below `va` may be accessed.
  abbrev AllowsAll : ℕ → ℕ → Type 0
  AllowsAll lo hi =
      (a : ℕ) → lo ≤ a → va ≤ a → a < hi → may_access m pgdir perm (round_down a page_size) ≡ true

  -- The answer is 0 and the range may be accessed; or it is -E_FAULT, and the address noted is the
  -- first of the range that may not be.
  abbrev Verdict : ℕ → ℕ → Outcome (ℤ × Memory) → Type 0
  Verdict start end r =
      ((r ≡ done (pos 0, m)) × AllowsAll start end)
      ⊎ ((bad : ℕ) × (r ≡ done (neg e_fault, faulted bad m))
          × (start ≤ bad)
          × (va ≤ bad)
          × (bad < end)
          × (may_access m pgdir perm (round_down bad page_size) ≡ false)
          × AllowsAll start bad)

  same_start :
      (start a : ℕ)
      → start % page_size ≡ 0
      → start ≤ a
      → a < start + page_size
      → round_down a page_size ≡ start
  unfolding round_down
  same_start start a aligned above below = omega arith

  -- One page more.
  allow_more :
      (start hi : ℕ)
      → start % page_size ≡ 0
      → may_access m pgdir perm start ≡ true
      → AllowsAll (start + page_size) hi
      → AllowsAll start hi
  allow_more start hi aligned good all a above from below = elim (dec_lt a (start + page_size)) [
    | yes near ↦ rw (same_start start a aligned above near) good
    | no far ↦ all a (omega arith) from below
  ]

  -- A page that passes lets the rest decide.
  extend :
      (start end : ℕ) (r : Outcome (ℤ × Memory))
      → start % page_size ≡ 0
      → may_access m pgdir perm start ≡ true
      → Verdict (start + page_size) end r
      → Verdict start end r
  extend start end r aligned good (inl (e, all)) = inl (e, allow_more start end aligned good all)
  extend start end r aligned good (inr (bad, e, above, from, below, refused, all)) =
      inr (bad, e, omega arith, from, below, refused, allow_more start bad aligned good all)

  -- A page that does not ends the loop.
  refuse :
      (start end : ℕ)
      → start % page_size ≡ 0
      → start + page_size ≤ end
      → va < start + page_size
      → may_access m pgdir perm start ≡ false
      → Verdict start end (fault_at va start m)
  refuse start end aligned inside near bad = inr (
    (if ltb start va then va else start),
    refl,
    ground arith,
    ground arith,
    ground arith,
    rw (same_start start (if ltb start va then va else start) aligned (ground arith) (ground arith))
        bad,
    λ a above from below. absurd (ground arith),
  )

  check_pages-Verdict :
      (fuel start end : ℕ)
      → start % page_size ≡ 0
      → end % page_size ≡ 0
      → end + page_size ≤ word_mod
      → va < start + page_size
      → end ≤ start + fuel * page_size
      → Verdict start end (check_pages (suc fuel) pgdir va perm start end m)
  check_pages-Verdict zero start end al al' top near short = inl (
    check_pages-empty zero pgdir va perm start end m (omega arith),
    λ a h f k. absurd (omega arith),
  )
  check_pages-Verdict (suc fuel) start end al al' top near short = elim (dec_lt start end) [
    | yes h ↦
        let no_wrap : (start + page_size) % word_mod ≡ start + page_size = omega arith in
        rw (check_round (suc fuel) start end h) (elim (Bool-cases (may_access m pgdir perm start)) [
          | inl good ↦
              rw (good, no_wrap)
                (extend start end _ al good (
                  check_pages-Verdict fuel (start + page_size) end (omega arith) al' top
                    (omega arith) (omega arith)))
          | inr bad ↦ rw bad (refuse start end al (omega arith) near bad)
        ])
    | no h ↦ inl (
      check_pages-empty (suc fuel) pgdir va perm start end m (omega arith),
      λ a k f l. absurd (omega arith),
    )
  ]

  -- The first bad address of the pages is one of the range itself.
  bad_inside :
      (end len bad : ℕ)
      → 0 < len
      → end % page_size ≡ 0
      → end < va + len + page_size
      → bad < end
      → va ≤ bad
      → may_access m pgdir perm (round_down bad page_size) ≡ false
      → ((a : ℕ) → va ≤ a → a < bad → may_access m pgdir perm (round_down a page_size) ≡ true)
      → bad < va + len
  bad_inside end len bad some_bytes aligned tight below from refused all =
      elim (dec_lt bad (va + len)) [
        | yes h ↦ h
        | no h ↦
            let good = all (va + len - 1) (omega arith) (omega arith) in
            let same : round_down (va + len - 1) page_size ≡ round_down bad page_size =
              unfold round_down in omega arith in
            cc (good, refused, ap (may_access m pgdir perm) same)
      ]

  -- If the page tables are pages of the machine, then on a range of at least one byte that stays
  -- clear of the last page of the address space, `user_mem_check` ends, and answers 0 exactly if
  -- every byte of the range may be accessed with the permissions asked for. Else it answers
  -- -E_FAULT, and notes the first byte of the range that may not be accessed.
  pub user_mem_check_lem :
      (len : ℕ)
      → 0 < len
      → va + len + (page_size - 1) < word_mod
      → ((user_mem_check pgdir va len perm m ≡ done (pos 0, m))
          × ((a : ℕ)
              → va ≤ a
              → a < va + len
              → may_access m pgdir perm (round_down a page_size) ≡ true))
        ⊎ ((bad : ℕ) × (user_mem_check pgdir va len perm m ≡ done (neg e_fault, faulted bad m))
            × (va ≤ bad)
            × (bad < va + len)
            × (may_access m pgdir perm (round_down bad page_size) ≡ false)
            × ((a : ℕ)
                → va ≤ a
                → a < bad
                → may_access m pgdir perm (round_down a page_size) ≡ true))
  unfolding user_mem_check round_up
  user_mem_check_lem len some_bytes clear =
      elim (check_pages-Verdict (end / page_size) start end (omega arith) (omega arith)
        (omega arith) (omega arith) (omega arith)) [
          | inl (e, all) ↦ inl (e, λ a from below. all a (omega arith) from (omega arith))
          | inr (bad, e, above, from, below, refused, all) ↦ inr (
            bad,
            e,
            from,
            bad_inside end len bad some_bytes (omega arith) (omega arith) below from refused
                (λ a from' below'. all a (omega arith) from' below'),
            refused,
            λ a from' below'. all a (omega arith) from' below',
          )
        ]
    where
      start : ℕ
      start = round_down va page_size

      end : ℕ
      end = round_up ((va + len) % word_mod) page_size
