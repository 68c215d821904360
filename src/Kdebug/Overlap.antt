-- ===== src/Kdebug/Overlap.antt =====
-- Two stabs of the kind that are one byte apart mislead the search.
use at_jos.Base.{ℕ, ◌+◌, ◌%◌, ◌^◌, ◌<◌, ◌≡◌, refl, true, false, some, ◌==◌, ltb, arith, ap}
use at_jos.Kdebug.{
  Stab, Search, find_down, narrow, take_match, search_step, search, finish, first_search,
  stab_binsearch,
}

module _ (stabs : ℕ → Stab) (kind addr : ℕ) (has0 : (stabs 0).n_type ≡ kind)
    (has1 : (stabs 1).n_type ≡ kind) (value0 : (stabs 0).n_value ≡ addr)
    (value1 : (stabs 1).n_value ≡ addr + 1) (small : addr + 2 < 2 ^ 32) where
  here0 : ((stabs 0).n_type == kind) ≡ true
  here0 = ground arith

  here1 : ((stabs 1).n_type == kind) ≡ true
  here1 = ground arith

  at : ℕ → ℕ → ℕ → Search
  at l left addr' = record {
    l = l;
    stop = 2;
    left = left;
    right_next = 2;
    any_matches = true;
    addr = addr';
  }

  step1 : search_step stabs kind (first_search 0 2 addr) ≡ at 0 0 (addr + 1)
  unfolding search_step take_match narrow find_down at
  step1 =
      let same : (addr + 1) % 2 ^ 32 ≡ addr + 1 = omega arith in
      let not_less : ltb (stabs 0).n_value addr ≡ false = ground arith in
      let not_more : ltb addr (stabs 0).n_value ≡ false = ground arith in
      rw (here0, not_less, not_more) (ap (at 0 0) same)

  step2 : search_step stabs kind (at 0 0 (addr + 1)) ≡ at 1 0 (addr + 1)
  unfolding search_step take_match narrow find_down at
  step2 = let less : ltb (stabs 0).n_value (addr + 1) ≡ true = ground arith in rw (here0, less) refl

  step3 : search_step stabs kind (at 1 0 (addr + 1)) ≡ at 1 1 (addr + 2)
  unfolding search_step take_match narrow find_down at
  step3 =
      let same : (addr + 1 + 1) % 2 ^ 32 ≡ addr + 2 = omega arith in
      let not_less : ltb (stabs 1).n_value (addr + 1) ≡ false = ground arith in
      let not_more : ltb (addr + 1) (stabs 1).n_value ≡ false = ground arith in
      rw (here1, not_less, not_more) (ap (at 1 1) same)

  step4 : search_step stabs kind (at 1 1 (addr + 2)) ≡ at 2 1 (addr + 2)
  unfolding search_step take_match narrow find_down at
  step4 = let less : ltb (stabs 1).n_value (addr + 2) ≡ true = ground arith in rw (here1, less) refl

  -- Where two stabs of the kind, at indices 0 and 1, are one byte apart, the search for the address of
  -- the first answers the second, which lies above the address.
  pub stab_binsearch-overlap :
      stab_binsearch stabs kind 5 0 2 addr ≡ some (record { left_next = 2; right_next = 2 })
  unfolding stab_binsearch search finish find_down at
  stab_binsearch-overlap = rw (step1, step2, step3, step4) refl
