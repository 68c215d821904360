-- ===== src/Kdebug.antt =====
-- Debugging information, kdebug.c: the search of the table of stabs. An `int` index that may become
-- -1 is kept as the index after it: `left_next` and `right_next` stand for `*region_left` and
-- `*region_right`, and `stop` for `r`.
pub mod Kinds
pub mod Bracket
pub mod Regions
pub mod Overlap
pub mod Eip
use at_jos.Base.{
  ℕ, zero, suc, ◌+◌, ◌-◌, ◌/◌, ◌%◌, ◌^◌, Bool, true, false, Option, none, some, ◌==◌, ltb, leb,
  if◌then◌else◌,
}

pub record Stab : Type 0 where
  pub n_strx : ℕ
  pub n_type : ℕ
  pub n_desc : ℕ
  pub n_value : ℕ

-- The variables of `stab_binsearch`; `left` is never -1 inside the loop.
pub record Search : Type 0 where
  pub l : ℕ
  pub stop : ℕ
  pub left : ℕ
  pub right_next : ℕ
  pub any_matches : Bool
  pub addr : ℕ

pub record Region : Type 0 where
  pub left_next : ℕ
  pub right_next : ℕ

abbrev pub first_search : ℕ → ℕ → ℕ → Search
first_search left right_next addr = record {
  l = left;
  stop = right_next;
  left = left;
  right_next = right_next;
  any_matches = false;
  addr = addr;
}

module _ (stabs : ℕ → Stab) (kind : ℕ) where
  -- The last stab of the kind among the `count` stabs from `l` on, looked for from behind.
  unfoldable pub find_down : ℕ → ℕ → Option ℕ
  find_down l zero = none
  find_down l (suc count) =
      let rest = find_down l count in
      if (stabs (l + count)).n_type == kind then some (l + count) else rest

  -- `stabs[m]` is compared.
  unfoldable pub narrow : ℕ → ℕ → Search → Search
  narrow true_m m s =
      if ltb (stabs m).n_value s.addr
      then record s { left = m; l = true_m + 1; any_matches = true }
      else if ltb s.addr (stabs m).n_value
      then record s { right_next = m; stop = m; any_matches = true }
      else record s { left = m; l = m; addr = (s.addr + 1) % 2 ^ 32; any_matches = true }

  unfoldable pub take_match : ℕ → Search → Option ℕ → Search
  take_match true_m s none = record s { l = true_m + 1 }
  take_match true_m s (some m) = narrow true_m m s

  -- One round of the loop.
  unfoldable pub search_step : Search → Search
  search_step s =
      let true_m = (s.l + s.stop - 1) / 2 in take_match true_m s (find_down s.l (true_m + 1 - s.l))

  -- The loop: `none` if the fuel runs out.
  unfoldable pub search : ℕ → Search → Option Search
  search zero s = none
  search (suc fuel) s =
      let rest = search fuel (search_step s) in if ltb s.l s.stop then rest else some s

  -- What follows the loop.
  unfoldable pub finish : Search → Region
  finish s =
      if s.any_matches
      then record {
        left_next = elim (find_down (s.left + 1) (s.right_next - (s.left + 1))) [
          | some l ↦ l + 1
          | none ↦ if leb s.right_next s.left then s.right_next else s.left + 1
        ];
        right_next = s.right_next;
      }
      else record { left_next = s.left + 1; right_next = s.left }

  abbrev pub finished : Option Search → Option Region
  finished none = none
  finished (some s) = some (finish s)

  -- `right_next` is one more than the index given.
  unfoldable pub stab_binsearch : ℕ → ℕ → ℕ → ℕ → Option Region
  stab_binsearch fuel left right_next addr =
      finished (search fuel (first_search left right_next addr))
