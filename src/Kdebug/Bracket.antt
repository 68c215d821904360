-- ===== src/Kdebug/Bracket.antt =====
-- `stab_binsearch` brackets the address between two stabs of the kind it looks for.
use at_jos.Base.{
  ℕ, zero, suc, ◌+◌, ◌-◌, ◌/◌, ◌%◌, ◌^◌, ◌≤◌, ◌<◌, ◌≡◌, refl, true, false, none, some, ◌==◌, ltb,
  if◌then◌else◌, arith, ap, Bool-cases, inl, inr, ◌⊎◌,
}
use at_jos.Kdebug.{Stab, Search, find_down, narrow, take_match, search_step, search}
use at_jos.Kdebug.Kinds.{Has, Lacks, Lacks-join, find_down_lem, Spaced, lt_or_ge}

module _ (stabs : ℕ → Stab) (kind from end start : ℕ) (spaced : Spaced stabs kind from end)
    (low : start + 1 < 2 ^ 32) where
  value : ℕ → ℕ
  value i = (stabs i).n_value

  -- What holds before each round: `start` is the address looked for.
  pub record IsSearch (s : Search) : Type 0 where
    pub lo : from ≤ s.l
    pub order : s.l ≤ s.stop
    pub hi : s.stop ≤ end
    pub same : s.right_next ≡ s.stop
    pub below : (i : ℕ) → from ≤ i → i < s.l → Has stabs kind i → (stabs i).n_value ≤ start
    pub above :
        (s.stop ≡ end) ⊎ (Has stabs kind s.stop × (start < (stabs s.stop).n_value) × (s.stop < end))
    pub place :
        ((s.left ≡ from) × Lacks stabs kind from s.l × ((s.any_matches ≡ false) ⊎ (s.stop < end)))
        ⊎ ((from ≤ s.left)
            × (s.left < end)
            × (s.left ≤ s.l)
            × (s.any_matches ≡ true)
            × Has stabs kind s.left
            × ((stabs s.left).n_value ≤ start)
            × Lacks stabs kind (s.left + 1) s.l)
    pub unseen : s.any_matches ≡ false → s.stop ≡ end
    pub aim :
        (s.addr ≡ start)
        ⊎ ((s.addr ≡ start + 1)
            × ((e : ℕ) × (from ≤ e) × (e < end) × Has stabs kind e × ((stabs e).n_value ≡ start)))

  -- Whether the address was met already.
  unfoldable pub met : Search → ℕ
  met s = if s.addr == start then 1 else 0

  unfoldable pub measure : Search → ℕ
  measure s = s.stop - s.l + met s

  module _ (s : Search) (is : IsSearch s) (more : s.l < s.stop) where
    abbrev true_m : ℕ
    true_m = (s.l + s.stop - 1) / 2

    mid_lo : s.l ≤ true_m
    mid_lo = omega arith

    mid_hi : true_m < s.stop
    mid_hi = omega arith

    addr_bounds : (start ≤ s.addr) × (s.addr ≤ start + 1)
    addr_bounds = elim is.aim [ inl e ↦ omega arith | inr (e, x) ↦ omega arith ]

    -- No stab of the kind up to the middle.
    skip-IsSearch : Lacks stabs kind s.l (true_m + 1) → IsSearch (record s { l = true_m + 1 })
    skip-IsSearch lacks =
        let a = is.lo in
        let b = is.hi in
        record {
          lo = omega (arith, mid_lo);
          order = omega (arith, mid_hi);
          hi = b;
          same = is.same;
          below = λ i g h has. elim (lt_or_ge i s.l) [
            | inl y ↦ is.below i g y has
            | inr z ↦ absurd (lacks i z h has)
          ];
          above = is.above;
          place = elim is.place [
            | inl (e, none_yet, seen) ↦
                inl (e, Lacks-join stabs kind from s.l (true_m + 1) none_yet lacks, seen)
            | inr (x, y, z, any, has, le, after) ↦ inr (
              x,
              y,
              omega (arith, mid_lo),
              any,
              has,
              le,
              Lacks-join stabs kind (s.left + 1) s.l (true_m + 1) after lacks,
            )
          ];
          unseen = is.unseen;
          aim = is.aim;
        }

    module _ (m : ℕ) (m_lo : s.l ≤ m) (m_hi : m < true_m + 1) (has : Has stabs kind m)
        (lacks : Lacks stabs kind (m + 1) (true_m + 1)) where
      m_bounds : (from ≤ m) × (m < end) × (m < s.stop)
      m_bounds = omega (arith, is.lo, is.hi, mid_hi)

      -- A stab of the kind before `m` has a smaller address.
      before :
          (i : ℕ) → from ≤ i → i < m → Has stabs kind i → (stabs i).n_value + 2 ≤ (stabs m).n_value
      before i g h has_i = spaced i m g h (m_bounds.1) has_i has

      upto :
          (i : ℕ)
          → from ≤ i
          → i < true_m + 1
          → Has stabs kind i
          → (stabs i).n_value ≤ (stabs m).n_value
      upto i g h has_i = elim (lt_or_ge i m) [
        | inl y ↦ omega (arith, before i g y has_i)
        | inr z ↦ elim (Bool-cases (i == m)) [
          | inl e ↦
              let same : i ≡ m = ground arith in ground (arith, ap (λ j. (stabs j).n_value) same)
          | inr e ↦ absurd (lacks i (ground arith) h has_i)
        ]
      ]

      less-IsSearch :
          (stabs m).n_value < s.addr
          → IsSearch (record s { left = m; l = true_m + 1; any_matches = true })
      less-IsSearch lt =
          let bound = addr_bounds in
          let in_range = m_bounds in
          record {
            lo = omega (arith, mid_lo);
            order = omega (arith, mid_hi);
            hi = is.hi;
            same = is.same;
            below = λ i g h has_i. omega (arith, upto i g h has_i);
            above = is.above;
            place = inr (in_range.0, in_range.1, omega arith, refl, has, omega arith, lacks);
            unseen = λ e. ground arith;
            aim = is.aim;
          }

      greater-IsSearch :
          s.addr < (stabs m).n_value
          → IsSearch (record s { right_next = m; stop = m; any_matches = true })
      greater-IsSearch lt =
          let bound = addr_bounds in
          let in_range = m_bounds in
          record {
            lo = is.lo;
            order = m_lo;
            hi = omega arith;
            same = refl;
            below = is.below;
            above = inr (has, omega arith, in_range.1);
            place = elim is.place [
              | inl (x, none_yet, seen) ↦ inl (x, none_yet, inr in_range.1)
              | inr (x, y, z, any, has_l, le, after) ↦ inr (x, y, z, refl, has_l, le, after)
            ];
            unseen = λ e. ground arith;
            aim = is.aim;
          }

      -- The address is met only once, since stabs are two bytes apart.
      met_once : s.addr ≡ (stabs m).n_value → s.addr ≡ start
      met_once e = elim is.aim [
        | inl x ↦ x
        | inr (x, (at, g, h, has_at, v)) ↦ elim (lt_or_ge at m) [
          | inl y ↦ omega (arith, before at g y has_at)
          | inr z ↦ elim (Bool-cases (at == m)) [
            | inl q ↦
                let same : at ≡ m = ground arith in omega (arith, ap (λ j. (stabs j).n_value) same)
            | inr q ↦ omega (arith, spaced m at (m_bounds.0) (ground arith) h has has_at)
          ]
        ]
      ]

      equal-IsSearch :
          s.addr ≡ (stabs m).n_value
          → IsSearch
              (record s { left = m; l = m; addr = (s.addr + 1) % 2 ^ 32; any_matches = true })
      equal-IsSearch e =
          let first = met_once e in
          let in_range = m_bounds in
          record {
            lo = in_range.0;
            order = omega arith;
            hi = is.hi;
            same = is.same;
            below = λ i g h has_i. omega (arith, before i g h has_i);
            above = is.above;
            place =
                inr (
                  in_range.0,
                  in_range.1,
                  omega arith,
                  refl,
                  has,
                  omega arith,
                  λ i g h. omega arith,
                );
            unseen = λ e. ground arith;
            aim = inr (omega arith, (m, in_range.0, in_range.1, has, omega arith));
          }

      narrow-IsSearch :
          IsSearch (narrow stabs kind true_m m s)
          × (measure (narrow stabs kind true_m m s) < measure s)
      unfolding narrow measure met
      narrow-IsSearch = elim (Bool-cases (ltb (stabs m).n_value s.addr)) [
        | inl lt ↦ rw lt (less-IsSearch (ground arith), omega (arith, mid_lo))
        | inr ge ↦ elim (Bool-cases (ltb s.addr (stabs m).n_value)) [
          | inl gt ↦ rw (ge, gt) (greater-IsSearch (ground arith), omega (arith, m_bounds))
          | inr le ↦
              let e : s.addr ≡ (stabs m).n_value = ground arith in
              let first = met_once e in rw (ge, le) (equal-IsSearch e, ground arith)
        ]
      ]

    step-none :
        find_down stabs kind s.l (true_m + 1 - s.l) ≡ none
        → search_step stabs kind s ≡ record s { l = true_m + 1 }
    unfolding search_step take_match
    step-none e = ap (take_match stabs kind true_m s) e

    step-some :
        (m : ℕ)
        → find_down stabs kind s.l (true_m + 1 - s.l) ≡ some m
        → search_step stabs kind s ≡ narrow stabs kind true_m m s
    unfolding search_step take_match
    step-some m e = ap (take_match stabs kind true_m s) e

    step-IsSearch :
        IsSearch (search_step stabs kind s) × (measure (search_step stabs kind s) < measure s)
    unfolding measure met
    step-IsSearch =
        let count : s.l + (true_m + 1 - s.l) ≡ true_m + 1 = omega (arith, mid_lo) in
        elim (find_down_lem stabs kind s.l (true_m + 1 - s.l)) [
          | inl (e, lacks) ↦
              rw (step-none e) (skip-IsSearch (rw count at lacks), omega (arith, mid_lo))
          | inr (m, e, lo, hi, has, lacks) ↦
              rw (step-some m e) (narrow-IsSearch m lo (rw count at hi) has (rw count at lacks))
        ]

  pub search_lem :
      (fuel : ℕ) (s : Search)
      → IsSearch s
      → measure s < fuel
      → (s' : Search) × (search stabs kind fuel s ≡ some s') × IsSearch s' × (s'.l ≡ s'.stop)
  unfolding search
  search_lem zero s is enough = absurd (omega arith)
  search_lem (suc fuel) s is enough = elim (Bool-cases (ltb s.l s.stop)) [
    | inl more ↦
        let (next, less) = step-IsSearch s is (ground arith) in
        let (s', e, is', out) = search_lem fuel (search_step stabs kind s) next (omega arith) in
        (s', rw more e, is', out)
    | inr done ↦ (s, rw done refl, is, let o = is.order in ground arith)
  ]
