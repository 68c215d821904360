-- ===== src/Kdebug/Regions.antt =====
-- What `stab_binsearch` answers in each case.
use at_jos.Base.{
  ℕ, ◌+◌, ◌-◌, ◌^◌, ◌≤◌, ◌<◌, ◌≡◌, refl, true, false, none, some, ◌==◌, leb, if◌then◌else◌, arith,
  ap, Bool-cases, inl, inr, ◌⊎◌,
}
use at_jos.Kdebug.{Stab, Search, Region, find_down, finish, finished, first_search, stab_binsearch}
use at_jos.Kdebug.Kinds.{Has, Lacks, Spaced, find_down_lem}
use at_jos.Kdebug.Bracket.{IsSearch, measure, met, search_lem}

find_down-none :
    (stabs : ℕ → Stab) (kind l stop : ℕ)
    → Lacks stabs kind l stop
    → find_down stabs kind l (stop - l) ≡ none
find_down-none stabs kind l stop lacks = elim (find_down_lem stabs kind l (stop - l)) [
  | inl (e, x) ↦ e
  | inr (m, e, lo, hi, has, x) ↦ absurd (lacks m lo (omega arith) has)
]

finish-any :
    (stabs : ℕ → Stab) (kind : ℕ) (s : Search)
    → s.any_matches ≡ true
    → Lacks stabs kind (s.left + 1) s.right_next
    → finish stabs kind s ≡ record {
      left_next = if leb s.right_next s.left then s.right_next else s.left + 1;
      right_next = s.right_next;
    }
unfolding finish
finish-any stabs kind s any lacks =
    rw (any, find_down-none stabs kind (s.left + 1) s.right_next lacks) refl

finish-none :
    (stabs : ℕ → Stab) (kind : ℕ) (s : Search)
    → s.any_matches ≡ false
    → finish stabs kind s ≡ record { left_next = s.left + 1; right_next = s.left }
unfolding finish
finish-none stabs kind s any = rw any refl

module _ (stabs : ℕ → Stab) (kind from end start : ℕ) (spaced : Spaced stabs kind from end)
    (low : start + 1 < 2 ^ 32) where
  -- The last stab of the kind at or below the address is `m`, and the region ends before the next.
  pub record IsFound (r : Region) (m : ℕ) : Type 0 where
    pub left : r.left_next ≡ m + 1
    pub from_le : from ≤ m
    pub lt_right : m < r.right_next
    pub has : Has stabs kind m
    pub at_or_below : (stabs m).n_value ≤ start
    pub last : Lacks stabs kind (m + 1) r.right_next
    pub next :
        (r.right_next ≡ end)
        ⊎ (Has stabs kind r.right_next
            × (start < (stabs r.right_next).n_value)
            × (r.right_next < end))

  -- Every stab of the kind is above the address; the first one is at `right_next`.
  pub record IsBefore (r : Region) : Type 0 where
    pub left : r.left_next ≡ (if r.right_next == from then from else from + 1)
    pub has : Has stabs kind r.right_next
    pub above : start < (stabs r.right_next).n_value
    pub lt_end : r.right_next < end
    pub from_le : from ≤ r.right_next
    pub first : Lacks stabs kind from r.right_next

  pub record IsAbsent (r : Region) : Type 0 where
    pub left : r.left_next ≡ from + 1
    pub right : r.right_next ≡ from
    pub lacks : Lacks stabs kind from end

  finish_lem :
      (s : Search)
      → IsSearch stabs kind from end start spaced low s
      → s.l ≡ s.stop
      → ((m : ℕ) × IsFound (finish stabs kind s) m)
        ⊎ (IsBefore (finish stabs kind s) ⊎ IsAbsent (finish stabs kind s))
  finish_lem s is out = elim is.place [
    | inl (e, lacks, seen) ↦
        let right = is.same in
        elim (Bool-cases s.any_matches) [
          | inl any ↦ elim is.above [
            | inl at_end ↦ elim seen [
              | inl unseen ↦ ground arith
              | inr small ↦ absurd (omega arith)
            ]
            | inr (has, above, small) ↦
                let stop_from = is.lo in
                let lacks' : Lacks stabs kind from s.right_next =
                  λ i g h. lacks i g (omega arith) in
                let same : finish stabs kind s ≡ record {
                  left_next = if leb s.right_next s.left then s.right_next else s.left + 1;
                  right_next = s.right_next;
                } =
                  finish-any stabs kind s any (λ i g h. lacks' i (omega arith) h) in
                inr (
                  inl (
                    rw same (record {
                      left = ground arith;
                      has = rw right has;
                      above = rw right above;
                      lt_end = omega arith;
                      from_le = omega (arith, is.lo, is.order);
                      first = lacks';
                    })))
          ]
          | inr unseen ↦
              let at_end = is.unseen unseen in
              inr (
                inr (
                  rw (finish-none stabs kind s unseen) (record {
                    left = omega arith;
                    right = e;
                    lacks = λ i g h. lacks i g (omega arith);
                  })))
        ]
    | inr (lo, lt, le, any, has, below, lacks) ↦
        let right = is.same in
        let lacks' : Lacks stabs kind (s.left + 1) s.right_next =
          λ i g h. lacks i g (omega arith) in
        let left_in : s.left < s.right_next = elim is.above [
          | inl at_end ↦ omega arith
          | inr (x, far, z) ↦ elim (Bool-cases (s.left == s.stop)) [
            | inl eq ↦
                let same : s.left ≡ s.stop = ground arith in
                absurd (omega (arith, ap (λ j. (stabs j).n_value) same))
            | inr ne ↦ ground arith
          ]
        ] in
        inl (
          s.left,
          rw (finish-any stabs kind s any lacks') (record {
            left = ground arith;
            from_le = lo;
            lt_right = left_in;
            has = has;
            at_or_below = below;
            last = lacks';
            next = elim is.above [
              | inl at_end ↦ inl (omega arith)
              | inr (h, far, z) ↦ inr (rw right h, rw right far, omega arith)
            ];
          }),
        )
  ]

  start-IsSearch :
      from ≤ end → IsSearch stabs kind from end start spaced low (first_search from end start)
  start-IsSearch h = record {
    lo = omega arith;
    order = h;
    hi = omega arith;
    same = refl;
    below = λ i g h has. absurd (omega arith);
    above = inl refl;
    place = inl (refl, λ i g h has. absurd (omega arith), inl refl);
    unseen = λ e. refl;
    aim = inl refl;
  }

  -- If the stabs of a kind stand in the order of their addresses and at least two bytes apart, then
  -- `stab_binsearch` ends. If one of them is at or below the address, `*region_left` is the last such
  -- stab, and `*region_right` stands before the next stab of the kind, or is the end. If all are above
  -- the address, `*region_right` stands before the first of them, and `*region_left` stays, or becomes
  -- `*region_right` if that is less; if there is none, `*region_right` is `*region_left - 1`.
  pub stab_binsearch_lem :
      (fuel : ℕ)
      → from ≤ end
      → end - from + 1 < fuel
      → (r : Region) × (stab_binsearch stabs kind fuel from end start ≡ some r)
        × (((m : ℕ) × IsFound r m) ⊎ (IsBefore r ⊎ IsAbsent r))
  unfolding stab_binsearch measure met
  stab_binsearch_lem fuel h enough =
      let (s, e, is, out) =
        search_lem stabs kind from end start spaced low fuel (first_search from end start)
          (start-IsSearch h) (ground arith) in
      (finish stabs kind s, ap (finished stabs kind) e, finish_lem s is out)
