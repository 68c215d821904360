-- ===== src/Tests/Debug.antt =====
-- Concrete stabs.
use at_jos.Base.{ℕ, ◌+◌, ◌*◌, ◌≤◌, ◌<◌, ◌≡◌, refl, some, arith, ◌⊎◌}
use at_jos.Kdebug.{Stab, Region, stab_binsearch}
use at_jos.Kdebug.Regions.{IsFound, IsBefore, IsAbsent, stab_binsearch_lem}
use at_jos.Kdebug.Overlap.{stab_binsearch-overlap}
use at_jos.Kdebug.Eip.{n_fun}

-- Stabs of the given types, 16 bytes apart.
abbrev stabs_of : (ℕ → ℕ) → ℕ → Stab
stabs_of types i = record { n_strx = 0; n_type = types i; n_desc = i; n_value = 16 * i }

abbrev functions : ℕ → Stab
functions = stabs_of (λ i. n_fun)

functions-Spaced :
    (i j : ℕ)
    → 0 ≤ i
    → i < j
    → j < 8
    → (functions i).n_type ≡ n_fun
    → (functions j).n_type ≡ n_fun
    → (functions i).n_value + 2 ≤ (functions j).n_value
functions-Spaced i j lo lt hi has has' = omega arith

stab_binsearch_lem_example :
    (r : Region) × (stab_binsearch functions n_fun 12 0 8 70 ≡ some r)
    × (((m : ℕ) × IsFound functions n_fun 0 8 70 functions-Spaced (omega arith) r m)
        ⊎ (IsBefore functions n_fun 0 8 70 functions-Spaced (omega arith) r
            ⊎ IsAbsent functions n_fun 0 8 70 functions-Spaced (omega arith) r))
stab_binsearch_lem_example =
    stab_binsearch_lem functions n_fun 0 8 70 functions-Spaced (omega arith) 12 (omega arith)
      (omega arith)

abbrev close : ℕ → Stab
close i = record { n_strx = 0; n_type = n_fun; n_desc = 0; n_value = 100 + i }

stab_binsearch-overlap_example :
    stab_binsearch close n_fun 5 0 2 100 ≡ some (record { left_next = 2; right_next = 2 })
stab_binsearch-overlap_example =
    stab_binsearch-overlap close n_fun 100 refl refl refl refl (omega arith)
