-- ===== src/Pmap/MemInit/Runs.antt =====
-- The loops of `check_kern_pgdir` of pmap.c.
use at_jos.Base.{
  ℕ, zero, suc, ◌+◌, ◌*◌, ◌%◌, ◌≤◌, ◌<◌, ◌≡◌, refl, true, List, arith, ◌∙◌, bit_or, ◌⊎◌,
}
use at_jos.Base.Bits.{or-page, or_step}
use at_jos.Base.Monad.{done, Cmd}
use at_jos.Pmap.Addr.{page_size, word_mod, pte_w, pdx, pte_p, has_flag, pte_addr, present_iff}
use at_jos.Pmap.State.{Memory}
use at_jos.Pmap.Table.{check_va2pa, no_address}
use at_jos.Pmap.Table.Slots.{check_va2pa-entry}
use at_jos.Pmap.Table.Space.{IsSpace, entry}
use at_jos.Pmap.Table.Region.{entry_for}
use at_jos.Pmap.MemInit.{check_run, check_slot, check_slots}

-- An entry for the page at `pa` is present and names it.
pub entry_for-reads :
    (pa perm : ℕ)
    → pa % 4096 ≡ 0
    → perm < 4096
    → (has_flag (entry_for pa perm) pte_p ≡ true) × (pte_addr (entry_for pa perm) ≡ pa)
unfolding pte_addr
entry_for-reads pa perm whole low = (
  (present_iff _).1 (omega (arith, or_step (bit_or pa perm) 1)),
  omega (arith, or-page (bit_or pa perm) 1 (omega arith), or-page pa perm low),
)

-- What is read back from a page that is mapped.
pub check_va2pa-there :
    (m : Memory) (pgdir va pa perm : ℕ) {free : List ℕ}
    → IsSpace m pgdir free
    → entry m pgdir va ≡ entry_for pa perm
    → pa % 4096 ≡ 0
    → perm < 4096
    → check_va2pa pgdir va m ≡ done (pa, m)
check_va2pa-there m pgdir va pa perm space e whole low =
    check_va2pa-entry m pgdir va space
    ∙ rw (e, (entry_for-reads pa perm whole low).0, (entry_for-reads pa perm whole low).1) refl

pub check_va2pa-gone :
    (m : Memory) (pgdir va : ℕ) {free : List ℕ}
    → IsSpace m pgdir free
    → entry m pgdir va ≡ 0
    → check_va2pa pgdir va m ≡ done (no_address, m)
check_va2pa-gone m pgdir va space e = check_va2pa-entry m pgdir va space ∙ rw e refl

check_run-step :
    (m : Memory) (pgdir va base rounds i : ℕ) (pa : Cmd Memory ℕ)
    → pa m ≡ done (base, m)
    → check_va2pa pgdir ((va + i) % word_mod) m ≡ done ((base + i) % word_mod, m)
    → check_run pgdir va pa (suc rounds) i m ≡ check_run pgdir va pa rounds (i + page_size) m
unfolding check_run
check_run-step m pgdir va base rounds i pa known reads = ground (arith, known, reads)

-- The loop passes over pages that are all mapped as it expects.
pub check_run_lem :
    (m : Memory) (pgdir va base : ℕ) (pa : Cmd Memory ℕ) (rounds i : ℕ)
    → pa m ≡ done (base, m)
    → ((k : ℕ)
        → i ≤ k
        → k < i + 4096 * rounds
        → k % 4096 ≡ i % 4096
        → check_va2pa pgdir ((va + k) % word_mod) m ≡ done ((base + k) % word_mod, m))
    → check_run pgdir va pa rounds i m ≡ done (tt, m)
unfolding check_run
check_run_lem m pgdir va base pa zero i known reads = refl
check_run_lem m pgdir va base pa (suc rounds) i known reads =
    check_run-step m pgdir va base rounds i pa known (reads i (omega arith) (omega arith) refl)
    ∙ check_run_lem m pgdir va base pa rounds (i + page_size) known
        (λ k lo hi same. reads k (omega arith) (omega arith) (omega arith))

check_slots-step :
    (m : Memory) (pgdir rounds i : ℕ)
    → check_slot i (m.words pgdir i) m ≡ done (tt, m)
    → check_slots pgdir (suc rounds) i m ≡ check_slots pgdir rounds (i + 1) m
unfolding check_slots
check_slots-step m pgdir rounds i e = ground (arith, e)

pub check_slots_lem :
    (m : Memory) (pgdir rounds i : ℕ)
    → ((k : ℕ) → k < i + rounds → check_slot k (m.words pgdir k) m ≡ done (tt, m))
    → check_slots pgdir rounds i m ≡ done (tt, m)
unfolding check_slots
check_slots_lem m pgdir zero i passes = refl
check_slots_lem m pgdir (suc rounds) i passes =
    check_slots-step m pgdir rounds i (passes i (omega arith))
    ∙ check_slots_lem m pgdir rounds (i + 1) (λ k lt. passes k (omega arith))

pub listed-passes :
    (k w : ℕ) (m : Memory)
    → ((k ≡ 955) ⊎ (k ≡ 956)) ⊎ ((k ≡ 957) ⊎ (k ≡ 959))
    → has_flag w pte_p ≡ true
    → check_slot k w m ≡ done (tt, m)
unfolding check_slot pdx
listed-passes k w m listed there = ground arith

pub high-passes :
    (k w : ℕ) (m : Memory)
    → 960 ≤ k
    → has_flag w pte_p ≡ true
    → has_flag w pte_w ≡ true
    → check_slot k w m ≡ done (tt, m)
unfolding check_slot pdx
high-passes k w m high there writable = ground arith

pub low-passes :
    (k w : ℕ) (m : Memory) → (k < 955) ⊎ (k ≡ 958) → w ≡ 0 → check_slot k w m ≡ done (tt, m)
unfolding check_slot pdx
low-passes k w m low zero_word = ground arith
