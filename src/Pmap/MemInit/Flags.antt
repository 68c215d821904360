-- ===== src/Pmap/MemInit/Flags.antt =====
-- The permission bits of the entries that `boot_map_region` and `mem_init` of pmap.c write.
use at_jos.Base.{ℕ, ◌+◌, ◌*◌, ◌/◌, ◌%◌, ◌≡◌, false, not, ◌==◌, arith, ap, ◌∙◌, bit_and, bit_or}
use at_jos.Base.Bits.{or_disjoint, and_high, and-one}
use at_jos.Pmap.Addr.{pte_u, pte_w, pte_p, has_flag}
use at_jos.Pmap.Table.Region.{entry_for}

kernel_entry : (q : ℕ) → entry_for (q * 4096) pte_w ≡ q * 4096 + 3
kernel_entry q =
    ap (λ (w : ℕ). bit_or w pte_p) (or_disjoint 12 q 2 (omega arith))
    ∙ ap (λ (w : ℕ). bit_or w pte_p) (omega arith)
    ∙ or_disjoint 1 (q * 2048 + 1) 1 (omega arith)
    ∙ omega arith

user_entry : (q : ℕ) → entry_for (q * 4096) pte_u ≡ q * 4096 + 5
user_entry q =
    ap (λ (w : ℕ). bit_or w pte_p) (or_disjoint 12 q 4 (omega arith))
    ∙ ap (λ (w : ℕ). bit_or w pte_p) (omega arith)
    ∙ or_disjoint 1 (q * 2048 + 2) 1 (omega arith)
    ∙ omega arith

-- An entry for the kernel is not for the user, and one for the user is not writable.
pub kernel_entry-user : (pa : ℕ) → pa % 4096 ≡ 0 → has_flag (entry_for pa pte_w) pte_u ≡ false
kernel_entry-user pa whole =
    let q = pa / 4096 in
    let exact : pa ≡ q * 4096 = omega arith in
    let clear : bit_and (q * 4096 + 3) 4 ≡ 0 =
      omega (arith, and_high 2 1 (q * 4096 + 3), and-one ((q * 4096 + 3) / 4)) in
    ap (λ (a : ℕ). has_flag (entry_for a pte_w) pte_u) exact
    ∙ ap (λ (w : ℕ). has_flag w pte_u) (kernel_entry q)
    ∙ ap (λ (w : ℕ). not (w == 0)) clear

pub user_entry-writable : (pa : ℕ) → pa % 4096 ≡ 0 → has_flag (entry_for pa pte_u) pte_w ≡ false
user_entry-writable pa whole =
    let q = pa / 4096 in
    let exact : pa ≡ q * 4096 = omega arith in
    let clear : bit_and (q * 4096 + 5) 2 ≡ 0 =
      omega (arith, and_high 1 1 (q * 4096 + 5), and-one ((q * 4096 + 5) / 2)) in
    ap (λ (a : ℕ). has_flag (entry_for a pte_u) pte_w) exact
    ∙ ap (λ (w : ℕ). has_flag w pte_w) (user_entry q)
    ∙ ap (λ (w : ℕ). not (w == 0)) clear
