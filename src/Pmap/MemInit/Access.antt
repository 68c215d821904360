-- ===== src/Pmap/MemInit/Access.antt =====
-- Who may use the kernel's address space that `mem_init` of pmap.c makes.
use at_jos.Base.{ℕ, Bool, ◌&&◌}
use at_jos.Pmap.Addr.{pte_u, pte_w, pte_p, has_flag, pdx}
use at_jos.Pmap.State.{Memory}
use at_jos.Pmap.Table.Space.{entry}

-- What the processor lets a user program do: both the directory slot and the entry must allow it.
abbrev pub user_can_read : Memory → ℕ → ℕ → Bool
user_can_read m pgdir a =
    (has_flag (m.words pgdir (pdx a)) pte_u && has_flag (entry m pgdir a) pte_p)
    && has_flag (entry m pgdir a) pte_u

abbrev pub user_can_write : Memory → ℕ → ℕ → Bool
user_can_write m pgdir a =
    user_can_read m pgdir a
    && (has_flag (m.words pgdir (pdx a)) pte_w && has_flag (entry m pgdir a) pte_w)
