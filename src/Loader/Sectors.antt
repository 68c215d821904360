-- ===== src/Loader/Sectors.antt =====
-- What `readseg` of boot/main.c brings into memory.
use at_jos.Base.{ℕ, ◌+◌, ◌-◌, ◌*◌, ◌/◌, ◌%◌, ◌^◌, ◌≤◌, ◌<◌, ◌≡◌}
use at_jos.Loader.{Task}

-- The sector that the registers name.
abbrev pub lba : Task → ℕ
lba t = t.lba_low + 2 ^ 8 * t.lba_mid + 2 ^ 16 * t.lba_high + 2 ^ 24 * (t.device % 16)

-- A drive that holds the bytes `disk` answers a read of one sector with its bytes.
abbrev pub Holds : (Task → ℕ → ℕ) → (ℕ → ℕ) → Type 0
Holds drive disk = (t : Task) (i : ℕ) → t.count ≡ 1 → i < 512 → drive t i ≡ disk (512 * lba t + i)

-- The addresses from `pa` to `end_pa` hold the bytes of the disk from `at` on, and those outside the
-- whole sectors from `start` to `end_pa` are as before.
pub record IsRead (disk : ℕ → ℕ) (start pa end_pa at : ℕ) (m m' : ℕ → ℕ) : Type 0 where
  pub loaded : (a : ℕ) → pa ≤ a → a < end_pa → m' a ≡ disk (at + (a - pa))
  pub below : (a : ℕ) → a < start → m' a ≡ m a
  pub above : (a : ℕ) → a < 2 ^ 32 → start ≤ a → (end_pa + 511) / 512 * 512 ≤ a → m' a ≡ m a
