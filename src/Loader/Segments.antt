-- ===== src/Loader/Segments.antt =====
-- What `bootmain` of boot/main.c brings into memory, and where it goes on.
use at_jos.Base.{ℕ, ◌+◌, ◌-◌, ◌*◌, ◌/◌, ◌%◌, ◌^◌, ◌≤◌, ◌<◌, ◌≡◌}
use at_jos.Loader.{elfhdr, elf_magic, half, word}

-- The kernel's file, which starts at the second sector, and the fields of its program headers.
module _ (disk : ℕ → ℕ) where
  abbrev pub kernel : ℕ → ℕ
  kernel i = disk (512 + i)

  abbrev pub header_at : ℕ → ℕ
  header_at i = word kernel 28 + 32 * i

  abbrev pub p_pa : ℕ → ℕ
  p_pa i = word kernel (header_at i + 12)

  abbrev pub p_memsz : ℕ → ℕ
  p_memsz i = word kernel (header_at i + 20)

  abbrev pub p_offset : ℕ → ℕ
  p_offset i = word kernel (header_at i + 4)

  -- The segment stands at the same place of its sector as in the file, past the first page of the
  -- file, and within the addresses.
  pub record IsSegment (sectors i : ℕ) : Type 0 where
    pub same : p_pa i % 512 ≡ p_offset i % 512
    pub fits : p_pa i + p_memsz i ≤ 2 ^ 32 - 512
    pub file : p_offset i < 2 ^ 32
    pub past : 69632 ≤ p_pa i / 512 * 512
    pub enough : p_memsz i / 512 + 2 < sectors

  abbrev pub IsLoaded : ℕ → (ℕ → ℕ) → Type 0
  IsLoaded i m =
      (a : ℕ) → p_pa i ≤ a → a < p_pa i + p_memsz i → m a ≡ kernel (p_offset i + (a - p_pa i))

  -- A file for this machine, whose program headers stand in its first page and whose segments stand
  -- in ascending sectors.
  pub record IsKernel (sectors : ℕ) : Type 0 where
    pub magic : word kernel 0 ≡ elf_magic
    pub headers : header_at (half kernel 44) ≤ 4096
    pub segment : (i : ℕ) → i < half kernel 44 → IsSegment sectors i
    pub ascending : (i j : ℕ) → i < j → j < half kernel 44 → p_pa i + p_memsz i ≤ p_pa j / 512 * 512

  abbrev Header : (ℕ → ℕ) → Type 0
  Header m = (a : ℕ) → a < 4096 → m (elfhdr + a) ≡ kernel a
