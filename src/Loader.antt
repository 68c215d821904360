-- ===== src/Loader.antt =====
-- The boot loader, boot/main.c, and `insl` of inc/x86.h. A memory gives the byte at each physical
-- address; the disk drive is a parameter, which gives the bytes that it answers to its registers.
-- `waitdisk`, which only polls until the drive is ready, is left out.
pub mod Sectors
pub mod Segments
use at_jos.Base.{
  ℕ, zero, suc, ◌+◌, ◌-◌, ◌*◌, ◌/◌, ◌%◌, ◌^◌, Option, none, some, ◌==◌, ltb, if◌then◌else◌, bit_and,
  bit_or,
}

-- What the registers 0x1F2 to 0x1F6 hold when the drive gets command 0x20.
pub record Task : Type 0 where
  pub count : ℕ
  pub lba_low : ℕ
  pub lba_mid : ℕ
  pub lba_high : ℕ
  pub device : ℕ

abbrev pub sect_size : ℕ
sect_size = 512

abbrev pub elfhdr : ℕ
elfhdr = 65536

abbrev pub elf_magic : ℕ
elf_magic = 1179403647

-- `insl(0x1F0, dst, SECTSIZE/4)`
unfoldable pub insl : (ℕ → ℕ) → ℕ → (ℕ → ℕ) → ℕ → ℕ
insl data_port dst m a =
    let i = (a + 2 ^ 32 - dst) % 2 ^ 32 in if ltb i sect_size then data_port i else m a

-- Little-endian reads.
abbrev pub half : (ℕ → ℕ) → ℕ → ℕ
half m a = m a + 256 * m (a + 1)

abbrev pub word : (ℕ → ℕ) → ℕ → ℕ
word m a = half m a + 65536 * half m (a + 2)

-- `bad:` or the call of the kernel's entry.
pub data Outcome : Type 0 where
  bad : Outcome
  entered : ℕ → (ℕ → ℕ) → Outcome

module _ (drive : Task → ℕ → ℕ) where
  unfoldable pub readsect : ℕ → ℕ → (ℕ → ℕ) → ℕ → ℕ
  readsect dst offset m =
      let task : Task = record {
        count = 1;
        lba_low = offset % 256;
        lba_mid = offset / 2 ^ 8 % 256;
        lba_high = offset / 2 ^ 16 % 256;
        device = bit_or (offset / 2 ^ 24) 224 % 256;
      } in
      insl (drive task) dst m

  -- The loop of `readseg`; `none`: the fuel ran out.
  unfoldable pub read_sectors : ℕ → ℕ → ℕ → ℕ → (ℕ → ℕ) → Option (ℕ → ℕ)
  read_sectors zero pa end_pa offset m = none
  read_sectors (suc fuel) pa end_pa offset m =
      let rest =
        read_sectors fuel ((pa + sect_size) % 2 ^ 32) end_pa ((offset + 1) % 2 ^ 32)
          (readsect pa offset m) in
      if ltb pa end_pa then rest else some m

  unfoldable pub readseg : ℕ → ℕ → ℕ → ℕ → (ℕ → ℕ) → Option (ℕ → ℕ)
  readseg fuel pa count offset m =
      read_sectors fuel (bit_and pa (2 ^ 32 - sect_size)) ((pa + count) % 2 ^ 32)
        (offset / sect_size + 1) m

  abbrev pub load_next : ((ℕ → ℕ) → Option (ℕ → ℕ)) → Option (ℕ → ℕ) → Option (ℕ → ℕ)
  load_next rest none = none
  load_next rest (some m) = rest m

  -- The loop of `bootmain` over the program headers; each call of `readseg` has the fuel `sectors`.
  unfoldable pub load_segments : ℕ → ℕ → ℕ → ℕ → (ℕ → ℕ) → Option (ℕ → ℕ)
  load_segments sectors zero ph eph m = none
  load_segments sectors (suc fuel) ph eph m =
      let rest = load_segments sectors fuel ((ph + 32) % 2 ^ 32) eph in
      if ltb ph eph
      then load_next rest
          (readseg sectors (word m (ph + 12)) (word m (ph + 20)) (word m (ph + 4)) m)
      else some m

  abbrev pub enter : Option (ℕ → ℕ) → Option Outcome
  enter none = none
  enter (some m) = some (entered (word m (elfhdr + 24)) m)

  abbrev pub check_header : ℕ → ℕ → Option (ℕ → ℕ) → Option Outcome
  check_header sectors fuel none = none
  check_header sectors fuel (some m) =
      let ph = (elfhdr + word m (elfhdr + 28)) % 2 ^ 32 in
      let eph = (ph + 32 * half m (elfhdr + 44)) % 2 ^ 32 in
      if word m elfhdr == elf_magic then enter (load_segments sectors fuel ph eph m) else some bad

  unfoldable pub bootmain : ℕ → ℕ → (ℕ → ℕ) → Option Outcome
  bootmain sectors fuel m = check_header sectors fuel (readseg sectors elfhdr (sect_size * 8) 0 m)
