-- ===== src/Pmap/Detect.antt =====
-- `i386_detect_memory` of pmap.c. The bytes of the clock's non-volatile memory are a parameter.
use at_jos.Base.{ℕ, ◌+◌, ◌*◌, ◌/◌, ◌^◌, ◌==◌, if◌then◌else◌, bit_or}

abbrev pub nvram_baselo : ℕ
nvram_baselo = 21

abbrev pub nvram_extlo : ℕ
nvram_extlo = 23

module _ (mc146818_read : ℕ → ℕ) where
  unfoldable pub nvram_read : ℕ → ℕ
  nvram_read r = bit_or (mc146818_read r) (mc146818_read (r + 1) * 2 ^ 8)

  -- `npages_basemem` and `npages`
  unfoldable pub i386_detect_memory : ℕ × ℕ
  i386_detect_memory =
      let npages_basemem = nvram_read nvram_baselo * 1024 / 4096 in
      let npages_extmem = nvram_read nvram_extlo * 1024 / 4096 in
      (
        npages_basemem,
        if npages_extmem == 0 then npages_basemem else 1048576 / 4096 + npages_extmem,
      )
