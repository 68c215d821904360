-- ===== src/Tests/Machines.antt =====
-- A concrete disk and command line.
use at_jos.Base.{ℕ, ◌+◌, ◌-◌, ◌*◌, ◌%◌, ◌<◌, refl, ◌≢◌, [], ◌∷◌, ◌==◌, if◌then◌else◌, arith}
use at_jos.CString.{Bytes}
use at_jos.Loader.{Task}
use at_jos.Loader.Sectors.{lba}
use at_jos.Monitor.Words.{words}
use at_jos.Console.Readline.{typed_all}
use at_jos.Monitor.Round.{unstack, monitor_round, monitor_round_lem}
use at_jos.Monitor.Command.{IsRun}

abbrev numbered : ℕ → ℕ
numbered b = b % 251

abbrev drive_of : (ℕ → ℕ) → Task → ℕ → ℕ
drive_of disk t i = disk (512 * lba t + i)

-- A kernel of one segment, the file's bytes from 4096 on, for 0x100000; the entry is 0x10000c.
abbrev image : ℕ → ℕ
image i =
    if i == 0
    then 127
    else if i == 1
    then 69
    else if i == 2
    then 76
    else if i == 3
    then 70
    else if i == 24
    then 12
    else if i == 26
    then 16
    else if i == 28
    then 52
    else if i == 44
    then 1
    else if i == 57
    then 16
    else if i == 66
    then 16
    else if i == 73
    then 4
    else 0

abbrev kernel_disk : ℕ → ℕ
kernel_disk b = image (b - 512)

-- "b" at 10, the name of a command, and " b x" at 20, the line.
abbrev line : Bytes
line a =
    if a == 10
    then 98
    else if a == 20
    then 32
    else if a == 21
    then 98
    else if a == 22
    then 32
    else if a == 23
    then 120
    else 0

not_nul : (c : ℕ) → 0 < c → c ≢ 0
not_nul c h e = omega arith

-- The characters "bx", a backspace, and Enter; the name "b" at 10 and the buffer at 20.
monitor_round_lem_example :
    IsRun
      ((98 ∷ []) ∷ [])
      (words (unstack (typed_all (98 ∷ 120 ∷ 8 ∷ []) []) []))
      (monitor_round 1024 (10 ∷ []) 20 (98 ∷ 120 ∷ 8 ∷ 13 ∷ []) line)
monitor_round_lem_example =
    monitor_round_lem 1024 20 13 (10 ∷ []) (98 ∷ 120 ∷ 8 ∷ []) [] ((98 ∷ []) ∷ []) line refl refl
      (omega arith, (omega arith, (omega arith, tt)))
      ((refl, not_nul 98 (omega arith), refl), omega arith, omega arith, tt) (omega arith)
