-- ===== src/Syscall/Cputs.antt =====
-- `sys_cputs` and the memory of the program that calls it.
use at_jos.Base.{
  ℕ, ◌+◌, ◌-◌, ◌^◌, ◌≤◌, ◌<◌, ◌≡◌, ◌≢◌, true, false, none, some, List, ◌∷◌, arith, ◌∙◌, inl, inr,
  ◌⊎◌, length,
}
use native.Mathlib.Decide.{dec_lt}
use at_jos.Base.Int.{ℤ, pos, neg}
use at_jos.Base.Monad.{done, panicked, Cmd}
use at_jos.Pmap.Addr.{pte_u, page_size, word_mod, round_down}
use at_jos.Pmap.State.{Memory}
use at_jos.Pmap.UserMem.{user_mem_check, e_fault}
use at_jos.Pmap.UserMem.Text.{
  user_byte, cprintf_text, user_byte-accessible, IsText, Holds, read_text_lem, read_text-fault,
}
use at_jos.Pmap.UserMem.Range.{TablesInRange, may_access, faulted, user_mem_check_lem}
use at_jos.Env.State.{Layout, IsLayout, Kernel, is_free}
use at_jos.Env.Ops.{envid2env}
use at_jos.Env.Life.{returned, env_destroy, user_mem_assert}
use at_jos.Env.Lookup.{envid2env-checkperm}
use at_jos.Syscall.{sys_cputs, syscall, cputs, print_text, getenvid}

-- The current environment is live, its slot is the one that its id names, and the
-- processor uses its address space.
pub record IsCurrent (l : Layout) (k : Kernel) (c pgdir : ℕ) : Type 0 where
  pub cur : k.curenv ≡ some c
  pub index : l.envx (k.envs c).env_id ≡ c
  pub live : is_free (k.envs c).env_status ≡ false
  pub positive : 0 < (k.envs c).env_id
  pub has_space : (k.envs c).env_pgdir ≡ some pgdir
  pub in_space : k.loaded ≡ pgdir

-- The kernel after it printed user text.
abbrev pub with_text : List ℕ → Kernel → Kernel
with_text bs k = record k { printed = bs ∷ k.printed }

module _ (l : Layout) (is : IsLayout l) (cons_getc : Cmd Kernel ℕ) (k : Kernel) (c pgdir : ℕ)
    (current : IsCurrent l k c pgdir) where
  own : envid2env l (k.envs c).env_id true k ≡ done ((pos 0, some c), k)
  own =
      envid2env-checkperm l is k c c current.cur current.index current.live current.positive
      ∙ ground arith

  -- The check passes and the text can be read: it is printed.
  cputs-pass :
      (s len : ℕ) (bs : List ℕ)
      → user_mem_check pgdir s len pte_u k.mem ≡ done (pos 0, k.mem)
      → cprintf_text k.mem k.loaded s len ≡ some bs
      → syscall l cons_getc sys_cputs s len k ≡ done (returned (pos 0), with_text bs k)
  unfolding syscall cputs getenvid user_mem_assert print_text
  cputs-pass s len bs h readable = ground (arith, own, current.cur, current.has_space, h, readable)

  -- The check passes and the text cannot be read: the kernel faults.
  cputs-panic :
      (s len : ℕ)
      → user_mem_check pgdir s len pte_u k.mem ≡ done (pos 0, k.mem)
      → cprintf_text k.mem k.loaded s len ≡ none
      → syscall l cons_getc sys_cputs s len k ≡ panicked
  unfolding syscall cputs getenvid user_mem_assert print_text
  cputs-panic s len h gone = ground (arith, own, current.cur, current.has_space, h, gone)

  -- The check fails: the call does not return.
  cputs-fail :
      (s len : ℕ) (m : Memory)
      → user_mem_check pgdir s len pte_u k.mem ≡ done (neg e_fault, m)
      → (r : ℤ) (k' : Kernel) → syscall l cons_getc sys_cputs s len k ≢ done (returned r, k')
  unfolding syscall cputs getenvid user_mem_assert env_destroy print_text
  cputs-fail s len m h r k' e = ground (arith, own, current.cur, current.has_space, h)

  module _ (s len : ℕ) (tables : TablesInRange k.mem pgdir) (set : 0 < s) (some_bytes : 0 < len)
      (precise : len < 2 ^ 31) (clear : s + len + (page_size - 1) < word_mod) where
    -- The program may read every byte of the range.
    abbrev pub IsReadable : Type 0
    IsReadable =
        (a : ℕ) → s ≤ a → a < s + len → may_access k.mem pgdir pte_u (round_down a page_size) ≡ true

    bytes_readable :
        IsReadable
        → (b : ℕ) × (user_byte k.mem pgdir (s + len) ≡ some b)
        → (i : ℕ) → s ≤ i
        → i ≤ s + len
        → (b : ℕ) × (user_byte k.mem pgdir i ≡ some b)
    bytes_readable all behind i low high = elim (dec_lt i (s + len)) [
      | yes inside ↦ user_byte-accessible k.mem pgdir i (all i low inside)
      | no past ↦ let last : i ≡ s + len = omega arith in rw last behind
    ]

    printed-IsText :
        IsReadable
        → (b : ℕ) × (user_byte k.mem pgdir (s + len) ≡ some b)
        → user_mem_check pgdir s len pte_u k.mem ≡ done (pos 0, k.mem)
        → (bs : List ℕ) × IsText k.mem pgdir len s bs
          × (syscall l cons_getc sys_cputs s len k ≡ done (returned (pos 0), with_text bs k))
    unfolding cprintf_text
    printed-IsText all behind e =
        let (bs, run, text) =
          read_text_lem k.mem pgdir len s (bytes_readable all behind) (omega arith) in
        (bs, text, cputs-pass s len bs e (ground (arith, current.in_space, run)))

    -- For a live current environment whose page tables are pages of the machine and whose address space is
    -- loaded, on a range that does not start at 0, has from 1 to 2 ^ 31 - 1 bytes, stays clear of the last page of
    -- the address space, and has a mapped byte behind it: if the program may read every byte of the range,
    -- `sys_cputs` prints its bytes up to the first 0, all of them if there is none, returns 0, and changes
    -- nothing else. If there is a byte that it may not read, the call never returns.
    pub cputs_lem :
        (b : ℕ)
        → user_byte k.mem pgdir (s + len) ≡ some b
        → (IsReadable
            × ((bs : List ℕ) × IsText k.mem pgdir len s bs
                × (syscall l cons_getc sys_cputs s len k
                    ≡ done (returned (pos 0), with_text bs k))))
          ⊎ ((bad : ℕ) × (s ≤ bad)
              × (bad < s + len)
              × (may_access k.mem pgdir pte_u (round_down bad page_size) ≡ false)
              × ((r : ℤ) (k' : Kernel)
                  → syscall l cons_getc sys_cputs s len k ≢ done (returned r, k')))
    cputs_lem b behind = elim (user_mem_check_lem k.mem pgdir s pte_u tables len some_bytes clear) [
      | inl (e, all) ↦ inl (all, printed-IsText all (b, behind) e)
      | inr (bad, e, from, below, refused, _) ↦
          inr (bad, from, below, refused, cputs-fail s len (faulted bad k.mem) e)
    ]

    -- For a live current environment whose page tables are pages of the machine and whose address space is
    -- loaded, and a range that does not start at 0, has from 1 to 2 ^ 31 - 1 bytes, and stays clear of the last
    -- page of the address space: if the program may read the whole range, no byte of it is 0, and the byte
    -- behind it is not mapped, `sys_cputs` panics the kernel.
    pub cputs-panics_behind :
        (bs : List ℕ)
        → IsReadable
        → length bs ≡ len
        → Holds k.mem pgdir s bs
        → user_byte k.mem pgdir (s + len) ≡ none
        → syscall l cons_getc sys_cputs s len k ≡ panicked
    unfolding cprintf_text
    cputs-panics_behind bs all whole held gone =
        elim (user_mem_check_lem k.mem pgdir s pte_u tables len some_bytes clear) [
          | inl (e, _) ↦
              let gone' = rw (← whole) at gone in
              let fault = read_text-fault k.mem pgdir bs s held (rw whole (omega arith)) gone' in
              let fault' = rw whole at fault in
              cputs-panic s len e (ground (arith, current.in_space, fault'))
          | inr (bad, e, from, below, refused, _) ↦ absurd (cc (refused, all bad from below))
        ]
