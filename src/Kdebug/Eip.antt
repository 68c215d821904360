-- ===== src/Kdebug/Eip.antt =====
-- `debuginfo_eip`: what is known of an instruction address. A pointer into the string table is an
-- offset, and `none` stands for the text "<unknown>". The tables of a user program are parameters.
use at_jos.Base.{
  ℕ, zero, suc, ◌+◌, ◌-◌, ◌/◌, ◌%◌, ◌^◌, Bool, not, ◌||◌, ◌&&◌, Option, none, some, ◌==◌, ltb, leb,
  if◌then◌else◌,
}
use at_jos.Base.Int.{pos}
use at_jos.Base.Monad.{Outcome, done, panicked}
use at_jos.CString.{strfind}
use at_jos.Pmap.Addr.{ulim, pte_u, table_size}
use at_jos.Pmap.State.{Memory}
use at_jos.Pmap.UserMem.{user_mem_check}
use at_jos.Kdebug.{Stab, Region, stab_binsearch}

abbrev pub n_fun : ℕ
n_fun = 0x24

abbrev pub n_sline : ℕ
n_sline = 0x44

abbrev pub n_so : ℕ
n_so = 0x64

abbrev pub n_sol : ℕ
n_sol = 0x84

abbrev pub n_psym : ℕ
n_psym = 0xa0

-- The stabs, their number, and the string table with its size.
pub record Symbols : Type 0 where
  pub stabs : ℕ → Stab
  pub count : ℕ
  pub stabstr : ℕ → ℕ
  pub stabstr_size : ℕ

pub record Eipdebuginfo : Type 0 where
  pub eip_file : Option ℕ
  pub eip_line : ℕ
  pub eip_fn_name : Option ℕ
  pub eip_fn_namelen : ℕ
  pub eip_fn_addr : ℕ
  pub eip_fn_narg : ℕ

unfoldable pub unknown_info : ℕ → Eipdebuginfo
unknown_info addr = record {
  eip_file = none;
  eip_line = 0;
  eip_fn_name = none;
  eip_fn_namelen = 9;
  eip_fn_addr = addr;
  eip_fn_narg = 0;
}

-- `return -1` leaves the information as it is; `undefined` stands for a read of `stabs[-1]`, or for
-- fuel that ran out.
pub data Lookup : Type 0 where
  found failed : Eipdebuginfo → Lookup
  undefined : Lookup

-- The indices that a search leaves; the code goes on to read the stab at the left one.
abbrev pub with_region : Option Region → (ℕ → ℕ → Lookup) → Lookup
with_region none f = undefined
with_region (some r) f = if r.left_next == 0 then undefined else f (r.left_next - 1) r.right_next

module _ (t : Symbols) where
  abbrev pub search_kind : ℕ → ℕ → ℕ → ℕ → Option Region
  search_kind kind left right_next addr =
      stab_binsearch t.stabs kind (t.count + 3) left right_next addr

  -- `stabs[i].n_strx < stabstr_end - stabstr`
  abbrev pub name_at : ℕ → Option ℕ → Option ℕ
  name_at i other = if ltb (t.stabs i).n_strx t.stabstr_size then some (t.stabs i).n_strx else other

  -- "<unknown>" has nine characters and no colon.
  unfoldable pub name_length : Option ℕ → ℕ
  name_length none = 9
  name_length (some strx) = elim (strfind (t.stabstr_size + 1) t.stabstr strx 58) [
    | none ↦ 0
    | some q ↦ q - strx
  ]

  abbrev pub names_file : ℕ → Bool
  names_file i =
      ((t.stabs i).n_type == n_sol)
      || (((t.stabs i).n_type == n_so) && not ((t.stabs i).n_value == 0))

  -- The search backwards for a file name, from `lfile + count - 1` down to `lfile`.
  unfoldable pub find_file : ℕ → ℕ → Option ℕ
  find_file lfile zero = none
  find_file lfile (suc count) =
      let rest = find_file lfile count in
      if names_file (lfile + count) then some (lfile + count) else rest

  -- Parameters from stab `i` on, at most `count`.
  unfoldable pub count_args : ℕ → ℕ → ℕ
  count_args i zero = 0
  count_args i (suc count) =
      let rest = count_args (i + 1) count in if (t.stabs i).n_type == n_psym then rest + 1 else 0

  -- The end of the function, with the indices `lfile`, `lfun` and `lline`, and `rfun + 1`.
  unfoldable pub describe : ℕ → ℕ → ℕ → ℕ → Eipdebuginfo → Lookup
  describe lfile lfun rfun_next lline info = found (record info {
    eip_fn_namelen = name_length info.eip_fn_name;
    eip_file = elim (find_file lfile (lline + 1 - lfile)) [ none ↦ none | some i ↦ name_at i none ];
    eip_fn_narg =
        if ltb (lfun + 1) rfun_next then count_args (lfun + 1) (rfun_next - (lfun + 2)) else 0;
  })

  -- A function stab was found: its name and address, and the line.
  unfoldable pub in_function : ℕ → ℕ → ℕ → ℕ → Lookup
  in_function lfile lfun rfun_next addr =
      let fn = (t.stabs lfun).n_value in
      with_region (search_kind n_sline lfun rfun_next ((addr + 2 ^ 32 - fn) % 2 ^ 32))
        (λ lline rline_next. describe lfile lfun rfun_next lline (record (unknown_info addr) {
          eip_fn_name = name_at lfun none;
          eip_fn_addr = fn;
          eip_line = (t.stabs lline).n_desc;
        }))

  -- The search for the function in the file.
  unfoldable pub in_file : ℕ → ℕ → ℕ → Lookup
  in_file lfile rfile_next addr =
      with_region (search_kind n_fun lfile rfile_next addr) (λ lfun rfun_next.
        if leb (lfun + 1) rfun_next
        then in_function lfile lfun rfun_next addr
        else describe lfile lfun rfun_next lfile (unknown_info addr))

  -- `debuginfo_eip` from the test of the string table on.
  unfoldable pub lookup_eip : ℕ → Lookup
  lookup_eip addr =
      if (t.stabstr_size == 0) || not (t.stabstr (t.stabstr_size - 1) == 0)
      then failed (unknown_info addr)
      else with_region (search_kind n_so 0 t.count addr) (λ lfile rfile_next.
        if lfile == 0 then failed (unknown_info addr) else in_file lfile rfile_next addr)

-- The addresses in the structure at USTABDATA, and the tables behind them.
pub record UserStabs : Type 0 where
  pub stabs_va : ℕ
  pub stabstr_va : ℕ
  pub symbols : Symbols

abbrev pub ustabdata : ℕ
ustabdata = table_size / 2

-- `if (user_mem_check(curenv, va, len, PTE_U)) return -1;`
abbrev pub checked :
    ℕ → ℕ → ℕ → ℕ → (Memory → Outcome (Lookup × Memory)) → Memory → Outcome (Lookup × Memory)
checked pgdir va len addr next m = elim (user_mem_check pgdir va len pte_u m) [
  | done (pos zero, m') ↦ next m'
  | done (r, m') ↦ done (failed (unknown_info addr), m')
  | panicked ↦ panicked
]

unfoldable pub debuginfo_eip : Symbols → UserStabs → ℕ → ℕ → Memory → Outcome (Lookup × Memory)
debuginfo_eip kernel user pgdir addr m =
    if leb ulim addr
    then done (lookup_eip kernel addr, m)
    else checked pgdir ustabdata 16 addr
        (checked pgdir user.stabs_va 12 addr (
          checked pgdir user.stabstr_va user.symbols.stabstr_size addr
            (λ m'. done (lookup_eip user.symbols addr, m'))))
        m
