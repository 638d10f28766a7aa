-- ===== src/Kernel/Debuginfo.antt =====
-- `debuginfo_eip` of kern/kdebug.c. The tables of the kernel, which the linker fills, and what the
-- user memory at `USTABDATA` and the tables that it names hold are arguments.
pub mod Entries
pub mod Functions
use csdi_jos.Common.{
  ℕ, zero, suc, ◌+◌, ◌-◌, ◌*◌, ◌/◌, ◌%◌, ◌^◌, Bool, true, false, not, ◌&&◌, ◌||◌, ◌==◌, ltb, leb,
  length, Option, none, some, List, [], ◌∷◌, if◌then◌else◌,
}
use mathlib.Core.Option
use csdi_jos.Kernel.State.{Kernel, Env, Outcome, ret, fault, K, pure, and_then, ◌>>=◌, get}
use csdi_jos.Kernel.State.Layout.{u_lim, sub32, is_neg}
use csdi_jos.Kernel.Vm.{user_mem_check}
use csdi_jos.Kernel.Kdebug.{ℤ, pos, negsuc, Stab, Region, int_before, stab_binsearch}
use csdi_jos.Library.Strings.{Bytes, strfind}

abbrev pub n_fun : ℕ
n_fun = 0x24

abbrev pub n_so : ℕ
n_so = 0x64

abbrev pub n_sol : ℕ
n_sol = 0x84

abbrev pub n_psym : ℕ
n_psym = 0xa0

abbrev pub minus_one : ℕ
minus_one = 2 ^ 32 - 1

-- The tables between the four pointers: `count` stabs, and the bytes of the strings.
pub record Stabs : Type 0 where
  pub stabs : ℕ → Stab
  pub count : ℕ
  pub stabstr : Bytes

-- The pointers at `USTABDATA`.
pub record UserStabData : Type 0 where
  pub stabs : ℕ
  pub stab_end : ℕ
  pub stabstr : ℕ
  pub stabstr_end : ℕ

-- A name: the constant "<unknown>", or an offset in `stabstr`.
pub data Name : Type 0 where
  unknown : Name
  at_offset : ℕ → Name

pub record Eipdebuginfo : Type 0 where
  pub eip_file : Name
  pub eip_line : ℕ
  pub eip_fn_name : Name
  pub eip_fn_namelen : ℕ
  pub eip_fn_addr : ℕ
  pub eip_fn_narg : ℕ

abbrev pub initial_info : (addr : ℕ) → Eipdebuginfo
initial_info addr = record {
  eip_file = unknown;
  eip_line = 0;
  eip_fn_name = unknown;
  eip_fn_namelen = 9;
  eip_fn_addr = addr;
  eip_fn_narg = 0;
}

-- `stabstr_end <= stabstr || stabstr_end[-1] != 0`
unfoldable pub bad_strings : Bytes → Bool
bad_strings [] = true
bad_strings (c ∷ s) = elim s [ [] ↦ not (c == 0) | _ ∷ _ ↦ bad_strings s ]

-- The name of a stab if its offset lies in the table.
unfoldable pub name_of : Stabs → ℕ → Name → Name
name_of t i before =
    if ltb (t.stabs i).n_strx (length t.stabstr) then at_offset (t.stabs i).n_strx else before

unfoldable pub from_offset : ℕ → Bytes → Bytes
from_offset zero s = s
from_offset (suc n) [] = []
from_offset (suc n) (c ∷ s) = from_offset n s

-- `strfind(name, ':') - name`
unfoldable pub name_length : Stabs → Name → Option ℕ
unfolding from_offset
name_length t unknown = some 9
name_length t (at_offset n) =
    let s = from_offset n t.stabstr in Option.map (λ rest. length s - length rest) (strfind s 58)

-- The loop back to the stab of a file.
unfoldable pub file_stab : (ℕ → Stab) → (lfile lline : ℕ) → Option ℕ
file_stab stabs lfile zero =
    if leb lfile zero
    then (if (stabs zero).n_type == n_sol
          || ((stabs zero).n_type == n_so && not ((stabs zero).n_value == 0))
        then some zero
        else none)
    else none
file_stab stabs lfile (suc l) =
    let rest = file_stab stabs lfile l in
    if leb lfile (suc l)
    then (if (stabs (suc l)).n_type == n_sol
          || ((stabs (suc l)).n_type == n_so && not ((stabs (suc l)).n_value == 0))
        then some (suc l)
        else rest)
    else none

-- The loop over the arguments, for at most `n` stabs from `lline` on.
unfoldable pub count_args : (ℕ → Stab) → (n lline : ℕ) → ℕ
count_args stabs zero lline = 0
count_args stabs (suc n) lline =
    let rest = count_args stabs n (suc lline) in
    if (stabs lline).n_type == n_psym then suc rest else 0

-- `lfun < rfun`, and the loop.
abbrev pub args_of : (ℕ → Stab) → (lfun : ℕ) → (rfun : ℤ) → ℕ
args_of stabs lfun (pos r) = count_args stabs (r - suc lfun) (suc lfun)
args_of stabs lfun (negsuc _) = 0

-- From the choice of `lline` on: the name, the file, and the arguments.
unfoldable pub describe :
    Stabs → (lfile lfun : ℕ) → (rfun : ℤ) → (lline : ℕ) → Eipdebuginfo → Option (ℕ × Eipdebuginfo)
unfolding name_length file_stab name_of count_args
describe t lfile lfun rfun lline info =
    let file : Name = elim (file_stab t.stabs lfile lline) [
      | none ↦ info.eip_file
      | some i ↦ name_of t i info.eip_file
    ] in
    Option.map
      (λ len. (
        0,
        record info {
          eip_fn_namelen = len;
          eip_file = file;
          eip_fn_narg = args_of t.stabs lfun rfun;
        },
      ))
      (name_length t info.eip_fn_name)

-- `lfun <= rfun` for an `lfun` that is not negative.
abbrev pub leb_int : ℕ → ℤ → Bool
leb_int l (pos r) = leb l r
leb_int l (negsuc _) = false

-- After the search for the function; a negative `lfun` is used as an index where it is at most `rfun`.
unfoldable pub in_function : Stabs → (addr lfile : ℕ) → (fun : Region) → Option (ℕ × Eipdebuginfo)
unfolding describe name_of
in_function t addr lfile fun = elim fun.region_left [
  | negsuc _ ↦ none
  | pos lfun ↦
      if leb_int lfun fun.region_right
      then describe t lfile lfun fun.region_right lfun (record (initial_info addr) {
        eip_fn_name = name_of t lfun unknown;
        eip_fn_addr = (t.stabs lfun).n_value;
      })
      else describe t lfile lfun fun.region_right lfile (initial_info addr)
]

-- After the search for the file.
unfoldable pub in_file : Stabs → (addr : ℕ) → (file : Region) → Option (ℕ × Eipdebuginfo)
unfolding in_function
in_file t addr file = elim file.region_left [
  | negsuc _ ↦ none
  | pos lfile ↦
      let found : Option (ℕ × Eipdebuginfo) =
        elim (stab_binsearch t.stabs (pos lfile) file.region_right n_fun addr) [
          | none ↦ none
          | some fun ↦ in_function t addr lfile fun
        ] in
      if lfile == 0 then some (minus_one, initial_info addr) else found
]

-- From the checks of the string table on; `none` where it reads before a table.
unfoldable pub find_info : Stabs → (addr : ℕ) → Option (ℕ × Eipdebuginfo)
unfolding bad_strings in_file
find_info t addr =
    if bad_strings t.stabstr
    then some (minus_one, initial_info addr)
    else elim (stab_binsearch t.stabs (pos 0) (int_before t.count) n_so addr) [
      | none ↦ none
      | some file ↦ in_file t addr file
    ]

abbrev pub ustabdata : ℕ
ustabdata = 0x20_0000

-- `stab_end - stabs`, a number of stabs.
abbrev pub stab_count : UserStabData → ℕ
stab_count usd =
    if leb usd.stabs usd.stab_end
    then (usd.stab_end - usd.stabs) / 12
    else 2 ^ 32 - (usd.stabs - usd.stab_end) / 12

-- Are the tables of the user memory of `env` accessible?
unfoldable pub user_tables : Env → UserStabData → K Bool
unfolding user_mem_check
user_tables env usd = do
  header ← user_mem_check env ustabdata 16 4
  if is_neg header then pure false else (do
    table ← user_mem_check env usd.stabs (stab_count usd) 4
    if is_neg table then pure false else (do
      strings ← user_mem_check env usd.stabstr (sub32 usd.stabstr_end usd.stabstr) 4
      pure (not (is_neg strings))))

unfoldable pub answer_info : Option (ℕ × Eipdebuginfo) → K (ℕ × Eipdebuginfo)
answer_info none k = fault
answer_info (some r) k = ret r k

unfoldable pub debuginfo_eip :
    (kernel_table user_table : Stabs) → UserStabData → (addr : ℕ) → K (ℕ × Eipdebuginfo)
unfolding find_info user_tables answer_info
debuginfo_eip kernel_table user_table usd addr k =
    if leb u_lim addr then answer_info (find_info kernel_table addr) k else elim k.curenv [
      | none ↦ fault
      | some e ↦
          (do
            valid ← user_tables (k.envs e) usd
            if valid
                then answer_info (find_info user_table addr)
                else pure (minus_one, initial_info addr))
            k
    ]
