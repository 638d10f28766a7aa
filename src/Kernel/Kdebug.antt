-- ===== src/Kernel/Kdebug.antt =====
-- The search in kern/kdebug.c. An `int` that can be -1 is read from outside as an integer; inside
-- the search, where only the right ends can be, a right end is kept as the number one above it.
pub mod Steps
pub mod Loop
pub mod Found
use csdi_jos.Common.{
  ℕ, zero, suc, ◌+◌, ◌-◌, ◌*◌, ◌/◌, ◌%◌, ◌^◌, Bool, true, false, not, ◌&&◌, ◌==◌, ltb, leb, Option,
  none, some, if◌then◌else◌,
}
use mathlib.Core.Option

pub data ℤ : Type 0 where
  pos negsuc : ℕ → ℤ

-- `struct Stab`, less the fields that the code does not read.
pub record Stab : Type 0 where
  pub n_strx : ℕ
  pub n_type : ℕ
  pub n_value : ℕ

-- The variables of `stab_binsearch`: `right` is one above `r`, and `end` one above `*region_right`.
pub record Search : Type 0 where
  pub l : ℕ
  pub right : ℕ
  pub any_matches : Bool
  pub left : ℕ  -- *region_left
  pub end : ℕ
  pub addr : ℕ

pub record Region : Type 0 where
  pub region_left : ℤ
  pub region_right : ℤ

abbrev pub int_before : ℕ → ℤ
int_before zero = negsuc 0
int_before (suc n) = pos n

-- One above an integer; 0 for all below -1, which as right ends are as good as -1.
abbrev pub one_above : ℤ → ℕ
one_above (pos n) = suc n
one_above (negsuc n) = 0

-- The last index of `l` to `m` that has the type.
unfoldable pub match_down : (ℕ → Stab) → (type l m : ℕ) → Option ℕ
match_down stabs type l zero = if leb l zero && (stabs zero).n_type == type then some zero else none
match_down stabs type l (suc m) =
    let rest = match_down stabs type l m in
    if leb l (suc m) then (if (stabs (suc m)).n_type == type then some (suc m) else rest) else none

-- One round of the loop.
unfoldable pub compare_at : (ℕ → Stab) → (true_m m : ℕ) → Search → Search
compare_at stabs true_m m s =
    if ltb (stabs m).n_value s.addr
    then record s { any_matches = true; left = m; l = true_m + 1 }
    else if ltb s.addr (stabs m).n_value
    then record s { any_matches = true; end = m; right = m }
    else record s { any_matches = true; left = m; l = m; addr = (s.addr + 1) % 2 ^ 32 }

abbrev pub middle : Search → ℕ
middle s = (s.l + (s.right - 1)) / 2

unfoldable pub search_step : (ℕ → Stab) → (type : ℕ) → Search → Search
unfolding match_down compare_at
search_step stabs type s = elim (match_down stabs type s.l (middle s)) [
  | none ↦ record s { l = middle s + 1 }
  | some m ↦ compare_at stabs (middle s) m s
]

-- The loop, on fuel.
unfoldable pub search_loop : ℕ → (ℕ → Stab) → (type : ℕ) → Search → Option Search
unfolding search_step
search_loop zero stabs type s = none
search_loop (suc fuel) stabs type s =
    let rest = search_loop fuel stabs type (search_step stabs type s) in
    if ltb s.l s.right then rest else some s

-- The loop at the end, from the index below the first number; it stops at `left`.
unfoldable pub scan_down : (ℕ → Stab) → (type left : ℕ) → ℕ → ℤ
scan_down stabs type left zero = negsuc 0
scan_down stabs type left (suc l) =
    let rest = scan_down stabs type left l in
    if ltb left l && not ((stabs l).n_type == type) then rest else pos l

unfoldable pub finish_search : (ℕ → Stab) → (type : ℕ) → Search → Region
unfolding scan_down
finish_search stabs type s =
    if not s.any_matches
    then record { region_left = pos s.left; region_right = int_before s.left }
    else record { region_left = scan_down stabs type s.left s.end; region_right = int_before s.end }

abbrev pub start_search : (left end addr : ℕ) → Search
start_search left end addr = record {
  l = left;
  right = end;
  any_matches = false;
  left = left;
  end = end;
  addr = addr;
}

-- The two regions afterwards; `none` where it reads before the table. The fuel is twice the number
-- of stabs and two.
unfoldable pub stab_binsearch : (ℕ → Stab) → (left right : ℤ) (type addr : ℕ) → Option Region
unfolding search_loop finish_search
stab_binsearch stabs (negsuc _) right type addr = none
stab_binsearch stabs (pos left) right type addr =
    let end = one_above right in
    Option.map (finish_search stabs type)
      (search_loop (2 * (end - left) + 2) stabs type (start_search left end addr))
