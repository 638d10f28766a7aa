-- ===== src/Kernel/Debuginfo/Functions.antt =====
-- Which function `debuginfo_eip` names.
use csdi_jos.Common.{
  ℕ, zero, suc, ◌-◌, ◌≤◌, ◌<◌, ◌≡◌, inl, inr, refl, sym, ap, true, false, ==_ne, ltb, Bool-cases,
  leb_of_le, length, Option, some, arith,
}
use mathlib.Core.Option
use csdi_jos.Kernel.State.{Kernel, ret}
use csdi_jos.Kernel.State.Layout.{u_lim}
use csdi_jos.Kernel.Kdebug.{pos, int_before, one_above}
use csdi_jos.Kernel.Kdebug.Found.{Ascending, Reaches}
use csdi_jos.Kernel.Kdebug.Found.Ends.{Next}
use csdi_jos.Kernel.Kdebug.Found.Unique.{Reaches-before, stab_binsearch-entry}
use csdi_jos.Kernel.Debuginfo.Entries.{NameEnds, Parameters, name_at, count_args-Parameters}
use csdi_jos.Kernel.Debuginfo.{
  Name, unknown, at_offset, from_offset, n_fun, n_so, args_of, leb_int, Stabs, UserStabData,
  Eipdebuginfo, bad_strings, name_of, name_length, describe, in_function, in_file, find_info,
  answer_info, debuginfo_eip,
}

one_above-int_before : (n : ℕ) → one_above (int_before n) ≡ n
one_above-int_before zero = refl
one_above-int_before (suc n) = refl

-- The name of the entry `g` if its offset lies in the table of strings, and its length.
pub record Named (t : Stabs) (g : ℕ) (name : Name) (len : ℕ) : Type 0 where
  pub known :
      (t.stabs g).n_strx < length t.stabstr
      → (name ≡ at_offset (t.stabs g).n_strx) × NameEnds t.stabstr (t.stabs g).n_strx len
  pub missing : length t.stabstr ≤ (t.stabs g).n_strx → (name ≡ unknown) × (len ≡ 9)

module _ (t : Stabs) (good : bad_strings t.stabstr ≡ false) where
  name_length-Named :
      (i : ℕ)
      → (len : ℕ) × (name_length t (name_of t i unknown) ≡ some len)
        × Named t i (name_of t i unknown) len
  unfolding name_length name_of
  name_length-Named i = elim (Bool-cases (ltb (t.stabs i).n_strx (length t.stabstr))) [
    | inr outside ↦ rw outside (
      9,
      refl,
      record { known = λ lt. absurd (ground (arith, outside, lt)); missing = λ le. (refl, refl) },
    )
    | inl inside ↦
        let (rest, found, ends) =
          name_at (t.stabs i).n_strx t.stabstr (ground (arith, inside)) good in
        rw inside (
          length (from_offset (t.stabs i).n_strx t.stabstr) - length rest,
          ap (Option.map (λ r. length (from_offset (t.stabs i).n_strx t.stabstr) - length r)) found,
          record {
            known = λ lt. (refl, ends);
            missing = λ le. absurd (ground (arith, inside, le));
          },
        )
  ]

-- What `debuginfo_eip` says of the function at the stab `g`, whose entries end before `e`.
pub record Describes (t : Stabs) (g e : ℕ) (info : Eipdebuginfo) : Type 0 where
  pub name : Named t g info.eip_fn_name info.eip_fn_namelen
  pub address : info.eip_fn_addr ≡ (t.stabs g).n_value
  pub arguments : Parameters t.stabs g e info.eip_fn_narg

module _ (t : Stabs) (good : bad_strings t.stabstr ≡ false) (addr f e g e' : ℕ) (behind : 0 < f)
    (files : Ascending t.stabs n_so 0 t.count addr) (file : Reaches t.stabs n_so 0 t.count addr f)
    (file_end : Next t.stabs n_so 0 t.count addr (suc f) e)
    (functions : Ascending t.stabs n_fun f e addr) (function : Reaches t.stabs n_fun f e addr g)
    (function_end : Next t.stabs n_fun f e addr (suc g) e') where
  last : g < e'
  last = Reaches-before functions function function_end

  Says : Option (ℕ × Eipdebuginfo) → Type 0
  Says r = (info : Eipdebuginfo) × (r ≡ some (0, info)) × Describes t g e' info

  leb_int_before : (n : ℕ) → g < n → leb_int g (int_before n) ≡ true
  leb_int_before zero lt = absurd (omega (arith, lt))
  leb_int_before (suc n) lt = leb_of_le g n (omega (arith, lt))

  args_of-Parameters : (n : ℕ) → g < n → Parameters t.stabs g n (args_of t.stabs g (int_before n))
  args_of-Parameters zero lt = absurd (omega (arith, lt))
  args_of-Parameters (suc n) lt = count_args-Parameters t.stabs g n

  in_function-Says :
      Says (in_function t addr f (record { region_left = pos g; region_right = int_before e' }))
  unfolding Says in_function describe
  in_function-Says =
      let (len, found, named) = name_length-Named t good g in
      rw (leb_int_before e' last, found)
        (_, refl, record { name = named; address = refl; arguments = args_of-Parameters e' last })

  find_info-Says : Says (find_info t addr)
  unfolding Says find_info in_file
  find_info-Says =
      let (info, says, describes) = in_function-Says in
      let so =
        stab_binsearch-entry files (int_before t.count) f e (sym (one_above-int_before t.count))
          file file_end in
      let fun =
        stab_binsearch-entry functions (int_before e) g e' (sym (one_above-int_before e)) function
          function_end in
      rw (good, so, fun, ==_ne f 0 (omega (arith, behind)), says) (info, refl, describes)

  -- Let the address be at or above `ULIM`, let the string table end in 0, let the file entries
  -- ascend, and the function entries of the file as well, with no entry at the address plus 1. Let
  -- the last file entry at or below the address not be the first entry of the table, and let there
  -- be a function entry at or below the address in that file. `debuginfo_eip` returns 0 and leaves
  -- the kernel's state as it is; it answers the last such function: its address, the name at its
  -- offset if that lies in the string table and `<unknown>` otherwise, the length of the name up to
  -- the first colon or 0, or 9 for `<unknown>`, and the number of entries that follow it without a
  -- gap, are parameters and stand before the last entry ahead of the next function or the end of
  -- the file.
  pub debuginfo_eip-Describes :
      (k : Kernel) (user_table : Stabs) (usd : UserStabData)
      → u_lim ≤ addr
      → (info : Eipdebuginfo) × (debuginfo_eip t user_table usd addr k ≡ ret (0, info) k)
        × Describes t g e' info
  unfolding debuginfo_eip Says answer_info
  debuginfo_eip-Describes k user_table usd high =
      let (info, says, describes) = find_info-Says in
      rw (leb_of_le u_lim addr high, says) (info, refl, describes)
