-- ===== src/Kernel/Examples/Tables.antt =====
-- The theorems about the debugging tables on a small table.
use csdi_jos.Common.{ℕ, ◌+◌, ◌≡◌, inl, inr, refl, ◌==◌, some, [], ◌∷◌, if◌then◌else◌, arith}
use csdi_jos.Kernel.State.{ret}
use csdi_jos.Kernel.Kdebug.{Stab, Region, pos, stab_binsearch}
use csdi_jos.Kernel.Kdebug.Found.{Ascending}
use csdi_jos.Kernel.Kdebug.Found.Ends.{Next, Answer, stab_binsearch-Answer}
use csdi_jos.Kernel.Debuginfo.{
  Stabs, UserStabData, Eipdebuginfo, n_so, n_fun, bad_strings, debuginfo_eip,
}
use csdi_jos.Kernel.Debuginfo.Functions.{Describes, debuginfo_eip-Describes}
use csdi_jos.Kernel.Examples.{machine}

-- Entries 0 and 1 are files at 0xf000_0000 and 0xf010_0000, entries 2 and 3 functions of the second.
abbrev stabs_of : ℕ → Stab
stabs_of i =
    if i == 0
    then record { n_strx = 0; n_type = 0x64; n_value = 0xf000_0000 }
    else if i == 1
    then record { n_strx = 0; n_type = 0x64; n_value = 0xf010_0000 }
    else if i == 2
    then record { n_strx = 1; n_type = 0x24; n_value = 0xf010_0000 }
    else record { n_strx = 1; n_type = 0x24; n_value = 0xf010_0040 }

-- The strings are "" and "f:".
abbrev table : Stabs
table = record { stabs = stabs_of; count = 4; stabstr = 0 ∷ 102 ∷ 58 ∷ 0 ∷ [] }

files-Ascending : Ascending stabs_of n_so 0 4 0xf010_0010
files-Ascending = record {
  sorted = λ i j low between high i_type j_type. ground (arith, i_type, j_type, between);
  word = omega arith;
  no_next = λ i low high is_type. ground (arith, is_type);
}

functions-Ascending : Ascending stabs_of n_fun 1 4 0xf010_0010
functions-Ascending = record {
  sorted = λ i j low between high i_type j_type. ground (arith, i_type, j_type, between);
  word = omega arith;
  no_next = λ i low high is_type. ground (arith, is_type);
}

file-Next : Next stabs_of n_so 0 4 0xf010_0010 2 4
file-Next = record { clear = λ i low high. ground (arith, low); stops = inl refl }

function-Next : Next stabs_of n_fun 1 4 0xf010_0010 3 3
function-Next = record {
  clear = λ i low high. absurd (omega (arith, low, high));
  stops = inr (record { low = omega arith; high = omega arith; at = refl; value = omega arith });
}

stab_binsearch-Answer_example :
    (g : Region) × (stab_binsearch stabs_of (pos 0) (pos 3) n_so 0xf010_0010 ≡ some g)
    × Answer stabs_of n_so 0 4 0xf010_0010 g
stab_binsearch-Answer_example = stab_binsearch-Answer (pos 3) files-Ascending (omega arith)

-- Neighbours at 5 and 6.
abbrev neighbours : ℕ → Stab
neighbours i = record { n_strx = 0; n_type = 0x24; n_value = i + 5 }

abbrev no_user_tables : UserStabData
no_user_tables = record { stabs = 0; stab_end = 0; stabstr = 0; stabstr_end = 0 }

debuginfo_eip-Describes_example :
    (info : Eipdebuginfo) × (debuginfo_eip table table no_user_tables 0xf010_0010 machine
      ≡ ret (0, info) machine)
    × Describes table 2 3 info
unfolding bad_strings
debuginfo_eip-Describes_example =
    debuginfo_eip-Describes table refl 0xf010_0010 1 4 2 3 (omega arith) files-Ascending
      (record { low = omega arith; high = omega arith; at = refl; value = omega arith }) file-Next
      functions-Ascending
      (record { low = omega arith; high = omega arith; at = refl; value = omega arith })
      function-Next machine table no_user_tables (omega arith)
