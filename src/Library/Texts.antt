-- ===== src/Library/Texts.antt =====
-- The constant strings of lab4/lib/printfmt.c, as their bytes without the final 0.
use csdi_jos.Common.{ℕ, ◌==◌, if◌then◌else◌, Option, none, some, [], ◌∷◌}
use csdi_jos.Library.Strings.{Bytes}

-- "(null)"
abbrev pub null_text : Bytes
null_text = 40 ∷ 110 ∷ 117 ∷ 108 ∷ 108 ∷ 41 ∷ []

-- "error! writing through NULL pointer! (%n argument)"
abbrev pub null_error : Bytes
null_error =
    10 ∷ 101 ∷ 114 ∷ 114 ∷ 111 ∷ 114 ∷ 33 ∷ 32 ∷ 119 ∷ 114 ∷ 105 ∷ 116 ∷ 105 ∷ 110 ∷ 103 ∷ 32 ∷ 116
    ∷ 104 ∷ 114 ∷ 111 ∷ 117 ∷ 103 ∷ 104 ∷ 32 ∷ 78 ∷ 85 ∷ 76 ∷ 76 ∷ 32 ∷ 112 ∷ 111 ∷ 105 ∷ 110 ∷ 116
    ∷ 101 ∷ 114 ∷ 33 ∷ 32 ∷ 40 ∷ 37 ∷ 110 ∷ 32 ∷ 97 ∷ 114 ∷ 103 ∷ 117 ∷ 109 ∷ 101 ∷ 110 ∷ 116 ∷ 41
    ∷ 10 ∷ []

-- "warning! The value %n argument pointed to has been overflowed!"
abbrev pub overflow_error : Bytes
overflow_error =
    10 ∷ 119 ∷ 97 ∷ 114 ∷ 110 ∷ 105 ∷ 110 ∷ 103 ∷ 33 ∷ 32 ∷ 84 ∷ 104 ∷ 101 ∷ 32 ∷ 118 ∷ 97 ∷ 108
    ∷ 117 ∷ 101 ∷ 32 ∷ 37 ∷ 110 ∷ 32 ∷ 97 ∷ 114 ∷ 103 ∷ 117 ∷ 109 ∷ 101 ∷ 110 ∷ 116 ∷ 32 ∷ 112 ∷ 111
    ∷ 105 ∷ 110 ∷ 116 ∷ 101 ∷ 100 ∷ 32 ∷ 116 ∷ 111 ∷ 32 ∷ 104 ∷ 97 ∷ 115 ∷ 32 ∷ 98 ∷ 101 ∷ 101 ∷ 110
    ∷ 32 ∷ 111 ∷ 118 ∷ 101 ∷ 114 ∷ 102 ∷ 108 ∷ 111 ∷ 119 ∷ 101 ∷ 100 ∷ 33 ∷ 10 ∷ []

-- "error"
abbrev pub error_prefix : Bytes
error_prefix = 101 ∷ 114 ∷ 114 ∷ 111 ∷ 114 ∷ 32 ∷ []

-- "unspecified error"
abbrev unspecified_error : Bytes
unspecified_error =
    117 ∷ 110 ∷ 115 ∷ 112 ∷ 101 ∷ 99 ∷ 105 ∷ 102 ∷ 105 ∷ 101 ∷ 100 ∷ 32 ∷ 101 ∷ 114 ∷ 114 ∷ 111
    ∷ 114 ∷ []

-- "bad environment"
abbrev bad_environment : Bytes
bad_environment =
    98 ∷ 97 ∷ 100 ∷ 32 ∷ 101 ∷ 110 ∷ 118 ∷ 105 ∷ 114 ∷ 111 ∷ 110 ∷ 109 ∷ 101 ∷ 110 ∷ 116 ∷ []

-- "invalid parameter"
abbrev invalid_parameter : Bytes
invalid_parameter =
    105 ∷ 110 ∷ 118 ∷ 97 ∷ 108 ∷ 105 ∷ 100 ∷ 32 ∷ 112 ∷ 97 ∷ 114 ∷ 97 ∷ 109 ∷ 101 ∷ 116 ∷ 101 ∷ 114
    ∷ []

-- "out of memory"
abbrev out_of_memory : Bytes
out_of_memory = 111 ∷ 117 ∷ 116 ∷ 32 ∷ 111 ∷ 102 ∷ 32 ∷ 109 ∷ 101 ∷ 109 ∷ 111 ∷ 114 ∷ 121 ∷ []

-- "out of environments"
abbrev out_of_environments : Bytes
out_of_environments =
    111 ∷ 117 ∷ 116 ∷ 32 ∷ 111 ∷ 102 ∷ 32 ∷ 101 ∷ 110 ∷ 118 ∷ 105 ∷ 114 ∷ 111 ∷ 110 ∷ 109 ∷ 101
    ∷ 110 ∷ 116 ∷ 115 ∷ []

-- "segmentation fault"
abbrev segmentation_fault : Bytes
segmentation_fault =
    115 ∷ 101 ∷ 103 ∷ 109 ∷ 101 ∷ 110 ∷ 116 ∷ 97 ∷ 116 ∷ 105 ∷ 111 ∷ 110 ∷ 32 ∷ 102 ∷ 97 ∷ 117 ∷ 108
    ∷ 116 ∷ []

-- "env is not recving"
abbrev env_is_not_recving : Bytes
env_is_not_recving =
    101 ∷ 110 ∷ 118 ∷ 32 ∷ 105 ∷ 115 ∷ 32 ∷ 110 ∷ 111 ∷ 116 ∷ 32 ∷ 114 ∷ 101 ∷ 99 ∷ 118 ∷ 105 ∷ 110
    ∷ 103 ∷ []

-- "unexpected end of file"
abbrev unexpected_end_of_file : Bytes
unexpected_end_of_file =
    117 ∷ 110 ∷ 101 ∷ 120 ∷ 112 ∷ 101 ∷ 99 ∷ 116 ∷ 101 ∷ 100 ∷ 32 ∷ 101 ∷ 110 ∷ 100 ∷ 32 ∷ 111 ∷ 102
    ∷ 32 ∷ 102 ∷ 105 ∷ 108 ∷ 101 ∷ []

-- `error_string`; its entry at 0 is null.
abbrev pub error_string : ℕ → Option Bytes
error_string err =
    if err == 1
    then some unspecified_error
    else if err == 2
    then some bad_environment
    else if err == 3
    then some invalid_parameter
    else if err == 4
    then some out_of_memory
    else if err == 5
    then some out_of_environments
    else if err == 6
    then some segmentation_fault
    else if err == 7
    then some env_is_not_recving
    else if err == 8
    then some unexpected_end_of_file
    else none
