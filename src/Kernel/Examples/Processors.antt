-- ===== src/Kernel/Examples/Processors.antt =====
-- The theorems about the multiprocessor table on a table of two processors.
use csdi_jos.Common.{ℕ, ◌-◌, ◌||◌, ◌≡◌, refl, false, ◌==◌, leb, none, arith, if◌then◌else◌}
use csdi_jos.Library.Memory.{Memory}
use csdi_jos.Library.Strings.{memcmp}
use csdi_jos.Boot.Elf.{half_at, word_at}
use csdi_jos.Kernel.Mpconfig.{
  signed, sum, sum_from, search_loop, found, mpsearch1, mpsearch, config_of, mpconfig, Cpus,
  mp_init,
}
use csdi_jos.Kernel.Mpconfig.Search.{Finds, mpsearch1-Finds}
use csdi_jos.Kernel.Mpconfig.Processors.{Initialised, mp_init-Initialised}

-- The structure at 0x8000, in the EBDA at 0x8000, and its table at 0x8010 with a processor, a bus
-- and the processor that boots.
abbrev table_byte : ℕ → ℕ
table_byte x =
    if x == 0
    then 95
    else if x == 1 || x == 18
    then 77
    else if x == 2 || x == 16
    then 80
    else if x == 3
    then 95
    else if x == 4
    then 0x10
    else if x == 5
    then 0x80
    else if x == 10
    then 21
    else if x == 17
    then 67
    else if x == 19
    then 80
    else if x == 20
    then 92
    else if x == 22
    then 4
    else if x == 23
    then 106
    else if x == 50
    then 3
    else if x == 80
    then 1
    else if x == 91
    then 2
    else 0

abbrev table : Memory
table a = if a == 0x40f then 8 else if leb 0x8000 a then table_byte (a - 0x8000) else 0

mpsearch1-Finds_example : Finds table 0x8000 0x8400 (mpsearch1 1024 table 0x8000 1024)
mpsearch1-Finds_example = mpsearch1-Finds 1024 table 0x8000 1024 (omega arith) refl refl

mpsearch_table : mpsearch1 1024 table 0x8000 1024 ≡ found 0x8000
unfolding mpsearch1 search_loop signed memcmp sum sum_from
mpsearch_table = refl

mpconfig_table : mpconfig 1024 table ≡ found 0x8010
unfolding mpconfig mpsearch mpsearch1 search_loop config_of signed memcmp sum sum_from half_at
    word_at
mpconfig_table = refl

abbrev no_cpus : Cpus
no_cpus = record {
  cpu_id = λ i. 0;
  started = λ i. false;
  bootcpu = 0;
  ismp = false;
  ncpu = 0;
  lapic = none;
}

mp_init-Initialised_example :
    (s' : Cpus) × (mp_init 1024 table no_cpus ≡ found s') × Initialised table 0x8010 no_cpus s'
mp_init-Initialised_example = mp_init-Initialised 1024 table no_cpus refl mpconfig_table
