-- ===== src/Kernel/Mpconfig.antt =====
-- The search for the multiprocessor table and its processors, lab4/kern/mpconfig.c, on the bytes of
-- physical memory. A structure is named by its physical address, and a processor by its index in
-- `cpus`; what is printed and the IMCR's ports are left out.
pub mod Search
pub mod Processors
use csdi_jos.Common.{
  ℕ, zero, suc, ◌+◌, ◌-◌, ◌*◌, ◌/◌, ◌%◌, Bool, true, false, not, ◌&&◌, ◌||◌, ◌==◌, ltb, leb, Option,
  none, some, [], ◌∷◌, if◌then◌else◌, update,
}
use csdi_jos.Kernel.State.Layout.{add32, sub32, kern_base, pg_size}
use csdi_jos.Library.Memory.{Memory}
use csdi_jos.Library.Strings.{Bytes, memcmp}
use csdi_jos.Boot.Elf.{half_at, word_at}

-- `NCPU`
abbrev pub n_cpu : ℕ
n_cpu = 8

unfoldable pub sum_from : Memory → (addr len : ℕ) → ℕ
sum_from m addr zero = 0
sum_from m addr (suc len) = m addr + sum_from m (addr + 1) len

-- A `uint8_t`.
unfoldable pub sum : Memory → (addr len : ℕ) → ℕ
unfolding sum_from
sum m addr len = sum_from m addr len % 256

-- "_MP_" and "PCMP"
abbrev pub mp_signature : Bytes
mp_signature = 95 ∷ 77 ∷ 80 ∷ 95 ∷ []

abbrev pub pcmp_signature : Bytes
pcmp_signature = 80 ∷ 67 ∷ 77 ∷ 80 ∷ []

-- `memcmp(a, signature, 4) == 0`
unfoldable pub signed : Memory → (a : ℕ) → Bytes → Bool
unfolding memcmp
signed m a signature = elim (memcmp (m a ∷ m (a + 1) ∷ m (a + 2) ∷ m (a + 3) ∷ []) signature 4) [
  | none ↦ false
  | some r ↦ r == 0
]

abbrev pub mp_size : ℕ
mp_size = 16

-- The test on a structure.
abbrev pub is_mp : Memory → ℕ → Bool
is_mp m mp = signed m mp mp_signature && sum m mp mp_size == 0

-- The loop, for `n` structures.
unfoldable pub search_loop : Memory → (n mp : ℕ) → Option ℕ
unfolding signed sum
search_loop m zero mp = none
search_loop m (suc n) mp =
    let rest = search_loop m n (mp + mp_size) in if is_mp m mp then some mp else rest

-- What a function on addresses comes to; `KADDR` panics beyond memory.
pub data Answer (A : Type 0) : Type 0 where
  found : A → Answer A
  null panics : Answer A

abbrev pub in_memory : (npages a : ℕ) → Bool
in_memory npages a = ltb (a / pg_size) npages

-- The virtual address of `KADDR`.
abbrev pub kernel_pointer : (a : ℕ) → ℕ
kernel_pointer a = add32 a kern_base

-- The rounds of `for (; mp < end; mp++)`, where `mp` does not wrap round before it reaches `end`.
abbrev pub rounds : (mp end : ℕ) → ℕ
rounds mp end = if ltb mp end then (end - mp + 15) / 16 else 0

unfoldable pub mpsearch1 : (npages : ℕ) → Memory → (a len : ℕ) → Answer ℕ
unfolding search_loop
mpsearch1 npages m a len =
    if in_memory npages a && in_memory npages (add32 a len)
    then elim (search_loop m (rounds (kernel_pointer a) (kernel_pointer (add32 a len))) a) [
      | none ↦ null
      | some mp ↦ found mp
    ]
    else panics

-- The first search's answer, or that of the second where it is null.
abbrev pub or_search : Answer ℕ → Answer ℕ → Answer ℕ
or_search (found mp) rest = found mp
or_search null rest = rest
or_search panics rest = panics

unfoldable pub mpsearch : (npages : ℕ) → Memory → Answer ℕ
unfolding mpsearch1 half_at
mpsearch npages m =
    let ebda = half_at m 0x40e in
    or_search
      (if ebda == 0
        then mpsearch1 npages m (sub32 (half_at m 0x413 * 1024) 1024) 1024
        else mpsearch1 npages m (ebda * 16) 1024)
      (mpsearch1 npages m 0xf_0000 0x1_0000)

-- The fields of `struct mp` and of `struct mpconf`.
abbrev pub mp_physaddr : Memory → ℕ → ℕ
mp_physaddr m mp = word_at m (mp + 4)

abbrev pub mp_type : Memory → ℕ → ℕ
mp_type m mp = m (mp + 11)

abbrev pub conf_length : Memory → ℕ → ℕ
conf_length m conf = half_at m (conf + 4)

abbrev pub conf_version : Memory → ℕ → ℕ
conf_version m conf = m (conf + 6)

abbrev pub conf_entry : Memory → ℕ → ℕ
conf_entry m conf = half_at m (conf + 34)

abbrev pub conf_lapicaddr : Memory → ℕ → ℕ
conf_lapicaddr m conf = word_at m (conf + 36)

abbrev pub conf_xlength : Memory → ℕ → ℕ
conf_xlength m conf = half_at m (conf + 40)

abbrev pub conf_xchecksum : Memory → ℕ → ℕ
conf_xchecksum m conf = m (conf + 42)

-- The checks on the configuration table, in the code's order.
abbrev pub accepts : Memory → ℕ → Bool
accepts m conf =
    signed m conf pcmp_signature
    && sum m conf (conf_length m conf) == 0
    && (conf_version m conf == 1 || conf_version m conf == 4)
    && sum m (conf + conf_length m conf) (conf_xlength m conf) == conf_xchecksum m conf

-- The table of the structure `mp`.
unfoldable pub config_of : (npages : ℕ) → Memory → (mp : ℕ) → Answer ℕ
unfolding signed sum
config_of npages m mp =
    if mp_physaddr m mp == 0 || not (mp_type m mp == 0)
    then null
    else if not (in_memory npages (mp_physaddr m mp))
    then panics
    else if accepts m (mp_physaddr m mp)
    then found (mp_physaddr m mp)
    else null

unfoldable pub mpconfig : (npages : ℕ) → Memory → Answer ℕ
unfolding mpsearch config_of
mpconfig npages m = elim (mpsearch npages m) [
  | found mp ↦ config_of npages m mp
  | null ↦ null
  | panics ↦ panics
]

-- `cpus`, `bootcpu`, `ismp`, `ncpu` and `lapic`; `none` is a null pointer.
pub record Cpus : Type 0 where
  pub cpu_id : ℕ → ℕ
  pub started : ℕ → Bool
  pub bootcpu : ℕ
  pub ismp : Bool
  pub ncpu : ℕ
  pub lapic : Option ℕ

-- A processor's entry, with its flags.
unfoldable pub add_cpu : (flags : ℕ) → Cpus → Cpus
add_cpu flags s =
    let booted = record s { bootcpu = if flags / 2 % 2 == 1 then s.ncpu else s.bootcpu } in
    if ltb s.ncpu n_cpu
    then record booted { cpu_id = update s.cpu_id s.ncpu s.ncpu; ncpu = s.ncpu + 1 }
    else booted

abbrev pub mpproc_size : ℕ
mpproc_size = 20

-- The loop over `n` entries from `p` on.
unfoldable pub read_entries : Memory → (n p : ℕ) → Cpus → Cpus
unfolding add_cpu
read_entries m zero p s = s
read_entries m (suc n) p s =
    let processor = read_entries m n (p + mpproc_size) (add_cpu (m (p + 3)) s) in
    let other = read_entries m n (p + 8) s in
    if m p == 0 then processor else if leb (m p) 4 then other else record s { ismp = false }

-- What follows the loop.
unfoldable pub finish_init : Cpus → Cpus
finish_init s =
    let up = record s { started = update s.started s.bootcpu true } in
    if s.ismp then up else record up { ncpu = 1; lapic = none }

unfoldable pub mp_init : (npages : ℕ) → Memory → Cpus → Answer Cpus
unfolding mpconfig read_entries finish_init
mp_init npages m s =
    let first = record s { bootcpu = 0 } in
    elim (mpconfig npages m) [
      | found conf ↦ found (
          finish_init (
            read_entries m (conf_entry m conf) (conf + 44)
              (record first { ismp = true; lapic = some (conf_lapicaddr m conf) })))
      | null ↦ found first
      | panics ↦ panics
    ]
