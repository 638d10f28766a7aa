-- ===== src/Boot.antt =====
-- The boot loader, lab4/boot/main.c, on the bytes of memory. The drive is an argument: for the bytes
-- written to its ports 0x1F3 to 0x1F6 it has the bytes of a sector. Waiting for it changes nothing.
pub mod Elf
pub mod Readseg
pub mod Bootmain
pub mod Examples
use csdi_jos.Common.{
  ℕ, zero, suc, ◌+◌, ◌-◌, ◌*◌, ◌/◌, ◌%◌, ◌^◌, ◌&&◌, ◌==◌, ltb, leb, Option, none, some,
  if◌then◌else◌, bit_or,
}
use csdi_jos.Kernel.State.Layout.{add32}
use csdi_jos.Library.Memory.{Memory}
use Elf.{elf_magic, e_magic, e_phoff, e_phnum, e_entry, proghdr_size, p_pa, p_memsz, p_offset}

abbrev pub sect_size : ℕ
sect_size = 512

-- `ELFHDR`
abbrev pub elf_hdr : ℕ
elf_hdr = 0x1_0000

abbrev pub Drive : Type 0
Drive = (lba0 lba1 lba2 lba3 : ℕ) → ℕ → ℕ

-- The sector's 512 bytes, as `insl` reads them.
abbrev pub readsect : Drive → (dst offset : ℕ) → Memory → Memory
readsect drive dst offset m a =
    if leb dst a && ltb a (dst + sect_size)
    then drive (offset % 256) (offset / 256 % 256) (offset / 2 ^ 16 % 256)
        (bit_or (offset / 2 ^ 24) 0xe0) (a - dst)
    else m a

-- The loop; `none` is out of fuel.
unfoldable pub readseg_loop : Drive → (fuel pa end_pa offset : ℕ) → Memory → Option Memory
readseg_loop drive zero pa end_pa offset m = none
readseg_loop drive (suc fuel) pa end_pa offset m =
    let rest =
      readseg_loop drive fuel (add32 pa sect_size) end_pa (add32 offset 1)
        (readsect drive pa offset m) in
    if ltb pa end_pa then rest else some m

-- Memory has `2 ^ 23` sectors.
unfoldable pub readseg : Drive → (pa count offset : ℕ) → Memory → Option Memory
readseg drive pa count offset m =
    readseg_loop drive (suc (2 ^ 23)) (pa - pa % sect_size) (add32 pa count)
      (offset / sect_size + 1) m

-- The entry point that is called, with the memory that it finds; or the halt after `bad`.
pub data Boot : Type 0 where
  entered : (entry : ℕ) → Memory → Boot
  bad : Memory → Boot
  no_fuel : Boot

-- The loop over the program headers.
unfoldable pub load_loop : Drive → (fuel ph eph : ℕ) → Memory → Boot
load_loop drive zero ph eph m = no_fuel
load_loop drive (suc fuel) ph eph m =
    let rest = load_loop drive fuel (add32 ph proghdr_size) eph in
    if ltb ph eph
    then elim (readseg drive (p_pa m ph) (p_memsz m ph) (p_offset m ph) m) [
      | none ↦ no_fuel
      | some m' ↦ rest m'
    ]
    else entered (e_entry m elf_hdr) m

-- `e_phnum` has 16 bits.
unfoldable pub load_segments : Drive → Memory → Boot
load_segments drive m =
    if e_magic m elf_hdr == elf_magic
    then (let ph = add32 elf_hdr (e_phoff m elf_hdr) in
        load_loop drive (suc (2 ^ 16)) ph (add32 ph (e_phnum m elf_hdr * proghdr_size)) m)
    else bad m

unfoldable pub bootmain : Drive → Memory → Boot
bootmain drive m = elim (readseg drive elf_hdr (sect_size * 8) 0 m) [
  | none ↦ no_fuel
  | some m' ↦ load_segments drive m'
]
