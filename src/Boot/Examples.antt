-- ===== src/Boot/Examples.antt =====
-- The theorems about the boot loader on a disk with a kernel of one segment.
use csdi_jos.Common.{
  ℕ, zero, suc, ◌+◌, ◌-◌, ◌*◌, ◌/◌, ◌%◌, ◌^◌, ◌<◌, ◌≡◌, inl, refl, ap, Bool, true, ◌==◌, ltb, some,
  if◌then◌else◌, all_below, all_below-apply, eq_of_==, arith, bit_or,
}
use csdi_jos.Library.Memory.{Memory}
use csdi_jos.Boot.{sect_size, Drive, readseg, entered, bootmain}
use csdi_jos.Boot.Elf.{word_at, half_at, e_phnum}
use csdi_jos.Boot.Readseg.{Serves, Loaded, readseg-Loaded}
use csdi_jos.Boot.Bootmain.{image_of, InMemory, Readable, bootmain-entered}

-- An ELF header with a program header at 52: three bytes from 4096 on, for 0x100000.
abbrev kernel_byte : ℕ → ℕ
kernel_byte x =
    if x == 0
    then 0x7f
    else if x == 1
    then 0x45
    else if x == 2
    then 0x4c
    else if x == 3
    then 0x46
    else if x == 26
    then 0x10
    else if x == 28
    then 52
    else if x == 44
    then 1
    else if x == 57
    then 16
    else if x == 66
    then 0x10
    else if x == 72
    then 3
    else if x == 4096
    then 7
    else 0

abbrev disk : ℕ → ℕ
disk b = if ltb b sect_size then 0 else kernel_byte (b - sect_size)

-- A drive with 28 bits for the sector.
abbrev drive : Drive
drive lba0 lba1 lba2 lba3 i =
    disk (sect_size * (lba0 + lba1 * 256 + lba2 * 2 ^ 16 + lba3 % 16 * 2 ^ 24) + i)

abbrev low_bits : ℕ → Bool
low_bits x = bit_or x 0xe0 % 16 == x

low_table : all_below 16 low_bits ≡ true
unfolding all_below
low_table = refl

drive-Serves : Serves drive disk
drive-Serves = record {
  sector = λ o i small lt.
      let high : bit_or (o / 2 ^ 24) 0xe0 % 16 ≡ o / 2 ^ 24 =
        eq_of_== (bit_or (o / 2 ^ 24) 0xe0 % 16) (o / 2 ^ 24)
          (all_below-apply 16 low_bits (o / 2 ^ 24) low_table (omega (arith, small))) in
      ap (λ b. disk (sect_size * b + i)) (omega (arith, high));
}

readseg-Loaded_example :
    (m' : Memory) × (readseg drive 0x10_0000 3 4096 (λ a. 0) ≡ some m')
    × Loaded disk (λ a. 0) m' 0x10_0000 3 4096
readseg-Loaded_example =
    readseg-Loaded drive disk drive-Serves 0x10_0000 3 4096 (λ a. 0) (omega arith) (omega arith)
      refl

kernel-Readable : (k : ℕ) → k < e_phnum (image_of disk) 0 → Readable (image_of disk) k
unfolding word_at half_at
kernel-Readable zero lt = record {
  inside = omega arith;
  on_disk = omega arith;
  same = refl;
  clear = λ x small. inl (omega (arith, small));
}
kernel-Readable (suc k) lt = absurd (omega (arith, lt))

bootmain-entered_example :
    (m' : Memory) × (bootmain drive (λ a. 0) ≡ entered 0x10_0000 m')
    × ((k : ℕ) → k < e_phnum (image_of disk) 0 → InMemory (image_of disk) m' k)
unfolding word_at half_at
bootmain-entered_example =
    bootmain-entered drive disk drive-Serves (omega arith) kernel-Readable
      (λ j k x before lt small. absurd (omega (arith, before, lt))) refl (λ a. 0)
