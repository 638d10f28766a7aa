-- ===== src/Boot/Elf.antt =====
-- The fields of inc/elf.h that are read, in the bytes of memory, lowest byte first.
use csdi_jos.Common.{ℕ, ◌+◌, ◌*◌, ◌^◌}
use csdi_jos.Library.Memory.{Memory}

abbrev pub elf_magic : ℕ
elf_magic = 0x464c_457f

unfoldable pub half_at : Memory → ℕ → ℕ
half_at m a = m a + m (a + 1) * 256

unfoldable pub word_at : Memory → ℕ → ℕ
word_at m a = m a + m (a + 1) * 256 + m (a + 2) * 2 ^ 16 + m (a + 3) * 2 ^ 24

-- `struct Elf` at `a`.
abbrev pub e_magic : Memory → ℕ → ℕ
e_magic m a = word_at m a

abbrev pub e_entry : Memory → ℕ → ℕ
e_entry m a = word_at m (a + 24)

abbrev pub e_phoff : Memory → ℕ → ℕ
e_phoff m a = word_at m (a + 28)

abbrev pub e_phnum : Memory → ℕ → ℕ
e_phnum m a = half_at m (a + 44)

-- `struct Proghdr` at `a`.
abbrev pub proghdr_size : ℕ
proghdr_size = 32

abbrev pub p_type : Memory → ℕ → ℕ
p_type m a = word_at m a

abbrev pub p_offset : Memory → ℕ → ℕ
p_offset m a = word_at m (a + 4)

abbrev pub p_va : Memory → ℕ → ℕ
p_va m a = word_at m (a + 8)

abbrev pub p_pa : Memory → ℕ → ℕ
p_pa m a = word_at m (a + 12)

abbrev pub p_filesz : Memory → ℕ → ℕ
p_filesz m a = word_at m (a + 16)

abbrev pub p_memsz : Memory → ℕ → ℕ
p_memsz m a = word_at m (a + 20)
