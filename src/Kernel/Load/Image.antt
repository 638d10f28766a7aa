-- ===== src/Kernel/Load/Image.antt =====
-- The memory of a user program as `load_icode` of kern/env.c fills it: which pages it has, by their
-- numbers, and the byte at an address.
use csdi_jos.Common.{
  ℕ, ◌+◌, ◌-◌, ◌/◌, ◌%◌, ◌^◌, ◌<◌, ◌≡◌, ◌≢◌, ◌∙◌, Bool, true, false, ◌&&◌, ◌||◌, ltb, leb, none,
  some, List, if◌then◌else◌,
}
use csdi_jos.Kernel.State.{Kernel}
use csdi_jos.Kernel.State.Layout.{u_top, make_pte}
use csdi_jos.Kernel.Vm.{page2pa}
use csdi_jos.Kernel.Vm.View.{translate}
use csdi_jos.Kernel.Vm.Fresh.{Space, Private}

pub record Image : Type 0 where
  pub has : ℕ → Bool
  pub bytes : ℕ → ℕ

-- The program has `n` more pages, of zeros, from page number `q` on.
abbrev pub with_pages : (q n : ℕ) → Image → Image
with_pages q n img = record {
  has = λ r. (leb q r && ltb r (q + n)) || img.has r;
  bytes = λ a. if leb q (a / 4096) && ltb (a / 4096) (q + n) then 0 else img.bytes a;
}

-- The program has the bytes of `m` from `src` on at `n` addresses from `dst` on.
abbrev pub with_bytes : (n dst src : ℕ) → (ℕ → ℕ) → Image → Image
with_bytes n dst src m img = record img {
  bytes = λ a. if leb dst a && ltb a (dst + n) then m (src + (a - dst)) else img.bytes a;
}

-- Byte `j` of a word.
abbrev pub get_byte : (j w : ℕ) → ℕ
get_byte j w = w / 256 ^ j % 256

-- Below `UTOP`, the address space maps exactly the pages of the image, each to a page of its own that
-- the user may write and that holds the image's bytes.
pub record Holds (k : Kernel) (pgdir : ℕ) (ps : List ℕ) (img : Image) : Type 0 where
  pub space : Space k pgdir ps
  pub page : ℕ → ℕ
  pub mapped :
      (a : ℕ)
      → a < u_top
      → img.has (a / 4096) ≡ true
      → translate k pgdir a ≡ some (make_pte (page2pa (page (a / 4096))) 6)
  pub own : (q : ℕ) → img.has q ≡ true → Private k pgdir ps (page q)
  pub inside : (q : ℕ) → img.has q ≡ true → page q < k.npages
  pub apart : (q r : ℕ) → img.has q ≡ true → img.has r ≡ true → q ≢ r → page q ≢ page r
  pub stored :
      (a : ℕ)
      → a < u_top
      → img.has (a / 4096) ≡ true
      → get_byte (a % 4) (k.frames (page (a / 4096)) (a % 4096 / 4)) ≡ img.bytes a
  pub empty : (a : ℕ) → a < u_top → img.has (a / 4096) ≡ false → translate k pgdir a ≡ none

-- An image with the same pages and bytes will do.
pub Holds-bytes :
    {k : Kernel} {pgdir : ℕ} {ps : List ℕ} (img : Image) (bytes : ℕ → ℕ)
    → Holds k pgdir ps img
    → ((a : ℕ) → img.bytes a ≡ bytes a)
    → Holds k pgdir ps (record img { bytes = bytes })
Holds-bytes img bytes h same = record {
  space = h.space;
  page = h.page;
  mapped = h.mapped;
  own = h.own;
  inside = h.inside;
  apart = h.apart;
  stored = λ a low has. h.stored a low has ∙ same a;
  empty = h.empty;
}
