-- ===== src/Kernel/Pages.antt =====
-- The physical page allocator of kern/pmap.c.
pub mod FreeList
pub mod Init
pub mod FourPages
use csdi_jos.Common.{
  ℕ, zero, suc, ◌+◌, ◌-◌, ◌/◌, ◌%◌, Bool, false, ◌==◌, leb, ltb, Option, none, some, if◌then◌else◌,
}
use csdi_jos.Kernel.State.{
  Kernel, ret, panic, fault, K, pure, panics, faults, diverge, and_then, ◌>>=◌, ◌>>◌, get, put,
  set_page, set_frame,
}
use csdi_jos.Kernel.State.Layout.{pg_size, kern_base, mpentry_page, add32, round_up}

-- `page2kva`: a kernel pointer into physical memory is kept as the frame that it points into, and
-- `KADDR` panics beyond the end of memory.
unfoldable pub kaddr : ℕ → K ℕ
kaddr f k = if leb k.npages f then panic else ret f k

unfoldable pub page2kva : ℕ → K ℕ
unfolding kaddr
page2kva p = kaddr p

-- `memset(page2kva(p), '\0', PGSIZE)`
unfoldable pub zero_page : ℕ → K (Unit {0})
unfolding page2kva
zero_page p = do f ← page2kva p; k ← get; put (set_frame f (λ _. 0) k)

-- The list is read first; `ALLOC_ZERO` is bit 0 of the flags.
unfoldable pub page_alloc : ℕ → K (Option ℕ)
unfolding zero_page
page_alloc alloc_flags k = elim k.page_free_list [
  | none ↦ ret none k
  | some result ↦
      let k' = record k { page_free_list = (k.pages result).pp_link } in
      if alloc_flags % 2 == 1
      then (do zero_page result; pure (some result)) k'
      else ret (some result) k'
]

unfoldable pub page_free : ℕ → K (Unit {0})
page_free pp k =
    ret tt (record (set_page pp (record (k.pages pp) { pp_link = k.page_free_list }) k) {
      page_free_list = some pp;
    })

-- `--pp->pp_ref == 0` on a 16-bit counter.
unfoldable pub page_decref : ℕ → K (Unit {0})
unfolding page_free
page_decref pp k =
    let ref = ((k.pages pp).pp_ref + 65535) % 65536 in
    let k' = set_page pp (record (k.pages pp) { pp_ref = ref }) k in
    if ref == 0 then page_free pp k' else ret tt k'

-- `++pp->pp_ref`
unfoldable pub page_incref : ℕ → K (Unit {0})
page_incref pp k =
    ret tt (set_page pp (record (k.pages pp) { pp_ref = ((k.pages pp).pp_ref + 1) % 65536 }) k)

-- `boot_alloc`; `end` is the linker's symbol for the end of the kernel. It answers an address.
unfoldable pub boot_alloc : (end n : ℕ) → K ℕ
boot_alloc end n k =
    let nextfree = if k.nextfree == 0 then round_up end else k.nextfree in
    if n == 0
    then ret nextfree (record k { nextfree = nextfree })
    else ret nextfree (record k { nextfree = round_up (add32 nextfree n) })

-- One round of the loops of `page_init` that free pages.
unfoldable pub release : ℕ → Kernel → Kernel
release i k = record (set_page i (record { pp_link = k.page_free_list; pp_ref = 0 }) k) {
  page_free_list = some i;
}

-- `for (i = lo + n - 1; i >= lo; --i)`, less the pages that `skip` names.
unfoldable pub release_down : (ℕ → Bool) → (lo n : ℕ) → Kernel → Kernel
unfolding release
release_down skip lo zero k = k
release_down skip lo (suc n) k =
    release_down skip lo n (if skip (lo + n) then k else release (lo + n) k)

-- `for (i = lo; i < lo + n; ++i) pages[i].pp_ref = 1`
unfoldable pub reserve_up : (lo n : ℕ) → Kernel → Kernel
reserve_up lo zero k = k
reserve_up lo (suc n) k = reserve_up (suc lo) n (set_page lo (record (k.pages lo) { pp_ref = 1 }) k)

-- The body of `page_init` once `mile`, the first page after the kernel, is known.
unfoldable pub fill_free_list : (mile : ℕ) → Kernel → Kernel
unfolding release_down reserve_up
fill_free_list mile k =
    let start =
      set_page 0 (record (k.pages 0) { pp_ref = 1 }) (record k { page_free_list = none }) in
    let extended = release_down (λ i. false) mile (k.npages - mile) start in
    let base = release_down (λ i. i == mpentry_page) 1 (k.npages_basemem - 1) extended in
    reserve_up k.npages_basemem (mile - k.npages_basemem) base

unfoldable pub page_init : (end : ℕ) → K (Unit {0})
unfolding boot_alloc
page_init end = do
  next ← boot_alloc end 0
  k ← get
  if ltb next kern_base then panics else put (fill_free_list ((next - kern_base) / pg_size) k)

-- `head = (*head).pp_link`
unfoldable pub next_page : Option ℕ → K (Option ℕ)
next_page none k = fault
next_page (some p) k = ret (k.pages p).pp_link k

-- The search loop of `page_alloc_4pages`: both pointers move on until they are three apart.
unfoldable pub seek : ℕ → (head tail : Option ℕ) → K (Option ℕ × Option ℕ)
unfolding next_page
seek zero head tail k = diverge
seek (suc fuel) none tail k = ret (none, tail) k
seek (suc fuel) (some h) none k = fault
seek (suc fuel) (some h) (some t) k =
    let rest = (do head ← next_page (some h); tail ← next_page (some t); seek fuel head tail) k in
    if h == t + 3 then ret (some h, some t) k else rest

-- `while (tail != head) { memset(tail); tail = tail->pp_link; }`, and the last `memset`.
unfoldable pub zero_run : ℕ → (head tail : ℕ) → K (Unit {0})
unfolding zero_page
zero_run zero head tail k = diverge
zero_run (suc fuel) head tail k =
    let rest =
      (do
        zero_page tail
        k' ← get
        elim (k'.pages tail).pp_link [ none ↦ faults | some next ↦ zero_run fuel head next ])
        k in
    if tail == head then zero_page tail k else rest

-- What follows the search: the `memset`s, and the answer.
unfoldable pub finish_4pages : (alloc_flags : ℕ) → (head tail : Option ℕ) → K (Option ℕ)
unfolding zero_run
finish_4pages alloc_flags none tail = pure none
finish_4pages alloc_flags (some h) none = faults
finish_4pages alloc_flags (some h) (some t) =
    if alloc_flags % 2 == 1 then (do zero_run 4 h t; pure (some t)) else pure (some t)

-- The fuel is a bound on the length of the free list.
unfoldable pub page_alloc_4pages : (fuel alloc_flags : ℕ) → K (Option ℕ)
unfolding next_page seek finish_4pages
page_alloc_4pages fuel alloc_flags = do
  k ← get
  h1 ← next_page k.page_free_list
  h2 ← next_page h1
  h3 ← next_page h2
  (head, tail) ← seek fuel h3 k.page_free_list
  finish_4pages alloc_flags head tail

-- `head = head->pp_link` up to three times, while it is not null.
unfoldable pub third : ℕ → Option ℕ → Kernel → Option ℕ
third zero head k = head
third (suc i) none k = none
third (suc i) (some h) k = third i (k.pages h).pp_link k

-- 2 ^ 32 - 1 is the -1 of the source.
unfoldable pub page_free_4pages : ℕ → K ℕ
unfolding third
page_free_4pages pp k = elim (third 3 (some pp) k) [
  | none ↦ ret 0xffff_ffff k
  | some head ↦
      if head == pp + 3
      then ret 0 (record k { chunck_list = k.pages pp; page_free_list = some pp })
      else ret 0xffff_ffff k
]
