-- ===== src/Kernel/Syscall/Sharing.antt =====
-- `sys_page_map` and `sys_page_unmap` against the address spaces of the environments.
use csdi_jos.Common.{
  ℕ, ◌%◌, ◌^◌, ◌≤◌, ◌<◌, ◌≡◌, inl, inr, refl, sym, ap, ◌∙◌, subst, true, false, not, ◌&&◌, ◌==◌,
  ==_refl, leb_of_lt, some, List, arith,
}
use csdi_jos.Kernel.State.{Kernel, ret}
use csdi_jos.Kernel.State.Returns.{Returns, Returns-bind}
use csdi_jos.Kernel.State.Layout.{
  u_top, pg_size, round_up, pdx, ptx, pte_p, pte_w, pte_u, pte_frame, make_pte,
}
use csdi_jos.Kernel.Pages.FreeList.{FreeList}
use csdi_jos.Kernel.Vm.{page2pa, page_lookup, page_insert}
use csdi_jos.Kernel.Vm.Remove.{page_lookup-entry}
use csdi_jos.Kernel.Vm.View.{
  translate, translate_table, below_top-Ordinary, Ordinary, Directory, Busy,
}
use csdi_jos.Kernel.Vm.Refinement.{
  Assigns, MapsHeld, page_insert-Assigns, table_of_entry, present_inv,
}
use csdi_jos.Kernel.Envs.{envid2env}
use csdi_jos.Kernel.Syscall.{map_between, sys_page_map, outside_syscall}

-- `page_lookup` finds the page and the entry of a mapped address.
pub page_lookup-translate :
    {k : Kernel} {pgdir pte : ℕ} (va : ℕ)
    → Directory k pgdir
    → Ordinary va
    → translate k pgdir va ≡ some pte
    → pte_frame pte < k.npages
    → (table : ℕ) × (page_lookup (some pgdir) va k ≡ ret (some (pte_frame pte, (table, ptx va))) k)
      × (k.frames table (ptx va) ≡ pte)
page_lookup-translate {k} {pgdir} {pte} va dir at found inside =
    let table = pte_frame (k.frames pgdir (pdx va)) in
    let h = dir.tables va at (table_of_entry k pgdir va pte found) in
    let word = present_inv (k.frames table (ptx va)) pte (sym (translate_table h) ∙ found) in
    (
      table,
      page_lookup-entry h (subst (λ w. pte_frame w < k.npages) (sym word) inside)
          ∙ ap (λ (w : ℕ). ret (some (pte_frame w, (table, ptx va))) k) word,
      word,
    )

round_up_aligned : (va : ℕ) → va < u_top → va % pg_size ≡ 0 → (round_up va == va) ≡ true
round_up_aligned va below aligned =
    let same : round_up va ≡ va = omega (arith, below, aligned) in rw same (==_refl va)

pub sys_page_map_called :
    (k : Kernel) (srcenvid srcva dstenvid dstva perm src dst : ℕ)
    → srcva < u_top
    → dstva < u_top
    → srcva % pg_size ≡ 0
    → dstva % pg_size ≡ 0
    → pte_u perm ≡ true
    → pte_p perm ≡ true
    → outside_syscall perm ≡ false
    → envid2env srcenvid true k ≡ ret (0, some src) k
    → envid2env dstenvid true k ≡ ret (0, some dst) k
    → sys_page_map srcenvid srcva dstenvid dstva perm k ≡ map_between src srcva dst dstva perm k
unfolding sys_page_map
sys_page_map_called k srcenvid srcva dstenvid dstva perm src dst from to aligned aligned' u p bits
      from_env to_env =
    rw
      (
        leb_of_lt u_top srcva from,
        leb_of_lt u_top dstva to,
        round_up_aligned srcva from aligned,
        round_up_aligned dstva to aligned',
        u,
        p,
        bits,
        from_env,
        to_env,
      )
      refl

module _ {k : Kernel} (src srcva dst dstva perm srcdir dstdir pte : ℕ) (ps : List ℕ)
    (low : perm < 4096) (memory : k.npages ≤ 2 ^ 20) (from : srcva < u_top) (to : dstva < u_top)
    (src_dir : (k.envs src).env_pgdir ≡ some srcdir)
    (dst_dir : (k.envs dst).env_pgdir ≡ some dstdir) (source : Directory k srcdir)
    (target : Directory k dstdir) (free : FreeList k ps) (busy : Busy k dstdir ps)
    (held : MapsHeld k dstdir dstva ps) (found : translate k srcdir srcva ≡ some pte)
    (inside : pte_frame pte < k.npages) (allowed : (pte_w perm && not (pte_w pte)) ≡ false) where
  abbrev Maps : ℕ → Kernel → Type 0
  Maps = Assigns k dstdir dstva (make_pte (page2pa (pte_frame pte)) perm) ps

  map_between-Maps : Returns Maps (map_between src srcva dst dstva perm k)
  unfolding map_between
  map_between-Maps =
      let (table, looked, word) =
        page_lookup-translate srcva source (below_top-Ordinary srcva from) found inside in
      let inserted =
        page_insert-Assigns k dstdir dstva (pte_frame pte) perm low (omega (arith, inside, memory))
          (below_top-Ordinary dstva to) target free memory busy held in
      rw (src_dir, looked, word, allowed)
        (Returns-bind Maps Maps (page_insert (k.envs dst).env_pgdir (pte_frame pte) dstva perm k) _
          (subst (λ d. Returns Maps (page_insert d (pte_frame pte) dstva perm k)) (sym dst_dir)
            inserted)
          λ r k' result. elim result [
            | inl (done, becomes) ↦ rw done (inl (refl, becomes))
            | inr (failed, same, none_left, absent) ↦
                rw failed (inr (refl, same, none_left, absent))
          ])

  -- With at most 2 ^ 20 pages, let the two identifiers resolve to `src` and `dst`, with well-formed
  -- directories, of which that of `dst` and its tables are not free, let `srcva` map an entry in
  -- the address space of `src` whose page lies in memory, and let `dstva` map nothing or a page in
  -- use. For page-aligned addresses below `UTOP`, allowed permissions, and write permission only
  -- where the source's entry has it, `sys_page_map` returns 0 and the address space of `dst`
  -- outside the window at `UVPT` has the source's page with these permissions at the page of
  -- `dstva` and is else the same; or the page table is absent with no page free, and it returns the
  -- error for no memory and changes nothing.
  pub sys_page_map-Maps :
      (srcenvid dstenvid : ℕ)
      → envid2env srcenvid true k ≡ ret (0, some src) k
      → envid2env dstenvid true k ≡ ret (0, some dst) k
      → srcva % pg_size ≡ 0
      → dstva % pg_size ≡ 0
      → pte_u perm ≡ true
      → pte_p perm ≡ true
      → outside_syscall perm ≡ false
      → Returns Maps (sys_page_map srcenvid srcva dstenvid dstva perm k)
  unfolding sys_page_map
  sys_page_map-Maps srcenvid dstenvid from_env to_env aligned aligned' u p bits =
      subst (Returns Maps)
        (sym (
          sys_page_map_called k srcenvid srcva dstenvid dstva perm src dst from to aligned aligned'
            u p bits from_env to_env))
        map_between-Maps
