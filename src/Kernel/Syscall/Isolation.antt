-- ===== src/Kernel/Syscall/Isolation.antt =====
-- `sys_page_map` and the address spaces of the environments that it does not name.
use csdi_jos.Common.{
  ℕ, ◌%◌, ◌^◌, ◌≤◌, ◌<◌, ◌≡◌, inl, inr, refl, sym, subst, Bool-cases, true, false, not, ◌&&◌, some,
  List,
}
use csdi_jos.Kernel.State.{Kernel, ret}
use csdi_jos.Kernel.State.Returns.{Returns, Returns-bind}
use csdi_jos.Kernel.State.Layout.{u_top, pg_size, pte_p, pte_w, pte_u, pte_frame, is_neg}
use csdi_jos.Kernel.Pages.FreeList.{FreeList}
use csdi_jos.Kernel.Vm.{page_insert}
use csdi_jos.Kernel.Vm.View.{translate, below_top-Ordinary, Directory, Busy}
use csdi_jos.Kernel.Vm.Refinement.{MapsHeld}
use csdi_jos.Kernel.Vm.Isolation.{Apart, Same, page_insert-Same}
use csdi_jos.Kernel.Envs.{envid2env}
use csdi_jos.Kernel.Syscall.{map_between, sys_page_map, outside_syscall}
use csdi_jos.Kernel.Syscall.Sharing.{page_lookup-translate, sys_page_map_called}

module _ (k : Kernel) (src srcva dst dstva perm srcdir dstdir other pte : ℕ) (ps : List ℕ)
    (memory : k.npages ≤ 2 ^ 20) (from : srcva < u_top) (to : dstva < u_top)
    (src_dir : (k.envs src).env_pgdir ≡ some srcdir)
    (dst_dir : (k.envs dst).env_pgdir ≡ some dstdir) (source : Directory k srcdir)
    (target : Directory k dstdir) (free : FreeList k ps) (busy : Busy k dstdir ps)
    (held : MapsHeld k dstdir dstva ps) (found : translate k srcdir srcva ≡ some pte)
    (inside : pte_frame pte < k.npages) (apart : Apart k dstdir other) (its : Busy k other ps) where
  abbrev Keeps : ℕ → Kernel → Type 0
  Keeps r k' = Same k other k'

  map_between-Keeps : Returns Keeps (map_between src srcva dst dstva perm k)
  unfolding map_between
  map_between-Keeps =
      let (table, looked, word) =
        page_lookup-translate srcva source (below_top-Ordinary srcva from) found inside in
      let inserted =
        page_insert-Same k dstdir dstva other (pte_frame pte) perm ps memory to target free busy
          held apart its in
      elim (Bool-cases (pte_w perm && not (pte_w pte))) [
        | inl refused ↦ rw (src_dir, looked, word, refused) (λ b low. refl)
        | inr allowed ↦
            rw (src_dir, looked, word, allowed)
              (Returns-bind Keeps Keeps
                (page_insert (k.envs dst).env_pgdir (pte_frame pte) dstva perm k) _
                (subst (λ d. Returns Keeps (page_insert d (pte_frame pte) dstva perm k))
                  (sym dst_dir) inserted)
                λ r k' same. elim (Bool-cases (is_neg r)) [
                  | inl neg ↦ rw neg same
                  | inr ok ↦ rw ok same
                ])
      ]

  -- With at most `2 ^ 20` pages, let the two identifiers resolve to `src` and `dst`, with well-
  -- formed directories, of which that of `dst` and its tables are not free, let `srcva` map an
  -- entry in the address space of `src` whose page lies in memory, and let `dstva` map nothing or a
  -- page in use. Let `other` be a directory that is not free and has no free table, and that below
  -- `UTOP` shares no page table with the directory of `dst`, neither being a table of the other.
  -- For page-aligned addresses below `UTOP` and allowed permissions `sys_page_map` returns, and
  -- whatever it answers, the address space of `other` below `UTOP` is the same.
  pub sys_page_map-Same :
      (srcenvid dstenvid : ℕ)
      → envid2env srcenvid true k ≡ ret (0, some src) k
      → envid2env dstenvid true k ≡ ret (0, some dst) k
      → srcva % pg_size ≡ 0
      → dstva % pg_size ≡ 0
      → pte_u perm ≡ true
      → pte_p perm ≡ true
      → outside_syscall perm ≡ false
      → Returns (λ r k'. Same k other k') (sys_page_map srcenvid srcva dstenvid dstva perm k)
  sys_page_map-Same srcenvid dstenvid from_env to_env aligned aligned' u p bits =
      subst (Returns Keeps)
        (sym (
          sys_page_map_called k srcenvid srcva dstenvid dstva perm src dst from to aligned aligned'
            u p bits from_env to_env))
        map_between-Keeps
