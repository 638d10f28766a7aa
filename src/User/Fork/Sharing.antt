-- ===== src/User/Fork/Sharing.antt =====
-- What `duppage` does with a page that is not mapped, and with one that is read-only.
use csdi_jos.Common.{
  ℕ, ◌*◌, ◌%◌, ◌^◌, ◌≤◌, ◌<◌, ◌≡◌, ◌⊎◌, inl, inr, refl, sym, ap, ◌∙◌, subst, true, false, not, ◌||◌,
  leb_of_lt, none, some, List, [], if◌then◌else◌, Bool-cases, arith,
}
use csdi_jos.Kernel.State.{
  Kernel, Outcome, ret, enter, monitor, panic, fault, diverge, K, pure, panics, and_then, ◌>>=◌,
}
use csdi_jos.Kernel.State.Returns.{Returns}
use csdi_jos.Kernel.State.Layout.{
  u_top, pg_size, pdx, ptx, pte_p, pte_w, pte_frame, make_pte, is_neg,
}
use csdi_jos.Kernel.Pages.FreeList.{FreeList}
use csdi_jos.Kernel.Vm.{page2pa}
use csdi_jos.Kernel.Vm.View.{
  present, below_top-Ordinary, translate, translate_table, Directory, Busy,
}
use csdi_jos.Kernel.Vm.Refinement.{Becomes, Assigns, MapsHeld, table_of_entry, present_inv}
use csdi_jos.Kernel.Envs.{envid2env}
use csdi_jos.Kernel.Syscall.{sys_page_map}
use csdi_jos.Kernel.Syscall.Sharing.{sys_page_map-Maps}
use csdi_jos.User.Fork.{
  vpd_entry, vpt_entry, or_panic, perm_user, perm_cow, pte_cow, share_page, dup_entry, dup_table,
  dup_address, duppage,
}

-- The child has the page, read-only; or there is no page for its page table, and the parent panics.
abbrev pub Shares : (k : Kernel) (dir addr pte : ℕ) (ps : List ℕ) → Outcome ℕ → Type 0
Shares k dir addr pte ps o =
    Returns
      (λ r k'.
        (r ≡ 0) × Becomes k dir addr (some (make_pte (page2pa (pte_frame pte)) perm_user)) k')
      o
    ⊎ ((o ≡ panic) × (ps ≡ []))

module _ (k : Kernel) (dir addr pte : ℕ) (ps : List ℕ) where
  or_panic-Shares :
      (o : Outcome ℕ)
      → Returns (Assigns k dir addr (make_pte (page2pa (pte_frame pte)) perm_user) ps) o
      → Shares k dir addr pte ps
          (and_then (and_then o (λ r. if is_neg r then panics else pure tt)) (λ _. pure 0))
  or_panic-Shares (ret r k') (inl (done, becomes)) = rw done (inl (refl, becomes))
  or_panic-Shares (ret r k') (inr (failed, same, none_left, absent)) =
      rw failed (inr (refl, none_left))
  or_panic-Shares (enter e k') h = absurd h
  or_panic-Shares (monitor k') h = absurd h
  or_panic-Shares panic h = absurd h
  or_panic-Shares fault h = absurd h
  or_panic-Shares diverge h = absurd h

envid2env_self : (k : Kernel) (c : ℕ) → k.curenv ≡ some c → envid2env 0 true k ≡ ret (0, some c) k
unfolding envid2env
envid2env_self k c running = ground (arith, running)

present_set : (w pte : ℕ) → present w ≡ some pte → pte_p w ≡ true
present_set w pte h = elim (Bool-cases (pte_p w)) [
  | inl set ↦ set
  | inr clear ↦ absurd (ground (arith, h, clear))
]

-- The current environment `c` looks at its own entries for `addr`.
module _ (k : Kernel) (c dir addr envid : ℕ) (below : addr < u_top) (running : k.curenv ≡ some c)
    (own : (k.envs c).env_pgdir ≡ some dir) where
  abbrev pde : ℕ
  pde = k.frames dir (pdx addr)

  vpd_entry_lem : vpd_entry addr k ≡ ret pde k
  vpd_entry_lem = ground (arith, running, own)

  vpt_entry_lem : pte_p pde ≡ true → vpt_entry addr k ≡ ret (k.frames (pte_frame pde) (ptx addr)) k
  vpt_entry_lem set = ground (arith, running, own, set)

  dup_address_table : dup_address envid addr k ≡ dup_table envid addr pde k
  unfolding dup_address
  dup_address_table =
      ap (λ b. (if b then panics else (vpd_entry addr >>= λ d. dup_table envid addr d)) k)
        (leb_of_lt u_top addr below)
      ∙ ap (λ o. and_then o (λ d. dup_table envid addr d)) vpd_entry_lem

  dup_table_absent : pte_p pde ≡ false → dup_table envid addr pde k ≡ ret 0 k
  unfolding dup_table
  dup_table_absent clear =
      ap (λ b. (if not b then pure 0 else (vpt_entry addr >>= λ pte. dup_entry envid addr pte)) k)
        clear

  dup_table_entry :
      pte_p pde ≡ true
      → dup_table envid addr pde k ≡ dup_entry envid addr (k.frames (pte_frame pde) (ptx addr)) k
  unfolding dup_table
  dup_table_entry set =
      ap (λ b. (if not b then pure 0 else (vpt_entry addr >>= λ pte. dup_entry envid addr pte)) k)
        set
      ∙ ap (λ o. and_then o (λ pte. dup_entry envid addr pte)) (vpt_entry_lem set)

  -- Where the address is not mapped, nothing is done.
  pub dup_address-absent : translate k dir addr ≡ none → dup_address envid addr k ≡ ret 0 k
  unfolding translate dup_entry
  dup_address-absent absent = dup_address_table ∙ (elim (Bool-cases (pte_p pde)) [
    | inr no_table ↦ dup_table_absent no_table
    | inl set ↦
        let clear : pte_p (k.frames (pte_frame pde) (ptx addr)) ≡ false =
          ground (arith, absent, set) in
        dup_table_entry set
        ∙ ap
            (λ b.
              (if not b
                  then pure 0
                  else share_page envid addr (k.frames (pte_frame pde) (ptx addr)))
                k)
            clear
  ])

  dup_address_share :
      (pte : ℕ)
      → Directory k dir
      → translate k dir addr ≡ some pte
      → dup_address envid addr k ≡ share_page envid addr pte k
  unfolding dup_entry
  dup_address_share pte d found =
      let at = below_top-Ordinary addr below in
      let set = table_of_entry k dir addr pte found in
      let entry = sym (translate_table (d.tables addr at set)) ∙ found in
      let word = present_inv (k.frames (pte_frame pde) (ptx addr)) pte entry in
      dup_address_table
      ∙ dup_table_entry set
      ∙ ap (λ w. dup_entry envid addr w k) word
      ∙ ap (λ b. (if not b then pure 0 else share_page envid addr pte) k)
          (subst (λ w. pte_p w ≡ true) word
            (present_set (k.frames (pte_frame pde) (ptx addr)) pte entry))

module _ (k : Kernel) (c e dir child envid pn pte : ℕ) (ps : List ℕ) (below : pn * pg_size < u_top)
    (memory : k.npages ≤ 2 ^ 20) (running : k.curenv ≡ some c)
    (own : (k.envs c).env_pgdir ≡ some dir) (its : (k.envs e).env_pgdir ≡ some child)
    (resolves : envid2env envid true k ≡ ret (0, some e) k) (source : Directory k dir)
    (target : Directory k child) (free : FreeList k ps) (busy : Busy k child ps)
    (held : MapsHeld k child (pn * pg_size) ps) (found : translate k dir (pn * pg_size) ≡ some pte)
    (inside : pte_frame pte < k.npages) (read_only : (pte_w pte || pte_cow pte) ≡ false) where
  abbrev page : ℕ
  page = pn * pg_size

  abbrev writable_calls : K ℕ
  writable_calls = or_panic (sys_page_map 0 page envid page perm_cow) >>= λ _.
      or_panic (sys_page_map 0 page 0 page perm_cow) >>= λ _. pure 0

  share_page-Shares : Shares k child page pte ps (share_page envid page pte k)
  unfolding share_page
  share_page-Shares =
      let call : K ℕ = or_panic (sys_page_map 0 page envid page perm_user) >>= λ _. pure 0 in
      let mapped =
        sys_page_map-Maps c page e page perm_user dir child pte ps (omega arith) memory below below
          own its source target free busy held found inside refl 0 envid
          (envid2env_self k c running) resolves (omega arith) (omega arith) refl refl refl in
      let shared =
        or_panic-Shares k child page pte ps (sys_page_map 0 page envid page perm_user k) mapped in
      subst (Shares k child page pte ps)
        (sym (ap (λ b. (if b then writable_calls else call) k) read_only)) shared

  -- With at most 2 ^ 20 pages, in the current environment, let the page `pn` below `UTOP` be mapped
  -- by an entry that is neither writable nor copy-on-write and whose page lies in memory. Let the
  -- identifier resolve to an environment whose directory and tables are well formed and not free,
  -- and which maps nothing there or a page in use; let the parent's directory be well formed.
  -- `duppage` returns 0, and the child's address space outside the window at `UVPT` has the same
  -- page, for the user to read, at this address and is else what it was; or no page is free for a
  -- page table, and the parent panics.
  pub duppage-Shares : Shares k child page pte ps (duppage envid pn k)
  unfolding duppage
  duppage-Shares =
      let word : page ≡ page % 2 ^ 32 = omega (arith, below) in
      subst (λ a. Shares k child page pte ps (dup_address envid a k)) word
        (subst (Shares k child page pte ps)
          (sym (dup_address_share k c dir page envid below running own pte source found))
          share_page-Shares)
