-- ===== src/Kernel/Envs/Create.antt =====
-- What `env_alloc` makes of a free slot and a free page.
use csdi_jos.Common.{
  ℕ, ◌/◌, ◌^◌, ◌≤◌, ◌<◌, ◌≡◌, ◌≢◌, refl, sym, ap, subst, ◌∙◌, Option, none, some, List, [], ◌∷◌,
  All, NotIn, Distinct, bit_or, arith,
}
use csdi_jos.Common.Bits.{bit_or-page, bit_or-zero}
use csdi_jos.Kernel.State.{Kernel, Outcome, ret, set_env, status_runnable}
use csdi_jos.Kernel.State.Returns.{Returns}
use csdi_jos.Kernel.State.Layout.{envx, n_env, e_no_free_env, e_no_mem, pdx, uvpt, pte_frame}
use csdi_jos.Kernel.Pages.FreeList.{FreeList, FreeList-frame, page_alloc_lem}
use csdi_jos.Kernel.Vm.{page2pa}
use csdi_jos.Kernel.Pages.{page_alloc}
use csdi_jos.Kernel.Envs.{take_slot, env_alloc, fill_pgdir, init_env, next_env_id}
use csdi_jos.Kernel.Envs.Ids.{next_env_id_lem}
use csdi_jos.Kernel.Envs.Alloc.{EnvLinks, EnvLinks-frame}

-- The state after `env_alloc` has taken slot `e` and page `p`.
pub record NewEnv (k k' : Kernel) (parent_id e p : ℕ) (es ps : List ℕ) : Type 0 where
  pub slots : EnvLinks k'.envs k'.env_free_list es
  pub free : FreeList k' ps
  pub runnable : (k'.envs e).env_status ≡ status_runnable
  pub parent : (k'.envs e).env_parent_id ≡ parent_id
  pub positive : (0 < (k'.envs e).env_id) × ((k'.envs e).env_id < 2 ^ 31)
  pub names : envx (k'.envs e).env_id ≡ e
  pub fresh : (k'.envs e).env_id ≢ (k.envs e).env_id
  pub others : (i : ℕ) → e ≢ i → k'.envs i ≡ k.envs i
  pub current : k'.curenv ≡ k.curenv
  pub directory : (k'.envs e).env_pgdir ≡ some p
  pub counted : (k'.pages p).pp_ref ≡ 1
  pub kernel_part : (i : ℕ) → i ≢ pdx uvpt → k'.frames p i ≡ k.frames k.kern_pgdir i
  pub words : (f : ℕ) → p ≢ f → k'.frames f ≡ k.frames f
  pub size : k'.npages ≡ k.npages
  pub self_map : pte_frame (k'.frames p (pdx uvpt)) ≡ p

-- What `env_alloc` answers, by the free slots and the free pages.
abbrev pub Allocs : Kernel → (parent_id : ℕ) → (es ps : List ℕ) → Outcome (ℕ × Option ℕ) → Type 0
Allocs k parent_id [] ps o = o ≡ ret (e_no_free_env, none) k
Allocs k parent_id (e ∷ es) [] o = o ≡ ret (e_no_mem, none) k
Allocs k parent_id (e ∷ es) (p ∷ ps) o =
    Returns (λ r k'. (r ≡ (0, some e)) × NewEnv k k' parent_id e p es ps) o

-- `k` is the state after `page_alloc`.
made : (k : Kernel) (parent_id e p : ℕ) → Kernel
made k parent_id e p =
    let filled = fill_pgdir e p p k in
    record (set_env e (init_env e parent_id (filled.envs e)) filled) {
      env_free_list = (filled.envs e).env_link;
    }

module _ (k k' : Kernel) (parent_id e p : ℕ) (es ps : List ℕ)
    (slots : EnvLinks k.envs k.env_free_list (e ∷ es)) (distinct : Distinct (e ∷ es))
    (free : FreeList k' ps) (out : NotIn p ps) (lt : p < k.npages) (small : k.npages ≤ 2 ^ 20)
    (apart : k.kern_pgdir ≢ p) (slot : e < n_env) (id : (k.envs e).env_id < 2 ^ 32)
    (unused : (k.pages p).pp_ref ≡ 0) (same : (f : ℕ) → p ≢ f → k'.frames f ≡ k.frames f)
    (kept : k' ≡ record k { page_free_list = k'.page_free_list; frames = k'.frames }) where
  envs : k'.envs ≡ k.envs
  envs = ap (λ (s : Kernel). s.envs) kept

  made-id : ((made k' parent_id e p).envs e).env_id ≡ next_env_id (k.envs e).env_id e
  unfolding made fill_pgdir init_env
  made-id = ground (arith, envs)

  made-slots : EnvLinks (made k' parent_id e p).envs (made k' parent_id e p).env_free_list es
  unfolding made fill_pgdir init_env
  made-slots =
      let link : (made k' parent_id e p).env_free_list ≡ (k.envs e).env_link =
        ground (arith, envs) in
      subst (λ l. EnvLinks (made k' parent_id e p).envs l es) (sym link)
        (EnvLinks-frame k.envs (made k' parent_id e p).envs e (λ i ne. ground (arith, envs))
          (k.envs e).env_link es distinct.0 slots.1)

  self_map-frame : pte_frame (bit_or (bit_or (page2pa p) 1) 4) ≡ p
  self_map-frame =
      let page : page2pa p / 4096 ≡ p = omega arith in
      rw (bit_or-page (bit_or (page2pa p) 1) 4, bit_or-page (page2pa p) 1, page, bit_or-zero p)
        (bit_or-zero p)

  made-NewEnv : NewEnv k (made k' parent_id e p) parent_id e p es ps
  unfolding made fill_pgdir init_env
  made-NewEnv =
      let none_before : (k'.pages p).pp_ref ≡ 0 =
        ap (λ (s : Kernel). (s.pages p).pp_ref) kept ∙ unused in
      let root : k'.kern_pgdir ≡ k.kern_pgdir = ap (λ (s : Kernel). s.kern_pgdir) kept in
      let copied : k'.frames k.kern_pgdir ≡ k.frames k.kern_pgdir =
        same k.kern_pgdir (λ h. apart (sym h)) in
      let ids = next_env_id_lem (k.envs e).env_id e id slot in
      record {
        slots = made-slots;
        free = FreeList-frame free p out _ refl (λ q ne. ground arith) refl;
        runnable = ground arith;
        parent = ground arith;
        positive = rw made-id (ids.0, ids.1);
        names = rw made-id ids.2;
        fresh = rw made-id ids.3;
        others = λ i ne. ground (arith, envs);
        current = ap (λ (s : Kernel). s.curenv) kept;
        directory = ground arith;
        counted = ground (arith, none_before);
        kernel_part = λ i ne. ground (arith, root, copied);
        words = λ f ne. ground (arith, same f ne);
        size = ap (λ (s : Kernel). s.npages) kept;
        self_map = ground (arith, self_map-frame);
      }

take_slot-none :
    {k : Kernel} (parent_id e : ℕ)
    → FreeList k []
    → take_slot parent_id e k ≡ ret (e_no_mem, none) k
unfolding take_slot
take_slot-none parent_id e free = rw (page_alloc_lem 1 [] free) refl

take_slot-made :
    (k : Kernel) (parent_id e p : ℕ) (k' : Kernel)
    → page_alloc 1 k ≡ ret (some p) k'
    → p < k'.npages
    → take_slot parent_id e k ≡ ret (0, some e) (made k' parent_id e p)
unfolding take_slot made
take_slot-made k parent_id e p k' taken lt = rw taken (ground arith)

-- Let the list of free environments hold exactly the distinct slots `es`, all below 1024 with
-- 32-bit identifiers, let the free list hold exactly `ps`, let memory have at most 2 ^ 20 pages,
-- and let `kern_pgdir` not be a free page. `env_alloc` returns the error for no free environment,
-- or for no memory, without a change when the one list or the other is empty. Otherwise it takes
-- the first slot and the first page: the slot is runnable, has the parent, a positive identifier
-- that names the slot and differs from the one before, and a page directory of its own that agrees
-- with `kern_pgdir` but for the entry that maps the directory itself; the directory's page has one
-- reference, both lists lose their first entry, and no other slot changes.
pub env_alloc_lem :
    {k : Kernel} (parent_id : ℕ) (es ps : List ℕ)
    → EnvLinks k.envs k.env_free_list es
    → Distinct es
    → All (λ e. (e < n_env) × ((k.envs e).env_id < 2 ^ 32)) es
    → FreeList k ps
    → k.npages ≤ 2 ^ 20
    → NotIn k.kern_pgdir ps
    → Allocs k parent_id es ps (env_alloc parent_id k)
unfolding env_alloc
env_alloc_lem parent_id [] ps slots distinct valid free small apart = ground (arith, slots)
env_alloc_lem parent_id (e ∷ es) [] slots distinct valid free small apart =
    ground (arith, slots.0, take_slot-none parent_id e free)
env_alloc_lem {k} parent_id (e ∷ es) (p ∷ ps) slots distinct valid free small apart =
    let (k', taken, rest, clear, same, kept) = page_alloc_lem 1 (p ∷ ps) free in
    let size : k'.npages ≡ k.npages = ap (λ (s : Kernel). s.npages) kept in
    let answer : env_alloc parent_id k ≡ ret (0, some e) (made k' parent_id e p) = ground (
      arith,
      slots.0,
      take_slot-made k parent_id e p k' taken (subst (λ n. p < n) (sym size) free.bounded.0),
    ) in
    subst (Returns (λ r k''. (r ≡ (0, some e)) × NewEnv k k'' parent_id e p es ps)) (sym answer) (
      refl,
      made-NewEnv k k' parent_id e p es ps slots distinct rest free.distinct.0 free.bounded.0 small
          apart.0 valid.0.0 valid.0.1 free.unused.0 same kept,
    )
