-- ===== src/Kernel/Start/MemInit.antt =====
-- `mem_init` of kern/pmap.c: from the memory behind the kernel to its page directory.
use csdi_jos.Common.{
  ℕ, ◌+◌, ◌-◌, ◌*◌, ◌/◌, ◌%◌, ◌^◌, ◌≤◌, ◌<◌, ◌≡◌, ◌≢◌, refl, sym, ap, subst, ◌∙◌, false, ◌==◌, ltb,
  Option, some, none, if◌then◌else◌, arith,
}
use csdi_jos.Kernel.State.{Kernel, K, Outcome, ret, and_then, ◌>>=◌, ◌>>◌, get}
use csdi_jos.Kernel.State.Returns.{Returns, Returns-bind}
use csdi_jos.Kernel.State.Layout.{kern_base, pg_size, round_up, n_env, pdx, uvpt, pte_p}
use csdi_jos.Kernel.Pages.{boot_alloc, page_init}
use csdi_jos.Kernel.Pages.Init.{Initialised, NotIn-has, page_init-Initialised}
use csdi_jos.Kernel.Vm.View.{translate, translate-none, Ordinary}
use csdi_jos.Kernel.Envs.Switch.{lcr3}
use csdi_jos.Kernel.Start.{kstksize, page_size, env_size, paddr, init_pgdir, map_kernel, mem_init}
use csdi_jos.Kernel.Start.Root.{Root, kernel_view, map_kernel-Root}

-- A directory without entries outside the window at `UVPT`, once the free list is built.
init-Root :
    (k k' : Kernel) (mile n : ℕ)
    → Initialised mile k k'
    → ((i : ℕ) → i ≢ pdx uvpt → k.frames k.kern_pgdir i ≡ 0)
    → 1 ≤ k.npages_basemem
    → k.npages_basemem ≤ k.kern_pgdir
    → k.kern_pgdir < mile
    → k.npages ≤ 2 ^ 20
    → n + mile ≤ k.npages
    → Root k' n (λ a. none)
init-Root k k' mile n init zeros low above below memory room =
    let root : k'.kern_pgdir ≡ k.kern_pgdir = ap (λ (s : Kernel). s.kern_pgdir) init.kept in
    let size : k'.npages ≡ k.npages = ap (λ (s : Kernel). s.npages) init.kept in
    let clear : (a : ℕ) → Ordinary a → pte_p (k'.frames k'.kern_pgdir (pdx a)) ≡ false = λ a out.
      ap pte_p (ap (λ (s : Kernel). s.frames s.kern_pgdir (pdx a)) init.kept ∙ zeros (pdx a) out) in
    record {
      free = init.list;
      space = record {
        dir = record {
          tables = λ a out set. absurd (ground (arith, set, clear a out));
          distinct = λ a b out out' ne set. absurd (ground (arith, set, clear a out));
        };
        free = init.free;
        busy = record {
          directory =
              NotIn-has k'.kern_pgdir init.list (init.members k'.kern_pgdir ∙ ground (arith, root));
          tables = λ a out set. absurd (ground (arith, set, clear a out));
        };
        memory = omega (arith, size, memory);
        writable = λ a out set. absurd (ground (arith, set, clear a out));
      };
      enough = omega (arith, init.many, room);
      maps = λ a low' out. translate-none k' k'.kern_pgdir a (clear a out);
    }

-- The address in the kernel of a page of memory.
abbrev pub kva : ℕ → ℕ
kva q = kern_base + 4096 * q

boot_alloc-page :
    (end q n : ℕ) (k : Kernel)
    → (if k.nextfree == 0 then round_up end else k.nextfree) ≡ kva q
    → 0 < n
    → kva q + n + 4096 ≤ 2 ^ 32
    → boot_alloc end n k ≡ ret (kva q) (record k { nextfree = kva (q + (n + 4095) / 4096) })
unfolding boot_alloc
boot_alloc-page end q n k start some_bytes room =
    let t : (n == 0) ≡ false = ground (arith, some_bytes) in
    let e : round_up ((kva q + n) % 2 ^ 32) ≡ kva (q + (n + 4095) / 4096) = omega (arith, room) in
    rw (start, t, e) refl

Returns-ret :
    {A B : Type 0} (Q : B → Kernel → Type 0) (o : Outcome A) (f : A → K B) (a : A) (k : Kernel)
    → o ≡ ret a k
    → Returns Q (f a k)
    → Returns Q (and_then o f)
Returns-ret Q o f a k e h = subst (λ o. Returns Q (and_then o f)) (sym e) h

paddr-kva : (q : ℕ) (k : Kernel) → paddr (kva q) k ≡ ret (4096 * q) k
unfolding paddr
paddr-kva q k =
    let t : ltb (kva q) kern_base ≡ false = ground arith in
    let e : kva q - kern_base ≡ 4096 * q = omega arith in rw (t, e) refl

-- The first page behind `pages`, and the first behind `envs`.
abbrev pub envs_page : (first npages : ℕ) → ℕ
envs_page first npages = first + 1 + (npages * page_size + 4095) / 4096

abbrev pub mile_of : (first npages : ℕ) → ℕ
mile_of first npages = envs_page first npages + 31

Root-cr3 :
    {k : Kernel} {n : ℕ} {view : ℕ → Option ℕ} (c : ℕ)
    → Root k n view
    → Root (record k { cr3 = c }) n view
unfolding translate
Root-cr3 c root = record {
  free = root.free;
  space = record {
    dir = record {
      tables = λ a out set.
          let t = root.space.dir.tables a out set in
          record { present = t.present; at = t.at; inside = t.inside; apart = t.apart };
      distinct = root.space.dir.distinct;
    };
    free = record {
      chain = root.space.free.chain;
      distinct = root.space.free.distinct;
      bounded = root.space.free.bounded;
      unused = root.space.free.unused;
    };
    busy = record { directory = root.space.busy.directory; tables = root.space.busy.tables };
    memory = root.space.memory;
    writable = root.space.writable;
  };
  enough = root.enough;
  maps = root.maps;
}

-- The end of `mem_init`.
map_then_load :
    (pages envs bootstack : ℕ) (kstacks : ℕ → ℕ) (npages n : ℕ) {k : Kernel}
    → k.npages ≡ npages
    → npages ≤ 2 ^ 19
    → pages + 2 ^ 22 ≤ 2 ^ 32
    → envs + 2 ^ 22 ≤ 2 ^ 32
    → bootstack + kstksize ≤ 2 ^ 32
    → ((j : ℕ) → kstacks j + kstksize ≤ 2 ^ 32)
    → Root k (n + 83) (λ a. none)
    → Returns
        (λ _ k'. Root k' n (kernel_view npages pages envs bootstack kstacks (λ a. none)))
        ((map_kernel pages envs bootstack kstacks >> (get >>= λ k'. lcr3 (some k'.kern_pgdir))) k)
unfolding lcr3
map_then_load pages envs bootstack kstacks npages n {k} size few room room' room'' high root =
    Returns-bind (λ _ k'. Root k' n (kernel_view k.npages pages envs bootstack kstacks (λ a. none)))
      (λ _ k'. Root k' n (kernel_view npages pages envs bootstack kstacks (λ a. none)))
      (map_kernel pages envs bootstack kstacks k) _
      (map_kernel-Root pages envs bootstack kstacks n (λ a. none) (omega (arith, size, few)) room
        room' room'' high root)
      λ _ k' mapped.
        subst
          (λ m.
            Root (record k' { cr3 = k'.kern_pgdir }) n
              (kernel_view m pages envs bootstack kstacks (λ a. none)))
          size (Root-cr3 k'.kern_pgdir mapped)

-- Let page `first` be the next one that `boot_alloc` hands out, after at least one page of base
-- memory and all of it, let memory have at most 2 ^ 19 pages, and 83 more than the kernel, its
-- directory, `pages` and `envs` end in, which is in the first 2 ^ 16 pages, and let the stacks lie
-- within 4 GB. Then `mem_init` without its tests returns. The directory is well formed, neither it
-- nor its page tables are free, at least the pages beyond these 83 are, and every address outside
-- the window at `UVPT` translates as an independent description says: `UPAGES` and `UENVS` to the
-- arrays, for the user to read, the kernel's stack, memory from `KERNBASE` on, the devices from
-- `IOMEMBASE` on, then the stacks of the CPUs, each over the ones before, and nothing else.
pub mem_init-Root :
    (end bootstack : ℕ) (kstacks : ℕ → ℕ) (first n : ℕ) (k : Kernel)
    → (if k.nextfree == 0 then round_up end else k.nextfree) ≡ kva first
    → 1 ≤ k.npages_basemem
    → k.npages_basemem ≤ first
    → k.npages ≤ 2 ^ 19
    → mile_of first k.npages < 2 ^ 16
    → n + 83 + mile_of first k.npages ≤ k.npages
    → bootstack + kstksize ≤ 2 ^ 32
    → ((j : ℕ) → kstacks j + kstksize ≤ 2 ^ 32)
    → Returns
        (λ _ k'. Root k' n (
          kernel_view k.npages
            (4096 * (first + 1))
            (4096 * envs_page first k.npages)
            bootstack
            kstacks
            (λ a. none)))
        (mem_init end bootstack kstacks k)
unfolding mem_init init_pgdir
mem_init-Root end bootstack kstacks first n k start low above few mile_low room room' high =
    let Q : Unit {0} → Kernel → Type 0 = λ _ k'. Root k' n (
      kernel_view k.npages (4096 * (first + 1)) (4096 * envs_page first k.npages) bootstack kstacks
        (λ a. none)) in
    let k₁ : Kernel = record k { nextfree = kva (first + 1) } in
    let k₂ : Kernel = init_pgdir (4096 * first) k₁ in
    let k₃ : Kernel = record k₂ { nextfree = kva (envs_page first k.npages) } in
    let k₄ : Kernel = record k₃ { nextfree = kva (mile_of first k.npages) } in
    let mile = mile_of first k.npages in
    Returns-ret Q (boot_alloc end pg_size k) _ (kva first) k₁
      (boot_alloc-page end first pg_size k start (omega arith) (omega (arith, mile_low)))
      (Returns-ret Q (paddr (kva first) k₁) _ (4096 * first) k₁ (paddr-kva first k₁) (
        Returns-ret Q (boot_alloc end (k.npages * page_size) k₂) _ (kva (first + 1)) k₃
          (boot_alloc-page end (first + 1) (k.npages * page_size) k₂ (ground arith)
            (omega (arith, room)) (omega (arith, mile_low)))
          (Returns-ret Q (boot_alloc end (n_env * env_size) k₃) _ (kva (envs_page first k.npages))
            k₄
            (boot_alloc-page end (envs_page first k.npages) (n_env * env_size) k₃ (ground arith)
              (omega arith) (omega (arith, mile_low)))
            (Returns-bind (λ _ k'. Initialised mile k₄ k') Q (page_init end k₄) _
              (page_init-Initialised end mile k₄ (omega arith) low (omega (arith, above))
                (omega (arith, room)))
              λ _ k₅ init.
                Returns-ret Q (paddr (kva (first + 1)) k₅) _ (4096 * (first + 1)) k₅
                  (paddr-kva (first + 1) k₅)
                  (Returns-ret Q (paddr (kva (envs_page first k.npages)) k₅) _
                    (4096 * envs_page first k.npages) k₅ (paddr-kva (envs_page first k.npages) k₅)
                    (map_then_load (4096 * (first + 1)) (4096 * envs_page first k.npages) bootstack
                      kstacks k.npages n (ap (λ (s : Kernel). s.npages) init.kept) few
                      (omega (arith, mile_low)) (omega (arith, mile_low)) room' high
                      (init-Root k₄ k₅ mile (n + 83) init (λ i ne. ground (arith, ne)) low
                        (omega (arith, above)) (omega arith) (omega (arith, few))
                        (omega (arith, room)))))))))
