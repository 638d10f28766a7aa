-- ===== src/Kernel/Start/Root.antt =====
-- The address space of `kern_pgdir` that `mem_init` of kern/pmap.c builds.
use csdi_jos.Common.{
  ℕ, zero, suc, ◌+◌, ◌-◌, ◌*◌, ◌/◌, ◌^◌, ◌≤◌, ◌<◌, ◌≡◌, sym, ap, subst, ◌∙◌, List, length, Option,
  some, arith,
}
use csdi_jos.Kernel.State.{Kernel, K, ◌>>◌}
use csdi_jos.Kernel.State.Returns.{Returns, Returns-bind, Returns-mono}
use csdi_jos.Kernel.State.Layout.{kern_base, round_up, n_env}
use csdi_jos.Kernel.Vm.{boot_map_region}
use csdi_jos.Kernel.Vm.View.{translate, Ordinary}
use csdi_jos.Kernel.Vm.Fresh.{Space}
use csdi_jos.Kernel.Vm.Static.Range.{Ranged, range_entry, tables_of, boot_map_region-Ranged}
use csdi_jos.Kernel.Start.{
  kstacktop, kstksize, upages, uenvs, iomembase, n_cpu_stacks, page_size, env_size, map_root,
  map_stacks, mem_init_mp, map_kernel,
}

-- `kern_pgdir` maps what `view` says, with at least `n` pages free.
pub record Root (k : Kernel) (n : ℕ) (view : ℕ → Option ℕ) : Type 0 where
  pub free : List ℕ
  pub space : Space k k.kern_pgdir free
  pub enough : n ≤ length free
  pub maps : (a : ℕ) → a < 2 ^ 32 → Ordinary a → translate k k.kern_pgdir a ≡ view a

-- A range of `size` bytes at `va`.
abbrev pub ranged : (va size pa perm : ℕ) → (ℕ → Option ℕ) → ℕ → Option ℕ
ranged va size pa perm view a = range_entry va pa perm (size / 4096) a (view a)

map_root-Root :
    (va size pa perm n : ℕ) {k : Kernel} (view : ℕ → Option ℕ)
    → Root k (tables_of va (size / 4096) + n) view
    → ((j : ℕ) → j < size / 4096 → Ordinary (va + 4096 * j))
    → va + 4096 * (size / 4096) ≤ 2 ^ 32
    → pa + 4096 * (size / 4096) ≤ 2 ^ 32
    → Returns (λ _ k'. Root k' n (ranged va size pa perm view)) (map_root va size pa perm k)
unfolding map_root
map_root-Root va size pa perm n {k} view root at top top' =
    Returns-mono
      (λ _ k'. (qs : List ℕ) × Ranged k k' k.kern_pgdir va pa perm (size / 4096) root.free qs)
      (λ _ k'. Root k' n (ranged va size pa perm view))
      (boot_map_region (some k.kern_pgdir) va size pa perm k)
      (boot_map_region-Ranged va size pa perm root.free root.space at top top'
        (omega (arith, root.enough)))
      λ _ k' (qs, r).
        let same : k.kern_pgdir ≡ k'.kern_pgdir = sym (ap (λ (s : Kernel). s.kern_pgdir) r.kept) in
        record {
          free = qs;
          space = subst (λ d. Space k' d qs) same r.space;
          enough = omega (arith, root.enough, r.spent.0);
          maps = λ a low out.
              subst (λ d. translate k' d a ≡ range_entry va pa perm (size / 4096) a (view a)) same
                (r.view a low out
                  ∙ ap (range_entry va pa perm (size / 4096) a) (root.maps a low out));
        }

-- The stacks of the CPUs from `i` on.
abbrev pub stacks_view : (ℕ → ℕ) → (i n : ℕ) → (ℕ → Option ℕ) → ℕ → Option ℕ
stacks_view kstacks i zero view = view
stacks_view kstacks i (suc n) view =
    stacks_view kstacks (suc i) n
      (ranged (kstacktop - i * (kstksize + kstksize) - kstksize) kstksize (kstacks i) 2 view)

abbrev pub kernel_view : (npages pages envs bootstack : ℕ) → (ℕ → ℕ) → (ℕ → Option ℕ) → ℕ → Option ℕ
kernel_view npages pages envs bootstack kstacks view = stacks_view kstacks 0 n_cpu_stacks (
    ranged iomembase (2 ^ 32 - iomembase) iomembase 2 (
      ranged kern_base (round_up (0xffff_ffff - kern_base)) 0 2 (
        ranged (kstacktop - kstksize) kstksize bootstack 2 (
          ranged uenvs (round_up (n_env * env_size)) envs 5
            (ranged upages (round_up (npages * page_size)) pages 5 view)))))

map_stacks-Root :
    (kstacks : ℕ → ℕ) (i n m : ℕ) {k : Kernel} (view : ℕ → Option ℕ)
    → i + n ≤ 8
    → ((j : ℕ) → kstacks j + kstksize ≤ 2 ^ 32)
    → Root k (n + m) view
    → Returns (λ _ k'. Root k' m (stacks_view kstacks i n view)) (map_stacks kstacks i n k)
unfolding map_stacks
map_stacks-Root kstacks i zero m {k} view few high root =
    subst (λ c. Root k c view) (omega arith) root
map_stacks-Root kstacks i (suc n) m {k} view few high root =
    let va = kstacktop - i * (kstksize + kstksize) - kstksize in
    let one : tables_of va (kstksize / 4096) + (n + m) ≡ suc n + m = omega (arith, few) in
    Returns-bind (λ _ k'. Root k' (n + m) (ranged va kstksize (kstacks i) 2 view))
      (λ _ k'. Root k' m (stacks_view kstacks i (suc n) view))
      (map_root va kstksize (kstacks i) 2 k) (λ _. map_stacks kstacks (suc i) n)
      (map_root-Root va kstksize (kstacks i) 2 (n + m) view
        (subst (λ c. Root k c view) (sym one) root) (λ j lt e. absurd (omega (arith, few, lt, e)))
        (omega (arith, few)) (omega (arith, high i)))
      λ _ k'. map_stacks-Root kstacks (suc i) n m _ (omega (arith, few)) high

Root-less : {k : Kernel} {view : ℕ → Option ℕ} (n m : ℕ) → n ≤ m → Root k m view → Root k n view
Root-less n m le root = record {
  free = root.free;
  space = root.space;
  enough = omega (arith, le, root.enough);
  maps = root.maps;
}

-- A mapping, and what comes after it.
map_root-then :
    (va size pa perm n : ℕ) {k : Kernel} (view : ℕ → Option ℕ) (P : Unit {0} → Kernel → Type 0)
    (next : K (Unit {0}))
    → Root k (tables_of va (size / 4096) + n) view
    → ((j : ℕ) → j < size / 4096 → Ordinary (va + 4096 * j))
    → va + 4096 * (size / 4096) ≤ 2 ^ 32
    → pa + 4096 * (size / 4096) ≤ 2 ^ 32
    → ((k' : Kernel) → Root k' n (ranged va size pa perm view) → Returns P (next k'))
    → Returns P ((map_root va size pa perm >> next) k)
map_root-then va size pa perm n {k} view P next root at top top' rest =
    Returns-bind (λ _ k'. Root k' n (ranged va size pa perm view)) P (map_root va size pa perm k)
      (λ _. next) (map_root-Root va size pa perm n view root at top top') λ _ k'. rest k'

pub map_kernel-Root :
    (pages envs bootstack : ℕ) (kstacks : ℕ → ℕ) {k : Kernel} (n : ℕ) (view : ℕ → Option ℕ)
    → k.npages ≤ 2 ^ 19
    → pages + 2 ^ 22 ≤ 2 ^ 32
    → envs + 2 ^ 22 ≤ 2 ^ 32
    → bootstack + kstksize ≤ 2 ^ 32
    → ((j : ℕ) → kstacks j + kstksize ≤ 2 ^ 32)
    → Root k (n + 83) view
    → Returns
        (λ _ k'. Root k' n (kernel_view k.npages pages envs bootstack kstacks view))
        (map_kernel pages envs bootstack kstacks k)
unfolding map_kernel mem_init_mp
map_kernel-Root pages envs bootstack kstacks {k} n view few room room' room'' high root =
    let P : Unit {0} → Kernel → Type 0 =
      λ _ k'. Root k' n (kernel_view k.npages pages envs bootstack kstacks view) in
    let size : round_up (k.npages * page_size) / 4096 ≤ 1024 = omega (arith, few) in
    let v₁ = ranged upages (round_up (k.npages * page_size)) pages 5 view in
    let v₂ = ranged uenvs (round_up (n_env * env_size)) envs 5 v₁ in
    let v₃ = ranged (kstacktop - kstksize) kstksize bootstack 2 v₂ in
    let v₄ = ranged kern_base (round_up (0xffff_ffff - kern_base)) 0 2 v₃ in
    map_root-then upages (round_up (k.npages * page_size)) pages 5 (n + 82) view P _
      (Root-less _ (n + 83) (omega (arith, size)) root)
      (λ j lt e. absurd (omega (arith, size, lt, e))) (omega (arith, size))
      (omega (arith, size, room))
      λ k₁ r₁.
        map_root-then uenvs (round_up (n_env * env_size)) envs 5 (n + 81) v₁ P _
          (Root-less _ (n + 82) (omega arith) r₁) (λ j lt e. absurd (omega (arith, lt, e)))
          (omega arith) (omega (arith, room'))
          λ k₂ r₂.
            map_root-then (kstacktop - kstksize) kstksize bootstack 2 (n + 80) v₂ P _
              (Root-less _ (n + 81) (omega arith) r₂) (λ j lt e. absurd (omega (arith, lt, e)))
              (omega arith) (omega (arith, room''))
              λ k₃ r₃.
                map_root-then kern_base (round_up (0xffff_ffff - kern_base)) 0 2 (n + 16) v₃ P _
                  (Root-less _ (n + 80) (omega arith) r₃) (λ j lt e. absurd (omega (arith, lt, e)))
                  (omega arith) (omega arith)
                  λ k₄ r₄.
                    map_root-then iomembase (2 ^ 32 - iomembase) iomembase 2 (n + 8) v₄ P _
                      (Root-less _ (n + 16) (omega arith) r₄)
                      (λ j lt e. absurd (omega (arith, lt, e))) (omega arith) (omega arith)
                      λ k₅ r₅.
                        map_stacks-Root kstacks 0 8 n _ (omega arith) high
                          (Root-less (8 + n) (n + 8) (omega arith) r₅)
