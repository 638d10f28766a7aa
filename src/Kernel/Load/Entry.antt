-- ===== src/Kernel/Load/Entry.antt =====
-- `load_icode` of kern/env.c: the memory and the registers of the program.
use csdi_jos.Common.{
  ℕ, ◌+◌, ◌-◌, ◌*◌, ◌/◌, ◌^◌, ◌≤◌, ◌<◌, ◌≡◌, ◌≢◌, refl, sym, ap, subst, ◌∙◌, true, false, ◌==◌,
  List, length, some, arith,
}
use csdi_jos.Library.Memory.{Memory}
use csdi_jos.Boot.Elf.{half_at, elf_magic, e_magic, e_phoff, e_phnum, e_entry, proghdr_size}
use csdi_jos.Kernel.State.{Kernel, Env}
use csdi_jos.Kernel.State.Returns.{Returns, Returns-bind, Returns-mono}
use csdi_jos.Kernel.State.Layout.{u_stack_top, pg_size, add32}
use csdi_jos.Kernel.Vm.View.{translate}
use csdi_jos.Kernel.Envs.{region_alloc}
use csdi_jos.Kernel.Envs.Switch.{lcr3}
use csdi_jos.Kernel.Envs.Region.{Loads}
use csdi_jos.Kernel.Envs.Region.Loop.{region_alloc-Region}
use csdi_jos.Kernel.Load.{load_headers, load_icode, set_entry}
use csdi_jos.Kernel.Load.Image.{Image, Holds, with_pages}
use csdi_jos.Kernel.Load.Pages.{Holds-pages}
use csdi_jos.Kernel.Load.Segments.{Loaded, segment-Unmapped}
use csdi_jos.Kernel.Load.Loop.{load_image, load_pages, FitsAll, load_headers-Loaded}

-- The current directory and the environments do not matter to the memory of a program.
pub Holds-registers :
    {k : Kernel} {pgdir : ℕ} {ps : List ℕ} {img : Image} (c : ℕ) (envs : ℕ → Env)
    → Holds k pgdir ps img
    → Holds (record k { cr3 = c; envs = envs }) pgdir ps img
unfolding translate
Holds-registers c envs h = record {
  space = record {
    dir = record {
      tables = λ a out set.
          let t = h.space.dir.tables a out set in
          record { present = t.present; at = t.at; inside = t.inside; apart = t.apart };
      distinct = h.space.dir.distinct;
    };
    free = record {
      chain = h.space.free.chain;
      distinct = h.space.free.distinct;
      bounded = h.space.free.bounded;
      unused = h.space.free.unused;
    };
    busy = record { directory = h.space.busy.directory; tables = h.space.busy.tables };
    memory = h.space.memory;
    writable = h.space.writable;
  };
  page = h.page;
  mapped = h.mapped;
  own = λ q has.
      let own = h.own q has in
      record { taken = own.taken; no_directory = own.no_directory; no_table = own.no_table };
  inside = h.inside;
  apart = h.apart;
  stored = h.stored;
  empty = h.empty;
}

-- The page of the stack, below `USTACKTOP`.
abbrev pub stack_page : ℕ
stack_page = (u_stack_top - pg_size) / 4096

-- The program's memory is the image, it starts at `entry`, its directory is the current one, and the
-- other environments are as before.
pub record Ready (k k' : Kernel) (e pgdir pages entry : ℕ) (img : Image) (ps qs : List ℕ)
    : Type 0 where
  pub memory : Holds k' pgdir qs img
  pub fewer : length ps ≤ length qs + 2 * pages
  pub starts :
      k'.envs e ≡ record (k.envs e) { env_tf = record (k.envs e).env_tf { tf_eip = entry } }
  pub others : (i : ℕ) → e ≢ i → k'.envs i ≡ k.envs i
  pub current : k'.cr3 ≡ pgdir

Ready-before :
    (k k₁ : Kernel) (pages : ℕ) {k' : Kernel} {e pgdir entry : ℕ} {img : Image} {ps qs rs : List ℕ}
    → k₁.envs ≡ k.envs
    → length ps ≤ length qs + 2 * pages
    → Ready k₁ k' e pgdir 1 entry img qs rs
    → Ready k k' e pgdir (pages + 1) entry img ps rs
Ready-before k k₁ pages {e = e} {entry = entry} same fewer ready = record {
  memory = ready.memory;
  fewer = omega (arith, fewer, ready.fewer);
  starts =
      ready.starts
      ∙ ap
          (λ (envs : ℕ → Env). record (envs e) {
            env_tf = record (envs e).env_tf { tf_eip = entry };
          })
          same;
  others = λ i ne. ready.others i ne ∙ ap (λ (envs : ℕ → Env). envs i) same;
  current = ready.current;
}

few_headers : (m : Memory) (a : ℕ) → ((a : ℕ) → m a < 256) → half_at m a < 2 ^ 16
unfolding half_at
few_headers m a byte = omega (arith, byte a, byte (a + 1))

stack-Ready :
    (e entry : ℕ) {k : Kernel} {pgdir : ℕ} (ps : List ℕ) (img : Image)
    → Holds k pgdir ps img
    → (k.envs e).env_pgdir ≡ some pgdir
    → k.cr3 ≡ pgdir
    → img.has stack_page ≡ false
    → 2 ≤ length ps
    → Returns
        (λ _ k'. (qs : List ℕ) × Ready k k' e pgdir 1 entry (with_pages stack_page 1 img) ps qs)
        (region_alloc e (u_stack_top - pg_size) pg_size (set_entry e entry k))
unfolding set_entry
stack-Ready e entry {k} {pgdir} ps img h own cr3 stack more =
    let k₁ = set_entry e entry k in
    let h₁ = Holds-registers k.cr3 k₁.envs h in
    Returns-mono (Loads k₁ pgdir (u_stack_top - pg_size) 1 ps)
      (λ _ k'. (qs : List ℕ) × Ready k k' e pgdir 1 entry (with_pages stack_page 1 img) ps qs)
      (region_alloc e (u_stack_top - pg_size) pg_size k₁)
      (region_alloc-Region e (u_stack_top - pg_size) pg_size ps (ground (arith, own)) (omega arith)
        h₁.space
        (segment-Unmapped (u_stack_top - pg_size) 1 h₁ (omega arith)
          (λ q from to. subst (λ p. img.has p ≡ false) (omega (arith, from, to)) stack))
        (omega (arith, more)))
      λ _ k' (qs, r). (
        qs,
        record {
          memory = Holds-pages h₁ r stack_page (omega arith) (omega arith);
          fewer = r.fewer;
          starts = ap (λ (s : Kernel). s.envs e) r.kept ∙ ground arith;
          others = λ i ne. ap (λ (s : Kernel). s.envs i) r.kept ∙ ground (arith, ne);
          current = ap (λ (s : Kernel). s.cr3) r.kept ∙ cr3;
        },
      )

module _ (e : ℕ) (m : Memory) (byte : (a : ℕ) → m a < 256) (binary : ℕ) where
  abbrev first_header : ℕ
  first_header = add32 binary (e_phoff m binary)

  abbrev headers : ℕ
  headers = e_phnum m binary

  -- Let the memory of `e` below `UTOP` be described by `img`: which pages it has, each a page of
  -- its own that the user may write, and the byte at each address. Let the image have the ELF magic
  -- number and program headers that do not wrap round, with two free pages for each page that they
  -- ask for and for the stack's. Each loadable header asks for pages that end at or below `UTOP`
  -- and that are not there yet, its file bytes lie in these pages and do not wrap round in the
  -- kernel, and the stack's page is not there. Then `load_icode` returns, and the memory of `e` is
  -- `img` with the pages of the segments, their bytes from the file and zeros elsewhere, and a page
  -- of zeros for the stack. The environment starts at the entry point, its directory is the current
  -- one, at most two pages for each one mapped have left the free list, and no other environment
  -- changes.
  pub load_icode-Ready :
      {k : Kernel} {pgdir : ℕ} (ps : List ℕ) (img : Image)
      → e_magic m binary ≡ elf_magic
      → first_header + 32 * headers < 2 ^ 32
      → Holds k pgdir ps img
      → (k.envs e).env_pgdir ≡ some pgdir
      → FitsAll m binary headers first_header img
      → (load_image m binary headers first_header img).has stack_page ≡ false
      → 2 * (load_pages m headers first_header + 1) ≤ length ps
      → Returns
          (λ _ k'.
            (qs : List ℕ) × Ready k k' e pgdir
              (load_pages m headers first_header + 1)
              (e_entry m binary)
              (with_pages stack_page 1 (load_image m binary headers first_header img))
              ps
              qs)
          (load_icode e m binary k)
  unfolding load_icode lcr3 set_entry
  load_icode-Ready {k} {pgdir} ps img magic top h own fits stack more =
      let img₁ = load_image m binary headers first_header img in
      let magic' : (e_magic m binary == elf_magic) ≡ true = ground (arith, magic) in
      let end : first_header + 32 * headers ≡ add32 first_header (headers * proghdr_size) =
        ground (arith, top) in
      let Q : Unit {0} → Kernel → Type 0 = λ _ k'.
        (qs : List ℕ) × Ready k k' e pgdir (load_pages m headers first_header + 1)
          (e_entry m binary) (with_pages stack_page 1 img₁) ps qs in
      let k₀ : Kernel = record k { cr3 = pgdir } in
      rw (magic', own, sym end)
        (Returns-bind (Loaded k₀ pgdir (load_pages m headers first_header) ps img₁) Q
          (load_headers (2 ^ 16 + 1) e m binary first_header (first_header + 32 * headers) k₀) _
          (load_headers-Loaded e m byte binary (2 ^ 16 + 1) headers first_header img
            (omega (arith, few_headers m (binary + 44) byte)) top (Holds-registers pgdir k.envs h)
            own refl fits (omega (arith, more)))
          λ _ k₁ (qs, h₁, fewer₁, kept₁).
            let same : k₁.envs ≡ k.envs = ap (λ (s : Kernel). s.envs) kept₁ in
            Returns-mono
              (λ _ k'.
                (rs : List ℕ) × Ready k₁ k' e pgdir 1 (e_entry m binary)
                  (with_pages stack_page 1 img₁) qs rs)
              Q (region_alloc e (u_stack_top - pg_size) pg_size (set_entry e (e_entry m binary) k₁))
              (stack-Ready e (e_entry m binary) qs img₁ h₁
                (ap (λ (envs : ℕ → Env). (envs e).env_pgdir) same ∙ own)
                (ap (λ (s : Kernel). s.cr3) kept₁) stack (omega (arith, more, fewer₁)))
              λ _ k' (rs, ready).
                (rs, Ready-before k k₁ (load_pages m headers first_header) same fewer₁ ready))
