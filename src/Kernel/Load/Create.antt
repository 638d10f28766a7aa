-- ===== src/Kernel/Load/Create.antt =====
-- `env_create` of kern/env.c: a new environment with a program in its memory.
use csdi_jos.Common.{
  ℕ, ◌+◌, ◌*◌, ◌^◌, ◌≤◌, ◌<◌, ◌≡◌, ◌≢◌, inl, inr, refl, sym, ap, subst, ◌∙◌, Bool-cases, true,
  false, List, ◌∷◌, All, Distinct, NotIn, length, some, none, arith,
}
use csdi_jos.Library.Memory.{Memory}
use csdi_jos.Boot.Elf.{elf_magic, e_magic, e_phoff, e_phnum, e_entry}
use csdi_jos.Kernel.State.{Kernel, Env, EnvType, set_env, status_runnable}
use csdi_jos.Kernel.State.Returns.{Returns, Returns-bind, Returns-mono}
use csdi_jos.Kernel.State.Layout.{u_top, envx, n_env, pdx, pte_p, pte_w, pte_frame, add32}
use csdi_jos.Kernel.Vm.View.{translate, Ordinary, below_top-Ordinary}
use csdi_jos.Kernel.Vm.Fresh.{Space}
use csdi_jos.Kernel.Envs.{env_alloc}
use csdi_jos.Kernel.Envs.Alloc.{EnvLinks}
use csdi_jos.Kernel.Envs.Create.{NewEnv, env_alloc_lem}
use csdi_jos.Kernel.Load.{load_icode, env_create}
use csdi_jos.Kernel.Load.Image.{Image, Holds, with_pages}
use csdi_jos.Kernel.Load.Loop.{load_image, load_pages, FitsAll}
use csdi_jos.Kernel.Load.Entry.{Ready, stack_page, Holds-registers, load_icode-Ready}

-- A program without any memory.
abbrev pub no_memory : Image
no_memory = record { has = λ q. false; bytes = λ a. 0 }

-- The directory of a new environment is like `kern_pgdir` outside the window at `UVPT`.
module _ {k k' : Kernel} {parent_id e p : ℕ} {es ps : List ℕ}
    (new : NewEnv k k' parent_id e p es ps) (space : Space k k.kern_pgdir (p ∷ ps)) where
  same_entry : (a : ℕ) → Ordinary a → k'.frames p (pdx a) ≡ k.frames k.kern_pgdir (pdx a)
  same_entry a out = new.kernel_part (pdx a) out

  was_set :
      (a : ℕ)
      → Ordinary a
      → pte_p (k'.frames p (pdx a)) ≡ true
      → pte_p (k.frames k.kern_pgdir (pdx a)) ≡ true
  was_set a out set = sym (ap pte_p (same_entry a out)) ∙ set

  NewEnv-translate : (a : ℕ) → Ordinary a → translate k' p a ≡ translate k k.kern_pgdir a
  unfolding translate
  NewEnv-translate a out = elim (Bool-cases (pte_p (k.frames k.kern_pgdir (pdx a)))) [
    | inl set ↦
        let e =
          new.words (pte_frame (k.frames k.kern_pgdir (pdx a)))
            (λ e. (space.busy.tables a out set).0 (sym e)) in
        rw (same_entry a out, set, e) refl
    | inr clear ↦ rw (same_entry a out, clear) refl
  ]

  NewEnv-Space : Space k' p ps
  NewEnv-Space = record {
    dir = record {
      tables = λ a out set.
          let was = was_set a out set in
          record {
            present = set;
            at = refl;
            inside =
                subst (λ n. pte_frame (k'.frames p (pdx a)) < n) (sym new.size)
                  (subst (λ w. pte_frame w < k.npages) (sym (same_entry a out))
                    (space.dir.tables a out was).inside);
            apart =
                subst (λ w. p ≢ pte_frame w) (sym (same_entry a out))
                  (λ e. (space.busy.tables a out was).0 (sym e));
          };
      distinct = λ a b out out' ne set set'.
          rw (same_entry a out, same_entry b out')
            (space.dir.distinct a b out out' ne (was_set a out set) (was_set b out' set'));
    };
    free = new.free;
    busy = record {
      directory = space.free.distinct.0;
      tables = λ a out set.
          subst (λ w. NotIn (pte_frame w) ps) (sym (same_entry a out))
            (space.busy.tables a out (was_set a out set)).1;
    };
    memory = subst (λ n. n ≤ 2 ^ 20) (sym new.size) space.memory;
    writable = λ a out set.
        subst (λ w. pte_w w ≡ true) (sym (same_entry a out))
          (space.writable a out (was_set a out set));
  }

  NewEnv-Holds : ((a : ℕ) → a < u_top → translate k k.kern_pgdir a ≡ none) → Holds k' p ps no_memory
  NewEnv-Holds kernel_only = record {
    space = NewEnv-Space;
    page = λ q. 0;
    mapped = λ a low has. absurd (ground (arith, has));
    own = λ q has. absurd (ground (arith, has));
    inside = λ q has. absurd (ground (arith, has));
    apart = λ q r has. absurd (ground (arith, has));
    stored = λ a low has. absurd (ground (arith, has));
    empty = λ a low _. NewEnv-translate a (below_top-Ordinary a low) ∙ kernel_only a low;
  }

-- Slot `e` has a program: the memory is the image, the directory is page `p`.
pub record Created (k k' : Kernel) (e p entry : ℕ) (type : EnvType) (img : Image) (qs : List ℕ)
    : Type 0 where
  pub memory : Holds k' p qs img
  pub directory : (k'.envs e).env_pgdir ≡ some p
  pub runnable : (k'.envs e).env_status ≡ status_runnable
  pub kind : (k'.envs e).env_type ≡ type
  pub parent : (k'.envs e).env_parent_id ≡ 0
  pub names : envx (k'.envs e).env_id ≡ e
  pub starts : (k'.envs e).env_tf.tf_eip ≡ entry
  pub others : (i : ℕ) → e ≢ i → k'.envs i ≡ k.envs i

-- `env_type` is set between the two calls.
Ready-Created :
    (k k₁ : Kernel) {k' : Kernel} {e p pages entry : ℕ} {es ps qs : List ℕ} {img : Image}
    (type : EnvType)
    → NewEnv k k₁ 0 e p es ps
    → Ready (set_env e (record (k₁.envs e) { env_type = type }) k₁) k' e p pages entry img ps qs
    → Created k k' e p entry type img qs
Ready-Created k k₁ {k'} {e} {entry = entry} type new ready =
    let set : (set_env e (record (k₁.envs e) { env_type = type }) k₁).envs e
        ≡ record (k₁.envs e) { env_type = type } =
      ground arith in
    let slot : k'.envs e ≡ record (k₁.envs e) {
      env_type = type;
      env_tf = record (k₁.envs e).env_tf { tf_eip = entry };
    } =
      ready.starts
      ∙ ap (λ (s : Env). record s { env_tf = record s.env_tf { tf_eip = entry } }) set in
    record {
      memory = ready.memory;
      directory = ap (λ (s : Env). s.env_pgdir) slot ∙ new.directory;
      runnable = ap (λ (s : Env). s.env_status) slot ∙ new.runnable;
      kind = ap (λ (s : Env). s.env_type) slot;
      parent = ap (λ (s : Env). s.env_parent_id) slot ∙ new.parent;
      names = ap (λ (s : Env). envx s.env_id) slot ∙ new.names;
      starts = ap (λ (s : Env). s.env_tf.tf_eip) slot;
      others = λ i ne. ready.others i ne ∙ ground (arith, ne) ∙ new.others i ne;
    }

module _ (m : Memory) (byte : (a : ℕ) → m a < 256) (binary : ℕ) where
  abbrev first_header : ℕ
  first_header = add32 binary (e_phoff m binary)

  abbrev headers : ℕ
  headers = e_phnum m binary

  -- Let the list of free environments hold exactly distinct slots below 1024 with 32-bit
  -- identifiers, `e` first, and the free list exactly `ps` after page `p`, let `kern_pgdir` be a
  -- well-formed directory that with its tables is not free and that maps nothing below `UTOP`, let
  -- memory have at most 2 ^ 20 pages, and let the image have the ELF magic number, program headers
  -- that do not wrap round, pages for which two free pages each are left in `ps`, with one for the
  -- stack, and no segment at the stack. Each loadable header asks for the pages that its bytes in
  -- memory lie in, which are as many as these bytes take from a page boundary on and so all that
  -- `region_alloc` maps; they end at or below `UTOP` and no header before it has them, its file
  -- bytes lie in these pages and do not wrap round in the kernel. Then `env_create` returns. Slot
  -- `e` is runnable, of the type, with parent 0, an identifier that names it, and the image's entry
  -- point; its directory `p` maps below `UTOP` exactly the pages of the segments and the stack's,
  -- each to a page of its own that the user may write, with the bytes that the headers name and
  -- zeros elsewhere. No other slot changes.
  pub env_create-Created :
      {k : Kernel} (type : EnvType) (e p : ℕ) (es ps : List ℕ)
      → EnvLinks k.envs k.env_free_list (e ∷ es)
      → Distinct (e ∷ es)
      → All (λ e. (e < n_env) × ((k.envs e).env_id < 2 ^ 32)) (e ∷ es)
      → Space k k.kern_pgdir (p ∷ ps)
      → ((a : ℕ) → a < u_top → translate k k.kern_pgdir a ≡ none)
      → e_magic m binary ≡ elf_magic
      → first_header + 32 * headers < 2 ^ 32
      → FitsAll m binary headers first_header no_memory
      → (load_image m binary headers first_header no_memory).has stack_page ≡ false
      → 2 * (load_pages m headers first_header + 1) ≤ length ps
      → Returns
          (λ _ k'.
            (qs : List ℕ) × Created k k' e p
              (e_entry m binary)
              type
              (with_pages stack_page 1 (load_image m binary headers first_header no_memory))
              qs)
          (env_create m binary type k)
  unfolding env_create
  env_create-Created {k} type e p es ps slots distinct valid space kernel_only magic top fits stack
        more =
      let img = load_image m binary headers first_header no_memory in
      let Q : Unit {0} → Kernel → Type 0 = λ _ k'.
        (qs : List ℕ) × Created k k' e p (e_entry m binary) type (with_pages stack_page 1 img) qs in
      Returns-bind (λ r k₁. (r ≡ (0, some e)) × NewEnv k k₁ 0 e p es ps) Q (env_alloc 0 k) _
        (env_alloc_lem 0 (e ∷ es) (p ∷ ps) slots distinct valid space.free space.memory
          space.busy.directory)
        λ r k₁ (answer, new).
          let k₂ : Kernel = set_env e (record (k₁.envs e) { env_type = type }) k₁ in
          rw answer (
            Returns-mono
              (λ _ k'.
                (qs : List ℕ) × Ready k₂ k' e p (load_pages m headers first_header + 1)
                  (e_entry m binary) (with_pages stack_page 1 img) ps qs)
              Q (load_icode e m binary k₂)
              (load_icode-Ready e m byte binary ps no_memory magic top
                (Holds-registers k₁.cr3 k₂.envs (NewEnv-Holds new space kernel_only))
                (ground (arith, new.directory)) fits stack more)
              λ _ k' (qs, ready). (qs, Ready-Created k k₁ type new ready))
