-- ===== src/Kernel/Vm/Static.antt =====
-- A round of `boot_map_region` of kern/pmap.c: a page table, and an entry in it.
pub mod Range
use csdi_jos.Common.{
  ℕ, ◌+◌, ◌-◌, ◌≤◌, ◌≡◌, refl, sym, ap, subst, ◌∙◌, true, false, List, [], ◌∷◌, NotIn, length,
  Option, some, arith,
}
use csdi_jos.Kernel.State.{Kernel, set_word, ◌>>=◌}
use csdi_jos.Kernel.State.Returns.{Returns, Returns-mono}
use csdi_jos.Kernel.State.Layout.{pdx, ptx, pte_p, pte_w, pte_frame}
use csdi_jos.Kernel.Vm.{PtePtr, pgdir_walk}
use csdi_jos.Kernel.Vm.Walk.{HasTable, NewTable, pgdir_walk-present, pgdir_walk-create}
use csdi_jos.Kernel.Vm.Insert.{HasTable-frame}
use csdi_jos.Kernel.Pages.FreeList.{FreeList}
use csdi_jos.Kernel.Vm.Store.{Writes}
use csdi_jos.Kernel.Vm.EmptyTable.{NewTable-translate}
use csdi_jos.Kernel.Vm.View.{translate, present, Ordinary, pde_same, Writes-Directory}
use csdi_jos.Kernel.Vm.Fresh.{Space, NewTable-Space}

-- The page table for `va` is there; it may have taken the first free page, if there was none before.
pub record Walked (k k' : Kernel) (pgdir va table : ℕ) (ps qs : List ℕ) : Type 0 where
  pub space : Space k' pgdir qs
  pub here : HasTable k' pgdir va table
  pub view : (a : ℕ) → Ordinary a → translate k' pgdir a ≡ translate k pgdir a
  pub fewer : length ps ≤ length qs + 1
  pub same :
      k' ≡ record k { pages = k'.pages; page_free_list = k'.page_free_list; frames = k'.frames }
  pub kept : pte_p (k.frames pgdir (pdx va)) ≡ true → length ps ≤ length qs

abbrev pub Walks : (k : Kernel) (pgdir va : ℕ) (ps : List ℕ) → Option PtePtr → Kernel → Type 0
Walks k pgdir va ps r k' =
    (table : ℕ) × (qs : List ℕ) × (r ≡ some (table, ptx va)) × Walked k k' pgdir va table ps qs

module _ {k : Kernel} {pgdir : ℕ} (va : ℕ) (at : Ordinary va) where
  pub walk_present :
      {ps : List ℕ}
      → Space k pgdir ps
      → pte_p (k.frames pgdir (pdx va)) ≡ true
      → Returns (Walks k pgdir va ps) (pgdir_walk (some pgdir) va true k)
  walk_present {ps} space set =
      let h = space.dir.tables va at set in
      subst (Returns (Walks k pgdir va ps)) (sym (pgdir_walk-present true h)) (
        pte_frame (k.frames pgdir (pdx va)),
        ps,
        refl,
        record {
          space = space;
          here = h;
          view = λ a out. refl;
          same = refl;
          fewer = omega arith;
          kept = λ _. omega arith;
        },
      )

  pub walk_absent :
      (ps : List ℕ)
      → Space k pgdir ps
      → pte_p (k.frames pgdir (pdx va)) ≡ false
      → 1 ≤ length ps
      → Returns (Walks k pgdir va ps) (pgdir_walk (some pgdir) va true k)
  walk_absent [] space clear more = absurd (omega (arith, more))
  walk_absent (p ∷ qs) space clear more =
      Returns-mono (λ r k'. (r ≡ some (p, ptx va)) × FreeList k' qs × NewTable k k' pgdir va p)
        (Walks k pgdir va (p ∷ qs)) (pgdir_walk (some pgdir) va true k)
        (pgdir_walk-create pgdir va (p ∷ qs) space.free space.memory space.busy.directory clear)
        λ r k' (made, rest, new). (
          p,
          qs,
          made,
          record {
            space = NewTable-Space new space rest clear at;
            here = new.table;
            view = NewTable-translate new space.dir space.busy clear at;
            same = new.kept;
            fewer = omega arith;
            kept = λ set. absurd (ground (arith, set, clear));
          },
        )

-- The write of an entry.
module _ {k : Kernel} {pgdir va table : ℕ} {ps : List ℕ} (space : Space k pgdir ps)
    (h : HasTable k pgdir va table) (w : ℕ) where
  abbrev entered : Kernel
  entered = set_word table (ptx va) w k

  pub entered-Writes : Writes k entered pgdir va table w
  entered-Writes = record {
    walks = HasTable-frame (ground (arith, h.apart)) refl h;
    word = ground arith;
    rest = λ i ne. ground arith;
    directory = ground (arith, h.apart);
    others = λ f ne. ground arith;
    size = refl;
  }

  pub entered-Space : Space entered pgdir ps
  entered-Space = record {
    dir = Writes-Directory entered-Writes space.dir;
    free = record {
      chain = space.free.chain;
      distinct = space.free.distinct;
      bounded = space.free.bounded;
      unused = space.free.unused;
    };
    busy = record {
      directory = space.busy.directory;
      tables = λ a out set.
          subst (λ d. NotIn (pte_frame d) ps) (sym (pde_same entered-Writes a))
            (space.busy.tables a out (sym (ap pte_p (pde_same entered-Writes a)) ∙ set));
    };
    memory = space.memory;
    writable = λ a out set.
        ap pte_w (pde_same entered-Writes a)
        ∙ space.writable a out (sym (ap pte_p (pde_same entered-Writes a)) ∙ set);
  }
