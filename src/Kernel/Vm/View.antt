-- ===== src/Kernel/Vm/View.antt =====
-- The address space that a page directory describes, as a function from addresses to entries, and
-- what `page_insert` and `page_remove` do to it.
use csdi_jos.Common.{
  ℕ, ◌<◌, ◌≡◌, ◌≢◌, ◌⊎◌, inl, inr, refl, sym, ap, ◌∙◌, subst, Bool, true, false, ◌&&◌, ◌==◌,
  Bool-cases, Option, none, some, List, NotIn, if◌then◌else◌, ℕ_discrete, arith,
}
use csdi_jos.Kernel.State.{Kernel}
use csdi_jos.Kernel.State.Layout.{u_top, uvpt, pdx, ptx, pte_p, pte_frame}
use csdi_jos.Kernel.Vm.Walk.{HasTable}
use csdi_jos.Kernel.Vm.Store.{Writes}

-- What the processor finds for an address: the present entry of a present table.
abbrev pub AddressSpace : Type 0
AddressSpace = ℕ → Option ℕ

abbrev pub present : ℕ → Option ℕ
present pte = if pte_p pte then some pte else none

unfoldable pub translate : Kernel → (pgdir : ℕ) → AddressSpace
translate k pgdir a =
    let pde = k.frames pgdir (pdx a) in
    if pte_p pde then present (k.frames (pte_frame pde) (ptx a)) else none

abbrev pub same_page : ℕ → ℕ → Bool
same_page a b = (pdx a == pdx b) && (ptx a == ptx b)

-- The address space with the page of `va` mapped by another entry, or unmapped.
abbrev pub assigned : AddressSpace → ℕ → Option ℕ → AddressSpace
assigned space va entry a = if same_page va a then entry else space a

-- The addresses but those of the window at `UVPT`, where the directory is its own page table.
abbrev pub Ordinary : ℕ → Type 0
Ordinary a = pdx a ≢ pdx uvpt

-- An address below `UTOP` lies outside the window at `UVPT`.
pub below_top-Ordinary : (va : ℕ) → va < u_top → Ordinary va
below_top-Ordinary va below = λ e. absurd (omega (arith, below, e))

-- Outside the window, the page tables of a directory lie in memory, are not the directory, and are
-- distinct.
pub record Directory (k : Kernel) (pgdir : ℕ) : Type 0 where
  pub tables :
      (a : ℕ)
      → Ordinary a
      → pte_p (k.frames pgdir (pdx a)) ≡ true
      → HasTable k pgdir a (pte_frame (k.frames pgdir (pdx a)))
  pub distinct :
      (a b : ℕ)
      → Ordinary a
      → Ordinary b
      → pdx a ≢ pdx b
      → pte_p (k.frames pgdir (pdx a)) ≡ true
      → pte_p (k.frames pgdir (pdx b)) ≡ true
      → pte_frame (k.frames pgdir (pdx a)) ≢ pte_frame (k.frames pgdir (pdx b))

-- The directory and its page tables are not free.
pub record Busy (k : Kernel) (pgdir : ℕ) (ps : List ℕ) : Type 0 where
  pub directory : NotIn pgdir ps
  pub tables :
      (a : ℕ)
      → Ordinary a
      → pte_p (k.frames pgdir (pdx a)) ≡ true
      → NotIn (pte_frame (k.frames pgdir (pdx a))) ps

pub translate_table :
    {k : Kernel} {pgdir a table : ℕ}
    → HasTable k pgdir a table
    → translate k pgdir a ≡ present (k.frames table (ptx a))
unfolding translate
translate_table h = ground (arith, h.present, h.at)

pub translate-none :
    (k : Kernel) (pgdir a : ℕ) → pte_p (k.frames pgdir (pdx a)) ≡ false → translate k pgdir a ≡ none
unfolding translate
translate-none k pgdir a h = ground arith

-- A table that is there for one address is there for the others of its directory entry.
pub HasTable_same :
    {k : Kernel} {pgdir va table : ℕ} (a : ℕ)
    → HasTable k pgdir va table
    → pdx va ≡ pdx a
    → HasTable k pgdir a table
HasTable_same {k} {pgdir} {table} a h same = record {
  present = subst (λ i. pte_p (k.frames pgdir i) ≡ true) same h.present;
  at = subst (λ i. pte_frame (k.frames pgdir i) ≡ table) same h.at;
  inside = h.inside;
  apart = h.apart;
}

assigned_here :
    (space : AddressSpace) (va : ℕ) (entry : Option ℕ) (a : ℕ)
    → pdx va ≡ pdx a
    → ptx va ≡ ptx a
    → assigned space va entry a ≡ entry
assigned_here space va entry a d t = ground arith

assigned_other :
    (space : AddressSpace) (va : ℕ) (entry : Option ℕ) (a : ℕ)
    → (pdx va ≢ pdx a) ⊎ (ptx va ≢ ptx a)
    → assigned space va entry a ≡ space a
assigned_other space va entry a (inl d) = ground arith
assigned_other space va entry a (inr t) = ground arith

module _ {k k' : Kernel} {pgdir va table pte : ℕ} (w : Writes k k' pgdir va table pte) where
  pub pde_same : (a : ℕ) → k'.frames pgdir (pdx a) ≡ k.frames pgdir (pdx a)
  pde_same a = ap (λ (ws : ℕ → ℕ). ws (pdx a)) w.directory

  pub Writes-Directory : Directory k pgdir → Directory k' pgdir
  Writes-Directory dir = record {
    tables = λ a out set.
        let h = dir.tables a out (sym (ap pte_p (pde_same a)) ∙ set) in
        record {
          present = set;
          at = refl;
          inside =
              subst (λ n. pte_frame (k'.frames pgdir (pdx a)) < n) (sym w.size)
                (subst (λ d. pte_frame d < k.npages) (sym (pde_same a)) h.inside);
          apart = subst (λ d. pgdir ≢ pte_frame d) (sym (pde_same a)) h.apart;
        };
    distinct = λ a b out out' ne set set'.
        rw (pde_same a, pde_same b)
          (dir.distinct a b out out' ne (sym (ap pte_p (pde_same a)) ∙ set)
            (sym (ap pte_p (pde_same b)) ∙ set'));
  }

  module _ (dir : Directory k pgdir) (here : HasTable k pgdir va table) (at : Ordinary va) where
    -- Another directory entry leads to another table, so nothing changes below it.
    translate_elsewhere :
        (a : ℕ) → Ordinary a → pdx va ≢ pdx a → translate k' pgdir a ≡ translate k pgdir a
    translate_elsewhere a out ne = elim (Bool-cases (pte_p (k.frames pgdir (pdx a)))) [
      | inr no_table ↦
          translate-none k' pgdir a (ap pte_p (pde_same a) ∙ no_table)
          ∙ sym (translate-none k pgdir a no_table)
      | inl set ↦
          let h = dir.tables a out set in
          let other : pte_frame (k.frames pgdir (pdx a)) ≢ table =
            λ e. dir.distinct va a at out ne here.present set (here.at ∙ sym e) in
          translate_table (
            subst (HasTable k' pgdir a) (ap pte_frame (pde_same a))
              ((Writes-Directory dir).tables a out (ap pte_p (pde_same a) ∙ set)))
          ∙ ap (λ (ws : ℕ → ℕ). present (ws (ptx a))) (w.others _ other)
          ∙ sym (translate_table h)
    ]

    pub Writes-translate :
        (a : ℕ)
        → Ordinary a
        → translate k' pgdir a ≡ assigned (translate k pgdir) va (present pte) a
    Writes-translate a out = elim (ℕ_discrete (pdx va) (pdx a)) [
      | no ne ↦
          translate_elsewhere a out ne
          ∙ sym (assigned_other (translate k pgdir) va (present pte) a (inl ne))
      | yes d ↦ translate_table (HasTable_same a w.walks d) ∙ (elim (ℕ_discrete (ptx va) (ptx a)) [
        | yes t ↦
            ap (λ i. present (k'.frames table i)) (sym t)
            ∙ ap present w.word
            ∙ sym (assigned_here (translate k pgdir) va (present pte) a d t)
        | no ne ↦
            ap present (w.rest (ptx a) λ e. ne (sym e))
            ∙ sym (translate_table (HasTable_same a here d))
            ∙ sym (assigned_other (translate k pgdir) va (present pte) a (inr ne))
      ])
    ]
