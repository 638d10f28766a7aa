-- ===== src/Kernel/Vm/Static/Range.antt =====
-- `boot_map_region` of kern/pmap.c: the address space after a range has been mapped for good.
use csdi_jos.Common.{
  ℕ, zero, suc, ◌+◌, ◌-◌, ◌*◌, ◌/◌, ◌%◌, ◌^◌, ◌≤◌, ◌<◌, ◌≡◌, ◌⊎◌, inl, inr, refl, ap, subst, ◌∙◌,
  Bool, Bool-cases, true, false, ◌&&◌, ltb, leb, List, length, Option, some, if◌then◌else◌,
  ℕ_discrete, bit_or, arith,
}
use csdi_jos.Common.Bits.{bit_or-mod}
use csdi_jos.Kernel.State.{Kernel, set_word}
use csdi_jos.Kernel.State.Returns.{Returns, Returns-bind, Returns-mono}
use csdi_jos.Kernel.State.Layout.{pg_size, add32, pdx, ptx, pte_p, make_pte}
use csdi_jos.Kernel.Vm.{pgdir_walk, boot_map_loop, boot_map_region}
use csdi_jos.Kernel.Vm.Walk.{HasTable}
use csdi_jos.Kernel.Vm.View.{translate, present, same_page, Ordinary, Writes-translate}
use csdi_jos.Kernel.Vm.Fresh.{Space}
use csdi_jos.Kernel.Vm.Static.{
  Walked, Walks, walk_present, walk_absent, entered-Writes, entered-Space,
}

-- The entry that the range has for the address, if any.
abbrev pub range_entry : (va pa perm n : ℕ) → (a : ℕ) → Option ℕ → Option ℕ
range_entry va pa perm n a before =
    if leb (va / 4096) (a / 4096) && ltb (a / 4096) (va / 4096 + n)
    then some (make_pte (pa + 4096 * (a / 4096 - va / 4096)) perm)
    else before

-- The page tables for `n` pages from `va` on.
abbrev pub tables_of : (va n : ℕ) → ℕ
tables_of va n = (ptx va + n + 1023) / 1024

-- At most that many free pages have gone, and one less where the first table was there already.
abbrev pub Spent : Kernel → (pgdir va n : ℕ) → (ps qs : List ℕ) → Type 0
Spent k pgdir va n ps qs =
    (length ps ≤ length qs + tables_of va n)
    × (pte_p (k.frames pgdir (pdx va)) ≡ true → length ps ≤ length qs + (tables_of va n - 1))

-- The directory maps the range, and every other address outside the window at `UVPT` as before.
pub record Ranged (k k' : Kernel) (pgdir va pa perm n : ℕ) (ps qs : List ℕ) : Type 0 where
  pub space : Space k' pgdir qs
  pub spent : Spent k pgdir va n ps qs
  pub kept :
      k' ≡ record k { pages = k'.pages; page_free_list = k'.page_free_list; frames = k'.frames }
  pub view :
      (a : ℕ)
      → a < 2 ^ 32
      → Ordinary a
      → translate k' pgdir a ≡ range_entry va pa perm n a (translate k pgdir a)

-- There are enough free pages, where the first table may be there already.
abbrev Enough : Kernel → (pgdir va n : ℕ) → List ℕ → Type 0
Enough k pgdir va n ps =
    (tables_of va n ≤ length ps)
    ⊎ ((pte_p (k.frames pgdir (pdx va)) ≡ true) × (tables_of va n ≤ length ps + 1))

make_pte-set : (pa perm : ℕ) → present (make_pte pa perm) ≡ some (make_pte pa perm)
make_pte-set pa perm =
    let e : make_pte pa perm % 2 ≡ 1 =
      omega (arith, bit_or-mod (bit_or pa 1) perm, bit_or-mod pa 1) in
    rw e refl

abbrev in_range : (q n r : ℕ) → Bool
in_range q n r = leb q r && ltb r (q + n)

range_entry-next :
    (va pa perm n a : ℕ) (before : Option ℕ)
    → va + 4096 * suc n ≤ 2 ^ 32
    → pa + 4096 * suc n ≤ 2 ^ 32
    → a < 2 ^ 32
    → range_entry
        (add32 va pg_size)
        (add32 pa pg_size)
        perm
        n
        a
        (if same_page va a then some (make_pte pa perm) else before)
      ≡ range_entry va pa perm (suc n) a before
range_entry-next va pa perm n a before top top' low = elim (ℕ_discrete (va / 4096) (a / 4096)) [
  | yes here ↦
      let t1 : in_range (add32 va pg_size / 4096) n (a / 4096) ≡ false =
        ground (arith, here, top) in
      let t2 : same_page va a ≡ true = ground (arith, here) in
      let t3 : in_range (va / 4096) (suc n) (a / 4096) ≡ true = ground (arith, here) in
      let e : pa + 4096 * (a / 4096 - va / 4096) ≡ pa = omega (arith, here) in
      rw (t1, t2, t3, e) refl
  | no ne ↦
      let t2 : same_page va a ≡ false = ground (arith, ne, low, top) in
      elim (Bool-cases (in_range (va / 4096) (suc n) (a / 4096))) [
        | inl t3 ↦
            let from : va / 4096 < a / 4096 = ground (arith, t3, ne) in
            let to : a / 4096 < va / 4096 + suc n = ground (arith, t3) in
            let v : add32 va pg_size / 4096 ≡ va / 4096 + 1 = omega (arith, from, to, top) in
            let p : add32 pa pg_size ≡ pa + 4096 = omega (arith, from, to, top') in
            let t1 : in_range (add32 va pg_size / 4096) n (a / 4096) ≡ true =
              ground (arith, v, from, to) in
            let e : pa + 4096 + 4096 * (a / 4096 - (va / 4096 + 1))
                ≡ pa + 4096 * (a / 4096 - va / 4096) =
              omega (arith, from) in
            rw (t1, t3)
              (ap (λ x. some (make_pte x perm))
                (ap (λ x. x + 4096 * (a / 4096 - add32 va pg_size / 4096)) p
                  ∙ ap (λ x. pa + 4096 + 4096 * (a / 4096 - x)) v
                  ∙ e))
        | inr t3 ↦
            let t1 : in_range (add32 va pg_size / 4096) n (a / 4096) ≡ false =
              ground (arith, t3, ne, top) in
            rw (t1, t2, t3) refl
      ]
]

walk_table :
    {k : Kernel} {pgdir : ℕ} {ps : List ℕ} (va n : ℕ)
    → Ordinary va
    → Space k pgdir ps
    → Enough k pgdir va (suc n) ps
    → Returns (Walks k pgdir va ps) (pgdir_walk (some pgdir) va true k)
walk_table {k} {pgdir} {ps} va n at space enough =
    elim (Bool-cases (pte_p (k.frames pgdir (pdx va)))) [
      | inl set ↦ walk_present va at space set
      | inr clear ↦ walk_absent va at ps space clear (elim enough [
        | inl few ↦ omega (arith, few)
        | inr (set, _) ↦ absurd (ground (arith, set, clear))
      ])
    ]

next-Enough :
    {k k₁ k₂ : Kernel} {pgdir va table : ℕ} {ps qs : List ℕ} (n : ℕ)
    → Walked k k₁ pgdir va table ps qs
    → HasTable k₂ pgdir va table
    → va + 4096 * suc n ≤ 2 ^ 32
    → Enough k pgdir va (suc n) ps
    → Enough k₂ pgdir (add32 va pg_size) n qs
next-Enough {k} {k₁} {k₂} {pgdir} {va} {table} {ps} {qs} n walked here top enough =
    elim (Bool-cases (ltb (ptx va) 1023)) [
      | inl t ↦
          let less : ptx va < 1023 = ground (arith, t) in
          let same : pdx va ≡ pdx (add32 va pg_size) = omega (arith, less, top) in
          inr (
            subst (λ i. pte_p (k₂.frames pgdir i) ≡ true) same here.present,
            elim enough [
              | inl few ↦ omega (arith, few, less, top, walked.fewer)
              | inr (set, few) ↦ omega (arith, few, less, top, walked.kept set)
            ],
          )
      | inr t ↦
          let last : ptx va ≡ 1023 = ground (arith, t) in
          inl (elim enough [
            | inl few ↦ omega (arith, few, last, top, walked.fewer)
            | inr (set, few) ↦ omega (arith, few, last, top, walked.kept set)
          ])
    ]

next-Spent :
    {k k₁ k₂ : Kernel} {pgdir va table : ℕ} {ps qs : List ℕ} (rs : List ℕ) (n : ℕ)
    → Walked k k₁ pgdir va table ps qs
    → HasTable k₂ pgdir va table
    → va + 4096 * suc n ≤ 2 ^ 32
    → Spent k₂ pgdir (add32 va pg_size) n qs rs
    → Spent k pgdir va (suc n) ps rs
next-Spent {k} {k₁} {k₂} {pgdir} {va} {table} {ps} {qs} rs n walked here top (spent, less_spent) =
    elim (Bool-cases (ltb (ptx va) 1023)) [
      | inl t ↦
          let less : ptx va < 1023 = ground (arith, t) in
          let same : pdx va ≡ pdx (add32 va pg_size) = omega (arith, less, top) in
          let few = less_spent (subst (λ i. pte_p (k₂.frames pgdir i) ≡ true) same here.present) in
          (
            omega (arith, few, less, top, walked.fewer),
            λ set. omega (arith, few, less, top, walked.kept set),
          )
      | inr t ↦
          let last : ptx va ≡ 1023 = ground (arith, t) in
          (
            omega (arith, spent, last, top, walked.fewer),
            λ set. omega (arith, spent, last, top, walked.kept set),
          )
    ]

abbrev RangedBy : (k : Kernel) (pgdir va pa perm n : ℕ) (ps : List ℕ) → Unit {0} → Kernel → Type 0
RangedBy k pgdir va pa perm n ps _ k' = (qs : List ℕ) × Ranged k k' pgdir va pa perm n ps qs

boot_map_loop-Ranged :
    (n va pa perm : ℕ) {k : Kernel} {pgdir : ℕ} {ps : List ℕ}
    → Space k pgdir ps
    → ((j : ℕ) → j < n → Ordinary (va + 4096 * j))
    → va + 4096 * n ≤ 2 ^ 32
    → pa + 4096 * n ≤ 2 ^ 32
    → Enough k pgdir va n ps
    → Returns (RangedBy k pgdir va pa perm n ps) (boot_map_loop n (some pgdir) va pa perm k)
unfolding boot_map_loop
boot_map_loop-Ranged zero va pa perm {k} {pgdir} {ps} space at top top' enough = (
  ps,
  record {
    space = space;
    spent = (omega arith, λ _. omega arith);
    kept = refl;
    view = λ a low out. ground arith;
  },
)
boot_map_loop-Ranged (suc n) va pa perm {k} {pgdir} {ps} space at top top' enough =
    let out : Ordinary va = subst Ordinary (omega arith) (at 0 (omega arith)) in
    let Q = RangedBy k pgdir va pa perm (suc n) ps in
    Returns-bind (Walks k pgdir va ps) Q (pgdir_walk (some pgdir) va true k) _
      (walk_table va n out space enough)
      λ r k₁ (table, qs, found, walked).
        let w = make_pte pa perm in
        let k₂ : Kernel = set_word table (ptx va) w k₁ in
        let wrote = entered-Writes walked.space walked.here w in
        rw found (
          Returns-mono (RangedBy k₂ pgdir (add32 va pg_size) (add32 pa pg_size) perm n qs) Q
            (boot_map_loop n (some pgdir) (add32 va pg_size) (add32 pa pg_size) perm k₂)
            (boot_map_loop-Ranged n (add32 va pg_size) (add32 pa pg_size) perm
              (entered-Space walked.space walked.here w)
              (λ j lt. subst Ordinary (omega (arith, lt, top)) (at (suc j) (omega (arith, lt))))
              (omega (arith, top)) (omega (arith, top'))
              (next-Enough n walked wrote.walks top enough))
            λ _ k' (rs, r). (
              rs,
              record {
                space = r.space;
                spent = next-Spent rs n walked wrote.walks top r.spent;
                kept =
                    r.kept
                    ∙ ap
                        (λ (s : Kernel). record s {
                          pages = k'.pages;
                          page_free_list = k'.page_free_list;
                          frames = k'.frames;
                        })
                        walked.same;
                view = λ a low ordinary.
                    r.view a low ordinary
                    ∙ ap (range_entry (add32 va pg_size) (add32 pa pg_size) perm n a) (
                        Writes-translate wrote walked.space.dir walked.here out a ordinary
                        ∙ ap (λ e. if same_page va a then e else translate k₁ pgdir a)
                            (make_pte-set pa perm)
                        ∙ ap (λ e. if same_page va a then some w else e) (walked.view a ordinary))
                    ∙ range_entry-next va pa perm n a (translate k pgdir a) top top' low;
              },
            ))

-- Let the directory be well formed with writable entries and, with its page tables, not free, let
-- memory have at most 2 ^ 20 pages, let the range of `size / 4096` pages at `va` lie outside the
-- window at `UVPT` and, like that at `pa`, within 4 GB, which it may fill to the end, and let as
-- many pages be free as page tables cover the range. Then `boot_map_region` returns, the directory
-- is well formed, and outside the window its address space maps each page of the range, by the
-- entry for the page at the same distance from `pa` with the permissions, and is else what it was.
-- At most as many pages as these tables have left the free list, and only pages, the free list and
-- memory have changed.
pub boot_map_region-Ranged :
    (va size pa perm : ℕ) {k : Kernel} {pgdir : ℕ} (ps : List ℕ)
    → Space k pgdir ps
    → ((j : ℕ) → j < size / 4096 → Ordinary (va + 4096 * j))
    → va + 4096 * (size / 4096) ≤ 2 ^ 32
    → pa + 4096 * (size / 4096) ≤ 2 ^ 32
    → tables_of va (size / 4096) ≤ length ps
    → Returns
        (λ _ k'. (qs : List ℕ) × Ranged k k' pgdir va pa perm (size / 4096) ps qs)
        (boot_map_region (some pgdir) va size pa perm k)
unfolding boot_map_region
boot_map_region-Ranged va size pa perm ps space at top top' enough =
    boot_map_loop-Ranged (size / 4096) va pa perm space at top top' (inl enough)
