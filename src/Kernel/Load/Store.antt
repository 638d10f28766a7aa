-- ===== src/Kernel/Load/Store.antt =====
-- The kernel's write of a byte to the user's memory, by `store_byte`, for `load_icode` of kern/env.c.
use csdi_jos.Common.{
  zero, suc, ℕ, ◌/◌, ◌%◌, ◌^◌, ◌<◌, ◌≡◌, ◌≢◌, inl, inr, refl, sym, ap, subst, ◌∙◌, Bool-cases, true,
  false, ◌==◌, none, some, List, NotIn, if◌then◌else◌, ℕ_discrete, arith,
}
use csdi_jos.Kernel.State.{Kernel, set_word, ret}
use csdi_jos.Kernel.State.Returns.{Returns}
use csdi_jos.Kernel.State.Layout.{u_top, make_pte, pdx, ptx, pte_p, pte_w, pte_frame}
use csdi_jos.Kernel.Vm.{page2pa}
use csdi_jos.Kernel.Vm.Walk.{make_pte-frame, make_pte-present, make_pte-writable}
use csdi_jos.Kernel.Vm.View.{
  translate, translate_table, translate-none, present, Ordinary, below_top-Ordinary,
}
use csdi_jos.Kernel.Vm.Fresh.{Space, Private}
use csdi_jos.Kernel.Trap.{store_byte, set_byte}
use csdi_jos.Kernel.Load.Image.{Image, Holds, get_byte}

-- A word of a private page is written.
module _ {k : Kernel} {pgdir f : ℕ} {ps : List ℕ} (space : Space k pgdir ps)
    (private : Private k pgdir ps f) (i w : ℕ) where
  abbrev k' : Kernel
  k' = set_word f i w k

  directory_same : k'.frames pgdir ≡ k.frames pgdir
  directory_same = ground (arith, private.no_directory)

  table_same :
      (a : ℕ)
      → Ordinary a
      → pte_p (k.frames pgdir (pdx a)) ≡ true
      → k'.frames (pte_frame (k.frames pgdir (pdx a)))
        ≡ k.frames (pte_frame (k.frames pgdir (pdx a)))
  table_same a out set = ground (arith, private.no_table a out set)

  translate-written : (a : ℕ) → Ordinary a → translate k' pgdir a ≡ translate k pgdir a
  unfolding translate
  translate-written a out = elim (Bool-cases (pte_p (k.frames pgdir (pdx a)))) [
    | inl set ↦ let e = table_same a out set in rw (directory_same, set, e) refl
    | inr clear ↦ rw (directory_same, clear) refl
  ]

  was_set : (a : ℕ) → pte_p (k'.frames pgdir (pdx a)) ≡ true → pte_p (k.frames pgdir (pdx a)) ≡ true
  was_set a = subst (λ ws. pte_p (ws (pdx a)) ≡ true) directory_same

  Space-written : Space k' pgdir ps
  Space-written = record {
    dir = record {
      tables = λ a out set.
          let h = space.dir.tables a out (was_set a set) in
          record {
            present = set;
            at = refl;
            inside = subst (λ ws. pte_frame (ws (pdx a)) < k.npages) (sym directory_same) h.inside;
            apart = subst (λ ws. pgdir ≢ pte_frame (ws (pdx a))) (sym directory_same) h.apart;
          };
      distinct =
          subst
            (λ ws.
              (a b : ℕ)
              → Ordinary a
              → Ordinary b
              → pdx a ≢ pdx b
              → pte_p (ws (pdx a)) ≡ true
              → pte_p (ws (pdx b)) ≡ true
              → pte_frame (ws (pdx a)) ≢ pte_frame (ws (pdx b)))
            (sym directory_same) space.dir.distinct;
    };
    free = record {
      chain = space.free.chain;
      distinct = space.free.distinct;
      bounded = space.free.bounded;
      unused = space.free.unused;
    };
    busy = record {
      directory = space.busy.directory;
      tables = λ a out set.
          subst (λ ws. NotIn (pte_frame (ws (pdx a))) ps) (sym directory_same)
            (space.busy.tables a out (was_set a set));
    };
    memory = space.memory;
    writable = λ a out set.
        subst (λ ws. pte_w (ws (pdx a)) ≡ true) (sym directory_same)
          (space.writable a out (was_set a set));
  }

  Private-written : (g : ℕ) → Private k pgdir ps g → Private k' pgdir ps g
  Private-written g own = record {
    taken = own.taken;
    no_directory = own.no_directory;
    no_table = λ a out set.
        subst (λ ws. g ≢ pte_frame (ws (pdx a))) (sym directory_same)
          (own.no_table a out (was_set a set));
  }

-- Byte `j` of a word is replaced, and no other.
set_byte_same : (j b w : ℕ) → j < 4 → b < 256 → get_byte j (set_byte j b w) ≡ b
set_byte_same zero b w _ byte = omega (arith, byte)
set_byte_same (suc zero) b w _ byte = omega (arith, byte)
set_byte_same (suc (suc zero)) b w _ byte = omega (arith, byte)
set_byte_same (suc (suc (suc zero))) b w _ byte = omega (arith, byte)
set_byte_same (suc (suc (suc (suc j)))) b w lt _ = absurd (omega (arith, lt))

set_byte_other :
    (i j b w : ℕ) → i < 4 → j < 4 → i ≢ j → b < 256 → get_byte i (set_byte j b w) ≡ get_byte i w
set_byte_other zero zero b w _ _ ne _ = absurd (ne refl)
set_byte_other zero (suc zero) b w _ _ _ byte = omega (arith, byte)
set_byte_other zero (suc (suc zero)) b w _ _ _ byte = omega (arith, byte)
set_byte_other zero (suc (suc (suc zero))) b w _ _ _ byte = omega (arith, byte)
set_byte_other (suc zero) zero b w _ _ _ byte = omega (arith, byte)
set_byte_other (suc zero) (suc zero) b w _ _ ne _ = absurd (ne refl)
set_byte_other (suc zero) (suc (suc zero)) b w _ _ _ byte = omega (arith, byte)
set_byte_other (suc zero) (suc (suc (suc zero))) b w _ _ _ byte = omega (arith, byte)
set_byte_other (suc (suc zero)) zero b w _ _ _ byte = omega (arith, byte)
set_byte_other (suc (suc zero)) (suc zero) b w _ _ _ byte = omega (arith, byte)
set_byte_other (suc (suc zero)) (suc (suc zero)) b w _ _ ne _ = absurd (ne refl)
set_byte_other (suc (suc zero)) (suc (suc (suc zero))) b w _ _ _ byte = omega (arith, byte)
set_byte_other (suc (suc (suc zero))) zero b w _ _ _ byte = omega (arith, byte)
set_byte_other (suc (suc (suc zero))) (suc zero) b w _ _ _ byte = omega (arith, byte)
set_byte_other (suc (suc (suc zero))) (suc (suc zero)) b w _ _ _ byte = omega (arith, byte)
set_byte_other (suc (suc (suc zero))) (suc (suc (suc zero))) b w _ _ ne _ = absurd (ne refl)
set_byte_other (suc (suc (suc (suc i)))) j b w lt _ _ _ = absurd (omega (arith, lt))
set_byte_other i (suc (suc (suc (suc j)))) b w _ lt _ _ = absurd (omega (arith, lt))

present-some : (pte entry : ℕ) → present pte ≡ some entry → pte ≡ entry
present-some pte entry e = ground (arith, e)

none-some : {x : ℕ} → none ≢ some x
none-some e = ground (arith, e)

-- The walk that the processor makes for a page of the image.
module _ {k : Kernel} {pgdir : ℕ} {ps : List ℕ} {img : Image} (h : Holds k pgdir ps img) (a : ℕ)
    (low : a < u_top) (has : img.has (a / 4096) ≡ true) where
  abbrev f : ℕ
  f = h.page (a / 4096)

  small : f < 2 ^ 20
  small = omega (arith, h.inside (a / 4096) has, h.space.memory)

  table_set : pte_p (k.frames pgdir (pdx a)) ≡ true
  table_set = elim (Bool-cases (pte_p (k.frames pgdir (pdx a)))) [
    | inl set ↦ set
    | inr clear ↦ absurd (none-some (sym (translate-none k pgdir a clear) ∙ h.mapped a low has))
  ]

  entry_is : k.frames (pte_frame (k.frames pgdir (pdx a))) (ptx a) ≡ make_pte (page2pa f) 6
  entry_is =
      let t = h.space.dir.tables a (below_top-Ordinary a low) table_set in
      present-some _ _ (sym (translate_table t) ∙ h.mapped a low has)

  store_byte-runs :
      (b : ℕ)
      → k.cr3 ≡ pgdir
      → store_byte a b k
        ≡ ret tt (set_word f (a % 4096 / 4) (set_byte (a % 4) b (k.frames f (a % 4096 / 4))) k)
  unfolding store_byte
  store_byte-runs b cr3 =
      let d = subst (λ c. k.frames c (pdx a) ≡ k.frames pgdir (pdx a)) (sym cr3) refl in
      let w = h.space.writable a (below_top-Ordinary a low) table_set in
      let e1 : pte_p (make_pte (page2pa f) 6) ≡ true =
        ground (arith, make_pte-present f 6 small (omega arith)) in
      let e2 : pte_w (make_pte (page2pa f) 6) ≡ true =
        ground (arith, make_pte-writable f 6 small (omega arith)) in
      let e3 = make_pte-frame f 6 small (omega arith) in
      rw (d, table_set, w, entry_is, e1, e2, e3) refl

  -- The image with the byte in it.
  abbrev stored_byte : ℕ → Image
  stored_byte b = record img { bytes = λ x. if a == x then b else img.bytes x }

  module _ (b : ℕ) (byte : b < 256) where
    abbrev word : ℕ
    word = set_byte (a % 4) b (k.frames f (a % 4096 / 4))

    abbrev after : Kernel
    after = set_word f (a % 4096 / 4) word k

    words-after :
        (x : ℕ)
        → a / 4096 ≡ x / 4096
        → get_byte (x % 4) (k.frames f (x % 4096 / 4)) ≡ img.bytes x
        → get_byte (x % 4) (after.frames f (x % 4096 / 4)) ≡ (stored_byte b).bytes x
    words-after x page was = elim (ℕ_discrete (a % 4096 / 4) (x % 4096 / 4)) [
      | no ne ↦
          let e : after.frames f (x % 4096 / 4) ≡ k.frames f (x % 4096 / 4) = ground (arith, ne) in
          let other : (a == x) ≡ false = ground (arith, ne) in rw (e, other) was
      | yes index ↦
          let e : after.frames f (x % 4096 / 4) ≡ set_byte (a % 4) b (k.frames f (x % 4096 / 4)) =
            ground (arith, index, ap (λ j. set_byte (a % 4) b (k.frames f j)) index) in
          elim (ℕ_discrete (x % 4) (a % 4)) [
            | yes same ↦
                let here : (a == x) ≡ true = ground (arith, page, index, same) in
                rw (e, here, same)
                  (set_byte_same (a % 4) b (k.frames f (x % 4096 / 4)) (omega arith) byte)
            | no ne ↦
                let other : (a == x) ≡ false = ground (arith, ne) in
                rw (e, other)
                  (set_byte_other (x % 4) (a % 4) b (k.frames f (x % 4096 / 4)) (omega arith)
                      (omega arith) ne byte
                    ∙ was)
          ]
    ]

    bytes-after :
        (x : ℕ)
        → x < u_top
        → img.has (x / 4096) ≡ true
        → get_byte (x % 4) (after.frames (h.page (x / 4096)) (x % 4096 / 4))
          ≡ (stored_byte b).bytes x
    bytes-after x below in_x = elim (ℕ_discrete (a / 4096) (x / 4096)) [
      | no ne ↦
          let frame : after.frames (h.page (x / 4096)) ≡ k.frames (h.page (x / 4096)) =
            ground (arith, h.apart (a / 4096) (x / 4096) has in_x ne) in
          let other : (a == x) ≡ false = ground (arith, ne) in
          rw (frame, other) (h.stored x below in_x)
      | yes page ↦
          subst (λ g. get_byte (x % 4) (after.frames g (x % 4096 / 4)) ≡ (stored_byte b).bytes x)
            (ap h.page page)
            (words-after x page (
              subst (λ g. get_byte (x % 4) (k.frames g (x % 4096 / 4)) ≡ img.bytes x)
                (sym (ap h.page page)) (h.stored x below in_x)))
    ]

    Holds-after : Holds after pgdir ps (stored_byte b)
    Holds-after = record {
      space = Space-written h.space (h.own (a / 4096) has) (a % 4096 / 4) word;
      page = h.page;
      mapped = λ x below in_x.
          translate-written h.space (h.own (a / 4096) has) (a % 4096 / 4) word x
            (below_top-Ordinary x below)
          ∙ h.mapped x below in_x;
      own = λ q in_q.
          Private-written h.space (h.own (a / 4096) has) (a % 4096 / 4) word (h.page q)
            (h.own q in_q);
      inside = h.inside;
      apart = h.apart;
      stored = bytes-after;
      empty = λ x below out_x.
          translate-written h.space (h.own (a / 4096) has) (a % 4096 / 4) word x
            (below_top-Ordinary x below)
          ∙ h.empty x below out_x;
    }

    pub store_byte-Holds :
        k.cr3 ≡ pgdir
        → Returns
            (λ _ k'. Holds k' pgdir ps (stored_byte b) × (k' ≡ record k { frames = k'.frames }))
            (store_byte a b k)
    store_byte-Holds cr3 =
        subst
          (Returns
            (λ _ k'. Holds k' pgdir ps (stored_byte b) × (k' ≡ record k { frames = k'.frames })))
          (sym (store_byte-runs b cr3)) (Holds-after, refl)
