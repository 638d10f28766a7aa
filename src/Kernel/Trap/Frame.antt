-- ===== src/Kernel/Trap/Frame.antt =====
-- The frame that `page_fault_handler` pushes on the exception stack.
use csdi_jos.Common.{
  ℕ, ◌+◌, ◌-◌, ◌*◌, ◌/◌, ◌%◌, ◌^◌, ◌≤◌, ◌<◌, ◌≡◌, ◌≢◌, refl, ap, ◌∙◌, true, ◌&&◌, arith,
}
use csdi_jos.Kernel.State.{Kernel, set_word, K, pure, ◌>>◌}
use csdi_jos.Kernel.State.Returns.{Returns, Returns-bind, Returns-mono}
use csdi_jos.Kernel.State.Layout.{
  PushRegs, Trapframe, u_top, pg_size, pdx, ptx, pte_p, pte_w, pte_frame, add32, sub32,
}
use csdi_jos.Kernel.Trap.{
  store_byte, store_word, store_regs, push_frame, push_base, asserted, on_ux_stack, utf_size,
  set_byte,
}

-- The current directory maps the page, writable, by table `t` to frame `f`, which holds neither the
-- table nor the directory.
pub record Open (k : Kernel) (page f t : ℕ) : Type 0 where
  pub directory :
      (pte_p (k.frames k.cr3 (page / 1024 % 1024)) && pte_w (k.frames k.cr3 (page / 1024 % 1024)))
      ≡ true
  pub table : pte_frame (k.frames k.cr3 (page / 1024 % 1024)) ≡ t
  pub entry : (pte_p (k.frames t (page % 1024)) && pte_w (k.frames t (page % 1024))) ≡ true
  pub frame : pte_frame (k.frames t (page % 1024)) ≡ f
  pub apart_directory : f ≢ k.cr3
  pub apart_table : f ≢ t

-- From `k` only words of frame `f` have changed, and the page is still mapped.
pub record Kept (k : Kernel) (page f t : ℕ) (k' : Kernel) : Type 0 where
  pub still_open : Open k' page f t
  pub others : (g : ℕ) → f ≢ g → k'.frames g ≡ k.frames g
  pub kept : k' ≡ record k { frames = k'.frames }

module _ (page f t : ℕ) where
  Kept-refl : (k : Kernel) → Open k page f t → Kept k page f t k
  Kept-refl k o = record { still_open = o; others = λ g ne. refl; kept = refl }

  Kept-trans : (k k' k'' : Kernel) → Kept k page f t k' → Kept k' page f t k'' → Kept k page f t k''
  Kept-trans k k' k'' a b = record {
    still_open = b.still_open;
    others = λ g ne. b.others g ne ∙ a.others g ne;
    kept = b.kept ∙ ap (λ (s : Kernel). record s { frames = k''.frames }) a.kept;
  }

  -- The call returns a value with `R`, and writes to the page only.
  abbrev Writes : {A : Type 0} → (A → Type 0) → K A → Type 0
  Writes R m = (k : Kernel) → Open k page f t → Returns (λ r k'. R r × Kept k page f t k') (m k)

  abbrev Done : Unit {0} → Type 0
  Done _ = Unit

  Writes-then :
      {A : Type 0} (R : A → Type 0) (m : K (Unit {0})) (n : K A)
      → Writes Done m
      → Writes R n
      → Writes R (m >> n)
  Writes-then R m n first later k o =
      Returns-bind (λ r k'. Done r × Kept k page f t k') (λ r k'. R r × Kept k page f t k') (m k)
        (λ _. n) (first k o)
        λ _ k' (done, a).
          Returns-mono (λ r k''. R r × Kept k' page f t k'') (λ r k''. R r × Kept k page f t k'')
            (n k') (later k' a.still_open) λ r k'' (value, b). (value, Kept-trans k k' k'' a b)

  written : (k : Kernel) → Open k page f t → (i w : ℕ) → Kept k page f t (set_word f i w k)
  written k o i w = record {
    still_open = record {
      directory = ground (arith, o.directory, o.apart_directory);
      table = ground (arith, o.table, o.apart_directory);
      entry = ground (arith, o.entry, o.apart_table);
      frame = ground (arith, o.frame, o.apart_table);
      apart_directory = o.apart_directory;
      apart_table = o.apart_table;
    };
    others = λ g ne. ground arith;
    kept = refl;
  }

  Writes-byte : (va b : ℕ) → va / 4096 ≡ page → Writes Done (store_byte va b)
  unfolding store_byte
  Writes-byte va b at k o =
      let d : pdx va ≡ page / 1024 % 1024 = omega arith in
      let e : ptx va ≡ page % 1024 = omega arith in
      let p1 : pte_p (k.frames k.cr3 (page / 1024 % 1024)) ≡ true = ground (arith, o.directory) in
      let w1 : pte_w (k.frames k.cr3 (page / 1024 % 1024)) ≡ true = ground (arith, o.directory) in
      let p2 : pte_p (k.frames t (page % 1024)) ≡ true = ground (arith, o.entry) in
      let w2 : pte_w (k.frames t (page % 1024)) ≡ true = ground (arith, o.entry) in
      rw (d, e, o.table, p1, w1, p2, w2, o.frame)
        (tt, written k o (va % 4096 / 4) (set_byte (va % 4) b (k.frames f (va % 4096 / 4))))

  Writes-word :
      (va w : ℕ)
      → va / 4096 ≡ page
      → (va + 3) / 4096 ≡ page
      → va + 3 < 2 ^ 32
      → Writes Done (store_word va w)
  unfolding store_word
  Writes-word va w first last word =
      Writes-then Done (store_byte va (w % 256)) _ (Writes-byte va (w % 256) first) (
        Writes-then Done (store_byte (add32 va 1) (w / 256 % 256)) _
          (Writes-byte (add32 va 1) (w / 256 % 256) (omega arith))
          (Writes-then Done (store_byte (add32 va 2) (w / 256 ^ 2 % 256))
            (store_byte (add32 va 3) (w / 256 ^ 3 % 256))
            (Writes-byte (add32 va 2) (w / 256 ^ 2 % 256) (omega arith))
            (Writes-byte (add32 va 3) (w / 256 ^ 3 % 256) (omega arith))))

  module _ (top : page * 4096 + 4096 ≤ 2 ^ 32) where
    word-then :
        {A : Type 0} (R : A → Type 0) (a w : ℕ) (n : K A)
        → page * 4096 ≤ a
        → a + 4 ≤ page * 4096 + 4096
        → Writes R n
        → Writes R (store_word a w >> n)
    word-then R a w n low high later =
        Writes-then R (store_word a w) n (Writes-word a w (omega arith) (omega arith) (omega arith))
          later

    Writes-regs :
        (a : ℕ) (regs : PushRegs)
        → page * 4096 ≤ a
        → a + 32 ≤ page * 4096 + 4096
        → Writes Done (store_regs a regs)
    unfolding store_regs
    Writes-regs a regs low high = word-then Done a regs.reg_edi _ low (omega arith) (
        word-then Done (add32 a 4) regs.reg_esi _ (omega arith) (omega arith) (
          word-then Done (add32 a 8) regs.reg_ebp _ (omega arith) (omega arith) (
            word-then Done (add32 a 12) regs.reg_oesp _ (omega arith) (omega arith) (
              word-then Done (add32 a 16) regs.reg_ebx _ (omega arith) (omega arith) (
                word-then Done (add32 a 20) regs.reg_edx _ (omega arith) (omega arith) (
                  word-then Done (add32 a 24) regs.reg_ecx (store_word (add32 a 28) regs.reg_eax)
                    (omega arith) (omega arith)
                    (Writes-word (add32 a 28) regs.reg_eax (omega arith) (omega arith)
                      (omega arith))))))))

    Writes-frame :
        (fault_va base : ℕ) (tf : Trapframe)
        → page * 4096 + 52 ≤ base
        → base ≤ page * 4096 + 4096
        → Writes (λ r. r ≡ base - 52) (push_frame fault_va base tf)
    unfolding push_frame
    Writes-frame fault_va base tf low high =
        let R : ℕ → Type 0 = λ r. r ≡ base - 52 in
        let e1 : sub32 base 4 ≡ base - 4 = omega arith in
        let e2 : sub32 (base - 4) 4 ≡ base - 8 = omega arith in
        let e3 : sub32 (base - 8) 4 ≡ base - 12 = omega arith in
        let e4 : sub32 (base - 12) 32 ≡ base - 44 = omega arith in
        let e5 : sub32 (base - 44) 4 ≡ base - 48 = omega arith in
        let e6 : sub32 (base - 48) 4 ≡ base - 52 = omega arith in
        rw (e1, e2, e3, e4, e5, e6)
          (word-then R (base - 4) tf.tf_esp _ (omega arith) (omega arith) (
            word-then R (base - 8) tf.tf_eflags _ (omega arith) (omega arith) (
              word-then R (base - 12) tf.tf_eip _ (omega arith) (omega arith) (
                Writes-then R (store_regs (base - 44) tf.tf_regs) _
                  (Writes-regs (base - 44) tf.tf_regs (omega arith) (omega arith))
                  (word-then R (base - 48) tf.tf_err _ (omega arith) (omega arith) (
                    word-then R (base - 52) fault_va (pure (base - 52)) (omega arith) (omega arith)
                      λ k o. (refl, Kept-refl k o)))))))

-- The page of the exception stack.
abbrev pub ux_page : ℕ
ux_page = u_top / 4096 - 1

push_base-bounds :
    (esp : ℕ)
    → (on_ux_stack esp ≡ true → u_top - pg_size + (utf_size + 4) ≤ esp)
    → (ux_page * 4096 + 52 ≤ push_base esp)
      × (push_base esp ≤ ux_page * 4096 + 4096)
      × (push_base esp - 52 ≡ (asserted esp).0)
unfolding asserted push_base
push_base-bounds esp room = ground (arith, room)

-- Let the current directory map the page of the exception stack, writable, to a frame that holds
-- neither the directory nor its table, and let a fault on the exception stack leave room for the
-- frame and one more word. Then the pushes return the start of the very range that
-- `user_mem_assert` was asked for, and nothing but that frame of memory changes.
pub push_frame_lem :
    {k : Kernel} {f t : ℕ} (fault_va : ℕ) (tf : Trapframe)
    → Open k ux_page f t
    → (on_ux_stack tf.tf_esp ≡ true → u_top - pg_size + (utf_size + 4) ≤ tf.tf_esp)
    → Returns
        (λ r k'. (r ≡ (asserted tf.tf_esp).0) × Kept k ux_page f t k')
        (push_frame fault_va (push_base tf.tf_esp) tf k)
push_frame_lem {k} {f} {t} fault_va tf o room =
    let (low, high, range) = push_base-bounds tf.tf_esp room in
    Returns-mono _ (λ r k'. (r ≡ (asserted tf.tf_esp).0) × Kept k ux_page f t k')
      (push_frame fault_va (push_base tf.tf_esp) tf k)
      (Writes-frame ux_page f t (omega arith) fault_va (push_base tf.tf_esp) tf low high k o)
      λ r k' (value, written). (value ∙ range, written)
