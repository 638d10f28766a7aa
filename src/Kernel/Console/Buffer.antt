-- ===== src/Kernel/Console/Buffer.antt =====
-- The console's input buffer as a queue of characters.
use csdi_jos.Common.{
  ℕ, suc, ◌+◌, ◌%◌, ◌<◌, ◌≡◌, refl, sym, subst, true, false, ◌==◌, List, [], ◌∷◌, ◌++◌, length,
  length-append, append-nil, append_assoc, if◌then◌else◌, update, arith, inl, inr, Bool-cases,
}
use csdi_jos.Kernel.State.{Kernel, Cons}
use csdi_jos.Kernel.State.Returns.{Returns}
use csdi_jos.Kernel.Console.{consbufsize, advance, cons_intr, take_char, cons_getc}

-- The characters stand in the buffer from `pos` on, round its end.
abbrev pub Stored : (ℕ → ℕ) → (pos : ℕ) → List ℕ → Type 0
Stored buf pos [] = Unit
Stored buf pos (c ∷ cs) = (buf pos ≡ c) × Stored buf (advance pos) cs

-- The buffer holds exactly these characters, oldest first.
pub record Queue (cons : Cons) (cs : List ℕ) : Type 0 where
  pub inside : cons.rpos < consbufsize
  pub fits : length cs < consbufsize
  pub end : cons.wpos ≡ (cons.rpos + length cs) % consbufsize
  pub stored : Stored cons.buf cons.rpos cs

-- What a device has sent, less the zeros that mean no character.
abbrev pub typed : List ℕ → List ℕ
typed [] = []
typed (c ∷ cs) = if c == 0 then typed cs else c ∷ typed cs

Stored-push :
    (buf : ℕ → ℕ) (pos c : ℕ) (cs : List ℕ)
    → pos < consbufsize
    → length cs < consbufsize
    → Stored buf pos cs
    → Stored (update buf ((pos + length cs) % consbufsize) c) pos (cs ++ (c ∷ []))
Stored-push buf pos c [] inside fits h = (ground arith, tt)
Stored-push buf pos c (d ∷ cs) inside fits h =
    let slot : (advance pos + length cs) % consbufsize ≡ (pos + suc (length cs)) % consbufsize =
      ground arith in
    (
      ground (arith, h.0),
      subst (λ w. Stored (update buf w c) (advance pos) (cs ++ (c ∷ []))) slot
          (Stored-push buf (advance pos) c cs (ground arith) (omega arith) h.1),
    )

put_char : ℕ → Cons → Cons
put_char c cons = record cons { buf = update cons.buf cons.wpos c; wpos = advance cons.wpos }

put_char-Queue :
    (c : ℕ) (cs : List ℕ) (cons : Cons)
    → Queue cons cs
    → suc (length cs) < consbufsize
    → Queue (put_char c cons) (cs ++ (c ∷ []))
unfolding put_char
put_char-Queue c cs cons q fits = record {
  inside = q.inside;
  fits = omega (arith, length-append cs (c ∷ []));
  end = ground (arith, q.end, length-append cs (c ∷ []));
  stored = rw q.end (Stored-push cons.buf cons.rpos c cs q.inside q.fits q.stored);
}

cons_intr-Queue :
    (arrived cs : List ℕ) (cons : Cons)
    → Queue cons cs
    → length cs + length (typed arrived) < consbufsize
    → Queue (cons_intr arrived cons) (cs ++ typed arrived)
unfolding cons_intr put_char
cons_intr-Queue [] cs cons q fits = subst (Queue cons) (sym (append-nil cs)) q
cons_intr-Queue (c ∷ arrived) cs cons q fits = elim (Bool-cases (c == 0)) [
  | inl e ↦ rw e (cons_intr-Queue arrived cs cons q (rw e at fits))
  | inr e ↦
      let room = rw e at fits in
      rw e (
        subst (Queue (cons_intr arrived (put_char c cons)))
          (append_assoc cs (c ∷ []) (typed arrived))
          (cons_intr-Queue arrived (cs ++ (c ∷ [])) (put_char c cons)
            (put_char-Queue c cs cons q (omega arith)) (omega (arith, length-append cs (c ∷ [])))))
]

-- The character that `cons_getc` answers, and what is left in the buffer.
abbrev pub Answers : List ℕ → ℕ → Cons → Type 0
Answers [] r cons = (r ≡ 0) × Queue cons []
Answers (c ∷ cs) r cons = (r ≡ c) × Queue cons cs

take_char-Answers :
    (cs : List ℕ) (cons : Cons) → Queue cons cs → Answers cs (take_char cons).0 (take_char cons).1
unfolding take_char
take_char-Answers [] cons q =
    let empty : (cons.rpos == cons.wpos) ≡ true = ground (arith, q.end, q.inside) in
    rw empty (refl, q)
take_char-Answers (c ∷ cs) cons q =
    let waiting : (cons.rpos == cons.wpos) ≡ false = ground (arith, q.end, q.inside, q.fits) in
    rw waiting (
      q.stored.0,
      record {
        inside = ground (arith, q.inside);
        fits = omega (arith, q.fits);
        end = ground (arith, q.end, q.inside, q.fits);
        stored = q.stored.1;
      },
    )

-- Let the console's buffer hold the characters `cs`, and let them and what the devices have sent
-- since be fewer than 512. `cons_getc` answers the oldest of all these characters, zeros sent by a
-- device left out, and the buffer then holds exactly the others in order; with no character at all
-- it answers 0.
pub cons_getc-Answers :
    (k : Kernel) (cs : List ℕ)
    → Queue k.cons cs
    → length cs + length (typed k.polled) < consbufsize
    → Returns (λ r k'. Answers (cs ++ typed k.polled) r k'.cons) (cons_getc k)
unfolding cons_getc
cons_getc-Answers k cs q fits =
    take_char-Answers (cs ++ typed k.polled) (cons_intr k.polled k.cons)
      (cons_intr-Queue k.polled cs k.cons q fits)
