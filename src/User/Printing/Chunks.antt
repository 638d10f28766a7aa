-- ===== src/User/Printing/Chunks.antt =====
-- The calls of `sys_cputs` together print the text, none with more than 255 bytes.
use csdi_jos.Common.{
  ℕ, zero, suc, ◌+◌, ◌%◌, ◌^◌, ◌≤◌, ◌<◌, ◌≡◌, refl, sym, ap, ◌∙◌, subst, ◌==◌, Bool-cases, inl, inr,
  eq_of_==, ne_of_==, some, List, [], ◌∷◌, ◌++◌, append_assoc, append-nil, All, length,
  length-append, update, arith,
}
use csdi_jos.Library.Strings.{Bytes}
use csdi_jos.Library.Formats.{Print, printed, vprintfmt}
use csdi_jos.Library.Buffers.Bounds.{bytes_of, length-bytes_of}
use csdi_jos.User.Printing.{Printbuf, first_of, flush, putch, putch_all, empty_printbuf, vcprintf}

abbrev pub concat : List (List ℕ) → List ℕ
concat [] = []
concat (x ∷ xs) = x ++ concat xs

concat-append : (xs ys : List (List ℕ)) → concat (xs ++ ys) ≡ concat xs ++ concat ys
concat-append [] ys = refl
concat-append (x ∷ xs) ys =
    ap (λ l. x ++ l) (concat-append xs ys) ∙ sym (append_assoc x (concat xs) (concat ys))

first_of-update : (buf : ℕ → ℕ) (i v n : ℕ) → n ≤ i → first_of (update buf i v) n ≡ first_of buf n
unfolding first_of
first_of-update buf i v zero le = refl
first_of-update buf i v (suc n) le =
    let here : update buf i v n ≡ buf n = ground (arith, le) in
    rw (first_of-update buf i v n (omega (arith, le)), here) refl

length-first_of : (buf : ℕ → ℕ) (n : ℕ) → length (first_of buf n) ≡ n
unfolding first_of
length-first_of buf zero = refl
length-first_of buf (suc n) =
    length-append (first_of buf n) (buf n ∷ []) ∙ omega (arith, length-first_of buf n)

first_of-suc :
    (buf : ℕ → ℕ) (i v : ℕ) → first_of (update buf i v) (suc i) ≡ first_of buf i ++ (v ∷ [])
unfolding first_of
first_of-suc buf i v =
    let here : update buf i v i ≡ v = ground arith in
    ap (λ l. l ++ (update buf i v i ∷ [])) (first_of-update buf i v i (omega arith))
    ∙ ap (λ n. first_of buf i ++ (n ∷ [])) here

-- What has been printed and what waits in the buffer are the text so far.
pub record Collected (b : Printbuf) (text : List ℕ) : Type 0 where
  pub bound : b.idx < 255
  pub chunks : All (λ chunk. length chunk ≤ 255) b.calls
  pub whole : concat b.calls ++ first_of b.buf b.idx ≡ text
  pub count : b.cnt ≡ length text % 2 ^ 32

All-snoc :
    (x : List ℕ) (xs : List (List ℕ))
    → All (λ chunk. length chunk ≤ 255) xs
    → length x ≤ 255
    → All (λ chunk. length chunk ≤ 255) (xs ++ (x ∷ []))
All-snoc x [] h le = (le, tt)
All-snoc x (y ∷ xs) h le = (h.0, All-snoc x xs h.1 le)

concat-snoc : (xs : List (List ℕ)) (x : List ℕ) → concat (xs ++ (x ∷ [])) ≡ concat xs ++ x
concat-snoc xs x = concat-append xs (x ∷ []) ∙ ap (λ l. concat xs ++ l) (append-nil x)

module _ (b : Printbuf) (text : List ℕ) (ch : ℕ) (c : Collected b text) where
  longer :
      concat b.calls ++ first_of (update b.buf b.idx (ch % 256)) (b.idx + 1)
      ≡ text ++ ((ch % 256) ∷ [])
  longer =
      let step : first_of (update b.buf b.idx (ch % 256)) (suc b.idx)
          ≡ first_of b.buf b.idx ++ ((ch % 256) ∷ []) =
        first_of-suc b.buf b.idx (ch % 256) in
      subst
        (λ n.
          concat b.calls ++ first_of (update b.buf b.idx (ch % 256)) n ≡ text ++ ((ch % 256) ∷ []))
        (omega arith)
        (ap (λ l. concat b.calls ++ l) step
          ∙ sym (append_assoc (concat b.calls) (first_of b.buf b.idx) ((ch % 256) ∷ []))
          ∙ ap (λ l. l ++ ((ch % 256) ∷ [])) c.whole)

  counted : (b.cnt + 1) % 2 ^ 32 ≡ length (text ++ ((ch % 256) ∷ [])) % 2 ^ 32
  counted = omega (arith, c.count, length-append text ((ch % 256) ∷ []))

  putch-Collected : Collected (putch ch b) (text ++ ((ch % 256) ∷ []))
  unfolding putch
  putch-Collected = elim (Bool-cases (b.idx + 1 == 255)) [
    | inr room ↦ rw room (record {
      bound = omega (arith, c.bound, ne_of_== (b.idx + 1) 255 room);
      chunks = c.chunks;
      whole = longer;
      count = counted;
    })
    | inl full ↦
        let chunk = first_of (update b.buf b.idx (ch % 256)) (b.idx + 1) in
        rw full (record {
          bound = omega arith;
          chunks = All-snoc chunk b.calls c.chunks (
              omega (
                arith,
                length-first_of (update b.buf b.idx (ch % 256)) (b.idx + 1),
                eq_of_== (b.idx + 1) 255 full,
              ));
          whole = append-nil _ ∙ concat-snoc b.calls chunk ∙ longer;
          count = counted;
        })
  ]

putch_all-Collected :
    (cs : List ℕ) (b : Printbuf) (text : List ℕ)
    → Collected b text
    → Collected (putch_all cs b) (text ++ bytes_of cs)
unfolding putch_all
putch_all-Collected [] b text c = subst (Collected b) (sym (append-nil text)) c
putch_all-Collected (ch ∷ cs) b text c =
    subst (Collected (putch_all cs (putch ch b)))
      (append_assoc text ((ch % 256) ∷ []) (bytes_of cs))
      (putch_all-Collected cs (putch ch b) (text ++ ((ch % 256) ∷ []))
        (putch-Collected b text ch c))

-- The chunks are the text, and none is longer than 255 bytes.
pub record Chunks (calls : List (List ℕ)) (text : List ℕ) : Type 0 where
  pub whole : concat calls ≡ text
  pub short : All (λ chunk. length chunk ≤ 255) calls

-- Where the format prints a text, the user's `vcprintf` returns the length of the text modulo 2 ^
-- 32, and its calls of `sys_cputs` one after the other are the bytes of the text, each character
-- modulo 256, with at most 255 bytes in each.
pub vcprintf-Chunks :
    (mem : ℕ → Bytes) (buf : ℕ → ℕ) (fmt : Bytes) (args : List ℕ) (st : Print)
    → vprintfmt mem (λ n. n % 255) fmt args ≡ printed st
    → (calls : List (List ℕ)) × (vcprintf mem buf fmt args ≡ some (length st.out % 2 ^ 32, calls))
      × Chunks calls (bytes_of st.out)
unfolding vcprintf
vcprintf-Chunks mem buf fmt args st prints =
    let b = putch_all st.out (empty_printbuf buf) in
    let c = putch_all-Collected st.out (empty_printbuf buf) [] (record {
      bound = omega arith;
      chunks = tt;
      whole = unfold first_of in refl;
      count = refl;
    }) in
    let last = first_of b.buf b.idx in
    rw (vcprintf, prints)
      (
        (flush b).calls,
        ap (λ n. some (n, (flush b).calls))
            (c.count ∙ ap (λ n. n % 2 ^ 32) (length-bytes_of st.out)),
        record {
          whole = concat-snoc b.calls last ∙ c.whole;
          short =
              All-snoc last b.calls c.chunks (omega (arith, length-first_of b.buf b.idx, c.bound));
        },
      )
