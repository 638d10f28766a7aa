-- ===== src/Kernel/Kdebug/Found.antt =====
-- What `stab_binsearch` finds in a table whose entries of the type ascend.
pub mod Ends
pub mod Unique
use csdi_jos.Common.{
  ℕ, ◌+◌, ◌%◌, ◌^◌, ◌≤◌, ◌<◌, ◌≡◌, ◌≢◌, ◌⊎◌, inl, inr, refl, ap, ◌∙◌, true, false, dec_lt, dec_le,
  arith,
}
use csdi_jos.Kernel.Kdebug.{Stab, Search, middle}
use csdi_jos.Kernel.Kdebug.Steps.{Step, no_match, below, above, exact}

-- No entry of the type at an index that is at least `l` and below `r`.
abbrev pub NoneIn : (ℕ → Stab) → (type l r : ℕ) → Type 0
NoneIn stabs type l r = (i : ℕ) → l ≤ i → i < r → (stabs i).n_type ≢ type

-- The entries of the type from `first` on and below `end` ascend, the addresses are words, and none
-- is the one after `addr`.
pub record Ascending (stabs : ℕ → Stab) (type first end addr : ℕ) : Type 0 where
  pub sorted :
      (i j : ℕ)
      → first ≤ i
      → i ≤ j
      → j < end
      → (stabs i).n_type ≡ type
      → (stabs j).n_type ≡ type
      → (stabs i).n_value ≤ (stabs j).n_value
  pub word : addr + 1 < 2 ^ 32
  pub no_next :
      (i : ℕ) → first ≤ i → i < end → (stabs i).n_type ≡ type → (stabs i).n_value ≢ addr + 1

-- An entry of the type at or below the address.
pub record Reaches (stabs : ℕ → Stab) (type first end addr m : ℕ) : Type 0 where
  pub low : first ≤ m
  pub high : m < end
  pub at : (stabs m).n_type ≡ type
  pub value : (stabs m).n_value ≤ addr

-- An entry of the type beyond the address.
pub record Beyond (stabs : ℕ → Stab) (type first end addr m : ℕ) : Type 0 where
  pub low : first ≤ m
  pub high : m < end
  pub at : (stabs m).n_type ≡ type
  pub value : addr < (stabs m).n_value

module _ (stabs : ℕ → Stab) (type first last addr : ℕ) where
  -- Between the rounds: below `l` the last entry of the type is `left`, if there is any, and from
  -- `right` on all are beyond the address.
  pub record Bracket (s : Search) : Type 0 where
    pub low : first ≤ s.l
    pub high : s.right ≤ last
    pub target : (s.addr ≡ addr) ⊎ (s.addr ≡ addr + 1)
    pub ends : s.end ≡ s.right
    pub lower :
        ((s.left ≡ first) × NoneIn stabs type first s.l)
        ⊎ (Reaches stabs type first last addr s.left
            × ((i : ℕ) → first ≤ i → i < s.l → (stabs i).n_type ≡ type → i ≤ s.left))
    pub upper : (s.right ≡ last) ⊎ Beyond stabs type first last addr s.right
    pub unmatched :
        s.any_matches ≡ false → (s.right ≡ last) × (s.left ≡ first) × NoneIn stabs type first s.l
    pub matched :
        s.any_matches ≡ true
        → Beyond stabs type first last addr s.right ⊎ Reaches stabs type first last addr s.left

module _ {stabs : ℕ → Stab} {type first last addr : ℕ}
    (asc : Ascending stabs type first last addr) where
  -- An entry below what the search looks for is not beyond the address, and one above it is.
  value_below :
      (s : Search) (m : ℕ)
      → Bracket stabs type first last addr s
      → s.l ≤ m
      → m < s.right
      → (stabs m).n_type ≡ type
      → (stabs m).n_value < s.addr
      → Reaches stabs type first last addr m
  value_below s m b low high at lt = record {
    low = omega (arith, b.low, low);
    high = omega (arith, b.high, high);
    at = at;
    value = elim b.target [ inl e ↦ omega (arith, e, lt) | inr e ↦ omega (arith, e, lt) ];
  }

  value_above :
      (s : Search) (m : ℕ)
      → Bracket stabs type first last addr s
      → s.l ≤ m
      → m < s.right
      → (stabs m).n_type ≡ type
      → s.addr < (stabs m).n_value
      → Beyond stabs type first last addr m
  value_above s m b low high at gt = record {
    low = omega (arith, b.low, low);
    high = omega (arith, b.high, high);
    at = at;
    value = elim b.target [ inl e ↦ omega (arith, e, gt) | inr e ↦ omega (arith, e, gt) ];
  }

  -- An entry that is hit has the address itself.
  value_hit :
      (s : Search) (m : ℕ)
      → Bracket stabs type first last addr s
      → s.l ≤ m
      → m < s.right
      → (stabs m).n_type ≡ type
      → (stabs m).n_value ≡ s.addr
      → s.addr ≡ addr
  value_hit s m b low high at eq = elim b.target [
    | inl e ↦ e
    | inr e ↦
        absurd (asc.no_next m (omega (arith, b.low, low)) (omega (arith, b.high, high)) at (eq ∙ e))
  ]

  -- A range without the type makes the range below longer.
  NoneIn-join : (l m r : ℕ) → NoneIn stabs type l m → NoneIn stabs type m r → NoneIn stabs type l r
  NoneIn-join l m r h h' i low high = elim (dec_lt i m) [
    | yes lt ↦ h i low lt
    | no ge ↦ h' i (omega (arith, ge)) high
  ]

  pub Bracket-keeps :
      (s s' : Search)
      → s.l < s.right
      → Bracket stabs type first last addr s
      → Step stabs type s s'
      → Bracket stabs type first last addr s'
  Bracket-keeps s _ more b (no_match none_here) =
      let clear : NoneIn stabs type s.l (middle s + 1) =
        λ i low high. none_here i low (omega (arith, high)) in
      record {
        low = omega (arith, b.low, more);
        high = b.high;
        target = b.target;
        ends = b.ends;
        lower = elim b.lower [
          | inl (at, h) ↦ inl (at, NoneIn-join first s.l (middle s + 1) h clear)
          | inr (r, h) ↦ inr (
            r,
            λ i low high is_type. elim (dec_lt i s.l) [
              | yes lt ↦ h i low lt is_type
              | no ge ↦ absurd (clear i (omega (arith, ge)) high is_type)
            ],
          )
        ];
        upper = b.upper;
        unmatched = λ e.
            let (at, left, h) = b.unmatched e in
            (at, left, NoneIn-join first s.l (middle s + 1) h clear);
        matched = b.matched;
      }
  Bracket-keeps s _ more b (below m (low, high, at, after) lt) = record {
    low = omega (arith, b.low, more);
    high = b.high;
    target = b.target;
    ends = b.ends;
    lower = inr (
      value_below s m b low (omega (arith, high, more)) at lt,
      λ i low' high' is_type. elim (dec_le i m) [
        | yes le ↦ le
        | no gt ↦ absurd (after i (omega (arith, gt)) (omega (arith, high')) is_type)
      ],
    );
    upper = b.upper;
    unmatched = λ e. absurd (ground (arith, e));
    matched = λ _. inr (value_below s m b low (omega (arith, high, more)) at lt);
  }
  Bracket-keeps s _ more b (above m (low, high, at, after) gt) = record {
    low = b.low;
    high = omega (arith, b.high, high, more);
    target = b.target;
    ends = refl;
    lower = b.lower;
    upper = inr (value_above s m b low (omega (arith, high, more)) at gt);
    unmatched = λ e. absurd (ground (arith, e));
    matched = λ _. inl (value_above s m b low (omega (arith, high, more)) at gt);
  }
  Bracket-keeps s _ more b (exact m (low, high, at, after) eq) =
      let hit = value_hit s m b low (omega (arith, high, more)) at eq in
      let found : Reaches stabs type first last addr m = record {
        low = omega (arith, b.low, low);
        high = omega (arith, b.high, high, more);
        at = at;
        value = omega (arith, eq, hit);
      } in
      record {
        low = omega (arith, b.low, low);
        high = b.high;
        target = inr (ap (λ a. (a + 1) % 2 ^ 32) hit ∙ omega (arith, asc.word));
        ends = b.ends;
        lower = inr (found, λ i low' high' is_type. omega (arith, high'));
        upper = b.upper;
        unmatched = λ e. absurd (ground (arith, e));
        matched = λ _. inr found;
      }
