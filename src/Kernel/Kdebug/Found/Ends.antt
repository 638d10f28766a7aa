-- ===== src/Kernel/Kdebug/Found/Ends.antt =====
-- The regions that `stab_binsearch` leaves.
use csdi_jos.Common.{
  ℕ, zero, suc, ◌+◌, ◌-◌, ◌*◌, ◌^◌, ◌≤◌, ◌<◌, ◌≡◌, ◌⊎◌, inl, inr, refl, ap, subst, true, ◌==◌, ltb,
  ltb_of_lt, ltb_of_le, ==_ne, some, if◌then◌else◌, dec_lt, Bool-cases, arith,
}
use mathlib.Core.Option
use csdi_jos.Kernel.Kdebug.{
  ℤ, pos, Stab, Search, Region, int_before, one_above, scan_down, finish_search, start_search,
  stab_binsearch,
}
use csdi_jos.Kernel.Kdebug.Loop.{measure, at_most_one, search_loop_rule}
use csdi_jos.Kernel.Kdebug.Found.{NoneIn, Ascending, Reaches, Beyond, Bracket, Bracket-keeps}

-- The next entry of the type from `m` on, or the end of the range.
pub record Next (stabs : ℕ → Stab) (type first end addr m e : ℕ) : Type 0 where
  pub clear : NoneIn stabs type m e
  pub stops : (e ≡ end) ⊎ Beyond stabs type first end addr e

-- What the search answers, by the entries of the type at `first` or above and below `end`: none, or
-- the last one that does not lie beyond the address, or all do.
pub data Answer (stabs : ℕ → Stab) (type first end addr : ℕ) : Region → Type 0 where
  no_entry :
      NoneIn stabs type first end
      → Answer stabs type first end addr
          (record { region_left = pos first; region_right = int_before first })
  entry :
      (m e : ℕ)
      → Reaches stabs type first end addr m
      → Next stabs type first end addr (suc m) e
      → m < e
      → Answer stabs type first end addr
          (record { region_left = pos m; region_right = int_before e })
  all_beyond :
      (e : ℕ)
      → Beyond stabs type first end addr e
      → NoneIn stabs type first e
      → Answer stabs type first end addr (record {
        region_left = if ltb first e then pos first else int_before first;
        region_right = int_before e;
      })

module _ (stabs : ℕ → Stab) (type : ℕ) where
  scan_down-left :
      (left e : ℕ)
      → left < e
      → NoneIn stabs type (suc left) e
      → scan_down stabs type left e ≡ pos left
  unfolding scan_down
  scan_down-left left zero lt clear = absurd (omega (arith, lt))
  scan_down-left left (suc l) lt clear = elim (dec_lt left l) [
    | yes more ↦
        rw (ltb_of_lt left l more, ==_ne (stabs l).n_type type (clear l more (omega arith)))
          (scan_down-left left l more λ i low high. clear i low (omega (arith, high)))
    | no at ↦ rw (ltb_of_le left l (omega (arith, at))) (ap pos (omega (arith, at, lt)))
  ]

  scan_down_here : (e : ℕ) → scan_down stabs type e e ≡ int_before e
  unfolding scan_down
  scan_down_here zero = refl
  scan_down_here (suc l) = rw (ltb_of_le (suc l) l (omega arith)) refl

module _ {stabs : ℕ → Stab} {type first end addr : ℕ}
    (asc : Ascending stabs type first end addr) where
  -- An entry that does not lie beyond the address stands before all that do.
  before_beyond :
      (m e : ℕ)
      → Reaches stabs type first end addr m
      → (e ≡ end) ⊎ Beyond stabs type first end addr e
      → m < e
  before_beyond m e r (inl at) = omega (arith, r.high, at)
  before_beyond m e r (inr b) = elim (dec_lt m e) [
    | yes lt ↦ lt
    | no ge ↦
        absurd (
          omega
            (arith, asc.sorted e m b.low (omega (arith, ge)) r.high b.at r.at, b.value, r.value))
  ]

  module _ (s : Search) (b : Bracket stabs type first end addr s) (done : s.right ≤ s.l) where
    abbrev Matched : Type 0
    Matched = Answer stabs type first end addr (record {
      region_left = scan_down stabs type s.left s.end;
      region_right = int_before s.end;
    })

    reached :
        Reaches stabs type first end addr s.left
        → ((i : ℕ) → first ≤ i → i < s.l → (stabs i).n_type ≡ type → i ≤ s.left)
        → Matched
    reached r last =
        let lt = before_beyond s.left s.right r b.upper in
        let clear : NoneIn stabs type (suc s.left) s.right = λ i low high is_type. absurd (
          omega
            (arith, low, last i (omega (arith, r.low, low)) (omega (arith, high, done)) is_type)) in
        rw (b.ends, scan_down-left stabs type s.left s.right lt clear)
          (entry s.left s.right r (record { clear = clear; stops = b.upper }) lt)

    passed :
        s.left ≡ first
        → NoneIn stabs type first s.l
        → Beyond stabs type first end addr s.right
        → Matched
    passed at none_in beyond =
        let clear : NoneIn stabs type first s.right =
          λ i low high. none_in i low (omega (arith, high, done)) in
        let found = all_beyond s.right beyond clear in
        elim (dec_lt first s.right) [
          | yes lt ↦
              let scanned =
                scan_down-left stabs type first s.right lt
                  λ i low high. clear i (omega (arith, low)) high in
              rw (b.ends, at, scanned)
                (subst
                  (λ t. Answer stabs type first end addr (record {
                    region_left = if t then pos first else int_before first;
                    region_right = int_before s.right;
                  }))
                  (ltb_of_lt first s.right lt) found)
          | no ge ↦
              let same : s.right ≡ first = omega (arith, ge, beyond.low) in
              rw (b.ends, at, same, scan_down_here stabs type first)
                (subst
                  (λ t. Answer stabs type first end addr (record {
                    region_left = if t then pos first else int_before first;
                    region_right = int_before first;
                  }))
                  (ltb_of_le first first (omega arith))
                  (subst
                    (λ e. Answer stabs type first end addr (record {
                      region_left = if ltb first e then pos first else int_before first;
                      region_right = int_before e;
                    }))
                    same found))
        ]

    matched_Answer : s.any_matches ≡ true → Matched
    matched_Answer some_match = elim b.lower [
      | inr (r, last) ↦ reached r last
      | inl (at, none_in) ↦ elim (b.matched some_match) [
        | inl beyond ↦ passed at none_in beyond
        | inr r ↦ reached r λ i low high is_type. absurd (none_in i low high is_type)
      ]
    ]

    finish_search-Answer : Answer stabs type first end addr (finish_search stabs type s)
    unfolding finish_search
    finish_search-Answer = elim (Bool-cases s.any_matches) [
      | inl some_match ↦ rw some_match (matched_Answer some_match)
      | inr no_match ↦
          let (at, left, none_in) = b.unmatched no_match in
          rw (no_match, left) (no_entry λ i low high. none_in i low (omega (arith, at, high, done)))
    ]

  start_search-Bracket :
      first ≤ end → Bracket stabs type first end addr (start_search first end addr)
  start_search-Bracket range = record {
    low = omega arith;
    high = omega arith;
    target = inl refl;
    ends = refl;
    lower = inl (refl, λ i low high. absurd (omega (arith, low, high)));
    upper = inl refl;
    unmatched = λ _. (refl, refl, λ i low high. absurd (omega (arith, low, high)));
    matched = λ e. absurd (ground (arith, e));
  }

module _ {stabs : ℕ → Stab} {type first addr : ℕ} (right : ℤ)
    (asc : Ascending stabs type first (one_above right) addr)
    (range : first ≤ one_above right) where
  -- Let the entries of the type in a range ascend by address, the address plus 1 be a word, and no
  -- entry of the type have the address plus 1. `stab_binsearch` comes to an end within its fuel and
  -- answers: with no entry of the type, the left end and the index before it; else the last entry
  -- of the type at or below the address, and the index before the next entry of the type, or the
  -- end of the range; or, where all entries of the type lie beyond the address, the index before
  -- the first of them as the right end, and as the left end that of the range, or the index before
  -- it where the first entry stands at that end.
  pub stab_binsearch-Answer :
      (g : Region) × (stab_binsearch stabs (pos first) right type addr ≡ some g)
      × Answer stabs type first (one_above right) addr g
  unfolding stab_binsearch
  stab_binsearch-Answer =
      let end = one_above right in
      let s = start_search first end addr in
      let enough : measure stabs s < 2 * (end - first) + 2 =
        omega (arith, at_most_one ((stabs first).n_value == addr)) in
      let (s', ends, b, done) =
        search_loop_rule stabs type (Bracket stabs type first end addr) (Bracket-keeps asc)
          (2 * (end - first) + 2) s enough (start_search-Bracket asc range) in
      (
        finish_search stabs type s',
        ap (Option.map (finish_search stabs type)) ends,
        finish_search-Answer asc s' b done,
      )

module _ (stabs : ℕ → Stab) (type addr : ℕ) (word : addr + 2 < 2 ^ 32)
    (type₀ : (stabs 0).n_type ≡ type) (type₁ : (stabs 1).n_type ≡ type)
    (at : (stabs 0).n_value ≡ addr) (next : (stabs 1).n_value ≡ addr + 1) where
  -- Where entries 0 and 1 have the type and the addresses `addr` and `addr + 1`, with `addr + 2` a
  -- word, `stab_binsearch` for `addr` answers entry 1, which lies beyond `addr`.
  pub stab_binsearch_skips :
      stab_binsearch stabs (pos 0) (pos 1) type addr
      ≡ some (record { region_left = pos 1; region_right = pos 1 })
  unfolding stab_binsearch
  stab_binsearch_skips = ground (arith, at, next, type₀, type₁)
