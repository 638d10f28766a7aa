-- ===== src/Kernel/Spinlock/Exclusion.antt =====
-- At most one CPU is between `spin_lock` and `spin_unlock`.
use csdi_jos.Common.{
  ℕ, ◌≡◌, refl, sym, ap, ◌∙◌, subst, Bool, true, false, some, List, [], ◌∷◌, if◌then◌else◌, update,
  eq_of_same_ptr, arith, inl, inr, Bool-cases,
}
use csdi_jos.Kernel.Spinlock.{holding, spin_initlock}
use csdi_jos.Kernel.Spinlock.Cpus.{
  Phase, outside, spinning, won, inside, leaving, System, start, step_from, step, run, Reachable,
  initial, next,
}

-- Has the CPU taken the lock and not yet given it back?
abbrev pub owns : Phase → Bool
owns outside = false
owns spinning = false
owns won = true
owns inside = true
owns leaving = true

abbrev pub is_inside : Phase → Bool
is_inside inside = true
is_inside _ = false

pub record Exclusive (s : System) : Type 0 where
  pub one : (c d : ℕ) → owns (s.phase c) ≡ true → owns (s.phase d) ≡ true → c ≡ d
  pub taken : (c : ℕ) → owns (s.phase c) ≡ true → s.lock.locked ≡ true
  pub named : (c : ℕ) → is_inside (s.phase c) ≡ true → s.lock.cpu ≡ some c
  pub inside_named : (c : ℕ) → s.lock.cpu ≡ some c → is_inside (s.phase c) ≡ true
  pub calm : s.panicked ≡ false

start-Exclusive : Exclusive start
unfolding spin_initlock
start-Exclusive = record {
  one = λ c d p q. absurd (ground arith);
  taken = λ c p. absurd (ground arith);
  named = λ c p. absurd (ground arith);
  inside_named = λ c p. absurd (ground arith);
  calm = refl;
}

is_inside-owns : (p : Phase) → is_inside p ≡ true → owns p ≡ true
is_inside-owns outside h = absurd (ground arith)
is_inside-owns spinning h = absurd (ground arith)
is_inside-owns won h = refl
is_inside-owns inside h = refl
is_inside-owns leaving h = absurd (ground arith)

module _ (c : ℕ) (s : System) (inv : Exclusive s) where
  -- The CPU that is named is inside, and holds the lock.
  holding-inside : holding s.lock c ≡ is_inside (s.phase c)
  unfolding holding
  holding-inside = ground (
    arith,
    inv.named c,
    inv.inside_named c,
    inv.taken c,
    is_inside-owns (s.phase c),
    eq_of_same_ptr s.lock.cpu c,
  )

  step_from-Exclusive : (p : Phase) → s.phase c ≡ p → Exclusive (step_from p c s)
  unfolding step_from
  step_from-Exclusive outside at =
      let free : holding s.lock c ≡ false = holding-inside ∙ ap is_inside at in
      rw free (record {
        one = λ a b p q. ground (arith, at, inv.one a b);
        taken = λ a p. ground (arith, at, inv.taken a);
        named = λ a p. ground (arith, at, inv.named a);
        inside_named = λ a p. ground (arith, at, inv.inside_named a);
        calm = inv.calm;
      })
  step_from-Exclusive spinning at =
      let after : System = record s {
        lock = record s.lock { locked = true };
        phase = update s.phase c won;
      } in
      elim (Bool-cases s.lock.locked) [
        | inl busy ↦ subst (λ b. Exclusive (if b then s else after)) (sym busy) inv
        | inr free ↦
            subst (λ b. Exclusive (if b then s else after)) (sym free)
              (record {
                one = λ a b p q. ground (arith, free, inv.taken a, inv.taken b);
                taken = λ a p. refl;
                named = λ a p. ground (arith, free, inv.taken a, is_inside-owns (s.phase a));
                inside_named = λ a p.
                    ground
                      (arith, free, inv.taken a, inv.inside_named a, is_inside-owns (s.phase a));
                calm = inv.calm;
              })
      ]
  step_from-Exclusive won at = record {
    one = λ a b p q. ground (arith, at, inv.one a b);
    taken = λ a p. ground (arith, at, inv.taken a);
    named = λ a p. ground (arith, at, inv.one c a, is_inside-owns (s.phase a));
    inside_named = λ a p. ground (arith, p);
    calm = inv.calm;
  }
  step_from-Exclusive inside at =
      let held : holding s.lock c ≡ true = holding-inside ∙ ap is_inside at in
      rw held (record {
        one = λ a b p q. ground (arith, at, inv.one a b);
        taken = λ a p. ground (arith, at, inv.taken a);
        named = λ a p. ground (arith, at, inv.one c a, is_inside-owns (s.phase a));
        inside_named = λ a p. absurd (ground (arith, p));
        calm = inv.calm;
      })
  step_from-Exclusive leaving at = record {
    one = λ a b p q. ground (arith, at, inv.one a b);
    taken = λ a p. ground (arith, at, inv.one c a);
    named = λ a p. ground (arith, at, inv.one c a, is_inside-owns (s.phase a));
    inside_named = λ a p. ground (arith, at, inv.inside_named a);
    calm = inv.calm;
  }

Reachable-Exclusive : (s : System) → Reachable s → Exclusive s
unfolding step
Reachable-Exclusive s initial = start-Exclusive
Reachable-Exclusive s (next c {s = before} r) =
    step_from-Exclusive c before (Reachable-Exclusive before r) (before.phase c) refl

run-Reachable : (cs : List ℕ) (s : System) → Reachable s → Reachable (run cs s)
unfolding run
run-Reachable [] s r = r
run-Reachable (c ∷ cs) s r = run-Reachable cs (step c s) (next c r)

-- Let each CPU call `spin_lock` and `spin_unlock` in turn. From the initial lock and whatever the
-- order in which CPUs make their steps, at most one CPU is between the `xchg` that took the lock
-- and the one that gives it back, the lock word is set while there is one, `lk->cpu` names exactly
-- the CPU between the two calls, and neither function has panicked.
pub run-Exclusive : (cs : List ℕ) → Exclusive (run cs start)
run-Exclusive cs = Reachable-Exclusive (run cs start) (run-Reachable cs start initial)
