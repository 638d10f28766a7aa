-- ===== src/Kernel/Sched/Fair.antt =====
-- How long a runnable environment waits while one CPU yields again and again.
use csdi_jos.Common.{
  ℕ, suc, ◌+◌, ◌-◌, ◌%◌, ◌≤◌, ◌<◌, ◌≡◌, ◌≢◌, ◌⊎◌, inl, inr, sym, ap, ◌∙◌, subst, true, false, some,
  arith, dec_lt,
}
use csdi_jos.Kernel.State.{Kernel, Outcome, enter}
use csdi_jos.Kernel.State.Layout.{n_env, envx}
use csdi_jos.Kernel.Spinlock.{holding}
use csdi_jos.Kernel.Envs.Run.{env_run_lem}
use csdi_jos.Kernel.Sched.{is_candidate, next_index, start_index, sched_yield}
use csdi_jos.Kernel.Sched.Choice.{
  First, NoneOf, Decides, run_next, same, rest, no_idle, all_done, sched_yield_lem,
  start_index-bound,
}

-- `e` is runnable and not idle; this CPU holds the lock, and what can be chosen has a directory.
pub record Ready (k : Kernel) (e : ℕ) : Type 0 where
  pub slot : e < n_env
  pub runnable : is_candidate (k.envs e) ≡ true
  pub held : holding k.kernel_lock k.cpunum ≡ true
  pub directory :
      (i : ℕ) → is_candidate (k.envs i) ≡ true → (d : ℕ) × ((k.envs i).env_pgdir ≡ some d)

-- How many slots the search passes before it comes to `e`.
abbrev distance : Kernel → ℕ → ℕ
distance k e = (e + n_env - start_index k) % n_env

module _ (k : Kernel) (e : ℕ) (ready : Ready k e) where
  start_bound : start_index k < n_env
  start_bound = start_index-bound k k.curenv

  place : (start_index k + distance k e) % n_env ≡ e
  place = omega (arith, start_bound, ready.slot)

  not_none : NoneOf k (start_index k) n_env → ⊥
  not_none none_of =
      let clear = none_of (distance k e) (omega arith) in
      absurd
        (ground (arith, subst (λ i. is_candidate (k.envs i) ≡ false) place clear, ready.runnable))

  -- The search stops at `e` if not before.
  First-distance : (c : ℕ) (f : First k (start_index k) n_env c) → f.distance ≤ distance k e
  First-distance c f = elim (dec_lt (distance k e) f.distance) [
    | yes far ↦
        let clear = f.before (distance k e) far in
        absurd
          (ground (arith, subst (λ i. is_candidate (k.envs i) ≡ false) place clear, ready.runnable))
    | no near ↦ omega (arith, near)
  ]

  -- Then the yield enters the first one.
  abbrev pub Enters : Outcome (Unit {0}) → Type 0
  Enters o = (c : ℕ) × First k (start_index k) n_env c × (k' : Kernel) × (o ≡ enter c k')

  Decides-Enters : (o : Outcome (Unit {0})) → Decides k o → Enters o
  Decides-Enters _ (run_next c first) =
      let (d, dir) = ready.directory c first.runnable in
      let (k', runs, entered) = env_run_lem c ready.held dir in (c, first, k', runs)
  Decides-Enters _ (same c none_next current running) = absurd (not_none none_next)
  Decides-Enters _ (rest d stuck near active can) = absurd (not_none stuck.no_next)
  Decides-Enters _ (no_idle d stuck near active cannot) = absurd (not_none stuck.no_next)
  Decides-Enters _ (all_done stuck blocked) = absurd (not_none stuck.no_next)

  yield-Enters : Enters (sched_yield k)
  yield-Enters = Decides-Enters (sched_yield k) (sched_yield_lem k)

  First-is : (c : ℕ) (f : First k (start_index k) n_env c) → f.distance ≡ distance k e → c ≡ e
  First-is c f at = f.place ∙ ap (λ d. (start_index k + d) % n_env) at ∙ place

abbrev entered_by : Outcome (Unit {0}) → ℕ
entered_by (enter c k) = c
entered_by _ = 0

-- From `k` the CPU has yielded `n` times to environments other than `e`, which stayed runnable, and
-- is in `k'`, called by the environment it entered last.
pub data PassedOver (e : ℕ) : ℕ → Kernel → Kernel → Type 0 where
  start : (k : Kernel) → PassedOver e 0 k k
  again :
      (n c : ℕ) (k k' k'' next : Kernel)
      → PassedOver e n k k'
      → Ready k' e
      → sched_yield k' ≡ enter c k''
      → c ≢ e
      → next.curenv ≡ some c
      → envx (next.envs c).env_id ≡ c
      → PassedOver e (suc n) k next

start_index-next_index :
    (k : Kernel) (c : ℕ)
    → k.curenv ≡ some c
    → envx (k.envs c).env_id ≡ c
    → start_index k ≡ next_index c
start_index-next_index k c current slot = ground (arith, current, slot)

-- From the slot after one that the search passes before `e`, `e` is nearer.
nearer :
    (s d e c : ℕ)
    → s < n_env
    → e < n_env
    → d < (e + n_env - s) % n_env
    → c ≡ (s + d) % n_env
    → suc ((e + n_env - next_index c) % n_env) ≤ (e + n_env - s) % n_env
nearer s d e c s_bound e_bound near at = ground arith

PassedOver-distance :
    {e n : ℕ} {k k' : Kernel} → PassedOver e n k k' → n + distance k' e ≤ distance k e
PassedOver-distance (start k) = omega arith
PassedOver-distance {e} (again n c k k' k'' next before ready enters other current slot) =
    let (c', first, k₁, enters') = yield-Enters k' e ready in
    let same_env : c' ≡ c = ap entered_by (sym enters' ∙ enters) in
    let short : first.distance < distance k' e = elim (dec_lt first.distance (distance k' e)) [
      | yes lt ↦ lt
      | no ge ↦ absurd (
          other (
            sym same_env
            ∙ First-is k' e ready c' first (omega (arith, ge, First-distance k' e ready c' first))))
    ] in
    let step =
      nearer (start_index k') first.distance e c (start_bound k' e ready) ready.slot short
        (sym same_env ∙ first.place) in
    let at : start_index next ≡ next_index c = start_index-next_index next c current slot in
    omega (
      arith,
      PassedOver-distance before,
      subst (λ i. suc ((e + n_env - i) % n_env) ≤ distance k' e) (sym at) step,
    )

-- Let a CPU yield again and again, each time with the lock held, with a directory for every
-- environment that can be chosen, and with `e` runnable and not idle, each yield made by the
-- environment that the one before entered, in the slot that its identifier names. After `n` yields
-- that did not enter `e`, the next one enters an environment, which is `e` unless `n + 1` is below
-- `NENV`: at the latest the 1024th yield enters `e`.
pub sched_yield_fair :
    {e n : ℕ} {k k' : Kernel}
    → PassedOver e n k k'
    → Ready k' e
    → (c : ℕ) × (k'' : Kernel) × (sched_yield k' ≡ enter c k'')
      × (((c ≡ e) × (n < n_env)) ⊎ (suc n < n_env))
sched_yield_fair {e} {n} {k} {k'} passed ready =
    let (c, first, k'', enters) = yield-Enters k' e ready in
    let bound = PassedOver-distance passed in
    (
      c,
      k'',
      enters,
      elim (dec_lt (suc n) n_env) [
        | yes lt ↦ inr lt
        | no ge ↦ inl (
          First-is k' e ready c first (omega (arith, ge, bound, First-distance k' e ready c first)),
          omega (arith, bound),
        )
      ],
    )
