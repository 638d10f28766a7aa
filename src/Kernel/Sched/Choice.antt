-- ===== src/Kernel/Sched/Choice.antt =====
-- Which environment `sched_yield` runs.
use csdi_jos.Common.{
  ℕ, zero, suc, ◌+◌, ◌%◌, ◌<◌, ◌≡◌, ◌≢◌, ◌⊎◌, inl, inr, refl, subst, ◌∙◌, sym, Bool, true, false,
  not, ◌&&◌, ◌||◌, ◌==◌, Option, none, some, if◌then◌else◌, arith, Bool-cases, eq_of_==,
}
use csdi_jos.Kernel.State.{
  Kernel, Env, is_idle, Outcome, monitor, panic, status_runnable, status_running,
}
use csdi_jos.Kernel.State.Layout.{n_env, envx}
use csdi_jos.Kernel.Envs.Switch.{env_run}
use csdi_jos.Kernel.Sched.{
  is_candidate, next_index, find_runnable, any_active, start_index, idle_or_monitor, yield_rest,
  sched_yield,
}

-- Of the `n` slots from `i` on, round the end of the array, `e` is the first whose environment is
-- runnable and not idle.
pub record First (k : Kernel) (i n e : ℕ) : Type 0 where
  pub distance : ℕ
  pub near : distance < n
  pub place : e ≡ (i + distance) % n_env
  pub runnable : is_candidate (k.envs e) ≡ true
  pub before : (d : ℕ) → d < distance → is_candidate (k.envs ((i + d) % n_env)) ≡ false

abbrev pub NoneOf : Kernel → (i n : ℕ) → Type 0
NoneOf k i n = (d : ℕ) → d < n → is_candidate (k.envs ((i + d) % n_env)) ≡ false

abbrev pub Search : Kernel → (i n : ℕ) → Option ℕ → Type 0
Search k i n none = NoneOf k i n
Search k i n (some e) = First k i n e

next_index-mod : (i d : ℕ) → i < n_env → (next_index i + d) % n_env ≡ (i + suc d) % n_env
next_index-mod i d lt = ground arith

-- A property of 0 and of what follows the first numbers.
below_suc :
    (P : ℕ → Type 0) (n : ℕ) → P 0 → ((d : ℕ) → d < n → P (suc d)) → (d : ℕ) → d < suc n → P d
below_suc P n first rest zero near = first
below_suc P n first rest (suc d) near = rest d (omega arith)

module _ (k : Kernel) where
  NoneOf-next :
      (i n : ℕ)
      → i < n_env
      → is_candidate (k.envs i) ≡ false
      → NoneOf k (next_index i) n
      → NoneOf k i (suc n)
  NoneOf-next i n lt skip rest =
      let here : i ≡ (i + 0) % n_env = omega arith in
      below_suc (λ d. is_candidate (k.envs ((i + d) % n_env)) ≡ false) n
        (subst (λ j. is_candidate (k.envs j) ≡ false) here skip)
        λ d near. subst (λ j. is_candidate (k.envs j) ≡ false) (next_index-mod i d lt) (rest d near)

  Search-next :
      (i n : ℕ) (found : Option ℕ)
      → i < n_env
      → is_candidate (k.envs i) ≡ false
      → Search k (next_index i) n found
      → Search k i (suc n) found
  Search-next i n none lt skip rest = NoneOf-next i n lt skip rest
  Search-next i n (some e) lt skip rest = record {
    distance = suc rest.distance;
    near = omega (arith, rest.near);
    place = rest.place ∙ next_index-mod i rest.distance lt;
    runnable = rest.runnable;
    before = NoneOf-next i rest.distance lt skip rest.before;
  }

  find_runnable-Search : (n i : ℕ) → i < n_env → Search k i n (find_runnable n i k)
  unfolding find_runnable
  find_runnable-Search zero i lt = λ d near. absurd (omega arith)
  find_runnable-Search (suc n) i lt = elim (Bool-cases (is_candidate (k.envs i))) [
    | inl found ↦ rw found (record {
      distance = 0;
      near = omega arith;
      place = omega arith;
      runnable = found;
      before = λ d near. absurd (omega arith);
    })
    | inr skip ↦ rw skip (
        Search-next i n (find_runnable n (next_index i) k) lt skip
          (find_runnable-Search n (next_index i) (ground arith)))
  ]

-- An environment that is neither idle nor blocked.
abbrev pub is_active : Env → Bool
is_active env =
    not (is_idle env.env_type)
    && (env.env_status == status_runnable || env.env_status == status_running)

-- The environment is runnable or running.
abbrev pub can_run : Env → Bool
can_run env = env.env_status == status_runnable || env.env_status == status_running

abbrev pub AllBlocked : Kernel → (i n : ℕ) → Type 0
AllBlocked k i n = (d : ℕ) → d < n → is_active (k.envs (i + d)) ≡ false

any_active-lem :
    (n i : ℕ) (k : Kernel)
    → ((any_active n i k ≡ true) × (d : ℕ) × (d < n) × (is_active (k.envs (i + d)) ≡ true))
      ⊎ ((any_active n i k ≡ false) × AllBlocked k i n)
unfolding any_active
any_active-lem zero i k = inr (refl, λ d near. absurd (omega arith))
any_active-lem (suc n) i k =
    let here : i + 0 ≡ i = omega arith in
    let later : (d : ℕ) → suc i + d ≡ i + suc d = λ d. omega arith in
    elim (Bool-cases (is_active (k.envs i))) [
      | inl active ↦
          rw active
            (inl (refl, 0, omega arith, subst (λ j. is_active (k.envs j) ≡ true) (sym here) active))
      | inr blocked ↦ elim (any_active-lem n (suc i) k) [
        | inl (found, d, near, active) ↦
            rw (blocked, found)
              (inl (
                refl,
                suc d,
                omega arith,
                subst (λ j. is_active (k.envs j) ≡ true) (later d) active,
              ))
        | inr (found, rest) ↦
            rw (blocked, found)
              (inr (
                refl,
                below_suc (λ d. is_active (k.envs (i + d)) ≡ false) n
                    (subst (λ j. is_active (k.envs j) ≡ false) (sym here) blocked)
                    λ d near. subst (λ j. is_active (k.envs j) ≡ false) (later d) (rest d near),
              ))
      ]
    ]

-- No environment to go on to: none but idle ones is runnable, and the current one, if any, is not
-- running.
pub record Stuck (k : Kernel) : Type 0 where
  pub no_next : NoneOf k (start_index k) n_env
  pub no_current : (c : ℕ) → k.curenv ≡ some c → (k.envs c).env_status ≢ status_running

-- What `sched_yield` does, by the state in which it is called. The idle environment of a CPU is the
-- one whose slot has the CPU's number.
pub data Decides (k : Kernel) : Outcome (Unit {0}) → Type 0 where
  run_next : (e : ℕ) → First k (start_index k) n_env e → Decides k (env_run e k)
  same :
      (c : ℕ)
      → NoneOf k (start_index k) n_env
      → k.curenv ≡ some c
      → (k.envs c).env_status ≡ status_running
      → Decides k (env_run c k)
  rest :
      (d : ℕ)
      → Stuck k
      → d < n_env
      → is_active (k.envs d) ≡ true
      → can_run (k.envs k.cpunum) ≡ true
      → Decides k (env_run k.cpunum k)
  no_idle :
      (d : ℕ)
      → Stuck k
      → d < n_env
      → is_active (k.envs d) ≡ true
      → can_run (k.envs k.cpunum) ≡ false
      → Decides k panic
  all_done : Stuck k → AllBlocked k 0 n_env → Decides k (monitor k)

idle_rest : (k : Kernel) → Stuck k → Decides k (idle_or_monitor k)
unfolding idle_or_monitor
idle_rest k stuck = elim (any_active-lem n_env 0 k) [
  | inr (found, blocked) ↦ rw found (all_done stuck blocked)
  | inl (found, d, near, active) ↦ elim (Bool-cases (can_run (k.envs k.cpunum))) [
    | inl ready ↦
        rw (found, ready)
          (rest d stuck near (subst (λ j. is_active (k.envs j) ≡ true) (omega arith) active) ready)
    | inr not_ready ↦
        rw (found, not_ready)
          (no_idle d stuck near (subst (λ j. is_active (k.envs j) ≡ true) (omega arith) active)
            not_ready)
  ]
]

module _ (k : Kernel) where
  resume : Option ℕ → Outcome (Unit {0})
  resume none = idle_or_monitor k
  resume (some c) =
      if (k.envs c).env_status == status_running then env_run c k else idle_or_monitor k

  resume-Decides :
      (o : Option ℕ) → k.curenv ≡ o → NoneOf k (start_index k) n_env → Decides k (resume o)
  unfolding resume
  resume-Decides none e none_next =
      idle_rest k
        (record { no_next = none_next; no_current = λ c h. absurd (ground (arith, e, h)) })
  resume-Decides (some c) e none_next =
      elim (Bool-cases ((k.envs c).env_status == status_running)) [
        | inl running ↦
            rw running (same c none_next e (eq_of_== (k.envs c).env_status status_running running))
        | inr stopped ↦ rw stopped (
            idle_rest k (record {
              no_next = none_next;
              no_current = λ c' h run. absurd (ground (arith, e, h, run, stopped));
            }))
      ]

  proceed : Option ℕ → Outcome (Unit {0})
  unfolding yield_rest
  proceed none = yield_rest k
  proceed (some i) = env_run i k

  proceed-Decides : (o : Option ℕ) → Search k (start_index k) n_env o → Decides k (proceed o)
  unfolding proceed yield_rest resume
  proceed-Decides none none_next = resume-Decides k.curenv refl none_next
  proceed-Decides (some e) first = run_next e first

  pub start_index-bound :
      (o : Option ℕ) → (elim o [ none ↦ 0 | some c ↦ next_index (envx (k.envs c).env_id) ]) < n_env
  start_index-bound none = omega arith
  start_index-bound (some c) = ground arith

  -- `sched_yield` runs the first runnable environment that is not idle, searched round the array
  -- from the slot after the current one. With none, it runs the current environment if that is
  -- running. With none again, it stays in the monitor if no environment but idle ones is runnable
  -- or running, and else it runs the idle environment of this CPU, or panics if that can not run.
  pub sched_yield_lem : Decides k (sched_yield k)
  unfolding sched_yield proceed
  sched_yield_lem =
      proceed-Decides (find_runnable n_env (start_index k) k)
        (find_runnable-Search k n_env (start_index k) (start_index-bound k.curenv))
