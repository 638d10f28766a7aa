-- ===== src/Kernel/State/Returns.antt =====
-- Total correctness of a call: it returns, and its value and final state meet a postcondition.
use csdi_jos.Kernel.State.{Kernel, Outcome, ret, K, and_then}

abbrev pub Returns : {A : Type 0} → (A → Kernel → Type 0) → Outcome A → Type 0
Returns P (ret a k) = P a k
Returns P _ = ⊥

pub Returns-bind :
    {A B : Type 0} (P : A → Kernel → Type 0) (Q : B → Kernel → Type 0) (o : Outcome A) (f : A → K B)
    → Returns P o
    → ((a : A) (k : Kernel) → P a k → Returns Q (f a k))
    → Returns Q (and_then o f)
Returns-bind P Q (ret a k) f h next = next a k h
Returns-bind P Q _ f h next = absurd h

pub Returns-mono :
    {A : Type 0} (P Q : A → Kernel → Type 0) (o : Outcome A)
    → Returns P o
    → ((a : A) (k : Kernel) → P a k → Q a k)
    → Returns Q o
Returns-mono P Q (ret a k) h weaken = weaken a k h
Returns-mono P Q _ h weaken = absurd h

pub Returns-both :
    {A : Type 0} (P Q : A → Kernel → Type 0) (o : Outcome A)
    → Returns P o
    → Returns Q o
    → Returns (λ a k. P a k × Q a k) o
Returns-both P Q (ret a k) h h' = (h, h')
Returns-both P Q _ h h' = absurd h
