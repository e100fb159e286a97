-- ===== src/Overlay/Kernel/Keeps.antt =====
-- Actions that keep a preorder of states: a logic for what internal/overlay leaves alone.
use sysext_alpine.Base.{Bool, true, false, List, [], ◌∷◌, Result, ok, err, if◌then◌else◌}
use sysext_alpine.Overlay.Kernel.{
  Fault, Do, after, ◌>>=◌, pure, fail, ask, attempt, ignore, for_each,
}

-- Every run of the action leads to a state that `R` relates to the one before.
pub record Keeps {W A : Type 0} (R : W → W → Type 0) (m : Do W A) : Type 0 where
  pub run : (w : W) → R w (m w).1

module _ {W : Type 0} {R : W → W → Type 0} (start : (w : W) → R w w)
    (join : (u v w : W) → R u v → R v w → R u w) where
  pub pure-Keeps : {A : Type 0} (a : A) → Keeps R (pure a)
  pure-Keeps a = record { run = λ w. start w }

  pub fail-Keeps : {A : Type 0} (e : Fault) → Keeps R (fail {A = A} e)
  fail-Keeps e = record { run = λ w. start w }

  pub ask-Keeps : {A : Type 0} (f : W → Result Fault A) → Keeps R (ask f)
  ask-Keeps f = record { run = λ w. start w }

  after-Keeps :
      {A B : Type 0} (w : W) (r : Result Fault A × W) (next : A → Do W B)
      → R w r.1
      → ((a : A) → Keeps R (next a))
      → R w (after r next).1
  after-Keeps w (ok a, v) next h k = join w v (next a v).1 h ((k a).run v)
  after-Keeps w (err e, v) next h k = h

  pub bind-Keeps :
      {A B : Type 0} {m : Do W A} {next : A → Do W B}
      → Keeps R m
      → ((a : A) → Keeps R (next a))
      → Keeps R (m >>= next)
  bind-Keeps {m = m} {next = next} h k = record { run = λ w. after-Keeps w (m w) next (h.run w) k }

  pub attempt-Keeps : {A : Type 0} {m : Do W A} → Keeps R m → Keeps R (attempt m)
  attempt-Keeps h = record { run = h.run }

  pub ignore-Keeps : {A : Type 0} {m : Do W A} → Keeps R m → Keeps R (ignore m)
  ignore-Keeps h = record { run = h.run }

  pub if-Keeps :
      {A : Type 0} {m n : Do W A} (b : Bool) → Keeps R m → Keeps R n → Keeps R (if b then m else n)
  if-Keeps true h k = h
  if-Keeps false h k = k

  pub for_each-Keeps :
      {A : Type 0} (xs : List A) (f : A → Do W Unit)
      → ((a : A) → Keeps R (f a))
      → Keeps R (for_each xs f)
  unfolding for_each
  for_each-Keeps [] f h = pure-Keeps tt
  for_each-Keeps (a ∷ xs) f h = bind-Keeps (h a) (λ u. for_each-Keeps xs f h)
