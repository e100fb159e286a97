-- ===== src/Overlay/Engine/Kept.antt =====
-- internal/overlay/engine.go: what the steps of an operation keep of the operation and of the trace.
use sysext_alpine.Base.{Result, ok, err}
use sysext_alpine.Overlay.Kernel.{Fault, Trace, Do, with_first}
use sysext_alpine.Overlay.Kernel.Stays.{Any, Ends, Stays, Steps}
use sysext_alpine.Overlay.Engine.{state, change, io}

-- An invariant of the first part of the state, and one of the trace.
abbrev pub Both : {X Y : Type 0} → (X → Type 0) → (Trace → Type 0) → X × (Y × Trace) → Type 0
Both S J (x, (y, t)) = S x × J t

module _ {X Y : Type 0} (S : X → Type 0) (J : Trace → Type 0) where
  part :
      {A : Type 0} (V : A → Type 0) (x : X) (y : Y) (r : Result Fault A × Trace)
      → S x
      → Ends J V r
      → Ends (Both {Y = Y} S J) V (with_first x (with_first y r))
  part V x y (ok a, t) s (v, j) = (v, (s, j))
  part V x y (err e, t) s j = (s, j)

  pub io-Stays :
      {A : Type 0} {V : A → Type 0} {m : Do Trace A}
      → Stays J V m
      → Stays (Both {Y = Y} S J) V (io m)
  io-Stays {V = V} {m = m} h = record { run = λ (x, (y, t)) (s, j). part V x y (m t) s (h.run t j) }

  pub state-Stays : Stays (Both {Y = Y} S J) S state
  state-Stays = record { run = λ (x, (y, t)) (s, j). (s, (s, j)) }

  pub change-Stays :
      (f : X → X) → ((x : X) → S x → S (f x)) → Stays (Both {Y = Y} S J) Any (change f)
  change-Stays f h = record { run = λ (x, (y, t)) (s, j). (tt, (h x s, j)) }

pub change-Steps :
    {X Y : Type 0} (S T : X → Type 0) (J : Trace → Type 0) (E : X × (Y × Trace) → Type 0)
    (f : X → X)
    → ((x : X) → S x → T (f x))
    → Steps (Both {Y = Y} S J) (Both {Y = Y} T J) E Any (change f)
change-Steps S T J E f h = record { take = λ (x, (y, t)) (s, j). (tt, (h x s, j)) }
