-- ===== src/Overlay/Kernel/Stays.antt =====
-- Actions that keep an invariant of their state, with what holds of the value that they return: a
-- logic for the calls that internal/overlay makes.
use sysext_alpine.Base.{
  ◌≡◌, refl, Bool, true, false, List, [], ◌∷◌, Result, ok, err, All, if◌then◌else◌,
}
use sysext_alpine.Overlay.Kernel.{
  Fault, Do, after, ◌>>=◌, ◌>>◌, pure, fail, ask, attempt, ignore, for_each, when,
}

-- A value of which nothing is said.
abbrev pub Any : {A : Type 0} → A → Type 0
Any a = Unit {0}

module _ {W : Type 0} (J : W → Type 0) where
  abbrev pub Ends : {A : Type 0} → (A → Type 0) → Result Fault A × W → Type 0
  Ends V (ok a, w) = V a × J w
  Ends V (err e, w) = J w

  -- A run from a state with the invariant ends in one, also when it fails.
  pub record Stays {A : Type 0} (V : A → Type 0) (m : Do W A) : Type 0 where
    pub run : (w : W) → J w → Ends V (m w)

  asked : {A : Type 0} (r : Result Fault A) (w : W) → J w → Ends Any (r, w)
  asked (ok a) w j = (tt, j)
  asked (err e) w j = j

  kept : {A : Type 0} (V : A → Type 0) (r : Result Fault A × W) → Ends V r → J r.1
  kept V (ok a, w) (v, j) = j
  kept V (err e, w) j = j

module _ {W : Type 0} {J : W → Type 0} where
  pub pure-Stays : {A : Type 0} {V : A → Type 0} (a : A) → V a → Stays J V (pure a)
  pure-Stays a v = record { run = λ w j. (v, j) }

  pub fail-Stays : {A : Type 0} {V : A → Type 0} (e : Fault) → Stays J V (fail e)
  fail-Stays e = record { run = λ w j. j }

  pub ask-Stays : {A : Type 0} (f : W → Result Fault A) → Stays J Any (ask f)
  ask-Stays f = record { run = λ w j. asked J (f w) w j }

  after-Ends :
      {A B : Type 0} {V : A → Type 0} {U : B → Type 0} (r : Result Fault A × W) (next : A → Do W B)
      → Ends J V r
      → ((a : A) → V a → Stays J U (next a))
      → Ends J U (after r next)
  after-Ends (ok a, w) next (v, j) h = (h a v).run w j
  after-Ends (err e, w) next j h = j

  pub bind-Stays :
      {A B : Type 0} {V : A → Type 0} {U : B → Type 0} {m : Do W A} {next : A → Do W B}
      → Stays J V m
      → ((a : A) → V a → Stays J U (next a))
      → Stays J U (m >>= next)
  bind-Stays {m = m} {next = next} h k = record { run = λ w j. after-Ends (m w) next (h.run w j) k }

  pub then-Stays :
      {B : Type 0} {V : Unit → Type 0} {U : B → Type 0} {m : Do W Unit} {next : Do W B}
      → Stays J V m
      → Stays J U next
      → Stays J U (m >> next)
  then-Stays h k = bind-Stays h (λ a v. k)

  pub attempt-Stays :
      {A : Type 0} {V : A → Type 0} {m : Do W A} → Stays J V m → Stays J Any (attempt m)
  attempt-Stays {V = V} {m = m} h = record { run = λ w j. (tt, kept J V (m w) (h.run w j)) }

  pub ignore-Stays :
      {A : Type 0} {V : A → Type 0} {m : Do W A} → Stays J V m → Stays J Any (ignore m)
  ignore-Stays {V = V} {m = m} h = record { run = λ w j. (tt, kept J V (m w) (h.run w j)) }

  pub if-Stays :
      {A : Type 0} {V : A → Type 0} {m n : Do W A} (b : Bool)
      → Stays J V m
      → Stays J V n
      → Stays J V (if b then m else n)
  if-Stays true h k = h
  if-Stays false h k = k

  -- The same, with the outcome of the test.
  pub if-Stays-eq :
      {A : Type 0} {V : A → Type 0} {m n : Do W A} (b : Bool)
      → (b ≡ true → Stays J V m)
      → (b ≡ false → Stays J V n)
      → Stays J V (if b then m else n)
  if-Stays-eq true h k = h refl
  if-Stays-eq false h k = k refl

  pub tell-Stays :
      {A : Type 0} {V : A → Type 0} (f : W → A)
      → ((w : W) → V (f w))
      → Stays J V (ask (λ w. ok (f w)))
  tell-Stays f h = record { run = λ w j. (h w, j) }

  pub when-Stays : {m : Do W Unit} (b : Bool) → Stays J Any m → Stays J Any (when b m)
  when-Stays b h = if-Stays b h (pure-Stays tt tt)

  pub for_each-Stays :
      {A : Type 0} {P : A → Type 0} (xs : List A) (f : A → Do W Unit)
      → All P xs
      → ((a : A) → P a → Stays J Any (f a))
      → Stays J Any (for_each xs f)
  unfolding for_each
  for_each-Stays [] f p h = pure-Stays tt tt
  for_each-Stays (a ∷ xs) f (p, q) h = then-Stays (h a p) (for_each-Stays xs f q h)

-- A run from a state with `P` ends in one with `Q`, or fails in one with `E`.
abbrev pub Leaves :
    {W A : Type 0} → (W → Type 0) → (W → Type 0) → (A → Type 0) → Result Fault A × W → Type 0
Leaves Q E V (ok a, w) = V a × Q w
Leaves Q E V (err e, w) = E w

pub record Steps {W A : Type 0} (P Q E : W → Type 0) (V : A → Type 0) (m : Do W A) : Type 0 where
  pub take : (w : W) → P w → Leaves Q E V (m w)

module _ {W : Type 0} {P Q E : W → Type 0} where
  weakened :
      {A : Type 0} (V : A → Type 0) (r : Result Fault A × W)
      → ((w : W) → P w → Q w)
      → ((w : W) → P w → E w)
      → Ends P V r
      → Leaves Q E V r
  weakened V (ok a, w) q e (v, p) = (v, q w p)
  weakened V (err f, w) q e p = e w p

  pub Stays-Steps :
      {A : Type 0} {V : A → Type 0} {m : Do W A}
      → ((w : W) → P w → Q w)
      → ((w : W) → P w → E w)
      → Stays P V m
      → Steps P Q E V m
  Stays-Steps {V = V} {m = m} q e h = record { take = λ w p. weakened V (m w) q e (h.run w p) }

  pub if-Steps :
      {A : Type 0} {V : A → Type 0} {m n : Do W A} (b : Bool)
      → Steps P Q E V m
      → Steps P Q E V n
      → Steps P Q E V (if b then m else n)
  if-Steps true h k = h
  if-Steps false h k = k

module _ {W : Type 0} {Q R E : W → Type 0} where
  after-Leaves :
      {A B : Type 0} {V : A → Type 0} {U : B → Type 0} (r : Result Fault A × W) (next : A → Do W B)
      → Leaves Q E V r
      → ((a : A) → V a → Steps Q R E U (next a))
      → Leaves R E U (after r next)
  after-Leaves (ok a, w) next (v, q) h = (h a v).take w q
  after-Leaves (err e, w) next q h = q

  pub bind-Steps :
      {P : W → Type 0} {A B : Type 0} {V : A → Type 0} {U : B → Type 0} {m : Do W A}
      {next : A → Do W B}
      → Steps P Q E V m
      → ((a : A) → V a → Steps Q R E U (next a))
      → Steps P R E U (m >>= next)
  bind-Steps {m = m} {next = next} h k = record {
    take = λ w p. after-Leaves (m w) next (h.take w p) k;
  }

module _ {W : Type 0} (P : W → Type 0) where
  same_end : {A : Type 0} (V : A → Type 0) (r : Result Fault A × W) → Leaves P P V r → Ends P V r
  same_end V (ok a, w) h = h
  same_end V (err e, w) h = h

module _ {W : Type 0} {P : W → Type 0} where
  pub Steps-Stays : {A : Type 0} {V : A → Type 0} {m : Do W A} → Steps P P P V m → Stays P V m
  Steps-Stays {V = V} {m = m} h = record { run = λ w p. same_end P V (m w) (h.take w p) }
