-- ===== src/Base/Results.antt =====
-- Go's `(value, error)` results.
use mathlib.Core.Path.{◌≡◌, refl}
use mathlib.Core.Bool.{Bool, true, false}
use mathlib.Core.Option.{some}
use sysext_alpine.Base.Tests.{if◌then◌else◌}

-- The error, or the value of a call without one.
pub data Result {ℓ} (E A : Type ℓ) : Type ℓ where
  err : E → Result E A
  ok : A → Result E A

infixl 5 ◌>>=◌ ◌>>◌
abbrev pub ◌>>=◌ {ℓ} : {E A B : Type ℓ} (call : Result E A) (next : A → Result E B) → Result E B
err e >>= next = err e
ok value >>= next = next value

-- `if err := call; err != nil { return err }`
abbrev pub ◌>>◌ {ℓ} : {E A B : Type ℓ} (call : Result E A) (rest : Result E B) → Result E B
call >> rest = call >>= (λ value. rest)

pub >>=-eq-ok {ℓ} :
    {E A B : Type ℓ} (call : Result E A) (next : A → Result E B) {b : B}
    → (call >>= next) ≡ ok b
    → (a : A) × (call ≡ ok a) × (next a ≡ ok b)
>>=-eq-ok (ok a) next h = (a, refl, h)
>>=-eq-ok (err e) next h = cc

-- `if b { return err }`
abbrev pub refuse : {E : Type 0} → Bool → E → Result E Unit
refuse true e = err e
refuse false e = ok tt

pub refuse-ok : {E : Type 0} (b : Bool) (e : E) → refuse b e ≡ ok tt → b ≡ false
refuse-ok true e h = cc
refuse-ok false e h = refl

pub >>-ok :
    {E A : Type 0} (m : Result E Unit) (k : Result E A) {a : A}
    → (m >> k) ≡ ok a
    → (m ≡ ok tt) × (k ≡ ok a)
>>-ok (ok u) k h = (refl, h)
>>-ok (err e) k h = cc

pub ok_eq : {E A : Type 0} {a b : A} → ◌≡◌ {A = Result E A} (ok a) (ok b) → a ≡ b
ok_eq h = cc

pub some_eq : {A : Type 0} {a b : A} → some a ≡ some b → a ≡ b
some_eq h = cc

-- The branch that a result comes from.
pub if_result :
    {E A : Type 0} {Q : Type 0} (b : Bool) (m k : Result E A) {a : A}
    → (m ≡ ok a → Q)
    → (k ≡ ok a → Q)
    → (if b then m else k) ≡ ok a
    → Q
if_result true m k f g h = f h
if_result false m k f g h = g h

-- The same, with the outcome of the test.
pub if_result-eq :
    {E A : Type 0} {Q : Type 0} (b : Bool) (m k : Result E A) {a : A}
    → (b ≡ true → m ≡ ok a → Q)
    → (b ≡ false → k ≡ ok a → Q)
    → (if b then m else k) ≡ ok a
    → Q
if_result-eq true m k f g h = f refl h
if_result-eq false m k f g h = g refl h
