-- ===== src/Image/Dissect/Checks.antt =====
-- internal/image/dissect.go: what a check that has passed says, and the generic root partition.
use sysext_alpine.Base.{
  refuse, >>-ok, ok_eq, ◌≡◌, refl, sym, ap, inl, inr, ◌⊎◌, Bool, true, false, Option, none, some,
  Result, ok, err, ◌>>◌, >>=-eq-ok, if◌then◌else◌,
}
use sysext_alpine.Image.Designator.{root}
use sysext_alpine.Image.Gpt.{Partition}
use sysext_alpine.Image.Policy.Parse.{Policy}
use sysext_alpine.Image.Policy.Decide.{Violation, may_use}
use sysext_alpine.Image.Dissect.{
  Dissected, set_at, VeritySettings, DissectError, many_generic, denied_or,
}
use sysext_alpine.Image.Dissect.Finish.{pick_generic, use_generic}

module _ {E : Type 0} where
  pub denied_or-ok :
      {A : Type 0} (m : Result Violation A) {a : A} → denied_or {E = E} m ≡ ok a → m ≡ ok a
  denied_or-ok (ok b) h = cc
  denied_or-ok (err v) h = cc

-- The partitions after the choice of a generic partition as root.
abbrev pub WithRoot : Policy → Dissected → Option Partition → Dissected → Type 0
WithRoot policy d g e =
    (e.parts ≡ d.parts)
    ⊎ ((p : Partition) × (g ≡ some p)
        × (may_use policy root ≡ ok true)
        × (e.parts ≡ set_at root (some p) d.parts))

module _ {E : Type 0} (policy : Policy) (settings : VeritySettings) where
  use_or_ignore-WithRoot :
      (d e : Dissected) (p : Partition) (u : Bool)
      → may_use policy root ≡ ok u
      → ◌≡◌ {A = Result (DissectError E) Dissected}
          (ok (
            if u
            then record d { parts = set_at root (some p) d.parts }
            else record d { ignored = set_at root true d.ignored }))
          (ok e)
      → WithRoot policy d (some p) e
  use_or_ignore-WithRoot d e p true m h = inr (p, refl, m, ap (λ x. x.parts) (sym (ok_eq h)))
  use_or_ignore-WithRoot d e p false m h = inl (ap (λ x. x.parts) (sym (ok_eq h)))

  use_generic-WithRoot :
      (d e : Dissected) (g : Option Partition)
      → use_generic {E = E} policy settings d g ≡ ok e
      → WithRoot policy d g e
  use_generic-WithRoot d e none h = inl (ap (λ x. x.parts) (sym (ok_eq h)))
  use_generic-WithRoot d e (some p) h =
      let q = >>=-eq-ok (denied_or {E = E} (may_use policy root)) _ h in
      use_or_ignore-WithRoot d e p q.0 (denied_or-ok {E = E} _ q.1) q.2

  if_generic-WithRoot :
      (d e : Dissected) (g : Option Partition) (m t : Bool)
      → (if t
          then refuse {E = DissectError E} m many_generic >> use_generic policy settings d g
          else ok d)
        ≡ ok e
      → WithRoot policy d g e
  if_generic-WithRoot d e g m true h =
      use_generic-WithRoot d e g (>>-ok (refuse {E = DissectError E} m many_generic) _ h).1
  if_generic-WithRoot d e g m false h = inl (ap (λ x. x.parts) (sym (ok_eq h)))

  pub pick_generic-WithRoot :
      (d e : Dissected) (g : Option Partition) (m : Bool)
      → pick_generic {E = E} policy settings d g m ≡ ok e
      → WithRoot policy d g e
  unfolding pick_generic
  pick_generic-WithRoot d e g m h = if_generic-WithRoot d e g m _ h
