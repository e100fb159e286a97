-- ===== src/Image/Policy/Enforce.antt =====
-- internal/image/policy.go: `mayUse` and `checkProtection` decide alike.
use sysext_alpine.Base.{◌≡◌, refl, ap, ◌∙◌, Bool, true, false, ◌&&◌, ok, err, fun_ext, arith}
use sysext_alpine.Image.Designator.{Designator}
use sysext_alpine.Image.Policy.Flags.{
  PolicyFlag, verity, absent, unused, PolicyFlags, no_flags, inter, single, non_zero, use_mask,
}
use sysext_alpine.Image.Policy.Flags.Laws.{non_zero-single}
use sysext_alpine.Image.Policy.Parse.{Policy}
use sysext_alpine.Image.Policy.Decide.{
  must_be_absent, bad_protection, exhaustive, may_use_flags, may_use, check_protection,
}

non_zero-no_flags : (f : PolicyFlags) → ((x : PolicyFlag) → f x ≡ false) → non_zero f ≡ false
non_zero-no_flags f h = ap non_zero (fun_ext {f = f} {g = no_flags} h)

only_absent :
    (want : PolicyFlags) (x : PolicyFlag)
    → may_use_flags (inter want use_mask) ≡ err must_be_absent
    → (use_mask x && want x) ≡ single absent x
unfolding may_use_flags
only_absent want verity h = ground arith
only_absent want x h = ground arith

only_unused :
    (want : PolicyFlags) → may_use_flags (inter want use_mask) ≡ ok false → want unused ≡ true
unfolding may_use_flags
only_unused want h = ground arith

and_comm : (a b : Bool) → (a && b) ≡ (b && a)
and_comm true true = refl
and_comm true false = refl
and_comm false true = refl
and_comm false false = refl

inter_comm : (f g : PolicyFlags) → inter f g ≡ inter g f
inter_comm f g = fun_ext λ x. and_comm (g x) (f x)

single-hits : (want : PolicyFlags) (x : PolicyFlag) → non_zero (inter (single x) want) ≡ want x
single-hits want x = ap non_zero (inter_comm (single x) want) ∙ non_zero-single want x

-- What is no use flag, and what the policy does not ask for, is no bit of the meet.
miss :
    (want found : PolicyFlags) (x : PolicyFlag)
    → (found x ≡ true → use_mask x ≡ true)
    → found absent ≡ false
    → (use_mask x && want x) ≡ single absent x
    → inter found want x ≡ false
miss want found verity u present e = ground arith
miss want found x u present e = ground arith

-- A partition that the policy requires to be absent fails its protection check with every set of
-- use flags that does not say that it is absent, and a partition that the policy ignores passes
-- the check as unused.
pub may_use-check_protection :
    (p : Policy) (d : Designator) (found : PolicyFlags)
    → ((x : PolicyFlag) → found x ≡ true → use_mask x ≡ true)
    → found absent ≡ false
    → (may_use p d ≡ err must_be_absent → check_protection p d found ≡ err bad_protection)
      × (may_use p d ≡ ok false → check_protection p d (single unused) ≡ ok tt)
unfolding may_use check_protection
may_use-check_protection p d found uses present =
    let want = exhaustive p d in
    (
      λ h. rw (
          non_zero-no_flags (inter found want)
            (λ x. miss want found x (uses x) present (only_absent want x h))),
      λ h. rw (single-hits want unused, only_unused want h),
    )
