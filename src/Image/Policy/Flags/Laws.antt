-- ===== src/Image/Policy/Flags/Laws.antt =====
-- internal/image/policy.go: the bit tests, as equations of the bits.
use sysext_alpine.Base.{◌≡◌, refl, Bool, true, false, ◌||◌}
use sysext_alpine.Image.Policy.Flags.{PolicyFlag, verity, PolicyFlags, inter, single, non_zero}

or_false : (b : Bool) → (b || false) ≡ b
or_false true = refl
or_false false = refl

-- Testing one bit reads that bit.
pub non_zero-single : (f : PolicyFlags) (x : PolicyFlag) → non_zero (inter f (single x)) ≡ f x
non_zero-single f verity = or_false (f verity)
non_zero-single f x = or_false (f x)
