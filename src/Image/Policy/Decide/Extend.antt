-- ===== src/Image/Policy/Decide/Extend.antt =====
-- internal/image/policy.go, `extendPolicyFlags` bit by bit.
use sysext_alpine.Base.{◌≡◌, refl, ◌∙◌, Bool, true, false, ◌||◌, if◌then◌else◌, arith}
use sysext_alpine.Image.Policy.Flags.{
  PolicyFlag, read_only_off, read_only_on, grow_fs_off, grow_fs_on, PolicyFlags, inter, non_zero,
  pol_open, use_mask, read_only_mask, grow_fs_mask,
}
use sysext_alpine.Image.Policy.Decide.{fill, extend_policy_flags}

-- An aspect that holds no bit of `x` leaves `x` alone.
fill_outside :
    (aspect all f : PolicyFlags) (x : PolicyFlag) → all x ≡ false → fill aspect all f x ≡ f x
fill_outside aspect all f x h = go (non_zero (inter f aspect)) (f x) (all x) h
  where
    go : (b c a : Bool) → a ≡ false → (if b then c else c || a) ≡ c
    go b c a e = ground arith

abbrev pub filled_use : PolicyFlags → PolicyFlags
filled_use f = fill use_mask pol_open f

abbrev filled_ro : PolicyFlags → PolicyFlags
filled_ro f = fill read_only_mask read_only_mask (filled_use f)

abbrev pub pair_filled : Bool → Bool → Bool → Bool
pair_filled a b c = if a || (b || false) then c else c || true

pair_path : {a b c d e g : Bool} → a ≡ b → c ≡ d → e ≡ g → pair_filled a c e ≡ pair_filled b d g
pair_path p q r = λ i. pair_filled (p i) (q i) (r i)

abbrev pub extended_at : PolicyFlags → PolicyFlags
extended_at f read_only_off = pair_filled (f read_only_off) (f read_only_on) (f read_only_off)
extended_at f read_only_on = pair_filled (f read_only_off) (f read_only_on) (f read_only_on)
extended_at f grow_fs_off = pair_filled (f grow_fs_off) (f grow_fs_on) (f grow_fs_off)
extended_at f grow_fs_on = pair_filled (f grow_fs_off) (f grow_fs_on) (f grow_fs_on)
extended_at f x = filled_use f x

outside_use : (f : PolicyFlags) (x : PolicyFlag) → use_mask x ≡ false → filled_use f x ≡ f x
outside_use f x h = fill_outside use_mask pol_open f x h

outside_ro :
    (f : PolicyFlags) (x : PolicyFlag)
    → use_mask x ≡ false
    → read_only_mask x ≡ false
    → filled_ro f x ≡ f x
outside_ro f x h k =
    fill_outside read_only_mask read_only_mask (filled_use f) x k ∙ outside_use f x h

keep_grow :
    (f : PolicyFlags) (x : PolicyFlag)
    → grow_fs_mask x ≡ false
    → extend_policy_flags f x ≡ filled_ro f x
unfolding extend_policy_flags
keep_grow f x h = fill_outside grow_fs_mask grow_fs_mask (filled_ro f) x h

-- Each aspect is filled exactly when none of its own bits is set.
pub extend_lem : (f : PolicyFlags) (x : PolicyFlag) → extend_policy_flags f x ≡ extended_at f x
unfolding extend_policy_flags
extend_lem f read_only_off =
    keep_grow f read_only_off refl
    ∙ pair_path (outside_use f read_only_off refl) (outside_use f read_only_on refl)
        (outside_use f read_only_off refl)
extend_lem f read_only_on =
    keep_grow f read_only_on refl
    ∙ pair_path (outside_use f read_only_off refl) (outside_use f read_only_on refl)
        (outside_use f read_only_on refl)
extend_lem f grow_fs_off =
    pair_path (outside_ro f grow_fs_off refl refl) (outside_ro f grow_fs_on refl refl)
      (outside_ro f grow_fs_off refl refl)
extend_lem f grow_fs_on =
    pair_path (outside_ro f grow_fs_off refl refl) (outside_ro f grow_fs_on refl refl)
      (outside_ro f grow_fs_on refl refl)
extend_lem f x =
    keep_grow f x refl ∙ fill_outside read_only_mask read_only_mask (filled_use f) x refl
