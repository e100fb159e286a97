-- ===== src/Image/Policy/Decide/Derived.antt =====
-- internal/image/policy.go, `get`: the rule of every designator, and what a verity partition inherits.
use sysext_alpine.Base.{◌≡◌, Bool, true, false, ◌||◌, [], ◌∷◌, Option, none, some, if◌then◌else◌}
use sysext_alpine.Image.Designator.{Designator, is_verity_sig}
use sysext_alpine.Image.Policy.Flags.{
  PolicyFlag, verity, signed, encrypted, encrypted_with_integrity, unprotected, unused, absent,
  read_only_off, read_only_on, grow_fs_off, grow_fs_on, PolicyFlags, union, inter, minus, eq_flags,
  single, mask, use_mask, pflags_mask,
}
use sysext_alpine.Image.Policy.Parse.{Policy}
use sysext_alpine.Image.Policy.Decide.{
  normalize_policy_flags, extend_policy_flags, derive_rule, explicit_or,
}

-- What a verity partition may be, when its data partition has the flags `g`: unprotected, left out where
-- the data may be, and with the same read-only and growing bits.
abbrev pub inherited : PolicyFlags → PolicyFlags
inherited g unprotected = true
inherited g unused = g unused
inherited g absent = g absent
inherited g read_only_off = g read_only_off
inherited g read_only_on = g read_only_on
inherited g grow_fs_off = g grow_fs_off
inherited g grow_fs_on = g grow_fs_on
inherited g x = false

-- The data may be protected by what the partition holds.
abbrev pub protects : Designator → PolicyFlags → Bool
protects d g = if is_verity_sig d then g signed else g verity || g signed

abbrev pub Inherits : Designator → PolicyFlags → Option PolicyFlags → Type 0
Inherits d g none = protects d g ≡ false
Inherits d g (some r) = (protects d g ≡ true) × (r ≡ inherited g)

-- The rule of the data partition, and that of the verity partition.
abbrev pub FromData : Designator → Designator → Option PolicyFlags → Option PolicyFlags → Type 0
FromData d partner none r = r ≡ none
FromData d partner (some f) r = Inherits d (normalize_policy_flags f partner) r

-- The rules that the policy gives for a designator and for its data partition, and what `get` returns.
abbrev pub Decided :
    Policy → Designator → Option PolicyFlags → Option Designator → Option PolicyFlags → Type 0
Decided p d (some f) partner r = r ≡ some (normalize_policy_flags f d)
Decided p d none none r = r ≡ none
Decided p d none (some partner) r = FromData d partner (p.rules partner) r

-- The flags that `derive_rule` normalises.
abbrev taken_over : PolicyFlags → PolicyFlags
taken_over g =
    union (union (single unprotected) (inter g (mask (unused ∷ absent ∷ [])))) (inter g pflags_mask)

abbrev Both : (PolicyFlag) → PolicyFlag → PolicyFlags → Type 0
Both x y g = (g x || (g y || false)) ≡ true

-- The part of `normalize_policy_flags` behind the extension, for a verity partition.
abbrev trimmed : PolicyFlags → PolicyFlags
trimmed e =
    let kept =
      minus (minus e (mask (verity ∷ signed ∷ encrypted ∷ encrypted_with_integrity ∷ [])))
        (mask (verity ∷ signed ∷ [])) in
    if eq_flags (inter kept use_mask) (single absent) then minus kept pflags_mask else kept

module _ (f : PolicyFlags) where
  -- The flags of a data partition.
  abbrev of_data : PolicyFlags
  of_data =
      let e = extend_policy_flags f in
      if eq_flags (inter e use_mask) (single absent) then minus e pflags_mask else e

-- What the rule of the data partition, explicit or none, leads to.
abbrev Leads : Designator → Designator → Option PolicyFlags → Type 0
Leads d partner o =
    FromData d partner o
      (elim (explicit_or o partner none) [ none ↦ none | some df ↦ derive_rule d df ])
