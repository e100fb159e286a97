-- ===== src/Image/Policy/Decide.antt =====
-- internal/image/policy.go, the decisions that a parsed policy makes.
pub mod Extend
pub mod Derived
use sysext_alpine.Base.{
  ℕ, zero, suc, ◌/◌, ◌%◌, ◌^◌, Bool, true, false, not, ◌||◌, [], ◌∷◌, Option, none, some, Result,
  ok, err, Bytes, null, ◌==◌, if◌then◌else◌,
}
use sysext_alpine.Image.Designator.{Designator, root, usr, verity_hash, verity_data, is_verity_sig}
use sysext_alpine.Image.Policy.Flags.{
  PolicyFlags, union, inter, minus, non_zero, eq_flags, single, mask, pol_open, pol_ignore,
  use_mask, read_only_mask, grow_fs_mask, pflags_mask, fs_type_mask, verity, signed, encrypted,
  encrypted_with_integrity, unprotected, unused, absent, read_only_off, read_only_on, grow_fs_off,
  grow_fs_on, policy_flag_from_string,
}
use sysext_alpine.Image.Policy.Parse.{
  Policy, PolicyError, no_rules, set_rule, parse_image_policy, parse_policy,
}
use sysext_alpine.Release.Class.{Class, sysext, confext}

-- The errors of the enforcement, all unix.ERFKILL.
pub data Violation : Type 0 where
  must_be_absent bad_protection bad_read_only bad_grow_fs bad_file_system : Violation

abbrev pub protection : PolicyFlags
protection =
    mask (verity ∷ signed ∷ encrypted ∷ encrypted_with_integrity ∷ unprotected ∷ absent ∷ [])

unfoldable pub class_default_policy : Class → Policy
class_default_policy sysext =
    set_rule (set_rule (record { rules = no_rules; def = pol_ignore }) root protection) usr
      protection
class_default_policy confext =
    set_rule (record { rules = no_rules; def = pol_ignore }) root protection

unfoldable pub resolve_policy : Bytes → Class → Result PolicyError Policy
unfolding class_default_policy parse_policy
resolve_policy s class = if null s then ok (class_default_policy class) else parse_image_policy s

-- `if f&aspect == 0 { f |= all }`, bit by bit.
abbrev fill : PolicyFlags → PolicyFlags → PolicyFlags → PolicyFlags
fill aspect all f x = if non_zero (inter f aspect) then f x else f x || all x

unfoldable pub extend_policy_flags : PolicyFlags → PolicyFlags
extend_policy_flags f =
    fill grow_fs_mask grow_fs_mask (fill read_only_mask read_only_mask (fill use_mask pol_open f))

abbrev is_some {ℓ} : {A : Type ℓ} → Option A → Bool
is_some none = false
is_some (some x) = true

unfoldable pub normalize_policy_flags : PolicyFlags → Designator → PolicyFlags
unfolding extend_policy_flags
normalize_policy_flags f d =
    let extended = extend_policy_flags f in
    let data_kept =
      if is_some (verity_data d)
      then minus extended (mask (verity ∷ signed ∷ encrypted ∷ encrypted_with_integrity ∷ []))
      else extended in
    let kept =
      if is_some (verity_hash d)
      then data_kept
      else minus data_kept (mask (verity ∷ signed ∷ [])) in
    if eq_flags (inter kept use_mask) (single absent) then minus kept pflags_mask else kept

-- The rule of a verity partition, from that of its data partition.
unfoldable pub derive_rule : Designator → PolicyFlags → Option PolicyFlags
unfolding normalize_policy_flags
derive_rule d df =
    let need = if is_verity_sig d then single signed else mask (verity ∷ signed ∷ []) in
    if non_zero (inter df need)
    then some (
        normalize_policy_flags
          (union (union (single unprotected) (inter df (mask (unused ∷ absent ∷ []))))
            (inter df pflags_mask))
          d)
    else none

-- The rule derived from that of the data partition, which `rule_of` looks up.
unfoldable pub from_data : Designator → (Designator → Option PolicyFlags) → Option PolicyFlags
unfolding derive_rule
from_data d rule_of = elim (verity_data d) [
  | none ↦ none
  | some partner ↦ elim (rule_of partner) [ none ↦ none | some df ↦ derive_rule d df ]
]

unfoldable pub explicit_or :
    Option PolicyFlags → Designator → Option PolicyFlags → Option PolicyFlags
unfolding normalize_policy_flags
explicit_or (some f) d other = some (normalize_policy_flags f d)
explicit_or none d other = other

-- `get` calls itself on the data partition, which has none: two calls at most, so `fuel` 2 is
-- enough.
unfoldable pub get_from : ℕ → Policy → Designator → Option PolicyFlags
unfolding explicit_or from_data
get_from zero p d = none
get_from (suc fuel) p d = explicit_or (p.rules d) d (from_data d (get_from fuel p))

unfoldable pub get : Policy → Designator → Option PolicyFlags
unfolding get_from
get p d = get_from 2 p d

unfoldable pub or_default : Option PolicyFlags → PolicyFlags → Designator → PolicyFlags
unfolding normalize_policy_flags
or_default (some f) def d = f
or_default none def d = normalize_policy_flags def d

unfoldable pub exhaustive : Policy → Designator → PolicyFlags
unfolding get or_default
exhaustive p d = or_default (get p d) p.def d

unfoldable pub may_use_flags : PolicyFlags → Result Violation Bool
may_use_flags f =
    if eq_flags f (single absent)
    then err must_be_absent
    else if eq_flags (minus f (single absent)) (single unused)
    then ok false
    else ok true

unfoldable pub may_use : Policy → Designator → Result Violation Bool
unfolding exhaustive may_use_flags
may_use p d = may_use_flags (inter (exhaustive p d) use_mask)

unfoldable pub check_protection : Policy → Designator → PolicyFlags → Result Violation Unit
unfolding exhaustive
check_protection p d found =
    if non_zero (inter found (exhaustive p d)) then ok tt else err bad_protection

-- Bit 60 (gptFlagReadOnly) and bit 59 (gptFlagGrowFS) of the GPT attributes.
abbrev pub attr_read_only : ℕ → Bool
attr_read_only attrs = not (attrs / 2 ^ 60 % 2 == 0)

abbrev pub attr_grow_fs : ℕ → Bool
attr_grow_fs attrs = not (attrs / 2 ^ 59 % 2 == 0)

unfoldable pub check_partition_flags : Policy → Designator → ℕ → Result Violation Unit
unfolding exhaustive
check_partition_flags p d attrs =
    let want = exhaustive p d in
    let bad_ro = if attr_read_only attrs then single read_only_off else single read_only_on in
    let bad_grow = if attr_grow_fs attrs then single grow_fs_off else single grow_fs_on in
    if eq_flags (inter want read_only_mask) bad_ro
    then err bad_read_only
    else if eq_flags (inter want grow_fs_mask) bad_grow
    then err bad_grow_fs
    else ok tt

-- `fs` is the name of the file system that was found.
unfoldable pub check_fs : Policy → Designator → Bytes → Result Violation Unit
unfolding exhaustive policy_flag_from_string
check_fs p d fs =
    let want = inter (exhaustive p d) fs_type_mask in
    if non_zero want
    then elim (policy_flag_from_string fs) [
      | none ↦ err bad_file_system
      | some f ↦ if non_zero (inter want f) then ok tt else err bad_file_system
    ]
    else ok tt
