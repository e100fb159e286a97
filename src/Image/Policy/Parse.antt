-- ===== src/Image/Policy/Parse.antt =====
-- internal/image/policy.go, parsing and normalising a policy.
pub mod FlagText
pub mod RuleList
pub mod PolicyText
pub mod FlagWords
use sysext_alpine.Base.{
  Bool, true, false, ◌||◌, List, [], ◌∷◌, ◌++◌, Option, none, some, Result, ok, err, ◌>>=◌, Bytes,
  codes, same, cut, split, join, trim_space, null, ◌==◌, if◌then◌else◌,
}
use sysext_alpine.Image.Designator.{
  Designator, designators, designator_name, designator_from_string, index,
}
use sysext_alpine.Image.Policy.Flags.{
  PolicyFlags, no_flags, union, single, pol_open, pol_ignore, absent, policy_flag_from_string,
  flags_string,
}

-- unix.EINVAL (a rule with no '='), EBADSLT (unknown designator), ENOTUNIQ (duplicate rule) and
-- EBADRQC (unknown flag).
pub data PolicyError : Type 0 where
  einval ebadslt enotuniq ebadrqc : PolicyError

-- `imagePolicy`
pub record Policy : Type 0 where
  pub rules : Designator → Option PolicyFlags
  pub def : PolicyFlags

abbrev pub no_rules : Designator → Option PolicyFlags
no_rules d = none

unfoldable pub parse_words : Bool → PolicyFlags → List Bytes → Result PolicyError PolicyFlags
parse_words graceful flags [] = ok flags
parse_words graceful flags (w ∷ ws) = elim (policy_flag_from_string (trim_space w)) [
  | some f ↦ parse_words graceful (union flags f) ws
  | none ↦ elim graceful [ true ↦ parse_words graceful flags ws | false ↦ err ebadrqc ]
]

unfoldable pub parse_policy_flags : Bytes → Bool → Result PolicyError PolicyFlags
parse_policy_flags s graceful =
    if null s || same s (codes "-")
    then ok no_flags
    else parse_words graceful no_flags (split b'+' s)

abbrev pub set_rule : Policy → Designator → PolicyFlags → Policy
set_rule p d f = record p { rules = λ e. if index d == index e then some f else p.rules e }

-- The loop's state: the policy so far and `defaultSet`.
abbrev pub ParseState : Type 0
ParseState = Policy × Bool

-- A rule with the empty designator.
abbrev parse_default : Bool → Bytes → ParseState → Result PolicyError ParseState
parse_default graceful flags (p, default_set) =
    if default_set
    then err enotuniq
    else (do f ← parse_policy_flags (trim_space flags) graceful; ok (record p { def = f }, true))

-- A rule with a known designator, which has the given rule so far.
add_rule :
    Bool → Option PolicyFlags → Designator → Bytes → ParseState → Result PolicyError ParseState
add_rule graceful (some f) d flags st = err enotuniq
add_rule graceful none d flags (p, default_set) =
    parse_policy_flags (trim_space flags) graceful >>= λ f. ok (set_rule p d f, default_set)

designator_rule : Bool → Option Designator → Bytes → ParseState → Result PolicyError ParseState
unfolding add_rule
designator_rule graceful none flags st = if graceful then ok st else err ebadslt
designator_rule graceful (some d) flags st = add_rule graceful (st.0.rules d) d flags st

-- The two sides of the '=' of a rule.
rule_sides : Bool → Option (Bytes × Bytes) → ParseState → Result PolicyError ParseState
unfolding designator_rule
rule_sides graceful none st = err einval
rule_sides graceful (some (name, flags)) st =
    if null (trim_space name)
    then parse_default graceful flags st
    else designator_rule graceful (designator_from_string (trim_space name)) flags st

unfoldable pub parse_rule : Bool → Bytes → ParseState → Result PolicyError ParseState
unfolding rule_sides
parse_rule graceful rule st = rule_sides graceful (cut b'=' rule) st

unfoldable pub parse_rules : Bool → List Bytes → ParseState → Result PolicyError Policy
parse_rules graceful [] st = ok st.0
parse_rules graceful (rule ∷ rest) st = parse_rule graceful rule st >>= parse_rules graceful rest

unfoldable pub parse_policy : Bytes → Bool → Result PolicyError Policy
parse_policy s graceful =
    if null s || same s (codes "-")
    then ok (record { rules = no_rules; def = pol_ignore })
    else if same s (codes "*")
    then ok (record { rules = no_rules; def = pol_open })
    else if same s (codes "~")
    then ok (record { rules = no_rules; def = single absent })
    else parse_rules graceful (split b':' s) (record { rules = no_rules; def = pol_ignore }, false)

abbrev pub parse_image_policy : Bytes → Result PolicyError Policy
parse_image_policy s = parse_policy s false

unfoldable pub validate_policy : Bytes → Result PolicyError Unit
validate_policy s = if null s then ok tt else (do p ← parse_image_policy s; ok tt)

-- The rule of a designator, if it has one, printed in front of `rest`.
unfoldable pub print_rule : Option PolicyFlags → Designator → List Bytes → List Bytes
print_rule none d rest = rest
print_rule (some f) d rest = (designator_name d ++ (b'=' ∷ flags_string f)) ∷ rest

-- The rules of the listed designators, printed.
unfoldable pub rule_words : Policy → List Designator → List Bytes
unfolding print_rule
rule_words p [] = []
rule_words p (d ∷ ds) = print_rule (p.rules d) d (rule_words p ds)

unfoldable pub policy_string : Policy → Bytes
policy_string p = join b':' ((b'=' ∷ flags_string p.def) ∷ rule_words p designators)

unfoldable pub normalize_policy : Bytes → Result PolicyError Bytes
normalize_policy s = if null s then ok [] else (do p ← parse_policy s true; ok (policy_string p))
