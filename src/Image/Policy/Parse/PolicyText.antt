-- ===== src/Image/Policy/Parse/PolicyText.antt =====
-- internal/image/policy.go: the text of a policy parses to a policy with the rules that it prints.
use sysext_alpine.Base.{
  ◌≡◌, refl, Bool, true, false, ◌∷◌, ◌++◌, none, some, ok, null, cut, trim_space, all_bytes,
  all_bytes_mono, has_byte-all_bytes, cut-append, graphic, trim_space-graphic, arith,
}
use sysext_alpine.Image.Designator.{Designator, root, designator_name, designator_from_string}
use sysext_alpine.Image.Policy.Flags.{PolicyFlags, flags_string}
use sysext_alpine.Image.Policy.Parse.{Policy, set_rule, parse_rule}
use sysext_alpine.Image.Policy.Parse.FlagText.{kept}
use sysext_alpine.Image.Policy.Parse.FlagWords.{
  name_byte, text_byte, flags_string_text, parse-flags_string,
}

abbrev NameFacts : Designator → Type 0
NameFacts d =
    (trim_space (designator_name d) ≡ designator_name d)
    × (null (designator_name d) ≡ false)
    × (designator_from_string (designator_name d) ≡ some d)
    × (all_bytes name_byte (designator_name d) ≡ true)

designator_facts : (d : Designator) → NameFacts d
unfolding trim_space designator_name designator_from_string
designator_facts root = (refl, refl, refl, refl)
designator_facts d = (refl, refl, refl, refl)

pub designator_name_bytes : (d : Designator) → all_bytes name_byte (designator_name d) ≡ true
designator_name_bytes d = (designator_facts d).3

trim-flags_string : (f : PolicyFlags) → trim_space (flags_string f) ≡ flags_string f
trim-flags_string f =
    trim_space-graphic (flags_string f) (
      all_bytes_mono text_byte graphic (λ c h. ground arith) (flags_string f) (flags_string_text f))

-- A printed rule sets the rule that it was printed from.
pub parse_rule-printed :
    (p : Policy) (d : Designator) (f : PolicyFlags) (default_set : Bool)
    → p.rules d ≡ none
    → parse_rule false (designator_name d ++ (b'=' ∷ flags_string f)) (p, default_set)
      ≡ ok (set_rule p d (kept f), default_set)
unfolding parse_rule
parse_rule-printed p d f default_set h =
    let (trims, not_null, reads, bytes) = designator_facts d in
    rw (
      cut-append b'=' (designator_name d) (flags_string f)
          (has_byte-all_bytes name_byte b'=' (designator_name d) refl bytes),
      trims,
      not_null,
      reads,
      h,
      trim-flags_string f,
      parse-flags_string f false,
    )

pub parse_rule-default :
    (p : Policy) (f : PolicyFlags)
    → parse_rule false (b'=' ∷ flags_string f) (p, false) ≡ ok (record p { def = kept f }, true)
unfolding parse_rule cut trim_space
parse_rule-default p f = rw (trim-flags_string f, parse-flags_string f false)
