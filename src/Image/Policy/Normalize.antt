-- ===== src/Image/Policy/Normalize.antt =====
-- internal/image/policy.go, `NormalizePolicy`: what it prints, the strict parser reads.
use mathlib.Core.Option
use sysext_alpine.Base.{
  ℕ, zero, suc, ◌≡◌, refl, sym, ap, ap₂, ◌∙◌, Bool, true, false, ◌||◌, List, [], ◌∷◌, ◌++◌, Option,
  none, some, Result, ok, Bytes, same, ◌==◌, split, join, null, has_byte, All, all_bytes,
  all_bytes-append, all_bytes_mono, has_byte-all_bytes, split-join, >>=-eq-ok, fun_ext, arith,
}
use sysext_alpine.Image.Designator.{Designator, designators, designator_name}
use sysext_alpine.Image.Policy.Flags.{
  PolicyFlag, verity, read_only_on, read_only_off, grow_fs_on, grow_fs_off, PolicyFlags, pol_ignore,
  flags_string,
}
use sysext_alpine.Image.Policy.Parse.{
  PolicyError, Policy, no_rules, parse_rules, parse_policy, rule_words, print_rule, policy_string,
  normalize_policy,
}
use sysext_alpine.Image.Policy.Parse.FlagText.{kept}
use sysext_alpine.Image.Policy.Parse.FlagWords.{name_byte, text_byte, flags_string_text}
use sysext_alpine.Image.Policy.Parse.PolicyText.{designator_name_bytes, parse_rule-default}
use sysext_alpine.Image.Policy.Parse.RuleList.{parse-all_rules}
use sysext_alpine.Image.Policy.Decide.Extend.{extended_at, extend_lem}
use sysext_alpine.Image.Policy.Decide.{
  extend_policy_flags, normalize_policy_flags, explicit_or, or_default, from_data, get_from,
  exhaustive,
}

abbrev rule_byte : ℕ → Bool
rule_byte c = text_byte c || c == b'='

side_bytes : (f : PolicyFlags) → all_bytes rule_byte (b'=' ∷ flags_string f) ≡ true
side_bytes f =
    all_bytes_mono text_byte rule_byte (λ c h. ground arith) (flags_string f) (flags_string_text f)

rule_bytes :
    (d : Designator) (f : PolicyFlags)
    → all_bytes rule_byte (designator_name d ++ (b'=' ∷ flags_string f)) ≡ true
rule_bytes d f =
    all_bytes-append rule_byte (designator_name d) (b'=' ∷ flags_string f)
      (all_bytes_mono name_byte rule_byte (λ c h. ground arith) (designator_name d)
        (designator_name_bytes d))
      (side_bytes f)

no_colon-rule_words :
    (p : Policy) (ds : List Designator) → All (λ v. has_byte b':' v ≡ false) (rule_words p ds)
unfolding rule_words print_rule
no_colon-rule_words p [] = tt
no_colon-rule_words p (d ∷ ds) = go (p.rules d) (rule_words p ds) (no_colon-rule_words p ds)
  where
    go :
        (o : Option PolicyFlags) (rest : List Bytes)
        → All (λ v. has_byte b':' v ≡ false) rest
        → All (λ v. has_byte b':' v ≡ false) (print_rule o d rest)
    go none rest h = h
    go (some f) rest h = (has_byte-all_bytes rule_byte b':' _ refl (rule_bytes d f), h)

abbrev with_default : PolicyFlags → Policy
with_default f = record { rules = no_rules; def = f }

-- A text that starts with '=' is none of the special forms.
parse_policy-rules :
    (w : Bytes) (ws : List Bytes) (graceful : Bool)
    → parse_policy (join b':' ((b'=' ∷ w) ∷ ws)) graceful
      ≡ parse_rules graceful
          (split b':' (join b':' ((b'=' ∷ w) ∷ ws)))
          (with_default pol_ignore, false)
unfolding parse_policy join same
parse_policy-rules w [] graceful = refl
parse_policy-rules w (v ∷ ws) graceful = refl

-- What is printed parses to the policy with each flag set reduced to what its text keeps.
parse-policy_string :
    (p : Policy)
    → (r : Policy) × (parse_policy (policy_string p) false ≡ ok r)
      × (r.def ≡ kept p.def)
      × ((e : Designator) → r.rules e ≡ Option.map kept (p.rules e))
unfolding policy_string
parse-policy_string p =
    let (r, reads, def, rules) = parse-all_rules p (with_default (kept p.def)) (λ e. refl) in
    (
      r,
      parse_policy-rules (flags_string p.def) (rule_words p designators) false
          ∙ ap (λ l. parse_rules false l (with_default pol_ignore, false))
              (split-join b':' (b'=' ∷ flags_string p.def) (rule_words p designators)
                (has_byte-all_bytes rule_byte b':' _ refl (side_bytes p.def))
                (no_colon-rule_words p designators))
          ∙ (unfold parse_rules in rw (parse_rule-default (with_default pol_ignore) p.def) reads),
      def,
      rules,
    )

-- Dropping a pair of opposite flags loses nothing: an unset pair is filled again.
extended-kept : (f : PolicyFlags) (x : PolicyFlag) → extended_at (kept f) x ≡ extended_at f x
extended-kept f verity = refl
extended-kept f read_only_on = ground arith
extended-kept f read_only_off = ground arith
extended-kept f grow_fs_on = ground arith
extended-kept f grow_fs_off = ground arith
extended-kept f x = refl

extend-kept : (f : PolicyFlags) → extend_policy_flags (kept f) ≡ extend_policy_flags f
extend-kept f = fun_ext λ x. extend_lem (kept f) x ∙ extended-kept f x ∙ sym (extend_lem f x)

normalize-kept :
    (f : PolicyFlags) (d : Designator)
    → normalize_policy_flags (kept f) d ≡ normalize_policy_flags f d
unfolding normalize_policy_flags
normalize-kept f d = rw (extend-kept f)

get_from-suc :
    (fuel : ℕ) (p : Policy) (d : Designator)
    → get_from (suc fuel) p d ≡ explicit_or (p.rules d) d (from_data d (get_from fuel p))
unfolding get_from
get_from-suc fuel p d = refl

abbrev Agree : Policy → Policy → Type 0
Agree p q = (q.def ≡ kept p.def) × ((d : Designator) → q.rules d ≡ Option.map kept (p.rules d))

explicit_or-kept :
    (o : Option PolicyFlags) (d : Designator) (other : Option PolicyFlags)
    → explicit_or (Option.map kept o) d other ≡ explicit_or o d other
unfolding explicit_or
explicit_or-kept none d other = refl
explicit_or-kept (some f) d other = ap some (normalize-kept f d)

get_from-Agree :
    (fuel : ℕ) (p q : Policy) (d : Designator) → Agree p q → get_from fuel q d ≡ get_from fuel p d
get_from-Agree zero p q d h = unfold get_from in refl
get_from-Agree (suc fuel) p q d h =
    get_from-suc fuel q d
    ∙ ap₂ (λ o g. explicit_or o d (from_data d g)) (h.1 d)
        (fun_ext λ e. get_from-Agree fuel p q e h)
    ∙ explicit_or-kept (p.rules d) d (from_data d (get_from fuel p))
    ∙ sym (get_from-suc fuel p d)

or_default-kept :
    (o : Option PolicyFlags) (f : PolicyFlags) (d : Designator)
    → or_default o (kept f) d ≡ or_default o f d
unfolding or_default
or_default-kept none f d = normalize-kept f d
or_default-kept (some g) f d = refl

exhaustive_lem :
    (p : Policy) (d : Designator) → exhaustive p d ≡ or_default (get_from 2 p d) p.def d
unfolding exhaustive
exhaustive_lem p d = refl

exhaustive-Agree : (p q : Policy) (d : Designator) → Agree p q → exhaustive q d ≡ exhaustive p d
exhaustive-Agree p q d h =
    exhaustive_lem q d
    ∙ ap₂ (λ o f. or_default o f d) (get_from-Agree 2 p q d h) h.0
    ∙ or_default-kept (get_from 2 p d) p.def d
    ∙ sym (exhaustive_lem p d)

-- When a non-empty policy text is normalised, it parsed gracefully to some policy, the strict
-- parser accepts the result, and the policy it gives has the same decision flags for every
-- partition designator.
pub parse-normalize :
    (s t : Bytes)
    → null s ≡ false
    → normalize_policy s ≡ ok t
    → (p : Policy) × (q : Policy) × (parse_policy s true ≡ ok p)
      × (parse_policy t false ≡ ok q)
      × ((d : Designator) → exhaustive q d ≡ exhaustive p d)
unfolding normalize_policy
parse-normalize s t some_text h =
    let (p, parsed, printed) = >>=-eq-ok (parse_policy s true) _ (rw some_text at h) in
    let (q, reads, def, rules) = parse-policy_string p in
    (p, q, parsed, rw (← ok-injective printed) reads, λ d. exhaustive-Agree p q d (def, rules))
  where
    ok-injective : {a b : Bytes} → ◌≡◌ {A = Result PolicyError Bytes} (ok a) (ok b) → a ≡ b
    ok-injective e = cc
