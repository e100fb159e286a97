-- ===== src/Image/Policy/Parse/RuleList.antt =====
-- internal/image/policy.go: the printed rules, parsed one after the other.
use mathlib.Core.Option
use sysext_alpine.Base.{
  ℕ, ◌<◌, ◌≡◌, refl, ap, ◌∙◌, inl, inr, Bool, true, false, ◌||◌, List, [], ◌∷◌, Option, none, some,
  ok, ◌==◌, if◌then◌else◌, Bool-cases, Option-cases, All, any, get_elem?, arith,
}
use sysext_alpine.Image.Designator.{Designator, root, designators, index}
use sysext_alpine.Image.Policy.Flags.{PolicyFlags}
use sysext_alpine.Image.Policy.Parse.{Policy, set_rule, parse_rules, rule_words}
use sysext_alpine.Image.Policy.Parse.FlagText.{kept}
use sysext_alpine.Image.Policy.Parse.PolicyText.{parse_rule-printed}

designator_at : (d : Designator) → get_elem? designators (index d) ≡ some d
designator_at root = refl
designator_at d = refl

index-injective : (d e : Designator) → (index d == index e) ≡ true → d ≡ e
index-injective d e h = cc (
  designator_at d,
  designator_at e,
  ap (get_elem? designators) (same_index (index d) (index e) h),
)
  where
    same_index : (a b : ℕ) → (a == b) ≡ true → a ≡ b
    same_index a b p = ground arith

abbrev Ascending : List Designator → Type 0
Ascending [] = Unit
Ascending (d ∷ ds) = All (λ e. index d < index e) ds × Ascending ds

abbrev listed : Designator → List Designator → Bool
listed e ds = any (λ d. index d == index e) ds

abbrev Unset : Policy → List Designator → Type 0
Unset q ds = All (λ e. q.rules e ≡ none) ds

Unset-set_rule :
    (q : Policy) (d : Designator) (f : PolicyFlags) (ds : List Designator)
    → All (λ e. index d < index e) ds
    → Unset q ds
    → Unset (set_rule q d f) ds
Unset-set_rule q d f [] a u = tt
Unset-set_rule q d f (e ∷ ds) (lt, a) (h, u) =
    (go (index d) (index e) lt, Unset-set_rule q d f ds a u)
  where
    go : (i j : ℕ) → i < j → (if i == j then some f else q.rules e) ≡ none
    go i j p = ground arith

-- The rules after the printed rules of `ds` were read on top of `q`.
abbrev merged : Policy → Policy → List Designator → Designator → Option PolicyFlags
merged p q ds e = if listed e ds then Option.map kept (p.rules e) else q.rules e

merged-none :
    (p q : Policy) (d : Designator) (ds : List Designator) (e : Designator)
    → p.rules d ≡ none
    → q.rules d ≡ none
    → merged p q ds e ≡ merged p q (d ∷ ds) e
merged-none p q d ds e hp hq = elim (Bool-cases (index d == index e)) [
  | inl i ↦ go (listed e ds) (index-injective d e i) i
  | inr i ↦ rw i
]
  where
    go :
        (b : Bool)
        → d ≡ e
        → (index d == index e) ≡ true
        → (if b then Option.map kept (p.rules e) else q.rules e)
          ≡ (if (index d == index e) || b then Option.map kept (p.rules e) else q.rules e)
    go true de i = rw i
    go false de i = rw i (rw (← de) (rw (hp, hq)))

merged-some :
    (p q : Policy) (d : Designator) (f : PolicyFlags) (ds : List Designator) (e : Designator)
    → p.rules d ≡ some f
    → merged p (set_rule q d (kept f)) ds e ≡ merged p q (d ∷ ds) e
merged-some p q d f ds e hp = elim (Bool-cases (index d == index e)) [
  | inl i ↦ go (listed e ds) (index-injective d e i) i
  | inr i ↦ rw i
]
  where
    go :
        (b : Bool)
        → d ≡ e
        → (index d == index e) ≡ true
        → (if b
            then Option.map kept (p.rules e)
            else (if index d == index e then some (kept f) else q.rules e))
          ≡ (if (index d == index e) || b then Option.map kept (p.rules e) else q.rules e)
    go true de i = rw i
    go false de i = rw i (rw (← de) (rw hp))

-- Reading the printed rules of `ds` gives each of those designators its kept rule.
parse-rule_words :
    (p : Policy) (ds : List Designator) (q : Policy) (default_set : Bool)
    → Ascending ds
    → Unset q ds
    → (r : Policy) × (parse_rules false (rule_words p ds) (q, default_set) ≡ ok r)
      × (r.def ≡ q.def)
      × ((e : Designator) → r.rules e ≡ merged p q ds e)
unfolding parse_rules rule_words
parse-rule_words p [] q default_set a u = (q, refl, refl, λ e. refl)
parse-rule_words p (d ∷ ds) q default_set (a, asc) (h, u) = elim (Option-cases (p.rules d)) [
  | inl no_rule ↦
      let (r, reads, def, rules) = parse-rule_words p ds q default_set asc u in
      (r, rw no_rule reads, def, λ e. rules e ∙ merged-none p q d ds e no_rule h)
  | inr (f, rule) ↦
      let (r, reads, def, rules) =
        parse-rule_words p ds (set_rule q d (kept f)) default_set asc
          (Unset-set_rule q d (kept f) ds a u) in
      (
        r,
        rw rule (rw (parse_rule-printed q d f default_set h) reads),
        def,
        λ e. rules e ∙ merged-some p q d f ds e rule,
      )
]

designators-Ascending : Ascending designators
designators-Ascending = omega arith

listed_all : (e : Designator) → listed e designators ≡ true
listed_all root = refl
listed_all e = refl

-- All designators at once.
pub parse-all_rules :
    (p q : Policy)
    → ((e : Designator) → q.rules e ≡ none)
    → (r : Policy) × (parse_rules false (rule_words p designators) (q, true) ≡ ok r)
      × (r.def ≡ q.def)
      × ((e : Designator) → r.rules e ≡ Option.map kept (p.rules e))
parse-all_rules p q h =
    let (r, reads, def, rules) = parse-rule_words p designators q true designators-Ascending (
      h _,
      (h _, (h _, (h _, (h _, (h _, (h _, (h _, (h _, (h _, (h _, (h _, (h _, tt)))))))))))),
    ) in
    (
      r,
      reads,
      def,
      λ e. rules e ∙ ap (λ b. if b then Option.map kept (p.rules e) else q.rules e) (listed_all e),
    )
