-- ===== src/Config/Assign/Known.antt =====
-- internal/config/config.go: what a line can leave in the configuration.
use sysext_alpine.Base.{
  ℕ, ◌≡◌, refl, sym, ◌⊎◌, inl, inr, Bool, true, false, not, [], ◌∷◌, Option, none, some, Bytes,
  codes, same, ◌==◌, null, cut, contains, has_prefix, Bool-cases, if◌then◌else◌,
}
use sysext_alpine.Release.Names.{valid_utf8}
use sysext_alpine.Release.EnvFile.{parse_boolean}
use sysext_alpine.Config.{Config, Errno, mutable_modes, named_mode, parse_mutable}
use sysext_alpine.Config.Assign.{
  FileParser, Parsed, refusal, trim_blank, assign, set_mutable, set_policy, enter, parse_header,
  parse_assignment, parse_trimmed, parse_line, before_bracket, section_name_is_safe,
}

named_mode-mutable_modes :
    (s : Bytes) (b : Option Bool) {m : Bytes}
    → named_mode s b ≡ some m
    → contains mutable_modes m ≡ true
unfolding contains same
named_mode-mutable_modes s (some true) {m} e = let q : codes "yes" ≡ m = cc in rw (sym q) refl
named_mode-mutable_modes s (some false) {m} e = let q : codes "no" ≡ m = cc in rw (sym q) refl
named_mode-mutable_modes s none {m} e = elim (Bool-cases (contains mutable_modes s)) [
  | inl t ↦ kept_mode t (rw t at e)
  | inr t ↦ no_mode (rw t at e)
]
  where
    kept_mode : contains mutable_modes s ≡ true → some s ≡ some m → contains mutable_modes m ≡ true
    kept_mode t h = cc

    no_mode : none ≡ some m → contains mutable_modes m ≡ true
    no_mode h = cc

-- What a configuration holds: no mode or one of the six, and no policy or one that is not refused.
abbrev pub IsKnown : Option (Bytes → Option Errno) → Config → Type 0
IsKnown v c =
    ((c.mutable_mode ≡ []) ⊎ (contains mutable_modes c.mutable_mode ≡ true))
    × ((c.image_policy ≡ []) ⊎ (refusal v [] [] c.image_policy ≡ none))

module _ (v : Option (Bytes → Option Errno)) (own_section name : Bytes) where
  abbrev pub Leaves : Parsed → Type 0
  Leaves r = IsKnown v r.0.cfg

  set_mutable-IsKnown :
      (line : ℕ) (value : Bytes) (o : Option Bytes) (p : FileParser)
      → ((m : Bytes) → o ≡ some m → contains mutable_modes m ≡ true)
      → IsKnown v p.cfg
      → Leaves (set_mutable v own_section name line value o p)
  set_mutable-IsKnown line value none p h k = k
  set_mutable-IsKnown line value (some m) p h (a, b) = (inr (h m refl), b)

  set_policy-IsKnown :
      (line : ℕ) (value : Bytes) (o : Option Errno) (p : FileParser)
      → refusal v own_section name value ≡ o
      → IsKnown v p.cfg
      → Leaves (set_policy v own_section name line value o p)
  set_policy-IsKnown line value none p e (a, b) = (a, inr e)
  set_policy-IsKnown line value (some x) p e k = k

  if-Leaves : (b : Bool) (x y : Parsed) → Leaves x → Leaves y → Leaves (if b then x else y)
  if-Leaves true x y hx hy = hx
  if-Leaves false x y hx hy = hy

  assign-IsKnown :
      (line : ℕ) (key value : Bytes) (p : FileParser)
      → IsKnown v p.cfg
      → Leaves (assign v own_section name line key value p)
  unfolding assign parse_mutable
  assign-IsKnown line key value p k =
      if-Leaves (same key (codes "Mutable")) _ _
        (set_mutable-IsKnown line value _ p
          (λ m. named_mode-mutable_modes value (parse_boolean value)) k)
        (if-Leaves (same key (codes "ImagePolicy")) _ _
          (if-Leaves (null value) _ _ (k.0, inl refl) (set_policy-IsKnown line value _ p refl k))
          (if-Leaves (has_prefix (codes "X-") key) _ _ k k))

  if-IsKnown :
      (b : Bool) (x y : FileParser)
      → IsKnown v x.cfg
      → IsKnown v y.cfg
      → IsKnown v (if b then x else y).cfg
  if-IsKnown true x y hx hy = hx
  if-IsKnown false x y hx hy = hy

  enter-IsKnown :
      (line : ℕ) (n : Bytes) (p : FileParser)
      → IsKnown v p.cfg
      → IsKnown v (enter v own_section name line n p).cfg
  enter-IsKnown line n p k =
      if-IsKnown (same n own_section) _ _ k (if-IsKnown (has_prefix (codes "X-") n) _ _ k k)

  parse_header-IsKnown :
      (line : ℕ) (header : Bytes) (o : Option Bytes) (p : FileParser)
      → IsKnown v p.cfg
      → Leaves (parse_header v own_section name line header o p)
  parse_header-IsKnown line header none p k = k
  parse_header-IsKnown line header (some n) p k =
      if-Leaves (section_name_is_safe n) _ _ (enter-IsKnown line n p k) k

  parse_assignment-IsKnown :
      (line : ℕ) (o : Option (Bytes × Bytes)) (p : FileParser)
      → IsKnown v p.cfg
      → Leaves (parse_assignment v own_section name line o p)
  parse_assignment-IsKnown line none p k = k
  parse_assignment-IsKnown line (some ([], value)) p k = k
  parse_assignment-IsKnown line (some (c ∷ key, value)) p k =
      assign-IsKnown line (trim_blank (c ∷ key)) (trim_blank value) p k

  parse_trimmed-IsKnown :
      (line : ℕ) (l : Bytes) (p : FileParser)
      → IsKnown v p.cfg
      → Leaves (parse_trimmed v own_section name line l p)
  parse_trimmed-IsKnown line [] p k = k
  parse_trimmed-IsKnown line (c ∷ s) p k = if-Leaves (not (valid_utf8 (c ∷ s))) _ _ k (
      if-Leaves (c == b'[') _ _ (parse_header-IsKnown line (c ∷ s) (before_bracket s) p k) (
        if-Leaves p.in_section _ _ (parse_assignment-IsKnown line (cut b'=' (c ∷ s)) p k)
          (if-Leaves p.section_ignored _ _ k k)))

  -- Every line leaves the configuration known, whatever it holds and whether it is refused or not.
  pub parse_line-IsKnown :
      (line : ℕ) (l : Bytes) (p : FileParser)
      → IsKnown v p.cfg
      → Leaves (parse_line v own_section name line l p)
  unfolding parse_line
  parse_line-IsKnown line l p k = parse_trimmed-IsKnown line (trim_blank l) p k
