-- ===== src/Command/CheckImage/Trees.antt =====
-- internal/release/lookup.go: CheckImageTree, as what it finds in the tree.
use sysext_alpine.Base.{
  ◌≡◌, ◌≢◌, refl, ◌↔◌, ◌⊎◌, inl, inr, Bool, true, false, [], ◌∷◌, Option, Result, ok, err, Bytes,
  null, if◌then◌else◌,
}
use sysext_alpine.Release.Class.{sysext, confext}
use sysext_alpine.Release.Lookup.{
  Tree, LookupError, has_forbidden_content, is_os_tree, is_extension_tree, or_else_try, unless_so,
  check_extension, check_image_tree,
}

-- A call that answers `b`, or answers the opposite and leaves it to the next call.
or_else_iff :
    (r next : Result LookupError Bool) {Q : Type 0}
    → (next ≡ ok true) ↔ Q
    → (or_else_try r next ≡ ok true) ↔ ((r ≡ ok true) ⊎ ((r ≡ ok false) × Q))
or_else_iff (err e) next q = (λ h. cc, λ h. elim h [ inl e ↦ cc | inr (e, r) ↦ cc ])
or_else_iff (ok true) next q = (λ h. inl refl, λ h. refl)
or_else_iff (ok false) next q =
    (λ h. inr (refl, q.0 h), λ h. elim h [ inl e ↦ cc | inr (e, r) ↦ q.1 r ])

unless_so_iff :
    (r next : Result LookupError Bool) {Q : Type 0}
    → (next ≡ ok true) ↔ Q
    → (unless_so r next ≡ ok true) ↔ ((r ≡ ok false) × Q)
unless_so_iff (err e) next q = (λ h. cc, λ (e, r). cc)
unless_so_iff (ok true) next q = (λ h. cc, λ (e, r). cc)
unless_so_iff (ok false) next q = (λ h. (refl, q.0 h), λ (e, r). q.1 r)

named_iff :
    (name : Bytes) (next : Result LookupError Bool) {Q : Type 0}
    → (next ≡ ok true) ↔ Q
    → ((if null name then ok false else next) ≡ ok true) ↔ ((name ≢ []) × Q)
named_iff [] next q = (λ h. cc, λ (e, r). absurd (e refl))
named_iff (c ∷ s) next q = (λ h. (λ e. cc, q.0 h), λ (e, r). q.1 r)

module _ (T : Tree) (tree name : Bytes) where
  -- A name, no OS identity of its own, and a release file of one of the two classes.
  abbrev pub HoldsExtension : Type 0
  HoldsExtension =
      (name ≢ [])
      × (has_forbidden_content T tree ≡ ok false)
      × ((is_extension_tree T tree name sysext false ≡ ok true)
          ⊎ ((is_extension_tree T tree name sysext false ≡ ok false)
              × (is_extension_tree T tree name confext false ≡ ok true)))

  check_extension_iff : (check_extension T tree name ≡ ok true) ↔ HoldsExtension
  unfolding check_extension
  check_extension_iff =
      let either =
        or_else_iff (is_extension_tree T tree name sysext false)
          (is_extension_tree T tree name confext false) (λ h. h, λ h. h) in
      let all =
        named_iff name
          (unless_so (has_forbidden_content T tree) (
            or_else_try (is_extension_tree T tree name sysext false)
              (is_extension_tree T tree name confext false)))
          (unless_so_iff (has_forbidden_content T tree)
            (or_else_try (is_extension_tree T tree name sysext false)
              (is_extension_tree T tree name confext false))
            either) in
      (λ h. let (n, (f, e)) = all.0 h in (n, f, e), λ (n, f, e). all.1 (n, (f, e)))

  pub check_image_tree_iff :
      (env : Option Bytes)
      → (check_image_tree T env tree name true ≡ ok true) ↔ (
          (is_os_tree T env tree ≡ ok true) ⊎ ((is_os_tree T env tree ≡ ok false) × HoldsExtension))
  unfolding check_image_tree
  check_image_tree_iff env =
      or_else_iff (is_os_tree T env tree) (check_extension T tree name) check_extension_iff

  pub mounted_iff :
      (env : Option Bytes) → (check_image_tree T env tree name false ≡ ok true) ↔ HoldsExtension
  unfolding check_image_tree
  mounted_iff env = check_extension_iff
