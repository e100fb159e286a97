-- ===== src/Release/Validate/Compatible.antt =====
-- internal/release/release.go: when an extension may be merged, without the order of the tests.
use sysext_alpine.Base.{
  ◌≡◌, refl, ◌≢◌, ◌↔◌, ◌⊎◌, inl, inr, true, List, [], ◌∷◌, Bytes, codes, same_iff, fields, contains,
  null, arith,
}
use sysext_alpine.Release.Class.{Class, level_field}
use sysext_alpine.Release.Validate.{
  Fields, field, scopes, compare_release_versions, compare_ids, compare_targets, check_version,
  check_id, validate, Verdict,
}

abbrev pub Among : Bytes → List Bytes → Type 0
Among x [] = ⊥
Among x (w ∷ ws) = (w ≡ x) ⊎ Among x ws

contains_iff : (ws : List Bytes) (x : Bytes) → (contains ws x ≡ true) ↔ Among x ws
unfolding contains
contains_iff [] x = (λ h. cc, λ h. absurd h)
contains_iff (w ∷ ws) x = (
  λ h. ground (arith, same_iff w x, contains_iff ws x),
  λ h. ground (arith, same_iff w x, contains_iff ws x),
)

null_iff {ℓ} : {A : Type ℓ} (s : List A) → (null s ≡ true) ↔ (s ≡ [])
null_iff [] = (λ h. refl, λ h. refl)
null_iff (c ∷ s) = (λ h. cc, λ h. cc)

-- The levels are compared when both sides have one, else the versions when the host has one.
abbrev pub VersionFits : Fields → Fields → Class → Type 0
VersionFits host ext class =
    let host_version = field host (codes "VERSION_ID") in
    let host_level = field host (level_field class) in
    let ext_level = field ext (level_field class) in
    let ext_version = field ext (codes "VERSION_ID") in
    ((host_level ≢ []) × (ext_level ≡ host_level))
    ⊎ (((host_level ≡ []) ⊎ (ext_level ≡ []))
        × ((host_version ≡ []) ⊎ (ext_version ≡ host_version)))

abbrev pub IdFits : Fields → Fields → Class → Type 0
IdFits host ext class =
    let host_id = field host (codes "ID") in
    let ext_id = field ext (codes "ID") in
    (ext_id ≡ codes "_any")
    ⊎ ((ext_id ≢ [])
        × ((ext_id ≡ host_id) ⊎ Among ext_id (fields (field host (codes "ID_LIKE"))))
        × VersionFits host ext class)

pub record IsCompatible (host ext : Fields) (class : Class) (arch scope : Bytes) : Type 0 where
  pub has_data : ext ≢ []
  pub scope_fits : (scope ≡ []) ⊎ Among scope (scopes class ext)
  pub arch_fits :
      (field ext (codes "ARCHITECTURE") ≡ [])
      ⊎ ((field ext (codes "ARCHITECTURE") ≡ codes "_any")
          ⊎ (field ext (codes "ARCHITECTURE") ≡ arch))
  pub id_fits : IdFits host ext class

compare_release_versions_iff :
    (hv hl el ev : Bytes)
    → ((compare_release_versions hv hl el ev).0 ≡ true)
      ↔ (((hl ≢ []) × (el ≡ hl)) ⊎ (((hl ≡ []) ⊎ (el ≡ [])) × ((hv ≡ []) ⊎ (ev ≡ hv))))
unfolding compare_release_versions
compare_release_versions_iff hv hl el ev = (
  λ h.
      ground
        (arith, null_iff hv, null_iff hl, null_iff el, null_iff ev, same_iff el hl, same_iff ev hv),
  λ h.
      ground
        (arith, null_iff hv, null_iff hl, null_iff el, null_iff ev, same_iff el hl, same_iff ev hv),
)

compare_ids_iff :
    (host_id ext_id : Bytes) (like : List Bytes) (versions : Verdict)
    → ((compare_ids host_id ext_id like versions).0 ≡ true) ↔ (
        (ext_id ≡ codes "_any")
        ⊎ ((ext_id ≢ []) × ((ext_id ≡ host_id) ⊎ Among ext_id like) × (versions.0 ≡ true)))
unfolding compare_ids
compare_ids_iff host_id ext_id like versions = (
  λ h. ground (
    arith,
    null_iff ext_id,
    same_iff ext_id (codes "_any"),
    same_iff ext_id host_id,
    contains_iff like ext_id,
  ),
  λ h. ground (
    arith,
    null_iff ext_id,
    same_iff ext_id (codes "_any"),
    same_iff ext_id host_id,
    contains_iff like ext_id,
  ),
)

compare_targets_iff :
    (scope : Bytes) (ext_scopes : List Bytes) (arch ext_arch : Bytes) (rest : Verdict)
    → ((compare_targets scope ext_scopes arch ext_arch rest).0 ≡ true) ↔ (
        ((scope ≡ []) ⊎ Among scope ext_scopes)
        × ((ext_arch ≡ []) ⊎ ((ext_arch ≡ codes "_any") ⊎ (ext_arch ≡ arch)))
        × (rest.0 ≡ true))
unfolding compare_targets
compare_targets_iff scope ext_scopes arch ext_arch rest = (
  λ h. ground (
    arith,
    null_iff scope,
    null_iff ext_arch,
    contains_iff ext_scopes scope,
    same_iff ext_arch (codes "_any"),
    same_iff ext_arch arch,
  ),
  λ h. ground (
    arith,
    null_iff scope,
    null_iff ext_arch,
    contains_iff ext_scopes scope,
    same_iff ext_arch (codes "_any"),
    same_iff ext_arch arch,
  ),
)

check_id_iff :
    (host ext : Fields) (class : Class)
    → ((check_id host ext class).0 ≡ true) ↔ IdFits host ext class
unfolding check_id check_version
check_id_iff host ext class =
    let ids =
      compare_ids_iff (field host (codes "ID")) (field ext (codes "ID"))
        (fields (field host (codes "ID_LIKE"))) (check_version host ext class) in
    let versions =
      compare_release_versions_iff (field host (codes "VERSION_ID"))
        (field host (level_field class)) (field ext (level_field class))
        (field ext (codes "VERSION_ID")) in
    (λ h. inl_or (ids.0 h) versions.0, λ h. ids.1 (inl_or h versions.1))
  where
    inl_or : {A B C D E : Type 0} → A ⊎ (B × C × D) → (D → E) → A ⊎ (B × C × E)
    inl_or (inl a) f = inl a
    inl_or (inr (b, c, d)) f = inr (b, c, f d)

-- `Validate` accepts an extension exactly when it carries release data, its scopes and its
-- architecture fit the host's, and its ID is '_any', or names the host's OS or one that the host is
-- like with API levels or versions that fit.
pub validate_iff :
    (host ext : Fields) (class : Class) (arch scope : Bytes)
    → ((validate host ext class arch scope).0 ≡ true) ↔ IsCompatible host ext class arch scope
unfolding validate
validate_iff host [] class arch scope = (λ h. cc, λ h. absurd (h.has_data refl))
validate_iff host (e ∷ es) class arch scope =
    let ext = e ∷ es in
    let targets =
      compare_targets_iff scope (scopes class ext) arch (field ext (codes "ARCHITECTURE"))
        (check_id host ext class) in
    let ids = check_id_iff host ext class in
    (
      λ h.
          let (s, a, i) = targets.0 h in
          record { has_data = λ p. cc; scope_fits = s; arch_fits = a; id_fits = ids.0 i },
      λ h. targets.1 (h.scope_fits, h.arch_fits, ids.1 h.id_fits),
    )
