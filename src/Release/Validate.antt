-- ===== src/Release/Validate.antt =====
-- internal/release/release.go, `Validate`. A reason stands for the message that is logged.
pub mod Compatible
use sysext_alpine.Base.{
  Bool, true, false, not, ◌&&◌, List, [], ◌∷◌, Option, none, some, Bytes, codes, same, fields,
  contains, null, if◌then◌else◌,
}
use sysext_alpine.Release.Class.{Class, level_field, scope_field}

-- A `map[string]string`.
abbrev pub Fields : Type 0
Fields = List (Bytes × Bytes)

-- `v, present := f[k]`
unfoldable pub lookup : Bytes → Fields → Option Bytes
lookup k [] = none
lookup k ((j, v) ∷ f) = if same j k then some v else lookup k f

abbrev pub or_empty : Option Bytes → Bytes
or_empty none = []
or_empty (some v) = v

-- `f[k]`, empty when it is missing.
abbrev pub field : Fields → Bytes → Bytes
field f k = or_empty (lookup k f)

pub data Reason : Type 0 where
  no_release_data wrong_scope wrong_arch no_id any_os wrong_os rolling wrong_level : Reason
  no_version wrong_version version_matches : Reason

abbrev pub Verdict : Type 0
Verdict = Bool × Reason

abbrev pub scopes_or : Option Bytes → List Bytes
scopes_or none = codes "system" ∷ codes "portable" ∷ []
scopes_or (some v) = fields v

abbrev pub scopes : Class → Fields → List Bytes
scopes class ext = scopes_or (lookup (scope_field class) ext)

-- From `if hostVersion == "" && hostLevel == ""` on.
unfoldable pub compare_release_versions : Bytes → Bytes → Bytes → Bytes → Verdict
compare_release_versions host_version host_level ext_level ext_version =
    if null host_version && null host_level
    then (true, rolling)
    else if not (null host_level) && not (null ext_level)
    then (if same ext_level host_level then (true, version_matches) else (false, wrong_level))
    else if null host_version
    then (true, version_matches)
    else if null ext_version
    then (false, no_version)
    else if same ext_version host_version
    then (true, version_matches)
    else (false, wrong_version)

-- From `if extID == ""` on, with the verdict of the versions.
unfoldable pub compare_ids : Bytes → Bytes → List Bytes → Verdict → Verdict
compare_ids host_id ext_id id_like versions =
    if null ext_id
    then (false, no_id)
    else if same ext_id (codes "_any")
    then (true, any_os)
    else if not (same ext_id host_id) && not (contains id_like ext_id)
    then (false, wrong_os)
    else versions

-- The tests on the scope and the architecture, with the verdict of the rest.
unfoldable pub compare_targets : Bytes → List Bytes → Bytes → Bytes → Verdict → Verdict
compare_targets scope ext_scopes arch ext_arch rest =
    if not (null scope) && not (contains ext_scopes scope)
    then (false, wrong_scope)
    else if not (null ext_arch) && (not (same ext_arch (codes "_any")) && not (same ext_arch arch))
    then (false, wrong_arch)
    else rest

unfoldable pub check_version : Fields → Fields → Class → Verdict
check_version host ext class =
    compare_release_versions (field host (codes "VERSION_ID")) (field host (level_field class))
      (field ext (level_field class)) (field ext (codes "VERSION_ID"))

unfoldable pub check_id : Fields → Fields → Class → Verdict
check_id host ext class =
    compare_ids (field host (codes "ID")) (field ext (codes "ID"))
      (fields (field host (codes "ID_LIKE"))) (check_version host ext class)

unfoldable pub validate : Fields → Fields → Class → Bytes → Bytes → Verdict
validate host ext class arch scope =
    if null ext
    then (false, no_release_data)
    else compare_targets scope (scopes class ext) arch (field ext (codes "ARCHITECTURE"))
        (check_id host ext class)
