-- ===== src/Service/Units.antt =====
-- internal/service/units.go: unit names and the actions that extensions ask for.
pub mod Actions
use sysext_alpine.Base.{
  ℕ, suc, ◌+◌, Bool, true, false, not, ◌&&◌, ◌||◌, List, [], ◌∷◌, ◌++◌, Option, none, some, Bytes,
  codes, same, Sign, less, equal, greater, compare_bytes, cut, cut_last, cut_suffix, fields,
  trim_space, contains, leb, ltb, ◌==◌, length, null, all_bytes, if◌then◌else◌,
}
use sysext_alpine.Release.Validate.{Fields, field}
use sysext_alpine.Release.EnvFile.{parse_boolean}

abbrev unit_types : List Bytes
unit_types =
    codes "service"
    ∷ codes "socket"
    ∷ codes "target"
    ∷ codes "device"
    ∷ codes "mount"
    ∷ codes "automount"
    ∷ codes "swap"
    ∷ codes "timer"
    ∷ codes "path"
    ∷ codes "slice"
    ∷ codes "scope"
    ∷ []

abbrev pub valid_unit_char : ℕ → Bool
valid_unit_char c =
    (leb b'a' c && leb c b'z')
    || (leb b'A' c && leb c b'Z')
    || (leb b'0' c && leb c b'9')
    || c == b'@'
    || c == b':'
    || c == b'-'
    || c == b'_'
    || c == b'.'
    || c == 92

-- The switch on the position of the first '@' in the name before the type.
unfoldable pub instance_is_valid : Option (Bytes × Bytes) → Bool
instance_is_valid none = true
instance_is_valid (some (before, after)) = not (null before) && not (null after)

abbrev stem_is_valid : Bytes → Bool
stem_is_valid stem = all_bytes valid_unit_char stem && instance_is_valid (cut b'@' stem)

-- The name before the last '.' and the unit's type after it.
abbrev unit_is_valid : Option (Bytes × Bytes) → Bool
unit_is_valid none = false
unit_is_valid (some (stem, kind)) =
    not (null stem) && contains unit_types kind && stem_is_valid stem

unfoldable pub unit_name_is_valid : Bytes → Bool
unit_name_is_valid n =
    if null n || leb 256 (length n) then false else unit_is_valid (cut_last b'.' n)

abbrev joined_service : Bytes → Option (Bytes × Bytes) → Bytes
joined_service stem none = stem
joined_service stem (some (prefix, inst)) = prefix ++ (b'.' ∷ inst)

-- `none` for a unit that has no OpenRC service.
unfoldable pub service_name : Bytes → Option Bytes
service_name unit = elim (cut_suffix (codes ".service") unit) [
  | none ↦ none
  | some stem ↦ if null stem then none else some (joined_service stem (cut b'@' stem))
]

-- `Extension`
pub record Extension : Type 0 where
  pub ext_name : Bytes
  pub ext_fields : Fields

-- The warnings, by what they are about: the extension, and the unit and the field.
pub data Warning : Type 0 where
  bad_reload : Bytes → Warning
  bad_unit : Bytes → Bytes → Bytes → Warning

-- A set of strings, kept sorted as `sortedKeys` returns it.
unfoldable pub insert_key : Bytes → List Bytes → List Bytes
insert_key k [] = k ∷ []
insert_key k (j ∷ ks) =
    let rest = insert_key k ks in
    elim (compare_bytes k j) [ less ↦ k ∷ j ∷ ks | equal ↦ j ∷ ks | greater ↦ j ∷ rest ]

-- `delete` of every key of the first set.
unfoldable pub without : List Bytes → List Bytes → List Bytes
without gone [] = []
without gone (k ∷ ks) = let rest = without gone ks in if contains gone k then rest else k ∷ rest

-- The variables of `CollectActions`; the newest warning stands first.
pub record Collected : Type 0 where
  pub reload : Bool
  pub to_restart : List Bytes
  pub to_reload : List Bytes
  pub warnings : List Warning

abbrev pub nothing_collected : Collected
nothing_collected = record { reload = false; to_restart = []; to_reload = []; warnings = [] }

-- The two unit fields.
pub data UnitField : Type 0 where
  restart_units reload_or_restart_units : UnitField

abbrev pub unit_field_name : UnitField → Bytes
unit_field_name restart_units = codes "EXTENSION_RESTART_UNITS"
unit_field_name reload_or_restart_units = codes "EXTENSION_RELOAD_OR_RESTART_UNITS"

abbrev pub warn : Warning → Collected → Collected
warn w a = record a { warnings = w ∷ a.warnings }

abbrev pub add_unit : UnitField → Bytes → Collected → Collected
add_unit restart_units u a = record a { to_restart = insert_key u a.to_restart }
add_unit reload_or_restart_units u a = record a { to_reload = insert_key u a.to_reload }

unfoldable pub take_units : Bytes → UnitField → List Bytes → Collected → Collected
take_units name f [] a = a
take_units name f (u ∷ us) a =
    take_units name f us (
      if unit_name_is_valid u then add_unit f u a else warn (bad_unit u (unit_field_name f) name) a)

unfoldable pub take_field : Extension → UnitField → Collected → Collected
take_field ext f a =
    let v = field ext.ext_fields (unit_field_name f) in
    if null (trim_space v)
    then a
    else take_units ext.ext_name f (fields v) (record a { reload = true })

abbrev pub reload_of : Bytes → Option Bool → Collected → Collected
reload_of name none a = warn (bad_reload name) a
reload_of name (some true) a = record a { reload = true }
reload_of name (some false) a = a

unfoldable pub take_reload : Extension → Collected → Collected
take_reload ext a =
    let v = field ext.ext_fields (codes "EXTENSION_RELOAD_MANAGER") in
    if null v then a else reload_of ext.ext_name (parse_boolean v) a

unfoldable pub collect_from : List Extension → Collected → Collected
collect_from [] a = a
collect_from (ext ∷ exts) a =
    collect_from exts
      (take_field ext reload_or_restart_units (take_field ext restart_units (take_reload ext a)))

-- `CollectActions`: `to_restart` and `to_reload` are Restart and ReloadOrRestart of `Actions`.
unfoldable pub collect_actions : List Extension → Collected
collect_actions exts =
    let a = collect_from exts nothing_collected in
    record a { to_reload = without a.to_restart a.to_reload }

-- `Actions.Empty`
unfoldable pub is_empty : Collected → Bool
is_empty a = not a.reload && null a.to_restart && null a.to_reload
