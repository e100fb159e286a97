-- ===== src/Config.antt =====
-- internal/config/config.go: the options of sysext.conf and confext.conf, and what is logged while
-- they are read. The message texts are values of `Warning`; each names the file that it is about.
pub mod Lines
pub mod Assign
pub mod File
pub mod Load
use sysext_alpine.Base.{
  ℕ, Bool, true, false, List, [], ◌∷◌, Option, none, some, Bytes, codes, contains, if◌then◌else◌,
}
use sysext_alpine.Release.Class.{Class, sysext, confext}
use sysext_alpine.Release.EnvFile.{parse_boolean}

-- `Config`
pub record Config : Type 0 where
  pub mutable_mode : Bytes
  pub image_policy : Bytes

abbrev pub no_config : Config
no_config = record { mutable_mode = []; image_policy = [] }

-- ENOENT, EINVAL, EBADMSG, ENOBUFS, ENOTUNIQ, EBADSLT, EBADRQC, EISDIR, EBADFD, ENOTDIR, and any other.
pub data Errno : Type 0 where
  enoent einval ebadmsg enobufs enotuniq ebadslt ebadrqc eisdir ebadfd enotdir other : Errno

pub data Warning : Type 0 where
  failed_to_parse_config : Errno → Warning
  failed_to_open_root : Bytes → Errno → Warning
  failed_to_open : Bytes → Errno → Warning
  failed_to_open_dir failed_to_chase : Bytes → Errno → Warning
  marked_executable marked_world_writable : Bytes → Warning
  line_too_long continuation_too_long : Bytes → ℕ → Warning
  failed_to_parse : Bytes → ℕ → Errno → Warning
  not_utf8 invalid_section_header unsafe_section_header unknown_section :
      Bytes → ℕ → Bytes → Warning
  outside_section missing_equals missing_key : Bytes → ℕ → Warning
  bad_mutable : Bytes → ℕ → Bytes → Warning
  refused_policy : Bytes → ℕ → Errno → Bytes → Warning
  unknown_key : Bytes → ℕ → Bytes → Bytes → Warning

unfoldable pub short_identifier : Class → Bytes
short_identifier confext = codes "confext"
short_identifier sysext = codes "sysext"

unfoldable pub section_name : Class → Bytes
section_name confext = codes "ConfExt"
section_name sysext = codes "SysExt"

abbrev pub mutable_modes : List Bytes
mutable_modes =
    codes "no"
    ∷ codes "yes"
    ∷ codes "auto"
    ∷ codes "import"
    ∷ codes "ephemeral"
    ∷ codes "ephemeral-import"
    ∷ []

abbrev pub named_mode : Bytes → Option Bool → Option Bytes
named_mode s (some b) = some (if b then codes "yes" else codes "no")
named_mode s none = if contains mutable_modes s then some s else none

unfoldable pub parse_mutable : Bytes → Option Bytes
parse_mutable s = named_mode s (parse_boolean s)
