-- ===== src/Release/Lookup.antt =====
-- internal/release/lookup.go: the release files of a tree. The file system is a record of what Lstat,
-- Readlink, Abs, ReadDir, Lgetxattr and a bounded read of a file answer.
pub mod Entries
pub mod Candidates
use sysext_alpine.Base.{
  ℕ, zero, suc, ◌*◌, Bool, true, false, not, ◌&&◌, ◌||◌, List, [], ◌∷◌, ◌++◌, Option, none, some,
  Result, ok, err, Bytes, codes, same, ltb, ◌==◌, length, null, cut_prefix, cut_suffix, cut_last,
  has_suffix, join_path, trim_right_byte, if◌then◌else◌,
}
use sysext_alpine.Files.Chase.{Node, ChaseError, enoent, chase}
use sysext_alpine.Release.Class.{Class, sysext, confext, release_file_dir}
use sysext_alpine.Release.Names.{image_name_is_valid, hidden_or_backup_file}
use sysext_alpine.Release.Validate.{Fields}
use sysext_alpine.Release.EnvFile.{EnvError, until_zero, parse, parse_boolean}

-- Lgetxattr with a buffer: ERANGE, any other error, or the value.
pub data AttrRead : Type 0 where
  out_of_range unreadable : AttrRead
  value : Bytes → AttrRead

-- What opening a file finds: the error of the open, of Stat or of a read, or the kind of the file and
-- the content of a regular one.
pub data Opened : Type 0 where
  failed_open : ChaseError → Opened
  directory irregular : Opened
  regular : Bytes → Opened

pub record Tree : Type 0 where
  pub lstat : Bytes → Result ChaseError Node
  pub readlink : Bytes → Result ChaseError Bytes
  pub abs : Bytes → Result ChaseError Bytes
  -- The names of a directory, and whether each is a regular file by its entry.
  pub read_dir : Bytes → Result ChaseError (List (Bytes × Bool))
  -- os.Lstat: whether it is a regular file.
  pub lstat_regular : Bytes → Result ChaseError Bool
  pub strict_attr : Bytes → ℕ → AttrRead
  pub open_file : Bytes → Opened

pub data LookupError : Type 0 where
  invalid_name no_extension_release not_unique no_os_release : LookupError
  is_dir bad_file too_big : LookupError
  failed : ChaseError → LookupError
  bad_line : EnvError → LookupError

-- errors.Is(err, fs.ErrNotExist)
abbrev pub is_not_exist : LookupError → Bool
is_not_exist no_extension_release = true
is_not_exist no_os_release = true
is_not_exist (failed enoent) = true
is_not_exist e = false

abbrev pub or_failed : {A : Type 0} → Result ChaseError A → Result LookupError A
or_failed (ok a) = ok a
or_failed (err e) = err (failed e)

-- The text before the first '_' or '+'.
unfoldable pub until_separator : Bytes → Bytes
until_separator [] = []
until_separator (c ∷ s) =
    let rest = until_separator s in if c == b'_' || c == b'+' then [] else c ∷ rest

abbrev after_last : Bytes → Option (Bytes × Bytes) → Bytes
after_last s none = s
after_last s (some (before, behind)) = behind

abbrev or_cut : Option Bytes → Bytes → Bytes
or_cut none next = next
or_cut (some s) next = s

abbrev without_raw : Bytes → Bytes
without_raw name =
    or_cut (cut_suffix (codes ".sysext.raw") name) (
      or_cut (cut_suffix (codes ".confext.raw") name)
        (or_cut (cut_suffix (codes ".raw") name) name))

-- `imageBaseName`: `none` when it is no valid name.
unfoldable pub image_base_name : Bytes → Option Bytes
image_base_name name =
    let trimmed = trim_right_byte b'/' name in
    let last = after_last trimmed (cut_last b'/' trimmed) in
    let base = until_separator (if has_suffix (codes "/") name then last else without_raw last) in
    if image_name_is_valid base then some base else none

abbrev is_false : Option Bool → Bool
is_false (some false) = true
is_false b = false

abbrev pub next_unless_found :
    Result ChaseError Bytes → Result LookupError Bytes → Result LookupError Bytes
next_unless_found (err enoent) next = next
next_unless_found r next = or_failed r

abbrev pub missing_as : LookupError → ChaseError → LookupError
missing_as m enoent = m
missing_as m e = failed e

abbrev pub release_dir : Class → Bytes
release_dir class = b'/' ∷ release_file_dir class

abbrev pub or_else_try : Result LookupError Bool → Result LookupError Bool → Result LookupError Bool
or_else_try (ok false) next = next
or_else_try r next = r

abbrev pub unless_so : Result LookupError Bool → Result LookupError Bool → Result LookupError Bool
unless_so (err e) next = err e
unless_so (ok true) next = ok false
unless_so (ok false) next = next

abbrev is_resolved : Result ChaseError Bytes → Result LookupError Bool
is_resolved (ok path) = ok true
is_resolved (err enoent) = ok false
is_resolved (err e) = err (failed e)

abbrev is_found : Result LookupError Bytes → Result LookupError Bool
is_found (ok path) = ok true
is_found (err e) = if is_not_exist e then ok false else err e

abbrev limited : Bytes → Result LookupError Bytes
limited content = if ltb (64 * 1048576) (length content) then err too_big else ok content

abbrev content_of : Opened → Result LookupError Bytes
content_of (failed_open e) = err (failed e)
content_of directory = err is_dir
content_of irregular = err bad_file
content_of (regular content) = limited content

abbrev or_bad_line : Result EnvError Fields → Result LookupError Fields
or_bad_line (ok f) = ok f
or_bad_line (err e) = err (bad_line e)

abbrev parsed : Result LookupError Bytes → Result LookupError Fields
parsed (err e) = err e
parsed (ok content) = or_bad_line (parse content)

abbrev scope_name : Result LookupError Bool → Result LookupError Bytes
scope_name (ok true) = ok (codes "initrd")
scope_name (ok false) = ok (codes "system")
scope_name (err e) = err e

module _ (T : Tree) where
  -- The rounds of `strictXattrIsFalse`, each with a buffer of twice the size.
  abbrev attr_or : AttrRead → Bool → Bool
  attr_or out_of_range again = again
  attr_or unreadable again = false
  attr_or (value v) again = is_false (parse_boolean (until_zero v))

  unfoldable pub strict_rounds : ℕ → ℕ → Bytes → Bool
  strict_rounds zero size path = false
  strict_rounds (suc n) size path =
      let again = strict_rounds n (2 * size) path in attr_or (T.strict_attr path size) again

  unfoldable pub strict_xattr_is_false : Bytes → Bool
  strict_xattr_is_false path = strict_rounds 8 128 path

  -- `fsutil.Chase` inside the tree.
  unfoldable pub chase_in_tree : Bytes → Bytes → Result ChaseError Bytes
  chase_in_tree root path = chase T.lstat T.readlink T.abs root path false

  -- `readRegularFile` and `ParseFile`
  unfoldable pub read_regular_file : Bytes → Result LookupError Bytes
  read_regular_file path = content_of (T.open_file path)

  unfoldable pub parse_file : Bytes → Result LookupError Fields
  parse_file path = parsed (read_regular_file path)

  abbrev parse_found : Result LookupError Bytes → Result LookupError Fields
  parse_found (err e) = err e
  parse_found (ok path) = parse_file path

  -- `lookupOSRelease`, with the value of $SYSTEMD_OS_RELEASE.
  unfoldable pub lookup_os_release : Option Bytes → Bytes → Result LookupError Bytes
  lookup_os_release (some path) root = or_failed (chase_in_tree root path)
  lookup_os_release none root =
      next_unless_found (chase_in_tree root (codes "/etc/os-release"))
        (next_unless_found (chase_in_tree root (codes "/usr/lib/os-release")) (err no_os_release))

  unfoldable pub host_os_release : Option Bytes → Bytes → Result LookupError Fields
  host_os_release env root = parse_found (lookup_os_release env root)

  -- The loop over the entries of the release directory.
  module _ (dir name : Bytes) (relax : Bool) where
    abbrev pub fits : Bytes → Bytes → Option Bytes → Bool
    fits suffix path none = false
    fits suffix path (some base) = same suffix base || strict_xattr_is_false path

    abbrev pub found_file :
        Bytes → Bytes → Result ChaseError Bool → Result ChaseError (Option Bytes)
    found_file suffix path (err e) = err e
    found_file suffix path (ok false) = ok none
    found_file suffix path (ok true) =
        ok (if relax || fits suffix path (image_base_name name) then some path else none)

    abbrev pub with_suffix : Bytes → Option Bytes → Result ChaseError (Option Bytes)
    with_suffix fname none = ok none
    with_suffix fname (some suffix) =
        if image_name_is_valid suffix
        then found_file suffix (join_path dir fname) (T.lstat_regular (join_path dir fname))
        else ok none

    -- One entry: the candidate that it is, if it is one.
    unfoldable pub inspect : Bytes × Bool → Result ChaseError (Option Bytes)
    inspect (fname, is_regular) =
        if hidden_or_backup_file fname || not is_regular
        then ok none
        else with_suffix fname (cut_prefix (codes "extension-release.") fname)

    abbrev pub one_more :
        Option Bytes
        → Result ChaseError (Option Bytes)
        → (Option Bytes → Result LookupError Bytes)
        → Result LookupError Bytes
    one_more found (err e) next = err (failed e)
    one_more found (ok none) next = next found
    one_more none (ok (some path)) next = next (some path)
    one_more (some other) (ok (some path)) next = err not_unique

    abbrev pub or_none_found : Option Bytes → Result LookupError Bytes
    or_none_found none = err no_extension_release
    or_none_found (some path) = ok path

    unfoldable pub scan : List (Bytes × Bool) → Option Bytes → Result LookupError Bytes
    scan [] found = or_none_found found
    scan (e ∷ es) found = one_more found (inspect e) (scan es)

  abbrev pub scan_dir :
      Bytes → Bytes → Bool → Result ChaseError (List (Bytes × Bool)) → Result LookupError Bytes
  scan_dir dir name relax (err e) = err (missing_as no_extension_release e)
  scan_dir dir name relax (ok entries) = scan dir name relax entries none

  abbrev pub scan_in : Bytes → Bool → Result ChaseError Bytes → Result LookupError Bytes
  scan_in name relax (err e) = err (missing_as no_extension_release e)
  scan_in name relax (ok dir) = scan_dir dir name relax (T.read_dir dir)

  -- `lookupExtensionRelease`
  unfoldable pub lookup_extension_release : Bytes → Bytes → Class → Bool → Result LookupError Bytes
  lookup_extension_release root name class relax =
      if image_name_is_valid name
      then next_unless_found
          (chase_in_tree root (release_dir class ++ (codes "/extension-release." ++ name)))
          (scan_in name relax (chase_in_tree root (release_dir class)))
      else err invalid_name

  unfoldable pub find_extension_release : Bytes → Bytes → Class → Bool → Result LookupError Fields
  find_extension_release root name class relax =
      parse_found (lookup_extension_release root name class relax)

  abbrev when_there : Result ChaseError Node → Result LookupError Bool → Result LookupError Bool
  when_there (err e) next = err (failed e)
  when_there (ok n) next = next

  unfoldable pub is_os_tree : Option Bytes → Bytes → Result LookupError Bool
  is_os_tree env tree = when_there (T.lstat tree) (is_found (lookup_os_release env tree))

  unfoldable pub is_extension_tree : Bytes → Bytes → Class → Bool → Result LookupError Bool
  is_extension_tree tree name class relax =
      when_there (T.lstat tree) (is_found (lookup_extension_release tree name class relax))

  unfoldable pub has_forbidden_content : Bytes → Result LookupError Bool
  has_forbidden_content tree = is_resolved (chase_in_tree tree (codes "/usr/lib/os-release"))

  -- `HostScope` of internal/release/release.go: whether the scope is that of an initrd.
  unfoldable pub host_scope : Bytes → Result LookupError Bytes
  host_scope root = scope_name (is_resolved (chase_in_tree root (codes "/etc/initrd-release")))

  -- `CheckImageTree`
  unfoldable pub check_extension : Bytes → Bytes → Result LookupError Bool
  check_extension tree name =
      if null name
      then ok false
      else unless_so (has_forbidden_content tree) (
          or_else_try (is_extension_tree tree name sysext false)
            (is_extension_tree tree name confext false))

  unfoldable pub check_image_tree : Option Bytes → Bytes → Bytes → Bool → Result LookupError Bool
  check_image_tree env tree name accept_os_tree =
      if accept_os_tree
      then or_else_try (is_os_tree env tree) (check_extension tree name)
      else check_extension tree name
