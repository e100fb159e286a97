-- ===== src/Command/CheckImage.antt =====
-- cmd/sysext/verbs.go: mergeOptions, as far as it reads the host, and checkImage, which decides whether
-- a mounted image is merged. The environment, uname(2) and the file system are parameters.
pub mod Trees
pub mod Accepted
use sysext_alpine.Base.{
  Bool, true, false, [], Option, Result, ok, err, ◌>>=◌, ◌>>◌, Bytes, codes, null, if◌then◌else◌,
}
use sysext_alpine.Release.Arch.{host_architecture}
use sysext_alpine.Release.Class.{Class, sysext, confext}
use sysext_alpine.Release.Validate.{Fields, field, validate}
use sysext_alpine.Release.Lookup.{
  Tree, LookupError, host_os_release, host_scope, has_forbidden_content, check_image_tree,
  find_extension_release,
}
use sysext_alpine.Discover.Images.{Image, ImageType, type_directory, type_raw, type_block}

-- An image whose metadata cannot be read, one without a suitable tree, and one that fails to mount.
pub data CheckError : Type 0 where
  bad_metadata mount_failed : LookupError → CheckError
  no_medium : CheckError

pub data OptionsError : Type 0 where
  no_host_data no_scope : LookupError → OptionsError
  no_host_id : OptionsError

abbrev pub or_else_error : {E F A : Type 0} → (E → F) → Result E A → Result F A
or_else_error f (ok a) = ok a
or_else_error f (err e) = err (f e)

abbrev pub is_raw : ImageType → Bool
is_raw type_directory = false
is_raw type_raw = true
is_raw type_block = true

abbrev pub unless_medium : Bool → Result CheckError Bool → Result CheckError Bool
unless_medium true next = next
unless_medium false next = err no_medium

abbrev pub unless_forbidden : Bool → Result CheckError Bool → Result CheckError Bool
unless_forbidden true next = err no_medium
unless_forbidden false next = next

abbrev pub fields_or_nil : Result LookupError Fields → Fields
fields_or_nil (ok f) = f
fields_or_nil (err e) = []

-- The environment is the value of $SYSTEMD_OS_RELEASE, if it is set.
module _ (T : Tree) (env : Option Bytes) (goarch : Bytes) (machine : Option Bytes) (class : Class)
    (force : Bool) where
  -- The first part: an image that is broken is an error, also with --force.
  abbrev pub read_metadata :
      Bool → Class → Bytes → Bytes → Result CheckError Bool → Result CheckError Bool
  read_metadata true c name tree next =
      or_else_error bad_metadata (check_image_tree T env tree name true) >>= λ found.
      unless_medium found next
  read_metadata false sysext name tree next =
      or_else_error bad_metadata (has_forbidden_content T tree) >>= λ found.
      unless_forbidden found next
  read_metadata false confext name tree next = next

  -- A raw image is mounted once more, as an extension.
  abbrev pub mount_again : Bool → Bytes → Bytes → Bool → Result CheckError Bool
  mount_again true name tree fits =
      or_else_error mount_failed (check_image_tree T env tree name false) >>= λ found.
      ok (if found then fits else false)
  mount_again false name tree fits = ok fits

  abbrev pub fits_host : Fields → Bytes → Bytes → Bytes → Bool
  fits_host host scope name tree =
      (validate host (fields_or_nil (find_extension_release T tree name class false)) class
        (host_architecture goarch machine) scope).0

  -- `checkImage`
  unfoldable pub check_image : Fields → Bytes → Image → Bytes → Result CheckError Bool
  check_image host scope img tree =
      let raw = is_raw img.image_type in
      let fits = mount_again raw img.name tree (fits_host host scope img.name tree) in
      read_metadata raw class img.name tree (if force then ok true else fits)

  abbrev with_id : Bytes → Fields → Result OptionsError (Image → Bytes → Result CheckError Bool)
  with_id root host =
      if null (field host (codes "ID"))
      then err no_host_id
      else or_else_error no_scope (host_scope T root) >>= λ scope. ok (check_image host scope)

  -- The check that `mergeOptions` makes for the images of a merge.
  unfoldable pub merge_options :
      Bytes → Result OptionsError (Image → Bytes → Result CheckError Bool)
  merge_options root = or_else_error no_host_data (host_os_release T env root) >>= with_id root
