-- ===== src/Command/CheckImage/Accepted.antt =====
-- cmd/sysext/verbs.go with internal/release: which images a merge accepts.
use sysext_alpine.Base.{
  ◌≡◌, ◌≢◌, refl, sym, ap, subst, ◌↔◌, ◌⊎◌, inl, inr, Bool, true, false, [], Option, Result, ok,
  err, ◌>>=◌, ok_eq, >>=-eq-ok, if_result-eq, Bytes, codes, null, if◌then◌else◌,
}
use sysext_alpine.Release.Arch.{host_architecture}
use sysext_alpine.Release.Class.{Class, sysext, confext}
use sysext_alpine.Release.Validate.{Fields, field, validate}
use sysext_alpine.Release.Validate.Compatible.{IsCompatible, validate_iff}
use sysext_alpine.Release.Lookup.{
  Tree, LookupError, host_os_release, host_scope, has_forbidden_content, is_os_tree,
  check_image_tree, find_extension_release,
}
use sysext_alpine.Discover.Images.{Image}
use sysext_alpine.Command.CheckImage.{
  CheckError, no_host_data, no_scope, bad_metadata, mount_failed, or_else_error, is_raw,
  unless_medium, unless_forbidden, read_metadata, mount_again, fields_or_nil, fits_host,
  check_image, merge_options,
}
use sysext_alpine.Command.CheckImage.Trees.{HoldsExtension, check_image_tree_iff, mounted_iff}

medium_iff :
    (r : Result LookupError Bool) (next : Result CheckError Bool) {P Q : Type 0}
    → (r ≡ ok true) ↔ P
    → (next ≡ ok true) ↔ Q
    → ((or_else_error bad_metadata r >>= λ found. unless_medium found next) ≡ ok true) ↔ (P × Q)
medium_iff (err e) next p q = (λ h. cc, λ (a, b). absurd (failing (p.1 a)))
  where
    failing : ◌≢◌ {A = Result LookupError Bool} (err e) (ok true)
    failing h = cc
medium_iff (ok true) next p q = (λ h. (p.0 refl, q.0 h), λ (a, b). q.1 b)
medium_iff (ok false) next p q = (λ h. cc, λ (a, b). absurd (false_ne (p.1 a)))
  where
    false_ne : ◌≢◌ {A = Result LookupError Bool} (ok false) (ok true)
    false_ne h = cc

forbidden_iff :
    (r : Result LookupError Bool) (next : Result CheckError Bool) {Q : Type 0}
    → (next ≡ ok true) ↔ Q
    → ((or_else_error bad_metadata r >>= λ found. unless_forbidden found next) ≡ ok true)
      ↔ ((r ≡ ok false) × Q)
forbidden_iff (err e) next q = (λ h. cc, λ (a, b). cc)
forbidden_iff (ok true) next q = (λ h. cc, λ (a, b). cc)
forbidden_iff (ok false) next q = (λ h. (refl, q.0 h), λ (a, b). q.1 b)

again_iff :
    (r : Result LookupError Bool) (fits : Bool) {P Q : Type 0}
    → (r ≡ ok true) ↔ P
    → (fits ≡ true) ↔ Q
    → ((or_else_error mount_failed r >>= λ found. ok (if found then fits else false)) ≡ ok true)
      ↔ (P × Q)
again_iff (err e) fits p q = (λ h. cc, λ (a, b). absurd (failing (p.1 a)))
  where
    failing : ◌≢◌ {A = Result LookupError Bool} (err e) (ok true)
    failing h = cc
again_iff (ok true) fits p q = (λ h. (p.0 refl, q.0 (ok_eq h)), λ (a, b). ap ok (q.1 b))
again_iff (ok false) fits p q = (λ h. cc, λ (a, b). absurd (false_ne (p.1 a)))
  where
    false_ne : ◌≢◌ {A = Result LookupError Bool} (ok false) (ok true)
    false_ne h = cc

no_data :
    (host : Fields) (class : Class) (arch scope : Bytes)
    → (validate host [] class arch scope).0 ≢ true
unfolding validate
no_data host class arch scope h = cc

release_iff :
    (r : Result LookupError Fields) (host : Fields) (class : Class) (arch scope : Bytes)
    → ((validate host (fields_or_nil r) class arch scope).0 ≡ true)
      ↔ ((ext : Fields) × (r ≡ ok ext) × IsCompatible host ext class arch scope)
release_iff (err e) host class arch scope =
    (λ h. absurd (no_data host class arch scope h), λ (ext, e, c). cc)
release_iff (ok f) host class arch scope =
    let v = validate_iff host f class arch scope in
    (
      λ h. (f, refl, v.0 h),
      λ (ext, e, c). v.1 (subst (λ ext. IsCompatible host ext class arch scope) (sym (ok_eq e)) c),
    )

no_error_in :
    {E F A : Type 0} (f : E → F) {a : A} (r : Result E A) → or_else_error f r ≡ ok a → r ≡ ok a
no_error_in f (ok a) h = ap ok (ok_eq h)
no_error_in f (err e) h = cc

not_null : {s : Bytes} → null s ≡ false → s ≢ []
not_null h e = cc

module _ (T : Tree) (env : Option Bytes) (goarch : Bytes) (machine : Option Bytes) (class : Class)
    (force : Bool) where
  -- What is read of every image, also with --force.
  abbrev pub IsReadable : Bool → Class → Bytes → Bytes → Type 0
  IsReadable true c name tree =
      (is_os_tree T env tree ≡ ok true)
      ⊎ ((is_os_tree T env tree ≡ ok false) × HoldsExtension T tree name)
  IsReadable false sysext name tree = has_forbidden_content T tree ≡ ok false
  IsReadable false confext name tree = Unit

  abbrev pub HoldsIfRaw : Bool → Bytes → Bytes → Type 0
  HoldsIfRaw true name tree = HoldsExtension T tree name
  HoldsIfRaw false name tree = Unit

  abbrev pub FitsHost : Fields → Bytes → Bytes → Bytes → Type 0
  FitsHost host scope name tree =
      (ext : Fields) × (find_extension_release T tree name class false ≡ ok ext)
      × IsCompatible host ext class (host_architecture goarch machine) scope

  read_metadata_iff :
      (raw : Bool) (c : Class) (name tree : Bytes) (next : Result CheckError Bool) {Q : Type 0}
      → (next ≡ ok true) ↔ Q
      → (read_metadata T env goarch machine class force raw c name tree next ≡ ok true)
        ↔ (IsReadable raw c name tree × Q)
  read_metadata_iff true c name tree next q =
      medium_iff (check_image_tree T env tree name true) next (check_image_tree_iff T tree name env)
        q
  read_metadata_iff false sysext name tree next q =
      forbidden_iff (has_forbidden_content T tree) next q
  read_metadata_iff false confext name tree next q = (λ h. (tt, q.0 h), λ (u, h). q.1 h)

  fits_host_iff :
      (host : Fields) (scope name tree : Bytes)
      → (fits_host T env goarch machine class force host scope name tree ≡ true)
        ↔ FitsHost host scope name tree
  fits_host_iff host scope name tree =
      release_iff (find_extension_release T tree name class false) host class
        (host_architecture goarch machine) scope

  mount_again_iff :
      (raw : Bool) (name tree : Bytes) (fits : Bool) {Q : Type 0}
      → (fits ≡ true) ↔ Q
      → (mount_again T env goarch machine class force raw name tree fits ≡ ok true)
        ↔ (HoldsIfRaw raw name tree × Q)
  mount_again_iff true name tree fits q =
      again_iff (check_image_tree T env tree name false) fits (mounted_iff T tree name env) q
  mount_again_iff false name tree fits q = (λ h. (tt, q.0 (ok_eq h)), λ (u, h). ap ok (q.1 h))

  forced_iff :
      (f : Bool) {m : Result CheckError Bool} {Q : Type 0}
      → (m ≡ ok true) ↔ Q
      → ((if f then ok true else m) ≡ ok true) ↔ ((f ≡ true) ⊎ Q)
  forced_iff true q = (λ h. inl refl, λ h. refl)
  forced_iff false q = (λ h. inr (q.0 h), λ h. elim h [ inl e ↦ cc | inr r ↦ q.1 r ])

  abbrev pub IsAccepted : Fields → Bytes → Image → Bytes → Type 0
  IsAccepted host scope img tree =
      IsReadable (is_raw img.image_type) class img.name tree
      × ((force ≡ true)
          ⊎ (HoldsIfRaw (is_raw img.image_type) img.name tree × FitsHost host scope img.name tree))

  check_image_iff :
      (host : Fields) (scope : Bytes) (img : Image) (tree : Bytes)
      → (check_image T env goarch machine class force host scope img tree ≡ ok true)
        ↔ IsAccepted host scope img tree
  unfolding check_image
  check_image_iff host scope img tree =
      let fits = fits_host T env goarch machine class force host scope img.name tree in
      let raw = is_raw img.image_type in
      let again = mount_again_iff raw img.name tree fits (fits_host_iff host scope img.name tree) in
      read_metadata_iff raw class img.name tree
        (if force
          then ok true
          else mount_again T env goarch machine class force raw img.name tree fits)
        (forced_iff force again)

  -- The check that `mergeOptions` hands to a merge stands on the host's release fields, which name an
  -- ID, and on the host's scope. It accepts a mounted image exactly when the image can be read, and
  -- --force is given or the image fits. A raw image can be read when its tree is an OS tree, or is none
  -- and holds an extension: the image has a name, the tree has no /usr/lib/os-release, and it has a
  -- release file of one of the two classes; a directory of class sysext when it has no
  -- /usr/lib/os-release. An image fits when it holds an extension, if it is raw, and the release file
  -- found for its name is compatible with the host's fields, scope and architecture.
  pub merge_options-check_image :
      (root : Bytes) (check : Image → Bytes → Result CheckError Bool)
      → merge_options T env goarch machine class force root ≡ ok check
      → (host : Fields) × (scope : Bytes) × (host_os_release T env root ≡ ok host)
        × (field host (codes "ID") ≢ [])
        × (host_scope T root ≡ ok scope)
        × ((img : Image) (tree : Bytes)
            → (check img tree ≡ ok true) ↔ IsAccepted host scope img tree)
  unfolding merge_options
  merge_options-check_image root check h =
      let (host, read, rest) =
        >>=-eq-ok (or_else_error no_host_data (host_os_release T env root)) _ h in
      if_result-eq (null (field host (codes "ID"))) _ _ (λ e r. cc)
        (λ named r.
          let (scope, at, e) = >>=-eq-ok (or_else_error no_scope (host_scope T root)) _ r in
          (
            host,
            scope,
            no_error_in no_host_data (host_os_release T env root) read,
            not_null named,
            no_error_in no_scope (host_scope T root) at,
            λ img tree.
                subst (λ c. (c img tree ≡ ok true) ↔ IsAccepted host scope img tree) (ok_eq e)
                  (check_image_iff host scope img tree),
          ))
        rest
