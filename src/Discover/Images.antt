-- ===== src/Discover/Images.antt =====
-- internal/discover/discover.go: the installed images of a class.
-- fsutil.Chase inside the root, os.Stat, Readdirnames with sort.Strings, filepath.Abs and the creation
-- time of a file (`crtime`) are parameters.
pub mod Sorted
pub mod Installed
use sysext_alpine.Base.{
  SignedNumber, no_number, ℕ, Bool, true, false, not, ◌&&◌, ◌||◌, List, [], ◌∷◌, ◌++◌, Option, none,
  some, Result, ok, err, ◌>>=◌, Bytes, codes, same, Sign, less, ◌==◌, null, any, map, cut_prefix,
  cut_suffix, has_prefix, has_suffix, is_abs, join_path, if◌then◌else◌,
}
use sysext_alpine.Release.Class.{Class, sysext, confext}
use sysext_alpine.Release.Names.{image_name_is_valid}
use sysext_alpine.Files.Chase.{ChaseError, enotdir, is_missing}
use sysext_alpine.Discover.Version.{compare_versions}
use sysext_alpine.Discover.Pick.{
  Mode, regular, directory, block_device, TypeMask, PickResult, pick_version,
}
use sysext_alpine.Discover.Pick

pub data ImageType : Type 0 where
  type_directory type_raw type_block : ImageType

pub record Image : Type 0 where
  pub name : Bytes
  pub path : Bytes
  pub image_type : ImageType
  pub m_time : SignedNumber
  pub cr_time : SignedNumber

-- `Time`
unfoldable pub time : Image → SignedNumber
time img = if img.m_time.size == 0 then img.cr_time else img.m_time

unfoldable pub search_path : Class → List Bytes
search_path confext =
    codes "/run/confexts"
    ∷ codes "/var/lib/confexts"
    ∷ codes "/usr/local/lib/confexts"
    ∷ codes "/usr/lib/confexts"
    ∷ []
search_path sysext =
    codes "/etc/extensions" ∷ codes "/run/extensions" ∷ codes "/var/lib/extensions" ∷ []

unfoldable pub class_suffix : Class → Bytes
class_suffix confext = codes ".confext"
class_suffix sysext = codes ".sysext"

unfoldable pub search_dirs : Class → Bytes → List Bytes
search_dirs c root = map (join_path (if null root then codes "/" else root)) (search_path c)

-- The first of the suffixes that the name has: the name without it, and the suffix.
unfoldable pub cut_format : Bytes → List Bytes → Option (Bytes × Bytes)
cut_format name [] = none
cut_format name (s ∷ ss) = elim (cut_suffix s name) [
  | some before ↦ some (before, s)
  | none ↦ cut_format name ss
]

abbrev format_of : Bytes → Option (List Bytes) → Option (Bytes × Bytes)
format_of name none = some (name, [])
format_of name (some suffixes) = cut_format name suffixes

abbrev cut_class : Bytes → Bytes × Bytes → Bytes × Bytes
cut_class suffix (name, tail) =
    if null suffix then (name, tail) else elim (cut_suffix suffix name) [
      | none ↦ (name, tail)
      | some before ↦ (before, suffix ++ tail)
    ]

abbrev pub valid_name : Bytes × Bytes → Option (Bytes × Bytes)
valid_name (name, tail) = if image_name_is_valid name then some (name, tail) else none

-- The image's name and the suffix cut off; `none` for the format suffixes is Go's nil.
unfoldable pub extract_image_basename : Bytes → Bytes → Option (List Bytes) → Option (Bytes × Bytes)
extract_image_basename fname suffix formats = elim (format_of fname formats) [
  | none ↦ none
  | some p ↦ valid_name (cut_class suffix p)
]

abbrev or_self : Bytes → Option Bytes → Bytes
or_self p none = p
or_self p (some []) = codes "/"
or_self p (some (c ∷ s)) = if is_abs (c ∷ s) then c ∷ s else p

unfoldable pub relative_to_root : Bytes → Bytes → Bytes
relative_to_root root p = if same root (codes "/") then p else or_self p (cut_prefix root p)

-- os.FileInfo: the kind of the file and its modification time.
pub record FileInfo : Type 0 where
  pub kind : Mode
  pub mod_time : SignedNumber

-- `i` stands in front of an image that it is not newer than; equal ones keep their order.
unfoldable pub insert_image : Image → List Image → List Image
insert_image x [] = x ∷ []
insert_image x (y ∷ ys) =
    let rest = insert_image x ys in
    elim (compare_versions y.name x.name) [ some less ↦ y ∷ rest | _ ↦ x ∷ y ∷ ys ]

-- `Sort`, which is stable.
unfoldable pub sort_images : List Image → List Image
sort_images [] = []
sort_images (x ∷ xs) = insert_image x (sort_images xs)

abbrev raw_formats : List Bytes
raw_formats = codes ".raw" ∷ []

abbrev versioned_formats : List Bytes
versioned_formats = codes ".raw" ∷ codes ".mstack" ∷ [] ∷ []

abbrev directory_formats : List Bytes
directory_formats = codes ".mstack" ∷ [] ∷ []

abbrev pub wanted_kinds : Bytes → TypeMask
wanted_kinds suffix =
    if has_suffix (codes ".raw") suffix
    then record { reg = true; blk = true; dir = false }
    else record { reg = false; blk = false; dir = true }

-- An entry that has a name: its path and its kind.
abbrev pub Named : Type 0
Named = Bytes × Bytes × FileInfo

module _ (crtime : Bytes → SignedNumber) where
  unfoldable pub make_image : Bytes → Bytes → FileInfo → Mode → Option Image
  make_image name path fi directory =
      if has_suffix (codes ".mstack") path
      then none
      else some (record {
        name = name;
        path = path;
        image_type = type_directory;
        m_time = no_number;
        cr_time = crtime path;
      })
  make_image name path fi regular = some (record {
    name = name;
    path = path;
    image_type = type_raw;
    m_time = fi.mod_time;
    cr_time = crtime path;
  })
  make_image name path fi block_device = some (record {
    name = name;
    path = path;
    image_type = type_block;
    m_time = no_number;
    cr_time = no_number;
  })
  make_image name path fi k = none

  abbrev appended : List Image → Option Image → List Image
  appended images none = images
  appended images (some img) = images ++ (img ∷ [])

  -- An image whose name has been seen is shadowed.
  unfoldable pub add_image : List Image → Option Named → List Image
  add_image images none = images
  add_image images (some (name, path, fi)) =
      if any (λ i. same i.name name) images
      then images
      else appended images (make_image name path fi fi.kind)

  module _ (chase : Bytes → Result ChaseError Bytes) (stat : Bytes → Result ChaseError FileInfo)
      (read_dir_names : Bytes → Result ChaseError (List Bytes)) (native secondary : Bytes) where
    abbrev mode_at : Bytes → Result ChaseError Mode
    mode_at p = stat p >>= λ fi. ok fi.kind

    -- `pickVersion` on a versioned directory.
    unfoldable pub pick : Bytes → Bytes → Bytes → Result ChaseError (Option PickResult)
    pick vdir basename suffix =
        pick_version (λ dname. chase (join_path vdir dname)) mode_at basename suffix native
          secondary (wanted_kinds suffix) (chase vdir >>= read_dir_names)

    abbrev picked_info : Bytes → Bytes → Result ChaseError FileInfo → Option Named
    picked_info name path (err e) = none
    picked_info name path (ok fi) = some (name, path, fi)

    -- Neither an error nor an empty directory stops the scan. The file information is that of the path
    -- picked.
    abbrev picked_entry : Bytes → Result ChaseError (Option PickResult) → Option Named
    picked_entry name (err e) = none
    picked_entry name (ok none) = none
    picked_entry name (ok (some p)) = picked_info name p.path (stat p.path)

    abbrev plain_entry : Bytes → FileInfo → Option (Bytes × Bytes) → Option Named
    plain_entry resolved fi none = none
    plain_entry resolved fi (some (name, tail)) = some (name, resolved, fi)

    abbrev versioned_entry : Bytes → Option (Bytes × Bytes) → Option Named
    versioned_entry entry none = none
    versioned_entry entry (some (name, suffix)) = picked_entry name (pick entry name suffix)

    abbrev directory_entry : Class → Bytes → Bytes → Bytes → FileInfo → Option Bytes → Option Named
    directory_entry c fname entry resolved fi (some nov) =
        versioned_entry entry (extract_image_basename nov (class_suffix c) (some versioned_formats))
    directory_entry c fname entry resolved fi none =
        plain_entry resolved fi
          (extract_image_basename fname (class_suffix c) (some directory_formats))

    unfoldable pub name_entry : Class → Bytes → Bytes → Bytes → FileInfo → Mode → Option Named
    name_entry c fname entry resolved fi regular =
        plain_entry resolved fi (extract_image_basename fname (class_suffix c) (some raw_formats))
    name_entry c fname entry resolved fi directory =
        directory_entry c fname entry resolved fi (cut_suffix (codes ".v") fname)
    name_entry c fname entry resolved fi block_device =
        plain_entry resolved fi (extract_image_basename fname [] none)
    name_entry c fname entry resolved fi k = none

    -- A call whose file is missing is passed over, with what was found so far.
    abbrev pub unless_missing :
        {A B : Type 0} → Result ChaseError A → B → (A → Result ChaseError B) → Result ChaseError B
    unless_missing (ok a) b next = next a
    unless_missing (err e) b next = if is_missing e then ok b else err e

    unfoldable pub scan_entry : Class → Bytes → Bytes → List Image → Result ChaseError (List Image)
    scan_entry c search_rel fname images =
        if has_prefix (codes ".sysupdate.") fname
        then ok images
        else unless_missing (chase (join_path search_rel fname)) images (λ resolved.
          unless_missing (stat resolved) images (λ fi. ok (
            add_image images
              (name_entry c fname (join_path search_rel fname) resolved fi fi.kind))))

    unfoldable pub scan_names :
        Class → Bytes → List Bytes → List Image → Result ChaseError (List Image)
    scan_names c search_rel [] images = ok images
    scan_names c search_rel (fname ∷ names) images =
        scan_entry c search_rel fname images >>= scan_names c search_rel names

    unfoldable pub scan_dirs :
        Class → Bytes → List Bytes → List Image → Result ChaseError (List Image)
    scan_dirs c root [] images = ok images
    scan_dirs c root (dir ∷ dirs) images =
        unless_missing (chase dir) images (λ search_dir.
          unless_missing (read_dir_names search_dir) images
            (λ names. scan_names c (relative_to_root root search_dir) names images))
        >>= scan_dirs c root dirs

    -- `Discover`, behind absRoot.
    unfoldable pub discover : Class → Bytes → Result ChaseError (List Image)
    discover c root = scan_dirs c root (search_path c) [] >>= λ images. ok (sort_images images)
