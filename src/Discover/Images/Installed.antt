-- ===== src/Discover/Images/Installed.antt =====
-- internal/discover/discover.go: what the images that `Discover` returns have in common.
use sysext_alpine.Base.{
  SignedNumber, ◌≡◌, refl, sym, ap, ◌∙◌, inl, inr, Bool, true, false, List, [], ◌∷◌, Option, none,
  some, Result, ok, err, ◌>>=◌, >>=-eq-ok, ok_eq, Bytes, codes, any, same, cut_suffix, has_prefix,
  join_path, All, Bool-cases, if◌then◌else◌, arith,
}
use sysext_alpine.Release.Class.{Class}
use sysext_alpine.Release.Names.{image_name_is_valid}
use sysext_alpine.Files.Chase.{ChaseError, is_missing}
use sysext_alpine.Discover.Pick.{Mode, regular, directory, block_device, PickResult}
use sysext_alpine.Discover.Images.{
  Image, FileInfo, Named, valid_name, extract_image_basename, make_image, appended, add_image,
  name_entry, plain_entry, picked_info, picked_entry, versioned_entry, directory_entry, pick,
  unless_missing, scan_entry, scan_names, scan_dirs, search_path, discover, class_suffix, format_of,
  cut_class,
}
use sysext_alpine.Discover.Images.Sorted.{
  Distinct, Ascending, ValidName, Distinct-snoc, All-snoc, sort_images-Distinct,
  sort_images-Ascending, All-sort_images,
}

-- The name of what is there is a valid one.
abbrev CutValid : Option (Bytes × Bytes) → Type 0
CutValid none = Unit
CutValid (some p) = image_name_is_valid p.0 ≡ true

abbrev NamedValid : Option Named → Type 0
NamedValid none = Unit
NamedValid (some p) = image_name_is_valid p.0 ≡ true

valid_name-CutValid : (p : Bytes × Bytes) → CutValid (valid_name p)
valid_name-CutValid (name, tail) = elim (Bool-cases (image_name_is_valid name)) [
  | inl e ↦ rw e e
  | inr e ↦ rw e tt
]

extract-CutValid :
    (fname suffix : Bytes) (formats : Option (List Bytes))
    → CutValid (extract_image_basename fname suffix formats)
unfolding extract_image_basename
extract-CutValid fname suffix formats = cut (format_of fname formats)
  where
    cut :
        (o : Option (Bytes × Bytes))
        → CutValid (elim o as (λ x. Option (Bytes × Bytes)) [
          | none ↦ none
          | some p ↦ valid_name (cut_class suffix p)
        ])
    cut none = tt
    cut (some p) = valid_name-CutValid (cut_class suffix p)

make_image-name :
    (crtime : Bytes → SignedNumber) (name path : Bytes) (fi : FileInfo) (m : Mode) {img : Image}
    → make_image crtime name path fi m ≡ some img
    → img.name ≡ name
unfolding make_image
make_image-name crtime name path fi m e = ground arith

-- The images found so far: their names are valid and distinct.
abbrev IsFound : List Image → Type 0
IsFound xs = All ValidName xs × Distinct xs

appended-IsFound :
    (crtime : Bytes → SignedNumber) (name : Bytes) (images : List Image) (o : Option Image)
    → ((img : Image) → o ≡ some img → img.name ≡ name)
    → image_name_is_valid name ≡ true
    → any (λ i. same i.name name) images ≡ false
    → IsFound images
    → IsFound (appended crtime images o)
appended-IsFound crtime name images none h v n k = k
appended-IsFound crtime name images (some img) h v n (a, d) =
    let e = h img refl in
    (
      All-snoc ValidName images img a (ap image_name_is_valid e ∙ v),
      Distinct-snoc images img d (ap (λ m. any (λ i. same i.name m) images) e ∙ n),
    )

add_image-IsFound :
    (crtime : Bytes → SignedNumber) (images : List Image) (o : Option Named)
    → NamedValid o
    → IsFound images
    → IsFound (add_image crtime images o)
unfolding add_image
add_image-IsFound crtime images none v k = k
add_image-IsFound crtime images (some (name, path, fi)) v k =
    elim (Bool-cases (any (λ i. same i.name name) images)) [
      | inl e ↦ rw e k
      | inr e ↦ rw e (
          appended-IsFound crtime name images (make_image crtime name path fi fi.kind)
            (λ img. make_image-name crtime name path fi fi.kind) v e k)
    ]

module _ (crtime : Bytes → SignedNumber) (chase : Bytes → Result ChaseError Bytes)
    (stat : Bytes → Result ChaseError FileInfo)
    (read_dir_names : Bytes → Result ChaseError (List Bytes)) (native secondary : Bytes) where
  plain_entry-NamedValid :
      (resolved : Bytes) (fi : FileInfo) (o : Option (Bytes × Bytes))
      → CutValid o
      → NamedValid (plain_entry crtime chase stat read_dir_names native secondary resolved fi o)
  plain_entry-NamedValid resolved fi none v = tt
  plain_entry-NamedValid resolved fi (some (name, tail)) v = v

  picked_info-NamedValid :
      (name path : Bytes) (r : Result ChaseError FileInfo)
      → image_name_is_valid name ≡ true
      → NamedValid (picked_info crtime chase stat read_dir_names native secondary name path r)
  picked_info-NamedValid name path (err e) v = tt
  picked_info-NamedValid name path (ok fi) v = v

  picked_entry-NamedValid :
      (name : Bytes) (r : Result ChaseError (Option PickResult))
      → image_name_is_valid name ≡ true
      → NamedValid (picked_entry crtime chase stat read_dir_names native secondary name r)
  picked_entry-NamedValid name (err e) v = tt
  picked_entry-NamedValid name (ok none) v = tt
  picked_entry-NamedValid name (ok (some p)) v = picked_info-NamedValid name p.path (stat p.path) v

  versioned_entry-NamedValid :
      (entry : Bytes) (o : Option (Bytes × Bytes))
      → CutValid o
      → NamedValid (versioned_entry crtime chase stat read_dir_names native secondary entry o)
  versioned_entry-NamedValid entry none v = tt
  versioned_entry-NamedValid entry (some (name, suffix)) v =
      picked_entry-NamedValid name
        (pick crtime chase stat read_dir_names native secondary entry name suffix) v

  directory_entry-NamedValid :
      (c : Class) (fname entry resolved : Bytes) (fi : FileInfo) (o : Option Bytes)
      → NamedValid (
          directory_entry crtime chase stat read_dir_names native secondary c fname entry resolved
            fi o)
  directory_entry-NamedValid c fname entry resolved fi (some nov) =
      versioned_entry-NamedValid entry _ (extract-CutValid nov (class_suffix c) _)
  directory_entry-NamedValid c fname entry resolved fi none =
      plain_entry-NamedValid resolved fi _ (extract-CutValid fname (class_suffix c) _)

  name_entry-NamedValid :
      (c : Class) (fname entry resolved : Bytes) (fi : FileInfo) (m : Mode)
      → NamedValid
          (name_entry crtime chase stat read_dir_names native secondary c fname entry resolved fi m)
  unfolding name_entry
  name_entry-NamedValid c fname entry resolved fi regular =
      plain_entry-NamedValid resolved fi _ (extract-CutValid fname (class_suffix c) _)
  name_entry-NamedValid c fname entry resolved fi directory =
      directory_entry-NamedValid c fname entry resolved fi (cut_suffix (codes ".v") fname)
  name_entry-NamedValid c fname entry resolved fi block_device =
      plain_entry-NamedValid resolved fi _ (extract-CutValid fname [] none)
  name_entry-NamedValid c fname entry resolved fi m = tt

  -- Either an error, or images whose names are valid and distinct.
  abbrev Scanned : Result ChaseError (List Image) → Type 0
  Scanned (err e) = Unit
  Scanned (ok xs) = IsFound xs

  if-Scanned :
      (b : Bool) (x y : Result ChaseError (List Image))
      → Scanned x
      → Scanned y
      → Scanned (if b then x else y)
  if-Scanned true x y h k = h
  if-Scanned false x y h k = k

  unless_missing-Scanned :
      {A : Type 0} (r : Result ChaseError A) (images : List Image)
      (next : A → Result ChaseError (List Image))
      → IsFound images
      → ((a : A) → Scanned (next a))
      → Scanned (unless_missing crtime chase stat read_dir_names native secondary r images next)
  unless_missing-Scanned (ok a) images next k h = h a
  unless_missing-Scanned (err e) images next k h =
      if-Scanned (is_missing e) (ok images) (err e) k tt

  bind-Scanned :
      (r : Result ChaseError (List Image)) (next : List Image → Result ChaseError (List Image))
      → Scanned r
      → ((xs : List Image) → IsFound xs → Scanned (next xs))
      → Scanned (r >>= next)
  bind-Scanned (ok xs) next k h = h xs k
  bind-Scanned (err e) next k h = tt

  scan_entry-Scanned :
      (c : Class) (rel fname : Bytes) (images : List Image)
      → IsFound images
      → Scanned (scan_entry crtime chase stat read_dir_names native secondary c rel fname images)
  unfolding scan_entry
  scan_entry-Scanned c rel fname images k =
      if-Scanned (has_prefix (codes ".sysupdate.") fname) (ok images) _ k (
        unless_missing-Scanned (chase (join_path rel fname)) images _ k (λ resolved.
          unless_missing-Scanned (stat resolved) images _ k (λ fi.
            add_image-IsFound crtime images _
              (name_entry-NamedValid c fname (join_path rel fname) resolved fi fi.kind) k)))

  scan_names-Scanned :
      (c : Class) (rel : Bytes) (names : List Bytes) (images : List Image)
      → IsFound images
      → Scanned (scan_names crtime chase stat read_dir_names native secondary c rel names images)
  unfolding scan_names
  scan_names-Scanned c rel [] images k = k
  scan_names-Scanned c rel (n ∷ ns) images k =
      bind-Scanned _ _ (scan_entry-Scanned c rel n images k) (scan_names-Scanned c rel ns)

  scan_dirs-Scanned :
      (c : Class) (root : Bytes) (dirs : List Bytes) (images : List Image)
      → IsFound images
      → Scanned (scan_dirs crtime chase stat read_dir_names native secondary c root dirs images)
  unfolding scan_dirs
  scan_dirs-Scanned c root [] images k = k
  scan_dirs-Scanned c root (d ∷ ds) images k =
      bind-Scanned _ _
        (unless_missing-Scanned (chase d) images _ k (λ dir.
          unless_missing-Scanned (read_dir_names dir) images _ k
            (λ names. scan_names-Scanned c _ names images k)))
        (scan_dirs-Scanned c root ds)

  Scanned-IsFound :
      (r : Result ChaseError (List Image)) {xs : List Image} → Scanned r → r ≡ ok xs → IsFound xs
  Scanned-IsFound (err e) k h = cc
  Scanned-IsFound (ok ys) {xs} k h = let q : ys ≡ xs = ok_eq h in rw (sym q) k

-- Whatever the directories hold, the images that `Discover` returns have valid names, no two of them
-- have the same name, and none is older by its name than one in front of it.
pub discover-Ascending :
    (crtime : Bytes → SignedNumber) (chase : Bytes → Result ChaseError Bytes)
    (stat : Bytes → Result ChaseError FileInfo)
    (read_dir_names : Bytes → Result ChaseError (List Bytes)) (native secondary : Bytes) (c : Class)
    (root : Bytes) (images : List Image)
    → discover crtime chase stat read_dir_names native secondary c root ≡ ok images
    → All ValidName images × Distinct images × Ascending images
unfolding discover
discover-Ascending crtime chase stat read_dir_names native secondary c root images h =
    let (xs, e, q) =
      >>=-eq-ok
        (scan_dirs crtime chase stat read_dir_names native secondary c root (search_path c) []) _
        h in
    let (v, d) =
      Scanned-IsFound crtime chase stat read_dir_names native secondary _
        (scan_dirs-Scanned crtime chase stat read_dir_names native secondary c root (search_path c)
          [] (tt, tt))
        e in
    rw (sym (ok_eq q))
      (All-sort_images ValidName xs v, sort_images-Distinct xs d, sort_images-Ascending xs)
