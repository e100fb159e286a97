-- ===== src/Tests/Paths.antt =====
-- internal/fsutil/chase.go and internal/discover/discover.go: their theorems applied to concrete inputs.
use sysext_alpine.Base.{
  SignedNumber, no_number, ◌≡◌, refl, false, List, [], ◌∷◌, ◌++◌, Result, ok, err, Bytes, codes,
  All, join, split, same, cut, cut_suffix, trim_left_byte, trim_right_byte, trim_byte, is_abs,
  clean, clean_from, reversed, join_path, dir, has_byte, cut_last, cut_prefix, contains,
  compare_bytes, if◌then◌else◌, arith,
}
use sysext_alpine.Release.Class.{sysext}
use sysext_alpine.Release.Names.{
  image_name_is_valid, valid_utf8, valid_utf8_from, decode_rune, rune_is_valid,
}
use sysext_alpine.Files.Chase.{
  Node, folder, link, ChaseError, enoent, eloop, walk, follow_links, chase_in, is_missing,
}
use sysext_alpine.Files.Chase.Rooted.{IsComponent}
use sysext_alpine.Files.Chase.Confined.{chase_in-IsComponent}
use sysext_alpine.Files.Chase.Fuel.{walk-length}
use sysext_alpine.Discover.Version.{
  compare_versions, compare_from, round, check_mark, skip_separators, until_nul, check_end,
  check_segment, check_word, run_of,
}
use sysext_alpine.Discover.Pick.{regular}
use sysext_alpine.Discover.Images.{
  Image, type_raw, FileInfo, search_path, class_suffix, cut_format, extract_image_basename,
  relative_to_root, insert_image, sort_images, make_image, add_image, name_entry, scan_entry,
  scan_names, scan_dirs, discover,
}
use sysext_alpine.Discover.Images.Sorted.{Distinct, Ascending, ValidName}
use sysext_alpine.Discover.Images.Installed.{discover-Ascending}

abbrev all_folders : Bytes → Result ChaseError Node
all_folders p = ok (if same p (codes "/srv/root/up") then link else folder)

abbrev link_up : Bytes → Result ChaseError Bytes
link_up p = ok (codes "../../../etc")

abbrev srv_root : List Bytes
srv_root = codes "srv" ∷ codes "root" ∷ []

resolved_inside :
    chase_in all_folders link_up (b'/' ∷ join b'/' srv_root) false (codes "up/../../b")
    ≡ ok (codes "/srv/root/b")
unfolding chase_in follow_links walk join split cut cut_last trim_left_byte trim_right_byte
    trim_byte is_abs clean clean_from reversed join_path dir same
resolved_inside = refl

chase_in-IsComponent_example :
    (cs : List Bytes) × All IsComponent cs
    × (codes "/srv/root/b" ≡ b'/' ∷ join b'/' (srv_root ++ cs))
chase_in-IsComponent_example =
    chase_in-IsComponent all_folders link_up false (codes "up/../../b") srv_root srv_root_components
      resolved_inside
  where
    srv_root_components : All IsComponent srv_root
    srv_root_components =
        unfold same has_byte in ((refl, refl, refl, refl), ((refl, refl, refl, refl), tt))

walk-length_example :
    walk all_folders link_up
      (codes "/srv/root")
      false
      (err eloop)
      (λ full d t. err eloop)
      20
      (codes "/")
      (codes "a/../b")
    ≡ walk all_folders link_up
        (codes "/srv/root")
        false
        (ok [])
        (λ full d t. err eloop)
        900
        (codes "/")
        (codes "a/../b")
walk-length_example =
    walk-length all_folders link_up (codes "/srv/root") false (err eloop) (ok [])
      (λ full d t. err eloop) 20 900 (codes "/") (codes "a/../b") (omega arith) (omega arith)

abbrev same_entry : Bytes → Result ChaseError Bytes
same_entry p = ok p

abbrev regular_entry : Bytes → Result ChaseError FileInfo
regular_entry p = ok (record { kind = regular; mod_time = record { negative = false; size = 7 } })

abbrev only_etc : Bytes → Result ChaseError (List Bytes)
only_etc p =
    if same p (codes "/etc/extensions")
    then ok (codes "b.raw" ∷ codes "a.sysext.raw" ∷ codes "x" ∷ [])
    else err enoent

abbrev no_time : Bytes → SignedNumber
no_time p = no_number

abbrev image_of : Bytes → Bytes → Image
image_of name path = record {
  name = name;
  path = path;
  image_type = type_raw;
  m_time = record { negative = false; size = 7 };
  cr_time = no_number;
}

abbrev two_images : List Image
two_images =
    image_of (codes "a") (codes "/etc/extensions/a.sysext.raw")
    ∷ image_of (codes "b") (codes "/etc/extensions/b.raw")
    ∷ []

two_are_found :
    discover no_time same_entry regular_entry only_etc
      (codes "x86-64")
      (codes "x86")
      sysext
      (codes "/")
    ≡ ok two_images
unfolding discover scan_dirs scan_names scan_entry name_entry add_image make_image sort_images
    insert_image relative_to_root extract_image_basename cut_format class_suffix search_path
    image_name_is_valid valid_utf8 valid_utf8_from decode_rune rune_is_valid same cut cut_suffix
    cut_prefix cut_last split join trim_left_byte trim_right_byte trim_byte is_abs clean clean_from
    reversed join_path dir contains compare_bytes is_missing has_byte compare_versions compare_from
    round check_mark skip_separators until_nul check_end check_segment check_word run_of
two_are_found = refl

discover-Ascending_example : All ValidName two_images × Distinct two_images × Ascending two_images
discover-Ascending_example =
    discover-Ascending no_time same_entry regular_entry only_etc (codes "x86-64") (codes "x86")
      sysext (codes "/") two_images two_are_found
