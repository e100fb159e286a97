-- ===== src/Tests/Release.antt =====
-- internal/release/lookup.go and cmd/sysext/verbs.go: their theorems applied to a small tree.
use sysext_alpine.Base.{
  ◌≡◌, refl, ◌≢◌, ◌↔◌, ◌⊎◌, Bool, true, false, [], ◌∷◌, none, some, Result, ok, err, Bytes, codes,
  same, join, split, cut, cut_last, trim_left_byte, trim_right_byte, trim_byte, is_abs, clean,
  clean_from, reversed, join_path, dir, contains, cut_suffix, has_byte, cut_prefix, if◌then◌else◌,
}
use sysext_alpine.Files.Chase.{
  Node, folder, leaf, ChaseError, enoent, chase, chase_in, follow_links, walk, is_missing,
}
use sysext_alpine.Release.EnvFile.{
  parse, steps, step, push, chomp, mark, mark_from, at_end, until_zero,
}
use sysext_alpine.Release.Class.{release_file_dir, sysext}
use sysext_alpine.Release.Validate.{Fields, field, lookup}
use sysext_alpine.Release.Names.{
  image_name_is_valid, hidden_or_backup_file, valid_utf8, valid_utf8_from, decode_rune,
  rune_is_valid,
}
use sysext_alpine.Release.Lookup.{
  scan, inspect, image_base_name, until_separator, strict_xattr_is_false, strict_rounds,
  lookup_os_release, read_regular_file, parse_file, Tree, unreadable, regular, chase_in_tree,
  lookup_extension_release, release_dir, host_os_release, host_scope,
}
use sysext_alpine.Release.Lookup.Candidates.{own_file, FoundIn, lookup_extension_release_iff}
use sysext_alpine.Discover.Images.{Image}
use sysext_alpine.Command.CheckImage.{CheckError, merge_options, check_image}
use sysext_alpine.Command.CheckImage.Accepted.{IsAccepted, merge_options-check_image}

abbrev release_file : Bytes
release_file = codes "extension-release.app"

abbrev release_path : Bytes
release_path = codes "/t/usr/lib/extension-release.d/extension-release.app"

-- A tree with the release file of 'app' and an os-release file.
abbrev node_at : Bytes → Result ChaseError Node
node_at p =
    if same p release_path
    then ok leaf
    else if same p (codes "/t/usr/lib/extension-release.d")
    then ok folder
    else if same p (codes "/t/usr/lib")
    then ok folder
    else if same p (codes "/t/usr")
    then ok folder
    else if same p (codes "/t/etc")
    then ok folder
    else if same p (codes "/t/etc/os-release")
    then ok leaf
    else err enoent

abbrev small_tree : Tree
small_tree = record {
  lstat = node_at;
  readlink = λ p. err enoent;
  abs = λ p. ok p;
  read_dir = λ p. ok ((release_file, true) ∷ (codes "other", true) ∷ []);
  lstat_regular = λ p. ok true;
  strict_attr = λ p n. unreadable;
  open_file = λ p. regular (codes "ID=alpine\n");
}

found_release :
    lookup_extension_release small_tree (codes "/t") (codes "app_1.2") sysext false
    ≡ ok release_path
unfolding lookup_extension_release scan inspect chase_in_tree chase chase_in follow_links walk join
    split cut cut_last trim_left_byte trim_right_byte trim_byte is_abs clean clean_from reversed
    join_path dir same image_name_is_valid valid_utf8 valid_utf8_from decode_rune rune_is_valid
    contains hidden_or_backup_file image_base_name cut_suffix until_separator has_byte
    strict_xattr_is_false strict_rounds release_file_dir is_missing cut_prefix
found_release = refl

lookup_extension_release_iff_example :
    (lookup_extension_release small_tree (codes "/t") (codes "app_1.2") sysext false
      ≡ ok release_path)
    ↔ ((image_name_is_valid (codes "app_1.2") ≡ true)
        × ((chase_in_tree small_tree (codes "/t") (own_file (codes "app_1.2") sysext)
              ≡ ok release_path)
            ⊎ ((chase_in_tree small_tree (codes "/t") (own_file (codes "app_1.2") sysext)
                  ≡ err enoent)
                × FoundIn small_tree
                    (codes "app_1.2")
                    false
                    release_path
                    (chase_in_tree small_tree (codes "/t") (release_dir sysext)))))
lookup_extension_release_iff_example =
    lookup_extension_release_iff small_tree (codes "/t") (codes "app_1.2") sysext false release_path

abbrev alpine : Fields
alpine = (codes "ID", codes "alpine") ∷ []

abbrev check_on_alpine : Image → Bytes → Result CheckError Bool
check_on_alpine =
    check_image small_tree none (codes "amd64") (some (codes "x86_64")) sysext false alpine
      (codes "system")

host_is_read :
    merge_options small_tree none (codes "amd64") (some (codes "x86_64")) sysext false (codes "/t")
    ≡ ok check_on_alpine
unfolding merge_options host_os_release lookup_os_release host_scope parse_file read_regular_file
    parse steps step push chomp mark mark_from at_end until_zero chase_in_tree chase chase_in
    follow_links walk join split cut cut_last trim_left_byte trim_right_byte trim_byte is_abs clean
    clean_from reversed join_path dir same is_missing valid_utf8 valid_utf8_from decode_rune
    rune_is_valid lookup
host_is_read = refl

merge_options-check_image_example :
    (host : Fields) × (scope : Bytes) × (host_os_release small_tree none (codes "/t") ≡ ok host)
    × (field host (codes "ID") ≢ [])
    × (host_scope small_tree (codes "/t") ≡ ok scope)
    × ((img : Image) (tree : Bytes)
        → (check_on_alpine img tree ≡ ok true)
          ↔ IsAccepted small_tree none
              (codes "amd64")
              (some (codes "x86_64"))
              sysext
              false
              host
              scope
              img
              tree)
merge_options-check_image_example =
    merge_options-check_image small_tree none (codes "amd64") (some (codes "x86_64")) sysext false
      (codes "/t") check_on_alpine host_is_read
