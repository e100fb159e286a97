-- ===== src/Tests.antt =====
-- The theorems applied to concrete inputs.
mod Settings
mod Paths
mod Tables
mod Metadata
mod Mounts
mod Engine
mod Spared
mod Release
use sysext_alpine.Base.{
  ℕ, suc, ◌≡◌, ◌≢◌, refl, ◌↔◌, true, false, [], ◌∷◌, none, some, Result, ok, err, codes, Bytes,
  Sign, less, equal, greater, flip, same, cut, split, join, trim_space, trim_left_from, trim_right,
  space_width, compare_bytes, not, All, contains, cut_suffix, cut_last, cut_prefix, List,
}
use sysext_alpine.Image.Designator.{Designator, root, designator_name, designator_from_string}
use sysext_alpine.Image.Gpt.{
  Partition, PartitionTable, lookup_gpt_type, gpt_types, all_types_of, types_of, find_type,
}
use sysext_alpine.Image.Policy.Flags.{
  PolicyFlag, single, pol_open, verity, signed, absent, unused, use_mask, policy_flag_from_string,
  set_names, use_words, pair_words, flag_words, flags_string,
}
use sysext_alpine.Image.Policy.Parse.{
  Policy, no_rules, set_rule, parse_words, parse_policy_flags, parse_rule, parse_rules,
  parse_policy, print_rule, rule_words, policy_string, normalize_policy,
}
use sysext_alpine.Image.Policy.Parse.FlagText.{kept}
use sysext_alpine.Image.Policy.Parse.FlagWords.{parse-flags_string}
use sysext_alpine.Image.Policy.Decide.{
  must_be_absent, bad_protection, exhaustive, may_use, may_use_flags, check_protection,
  check_partition_flags, or_default, derive_rule, extend_policy_flags, normalize_policy_flags,
}
use sysext_alpine.Image.Policy.Normalize.{parse-normalize}
use sysext_alpine.Image.Policy.Enforce.{may_use-check_protection}
use sysext_alpine.Image.Dissect.{
  Dissected, no_parts, set_at, found, VeritySettings, VeritySig, wanted, replaces, consider,
  is_candidate, other_verity, verity_data_of, take_candidate, see_gpt, is_skipped, dissect_gpt,
  dissect_from,
}
use sysext_alpine.Image.Dissect.Finish.{
  protection_of, check_verity, check_archs, pick_generic, check_root, check_pairs, check_settings,
  check_designator, check_designators, finish, dissect,
}
use sysext_alpine.Image.Dissect.Kept.{AllKept}
use sysext_alpine.Image.Dissect.Sound.{IsSound}
use sysext_alpine.Image.Dissect.Traced.{dissect-IsSound}
use sysext_alpine.Release.Class.{sysext}
use sysext_alpine.Release.Validate.{Fields, validate}
use sysext_alpine.Release.Validate.Compatible.{IsCompatible, validate_iff}
use sysext_alpine.Release.EnvFile.{Parser, steps, step, push, chomp, mark, mark_from, in_value}
use sysext_alpine.Release.EnvFile.Bounds.{in_bounds, steps-in_bounds}
use sysext_alpine.Discover.Version.{
  cmp_bool, until_nul, skip_separators, run_of, after_run, strip_zeros, return_unless_equal,
  check_mark, check_end, check_number, check_word, check_segment, round, go_on, compare_from,
  compare_versions,
}
use sysext_alpine.Discover.Version.Key.{version_key, compare_keys}
use sysext_alpine.Discover.Version.Order.{compare_versions-keys, compare_versions_order}
use sysext_alpine.Discover.Pick.{PickResult, better, better_rest, base, trim_slashes, tries_unset}
use sysext_alpine.Discover.Pick.Order.{better_order}
use sysext_alpine.Service.Units.{
  unit_name_is_valid, instance_is_valid, service_name, Extension, collect_actions, is_empty,
}
use sysext_alpine.Service.Units.Actions.{collect_actions_lem}
use sysext_alpine.Release.Arch.{is_architecture}
use sysext_alpine.Discover.Pick.{
  Mode, regular, TypeMask, parse_entry, cut_tries, cut_arch, version_is_valid, parse_tries,
  keep_better, candidate, pick_from, pick_version, matches,
}
use sysext_alpine.Discover.Pick.Best.{IsBest, pick_version-IsBest}
use sysext_alpine.Image.Policy.Decide.{get, get_from, explicit_or, from_data}
use sysext_alpine.Release.Names.{valid_utf8, valid_utf8_from, decode_rune, rune_is_valid}
use sysext_alpine.Release.EnvFile.{parse}
use sysext_alpine.Release.EnvFile.Quoted.{IsAssignment, onto, print_env, parse-print_env}

abbrev policy_text : Bytes
policy_text = codes "root=verity+signed:bogus=unused:=ignore"

abbrev normal_text : Bytes
normal_text = codes "=ignore:root=verity+signed"

parse-normalize_example :
    (p : Policy) × (q : Policy) × (parse_policy policy_text true ≡ ok p)
    × (parse_policy normal_text false ≡ ok q)
    × ((d : Designator) → exhaustive q d ≡ exhaustive p d)
unfolding normalize_policy parse_policy parse_rules parse_rule parse_policy_flags parse_words
    policy_string rule_words print_rule policy_flag_from_string set_names use_words pair_words
    flag_words flags_string same cut split join trim_space trim_left_from trim_right space_width
    designator_name designator_from_string
parse-normalize_example = parse-normalize policy_text normal_text refl refl

parse-flags_string_example :
    parse_policy_flags (flags_string (single verity)) false ≡ ok (kept (single verity))
parse-flags_string_example = parse-flags_string (single verity) false

abbrev open_policy : Policy
open_policy = record { rules = no_rules; def = pol_open }

abbrev absent_policy : Policy
absent_policy = record { rules = no_rules; def = single absent }

may_use-check_protection_example :
    (may_use absent_policy root ≡ err must_be_absent
      → check_protection absent_policy root (single verity) ≡ err bad_protection)
    × (may_use absent_policy root ≡ ok false
        → check_protection absent_policy root (single unused) ≡ ok tt)
may_use-check_protection_example =
    may_use-check_protection absent_policy root (single verity) verity_is_use refl
  where
    verity_is_use : (x : PolicyFlag) → single verity x ≡ true → use_mask x ≡ true
    verity_is_use verity h = refl
    verity_is_use x h = cc

abbrev root_part : Partition
root_part = record {
  part_index = 1;
  type_guid = codes "4f68bce3-e8cd-4db1-96e7-fbcaf984b709";
  uuid = codes "5f6c1d0a-0000-4000-8000-000000000001";
  mbr_type = 0;
  start = 2048;
  sectors = 4096;
  attrs = 0;
  label = codes "root";
}

abbrev one_part : PartitionTable
one_part = record { gpt = true; sector_size = 512; partitions = root_part ∷ [] }

abbrev no_settings : VeritySettings
no_settings = record { root_hash = []; sig = []; of_part = none }

abbrev with_root : Dissected
with_root = record {
  parts = set_at root (some root_part) no_parts.parts;
  archs = set_at root (codes "x86-64") no_parts.archs;
  gpt_flags = set_at root 0 no_parts.gpt_flags;
  ignored = set_at root false no_parts.ignored;
}

abbrev no_sig : Partition → Result Unit VeritySig
no_sig p = err tt

abbrev no_machine_id : Result Unit Bytes
no_machine_id = err tt

abbrev no_mac : Bytes → Bytes → Bytes
no_mac key message = []

dissect_example :
    dissect open_policy no_settings (codes "x86-64") no_sig no_machine_id no_mac one_part
    ≡ ok with_root
unfolding dissect dissect_from dissect_gpt is_skipped see_gpt take_candidate consider replaces
    is_candidate other_verity verity_data_of wanted lookup_gpt_type gpt_types all_types_of types_of
    find_type finish check_verity check_archs pick_generic check_root check_pairs check_settings
    check_designators check_designator protection_of found set_at may_use may_use_flags exhaustive
    get get_from or_default from_data explicit_or derive_rule extend_policy_flags
    normalize_policy_flags check_protection check_partition_flags same
dissect_example = refl

dissect-IsSound_example :
    IsSound open_policy with_root × AllKept open_policy (λ p. p.sectors ≡ 4096) with_root.parts
dissect-IsSound_example =
    dissect-IsSound open_policy no_settings (codes "x86-64") no_sig no_machine_id no_mac
      (λ p. p.sectors ≡ 4096) one_part with_root dissect_example (refl, tt)

abbrev host_fields : Fields
host_fields = (codes "ID", codes "alpine") ∷ (codes "VERSION_ID", codes "3.22") ∷ []

validate_iff_example :
    ((validate host_fields host_fields sysext (codes "x86-64") []).0 ≡ true)
    ↔ IsCompatible host_fields host_fields sysext (codes "x86-64") []
validate_iff_example = validate_iff host_fields host_fields sysext (codes "x86-64") []

compare_versions-keys_example :
    compare_versions (codes "1.9") (codes "1.10")
    ≡ some (compare_keys (version_key (codes "1.9")) (version_key (codes "1.10")))
compare_versions-keys_example = compare_versions-keys (codes "1.9") (codes "1.10")

older : compare_versions (codes "1.0~rc1") (codes "1.0") ≡ some less
unfolding cmp_bool until_nul skip_separators run_of after_run strip_zeros return_unless_equal
    check_mark check_end check_number check_word check_segment round go_on compare_from
    compare_versions compare_bytes
older = refl

newer : compare_versions (codes "1.0") (codes "1.10") ≡ some less
unfolding cmp_bool until_nul skip_separators run_of after_run strip_zeros return_unless_equal
    check_mark check_end check_number check_word check_segment round go_on compare_from
    compare_versions compare_bytes
newer = refl

alike : compare_versions (codes "01.5") (codes "1.5") ≡ some equal
unfolding cmp_bool until_nul skip_separators run_of after_run strip_zeros return_unless_equal
    check_mark check_end check_number check_word check_segment round go_on compare_from
    compare_versions compare_bytes
alike = refl

compare_versions_order_example :
    (s : Sign) × (compare_versions (codes "1.0~rc1") (codes "1.0") ≡ some s)
    × (compare_versions (codes "1.0") (codes "1.0~rc1") ≡ some (flip s))
    × (s ≡ less
        → compare_versions (codes "1.0") (codes "1.10") ≡ some less
        → compare_versions (codes "1.0~rc1") (codes "1.10") ≡ some less)
    × (s ≡ equal
        → compare_versions (codes "1.0~rc1") (codes "1.10")
          ≡ compare_versions (codes "1.0") (codes "1.10"))
compare_versions_order_example =
    compare_versions_order (codes "1.0~rc1") (codes "1.0") (codes "1.10")

abbrev pick_of : Bytes → PickResult
pick_of v = record {
  path = codes "a.v/a_1.raw";
  version = v;
  arch = [];
  tries_left = tries_unset;
  tries_done = tries_unset;
}

better_order_example :
    (s : Sign) × (better (codes "x86-64") (codes "x86") (pick_of (codes "1")) (pick_of (codes "2"))
      ≡ some s)
    × (better (codes "x86-64") (codes "x86") (pick_of (codes "2")) (pick_of (codes "1"))
        ≡ some (flip s))
    × (s ≢ greater
        → better (codes "x86-64") (codes "x86") (pick_of (codes "2")) (pick_of (codes "3"))
          ≢ some greater
        → better (codes "x86-64") (codes "x86") (pick_of (codes "1")) (pick_of (codes "3"))
          ≢ some greater)
better_order_example =
    better_order (codes "x86-64") (codes "x86") (pick_of (codes "1")) (pick_of (codes "2"))
      (pick_of (codes "3"))

-- A value with a white space mark.
abbrev read_so_far : Parser
read_so_far = record {
  state = in_value;
  key = codes "A";
  value = codes "b ";
  key_ws = none;
  value_ws = some 1;
  assigned = [];
}

steps-in_bounds_example : in_bounds in_value read_so_far ≡ true
unfolding steps step push chomp mark mark_from
steps-in_bounds_example = steps-in_bounds (codes "A=b ") read_so_far refl

abbrev one_extension : Extension
one_extension = record {
  ext_name = codes "tools";
  ext_fields =
      (codes "EXTENSION_RESTART_UNITS", codes "a.service b@1.service x")
      ∷ (codes "EXTENSION_RELOAD_OR_RESTART_UNITS", codes "a.service c.socket")
      ∷ [];
}

collect_actions_lem_example :
    All (λ u. unit_name_is_valid u ≡ true) (collect_actions (one_extension ∷ [])).to_restart
    × All
        (λ u.
          (unit_name_is_valid u ≡ true)
          × (contains (collect_actions (one_extension ∷ [])).to_restart u ≡ false))
        (collect_actions (one_extension ∷ [])).to_reload
    × (is_empty (collect_actions (one_extension ∷ []))
        ≡ not (collect_actions (one_extension ∷ [])).reload)
collect_actions_lem_example = collect_actions_lem (one_extension ∷ [])

multiplexed : service_name (codes "foo@bar.service") ≡ some (codes "foo.bar")
unfolding service_name cut_suffix cut
multiplexed = refl

template_is_invalid : unit_name_is_valid (codes "foo@.service") ≡ false
unfolding unit_name_is_valid instance_is_valid cut cut_last contains same
template_is_invalid = refl

abbrev same_path : Bytes → Result Unit Bytes
same_path p = ok p

abbrev all_regular : Bytes → Result Unit Mode
all_regular p = ok regular

abbrev any_mode : TypeMask
any_mode = record { reg = true; blk = true; dir = true }

abbrev entry_names : List Bytes
entry_names = codes "app_1.raw" ∷ codes "app_2.raw" ∷ codes "other" ∷ []

abbrev second_entry : PickResult
second_entry = record {
  path = codes "app_2.raw";
  version = codes "2";
  arch = [];
  tries_left = tries_unset;
  tries_done = tries_unset;
}

second_is_picked :
    pick_version same_path all_regular
      (codes "app")
      (codes ".raw")
      (codes "x86-64")
      (codes "x86")
      any_mode
      (ok entry_names)
    ≡ ok (some second_entry)
unfolding pick_version pick_from candidate parse_entry cut_prefix cut_suffix cut_tries cut_arch
    cut_last version_is_valid matches keep_better better better_rest same base trim_slashes
    compare_bytes is_architecture parse_tries cmp_bool until_nul skip_separators run_of after_run
    strip_zeros return_unless_equal check_mark check_end check_number check_word check_segment round
    go_on compare_from compare_versions
second_is_picked = refl

pick_version-IsBest_example :
    IsBest same_path all_regular
      (codes "app")
      (codes ".raw")
      (codes "x86-64")
      (codes "x86")
      any_mode
      entry_names
      (some second_entry)
pick_version-IsBest_example =
    pick_version-IsBest same_path all_regular (codes "app") (codes ".raw") (codes "x86-64")
      (codes "x86") any_mode entry_names (some second_entry) second_is_picked

abbrev signed_root : Policy
signed_root = set_rule (record { rules = no_rules; def = single absent }) root (single signed)

abbrev quoted_value : Bytes
quoted_value = codes "3.22 $(id) `x` 'y' ;z"

abbrev two_assignments : List (Bytes × Bytes)
two_assignments = (codes "ID", codes "alpine") ∷ (codes "PRETTY_NAME", quoted_value) ∷ []

id-IsAssignment : IsAssignment (codes "ID", codes "alpine")
unfolding valid_utf8 valid_utf8_from decode_rune rune_is_valid
id-IsAssignment = record {
  key_valid = refl;
  value_valid = refl;
  key_bytes = refl;
  value_bytes = refl;
  starts = refl;
  no_comment = refl;
}

pretty_name-IsAssignment : IsAssignment (codes "PRETTY_NAME", quoted_value)
unfolding valid_utf8 valid_utf8_from decode_rune rune_is_valid
pretty_name-IsAssignment = record {
  key_valid = refl;
  value_valid = refl;
  key_bytes = refl;
  value_bytes = refl;
  starts = refl;
  no_comment = refl;
}

parse-print_env_example : parse (print_env two_assignments) ≡ ok (onto two_assignments [])
parse-print_env_example =
    parse-print_env two_assignments (id-IsAssignment, (pretty_name-IsAssignment, tt))
