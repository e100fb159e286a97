-- ===== src/Tests/Engine.antt =====
-- internal/overlay/engine.go, overlay.go and mounts.go: their theorems applied to a concrete kernel. It has
-- one overlay of ours on /usr, with a mount below it, and something mounted in the workspace.
use sysext_alpine.Base.{
  ℕ, ◌+◌, ◌*◌, ◌/◌, ◌%◌, ◌≤◌, ◌<◌, ◌≡◌, refl, Bool, true, false, not, ◌&&◌, ◌||◌, List, [], ◌∷◌,
  ◌++◌, Option, none, some, ok, err, Bytes, codes, same, any, All, has_suffix, if◌then◌else◌, arith,
  is_abs, join_path, clean, clean_from, join, reversed, split, contains, cut_suffix, cut,
  compare_bytes,
}
use sysext_alpine.Overlay.Submounts.{
  detach_targets, has_mounts_below, select_top, top_of, is_nested, choose_paths, compare_lists,
  compare_paths, insert_path, select_submounts, sort_paths,
}
use sysext_alpine.Overlay.Markers.{marker_dir_name, parse_devnum, first_line, is_decimal}
use sysext_alpine.Discover.Pick.{digits_value}
use sysext_alpine.Release.Class.{sysext}
use sysext_alpine.Files.Chase.{enoent, folder}
use sysext_alpine.Files.Mounts.{
  MountInfo, is_below, below_clean, components, drop_common, mounts_below,
}
use sysext_alpine.Overlay.Options.{default}
use sysext_alpine.Overlay.Mutable.{no_mode}
use sysext_alpine.Overlay.Kernel.{
  Fault, missing, invalid, Event, unmount_lazy, remove_all, Trace, Kernel, call, for_each,
}
use sysext_alpine.Overlay.Workspace.{
  remove_tree, detach_all, detach_rounds, detach, below_workspace,
}
use sysext_alpine.Overlay.Workspace.Detached.{remove_tree-detach_all}
use sysext_alpine.Overlay.Unmerge.{
  is_our_mount_point, take_submounts, unmerge_hierarchy, unmerge_rounds, before_unmount,
  recorded_work_dir, clone_all,
}
use sysext_alpine.Overlay.Unmerge.Undoes.{undoes}
use sysext_alpine.Overlay.Unmerge.Taken.{Balanced, take_submounts-Balanced}
use sysext_alpine.Overlay.Unmerge.Ends.{
  unmerge_hierarchy-is_our_mount_point, unmerge_hierarchy-rounds,
}
use sysext_alpine.Overlay.Engine.{MergeOp, MergeOptions}
use sysext_alpine.Overlay.Engine.Run.{empty_outcome, look_up_all}
use sysext_alpine.Overlay.Engine.Lookup.{Untouched, look_up_all-Untouched}
use sysext_alpine.Overlay.Engine.Restored.{IsUndone, abort-IsUndone}
use sysext_alpine.Overlay.Engine.Swap.{abort}

abbrev usr : Bytes
usr = codes "/usr"

abbrev pub workspace : Bytes
workspace = codes "/run/systemd/sysext"

abbrev unmounts : Bytes → Event → Bool
unmounts d (unmount_lazy p) = same p d
unmounts d e = false

abbrev answer : Trace → Event → Option Fault
answer t (unmount_lazy p) = if any (unmounts p) t then some invalid else none
answer t e = none

abbrev mount_at : Bytes → MountInfo
mount_at p = record {
  id = record { negative = false; size = 30 };
  parent_id = record { negative = false; size = 29 };
  major = 8;
  minor = 1;
  root = codes "/";
  mount_point = p;
  options = codes "rw";
  optional = [];
  fs_type = codes "ext4";
  source = codes "/dev/sda1";
  super_opts = codes "rw";
}

abbrev unless_gone : Trace → Bytes → List MountInfo
unless_gone t p = if any (unmounts p) t then [] else mount_at p ∷ []

abbrev pub one_overlay : Kernel
one_overlay = record {
  perform = answer;
  lstat = λ t p. ok folder;
  readlink = λ t p. err enoent;
  abs = λ p. ok p;
  stat = λ t p. ok (record { dev = 2049; ino = 2; file_type = 0x4000; permissions = 0o755 });
  lstat_dev = λ t p. ok 2049;
  read_file = λ t p. if has_suffix (codes "/dev") p then ok (codes "8:1\n") else err missing;
  is_empty = λ t p. ok false;
  is_read_only = λ t p. ok false;
  mount_table =
      λ t. ok (unless_gone t (codes "/run/systemd/sysext") ++ unless_gone t (codes "/usr/local"));
  is_mount_point = λ t p. ok (same p (codes "/usr") && not (any (unmounts p) t));
  visible = λ t m. true;
  is_dir_mount = λ t p. true;
  temp_name = λ t p. p ++ codes "/next.1";
  root_hash = λ t p. [];
  check = λ t p d. ok true;
  json_equal = λ a b. ok false;
  inode = λ t p. ok 7;
  handle = λ b t p. err invalid;
  unique_mount_id = λ t p. some 4;
  legacy_mount_id = λ t p. none;
  fdinfo_mount_id = λ t p. err missing;
  major = λ d. d / 256;
  minor = λ d. d % 256;
  mkdev = λ a b. a * 256 + b;
}

take_submounts-Balanced_example :
    Balanced [] (take_submounts one_overlay sysext usr (λ p. false) [])
take_submounts-Balanced_example = take_submounts-Balanced one_overlay sysext usr (λ p. false) []

remove_tree-detach_all_example :
    remove_tree one_overlay workspace (detach_all one_overlay workspace []).1
    ≡ call one_overlay (remove_all workspace) (detach_all one_overlay workspace []).1
unfolding detach_all detach_rounds detach_targets has_mounts_below for_each select_top top_of
    is_nested detach call is_below below_clean components drop_common is_abs join_path clean
    clean_from join reversed split same contains cut_suffix cut compare_bytes marker_dir_name
    parse_devnum first_line is_decimal digits_value
remove_tree-detach_all_example = remove_tree-detach_all one_overlay workspace [] refl

unmerge_hierarchy-is_our_mount_point_example :
    is_our_mount_point one_overlay sysext usr
      (unmerge_hierarchy one_overlay sysext (codes "/") usr usr workspace 3 []).3
    ≡ ok false
unfolding unmerge_hierarchy unmerge_rounds before_unmount is_our_mount_point recorded_work_dir
    take_submounts clone_all detach remove_tree below_workspace call for_each choose_paths
    compare_lists compare_paths insert_path is_nested select_submounts select_top sort_paths top_of
    mounts_below is_below below_clean components drop_common is_abs join_path clean clean_from join
    reversed split same contains cut_suffix cut compare_bytes marker_dir_name parse_devnum
    first_line is_decimal digits_value
unmerge_hierarchy-is_our_mount_point_example =
    unmerge_hierarchy-is_our_mount_point one_overlay sysext (codes "/") usr usr workspace 3 [] refl

-- One overlay is on /usr until it is unmounted.
abbrev overlays : Trace → ℕ
overlays t = if any (unmounts usr) t then 0 else 1

abbrev count_for : Bool → ℕ
count_for b = if b then 0 else 1

or_swap : (a b c : Bool) → (a || (b || c)) ≡ (b || (a || c))
or_swap true true c = refl
or_swap true false c = refl
or_swap false b c = refl

any_last : (f : Event → Bool) (t : Trace) (e : Event) → any f (t ++ (e ∷ [])) ≡ (f e || any f t)
any_last f [] e = refl
any_last f (x ∷ t) e = rw (any_last f t e) (or_swap (f x) (f e) (any f t))

count_less : (a b : Bool) → count_for (a || b) ≤ count_for b
count_less true true = omega arith
count_less true false = omega arith
count_less false b = omega arith

count_drop : (b : Bool) → (if b then some invalid else none) ≡ none → 0 < count_for b
count_drop true h = cc
count_drop false h = omega arith

overlays_less : (t : Trace) (e : Event) → undoes e ≡ true → overlays (t ++ (e ∷ [])) ≤ overlays t
overlays_less t e h =
    rw (any_last (unmounts usr) t e) (count_less (unmounts usr e) (any (unmounts usr) t))

overlays_drop :
    (t : Trace)
    → answer t (unmount_lazy usr) ≡ none
    → overlays (t ++ (unmount_lazy usr ∷ [])) < overlays t
unfolding same
overlays_drop t h =
    rw (any_last (unmounts usr) t (unmount_lazy usr)) (count_drop (any (unmounts usr) t) h)

unmerge_hierarchy-rounds_example :
    unmerge_hierarchy one_overlay sysext (codes "/") usr usr workspace 2 []
    ≡ unmerge_hierarchy one_overlay sysext (codes "/") usr usr workspace 9 []
unmerge_hierarchy-rounds_example =
    unmerge_hierarchy-rounds one_overlay sysext (codes "/") usr usr workspace overlays overlays_less
      overlays_drop 2 9 [] (omega arith) (omega arith)

abbrev plain_options : MergeOptions
plain_options = record { mount_options = none; no_exec = default; always_refresh = false }

abbrev pub new_op : MergeOp
new_op = record {
  class = sysext;
  opts = plain_options;
  mode = no_mode;
  root = codes "/";
  roots = [];
  ws = workspace;
  gen = [];
  fresh_ws = false;
  hiers = [];
  images = [];
  ignored = 0;
  swapping = false;
  committed = false;
}

look_up_all-Untouched_example :
    Untouched
      (empty_outcome, [])
      (look_up_all one_overlay 2 false (usr ∷ codes "/opt" ∷ []) (new_op, (empty_outcome, [])))
look_up_all-Untouched_example =
    look_up_all-Untouched one_overlay 2 (usr ∷ codes "/opt" ∷ []) (empty_outcome, []) new_op tt

-- An operation whose overlay is on /usr, with one mount below it that was saved.
abbrev half_done : MergeOp
half_done = record new_op {
  hiers =
      record {
        path = usr;
        target = usr;
        host = usr;
        merged = true;
        used = [];
        mount = true;
        staging = codes "/run/systemd/sysext/staging/usr";
        staging_mounted = false;
        attached = true;
        unmerged = true;
        subs = record { rel = codes "local"; pending = true; dir_mode = true } ∷ [];
      }
      ∷ [];
  swapping = true;
}

abort-IsUndone_example :
    All
      (IsUndone one_overlay [] (abort one_overlay 2 (half_done, (empty_outcome, []))).1.1.1)
      half_done.hiers
abort-IsUndone_example = abort-IsUndone one_overlay 2 half_done empty_outcome [] refl
