-- ===== src/Overlay/Unmerge.antt =====
-- internal/overlay/overlay.go, markers.go and mounts.go: taking the mounts below a hierarchy aside,
-- and unmerging a hierarchy. `rounds` bounds the overlays that are stacked on a hierarchy, each of
-- which takes one turn of the loop.
pub mod Undoes
pub mod Ends
pub mod Taken
use sysext_alpine.Base.{
  ℕ, zero, suc, ◌+◌, Bool, true, false, not, ◌&&◌, ◌||◌, List, [], ◌∷◌, ◌++◌, Option, none, some,
  Result, ok, err, Bytes, codes, same, ◌==◌, null, join, is_abs, join_path, dir, if◌then◌else◌,
}
use sysext_alpine.Release.Class.{Class}
use sysext_alpine.Discover.Pick.{base}
use sysext_alpine.Files.Mounts.{MountInfo, components, drop_common}
use sysext_alpine.Overlay.Markers.{
  DevnumError, marker_dir_name, first_line, parse_devnum, cunescape, path_is_normalized,
  work_dir_name,
}
use sysext_alpine.Overlay.Submounts.{SavedMount, MountError, select_submounts}
use sysext_alpine.Overlay.Kernel.{
  Fault, missing, is_missing, invalid, refused, other, out_of_rounds, Event, unmount_lazy,
  clone_mount, Trace, Kernel, Io, after, ◌>>=◌, ◌>>◌, pure, fail, ask, attempt, ignore, for_each,
  when, or_if_missing, call, chased,
}
use sysext_alpine.Overlay.Workspace.{detach, remove_tree, attach_saved, below_workspace}

-- The mounts saved, how many overlays were unmounted, and the error that ended the loop.
abbrev pub Unmerged : Type 0
Unmerged = List SavedMount × ℕ × Option Fault × Trace

module _ (K : Kernel) (c : Class) where
  abbrev pub marker_in : Bytes → Bytes → Bytes
  marker_in d name = join_path (join_path d (marker_dir_name c)) name

  abbrev dev_is : Result Fault ℕ → ℕ → Result Fault Bool
  dev_is (err e) dev = err e
  dev_is (ok n) dev = ok (n == dev)

  abbrev marked : Trace → Bytes → Result DevnumError ℕ → Result Fault Bool
  marked t d (err e) = err invalid
  marked t d (ok dev) = dev_is (K.lstat_dev t d) dev

  abbrev with_marker : Trace → Bytes → Result Fault Bytes → Result Fault Bool
  with_marker t d (err missing) = ok false
  with_marker t d (err e) = err e
  with_marker t d (ok text) = marked t d (parse_devnum K.major K.minor K.mkdev (first_line text))

  abbrev if_mounted : Trace → Bytes → Result Fault Bool → Result Fault Bool
  if_mounted t d (err e) = err e
  if_mounted t d (ok false) = ok false
  if_mounted t d (ok true) = with_marker t d (K.read_file t (marker_in d (codes "dev")))

  -- `isOurMountPoint`
  unfoldable pub is_our_mount_point : Bytes → Trace → Result Fault Bool
  is_our_mount_point d t = if_mounted t d (K.is_mount_point t d)

  abbrev work_in : Bytes → Result Fault Bytes → Result Fault Bytes
  work_in rel (ok r) = ok (join_path r (base rel))
  work_in rel (err missing) = ok []
  work_in rel (err e) = err e

  abbrev work_of : Bytes → Bytes → Trace → Option Bytes → Result Fault Bytes
  work_of root hierarchy t none = err invalid
  work_of root hierarchy t (some rel) =
      if is_abs rel || not (path_is_normalized rel)
      then err invalid
      else if not (same (base rel) (work_dir_name hierarchy))
      then err refused
      else work_in rel (chased K root (dir rel) false t)

  abbrev recorded : Bytes → Bytes → Trace → Result Fault Bytes → Result Fault Bytes
  recorded root hierarchy t (err missing) = ok []
  recorded root hierarchy t (err e) = err e
  recorded root hierarchy t (ok text) = work_of root hierarchy t (cunescape (first_line text))

  -- `recordedWorkDir`
  unfoldable pub recorded_work_dir : Bytes → Bytes → Bytes → Trace → Result Fault Bytes
  recorded_work_dir root d hierarchy t =
      recorded root hierarchy t (K.read_file t (marker_in d (codes "work_dir")))

  -- `cloneMount`: open_tree, mount_setattr and fstat are one event.
  abbrev clone_of : Bytes → Bytes → Trace → SavedMount
  clone_of d p t = record {
    rel = join b'/' (drop_common (components d) (components p)).1;
    pending = true;
    dir_mode = K.is_dir_mount t p;
  }

  abbrev Clones : Type 0
  Clones = List SavedMount × List Bytes

  abbrev cloned : Bytes → Bytes → Clones → Result Fault Unit → Io Clones
  cloned d p (saved, originals) (err e) = if is_missing e then pure (saved, originals) else fail e
  cloned d p (saved, originals) (ok u) =
      ask (λ t. ok (saved ++ (clone_of d p t ∷ []), originals ++ (p ∷ [])))

  unfoldable pub clone_all : Bytes → List Bytes → Clones → Io Clones
  clone_all d [] done = pure done
  clone_all d (p ∷ ps) done =
      (attempt (call K (clone_mount p)) >>= cloned d p done) >>= clone_all d ps

  abbrev saved_paths :
      Bytes
      → (Bytes → Bool)
      → (MountInfo → Bool)
      → Result Fault (List MountInfo)
      → Result Fault (List Bytes)
  saved_paths d skip visible (err e) = err e
  saved_paths d skip visible (ok mounts) = ok (select_submounts mounts d skip visible)

  -- `takeSubmounts`
  unfoldable pub take_submounts : Bytes → (Bytes → Bool) → Io (List SavedMount)
  take_submounts d skip = ask (λ t. saved_paths d skip (K.visible t) (K.mount_table t)) >>= λ paths.
      clone_all d paths ([], []) >>= λ clones.
      for_each clones.1 (λ p. ignore (call K (unmount_lazy p))) >> pure clones.0

  module _ (root hierarchy d ws : Bytes) where
    abbrev pub take_aside : Bool → Io (Option (Bytes × List SavedMount))
    take_aside false = pure none
    take_aside true = ask (recorded_work_dir root d hierarchy) >>= λ work.
        detach K (join_path d (marker_dir_name c))
        >> (take_submounts d (below_workspace K ws d) >>= λ subs. pure (some (work, subs)))

    -- A turn up to the unmount: `none` when the hierarchy is not merged.
    unfoldable pub before_unmount : Io (Option (Bytes × List SavedMount))
    before_unmount = ask (is_our_mount_point d) >>= take_aside

    abbrev pub removed :
        List SavedMount → ℕ → Result Fault Unit × Trace → (Trace → Unmerged) → Unmerged
    removed subs n (err e, t) next = (subs, n, some e, t)
    removed subs n (ok u, t) next = next t

    abbrev pub unmounted :
        List SavedMount → ℕ → Bytes → Result Fault Unit × Trace → (Trace → Unmerged) → Unmerged
    unmounted subs n work (err e, t) next = (subs, n, some e, t)
    unmounted subs n work (ok u, t) next =
        removed subs (suc n) (when (not (null work)) (remove_tree K work) t) next

    abbrev pub unmount_turn :
        List SavedMount
        → ℕ
        → Result Fault (Option (Bytes × List SavedMount)) × Trace
        → (List SavedMount → Trace → Unmerged)
        → Unmerged
    unmount_turn subs n (err e, t) next = (subs, n, some e, t)
    unmount_turn subs n (ok none, t) next = (subs, n, none, t)
    unmount_turn subs n (ok (some (work, s)), t) next =
        unmounted (subs ++ s) n work (call K (unmount_lazy d) t) (next (subs ++ s))

    unfoldable pub unmerge_rounds : ℕ → List SavedMount → ℕ → Trace → Unmerged
    unmerge_rounds zero subs n t = (subs, n, some out_of_rounds, t)
    unmerge_rounds (suc rounds) subs n t =
        unmount_turn subs n (before_unmount t) (λ more u. unmerge_rounds rounds more (suc n) u)

    -- `unmergeHierarchy`
    unfoldable pub unmerge_hierarchy : ℕ → Trace → Unmerged
    unmerge_hierarchy rounds t = unmerge_rounds rounds [] 0 t

    abbrev pub join_errors : Option Fault → List MountError → Option Fault
    join_errors (some e) errors = some e
    join_errors none [] = none
    join_errors none (e ∷ errors) = some (other 0)

    abbrev pub put_back : Unmerged → ℕ × Option Fault × Trace
    put_back (subs, n, e, t) = let r = attach_saved K d subs t in (n, join_errors e r.1, r.2)

    -- `unmergeInPlace`
    unfoldable pub unmerge_in_place : ℕ → Trace → ℕ × Option Fault × Trace
    unmerge_in_place rounds t = put_back (unmerge_hierarchy rounds t)
