-- ===== src/Overlay/Workspace.antt =====
-- internal/overlay/mounts.go and engine.go: detaching mounts, removing trees, and the workspace.
pub mod Detached
pub mod Attached
pub mod Places
pub mod Confined
use sysext_alpine.Base.{
  ℕ, zero, suc, Bool, true, false, not, List, [], ◌∷◌, ◌++◌, Option, none, some, Result, ok, err,
  Bytes, codes, null, if◌then◌else◌,
}
use sysext_alpine.Release.Class.{Class}
use sysext_alpine.Files.Chase.{Node}
use sysext_alpine.Files.Chase
use sysext_alpine.Files.Mounts.{MountInfo, is_below}
use sysext_alpine.Overlay.Markers.{class_identifier}
use sysext_alpine.Overlay.Submounts.{
  SavedMount, Found, entry, symlink, MountError, eexist, eloop, select_submounts, select_top,
  has_mounts_below, detach_targets, attach_submounts,
}
use sysext_alpine.Overlay.Submounts
use sysext_alpine.Overlay.Kernel.{
  Fault, missing, exists, too_many_links, invalid, not_supported, mount_busy, keeps_reappearing,
  other, Event, mount_tmpfs, make_private, set_read_only, unmount_lazy, clone_mount, move_clone,
  make_dirs, make_dir, make_file, remove_all, Trace, Stat, Kernel, Io, after, ◌>>=◌, ◌>>◌, pure,
  fail, ask, attempt, ignore, for_each, call,
}

-- A result where the given errors count as success.
abbrev pub settled : (Fault → Bool) → Result Fault Unit → Result Fault Unit
settled fine (ok u) = ok tt
settled fine (err e) = if fine e then ok tt else err e

abbrev pub not_mounted : Fault → Bool
not_mounted invalid = true
not_mounted missing = true
not_mounted e = false

module _ (K : Kernel) where
  -- `detach`
  unfoldable pub detach : Bytes → Io Unit
  detach target = attempt (call K (unmount_lazy target)) >>= λ r. ask (λ t. settled not_mounted r)

  abbrev pub detach_rest : List Bytes → Io Unit → Io Unit
  detach_rest [] again = pure tt
  detach_rest (p ∷ ps) again = for_each (select_top (p ∷ ps)) detach >> again

  -- The rounds of `detachAll`.
  unfoldable pub detach_rounds : ℕ → Bytes → Io Unit
  detach_rounds zero dir = fail keeps_reappearing
  detach_rounds (suc n) dir = ask (K.mount_table) >>= λ mounts.
      detach_rest (detach_targets mounts dir []) (detach_rounds n dir)

  unfoldable pub detach_all : Bytes → Io Unit
  detach_all dir = detach_rounds 64 dir

  -- `removeTree`
  unfoldable pub remove_tree : Bytes → Io Unit
  remove_tree dir = ask (K.mount_table) >>= λ mounts.
      if has_mounts_below mounts dir then fail mount_busy else call K (remove_all dir)

  -- `mountWorkspace`
  abbrev pub make_private_or_detach : Bytes → Result Fault Unit → Io Unit
  make_private_or_detach ws (ok u) = pure tt
  make_private_or_detach ws (err e) = ignore (detach ws) >> fail e

  unfoldable pub mount_workspace : Class → Bytes → Io Unit
  mount_workspace c ws =
      call K (make_dirs ws)
      >> (call K (mount_tmpfs (class_identifier c) ws)
          >> (attempt (call K (make_private ws)) >>= make_private_or_detach ws))

  abbrev pub unless_gone : Result Chase.ChaseError Node → Io Unit → Io Unit
  unless_gone (err Chase.enoent) m = pure tt
  unless_gone r m = m

  -- `teardownWorkspace`
  unfoldable pub teardown_workspace : Bytes → Io Unit
  teardown_workspace ws t = unless_gone (K.lstat t ws) (detach_all ws >> remove_tree ws) t

  -- `attachSubmounts` on this kernel.
  abbrev pub found_of : Result Chase.ChaseError Node → Found
  found_of (err e) = Submounts.missing
  found_of (ok Chase.link) = symlink
  found_of (ok n) = entry

  abbrev pub found_at : Trace → Bytes → Found
  found_at t p = found_of (K.lstat t p)

  abbrev pub mount_error : Option Fault → Option MountError
  mount_error none = none
  mount_error (some exists) = some eexist
  mount_error (some too_many_links) = some eloop
  mount_error (some e) = some Submounts.other

  abbrev pub perform_for : Event → Trace → Option MountError × Trace
  perform_for e t = (mount_error (K.perform t e), t ++ (e ∷ []))

  abbrev pub create_point : Bytes → Bool → Trace → Option MountError × Trace
  create_point p is_dir t = perform_for (if is_dir then make_dir p else make_file p) t

  abbrev pub move_saved : SavedMount → Bytes → Trace → Option MountError × Trace
  move_saved s p t = perform_for (move_clone s.rel p) t

  unfoldable pub attach_saved :
      Bytes → List SavedMount → Trace → List SavedMount × List MountError × Trace
  attach_saved dst saved t = attach_submounts found_at create_point move_saved dst saved t

  -- `belowWorkspace`: nothing is skipped when the directory is inside the workspace.
  unfoldable pub below_workspace : Bytes → Bytes → Bytes → Bool
  below_workspace ws dir p = if is_below dir ws then false else is_below p ws
