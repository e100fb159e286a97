-- ===== src/Overlay/Engine/Swap.antt =====
-- internal/overlay/engine.go: replacing the merges, moving the new overlays into place, and undoing it.
use sysext_alpine.Base.{
  ℕ, ltb, Bool, true, false, not, ◌||◌, List, [], ◌∷◌, ◌++◌, Option, none, some, Result, ok, err,
  Bytes, codes, same, null, dir, join_path, if◌then◌else◌,
}
use sysext_alpine.Files.Chase.{Node, ChaseError, enoent}
use sysext_alpine.Overlay.Markers.{marker_dir_name}
use sysext_alpine.Overlay.Submounts.{SavedMount, close_saved}
use sysext_alpine.Overlay.Kernel.{
  Fault, mount_move, make_dirs, make_dir, rename, Kernel, Io, Do, ◌>>=◌, ◌>>◌, pure, attempt,
  ignore, for_each, when, call,
}
use sysext_alpine.Overlay.Workspace.{
  detach, detach_all, remove_tree, teardown_workspace, below_workspace,
}
use sysext_alpine.Overlay.Unmerge.{take_submounts, unmerge_hierarchy}
use sysext_alpine.Overlay.Engine.{
  MountedImage, Hier, MergeOp, Outcome, Rest, World, HierWorld, state, change, io, change_outcome,
  over, add_subs, attach_subs, backward,
}
use sysext_alpine.Overlay.Engine.Images.{extensions_dir, unmount_images, discard}
use sysext_alpine.Overlay.Engine.Assemble.{merge_hierarchy}

abbrev add_unmerged : Bytes → Outcome → Outcome
add_unmerged d out = record out { unmerged_dirs = out.unmerged_dirs ++ (d ∷ []) }

abbrev add_hierarchy : Bytes → Outcome → Outcome
add_hierarchy d out = record out { hierarchies = out.hierarchies ++ (d ∷ []) }

abbrev close : Hier → Hier
close hs = record hs { subs = close_saved hs.subs }

abbrev or_fault : Option Fault → Result Fault Unit
or_fault none = ok tt
or_fault (some e) = err e

abbrev part_names : List Bytes
part_names = codes "meta" ∷ codes "overlay" ∷ codes "mh_workspace" ∷ []

module _ (K : Kernel) (rounds : ℕ) (op : MergeOp) where
  abbrev note_unmerged : ℕ → Do HierWorld Unit
  note_unmerged n = state >>= λ hs.
      when (ltb 0 n)
        (change (λ h. record h { unmerged = true }) >> change_outcome (add_unmerged hs.host))

  -- A merged hierarchy gives up its overlay.
  unfoldable pub unmerge_old : Do HierWorld Unit
  unmerge_old (hs, (out, t)) =
      if not hs.merged
      then (ok tt, (hs, (out, t)))
      else let r = unmerge_hierarchy K op.class op.root hs.path hs.host op.ws rounds t in
        (note_unmerged r.1 >> io (λ u. (or_fault r.2, u))) (add_subs r.0 hs, (out, r.3))

  -- A hierarchy gets its overlay, or only its mounts back.
  unfoldable pub assemble : List Bytes → Bytes → Do HierWorld Unit
  assemble names content = state >>= λ hs.
      if hs.mount then merge_hierarchy K op names content else attach_subs K hs.target

  -- A staged overlay moves onto its hierarchy.
  unfoldable pub move_overlay : Do HierWorld Unit
  move_overlay = state >>= λ hs.
      if not hs.mount
      then pure tt
      else (io (call K (make_dirs hs.target) >> call K (mount_move hs.staging hs.target))
          >> (change (λ h. record h { staging_mounted = false; attached = true })
              >> change_outcome (add_hierarchy hs.target)))

  -- `restoreHost`
  abbrev pub or_no_mounts : Result Fault (List SavedMount) → List SavedMount
  or_no_mounts (ok subs) = subs
  or_no_mounts (err e) = []

  abbrev pub take_down : Bytes → Do HierWorld Unit
  take_down from =
      if null from
      then pure tt
      else (ignore (io (detach K (join_path from (marker_dir_name op.class))))
          >> (attempt (io (take_submounts K op.class from (below_workspace K op.ws from)))
              >>= λ subs. change (add_subs (or_no_mounts subs)) >> ignore (io (detach K from))))

  unfoldable pub overlay_place : Hier → Bytes
  overlay_place hs =
      if hs.attached then hs.target else if hs.staging_mounted then hs.staging else []

  unfoldable pub restore_host : Do HierWorld Unit
  restore_host = state >>= λ hs.
      take_down (overlay_place hs)
      >> (change (λ h. record h { attached = false; staging_mounted = false })
          >> (ignore (attach_subs K hs.target) >> change (λ h. record h { subs = [] })))

-- `for _, hs := range slices.Backward(op.hiers)`
abbrev pub put_backward :
    MergeOp → Result Fault Unit × (List Hier × Rest) → Result Fault Unit × World
put_backward op (r, (hs, w)) = (r, (record op { hiers = backward hs }, w))

unfoldable pub over_backward : Do HierWorld Unit → Do World Unit
over_backward f (op, w) = put_backward op (over f (backward op.hiers) w)

module _ (K : Kernel) (rounds : ℕ) where
  abbrev pub give_up : MergeOp → Do World Unit
  give_up op =
      if op.swapping
      then (io (unmount_images K op.images)
          >> (change (λ o. record o { images = [] }) >> ignore (io (teardown_workspace K op.ws))))
      else discard K

  abbrev pub undo : Bool → MergeOp → Do World Unit
  undo true op = pure tt
  undo false op = over_backward (restore_host K rounds op) >> give_up op

  -- `abort`: nothing is undone once the operation is committed.
  unfoldable pub abort : Do World Unit
  abort = state >>= λ op. undo op.committed op

  abbrev when_found : Result ChaseError Node → Io Unit → Io Unit
  when_found (err enoent) m = pure tt
  when_found r m = m

  abbrev move_part : MergeOp → Hier → Bytes → Io Unit
  move_part op hs part t =
      let src = join_path (join_path op.gen part) hs.path in
      let dst = join_path (join_path op.ws part) hs.path in
      when_found (K.lstat t src) (call K (make_dirs (dir dst)) >> call K (rename src dst)) t

  abbrev pub clear_parts : MergeOp → Hier → Io Unit
  clear_parts op hs =
      when (hs.attached || hs.unmerged)
        (for_each part_names (λ part. remove_tree K (join_path (join_path op.ws part) hs.path)))

  abbrev pub move_parts : MergeOp → Hier → Io Unit
  move_parts op hs = when hs.attached (for_each part_names (move_part op hs))

  abbrev pub move_image : MergeOp → Do (MountedImage × Rest) Unit
  move_image op = state >>= λ mi.
      let dst = join_path (extensions_dir op.ws) mi.img.name in
      io (call K (make_dir dst) >> call K (mount_move mi.dir dst))
      >> change (λ m. record m { dir = dst })

  abbrev pub put_images :
      MergeOp → Result Fault Unit × (List MountedImage × Rest) → Result Fault Unit × World
  put_images op (r, (is, w)) = (r, (record op { images = is }, w))

  abbrev pub over_images : Do (MountedImage × Rest) Unit → Do World Unit
  over_images f (op, w) = put_images op (over f op.images w)

  -- `promote`
  unfoldable pub promote : Do World Unit
  promote = state >>= λ op.
      let extensions = extensions_dir op.ws in
      if same op.gen op.ws
      then pure tt
      else (io (
            detach_all K extensions
            >> (remove_tree K extensions
                >> (for_each op.hiers (clear_parts op) >> call K (make_dir extensions))))
          >> (over_images (move_image op)
              >> io (for_each op.hiers (move_parts op) >> remove_tree K op.gen)))
