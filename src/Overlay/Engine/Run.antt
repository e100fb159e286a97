-- ===== src/Overlay/Engine/Run.antt =====
-- internal/overlay/engine.go: a merge or a refresh from its start to its end. The lock of the class, the
-- environment and the resolution of --root come before it, and a panic is not modelled.
use sysext_alpine.Base.{
  ℕ, ltb, Bool, true, false, not, ◌&&◌, ◌||◌, List, [], ◌∷◌, ◌++◌, Option, none, some, Result, ok,
  err, Bytes, codes, null, map, any, join_path, if◌then◌else◌,
}
use sysext_alpine.Release.Class.{Class}
use sysext_alpine.Discover.Images.{Image}
use sysext_alpine.Overlay.Markers.{marker_dir_name}
use sysext_alpine.Overlay.Submounts.{close_saved}
use sysext_alpine.Overlay.Kernel.{
  ignore, Fault, already_merged, cleanup_failed, before_merge, before_unmerge, Trace, Kernel, Io,
  Do, ◌>>=◌, ◌>>◌, pure, fail, ask, attempt, for_each, when, call, chased, resolve_hierarchy,
}
use sysext_alpine.Overlay.Workspace.{teardown_workspace}
use sysext_alpine.Overlay.Mutable.{is_no_mode}
use sysext_alpine.Overlay.Unmerge.{is_our_mount_point, unmerge_in_place}
use sysext_alpine.Overlay.Engine.{
  MountedImage, Hier, MergeOp, MergeResult, nothing_found, merged, unchanged, Outcome, World,
  HierWorld, state, change, io, change_outcome, over_hiers,
}
use sysext_alpine.Overlay.Engine.Images.{reset_workspace, use_workspace, mount_image, discard}
use sysext_alpine.Overlay.Engine.Layers.{plan}
use sysext_alpine.Overlay.Engine.Swap.{unmerge_old, assemble, move_overlay, abort, promote}

abbrev pub start_hier : Bytes → Bytes → Bytes → Bool → Hier
start_hier path target host m = record {
  path = path;
  target = target;
  host = host;
  merged = m;
  used = [];
  mount = false;
  staging = [];
  staging_mounted = false;
  attached = false;
  unmerged = false;
  subs = [];
}

abbrev pub any_merged : List Hier → Bool
any_merged hiers = any (λ hs. hs.merged) hiers

abbrev pub names_of : List MountedImage → List Bytes
names_of images = map (λ mi. mi.img.name) images

abbrev pub empty_outcome : Outcome
empty_outcome = record {
  result = nothing_found;
  merged_names = [];
  ignored_images = 0;
  hierarchies = [];
  unmerged_dirs = [];
}

abbrev or_fault : Option Fault → Result Fault Unit
or_fault none = ok tt
or_fault (some e) = err e

abbrev or_next : Result Fault Bytes → Bytes → Bytes
or_next (ok text) next = text
or_next (err e) next = next

abbrev pub set_outcome : MergeResult → List Bytes → Do World Unit
set_outcome result names (op, (out, t)) = (
  ok tt,
  (
    op,
    (
      record {
        result = result;
        merged_names = names;
        ignored_images = op.ignored;
        hierarchies = [];
        unmerged_dirs = [];
      },
      t,
    ),
  ),
)

module _ (K : Kernel) (rounds : ℕ) where
  abbrev pub merged_host : Class → Bytes → Io Bool
  merged_host c host = ask (λ t. if null host then ok false else is_our_mount_point K c host t)

  -- One hierarchy of the first loop.
  abbrev pub look_up : Bool → Bytes → Do World Unit
  look_up refresh h = state >>= λ op. io (ask (chased K op.root h true)) >>= λ target.
      io (ask (resolve_hierarchy K op.root h)) >>= λ host. io (merged_host op.class host) >>= λ m.
      if m && not refresh
      then fail (already_merged h)
      else change (λ o. record o { hiers = o.hiers ++ (start_hier h target host m ∷ []) })

  unfoldable pub look_up_all : Bool → List Bytes → Do World Unit
  look_up_all refresh hierarchies = for_each hierarchies (look_up refresh)

  abbrev pub mount_all : Bool → List Image → Do World Unit
  mount_all refresh images = state >>= λ op.
      (if refresh && any_merged op.hiers then use_workspace K else reset_workspace K)
      >> for_each images (mount_image K)

  abbrev unless_unmerged : ℕ → Bytes → Do HierWorld Unit
  unless_unmerged n host =
      when (ltb 0 n)
        (change_outcome (λ out. record out { unmerged_dirs = out.unmerged_dirs ++ (host ∷ []) }))

  -- One hierarchy that is unmerged because no extension qualified.
  unfoldable pub unmerge_one : Do HierWorld Unit → Do HierWorld Unit
  unmerge_one unmerge = state >>= λ hs. when hs.merged unmerge

  abbrev pub unmerge_now : MergeOp → Do HierWorld Unit
  unmerge_now op (hs, (out, t)) =
      let r = unmerge_in_place K op.class op.root hs.path hs.host op.ws rounds t in
      (unless_unmerged r.0 hs.host >> io (λ u. (or_fault r.1, u))) (hs, (out, r.2))

  -- Nothing to merge: a refresh unmerges instead.
  unfoldable pub unmerge_instead : Do World Unit
  unmerge_instead =
      discard K
      >> (set_outcome nothing_found []
          >> (state >>= λ op. when (any_merged op.hiers) (
              io (call K before_unmerge)
              >> (over_hiers (unmerge_one (unmerge_now op)) >> io (teardown_workspace K op.ws)))))

  -- Replacing the merges: everything behind `op.swapping = true`.
  unfoldable pub swap : List Bytes → Bytes → Do World Unit
  swap names content =
      change (λ o. record o { swapping = true })
      >> (state >>= λ op.
          over_hiers (unmerge_old K rounds op)
          >> (over_hiers (assemble K rounds op names content)
              >> (over_hiers (move_overlay K rounds op)
                  >> change (λ o. record o { committed = true }))))

  abbrev pub close_all : Do HierWorld Unit
  close_all = change (λ hs. record hs { subs = close_saved hs.subs })

  abbrev pub no_hierarchies : Do World Bool
  no_hierarchies (op, (out, t)) = (ok (null out.hierarchies), (op, (out, t)))

  abbrev pub cleaned : Result Fault Unit → Do World Unit
  cleaned (ok u) = pure tt
  cleaned (err e) = fail cleanup_failed

  -- What is left to do once the overlays are in place.
  unfoldable pub clean_up : Do World Unit
  clean_up =
      over_hiers close_all
      >> (state >>= λ op. no_hierarchies >>= λ nothing.
          attempt (if nothing then io (teardown_workspace K op.ws) else promote K rounds)
          >>= cleaned)

  -- Up to the origin document: the images are mounted and checked, and no merge is touched.
  unfoldable pub prepare : Bool → List Image → List Bytes → Do World Unit
  prepare refresh images hierarchies =
      look_up_all refresh hierarchies
      >> (state >>= λ op.
          when (not (null images) || not (is_no_mode op.mode)) (mount_all refresh images))

  abbrev pub first_origin : Class → List Hier → Trace → Bytes
  first_origin c [] t = []
  first_origin c (hs ∷ rest) t =
      let next = first_origin c rest t in
      if hs.merged
      then or_next
          (K.read_file t (join_path (join_path hs.host (marker_dir_name c)) (codes "origin"))) next
      else next

  -- `oldOrigin`
  unfoldable pub old_origin : MergeOp → Trace → Bytes
  old_origin op t = first_origin op.class op.hiers t

  -- Whether the merge that is in place is the one that was planned.
  abbrev pub is_unchanged : Bytes → Do World Bool
  is_unchanged content = state >>= λ op. io (ask (λ t. ok (old_origin op t))) >>= λ old.
      if null old
      then pure false
      else (io (ask (λ t. K.json_equal content old)) >>= λ equal.
          pure (equal && not op.opts.always_refresh))

  abbrev pub replace : Bytes → List Bytes → Do World Unit
  replace content names =
      ignore (io (call K (before_merge names)))
      >> (set_outcome merged names >> (swap names content >> clean_up))

  unfoldable pub merge_planned : Do World Unit
  merge_planned = state >>= λ op. plan K (map (λ mi. mi.dir) op.images) >>= λ content.
      is_unchanged content >>= λ same_one.
      if same_one
      then discard K >> set_outcome unchanged (names_of op.images)
      else replace content (names_of op.images)

  -- `op.run`
  unfoldable pub run_op : Bool → List Image → List Bytes → Do World Unit
  run_op refresh images hierarchies =
      prepare refresh images hierarchies
      >> (state >>= λ op.
          if null op.images && is_no_mode op.mode then unmerge_instead else merge_planned)

  abbrev pub or_abort : Result Fault Unit × World → Result Fault Unit × World
  or_abort (ok u, w) = (ok u, w)
  or_abort (err e, w) = (err e, (abort K rounds w).1)

  -- `run`, with the hierarchies and the directories it has found out.
  unfoldable pub run : Bool → List Image → List Bytes → Do World Unit
  run refresh images hierarchies w = or_abort (run_op refresh images hierarchies w)
