-- ===== src/Overlay/Engine/Assemble.antt =====
-- internal/overlay/engine.go: the overlay of a hierarchy, assembled and mounted at its staging point. The
-- metadata files are written in one order; the code leaves the order open.
use sysext_alpine.Base.{
  ℕ, zero, suc, Bool, true, not, ◌&&◌, List, [], ◌∷◌, ◌++◌, Option, none, some, Result, ok, err,
  Bytes, codes, same, ◌==◌, null, join_path, if◌then◌else◌,
}
use sysext_alpine.Overlay.Markers.{
  marker_dir_name, list_file_name, class_identifier, format_devnum, format_list, cescape,
}
use sysext_alpine.Overlay.Options.{Flags, overlay_mount}
use sysext_alpine.Overlay.Kernel.{
  Fault, invalid, not_visible, mount_bind, mount_overlay, unmount_now, make_dirs, touch, chmod,
  write_file, Kernel, Io, Do, ◌>>=◌, ◌>>◌, pure, fail, ask, attempt, for_each, when, call,
}
use sysext_alpine.Overlay.Workspace.{remove_tree, below_workspace}
use sysext_alpine.Overlay.Mutable.{
  mode_is_ephemeral, resolve_mutable_dir, imported_mutable_dir, host_as_lower_dir, upper_dir,
  work_dir_for,
}
use sysext_alpine.Overlay.Unmerge.{take_submounts}
use sysext_alpine.Overlay.Engine.{
  Hier, MergeOp, HierWorld, state, change, io, add_subs, attach_subs,
}
use sysext_alpine.Overlay.Engine.Images.{make_read_only}
use sysext_alpine.Overlay.Engine.Layers.{path_in_root, hierarchy_mode, block_device}

abbrev line : Bytes → Bytes
line s = s ++ (10 ∷ [])

abbrev one_if : Bool → Bytes → List Bytes
one_if b s = if b then s ∷ [] else []

-- The directories of an overlay, as they are known once the mutable ones are resolved.
pub record Layers : Type 0 where
  pub meta : Bytes
  pub staging : Bytes
  pub mode : ℕ
  pub lower : List Bytes
  pub upper : Bytes
  pub work : Bytes
  pub backing : ℕ

module _ (K : Kernel) (op : MergeOp) where
  abbrev meta_of : Hier → Bytes
  meta_of hs = join_path (join_path op.gen (codes "meta")) hs.path

  abbrev staging_of : Hier → Bytes
  staging_of hs = join_path (join_path op.gen (codes "overlay")) hs.path

  abbrev workspace_of : Hier → Bytes
  workspace_of hs = join_path (join_path op.gen (codes "mh_workspace")) hs.path

  abbrev work_of : Hier → Bytes → Io Bytes
  work_of hs upper = if null upper then pure [] else work_dir_for K hs.path upper

  -- The first half of `mergeHierarchy`: which directories make up the overlay.
  unfoldable pub choose_layers : Hier → Io Layers
  choose_layers hs = ask (λ t. ok (hierarchy_mode K hs.host t)) >>= λ mode.
      resolve_mutable_dir K op.mode op.root hs.path mode (workspace_of hs) >>= λ mutable_dir.
      imported_mutable_dir K op.mode op.root hs.path hs.host mutable_dir >>= λ imported.
      host_as_lower_dir K op.mode hs.host mutable_dir >>= λ use_host.
      ask (λ t. ok (if use_host then block_device K hs.host t else 0)) >>= λ backing.
      upper_dir K op.mode mutable_dir >>= λ upper. work_of hs upper >>= λ work. pure (record {
        meta = meta_of hs;
        staging = staging_of hs;
        mode = mode;
        lower =
            meta_of hs
            ∷ (one_if (not (null imported)) imported ++ (hs.used ++ one_if use_host hs.host));
        upper = upper;
        work = work;
        backing = backing;
      })

  abbrev make_if_named : Bytes → Io Unit
  make_if_named d = if null d then pure tt else call K (make_dirs d)

  abbrev work_file : Bytes → Option Bytes → Io Unit
  work_file d none = fail invalid
  work_file d (some rel) = call K (write_file (join_path d (codes "work_dir")) (line (cescape rel)))

  -- `writeMeta`
  unfoldable pub write_meta : Layers → List Bytes → Bytes → Io Unit
  write_meta l names content =
      let d = join_path l.meta (marker_dir_name op.class) in
      call K (make_dirs d)
      >> (call K (write_file (join_path d (list_file_name op.class)) (format_list names))
          >> (call K (write_file (join_path d (codes "origin")) content)
              >> (when (not (null l.work) && not (mode_is_ephemeral op.mode))
                    (work_file d (path_in_root l.work op.root))
                  >> when (not (l.backing == 0)) (
                      call K (
                        write_file (join_path d (codes "backing"))
                          (line (format_devnum K.major K.minor K.mkdev l.backing)))))))

  abbrev mount_layers : Layers → Flags × Bytes → Io Unit
  mount_layers l (flags, options) =
      call K (mount_overlay (class_identifier op.class) l.staging flags options)

  abbrev again_unless : Bytes → Result Fault Bytes → Io Unit → Io Unit
  again_unless want (err e) again = again
  again_unless want (ok got) again = if same got want then pure tt else again

  -- One attempt of `writeDev`
  abbrev try_dev : Layers → Io Unit → Io Unit
  try_dev l again = ask (λ t. K.stat t l.staging) >>= λ st.
      let want = line (format_devnum K.major K.minor K.mkdev st.dev) in
      call K
        (write_file (join_path (join_path l.meta (marker_dir_name op.class)) (codes "dev")) want)
      >> (attempt (
            ask (λ t.
              K.read_file t
                (join_path (join_path l.staging (marker_dir_name op.class)) (codes "dev"))))
          >>= λ got. again_unless want got again)

  unfoldable pub retry_dev : ℕ → Layers → Flags × Bytes → Io Unit
  retry_dev zero l options = fail not_visible
  retry_dev (suc n) l options =
      call K (unmount_now l.staging)
      >> (mount_layers l options >> try_dev l (retry_dev n l options))

  -- `writeDev`: three attempts.
  unfoldable pub write_dev : Layers → Flags × Bytes → Io Unit
  write_dev l options = try_dev l (retry_dev 2 l options)

  -- Everything between the choice of the layers and the mount: directories, permissions and metadata.
  unfoldable pub prepare_layers : Layers → List Bytes → Bytes → Io Unit
  prepare_layers l names content =
      let top = if null l.upper then l.meta else l.upper in
      for_each (l.staging ∷ l.meta ∷ l.work ∷ []) make_if_named
      >> (when (not (null l.upper)) (remove_tree K (join_path l.upper (marker_dir_name op.class)))
          >> (call K (chmod top l.mode) >> write_meta l names content))

  abbrev protect_marker : Layers → Flags → Io Unit
  protect_marker l flags =
      let m = join_path l.staging (marker_dir_name op.class) in
      if null l.upper then pure tt else call K (mount_bind m m) >> make_read_only K m flags

  abbrev take_from_host : Do HierWorld Unit
  take_from_host = state >>= λ hs.
      if not hs.merged && not (null hs.host)
      then (io (take_submounts K op.class hs.host (below_workspace K op.ws hs.host)) >>= λ more.
          change (add_subs more))
      else pure tt

  -- `mergeHierarchy`
  unfoldable pub merge_hierarchy : List Bytes → Bytes → Do HierWorld Unit
  merge_hierarchy names content = state >>= λ hs. io (choose_layers hs) >>= λ l.
      let options =
        overlay_mount op.class op.opts.no_exec op.opts.mount_options l.lower l.upper l.work in
      io (prepare_layers l names content >> mount_layers l options)
      >> (change (λ h. record h { staging = l.staging; staging_mounted = true })
          >> (io (write_dev l options >> (call K (touch l.meta) >> protect_marker l options.0))
              >> (take_from_host >> attach_subs K l.staging)))
