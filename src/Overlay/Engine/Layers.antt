-- ===== src/Overlay/Engine/Layers.antt =====
-- internal/overlay/engine.go: the layers of a hierarchy, the plan of a merge with its origin document,
-- and the assembly of an overlay at its staging point. The metadata files are written in one order; the
-- code leaves the order open.
use sysext_alpine.Base.{
  no_number, ℕ, Bool, true, false, not, ◌||◌, List, [], ◌∷◌, ◌++◌, Option, none, some, Result, ok,
  err, Bytes, codes, ◌==◌, null, cut_prefix, if◌then◌else◌,
}
use sysext_alpine.Discover.Images.{Image}
use sysext_alpine.Overlay.Markers.{single_path_component, trim_suffix}
use sysext_alpine.Overlay.Origin.{ImageIdentity, Handle, origin_text, path_without_root}
use sysext_alpine.Overlay.Kernel.{
  Fault, missing, invalid, not_supported, not_permitted, access_denied, overflow, Trace, Stat,
  Kernel, Io, Do, ◌>>=◌, ◌>>◌, pure, ask, chased,
}
use sysext_alpine.Overlay.Mutable.{
  Mode, no_mode, auto, always, only_import, ephemeral, ephemeral_import, ephemeral_workspace,
  mode_is_ephemeral, is_no_mode, resolve_mutable_dir,
}
use sysext_alpine.Overlay.Engine.{MountedImage, Hier, MergeOp, World, state, change, io, backward}

unfoldable pub mode_name : Mode → Bytes
mode_name no_mode = codes "no"
mode_name auto = codes "auto"
mode_name always = codes "yes"
mode_name only_import = codes "import"
mode_name ephemeral = codes "ephemeral"
mode_name ephemeral_import = codes "ephemeral-import"

-- `handleErrorIsFatal`
unfoldable pub handle_error_is_fatal : Fault → Bool
handle_error_is_fatal not_supported = false
handle_error_is_fatal not_permitted = false
handle_error_is_fatal access_denied = false
handle_error_is_fatal overflow = false
handle_error_is_fatal invalid = false
handle_error_is_fatal e = true

abbrev rel_of : Option Bytes → Option Bytes
rel_of none = none
rel_of (some rel) = if null rel then none else some rel

-- `pathInRoot`
unfoldable pub path_in_root : Bytes → Bytes → Option Bytes
path_in_root p root = rel_of (cut_prefix (trim_suffix (codes "/") root ++ codes "/") p)

-- An identity before its handle and its mount are known.
abbrev basic_identity : Image → Bytes → ℕ → ImageIdentity
basic_identity img path inode = record {
  path = path;
  verity_hash = [];
  mount_id = 0;
  handle = none;
  inode = inode;
  cr_time = img.cr_time;
  m_time = img.m_time;
}

module _ (K : Kernel) where
  -- `nameToHandle`
  abbrev handle_again :
      Result Fault (Handle × ℕ) → Result Fault (Handle × ℕ) → Result Fault (Handle × ℕ)
  handle_again (ok h) second = ok h
  handle_again (err e) second = if handle_error_is_fatal e then err e else second

  unfoldable pub name_to_handle : Bytes → Trace → Result Fault (Handle × ℕ)
  name_to_handle p t = handle_again (K.handle true t p) (K.handle false t p)

  abbrev or_mount : Option ℕ → Result Fault ℕ → Result Fault ℕ
  or_mount (some n) other = ok n
  or_mount none other = other

  abbrev with_mount : ImageIdentity → Result Fault ℕ → Result Fault ImageIdentity
  with_mount id (err e) = err e
  with_mount id (ok n) = ok (record id { mount_id = n })

  abbrev pub with_handle :
      Bytes → Trace → ImageIdentity → Result Fault (Handle × ℕ) → Result Fault ImageIdentity
  with_handle p t id (ok (h, legacy)) =
      with_mount (record id { handle = some h }) (or_mount (K.unique_mount_id t p) (ok legacy))
  with_handle p t id (err e) =
      if handle_error_is_fatal e
      then err e
      else with_mount id (
          or_mount (K.unique_mount_id t p)
            (or_mount (K.legacy_mount_id t p) (K.fdinfo_mount_id t p)))

  -- `identify`
  unfoldable pub identify : Image → Bytes → Io ImageIdentity
  identify img path = ask (λ t. K.inode t img.path) >>= λ inode.
      ask (λ t. with_handle img.path t (basic_identity img path inode) (name_to_handle img.path t))

  abbrev pub by_hash : Image → Bytes → Option Bytes → Io ImageIdentity
  by_hash img path none = identify img path
  by_hash img path (some h) =
      if null h
      then identify img path
      else pure (record (basic_identity img path 0) {
        verity_hash = h;
        cr_time = no_number;
        m_time = no_number;
      })

  -- The loop of `plan` over the images.
  unfoldable pub identify_all : List Bytes → List MountedImage → Io (List (Bytes × ImageIdentity))
  identify_all roots [] = pure []
  identify_all roots (mi ∷ is) =
      by_hash mi.img (path_without_root mi.img.path roots) mi.mounted >>= λ id.
      identify_all roots is >>= λ rest. pure ((mi.img.name, id) ∷ rest)

  abbrev unless_empty : Bytes → Result Fault Bool → Result Fault (List Bytes)
  unless_empty p (err e) = err e
  unless_empty p (ok empty) = ok (if empty then [] else p ∷ [])

  abbrev pub layer_at : Result Fault Bytes → Trace → Result Fault (List Bytes)
  layer_at (err missing) t = ok []
  layer_at (err e) t = err e
  layer_at (ok p) t = unless_empty p (K.is_empty t p)

  -- `usedLayers`; the trees are given backwards.
  unfoldable pub layers_of : Bytes → List Bytes → Io (List Bytes)
  layers_of hierarchy [] = pure []
  layers_of hierarchy (tree ∷ trees) =
      ask (λ t. layer_at (chased K tree hierarchy false t) t) >>= λ p.
      layers_of hierarchy trees >>= λ rest. pure (p ++ rest)

  unfoldable pub used_layers : Bytes → List Bytes → Io (List Bytes)
  used_layers hierarchy trees = layers_of hierarchy (backward trees)

  abbrev mode_of : Result Fault Stat → ℕ
  mode_of (err e) = 0o755
  mode_of (ok st) = st.permissions

  -- `hierarchyMode`
  unfoldable pub hierarchy_mode : Bytes → Trace → ℕ
  hierarchy_mode host t = if null host then 0o755 else mode_of (K.stat t host)

  abbrev backing_of : Result Fault Stat → ℕ
  backing_of (err e) = 0
  backing_of (ok st) = if K.major st.dev == 0 then 0 else st.dev

  -- `blockDevice`
  unfoldable pub block_device : Bytes → Trace → ℕ
  block_device p t = backing_of (K.stat t p)

  -- The mutable directory that the origin names, by the path inside the root.
  abbrev pub planned_dir : MergeOp → Hier → Io Bytes
  planned_dir op hs =
      if mode_is_ephemeral op.mode
      then pure (ephemeral_workspace ++ (codes "/" ++ single_path_component hs.path))
      else (ask (λ t. ok (hierarchy_mode hs.host t)) >>= λ mode.
          resolve_mutable_dir K op.mode op.root hs.path mode [] >>= λ dir.
          pure (path_without_root dir (op.root ∷ [])))

  -- The loop of `plan` over the hierarchies: their layers, and the mutable directories. The code keeps
  -- the layers found before an error; nothing reads them then.
  unfoldable pub plan_hiers :
      MergeOp → List Bytes → List Hier → Io (List Hier × List (Bytes × Bytes))
  plan_hiers op trees [] = pure ([], [])
  plan_hiers op trees (hs ∷ rest) = used_layers hs.path trees >>= λ used.
      planned_dir op hs >>= λ dir. plan_hiers op trees rest >>= λ r. pure (
        record hs { used = used; mount = not (null used) || not (is_no_mode op.mode) } ∷ r.0,
        (if null dir then r.1 else (hs.path, dir) ∷ r.1),
      )

  abbrev pub options_text : Option Bytes → Bytes
  options_text none = []
  options_text (some s) = s

  -- `plan`
  unfoldable pub plan : List Bytes → Do World Bytes
  plan trees = state >>= λ op. io (identify_all op.roots op.images) >>= λ images.
      io (plan_hiers op trees op.hiers) >>= λ r.
      change (λ o. record o { hiers = r.0 })
      >> pure (
          origin_text (record {
            mode = mode_name op.mode;
            mutable_dirs = r.1;
            mount_options = options_text op.opts.mount_options;
            images = images;
          }))
