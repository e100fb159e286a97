-- ===== src/Overlay/Engine/Images.antt =====
-- internal/overlay/engine.go: the workspace of an operation, and the images mounted in it.
use sysext_alpine.Base.{
  suc, Bool, true, false, not, ◌&&◌, List, [], ◌∷◌, ◌++◌, Option, none, some, Result, ok, err,
  Bytes, codes, same, null, join_path, if◌then◌else◌,
}
use sysext_alpine.Discover.Images.{Image, ImageType, type_directory}
use sysext_alpine.Overlay.Options.{
  Flags, MountFlag, ms_nosuid, ms_nodev, ms_noexec, ms_noatime, ms_nodiratime, ms_relatime,
  ms_strictatime, no_flags,
}
use sysext_alpine.Overlay.Kernel.{
  Fault, not_supported, mount_bind, set_read_only, remount, make_dirs, make_temp, mount_disk_image,
  unmount_disk_image, remove, Kernel, Io, Do, ◌>>=◌, ◌>>◌, pure, fail, ask, attempt, ignore,
  for_each, when, call,
}
use sysext_alpine.Overlay.Workspace.{
  detach, detach_all, remove_tree, mount_workspace, teardown_workspace,
}
use sysext_alpine.Overlay.Engine.{backward, MountedImage, MergeOp, World, state, change, io}

abbrev keeps : MountFlag → Bool
keeps ms_nodev = true
keeps ms_nosuid = true
keeps ms_noexec = true
keeps ms_noatime = true
keeps ms_nodiratime = true
keeps ms_relatime = true
keeps ms_strictatime = true
keeps f = false

unfoldable pub kept_flags : Flags → Flags
kept_flags flags f = flags f && keeps f

abbrev pub image_at : Image → Bytes → Option Bytes → MountedImage
image_at img dir mounted = record { img = img; dir = dir; mounted = mounted }

-- `op.images[:len(op.images)-1]`
unfoldable pub without_last : List MountedImage → List MountedImage
without_last [] = []
without_last (i ∷ []) = []
without_last (i ∷ j ∷ is) = i ∷ without_last (j ∷ is)

abbrev pub extensions_dir : Bytes → Bytes
extensions_dir gen = join_path gen (codes "extensions")

abbrev pub is_unsupported : Fault → Bool
is_unsupported not_supported = true
is_unsupported e = false

module _ (K : Kernel) where
  -- `resetWorkspace`
  unfoldable pub reset_workspace : Do World Unit
  reset_workspace = state >>= λ op.
      io (teardown_workspace K op.ws)
      >> (io (mount_workspace K op.class op.ws)
          >> change (λ o. record o { fresh_ws = true; gen = o.ws }))

  abbrev pub remount_workspace : MergeOp → Do World Unit
  remount_workspace op =
      io (teardown_workspace K op.ws)
      >> (io (mount_workspace K op.class op.ws) >> change (λ o. record o { fresh_ws = true }))

  -- `useWorkspace`
  unfoldable pub use_workspace : Do World Unit
  use_workspace = state >>= λ op. io (ask (λ t. K.is_mount_point t op.ws)) >>= λ mp.
      when (not mp) (remount_workspace op)
      >> (io (ask (λ t. ok (K.temp_name t op.ws))) >>= λ gen.
          io (call K (make_temp gen)) >> change (λ o. record o { gen = gen }))

  abbrev pub read_only_fallback : Bytes → Flags → Result Fault Unit → Io Unit
  read_only_fallback p flags (err e) =
      if is_unsupported e then call K (remount p (kept_flags flags)) else fail e
  read_only_fallback p flags (ok u) = pure tt

  -- `makeReadOnly`
  unfoldable pub make_read_only : Bytes → Flags → Io Unit
  make_read_only p flags = attempt (call K (set_read_only p)) >>= read_only_fallback p flags

  abbrev pub unmount_as : Option Bytes → MountedImage → Io Unit
  unmount_as none mi = detach K mi.dir
  unmount_as (some h) mi = call K (unmount_disk_image mi.img.path mi.dir)

  -- `unmountImage`
  unfoldable pub unmount_image : MountedImage → Io Unit
  unmount_image mi = unmount_as mi.mounted mi

  abbrev pub record_image : MountedImage → Do World Unit
  record_image mi = change (λ o. record o { images = o.images ++ (mi ∷ []) })

  abbrev pub mount_tree : Image → Bytes → Do World MountedImage
  mount_tree img dir =
      let mi = image_at img dir none in
      io (call K (mount_bind img.path dir))
      >> (record_image mi >> (io (make_read_only dir no_flags) >> pure mi))

  abbrev pub mount_disk : Image → Bytes → Do World MountedImage
  mount_disk img dir =
      io (call K (mount_disk_image img.path dir))
      >> (io (ask (λ t. ok (K.root_hash t dir))) >>= λ h.
          let mi = image_at img dir (some h) in record_image mi >> pure mi)

  abbrev pub mount_as : ImageType → Image → Bytes → Do World MountedImage
  mount_as type_directory img dir = mount_tree img dir
  mount_as t img dir = mount_disk img dir

  abbrev pub drop_image : MountedImage → Do World Unit
  drop_image mi =
      change (λ o. record o { images = without_last o.images; ignored = suc o.ignored })
      >> (io (unmount_image mi) >> io (call K (remove mi.dir)))

  -- `mountImage`
  unfoldable pub mount_image : Image → Do World Unit
  mount_image img = state >>= λ op.
      let dir = join_path (extensions_dir op.gen) img.name in
      io (call K (make_dirs dir))
      >> (mount_as img.image_type img dir >>= λ mi.
          io (ask (λ t. K.check t img.path dir)) >>= λ good.
          if good then pure tt else drop_image mi)

  unfoldable pub unmount_images : List MountedImage → Io Unit
  unmount_images images = for_each (backward images) (λ mi. ignore (unmount_image mi))

  abbrev pub drop_generation : MergeOp → Do World Unit
  drop_generation op =
      if op.fresh_ws
      then ignore (io (teardown_workspace K op.ws)) >> change (λ o. record o { fresh_ws = false })
      else when (not (null op.gen) && not (same op.gen op.ws))
          (ignore (io (detach_all K op.gen)) >> ignore (io (remove_tree K op.gen)))

  -- `discard`
  unfoldable pub discard : Do World Unit
  discard = state >>= λ op.
      io (unmount_images op.images)
      >> (change (λ o. record o { images = [] })
          >> (drop_generation op >> change (λ o. record o { gen = [] })))
