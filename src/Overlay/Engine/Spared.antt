-- ===== src/Overlay/Engine/Spared.antt =====
-- internal/overlay/engine.go: mounting the images, planning and discarding calls nothing outside the
-- workspace.
pub mod Mounting
pub mod Planning
pub mod Begun
pub mod Undone
pub mod Whole
use sysext_alpine.Base.{
  suc, ◌≡◌, refl, sym, ap, subst, ◌⊎◌, inl, inr, Bool, true, false, not, ◌&&◌, List, [], ◌∷◌, ◌++◌,
  Option, none, some, Result, ok, err, Bytes, codes, null, same, map, All, All-append, &&_iff,
  not-eq-false, has_byte, join_path, if◌then◌else◌,
}
use sysext_alpine.Discover.Images.{Image, ImageType, type_directory, type_raw, type_block}
use sysext_alpine.Files.Chase.Rooted.{IsRooted, IsComponent}
use sysext_alpine.Files.Mounts.{is_below}
use sysext_alpine.Overlay.Options.{Flags, no_flags}
use sysext_alpine.Overlay.Kernel.{
  Fault, mount_bind, set_read_only, remount, make_dirs, make_temp, mount_disk_image,
  unmount_disk_image, remove, Trace, Kernel, Io, Do, ◌>>=◌, ◌>>◌, pure, fail, ask, attempt, ignore,
  for_each, when, call,
}
use sysext_alpine.Overlay.Kernel.Stays.{
  Any, Stays, pure-Stays, fail-Stays, ask-Stays, tell-Stays, bind-Stays, then-Stays, attempt-Stays,
  ignore-Stays, if-Stays, if-Stays-eq, when-Stays, for_each-Stays, Steps, Stays-Steps, if-Steps,
  bind-Steps, Steps-Stays,
}
use sysext_alpine.Overlay.Mutable.{is_no_mode}
use sysext_alpine.Overlay.Workspace.{teardown_workspace, mount_workspace, detach_all, remove_tree}
use sysext_alpine.Overlay.Workspace.Places.{
  Inside, join_path-Inside, self-Inside, image_name-IsComponent,
}
use sysext_alpine.Overlay.Workspace.Confined.{
  Confined, Spares, call-Stays, detach-Stays, detach_all-Stays, remove_tree-Stays,
  mount_workspace-Stays, teardown_workspace-Stays,
}
use sysext_alpine.Overlay.Engine.{
  backward, MountedImage, Hier, MergeOp, Rest, World, state, change, io,
}
use sysext_alpine.Overlay.Engine.Kept.{Both, io-Stays, state-Stays, change-Stays}
use sysext_alpine.Overlay.Engine.Images.{
  is_unsupported, extensions_dir, read_only_fallback, make_read_only, unmount_as, unmount_image,
  record_image, mount_tree, mount_disk, mount_as, drop_image, mount_image, unmount_images,
  drop_generation, discard, reset_workspace, use_workspace, remount_workspace, without_last,
  kept_flags, image_at,
}

module _ (K : Kernel) (ws : Bytes) (start : Trace) (rooted : IsRooted ws) where
  abbrev pub IsMounted : MountedImage → Type 0
  IsMounted mi = Inside ws mi.dir

  -- The directory of the images, when there is one, is inside the workspace.
  abbrev pub GenInside : Bytes → Type 0
  GenInside gen = null gen ≡ false → Inside ws gen

  read_only_fallback-Stays :
      (p : Bytes) (flags : Flags) (r : Result Fault Unit)
      → is_below p ws ≡ true
      → Stays (Confined ws start) Any (read_only_fallback K p flags r)
  read_only_fallback-Stays p flags (ok u) h = pure-Stays tt tt
  read_only_fallback-Stays p flags (err e) h =
      if-Stays (is_unsupported e) (call-Stays K ws start (remount p (kept_flags flags)) h)
        (fail-Stays e)

  pub make_read_only-Stays :
      (p : Bytes) (flags : Flags)
      → is_below p ws ≡ true
      → Stays (Confined ws start) Any (make_read_only K p flags)
  unfolding make_read_only
  make_read_only-Stays p flags h =
      bind-Stays (attempt-Stays (call-Stays K ws start (set_read_only p) h))
        (λ r u. read_only_fallback-Stays p flags r h)

  pub unmount_image-Stays :
      (mi : MountedImage) → IsMounted mi → Stays (Confined ws start) Any (unmount_image K mi)
  unfolding unmount_image
  unmount_image-Stays mi (r, b) = by_hash mi.mounted
    where
      by_hash : (o : Option Bytes) → Stays (Confined ws start) Any (unmount_as K o mi)
      by_hash none = detach-Stays K ws start mi.dir b
      by_hash (some h) = call-Stays K ws start (unmount_disk_image mi.img.path mi.dir) b

  pub backward-All : {A : Type 0} (P : A → Type 0) (xs : List A) → All P xs → All P (backward xs)
  unfolding backward
  backward-All P [] h = tt
  backward-All P (x ∷ xs) (p, h) = All-append P (backward xs) (x ∷ []) (backward-All P xs h) (p, tt)

  unmount_images-Stays :
      (images : List MountedImage)
      → All IsMounted images
      → Stays (Confined ws start) Any (unmount_images K images)
  unfolding unmount_images
  unmount_images-Stays images h =
      for_each-Stays (backward images) _ (backward-All IsMounted images h)
        (λ mi m. ignore-Stays (unmount_image-Stays mi m))

  pub teardown : (d : Bytes) → d ≡ ws → Stays (Confined ws start) Any (teardown_workspace K d)
  teardown d e =
      subst (λ d. Stays (Confined ws start) Any (teardown_workspace K d)) (sym e)
        (teardown_workspace-Stays K ws start rooted)

  -- The operation: its workspace, its generation, its images, and what `H` says of its hierarchies.
  module _ (H : Hier → Type 0) (no_mode : Bool) where
    abbrev pub Settled : MergeOp → Type 0
    Settled op =
        (op.ws ≡ ws)
        × ((op.swapping ≡ false) × ((op.committed ≡ false) × (is_no_mode op.mode ≡ no_mode)))

    abbrev pub Spared : MergeOp → Type 0
    Spared op = Settled op × (GenInside op.gen × (All IsMounted op.images × All H op.hiers))

    abbrev pub SparedWorld : World → Type 0
    SparedWorld w = Both Spared (Confined ws start) w

    -- The same, with a directory for the images.
    abbrev pub Ready : MergeOp → Type 0
    Ready op = Spared op × Inside ws op.gen

    abbrev pub ReadyWorld : World → Type 0
    ReadyWorld w = Both Ready (Confined ws start) w

    drop_generation-Stays :
        (op : MergeOp)
        → Settled op
        → GenInside op.gen
        → Stays SparedWorld Any (drop_generation K op)
    drop_generation-Stays op (w, f) g =
        if-Stays op.fresh_ws
          (then-Stays (ignore-Stays (io-Stays Spared (Confined ws start) (teardown op.ws w))) (
            change-Stays Spared (Confined ws start) (λ o. record o { fresh_ws = false })
              (λ o s. s)))
          (if-Stays-eq (not (null op.gen) && not (same op.gen op.ws))
            (λ e.
              let (r, b) = g (not-eq-false (null op.gen) ((&&_iff _ _).0 e).0) in
              then-Stays
                (ignore-Stays
                  (io-Stays Spared (Confined ws start) (detach_all-Stays K ws start op.gen b)))
                (ignore-Stays
                  (io-Stays Spared (Confined ws start) (remove_tree-Stays K ws start op.gen b))))
            (λ e. pure-Stays tt tt))

    pub discard-Stays : Stays SparedWorld Any (discard K)
    unfolding discard
    discard-Stays = bind-Stays (state-Stays Spared (Confined ws start)) (λ op (f, (g, (i, h))).
        then-Stays (io-Stays Spared (Confined ws start) (unmount_images-Stays op.images i)) (
          then-Stays
            (change-Stays Spared (Confined ws start) (λ o. record o { images = [] })
              (λ o (f, (g, (i, h))). (f, (g, (tt, h)))))
            (then-Stays (drop_generation-Stays op f g) (
              change-Stays Spared (Confined ws start) (λ o. record o { gen = [] })
                (λ o (f, (g, (i, h))). (f, ((λ e. cc), (i, h))))))))
