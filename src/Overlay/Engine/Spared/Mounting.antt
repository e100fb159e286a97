-- ===== src/Overlay/Engine/Spared/Mounting.antt =====
-- internal/overlay/engine.go: the images are mounted inside the workspace.
use sysext_alpine.Base.{
  ℕ, suc, ◌≡◌, refl, sym, subst, Bool, true, not, ◌&&◌, List, [], ◌∷◌, ◌++◌, none, some, ok, Bytes,
  codes, same, All, All-append, has_byte, join_path,
}
use sysext_alpine.Discover.Images.{Image, ImageType, type_directory, type_raw, type_block}
use sysext_alpine.Files.Chase.Rooted.{IsRooted, IsComponent}
use sysext_alpine.Release.Class.{Class}
use sysext_alpine.Overlay.Options.{no_flags}
use sysext_alpine.Overlay.Kernel.{
  mount_bind, make_dirs, make_temp, mount_disk_image, remove, Trace, Kernel, Do,
}
use sysext_alpine.Overlay.Kernel.Stays.{
  Any, Stays, pure-Stays, ask-Stays, tell-Stays, bind-Stays, then-Stays, if-Stays, when-Stays,
  for_each-Stays, Steps, Stays-Steps, if-Steps, bind-Steps, Steps-Stays,
}
use sysext_alpine.Overlay.Workspace.{mount_workspace}
use sysext_alpine.Overlay.Workspace.Places.{Inside, join_path-Inside, self-Inside}
use sysext_alpine.Overlay.Workspace.Confined.{Confined, call-Stays, mount_workspace-Stays}
use sysext_alpine.Overlay.Engine.{MountedImage, Hier, MergeOp, World}
use sysext_alpine.Overlay.Engine.Kept.{Both, change-Steps, io-Stays, state-Stays, change-Stays}
use sysext_alpine.Overlay.Engine.Images.{
  extensions_dir, record_image, mount_disk, mount_as, drop_image, mount_image, reset_workspace,
  use_workspace, remount_workspace, without_last, image_at,
}
use sysext_alpine.Overlay.Engine.Run.{mount_all, any_merged}
use sysext_alpine.Overlay.Engine.Spared.{
  IsMounted, Spared, Ready, teardown, make_read_only-Stays, unmount_image-Stays,
}

extensions : IsComponent (codes "extensions")
unfolding same has_byte
extensions = (refl, refl, refl, refl)

module _ (K : Kernel) (ws : Bytes) (start : Trace) (rooted : IsRooted ws) (H : Hier → Type 0)
    (no_mode : Bool) where
  abbrev S : MergeOp → Type 0
  S op = Spared K ws start rooted H no_mode op

  abbrev R : MergeOp → Type 0
  R op = Ready K ws start rooted H no_mode op

  abbrev C : Trace → Type 0
  C t = Confined ws start t

  abbrev IsIn : MountedImage → Type 0
  IsIn mi = IsMounted K ws start rooted mi

  abbrev Mounting : World → Type 0
  Mounting w = Both R C w

  without_last-All : (is : List MountedImage) → All IsIn is → All IsIn (without_last is)
  unfolding without_last
  without_last-All [] h = tt
  without_last-All (i ∷ []) h = tt
  without_last-All (i ∷ j ∷ is) (a, h) = (a, without_last-All (j ∷ is) h)

  record_image-Stays : (mi : MountedImage) → IsIn mi → Stays Mounting Any (record_image K mi)
  record_image-Stays mi m =
      change-Stays R C (λ o. record o { images = o.images ++ (mi ∷ []) })
        (λ o ((f, (g, (i, h))), r).
          ((f, (g, (All-append IsIn o.images (mi ∷ []) i (m, tt), h))), r))

  mount_disk-Stays :
      (img : Image) (dir : Bytes) → Inside ws dir → Stays Mounting IsIn (mount_disk K img dir)
  mount_disk-Stays img dir m =
      then-Stays (io-Stays R C (call-Stays K ws start (mount_disk_image img.path dir) m.1)) (
        bind-Stays (io-Stays R C (ask-Stays (λ t. ok (K.root_hash t dir)))) (λ h u.
          let mi = image_at img dir (some h) in
          then-Stays (record_image-Stays mi m) (pure-Stays mi m)))

  mount_as-Stays :
      (t : ImageType) (img : Image) (dir : Bytes)
      → Inside ws dir
      → Stays Mounting IsIn (mount_as K t img dir)
  mount_as-Stays type_directory img dir m =
      let mi = image_at img dir none in
      then-Stays (io-Stays R C (call-Stays K ws start (mount_bind img.path dir) m.1)) (
        then-Stays (record_image-Stays mi m) (
          then-Stays (io-Stays R C (make_read_only-Stays K ws start rooted dir no_flags m.1))
            (pure-Stays mi m)))
  mount_as-Stays type_raw img dir m = mount_disk-Stays img dir m
  mount_as-Stays type_block img dir m = mount_disk-Stays img dir m

  drop_image-Stays : (mi : MountedImage) → IsIn mi → Stays Mounting Any (drop_image K mi)
  drop_image-Stays mi m =
      then-Stays
        (change-Stays R C
          (λ o. record o { images = without_last o.images; ignored = suc o.ignored })
          (λ o ((f, (g, (i, h))), r). ((f, (g, (without_last-All o.images i, h))), r)))
        (then-Stays (io-Stays R C (unmount_image-Stays K ws start rooted mi m))
          (io-Stays R C (call-Stays K ws start (remove mi.dir) m.1)))

  mount_image-Stays : (img : Image) → IsComponent img.name → Stays Mounting Any (mount_image K img)
  unfolding mount_image
  mount_image-Stays img k = bind-Stays (state-Stays R C) (λ op (s, g).
      let dir = join_path (extensions_dir op.gen) img.name in
      let m =
        join_path-Inside ws (extensions_dir op.gen) img.name
          (join_path-Inside ws op.gen (codes "extensions") g extensions) k in
      then-Stays (io-Stays R C (call-Stays K ws start (make_dirs dir) tt)) (
        bind-Stays (mount_as-Stays img.image_type img dir m) (λ mi l.
          bind-Stays (io-Stays R C (ask-Stays (λ t. K.check t img.path dir)))
            (λ good u. if-Stays good (pure-Stays tt tt) (drop_image-Stays mi l)))))

  -- The directory of an operation, made ready for the images.
  module _ (temporary : (t : Trace) → Inside ws (K.temp_name t ws)) where
    keeping :
        {A : Type 0} {V : A → Type 0} {m : Do World A}
        → Stays (Both S C) V m
        → Steps (Both S C) (Both S C) (Both S C) V m
    keeping h = Stays-Steps (λ w p. p) (λ w p. p) h

    mount_new-Stays :
        (c : Class) (d : Bytes) → d ≡ ws → Stays (Confined ws start) Any (mount_workspace K c d)
    mount_new-Stays c d e =
        subst (λ d. Stays (Confined ws start) Any (mount_workspace K c d)) (sym e)
          (mount_workspace-Stays K ws start rooted c)

    in_workspace : (d : Bytes) → d ≡ ws → Inside ws d
    in_workspace d e = subst (Inside ws) (sym e) (self-Inside ws rooted)

    reset_workspace-Steps : Steps (Both S C) (Both R C) (Both S C) Any (reset_workspace K)
    unfolding reset_workspace
    reset_workspace-Steps = bind-Steps (keeping (state-Stays S C)) (λ op ((e, f), r).
        bind-Steps (keeping (io-Stays S C (teardown K ws start rooted op.ws e))) (λ u v.
          bind-Steps (keeping (io-Stays S C (mount_new-Stays op.class op.ws e))) (λ u v.
            change-Steps S R C (Both S C) (λ o. record o { fresh_ws = true; gen = o.ws })
              (λ o ((e, f), (g, r)). let i = in_workspace o.ws e in (((e, f), ((λ n. i), r)), i)))))

    remount_workspace-Stays :
        (op : MergeOp) → op.ws ≡ ws → Stays (Both S C) Any (remount_workspace K op)
    remount_workspace-Stays op e = then-Stays (io-Stays S C (teardown K ws start rooted op.ws e)) (
        then-Stays (io-Stays S C (mount_new-Stays op.class op.ws e))
          (change-Stays S C (λ o. record o { fresh_ws = true }) (λ o s. s)))

    temporary_in : (d : Bytes) → d ≡ ws → (t : Trace) → Inside ws (K.temp_name t d)
    temporary_in d e t = subst (λ d. Inside ws (K.temp_name t d)) (sym e) (temporary t)

    use_workspace-Steps : Steps (Both S C) (Both R C) (Both S C) Any (use_workspace K)
    unfolding use_workspace
    use_workspace-Steps = bind-Steps (keeping (state-Stays S C)) (λ op ((e, f), r).
        bind-Steps (keeping (io-Stays S C (ask-Stays (λ t. K.is_mount_point t op.ws)))) (λ mp u.
          bind-Steps (keeping (when-Stays (not mp) (remount_workspace-Stays op e))) (λ u v.
            bind-Steps
              (keeping
                (io-Stays S C (tell-Stays (λ t. K.temp_name t op.ws) (temporary_in op.ws e))))
              (λ gen i.
                bind-Steps (keeping (io-Stays S C (call-Stays K ws start (make_temp gen) tt)))
                  (λ u v.
                    change-Steps S R C (Both S C) (λ o. record o { gen = gen })
                      (λ o (f, (g, r)). ((f, ((λ n. i), r)), i)))))))

    -- The images mount inside the workspace, whether the operation uses the one that is there or makes
    -- a new one.
    pub mount_all-Stays :
        (rounds : ℕ) (refresh : Bool) (images : List Image)
        → All (λ img. IsComponent img.name) images
        → Stays (Both S C) Any (mount_all K rounds refresh images)
    mount_all-Stays rounds refresh images k = Steps-Stays (
        bind-Steps (keeping (state-Stays S C)) (λ op s.
          bind-Steps
            (if-Steps (refresh && any_merged op.hiers) use_workspace-Steps reset_workspace-Steps)
            (λ u v.
              Stays-Steps (λ (op, w) ((s, i), c). (s, c)) (λ (op, w) ((s, i), c). (s, c))
                (for_each-Stays images (mount_image K) k mount_image-Stays))))
