-- ===== src/Overlay/Engine/Adds.antt =====
-- internal/overlay/engine.go, `abort`: giving the layers up only adds calls.
use sysext_alpine.Base.{ℕ, false, not, ◌&&◌, List, [], Option, none, some, Bytes, null, same}
use sysext_alpine.Overlay.Kernel.{Kernel, Io, ignore}
use sysext_alpine.Overlay.Kernel.Keeps.{
  Keeps, pure-Keeps, bind-Keeps, if-Keeps, ignore-Keeps, for_each-Keeps,
}
use sysext_alpine.Overlay.Kernel.Extends.{
  Extends, Extends-start, Extends-join, call-Extends, detach-Extends, remove_tree-Extends,
  detach_all-Extends, teardown_workspace-Extends,
}
use sysext_alpine.Overlay.Engine.{MergeOp, MountedImage, World, state, change, io, backward}
use sysext_alpine.Overlay.Engine.Images.{
  unmount_image, unmount_as, unmount_images, discard, drop_generation,
}
use sysext_alpine.Overlay.Engine.Swap.{give_up}

module _ (K : Kernel) (rounds : ℕ) where
  -- Giving up the layers only adds to the trace.
  abbrev Later : World → World → Type 0
  Later w v = Extends w.1.1 v.1.1

  Later-start : (w : World) → Later w w
  Later-start w = Extends-start w.1.1

  Later-join : (u v w : World) → Later u v → Later v w → Later u w
  Later-join u v w = Extends-join u.1.1 v.1.1 w.1.1

  io-Later : {A : Type 0} {m : Io A} → Keeps Extends m → Keeps Later (io {X = MergeOp} m)
  io-Later h = record { run = λ w. h.run w.1.1 }

  change-Later : (f : MergeOp → MergeOp) → Keeps Later (change f)
  change-Later f = record { run = λ w. Extends-start w.1.1 }

  unmount_as-Extends : (o : Option Bytes) (mi : MountedImage) → Keeps Extends (unmount_as K o mi)
  unmount_as-Extends none mi = detach-Extends K mi.dir
  unmount_as-Extends (some h) mi = call-Extends K _

  unmount_images-Extends : (images : List MountedImage) → Keeps Extends (unmount_images K images)
  unfolding unmount_images unmount_image
  unmount_images-Extends images =
      for_each-Keeps Extends-start Extends-join (backward images) _
        (λ mi. ignore-Keeps Extends-start Extends-join (unmount_as-Extends mi.mounted mi))

  ignored-Later : {m : Io Unit} → Keeps Extends m → Keeps Later (ignore (io {X = MergeOp} m))
  ignored-Later h = ignore-Keeps Later-start Later-join (io-Later h)

  drop_generation-Later : (op : MergeOp) → Keeps Later (drop_generation K op)
  drop_generation-Later op =
      if-Keeps Later-start Later-join op.fresh_ws
        (bind-Keeps Later-start Later-join (ignored-Later (teardown_workspace-Extends K op.ws))
          (λ u. change-Later (λ o. record o { fresh_ws = false })))
        (if-Keeps Later-start Later-join (not (null op.gen) && not (same op.gen op.ws))
          (bind-Keeps Later-start Later-join (ignored-Later (detach_all-Extends K op.gen))
            (λ u. ignored-Later (remove_tree-Extends K op.gen)))
          (pure-Keeps Later-start Later-join tt))

  state-Later : Keeps Later state
  state-Later = record { run = λ w. Extends-start w.1.1 }

  discard-Later : Keeps Later (discard K)
  unfolding discard
  discard-Later = bind-Keeps Later-start Later-join state-Later (λ op.
      bind-Keeps Later-start Later-join (io-Later (unmount_images-Extends op.images)) (λ u.
        bind-Keeps Later-start Later-join (change-Later (λ o. record o { images = [] })) (λ u.
          bind-Keeps Later-start Later-join (drop_generation-Later op)
            (λ u. change-Later (λ o. record o { gen = [] })))))

  pub give_up-Later : (op : MergeOp) → Keeps Later (give_up K rounds op)
  give_up-Later op =
      if-Keeps Later-start Later-join op.swapping
        (bind-Keeps Later-start Later-join (io-Later (unmount_images-Extends op.images)) (λ u.
          bind-Keeps Later-start Later-join (change-Later (λ o. record o { images = [] }))
            (λ u. ignored-Later (teardown_workspace-Extends K op.ws))))
        discard-Later
