-- ===== src/Overlay/Engine.antt =====
-- internal/overlay/engine.go: one merge or refresh. The state of an action is the operation (mergeOp),
-- the outcome so far, and the trace of the calls; it is kept when the action fails, which is what the
-- rollback works on.
pub mod Images
pub mod Layers
pub mod Assemble
pub mod Swap
pub mod Run
pub mod Adds
pub mod Restored
pub mod Lookup
pub mod Kept
pub mod Spared
use sysext_alpine.Base.{ℕ, Bool, List, [], ◌∷◌, ◌++◌, Option, Result, ok, err, Bytes}
use sysext_alpine.Release.Class.{Class}
use sysext_alpine.Discover.Images.{Image}
use sysext_alpine.Overlay.Options.{NoExec}
use sysext_alpine.Overlay.Submounts.{SavedMount, MountError}
use sysext_alpine.Overlay.Mutable.{Mode}
use sysext_alpine.Overlay.Kernel.{
  Fault, other, Trace, Kernel, Io, Do, ◌>>=◌, ◌>>◌, pure, fail, lift,
}
use sysext_alpine.Overlay.Workspace.{attach_saved}

-- `mountedImage`; `mounted` is the root hash of a disk image, empty when it has none.
pub record MountedImage : Type 0 where
  pub img : Image
  pub dir : Bytes
  pub mounted : Option Bytes

-- `hierarchyState`
pub record Hier : Type 0 where
  pub path : Bytes
  pub target : Bytes
  pub host : Bytes
  pub merged : Bool
  pub used : List Bytes
  pub mount : Bool
  pub staging : Bytes
  pub staging_mounted : Bool
  pub attached : Bool
  pub unmerged : Bool
  pub subs : List SavedMount

-- `MergeOptions`; the callbacks are the kernel's.
pub record MergeOptions : Type 0 where
  pub mount_options : Option Bytes
  pub no_exec : NoExec
  pub always_refresh : Bool

-- `mergeOp`
pub record MergeOp : Type 0 where
  pub class : Class
  pub opts : MergeOptions
  pub mode : Mode
  pub root : Bytes
  pub roots : List Bytes
  pub ws : Bytes
  pub gen : Bytes
  pub fresh_ws : Bool
  pub hiers : List Hier
  pub images : List MountedImage
  pub ignored : ℕ
  pub swapping : Bool
  pub committed : Bool

pub data MergeResult : Type 0 where
  nothing_found merged unchanged : MergeResult

-- `Outcome`
pub record Outcome : Type 0 where
  pub result : MergeResult
  pub merged_names : List Bytes
  pub ignored_images : ℕ
  pub hierarchies : List Bytes
  pub unmerged_dirs : List Bytes

abbrev pub Rest : Type 0
Rest = Outcome × Trace

abbrev pub World : Type 0
World = MergeOp × Rest

-- `slices.Backward`
unfoldable pub backward : {X : Type 0} → List X → List X
backward [] = []
backward (x ∷ xs) = backward xs ++ (x ∷ [])

-- The state of the body of a loop over the hierarchies.
abbrev pub HierWorld : Type 0
HierWorld = Hier × Rest

abbrev pub state : {X W : Type 0} → Do (X × W) X
state (x, w) = (ok x, (x, w))

abbrev pub change : {X W : Type 0} → (X → X) → Do (X × W) Unit
change f (x, w) = (ok tt, (f x, w))

-- A system call, on the state of an operation or of a loop.
abbrev pub io : {X Y A : Type 0} → Io A → Do (X × (Y × Trace)) A
io m = lift (lift m)

abbrev pub change_outcome : {X : Type 0} → (Outcome → Outcome) → Do (X × Rest) Unit
change_outcome f (x, (o, t)) = (ok tt, (x, (f o, t)))

-- A loop over elements that its body changes, up to the first error.
abbrev pub over_rest :
    {X W : Type 0}
    → Result Fault Unit × (X × W)
    → List X
    → (W → Result Fault Unit × (List X × W))
    → Result Fault Unit × (List X × W)
over_rest (err e, (x, w)) xs next = (err e, (x ∷ xs, w))
over_rest (ok u, (x, w)) xs next = let r = next w in (r.0, (x ∷ r.1.0, r.1.1))

unfoldable pub over :
    {X W : Type 0} → Do (X × W) Unit → List X → W → Result Fault Unit × (List X × W)
over f [] w = (ok tt, ([], w))
over f (x ∷ xs) w = over_rest (f (x, w)) xs (over f xs)

abbrev pub put_hiers : MergeOp → Result Fault Unit × (List Hier × Rest) → Result Fault Unit × World
put_hiers op (r, (hs, w)) = (r, (record op { hiers = hs }, w))

-- `for _, hs := range op.hiers`
unfoldable pub over_hiers : Do HierWorld Unit → Do World Unit
over_hiers f (op, w) = put_hiers op (over f op.hiers w)

abbrev pub joined : List MountError → Io Unit
joined [] = pure tt
joined (e ∷ es) = fail (other 0)

abbrev pub add_subs : List SavedMount → Hier → Hier
add_subs more hs = record hs { subs = hs.subs ++ more }

module _ (K : Kernel) where
  -- `attachSubmounts` on the mounts of a hierarchy.
  unfoldable pub attach_subs : Bytes → Do HierWorld Unit
  attach_subs dst (hs, (out, t)) =
      let r = attach_saved K dst hs.subs t in io (joined r.1) (record hs { subs = r.0 }, (out, r.2))
