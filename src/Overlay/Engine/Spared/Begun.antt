-- ===== src/Overlay/Engine/Spared/Begun.antt =====
-- internal/overlay/engine.go: an operation that has begun to replace merges is marked so to its end.
use sysext_alpine.Base.{
  ◌≡◌, refl, ℕ, Bool, true, false, not, ◌&&◌, List, [], Result, ok, err, Bytes, null, same,
}
use sysext_alpine.Overlay.Kernel.{
  Fault, before_merge, make_dir, cleanup_failed, for_each, Trace, Kernel, Io, Do, with_first, ◌>>◌,
  ignore, call,
}
use sysext_alpine.Overlay.Kernel.Stays.{
  Any, Ends, Stays, pure-Stays, fail-Stays, bind-Stays, then-Stays, attempt-Stays, ignore-Stays,
  if-Stays, Steps, Stays-Steps, bind-Steps,
}
use sysext_alpine.Overlay.Workspace.{teardown_workspace, detach_all, remove_tree}
use sysext_alpine.Overlay.Engine.{
  backward, MountedImage, Hier, MergeOp, merged, Outcome, Rest, World, HierWorld, state, change, io,
  over, over_hiers, put_hiers,
}
use sysext_alpine.Overlay.Engine.Images.{extensions_dir, unmount_images, discard, drop_generation}
use sysext_alpine.Overlay.Engine.Swap.{
  clear_parts, move_parts, unmerge_old, assemble, move_overlay, restore_host, over_backward,
  put_backward, give_up, undo, abort, promote, put_images, over_images, move_image,
}
use sysext_alpine.Overlay.Engine.Run.{
  set_outcome, swap, clean_up, cleaned, close_all, no_hierarchies, replace,
}

abbrev pub HasBegun : World → Type 0
HasBegun w = w.0.swapping ≡ true

io-Begun : {A : Type 0} (m : Io A) → Stays HasBegun Any (io m)
io-Begun m = record { run = λ (op, (out, t)) b. ended op out (m t) b }
  where
    ended :
        {A : Type 0} (op : MergeOp) (out : Outcome) (r : Result Fault A × Trace)
        → op.swapping ≡ true
        → Ends HasBegun Any (with_first op (with_first out r))
    ended op out (ok a, t) b = (tt, b)
    ended op out (err e, t) b = b

state-Begun : Stays HasBegun Any (state {X = MergeOp} {W = Rest})
state-Begun = record { run = λ w b. (tt, b) }

change-Begun :
    (f : MergeOp → MergeOp)
    → ((o : MergeOp) → o.swapping ≡ true → (f o).swapping ≡ true)
    → Stays HasBegun Any (change {W = Rest} f)
change-Begun f h = record { run = λ (op, w) b. (tt, h op b) }

over_hiers-Begun : (f : Do HierWorld Unit) → Stays HasBegun Any (over_hiers f)
unfolding over_hiers
over_hiers-Begun f = record { run = λ (op, w) b. put op (over f op.hiers w) b }
  where
    put :
        (op : MergeOp) (r : Result Fault Unit × (List Hier × Rest))
        → op.swapping ≡ true
        → Ends HasBegun Any (put_hiers op r)
    put op (ok u, (hs, w)) b = (tt, b)
    put op (err e, (hs, w)) b = b

over_backward-Begun : (f : Do HierWorld Unit) → Stays HasBegun Any (over_backward f)
unfolding over_backward
over_backward-Begun f = record { run = λ (op, w) b. put op (over f (backward op.hiers) w) b }
  where
    put :
        (op : MergeOp) (r : Result Fault Unit × (List Hier × Rest))
        → op.swapping ≡ true
        → Ends HasBegun Any (put_backward op r)
    put op (ok u, (hs, w)) b = (tt, b)
    put op (err e, (hs, w)) b = b

module _ (K : Kernel) where
  drop_generation-Begun : (op : MergeOp) → Stays HasBegun Any (drop_generation K op)
  drop_generation-Begun op =
      if-Stays op.fresh_ws
        (then-Stays (ignore-Stays (io-Begun (teardown_workspace K op.ws)))
          (change-Begun (λ o. record o { fresh_ws = false }) (λ o b. b)))
        (if-Stays (not (null op.gen) && not (same op.gen op.ws))
          (then-Stays (ignore-Stays (io-Begun (detach_all K op.gen)))
            (ignore-Stays (io-Begun (remove_tree K op.gen))))
          (pure-Stays tt tt))

  discard-Begun : Stays HasBegun Any (discard K)
  unfolding discard
  discard-Begun = bind-Stays state-Begun (λ op u.
      then-Stays (io-Begun (unmount_images K op.images)) (
        then-Stays (change-Begun (λ o. record o { images = [] }) (λ o b. b)) (
          then-Stays (drop_generation-Begun op)
            (change-Begun (λ o. record o { gen = [] }) (λ o b. b)))))

module _ (K : Kernel) (rounds : ℕ) where
  give_up-Begun : (op : MergeOp) → Stays HasBegun Any (give_up K rounds op)
  give_up-Begun op =
      if-Stays op.swapping
        (then-Stays (io-Begun (unmount_images K op.images)) (
          then-Stays (change-Begun (λ o. record o { images = [] }) (λ o b. b))
            (ignore-Stays (io-Begun (teardown_workspace K op.ws)))))
        (discard-Begun K)

  undo-Begun : (b : Bool) (op : MergeOp) → Stays HasBegun Any (undo K rounds b op)
  undo-Begun true op = pure-Stays tt tt
  undo-Begun false op =
      then-Stays (over_backward-Begun (restore_host K rounds op)) (give_up-Begun op)

  pub abort-Begun : Stays HasBegun Any (abort K rounds)
  unfolding abort
  abort-Begun = bind-Stays state-Begun (λ op u. undo-Begun op.committed op)

  over_images-Begun :
      (f : Do (MountedImage × Rest) Unit) → Stays HasBegun Any (over_images K rounds f)
  over_images-Begun f = record { run = λ (op, w) b. put op (over f op.images w) b }
    where
      put :
          (op : MergeOp) (r : Result Fault Unit × (List MountedImage × Rest))
          → op.swapping ≡ true
          → Ends HasBegun Any (put_images K rounds op r)
      put op (ok u, (is, w)) b = (tt, b)
      put op (err e, (is, w)) b = b

  promote-Begun : Stays HasBegun Any (promote K rounds)
  unfolding promote
  promote-Begun = bind-Stays state-Begun (λ op u. if-Stays (same op.gen op.ws) (pure-Stays tt tt) (
      then-Stays
        (io-Begun (
          detach_all K (extensions_dir op.ws)
          >> (remove_tree K (extensions_dir op.ws)
              >> (for_each op.hiers (clear_parts K rounds op)
                  >> call K (make_dir (extensions_dir op.ws))))))
        (then-Stays (over_images-Begun (move_image K rounds op))
          (io-Begun (for_each op.hiers (move_parts K rounds op) >> remove_tree K op.gen)))))

  begins :
      Steps
        (λ w. Unit {0})
        HasBegun
        HasBegun
        Any
        (change {X = MergeOp} {W = Rest} (λ o. record o { swapping = true }))
  begins = record { take = λ (op, w) u. (tt, refl) }

  announced :
      (names : List Bytes)
      → Steps
          (λ w. Unit {0})
          (λ w. Unit {0})
          HasBegun
          Any
          (ignore (io {X = MergeOp} {Y = Outcome} (call K (before_merge names))))
  announced names = record { take = λ (op, (out, t)) u. (tt, tt) }

  noted :
      (names : List Bytes)
      → Steps (λ w. Unit {0}) (λ w. Unit {0}) HasBegun Any (set_outcome merged names)
  noted names = record { take = λ (op, (out, t)) u. (tt, tt) }

  none_merged : Stays HasBegun Any (no_hierarchies K rounds)
  none_merged = record { run = λ (op, (out, t)) b. (tt, b) }

  swap-Begun :
      (names : List Bytes) (content : Bytes)
      → Steps (λ w. Unit {0}) HasBegun HasBegun Any (swap K rounds names content)
  unfolding swap
  swap-Begun names content = bind-Steps begins (λ u v.
      Stays-Steps (λ w b. b) (λ w b. b)
        (bind-Stays state-Begun (λ op u. then-Stays (over_hiers-Begun (unmerge_old K rounds op)) (
          then-Stays (over_hiers-Begun (assemble K rounds op names content)) (
            then-Stays (over_hiers-Begun (move_overlay K rounds op))
              (change-Begun (λ o. record o { committed = true }) (λ o b. b)))))))

  cleaned-Begun : (r : Result Fault Unit) → Stays HasBegun Any (cleaned K rounds r)
  cleaned-Begun (ok u) = pure-Stays tt tt
  cleaned-Begun (err e) = fail-Stays cleanup_failed

  clean_up-Begun : Stays HasBegun Any (clean_up K rounds)
  unfolding clean_up
  clean_up-Begun = then-Stays (over_hiers-Begun (close_all K rounds)) (
      bind-Stays state-Begun (λ op u. bind-Stays none_merged (λ nothing v.
        bind-Stays
          (attempt-Stays (if-Stays nothing (io-Begun (teardown_workspace K op.ws)) promote-Begun))
          (λ r x. cleaned-Begun r))))

  pub replace-Begun :
      (content : Bytes) (names : List Bytes)
      → Steps (λ w. Unit {0}) HasBegun HasBegun Any (replace K rounds content names)
  replace-Begun content names = bind-Steps (announced names) (λ u v.
      bind-Steps (noted names) (λ u v.
        bind-Steps (swap-Begun names content)
          (λ u v. Stays-Steps (λ w b. b) (λ w b. b) clean_up-Begun)))
