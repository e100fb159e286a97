-- ===== src/Overlay/Engine/Spared/Undone.antt =====
-- internal/overlay/engine.go, `abort`: undoing an operation that has not begun to replace merges calls
-- nothing outside the workspace.
use sysext_alpine.Base.{◌≡◌, refl, ℕ, Bool, true, false, List, [], ◌∷◌, Result, ok, err, Bytes, All}
use sysext_alpine.Files.Chase.Rooted.{IsRooted}
use sysext_alpine.Overlay.Submounts.{attach_submounts}
use sysext_alpine.Overlay.Kernel.{Fault, Trace, Kernel, Do}
use sysext_alpine.Overlay.Kernel.Stays.{Any, Ends, Stays, bind-Stays, then-Stays, if-Stays-eq}
use sysext_alpine.Overlay.Workspace.{attach_saved}
use sysext_alpine.Overlay.Workspace.Confined.{Confined}
use sysext_alpine.Overlay.Engine.{
  Hier, MergeOp, Outcome, Rest, World, HierWorld, over, over_rest, attach_subs, backward,
}
use sysext_alpine.Overlay.Engine.Swap.{
  restore_host, overlay_place, over_backward, put_backward, give_up, undo, abort,
}
use sysext_alpine.Overlay.Engine.Kept.{Both, state-Stays}
use sysext_alpine.Overlay.Engine.Lookup.{NotMerged}
use sysext_alpine.Overlay.Engine.Spared.{
  Settled, GenInside, IsMounted, Spared, discard-Stays, backward-All,
}
use sysext_alpine.Overlay.Engine.Spared.Planning.{IsQuiet}

pub clash : {b : Bool} → b ≡ true → b ≡ false → ⊥
clash h k = cc

module _ (K : Kernel) (rounds : ℕ) (ws : Bytes) (start : Trace) (rooted : IsRooted ws)
    (refresh no_mutable : Bool) where
  abbrev S : MergeOp → Type 0
  S op = Spared K ws start rooted (IsQuiet refresh) no_mutable op

  abbrev C : Trace → Type 0
  C t = Confined ws start t

  abbrev Sparing : World → Type 0
  Sparing w = Both S C w

  -- Nothing is undone for a quiet hierarchy.
  restore_host-Stays :
      (op : MergeOp) → Stays (Both {Y = Outcome} (IsQuiet refresh) C) Any (restore_host K rounds op)
  unfolding restore_host overlay_place attach_subs attach_saved attach_submounts
  restore_host-Stays op = record {
    run = λ (hs, (out, t)) (((a, b, c), m), k). quiet hs out t a b c m k;
  }
    where
      quiet :
          (hs : Hier) (out : Outcome) (t : Trace)
          → hs.attached ≡ false
          → hs.staging_mounted ≡ false
          → hs.subs ≡ []
          → (refresh ≡ false → NotMerged hs)
          → C t
          → Ends
              (Both {Y = Outcome} (IsQuiet refresh) C)
              Any
              (restore_host K rounds op (hs, (out, t)))
      quiet hs out t a b c m k = rw (a, b, c) (tt, (((refl, refl, refl), m), k))

  abbrev EachQuiet : List Hier × Rest → Type 0
  EachQuiet (hs, (out, t)) = All (IsQuiet refresh) hs × C t

  over-Stays :
      (f : Do HierWorld Unit)
      → Stays (Both {Y = Outcome} (IsQuiet refresh) C) Any f
      → (xs : List Hier) (w : Rest) → All (IsQuiet refresh) xs
      → C w.1
      → Ends EachQuiet Any (over f xs w)
  unfolding over
  over-Stays f s [] (out, t) h c = (tt, (tt, c))
  over-Stays f s (x ∷ xs) (out, t) (p, h) c =
      one (f (x, (out, t))) (s.run (x, (out, t)) (p, c)) (λ w c. over-Stays f s xs w h c)
    where
      rest :
          (x : Hier) (r : Result Fault Unit × (List Hier × Rest))
          → IsQuiet refresh x
          → Ends EachQuiet Any r
          → Ends EachQuiet Any (r.0, (x ∷ r.1.0, r.1.1))
      rest x (ok u, (hs, w)) p (v, (h, c)) = (v, ((p, h), c))
      rest x (err e, (hs, w)) p (h, c) = ((p, h), c)

      one :
          (r : Result Fault Unit × HierWorld)
          → Ends (Both {Y = Outcome} (IsQuiet refresh) C) Any r
          → ((w : Rest) → C w.1 → Ends EachQuiet Any (over f xs w))
          → Ends EachQuiet Any (over_rest r xs (over f xs))
      one (ok u, (y, w)) (v, (q, c)) next = rest y (over f xs w) q (next w c)
      one (err e, (y, w)) (q, c) next = ((q, h), c)

  over_backward-Stays :
      (f : Do HierWorld Unit)
      → Stays (Both {Y = Outcome} (IsQuiet refresh) C) Any f
      → Stays Sparing Any (over_backward f)
  unfolding over_backward
  over_backward-Stays f s = record {
    run = λ (op, (out, t)) ((x, (g, (i, h))), c).
        put op x g i (over f (backward op.hiers) (out, t)) (
          over-Stays f s (backward op.hiers) (out, t)
            (backward-All K ws start rooted (IsQuiet refresh) op.hiers h) c);
  }
    where
      put :
          (op : MergeOp)
          → Settled K ws start rooted (IsQuiet refresh) no_mutable op
          → GenInside K ws start rooted op.gen
          → All (IsMounted K ws start rooted) op.images
          → (r : Result Fault Unit × (List Hier × Rest)) → Ends EachQuiet Any r
          → Ends Sparing Any (put_backward op r)
      put op x g i (ok u, (hs, (out, t))) (v, (h, c)) =
          (tt, ((x, (g, (i, backward-All K ws start rooted (IsQuiet refresh) hs h))), c))
      put op x g i (err e, (hs, (out, t))) (h, c) =
          ((x, (g, (i, backward-All K ws start rooted (IsQuiet refresh) hs h))), c)

  give_up-Stays : (op : MergeOp) → op.swapping ≡ false → Stays Sparing Any (give_up K rounds op)
  give_up-Stays op e =
      if-Stays-eq op.swapping (λ h. absurd (clash h e))
        (λ h. discard-Stays K ws start rooted (IsQuiet refresh) no_mutable)

  undo-Stays :
      (b : Bool) (op : MergeOp)
      → b ≡ false
      → op.swapping ≡ false
      → Stays Sparing Any (undo K rounds b op)
  undo-Stays true op h e = absurd (clash refl h)
  undo-Stays false op h e =
      then-Stays (over_backward-Stays (restore_host K rounds op) (restore_host-Stays op))
        (give_up-Stays op e)

  pub abort-Stays : Stays Sparing Any (abort K rounds)
  unfolding abort
  abort-Stays =
      bind-Stays (state-Stays S C) (λ op ((w, (e, (f, m))), r). undo-Stays op.committed op f e)
