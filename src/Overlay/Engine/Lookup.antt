-- ===== src/Overlay/Engine/Lookup.antt =====
-- internal/overlay/engine.go, `op.run`: its first loop, over the hierarchies.
use sysext_alpine.Base.{
  ℕ, ◌≡◌, refl, subst, Bool, true, false, ◌&&◌, List, [], ◌∷◌, ◌++◌, Result, ok, err, Bytes, null,
  All, All-append, if◌then◌else◌,
}
use sysext_alpine.Overlay.Kernel.{
  Fault, already_merged, Kernel, Do, after, fail, for_each, chased, resolve_hierarchy,
}
use sysext_alpine.Overlay.Unmerge.{is_our_mount_point}
use sysext_alpine.Overlay.Engine.{Hier, MergeOp, Rest, World, change}
use sysext_alpine.Overlay.Engine.Run.{start_hier, look_up, look_up_all}

abbrev pub NotMerged : Hier → Type 0
NotMerged hs = hs.merged ≡ false

-- Nothing was called, and after a success no hierarchy is merged.
abbrev pub Untouched : Rest → Result Fault Unit × World → Type 0
Untouched x (ok u, (op, y)) = (y ≡ x) × All NotMerged op.hiers
Untouched x (err e, (op, y)) = y ≡ x

module _ (K : Kernel) (rounds : ℕ) where
  -- A query on the world
  ask-Untouched :
      {A : Type 0} (x : Rest) (op : MergeOp) (r : Result Fault A) (next : A → Do World Unit)
      → ((a : A) → Untouched x (next a (op, x)))
      → Untouched x (after (r, (op, x)) next)
  ask-Untouched x op (ok a) next h = h a
  ask-Untouched x op (err e) next h = refl

  add-Untouched :
      (x : Rest) (op : MergeOp) (h target host : Bytes) (b : Bool)
      → All NotMerged op.hiers
      → Untouched x (
          (if b && true
              then fail (already_merged h)
              else change (λ o. record o { hiers = o.hiers ++ (start_hier h target host b ∷ []) }))
            (op, x))
  add-Untouched x op h target host true k = refl
  add-Untouched x op h target host false k =
      (refl, All-append NotMerged op.hiers (start_hier h target host false ∷ []) k (refl, tt))

  look_up-Untouched :
      (h : Bytes) (x : Rest) (op : MergeOp)
      → All NotMerged op.hiers
      → Untouched x (look_up K rounds false h (op, x))
  look_up-Untouched h x op k = ask-Untouched x op (chased K op.root h true x.1) _ (λ target.
      ask-Untouched x op (resolve_hierarchy K op.root h x.1) _ (λ host.
        ask-Untouched x op (if null host then ok false else is_our_mount_point K op.class host x.1)
          _ (λ m. add-Untouched x op h target host m k)))

  after-Untouched :
      (x : Rest) (r : Result Fault Unit × World) (next : Unit → Do World Unit)
      → Untouched x r
      → ((op : MergeOp) (y : Rest) → y ≡ x → All NotMerged op.hiers → Untouched x (next tt (op, y)))
      → Untouched x (after r next)
  after-Untouched x (ok u, (op, y)) next (h, k) f = f op y h k
  after-Untouched x (err e, (op, y)) next h f = h

  -- Looking a list of hierarchies up for a merge that is no refresh calls nothing, whether it fails or
  -- not; when it succeeds, and no hierarchy that the operation had before is merged, none is at all.
  pub look_up_all-Untouched :
      (hierarchies : List Bytes) (x : Rest) (op : MergeOp)
      → All NotMerged op.hiers
      → Untouched x (look_up_all K rounds false hierarchies (op, x))
  unfolding look_up_all for_each
  look_up_all-Untouched [] x op k = (refl, k)
  look_up_all-Untouched (h ∷ hs) x op k =
      after-Untouched x (look_up K rounds false h (op, x)) _ (look_up-Untouched h x op k)
        (λ p y e l.
          subst (λ z. Untouched z (look_up_all K rounds false hs (p, y))) e
            (look_up_all-Untouched hs y p l))
