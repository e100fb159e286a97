-- ===== src/Overlay/Engine/Restored.antt =====
-- internal/overlay/engine.go, `abort`: what undoing a failed merge does to the host.
use sysext_alpine.Base.{
  ℕ, ◌≡◌, refl, ◌⊎◌, inl, inr, Bool, true, false, List, [], ◌∷◌, ◌++◌, Result, ok, err, Bytes, null,
  subst, All, if◌then◌else◌, join_path,
}
use sysext_alpine.Overlay.Markers.{marker_dir_name}
use sysext_alpine.Overlay.Submounts.{SavedMount, MountError}
use sysext_alpine.Overlay.Kernel.{Fault, unmount_lazy, Trace, Kernel, after}
use sysext_alpine.Overlay.Kernel.Extends.{
  Extends, Called, Extends-start, Extends-join, Extends-call, Called-widen, detach-Extends,
  detach-Called,
}
use sysext_alpine.Overlay.Workspace.{detach, below_workspace, attach_saved}
use sysext_alpine.Overlay.Workspace.Attached.{IsPutBack, IsPutBack-widen, attach_saved-IsPutBack}
use sysext_alpine.Overlay.Unmerge.{take_submounts}
use sysext_alpine.Overlay.Unmerge.Undoes.{take_submounts-Keeps}
use sysext_alpine.Overlay.Engine.{
  Hier, MergeOp, Outcome, Rest, HierWorld, over, over_rest, attach_subs, add_subs, joined, backward,
}
use sysext_alpine.Overlay.Engine.Swap.{
  restore_host, overlay_place, or_no_mounts, over_backward, put_backward, give_up, undo, abort,
}
use sysext_alpine.Overlay.Engine.Adds.{give_up-Later}

-- A mount at the path, when there is one, is unmounted.
abbrev pub Gone : Trace → Trace → Bytes → Type 0
Gone t u p = (null p ≡ true) ⊎ Called t u (unmount_lazy p)

-- The new overlay is unmounted where it is: on the hierarchy, or at its staging point.
abbrev pub Down : Trace → Trace → Bool → Bool → Bytes → Bytes → Type 0
Down t u true staged target staging = Gone t u target
Down t u false true target staging = Gone t u staging
Down t u false false target staging = Unit

-- First the new overlay is taken down, then each mount that was saved for the hierarchy is put back.
abbrev pub IsUndone : Kernel → Trace → Trace → Hier → Type 0
IsUndone K t u hs =
    (v : Trace) × Extends t v
    × Extends v u
    × Down t v hs.attached hs.staging_mounted hs.target hs.staging
    × All (IsPutBack K v u hs.target) hs.subs

Gone-widen : (s t u : Trace) (p : Bytes) → Extends s t → Gone t u p → Gone s u p
Gone-widen s t u p h (inl e) = inl e
Gone-widen s t u p h (inr c) = inr (Called-widen s t u u _ h c (Extends-start u))

Down-widen :
    (s t u : Trace) (a b : Bool) (p q : Bytes) → Extends s t → Down t u a b p q → Down s u a b p q
Down-widen s t u true b p q h d = Gone-widen s t u p h d
Down-widen s t u false true p q h d = Gone-widen s t u q h d
Down-widen s t u false false p q h d = tt

placed :
    (t u : Trace) (a b : Bool) (p q : Bytes)
    → Gone t u (if a then p else if b then q else [])
    → Down t u a b p q
placed t u true b p q h = h
placed t u false true p q h = h
placed t u false false p q h = tt

All-front : {A : Type 0} (P : A → Type 0) (xs ys : List A) → All P (xs ++ ys) → All P xs
All-front P [] ys h = tt
All-front P (x ∷ xs) ys (p, h) = (p, All-front P xs ys h)

All-last : {A : Type 0} (P : A → Type 0) (xs : List A) (y : A) → All P (xs ++ (y ∷ [])) → P y
All-last P [] y (p, h) = p
All-last P (x ∷ xs) y (p, h) = All-last P xs y h

backward-All : (P : Hier → Type 0) (xs : List Hier) → All P (backward xs) → All P xs
unfolding backward
backward-All P [] h = tt
backward-All P (x ∷ xs) h =
    (All-last P (backward xs) x h, backward-All P xs (All-front P (backward xs) (x ∷ []) h))

module _ (K : Kernel) where
  later :
      (t u v : Trace) (dst : Bytes) (ss : List SavedMount)
      → All (IsPutBack K t u dst) ss
      → Extends u v
      → All (IsPutBack K t v dst) ss
  later t u v dst [] h k = tt
  later t u v dst (s ∷ ss) (p, h) k =
      (IsPutBack-widen K t t u v dst s (Extends-start t) p k, later t u v dst ss h k)

  IsUndone-widen :
      (s t u v : Trace) (hs : Hier)
      → Extends s t
      → IsUndone K t u hs
      → Extends u v
      → IsUndone K s v hs
  IsUndone-widen s t u v hs h (w, a, b, d, l) k = (
    w,
    Extends-join s t w h a,
    Extends-join w u v b k,
    Down-widen s t w hs.attached hs.staging_mounted hs.target hs.staging h d,
    later w u v hs.target hs.subs l k,
  )

  All-widen :
      (s t u v : Trace) (xs : List Hier)
      → Extends s t
      → All (IsUndone K t u) xs
      → Extends u v
      → All (IsUndone K s v) xs
  All-widen s t u v [] h l k = tt
  All-widen s t u v (x ∷ xs) h (p, l) k =
      (IsUndone-widen s t u v x h p k, All-widen s t u v xs h l k)

module _ (K : Kernel) (rounds : ℕ) where
  -- A step of the undoing does not fail, and undoes a hierarchy.
  abbrev Fine : Trace → Hier → Result Fault Unit × HierWorld → Type 0
  Fine t hs (ok u, (x, (out, v))) = Extends t v × IsUndone K t v hs
  Fine t hs (err e, w) = ⊥

  down :
      (op : MergeOp) (hs : Hier) (t u : Trace)
      → Gone t u (overlay_place K rounds op hs)
      → Down t u hs.attached hs.staging_mounted hs.target hs.staging
  unfolding overlay_place
  down op hs t u h = placed t u hs.attached hs.staging_mounted hs.target hs.staging h

  joined_same : (es : List MountError) (t : Trace) → t ≡ (joined es t).1
  joined_same [] t = refl
  joined_same (e ∷ es) t = refl

  attach_subs-IsPutBack :
      (dst : Bytes) (hs : Hier) (out : Outcome) (t : Trace)
      → Extends t (attach_subs K dst (hs, (out, t))).1.1.1
        × All (IsPutBack K t (attach_subs K dst (hs, (out, t))).1.1.1 dst) hs.subs
  unfolding attach_subs
  attach_subs-IsPutBack dst hs out t =
      let r = attach_saved K dst hs.subs t in
      subst (λ u. Extends t u × All (IsPutBack K t u dst) hs.subs) (joined_same r.1 r.2)
        (attach_saved-IsPutBack K dst hs.subs t)

  restore_host-Fine :
      (op : MergeOp) (hs : Hier) (out : Outcome) (t : Trace)
      → Fine t hs (restore_host K rounds op (hs, (out, t)))
  unfolding restore_host
  restore_host-Fine op hs out t = by_place (null (overlay_place K rounds op hs)) refl
    where
      place : Bytes
      place = overlay_place K rounds op hs

      emptied : Hier → Hier
      emptied h = record h { attached = false; staging_mounted = false }

      by_place :
          (b : Bool)
          → (null (overlay_place K rounds op hs) ≡ b)
          → Fine t hs (restore_host K rounds op (hs, (out, t)))
      by_place true h =
          let put = attach_subs-IsPutBack hs.target (emptied hs) out t in
          rw h (put.0, (t, Extends-start t, put.0, down op hs t t (inl h), put.1))
      by_place false h =
          let marker = join_path place (marker_dir_name op.class) in
          let skip = below_workspace K op.ws place in
          let t1 = (detach K marker t).1 in
          let taken = take_submounts K op.class place skip t1 in
          let more = or_no_mounts K rounds op taken.0 in
          let t2 = taken.1 in
          let v = (detach K place t2).1 in
          let before = Extends-join t t1 t2 ((detach-Extends K marker).run t) (
            (take_submounts-Keeps Extends-start Extends-join K (λ t e h. Extends-call t e) op.class
                place skip).run
              t1) in
          let until = Extends-join t t2 v before ((detach-Extends K place).run t2) in
          let gone = Called-widen t t2 v v _ before (detach-Called K place t2) (Extends-start v) in
          let put = attach_subs-IsPutBack hs.target (emptied (add_subs more hs)) out v in
          let u = (attach_subs K hs.target (emptied (add_subs more hs), (out, v))).1.1.1 in
          rw h (
            Extends-join t v u until put.0,
            (
              v,
              until,
              put.0,
              down op hs t v (inr gone),
              All-front (IsPutBack K v u hs.target) hs.subs more put.1,
            ),
          )

  abbrev AllFine : Trace → List Hier → Result Fault Unit × (List Hier × Rest) → Type 0
  AllFine t xs (ok u, (hiers, (out, v))) = Extends t v × All (IsUndone K t v) xs
  AllFine t xs (err e, w) = ⊥

  over_rest-AllFine :
      (t : Trace) (x : Hier) (xs : List Hier) (r : Result Fault Unit × HierWorld)
      (next : Rest → Result Fault Unit × (List Hier × Rest))
      → Fine t x r
      → ((out : Outcome) (v : Trace) → AllFine v xs (next (out, v)))
      → AllFine t (x ∷ xs) (over_rest r xs next)
  over_rest-AllFine t x xs (err e, w) next h k = elim h [ ]
  over_rest-AllFine t x xs (ok u, (hs, (out, v))) next (a, p) k = and_rest (next (out, v)) (k out v)
    where
      and_rest :
          (r : Result Fault Unit × (List Hier × Rest))
          → AllFine v xs r
          → AllFine t (x ∷ xs) (r.0, (hs ∷ r.1.0, r.1.1))
      and_rest (ok y, (hiers, (o, w))) (b, l) = (
        Extends-join t v w a b,
        (
          IsUndone-widen K t t v w x (Extends-start t) p b,
          All-widen K t v w w xs a l (Extends-start w),
        ),
      )
      and_rest (err e, w) l = l

  over-AllFine :
      (op : MergeOp) (xs : List Hier) (out : Outcome) (t : Trace)
      → AllFine t xs (over (restore_host K rounds op) xs (out, t))
  unfolding over
  over-AllFine op [] out t = (Extends-start t, tt)
  over-AllFine op (x ∷ xs) out t =
      over_rest-AllFine t x xs (restore_host K rounds op (x, (out, t))) _
        (restore_host-Fine op x out t) (over-AllFine op xs)

  given_up :
      (op p : MergeOp) (t : Trace) (xs : List Hier) (r : Result Fault Unit × (List Hier × Rest))
      → AllFine t xs r
      → All (IsUndone K t (after (put_backward op r) (λ u. give_up K rounds p)).1.1.1) xs
  given_up op p t xs (err e, w) h = elim h [ ]
  given_up op p t xs (ok u, (hiers, (out, v))) (a, l) =
      All-widen K t t v _ xs (Extends-start t) l
        ((give_up-Later K rounds p).run (record op { hiers = backward hiers }, (out, v)))

  undo-IsUndone :
      (op : MergeOp) (out : Outcome) (t : Trace) (b : Bool)
      → b ≡ false
      → All (IsUndone K t (undo K rounds b op (op, (out, t))).1.1.1) op.hiers
  unfolding over_backward
  undo-IsUndone op out t true h = cc
  undo-IsUndone op out t false h = backward-All _ op.hiers (
      given_up op op t (backward op.hiers)
        (over (restore_host K rounds op) (backward op.hiers) (out, t))
        (over-AllFine op (backward op.hiers) out t))

  -- Whatever calls fail, aborting an operation that is not committed calls for each of its hierarchies
  -- the unmount of its new overlay, on the hierarchy or at its staging point, when that path is not
  -- empty. Only after this it moves each mount that was saved for the hierarchy, and is still to be put
  -- back, to its place on the hierarchy, unless the mount point cannot be made at some point.
  pub abort-IsUndone :
      (op : MergeOp) (out : Outcome) (t : Trace)
      → op.committed ≡ false
      → All (IsUndone K t (abort K rounds (op, (out, t))).1.1.1) op.hiers
  unfolding abort
  abort-IsUndone op out t h = undo-IsUndone op out t op.committed h
