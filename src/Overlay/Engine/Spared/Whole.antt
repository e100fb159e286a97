-- ===== src/Overlay/Engine/Spared/Whole.antt =====
-- internal/overlay/engine.go, `run`: until an operation begins to replace merges, and when it fails
-- before, nothing outside the workspace is mounted, unmounted, moved or removed.
use sysext_alpine.Base.{
  ◌≡◌, refl, sym, ap, subst, ◌∙◌, ◌⊎◌, inl, inr, ℕ, Bool, true, false, not, ◌&&◌, ◌||◌, List, [],
  ◌∷◌, Result, ok, err, Bytes, null, map, All, append_nil, if◌then◌else◌, &&_iff,
}
use sysext_alpine.Discover.Images.{Image}
use sysext_alpine.Release.Names.{image_name_is_valid}
use sysext_alpine.Files.Chase.Rooted.{IsRooted, IsComponent}
use sysext_alpine.Overlay.Mutable.{is_no_mode}
use sysext_alpine.Overlay.Kernel.{Fault, before_unmerge, Trace, Kernel, Do, ◌>>◌, when, call}
use sysext_alpine.Overlay.Kernel.Stays.{
  Any, Ends, Stays, pure-Stays, bind-Stays, then-Stays, when-Stays, if-Steps, Leaves, Steps,
  Stays-Steps, bind-Steps,
}
use sysext_alpine.Overlay.Workspace.{teardown_workspace}
use sysext_alpine.Overlay.Workspace.Places.{Inside, image_name-IsComponent}
use sysext_alpine.Overlay.Workspace.Confined.{Confined}
use sysext_alpine.Overlay.Engine.{
  Hier, MergeOp, MergeResult, nothing_found, unchanged, Outcome, World, io, over_hiers,
}
use sysext_alpine.Overlay.Engine.Swap.{abort}
use sysext_alpine.Overlay.Engine.Run.{
  any_merged, set_outcome, prepare, unmerge_instead, merge_planned, replace, names_of, run_op,
  or_abort, run, unmerge_one, unmerge_now,
}
use sysext_alpine.Overlay.Engine.Kept.{Both, state-Stays}
use sysext_alpine.Overlay.Engine.Spared.{IsMounted, Spared, discard-Stays}
use sysext_alpine.Overlay.Engine.Spared.Mounting.{mount_all-Stays}
use sysext_alpine.Overlay.Engine.Spared.Planning.{
  IsQuiet, look_up_all-Stays, plan-Stays, is_unchanged-Stays,
}
use sysext_alpine.Overlay.Engine.Spared.Begun.{HasBegun, abort-Begun, replace-Begun}
use sysext_alpine.Overlay.Engine.Spared.Undone.{clash, abort-Stays}

module _ (K : Kernel) (rounds : ℕ) (ws : Bytes) (start : Trace) (rooted : IsRooted ws)
    (refresh no_mutable : Bool) where
  abbrev S : MergeOp → Type 0
  S op = Spared K ws start rooted (IsQuiet refresh) no_mutable op

  abbrev C : Trace → Type 0
  C t = Confined ws start t

  abbrev Sparing : World → Type 0
  Sparing w = Both S C w

  prepare-Stays :
      (images : List Image) (hierarchies : List Bytes)
      → All (λ img. IsComponent img.name) images
      → ((t : Trace) → Inside ws (K.temp_name t ws))
      → Stays Sparing Any (prepare K rounds refresh images hierarchies)
  unfolding prepare
  prepare-Stays images hierarchies k temporary =
      then-Stays (look_up_all-Stays K ws start rooted refresh no_mutable rounds hierarchies) (
        bind-Stays (state-Stays S C) (λ op s.
          when-Stays (not (null images) || not (is_no_mode op.mode)) (
            mount_all-Stays K ws start rooted (IsQuiet refresh) no_mutable temporary rounds refresh
              images k)))

  noted-Stays : (r : MergeResult) (names : List Bytes) → Stays Sparing Any (set_outcome r names)
  noted-Stays r names = record { run = λ (op, (out, t)) (s, c). (tt, (s, c)) }

  none_merged :
      (hiers : List Hier) → All (IsQuiet refresh) hiers → refresh ≡ false → any_merged hiers ≡ false
  none_merged [] h e = refl
  none_merged (hs ∷ rest) ((q, m), h) e = rw (m e) (none_merged rest h e)

  never-Stays : (b : Bool) (m : Do World Unit) → b ≡ false → Stays Sparing Any (when b m)
  never-Stays true m h = absurd (clash refl h)
  never-Stays false m h = pure-Stays tt tt

  unmerge_instead-Stays : refresh ≡ false → Stays Sparing Any (unmerge_instead K rounds)
  unfolding unmerge_instead
  unmerge_instead-Stays e =
      then-Stays (discard-Stays K ws start rooted (IsQuiet refresh) no_mutable) (
        then-Stays (noted-Stays nothing_found []) (
          bind-Stays (state-Stays S C) (λ op (f, (g, (i, h))).
            never-Stays (any_merged op.hiers)
              (io (call K before_unmerge)
                >> (over_hiers (unmerge_one K rounds (unmerge_now K rounds op))
                    >> io (teardown_workspace K op.ws)))
              (none_merged op.hiers h e))))

  -- Nothing outside was touched, or the operation has begun to replace merges.
  abbrev pub SparesOrBegun : World → Type 0
  SparesOrBegun w = Sparing w ⊎ HasBegun w

  outside_or_begun :
      {A : Type 0} {V : A → Type 0} {m : Do World A}
      → Stays Sparing V m
      → Steps Sparing SparesOrBegun SparesOrBegun V m
  outside_or_begun h = Stays-Steps (λ w s. inl s) (λ w s. inl s) h

  before :
      {A : Type 0} {V : A → Type 0} {m : Do World A}
      → Stays Sparing V m
      → Steps Sparing Sparing SparesOrBegun V m
  before h = Stays-Steps (λ w s. s) (λ w s. inl s) h

  begun :
      (r : Result Fault Unit × World)
      → Leaves HasBegun HasBegun Any r
      → Leaves SparesOrBegun SparesOrBegun Any r
  begun (ok u, w) (v, b) = (v, inr b)
  begun (err e, w) b = inr b

  replace-Steps :
      (content : Bytes) (names : List Bytes)
      → Steps Sparing SparesOrBegun SparesOrBegun Any (replace K rounds content names)
  replace-Steps content names = record {
    take = λ w s.
        begun (replace K rounds content names w) ((replace-Begun K rounds content names).take w tt);
  }

  merge_planned-Steps : Steps Sparing SparesOrBegun SparesOrBegun Any (merge_planned K rounds)
  unfolding merge_planned
  merge_planned-Steps = bind-Steps (before (state-Stays S C)) (λ op s.
      bind-Steps
        (before (plan-Stays K ws start rooted refresh no_mutable (map (λ mi. mi.dir) op.images)))
        (λ content u.
          bind-Steps
            (before (is_unchanged-Stays K ws start rooted refresh no_mutable rounds content))
            (λ same_one u.
              if-Steps same_one
                (outside_or_begun (
                  then-Stays (discard-Stays K ws start rooted (IsQuiet refresh) no_mutable)
                    (noted-Stays unchanged (names_of op.images))))
                (replace-Steps content (names_of op.images)))))

  -- A merge, or an operation in a mutable mode, never unmerges instead.
  instead-Steps :
      (b : Bool) (op : MergeOp)
      → S op
      → (refresh ≡ false) ⊎ (no_mutable ≡ false)
      → (null op.images && is_no_mode op.mode) ≡ b
      → Steps Sparing SparesOrBegun SparesOrBegun Any
          (if b then unmerge_instead K rounds else merge_planned K rounds)
  instead-Steps true op s (inl e) h = outside_or_begun (unmerge_instead-Stays e)
  instead-Steps true op ((w, (e, (f, m))), r) (inr n) h =
      absurd (clash ((&&_iff _ _).0 h).1 (m ∙ n))
  instead-Steps false op s k h = merge_planned-Steps

  run_op-Steps :
      (images : List Image) (hierarchies : List Bytes)
      → All (λ img. IsComponent img.name) images
      → ((t : Trace) → Inside ws (K.temp_name t ws))
      → (refresh ≡ false) ⊎ (no_mutable ≡ false)
      → Steps Sparing SparesOrBegun SparesOrBegun Any (run_op K rounds refresh images hierarchies)
  unfolding run_op
  run_op-Steps images hierarchies k temporary h =
      bind-Steps (before (prepare-Stays images hierarchies k temporary)) (λ u v.
        bind-Steps (before (state-Stays S C))
          (λ op s. instead-Steps (null op.images && is_no_mode op.mode) op s h refl))

  left : (r : Result Fault Unit × World) → Ends Sparing Any r → Sparing r.1
  left (ok u, w) (v, s) = s
  left (err e, w) s = s

  still_begun : (r : Result Fault Unit × World) → Ends HasBegun Any r → HasBegun r.1
  still_begun (ok u, w) (v, b) = b
  still_begun (err e, w) b = b

  or_abort-SparesOrBegun :
      (r : Result Fault Unit × World)
      → Leaves SparesOrBegun SparesOrBegun Any r
      → SparesOrBegun (or_abort K rounds r).1
  or_abort-SparesOrBegun (ok u, w) (v, s) = s
  or_abort-SparesOrBegun (err e, w) (inl s) =
      inl (
        left (abort K rounds w) ((abort-Stays K rounds ws start rooted refresh no_mutable).run w s))
  or_abort-SparesOrBegun (err e, w) (inr b) =
      inr (still_begun (abort K rounds w) ((abort-Begun K rounds).run w b))

-- An operation before its run.
abbrev pub IsNew : MergeOp → Type 0
IsNew op =
    (op.gen ≡ [])
    × (op.images ≡ [])
    × (op.hiers ≡ [])
    × (op.swapping ≡ false)
    × (op.committed ≡ false)

names-IsComponent :
    (images : List Image)
    → All (λ img. image_name_is_valid img.name ≡ true) images
    → All (λ img. IsComponent img.name) images
names-IsComponent [] h = tt
names-IsComponent (img ∷ rest) (v, h) =
    (image_name-IsComponent img.name v, names-IsComponent rest h)

IsNew-Spared :
    (K : Kernel) (op : MergeOp) (t : Trace) (rooted : IsRooted op.ws) (refresh : Bool)
    → IsNew op
    → Spared K op.ws t rooted (IsQuiet refresh) (is_no_mode op.mode) op
IsNew-Spared K op t rooted refresh (g, i, h, s, c) = (
  (refl, (s, (c, refl))),
  (
    λ n. absurd (named (ap null g) n),
    (subst (All (IsMounted K op.ws t rooted)) (sym i) tt, subst (All (IsQuiet refresh)) (sym h) tt),
  ),
)
  where
    named : null op.gen ≡ true → null op.gen ≡ false → ⊥
    named a b = cc

SparesOrBegun-Confined :
    (K : Kernel) (ws : Bytes) (start : Trace) (rooted : IsRooted ws) (refresh no_mutable : Bool)
    (rounds : ℕ) (w : World)
    → SparesOrBegun K rounds ws start rooted refresh no_mutable w
    → (w.0.swapping ≡ true) ⊎ Confined ws start w.1.1
SparesOrBegun-Confined K ws start rooted refresh no_mutable rounds (op, (out, t)) (inl (s, c)) =
    inr c
SparesOrBegun-Confined K ws start rooted refresh no_mutable rounds (op, (out, t)) (inr b) = inl b

-- A new merge, or a new refresh in a mutable mode, in a workspace with a clean absolute path below which
-- the kernel makes its temporary directories, and for images with valid names: when it ends, with
-- success or not, it has begun to replace merges, or every call that it made, those that undo it
-- included, either creates a directory, sets the permissions of a file, or mounts, remounts, moves,
-- unmounts or removes something inside the workspace.
pub run-Confined :
    (K : Kernel) (rounds : ℕ) (refresh : Bool) (images : List Image) (hierarchies : List Bytes)
    (op : MergeOp) (out : Outcome) (t : Trace)
    → IsNew op
    → IsRooted op.ws
    → ((u : Trace) → Inside op.ws (K.temp_name u op.ws))
    → All (λ img. image_name_is_valid img.name ≡ true) images
    → (refresh ≡ false) ⊎ (is_no_mode op.mode ≡ false)
    → ((run K rounds refresh images hierarchies (op, (out, t))).1.0.swapping ≡ true)
      ⊎ Confined op.ws t (run K rounds refresh images hierarchies (op, (out, t))).1.1.1
unfolding run
run-Confined K rounds refresh images hierarchies op out t new rooted temporary names kind =
    let none = is_no_mode op.mode in
    SparesOrBegun-Confined K op.ws t rooted refresh none rounds
      (run K rounds refresh images hierarchies (op, (out, t))).1
      (or_abort-SparesOrBegun K rounds op.ws t rooted refresh none
        (run_op K rounds refresh images hierarchies (op, (out, t)))
        ((run_op-Steps K rounds op.ws t rooted refresh none images hierarchies
            (names-IsComponent images names) temporary kind).take
          (op, (out, t)) (IsNew-Spared K op t rooted refresh new, ([], sym (append_nil t), tt))))
