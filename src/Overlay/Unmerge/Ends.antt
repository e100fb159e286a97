-- ===== src/Overlay/Unmerge/Ends.antt =====
-- internal/overlay/overlay.go, `unmergeHierarchy`: how its loop ends.
use sysext_alpine.Base.{
  ℕ, zero, suc, ◌<◌, ◌≤◌, ◌≡◌, refl, Bool, true, false, not, List, [], ◌∷◌, ◌++◌, Option, none,
  some, Result, ok, err, Bytes, null, join_path, arith,
}
use sysext_alpine.Release.Class.{Class}
use sysext_alpine.Overlay.Markers.{marker_dir_name}
use sysext_alpine.Overlay.Submounts.{SavedMount}
use sysext_alpine.Overlay.Kernel.{
  Fault, Event, unmount_lazy, Trace, Kernel, Io, after, result_of, call, when,
}
use sysext_alpine.Overlay.Kernel.Keeps.{Keeps, pure-Keeps, ask-Keeps, bind-Keeps, if-Keeps}
use sysext_alpine.Overlay.Workspace.{detach, remove_tree, below_workspace}
use sysext_alpine.Overlay.Unmerge.{
  Unmerged, take_aside, is_our_mount_point, recorded_work_dir, take_submounts, before_unmount,
  removed, unmounted, unmount_turn, unmerge_rounds, unmerge_hierarchy,
}
use sysext_alpine.Overlay.Unmerge.Undoes.{
  undoes, detach-Keeps, remove_tree-Keeps, take_submounts-Keeps,
}

module _ (K : Kernel) (c : Class) (root hierarchy d ws : Bytes) where
  -- What a turn up to the unmount says of the hierarchy.
  abbrev Ended : Result Fault (Option (Bytes × List SavedMount)) × Trace → Type 0
  Ended (ok none, t) = is_our_mount_point K c d t ≡ ok false
  Ended (ok (some x), t) = Unit
  Ended (err e, t) = Unit

  after-Ended :
      {A : Type 0} (r : Result Fault A × Trace) (next : A → Io (Option (Bytes × List SavedMount)))
      → ((a : A) (t : Trace) → Ended (next a t))
      → Ended (after r next)
  after-Ended (ok a, t) next h = h a t
  after-Ended (err e, t) next h = tt

  take_aside-Ended :
      (t : Trace) (ours : Result Fault Bool)
      → is_our_mount_point K c d t ≡ ours
      → Ended (after (ours, t) (take_aside K c root hierarchy d ws))
  take_aside-Ended t (err e) h = tt
  take_aside-Ended t (ok false) h = h
  take_aside-Ended t (ok true) h =
      after-Ended (recorded_work_dir K c root d hierarchy t, t) _
        (λ work u.
          after-Ended (detach K (join_path d (marker_dir_name c)) u) _
            (λ x v. after-Ended (take_submounts K c d (below_workspace K ws d) v) _ (λ subs w. tt)))

  before_unmount-Ended : (t : Trace) → Ended (before_unmount K c root hierarchy d ws t)
  unfolding before_unmount
  before_unmount-Ended t = take_aside-Ended t (is_our_mount_point K c d t) refl

  abbrev Stopped : Unmerged → Type 0
  Stopped (subs, n, none, t) = is_our_mount_point K c d t ≡ ok false
  Stopped (subs, n, some e, t) = Unit

  removed-Stopped :
      (subs : List SavedMount) (n : ℕ) (r : Result Fault Unit × Trace) (next : Trace → Unmerged)
      → ((t : Trace) → Stopped (next t))
      → Stopped (removed K c root hierarchy d ws subs n r next)
  removed-Stopped subs n (err e, t) next h = tt
  removed-Stopped subs n (ok u, t) next h = h t

  unmounted-Stopped :
      (subs : List SavedMount) (n : ℕ) (work : Bytes) (r : Result Fault Unit × Trace)
      (next : Trace → Unmerged)
      → ((t : Trace) → Stopped (next t))
      → Stopped (unmounted K c root hierarchy d ws subs n work r next)
  unmounted-Stopped subs n work (err e, t) next h = tt
  unmounted-Stopped subs n work (ok u, t) next h =
      removed-Stopped subs (suc n) (when (not (null work)) (remove_tree K work) t) next h

  unmount_turn-Stopped :
      (subs : List SavedMount) (n : ℕ) (r : Result Fault (Option (Bytes × List SavedMount)) × Trace)
      (next : List SavedMount → Trace → Unmerged)
      → Ended r
      → ((more : List SavedMount) (t : Trace) → Stopped (next more t))
      → Stopped (unmount_turn K c root hierarchy d ws subs n r next)
  unmount_turn-Stopped subs n (err e, t) next h k = tt
  unmount_turn-Stopped subs n (ok none, t) next h k = h
  unmount_turn-Stopped subs n (ok (some (work, s)), t) next h k =
      unmounted-Stopped (subs ++ s) n work (call K (unmount_lazy d) t) (next (subs ++ s))
        (k (subs ++ s))

  unmerge_rounds-Stopped :
      (rounds : ℕ) (subs : List SavedMount) (n : ℕ) (t : Trace)
      → Stopped (unmerge_rounds K c root hierarchy d ws rounds subs n t)
  unfolding unmerge_rounds
  unmerge_rounds-Stopped zero subs n t = tt
  unmerge_rounds-Stopped (suc rounds) subs n t =
      unmount_turn-Stopped subs n (before_unmount K c root hierarchy d ws t) _
        (before_unmount-Ended t) (λ more u. unmerge_rounds-Stopped rounds more (suc n) u)

  end_of_Stopped : (r : Unmerged) → Stopped r → r.2 ≡ none → is_our_mount_point K c d r.3 ≡ ok false
  end_of_Stopped (subs, n, none, t) h e = h
  end_of_Stopped (subs, n, some f, t) h e = cc

  -- When the loop that unmerges a hierarchy ends without an error, the hierarchy is no mount point of
  -- ours any more, however many overlays were stacked on it.
  pub unmerge_hierarchy-is_our_mount_point :
      (rounds : ℕ) (t : Trace)
      → (unmerge_hierarchy K c root hierarchy d ws rounds t).2 ≡ none
      → is_our_mount_point K c d (unmerge_hierarchy K c root hierarchy d ws rounds t).3 ≡ ok false
  unfolding unmerge_hierarchy
  unmerge_hierarchy-is_our_mount_point rounds t h =
      end_of_Stopped (unmerge_rounds K c root hierarchy d ws rounds [] 0 t)
        (unmerge_rounds-Stopped rounds [] 0 t) h

  module _ (layers : Trace → ℕ)
      (mono : (t : Trace) (e : Event) → undoes e ≡ true → layers (t ++ (e ∷ [])) ≤ layers t)
      (drop : (t : Trace)
        → K.perform t (unmount_lazy d) ≡ none
        → layers (t ++ (unmount_lazy d ∷ [])) < layers t) where
    -- Actions under which the layers do not grow.
    abbrev NoMore : {A : Type 0} → Io A → Type 0
    NoMore m = Keeps (λ t u. layers u ≤ layers t) m

    no_more_start : (t : Trace) → layers t ≤ layers t
    no_more_start t = omega arith

    no_more_join : (s t u : Trace) → layers t ≤ layers s → layers u ≤ layers t → layers u ≤ layers s
    no_more_join s t u h k = omega arith

    take_aside-NoMore : (ours : Bool) → NoMore (take_aside K c root hierarchy d ws ours)
    take_aside-NoMore false = pure-Keeps no_more_start no_more_join none
    take_aside-NoMore true =
        bind-Keeps no_more_start no_more_join (ask-Keeps no_more_start no_more_join _) (λ work.
          bind-Keeps no_more_start no_more_join
            (detach-Keeps no_more_start no_more_join K mono (join_path d (marker_dir_name c)))
            (λ u.
              bind-Keeps no_more_start no_more_join
                (take_submounts-Keeps no_more_start no_more_join K mono c d
                  (below_workspace K ws d))
                (λ subs. pure-Keeps no_more_start no_more_join (some (work, subs)))))

    before_unmount-NoMore : NoMore (before_unmount K c root hierarchy d ws)
    unfolding before_unmount
    before_unmount-NoMore =
        bind-Keeps no_more_start no_more_join (ask-Keeps no_more_start no_more_join _)
          take_aside-NoMore

    remove_work-NoMore : (work : Bytes) → NoMore (when (not (null work)) (remove_tree K work))
    remove_work-NoMore work =
        if-Keeps no_more_start no_more_join (not (null work))
          (remove_tree-Keeps no_more_start no_more_join K mono work)
          (pure-Keeps no_more_start no_more_join tt)

    -- Two ways to go on that agree once there are fewer than `m` layers.
    abbrev Agree : ℕ → (Trace → Unmerged) → (Trace → Unmerged) → Type 0
    Agree m f g = (t : Trace) → layers t < m → f t ≡ g t

    removed-Agree :
        (m n : ℕ) (subs : List SavedMount) (r : Result Fault Unit × Trace) (f g : Trace → Unmerged)
        → layers r.1 < m
        → Agree m f g
        → removed K c root hierarchy d ws subs n r f ≡ removed K c root hierarchy d ws subs n r g
    removed-Agree m n subs (err e, t) f g h k = refl
    removed-Agree m n subs (ok u, t) f g h k = k t h

    unmounted-Agree :
        (m n : ℕ) (subs : List SavedMount) (work : Bytes) (t : Trace) (o : Option Fault)
        (f g : Trace → Unmerged)
        → K.perform t (unmount_lazy d) ≡ o
        → layers t ≤ m
        → Agree m f g
        → unmounted K c root hierarchy d ws subs n work (result_of o, t ++ (unmount_lazy d ∷ [])) f
          ≡ unmounted K c root hierarchy d ws subs n work
              (result_of o, t ++ (unmount_lazy d ∷ []))
              g
    unmounted-Agree m n subs work t (some e) f g p h k = refl
    unmounted-Agree m n subs work t none f g p h k =
        let less = drop t p in
        let kept = (remove_work-NoMore work).run (t ++ (unmount_lazy d ∷ [])) in
        removed-Agree m (suc n) subs
          (when (not (null work)) (remove_tree K work) (t ++ (unmount_lazy d ∷ []))) f g
          (omega arith) k

    unmount_turn-Agree :
        (m n : ℕ) (subs : List SavedMount)
        (r : Result Fault (Option (Bytes × List SavedMount)) × Trace)
        (f g : List SavedMount → Trace → Unmerged)
        → layers r.1 ≤ m
        → ((more : List SavedMount) → Agree m (f more) (g more))
        → unmount_turn K c root hierarchy d ws subs n r f
          ≡ unmount_turn K c root hierarchy d ws subs n r g
    unfolding call
    unmount_turn-Agree m n subs (err e, t) f g h k = refl
    unmount_turn-Agree m n subs (ok none, t) f g h k = refl
    unmount_turn-Agree m n subs (ok (some (work, s)), t) f g h k =
        unmounted-Agree m n (subs ++ s) work t (K.perform t (unmount_lazy d)) (f (subs ++ s))
          (g (subs ++ s)) refl h (k (subs ++ s))

    -- Rounds beyond the number of the layers stacked on the hierarchy change nothing.
    unmerge_rounds-same :
        (a b : ℕ) (subs : List SavedMount) (n : ℕ) (t : Trace)
        → layers t < a
        → layers t < b
        → unmerge_rounds K c root hierarchy d ws a subs n t
          ≡ unmerge_rounds K c root hierarchy d ws b subs n t
    unfolding unmerge_rounds
    unmerge_rounds-same zero b subs n t p q = absurd (omega arith)
    unmerge_rounds-same (suc a) zero subs n t p q = absurd (omega arith)
    unmerge_rounds-same (suc a) (suc b) subs n t p q =
        unmount_turn-Agree (layers t) n subs (before_unmount K c root hierarchy d ws t) _ _
          (before_unmount-NoMore.run t)
          (λ more u h. unmerge_rounds-same a b more (suc n) u (omega arith) (omega arith))

    -- The loop that unmerges a hierarchy needs one turn for each overlay stacked on it and one more: given
    -- a count that no unmounting, cloning or removing raises and that a successful unmount of the
    -- hierarchy lowers, any two bounds above it on the number of turns give the same result.
    pub unmerge_hierarchy-rounds :
        (a b : ℕ) (t : Trace)
        → layers t < a
        → layers t < b
        → unmerge_hierarchy K c root hierarchy d ws a t
          ≡ unmerge_hierarchy K c root hierarchy d ws b t
    unfolding unmerge_hierarchy
    unmerge_hierarchy-rounds a b t p q = unmerge_rounds-same a b [] 0 t p q
