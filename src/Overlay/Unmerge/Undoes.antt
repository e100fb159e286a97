-- ===== src/Overlay/Unmerge/Undoes.antt =====
-- internal/overlay/mounts.go: what taking mounts aside does to a preorder of traces that unmounting,
-- cloning and removing keep.
use sysext_alpine.Base.{◌≡◌, refl, Bool, true, false, List, [], ◌∷◌, ◌++◌, Result, ok, err, Bytes}
use sysext_alpine.Release.Class.{Class}
use sysext_alpine.Overlay.Submounts.{has_mounts_below}
use sysext_alpine.Overlay.Kernel.{
  Fault, is_missing, Event, unmount_lazy, clone_mount, remove_all, Trace, Kernel, Io, Do, after,
  result_of, call, ask, when,
}
use sysext_alpine.Overlay.Kernel
use sysext_alpine.Overlay.Kernel.Keeps.{
  Keeps, pure-Keeps, fail-Keeps, ask-Keeps, bind-Keeps, attempt-Keeps, ignore-Keeps, if-Keeps,
  for_each-Keeps,
}
use sysext_alpine.Overlay.Workspace.{detach, remove_tree, settled, not_mounted}
use sysext_alpine.Overlay.Unmerge.{clone_all, cloned, Clones, take_submounts}

-- The events of a turn: they take something away, or make a clone that nothing sees.
abbrev pub undoes : Event → Bool
undoes (unmount_lazy p) = true
undoes (clone_mount p) = true
undoes (remove_all p) = true
undoes e = false

module _ {R : Trace → Trace → Type 0} (start : (t : Trace) → R t t)
    (join : (s t u : Trace) → R s t → R t u → R s u) (K : Kernel)
    (step : (t : Trace) (e : Event) → undoes e ≡ true → R t (t ++ (e ∷ []))) where
  call-Keeps : (e : Event) → undoes e ≡ true → Keeps R (call K e)
  unfolding call
  call-Keeps e h = record { run = λ t. step t e h }

  pub detach-Keeps : (p : Bytes) → Keeps R (detach K p)
  unfolding detach
  detach-Keeps p =
      bind-Keeps start join (attempt-Keeps start join (call-Keeps (unmount_lazy p) refl))
        (λ r. ask-Keeps start join (λ t. settled not_mounted r))

  pub remove_tree-Keeps : (p : Bytes) → Keeps R (remove_tree K p)
  unfolding remove_tree
  remove_tree-Keeps p = bind-Keeps start join (ask-Keeps start join K.mount_table) (λ mounts.
      if-Keeps start join (has_mounts_below mounts p) (fail-Keeps start join Kernel.mount_busy)
        (call-Keeps (remove_all p) refl))

  module _ (c : Class) where
    cloned-Keeps :
        (d p : Bytes) (done : Clones K c) (r : Result Fault Unit) → Keeps R (cloned K c d p done r)
    cloned-Keeps d p (saved, originals) (err e) =
        if-Keeps start join (is_missing e) (pure-Keeps start join (saved, originals))
          (fail-Keeps start join e)
    cloned-Keeps d p (saved, originals) (ok u) = ask-Keeps start join _

    clone_all-Keeps :
        (d : Bytes) (ps : List Bytes) (done : Clones K c) → Keeps R (clone_all K c d ps done)
    unfolding clone_all
    clone_all-Keeps d [] done = pure-Keeps start join done
    clone_all-Keeps d (p ∷ ps) done =
        bind-Keeps start join
          (bind-Keeps start join (attempt-Keeps start join (call-Keeps (clone_mount p) refl))
            (cloned-Keeps d p done))
          (clone_all-Keeps d ps)

    pub take_submounts-Keeps :
        (d : Bytes) (skip : Bytes → Bool) → Keeps R (take_submounts K c d skip)
    unfolding take_submounts
    take_submounts-Keeps d skip = bind-Keeps start join (ask-Keeps start join _) (λ paths.
        bind-Keeps start join (clone_all-Keeps d paths ([], [])) (λ clones.
          bind-Keeps start join
            (for_each-Keeps start join clones.1 _
              (λ p. ignore-Keeps start join (call-Keeps (unmount_lazy p) refl)))
            (λ u. pure-Keeps start join clones.0)))
