-- ===== src/Overlay/Workspace/Confined.antt =====
-- internal/overlay/mounts.go and engine.go: tearing a workspace down and setting it up calls nothing
-- outside of it.
use sysext_alpine.Base.{
  ℕ, zero, suc, ◌≡◌, refl, ap, ◌∙◌, Bool, true, false, not, ◌&&◌, List, [], ◌∷◌, ◌++◌, Result, ok,
  err, Bytes, contains, All, All-append, append_assoc, Bool-cases, inl, inr, if◌then◌else◌,
}
use sysext_alpine.Files.Chase.Rooted.{IsRooted}
use sysext_alpine.Files.Chase
use sysext_alpine.Files.Mounts.{MountInfo, is_below}
use sysext_alpine.Files.Mounts.Inside.{is_below_trans}
use sysext_alpine.Release.Class.{Class}
use sysext_alpine.Overlay.Submounts.{
  detach_targets, select_top, top_of, is_nested, has_mounts_below,
}
use sysext_alpine.Overlay.Kernel.{
  Fault, mount_tmpfs, mount_overlay, remount, mount_bind, mount_move, make_private, set_read_only,
  unmount_lazy, unmount_now, make_dirs, make_dir, make_temp, remove_all, remove, chmod,
  mount_disk_image, unmount_disk_image, Event, Trace, Kernel, Io, call, result_of, ◌>>◌,
}
use sysext_alpine.Overlay.Markers.{class_identifier}
use sysext_alpine.Overlay.Kernel.Stays.{
  Any, Ends, Stays, pure-Stays, fail-Stays, ask-Stays, bind-Stays, then-Stays, attempt-Stays,
  ignore-Stays, if-Stays, for_each-Stays,
}
use sysext_alpine.Overlay.Workspace.{
  settled, not_mounted, detach, detach_rest, detach_rounds, detach_all, remove_tree,
  mount_workspace, make_private_or_detach, teardown_workspace, unless_gone,
}
use sysext_alpine.Overlay.Workspace.Places.{self-Inside}

module _ (ws : Bytes) where
  -- The call mounts, unmounts and removes only inside the workspace; it may create directories and set
  -- their permissions anywhere.
  abbrev pub Spares : Event → Type 0
  Spares (mount_tmpfs c p) = is_below p ws ≡ true
  Spares (mount_overlay c p f o) = is_below p ws ≡ true
  Spares (remount p f) = is_below p ws ≡ true
  Spares (mount_bind src p) = is_below p ws ≡ true
  Spares (mount_move src p) = (is_below src ws ≡ true) × (is_below p ws ≡ true)
  Spares (make_private p) = is_below p ws ≡ true
  Spares (set_read_only p) = is_below p ws ≡ true
  Spares (unmount_lazy p) = is_below p ws ≡ true
  Spares (unmount_now p) = is_below p ws ≡ true
  Spares (make_dirs p) = Unit
  Spares (make_dir p) = Unit
  Spares (make_temp p) = Unit
  Spares (chmod p m) = Unit
  Spares (remove_all p) = is_below p ws ≡ true
  Spares (remove p) = is_below p ws ≡ true
  Spares (mount_disk_image img p) = is_below p ws ≡ true
  Spares (unmount_disk_image img p) = is_below p ws ≡ true
  Spares e = ⊥

  -- The calls since the trace `start` spare what is outside the workspace.
  abbrev pub Confined : Trace → Trace → Type 0
  Confined start t = (es : Trace) × (t ≡ start ++ es) × All Spares es

module _ (K : Kernel) (ws : Bytes) (start : Trace) where
  called_once :
      (r : Result Fault Unit) (t : Trace) (e : Event)
      → Spares ws e
      → Confined ws start t
      → Ends (Confined ws start) Any (r, t ++ (e ∷ []))
  called_once (ok u) t e s (es, p, a) = (
    tt,
    (
      es ++ (e ∷ []),
      ap (λ x. x ++ (e ∷ [])) p ∙ append_assoc start es (e ∷ []),
      All-append (Spares ws) es (e ∷ []) a (s, tt),
    ),
  )
  called_once (err f) t e s (es, p, a) = (
    es ++ (e ∷ []),
    ap (λ x. x ++ (e ∷ [])) p ∙ append_assoc start es (e ∷ []),
    All-append (Spares ws) es (e ∷ []) a (s, tt),
  )

  pub call-Stays : (e : Event) → Spares ws e → Stays (Confined ws start) Any (call K e)
  unfolding call
  call-Stays e s = record { run = λ t c. called_once (result_of (K.perform t e)) t e s c }

  pub detach-Stays : (p : Bytes) → is_below p ws ≡ true → Stays (Confined ws start) Any (detach K p)
  unfolding detach
  detach-Stays p b =
      bind-Stays (attempt-Stays (call-Stays (unmount_lazy p) b))
        (λ r u. ask-Stays (λ t. settled not_mounted r))

  abbrev AreBelow : Bytes → List Bytes → Type 0
  AreBelow d ps = All (λ p. is_below p d ≡ true) ps

  detach_targets-AreBelow :
      (mounts : List MountInfo) (d : Bytes) (ps : List Bytes)
      → AreBelow d ps
      → AreBelow d (detach_targets mounts d ps)
  unfolding detach_targets
  detach_targets-AreBelow [] d ps h = h
  detach_targets-AreBelow (m ∷ ms) d ps h =
      detach_targets-AreBelow ms d _
        (added (is_below m.mount_point d) refl (contains ps m.mount_point))
    where
      added :
          (b : Bool)
          → is_below m.mount_point d ≡ b
          → (c : Bool) → AreBelow d (if b && not c then ps ++ (m.mount_point ∷ []) else ps)
      added true e true = h
      added true e false = All-append (λ p. is_below p d ≡ true) ps (m.mount_point ∷ []) h (e, tt)
      added false e c = h

  top_of-AreBelow : (d : Bytes) (all ps : List Bytes) → AreBelow d ps → AreBelow d (top_of all ps)
  unfolding top_of
  top_of-AreBelow d all [] h = tt
  top_of-AreBelow d all (p ∷ ps) (a, h) = elim (Bool-cases (is_nested all p)) [
    | inl e ↦ rw e (top_of-AreBelow d all ps h)
    | inr e ↦ rw e (a, top_of-AreBelow d all ps h)
  ]

  module _ (d : Bytes) (inside : is_below d ws ≡ true) where
    detach_rest-Stays :
        (ps : List Bytes) (again : Io Unit)
        → AreBelow d ps
        → Stays (Confined ws start) Any again
        → Stays (Confined ws start) Any (detach_rest K ps again)
    unfolding select_top
    detach_rest-Stays [] again h s = pure-Stays tt tt
    detach_rest-Stays (p ∷ ps) again h s =
        then-Stays
          (for_each-Stays (top_of (p ∷ ps) (p ∷ ps)) (detach K)
            (top_of-AreBelow d (p ∷ ps) (p ∷ ps) h)
            (λ q b. detach-Stays q (is_below_trans q d ws b inside)))
          s

    detach_rounds-Stays : (n : ℕ) → Stays (Confined ws start) Any (detach_rounds K n d)
    unfolding detach_rounds
    detach_rounds-Stays zero = fail-Stays _
    detach_rounds-Stays (suc n) = bind-Stays (ask-Stays K.mount_table) (λ mounts u.
        detach_rest-Stays (detach_targets mounts d []) (detach_rounds K n d)
          (detach_targets-AreBelow mounts d [] tt) (detach_rounds-Stays n))

    pub detach_all-Stays : Stays (Confined ws start) Any (detach_all K d)
    unfolding detach_all
    detach_all-Stays = detach_rounds-Stays 64

    pub remove_tree-Stays : Stays (Confined ws start) Any (remove_tree K d)
    unfolding remove_tree
    remove_tree-Stays = bind-Stays (ask-Stays K.mount_table) (λ mounts u.
        if-Stays (has_mounts_below mounts d) (fail-Stays _) (call-Stays (remove_all d) inside))

  module _ (rooted : IsRooted ws) where
    pub mount_workspace-Stays : (c : Class) → Stays (Confined ws start) Any (mount_workspace K c ws)
    unfolding mount_workspace
    mount_workspace-Stays c =
        let inside = (self-Inside ws rooted).1 in
        then-Stays (call-Stays (make_dirs ws) tt) (
          then-Stays (call-Stays (mount_tmpfs (class_identifier c) ws) inside) (
            bind-Stays (attempt-Stays (call-Stays (make_private ws) inside))
              (λ r u. private_or_detach r)))
      where
        private_or_detach :
            (r : Result Fault Unit) → Stays (Confined ws start) Any (make_private_or_detach K ws r)
        private_or_detach (ok u) = pure-Stays tt tt
        private_or_detach (err e) =
            then-Stays (ignore-Stays (detach-Stays ws (self-Inside ws rooted).1)) (fail-Stays e)

    unless_gone-Stays :
        (r : Result Chase.ChaseError Chase.Node) (m : Io Unit)
        → Stays (Confined ws start) Any m
        → Stays (Confined ws start) Any (unless_gone K r m)
    unless_gone-Stays (ok n) m s = s
    unless_gone-Stays (err Chase.enoent) m s = pure-Stays tt tt
    unless_gone-Stays (err Chase.eloop) m s = s
    unless_gone-Stays (err Chase.enotdir) m s = s
    unless_gone-Stays (err (Chase.other n)) m s = s

    pub teardown_workspace-Stays : Stays (Confined ws start) Any (teardown_workspace K ws)
    unfolding teardown_workspace
    teardown_workspace-Stays = record {
      run = λ t c.
          (unless_gone-Stays (K.lstat t ws) (detach_all K ws >> remove_tree K ws) (
              then-Stays (detach_all-Stays ws (self-Inside ws rooted).1)
                (remove_tree-Stays ws (self-Inside ws rooted).1))).run
            t c;
    }
