-- ===== src/Overlay/Unmerge/Taken.antt =====
-- internal/overlay/mounts.go, `takeSubmounts`: all clones first, and only then the unmounts.
use sysext_alpine.Base.{
  ℕ, ◌+◌, ◌≡◌, refl, Bool, true, false, List, [], ◌∷◌, ◌++◌, Result, ok, err, Bytes, length,
  length-append, if◌then◌else◌, arith,
}
use sysext_alpine.Release.Class.{Class}
use sysext_alpine.Overlay.Submounts.{SavedMount}
use sysext_alpine.Overlay.Kernel.{
  Fault, is_missing, Event, unmount_lazy, clone_mount, Trace, Kernel, Io, after, result_of, ◌>>=◌,
  ◌>>◌, pure, fail, ignore, for_each, call,
}
use sysext_alpine.Overlay.Unmerge.{Clones, clone_of, cloned, clone_all, saved_paths, take_submounts}

abbrev pub is_unmount : Event → ℕ
is_unmount (unmount_lazy p) = 1
is_unmount e = 0

-- How many lazy unmounts were called.
unfoldable pub count_unmounts : Trace → ℕ
count_unmounts [] = 0
count_unmounts (e ∷ t) = is_unmount e + count_unmounts t

count_unmounts-append :
    (t : Trace) (e : Event) → count_unmounts (t ++ (e ∷ [])) ≡ count_unmounts t + is_unmount e
unfolding count_unmounts
count_unmounts-append [] e = omega arith
count_unmounts-append (x ∷ t) e = let h = count_unmounts-append t e in omega arith

-- After a failure nothing was unmounted, and after a success as many mounts were as are saved.
abbrev pub Balanced : Trace → Result Fault (List SavedMount) × Trace → Type 0
Balanced t (ok saved, u) = count_unmounts u ≡ count_unmounts t + length saved
Balanced t (err e, u) = count_unmounts u ≡ count_unmounts t

module _ (K : Kernel) (c : Class) (d : Bytes) where
  -- The clones are made without an unmount, and each has its original.
  abbrev Paired : Trace → Result Fault (Clones K c) × Trace → Type 0
  Paired t (ok (saved, originals), u) =
      (count_unmounts u ≡ count_unmounts t) × (length saved ≡ length originals)
  Paired t (err e, u) = count_unmounts u ≡ count_unmounts t

  if-Paired :
      (t u : Trace) (b : Bool) (m n : Io (Clones K c))
      → Paired t (m u)
      → Paired t (n u)
      → Paired t ((if b then m else n) u)
  if-Paired t u true m n h k = h
  if-Paired t u false m n h k = k

  cloned-Paired :
      (p : Bytes) (saved : List SavedMount) (originals : List Bytes) (t u : Trace)
      (r : Result Fault Unit)
      → length saved ≡ length originals
      → count_unmounts u ≡ count_unmounts t
      → Paired t (cloned K c d p (saved, originals) r u)
  cloned-Paired p saved originals t u (err e) h k =
      if-Paired t u (is_missing e) (pure (saved, originals)) (fail e) (k, h) k
  cloned-Paired p saved originals t u (ok x) h k = (
    k,
    let one = length-append saved (clone_of K c d p u ∷ []) in
        let two = length-append originals (p ∷ []) in omega arith,
  )

  after-Paired :
      (t : Trace) (r : Result Fault (Clones K c) × Trace) (next : Clones K c → Io (Clones K c))
      → Paired t r
      → ((done : Clones K c) (u : Trace)
          → length done.0 ≡ length done.1
          → count_unmounts u ≡ count_unmounts t
          → Paired t (next done u))
      → Paired t (after r next)
  after-Paired t (ok (saved, originals), u) next (k, h) f = f (saved, originals) u h k
  after-Paired t (err e, u) next h f = h

  clone_all-Paired :
      (ps : List Bytes) (saved : List SavedMount) (originals : List Bytes) (t u : Trace)
      → length saved ≡ length originals
      → count_unmounts u ≡ count_unmounts t
      → Paired t (clone_all K c d ps (saved, originals) u)
  unfolding clone_all call
  clone_all-Paired [] saved originals t u h k = (k, h)
  clone_all-Paired (p ∷ ps) saved originals t u h k =
      after-Paired t
        (cloned K c d p (saved, originals) (result_of (K.perform u (clone_mount p)))
          (u ++ (clone_mount p ∷ [])))
        _
        (cloned-Paired p saved originals t (u ++ (clone_mount p ∷ [])) _ h
          (let more = count_unmounts-append u (clone_mount p) in omega arith))
        (λ done v a b. clone_all-Paired ps done.0 done.1 t v a b)

  abbrev detach_one : Bytes → Io Unit
  detach_one p = ignore (call K (unmount_lazy p))

  detach_each-Balanced :
      (ps : List Bytes) (saved : List SavedMount) (t u : Trace)
      → count_unmounts u + length ps ≡ count_unmounts t + length saved
      → Balanced t (after (for_each ps detach_one u) (λ x. pure saved))
  unfolding for_each call
  detach_each-Balanced [] saved t u h = omega arith
  detach_each-Balanced (p ∷ ps) saved t u h =
      detach_each-Balanced ps saved t (u ++ (unmount_lazy p ∷ []))
        (let more = count_unmounts-append u (unmount_lazy p) in omega arith)

  after_clones-Balanced :
      (t : Trace) (r : Result Fault (Clones K c) × Trace)
      → Paired t r
      → Balanced t (after r (λ clones. for_each clones.1 detach_one >> pure clones.0))
  after_clones-Balanced t (err e, u) h = h
  after_clones-Balanced t (ok (saved, originals), u) (k, h) =
      detach_each-Balanced originals saved t u (omega arith)

  after_paths-Balanced :
      (t : Trace) (r : Result Fault (List Bytes))
      → Balanced t (
          after
            (r, t)
            (λ paths. clone_all K c d paths ([], []) >>= λ clones.
              for_each clones.1 detach_one >> pure clones.0))
  after_paths-Balanced t (err e) = refl
  after_paths-Balanced t (ok paths) =
      after_clones-Balanced t (clone_all K c d paths ([], []) t)
        (clone_all-Paired paths [] [] t t refl refl)

  -- Taking the mounts below a directory aside never fails half-way: when it fails no unmount has been
  -- called, and when it succeeds as many unmounts have been called as clones are returned.
  pub take_submounts-Balanced :
      (skip : Bytes → Bool) (t : Trace) → Balanced t (take_submounts K c d skip t)
  unfolding take_submounts
  take_submounts-Balanced skip t =
      after_paths-Balanced t (saved_paths K c d skip (K.visible t) (K.mount_table t))
