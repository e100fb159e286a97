-- ===== src/Overlay/Workspace/Attached.antt =====
-- internal/overlay/mounts.go, `attachSubmounts`: every saved mount is moved to its place, unless the place
-- cannot be made.
use sysext_alpine.Base.{
  ◌≡◌, refl, ◌⊎◌, inl, inr, Bool, true, false, not, ◌||◌, List, [], ◌∷◌, ◌++◌, Option, none, some,
  Bytes, null, split, join_path, All, if◌then◌else◌,
}
use sysext_alpine.Overlay.Submounts.{
  SavedMount, Found, missing, symlink, entry, MountError, eexist, make_component, unless_exists,
  then_make, make_parts, make_mount_point, Attached, attached, attach_at, attach_one,
  attach_submounts,
}
use sysext_alpine.Overlay.Kernel.{move_clone, Trace, Kernel}
use sysext_alpine.Overlay.Kernel.Extends.{
  Extends, Called, Extends-start, Extends-join, Extends-call, Called-widen,
}
use sysext_alpine.Overlay.Workspace.{found_at, create_point, move_saved, attach_saved}

module _ (K : Kernel) where
  -- The mount point of `s` below `dst` could not be made at some point between the two traces.
  abbrev pub HasNoPlace : Trace → Trace → Bytes → SavedMount → Type 0
  HasNoPlace t u dst s =
      (v : Trace) × (e : MountError) × Extends t v
      × Extends v u
      × ((make_mount_point (found_at K) (create_point K) (move_saved K) dst s v).0 ≡ some e)

  -- What becomes of a saved mount between the two traces.
  abbrev pub IsPutBack : Trace → Trace → Bytes → SavedMount → Type 0
  IsPutBack t u dst s =
      (s.pending ≡ false)
      ⊎ (Called t u (move_clone s.rel (join_path dst s.rel)) ⊎ HasNoPlace t u dst s)

  pub IsPutBack-widen :
      (r t u v : Trace) (dst : Bytes) (s : SavedMount)
      → Extends r t
      → IsPutBack t u dst s
      → Extends u v
      → IsPutBack r v dst s
  IsPutBack-widen r t u v dst s h (inl p) k = inl p
  IsPutBack-widen r t u v dst s h (inr (inl p)) k = inr (inl (Called-widen r t u v _ h p k))
  IsPutBack-widen r t u v dst s h (inr (inr (w, e, a, b, p))) k =
      inr (inr (w, e, Extends-join r t w h a, Extends-join w u v b k, p))

  abbrev Made : Type 0
  Made = Option MountError × Trace

  unless_exists-Extends :
      (t : Trace) (r : Made)
      → Extends t r.1
      → Extends t (unless_exists (found_at K) (create_point K) (move_saved K) r).1
  unless_exists-Extends t (some eexist, u) h = h
  unless_exists-Extends t r h = h

  make_component-Extends :
      (t : Trace) (cur : Bytes) (is_dir : Bool) (f : Found)
      → Extends t (make_component (found_at K) (create_point K) (move_saved K) cur is_dir f t).1
  make_component-Extends t cur is_dir missing =
      unless_exists-Extends t (create_point K cur is_dir t) (Extends-call t _)
  make_component-Extends t cur is_dir symlink = Extends-start t
  make_component-Extends t cur is_dir entry = Extends-start t

  then_make-Extends :
      (t : Trace) (r : Made) (next : Trace → Made)
      → Extends t r.1
      → ((u : Trace) → Extends u (next u).1)
      → Extends t (then_make (found_at K) (create_point K) (move_saved K) r next).1
  then_make-Extends t (some e, u) next h k = h
  then_make-Extends t (none, u) next h k = Extends-join t u (next u).1 h (k u)

  make_parts-Extends :
      (cur : Bytes) (parts : List Bytes) (is_dir : Bool) (t : Trace)
      → Extends t (make_parts (found_at K) (create_point K) (move_saved K) cur parts is_dir t).1
  unfolding make_parts
  make_parts-Extends cur [] is_dir t = Extends-start t
  make_parts-Extends cur (part ∷ parts) is_dir t =
      then_make-Extends t _ _
        (make_component-Extends t (join_path cur part) (not (null parts) || is_dir)
          (found_at K t (join_path cur part)))
        (make_parts-Extends (join_path cur part) parts is_dir)

  abbrev One : Type 0
  One = Attached (found_at K) (create_point K) (move_saved K)

  abbrev IsDone : Trace → Bytes → SavedMount → One → Type 0
  IsDone t dst s r = Extends t r.2 × IsPutBack t r.2 dst s

  attached-IsDone :
      (t u : Trace) (dst : Bytes) (s : SavedMount) (o : Option MountError)
      → Extends t u
      → IsDone t dst s (
          attached
            (found_at K)
            (create_point K)
            (move_saved K)
            s
            (o, u ++ (move_clone s.rel (join_path dst s.rel) ∷ [])))
  attached-IsDone t u dst s none h = (
    Extends-join t u _ h (Extends-call u _),
    inr (inl (u, h, Extends-start (u ++ (move_clone s.rel (join_path dst s.rel) ∷ [])))),
  )
  attached-IsDone t u dst s (some e) h = (
    Extends-join t u _ h (Extends-call u _),
    inr (inl (u, h, Extends-start (u ++ (move_clone s.rel (join_path dst s.rel) ∷ [])))),
  )

  attach_at-IsDone :
      (t : Trace) (dst : Bytes) (s : SavedMount) (r : Made)
      → make_mount_point (found_at K) (create_point K) (move_saved K) dst s t ≡ r
      → Extends t r.1
      → IsDone t dst s (attach_at (found_at K) (create_point K) (move_saved K) dst s r)
  attach_at-IsDone t dst s (some e, u) h k = (k, inr (inr (t, e, Extends-start t, k, rw h refl)))
  attach_at-IsDone t dst s (none, u) h k = attached-IsDone t u dst s _ k

  pending-IsDone :
      (t : Trace) (dst : Bytes) (s : SavedMount) (b : Bool)
      → s.pending ≡ b
      → IsDone t dst s (
          if b
          then attach_at
              (found_at K)
              (create_point K)
              (move_saved K)
              dst
              s
              (make_mount_point (found_at K) (create_point K) (move_saved K) dst s t)
          else (s, [], t))
  unfolding make_mount_point
  pending-IsDone t dst s true h =
      attach_at-IsDone t dst s _ refl (make_parts-Extends dst (split b'/' s.rel) s.dir_mode t)
  pending-IsDone t dst s false h = (Extends-start t, inl h)

  attach_one-IsDone :
      (t : Trace) (dst : Bytes) (s : SavedMount)
      → IsDone t dst s (attach_one (found_at K) (create_point K) (move_saved K) dst s t)
  unfolding attach_one
  attach_one-IsDone t dst s = pending-IsDone t dst s s.pending refl

  later :
      (t u v : Trace) (dst : Bytes) (ss : List SavedMount)
      → Extends t u
      → All (IsPutBack u v dst) ss
      → All (IsPutBack t v dst) ss
  later t u v dst [] h k = tt
  later t u v dst (s ∷ ss) h (k, l) =
      (IsPutBack-widen t u v v dst s h k (Extends-start v), later t u v dst ss h l)

  attach_submounts-IsPutBack :
      (dst : Bytes) (saved : List SavedMount) (t : Trace)
      → Extends t (attach_submounts (found_at K) (create_point K) (move_saved K) dst saved t).2
        × All
            (IsPutBack t
              (attach_submounts (found_at K) (create_point K) (move_saved K) dst saved t).2
              dst)
            saved
  unfolding attach_submounts
  attach_submounts-IsPutBack dst [] t = (Extends-start t, tt)
  attach_submounts-IsPutBack dst (s ∷ ss) t =
      let one = attach_one-IsDone t dst s in
      let u = (attach_one (found_at K) (create_point K) (move_saved K) dst s t).2 in
      let v = (attach_submounts (found_at K) (create_point K) (move_saved K) dst ss u).2 in
      let rest = attach_submounts-IsPutBack dst ss u in
      (
        Extends-join t u v one.0 rest.0,
        (
          IsPutBack-widen t t u v dst s (Extends-start t) one.1 rest.0,
          later t u v dst ss one.0 rest.1,
        ),
      )

  pub attach_saved-IsPutBack :
      (dst : Bytes) (saved : List SavedMount) (t : Trace)
      → Extends t (attach_saved K dst saved t).2
        × All (IsPutBack t (attach_saved K dst saved t).2 dst) saved
  unfolding attach_saved
  attach_saved-IsPutBack dst saved t = attach_submounts-IsPutBack dst saved t
