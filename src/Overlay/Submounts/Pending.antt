-- ===== src/Overlay/Submounts/Pending.antt =====
-- internal/overlay/mounts.go, `attachSubmounts`: what stays pending, and the errors.
use sysext_alpine.Base.{
  ℕ, ◌+◌, ◌≡◌, refl, ap₂, Bool, true, false, List, [], ◌∷◌, Option, none, some, Bytes, length,
  length-append, join_path, if◌then◌else◌, arith,
}
use sysext_alpine.Overlay.Submounts.{
  SavedMount, Found, MountError, make_mount_point, attach_one, attach_at, attached,
  attach_submounts, close_saved, Attached,
}

-- How many clones are not attached yet.
pub count_pending : List SavedMount → ℕ
count_pending [] = 0
count_pending (s ∷ ss) = (if s.pending then 1 else 0) + count_pending ss

abbrev pub names_of : List SavedMount → List Bytes
names_of [] = []
names_of (s ∷ ss) = s.rel ∷ names_of ss

module _ {W : Type 0} (lstat : W → Bytes → Found)
    (create : Bytes → Bool → W → Option MountError × W)
    (move_mount : SavedMount → Bytes → W → Option MountError × W) where
  abbrev OneError : SavedMount → Attached lstat create move_mount → Type 0
  OneError s r = (length r.1 ≡ (if r.0.pending then 1 else 0)) × (r.0.rel ≡ s.rel)

  attached-OneError :
      (s : SavedMount) (o : Option MountError × W)
      → s.pending ≡ true
      → OneError s (attached lstat create move_mount s o)
  attached-OneError s (none, w) h = (refl, refl)
  attached-OneError s (some e, w) h = (rw h refl, refl)

  attach_at-OneError :
      (dst : Bytes) (s : SavedMount) (o : Option MountError × W)
      → s.pending ≡ true
      → OneError s (attach_at lstat create move_mount dst s o)
  attach_at-OneError dst s (some e, w) h = (rw h refl, refl)
  attach_at-OneError dst s (none, w) h =
      attached-OneError s (move_mount s (join_path dst s.rel) w) h

  if-OneError :
      (dst : Bytes) (s : SavedMount) (w : W) (b : Bool)
      → s.pending ≡ b
      → OneError s (
          if b
          then attach_at lstat create move_mount dst s
              (make_mount_point lstat create move_mount dst s w)
          else (s, [], w))
  if-OneError dst s w true e =
      attach_at-OneError dst s (make_mount_point lstat create move_mount dst s w) e
  if-OneError dst s w false e = (rw e refl, refl)

  attach_one-OneError :
      (dst : Bytes) (s : SavedMount) (w : W)
      → OneError s (attach_one lstat create move_mount dst s w)
  unfolding attach_one
  attach_one-OneError dst s w = if-OneError dst s w s.pending refl

  -- Attaching clones keeps their number, their order and their places; each clone that stays pending
  -- has one error, so that there is no error exactly when none is left pending. Closing the clones
  -- leaves none pending.
  pub attach_submounts-count_pending :
      (dst : Bytes) (saved : List SavedMount) (w : W)
      → (length (attach_submounts lstat create move_mount dst saved w).1
          ≡ count_pending (attach_submounts lstat create move_mount dst saved w).0)
        × (names_of (attach_submounts lstat create move_mount dst saved w).0 ≡ names_of saved)
        × (count_pending (close_saved (attach_submounts lstat create move_mount dst saved w).0) ≡ 0)
  unfolding attach_submounts count_pending close_saved
  attach_submounts-count_pending dst [] w = (refl, refl, refl)
  attach_submounts-count_pending dst (s ∷ ss) w =
      let one = attach_one-OneError dst s w in
      let w' = (attach_one lstat create move_mount dst s w).2 in
      let (a, b, c) = attach_submounts-count_pending dst ss w' in
      (
        omega (
          arith,
          length-append (attach_one lstat create move_mount dst s w).1
              (attach_submounts lstat create move_mount dst ss w').1,
        ),
        ap₂ (λ x y. x ∷ y) one.1 b,
        omega (arith, c),
      )
