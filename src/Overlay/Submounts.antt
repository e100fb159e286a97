-- ===== src/Overlay/Submounts.antt =====
-- internal/overlay/mounts.go: the mounts below a hierarchy, which are carried along when it is merged
-- or unmerged. Lstat, mkdir and mknod, move_mount(2) and statx(2) are parameters. A file descriptor
-- is only open or closed.
pub mod Top
pub mod Pending
use sysext_alpine.Base.{
  ℕ, Bool, true, false, not, ◌&&◌, ◌||◌, List, [], ◌∷◌, ◌++◌, Option, none, some, Bytes, codes,
  same, Sign, less, equal, greater, then_sign, compare_bytes, null, any, contains, split, trim_byte,
  join_path, if◌then◌else◌,
}
use sysext_alpine.Files.Mounts.{MountInfo, mounts_below, is_below}

-- slices.Compare on lists of components
unfoldable pub compare_lists : List Bytes → List Bytes → Sign
compare_lists [] [] = equal
compare_lists [] (w ∷ ws) = less
compare_lists (v ∷ vs) [] = greater
compare_lists (v ∷ vs) (w ∷ ws) = then_sign (compare_bytes v w) (compare_lists vs ws)

unfoldable pub compare_paths : Bytes → Bytes → Sign
compare_paths a b = compare_lists (split b'/' (trim_byte b'/' a)) (split b'/' (trim_byte b'/' b))

-- The loop over the mounts, with the paths chosen so far.
module _ (skip : Bytes → Bool) (visible : MountInfo → Bool) where
  unfoldable pub choose_paths : List MountInfo → List Bytes → List Bytes
  choose_paths [] paths = paths
  choose_paths (m ∷ ms) paths = choose_paths ms (
      if skip m.mount_point || (contains paths m.mount_point || not (visible m))
      then paths
      else paths ++ (m.mount_point ∷ []))

-- `selectTop`: the paths that are below no other one of `all`.
unfoldable pub is_nested : List Bytes → Bytes → Bool
is_nested all p = any (λ q. not (same q p) && is_below p q) all

unfoldable pub top_of : List Bytes → List Bytes → List Bytes
top_of all [] = []
top_of all (p ∷ ps) = let rest = top_of all ps in if is_nested all p then rest else p ∷ rest

unfoldable pub select_top : List Bytes → List Bytes
select_top paths = top_of paths paths

-- slices.SortFunc; paths that compare equal are equal up to slashes.
unfoldable pub insert_path : Bytes → List Bytes → List Bytes
insert_path p [] = p ∷ []
insert_path p (q ∷ qs) =
    let rest = insert_path p qs in
    elim (compare_paths q p) [ less ↦ q ∷ rest | equal ↦ p ∷ q ∷ qs | greater ↦ p ∷ q ∷ qs ]

unfoldable pub sort_paths : List Bytes → List Bytes
sort_paths [] = []
sort_paths (p ∷ ps) = insert_path p (sort_paths ps)

unfoldable pub select_submounts :
    List MountInfo → Bytes → (Bytes → Bool) → (MountInfo → Bool) → List Bytes
select_submounts mounts dir skip visible =
    sort_paths (select_top (choose_paths skip visible (mounts_below mounts dir) []))

-- `savedMount`; `pending` is `fd >= 0`.
pub record SavedMount : Type 0 where
  pub rel : Bytes
  pub pending : Bool
  pub dir_mode : Bool

-- What Lstat finds at a component of a mount point.
pub data Found : Type 0 where
  missing symlink entry : Found

-- ELOOP, EEXIST and any other.
pub data MountError : Type 0 where
  eloop eexist other : MountError

-- The state of the file system, which calls change.
module _ {W : Type 0} (lstat : W → Bytes → Found)
    (create : Bytes → Bool → W → Option MountError × W)
    (move_mount : SavedMount → Bytes → W → Option MountError × W) where
  abbrev pub unless_exists : Option MountError × W → Option MountError × W
  unless_exists (some eexist, w) = (none, w)
  unless_exists r = r

  -- One component: `is_dir` is what is created when it is missing.
  abbrev pub make_component : Bytes → Bool → Found → W → Option MountError × W
  make_component cur is_dir missing w = unless_exists (create cur is_dir w)
  make_component cur is_dir symlink w = (some eloop, w)
  make_component cur is_dir entry w = (none, w)

  abbrev pub then_make : Option MountError × W → (W → Option MountError × W) → Option MountError × W
  then_make (some e, w) next = (some e, w)
  then_make (none, w) next = next w

  unfoldable pub make_parts : Bytes → List Bytes → Bool → W → Option MountError × W
  make_parts cur [] is_dir w = (none, w)
  make_parts cur (part ∷ parts) is_dir w =
      then_make
        (make_component (join_path cur part) (not (null parts) || is_dir)
          (lstat w (join_path cur part)) w)
        (make_parts (join_path cur part) parts is_dir)

  unfoldable pub make_mount_point : Bytes → SavedMount → W → Option MountError × W
  make_mount_point dst s w = make_parts dst (split b'/' s.rel) s.dir_mode w

  abbrev pub Attached : Type 0
  Attached = SavedMount × List MountError × W

  abbrev pub attached : SavedMount → Option MountError × W → Attached
  attached s (none, w) = (record s { pending = false }, [], w)
  attached s (some e, w) = (s, e ∷ [], w)

  abbrev pub attach_at : Bytes → SavedMount → Option MountError × W → Attached
  attach_at dst s (some e, w) = (s, e ∷ [], w)
  attach_at dst s (none, w) = attached s (move_mount s (join_path dst s.rel) w)

  -- One clone: the clone afterwards, and its error.
  unfoldable pub attach_one : Bytes → SavedMount → W → Attached
  attach_one dst s w = if s.pending then attach_at dst s (make_mount_point dst s w) else (s, [], w)

  abbrev pub gather :
      Attached → (W → List SavedMount × List MountError × W) → List SavedMount × List MountError × W
  gather (t, e, w) next = let r = next w in (t ∷ r.0, e ++ r.1, r.2)

  unfoldable pub attach_submounts :
      Bytes → List SavedMount → W → List SavedMount × List MountError × W
  attach_submounts dst [] w = ([], [], w)
  attach_submounts dst (s ∷ ss) w = gather (attach_one dst s w) (attach_submounts dst ss)

unfoldable pub close_saved : List SavedMount → List SavedMount
close_saved [] = []
close_saved (s ∷ ss) = record s { pending = false } ∷ close_saved ss

unfoldable pub has_mounts_below : List MountInfo → Bytes → Bool
has_mounts_below [] dir = false
has_mounts_below (m ∷ ms) dir = is_below m.mount_point dir || has_mounts_below ms dir

-- The targets of a round of `detachAll`.
unfoldable pub detach_targets : List MountInfo → Bytes → List Bytes → List Bytes
detach_targets [] dir targets = targets
detach_targets (m ∷ ms) dir targets = detach_targets ms dir (
    if is_below m.mount_point dir && not (contains targets m.mount_point)
    then targets ++ (m.mount_point ∷ [])
    else targets)
