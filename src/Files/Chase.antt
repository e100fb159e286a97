-- ===== src/Files/Chase.antt =====
-- internal/fsutil/chase.go: a path resolved inside a root. os.Lstat and os.Readlink are parameters,
-- and so is filepath.Abs, which a root that is not absolute goes through.
pub mod Rooted
pub mod Below
pub mod Confined
pub mod Fuel
use sysext_alpine.Base.{
  ℕ, zero, suc, Bool, true, false, not, ◌&&◌, [], ◌∷◌, ◌++◌, Option, none, some, Result, ok, err,
  ◌>>=◌, Bytes, codes, same, ◌==◌, length, null, cut, trim_left_byte, trim_byte, is_abs, clean,
  join_path, dir, if◌then◌else◌,
}

-- What os.Lstat finds.
pub data Node : Type 0 where
  link folder leaf : Node

-- ENOENT, ELOOP, ENOTDIR, and any other.
pub data ChaseError : Type 0 where
  enoent eloop enotdir : ChaseError
  other : ℕ → ChaseError

unfoldable pub is_missing : ChaseError → Bool
is_missing enoent = true
is_missing e = false

abbrev pub max_symlink_hops : ℕ
max_symlink_hops = 40

abbrev pub component_of : Bytes → Option (Bytes × Bytes) → Bytes × Bytes
component_of todo none = (todo, [])
component_of todo (some p) = p

-- A turn of the loop returns, goes on with the path done so far and the text left, or comes to a
-- link, whose full path is read.
pub data Step : Type 0 where
  finished : Result ChaseError Bytes → Step
  on_to : Bytes → Bytes → Step
  over_link : Bytes → Bytes → Bytes → Step

-- `root` is clean and absolute; `nonexistent` is the flag ChaseNonexistent.
module _ (lstat : Bytes → Result ChaseError Node) (readlink : Bytes → Result ChaseError Bytes)
    (root : Bytes) (nonexistent : Bool) where
  -- A component that does not exist: the components behind it are taken as they are written.
  abbrev pub on_missing : Bytes → Bytes → ChaseError → Result ChaseError Bytes
  on_missing next rest e =
      if is_missing e && nonexistent
      then ok (join_path root (join_path next (clean (b'/' ∷ rest))))
      else err e

  abbrev pub visit : Bytes → Bytes → Bytes → Result ChaseError Node → Step
  visit done next rest (err e) = finished (on_missing next rest e)
  visit done next rest (ok link) = over_link (join_path root next) done rest
  visit done next rest (ok folder) = on_to next rest
  visit done next rest (ok leaf) =
      if not (null rest) && not (null (trim_byte b'/' rest))
      then finished (err enotdir)
      else on_to next rest

  -- One component, and the text behind it.
  abbrev pub component : Bytes → Bytes × Bytes → Step
  component done (comp, rest) =
      if same comp (codes ".")
      then on_to done rest
      else if same comp (codes "..")
      then on_to (dir done) rest
      else visit done (join_path done comp) rest (lstat (join_path root (join_path done comp)))

  -- One turn of the loop; `todo` has no slash in front.
  abbrev pub step : Bytes → Bytes → Step
  step done [] = finished (ok (join_path root done))
  step done (c ∷ s) = component done (component_of (c ∷ s) (cut b'/' (c ∷ s)))

  -- The loop between two links. Every turn takes at least one byte off `todo`, so that one turn more
  -- than its length is enough; `exhausted` is the result when there are fewer.
  unfoldable pub walk :
      (exhausted : Result ChaseError Bytes)
      → (follow : Bytes → Bytes → Bytes → Result ChaseError Bytes) → ℕ
      → Bytes
      → Bytes
      → Result ChaseError Bytes
  walk exhausted follow zero done todo = exhausted
  walk exhausted follow (suc fuel) done todo = elim (step done (trim_left_byte b'/' todo)) [
    | finished r ↦ r
    | on_to d t ↦ walk exhausted follow fuel d t
    | over_link full d t ↦ follow full d t
  ]

  -- Behind a link to `target`.
  abbrev pub behind :
      (Bytes → Bytes → Result ChaseError Bytes) → Bytes → Bytes → Bytes → Result ChaseError Bytes
  behind next done rest target =
      next (if is_abs target then codes "/" else done) (target ++ (b'/' ∷ rest))

  -- The links that may still be followed.
  unfoldable pub follow_links : ℕ → Bytes → Bytes → Result ChaseError Bytes
  follow_links zero done todo =
      walk (err eloop) (λ full d rest. err eloop) (suc (length todo)) done todo
  follow_links (suc hops) done todo =
      walk (err eloop) (λ full d rest. readlink full >>= behind (follow_links hops) d rest)
        (suc (length todo)) done todo

  unfoldable pub chase_in : Bytes → Result ChaseError Bytes
  chase_in path = follow_links max_symlink_hops (codes "/") path

abbrev pub clean_root : Bytes → Bytes
clean_root root = clean (if null root then codes "/" else root)

-- `Chase`
unfoldable pub chase :
    (lstat : Bytes → Result ChaseError Node) (readlink abs : Bytes → Result ChaseError Bytes)
    → Bytes
    → Bytes
    → Bool
    → Result ChaseError Bytes
chase lstat readlink abs root path nonexistent =
    if is_abs (clean_root root)
    then chase_in lstat readlink (clean_root root) nonexistent path
    else abs (clean_root root) >>= λ a. chase_in lstat readlink a nonexistent path
