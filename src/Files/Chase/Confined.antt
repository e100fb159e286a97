-- ===== src/Files/Chase/Confined.antt =====
-- internal/fsutil/chase.go: what is resolved stays inside the root, whatever links there are.
use sysext_alpine.Base.{
  ℕ, zero, suc, ◌≡◌, refl, sym, ap, ◌∙◌, Bool, true, false, not, ◌&&◌, List, [], ◌∷◌, ◌++◌, Result,
  ok, err, ◌>>=◌, ok_eq, Bytes, codes, same, length, null, All, join, cut, trim_left_byte,
  trim_byte, is_abs, clean, join_path, dir, if◌then◌else◌,
}
use sysext_alpine.Files.Chase.{
  Node, link, folder, leaf, ChaseError, eloop, enotdir, is_missing, Step, finished, on_to,
  over_link, component_of, visit, component, step, walk, behind, follow_links, chase_in,
  max_symlink_hops,
}
use sysext_alpine.Files.Chase.Rooted.{
  IsComponent, IsRooted, is_abs-IsRooted, join_path-IsRooted, dir-IsRooted,
}
use sysext_alpine.Files.Chase.Below.{join_path-below}

the_root : IsRooted (codes "/")
unfolding join
the_root = ([], tt, refl)

module _ (lstat : Bytes → Result ChaseError Node) (readlink : Bytes → Result ChaseError Bytes)
    (root : Bytes) (nonexistent : Bool) where
  -- A result that is the root's join with a clean absolute path.
  abbrev Inside : Result ChaseError Bytes → Type 0
  Inside (err e) = Unit
  Inside (ok p) = (d : Bytes) × IsRooted d × (p ≡ join_path root d)

  abbrev StepInside : Step → Type 0
  StepInside (finished r) = Inside r
  StepInside (on_to d t) = IsRooted d
  StepInside (over_link p d t) = IsRooted d

  if-StepInside :
      (b : Bool) (x y : Step) → StepInside x → StepInside y → StepInside (if b then x else y)
  if-StepInside true x y hx hy = hx
  if-StepInside false x y hx hy = hy

  on_missing-Inside :
      (next rest : Bytes) (e : ChaseError) (b : Bool)
      → IsRooted next
      → Inside (if b then ok (join_path root (join_path next (clean (b'/' ∷ rest)))) else err e)
  on_missing-Inside next rest e false h = tt
  on_missing-Inside next rest e true h = (
    join_path next (clean (b'/' ∷ rest)),
    join_path-IsRooted next (clean (b'/' ∷ rest)) (is_abs-IsRooted next h),
    refl,
  )

  visit-StepInside :
      (done next rest : Bytes) (r : Result ChaseError Node)
      → IsRooted done
      → IsRooted next
      → StepInside (visit lstat readlink root nonexistent done next rest r)
  visit-StepInside done next rest (err e) h k =
      on_missing-Inside next rest e (is_missing e && nonexistent) k
  visit-StepInside done next rest (ok link) h k = h
  visit-StepInside done next rest (ok folder) h k = k
  visit-StepInside done next rest (ok leaf) h k =
      if-StepInside (not (null rest) && not (null (trim_byte b'/' rest))) (finished (err enotdir))
        (on_to next rest) tt k

  component-StepInside :
      (done : Bytes) (c : Bytes × Bytes)
      → IsRooted done
      → StepInside (component lstat readlink root nonexistent done c)
  component-StepInside done (comp, rest) h =
      let absolute = is_abs-IsRooted done h in
      if-StepInside (same comp (codes ".")) (on_to done rest) _ h (
        if-StepInside (same comp (codes "..")) (on_to (dir done) rest) _
          (dir-IsRooted done absolute)
          (visit-StepInside done (join_path done comp) rest
            (lstat (join_path root (join_path done comp))) h
            (join_path-IsRooted done comp absolute)))

  step-StepInside :
      (done todo : Bytes)
      → IsRooted done
      → StepInside (step lstat readlink root nonexistent done todo)
  step-StepInside done [] h = (done, h, refl)
  step-StepInside done (c ∷ s) h =
      component-StepInside done (component_of (c ∷ s) (cut b'/' (c ∷ s))) h

  step_result :
      (x : Step) (f : Bytes → Bytes → Bytes → Result ChaseError Bytes)
      (g : Bytes → Bytes → Result ChaseError Bytes)
      → StepInside x
      → ((p d t : Bytes) → IsRooted d → Inside (f p d t))
      → ((d t : Bytes) → IsRooted d → Inside (g d t))
      → Inside (elim x as (λ y. Result ChaseError Bytes) [
        | finished r ↦ r
        | on_to d t ↦ g d t
        | over_link p d t ↦ f p d t
      ])
  step_result (finished r) f g h hf hg = h
  step_result (on_to d t) f g h hf hg = hg d t h
  step_result (over_link p d t) f g h hf hg = hf p d t h

  walk-Inside :
      (f : Bytes → Bytes → Bytes → Result ChaseError Bytes)
      → ((p d t : Bytes) → IsRooted d → Inside (f p d t))
      → (fuel : ℕ) (done todo : Bytes) → IsRooted done
      → Inside (walk lstat readlink root nonexistent (err eloop) f fuel done todo)
  unfolding walk
  walk-Inside f hf zero done todo h = tt
  walk-Inside f hf (suc fuel) done todo h =
      step_result (step lstat readlink root nonexistent done (trim_left_byte b'/' todo)) f _
        (step-StepInside done (trim_left_byte b'/' todo) h) hf (walk-Inside f hf fuel)

  target_done : (b : Bool) (d : Bytes) → IsRooted d → IsRooted (if b then codes "/" else d)
  target_done true d h = the_root
  target_done false d h = h

  behind-Inside :
      (next : Bytes → Bytes → Result ChaseError Bytes) (d rest : Bytes)
      (r : Result ChaseError Bytes)
      → ((e t : Bytes) → IsRooted e → Inside (next e t))
      → IsRooted d
      → Inside (r >>= behind lstat readlink root nonexistent next d rest)
  behind-Inside next d rest (err e) h k = tt
  behind-Inside next d rest (ok target) h k =
      h (if is_abs target then codes "/" else d) (target ++ (b'/' ∷ rest))
        (target_done (is_abs target) d k)

  follow_links-Inside :
      (hops : ℕ) (done todo : Bytes)
      → IsRooted done
      → Inside (follow_links lstat readlink root nonexistent hops done todo)
  unfolding follow_links
  follow_links-Inside zero done todo h =
      walk-Inside _ (λ p d t k. tt) (suc (length todo)) done todo h
  follow_links-Inside (suc hops) done todo h =
      walk-Inside _
        (λ p d t k.
          behind-Inside (follow_links lstat readlink root nonexistent hops) d t (readlink p)
            (follow_links-Inside hops) k)
        (suc (length todo)) done todo h

  Inside-ok :
      (r : Result ChaseError Bytes) {p : Bytes}
      → Inside r
      → r ≡ ok p
      → (d : Bytes) × IsRooted d × (p ≡ join_path root d)
  Inside-ok (err e) h q = cc
  Inside-ok (ok x) (d, k, e) q = (d, k, sym (ok_eq q) ∙ e)

-- Whatever the links point to and however many ".." the path has, a path that is resolved inside a clean
-- absolute root has the root's components in front, and behind them components that are neither empty nor
-- "." nor ".." and hold no slash.
pub chase_in-IsComponent :
    (lstat : Bytes → Result ChaseError Node) (readlink : Bytes → Result ChaseError Bytes)
    (nonexistent : Bool) (path : Bytes) {p : Bytes} (rs : List Bytes)
    → All IsComponent rs
    → chase_in lstat readlink (b'/' ∷ join b'/' rs) nonexistent path ≡ ok p
    → (cs : List Bytes) × All IsComponent cs × (p ≡ b'/' ∷ join b'/' (rs ++ cs))
unfolding chase_in
chase_in-IsComponent lstat readlink nonexistent path rs h e =
    let root = b'/' ∷ join b'/' rs in
    let (d, (cs, k, q), r) =
      Inside-ok lstat readlink root nonexistent _
        (follow_links-Inside lstat readlink root nonexistent max_symlink_hops (codes "/") path
          the_root)
        e in
    (cs, k, r ∙ ap (join_path root) q ∙ join_path-below rs cs h k)
