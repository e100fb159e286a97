-- ===== src/Files/Chase/Fuel.antt =====
-- internal/fsutil/chase.go: the loop ends. Between two links every turn takes at least one byte off the
-- text that is left.
use sysext_alpine.Base.{
  ℕ, zero, suc, ◌≤◌, ◌<◌, ◌≡◌, refl, inl, inr, Bool, true, false, not, ◌&&◌, [], ◌∷◌, Option, none,
  some, Result, ok, err, Bytes, codes, same, ◌==◌, length, null, cut, trim_left_byte, trim_byte,
  join_path, dir, Bool-cases, if◌then◌else◌, arith,
}
use mathlib.Core.Option
use sysext_alpine.Files.Chase.{
  Node, link, folder, leaf, ChaseError, enotdir, Step, finished, on_to, over_link, component_of,
  visit, component, step, walk,
}

trim_left_byte-length : (b : ℕ) (s : Bytes) → length (trim_left_byte b s) ≤ length s
unfolding trim_left_byte
trim_left_byte-length b [] = omega arith
trim_left_byte-length b (c ∷ s) = elim (Bool-cases (c == b)) [
  | inl e ↦ rw e (omega (arith, trim_left_byte-length b s))
  | inr e ↦ rw e (omega arith)
]

-- What stands behind the first component is shorter than the text.
abbrev Shorter : ℕ → Option (Bytes × Bytes) → Type 0
Shorter n none = Unit
Shorter n (some (a, b)) = length b < n

cut-Shorter : (b : ℕ) (s : Bytes) → Shorter (length s) (cut b s)
unfolding cut
cut-Shorter b [] = tt
cut-Shorter b (c ∷ s) = elim (Bool-cases (c == b)) [
  | inl e ↦ rw e (omega arith)
  | inr e ↦ rw e (mapped (cut b s) (cut-Shorter b s))
]
  where
    mapped :
        (o : Option (Bytes × Bytes))
        → Shorter (length s) o
        → Shorter (suc (length s)) (Option.map (λ p. (c ∷ p.0, p.1)) o)
    mapped none h = tt
    mapped (some (x, y)) h = omega arith

module _ (lstat : Bytes → Result ChaseError Node) (readlink : Bytes → Result ChaseError Bytes)
    (root : Bytes) (nonexistent : Bool) where
  -- A turn that goes on leaves fewer than `n` bytes.
  abbrev Advances : ℕ → Step → Type 0
  Advances n (finished r) = Unit
  Advances n (on_to d t) = length t < n
  Advances n (over_link f d t) = Unit

  if-Advances :
      (n : ℕ) (b : Bool) (x y : Step)
      → Advances n x
      → Advances n y
      → Advances n (if b then x else y)
  if-Advances n true x y hx hy = hx
  if-Advances n false x y hx hy = hy

  visit-Advances :
      (n : ℕ) (done next rest : Bytes) (r : Result ChaseError Node)
      → length rest < n
      → Advances n (visit lstat readlink root nonexistent done next rest r)
  visit-Advances n done next rest (err e) h = tt
  visit-Advances n done next rest (ok link) h = tt
  visit-Advances n done next rest (ok folder) h = h
  visit-Advances n done next rest (ok leaf) h =
      if-Advances n (not (null rest) && not (null (trim_byte b'/' rest))) (finished (err enotdir))
        (on_to next rest) tt h

  component-Advances :
      (n : ℕ) (done comp rest : Bytes)
      → length rest < n
      → Advances n (component lstat readlink root nonexistent done (comp, rest))
  component-Advances n done comp rest h =
      if-Advances n (same comp (codes ".")) (on_to done rest) _ h (
        if-Advances n (same comp (codes "..")) (on_to (dir done) rest) _ h (
          visit-Advances n done (join_path done comp) rest
            (lstat (join_path root (join_path done comp))) h))

  cut-Advances :
      (done s : Bytes) (o : Option (Bytes × Bytes))
      → 0 < length s
      → Shorter (length s) o
      → Advances (length s) (component lstat readlink root nonexistent done (component_of s o))
  cut-Advances done s none h k = component-Advances (length s) done s [] h
  cut-Advances done s (some (a, b)) h k = component-Advances (length s) done a b k

  step-Advances :
      (done s : Bytes) → Advances (length s) (step lstat readlink root nonexistent done s)
  step-Advances done [] = tt
  step-Advances done (c ∷ s) =
      cut-Advances done (c ∷ s) (cut b'/' (c ∷ s)) (omega arith) (cut-Shorter b'/' (c ∷ s))

  walk_cong :
      (x : Step) (n : ℕ) (f : Bytes → Bytes → Bytes → Result ChaseError Bytes)
      (g h : Bytes → Bytes → Result ChaseError Bytes)
      → Advances n x
      → ((d t : Bytes) → length t < n → g d t ≡ h d t)
      → ◌≡◌ {A = Result ChaseError Bytes}
          (elim x [ finished r ↦ r | on_to d t ↦ g d t | over_link p d t ↦ f p d t ])
          (elim x [ finished r ↦ r | on_to d t ↦ h d t | over_link p d t ↦ f p d t ])
  walk_cong (finished r) n f g h a e = refl
  walk_cong (on_to d t) n f g h a e = e d t a
  walk_cong (over_link p d t) n f g h a e = refl

  -- With more turns than the text has bytes, the loop has the same outcome whatever their number, and
  -- whatever stands for turns that are used up: they never are.
  pub walk-length :
      (x y : Result ChaseError Bytes) (follow : Bytes → Bytes → Bytes → Result ChaseError Bytes)
      (fuel more : ℕ) (done todo : Bytes)
      → length todo < fuel
      → length todo < more
      → walk lstat readlink root nonexistent x follow fuel done todo
        ≡ walk lstat readlink root nonexistent y follow more done todo
  unfolding walk
  walk-length x y follow zero more done todo h k = absurd (omega arith)
  walk-length x y follow (suc fuel) zero done todo h k = absurd (omega arith)
  walk-length x y follow (suc fuel) (suc more) done todo h k =
      let trimmed = trim_left_byte-length b'/' todo in
      walk_cong (step lstat readlink root nonexistent done (trim_left_byte b'/' todo))
        (length (trim_left_byte b'/' todo)) follow _ _
        (step-Advances done (trim_left_byte b'/' todo))
        (λ d t a. walk-length x y follow fuel more d t (omega arith) (omega arith))
