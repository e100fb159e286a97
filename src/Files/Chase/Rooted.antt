-- ===== src/Files/Chase/Rooted.antt =====
-- Paths from the root of the file system, lexically clean: what filepath.Clean, Join and Dir make of
-- absolute paths.
use sysext_alpine.Base.{
  ◌≡◌, refl, ap, inl, inr, true, false, ◌||◌, List, [], ◌∷◌, ◌++◌, Option, none, some, Bytes, codes,
  same, ◌==◌, null, All, split, join, has_byte, cut_last, is_abs, clean, clean_from, push_parent,
  cons_head, reversed, join_path, both_parts, dir, dir_of, Bool-cases, arith,
}

-- A component of a clean path.
abbrev pub IsComponent : Bytes → Type 0
IsComponent w =
    (null w ≡ false)
    × (same w (codes ".") ≡ false)
    × (same w (codes "..") ≡ false)
    × (has_byte b'/' w ≡ false)

-- A slash, and components joined by slashes.
abbrev pub IsRooted : Bytes → Type 0
IsRooted p = (ws : List Bytes) × All IsComponent ws × (p ≡ b'/' ∷ join b'/' ws)

abbrev NoSlash : Bytes → Type 0
NoSlash w = has_byte b'/' w ≡ false

split-NoSlash : (s : Bytes) → All NoSlash (split b'/' s)
unfolding split has_byte
split-NoSlash [] = (refl, tt)
split-NoSlash (c ∷ s) = elim (Bool-cases (c == b'/')) [
  | inl e ↦ rw e (refl, split-NoSlash s)
  | inr e ↦ rw e (head_NoSlash (split b'/' s) (split-NoSlash s) e)
]
  where
    head_NoSlash :
        (ws : List Bytes) → All NoSlash ws → (c == b'/') ≡ false → All NoSlash (cons_head c ws)
    head_NoSlash [] h e = (ground arith, tt)
    head_NoSlash (w ∷ ws) (a, b) e = (ground arith, b)

push_parent-All :
    (kept : List Bytes) → All IsComponent kept → All IsComponent (push_parent true kept)
push_parent-All [] h = tt
push_parent-All (k ∷ ks) ((a, b, d, e), h) = rw d h

clean_from-All :
    (ws kept : List Bytes)
    → All NoSlash ws
    → All IsComponent kept
    → All IsComponent (clean_from true kept ws)
unfolding clean_from
clean_from-All [] kept h k = k
clean_from-All (w ∷ ws) kept (a, h) k = elim (Bool-cases (null w || same w (codes "."))) [
  | inl e ↦ rw e (clean_from-All ws kept h k)
  | inr e ↦ elim (Bool-cases (same w (codes ".."))) [
    | inl d ↦ rw (e, d) (clean_from-All ws (push_parent true kept) h (push_parent-All kept k))
    | inr d ↦ rw (e, d) (clean_from-All ws (w ∷ kept) h ((ground arith, ground arith, d, a), k))
  ]
]

reversed-All :
    (ws done : List Bytes)
    → All IsComponent ws
    → All IsComponent done
    → All IsComponent (reversed done ws)
unfolding reversed
reversed-All [] done h k = k
reversed-All (w ∷ ws) done (a, h) k = reversed-All ws (w ∷ done) h (a, k)

pub clean-IsRooted : (p : Bytes) → is_abs p ≡ true → IsRooted (clean p)
unfolding clean
clean-IsRooted p h = rw h (
  _,
  reversed-All (clean_from true [] (split b'/' p)) []
      (clean_from-All (split b'/' p) [] (split-NoSlash p) tt) tt,
  refl,
)

pub is_abs-IsRooted : (p : Bytes) → IsRooted p → is_abs p ≡ true
unfolding is_abs
is_abs-IsRooted p (ws, h, e) = rw e refl

is_abs-cons : (p : Bytes) → is_abs p ≡ true → (s : Bytes) × (p ≡ b'/' ∷ s)
unfolding is_abs
is_abs-cons [] h = cc
is_abs-cons (c ∷ s) h = let e : c ≡ b'/' = ground arith in (s, ap (λ d. d ∷ s) e)

is_abs-append : (s t : Bytes) → is_abs s ≡ true → is_abs (s ++ t) ≡ true
unfolding is_abs
is_abs-append [] t h = cc
is_abs-append (c ∷ s) t h = h

both_parts-is_abs : (p q : Bytes) → is_abs p ≡ true → is_abs (both_parts p q) ≡ true
unfolding is_abs
both_parts-is_abs [] q h = cc
both_parts-is_abs (c ∷ p) [] h = h
both_parts-is_abs (c ∷ p) (d ∷ q) h = h

is_abs-null : (s : Bytes) → is_abs s ≡ true → null s ≡ false
unfolding is_abs
is_abs-null [] h = cc
is_abs-null (c ∷ s) h = refl

-- Whatever is joined to an absolute path, the result is clean and absolute.
pub join_path-IsRooted : (p q : Bytes) → is_abs p ≡ true → IsRooted (join_path p q)
unfolding join_path
join_path-IsRooted p q h =
    let a = both_parts-is_abs p q h in
    rw (is_abs-null (both_parts p q) a) (clean-IsRooted (both_parts p q) a)

dir_of-IsRooted :
    (s : Bytes) (r : Option (Bytes × Bytes))
    → IsRooted (
        dir_of (elim r as (λ x. Option (Bytes × Bytes)) [
          | some p ↦ some (b'/' ∷ p.0, p.1)
          | none ↦ some ([], s)
        ]))
dir_of-IsRooted s none = clean-IsRooted (codes "/") (unfold is_abs in refl)
dir_of-IsRooted s (some (a, b)) = clean-IsRooted (b'/' ∷ (a ++ codes "/")) (unfold is_abs in refl)

-- The parent of an absolute path is clean and absolute; that of the root is the root.
pub dir-IsRooted : (p : Bytes) → is_abs p ≡ true → IsRooted (dir p)
unfolding dir cut_last
dir-IsRooted p h = let (s, e) = is_abs-cons p h in rw e (dir_of-IsRooted s (cut_last b'/' s))
