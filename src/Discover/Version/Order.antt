-- ===== src/Discover/Version/Order.antt =====
-- internal/discover/version.go: the loop ends and computes the order of the version keys.
use sysext_alpine.Base.{
  some_eq, ℕ, zero, suc, ◌+◌, ◌≤◌, ◌<◌, ◌≡◌, refl, sym, ap, ◌∙◌, inl, inr, Bool, true, false, ◌||◌,
  [], ◌∷◌, some, Bytes, Sign, less, equal, greater, then_sign, flip, compare_bytes, ◌==◌, length,
  if◌then◌else◌, Bool-cases, arith,
}
use sysext_alpine.Discover.Version.{
  is_digit, is_alpha, is_version_char, at, until_nul, skip_separators, after_run, go_on,
  compare_from, compare_versions,
}
use sysext_alpine.Discover.Version.Key.{
  after_mark, after_segment, ended, round_key, after_round, keys_from, version_key, compare_keys,
}
use sysext_alpine.Discover.Version.Lex.{
  compare_bytes-equal, compare_keys-flip, compare_keys-equal, compare_keys_trans,
}
use sysext_alpine.Discover.Version.Round.{decide_by, round_end, round-keys}

length-after_run : (p : ℕ → Bool) (s : Bytes) → length (after_run p s) ≤ length s
unfolding after_run
length-after_run p [] = omega arith
length-after_run p (c ∷ s) = ground (arith, length-after_run p s)

after_run_shorter :
    (p : ℕ → Bool) (c : ℕ) (s : Bytes) → p c ≡ true → length (after_run p (c ∷ s)) < length (c ∷ s)
unfolding after_run
after_run_shorter p c s h = rw h (omega (arith, length-after_run p s))

length-after_mark : (c : ℕ) (s : Bytes) → length (after_mark c s) ≤ length s
length-after_mark c [] = ground arith
length-after_mark c (d ∷ s) = ground arith

length-after_segment : (s : Bytes) → length (after_segment s) ≤ length s
unfolding after_segment
length-after_segment s = ground (arith, length-after_run is_digit s, length-after_run is_alpha s)

length-skip_separators : (s : Bytes) → length (skip_separators s) ≤ length s
unfolding skip_separators
length-skip_separators [] = omega arith
length-skip_separators (c ∷ s) = ground (arith, length-skip_separators s)

skipped :
    (s : Bytes) → (is_version_char (at (skip_separators s)) || (at (skip_separators s) == 0)) ≡ true
unfolding skip_separators
skipped [] = refl
skipped (c ∷ s) = elim (Bool-cases (is_version_char c)) [
  | inl v ↦ rw (v, v)
  | inr v ↦ rw v (skipped s)
]

segment_shorter :
    (c : ℕ) (s : Bytes)
    → (is_digit c || is_alpha c) ≡ true
    → length (after_segment (c ∷ s)) < length (c ∷ s)
unfolding after_segment
segment_shorter c s h = elim (Bool-cases (is_digit c)) [
  | inl d ↦ rw d (after_run_shorter is_digit c s d)
  | inr d ↦ rw d (after_run_shorter is_alpha c s (rw d at h))
]

abbrev from_dot : Bytes → Bytes
from_dot s = after_segment (after_mark b'.' s)

abbrev from_caret : Bytes → Bytes
from_caret s = from_dot (after_mark b'^' s)

abbrev from_dash : Bytes → Bytes
from_dash s = from_caret (after_mark b'-' s)

length-from_dot : (s : Bytes) → length (from_dot s) ≤ length s
length-from_dot s =
    omega (arith, length-after_segment (after_mark b'.' s), length-after_mark b'.' s)

length-from_caret : (s : Bytes) → length (from_caret s) ≤ length s
length-from_caret s = omega (arith, length-from_dot (after_mark b'^' s), length-after_mark b'^' s)

length-from_dash : (s : Bytes) → length (from_dash s) ≤ length s
length-from_dash s = omega (arith, length-from_caret (after_mark b'-' s), length-after_mark b'-' s)

dot_shorter :
    (c : ℕ) (s : Bytes)
    → (is_digit c || (is_alpha c || c == b'.')) ≡ true
    → length (from_dot (c ∷ s)) < length (c ∷ s)
dot_shorter c s h = elim (Bool-cases (c == b'.')) [
  | inl p ↦ rw p (omega (arith, length-after_segment s))
  | inr p ↦ rw p (segment_shorter c s (ground arith))
]

caret_shorter :
    (c : ℕ) (s : Bytes)
    → (is_digit c || (is_alpha c || (c == b'^' || c == b'.'))) ≡ true
    → length (from_caret (c ∷ s)) < length (c ∷ s)
caret_shorter c s h = elim (Bool-cases (c == b'^')) [
  | inl p ↦ rw p (omega (arith, length-from_dot s))
  | inr p ↦ rw p (dot_shorter c s (ground arith))
]

dash_shorter :
    (c : ℕ) (s : Bytes)
    → (is_digit c || (is_alpha c || (c == b'-' || (c == b'^' || c == b'.')))) ≡ true
    → length (from_dash (c ∷ s)) < length (c ∷ s)
dash_shorter c s h = elim (Bool-cases (c == b'-')) [
  | inl p ↦ rw p (omega (arith, length-from_caret s))
  | inr p ↦ rw p (caret_shorter c s (ground arith))
]

tilde_shorter :
    (s : Bytes)
    → (is_version_char (at s) || (at s == 0)) ≡ true
    → (at (after_mark b'~' s) == 0) ≡ false
    → length (from_dash (after_mark b'~' s)) < length s
tilde_shorter [] v h = cc
tilde_shorter (c ∷ s) v h = elim (Bool-cases (c == b'~')) [
  | inl p ↦ rw p (omega (arith, length-from_dash s))
  | inr p ↦ rw p (dash_shorter c s (ground arith))
]

-- A round that does not end the string consumes a byte of it.
round_shorter : (s : Bytes) → ended s ≡ false → length (after_round s) < length s
unfolding after_round
round_shorter s h =
    omega (arith, tilde_shorter (skip_separators s) (skipped s) h, length-skip_separators s)

second_zero : Bytes → Bool
second_zero (x ∷ y ∷ s) = y == 0
second_zero s = false

second_zero-round_key : (s : Bytes) → second_zero (round_key s) ≡ ended s
unfolding second_zero round_key
second_zero-round_key s = elim (Bool-cases (ended s)) [ inl e ↦ rw e | inr e ↦ rw e ]

-- Equal keys of a round end both strings or neither.
ended-eq : (a b : Bytes) → round_key a ≡ round_key b → ended a ≡ ended b
ended-eq a b h = cc (second_zero-round_key a, second_zero-round_key b, ap second_zero h)

-- The loop compares the keys of the two strings, given more fuel than they have bytes.
compare_from-keys :
    (fuel m n : ℕ) (a b : Bytes)
    → length a + length b < fuel
    → length a < m
    → length b < n
    → compare_from fuel (a, b) ≡ some (compare_keys (keys_from m a) (keys_from n b))
unfolding compare_from compare_keys keys_from
compare_from-keys zero m n a b h k l = absurd (omega arith)
compare_from-keys (suc fuel) zero n a b h k l = absurd (omega arith)
compare_from-keys (suc fuel) (suc m) zero a b h k l = absurd (omega arith)
compare_from-keys (suc fuel) (suc m) (suc n) a b h k l =
    ap (go_on (compare_from fuel)) (round-keys a b)
    ∙ split (compare_bytes (round_key a) (round_key b)) refl (λ p q.
      compare_from-keys fuel m n (after_round a) (after_round b)
        (omega (arith, round_shorter a p, round_shorter b q)) (omega (arith, round_shorter a p))
        (omega (arith, round_shorter b q)))
  where
    split :
        (s : Sign)
        → compare_bytes (round_key a) (round_key b) ≡ s
        → (ended a ≡ false
            → ended b ≡ false
            → compare_from fuel (after_round a, after_round b)
              ≡ some (compare_keys (keys_from m (after_round a)) (keys_from n (after_round b))))
        → go_on (compare_from fuel) (decide_by s (round_end a b))
          ≡ some (
              then_sign s (
                compare_keys
                  (if ended a then [] else keys_from m (after_round a))
                  (if ended b then [] else keys_from n (after_round b))))
    split less e ih = refl
    split greater e ih = refl
    split equal e ih =
        let both = ended-eq a b (compare_bytes-equal (round_key a) (round_key b) e) in
        elim (Bool-cases (ended a)) [
          | inl p ↦ rw (p, sym both ∙ p)
          | inr p ↦ rw (p, sym both ∙ p) (ih p (sym both ∙ p))
        ]

-- `CompareVersions` ends on every two strings, and compares them by the keys that each string has
-- by itself.
pub compare_versions-keys :
    (a b : Bytes) → compare_versions a b ≡ some (compare_keys (version_key a) (version_key b))
unfolding compare_versions version_key
compare_versions-keys a b =
    compare_from-keys (suc (length (until_nul a) + length (until_nul b)))
      (suc (length (until_nul a))) (suc (length (until_nul b))) (until_nul a) (until_nul b)
      (omega arith) (omega arith) (omega arith)

compare_versions-flip :
    (a b : Bytes) (s : Sign) → compare_versions a b ≡ some s → compare_versions b a ≡ some (flip s)
compare_versions-flip a b s h =
    compare_versions-keys b a
    ∙ ap some (
        compare_keys-flip (version_key a) (version_key b)
        ∙ ap flip (some_eq (sym (compare_versions-keys a b) ∙ h)))

compare_versions_trans :
    (a b c : Bytes)
    → compare_versions a b ≡ some less
    → compare_versions b c ≡ some less
    → compare_versions a c ≡ some less
compare_versions_trans a b c h k =
    compare_versions-keys a c
    ∙ ap some (
        compare_keys_trans (version_key a) (version_key b) (version_key c)
          (some_eq (sym (compare_versions-keys a b) ∙ h))
          (some_eq (sym (compare_versions-keys b c) ∙ k)))

compare_versions_cong :
    (a b c : Bytes)
    → compare_versions a b ≡ some equal
    → compare_versions a c ≡ compare_versions b c
compare_versions_cong a b c h =
    compare_versions-keys a c
    ∙ ap (λ k. some (compare_keys k (version_key c)))
        (compare_keys-equal (version_key a) (version_key b)
          (some_eq (sym (compare_versions-keys a b) ∙ h)))
    ∙ sym (compare_versions-keys b c)

-- Every two versions compare, and the other way round gives the opposite sign; a version older than
-- one that is older than a third is older than the third; two versions that compare equal compare
-- alike with every version.
pub compare_versions_order :
    (a b c : Bytes)
    → (s : Sign) × (compare_versions a b ≡ some s)
      × (compare_versions b a ≡ some (flip s))
      × (s ≡ less → compare_versions b c ≡ some less → compare_versions a c ≡ some less)
      × (s ≡ equal → compare_versions a c ≡ compare_versions b c)
compare_versions_order a b c =
    let s = compare_keys (version_key a) (version_key b) in
    let e = compare_versions-keys a b in
    (
      s,
      e,
      compare_versions-flip a b s e,
      λ h. compare_versions_trans a b c (e ∙ ap some h),
      λ h. compare_versions_cong a b c (e ∙ ap some h),
    )
