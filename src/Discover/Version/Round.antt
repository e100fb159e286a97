-- ===== src/Discover/Version/Round.antt =====
-- internal/discover/version.go: a round of the loop compares the keys of the round.
use sysext_alpine.Base.{
  ℕ, zero, suc, min, ◌≡◌, refl, sym, ap, ◌∙◌, inl, inr, true, false, not, [], ◌∷◌, Result, ok, err,
  ◌>>=◌, Bytes, Sign, less, equal, greater, cmp, then_sign, compare_bytes, ◌==◌, length, null, take,
  if◌then◌else◌, Bool-cases, arith,
}
use sysext_alpine.Discover.Version.{
  is_digit, is_alpha, at, cmp_bool, return_unless_equal, Pair, run_of, after_run, strip_zeros,
  skip_separators, check_mark, check_end, check_number, check_word, check_segment, round,
}
use sysext_alpine.Discover.Version.Key.{
  mark_key, after_mark, segment_key, after_segment, after_tilde, ended, after_dash, after_caret,
  after_dot, round_key, after_round,
}

-- Return a difference, or go on.
abbrev pub decide_by : {A : Type 0} → Sign → Result Sign A → Result Sign A
decide_by less r = err less
decide_by equal r = r
decide_by greater r = err greater

check_mark-keys :
    (c : ℕ) (a b : Bytes) (k : Pair → Result Sign Pair)
    → (check_mark c (a, b) >>= k)
      ≡ decide_by (cmp (mark_key c a) (mark_key c b)) (k (after_mark c a, after_mark c b))
unfolding check_mark
check_mark-keys c a b k = elim (Bool-cases (at a == c)) [
  | inl p ↦ elim (Bool-cases (at b == c)) [ inl q ↦ rw (p, q) | inr q ↦ rw (p, q) ]
  | inr p ↦ elim (Bool-cases (at b == c)) [ inl q ↦ rw (p, q) | inr q ↦ rw (p, q) ]
]

cmp-suc : (a b : ℕ) → cmp (suc a) (suc b) ≡ cmp a b
cmp-suc a b = ground arith

then_sign_assoc : (s t u : Sign) → then_sign (then_sign s t) u ≡ then_sign s (then_sign t u)
then_sign_assoc less t u = refl
then_sign_assoc equal t u = refl
then_sign_assoc greater t u = refl

take-min :
    (n : ℕ) (v w : Bytes)
    → n ≡ min (length v) (length w)
    → then_sign (compare_bytes (take n v) (take n w)) (cmp (length v) (length w))
      ≡ compare_bytes v w
unfolding compare_bytes
take-min zero [] [] h = refl
take-min zero [] (d ∷ w) h = ground arith
take-min zero (c ∷ v) [] h = ground arith
take-min zero (c ∷ v) (d ∷ w) h = absurd (omega arith)
take-min (suc n) [] w h = absurd (omega arith)
take-min (suc n) (c ∷ v) [] h = absurd (omega arith)
take-min (suc n) (c ∷ v) (d ∷ w) h =
    ap (then_sign (then_sign (cmp c d) (compare_bytes (take n v) (take n w))))
      (cmp-suc (length v) (length w))
    ∙ then_sign_assoc (cmp c d) (compare_bytes (take n v) (take n w)) (cmp (length v) (length w))
    ∙ ap (then_sign (cmp c d)) (take-min n v w (omega arith))

decide_by-then_sign :
    {A : Type 0} (s t : Sign) (r : Result Sign A)
    → decide_by (then_sign s t) r ≡ decide_by s (decide_by t r)
decide_by-then_sign less t r = refl
decide_by-then_sign equal t r = refl
decide_by-then_sign greater t r = refl

returns :
    {A : Type 0} (s : Sign) (r : Result Sign A) → (return_unless_equal s >>= λ _. r) ≡ decide_by s r
unfolding return_unless_equal
returns less r = refl
returns equal r = refl
returns greater r = refl

check_word-keys :
    (a b : Bytes)
    → check_word (a, b)
      ≡ decide_by
          (compare_bytes (run_of is_alpha a) (run_of is_alpha b))
          (ok (after_run is_alpha a, after_run is_alpha b))
unfolding check_word
check_word-keys a b =
    let v = run_of is_alpha a in
    let w = run_of is_alpha b in
    let n = min (length v) (length w) in
    let done : Result Sign Pair = ok (after_run is_alpha a, after_run is_alpha b) in
    ap (λ t. return_unless_equal (compare_bytes (take n v) (take n w)) >>= λ _. t)
      (returns (cmp (length v) (length w)) done)
    ∙ returns (compare_bytes (take n v) (take n w)) (decide_by (cmp (length v) (length w)) done)
    ∙ sym
        (decide_by-then_sign (compare_bytes (take n v) (take n w)) (cmp (length v) (length w)) done)
    ∙ ap (λ s. decide_by s done) (take-min n v w refl)

returns_thrice :
    {A : Type 0} (s t u : Sign) (r : Result Sign A)
    → (return_unless_equal s >>= λ _.
        return_unless_equal t >>= λ _. return_unless_equal u >>= λ _. r)
      ≡ decide_by s (decide_by t (decide_by u r))
unfolding return_unless_equal
returns_thrice less t u r = refl
returns_thrice greater t u r = refl
returns_thrice equal less u r = refl
returns_thrice equal greater u r = refl
returns_thrice equal equal u r = returns u r

run_found : (s : Bytes) → not (null (run_of is_digit s)) ≡ is_digit (at s)
unfolding run_of
run_found [] = refl
run_found (c ∷ s) = elim (Bool-cases (is_digit c)) [ inl d ↦ rw d | inr d ↦ rw d ]

check_number-keys :
    (a b : Bytes)
    → check_number (a, b)
      ≡ decide_by (cmp_bool (is_digit (at a)) (is_digit (at b))) (
          decide_by
            (cmp
              (length (strip_zeros (run_of is_digit a)))
              (length (strip_zeros (run_of is_digit b))))
            (decide_by
              (compare_bytes (strip_zeros (run_of is_digit a)) (strip_zeros (run_of is_digit b)))
              (ok (after_run is_digit a, after_run is_digit b))))
unfolding check_number
check_number-keys a b =
    rw (run_found a, run_found b)
      (returns_thrice (cmp_bool (is_digit (at a)) (is_digit (at b)))
        (cmp (length (strip_zeros (run_of is_digit a))) (length (strip_zeros (run_of is_digit b))))
        (compare_bytes (strip_zeros (run_of is_digit a)) (strip_zeros (run_of is_digit b)))
        (ok (after_run is_digit a, after_run is_digit b)))

number_order :
    (a b : Bytes)
    → decide_by {A = Pair}
        (then_sign
          (cmp
            (length (strip_zeros (run_of is_digit a)))
            (length (strip_zeros (run_of is_digit b))))
          (compare_bytes (strip_zeros (run_of is_digit a)) (strip_zeros (run_of is_digit b))))
        (ok (after_run is_digit a, after_run is_digit b))
      ≡ decide_by {A = Pair}
          (cmp
            (length (strip_zeros (run_of is_digit a)))
            (length (strip_zeros (run_of is_digit b))))
          (decide_by {A = Pair}
            (compare_bytes (strip_zeros (run_of is_digit a)) (strip_zeros (run_of is_digit b)))
            (ok (after_run is_digit a, after_run is_digit b)))
number_order a b =
    decide_by-then_sign
      (cmp (length (strip_zeros (run_of is_digit a))) (length (strip_zeros (run_of is_digit b))))
      (compare_bytes (strip_zeros (run_of is_digit a)) (strip_zeros (run_of is_digit b)))
      (ok (after_run is_digit a, after_run is_digit b))

check_segment-keys :
    (a b : Bytes)
    → check_segment (a, b)
      ≡ decide_by
          (compare_bytes (segment_key a) (segment_key b))
          (ok (after_segment a, after_segment b))
unfolding check_segment segment_key after_segment compare_bytes cmp_bool
check_segment-keys a b = elim (Bool-cases (is_digit (at a))) [
  | inl p ↦ elim (Bool-cases (is_digit (at b))) [
    | inl q ↦ rw (p, q) (check_number-keys a b ∙ rw (p, q) (sym (number_order a b)))
    | inr q ↦ rw (p, q) (check_number-keys a b ∙ rw (p, q))
  ]
  | inr p ↦ elim (Bool-cases (is_digit (at b))) [
    | inl q ↦ rw (p, q) (check_number-keys a b ∙ rw (p, q))
    | inr q ↦ rw (p, q) (check_word-keys a b)
  ]
]

-- The rounds of the two strings from behind the '~' on.
abbrev marks_then : (Pair → Result Sign Pair) → Pair → Result Sign Pair
marks_then k q =
    check_mark b'-' q >>= λ r. check_mark b'^' r >>= λ s. check_mark b'.' s >>= λ t. k t

marks_then-keys :
    (a b : Bytes) (k : Pair → Result Sign Pair)
    → marks_then k (after_tilde a, after_tilde b)
      ≡ decide_by (cmp (mark_key b'-' (after_tilde a)) (mark_key b'-' (after_tilde b))) (
          decide_by (cmp (mark_key b'^' (after_dash a)) (mark_key b'^' (after_dash b))) (
            decide_by
              (cmp (mark_key b'.' (after_caret a)) (mark_key b'.' (after_caret b)))
              (k (after_dot a, after_dot b))))
marks_then-keys a b k =
    check_mark-keys b'-' (after_tilde a) (after_tilde b)
      (λ r. check_mark b'^' r >>= λ s. check_mark b'.' s >>= λ t. k t)
    ∙ ap (decide_by (cmp (mark_key b'-' (after_tilde a)) (mark_key b'-' (after_tilde b)))) (
        check_mark-keys b'^' (after_dash a) (after_dash b) (λ s. check_mark b'.' s >>= λ t. k t)
        ∙ ap (decide_by (cmp (mark_key b'^' (after_dash a)) (mark_key b'^' (after_dash b))))
            (check_mark-keys b'.' (after_caret a) (after_caret b) k))

decide_thrice :
    {A : Type 0} (s t u v : Sign) (r : Result Sign A)
    → decide_by (then_sign s (then_sign t (then_sign u v))) r
      ≡ decide_by s (decide_by t (decide_by u (decide_by v r)))
decide_thrice s t u v r =
    decide_by-then_sign s (then_sign t (then_sign u v)) r
    ∙ ap (decide_by s)
        (decide_by-then_sign t (then_sign u v) r ∙ ap (decide_by t) (decide_by-then_sign u v r))

cmp_zeros : (m n : ℕ) → (m == 0) ≡ true → (n == 0) ≡ true → cmp m n ≡ equal
cmp_zeros m n p q = ground arith

cmp_zero_left : (m n : ℕ) → (m == 0) ≡ true → (n == 0) ≡ false → cmp m n ≡ less
cmp_zero_left m n p q = ground arith

cmp_zero_right : (m n : ℕ) → (m == 0) ≡ false → (n == 0) ≡ true → cmp m n ≡ greater
cmp_zero_right m n p q = ground arith

abbrev key_tail : Bytes → Bytes
key_tail s =
    if ended s
    then 0 ∷ []
    else 1
      ∷ mark_key b'-' (after_tilde s)
      ∷ mark_key b'^' (after_dash s)
      ∷ mark_key b'.' (after_caret s)
      ∷ segment_key (after_dot s)

abbrev pub round_end : Bytes → Bytes → Result Sign Pair
round_end a b = if ended a then err equal else ok (after_round a, after_round b)

check_end-keys :
    (a b : Bytes)
    → (check_end (after_tilde a, after_tilde b) >>= marks_then check_segment)
      ≡ decide_by (compare_bytes (key_tail a) (key_tail b)) (round_end a b)
unfolding check_end compare_bytes after_round
check_end-keys a b = elim (Bool-cases (ended a)) [
  | inl p ↦ elim (Bool-cases (ended b)) [
    | inl q ↦ rw (p, q) (ap err (cmp_zeros (at (after_tilde a)) (at (after_tilde b)) p q))
    | inr q ↦ rw (p, q) (ap err (cmp_zero_left (at (after_tilde a)) (at (after_tilde b)) p q))
  ]
  | inr p ↦ elim (Bool-cases (ended b)) [
    | inl q ↦ rw (p, q) (ap err (cmp_zero_right (at (after_tilde a)) (at (after_tilde b)) p q))
    | inr q ↦
        rw (p, q)
          (marks_then-keys a b check_segment
            ∙ rw (check_segment-keys (after_dot a) (after_dot b)) (
                sym (
                  decide_thrice
                    (cmp (mark_key b'-' (after_tilde a)) (mark_key b'-' (after_tilde b)))
                    (cmp (mark_key b'^' (after_dash a)) (mark_key b'^' (after_dash b)))
                    (cmp (mark_key b'.' (after_caret a)) (mark_key b'.' (after_caret b)))
                    (compare_bytes (segment_key (after_dot a)) (segment_key (after_dot b)))
                    (ok (after_segment (after_dot a), after_segment (after_dot b))))))
  ]
]

-- A round compares the keys of the round; equal keys end the loop when the strings have ended.
pub round-keys :
    (a b : Bytes)
    → round (a, b) ≡ decide_by (compare_bytes (round_key a) (round_key b)) (round_end a b)
unfolding round round_key compare_bytes
round-keys a b =
    let s = skip_separators a in
    let t = skip_separators b in
    check_mark-keys b'~' s t (λ p. check_end p >>= marks_then check_segment)
    ∙ ap (decide_by (cmp (mark_key b'~' s) (mark_key b'~' t))) (check_end-keys a b)
    ∙ sym (
        decide_by-then_sign (cmp (mark_key b'~' s) (mark_key b'~' t))
          (compare_bytes (key_tail a) (key_tail b)) (round_end a b))
