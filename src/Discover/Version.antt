-- ===== src/Discover/Version.antt =====
-- internal/discover/version.go, `CompareVersions`. The indices `i` and `j` stand for the suffixes
-- of the two strings that they point at; `at` beyond the end is 0, and an early return is `err`.
pub mod Key
pub mod Round
pub mod Lex
pub mod Order
use sysext_alpine.Base.{
  ℕ, zero, suc, ◌+◌, min, Bool, true, false, not, ◌&&◌, ◌||◌, List, [], ◌∷◌, Option, none, some,
  Result, ok, err, ◌>>=◌, ◌>>◌, Bytes, Sign, less, equal, greater, cmp, compare_bytes, leb, ◌==◌,
  length, null, take, if◌then◌else◌,
}

abbrev pub is_digit : ℕ → Bool
is_digit c = leb b'0' c && leb c b'9'

abbrev pub is_alpha : ℕ → Bool
is_alpha c = leb b'a' c && leb c b'z' || leb b'A' c && leb c b'Z'

abbrev pub is_version_char : ℕ → Bool
is_version_char c =
    is_digit c || (is_alpha c || (c == b'~' || (c == b'-' || (c == b'^' || c == b'.'))))

unfoldable pub cmp_bool : Bool → Bool → Sign
cmp_bool true true = equal
cmp_bool false false = equal
cmp_bool true false = greater
cmp_bool false true = less

-- `a[:i]` for the first NUL byte
unfoldable pub until_nul : Bytes → Bytes
until_nul [] = []
until_nul (c ∷ s) = if c == 0 then [] else c ∷ until_nul s

abbrev pub at : Bytes → ℕ
at [] = 0
at (c ∷ s) = c

abbrev pub tail : Bytes → Bytes
tail [] = []
tail (c ∷ s) = s

unfoldable pub skip_separators : Bytes → Bytes
skip_separators [] = []
skip_separators (c ∷ s) = if is_version_char c then c ∷ s else skip_separators s

-- The longest prefix of bytes that pass the test, and what is left.
unfoldable pub run_of : (ℕ → Bool) → Bytes → Bytes
run_of p [] = []
run_of p (c ∷ s) = if p c then c ∷ run_of p s else []

unfoldable pub after_run : (ℕ → Bool) → Bytes → Bytes
after_run p [] = []
after_run p (c ∷ s) = if p c then after_run p s else c ∷ s

unfoldable pub strip_zeros : Bytes → Bytes
strip_zeros [] = []
strip_zeros (c ∷ s) = if c == b'0' then strip_zeros s else c ∷ s

-- `if r := ...; r != 0 { return r }`
unfoldable pub return_unless_equal : Sign → Result Sign Unit
return_unless_equal less = err less
return_unless_equal equal = ok tt
return_unless_equal greater = err greater

abbrev pub Pair : Type 0
Pair = Bytes × Bytes

-- '~', '-', '^' and '.' alike.
unfoldable pub check_mark : ℕ → Pair → Result Sign Pair
unfolding cmp_bool return_unless_equal
check_mark c (a, b) =
    if at a == c || at b == c
    then (return_unless_equal (cmp_bool (not (at a == c)) (not (at b == c))) >>= λ _.
        ok (tail a, tail b))
    else ok (a, b)

unfoldable pub check_end : Pair → Result Sign Pair
check_end (a, b) = if at a == 0 || at b == 0 then err (cmp (at a) (at b)) else ok (a, b)

unfoldable pub check_number : Pair → Result Sign Pair
unfolding cmp_bool return_unless_equal strip_zeros
check_number (a, b) =
    let m = run_of is_digit a in
    let n = run_of is_digit b in
    return_unless_equal (cmp_bool (not (null m)) (not (null n))) >>= λ _.
    return_unless_equal (cmp (length (strip_zeros m)) (length (strip_zeros n))) >>= λ _.
    return_unless_equal (compare_bytes (strip_zeros m) (strip_zeros n)) >>= λ _.
    ok (after_run is_digit a, after_run is_digit b)

unfoldable pub check_word : Pair → Result Sign Pair
unfolding return_unless_equal
check_word (a, b) =
    let v = run_of is_alpha a in
    let w = run_of is_alpha b in
    let n = min (length v) (length w) in
    return_unless_equal (compare_bytes (take n v) (take n w)) >>= λ _.
    return_unless_equal (cmp (length v) (length w)) >>= λ _.
    ok (after_run is_alpha a, after_run is_alpha b)

unfoldable pub check_segment : Pair → Result Sign Pair
check_segment (a, b) =
    if is_digit (at a) || is_digit (at b) then check_number (a, b) else check_word (a, b)

-- One round of the loop.
unfoldable pub round : Pair → Result Sign Pair
round (a, b) = do
  p ← check_mark b'~' (skip_separators a, skip_separators b)
  q ← check_end p
  r ← check_mark b'-' q
  s ← check_mark b'^' r
  t ← check_mark b'.' s
  check_segment t

unfoldable pub go_on : (Pair → Option Sign) → Result Sign Pair → Option Sign
go_on next (err sign) = some sign
go_on next (ok p) = next p

-- Each round that goes on consumes a byte, so more fuel than bytes is enough.
unfoldable pub compare_from : ℕ → Pair → Option Sign
unfolding go_on
compare_from zero p = none
compare_from (suc fuel) p = go_on (compare_from fuel) (round p)

unfoldable pub compare_versions : Bytes → Bytes → Option Sign
compare_versions a b =
    let s = until_nul a in let t = until_nul b in compare_from (suc (length s + length t)) (s, t)
