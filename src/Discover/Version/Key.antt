-- ===== src/Discover/Version/Key.antt =====
-- The order of versions by itself: a version reads as a list of keys, compared one after the other.
use sysext_alpine.Base.{
  ℕ, zero, suc, Bool, List, [], ◌∷◌, Bytes, Sign, less, equal, greater, then_sign, compare_bytes,
  ◌==◌, length, if◌then◌else◌,
}
use sysext_alpine.Discover.Version.{
  is_digit, is_alpha, at, tail, until_nul, skip_separators, run_of, after_run, strip_zeros,
}

-- A mark ranks below its absence.
abbrev pub mark_key : ℕ → Bytes → ℕ
mark_key c s = if at s == c then 0 else 1

abbrev pub after_mark : ℕ → Bytes → Bytes
after_mark c s = if at s == c then tail s else s

-- Digits rank above letters, by their value; letters bytewise.
unfoldable pub segment_key : Bytes → Bytes
segment_key s =
    if is_digit (at s)
    then 1 ∷ length (strip_zeros (run_of is_digit s)) ∷ strip_zeros (run_of is_digit s)
    else 0 ∷ 0 ∷ run_of is_alpha s

unfoldable pub after_segment : Bytes → Bytes
after_segment s = if is_digit (at s) then after_run is_digit s else after_run is_alpha s

abbrev pub after_tilde : Bytes → Bytes
after_tilde s = after_mark b'~' (skip_separators s)

abbrev pub ended : Bytes → Bool
ended s = at (after_tilde s) == 0

abbrev pub after_dash : Bytes → Bytes
after_dash s = after_mark b'-' (after_tilde s)

abbrev pub after_caret : Bytes → Bytes
after_caret s = after_mark b'^' (after_dash s)

abbrev pub after_dot : Bytes → Bytes
after_dot s = after_mark b'.' (after_caret s)

-- What one round reads of a string.
unfoldable pub round_key : Bytes → Bytes
round_key s =
    mark_key b'~' (skip_separators s)
    ∷ (if ended s
        then 0 ∷ []
        else 1
          ∷ mark_key b'-' (after_tilde s)
          ∷ mark_key b'^' (after_dash s)
          ∷ mark_key b'.' (after_caret s)
          ∷ segment_key (after_dot s))

unfoldable pub after_round : Bytes → Bytes
after_round s = after_segment (after_dot s)

unfoldable pub keys_from : ℕ → Bytes → List Bytes
keys_from zero s = []
keys_from (suc fuel) s =
    let rest = keys_from fuel (after_round s) in round_key s ∷ (if ended s then [] else rest)

-- The keys of a version: its rounds, up to the end.
unfoldable pub version_key : Bytes → List Bytes
version_key a = keys_from (suc (length (until_nul a))) (until_nul a)

unfoldable pub compare_keys : List Bytes → List Bytes → Sign
compare_keys [] [] = equal
compare_keys [] (l ∷ ls) = less
compare_keys (k ∷ ks) [] = greater
compare_keys (k ∷ ks) (l ∷ ls) = then_sign (compare_bytes k l) (compare_keys ks ls)
