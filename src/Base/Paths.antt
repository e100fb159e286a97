-- ===== src/Base/Paths.antt =====
-- Go's path/filepath on Unix, lexically, and decimal numbers.
use Prim.Native.Nat.{ℕ, zero, suc, ◌+◌, ◌/◌, ◌%◌}
use mathlib.Core.Bool.{Bool, false, ◌&&◌, ◌||◌}
use mathlib.Core.List.{List, [], ◌∷◌, ◌++◌}
use mathlib.Core.Option.{Option, none, some}
use sysext_alpine.Base.Tests.{◌==◌, ltb, if◌then◌else◌}
use sysext_alpine.Base.Lists.{null}
use sysext_alpine.Base.Text.{Bytes, codes, same}
use sysext_alpine.Base.Strings.{split, join, cut_last}

-- strings.Trim with one byte, on the left and on the right.
unfoldable pub trim_left_byte : ℕ → Bytes → Bytes
trim_left_byte b [] = []
trim_left_byte b (c ∷ s) = if c == b then trim_left_byte b s else c ∷ s

unfoldable pub trim_right_byte : ℕ → Bytes → Bytes
trim_right_byte b [] = []
trim_right_byte b (c ∷ s) =
    let rest = trim_right_byte b s in if c == b && null rest then [] else c ∷ rest

unfoldable pub trim_byte : ℕ → Bytes → Bytes
trim_byte b s = trim_right_byte b (trim_left_byte b s)

unfoldable pub is_abs : Bytes → Bool
is_abs [] = false
is_abs (c ∷ s) = c == b'/'

-- One more component on the stack of those kept, the last one first.
abbrev pub push_parent : Bool → List Bytes → List Bytes
push_parent rooted [] = if rooted then [] else codes ".." ∷ []
push_parent rooted (k ∷ ks) = if same k (codes "..") then codes ".." ∷ k ∷ ks else ks

unfoldable pub clean_from : Bool → List Bytes → List Bytes → List Bytes
clean_from rooted kept [] = kept
clean_from rooted kept (w ∷ ws) =
    clean_from rooted
      (if null w || same w (codes ".")
        then kept
        else if same w (codes "..")
        then push_parent rooted kept
        else w ∷ kept)
      ws

unfoldable pub reversed : List Bytes → List Bytes → List Bytes
reversed done [] = done
reversed done (w ∷ ws) = reversed (w ∷ done) ws

-- filepath.Clean
unfoldable pub clean : Bytes → Bytes
clean p =
    let s = join b'/' (reversed [] (clean_from (is_abs p) [] (split b'/' p))) in
    if is_abs p then b'/' ∷ s else if null s then codes "." else s

abbrev pub both_parts : Bytes → Bytes → Bytes
both_parts a b = if null a then b else if null b then a else a ++ (b'/' ∷ b)

-- filepath.Join of two elements
unfoldable pub join_path : Bytes → Bytes → Bytes
join_path a b = if null (both_parts a b) then [] else clean (both_parts a b)

abbrev pub dir_of : Option (Bytes × Bytes) → Bytes
dir_of none = codes "."
dir_of (some (before, after)) = clean (before ++ codes "/")

-- filepath.Dir
unfoldable pub dir : Bytes → Bytes
dir p = dir_of (cut_last b'/' p)

-- strconv.FormatUint in base 10; a number has fewer digits than its value plus one.
unfoldable pub decimal_from : ℕ → ℕ → Bytes
decimal_from zero n = []
decimal_from (suc fuel) n =
    let high = decimal_from fuel (n / 10) in
    if ltb n 10 then (48 + n) ∷ [] else high ++ ((48 + n % 10) ∷ [])

unfoldable pub decimal : ℕ → Bytes
decimal n = decimal_from (suc n) n

-- An int or int64: its sign, true for a minus, and its size.
pub record SignedNumber : Type 0 where
  pub negative : Bool
  pub size : ℕ

abbrev pub no_number : SignedNumber
no_number = record { negative = false; size = 0 }

-- strconv.FormatInt in base 10
unfoldable pub signed_decimal : SignedNumber → Bytes
signed_decimal n = if n.negative then b'-' ∷ decimal n.size else decimal n.size
