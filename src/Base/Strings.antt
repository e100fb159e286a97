-- ===== src/Base/Strings.antt =====
-- What the program uses of Go's package strings, on bytes.
use Prim.Native.Nat.{ℕ, zero, suc}
use mathlib.Core.Bool.{Bool, true, false, ◌&&◌, ◌||◌}
use mathlib.Core.List.{List, [], ◌∷◌, ◌++◌}
use mathlib.Core.Option.{Option, none, some}
use mathlib.Core.Option
use sysext_alpine.Base.Tests.{◌==◌, leb, if◌then◌else◌}
use sysext_alpine.Base.Lists.{null}
use sysext_alpine.Base.Text.{Bytes, same}

-- strings.CutPrefix
unfoldable pub cut_prefix : Bytes → Bytes → Option Bytes
cut_prefix [] s = some s
cut_prefix (p ∷ ps) [] = none
cut_prefix (p ∷ ps) (c ∷ s) = if p == c then cut_prefix ps s else none

-- strings.HasPrefix
abbrev pub has_prefix : Bytes → Bytes → Bool
has_prefix p s = elim (cut_prefix p s) [ none ↦ false | some _ ↦ true ]

-- strings.CutSuffix: what stands before the suffix.
unfoldable pub cut_suffix : Bytes → Bytes → Option Bytes
unfolding same
cut_suffix x [] = if null x then some [] else none
cut_suffix x (c ∷ s) =
    let rest = cut_suffix x s in if same x (c ∷ s) then some [] else Option.map (λ r. c ∷ r) rest

-- strings.HasSuffix
abbrev pub has_suffix : Bytes → Bytes → Bool
has_suffix x s = elim (cut_suffix x s) [ none ↦ false | some _ ↦ true ]

-- strings.Cut at a separator of one byte; `none` when it does not occur.
unfoldable pub cut : ℕ → Bytes → Option (Bytes × Bytes)
cut sep [] = none
cut sep (c ∷ s) =
    let rest = cut sep s in if c == sep then some ([], s) else Option.map (λ p. (c ∷ p.0, p.1)) rest

-- The two sides of the last occurrence of a byte, which strings.LastIndexByte finds.
unfoldable pub cut_last : ℕ → Bytes → Option (Bytes × Bytes)
cut_last sep [] = none
cut_last sep (c ∷ s) = elim (cut_last sep s) [
  | some p ↦ some (c ∷ p.0, p.1)
  | none ↦ if c == sep then some ([], s) else none
]

-- strings.IndexByte(s, c) >= 0
unfoldable pub has_byte : ℕ → Bytes → Bool
has_byte c [] = false
has_byte c (x ∷ s) = x == c || has_byte c s

abbrev pub cons_head : ℕ → List Bytes → List Bytes
cons_head c [] = (c ∷ []) ∷ []
cons_head c (w ∷ ws) = (c ∷ w) ∷ ws

-- strings.Split and SplitSeq at a separator of one byte: never empty.
unfoldable pub split : ℕ → Bytes → List Bytes
split sep [] = [] ∷ []
split sep (c ∷ s) = if c == sep then [] ∷ split sep s else cons_head c (split sep s)

-- strings.Join with a separator of one byte
unfoldable pub join : ℕ → List Bytes → Bytes
join sep [] = []
join sep (w ∷ []) = w
join sep (w ∷ v ∷ ws) = w ++ (sep ∷ join sep (v ∷ ws))

abbrev is_ascii_space : ℕ → Bool
is_ascii_space c = c == 32 || leb 9 c && leb c 13

-- unicode.IsSpace beyond ASCII, in UTF-8: U+0085, U+00A0; U+1680, U+2000 to U+200A, U+2028,
-- U+2029, U+202F, U+205F and U+3000.
wide_space_width : Bytes → ℕ
wide_space_width (a ∷ b ∷ c ∷ s) =
    if a == 0xc2 && (b == 0x85 || b == 0xa0)
    then 2
    else if a == 0xe1 && b == 0x9a && c == 0x80
        || a == 0xe2
          && b == 0x80
          && (leb 0x80 c && leb c 0x8a || c == 0xa8 || c == 0xa9 || c == 0xaf)
        || a == 0xe2 && b == 0x81 && c == 0x9f
        || a == 0xe3 && b == 0x80 && c == 0x80
    then 3
    else 0
wide_space_width (a ∷ b ∷ []) = if a == 0xc2 && (b == 0x85 || b == 0xa0) then 2 else 0
wide_space_width _ = 0

-- The bytes of the white space rune at the start of a string; 0 when it starts with none.
unfoldable pub space_width : Bytes → ℕ
unfolding wide_space_width
space_width [] = 0
space_width (c ∷ s) = if is_ascii_space c then 1 else wide_space_width (c ∷ s)

-- `skip` counts the bytes left of the white space rune that is being passed.
unfoldable pub trim_left_from : ℕ → Bytes → Bytes
unfolding space_width
trim_left_from skip [] = []
trim_left_from (suc skip) (c ∷ s) = trim_left_from skip s
trim_left_from zero (c ∷ s) = elim (space_width (c ∷ s)) [
  | zero ↦ c ∷ s
  | suc n ↦ trim_left_from n s
]

-- The white space at the end starts where all that is left is white space.
unfoldable pub trim_right : Bytes → Bytes
unfolding trim_left_from
trim_right [] = []
trim_right (c ∷ s) = if null (trim_left_from 0 (c ∷ s)) then [] else c ∷ trim_right s

-- strings.TrimSpace
unfoldable pub trim_space : Bytes → Bytes
unfolding trim_right
trim_space s = trim_right (trim_left_from 0 s)

abbrev flush : Bytes → List Bytes → List Bytes
flush word words = if null word then words else word ∷ words

-- strings.Fields, with the word read so far.
unfoldable pub fields_from : ℕ → Bytes → Bytes → List Bytes
unfolding space_width
fields_from skip word [] = flush word []
fields_from (suc skip) word (c ∷ s) = fields_from skip word s
fields_from zero word (c ∷ s) = elim (space_width (c ∷ s)) [
  | zero ↦ fields_from 0 (word ++ c ∷ []) s
  | suc n ↦ flush word (fields_from n [] s)
]

unfoldable pub fields : Bytes → List Bytes
unfolding fields_from
fields s = fields_from 0 [] s

-- slices.Contains on strings
unfoldable pub contains : List Bytes → Bytes → Bool
unfolding same
contains [] x = false
contains (w ∷ ws) x = same w x || contains ws x
