-- ===== src/Release/Names.antt =====
-- internal/release/names.go: which names and which texts are valid.
use sysext_alpine.Base.{
  ℕ, zero, suc, ◌+◌, ◌*◌, ◌/◌, ◌%◌, Bool, true, false, not, ◌&&◌, ◌||◌, List, [], ◌∷◌, Option, none,
  some, Bytes, codes, same, has_byte, has_prefix, has_suffix, cut_last, contains, ltb, leb, ◌==◌,
  length, any, null, if◌then◌else◌,
}

abbrev within : ℕ → ℕ → ℕ → Bool
within lo hi c = leb lo c && leb c hi

-- A two byte, a three byte and a four byte sequence of utf8.DecodeRune: the rune and the number of
-- bytes after the first; `none` for utf8.RuneError of size 1.
unfoldable pub rune_2 : ℕ → Bytes → Option (ℕ × ℕ)
rune_2 c (d ∷ s) = if within 128 191 d then some (c % 32 * 64 + d % 64, 1) else none
rune_2 c [] = none

unfoldable pub rune_3 : ℕ → ℕ → ℕ → Bytes → Option (ℕ × ℕ)
rune_3 lo hi c (d ∷ e ∷ s) =
    if within lo hi d && within 128 191 e
    then some (c % 16 * 4096 + d % 64 * 64 + e % 64, 2)
    else none
rune_3 lo hi c s = none

unfoldable pub rune_4 : ℕ → ℕ → ℕ → Bytes → Option (ℕ × ℕ)
rune_4 lo hi c (d ∷ e ∷ f ∷ s) =
    if within lo hi d && within 128 191 e && within 128 191 f
    then some (c % 8 * 262144 + d % 64 * 4096 + e % 64 * 64 + f % 64, 3)
    else none
rune_4 lo hi c s = none

-- utf8.DecodeRune
unfoldable pub decode_rune : ℕ → Bytes → Option (ℕ × ℕ)
decode_rune c s =
    if ltb c 128
    then some (c, 0)
    else if within 194 223 c
    then rune_2 c s
    else if c == 224
    then rune_3 160 191 c s
    else if c == 237
    then rune_3 128 159 c s
    else if within 225 239 c
    then rune_3 128 191 c s
    else if c == 240
    then rune_4 144 191 c s
    else if within 241 243 c
    then rune_4 128 191 c s
    else if c == 244
    then rune_4 128 143 c s
    else none

-- Neither NUL nor a noncharacter.
unfoldable pub rune_is_valid : ℕ → Bool
rune_is_valid r = not (r == 0) && not (within 64976 65007 r) && not (r / 2 % 32768 == 32767)

-- The loop of `validUTF8`, with the number of bytes of the current rune that are left.
unfoldable pub valid_utf8_from : ℕ → Bytes → Bool
valid_utf8_from n [] = true
valid_utf8_from (suc n) (c ∷ s) = valid_utf8_from n s
valid_utf8_from zero (c ∷ s) = elim (decode_rune c s) [
  | none ↦ false
  | some (r, n) ↦ rune_is_valid r && valid_utf8_from n s
]

unfoldable pub valid_utf8 : Bytes → Bool
valid_utf8 s = valid_utf8_from 0 s

unfoldable pub image_name_is_valid : Bytes → Bool
image_name_is_valid s =
    if null s || same s (codes ".") || same s (codes "..") || ltb 255 (length s) || has_byte b'/' s
    then false
    else if any (λ c. ltb c b' ' || c == 127) s
    then false
    else valid_utf8 s && not (has_prefix (codes ".#") s)

abbrev leftovers : List Bytes
leftovers =
    codes "ignore"
    ∷ codes "rpmnew"
    ∷ codes "rpmsave"
    ∷ codes "rpmorig"
    ∷ codes "dpkg-old"
    ∷ codes "dpkg-new"
    ∷ codes "dpkg-tmp"
    ∷ codes "dpkg-dist"
    ∷ codes "dpkg-bak"
    ∷ codes "dpkg-backup"
    ∷ codes "dpkg-remove"
    ∷ codes "ucf-new"
    ∷ codes "ucf-old"
    ∷ codes "ucf-dist"
    ∷ codes "swp"
    ∷ codes "bak"
    ∷ codes "old"
    ∷ codes "new"
    ∷ []

unfoldable pub hidden_or_backup_file : Bytes → Bool
hidden_or_backup_file name =
    if has_prefix (codes ".") name || has_suffix (codes "~") name
    then true
    else if contains (codes "lost+found" ∷ codes "aquota.user" ∷ codes "aquota.group" ∷ []) name
    then true
    else elim (cut_last b'.' name) [
      | none ↦ false
      | some (before, after) ↦ contains leftovers after
    ]
