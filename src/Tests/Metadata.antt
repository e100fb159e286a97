-- ===== src/Tests/Metadata.antt =====
-- internal/overlay/markers.go and origin.go: their theorems applied to concrete inputs.
use sysext_alpine.Base.{
  ℕ, ◌+◌, ◌*◌, ◌/◌, ◌%◌, ◌++◌, ◌≡◌, refl, true, [], ◌∷◌, some, ok, Bytes, codes, All, has_byte,
  arith,
}
use sysext_alpine.Release.Names.{valid_utf8, valid_utf8_from, decode_rune, rune_2, rune_is_valid}
use sysext_alpine.Overlay.Markers.{
  cescape, cunescape, format_list, parse_list, format_devnum, parse_devnum,
}
use sysext_alpine.Overlay.Markers.Escape.{cunescape-cescape}
use sysext_alpine.Overlay.Markers.Names.{IsListed, parse_list-format_list}
use sysext_alpine.Overlay.Markers.Numbers.{parse_devnum-format_devnum}
use sysext_alpine.Overlay.Origin.{format_json_string}
use sysext_alpine.Overlay.Origin.Text.{read_json_string, read_json_string-format_json_string}

abbrev odd_path : Bytes
odd_path = 9 ∷ 34 ∷ 92 ∷ 200 ∷ b'a' ∷ []

abbrev odd_text : Bytes
odd_text = 9 ∷ 31 ∷ 34 ∷ 92 ∷ 195 ∷ 169 ∷ b'a' ∷ []

cunescape-cescape_example : cunescape (cescape odd_path) ≡ some odd_path
cunescape-cescape_example = cunescape-cescape odd_path (omega arith)

parse_list-format_list_example :
    parse_list (format_list (codes "app" ∷ codes "tools" ∷ [])) ≡ codes "app" ∷ codes "tools" ∷ []
parse_list-format_list_example = parse_list-format_list (codes "app" ∷ codes "tools" ∷ []) listed
  where
    listed : All IsListed (codes "app" ∷ codes "tools" ∷ [])
    listed = unfold has_byte in ((refl, refl), ((refl, refl), tt))

-- The device numbers of Linux below 2^20.
abbrev major_of : ℕ → ℕ
major_of d = d / 256

abbrev minor_of : ℕ → ℕ
minor_of d = d % 256

abbrev joined : ℕ → ℕ → ℕ
joined a b = a * 256 + b

parse_devnum-format_devnum_example :
    parse_devnum major_of minor_of joined (format_devnum major_of minor_of joined 2049) ≡ ok 2049
parse_devnum-format_devnum_example =
    parse_devnum-format_devnum major_of minor_of joined 2049 refl (omega arith) (omega arith)

read_json_string-format_json_string_example :
    read_json_string 9 (format_json_string odd_text ++ codes ",") ≡ some (odd_text, codes ",")
read_json_string-format_json_string_example =
    read_json_string-format_json_string odd_text (codes ",") 9 (omega arith) odd_text_is_utf8
  where
    odd_text_is_utf8 : valid_utf8 odd_text ≡ true
    odd_text_is_utf8 = unfold valid_utf8 valid_utf8_from decode_rune rune_2 rune_is_valid in refl
