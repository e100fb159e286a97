-- ===== src/Overlay/Markers.antt =====
-- internal/overlay/markers.go: the metadata of a merged hierarchy. unix.Major, unix.Minor and
-- unix.Mkdev are parameters.
pub mod Escape
pub mod Numbers
pub mod Names
use sysext_alpine.Base.{
  ℕ, zero, suc, ◌+◌, ◌-◌, ◌*◌, ◌/◌, ◌%◌, ◌^◌, Bool, true, false, not, ◌&&◌, ◌||◌, List, [], ◌∷◌,
  ◌++◌, Option, none, some, Result, ok, err, ◌>>=◌, Bytes, codes, same, ltb, leb, ◌==◌, length,
  null, cut, cut_suffix, split, join, all_bytes, any, trim_byte, decimal, if◌then◌else◌,
}
use sysext_alpine.Release.Class.{Class, sysext, confext}
use sysext_alpine.Image.Ids.{hex_value}
use sysext_alpine.Image.Table.{utf8_encode}
use sysext_alpine.Discover.Pick.{digits_value}
use sysext_alpine.Discover.Version.{is_digit}

unfoldable pub marker_dir_name : Class → Bytes
marker_dir_name confext = codes ".systemd-confext"
marker_dir_name sysext = codes ".systemd-sysext"

unfoldable pub list_file_name : Class → Bytes
list_file_name confext = codes "confexts"
list_file_name sysext = codes "extensions"

unfoldable pub class_identifier : Class → Bytes
class_identifier confext = codes "confext"
class_identifier sysext = codes "sysext"

-- unix.EINVAL and ERANGE (or strconv's range error)
pub data DevnumError : Type 0 where
  invalid out_of_range : DevnumError

unfoldable pub is_decimal : Bytes → Bool
is_decimal [] = false
is_decimal (c ∷ s) = all_bytes is_digit (c ∷ s)

-- strconv.ParseUint in base 10 with a bit size, on a decimal.
abbrev pub sized_value : ℕ → Option ℕ → Option ℕ
sized_value bits none = none
sized_value bits (some n) = if ltb n (2 ^ bits) then some n else none

abbrev pub parse_decimal : ℕ → Bytes → Option ℕ
parse_decimal bits s = sized_value bits (digits_value 10 0 s)

abbrev or_range : Option ℕ → Result DevnumError ℕ
or_range none = err out_of_range
or_range (some n) = ok n

module _ (major minor : ℕ → ℕ) (mkdev : ℕ → ℕ → ℕ) where
  unfoldable pub format_devnum : ℕ → Bytes
  format_devnum dev = decimal (major dev) ++ (b':' ∷ decimal (minor dev))

  abbrev pub joined_devnum : Option ℕ → Option ℕ → Result DevnumError ℕ
  joined_devnum (some a) (some b) =
      if leb (2 ^ 12) a || leb (2 ^ 20) b then err out_of_range else ok (mkdev a b)
  joined_devnum a b = err out_of_range

  abbrev pub devnum_of : Bytes → Option (Bytes × Bytes) → Result DevnumError ℕ
  devnum_of s none = if is_decimal s then or_range (parse_decimal 64 s) else err invalid
  devnum_of s (some (majs, mins)) =
      if not (is_decimal majs) || not (is_decimal mins)
      then err invalid
      else joined_devnum (parse_decimal 32 majs) (parse_decimal 32 mins)

  unfoldable pub parse_devnum : Bytes → Result DevnumError ℕ
  parse_devnum s = devnum_of s (cut b':' s)

abbrev newline : ℕ
newline = 10

unfoldable pub format_list : List Bytes → Bytes
format_list [] = []
format_list (n ∷ ns) = join newline (n ∷ ns) ++ (newline ∷ [])

unfoldable pub without_empty : List Bytes → List Bytes
without_empty [] = []
without_empty (w ∷ ws) = let rest = without_empty ws in if null w then rest else w ∷ rest

abbrev pub trim_suffix : Bytes → Bytes → Bytes
trim_suffix suffix s = elim (cut_suffix suffix s) [ none ↦ s | some t ↦ t ]

unfoldable pub parse_list : Bytes → List Bytes
parse_list s = without_empty (split newline (trim_suffix (newline ∷ []) s))

abbrev before_cut : Bytes → Option (Bytes × Bytes) → Bytes
before_cut s none = s
before_cut s (some (before, after)) = before

-- The first line of a file that has been read.
unfoldable pub first_line : Bytes → Bytes
first_line s = trim_suffix (13 ∷ []) (before_cut s (cut newline s))

-- `\` and three octal digits
abbrev pub octal : ℕ → Bytes
octal c = 92 ∷ (48 + c / 64) ∷ (48 + c / 8 % 8) ∷ (48 + c % 8) ∷ []

unfoldable pub escape_byte : ℕ → Bytes
escape_byte c =
    if c == 7
    then 92 ∷ b'a' ∷ []
    else if c == 8
    then 92 ∷ b'b' ∷ []
    else if c == 12
    then 92 ∷ b'f' ∷ []
    else if c == 10
    then 92 ∷ b'n' ∷ []
    else if c == 13
    then 92 ∷ b'r' ∷ []
    else if c == 9
    then 92 ∷ b't' ∷ []
    else if c == 11
    then 92 ∷ b'v' ∷ []
    else if c == 92
    then 92 ∷ 92 ∷ []
    else if c == 34
    then 92 ∷ 34 ∷ []
    else if c == 39
    then 92 ∷ 39 ∷ []
    else if ltb c 32 || leb 127 c
    then octal c
    else c ∷ []

unfoldable pub cescape : Bytes → Bytes
cescape [] = []
cescape (c ∷ s) = escape_byte c ++ cescape s

-- strconv.ParseUint in base 16: the value so far, and the digits that are left to read.
unfoldable pub hex_number : ℕ → ℕ → Bytes → Option ℕ
hex_number zero acc s = some acc
hex_number (suc n) acc [] = none
hex_number (suc n) acc (c ∷ s) = elim (hex_value c) [
  | none ↦ none
  | some d ↦ hex_number n (acc * 16 + d) s
]

unfoldable pub octal_number : ℕ → ℕ → Bytes → Option ℕ
octal_number zero acc s = some acc
octal_number (suc n) acc [] = none
octal_number (suc n) acc (c ∷ s) =
    let rest = octal_number n (acc * 8 + (c - 48)) s in if leb 48 c && leb c 55 then rest else none

-- What an escape writes, and how many bytes after the backslash it takes.
abbrev pub byte_escape : ℕ → Option ℕ → Option (Bytes × ℕ)
byte_escape n none = none
byte_escape n (some v) = if v == 0 || ltb 255 v then none else some (v ∷ [], n)

-- utf8.ValidRune
abbrev valid_rune : ℕ → Bool
valid_rune r = ltb r 55296 || (leb 57344 r && leb r 1114111)

abbrev rune_escape : ℕ → Option ℕ → Option (Bytes × ℕ)
rune_escape n none = none
rune_escape n (some v) = if v == 0 || not (valid_rune v) then none else some (utf8_encode v, n)

unfoldable pub unescape_one : Bytes → Option (Bytes × ℕ)
unescape_one [] = none
unescape_one (c ∷ s) =
    if c == b'a'
    then some (7 ∷ [], 1)
    else if c == b'b'
    then some (8 ∷ [], 1)
    else if c == b'f'
    then some (12 ∷ [], 1)
    else if c == b'n'
    then some (10 ∷ [], 1)
    else if c == b'r'
    then some (13 ∷ [], 1)
    else if c == b't'
    then some (9 ∷ [], 1)
    else if c == b'v'
    then some (11 ∷ [], 1)
    else if c == 92 || c == 34 || c == 39
    then some (c ∷ [], 1)
    else if c == b's'
    then some (32 ∷ [], 1)
    else if c == b'x'
    then byte_escape 3 (hex_number 2 0 s)
    else if c == b'u'
    then rune_escape 5 (hex_number 4 0 s)
    else if c == b'U'
    then rune_escape 9 (hex_number 8 0 s)
    else if leb 48 c && leb c 55
    then byte_escape 3 (octal_number 3 0 (c ∷ s))
    else none

abbrev pub put : Bytes → Option Bytes → Option Bytes
put w none = none
put w (some s) = some (w ++ s)

-- `skip` counts the bytes of an escape that are left.
unfoldable pub cunescape_from : ℕ → Bytes → Option Bytes
cunescape_from skip [] = some []
cunescape_from (suc skip) (c ∷ s) = cunescape_from skip s
cunescape_from zero (c ∷ s) =
    let plain = cunescape_from 0 s in
    if c == 92
    then elim (unescape_one s) [ none ↦ none | some (w, n) ↦ put w (cunescape_from n s) ]
    else put (c ∷ []) plain

unfoldable pub cunescape : Bytes → Option Bytes
cunescape s = cunescape_from 0 s

-- Whether two slashes follow each other.
unfoldable pub has_double_slash : Bytes → Bool
has_double_slash [] = false
has_double_slash (c ∷ []) = false
has_double_slash (c ∷ d ∷ s) = let rest = has_double_slash (d ∷ s) in c == b'/' && d == b'/' || rest

abbrev bad_component : Bytes → Bool
bad_component c = same c (codes ".") || same c (codes "..") || ltb 255 (length c)

-- unix.PathMax is 4096.
unfoldable pub path_is_normalized : Bytes → Bool
path_is_normalized p =
    if null p || leb 4096 (length p)
    then false
    else if has_double_slash p
    then false
    else not (any bad_component (split b'/' (trim_byte b'/' p)))

unfoldable pub slashes_to_dots : Bytes → Bytes
slashes_to_dots [] = []
slashes_to_dots (c ∷ s) = (if c == b'/' then b'.' else c) ∷ slashes_to_dots s

unfoldable pub single_path_component : Bytes → Bytes
single_path_component h = slashes_to_dots (trim_byte b'/' h)

unfoldable pub work_dir_name : Bytes → Bytes
work_dir_name h = codes ".systemd-" ++ single_path_component h ++ codes "-workdir"
