-- ===== src/Files/Mounts.antt =====
-- internal/fsutil/mount.go: the mount table, and paths below a directory. The text of
-- /proc/self/mountinfo is an argument.
pub mod Unescape
pub mod Inside
use sysext_alpine.Base.{
  ℕ, zero, suc, ◌^◌, Bool, true, false, not, ◌&&◌, ◌||◌, List, [], ◌∷◌, ◌++◌, Option, none, some,
  Result, ok, err, ◌>>=◌, Bytes, codes, same, ltb, leb, ◌==◌, length, null, any, all_bytes, cut,
  split, fields, cut_suffix, has_prefix, is_abs, clean, clean_from, reversed, if◌then◌else◌,
  SignedNumber,
}
use sysext_alpine.Discover.Version.{is_digit}
use sysext_alpine.Discover.Pick.{digits_value}
use sysext_alpine.Overlay.Markers.{octal_number, parse_decimal, is_decimal}

pub record MountInfo : Type 0 where
  pub id : SignedNumber
  pub parent_id : SignedNumber
  pub major : ℕ
  pub minor : ℕ
  pub root : Bytes
  pub mount_point : Bytes
  pub options : Bytes
  pub optional : List Bytes
  pub fs_type : Bytes
  pub source : Bytes
  pub super_opts : Bytes

-- `Shared`
unfoldable pub shared : MountInfo → Bool
shared m = any (has_prefix (codes "shared:")) m.optional

pub data MountInfoError : Type 0 where
  malformed_line malformed_id malformed_parent_id malformed_device line_too_long : MountInfoError

-- What an escape stands for: `\` with three octal digits up to 255.
abbrev pub escaped_byte : Bytes → Option ℕ
escaped_byte s = elim (octal_number 3 0 s) [
  | none ↦ none
  | some v ↦ if ltb 255 v then none else some v
]

-- `skip` counts the digits of an escape that are left.
unfoldable pub unescape_from : ℕ → Bytes → Bytes
unescape_from skip [] = []
unescape_from (suc skip) (c ∷ s) = unescape_from skip s
unescape_from zero (c ∷ s) =
    let plain = c ∷ unescape_from 0 s in
    let after = unescape_from 3 s in
    if c == 92 then elim (escaped_byte s) [ none ↦ plain | some v ↦ v ∷ after ] else plain

unfoldable pub unescape_mount_info : Bytes → Bytes
unescape_mount_info s = unescape_from 0 s

abbrev in_int64 : Bool → ℕ → Option SignedNumber
in_int64 minus n =
    if ltb n (2 ^ 63) || minus && n == 2 ^ 63
    then some (record { negative = minus; size = n })
    else none

abbrev signed_value : Bool → Bytes → Option SignedNumber
signed_value minus s =
    if is_decimal s
    then elim (digits_value 10 0 s) [ none ↦ none | some n ↦ in_int64 minus n ]
    else none

-- strconv.Atoi
unfoldable pub atoi : Bytes → Option SignedNumber
atoi [] = none
atoi (c ∷ s) =
    if c == b'-'
    then signed_value true s
    else if c == b'+'
    then signed_value false s
    else signed_value false (c ∷ s)

-- strconv.ParseUint(s, 10, 32)
abbrev parse_uint32 : Bytes → Option ℕ
parse_uint32 s = if is_decimal s then parse_decimal 32 s else none

abbrev or_error : {A : Type 0} → MountInfoError → Option A → Result MountInfoError A
or_error e none = err e
or_error e (some a) = ok a

abbrev both : Option ℕ → Option ℕ → Option (ℕ × ℕ)
both (some a) (some b) = some (a, b)
both a b = none

unfoldable pub device_of : Bytes → Option (ℕ × ℕ)
device_of s = elim (cut b':' s) [
  | none ↦ none
  | some p ↦ both (parse_uint32 p.0) (parse_uint32 p.1)
]

abbrev pub drop_two : Bytes → Bytes
drop_two (a ∷ b ∷ t) = t
drop_two t = t

-- strings.Cut at " - "
unfoldable pub cut_dash : Bytes → Option (Bytes × Bytes)
cut_dash [] = none
cut_dash (c ∷ s) =
    let rest = cut_dash s in
    if has_prefix (codes " - ") (c ∷ s)
    then some ([], drop_two s)
    else elim rest [ none ↦ none | some p ↦ some (c ∷ p.0, p.1) ]

abbrev first_or_empty : List Bytes → Bytes
first_or_empty [] = []
first_or_empty (w ∷ ws) = w

-- The fields in front of the dash and behind it.
unfoldable pub mount_of : List Bytes → List Bytes → Result MountInfoError MountInfo
mount_of (mount_id ∷ parent ∷ device ∷ root ∷ point ∷ opts ∷ optional) (fs ∷ source ∷ super) =
    or_error malformed_id (atoi mount_id) >>= λ i.
    or_error malformed_parent_id (atoi parent) >>= λ p.
    or_error malformed_device (device_of device) >>= λ d. ok (record {
      id = i;
      parent_id = p;
      major = d.0;
      minor = d.1;
      root = unescape_mount_info root;
      mount_point = unescape_mount_info point;
      options = opts;
      optional = optional;
      fs_type = fs;
      source = unescape_mount_info source;
      super_opts = first_or_empty super;
    })
mount_of a b = err malformed_line

unfoldable pub parse_mount_line : Bytes → Result MountInfoError MountInfo
parse_mount_line line = elim (cut_dash line) [
  | none ↦ err malformed_line
  | some p ↦ mount_of (fields p.0) (fields p.1)
]

-- bufio.ScanLines takes a carriage return off the end.
abbrev without_return : Bytes → Bytes
without_return line = elim (cut_suffix (13 ∷ []) line) [ none ↦ line | some s ↦ s ]

-- The scanner's buffer has 2^20 bytes, the line feed included.
unfoldable pub parse_mount_lines : List Bytes → Result MountInfoError (List MountInfo)
parse_mount_lines [] = ok []
parse_mount_lines (line ∷ lines) =
    let rest = parse_mount_lines lines in
    if leb (2 ^ 20) (length line)
    then err line_too_long
    else if null (without_return line)
    then rest
    else (parse_mount_line (without_return line) >>= λ m. rest >>= λ ms. ok (m ∷ ms))

-- `ParseMountInfo`
unfoldable pub parse_mount_info : Bytes → Result MountInfoError (List MountInfo)
parse_mount_info text = parse_mount_lines (split 10 text)

-- The components of filepath.Clean.
unfoldable pub components : Bytes → List Bytes
components p = reversed [] (clean_from (is_abs p) [] (split b'/' p))

-- filepath.Rel: what is left of the two paths behind their common components.
unfoldable pub drop_common : List Bytes → List Bytes → List Bytes × List Bytes
drop_common [] ts = ([], ts)
drop_common (b ∷ bs) [] = (b ∷ bs, [])
drop_common (b ∷ bs) (t ∷ ts) =
    let rest = drop_common bs ts in if same b t then rest else (b ∷ bs, t ∷ ts)

abbrev pub goes_up : List Bytes → Bool
goes_up [] = false
goes_up (w ∷ ws) = same w (codes "..")

abbrev pub same_kind : Bool → Bool → Bool
same_kind true b = b
same_kind false b = not b

-- The relative path starts with ".." when something of the directory is left.
unfoldable pub is_below : Bytes → Bytes → Bool
is_below path dir =
    let r = drop_common (components dir) (components path) in
    same_kind (is_abs dir) (is_abs path) && (null r.0 && not (goes_up r.1))

unfoldable pub below_clean : List MountInfo → Bytes → List MountInfo
below_clean [] dir = []
below_clean (m ∷ ms) dir =
    let rest = below_clean ms dir in
    if not (same m.mount_point dir) && is_below m.mount_point dir then m ∷ rest else rest

-- `MountsBelow`
unfoldable pub mounts_below : List MountInfo → Bytes → List MountInfo
mounts_below ms dir = below_clean ms (clean dir)
