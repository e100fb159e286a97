-- ===== src/Overlay/Origin.antt =====
-- internal/overlay/origin.go: the origin document of a merge, printed as JSON. A member of Images is
-- the pair of a name and an identity; a number is its decimal text.
pub mod Text
use sysext_alpine.Base.{
  ℕ, ◌+◌, ◌/◌, ◌%◌, ◌||◌, List, [], ◌∷◌, ◌++◌, Option, none, some, Bytes, codes, same, ltb, ◌==◌,
  null, cut_prefix, has_prefix, decimal, SignedNumber, signed_decimal, if◌then◌else◌,
}

-- `jsonNode` and `jsonField`
mutual
  pub data JsonNode : Type 0 where
    jstr jnum : Bytes → JsonNode
    jobj : JsonFields → JsonNode

  pub data JsonFields : Type 0 where
    no_fields : JsonFields
    field : Bytes → JsonNode → JsonFields → JsonFields

-- A file handle: its type and its bytes.
abbrev pub Handle : Type 0
Handle = Bytes × Bytes

-- `imageIdentity`
pub record ImageIdentity : Type 0 where
  pub path : Bytes
  pub verity_hash : Bytes
  pub mount_id : ℕ
  pub handle : Option Handle
  pub inode : ℕ
  pub cr_time : SignedNumber
  pub m_time : SignedNumber

-- `origin`
pub record Origin : Type 0 where
  pub mode : Bytes
  pub mutable_dirs : List (Bytes × Bytes)
  pub mount_options : Bytes
  pub images : List (Bytes × ImageIdentity)

abbrev pub hex_digit : ℕ → ℕ
hex_digit n = if ltb n 10 then b'0' + n else 87 + n

-- hex.EncodeToString
unfoldable pub hex_text : Bytes → Bytes
hex_text [] = []
hex_text (c ∷ s) = hex_digit (c / 16) ∷ hex_digit (c % 16) ∷ hex_text s

abbrev handle_field : ImageIdentity → Option Handle → JsonFields → JsonFields
handle_field id (some (kind, bytes)) rest =
    field (codes "fileHandle")
      (jobj (
        field (codes "type") (jnum kind)
          (field (codes "handle") (jstr (hex_text bytes)) no_fields)))
      rest
handle_field id none rest = field (codes "inode") (jnum (decimal id.inode)) rest

abbrev weak_fields : ImageIdentity → JsonFields
weak_fields id = field (codes "onMountId") (jnum (decimal id.mount_id)) (
    handle_field id id.handle (
      field (codes "crtime") (jnum (signed_decimal id.cr_time))
        (field (codes "mtime") (jnum (signed_decimal id.m_time)) no_fields)))

unfoldable pub identity_tree : ImageIdentity → JsonNode
identity_tree id = jobj (
    field (codes "path") (jstr id.path) (
      if null id.verity_hash
      then weak_fields id
      else field (codes "verityHash") (jstr id.verity_hash) no_fields))

unfoldable pub dir_fields : List (Bytes × Bytes) → JsonFields
dir_fields [] = no_fields
dir_fields ((h, d) ∷ rest) = field h (jstr d) (dir_fields rest)

unfoldable pub image_fields : List (Bytes × ImageIdentity) → JsonFields
image_fields [] = no_fields
image_fields ((name, id) ∷ rest) = field name (identity_tree id) (image_fields rest)

abbrev mutable_fields : List (Bytes × Bytes) → JsonFields
mutable_fields [] = no_fields
mutable_fields (d ∷ ds) = field (codes "mutableDirs") (jobj (dir_fields (d ∷ ds))) no_fields

abbrev extension_fields : List (Bytes × ImageIdentity) → JsonFields
extension_fields [] = no_fields
extension_fields (i ∷ is) = field (codes "extensions") (jobj (image_fields (i ∷ is))) no_fields

unfoldable pub origin_tree : Origin → JsonNode
origin_tree o =
    let extensions = extension_fields o.images in
    jobj (
      field (codes "mutable")
        (jobj (field (codes "mode") (jstr o.mode) (mutable_fields o.mutable_dirs)))
        (if null o.mount_options
          then extensions
          else field (codes "mountOptions") (jstr o.mount_options) extensions))

-- A byte of a string
unfoldable pub json_byte : ℕ → Bytes
json_byte c =
    if c == b'"'
    then codes "\\\""
    else if c == 92
    then codes "\\\\"
    else if c == 8
    then codes "\\b"
    else if c == 12
    then codes "\\f"
    else if c == 10
    then codes "\\n"
    else if c == 13
    then codes "\\r"
    else if c == 9
    then codes "\\t"
    else if ltb c 32
    then codes "\\u00" ++ (hex_digit (c / 16) ∷ hex_digit (c % 16) ∷ [])
    else c ∷ []

unfoldable pub json_bytes : Bytes → Bytes
json_bytes [] = []
json_bytes (c ∷ s) = json_byte c ++ json_bytes s

unfoldable pub format_json_string : Bytes → Bytes
format_json_string s = b'"' ∷ (json_bytes s ++ (b'"' ∷ []))

-- `formatJSON`; the fields are those behind the first one.
unfoldable mutual
  pub format_json : JsonNode → Bytes → Bytes
  format_json (jstr s) prefix = format_json_string s
  format_json (jnum n) prefix = n
  format_json (jobj no_fields) prefix = codes "{}"
  format_json (jobj (field key value rest)) prefix =
      let inner = prefix ++ (9 ∷ []) in
      codes "{\n"
      ++ (inner
          ++ (format_json_string key
              ++ (codes " : "
                  ++ (format_json value inner
                      ++ (format_fields rest inner ++ (10 ∷ (prefix ++ (b'}' ∷ []))))))))

  pub format_fields : JsonFields → Bytes → Bytes
  format_fields no_fields inner = []
  format_fields (field key value rest) inner =
      codes ",\n"
      ++ (inner
          ++ (format_json_string key
              ++ (codes " : " ++ (format_json value inner ++ format_fields rest inner))))

unfoldable pub origin_text : Origin → Bytes
origin_text o = format_json (origin_tree o) [] ++ (10 ∷ [])

abbrev root_stripped : Bytes → Option Bytes → Bytes → Bytes
root_stripped path none next = next
root_stripped path (some rest) next = if has_prefix (codes "/") rest then rest else next

-- `pathWithoutRoot`
unfoldable pub path_without_root : Bytes → List Bytes → Bytes
path_without_root path [] = path
path_without_root path (root ∷ roots) =
    let next = path_without_root path roots in
    if null root || same root (codes "/")
    then next
    else root_stripped path (cut_prefix root path) next
