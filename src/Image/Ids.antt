-- ===== src/Image/Ids.antt =====
-- internal/image/dissect.go, UUIDs and the root hash they are cut from.
pub mod Laws
use sysext_alpine.Base.{
  ℕ, suc, ◌+◌, ◌-◌, ◌*◌, ◌/◌, ◌%◌, ◌&&◌, ◌||◌, [], ◌∷◌, ◌++◌, Option, none, some, Result, ok, err,
  Bytes, codes, same, ltb, leb, ◌==◌, length, take, drop, if◌then◌else◌,
}

abbrev pub hex_digit : ℕ → ℕ
hex_digit n = if ltb n 10 then b'0' + n else b'a' + (n - 10)

unfoldable pub hex : Bytes → Bytes
hex [] = []
hex (c ∷ s) = hex_digit (c / 16) ∷ hex_digit (c % 16) ∷ hex s

unfoldable pub uuid_string : Bytes → Bytes
uuid_string b =
    let h = hex b in
    take 8 h
    ++ (b'-' ∷ take 4 (drop 8 h))
    ++ (b'-' ∷ take 4 (drop 12 h))
    ++ (b'-' ∷ take 4 (drop 16 h))
    ++ (b'-' ∷ take 12 (drop 20 h))

abbrev pub hex_value : ℕ → Option ℕ
hex_value c =
    if leb b'0' c && leb c b'9'
    then some (c - b'0')
    else if leb b'a' c && leb c b'f'
    then some (10 + (c - b'a'))
    else if leb b'A' c && leb c b'F'
    then some (10 + (c - b'A'))
    else none

abbrev pub joined_byte : Option ℕ → Option ℕ → Option Bytes → Option Bytes
joined_byte (some a) (some b) (some s) = some ((a * 16 + b) ∷ s)
joined_byte x y z = none

unfoldable pub unhex : Bytes → Option Bytes
unhex [] = some []
unhex (c ∷ []) = none
unhex (c ∷ e ∷ s) = joined_byte (hex_value c) (hex_value e) (unhex s)

unfoldable pub without_dashes : Bytes → Bytes
without_dashes [] = []
without_dashes (c ∷ s) = let rest = without_dashes s in if c == b'-' then rest else c ∷ rest

abbrev pub sized_id : Option Bytes → Option Bytes
sized_id none = none
sized_id (some b) = if length b == 16 then some b else none

unfoldable pub uuid_bytes : Bytes → Option Bytes
uuid_bytes s = sized_id (unhex (without_dashes s))

abbrev pub zero_id : Bytes
zero_id = codes "00000000-0000-0000-0000-000000000000"

-- The errors of `rootHashUUIDs`.
pub data IdError : Type 0 where
  hash_too_short zero_uuid : IdError

unfoldable pub root_hash_uuids : Bytes → Result IdError (Bytes × Bytes)
root_hash_uuids h =
    let data_id = uuid_string (take 16 h) in
    let verity_id = uuid_string (drop (length h - 16) h) in
    if ltb (length h) 16
    then err hash_too_short
    else if same data_id zero_id || same verity_id zero_id
    then err zero_uuid
    else ok (data_id, verity_id)

-- The id[6], id[8] of `varMatches`.
unfoldable pub app_id : ℕ → Bytes → Bytes
app_id n [] = []
app_id n (c ∷ s) =
    (if n == 6 then c % 16 + 64 else if n == 8 then c % 64 + 128 else c) ∷ app_id (suc n) s
