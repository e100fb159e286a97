-- ===== src/Image/Table.antt =====
-- internal/image/gpt.go: reading a GPT or an MBR partition table.
-- `read off n` is ReadAt for `n` bytes at `off`: `ok` for a full read, `err none` at the end of the
-- file. CRC-32 is a parameter.
pub mod Bounds
pub mod Reads
use sysext_alpine.Base.{
  ℕ, zero, suc, ◌+◌, ◌-◌, ◌*◌, ◌/◌, ◌%◌, ◌^◌, Bool, true, false, not, ◌&&◌, ◌||◌, List, [], ◌∷◌,
  ◌++◌, Option, none, some, Result, ok, err, ◌>>=◌, ◌>>◌, refuse, Bytes, codes, same, ltb, leb,
  ◌==◌, length, take, drop, null, if◌then◌else◌, all_bytes, any,
}
use sysext_alpine.Image.Ids.{hex}
use sysext_alpine.Image.Gpt.{Partition, PartitionTable}

-- binary.LittleEndian on a whole slice
unfoldable pub le : Bytes → ℕ
le [] = 0
le (c ∷ s) = c + 256 * le s

-- Of `n` bytes at an offset.
abbrev pub le_at : ℕ → ℕ → Bytes → ℕ
le_at off n b = le (take n (drop off b))

unfoldable pub rev : Bytes → Bytes
rev [] = []
rev (c ∷ s) = rev s ++ (c ∷ [])

abbrev pub gpt_signature : Bytes
gpt_signature = codes "EFI PART"

unfoldable pub gpt_header_has_signature : Bytes → Bool
gpt_header_has_signature h =
    if ltb (length h) 92 || not (same (take 8 h) gpt_signature)
    then false
    else if not (le_at 8 4 h == 65536)
    then false
    else if ltb (le_at 12 4 h) 92 || ltb 4096 (le_at 12 4 h)
    then false
    else le_at 24 8 h == 1

-- The errors of the parsers; `E` is that of the file.
pub data TableError (E : Type 0) : Type 0 where
  no_table ambiguous_sector_size bad_sector_size too_small : TableError E
  no_header bad_header_size bad_header_crc wrong_lba bad_range : TableError E
  bad_entry_size bad_count bad_entry_lba bad_array_crc : TableError E
  unreadable : Option E → TableError E

-- The loop over the sector sizes, with the size found so far.
unfoldable pub probe_from : {E : Type 0} → List ℕ → Bytes → ℕ → Result (TableError E) ℕ
probe_from [] buf found = ok found
probe_from (sz ∷ szs) buf found =
    if not (gpt_header_has_signature (drop sz buf))
    then probe_from szs buf found
    else if not (found == 0)
    then err ambiguous_sector_size
    else probe_from szs buf sz

abbrev pub sector_sizes : List ℕ
sector_sizes = 512 ∷ 1024 ∷ 2048 ∷ 4096 ∷ []

unfoldable pub probe_buffer : {E : Type 0} → Result (Option E) Bytes → Result (TableError E) ℕ
probe_buffer (err none) = ok 0
probe_buffer (err (some e)) = err (unreadable (some e))
probe_buffer (ok buf) = probe_from sector_sizes buf 0

abbrev is_zero : Bytes → Bool
is_zero b = all_bytes (λ c. c == 0) b

-- "%08x-%04x-%04x-%04x-%012x": the first three groups are little-endian.
unfoldable pub guid_string : Bytes → Bytes
guid_string b =
    hex (rev (take 4 b))
    ++ (b'-' ∷ hex (rev (take 2 (drop 4 b))))
    ++ (b'-' ∷ hex (rev (take 2 (drop 6 b))))
    ++ (b'-' ∷ hex (take 2 (drop 8 b)))
    ++ (b'-' ∷ hex (take 6 (drop 10 b)))

-- The code units of a label, up to the first zero.
unfoldable pub label_units : Bytes → List ℕ
label_units (a ∷ b ∷ s) =
    let rest = label_units s in if a + 256 * b == 0 then [] else (a + 256 * b) ∷ rest
label_units s = []

abbrev within : ℕ → ℕ → ℕ → Bool
within lo hi c = leb lo c && leb c hi

-- utf16.Decode
unfoldable pub utf16_decode : List ℕ → List ℕ
utf16_decode [] = []
utf16_decode (u ∷ []) = (if within 55296 57343 u then 65533 else u) ∷ []
utf16_decode (u ∷ v ∷ s) =
    let next = utf16_decode (v ∷ s) in
    let after = utf16_decode s in
    if within 55296 56319 u && within 56320 57343 v
    then (65536 + (u - 55296) * 1024 + (v - 56320)) ∷ after
    else (if within 55296 57343 u then 65533 else u) ∷ next

-- A rune as UTF-8
unfoldable pub utf8_encode : ℕ → Bytes
utf8_encode r =
    if ltb r 128
    then r ∷ []
    else if ltb r 2048
    then (192 + r / 64) ∷ (128 + r % 64) ∷ []
    else if ltb r 65536
    then (224 + r / 4096) ∷ (128 + r / 64 % 64) ∷ (128 + r % 64) ∷ []
    else (240 + r / 262144) ∷ (128 + r / 4096 % 64) ∷ (128 + r / 64 % 64) ∷ (128 + r % 64) ∷ []

unfoldable pub runes_string : List ℕ → Bytes
runes_string [] = []
runes_string (r ∷ rs) = utf8_encode r ++ runes_string rs

unfoldable pub decode_gpt_label : Bytes → Bytes
decode_gpt_label b = runes_string (utf16_decode (label_units b))

-- The entry `e` of index `i`, if it is used and within the usable range.
unfoldable pub gpt_entry : ℕ → ℕ → ℕ → Bytes → Option Partition
gpt_entry i first_usable last_usable e =
    let first = le_at 32 8 e in
    let last = le_at 40 8 e in
    if is_zero (take 16 e) || ltb last first || ltb first first_usable || ltb last_usable last
    then none
    else some (record {
      part_index = i + 1;
      type_guid = guid_string (take 16 e);
      uuid = guid_string (take 16 (drop 16 e));
      mbr_type = 0;
      start = first;
      sectors = (last + 2 ^ 64 - first + 1) % 2 ^ 64;
      attrs = le_at 48 8 e;
      label = decode_gpt_label (take 72 (drop 56 e));
    })

abbrev pub cons_some : {A : Type 0} → Option A → List A → List A
cons_some none xs = xs
cons_some (some x) xs = x ∷ xs

-- The loop over `n` entries from index `i` on; `entries` is what is left of the array.
unfoldable pub gpt_entries : ℕ → ℕ → ℕ → ℕ → Bytes → List Partition
gpt_entries zero i first_usable last_usable entries = []
gpt_entries (suc n) i first_usable last_usable entries =
    cons_some (gpt_entry i first_usable last_usable (take 128 entries))
      (gpt_entries n (suc i) first_usable last_usable (drop 128 entries))

-- The header with its own checksum cleared.
unfoldable pub without_crc : Bytes → Bytes
without_crc h = take 16 h ++ (0 ∷ 0 ∷ 0 ∷ 0 ∷ drop 20 h)

-- The checks of a header; `ss` is the sector size.
unfoldable pub check_header :
    {E : Type 0} → (Bytes → ℕ) → ℕ → ℕ → ℕ → Bytes → Result (TableError E) Unit
check_header crc lba last_lba ss hdr =
    let hsz = le_at 12 4 hdr in
    refuse (not (same (take 8 hdr) gpt_signature)) no_header
    >> (refuse (ltb hsz 92 || ltb ss hsz) bad_header_size
        >> (refuse (not (crc (without_crc (take hsz hdr)) == le_at 16 4 hdr)) bad_header_crc
            >> (refuse (not (le_at 24 8 hdr == lba)) wrong_lba
                >> (refuse (ltb (le_at 48 8 hdr) (le_at 40 8 hdr) || ltb last_lba (le_at 48 8 hdr))
                      bad_range
                    >> (refuse (not (le_at 84 4 hdr == 128)) bad_entry_size
                        >> (refuse (le_at 80 4 hdr == 0 || ltb 1024 (le_at 80 4 hdr)) bad_count
                            >> refuse
                                (ltb last_lba (le_at 72 8 hdr)
                                  || ltb ((2 ^ 63 - 1) / ss) (le_at 72 8 hdr))
                                bad_entry_lba))))))

-- The offset of an entry of the DOS partition table.
abbrev mbr_entry : ℕ → Bytes → Bytes
mbr_entry i mbr = take 16 (drop (446 + 16 * i) mbr)

unfoldable pub mbr_has_protective_entry : Bytes → Bool
mbr_has_protective_entry mbr = any (λ i. le_at (446 + 16 * i + 4) 1 mbr == 238) (0 ∷ 1 ∷ 2 ∷ 3 ∷ [])

unfoldable pub mbr_partition : ℕ → Bytes → Option Partition
mbr_partition i e =
    if le_at 4 1 e == 0 || le_at 12 4 e == 0
    then none
    else some (record {
      part_index = i + 1;
      type_guid = [];
      uuid = [];
      mbr_type = le_at 4 1 e;
      start = le_at 8 4 e;
      sectors = le_at 12 4 e;
      attrs = le_at 0 1 e;
      label = [];
    })

-- The loop of `parseMBR` over the indices; `none` for an invalid boot indicator.
unfoldable pub mbr_from : List ℕ → Bytes → Option (List Partition)
mbr_from [] mbr = some []
mbr_from (i ∷ is) mbr =
    let e = mbr_entry i mbr in
    if not (le_at 0 1 e == 0) && not (le_at 0 1 e == 128)
    then none
    else elim (mbr_from is mbr) [ none ↦ none | some ps ↦ some (cons_some (mbr_partition i e) ps) ]

unfoldable pub parse_mbr : Bytes → Option (List Partition)
parse_mbr mbr = elim (mbr_from (0 ∷ 1 ∷ 2 ∷ 3 ∷ []) mbr) [
  | none ↦ none
  | some ps ↦ if null ps then none else some ps
]

module _ {E : Type 0} (read : ℕ → ℕ → Result (Option E) Bytes) (crc : Bytes → ℕ) where
  abbrev pub readable : ℕ → ℕ → Result (TableError E) Bytes
  readable off n = elim (read off n) [ ok b ↦ ok b | err e ↦ err (unreadable e) ]

  unfoldable pub parse_gpt_at : ℕ → ℕ → ℕ → Result (TableError E) (List Partition)
  parse_gpt_at lba last_lba ss = readable (lba * ss) ss >>= λ hdr.
      check_header crc lba last_lba ss hdr
      >> (readable (le_at 72 8 hdr * ss) (le_at 80 4 hdr * 128) >>= λ entries.
          refuse (not (crc entries == le_at 88 4 hdr)) bad_array_crc
          >> ok (gpt_entries (le_at 80 4 hdr) 0 (le_at 40 8 hdr) (le_at 48 8 hdr) entries))

  -- The alternate header decides only where the primary one fails.
  abbrev pub or_alternate :
      Result (TableError E) (List Partition)
      → Result (TableError E) (List Partition)
      → Result (TableError E) (List Partition)
  or_alternate (ok parts) alt = ok parts
  or_alternate (err e) (ok parts) = ok parts
  or_alternate (err e) (err f) = err e

  -- `ss&(ss-1) != 0` among 512 to 4096
  abbrev pub bad_size : ℕ → Bool
  bad_size ss = not (ss == 512 || ss == 1024 || ss == 2048 || ss == 4096)

  unfoldable pub parse_gpt : ℕ → ℕ → Result (TableError E) (List Partition)
  parse_gpt size ss =
      if bad_size ss
      then err bad_sector_size
      else if ltb (size / ss) 3
      then err too_small
      else or_alternate (parse_gpt_at 1 (size / ss - 1) ss)
          (parse_gpt_at (size / ss - 1) (size / ss - 1) ss)

  unfoldable pub probe_sector_size : Result (TableError E) ℕ
  probe_sector_size = probe_buffer (read 0 8192)

  abbrev mbr_table : Option (List Partition) → Result (TableError E) PartitionTable
  mbr_table none = err no_table
  mbr_table (some ps) = ok (record { gpt = false; sector_size = 512; partitions = ps })

  abbrev pub boot_sector : Result (Option E) Bytes → Result (TableError E) Bytes
  boot_sector (ok b) = ok b
  boot_sector (err none) = err no_table
  boot_sector (err (some e)) = err (unreadable (some e))

  unfoldable pub read_partition_table : ℕ → ℕ → Result (TableError E) PartitionTable
  read_partition_table size ss = boot_sector (read 0 512) >>= λ mbr.
      if not (le_at 510 2 mbr == 43605)
      then err no_table
      else if mbr_has_protective_entry mbr
      then (parse_gpt size ss >>= λ ps.
          ok (record { gpt = true; sector_size = ss; partitions = ps }))
      else mbr_table (parse_mbr mbr)
