-- ===== src/Tests/Tables.antt =====
-- internal/image/gpt.go and dissect.go: theorems on partition tables and root hashes applied to
-- concrete inputs.
use sysext_alpine.Base.{
  ℕ, zero, suc, ◌/◌, ◌≡◌, refl, false, [], ◌∷◌, ◌++◌, Option, none, some, Result, ok, err, Bytes,
  codes, same, ◌==◌, All, if◌then◌else◌, arith,
}
use sysext_alpine.Image.Designator.{root, root_verity}
use sysext_alpine.Image.Ids.{hex, uuid_string, root_hash_uuids}
use sysext_alpine.Image.Gpt.{Partition}
use sysext_alpine.Image.Dissect.{Dissected, no_parts, set_at, VeritySettings, VeritySig}
use sysext_alpine.Image.Dissect.RootHash.{guess_root_hash, guess_root_hash-root_hash_uuids}
use sysext_alpine.Image.Table.{
  le, rev, gpt_signature, guid_string, label_units, utf16_decode, utf8_encode, runes_string,
  decode_gpt_label, gpt_entry, gpt_entries, without_crc, check_header, parse_gpt_at, parse_gpt,
}
use sysext_alpine.Image.Table.Bounds.{IsWithin, parse_gpt-IsWithin}
use sysext_alpine.Image.Table.Reads.{int64_reads, parse_gpt-int64_reads}

abbrev copies : ℕ → ℕ → Bytes
copies zero c = []
copies (suc n) c = c ∷ copies n c

-- A number of eight bytes below 256.
abbrev eight : ℕ → Bytes
eight n = n ∷ copies 7 0

-- A header of a table with one entry at sector 2, for usable sectors 3 to 6.
abbrev one_header : Bytes
one_header =
    gpt_signature
    ++ ((0 ∷ 0 ∷ 1 ∷ 0 ∷ 92 ∷ 0 ∷ 0 ∷ 0 ∷ copies 8 0)
        ++ (eight 1
            ++ (eight 7
                ++ (eight 3
                    ++ (eight 6
                        ++ (copies 16 0
                            ++ (eight 2 ++ (1 ∷ 0 ∷ 0 ∷ 0 ∷ 128 ∷ 0 ∷ 0 ∷ 0 ∷ copies 424 0))))))))

abbrev one_entry : Bytes
one_entry =
    copies 16 1 ++ (copies 16 2 ++ (eight 4 ++ (eight 6 ++ (eight 0 ++ (b'r' ∷ 0 ∷ copies 70 0)))))

abbrev one_image : ℕ → ℕ → Result (Option Unit) Bytes
one_image off n =
    if off == 512 then ok one_header else if off == 1024 then ok one_entry else err none

abbrev no_crc : Bytes → ℕ
no_crc b = 0

abbrev first_part : Partition
first_part = record {
  part_index = 1;
  type_guid = codes "01010101-0101-0101-0101-010101010101";
  uuid = codes "02020202-0202-0202-0202-020202020202";
  mbr_type = 0;
  start = 4;
  sectors = 3;
  attrs = 0;
  label = codes "r";
}

one_is_parsed : parse_gpt one_image no_crc 4096 512 ≡ ok (first_part ∷ [])
unfolding parse_gpt parse_gpt_at check_header gpt_entries gpt_entry without_crc guid_string
    decode_gpt_label label_units utf16_decode utf8_encode runes_string le rev hex same
one_is_parsed = refl

parse_gpt-IsWithin_example : All (IsWithin (4096 / 512)) (first_part ∷ [])
parse_gpt-IsWithin_example =
    parse_gpt-IsWithin one_image no_crc 4096 512 (first_part ∷ []) (omega arith) one_is_parsed

parse_gpt-int64_reads_example :
    parse_gpt (int64_reads one_image) no_crc 4096 512 ≡ parse_gpt one_image no_crc 4096 512
parse_gpt-int64_reads_example = parse_gpt-int64_reads one_image no_crc 4096 512 (omega arith)

abbrev with_verity : Dissected
with_verity = record {
  parts =
      set_at root_verity (some (record first_part { uuid = uuid_string (copies 16 7) })) (
        set_at root (some (record first_part { uuid = uuid_string (copies 16 2) })) no_parts.parts);
  archs = no_parts.archs;
  gpt_flags = no_parts.gpt_flags;
  ignored = no_parts.ignored;
}

abbrev unset : VeritySettings
unset = record { root_hash = []; sig = []; of_part = none }

abbrev unreadable_sig : Partition → Result Unit VeritySig
unreadable_sig p = err tt

guess_root_hash-root_hash_uuids_example :
    (guess_root_hash unreadable_sig false unset with_verity
      ≡ ok (record unset { root_hash = copies 16 2 ++ copies 16 7; of_part = some root }))
    × (root_hash_uuids (copies 16 2 ++ copies 16 7)
        ≡ ok (uuid_string (copies 16 2), uuid_string (copies 16 7)))
unfolding set_at uuid_string hex same
guess_root_hash-root_hash_uuids_example =
    guess_root_hash-root_hash_uuids unreadable_sig unset with_verity
      (record first_part { uuid = uuid_string (copies 16 2) })
      (record first_part { uuid = uuid_string (copies 16 7) }) (copies 16 2) (copies 16 7) refl refl
      refl refl refl refl refl refl (omega arith) (omega arith) refl refl
