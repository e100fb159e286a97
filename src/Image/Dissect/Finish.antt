-- ===== src/Image/Dissect/Finish.antt =====
-- internal/image/dissect.go, `finish` and `dissect`.
use sysext_alpine.Base.{
  refuse, Bool, true, false, not, ◌&&◌, ◌||◌, List, [], ◌∷◌, Option, none, some, Result, ok, ◌>>=◌,
  ◌>>◌, Bytes, same, null, if◌then◌else◌,
}
use sysext_alpine.Image.Designator.{
  Designator, root, usr, root_verity, usr_verity, designators, verity_hash, verity_sig,
}
use sysext_alpine.Image.Gpt.{Partition, PartitionTable}
use sysext_alpine.Image.Policy.Flags.{
  PolicyFlags, union, single, mask, no_flags, verity, signed, encrypted, encrypted_with_integrity,
  unprotected, unused, absent,
}
use sysext_alpine.Image.Policy.Parse.{Policy}
use sysext_alpine.Image.Policy.Decide.{may_use, check_protection, check_partition_flags}
use sysext_alpine.Image.Dissect.{
  Dissected, is_some, found, set_at, no_parts, VeritySettings, VeritySig, DissectError,
  no_data_partition, no_hash_partition, mixed_archs, many_generic, no_root, two_verity, split_usr,
  no_part_for_data, no_part_for_hash, no_hash_for_hash, denied_or, Progress, is_part, wanted,
  dissect_from,
}

unfoldable pub hash_part : VeritySettings → Designator
hash_part settings = if is_part settings.of_part usr then usr else root

-- The protection of a designator as the table has it.
unfoldable pub protection_of : Dissected → Designator → PolicyFlags
protection_of d x =
    if found d (some x)
    then union (mask (encrypted ∷ encrypted_with_integrity ∷ unprotected ∷ unused ∷ [])) (
        if found d (verity_hash x)
        then union (single verity) (if found d (verity_sig x) then single signed else no_flags)
        else no_flags)
    else if d.ignored x
    then single unused
    else single absent

module _ {E : Type 0} (policy : Policy) (settings : VeritySettings) where
  -- The first loop of `finish`.
  unfoldable pub check_verity : Dissected → Designator → Result (DissectError E) Unit
  check_verity d x =
      refuse (not (found d (some x)) && (found d (verity_hash x) || found d (verity_sig x)))
        no_data_partition
      >> refuse (found d (verity_sig x) && not (found d (verity_hash x))) no_hash_partition

  unfoldable pub check_archs : Dissected → Result (DissectError E) Unit
  check_archs d =
      refuse
        (found d (some root)
          && found d (some usr)
          && not (null (d.archs root))
          && not (null (d.archs usr))
          && not (same (d.archs root) (d.archs usr)))
        mixed_archs

  abbrev pub use_generic : Dissected → Option Partition → Result (DissectError E) Dissected
  use_generic d none = ok d
  use_generic d (some p) = denied_or (may_use policy root) >>= λ use_it. ok (
      if use_it
      then record d { parts = set_at root (some p) d.parts }
      else record d { ignored = set_at root true d.ignored })

  -- The generic partition as root.
  unfoldable pub pick_generic :
      Dissected → Option Partition → Bool → Result (DissectError E) Dissected
  pick_generic d g multiple =
      if not (found d (some root))
        && not (found d (some usr))
        && (null settings.root_hash || not (is_part settings.of_part usr))
      then refuse multiple many_generic >> use_generic d g
      else ok d

  unfoldable pub check_root : Dissected → Result (DissectError E) Unit
  check_root d = refuse (not (found d (some root)) && not (found d (some usr))) no_root

  unfoldable pub check_pairs : Dissected → Result (DissectError E) Unit
  check_pairs d =
      refuse (found d (some root_verity) && found d (some usr_verity)) two_verity
      >> refuse (found d (some root_verity) && found d (some usr)) split_usr

  unfoldable pub check_settings : Dissected → Result (DissectError E) Unit
  check_settings d =
      refuse (is_some settings.of_part && not (found d settings.of_part)) no_part_for_data
      >> refuse (not (null settings.root_hash) && not (found d (some (hash_part settings))))
          no_part_for_hash
      >> refuse (not (null settings.root_hash) && not (found d (verity_hash (hash_part settings))))
          no_hash_for_hash

  unfoldable pub check_designator : Dissected → Designator → Result (DissectError E) Unit
  check_designator d x =
      denied_or (check_protection policy x (protection_of d x))
      >> (if found d (some x)
          then denied_or (check_partition_flags policy x (d.gpt_flags x))
          else ok tt)

  unfoldable pub check_designators : Dissected → List Designator → Result (DissectError E) Unit
  check_designators d [] = ok tt
  check_designators d (x ∷ xs) = check_designator d x >> check_designators d xs

  unfoldable pub finish : Progress → Result (DissectError E) Dissected
  finish st =
      (check_verity st.so_far root >> (check_verity st.so_far usr >> check_archs st.so_far))
      >> (pick_generic st.so_far st.generic st.multiple >>= λ d.
          (check_root d >> (check_pairs d >> (check_settings d >> check_designators d designators)))
          >> ok d)

module _ {E : Type 0} (policy : Policy) (settings : VeritySettings) (native : Bytes)
    (read_sig : Partition → Result E VeritySig) (machine_id : Result E Bytes)
    (hmac_sha256 : Bytes → Bytes → Bytes) where
  unfoldable pub dissect : PartitionTable → Result (DissectError E) Dissected
  dissect t = wanted policy settings native read_sig machine_id hmac_sha256 >>= λ w.
      dissect_from policy settings native read_sig machine_id hmac_sha256 t.gpt w
        (record { so_far = no_parts; generic = none; multiple = false }) t.partitions
      >>= finish policy settings
