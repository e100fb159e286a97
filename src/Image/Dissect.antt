-- ===== src/Image/Dissect.antt =====
-- internal/image/dissect.go: which partition of a table serves each designator.
-- The reader of signature partitions, the machine ID and HMAC-SHA256 are parameters.
pub mod Finish
pub mod RootHash
pub mod Checks
pub mod Kept
pub mod Traced
pub mod Sound
use sysext_alpine.Base.{
  ℕ, zero, suc, ◌+◌, ◌-◌, ◌*◌, ◌/◌, ◌%◌, ◌^◌, Bool, true, false, not, ◌&&◌, ◌||◌, List, [], ◌∷◌,
  ◌++◌, Option, none, some, Result, ok, err, ◌>>=◌, ◌>>◌, Bytes, codes, same, Sign, less, equal,
  greater, ltb, leb, ◌==◌, length, take, drop, null, if◌then◌else◌,
}
use sysext_alpine.Image.Designator.{
  Designator, root, usr, home, srv, esp, xbootldr, swap, root_verity, usr_verity, root_verity_sig,
  usr_verity_sig, tmp, var, designators, verity_hash, verity_sig, verity_data, versioned, index,
}
use sysext_alpine.Image.Gpt.{
  Partition, PartitionTable, GptType, lookup_gpt_type, type_linux_generic, type_var, compare_arch,
}
use sysext_alpine.Image.Ids.{IdError, uuid_string, uuid_bytes, root_hash_uuids, app_id}
use sysext_alpine.Image.Policy.Flags.{
  PolicyFlags, union, single, mask, no_flags, verity, signed, encrypted, encrypted_with_integrity,
  unprotected, unused, absent,
}
use sysext_alpine.Image.Policy.Parse.{Policy}
use sysext_alpine.Image.Policy.Decide.{Violation, may_use, check_protection, check_partition_flags}
use sysext_alpine.Discover.Version.{compare_versions}

-- `dissected`
pub record Dissected : Type 0 where
  pub parts : Designator → Option Partition
  pub archs : Designator → Bytes
  pub gpt_flags : Designator → ℕ
  pub ignored : Designator → Bool

abbrev pub no_parts : Dissected
no_parts = record { parts = λ x. none; archs = λ x. []; gpt_flags = λ x. 0; ignored = λ x. false }

abbrev pub is_some : {A : Type 0} → Option A → Bool
is_some none = false
is_some (some a) = true

-- The designator is `none` for partInvalid.
unfoldable pub found : Dissected → Option Designator → Bool
found d none = false
found d (some x) = is_some (d.parts x)

-- One element of an array of the designators is set.
unfoldable pub set_at : {A : Type 0} → Designator → A → (Designator → A) → Designator → A
set_at x a f y = if index y == index x then a else f y

-- `veritySettings` without the external hash tree.
pub record VeritySettings : Type 0 where
  pub root_hash : Bytes
  pub sig : Bytes
  pub of_part : Option Designator

-- `veritySig`
pub record VeritySig : Type 0 where
  pub sig_root_hash : Bytes
  pub signature : Bytes

pub data DissectError (E : Type 0) : Type 0 where
  denied : Violation → DissectError E
  no_data_partition no_hash_partition mixed_archs many_generic no_root two_verity : DissectError E
  split_usr no_part_for_data no_part_for_hash no_hash_for_hash : DissectError E
  bad_id : IdError → DissectError E
  outside : E → DissectError E

abbrev pub denied_or : {E A : Type 0} → Result Violation A → Result (DissectError E) A
denied_or (ok a) = ok a
denied_or (err v) = err (denied v)

abbrev or_empty_bytes : Option Bytes → Bytes
or_empty_bytes none = []
or_empty_bytes (some b) = b

abbrev bit : ℕ → ℕ → Bool
bit n a = not (a / 2 ^ n % 2 == 0)

abbrev bad_id_or : {E A : Type 0} → Result IdError A → Result (DissectError E) A
bad_id_or (ok a) = ok a
bad_id_or (err e) = err (bad_id e)

-- The partition found so far, and the generic partition with whether there are several.
pub record Progress : Type 0 where
  pub so_far : Dissected
  pub generic : Option Partition
  pub multiple : Bool

-- The UUIDs of root, root-verity, usr, usr-verity that a root hash asks for; "" for any.
pub record Wanted : Type 0 where
  pub root_id : Bytes
  pub root_verity_id : Bytes
  pub usr_id : Bytes
  pub usr_verity_id : Bytes

abbrev any_id : Bytes → Bytes → Bool
any_id want id = null want || same want id

abbrev pub is_part : Option Designator → Designator → Bool
is_part none x = false
is_part (some y) x = index y == index x

-- `case partInvalid` and the generic partition of an MBR.
abbrev pub see_generic : Partition → Progress → Progress
see_generic p st =
    if is_some st.generic then record st { multiple = true } else record st { generic = some p }

module _ {E : Type 0} (policy : Policy) (settings : VeritySettings) (native : Bytes)
    (read_sig : Partition → Result E VeritySig) (machine_id : Result E Bytes)
    (hmac_sha256 : Bytes → Bytes → Bytes) where
  abbrev outside_or : {A : Type 0} → Result E A → Result (DissectError E) A
  outside_or (ok a) = ok a
  outside_or (err e) = err (outside e)

  abbrev wanted_for : Bytes × Bytes → Wanted
  wanted_for (a, b) =
      if is_part settings.of_part usr
      then record { root_id = []; root_verity_id = []; usr_id = a; usr_verity_id = b }
      else record { root_id = a; root_verity_id = b; usr_id = []; usr_verity_id = [] }

  unfoldable pub wanted : Result (DissectError E) Wanted
  wanted =
      if null settings.root_hash
      then ok (record { root_id = []; root_verity_id = []; usr_id = []; usr_verity_id = [] })
      else bad_id_or (root_hash_uuids settings.root_hash) >>= λ ids. ok (wanted_for ids)

  unfoldable pub var_matches : Partition → Result (DissectError E) Bool
  var_matches p = outside_or machine_id >>= λ mid.
      let mac = hmac_sha256 mid (or_empty_bytes (uuid_bytes type_var)) in
      ok (same (uuid_string (app_id 0 (take 16 mac))) p.uuid)

  -- Whether the newcomer replaces the partition in use.
  unfoldable pub replaces : Designator → GptType → Partition → Dissected → Option Partition → Bool
  replaces x typ p d none = true
  replaces x typ p d (some cur) = elim (compare_arch typ.arch (d.archs x) native) [
    | less ↦ false
    | greater ↦ true
    | equal ↦
        versioned x && elim (compare_versions p.label cur.label) [ some greater ↦ true | _ ↦ false ]
  ]

  abbrev pub ignore_part : Designator → Dissected → Dissected
  ignore_part x d =
      if is_some (d.parts x) then d else record d { ignored = set_at x true d.ignored }

  unfoldable pub consider :
      Dissected → GptType → Designator → Partition → Result (DissectError E) Dissected
  consider d typ x p = denied_or (may_use policy x) >>= λ use_it. ok (
      if not use_it
      then ignore_part x d
      else if replaces x typ p d (d.parts x)
      then (record {
        parts = set_at x (some p) d.parts;
        archs = set_at x typ.arch d.archs;
        gpt_flags = set_at x p.attrs d.gpt_flags;
        ignored = set_at x false d.ignored;
      })
      else d)

  -- The switch on the designator of a GPT partition: whether it is a candidate.
  unfoldable pub is_candidate : Wanted → Designator → Partition → Result (DissectError E) Bool
  is_candidate w esp p = ok (not (bit 1 p.attrs))
  is_candidate w root p = ok (any_id w.root_id p.uuid)
  is_candidate w usr p = ok (any_id w.usr_id p.uuid)
  is_candidate w root_verity p = ok (any_id w.root_verity_id p.uuid)
  is_candidate w usr_verity p = ok (any_id w.usr_verity_id p.uuid)
  is_candidate w root_verity_sig p =
      if null settings.root_hash
      then ok true
      else outside_or (read_sig p) >>= λ s. ok (same s.sig_root_hash settings.root_hash)
  is_candidate w usr_verity_sig p =
      if null settings.root_hash
      then ok true
      else outside_or (read_sig p) >>= λ s. ok (same s.sig_root_hash settings.root_hash)
  is_candidate w var p = var_matches p
  is_candidate w x p = ok true

  -- A verity partition of another designator than the settings name.
  unfoldable pub other_verity : Option Designator → Option Designator → Bool
  other_verity (some s) (some v) = not (index v == index s)
  other_verity s v = false

  unfoldable pub verity_data_of : Option Designator → Option Designator
  verity_data_of none = none
  verity_data_of (some x) = verity_data x

  unfoldable pub take_candidate :
      Progress → GptType → Designator → Partition → Bool → Result (DissectError E) Progress
  take_candidate st typ x p true = consider st.so_far typ x p >>= λ d. ok (record st { so_far = d })
  take_candidate st typ x p false = ok st

  unfoldable pub see_gpt :
      Wanted → Progress → GptType → Partition → Option Designator → Result (DissectError E) Progress
  see_gpt w st typ p none =
      ok (if same p.type_guid type_linux_generic then see_generic p st else st)
  see_gpt w st typ p (some x) = is_candidate w x p >>= take_candidate st typ x p

  -- The partitions that are passed over whatever their type says.
  unfoldable pub is_skipped : Partition → Option Designator → Bool
  is_skipped p o =
      same p.label (codes "_empty")
      || (bit 63 p.attrs && not (is_part o esp))
      || other_verity settings.of_part (verity_data_of o)

  unfoldable pub dissect_gpt : Wanted → Progress → Partition → Result (DissectError E) Progress
  dissect_gpt w st p =
      let typ = lookup_gpt_type p.type_guid in
      if is_skipped p typ.designator then ok st else see_gpt w st typ p typ.designator

  unfoldable pub take_xbootldr : Partition → Dissected → Bool → Dissected
  take_xbootldr p d use_it =
      if not use_it
      then ignore_part xbootldr d
      else if is_some (d.parts xbootldr)
      then d
      else record d { parts = set_at xbootldr (some p) d.parts }

  unfoldable pub dissect_mbr : Progress → Partition → Result (DissectError E) Progress
  dissect_mbr st p =
      let d = st.so_far in
      if p.mbr_type == 131
      then ok (if p.attrs == 128 then see_generic p st else st)
      else if p.mbr_type == 234
      then (denied_or (may_use policy xbootldr) >>= λ use_it.
          ok (record st { so_far = take_xbootldr p d use_it }))
      else ok st

  unfoldable pub dissect_from :
      Bool → Wanted → Progress → List Partition → Result (DissectError E) Progress
  dissect_from g w st [] = ok st
  dissect_from g w st (p ∷ ps) =
      (if g then dissect_gpt w st p else dissect_mbr st p) >>= λ st2. dissect_from g w st2 ps
