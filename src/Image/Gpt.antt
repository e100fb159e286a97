-- ===== src/Image/Gpt.antt =====
-- internal/image/gpt.go, the partition types and the order of architectures.
pub mod Types
use sysext_alpine.Base.{
  ℕ, Bool, true, false, List, [], ◌∷◌, ◌++◌, Option, none, some, Bytes, codes, same, Sign, less,
  equal, greater, null, if◌then◌else◌,
}
use sysext_alpine.Image.Designator.{
  Designator, root, usr, home, srv, esp, xbootldr, swap, root_verity, usr_verity, root_verity_sig,
  usr_verity_sig, tmp, var,
}
use sysext_alpine.Image.Gpt.Types.{ArchTypes, arch_partition_types}

-- `partition`
pub record Partition : Type 0 where
  pub part_index : ℕ
  pub type_guid : Bytes
  pub uuid : Bytes
  pub mbr_type : ℕ
  pub start : ℕ
  pub sectors : ℕ
  pub attrs : ℕ
  pub label : Bytes

-- `partitionTable`
pub record PartitionTable : Type 0 where
  pub gpt : Bool
  pub sector_size : ℕ
  pub partitions : List Partition

-- `gptType`; the designator is `none` for partInvalid.
pub record GptType : Type 0 where
  pub designator : Option Designator
  pub arch : Bytes

abbrev plain_type : Designator → GptType
plain_type d = record { designator = some d; arch = [] }

abbrev pub type_linux_generic : Bytes
type_linux_generic = codes "0fc63daf-8483-4772-8e79-3d69d8477de4"

abbrev pub type_var : Bytes
type_var = codes "4d21b016-b534-45c2-a9fb-5c16e091fd2d"

abbrev plain_types : List (Bytes × GptType)
plain_types =
    (codes "c12a7328-f81f-11d2-ba4b-00a0c93ec93b", plain_type esp)
    ∷ (codes "bc13c2ff-59e6-4262-a352-b275fd6f7172", plain_type xbootldr)
    ∷ (codes "0657fd6d-a4ab-43c4-84e5-0933c84b4f4f", plain_type swap)
    ∷ (codes "933ac7e1-2eb4-4f13-b844-0e14e2aef915", plain_type home)
    ∷ (codes "3b8f8425-20e0-4f3b-907f-1a25a76f98e8", plain_type srv)
    ∷ (type_var, plain_type var)
    ∷ (codes "7ec6f557-3bc5-4aca-b293-16ef5df639d1", plain_type tmp)
    ∷ []

abbrev sextet : List Designator
sextet = root ∷ root_verity ∷ root_verity_sig ∷ usr ∷ usr_verity ∷ usr_verity_sig ∷ []

unfoldable pub types_of : Bytes → List Designator → List Bytes → List (Bytes × GptType)
types_of a (d ∷ ds) (g ∷ gs) = (g, record { designator = some d; arch = a }) ∷ types_of a ds gs
types_of a ds gs = []

unfoldable pub all_types_of : List ArchTypes → List (Bytes × GptType)
all_types_of [] = []
all_types_of (a ∷ rest) = types_of a.arch_name sextet a.types ++ all_types_of rest

-- `buildGPTTypes`, the entries in the order in which they are written.
unfoldable pub gpt_types : List (Bytes × GptType)
gpt_types = plain_types ++ all_types_of arch_partition_types

-- A later entry of the map replaces an earlier one.
unfoldable pub find_type : List (Bytes × GptType) → Option GptType → Bytes → Option GptType
find_type [] seen g = seen
find_type ((k, t) ∷ m) seen g = find_type m (if same k g then some t else seen) g

abbrev type_or_invalid : Option GptType → GptType
type_or_invalid (some t) = t
type_or_invalid none = record { designator = none; arch = [] }

unfoldable pub lookup_gpt_type : Bytes → GptType
lookup_gpt_type g = type_or_invalid (find_type gpt_types none g)

unfoldable pub secondary_arch : Bytes → Bytes
secondary_arch native =
    if same native (codes "x86-64")
    then codes "x86"
    else if same native (codes "arm64")
    then codes "arm"
    else if same native (codes "s390x")
    then codes "s390"
    else if same native (codes "ppc64")
    then codes "ppc"
    else if same native (codes "ppc64-le")
    then codes "ppc-le"
    else []

unfoldable pub compare_arch : Bytes → Bytes → Bytes → Sign
compare_arch a b native =
    if same a b
    then equal
    else if same a native
    then greater
    else if same b native
    then less
    else if null (secondary_arch native)
    then equal
    else if same a (secondary_arch native)
    then greater
    else if same b (secondary_arch native)
    then less
    else equal
