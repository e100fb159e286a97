-- ===== src/Image/Policy/Flags.antt =====
-- internal/image/policy.go, the bit set `policyFlags` and its text form.
-- A bit set is the function of its bits; `flag_bit` has the position of each.
pub mod Laws
use sysext_alpine.Base.{
  ℕ, Bool, true, false, not, ◌&&◌, ◌||◌, List, [], ◌∷◌, ◌++◌, Option, none, some, Bytes, codes,
  same, ◌==◌, if◌then◌else◌, any, null, join,
}

pub data PolicyFlag : Type 0 where
  verity signed encrypted encrypted_with_integrity unprotected unused absent : PolicyFlag
  read_only_off read_only_on grow_fs_off grow_fs_on : PolicyFlag
  btrfs erofs ext4 f2fs squashfs vfat xfs : PolicyFlag

abbrev pub flag_bit : PolicyFlag → ℕ
flag_bit verity = 0
flag_bit signed = 1
flag_bit encrypted = 2
flag_bit encrypted_with_integrity = 3
flag_bit unprotected = 4
flag_bit unused = 5
flag_bit absent = 6
flag_bit read_only_off = 7
flag_bit read_only_on = 8
flag_bit grow_fs_off = 9
flag_bit grow_fs_on = 10
flag_bit btrfs = 11
flag_bit erofs = 12
flag_bit ext4 = 13
flag_bit f2fs = 14
flag_bit squashfs = 15
flag_bit vfat = 16
flag_bit xfs = 17

abbrev pub PolicyFlags : Type 0
PolicyFlags = PolicyFlag → Bool

-- `1 << iota`
abbrev pub single : PolicyFlag → PolicyFlags
single f x = flag_bit f == flag_bit x

-- `0`
abbrev pub no_flags : PolicyFlags
no_flags x = false

-- `a | b`
abbrev pub union : PolicyFlags → PolicyFlags → PolicyFlags
union a b x = a x || b x

-- `f & m`
abbrev pub inter : PolicyFlags → PolicyFlags → PolicyFlags
inter f m x = m x && f x

-- `f &^ m`
abbrev pub minus : PolicyFlags → PolicyFlags → PolicyFlags
minus f m x = not (m x) && f x

abbrev pub all_flags : List PolicyFlag
all_flags =
    verity ∷ signed ∷ encrypted ∷ encrypted_with_integrity ∷ unprotected ∷ unused ∷ absent
    ∷ read_only_off ∷ read_only_on ∷ grow_fs_off ∷ grow_fs_on ∷ btrfs ∷ erofs ∷ ext4 ∷ f2fs
    ∷ squashfs ∷ vfat ∷ xfs ∷ []

-- `f != 0`
abbrev pub non_zero : PolicyFlags → Bool
non_zero f = any f all_flags

abbrev pub differ : Bool → Bool → Bool
differ true b = not b
differ false b = b

-- `f == g`
abbrev pub eq_flags : PolicyFlags → PolicyFlags → Bool
eq_flags f g = not (any (λ x. differ (g x) (f x)) all_flags)

-- The union of the listed bits.
abbrev pub mask : List PolicyFlag → PolicyFlags
mask l x = any (λ f. single f x) l

abbrev pub pol_open : PolicyFlags
pol_open =
    mask
      (verity ∷ signed ∷ encrypted ∷ encrypted_with_integrity ∷ unprotected ∷ unused ∷ absent ∷ [])

abbrev pub pol_ignore : PolicyFlags
pol_ignore = mask (unused ∷ absent ∷ [])

abbrev pub use_mask : PolicyFlags
use_mask = pol_open

abbrev pub read_only_mask : PolicyFlags
read_only_mask = mask (read_only_off ∷ read_only_on ∷ [])

abbrev pub grow_fs_mask : PolicyFlags
grow_fs_mask = mask (grow_fs_off ∷ grow_fs_on ∷ [])

abbrev pub pflags_mask : PolicyFlags
pflags_mask = union read_only_mask grow_fs_mask

abbrev pub fs_type_mask : PolicyFlags
fs_type_mask = mask (btrfs ∷ erofs ∷ ext4 ∷ f2fs ∷ squashfs ∷ vfat ∷ xfs ∷ [])

abbrev pub FlagName : Type 0
FlagName = PolicyFlag × Bytes

-- `policyFlagNames[:7]`
abbrev pub use_names : List FlagName
use_names =
    (verity, codes "verity")
    ∷ (signed, codes "signed")
    ∷ (encrypted, codes "encrypted")
    ∷ (encrypted_with_integrity, codes "encryptedwithintegrity")
    ∷ (unprotected, codes "unprotected")
    ∷ (unused, codes "unused")
    ∷ (absent, codes "absent")
    ∷ []

-- `policyFlagNames[7:11]`
abbrev pub pflag_names : List FlagName
pflag_names =
    (read_only_on, codes "read-only-on")
    ∷ (read_only_off, codes "read-only-off")
    ∷ (grow_fs_on, codes "growfs-on")
    ∷ (grow_fs_off, codes "growfs-off")
    ∷ []

-- `policyFlagNames[11:]`
abbrev pub fs_names : List FlagName
fs_names =
    (btrfs, codes "btrfs")
    ∷ (erofs, codes "erofs")
    ∷ (ext4, codes "ext4")
    ∷ (f2fs, codes "f2fs")
    ∷ (squashfs, codes "squashfs")
    ∷ (vfat, codes "vfat")
    ∷ (xfs, codes "xfs")
    ∷ []

abbrev pub policy_flag_names : List FlagName
policy_flag_names = use_names ++ pflag_names ++ fs_names

find_flag : Bytes → List FlagName → Option PolicyFlags
unfolding same
find_flag s [] = none
find_flag s ((f, name) ∷ names) = if same name s then some (single f) else find_flag s names

unfoldable pub policy_flag_from_string : Bytes → Option PolicyFlags
unfolding find_flag same
policy_flag_from_string s =
    if same s (codes "open")
    then some pol_open
    else if same s (codes "ignore")
    then some pol_ignore
    else find_flag s policy_flag_names

-- The names of the flags that are set, in the order of the table.
unfoldable pub set_names : PolicyFlags → List FlagName → List Bytes
set_names f [] = []
set_names f ((x, name) ∷ names) =
    let rest = set_names f names in if non_zero (inter f (single x)) then name ∷ rest else rest

unfoldable pub use_words : PolicyFlags → List Bytes
unfolding set_names
use_words f =
    if eq_flags (inter f use_mask) pol_open
    then codes "open" ∷ []
    else if eq_flags (inter f use_mask) pol_ignore
    then codes "ignore" ∷ []
    else set_names f use_names

-- One of a pair of opposite flags, when exactly one is set.
unfoldable pub pair_words : PolicyFlags → PolicyFlag → Bytes → PolicyFlag → Bytes → List Bytes
pair_words f on on_name off off_name =
    let has_on = non_zero (inter f (single on)) in
    let has_off = non_zero (inter f (single off)) in
    if differ (not has_on) (not has_off) then (if has_on then on_name else off_name) ∷ [] else []

unfoldable pub flag_words : PolicyFlags → List Bytes
unfolding use_words pair_words
flag_words f =
    use_words f
    ++ (pair_words f read_only_on (codes "read-only-on") read_only_off (codes "read-only-off")
        ++ (pair_words f grow_fs_on (codes "growfs-on") grow_fs_off (codes "growfs-off")
            ++ set_names f fs_names))

-- `policyFlags.String`
unfoldable pub flags_string : PolicyFlags → Bytes
unfolding flag_words join
flags_string f = if null (flag_words f) then codes "-" else join b'+' (flag_words f)
