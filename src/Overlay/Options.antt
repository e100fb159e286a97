-- ===== src/Overlay/Options.antt =====
-- internal/overlay/mounts.go: the option string of an overlay mount, and the mount flags that are
-- taken out of it. A set of MS_ flags is a function to Bool.
pub mod Layers
pub mod Words
use sysext_alpine.Base.{
  ℕ, ◌+◌, Bool, true, false, not, ◌&&◌, ◌||◌, List, [], ◌∷◌, ◌++◌, Option, none, some, Bytes, codes,
  same, leb, ◌==◌, null, map, join, cut_prefix, has_prefix, if◌then◌else◌,
}
use sysext_alpine.Release.Class.{Class, sysext, confext}

-- The flags that an option can name, and the bits of MountFlagNames besides.
pub data MountFlag : Type 0 where
  ms_rdonly ms_nosuid ms_nodev ms_noexec ms_synchronous ms_dirsync ms_silent ms_mandlock : MountFlag
  ms_noatime ms_i_version ms_nodiratime ms_relatime ms_strictatime ms_lazytime ms_nosymfollow :
      MountFlag

abbrev pub Flags : Type 0
Flags = MountFlag → Bool

abbrev flag_code : MountFlag → ℕ
flag_code ms_rdonly = 0
flag_code ms_nosuid = 1
flag_code ms_nodev = 2
flag_code ms_noexec = 3
flag_code ms_synchronous = 4
flag_code ms_dirsync = 5
flag_code ms_silent = 6
flag_code ms_mandlock = 7
flag_code ms_noatime = 8
flag_code ms_i_version = 9
flag_code ms_nodiratime = 10
flag_code ms_relatime = 11
flag_code ms_strictatime = 12
flag_code ms_lazytime = 13
flag_code ms_nosymfollow = 14

abbrev pub same_flag : MountFlag → MountFlag → Bool
same_flag f g = flag_code f == flag_code g

-- `flags | f` and `flags &^ f`
unfoldable pub with_flag : MountFlag → Flags → Flags
with_flag f flags g = same_flag f g || flags g

unfoldable pub without_flag : MountFlag → Flags → Flags
without_flag f flags g = not (same_flag f g) && flags g

-- An entry of `mountFlags`: what the option does to the flags.
pub data FlagOption : Type 0 where
  no_change : FlagOption
  sets clears : MountFlag → FlagOption

abbrev pub mount_flags : List (Bytes × FlagOption)
mount_flags =
    (codes "defaults", no_change)
    ∷ (codes "ro", sets ms_rdonly)
    ∷ (codes "rw", clears ms_rdonly)
    ∷ (codes "exec", clears ms_noexec)
    ∷ (codes "noexec", sets ms_noexec)
    ∷ (codes "suid", clears ms_nosuid)
    ∷ (codes "nosuid", sets ms_nosuid)
    ∷ (codes "dev", clears ms_nodev)
    ∷ (codes "nodev", sets ms_nodev)
    ∷ (codes "sync", sets ms_synchronous)
    ∷ (codes "async", clears ms_synchronous)
    ∷ (codes "dirsync", sets ms_dirsync)
    ∷ (codes "silent", sets ms_silent)
    ∷ (codes "loud", clears ms_silent)
    ∷ (codes "mand", sets ms_mandlock)
    ∷ (codes "nomand", clears ms_mandlock)
    ∷ (codes "atime", clears ms_noatime)
    ∷ (codes "noatime", sets ms_noatime)
    ∷ (codes "iversion", sets ms_i_version)
    ∷ (codes "noiversion", clears ms_i_version)
    ∷ (codes "diratime", clears ms_nodiratime)
    ∷ (codes "nodiratime", sets ms_nodiratime)
    ∷ (codes "relatime", sets ms_relatime)
    ∷ (codes "norelatime", clears ms_relatime)
    ∷ (codes "strictatime", sets ms_strictatime)
    ∷ (codes "nostrictatime", clears ms_strictatime)
    ∷ (codes "lazytime", sets ms_lazytime)
    ∷ (codes "nolazytime", clears ms_lazytime)
    ∷ (codes "symfollow", clears ms_nosymfollow)
    ∷ (codes "nosymfollow", sets ms_nosymfollow)
    ∷ []

unfoldable pub find_flag : List (Bytes × FlagOption) → Bytes → Option FlagOption
find_flag [] word = none
find_flag ((k, o) ∷ rest) word = if same k word then some o else find_flag rest word

unfoldable pub apply_flag : FlagOption → Flags → Flags
apply_flag no_change flags = flags
apply_flag (sets f) flags = with_flag f flags
apply_flag (clears f) flags = without_flag f flags

-- One more byte on the first word.
abbrev pub onto_word : ℕ → List Bytes → List Bytes
onto_word c [] = (c ∷ []) ∷ []
onto_word c (w ∷ ws) = (c ∷ w) ∷ ws

-- `splitOptions`: a backslash takes the byte behind it along.
unfoldable pub split_options : Bytes → List Bytes
split_options [] = [] ∷ []
split_options (c ∷ []) = if c == b',' then [] ∷ [] ∷ [] else (c ∷ []) ∷ []
split_options (c ∷ d ∷ s) =
    let escaped = onto_word c (onto_word d (split_options s)) in
    let rest = split_options (d ∷ s) in
    if c == 92 then escaped else if c == b',' then [] ∷ rest else onto_word c rest

abbrev lower : ℕ → ℕ
lower c = if leb b'A' c && leb c b'Z' then c + 32 else c

-- A word that is passed on to the file system.
abbrev pub is_data : Bytes → Bool
is_data word = not (null word || has_prefix (codes "x-") (map lower word))

abbrev pub mangle_word : Bytes → Option FlagOption → Flags × List Bytes → Flags × List Bytes
mangle_word word (some o) (flags, kept) = (apply_flag o flags, kept)
mangle_word word none (flags, kept) =
    if is_data word then (flags, kept ++ (word ∷ [])) else (flags, kept)

-- The loop over the words, with the flags and the data words so far.
unfoldable pub mangle_words : List Bytes → Flags × List Bytes → Flags × List Bytes
mangle_words [] st = st
mangle_words (word ∷ words) st =
    mangle_words words (mangle_word word (find_flag mount_flags word) st)

unfoldable pub mangle_mount_options : Bytes → Flags → Flags × Bytes
mangle_mount_options options flags =
    let r = mangle_words (split_options options) (flags, []) in (r.0, join b',' r.1)

abbrev pub needs_escape : ℕ → Bool
needs_escape c = c == 92 || c == b':' || c == b','

unfoldable pub escape_layer : Bytes → Bytes
escape_layer [] = []
escape_layer (c ∷ s) = if needs_escape c then 92 ∷ c ∷ escape_layer s else c ∷ escape_layer s

abbrev pub upper_options : Bytes → Bytes → Bytes
upper_options upper work =
    if null upper
    then []
    else codes ",upperdir=" ++ (escape_layer upper ++ (codes ",workdir=" ++ escape_layer work))

abbrev pub extra_options : Bytes → Bytes
extra_options extra = if null extra then [] else b',' ∷ extra

unfoldable pub overlay_options : List Bytes → Bytes → Bytes → Bytes → Bytes
overlay_options lowers upper work extra =
    codes "lowerdir="
    ++ (join b':' (map escape_layer lowers) ++ (upper_options upper work ++ extra_options extra))

abbrev pub mutable_mount_options : Bytes
mutable_mount_options = codes "redirect_dir=on,noatime,metacopy=off,index=off"

abbrev pub no_flags : Flags
no_flags f = false

-- NoExecDefault, NoExecOff and NoExecOn.
pub data NoExec : Type 0 where
  default off on : NoExec

abbrev class_flags : Class → Flags → Flags
class_flags confext flags = with_flag ms_noexec (with_flag ms_nosuid flags)
class_flags sysext flags = flags

abbrev noexec_flags : NoExec → Flags → Flags
noexec_flags on flags = with_flag ms_noexec flags
noexec_flags off flags = without_flag ms_noexec flags
noexec_flags default flags = flags

abbrev or_none : Option Bytes → Bytes
or_none none = []
or_none (some s) = s

abbrev or_mutable : Option Bytes → Bytes
or_mutable none = mutable_mount_options
or_mutable (some s) = s

-- `overlayMount` of internal/overlay/engine.go.
unfoldable pub overlay_mount :
    Class → NoExec → Option Bytes → List Bytes → Bytes → Bytes → Flags × Bytes
overlay_mount c noexec options lowers upper work =
    let flags =
      noexec_flags noexec (class_flags c (with_flag ms_rdonly (with_flag ms_nodev no_flags))) in
    if null upper
    then mangle_mount_options (overlay_options lowers upper work (or_none options)) flags
    else mangle_mount_options (overlay_options lowers upper work (or_mutable options))
        (without_flag ms_rdonly flags)
