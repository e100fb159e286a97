-- ===== src/Service/Cmdline.antt =====
-- internal/service/cmdline.go: the words of the kernel command line. The environment, the process ID
-- and the files are parameters.
use sysext_alpine.Base.{
  ℕ, Bool, true, false, not, ◌&&◌, ◌||◌, List, [], ◌∷◌, ◌++◌, Option, none, some, Bytes, codes,
  ◌==◌, null, any, split, cut_prefix, has_prefix, if◌then◌else◌,
}
use sysext_alpine.Release.EnvFile.{parse_boolean}

-- The state of the loop of `splitCmdline`; `quote` is 0 outside quotes.
pub record Words : Type 0 where
  pub words : List Bytes
  pub word : Bytes
  pub in_word : Bool
  pub quote : ℕ

abbrev no_words : Words
no_words = record { words = []; word = []; in_word = false; quote = 0 }

abbrev add_byte : ℕ → Words → Words
add_byte c w = record w { word = w.word ++ (c ∷ []); in_word = true }

abbrev end_word : Words → Words
end_word w =
    if w.in_word
    then record w { words = w.words ++ (w.word ∷ []); word = []; in_word = false }
    else w

abbrev is_blank : ℕ → Bool
is_blank c = c == 32 || (c == 9 || (c == 10 || c == 13))

-- A byte within quotes
abbrev quoted_byte : ℕ → Words → Words
quoted_byte c w =
    if c == w.quote then record w { quote = 0 } else record w { word = w.word ++ (c ∷ []) }

abbrev plain_byte : ℕ → Words → Words
plain_byte c w =
    if c == 39 || c == b'"'
    then record w { quote = c; in_word = true }
    else if is_blank c
    then end_word w
    else add_byte c w

abbrev one_byte : ℕ → Words → Words
one_byte c w = if w.quote == 0 then plain_byte c w else quoted_byte c w

-- A backslash outside quotes takes the next byte along.
unfoldable pub split_words : Bytes → Words → Words
split_words [] w = w
split_words (c ∷ []) w = one_byte c w
split_words (c ∷ d ∷ s) w =
    let both = split_words s (add_byte d (add_byte c w)) in
    let rest = split_words (d ∷ s) (one_byte c w) in if w.quote == 0 && c == 92 then both else rest

unfoldable pub split_cmdline : Bytes → List Bytes
split_cmdline s = (end_word (split_words s no_words)).words

abbrev same_key_byte : ℕ → ℕ → Bool
same_key_byte a b = a == b || (a == b'-' && b == b'_' || a == b'_' && b == b'-')

-- `cmdlineKeyPrefix`
unfoldable pub cmdline_key_prefix : Bytes → Bytes → Option Bytes
cmdline_key_prefix word [] = some word
cmdline_key_prefix [] (k ∷ key) = none
cmdline_key_prefix (c ∷ word) (k ∷ key) =
    let rest = cmdline_key_prefix word key in if same_key_byte c k then rest else none

abbrev value_behind : Option Bytes → Option Bytes → Option Bytes
value_behind none last = last
value_behind (some value) last = some value

abbrev value_of : Option Bytes → Option Bytes → Option Bytes
value_of none last = last
value_of (some rest) last = value_behind (cut_prefix (codes "=") rest) last

-- The loop of `CmdlineBool`, with the value so far.
unfoldable pub last_value : List Bytes → Bytes → Bool → Option Bytes → Option Bytes
last_value [] key in_initrd last = last
last_value (w ∷ ws) key in_initrd last = last_value ws key in_initrd (
    if has_prefix (codes "rd.") w && not in_initrd
    then last
    else value_of (cmdline_key_prefix w key) last)

abbrev bool_of : Option Bytes → Option Bool
bool_of none = some true
bool_of (some value) = parse_boolean value

-- `CmdlineBool`: `none` is EINVAL.
unfoldable pub cmdline_bool : List Bytes → Bytes → Bool → Option Bool
cmdline_bool words key in_initrd = bool_of (last_value words key in_initrd none)

pub data ArgType : Type 0 where
  no_argument required_argument optional_argument : ArgType

abbrev pub pid1_options : List (Bytes × ArgType)
pid1_options =
    (codes "log-level", required_argument)
    ∷ (codes "log-target", required_argument)
    ∷ (codes "log-color", optional_argument)
    ∷ (codes "log-location", optional_argument)
    ∷ (codes "log-time", optional_argument)
    ∷ (codes "unit", required_argument)
    ∷ (codes "system", no_argument)
    ∷ (codes "user", no_argument)
    ∷ (codes "test", no_argument)
    ∷ (codes "no-pager", no_argument)
    ∷ (codes "help", no_argument)
    ∷ (codes "version", no_argument)
    ∷ (codes "introspect-cli", no_argument)
    ∷ (codes "dump-configuration-items", no_argument)
    ∷ (codes "dump-bus-properties", no_argument)
    ∷ (codes "bus-introspect", required_argument)
    ∷ (codes "dump-core", optional_argument)
    ∷ (codes "crash-chvt", required_argument)
    ∷ (codes "crash-vt", required_argument)
    ∷ (codes "crash-shell", optional_argument)
    ∷ (codes "crash-reboot", optional_argument)
    ∷ (codes "crash-action", required_argument)
    ∷ (codes "confirm-spawn", optional_argument)
    ∷ (codes "show-status", optional_argument)
    ∷ (codes "deserialize", required_argument)
    ∷ (codes "switched-root", no_argument)
    ∷ (codes "default-standard-output", required_argument)
    ∷ (codes "default-standard-error", required_argument)
    ∷ (codes "machine-id", required_argument)
    ∷ (codes "service-watchdogs", required_argument)
    ∷ (codes "exit-code", required_argument)
    ∷ (codes "timeout", required_argument)
    ∷ []

-- An option matches by its name or by its name and a value.
abbrev tail_matches : Option Bytes → Bool
tail_matches none = false
tail_matches (some []) = true
tail_matches (some (c ∷ q)) = c == b'='

abbrev waits_for : Option Bytes → ArgType → ArgType
waits_for (some []) required_argument = required_argument
waits_for q a = no_argument

-- The argument that is still to come behind a long option.
unfoldable pub long_state : Bytes → List (Bytes × ArgType) → ArgType
long_state long [] = no_argument
long_state long ((name, has_arg) ∷ rest) =
    let next = long_state long rest in
    let q = cut_prefix name long in if tail_matches q then waits_for q has_arg else next

-- Short options: of `pid1ShortOptions` only z takes an argument, which is required.
unfoldable pub short_state : Bytes → ArgType
short_state [] = no_argument
short_state (c ∷ s) =
    let rest = short_state s in
    if c == b'z' then (if null s then required_argument else no_argument) else rest

abbrev is_taken : ArgType → Bytes → Bool
is_taken no_argument a = false
is_taken required_argument a = true
is_taken optional_argument a = not (has_prefix (codes "-") a)

abbrev behind_dash : Bytes → Bytes
behind_dash [] = []
behind_dash (c ∷ s) = s

-- An argument that begins with a dash; two dashes end the options.
abbrev option_rest : Bytes → Option Bytes → List Bytes → (ArgType → List Bytes) → List Bytes
option_rest a none rest next = next (short_state (behind_dash a))
option_rest a (some []) rest next = rest
option_rest a (some (c ∷ long)) rest next = next (long_state (c ∷ long) pid1_options)

-- The loop of `filterPID1Args`; `prev` is what the argument before waits for.
unfoldable pub filter_args : List Bytes → ArgType → List Bytes
filter_args [] prev = []
filter_args (a ∷ rest) prev =
    let plain = filter_args rest no_argument in
    let behind = option_rest a (cut_prefix (codes "--") a) rest (filter_args rest) in
    if is_taken prev a then plain else if not (has_prefix (codes "-") a) then a ∷ plain else behind

unfoldable pub filter_pid1_args : List Bytes → List Bytes
filter_pid1_args [] = []
filter_pid1_args (a ∷ args) = filter_args args no_argument

-- strings.TrimRight of NUL bytes
unfoldable pub trim_nuls : Bytes → Bytes
trim_nuls [] = []
trim_nuls (c ∷ s) = let rest = trim_nuls s in if c == 0 && null rest then [] else c ∷ rest

unfoldable pub split_nulstr : Bytes → List Bytes
split_nulstr data_bytes = let s = trim_nuls data_bytes in if null s then [] else split 0 s

-- What a file holds: `none` in an error that is not ENOENT.
pub data Content : Type 0 where
  absent unreadable : Content
  content : Bytes → Content

abbrev content_of : Content → Option Bytes
content_of (content s) = some s
content_of c = none

-- The host: os.LookupEnv, os.Getpid, os.ReadFile and os.Stat below the host root.
pub record Host : Type 0 where
  pub lookup_env : Bytes → Option Bytes
  pub pid : ℕ
  pub read_file : Bytes → Content
  pub exists_at : Bytes → Bool

module _ (H : Host) where
  -- Whether the search for a container ends here, and with what answer.
  abbrev settled_by : Content → Bool → Bool
  settled_by absent next = next
  settled_by unreadable next = false
  settled_by (content s) next = not (null s) || next

  abbrev not_unset : Option Bytes → Bool → Bool
  not_unset none next = next
  not_unset (some v) next = not (null v)

  -- `pid1HasEnv`
  unfoldable pub pid1_has_env : Bytes → Bool
  pid1_has_env name = has_assignment (H.read_file (codes "/proc/1/environ"))
    where
      has_assignment : Content → Bool
      has_assignment (content s) = any (λ kv. has_prefix (name ++ codes "=") kv) (split 0 s)
      has_assignment c = false

  -- `inContainer`
  unfoldable pub in_container : Bool
  in_container =
      let marked = H.exists_at (codes "/run/.containerenv") || H.exists_at (codes "/.dockerenv") in
      settled_by (H.read_file (codes "/run/host/container-manager")) (
        if H.pid == 1
        then not_unset (H.lookup_env (codes "container")) marked
        else settled_by (H.read_file (codes "/run/systemd/container"))
            (pid1_has_env (codes "container") || marked))

  abbrev pid1_words : Option Bytes → Option (List Bytes)
  pid1_words none = none
  pid1_words (some s) =
      let args = split_nulstr s in if null args then none else some (filter_pid1_args args)

  abbrev split_content : Option Bytes → Option (List Bytes)
  split_content none = none
  split_content (some s) = some (split_cmdline s)

  abbrev words_of : Option Bytes → Option (List Bytes)
  words_of (some v) = some (split_cmdline v)
  words_of none =
      if in_container
      then pid1_words (content_of (H.read_file (codes "/proc/1/cmdline")))
      else split_content (content_of (H.read_file (codes "/proc/cmdline")))

  -- `KernelCmdline`: `none` is an error.
  unfoldable pub kernel_cmdline : Option (List Bytes)
  kernel_cmdline = words_of (H.lookup_env (codes "SYSTEMD_PROC_CMDLINE"))

  abbrev initrd_by : Option Bool → Bool
  initrd_by none = H.exists_at (codes "/etc/initrd-release")
  initrd_by (some b) = b

  abbrev initrd_value : Option Bytes → Option Bool
  initrd_value none = none
  initrd_value (some v) = parse_boolean v

  -- `InInitrd`
  unfoldable pub in_initrd : Bool
  in_initrd = initrd_by (initrd_value (H.lookup_env (codes "SYSTEMD_IN_INITRD")))
