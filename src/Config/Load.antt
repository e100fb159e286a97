-- ===== src/Config/Load.antt =====
-- internal/config/config.go: the files that are loaded, in their order, and what becomes of an error.
-- fsutil.Chase inside the root (with and without ChaseNonexistent), os.Stat, os.ReadFile, os.ReadDir
-- and filepath.Abs are parameters.
pub mod Known
use sysext_alpine.Base.{
  ℕ, suc, ◌+◌, Bool, true, false, not, ◌&&◌, ◌||◌, List, [], ◌∷◌, ◌++◌, Option, none, some, Result,
  ok, err, ◌>>=◌, Bytes, codes, same, Sign, less, equal, greater, compare_bytes, ◌==◌, null, any,
  map, cut_prefix, has_suffix, is_abs, join_path, if◌then◌else◌,
}
use sysext_alpine.Release.Class.{Class}
use sysext_alpine.Release.Names.{hidden_or_backup_file}
use sysext_alpine.Discover.Pick.{Mode, regular, directory, block_device}
use sysext_alpine.Discover.Pick
use sysext_alpine.Config.{
  Config, no_config, Errno, enoent, eisdir, ebadfd, enotdir, Warning, failed_to_parse_config,
  failed_to_open_root, failed_to_open, failed_to_open_dir, failed_to_chase, short_identifier,
  section_name,
}
use sysext_alpine.Config.Assign.{FileParser, Parsed, warn}
use sysext_alpine.Config.File.{OpenedFile, parse_file}

-- os.FileInfo: the kind of the file, its mode, and what os.SameFile compares.
pub record FileInfo : Type 0 where
  pub kind : Mode
  pub permissions : ℕ
  pub device : ℕ
  pub inode : ℕ

-- errors.Is(err, fs.ErrNotExist)
unfoldable pub is_missing : Errno → Bool
is_missing enoent = true
is_missing e = false

abbrev pub conf_dirs : List Bytes
conf_dirs = codes "/etc/" ∷ codes "/run/" ∷ codes "/usr/local/lib/" ∷ codes "/usr/lib/" ∷ []

abbrev or_self : Bytes → Option Bytes → Bytes
or_self p none = p
or_self p (some []) = codes "/"
or_self p (some (c ∷ s)) = if is_abs (c ∷ s) then c ∷ s else p

unfoldable pub relative_to_root : Bytes → Bytes → Bytes
relative_to_root root p = if same root (codes "/") then p else or_self p (cut_prefix root p)

unfoldable pub same_as_any : OpenedFile → List OpenedFile → Bool
same_as_any f [] = false
same_as_any f (g ∷ gs) = f.dev == g.dev && f.ino == g.ino || same_as_any f gs

-- sort.Strings on the names of drop-ins, each with its path.
abbrev pub Named : Type 0
Named = Bytes × Bytes

unfoldable pub insert_name : Named → List Named → List Named
insert_name x [] = x ∷ []
insert_name x (y ∷ ys) =
    let rest = insert_name x ys in
    elim (compare_bytes x.0 y.0) [ less ↦ x ∷ y ∷ ys | equal ↦ x ∷ y ∷ ys | greater ↦ y ∷ rest ]

unfoldable pub sort_names : List Named → List Named
sort_names [] = []
sort_names (x ∷ xs) = insert_name x (sort_names xs)

abbrev trim_slash : Bytes → Bytes
trim_slash [] = []
trim_slash (c ∷ s) = if c == b'/' then s else c ∷ s

module _ (chase : Bytes → Result Errno Bytes) (stat : Bytes → Result Errno FileInfo)
    (read_file : Bytes → Result Errno Bytes) where
  abbrev pub opened_as : Bytes → FileInfo → Bytes → OpenedFile
  opened_as name fi data_read = record {
    name = name;
    content = data_read;
    mode = fi.permissions;
    dev = fi.device;
    ino = fi.inode;
  }

  abbrev pub read_regular : Bytes → Bytes → FileInfo → Mode → Result Errno OpenedFile
  read_regular name resolved fi directory = err eisdir
  read_regular name resolved fi regular =
      read_file resolved >>= λ data_read. ok (opened_as name fi data_read)
  read_regular name resolved fi k = err ebadfd

  -- `open`
  unfoldable pub open_file : Bytes → Result Errno OpenedFile
  open_file name =
      chase name >>= λ resolved. stat resolved >>= λ fi. read_regular name resolved fi fi.kind

  -- The drop-ins that open; a missing one is passed over, and any other error ends the load.
  unfoldable pub open_dropins : List Bytes → FileParser → List OpenedFile → Parsed × List OpenedFile
  open_dropins [] p done = ((p, none), done)
  open_dropins (name ∷ names) p done = elim (open_file name) [
    | ok f ↦ open_dropins names p (done ++ (f ∷ []))
    | err e ↦ elim (is_missing e) [
      | true ↦ open_dropins names p done
      | false ↦ ((warn (failed_to_open name e) p, some e), done)
    ]
  ]

  -- The first main file that is not missing.
  unfoldable pub open_main : Bytes → List Bytes → FileParser → Parsed × Option OpenedFile
  open_main file [] p = ((p, none), none)
  open_main file (d ∷ ds) p = elim (open_file (d ++ file)) [
    | ok f ↦ ((p, none), some f)
    | err e ↦ elim (is_missing e) [
      | true ↦ open_main file ds p
      | false ↦ ((warn (failed_to_open (d ++ file) e) p, some e), none)
    ]
  ]

  module _ (chase_nonexistent : Bytes → Option Errno) (read_dir : Bytes → Result Errno (List Bytes))
      (root : Bytes) where
    -- One entry of a directory of drop-ins: the paths found so far, and what is logged.
    abbrev pub see_dropin :
        Bytes → Bytes → Bytes → FileParser × List Named → FileParser × List Named
    see_dropin dir_path rel n (p, seen) =
        if hidden_or_backup_file n
          || not (has_suffix (codes ".conf") n)
          || any (λ x. same x.0 n) seen
        then (p, seen)
        else elim (chase_nonexistent (join_path rel n)) [
          | some e ↦ (warn (failed_to_chase (dir_path ++ (b'/' ∷ n)) e) p, seen)
          | none ↦ (p, (n, trim_slash (join_path rel n)) ∷ seen)
        ]

    unfoldable pub see_dropins :
        Bytes → Bytes → List Bytes → FileParser × List Named → FileParser × List Named
    see_dropins dir_path rel [] st = st
    see_dropins dir_path rel (n ∷ ns) st =
        see_dropins dir_path rel ns (see_dropin dir_path rel n st)

    abbrev pub entries_of : Bytes → Result Errno (Bytes × List Bytes)
    entries_of dir_path = chase dir_path >>= λ resolved.
        read_dir resolved >>= λ names. ok (relative_to_root root resolved, names)

    abbrev pub see_dir :
        Bytes
        → Result Errno (Bytes × List Bytes)
        → FileParser × List Named
        → FileParser × List Named
    see_dir dir_path (ok (rel, names)) st = see_dropins dir_path rel names st
    see_dir dir_path (err e) (p, seen) =
        if is_missing e then (p, seen) else (warn (failed_to_open_dir dir_path e) p, seen)

    unfoldable pub list_from :
        Bytes → List Bytes → FileParser × List Named → FileParser × List Named
    list_from dirname [] st = st
    list_from dirname (d ∷ ds) st =
        let dir_path = d ++ (b'/' ∷ dirname) in
        list_from dirname ds (see_dir dir_path (entries_of dir_path) st)

    unfoldable pub list_dropins : Bytes → FileParser → FileParser × List Bytes
    list_dropins dirname p =
        let r = list_from dirname conf_dirs (p, []) in (r.0, map (λ x. x.1) (sort_names r.1))

    module _ (validate_policy : Option (Bytes → Option Errno)) (own_section : Bytes) where
      abbrev pub parsed_then : Parsed → (FileParser → Parsed) → Parsed
      parsed_then (p, some e) next = (p, some e)
      parsed_then (p, none) next = next p

      unfoldable pub parse_files : List OpenedFile → FileParser → Parsed
      parse_files [] p = (p, none)
      parse_files (f ∷ fs) p =
          parsed_then (parse_file validate_policy own_section f p) (λ q. parse_files fs q)

      -- The main file is not read again when a drop-in is the same file.
      abbrev pub main_then : List OpenedFile → Option OpenedFile → FileParser → Parsed
      main_then dropins none p = parse_files dropins p
      main_then dropins (some f) p =
          if same_as_any f dropins then parse_files dropins p else parse_files (f ∷ dropins) p

      abbrev pub with_main : Bytes → List OpenedFile → Parsed × Option OpenedFile → Parsed
      with_main main_file dropins ((p, some e), f) = (p, some e)
      with_main main_file dropins ((p, none), f) = main_then dropins f p

      abbrev pub with_dropins : Bytes → Parsed × List OpenedFile → Parsed
      with_dropins main_file ((p, some e), dropins) = (p, some e)
      with_dropins main_file ((p, none), dropins) =
          with_main main_file dropins (open_main main_file conf_dirs p)

      -- `loader.load`
      unfoldable pub load_files : Bytes → FileParser → Parsed
      load_files main_file p =
          let l = list_dropins (main_file ++ codes ".d") p in
          with_dropins main_file (open_dropins l.1 l.0 [])

abbrev pub fresh : FileParser
fresh = record {
  cfg = no_config;
  messages = [];
  section = [];
  in_section = false;
  section_ignored = false;
}

abbrev pub must_be_dir : Bytes → FileInfo → Mode → Result Errno Bytes
must_be_dir abs fi directory = ok abs
must_be_dir abs fi k = err enotdir

-- The root that all paths are resolved in.
unfoldable pub open_root :
    (Bytes → Result Errno Bytes) → (Bytes → Result Errno FileInfo) → Bytes → Result Errno Bytes
open_root abs stat root =
    if null root || same root (codes "/")
    then ok (codes "/")
    else abs root >>= λ a. stat a >>= λ fi. must_be_dir a fi fi.kind

abbrev pub loaded : Class → Parsed → Config × List Warning
loaded c (p, none) = (p.cfg, p.messages)
loaded c (p, some e) = (no_config, p.messages ++ (failed_to_parse_config e ∷ []))

abbrev pub config_file : Class → Bytes
config_file c = codes "systemd/" ++ short_identifier c ++ codes ".conf"

-- `Load`: the configuration and what is logged. The functions that resolve paths take the root.
unfoldable pub load :
    (chase : Bytes → Bytes → Result Errno Bytes) (chase_nonexistent : Bytes → Bytes → Option Errno)
    (stat : Bytes → Result Errno FileInfo) (read_file : Bytes → Result Errno Bytes)
    (read_dir : Bytes → Result Errno (List Bytes)) (abs : Bytes → Result Errno Bytes)
    → Option (Bytes → Option Errno)
    → Class
    → Bytes
    → Config × List Warning
load chase chase_nonexistent stat read_file read_dir abs validate_policy c root =
    elim (open_root abs stat root) [
      | err e ↦ loaded c (warn (failed_to_open_root root e) fresh, some e)
      | ok r ↦ loaded c (
          load_files (chase r) stat read_file (chase_nonexistent r) read_dir r validate_policy
            (section_name c) (config_file c) fresh)
    ]
