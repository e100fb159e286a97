-- ===== src/Config/Load/Known.antt =====
-- internal/config/config.go: whatever the files hold, a configuration that is loaded is one the
-- program knows; and one file that fails discards all of it.
use sysext_alpine.Base.{
  refl, inl, Bool, true, false, List, [], ◌∷◌, ◌++◌, Option, none, some, Result, ok, err, Bytes,
  codes, any, not, same, ◌||◌, has_suffix, join_path, if◌then◌else◌,
}
use sysext_alpine.Release.Class.{Class}
use sysext_alpine.Release.Names.{hidden_or_backup_file}
use sysext_alpine.Config.{
  Config, Errno, Warning, failed_to_chase, failed_to_open_root, section_name,
}
use sysext_alpine.Config.Assign.{FileParser, Parsed, warn}
use sysext_alpine.Config.Assign.Known.{IsKnown}
use sysext_alpine.Config.File.{OpenedFile, parse_file}
use sysext_alpine.Config.File.Known.{parse_file-IsKnown}
use sysext_alpine.Config.Load.{
  FileInfo, is_missing, Named, open_file, open_dropins, open_main, see_dropin, see_dropins, see_dir,
  list_from, list_dropins, conf_dirs, parsed_then, parse_files, main_then, with_main, with_dropins,
  load_files, same_as_any, fresh, open_root, loaded, config_file, load,
}

module _ (chase : Bytes → Result Errno Bytes) (stat : Bytes → Result Errno FileInfo)
    (read_file : Bytes → Result Errno Bytes) (v : Option (Bytes → Option Errno)) where
  abbrev Known : FileParser → Type 0
  Known p = IsKnown v p.cfg

  opened-Known :
      (r : Result Errno OpenedFile) {X : Type 0} (f : OpenedFile → Parsed × X) (g : Parsed × X)
      (h : Errno → Parsed × X)
      → ((x : OpenedFile) → Known (f x).0.0)
      → Known g.0.0
      → ((e : Errno) → Known (h e).0.0)
      → Known
          (elim r as (λ x. Parsed × X) [
            | ok x ↦ f x
            | err e ↦ elim (is_missing e) [ true ↦ g | false ↦ h e ]
          ]).0.0
  opened-Known (ok x) f g h hf hg hh = hf x
  opened-Known (err e) {X = X} f g h hf hg hh = missing_or (is_missing e)
    where
      missing_or : (b : Bool) → Known (elim b as (λ x. Parsed × X) [ true ↦ g | false ↦ h e ]).0.0
      missing_or true = hg
      missing_or false = hh e

  open_dropins-Known :
      (names : List Bytes) (p : FileParser) (done : List OpenedFile)
      → Known p
      → Known (open_dropins chase stat read_file names p done).0.0
  unfolding open_dropins
  open_dropins-Known [] p done k = k
  open_dropins-Known (n ∷ ns) p done k =
      opened-Known (open_file chase stat read_file n) _ _ _
        (λ x. open_dropins-Known ns p (done ++ (x ∷ [])) k) (open_dropins-Known ns p done k)
        (λ e. k)

  open_main-Known :
      (file : Bytes) (dirs : List Bytes) (p : FileParser)
      → Known p
      → Known (open_main chase stat read_file file dirs p).0.0
  unfolding open_main
  open_main-Known file [] p k = k
  open_main-Known file (d ∷ ds) p k =
      opened-Known (open_file chase stat read_file (d ++ file)) _ _ _ (λ x. k)
        (open_main-Known file ds p k) (λ e. k)

  module _ (chase_nonexistent : Bytes → Option Errno) (read_dir : Bytes → Result Errno (List Bytes))
      (root : Bytes) where
    if-Known :
        (b : Bool) (x y : FileParser × List Named)
        → Known x.0
        → Known y.0
        → Known (if b then x else y).0
    if-Known true x y hx hy = hx
    if-Known false x y hx hy = hy

    chased-Known :
        (o : Option Errno) (w : Errno → Warning) (p : FileParser) (s t : List Named)
        → Known p
        → Known
            (elim o as (λ x. FileParser × List Named) [
              | some e ↦ (warn (w e) p, s)
              | none ↦ (p, t)
            ]).0
    chased-Known none w p s t k = k
    chased-Known (some e) w p s t k = k

    see_dropin-Known :
        (dir_path rel n : Bytes) (st : FileParser × List Named)
        → Known st.0
        → Known
            (see_dropin chase stat read_file chase_nonexistent read_dir root dir_path rel n st).0
    see_dropin-Known dir_path rel n (p, seen) k =
        if-Known
          (hidden_or_backup_file n
            || not (has_suffix (codes ".conf") n)
            || any (λ x. same x.0 n) seen)
          _ _ k
          (chased-Known (chase_nonexistent (join_path rel n))
            (failed_to_chase (dir_path ++ (b'/' ∷ n))) p _ _ k)

    see_dropins-Known :
        (ns : List Bytes) (dir_path rel : Bytes) (st : FileParser × List Named)
        → Known st.0
        → Known
            (see_dropins chase stat read_file chase_nonexistent read_dir root dir_path rel ns st).0
    unfolding see_dropins
    see_dropins-Known [] dir_path rel st k = k
    see_dropins-Known (n ∷ ns) dir_path rel st k =
        see_dropins-Known ns dir_path rel _ (see_dropin-Known dir_path rel n st k)

    see_dir-Known :
        (dir_path : Bytes) (r : Result Errno (Bytes × List Bytes)) (st : FileParser × List Named)
        → Known st.0
        → Known (see_dir chase stat read_file chase_nonexistent read_dir root dir_path r st).0
    see_dir-Known dir_path (ok (rel, names)) st k = see_dropins-Known names dir_path rel st k
    see_dir-Known dir_path (err e) (p, seen) k = if-Known (is_missing e) _ _ k k

    list_from-Known :
        (dirs : List Bytes) (dirname : Bytes) (st : FileParser × List Named)
        → Known st.0
        → Known (list_from chase stat read_file chase_nonexistent read_dir root dirname dirs st).0
    unfolding list_from
    list_from-Known [] dirname st k = k
    list_from-Known (d ∷ ds) dirname st k =
        list_from-Known ds dirname _ (see_dir-Known (d ++ (b'/' ∷ dirname)) _ st k)

    module _ (own_section : Bytes) where
      abbrev parsed_files : List OpenedFile → FileParser → Parsed
      parsed_files = parse_files chase stat read_file chase_nonexistent read_dir root v own_section

      then-Known :
          (r : Parsed) (next : FileParser → Parsed)
          → Known r.0
          → ((p : FileParser) → Known p → Known (next p).0)
          → Known
              (parsed_then chase stat read_file chase_nonexistent read_dir root v own_section r
                next).0
      then-Known (p, some e) next k h = k
      then-Known (p, none) next k h = h p k

      parse_files-Known :
          (fs : List OpenedFile) (p : FileParser) → Known p → Known (parsed_files fs p).0
      unfolding parse_files
      parse_files-Known [] p k = k
      parse_files-Known (f ∷ fs) p k =
          then-Known (parse_file v own_section f p) _ (parse_file-IsKnown v own_section f p k)
            (parse_files-Known fs)

      if-parsed : (b : Bool) (x y : Parsed) → Known x.0 → Known y.0 → Known (if b then x else y).0
      if-parsed true x y hx hy = hx
      if-parsed false x y hx hy = hy

      main_then-Known :
          (fs : List OpenedFile) (o : Option OpenedFile) (p : FileParser)
          → Known p
          → Known
              (main_then chase stat read_file chase_nonexistent read_dir root v own_section fs o
                p).0
      main_then-Known fs none p k = parse_files-Known fs p k
      main_then-Known fs (some f) p k =
          if-parsed (same_as_any f fs) _ _ (parse_files-Known fs p k)
            (parse_files-Known (f ∷ fs) p k)

      with_main-Known :
          (file : Bytes) (fs : List OpenedFile) (r : Parsed × Option OpenedFile)
          → Known r.0.0
          → Known
              (with_main chase stat read_file chase_nonexistent read_dir root v own_section file fs
                r).0
      with_main-Known file fs ((p, some e), f) k = k
      with_main-Known file fs ((p, none), f) k = main_then-Known fs f p k

      with_dropins-Known :
          (file : Bytes) (r : Parsed × List OpenedFile)
          → Known r.0.0
          → Known
              (with_dropins chase stat read_file chase_nonexistent read_dir root v own_section file
                r).0
      with_dropins-Known file ((p, some e), fs) k = k
      with_dropins-Known file ((p, none), fs) k =
          with_main-Known file fs _ (open_main-Known file conf_dirs p k)

      pub load_files-Known :
          (file : Bytes) (p : FileParser)
          → Known p
          → Known
              (load_files chase stat read_file chase_nonexistent read_dir root v own_section file
                p).0
      unfolding load_files list_dropins
      load_files-Known file p k =
          with_dropins-Known file _
            (open_dropins-Known _ _ [] (list_from-Known conf_dirs (file ++ codes ".d") (p, []) k))

loaded-IsKnown :
    (v : Option (Bytes → Option Errno)) (c : Class) (r : Parsed)
    → IsKnown v r.0.cfg
    → IsKnown v (loaded c r).0
loaded-IsKnown v c (p, none) k = k
loaded-IsKnown v c (p, some e) k = (inl refl, inl refl)

-- Whatever the directories and files hold and whatever fails, the mode that Load returns is empty or one
-- of the six that the merge knows, and the image policy is empty or one that the validator accepts.
pub load-IsKnown :
    (chase : Bytes → Bytes → Result Errno Bytes) (chase_nonexistent : Bytes → Bytes → Option Errno)
    (stat : Bytes → Result Errno FileInfo) (read_file : Bytes → Result Errno Bytes)
    (read_dir : Bytes → Result Errno (List Bytes)) (abs : Bytes → Result Errno Bytes)
    (v : Option (Bytes → Option Errno)) (c : Class) (root : Bytes)
    → IsKnown v (load chase chase_nonexistent stat read_file read_dir abs v c root).0
unfolding load
load-IsKnown chase chase_nonexistent stat read_file read_dir abs v c root =
    rooted (open_root abs stat root)
  where
    rooted :
        (o : Result Errno Bytes)
        → IsKnown v
            (elim o as (λ x. Config × List Warning) [
              | err e ↦ loaded c (warn (failed_to_open_root root e) fresh, some e)
              | ok r ↦ loaded c (
                  load_files
                    (chase r)
                    stat
                    read_file
                    (chase_nonexistent r)
                    read_dir
                    r
                    v
                    (section_name c)
                    (config_file c)
                    fresh)
            ]).0
    rooted (err e) = (inl refl, inl refl)
    rooted (ok r) =
        loaded-IsKnown v c
          (load_files (chase r) stat read_file (chase_nonexistent r) read_dir r v (section_name c)
            (config_file c) fresh)
          (load_files-Known (chase r) stat read_file v (chase_nonexistent r) read_dir r
            (section_name c) (config_file c) fresh (inl refl, inl refl))
