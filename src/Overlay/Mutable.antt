-- ===== src/Overlay/Mutable.antt =====
-- internal/overlay/mutable.go: the mutable modes, and the directories that serve as upper, lower and
-- work directories.
use sysext_alpine.Base.{
  ℕ, Bool, true, false, not, ◌&&◌, ◌||◌, [], Result, ok, err, Bytes, codes, same, ◌==◌, null, clean,
  join_path, dir, if◌then◌else◌,
}
use sysext_alpine.Overlay.Markers.{single_path_component, work_dir_name}
use sysext_alpine.Overlay.Kernel.{
  Fault, missing, not_a_directory, too_many_links, invalid, read_only, other_file_system,
  invalid_mode, make_dirs, chmod, Trace, Stat, Kernel, Io, ◌>>=◌, ◌>>◌, pure, fail, ask,
  or_if_missing, call, chased,
}

abbrev pub mutable_base : Bytes
mutable_base = codes "/var/lib/extensions.mutable"

abbrev pub ephemeral_workspace : Bytes
ephemeral_workspace = codes "/run/systemd/sysext"

-- The modes, after normalizeMutableMode.
pub data Mode : Type 0 where
  no_mode auto always only_import ephemeral ephemeral_import : Mode

-- `normalizeMutableMode`
unfoldable pub normalize_mutable_mode : Bytes → Result Fault Mode
normalize_mutable_mode mode =
    if null mode || same mode (codes "no")
    then ok no_mode
    else if same mode (codes "auto")
    then ok auto
    else if same mode (codes "yes")
    then ok always
    else if same mode (codes "import")
    then ok only_import
    else if same mode (codes "ephemeral")
    then ok ephemeral
    else if same mode (codes "ephemeral-import")
    then ok ephemeral_import
    else err invalid_mode

unfoldable pub mode_is_ephemeral : Mode → Bool
mode_is_ephemeral ephemeral = true
mode_is_ephemeral ephemeral_import = true
mode_is_ephemeral m = false

abbrev pub is_no_mode : Mode → Bool
is_no_mode no_mode = true
is_no_mode m = false

-- The file type of a directory, S_IFDIR.
abbrev pub dir_type : ℕ
dir_type = 0x4000

module _ (K : Kernel) where
  abbrev stat_of : Bytes → Io Stat
  stat_of p = ask (λ t. K.stat t p)

  -- `mustBeDir`
  unfoldable pub must_be_dir : Bytes → Io Unit
  must_be_dir p =
      stat_of p >>= λ st. if st.file_type == dir_type then pure tt else fail not_a_directory

  abbrev mode_matches : ℕ → Result Fault Stat → Result Fault Unit
  mode_matches mode (err missing) = ok tt
  mode_matches mode (err e) = err e
  mode_matches mode (ok st) = if st.permissions == mode then ok tt else err invalid

  abbrev matches_at : ℕ → Result Fault Bytes → Trace → Result Fault Unit
  matches_at mode (err missing) t = ok tt
  matches_at mode (err e) t = err e
  matches_at mode (ok p) t = mode_matches mode (K.stat t p)

  -- `mutableDirModeMatches`
  unfoldable pub mutable_dir_mode_matches : Bytes → Bytes → ℕ → Trace → Result Fault Unit
  mutable_dir_mode_matches root rel mode t = matches_at mode (chased K root rel false t) t

  abbrev pub create_mutable : Bytes → Bytes → ℕ → Io Unit
  create_mutable root rel mode = ask (chased K root rel true) >>= λ p.
      call K (make_dirs p)
      >> (ask (chased K root rel false) >>= λ q. must_be_dir q >> call K (chmod q mode))

  abbrev pub persistent_dir : Mode → Bytes → Bytes → ℕ → Io Bytes
  persistent_dir always root rel mode =
      ask (mutable_dir_mode_matches root rel mode)
      >> (create_mutable root rel mode >> ask (λ t. or_if_missing [] (chased K root rel false t)))
  persistent_dir auto root rel mode =
      ask (mutable_dir_mode_matches root rel mode)
      >> ask (λ t. or_if_missing [] (chased K root rel false t))
  persistent_dir m root rel mode = ask (λ t. or_if_missing [] (chased K root rel false t))

  abbrev pub ephemeral_dir : Bytes → ℕ → Io Bytes
  ephemeral_dir d mode = call K (make_dirs d) >> (call K (chmod d mode) >> pure d)

  -- `resolveMutableDir`
  unfoldable pub resolve_mutable_dir : Mode → Bytes → Bytes → ℕ → Bytes → Io Bytes
  resolve_mutable_dir mode root hierarchy permissions workspace =
      if is_no_mode mode
      then pure []
      else if mode_is_ephemeral mode
      then ephemeral_dir (join_path workspace (single_path_component hierarchy)) permissions
      else persistent_dir mode root (join_path mutable_base (single_path_component hierarchy))
          permissions

  abbrev same_stat : Stat → Stat → Bool
  same_stat a b = a.dev == b.dev && (a.ino == b.ino && a.file_type == b.file_type)

  -- `sameDir`
  unfoldable pub same_dir : Bytes → Bytes → Io Bool
  same_dir a b =
      if null a || null b
      then pure false
      else if same (clean a) (clean b)
      then pure true
      else (stat_of a >>= λ x. stat_of b >>= λ y. pure (same_stat x y))

  -- `sameFS`
  unfoldable pub same_fs : Bytes → Bytes → Io Bool
  same_fs a b = stat_of a >>= λ x. stat_of b >>= λ y. pure (x.dev == y.dev)

  abbrev refuse_itself : Bytes → Bytes → Io Bytes
  refuse_itself host d =
      if null d
      then pure []
      else (same_dir host d >>= λ same_one. if same_one then fail too_many_links else pure d)

  -- `importedMutableDir`
  unfoldable pub imported_mutable_dir : Mode → Bytes → Bytes → Bytes → Bytes → Io Bytes
  imported_mutable_dir only_import root hierarchy host mutable_dir = refuse_itself host mutable_dir
  imported_mutable_dir ephemeral_import root hierarchy host mutable_dir =
      ask (λ t.
        or_if_missing []
          (chased K root (join_path mutable_base (single_path_component hierarchy)) false t))
      >>= refuse_itself host
  imported_mutable_dir m root hierarchy host mutable_dir = pure []

  abbrev only_imports : Mode → Bool
  only_imports only_import = true
  only_imports ephemeral_import = true
  only_imports m = false

  -- `hostAsLowerDir`
  unfoldable pub host_as_lower_dir : Mode → Bytes → Bytes → Io Bool
  host_as_lower_dir mode host mutable_dir =
      if null host
      then pure false
      else (ask (λ t. K.is_empty t host) >>= λ empty.
          if empty
          then pure false
          else if only_imports mode || null mutable_dir
          then pure true
          else (same_dir host mutable_dir >>= λ same_one. pure (not same_one)))

  abbrev is_import : Mode → Bool
  is_import only_import = true
  is_import m = false

  -- `upperDir`
  unfoldable pub upper_dir : Mode → Bytes → Io Bytes
  upper_dir mode mutable_dir =
      if is_import mode || null mutable_dir
      then pure []
      else (ask (λ t. K.is_read_only t mutable_dir) >>= λ ro.
          if ro then fail read_only else pure mutable_dir)

  -- `workDirFor`
  unfoldable pub work_dir_for : Bytes → Bytes → Io Bytes
  work_dir_for hierarchy upper = same_fs upper (dir upper) >>= λ same_one.
      if same_one
      then pure (join_path (dir upper) (work_dir_name hierarchy))
      else fail other_file_system
