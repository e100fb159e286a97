-- ===== src/Tests/Settings.antt =====
-- internal/config/config.go: its theorems applied to concrete inputs.
use sysext_alpine.Base.{
  ◌≡◌, false, [], ◌∷◌, ◌++◌, Option, none, some, Result, ok, err, Bytes, codes, List, arith,
}
use sysext_alpine.Release.Class.{sysext}
use sysext_alpine.Discover.Pick.{regular}
use sysext_alpine.Config.{Errno, einval, enobufs, enoent}
use sysext_alpine.Config.Assign.Known.{IsKnown}
use sysext_alpine.Config.File.{OpenedFile, Locals, parse_lines}
use sysext_alpine.Config.File.Fuel.{parse_lines-length}
use sysext_alpine.Config.Load.{FileInfo, fresh, load}
use sysext_alpine.Config.Load.Known.{load-IsKnown}

abbrev settings_text : Bytes
settings_text = codes "[SysExt]" ++ (10 ∷ codes "Mutable=on") ++ (10 ∷ [])

abbrev resolve_same : Bytes → Bytes → Result Errno Bytes
resolve_same root p = ok p

abbrev nothing_missing : Bytes → Bytes → Option Errno
nothing_missing root p = none

abbrev plain_file : Bytes → Result Errno FileInfo
plain_file p = ok (record { kind = regular; permissions = 420; device = 1; inode = 2 })

abbrev same_text : Bytes → Result Errno Bytes
same_text p = ok settings_text

abbrev no_directory : Bytes → Result Errno (List Bytes)
no_directory p = err enoent

abbrev itself : Bytes → Result Errno Bytes
itself p = ok p

abbrev refuse_all : Option (Bytes → Option Errno)
refuse_all = some (λ s. some einval)

load-IsKnown_example :
    IsKnown refuse_all
      (load resolve_same nothing_missing plain_file same_text no_directory itself refuse_all sysext
        (codes "/")).0
load-IsKnown_example =
    load-IsKnown resolve_same nothing_missing plain_file same_text no_directory itself refuse_all
      sysext (codes "/")

abbrev settings_file : OpenedFile
settings_file = record {
  name = codes "/etc/systemd/sysext.conf";
  content = settings_text;
  mode = 420;
  dev = 1;
  ino = 2;
}

abbrev first_locals : Locals
first_locals = record { line = 0; bom_seen = false; continuation = none }

parse_lines-length_example :
    parse_lines none
      (codes "SysExt")
      settings_file
      (fresh, none)
      20
      settings_text
      first_locals
      fresh
    ≡ parse_lines none
        (codes "SysExt")
        settings_file
        (fresh, some enobufs)
        90
        settings_text
        first_locals
        fresh
parse_lines-length_example =
    parse_lines-length none (codes "SysExt") settings_file (fresh, none) (fresh, some enobufs) 20 90
      settings_text first_locals fresh (omega arith) (omega arith)
