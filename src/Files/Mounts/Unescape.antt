-- ===== src/Files/Mounts/Unescape.antt =====
-- internal/fsutil/mount.go, `unescapeMountInfo`: it reverses what the kernel writes.
use sysext_alpine.Base.{ℕ, Bool, ◌||◌, [], ◌∷◌, ◌++◌, Bytes, ◌==◌, if◌then◌else◌}
use sysext_alpine.Overlay.Markers.{octal}

-- The bytes that proc(5) writes in octal: space, tab, line feed and backslash.
abbrev pub is_mangled : ℕ → Bool
is_mangled c = c == 32 || c == 9 || c == 10 || c == 92

pub mangle_path : Bytes → Bytes
mangle_path [] = []
mangle_path (c ∷ s) = if is_mangled c then octal c ++ mangle_path s else c ∷ mangle_path s
