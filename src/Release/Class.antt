-- ===== src/Release/Class.antt =====
-- internal/release/release.go, the class of an extension.
use sysext_alpine.Base.{Bytes, codes}

pub data Class : Type 0 where
  sysext confext : Class

unfoldable pub release_file_dir : Class → Bytes
release_file_dir confext = codes "etc/extension-release.d"
release_file_dir sysext = codes "usr/lib/extension-release.d"

unfoldable pub level_field : Class → Bytes
level_field confext = codes "CONFEXT_LEVEL"
level_field sysext = codes "SYSEXT_LEVEL"

unfoldable pub scope_field : Class → Bytes
scope_field confext = codes "CONFEXT_SCOPE"
scope_field sysext = codes "SYSEXT_SCOPE"
