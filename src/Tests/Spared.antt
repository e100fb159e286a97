-- ===== src/Tests/Spared.antt =====
-- internal/overlay/engine.go: a merge that mounts an image and then refuses it touches only the workspace.
use sysext_alpine.Base.{
  no_number, ◌≡◌, refl, ◌⊎◌, inl, true, false, [], ◌∷◌, err, codes, same, is_abs, has_byte, join,
  split, clean_from, reversed, cut_prefix,
}
use sysext_alpine.Files.Chase.Rooted.{IsRooted}
use sysext_alpine.Files.Mounts.{is_below, components, drop_common}
use sysext_alpine.Release.Names.{
  image_name_is_valid, valid_utf8, valid_utf8_from, decode_rune, rune_is_valid,
}
use sysext_alpine.Discover.Images.{Image, type_directory}
use sysext_alpine.Overlay.Kernel.{refused, Trace, Kernel}
use sysext_alpine.Overlay.Workspace.Places.{Inside}
use sysext_alpine.Overlay.Workspace.Confined.{Confined}
use sysext_alpine.Overlay.Engine.Run.{empty_outcome, run}
use sysext_alpine.Overlay.Engine.Spared.Whole.{run-Confined}
use sysext_alpine.Tests.Engine.{workspace, one_overlay, new_op}

abbrev refusing : Kernel
refusing = record one_overlay { check = λ t p d. err refused }

abbrev app : Image
app = record {
  name = codes "app";
  path = codes "/var/lib/extensions/app";
  image_type = type_directory;
  m_time = no_number;
  cr_time = no_number;
}

workspace-IsRooted : IsRooted workspace
unfolding same has_byte join
workspace-IsRooted = (
  codes "run" ∷ codes "systemd" ∷ codes "sysext" ∷ [],
  ((refl, refl, refl, refl), ((refl, refl, refl, refl), ((refl, refl, refl, refl), tt))),
  refl,
)

below_itself : (u : Trace) → Inside workspace (refusing.temp_name u workspace)
unfolding same has_byte join is_below components drop_common is_abs split clean_from reversed
below_itself u = (
  (
    codes "run" ∷ codes "systemd" ∷ codes "sysext" ∷ codes "next.1" ∷ [],
    (
      (refl, refl, refl, refl),
      ((refl, refl, refl, refl), ((refl, refl, refl, refl), ((refl, refl, refl, refl), tt))),
    ),
    refl,
  ),
  refl,
)

app_is_valid : image_name_is_valid (codes "app") ≡ true
unfolding image_name_is_valid valid_utf8 valid_utf8_from decode_rune rune_is_valid has_byte same
    cut_prefix
app_is_valid = refl

run-Confined_example :
    ((run refusing 2 false
        (app ∷ [])
        (codes "/opt" ∷ [])
        (new_op, (empty_outcome, []))).1.0.swapping
      ≡ true)
    ⊎ Confined workspace []
        (run refusing 2 false (app ∷ []) (codes "/opt" ∷ []) (new_op, (empty_outcome, []))).1.1.1
run-Confined_example =
    run-Confined refusing 2 false (app ∷ []) (codes "/opt" ∷ []) new_op empty_outcome []
      (refl, refl, refl, refl, refl) workspace-IsRooted below_itself (app_is_valid, tt) (inl refl)
