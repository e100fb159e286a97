-- ===== src/Overlay/Workspace/Places.antt =====
-- internal/overlay: paths inside the workspace, with internal/fsutil/mount.go and filepath.Join.
use sysext_alpine.Base.{
  ◌≡◌, refl, sym, ap, ◌∙◌, true, [], ◌∷◌, ◌++◌, Bytes, All-append, append_nil, join_path, arith,
}
use sysext_alpine.Files.Chase.Rooted.{IsComponent, IsRooted}
use sysext_alpine.Files.Chase.Below.{join_path-component}
use sysext_alpine.Files.Mounts.{is_below}
use sysext_alpine.Files.Mounts.Inside.{rooted, is_below-StartsWith, is_below_trans}
use sysext_alpine.Release.Names.{image_name_is_valid}

pub image_name-IsComponent : (s : Bytes) → image_name_is_valid s ≡ true → IsComponent s
unfolding image_name_is_valid
image_name-IsComponent s h = (ground arith, ground arith, ground arith, ground arith)

-- A clean absolute path below the workspace, or the workspace itself.
abbrev pub Inside : Bytes → Bytes → Type 0
Inside ws p = IsRooted p × (is_below p ws ≡ true)

pub join_path-Inside : (ws p w : Bytes) → Inside ws p → IsComponent w → Inside ws (join_path p w)
join_path-Inside ws p w ((cs, h, e), b) k =
    let all = All-append IsComponent cs (w ∷ []) h (k, tt) in
    let at : join_path p w ≡ rooted (cs ++ (w ∷ [])) =
      ap (λ q. join_path q w) e ∙ join_path-component cs w h k in
    let under : is_below (join_path p w) p ≡ true =
      ap (is_below (join_path p w)) e
      ∙ ap (λ q. is_below q (rooted cs)) at
      ∙ (is_below-StartsWith (cs ++ (w ∷ [])) cs all h).1 ((w ∷ []), refl) in
    ((cs ++ (w ∷ []), all, at), is_below_trans (join_path p w) p ws under b)

pub self-Inside : (ws : Bytes) → IsRooted ws → Inside ws ws
self-Inside ws (cs, h, e) = (
  (cs, h, e),
  ap (is_below ws) e
      ∙ ap (λ q. is_below q (rooted cs)) e
      ∙ (is_below-StartsWith cs cs h h).1 ([], sym (append_nil cs)),
)
