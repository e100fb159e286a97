-- ===== src/Tests/Mounts.antt =====
-- internal/overlay/mounts.go and internal/fsutil/mount.go: their theorems applied to concrete inputs.
use sysext_alpine.Base.{
  ℕ, zero, suc, ◌≡◌, ◌↔◌, refl, Bool, true, false, List, [], ◌∷◌, ◌++◌, Option, none, some, Bytes,
  codes, same, length, map, join, has_byte, All,
}
use sysext_alpine.Files.Chase.Rooted.{IsComponent, IsRooted}
use sysext_alpine.Files.Mounts.{is_below}
use sysext_alpine.Files.Mounts.Inside.{rooted, StartsWith, is_below-StartsWith}
use sysext_alpine.Overlay.Options.{
  escape_layer, overlay_options, split_options, mangle_words, mangle_mount_options, no_flags,
}
use sysext_alpine.Overlay.Options.Layers.{read_layers, read_layers-escape_layer}
use sysext_alpine.Overlay.Options.Words.{
  lower_word, upper_words, extra_words, mangle_mount_options-overlay_options,
}
use sysext_alpine.Overlay.Submounts.{
  SavedMount, Found, missing, MountError, eloop, attach_submounts, close_saved, select_top,
}
use sysext_alpine.Overlay.Submounts.Pending.{
  count_pending, names_of, attach_submounts-count_pending,
}
use sysext_alpine.Overlay.Submounts.Top.{In, Below, select_top-Below}

abbrev odd_layers : List Bytes
odd_layers = codes "/a:b" ∷ codes "/c,ro" ∷ codes "/d" ∷ []

mangle_mount_options-overlay_options_example :
    (split_options (overlay_options odd_layers (codes "/u,rw") (codes "/w") (codes "ro,index=off"))
      ≡ lower_word odd_layers
        ∷ (upper_words (codes "/u,rw") (codes "/w") ++ extra_words (codes "ro,index=off")))
    × (mangle_mount_options
          (overlay_options odd_layers (codes "/u,rw") (codes "/w") (codes "ro,index=off"))
          no_flags
        ≡ (
          (mangle_words (extra_words (codes "ro,index=off")) (no_flags, [])).0,
          join b',' (
              (lower_word odd_layers ∷ upper_words (codes "/u,rw") (codes "/w"))
              ++ (mangle_words (extra_words (codes "ro,index=off")) (no_flags, [])).1),
        ))
mangle_mount_options-overlay_options_example =
    mangle_mount_options-overlay_options odd_layers (codes "/u,rw") (codes "/w")
      (codes "ro,index=off") no_flags

read_layers-escape_layer_example :
    read_layers (join b':' (map escape_layer odd_layers)) ≡ odd_layers
read_layers-escape_layer_example =
    read_layers-escape_layer (codes "/a:b") (codes "/c,ro" ∷ codes "/d" ∷ [])

abbrev usr_two : List Bytes
usr_two = codes "usr" ∷ codes "two" ∷ []

is_below-StartsWith_example :
    (is_below (rooted usr_two) (rooted (codes "usr" ∷ [])) ≡ true)
    ↔ StartsWith usr_two (codes "usr" ∷ [])
is_below-StartsWith_example =
    is_below-StartsWith usr_two (codes "usr" ∷ []) two_components one_component
  where
    two_components : All IsComponent usr_two
    two_components =
        unfold same has_byte in ((refl, refl, refl, refl), ((refl, refl, refl, refl), tt))

    one_component : All IsComponent (codes "usr" ∷ [])
    one_component = unfold same has_byte in ((refl, refl, refl, refl), tt)

abbrev two_mounts : List Bytes
two_mounts = codes "/usr" ∷ codes "/usr/two" ∷ []

select_top-Below_example :
    ((p : Bytes) → In p two_mounts → (t : Bytes) × In t (select_top two_mounts) × Below p t)
    × ((p : Bytes) → In p (select_top two_mounts) → In p two_mounts)
    × ((p q : Bytes)
        → In p (select_top two_mounts)
        → In q two_mounts
        → same q p ≡ false
        → is_below p q ≡ false)
select_top-Below_example = select_top-Below two_mounts rooted_mounts
  where
    rooted_mounts : All IsRooted two_mounts
    rooted_mounts =
        unfold same has_byte join in
        (
          (codes "usr" ∷ [], ((refl, refl, refl, refl), tt), refl),
          ((usr_two, ((refl, refl, refl, refl), ((refl, refl, refl, refl), tt)), refl), tt),
        )

abbrev clone_at : Bytes → SavedMount
clone_at p = record { rel = p; pending = true; dir_mode = true }

abbrev nothing_there : ℕ → Bytes → Found
nothing_there w p = missing

abbrev created : Bytes → Bool → ℕ → Option MountError × ℕ
created p d w = (none, w)

abbrev second_fails : SavedMount → Bytes → ℕ → Option MountError × ℕ
second_fails s p zero = (none, 1)
second_fails s p (suc w) = (some eloop, suc w)

abbrev two_clones : List SavedMount
two_clones = clone_at (codes "a") ∷ clone_at (codes "b/c") ∷ []

attach_submounts-count_pending_example :
    (length (attach_submounts nothing_there created second_fails (codes "/usr") two_clones 0).1
      ≡ count_pending
          (attach_submounts nothing_there created second_fails (codes "/usr") two_clones 0).0)
    × (names_of (attach_submounts nothing_there created second_fails (codes "/usr") two_clones 0).0
        ≡ names_of two_clones)
    × (count_pending (
          close_saved
            (attach_submounts nothing_there created second_fails (codes "/usr") two_clones 0).0)
        ≡ 0)
attach_submounts-count_pending_example =
    attach_submounts-count_pending nothing_there created second_fails (codes "/usr") two_clones 0
