-- ===== src/Overlay/Markers/Names.antt =====
-- internal/overlay/markers.go: the names of the merged images are read back from the list file.
use sysext_alpine.Base.{
  ℕ, ◌≡◌, refl, ap, ◌∙◌, false, List, [], ◌∷◌, ◌++◌, none, some, Bytes, same, null, cut_suffix,
  split, join, has_byte, split-join, All, arith,
}
use mathlib.Core.Option
use sysext_alpine.Overlay.Markers.{without_empty, format_list, parse_list}

-- A name of the list: it is not empty, and it holds no line break.
abbrev pub IsListed : Bytes → Type 0
IsListed w = (null w ≡ false) × (has_byte 10 w ≡ false)

same-short : (c : ℕ) (s : Bytes) → same (10 ∷ []) (c ∷ (s ++ (10 ∷ []))) ≡ false
unfolding same
same-short c [] = ground arith
same-short c (d ∷ s) = ground arith

cut_suffix-append : (s : Bytes) → cut_suffix (10 ∷ []) (s ++ (10 ∷ [])) ≡ some s
unfolding cut_suffix
cut_suffix-append [] = unfold same in refl
cut_suffix-append (c ∷ s) = rw (same-short c s) (ap (Option.map (λ r. c ∷ r)) (cut_suffix-append s))

without_empty-IsListed : (ws : List Bytes) → All IsListed ws → without_empty ws ≡ ws
unfolding without_empty
without_empty-IsListed [] h = refl
without_empty-IsListed (w ∷ ws) ((a, b), h) = rw a (ap (λ r. w ∷ r) (without_empty-IsListed ws h))

plain_names : (ws : List Bytes) → All IsListed ws → All (λ v. has_byte 10 v ≡ false) ws
plain_names [] h = tt
plain_names (w ∷ ws) ((a, b), h) = (b, plain_names ws h)

-- A list of names, none of them empty or with a line break in it, is read back from its file, also
-- when there is no name at all.
pub parse_list-format_list : (ws : List Bytes) → All IsListed ws → parse_list (format_list ws) ≡ ws
unfolding parse_list format_list
parse_list-format_list [] h = unfold cut_suffix split without_empty in refl
parse_list-format_list (w ∷ ws) ((a, b), h) =
    ap
      (λ o. without_empty (split 10 (elim o [ none ↦ join 10 (w ∷ ws) ++ (10 ∷ []) | some t ↦ t ])))
      (cut_suffix-append (join 10 (w ∷ ws)))
    ∙ ap without_empty (split-join 10 w ws b (plain_names ws h))
    ∙ without_empty-IsListed (w ∷ ws) ((a, b), h)
