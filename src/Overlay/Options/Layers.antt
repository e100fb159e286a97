-- ===== src/Overlay/Options/Layers.antt =====
-- internal/overlay/mounts.go: the layers can be read back from the lowerdir option.
use sysext_alpine.Base.{
  ℕ, ◌≡◌, refl, sym, ap, ◌∙◌, inl, inr, false, List, [], ◌∷◌, ◌++◌, Bytes, ◌==◌, map, join,
  append_nil, Bool-cases, if◌then◌else◌, arith,
}
use sysext_alpine.Overlay.Options.{onto_word, needs_escape, escape_layer}

-- How a list of layers is read: a backslash takes the byte behind it as it is, and a colon that is
-- not behind one separates two layers.
pub read_layers : Bytes → List Bytes
read_layers [] = [] ∷ []
read_layers (c ∷ []) = if c == b':' then [] ∷ [] ∷ [] else (c ∷ []) ∷ []
read_layers (c ∷ d ∷ s) =
    let escaped = onto_word d (read_layers s) in
    let rest = read_layers (d ∷ s) in
    if c == 92 then escaped else if c == b':' then [] ∷ rest else onto_word c rest

abbrev pub onto_first : Bytes → List Bytes → List Bytes
onto_first [] ws = ws
onto_first (c ∷ w) ws = onto_word c (onto_first w ws)

pub onto_first-cons : (w v : Bytes) (ws : List Bytes) → onto_first w (v ∷ ws) ≡ (w ++ v) ∷ ws
onto_first-cons [] v ws = refl
onto_first-cons (c ∷ w) v ws = ap (onto_word c) (onto_first-cons w v ws)

read_plain :
    (c : ℕ) (t : Bytes) → needs_escape c ≡ false → read_layers (c ∷ t) ≡ onto_word c (read_layers t)
unfolding read_layers
read_plain c [] h = ground arith
read_plain c (d ∷ s) h = ground arith

read_colon : (t : Bytes) → read_layers (b':' ∷ t) ≡ [] ∷ read_layers t
unfolding read_layers
read_colon [] = refl
read_colon (d ∷ s) = refl

read_escaped : (c : ℕ) (t : Bytes) → read_layers (92 ∷ c ∷ t) ≡ onto_word c (read_layers t)
unfolding read_layers
read_escaped c t = refl

read_nothing : read_layers [] ≡ [] ∷ []
unfolding read_layers
read_nothing = refl

read-escape_layer : (p t : Bytes) → read_layers (escape_layer p ++ t) ≡ onto_first p (read_layers t)
unfolding escape_layer
read-escape_layer [] t = refl
read-escape_layer (c ∷ p) t = elim (Bool-cases (needs_escape c)) [
  | inl e ↦ rw e (read_escaped c (escape_layer p ++ t) ∙ ap (onto_word c) (read-escape_layer p t))
  | inr e ↦ rw e (read_plain c (escape_layer p ++ t) e ∙ ap (onto_word c) (read-escape_layer p t))
]

-- The layers that are joined into the lowerdir option are read back from it, whatever colons,
-- commas and backslashes their paths hold.
pub read_layers-escape_layer :
    (l : Bytes) (ls : List Bytes) → read_layers (join b':' (map escape_layer (l ∷ ls))) ≡ l ∷ ls
unfolding join
read_layers-escape_layer l [] =
    ap read_layers (sym (append_nil (escape_layer l)))
    ∙ read-escape_layer l []
    ∙ ap (onto_first l) read_nothing
    ∙ onto_first-cons l [] []
    ∙ ap (λ s. s ∷ []) (append_nil l)
read_layers-escape_layer l (k ∷ ks) =
    read-escape_layer l (b':' ∷ join b':' (map escape_layer (k ∷ ks)))
    ∙ ap (onto_first l) (
        read_colon (join b':' (map escape_layer (k ∷ ks)))
        ∙ ap (λ r. [] ∷ r) (read_layers-escape_layer k ks))
    ∙ onto_first-cons l [] (k ∷ ks)
    ∙ ap (λ s. s ∷ k ∷ ks) (append_nil l)
