-- ===== src/Overlay/Options/Words.antt =====
-- internal/overlay/mounts.go: the words of the option string of an overlay mount.
use sysext_alpine.Base.{
  ℕ, ◌≡◌, refl, sym, ap, ◌∙◌, inl, inr, Bool, true, false, not, ◌&&◌, ◌||◌, List, [], ◌∷◌, ◌++◌,
  Option, none, some, Bytes, codes, same, ◌==◌, map, join, append_assoc, append_nil, cut_prefix,
  Bool-cases, arith,
}
use sysext_alpine.Overlay.Options.{
  Flags, FlagOption, mount_flags, find_flag, onto_word, split_options, mangle_word, mangle_words,
  mangle_mount_options, is_data, apply_flag, needs_escape, escape_layer, upper_options,
  extra_options, overlay_options,
}
use sysext_alpine.Overlay.Options.Layers.{onto_first, onto_first-cons}

onto_first-append :
    (v w : Bytes) (ws : List Bytes) → onto_first (v ++ w) ws ≡ onto_first v (onto_first w ws)
onto_first-append [] w ws = refl
onto_first-append (c ∷ v) w ws = ap (onto_word c) (onto_first-append v w ws)

-- A text that no split falls into.
IsWhole : Bytes → Type 0
IsWhole w = (t : Bytes) → split_options (w ++ t) ≡ onto_first w (split_options t)

IsWhole-append : (v w : Bytes) → IsWhole v → IsWhole w → IsWhole (v ++ w)
unfolding IsWhole
IsWhole-append v w h k t =
    ap split_options (append_assoc v w t)
    ∙ h (w ++ t)
    ∙ ap (onto_first v) (k t)
    ∙ sym (onto_first-append v w (split_options t))

split_plain :
    (c : ℕ) (t : Bytes)
    → (c == 92 || c == b',') ≡ false
    → split_options (c ∷ t) ≡ onto_word c (split_options t)
unfolding split_options
split_plain c [] h = ground arith
split_plain c (d ∷ s) h = ground arith

split_escaped :
    (c : ℕ) (t : Bytes) → split_options (92 ∷ c ∷ t) ≡ onto_word 92 (onto_word c (split_options t))
unfolding split_options
split_escaped c t = refl

split_nothing : split_options [] ≡ [] ∷ []
unfolding split_options
split_nothing = refl

split_comma : (t : Bytes) → split_options (b',' ∷ t) ≡ [] ∷ split_options t
unfolding split_options
split_comma [] = refl
split_comma (d ∷ s) = refl

abbrev plain_text : Bytes → Bool
plain_text [] = true
plain_text (c ∷ s) = not (c == 92 || c == b',') && plain_text s

IsWhole-plain : (w : Bytes) → plain_text w ≡ true → IsWhole w
unfolding IsWhole
IsWhole-plain [] h t = refl
IsWhole-plain (c ∷ w) h t =
    split_plain c (w ++ t) (ground arith) ∙ ap (onto_word c) (IsWhole-plain w (ground arith) t)

IsWhole-escape_layer : (p : Bytes) → IsWhole (escape_layer p)
unfolding IsWhole escape_layer
IsWhole-escape_layer [] t = refl
IsWhole-escape_layer (c ∷ p) t = elim (Bool-cases (needs_escape c)) [
  | inl e ↦ rw e (
      split_escaped c (escape_layer p ++ t)
      ∙ ap (λ r. onto_word 92 (onto_word c r)) (IsWhole-escape_layer p t))
  | inr e ↦ rw e (
      split_plain c (escape_layer p ++ t) (ground arith)
      ∙ ap (onto_word c) (IsWhole-escape_layer p t))
]

IsWhole-join : (ls : List Bytes) → IsWhole (join b':' (map escape_layer ls))
unfolding join
IsWhole-join [] = IsWhole-plain [] refl
IsWhole-join (l ∷ []) = IsWhole-escape_layer l
IsWhole-join (l ∷ k ∷ ks) =
    IsWhole-append (escape_layer l) (b':' ∷ join b':' (map escape_layer (k ∷ ks)))
      (IsWhole-escape_layer l)
      (IsWhole-append (b':' ∷ []) _ (IsWhole-plain (b':' ∷ []) refl) (IsWhole-join (k ∷ ks)))

-- A whole text up to a comma is a word.
split_word : (w t : Bytes) → IsWhole w → split_options (w ++ (b',' ∷ t)) ≡ w ∷ split_options t
unfolding IsWhole
split_word w t h =
    h (b',' ∷ t)
    ∙ ap (onto_first w) (split_comma t)
    ∙ onto_first-cons w [] (split_options t)
    ∙ ap (λ s. s ∷ split_options t) (append_nil w)

split_last : (w : Bytes) → IsWhole w → split_options w ≡ w ∷ []
unfolding IsWhole
split_last w h =
    ap split_options (sym (append_nil w))
    ∙ h []
    ∙ ap (onto_first w) split_nothing
    ∙ onto_first-cons w [] []
    ∙ ap (λ s. s ∷ []) (append_nil w)

abbrev pub lower_word : List Bytes → Bytes
lower_word ls = codes "lowerdir=" ++ join b':' (map escape_layer ls)

abbrev pub upper_word : Bytes → Bytes
upper_word upper = codes "upperdir=" ++ escape_layer upper

abbrev pub work_word : Bytes → Bytes
work_word work = codes "workdir=" ++ escape_layer work

-- The words of the extra options, if there are any.
abbrev pub extra_words : Bytes → List Bytes
extra_words [] = []
extra_words (c ∷ s) = split_options (c ∷ s)

abbrev pub upper_words : Bytes → Bytes → List Bytes
upper_words [] work = []
upper_words (c ∷ s) work = upper_word (c ∷ s) ∷ work_word work ∷ []

lower_word-IsWhole : (ls : List Bytes) → IsWhole (lower_word ls)
lower_word-IsWhole ls =
    IsWhole-append (codes "lowerdir=") _ (IsWhole-plain _ refl) (IsWhole-join ls)

upper_word-IsWhole : (p : Bytes) → IsWhole (upper_word p)
upper_word-IsWhole p =
    IsWhole-append (codes "upperdir=") _ (IsWhole-plain _ refl) (IsWhole-escape_layer p)

work_word-IsWhole : (p : Bytes) → IsWhole (work_word p)
work_word-IsWhole p =
    IsWhole-append (codes "workdir=") _ (IsWhole-plain _ refl) (IsWhole-escape_layer p)

end_words :
    (w extra : Bytes) → IsWhole w → split_options (w ++ extra_options extra) ≡ w ∷ extra_words extra
end_words w [] h = ap split_options (append_nil w) ∙ split_last w h
end_words w (c ∷ s) h = split_word w (c ∷ s) h

tail_words :
    (w upper work extra : Bytes)
    → IsWhole w
    → split_options (w ++ (upper_options upper work ++ extra_options extra))
      ≡ w ∷ (upper_words upper work ++ extra_words extra)
tail_words w [] work extra h = end_words w extra h
tail_words w (c ∷ s) work extra h =
    ap split_options (ap (λ r. w ++ (b',' ∷ r)) (regroup (c ∷ s)))
    ∙ split_word w _ h
    ∙ ap (λ r. w ∷ r)
        (split_word (upper_word (c ∷ s)) (work_word work ++ extra_options extra)
            (upper_word-IsWhole (c ∷ s))
          ∙ ap (λ r. upper_word (c ∷ s) ∷ r)
              (end_words (work_word work) extra (work_word-IsWhole work)))
  where
    regroup :
        (u : Bytes)
        → (codes "upperdir=" ++ (escape_layer u ++ (codes ",workdir=" ++ escape_layer work)))
            ++ extra_options extra
          ≡ upper_word u ++ (b',' ∷ (work_word work ++ extra_options extra))
    regroup u =
        append_assoc (codes "upperdir=")
          (escape_layer u ++ (codes ",workdir=" ++ escape_layer work)) (extra_options extra)
        ∙ ap (λ r. codes "upperdir=" ++ r)
            (append_assoc (escape_layer u) (codes ",workdir=" ++ escape_layer work)
              (extra_options extra))
        ∙ sym (
            append_assoc (codes "upperdir=") (escape_layer u)
              (b',' ∷ (work_word work ++ extra_options extra)))

overlay_options-words :
    (ls : List Bytes) (upper work extra : Bytes)
    → split_options (overlay_options ls upper work extra)
      ≡ lower_word ls ∷ (upper_words upper work ++ extra_words extra)
unfolding overlay_options
overlay_options-words ls upper work extra =
    ap split_options (
      sym (
        append_assoc (codes "lowerdir=") (join b':' (map escape_layer ls))
          (upper_options upper work ++ extra_options extra)))
    ∙ tail_words (lower_word ls) upper work extra (lower_word-IsWhole ls)

-- The data words so far stay in front.
mangle_word-kept :
    (w : Bytes) (o : Option FlagOption) (f : Flags) (k : List Bytes)
    → mangle_word w o (f, k) ≡ ((mangle_word w o (f, [])).0, k ++ (mangle_word w o (f, [])).1)
mangle_word-kept w (some o) f k = ap (λ r. (apply_flag o f, r)) (sym (append_nil k))
mangle_word-kept w none f k = elim (Bool-cases (is_data w)) [
  | inl e ↦ rw e refl
  | inr e ↦ rw e (ap (λ r. (f, r)) (sym (append_nil k)))
]

mangle_words-kept :
    (ws : List Bytes) (f : Flags) (k : List Bytes)
    → mangle_words ws (f, k) ≡ ((mangle_words ws (f, [])).0, k ++ (mangle_words ws (f, [])).1)
unfolding mangle_words
mangle_words-kept [] f k = ap (λ r. (f, r)) (sym (append_nil k))
mangle_words-kept (w ∷ ws) f k =
    let r = mangle_word w (find_flag mount_flags w) (f, []) in
    ap (mangle_words ws) (mangle_word-kept w (find_flag mount_flags w) f k)
    ∙ mangle_words-kept ws r.0 (k ++ r.1)
    ∙ ap (λ x. ((mangle_words ws (r.0, [])).0, x))
        (append_assoc k r.1 (mangle_words ws (r.0, [])).1)
    ∙ sym (ap (λ x. (x.0, k ++ x.1)) (mangle_words-kept ws r.0 r.1))

lower_word-kept :
    (ls : List Bytes) (st : Flags × List Bytes)
    → mangle_word (lower_word ls) (find_flag mount_flags (lower_word ls)) st
      ≡ (st.0, st.1 ++ (lower_word ls ∷ []))
unfolding find_flag same cut_prefix
lower_word-kept ls (f, k) = refl

upper_word-kept :
    (p : Bytes) (st : Flags × List Bytes)
    → mangle_word (upper_word p) (find_flag mount_flags (upper_word p)) st
      ≡ (st.0, st.1 ++ (upper_word p ∷ []))
unfolding find_flag same cut_prefix
upper_word-kept p (f, k) = refl

work_word-kept :
    (p : Bytes) (st : Flags × List Bytes)
    → mangle_word (work_word p) (find_flag mount_flags (work_word p)) st
      ≡ (st.0, st.1 ++ (work_word p ∷ []))
unfolding find_flag same cut_prefix
work_word-kept p (f, k) = refl

-- The words of the three options are kept as they are, and do not touch the flags.
overlay_words :
    (ls : List Bytes) (upper work : Bytes) (rest : List Bytes) (f : Flags)
    → mangle_words (lower_word ls ∷ (upper_words upper work ++ rest)) (f, [])
      ≡ mangle_words rest (f, lower_word ls ∷ upper_words upper work)
unfolding mangle_words
overlay_words ls [] work rest f = ap (mangle_words rest) (lower_word-kept ls (f, []))
overlay_words ls (c ∷ s) work rest f =
    ap
      (λ x. mangle_words rest (
        mangle_word (work_word work) (find_flag mount_flags (work_word work))
          (mangle_word (upper_word (c ∷ s)) (find_flag mount_flags (upper_word (c ∷ s))) x)))
      (lower_word-kept ls (f, []))
    ∙ ap
        (λ x.
          mangle_words rest
            (mangle_word (work_word work) (find_flag mount_flags (work_word work)) x))
        (upper_word-kept (c ∷ s) (f, lower_word ls ∷ []))
    ∙ ap (mangle_words rest) (work_word-kept work (f, lower_word ls ∷ upper_word (c ∷ s) ∷ []))

-- Whatever the paths of the layers hold, the option string of an overlay mount splits into the
-- lowerdir option, the upperdir and workdir options of a writable overlay, and the words of the extra
-- options; only the extra options change the mount flags, and the three options are passed on to
-- the file system in front of what is left of the extra ones.
pub mangle_mount_options-overlay_options :
    (ls : List Bytes) (upper work extra : Bytes) (f : Flags)
    → (split_options (overlay_options ls upper work extra)
        ≡ lower_word ls ∷ (upper_words upper work ++ extra_words extra))
      × (mangle_mount_options (overlay_options ls upper work extra) f ≡ (
        (mangle_words (extra_words extra) (f, [])).0,
        join b',' (
            (lower_word ls ∷ upper_words upper work)
            ++ (mangle_words (extra_words extra) (f, [])).1),
      ))
unfolding mangle_mount_options
mangle_mount_options-overlay_options ls upper work extra f =
    let words = overlay_options-words ls upper work extra in
    (
      words,
      ap (λ r. (r.0, join b',' r.1))
          (ap (λ ws. mangle_words ws (f, [])) words
            ∙ overlay_words ls upper work (extra_words extra) f
            ∙ mangle_words-kept (extra_words extra) f (lower_word ls ∷ upper_words upper work)),
    )
