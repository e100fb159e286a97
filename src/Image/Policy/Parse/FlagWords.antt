-- ===== src/Image/Policy/Parse/FlagWords.antt =====
-- internal/image/policy.go: the text of a flag set holds no separator and is no special form.
use sysext_alpine.Base.{
  append_nil, ℕ, ◌≡◌, refl, sym, ap, ◌∙◌, inl, inr, Bool, true, false, not, ◌&&◌, ◌||◌, List, [],
  ◌∷◌, ok, Bytes, codes, same, leb, ◌==◌, join, null, has_byte, if◌then◌else◌, Bool-cases, All,
  All-append, all_bytes, all_bytes-append, all_bytes_mono, has_byte-all_bytes, split-join, arith,
  fun_ext,
}
use sysext_alpine.Image.Policy.Flags.{
  PolicyFlag, PolicyFlags, FlagName, no_flags, inter, single, non_zero, eq_flags, use_mask,
  pol_open, pol_ignore, use_names, fs_names, read_only_on, read_only_off, grow_fs_on, grow_fs_off,
  set_names, use_words, pair_words, differ, flag_words, flags_string,
}
use sysext_alpine.Image.Policy.Parse.{parse_words, parse_policy_flags}
use sysext_alpine.Image.Policy.Parse.FlagText.{kept, Reads-flag_words}

abbrev is_letter : ℕ → Bool
is_letter c = leb b'a' c && leb c b'z'

-- The bytes of the names of flags and designators.
abbrev pub name_byte : ℕ → Bool
name_byte c = is_letter c || leb b'0' c && leb c b'9' || c == b'-'

abbrev pub starts_letter : Bytes → Bool
starts_letter [] = false
starts_letter (c ∷ s) = is_letter c

abbrev pub Word : Bytes → Type 0
Word w = (all_bytes name_byte w ≡ true) × (starts_letter w ≡ true)

Word-set_names :
    (f : PolicyFlags) (names : List FlagName)
    → All (λ p. Word p.1) names
    → All Word (set_names f names)
unfolding set_names
Word-set_names f [] h = tt
Word-set_names f ((x, name) ∷ names) (k, h) = elim (Bool-cases (non_zero (inter f (single x)))) [
  | inl set ↦ rw set (k, Word-set_names f names h)
  | inr clear ↦ rw clear (Word-set_names f names h)
]

use_names-Word : All (λ p. Word p.1) use_names
use_names-Word = (
  (refl, refl),
  (
    (refl, refl),
    ((refl, refl), ((refl, refl), ((refl, refl), ((refl, refl), ((refl, refl), tt))))),
  ),
)

fs_names-Word : All (λ p. Word p.1) fs_names
fs_names-Word = (
  (refl, refl),
  (
    (refl, refl),
    ((refl, refl), ((refl, refl), ((refl, refl), ((refl, refl), ((refl, refl), tt))))),
  ),
)

Word-if :
    (b : Bool) (ws vs : List Bytes) → All Word ws → All Word vs → All Word (if b then ws else vs)
Word-if true ws vs hw hv = hw
Word-if false ws vs hw hv = hv

Word-use_words : (f : PolicyFlags) → All Word (use_words f)
unfolding use_words
Word-use_words f =
    Word-if (eq_flags (inter f use_mask) pol_open) _ _ ((refl, refl), tt)
      (Word-if (eq_flags (inter f use_mask) pol_ignore) _ _ ((refl, refl), tt)
        (Word-set_names f use_names use_names-Word))

pick-Word : (b : Bool) (v w : Bytes) → Word v → Word w → Word (if b then v else w)
pick-Word true v w hv hw = hv
pick-Word false v w hv hw = hw

Word-pair_words :
    (f : PolicyFlags) (on off : PolicyFlag) (on_name off_name : Bytes)
    → Word on_name
    → Word off_name
    → All Word (pair_words f on on_name off off_name)
unfolding pair_words
Word-pair_words f on off on_name off_name hv hw =
    Word-if (differ (not (non_zero (inter f (single on)))) (not (non_zero (inter f (single off)))))
      ((if non_zero (inter f (single on)) then on_name else off_name) ∷ []) []
      (pick-Word (non_zero (inter f (single on))) on_name off_name hv hw, tt) tt

Word-flag_words : (f : PolicyFlags) → All Word (flag_words f)
unfolding flag_words
Word-flag_words f = All-append Word (use_words f) _ (Word-use_words f) (
    All-append Word
      (pair_words f read_only_on (codes "read-only-on") read_only_off (codes "read-only-off")) _
      (Word-pair_words f read_only_on read_only_off _ _ (refl, refl) (refl, refl))
      (All-append Word
        (pair_words f grow_fs_on (codes "growfs-on") grow_fs_off (codes "growfs-off"))
        (set_names f fs_names)
        (Word-pair_words f grow_fs_on grow_fs_off _ _ (refl, refl) (refl, refl))
        (Word-set_names f fs_names fs_names-Word)))

-- The bytes of a printed flag set.
abbrev pub text_byte : ℕ → Bool
text_byte c = name_byte c || c == b'+'

Word-text : (w : Bytes) → Word w → all_bytes text_byte w ≡ true
Word-text w h = all_bytes_mono name_byte text_byte (λ c e. ground arith) w h.0

text-join : (ws : List Bytes) → All Word ws → all_bytes text_byte (join b'+' ws) ≡ true
unfolding join
text-join [] h = refl
text-join (w ∷ []) (h, hs) = Word-text w h
text-join (w ∷ v ∷ ws) (h, hs) =
    all_bytes-append text_byte w (b'+' ∷ join b'+' (v ∷ ws)) (Word-text w h) (text-join (v ∷ ws) hs)

-- No byte of a printed flag set separates rules, or its own two sides.
pub flags_string_text : (f : PolicyFlags) → all_bytes text_byte (flags_string f) ≡ true
unfolding flags_string
flags_string_text f = go (flag_words f) (Word-flag_words f)
  where
    go :
        (ws : List Bytes)
        → All Word ws
        → all_bytes text_byte (if null ws then codes "-" else join b'+' ws) ≡ true
    go [] h = refl
    go (w ∷ ws) h = text-join (w ∷ ws) h

join_special :
    (ws : List Bytes) (w : Bytes)
    → Word w
    → (null (join b'+' (w ∷ ws)) || same (join b'+' (w ∷ ws)) (codes "-")) ≡ false
unfolding join same
join_special [] [] h = cc
join_special [] (c ∷ w) h = ground arith
join_special (v ∷ ws) [] h = cc
join_special (v ∷ ws) (c ∷ w) h = ground arith

no_plus : (ws : List Bytes) → All Word ws → All (λ v. has_byte b'+' v ≡ false) ws
no_plus [] h = tt
no_plus (w ∷ ws) (h, hs) = (has_byte-all_bytes name_byte b'+' w refl h.0, no_plus ws hs)

parse-words :
    (graceful : Bool) (ws : List Bytes)
    → All Word ws
    → parse_policy_flags (if null ws then codes "-" else join b'+' ws) graceful
      ≡ parse_words graceful no_flags ws
unfolding parse_policy_flags parse_words same
parse-words graceful [] h = refl
parse-words graceful (w ∷ ws) (h, hs) = rw (join_special ws w h) (
    ap (parse_words graceful no_flags)
      (split-join b'+' w ws (has_byte-all_bytes name_byte b'+' w refl h.0) (no_plus ws hs)))

-- A printed flag set parses, strictly or not, to the bits that it keeps.
pub parse-flags_string :
    (f : PolicyFlags) (graceful : Bool) → parse_policy_flags (flags_string f) graceful ≡ ok (kept f)
unfolding flags_string parse_words
parse-flags_string f graceful =
    let (r, reads, bits) = Reads-flag_words graceful f no_flags [] in
    parse-words graceful (flag_words f) (Word-flag_words f)
    ∙ ap (parse_words graceful no_flags) (sym (append_nil (flag_words f)))
    ∙ reads
    ∙ ap ok (fun_ext bits)
