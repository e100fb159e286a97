-- ===== src/Image/Policy/Parse/FlagText.antt =====
-- internal/image/policy.go: the text of a flag set reads back as that flag set.
use mathlib.Core.List.{append_assoc}
use sysext_alpine.Base.{
  ◌≡◌, refl, sym, ap, ◌∙◌, inl, inr, Bool, true, false, not, ◌&&◌, ◌||◌, List, [], ◌∷◌, ◌++◌, some,
  Bytes, codes, trim_space, if◌then◌else◌, Bool-cases, any, All, arith,
}
use sysext_alpine.Image.Policy.Flags.{
  PolicyFlag, verity, PolicyFlags, FlagName, inter, union, single, eq_flags, no_flags, use_words,
  pair_words, differ, use_mask, pol_open, pol_ignore, use_names, fs_names, read_only_on,
  read_only_off, grow_fs_on, grow_fs_off, policy_flag_from_string, set_names, flag_words,
}
use sysext_alpine.Image.Policy.Flags.Laws.{non_zero-single}
use sysext_alpine.Image.Policy.Parse.{parse_words}

-- The name of a flag reads as that flag.
abbrev Known : FlagName → Type 0
Known (x, name) = policy_flag_from_string (trim_space name) ≡ some (single x)

-- From any `acc`, `parse_words` reads `ws` and goes on with the bits of `g` added.
abbrev pub Reads : Bool → List Bytes → PolicyFlags → Type 0
Reads graceful ws g =
    (acc : PolicyFlags) (rest : List Bytes)
    → (r : PolicyFlags) × (parse_words graceful acc (ws ++ rest) ≡ parse_words graceful r rest)
      × ((y : PolicyFlag) → r y ≡ (acc y || g y))

abbrev chosen : PolicyFlags → List FlagName → PolicyFlags
chosen f names y = any (λ p. single p.0 y && f p.0) names

or_set : (a b c d : Bool) → d ≡ true → ((a || b) || c) ≡ (a || ((b && d) || c))
or_set a b c d h = ground arith

or_clear : (a b c d : Bool) → d ≡ false → (a || c) ≡ (a || ((b && d) || c))
or_clear a b c d h = ground arith

parse_words-known :
    (graceful : Bool) (w : Bytes) (ws : List Bytes) (acc g : PolicyFlags)
    → policy_flag_from_string (trim_space w) ≡ some g
    → parse_words graceful acc (w ∷ ws) ≡ parse_words graceful (union acc g) ws
unfolding parse_words
parse_words-known graceful w ws acc g h = rw (h, parse_words)

Reads-set_names :
    (graceful : Bool) (f : PolicyFlags) (names : List FlagName)
    → All Known names
    → Reads graceful (set_names f names) (chosen f names)
unfolding set_names
Reads-set_names graceful f [] h acc rest = (acc, refl, λ y. ground arith)
Reads-set_names graceful f ((x, name) ∷ names) (k, h) acc rest = elim (Bool-cases (f x)) [
  | inl set ↦
      let (r, reads, bits) = Reads-set_names graceful f names h (union acc (single x)) rest in
      (
        r,
        rw (non_zero-single f x, set) (parse_words-known graceful name _ acc (single x) k ∙ reads),
        λ y. bits y ∙ or_set (acc y) (single x y) (chosen f names y) (f x) set,
      )
  | inr clear ↦
      let (r, reads, bits) = Reads-set_names graceful f names h acc rest in
      (
        r,
        rw (non_zero-single f x, clear) reads,
        λ y. bits y ∙ or_clear (acc y) (single x y) (chosen f names y) (f x) clear,
      )
]

Reads-word :
    (graceful : Bool) (w : Bytes) (g : PolicyFlags)
    → policy_flag_from_string (trim_space w) ≡ some g
    → Reads graceful (w ∷ []) g
Reads-word graceful w g h acc rest =
    (union acc g, parse_words-known graceful w rest acc g h, λ y. refl)

or_false : (a : Bool) → a ≡ (a || false)
or_false true = refl
or_false false = refl

Reads-nil : (graceful : Bool) → Reads graceful [] no_flags
Reads-nil graceful acc rest = (acc, refl, λ y. or_false (acc y))

or_assoc : (a b c : Bool) → ((a || b) || c) ≡ (a || (b || c))
or_assoc true b c = refl
or_assoc false b c = refl

Reads-append :
    (graceful : Bool) (ws vs : List Bytes) (a b : PolicyFlags)
    → Reads graceful ws a
    → Reads graceful vs b
    → Reads graceful (ws ++ vs) (union a b)
Reads-append graceful ws vs a b first second acc rest =
    let (q, reads, bits) = first acc (vs ++ rest) in
    let (r, reads', bits') = second q rest in
    (
      r,
      rw (append_assoc ws vs rest) (reads ∙ reads'),
      λ y. bits' y ∙ ap (λ t. t || b y) (bits y) ∙ or_assoc (acc y) (a y) (b y),
    )

-- The same bits by another description.
Reads-same :
    (graceful : Bool) (ws : List Bytes) (a b : PolicyFlags)
    → ((y : PolicyFlag) → a y ≡ b y)
    → Reads graceful ws a
    → Reads graceful ws b
Reads-same graceful ws a b h reads acc rest =
    let (r, e, bits) = reads acc rest in (r, e, λ y. bits y ∙ ap (λ t. acc y || t) (h y))

use_names-Known : All Known use_names
unfolding policy_flag_from_string trim_space
use_names-Known = (refl, (refl, (refl, (refl, (refl, (refl, (refl, tt)))))))

fs_names-Known : All Known fs_names
unfolding policy_flag_from_string trim_space
fs_names-Known = (refl, (refl, (refl, (refl, (refl, (refl, (refl, tt)))))))

-- What `policyFlags.String` keeps: of a pair of opposite flags that are both set, neither.
abbrev pub kept : PolicyFlags → PolicyFlags
kept f read_only_on = f read_only_on && not (f read_only_off)
kept f read_only_off = f read_only_off && not (f read_only_on)
kept f grow_fs_on = f grow_fs_on && not (f grow_fs_off)
kept f grow_fs_off = f grow_fs_off && not (f grow_fs_on)
kept f x = f x

abbrev use_bits : PolicyFlags → PolicyFlags
use_bits f y = use_mask y && kept f y

open_bits :
    (f : PolicyFlags) (y : PolicyFlag)
    → eq_flags (inter f use_mask) pol_open ≡ true
    → pol_open y ≡ use_bits f y
open_bits f verity h = ground arith
open_bits f y h = ground arith

ignore_bits :
    (f : PolicyFlags) (y : PolicyFlag)
    → eq_flags (inter f use_mask) pol_ignore ≡ true
    → pol_ignore y ≡ use_bits f y
ignore_bits f verity h = ground arith
ignore_bits f y h = ground arith

chosen-use_names : (f : PolicyFlags) (y : PolicyFlag) → chosen f use_names y ≡ use_bits f y
chosen-use_names f verity = sym (or_false (f verity))
chosen-use_names f y = ground arith

open-known : policy_flag_from_string (trim_space (codes "open")) ≡ some pol_open
unfolding policy_flag_from_string trim_space
open-known = refl

ignore-known : policy_flag_from_string (trim_space (codes "ignore")) ≡ some pol_ignore
unfolding policy_flag_from_string trim_space
ignore-known = refl

Reads-use_words : (graceful : Bool) (f : PolicyFlags) → Reads graceful (use_words f) (use_bits f)
unfolding use_words
Reads-use_words graceful f = elim (Bool-cases (eq_flags (inter f use_mask) pol_open)) [
  | inl all ↦ rw all (
      Reads-same graceful (codes "open" ∷ []) pol_open (use_bits f) (λ y. open_bits f y all)
        (Reads-word graceful (codes "open") pol_open open-known))
  | inr not_all ↦ elim (Bool-cases (eq_flags (inter f use_mask) pol_ignore)) [
    | inl two ↦
        rw (not_all, two)
          (Reads-same graceful (codes "ignore" ∷ []) pol_ignore (use_bits f)
            (λ y. ignore_bits f y two)
            (Reads-word graceful (codes "ignore") pol_ignore ignore-known))
    | inr other ↦
        rw (not_all, other)
          (Reads-same graceful (set_names f use_names) (chosen f use_names) (use_bits f)
            (chosen-use_names f) (Reads-set_names graceful f use_names use_names-Known))
  ]
]

abbrev pair_bits : PolicyFlags → PolicyFlag → PolicyFlag → PolicyFlags
pair_bits f on off y =
    (single on y && (f on && not (f off))) || (single off y && (f off && not (f on)))

and_true : (b : Bool) → b ≡ (b && true)
and_true true = refl
and_true false = refl

and_false : (b : Bool) → (b && false) ≡ false
and_false true = refl
and_false false = refl

module _ (graceful : Bool) (f : PolicyFlags) (on off : PolicyFlag) (on_name off_name : Bytes) where
  Reads-pair_words :
      policy_flag_from_string (trim_space on_name) ≡ some (single on)
      → policy_flag_from_string (trim_space off_name) ≡ some (single off)
      → Reads graceful (pair_words f on on_name off off_name) (pair_bits f on off)
  unfolding pair_words
  Reads-pair_words k l = rw (non_zero-single f on, non_zero-single f off) (go (f on) (f off))
    where
      go :
          (b c : Bool)
          → Reads graceful
              (if differ (not b) (not c) then (if b then on_name else off_name) ∷ [] else [])
              (λ y. (single on y && (b && not c)) || (single off y && (c && not b)))
      go true true = Reads-same graceful [] no_flags _ (λ y. ground arith) (Reads-nil graceful)
      go false false = Reads-same graceful [] no_flags _ (λ y. ground arith) (Reads-nil graceful)
      go true false =
          Reads-same graceful (on_name ∷ []) (single on) _ (λ y. ground arith)
            (Reads-word graceful on_name (single on) k)
      go false true =
          Reads-same graceful (off_name ∷ []) (single off) _ (λ y. ground arith)
            (Reads-word graceful off_name (single off) l)

pflag_names-Known :
    Known (read_only_on, codes "read-only-on")
    × Known (read_only_off, codes "read-only-off")
    × Known (grow_fs_on, codes "growfs-on")
    × Known (grow_fs_off, codes "growfs-off")
unfolding policy_flag_from_string trim_space
pflag_names-Known = (refl, refl, refl, refl)

abbrev word_bits : PolicyFlags → PolicyFlags
word_bits f = union (use_bits f) (
    union (pair_bits f read_only_on read_only_off)
      (union (pair_bits f grow_fs_on grow_fs_off) (chosen f fs_names)))

word_bits-kept : (f : PolicyFlags) (y : PolicyFlag) → word_bits f y ≡ kept f y
word_bits-kept f verity = sym (or_false (f verity))
word_bits-kept f y = ground arith

-- The words of a flag set read as the bits that they keep.
pub Reads-flag_words : (graceful : Bool) (f : PolicyFlags) → Reads graceful (flag_words f) (kept f)
unfolding flag_words
Reads-flag_words graceful f = Reads-same graceful _ (word_bits f) (kept f) (word_bits-kept f) (
    Reads-append graceful (use_words f) _ _ _ (Reads-use_words graceful f) (
      Reads-append graceful
        (pair_words f read_only_on (codes "read-only-on") read_only_off (codes "read-only-off")) _ _
        _
        (Reads-pair_words graceful f read_only_on read_only_off _ _ pflag_names-Known.0
          pflag_names-Known.1)
        (Reads-append graceful
          (pair_words f grow_fs_on (codes "growfs-on") grow_fs_off (codes "growfs-off"))
          (set_names f fs_names) _ _
          (Reads-pair_words graceful f grow_fs_on grow_fs_off _ _ pflag_names-Known.2
            pflag_names-Known.3)
          (Reads-set_names graceful f fs_names fs_names-Known))))
