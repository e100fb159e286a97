-- ===== src/Discover/Pick.antt =====
-- internal/discover/vpick.go: the best entry of a versioned directory.
-- The directory, fsutil.Chase and os.Stat are parameters of `pick_version`; the entry's inode is
-- known by its kind.
pub mod Order
pub mod Best
use mathlib.Core.Option
use sysext_alpine.Base.{
  ℕ, zero, suc, ◌+◌, ◌-◌, ◌*◌, ◌^◌, Bool, true, false, not, ◌&&◌, ◌||◌, List, [], ◌∷◌, ◌++◌, Option,
  none, some, Result, ok, err, ◌>>=◌, Bytes, codes, same, Sign, less, equal, greater, cmp,
  then_sign, flip, compare_bytes, leb, ltb, ◌==◌, length, null, any, all_bytes, cut_prefix,
  cut_suffix, cut_last, if◌then◌else◌,
}
use sysext_alpine.Discover.Version.{
  is_digit, is_alpha, cmp_bool, run_of, after_run, compare_versions,
}
use sysext_alpine.Release.Arch.{is_architecture}

-- The inode of an entry.
pub data Mode : Type 0 where
  regular directory block_device other : Mode

-- `typeMask`
pub record TypeMask : Type 0 where
  pub reg : Bool
  pub blk : Bool
  pub dir : Bool

unfoldable pub matches : TypeMask → Mode → Bool
matches m regular = m.reg
matches m directory = m.dir
matches m block_device = m.blk
matches m other = false

-- math.MaxUint32
abbrev pub tries_unset : ℕ
tries_unset = 4294967295

pub record PickResult : Type 0 where
  pub path : Bytes
  pub version : Bytes
  pub arch : Bytes
  pub tries_left : ℕ
  pub tries_done : ℕ

-- strconv.ParseUint on a string of digits: `none` for a digit beyond the base.
unfoldable pub digits_value : ℕ → ℕ → Bytes → Option ℕ
digits_value base n [] = some n
digits_value base n (c ∷ s) =
    let rest = digits_value base (n * base + (c - b'0')) s in
    if is_digit c && ltb (c - b'0') base then rest else none

abbrev fits_32 : ℕ → Option ℕ
fits_32 n = if ltb n (2 ^ 32) then some n else none

-- A leading zero of a longer string selects octal.
abbrev number_base : Bytes → ℕ
number_base (c ∷ d ∷ s) = if c == b'0' then 8 else 10
number_base s = 10

unfoldable pub parse_unsigned : Bytes → Option ℕ
parse_unsigned [] = none
parse_unsigned (c ∷ s) = elim (digits_value (number_base (c ∷ s)) 0 (c ∷ s)) [
  | none ↦ none
  | some n ↦ fits_32 n
]

infixl 5 ◌>>=?◌
abbrev ◌>>=?◌ : {A B : Type 0} → Option A → (A → Option B) → Option B
none >>=? f = none
some a >>=? f = f a

-- What follows the digits of "+<left>".
abbrev tries_done_of : ℕ → Bytes → Option (ℕ × ℕ)
tries_done_of left [] = some (left, 0)
tries_done_of left (c ∷ rest) =
    if c == b'-' && all_bytes is_digit rest
    then (parse_unsigned rest >>=? λ done. some (left, done))
    else none

unfoldable pub parse_tries : Bytes → Option (ℕ × ℕ)
parse_tries s = cut_prefix (codes "+") s >>=? λ t.
    parse_unsigned (run_of is_digit t) >>=? λ left. tries_done_of left (after_run is_digit t)

abbrev version_byte : ℕ → Bool
version_byte c =
    is_digit c || (is_alpha c || (c == b'.' || (c == b'-' || (c == b'~' || c == b'^'))))

unfoldable pub version_is_valid : Bytes → Bool
version_is_valid s = not (null s) && (leb (length s) 255 && all_bytes version_byte s)

-- An entry's name, taken apart.
pub record Entry : Type 0 where
  pub entry_version : Bytes
  pub entry_arch : Bytes
  pub left : ℕ
  pub done : ℕ

abbrev Tried : Type 0
Tried = Bytes × ℕ × ℕ

abbrev tried_or : Bytes → Bytes → Option (ℕ × ℕ) → Tried
tried_or e before none = (e, tries_unset, tries_unset)
tried_or e before (some (l, d)) = (before, l, d)

-- The boot counter behind the last '+'.
unfoldable pub cut_tries : Bytes → Tried
cut_tries e = elim (cut_last b'+' e) [
  | none ↦ (e, tries_unset, tries_unset)
  | some (before, after) ↦ tried_or e before (parse_tries (b'+' ∷ after))
]

-- The architecture behind the last '_'; `none` when it is a foreign one.
unfoldable pub cut_arch : Bytes → Bytes → Bytes → Option (Bytes × Bytes)
cut_arch native secondary e = elim (cut_last b'_' e) [
  | none ↦ some (e, [])
  | some (before, a) ↦
      let arch = if is_architecture a then a else [] in
      if not (null arch)
        && (not (same arch native) && (null secondary || not (same arch secondary)))
      then none
      else some (before, arch)
]

-- The name without the base name, the suffix, the counter and the architecture; `none` when the
-- entry is passed over.
unfoldable pub parse_entry : Bytes → Bytes → Bytes → Bytes → Bytes → Option Entry
parse_entry basename suffix native secondary dname =
    cut_prefix (basename ++ codes "_") dname >>=? λ e.
    (if null suffix then some e else cut_suffix suffix e) >>=? λ f.
    cut_arch native secondary (cut_tries f).0 >>=? λ p.
    if version_is_valid p.0
    then some (record {
      entry_version = p.0;
      entry_arch = p.1;
      left = (cut_tries f).1;
      done = (cut_tries f).2;
    })
    else none

-- filepath.Base
unfoldable pub trim_slashes : Bytes → Bytes
trim_slashes [] = []
trim_slashes (c ∷ s) = let rest = trim_slashes s in if c == b'/' && null rest then [] else c ∷ rest

unfoldable pub base : Bytes → Bytes
base [] = codes "."
base (c ∷ s) =
    let t = trim_slashes (c ∷ s) in
    elim (cut_last b'/' t) [ some (before, after) ↦ after | none ↦ if null t then codes "/" else t ]

-- `better` past the tries and the version.
unfoldable pub better_rest : Bytes → Bytes → PickResult → PickResult → Sign
better_rest native secondary a b = then_sign (cmp_bool (same a.arch native) (same b.arch native)) (
    then_sign
      (if null secondary then equal else cmp_bool (same a.arch secondary) (same b.arch secondary))
      (then_sign (cmp a.tries_left b.tries_left) (
        then_sign (flip (cmp a.tries_done b.tries_done))
          (compare_bytes (base a.path) (base b.path)))))

-- `greater` when `a` is the better pick; `none` only if `compare_versions` runs out of fuel.
unfoldable pub better : Bytes → Bytes → PickResult → PickResult → Option Sign
better native secondary a b =
    let tries = cmp_bool (not (a.tries_left == 0)) (not (b.tries_left == 0)) in
    Option.map (λ v. then_sign tries (then_sign v (better_rest native secondary a b)))
      (compare_versions a.version b.version)

-- `if best == nil || better(c, best) > 0 { best = c }`
unfoldable pub keep_better : Bytes → Bytes → PickResult → Option PickResult → Option PickResult
keep_better native secondary c none = some c
keep_better native secondary c (some best) = elim (better native secondary c best) [
  | some greater ↦ some c
  | _ ↦ some best
]

module _ {E : Type 0} (resolve : Bytes → Result E Bytes) (stat : Bytes → Result E Mode)
    (basename suffix native secondary : Bytes) (want : TypeMask) where
  abbrev picked : Bytes → Entry → PickResult
  picked path e = record {
    path = path;
    version = e.entry_version;
    arch = e.entry_arch;
    tries_left = e.left;
    tries_done = e.done;
  }

  -- The candidate that a directory entry is, if any.
  unfoldable pub candidate : Bytes → Result E (Option PickResult)
  candidate dname = elim (parse_entry basename suffix native secondary dname) [
    | none ↦ ok none
    | some e ↦ resolve dname >>= λ path.
        stat path >>= λ mode. ok (if matches want mode then some (picked path e) else none)
  ]

  abbrev kept_of : Option PickResult → Option PickResult → Option PickResult
  kept_of none best = best
  kept_of (some c) best = keep_better native secondary c best

  -- The loop over the sorted names of the directory.
  unfoldable pub pick_from : Option PickResult → List Bytes → Result E (Option PickResult)
  pick_from best [] = ok best
  pick_from best (dname ∷ names) = candidate dname >>= λ c. pick_from (kept_of c best) names

  -- `names` is the result of Chase and readDirNames on the directory.
  unfoldable pub pick_version : Result E (List Bytes) → Result E (Option PickResult)
  pick_version names = names >>= pick_from none
