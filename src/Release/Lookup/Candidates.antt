-- ===== src/Release/Lookup/Candidates.antt =====
-- internal/release/lookup.go: which file `lookupExtensionRelease` finds, without the loop that finds it.
use sysext_alpine.Base.{
  ◌≡◌, refl, ap, sym, subst, some_eq, ◌↔◌, ◌⊎◌, inl, inr, Bool, true, false, List, [], ◌∷◌, ◌++◌,
  Option, none, some, Result, ok, err, ok_eq, Bytes, codes, All, if◌then◌else◌,
}
use sysext_alpine.Files.Chase.{ChaseError, enoent, eloop, enotdir, other}
use sysext_alpine.Release.Class.{Class}
use sysext_alpine.Release.Names.{image_name_is_valid}
use sysext_alpine.Release.Lookup.{
  Tree, LookupError, invalid_name, next_unless_found, chase_in_tree, inspect, one_more, scan,
  scan_dir, scan_in, release_dir, lookup_extension_release,
}
use sysext_alpine.Release.Lookup.Entries.{
  none_found, no_error, IsPassed, Qualifies, inspect-some, inspect-none,
}

module _ (T : Tree) (dir name : Bytes) (relax : Bool) where
  -- One entry is the file, and every other is passed.
  abbrev pub IsOnly : Bytes → List (Bytes × Bool) → Type 0
  IsOnly path [] = ⊥
  IsOnly path (e ∷ es) =
      (Qualifies T dir name relax e path × All (IsPassed T dir name relax) es)
      ⊎ (IsPassed T dir name relax e × IsOnly path es)

  another :
      (r : Result ChaseError (Option Bytes)) (next : Option Bytes → Result LookupError Bytes)
      (found path : Bytes) {Passed Others : Type 0}
      → (r ≡ ok none) ↔ Passed
      → (next (some found) ≡ ok path) ↔ ((found ≡ path) × Others)
      → (one_more T dir name relax (some found) r next ≡ ok path)
        ↔ ((found ≡ path) × (Passed × Others))
  another (err c) next found path passed others =
      (λ h. cc, λ (a, (b, o)). absurd (no_error (passed.1 b) refl))
  another (ok none) next found path passed others =
      (λ h. let (a, o) = others.0 h in (a, (passed.0 refl, o)), λ (a, (b, o)). others.1 (a, o))
  another (ok (some p)) next found path passed others =
      (λ h. cc, λ (a, (b, o)). absurd (none_found (passed.1 b) refl))

  first :
      (r : Result ChaseError (Option Bytes)) (next : Option Bytes → Result LookupError Bytes)
      (path : Bytes) {Passed Others Only : Type 0} {Found : Bytes → Type 0}
      → (r ≡ ok none) ↔ Passed
      → ((p : Bytes) → (r ≡ ok (some p)) ↔ Found p)
      → ((p : Bytes) → (next (some p) ≡ ok path) ↔ ((p ≡ path) × Others))
      → (next none ≡ ok path) ↔ Only
      → (one_more T dir name relax none r next ≡ ok path)
        ↔ ((Found path × Others) ⊎ (Passed × Only))
  first (err c) next path passed found others only = (
    λ h. cc,
    λ h. elim h [
      | inl (f, o) ↦ absurd (no_error ((found path).1 f) refl)
      | inr (b, o) ↦ absurd (no_error (passed.1 b) refl)
    ],
  )
  first (ok none) next path passed found others only = (
    λ h. inr (passed.0 refl, only.0 h),
    λ h. elim h [
      | inl (f, o) ↦ absurd (none_found refl ((found path).1 f))
      | inr (b, o) ↦ only.1 o
    ],
  )
  first (ok (some p)) next path {Found = Found} passed found others only = (
    λ h. let (a, o) = (others p).0 h in inl (subst Found a ((found p).0 refl), o),
    λ h. elim h [
      | inl (f, o) ↦ (others p).1 (some_eq (ok_eq ((found path).1 f)), o)
      | inr (b, o) ↦ absurd (none_found (passed.1 b) refl)
    ],
  )

  scan_found :
      (es : List (Bytes × Bool)) (found path : Bytes)
      → (scan T dir name relax es (some found) ≡ ok path)
        ↔ ((found ≡ path) × All (IsPassed T dir name relax) es)
  unfolding scan
  scan_found [] found path = (λ h. (ok_eq h, tt), λ (e, t). ap ok e)
  scan_found (e ∷ es) found path =
      another (inspect T dir name relax e) (scan T dir name relax es) found path
        (inspect-none T dir name relax e) (scan_found es found path)

  scan-none :
      (es : List (Bytes × Bool)) (path : Bytes)
      → (scan T dir name relax es none ≡ ok path) ↔ IsOnly path es
  unfolding scan
  scan-none [] path = (λ h. cc, λ h. absurd h)
  scan-none (e ∷ es) path =
      first (inspect T dir name relax e) (scan T dir name relax es) path
        (inspect-none T dir name relax e) (inspect-some T dir name relax e)
        (λ p. scan_found es p path) (scan-none es path)

-- The file 'extension-release.NAME' in the class's release directory.
abbrev pub own_file : Bytes → Class → Bytes
own_file name class = release_dir class ++ (codes "/extension-release." ++ name)

module _ (T : Tree) where
  scan_dir_iff :
      (dir name path : Bytes) (relax : Bool) (listed : Result ChaseError (List (Bytes × Bool)))
      → (scan_dir T dir name relax listed ≡ ok path) ↔ (
          (entries : List (Bytes × Bool)) × (listed ≡ ok entries)
          × IsOnly T dir name relax path entries)
  scan_dir_iff dir name path relax (err e) = (λ h. cc, λ (es, l, o). cc)
  scan_dir_iff dir name path relax (ok entries) =
      let one = scan-none T dir name relax entries path in
      (
        λ h. (entries, refl, one.0 h),
        λ (es, l, o). one.1 (subst (IsOnly T dir name relax path) (sym (ok_eq l)) o),
      )

  -- The directory is there, and holds one fitting file.
  abbrev pub FoundIn : Bytes → Bool → Bytes → Result ChaseError Bytes → Type 0
  FoundIn name relax path at_dir =
      (dir : Bytes) × (entries : List (Bytes × Bool)) × (at_dir ≡ ok dir)
      × (T.read_dir dir ≡ ok entries)
      × IsOnly T dir name relax path entries

  scan_in_iff :
      (name path : Bytes) (relax : Bool) (at_dir : Result ChaseError Bytes)
      → (scan_in T name relax at_dir ≡ ok path) ↔ FoundIn name relax path at_dir
  scan_in_iff name path relax (err e) = (λ h. cc, λ (d, es, c, l, o). cc)
  scan_in_iff name path relax (ok dir) =
      let one = scan_dir_iff dir name path relax (T.read_dir dir) in
      (
        λ h. let (es, l, o) = one.0 h in (dir, es, refl, l, o),
        λ (d, es, c, l, o).
            subst
              (λ d.
                T.read_dir d ≡ ok es
                → IsOnly T d name relax path es
                → scan_dir T dir name relax (T.read_dir dir) ≡ ok path)
              (ok_eq c) (λ l o. one.1 (es, l, o)) l o,
      )

  chased_iff :
      (direct : Result ChaseError Bytes) (path : Bytes) {next : Result LookupError Bytes}
      {Q : Type 0}
      → (next ≡ ok path) ↔ Q
      → (next_unless_found direct next ≡ ok path)
        ↔ ((direct ≡ ok path) ⊎ ((direct ≡ err enoent) × Q))
  chased_iff (ok p) path q =
      (λ h. inl (ap ok (ok_eq h)), λ h. elim h [ inl e ↦ ap ok (ok_eq e) | inr e ↦ cc ])
  chased_iff (err enoent) path q =
      (λ h. inr (refl, q.0 h), λ h. elim h [ inl e ↦ cc | inr (e, r) ↦ q.1 r ])
  chased_iff (err eloop) path q = (λ h. cc, λ h. elim h [ inl e ↦ cc | inr (e, r) ↦ cc ])
  chased_iff (err enotdir) path q = (λ h. cc, λ h. elim h [ inl e ↦ cc | inr (e, r) ↦ cc ])
  chased_iff (err (other n)) path q = (λ h. cc, λ h. elim h [ inl e ↦ cc | inr (e, r) ↦ cc ])

  guarded_iff :
      (valid : Bool) (path : Bytes) {m : Result LookupError Bytes} {Q : Type 0}
      → (m ≡ ok path) ↔ Q
      → ((if valid then m else err invalid_name) ≡ ok path) ↔ ((valid ≡ true) × Q)
  guarded_iff true path q = (λ h. (refl, q.0 h), λ (v, h). q.1 h)
  guarded_iff false path q = (λ h. cc, λ (v, h). cc)

  -- `lookupExtensionRelease` finds a file exactly when the name is valid and the file is the image's own
  -- release file, resolved inside the tree, or there is none and the release directory, resolved
  -- inside the tree, has exactly one entry that qualifies, which is the file, while looking at the
  -- other entries does not fail. An entry qualifies when it is neither hidden nor a backup, a regular
  -- file by its entry and by Lstat, called 'extension-release.' and a valid name, and the caller is
  -- relaxed, or the image has a base name which is that name or which the file need not match by its
  -- extended attribute.
  pub lookup_extension_release_iff :
      (root name : Bytes) (class : Class) (relax : Bool) (path : Bytes)
      → (lookup_extension_release T root name class relax ≡ ok path) ↔ (
          (image_name_is_valid name ≡ true)
          × ((chase_in_tree T root (own_file name class) ≡ ok path)
              ⊎ ((chase_in_tree T root (own_file name class) ≡ err enoent)
                  × FoundIn name relax path (chase_in_tree T root (release_dir class)))))
  unfolding lookup_extension_release
  lookup_extension_release_iff root name class relax path =
      guarded_iff (image_name_is_valid name) path (
        chased_iff (chase_in_tree T root (own_file name class)) path
          (scan_in_iff name path relax (chase_in_tree T root (release_dir class))))
