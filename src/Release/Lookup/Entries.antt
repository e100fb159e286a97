-- ===== src/Release/Lookup/Entries.antt =====
-- internal/release/lookup.go: which entries of a release directory are candidates, without the order of the tests.
use sysext_alpine.Base.{
  ◌≡◌, ◌≢◌, refl, sym, subst, some_eq, ◌↔◌, ◌⊎◌, inl, inr, Bool, true, false, not, ◌||◌, Option,
  none, some, Result, ok, err, Bytes, codes, same_iff, cut_prefix, join_path, Bool-cases,
  if◌then◌else◌, arith,
}
use sysext_alpine.Files.Chase.{ChaseError}
use sysext_alpine.Release.Names.{image_name_is_valid, hidden_or_backup_file}
use sysext_alpine.Release.Lookup.{
  Tree, image_base_name, strict_xattr_is_false, fits, found_file, with_suffix, inspect,
}

or_iff : (a b : Bool) {P : Type 0} → (b ≡ true) ↔ P → ((a || b) ≡ true) ↔ ((a ≡ true) ⊎ P)
or_iff true b p = (λ h. inl refl, λ h. refl)
or_iff false b p = (λ h. inr (p.0 h), λ h. elim h [ inl e ↦ cc | inr e ↦ p.1 e ])

gate_some :
    (hidden is_regular : Bool) (path : Bytes) {m : Result ChaseError (Option Bytes)} {Q : Type 0}
    → (m ≡ ok (some path)) ↔ Q
    → ((if hidden || not is_regular then ok none else m) ≡ ok (some path))
      ↔ ((hidden ≡ false) × (is_regular ≡ true) × Q)
gate_some true r path q = (λ h. cc, λ h. cc)
gate_some false false path q = (λ h. cc, λ h. cc)
gate_some false true path q = (λ h. (refl, refl, q.0 h), λ (a, b, c). q.1 c)

gate_err :
    (hidden is_regular : Bool) (c : ChaseError) {m : Result ChaseError (Option Bytes)}
    → (if hidden || not is_regular then ok none else m) ≡ err c
    → (hidden ≡ false) × (is_regular ≡ true) × (m ≡ err c)
gate_err true r c h = cc
gate_err false false c h = cc
gate_err false true c h = (refl, refl, h)

pub none_found : {r : Result ChaseError (Option Bytes)} {p : Bytes} → r ≡ ok none → r ≢ ok (some p)
none_found h k = cc

pub no_error :
    {r : Result ChaseError (Option Bytes)} {o : Option Bytes} {c : ChaseError}
    → r ≡ ok o
    → r ≢ err c
no_error h k = cc

module _ (T : Tree) (dir name : Bytes) (relax : Bool) where
  -- The suffix is the image's base name, or the file says that it need not be.
  abbrev pub Fits : Bytes → Bytes → Type 0
  Fits suffix path =
      (relax ≡ true)
      ⊎ ((base : Bytes) × (image_base_name name ≡ some base)
          × ((suffix ≡ base) ⊎ (strict_xattr_is_false T path ≡ true)))

  -- A visible regular file called 'extension-release.' and a valid name.
  abbrev pub IsNamed : Bytes × Bool → Bytes → Type 0
  IsNamed (fname, is_regular) suffix =
      (hidden_or_backup_file fname ≡ false)
      × (is_regular ≡ true)
      × (cut_prefix (codes "extension-release.") fname ≡ some suffix)
      × (image_name_is_valid suffix ≡ true)

  abbrev pub Qualifies : Bytes × Bool → Bytes → Type 0
  Qualifies e path =
      (suffix : Bytes) × IsNamed e suffix
      × (path ≡ join_path dir e.0)
      × (T.lstat_regular (join_path dir e.0) ≡ ok true)
      × Fits suffix (join_path dir e.0)

  -- The entry is no candidate, and looking at it does not fail.
  abbrev pub IsPassed : Bytes × Bool → Type 0
  IsPassed e =
      ((path : Bytes) → ¬ Qualifies e path)
      × ((suffix : Bytes) (c : ChaseError)
          → IsNamed e suffix
          → T.lstat_regular (join_path dir e.0) ≢ err c)

  fits-some :
      (suffix path : Bytes) (b : Option Bytes)
      → (fits T dir name relax suffix path b ≡ true) ↔ (
          (base : Bytes) × (b ≡ some base)
          × ((suffix ≡ base) ⊎ (strict_xattr_is_false T path ≡ true)))
  fits-some suffix path none = (λ h. cc, λ h. cc)
  fits-some suffix path (some base) = (
    λ h. (base, refl, ground (arith, same_iff suffix base)),
    λ h. ground (arith, same_iff suffix base),
  )

  fits_iff :
      (suffix path : Bytes)
      → ((relax || fits T dir name relax suffix path (image_base_name name)) ≡ true)
        ↔ Fits suffix path
  fits_iff suffix path =
      or_iff relax (fits T dir name relax suffix path (image_base_name name))
        (fits-some suffix path (image_base_name name))

  -- What an entry called `fname` is by its name, its type and its suffix, and by what Lstat says.
  found_some :
      (suffix path p : Bytes) (found : Result ChaseError Bool)
      → (found_file T dir name relax suffix path found ≡ ok (some p))
        ↔ ((p ≡ path) × (found ≡ ok true) × Fits suffix path)
  found_some suffix path p (err e) = (λ h. cc, λ h. cc)
  found_some suffix path p (ok false) = (λ h. cc, λ h. cc)
  found_some suffix path p (ok true) =
      (λ h. ground (arith, fits_iff suffix path), λ h. ground (arith, fits_iff suffix path))

  found_err :
      (suffix path : Bytes) (c : ChaseError) (found : Result ChaseError Bool)
      → found_file T dir name relax suffix path found ≡ err c
      → found ≡ err c
  found_err suffix path c (err e) h = cc
  found_err suffix path c (ok false) h = cc
  found_err suffix path c (ok true) h = cc

  with_suffix-some :
      (fname p : Bytes) (o : Option Bytes)
      → (with_suffix T dir name relax fname o ≡ ok (some p)) ↔ (
          (suffix : Bytes) × (o ≡ some suffix)
          × (image_name_is_valid suffix ≡ true)
          × (p ≡ join_path dir fname)
          × (T.lstat_regular (join_path dir fname) ≡ ok true)
          × Fits suffix (join_path dir fname))
  with_suffix-some fname p none = (λ h. cc, λ h. cc)
  with_suffix-some fname p (some suffix) =
      let path = join_path dir fname in
      let found = found_some suffix path p (T.lstat_regular path) in
      elim (Bool-cases (image_name_is_valid suffix)) [
        | inl v ↦ rw v (
          λ h. let (a, b, c) = found.0 h in (suffix, refl, v, a, b, c),
          λ (s, e, w, a, b, c). found.1 (a, b, subst (λ s. Fits s path) (some_eq (sym e)) c),
        )
        | inr v ↦ rw v (λ h. cc, λ (s, e, w, a, b, c). cc)
      ]

  with_suffix-err :
      (fname : Bytes) (c : ChaseError) (o : Option Bytes)
      → with_suffix T dir name relax fname o ≡ err c
      → (suffix : Bytes) × (o ≡ some suffix)
        × (image_name_is_valid suffix ≡ true)
        × (T.lstat_regular (join_path dir fname) ≡ err c)
  with_suffix-err fname c none h = cc
  with_suffix-err fname c (some suffix) h = elim (Bool-cases (image_name_is_valid suffix)) [
    | inl v ↦ (
      suffix,
      refl,
      v,
      found_err suffix (join_path dir fname) c (T.lstat_regular (join_path dir fname)) (rw v at h),
    )
    | inr v ↦ cc
  ]

  pub inspect-some :
      (e : Bytes × Bool) (path : Bytes)
      → (inspect T dir name relax e ≡ ok (some path)) ↔ Qualifies e path
  unfolding inspect
  inspect-some (fname, is_regular) path =
      let named = with_suffix-some fname path (cut_prefix (codes "extension-release.") fname) in
      let shown = gate_some (hidden_or_backup_file fname) is_regular path named in
      (
        λ h. let (a, b, (s, c, d, e, f, g)) = shown.0 h in (s, (a, b, c, d), e, f, g),
        λ (s, (a, b, c, d), e, f, g). shown.1 (a, b, (s, c, d, e, f, g)),
      )

  inspect-err :
      (e : Bytes × Bool) (c : ChaseError)
      → inspect T dir name relax e ≡ err c
      → (suffix : Bytes) × IsNamed e suffix × (T.lstat_regular (join_path dir e.0) ≡ err c)
  unfolding inspect
  inspect-err (fname, is_regular) c h =
      let (a, b, m) = gate_err (hidden_or_backup_file fname) is_regular c h in
      let (s, d, e, f) =
        with_suffix-err fname c (cut_prefix (codes "extension-release.") fname) m in
      (s, (a, b, d, e), f)

  inspect-fails :
      (e : Bytes × Bool) (suffix : Bytes) (c : ChaseError)
      → IsNamed e suffix
      → T.lstat_regular (join_path dir e.0) ≡ err c
      → inspect T dir name relax e ≡ err c
  unfolding inspect
  inspect-fails (fname, is_regular) suffix c (a, b, d, e) f = rw (a, b, d) (rw (e, f) refl)

  pub inspect-none : (e : Bytes × Bool) → (inspect T dir name relax e ≡ ok none) ↔ IsPassed e
  inspect-none e = (
    λ h. (
      λ p q. none_found h ((inspect-some e p).1 q),
      λ s c n l. no_error h (inspect-fails e s c n l),
    ),
    λ (not_one, fine).
        elim (inspect T dir name relax e) as (λ r. inspect T dir name relax e ≡ r → r ≡ ok none) [
          | err c ↦ λ h. let (s, n, l) = inspect-err e c h in absurd (fine s c n l)
          | ok o ↦
              elim o
                as (λ o.
                  inspect T dir name relax e ≡ ok o
                  → ◌≡◌ {A = Result ChaseError (Option Bytes)} (ok o) (ok none)) [
                    | none ↦ λ h. refl
                    | some p ↦ λ h. absurd (not_one p ((inspect-some e p).0 h))
                  ]
        ]
          refl,
  )
