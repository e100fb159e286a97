-- ===== src/Files/Mounts/Inside.antt =====
-- internal/fsutil/mount.go, `IsBelow`: on clean absolute paths it compares components.
use sysext_alpine.Base.{
  ◌≡◌, ◌↔◌, refl, sym, ap, ap₂, ◌∙◌, inl, inr, Bool, true, false, not, ◌&&◌, List, [], ◌∷◌, ◌++◌,
  Bytes, same, same_refl, same_iff, null, All, join, is_abs, reversed, append_nil, Bool-cases,
  &&_iff, not-eq-false, append_assoc,
}
use sysext_alpine.Files.Chase.Rooted.{IsComponent}
use sysext_alpine.Files.Chase.Below.{clean_from-slash, reversed_twice}
use sysext_alpine.Files.Mounts.{components, drop_common, goes_up, same_kind, is_below}

abbrev pub rooted : List Bytes → Bytes
rooted ws = b'/' ∷ join b'/' ws

components-rooted : (ws : List Bytes) → All IsComponent ws → components (rooted ws) ≡ ws
unfolding components is_abs reversed
components-rooted ws h =
    ap (reversed []) (clean_from-slash ws [] h) ∙ reversed_twice ws [] [] ∙ append_nil ws

-- One list of components starts with the other.
abbrev pub StartsWith : List Bytes → List Bytes → Type 0
StartsWith ps ds = (more : List Bytes) × (ps ≡ ds ++ more)

drop_common-append : (ds more : List Bytes) → drop_common ds (ds ++ more) ≡ ([], more)
unfolding drop_common
drop_common-append [] more = refl
drop_common-append (d ∷ ds) more = rw (same_refl d) (drop_common-append ds more)

drop_common-StartsWith : (ds ps : List Bytes) → null (drop_common ds ps).0 ≡ true → StartsWith ps ds
unfolding drop_common
drop_common-StartsWith [] ps h = (ps, refl)
drop_common-StartsWith (d ∷ ds) [] h = cc
drop_common-StartsWith (d ∷ ds) (p ∷ ps) h = elim (Bool-cases (same d p)) [
  | inl e ↦ further e (drop_common-StartsWith ds ps (rw e at h))
  | inr e ↦ differ (rw e at h)
]
  where
    further : same d p ≡ true → StartsWith ps ds → StartsWith (p ∷ ps) (d ∷ ds)
    further e (more, q) = (more, ap₂ (λ x y. x ∷ y) (sym ((same_iff d p).0 e)) q)

    differ : false ≡ true → StartsWith (p ∷ ps) (d ∷ ds)
    differ e = cc

goes_up-append : (ds more : List Bytes) → All IsComponent (ds ++ more) → goes_up more ≡ false
goes_up-append [] [] h = refl
goes_up-append [] (w ∷ ws) ((a, b, c, d), h) = c
goes_up-append (d ∷ ds) more (a, h) = goes_up-append ds more h

below_test : List Bytes × List Bytes → Bool
below_test r = null r.0 && not (goes_up r.1)

is_below-test :
    (ps ds : List Bytes)
    → All IsComponent ps
    → All IsComponent ds
    → is_below (rooted ps) (rooted ds) ≡ below_test (drop_common ds ps)
unfolding is_below is_abs below_test
is_below-test ps ds h k =
    ap₂ (λ x y. below_test (drop_common x y)) (components-rooted ds k) (components-rooted ps h)

-- A clean absolute path is below a clean absolute directory, or is the directory itself, exactly when
-- its components start with those of the directory: "/usr2" is not below "/usr".
pub is_below-StartsWith :
    (ps ds : List Bytes)
    → All IsComponent ps
    → All IsComponent ds
    → (is_below (rooted ps) (rooted ds) ≡ true) ↔ StartsWith ps ds
unfolding below_test
is_below-StartsWith ps ds h k = (
  λ e. drop_common-StartsWith ds ps ((&&_iff _ _).0 (sym (is_below-test ps ds h k) ∙ e)).0,
  λ s.
      is_below-test ps ds h k
      ∙ ap below_test (ap (drop_common ds) s.1 ∙ drop_common-append ds s.0)
      ∙ ap not (goes_up-append ds s.0 (subst_all s)),
)
  where
    subst_all : (s : StartsWith ps ds) → All IsComponent (ds ++ s.0)
    subst_all (more, q) = rw (sym q) h

goes_up-below :
    (ds more : List Bytes)
    → goes_up ds ≡ false
    → goes_up more ≡ false
    → goes_up (ds ++ more) ≡ false
goes_up-below [] more h k = k
goes_up-below (d ∷ ds) more h k = h

starts :
    (ds ps : List Bytes)
    → below_test (drop_common ds ps) ≡ true
    → (more : List Bytes) × (ps ≡ ds ++ more) × (goes_up more ≡ false)
unfolding below_test
starts ds ps h =
    let (more, e) = drop_common-StartsWith ds ps ((&&_iff _ _).0 h).0 in
    let rest : below_test (drop_common ds ps) ≡ below_test ([], more) =
      ap (λ q. below_test (drop_common ds q)) e ∙ ap below_test (drop_common-append ds more) in
    (more, e, not-eq-false (goes_up more) (sym rest ∙ h))

below_test_trans :
    (ws ds ps : List Bytes)
    → below_test (drop_common ds ps) ≡ true
    → below_test (drop_common ws ds) ≡ true
    → below_test (drop_common ws ps) ≡ true
unfolding below_test
below_test_trans ws ds ps h k =
    let (more, e, a) = starts ds ps h in
    let (under, f, b) = starts ws ds k in
    ap (λ q. below_test (drop_common ws q)) (e ∙ ap (λ r. r ++ more) f ∙ append_assoc ws under more)
    ∙ ap below_test (drop_common-append ws (under ++ more))
    ∙ ap not (goes_up-below under more b a)

same_kind_trans :
    (a b c : Bool) → same_kind b a ≡ true → same_kind c b ≡ true → same_kind c a ≡ true
same_kind_trans true true true h k = refl
same_kind_trans false false false h k = refl
same_kind_trans true true false h k = k
same_kind_trans true false true h k = refl
same_kind_trans true false false h k = h
same_kind_trans false true true h k = h
same_kind_trans false true false h k = refl
same_kind_trans false false true h k = k

-- Being below is transitive on all paths.
pub is_below_trans :
    (p d w : Bytes) → is_below p d ≡ true → is_below d w ≡ true → is_below p w ≡ true
unfolding is_below below_test
is_below_trans p d w h k =
    let a = (&&_iff _ _).0 h in
    let b = (&&_iff _ _).0 k in
    (&&_iff _ _).1 (
      same_kind_trans (is_abs p) (is_abs d) (is_abs w) a.0 b.0,
      below_test_trans (components w) (components d) (components p) a.1 b.1,
    )
