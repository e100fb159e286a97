-- ===== src/Overlay/Submounts/Top.antt =====
-- internal/overlay/mounts.go, `selectTop`: no path that is left is below another one, and every path
-- is below one that is left.
use sysext_alpine.Base.{
  ℕ, zero, suc, ◌<◌, ◌≡◌, ◌⊎◌, refl, sym, ap, ◌∙◌, inl, inr, Bool, true, false, not, ◌&&◌, List, [],
  ◌∷◌, ◌++◌, Bytes, same, same_iff, any, length, length-append, append_assoc, All, Bool-cases,
  arith,
}
use sysext_alpine.Files.Chase.Rooted.{IsRooted}
use sysext_alpine.Files.Mounts.{is_below}
use sysext_alpine.Files.Mounts.Inside.{rooted, StartsWith, is_below-StartsWith}
use sysext_alpine.Overlay.Submounts.{is_nested, top_of, select_top}

-- A path is one of a list.
abbrev pub In : Bytes → List Bytes → Type 0
In p [] = ⊥
In p (q ∷ qs) = (p ≡ q) ⊎ In p qs

any-In :
    (f : Bytes → Bool) (xs : List Bytes) → any f xs ≡ true → (x : Bytes) × In x xs × (f x ≡ true)
any-In f [] h = cc
any-In f (x ∷ xs) h = elim (Bool-cases (f x)) [
  | inl e ↦ (x, inl refl, e)
  | inr e ↦ later e (any-In f xs (ground arith))
]
  where
    later :
        f x ≡ false
        → (y : Bytes) × In y xs × (f y ≡ true)
        → (y : Bytes) × In y (x ∷ xs) × (f y ≡ true)
    later e (y, m, k) = (y, inr m, k)

In-any : (f : Bytes → Bool) (xs : List Bytes) (x : Bytes) → In x xs → any f xs ≡ false → f x ≡ false
In-any f [] x m h = absurd m
In-any f (y ∷ ys) x (inl e) h = ap f e ∙ ground arith
In-any f (y ∷ ys) x (inr m) h = In-any f ys x m (ground arith)

top_of-In :
    (all ps : List Bytes) (p : Bytes) → In p ps → is_nested all p ≡ false → In p (top_of all ps)
unfolding top_of
top_of-In all [] p m h = absurd m
top_of-In all (q ∷ qs) p (inl e) h =
    let k : is_nested all q ≡ false = ap (is_nested all) (sym e) ∙ h in rw k (inl e)
top_of-In all (q ∷ qs) p (inr m) h = elim (Bool-cases (is_nested all q)) [
  | inl e ↦ rw e (top_of-In all qs p m h)
  | inr e ↦ rw e (inr (top_of-In all qs p m h))
]

In-top_of :
    (all ps : List Bytes) (p : Bytes) → In p (top_of all ps) → In p ps × (is_nested all p ≡ false)
unfolding top_of
In-top_of all [] p m = absurd m
In-top_of all (q ∷ qs) p m = elim (Bool-cases (is_nested all q)) [
  | inl e ↦ skipped (In-top_of all qs p (rw e at m))
  | inr e ↦ kept e (In-top_of all qs p) (rw e at m)
]
  where
    skipped : In p qs × (is_nested all p ≡ false) → In p (q ∷ qs) × (is_nested all p ≡ false)
    skipped (a, b) = (inr a, b)

    kept :
        is_nested all q ≡ false
        → (In p (top_of all qs) → In p qs × (is_nested all p ≡ false))
        → In p (q ∷ top_of all qs)
        → In p (q ∷ qs) × (is_nested all p ≡ false)
    kept e ih (inl k) = (inl k, ap (is_nested all) k ∙ e)
    kept e ih (inr k) = skipped (ih k)

-- Clean absolute paths, as the kernel writes them.
abbrev pub Below : Bytes → Bytes → Type 0
Below p q = is_below p q ≡ true

In-All : (P : Bytes → Type 0) (xs : List Bytes) (x : Bytes) → All P xs → In x xs → P x
In-All P [] x h m = absurd m
In-All P (y ∷ ys) x (a, h) (inl e) = rw e a
In-All P (y ∷ ys) x (a, h) (inr m) = In-All P ys x h m

StartsWith-trans : (a b c : List Bytes) → StartsWith a b → StartsWith b c → StartsWith a c
StartsWith-trans a b c (x, e) (y, k) = (y ++ x, e ∙ ap (λ r. r ++ x) k ∙ append_assoc c y x)

StartsWith-of : (p q : Bytes) (h : IsRooted p) (k : IsRooted q) → Below p q → StartsWith h.0 k.0
StartsWith-of p q (ps, a, e) (qs, b, f) h =
    (is_below-StartsWith ps qs a b).0
      (sym (ap (λ x. is_below x (rooted qs)) e) ∙ sym (ap (is_below p) f) ∙ h)

Below-of : (p q : Bytes) (h : IsRooted p) (k : IsRooted q) → StartsWith h.0 k.0 → Below p q
Below-of p q (ps, a, e) (qs, b, f) s =
    ap (is_below p) f ∙ ap (λ x. is_below x (rooted qs)) e ∙ (is_below-StartsWith ps qs a b).1 s

Below-trans :
    (p q r : Bytes) → IsRooted p → IsRooted q → IsRooted r → Below p q → Below q r → Below p r
Below-trans p q r h k l a b =
    Below-of p r h l
      (StartsWith-trans h.0 k.0 l.0 (StartsWith-of p q h k a) (StartsWith-of q r k l b))

Below-refl : (p : Bytes) → IsRooted p → Below p p
Below-refl p h = Below-of p p h h ([], sym (append_end h.0))
  where
    append_end : (xs : List Bytes) → xs ++ [] ≡ xs
    append_end [] = refl
    append_end (x ∷ xs) = ap (λ r. x ∷ r) (append_end xs)

-- A path below another one has more components.
longer :
    (p q : Bytes) (h : IsRooted p) (k : IsRooted q)
    → same q p ≡ false
    → Below p q
    → length k.0 < length h.0
longer p q (ps, a, e) (qs, b, f) n h = strict (StartsWith-of p q (ps, a, e) (qs, b, f) h)
  where
    append_end : (xs : List Bytes) → xs ++ [] ≡ xs
    append_end [] = refl
    append_end (x ∷ xs) = ap (λ r. x ∷ r) (append_end xs)

    strict : StartsWith ps qs → length qs < length ps
    strict ([], s) =
        absurd (clash ((same_iff q p).1 (f ∙ ap rooted (sym (s ∙ append_end qs)) ∙ sym e)) n)
      where
        clash : same q p ≡ true → same q p ≡ false → ⊥
        clash x y = cc
    strict (w ∷ ws, s) = omega (arith, ap length s, length-append qs (w ∷ ws))

covered :
    (all : List Bytes)
    → All IsRooted all
    → (n : ℕ) (p : Bytes) (h : IsRooted p) → length h.0 < n
    → In p all
    → (t : Bytes) × In t (select_top all) × Below p t
unfolding select_top is_nested
covered all r zero p h l m = absurd (omega arith)
covered all r (suc n) p h l m = elim (Bool-cases (is_nested all p)) [
  | inr e ↦ (p, top_of-In all all p m e, Below-refl p h)
  | inl e ↦ above (covered all r n) (any-In _ all e)
]
  where
    above :
        ((q : Bytes) (k : IsRooted q)
          → length k.0 < n
          → In q all
          → (t : Bytes) × In t (select_top all) × Below q t)
        → (q : Bytes) × In q all × ((not (same q p) && is_below p q) ≡ true)
        → (t : Bytes) × In t (select_top all) × Below p t
    above ih (q, k, b) =
        let apart : same q p ≡ false = ground arith in
        let under : is_below p q ≡ true = ground arith in
        let hq = In-All IsRooted all q r k in
        let (t, i, u) = ih q hq (omega (arith, longer p q h hq apart under)) k in
        (t, i, Below-trans p q t h hq (In-All IsRooted all t r (In-top_of all all t i).0) under u)

-- Among clean absolute paths, every one is below one that `selectTop` leaves, what it leaves is among
-- them, and nothing that is left is below another one of them.
pub select_top-Below :
    (all : List Bytes)
    → All IsRooted all
    → ((p : Bytes) → In p all → (t : Bytes) × In t (select_top all) × Below p t)
      × ((p : Bytes) → In p (select_top all) → In p all)
      × ((p q : Bytes) → In p (select_top all) → In q all → same q p ≡ false → is_below p q ≡ false)
unfolding select_top is_nested
select_top-Below all r = (
  λ p m. let h = In-All IsRooted all p r m in covered all r (suc (length h.0)) p h (omega arith) m,
  λ p m. (In-top_of all all p m).0,
  λ p q m k n.
      let e = In-any (λ x. not (same x p) && is_below p x) all q k (In-top_of all all p m).1 in
      ground arith,
)
