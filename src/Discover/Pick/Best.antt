-- ===== src/Discover/Pick/Best.antt =====
-- internal/discover/vpick.go: the entry that `pickVersion` returns is a best one.
use sysext_alpine.Base.{
  some_eq, ok_eq, ◌≡◌, ◌≢◌, refl, sym, ap, ◌∙◌, subst, ◌⊎◌, inl, inr, List, [], ◌∷◌, Option, none,
  some, Result, ok, >>=-eq-ok, Bytes, Sign, less, equal, greater, flip, All,
}
use sysext_alpine.Discover.Pick.{
  Mode, TypeMask, PickResult, better, keep_better, candidate, kept_of, pick_from, pick_version,
}
use sysext_alpine.Discover.Pick.Order.{better_order}

flip-greater : (s : Sign) → s ≡ flip s → s ≢ greater
flip-greater less h e = cc
flip-greater equal h e = cc
flip-greater greater h e = cc

none-ne-some : {A : Type 0} {a : A} → none ≢ some a
none-ne-some e = cc

less-ne-greater : less ≢ greater
less-ne-greater e = cc

equal-ne-greater : equal ≢ greater
equal-ne-greater e = cc

-- Some element has the property.
abbrev pub OneOf : (Bytes → Type 0) → List Bytes → Type 0
OneOf P [] = ⊥
OneOf P (n ∷ ns) = P n ⊎ OneOf P ns

module _ (native secondary : Bytes) where
  -- The candidate is no better than the pick; without a pick there is no candidate.
  abbrev pub IsBelow : PickResult → Option PickResult → Type 0
  IsBelow c none = ⊥
  IsBelow c (some best) = better native secondary c best ≢ some greater

  abbrev IsBelowOption : Option PickResult → Option PickResult → Type 0
  IsBelowOption none r = Unit
  IsBelowOption (some c) r = IsBelow c r

  better_self : (c : PickResult) → better native secondary c c ≢ some greater
  better_self c e =
      let (s, p, q, t) = better_order native secondary c c c in
      flip-greater s (some_eq (sym p ∙ q)) (some_eq (sym p ∙ e))

  IsBelow-trans :
      (c : PickResult) (b r : Option PickResult) → IsBelow c b → IsBelowOption b r → IsBelow c r
  IsBelow-trans c none r h k = absurd h
  IsBelow-trans c (some b) none h k = k
  IsBelow-trans c (some b) (some r) h k =
      let (s, p, q, t) = better_order native secondary c b r in t (λ e. h (p ∙ ap some e)) k

  IsBelowOption-trans :
      (a b r : Option PickResult) → IsBelowOption a b → IsBelowOption b r → IsBelowOption a r
  IsBelowOption-trans none b r h k = tt
  IsBelowOption-trans (some c) b r h k = IsBelow-trans c b r h k

  better-flip :
      (c b : PickResult)
      → better native secondary c b ≡ some greater
      → better native secondary b c ≢ some greater
  better-flip c b h e =
      let (s, p, q, t) = better_order native secondary c b c in
      let less_than =
        subst (λ s. better native secondary b c ≡ some (flip s)) (some_eq (sym p ∙ h)) q in
      less-ne-greater (some_eq (sym less_than ∙ e))

  Keeps : PickResult → Option PickResult → Option PickResult → Type 0
  Keeps c best k = IsBelow c k × IsBelowOption best k × ((k ≡ some c) ⊎ (k ≡ best))

  keep_by_sign :
      (c b : PickResult) (o : Option Sign)
      → better native secondary c b ≡ o
      → Keeps c (some b) (elim o [ some greater ↦ some c | _ ↦ some b ])
  unfolding Keeps
  keep_by_sign c b none h = (λ e. none-ne-some (sym h ∙ e), better_self b, inr refl)
  keep_by_sign c b (some less) h =
      (λ e. less-ne-greater (some_eq (sym h ∙ e)), better_self b, inr refl)
  keep_by_sign c b (some equal) h =
      (λ e. equal-ne-greater (some_eq (sym h ∙ e)), better_self b, inr refl)
  keep_by_sign c b (some greater) h = (better_self c, better-flip c b h, inl refl)

  keep_better-Keeps :
      (c : PickResult) (best : Option PickResult)
      → Keeps c best (keep_better native secondary c best)
  unfolding keep_better Keeps
  keep_better-Keeps c none = (better_self c, tt, inl refl)
  keep_better-Keeps c (some b) = keep_by_sign c b (better native secondary c b) refl

module _ {E : Type 0} (resolve : Bytes → Result E Bytes) (stat : Bytes → Result E Mode)
    (basename suffix native secondary : Bytes) (want : TypeMask) where
  -- The pick is as good as every candidate, and is one of them.
  abbrev pub IsBest : List Bytes → Option PickResult → Type 0
  IsBest names r =
      All
        (λ n.
          (c : PickResult)
          → candidate resolve stat basename suffix native secondary want n ≡ ok (some c)
          → IsBelow native secondary c r)
        names
      × ((b : PickResult)
          → r ≡ some b
          → OneOf
              (λ n. candidate resolve stat basename suffix native secondary want n ≡ ok (some b))
              names)

  -- What one more name makes of the best so far.
  kept_of-Keeps :
      (o best r : Option PickResult)
      → IsBelowOption native secondary
          (kept_of resolve stat basename suffix native secondary want o best)
          r
      → IsBelowOption native secondary best r × IsBelowOption native secondary o r
  unfolding Keeps
  kept_of-Keeps none best r h = (h, tt)
  kept_of-Keeps (some c) best r h =
      let (p, q, t) = keep_better-Keeps native secondary c best in
      (IsBelowOption-trans native secondary best _ r q h, IsBelow-trans native secondary c _ r p h)

  kept_of-origin :
      (o best : Option PickResult) (b : PickResult)
      → kept_of resolve stat basename suffix native secondary want o best ≡ some b
      → (o ≡ some b) ⊎ (best ≡ some b)
  unfolding Keeps
  kept_of-origin none best b h = inr h
  kept_of-origin (some c) best b h = from (keep_better-Keeps native secondary c best).2
    where
      from :
          ((keep_better native secondary c best ≡ some c)
            ⊎ (keep_better native secondary c best ≡ best))
          → (some c ≡ some b) ⊎ (best ≡ some b)
      from (inl e) = inl (sym e ∙ h)
      from (inr e) = inr (sym e ∙ h)

  pick_from-IsBest :
      (names : List Bytes) (best r : Option PickResult)
      → pick_from resolve stat basename suffix native secondary want best names ≡ ok r
      → IsBelowOption native secondary best r
        × All
            (λ n.
              (c : PickResult)
              → candidate resolve stat basename suffix native secondary want n ≡ ok (some c)
              → IsBelow native secondary c r)
            names
        × ((b : PickResult)
            → r ≡ some b
            → (best ≡ some b)
              ⊎ OneOf
                  (λ n.
                    candidate resolve stat basename suffix native secondary want n ≡ ok (some b))
                  names)
  unfolding pick_from
  pick_from-IsBest [] best r h = (
    subst (IsBelowOption native secondary best) (ok_eq h) (below_self best),
    tt,
    λ b e. inl (ok_eq h ∙ e),
  )
    where
      below_self : (o : Option PickResult) → IsBelowOption native secondary o o
      below_self none = tt
      below_self (some c) = better_self native secondary c
  pick_from-IsBest (n ∷ names) best r h =
      let q = >>=-eq-ok (candidate resolve stat basename suffix native secondary want n) _ h in
      let o = q.0 in
      let rest =
        pick_from-IsBest names (kept_of resolve stat basename suffix native secondary want q.0 best)
          r q.2 in
      let kept = kept_of-Keeps o best r rest.0 in
      (
        kept.0,
        (
          λ c e. subst (λ o. IsBelowOption native secondary o r) (ok_eq (sym q.1 ∙ e)) kept.1,
          rest.1,
        ),
        λ b e. elim (rest.2 b e) [
          | inr later ↦ inr (inr later)
          | inl k ↦ elim (kept_of-origin o best b k) [
            | inl here ↦ inr (inl (q.1 ∙ ap ok here))
            | inr before ↦ inl before
          ]
        ],
      )

  -- When `pickVersion` succeeds on a directory, no candidate among its names is better than the
  -- pick, and the pick is one of the candidates; it returns no pick only when there is no candidate.
  pub pick_version-IsBest :
      (names : List Bytes) (r : Option PickResult)
      → pick_version resolve stat basename suffix native secondary want (ok names) ≡ ok r
      → IsBest names r
  unfolding pick_version
  pick_version-IsBest names r h =
      let p = pick_from-IsBest names none r h in
      (p.1, λ b e. elim (p.2 b e) [ inl k ↦ absurd (none-ne-some k) | inr one ↦ one ])
