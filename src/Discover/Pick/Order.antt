-- ===== src/Discover/Pick/Order.antt =====
-- internal/discover/vpick.go, `better`: a total preorder of the candidates.
use sysext_alpine.Base.{
  ◌≡◌, refl, sym, ap, ◌∙◌, ◌≢◌, Bool, true, false, not, some, Bytes, same, Sign, less, equal,
  greater, cmp, then_sign, flip, compare_bytes, ◌==◌, null, if◌then◌else◌, arith,
}
use sysext_alpine.Discover.Version.{cmp_bool}
use sysext_alpine.Discover.Version.Key.{version_key, compare_keys}
use sysext_alpine.Discover.Version.Lex.{
  compare_bytes-flip, compare_bytes-equal, compare_bytes_trans, compare_keys-flip,
  compare_keys-equal, compare_keys_trans, cmp-flip, cmp-equal, cmp_trans,
}
use sysext_alpine.Discover.Version.Order.{compare_versions-keys}
use sysext_alpine.Discover.Pick.{PickResult, base, better_rest, better}

-- A comparison that is a total preorder.
pub record IsOrder {A : Type 0} (f : A → A → Sign) : Type 0 where
  pub flips : (a b : A) → f b a ≡ flip (f a b)
  pub trans : (a b c : A) → f a b ≢ greater → f b c ≢ greater → f a c ≢ greater

IsOrder-map :
    {A B : Type 0} (h : B → A) (f : A → A → Sign) → IsOrder f → IsOrder (λ a b. f (h a) (h b))
IsOrder-map h f o = record {
  flips = λ a b. o.flips (h a) (h b);
  trans = λ a b c. o.trans (h a) (h b) (h c);
}

flip-ne : (s : Sign) → flip s ≢ greater → s ≢ less
flip-ne s h e = ground arith

IsOrder-flip : {A : Type 0} (f : A → A → Sign) → IsOrder f → IsOrder (λ a b. flip (f a b))
IsOrder-flip f o = record {
  flips = λ a b. ap flip (o.flips a b);
  trans = λ a b c p q.
      let p' : f b a ≢ greater = λ e. p (sym (o.flips a b) ∙ e) in
      let q' : f c b ≢ greater = λ e. q (sym (o.flips b c) ∙ e) in
      λ e. o.trans c b a q' p' (o.flips a c ∙ e);
}

-- Two comparisons, the second where the first finds no difference.
IsOrder-then_sign :
    {A : Type 0} (f g : A → A → Sign)
    → IsOrder f
    → IsOrder g
    → IsOrder (λ a b. then_sign (f a b) (g a b))
IsOrder-then_sign f g o p = record {
  flips = λ a b. ground (arith, o.flips a b, p.flips a b);
  trans = λ a b c h k e. ground (
    arith,
    o.trans a b c,
    o.trans b c a,
    o.trans c a b,
    o.flips a b,
    o.flips b c,
    o.flips a c,
    p.trans a b c,
  );
}

less-ne-greater : less ≢ greater
less-ne-greater e = cc

-- A strict order whose equal values are one value.
IsOrder-strict :
    {A : Type 0} (f : A → A → Sign)
    → ((a b : A) → f b a ≡ flip (f a b))
    → ((a b : A) → f a b ≡ equal → a ≡ b)
    → ((a b c : A) → f a b ≡ less → f b c ≡ less → f a c ≡ less)
    → IsOrder f
IsOrder-strict {A = A} f flips same_value trans = record {
  flips = flips;
  trans = λ a b c p q e. go a b c (f a b) (f b c) refl refl p q e;
}
  where
    go :
        (a b c : A) (s t : Sign)
        → f a b ≡ s
        → f b c ≡ t
        → f a b ≢ greater
        → f b c ≢ greater
        → f a c ≡ greater
        → ⊥
    go a b c less less h k p q e = less-ne-greater (sym (trans a b c h k) ∙ e)
    go a b c less equal h k p q e = p (ap (f a) (same_value b c k) ∙ e)
    go a b c less greater h k p q e = q k
    go a b c equal t h k p q e = q (ap (λ x. f x c) (sym (same_value a b h)) ∙ e)
    go a b c greater t h k p q e = p h

IsOrder-cmp : IsOrder cmp
IsOrder-cmp = IsOrder-strict cmp cmp-flip cmp-equal cmp_trans

IsOrder-bytes : IsOrder compare_bytes
IsOrder-bytes =
    IsOrder-strict compare_bytes compare_bytes-flip compare_bytes-equal compare_bytes_trans

pub IsOrder-keys : IsOrder compare_keys
IsOrder-keys = IsOrder-strict compare_keys compare_keys-flip compare_keys-equal compare_keys_trans

IsOrder-bool : IsOrder cmp_bool
unfolding cmp_bool
IsOrder-bool = record { flips = λ a b. ground arith; trans = λ a b c h k. ground arith }

IsOrder-equal : {A : Type 0} → IsOrder {A = A} (λ a b. equal)
IsOrder-equal = record { flips = λ a b. refl; trans = λ a b c h k. h }

IsOrder-if :
    {A : Type 0} (t : Bool) (f g : A → A → Sign)
    → IsOrder f
    → IsOrder g
    → IsOrder (λ a b. if t then f a b else g a b)
IsOrder-if true f g o p = o
IsOrder-if false f g o p = p

module _ (native secondary : Bytes) where
  pub better_sign : PickResult → PickResult → Sign
  better_sign a b = then_sign (cmp_bool (not (a.tries_left == 0)) (not (b.tries_left == 0))) (
      then_sign (compare_keys (version_key a.version) (version_key b.version))
        (better_rest native secondary a b))

  pub better_lem : (a b : PickResult) → better native secondary a b ≡ some (better_sign a b)
  unfolding better better_sign
  better_lem a b = rw (compare_versions-keys a.version b.version)

  IsOrder-better_rest : IsOrder (better_rest native secondary)
  unfolding better_rest
  IsOrder-better_rest =
      IsOrder-then_sign _ _
        (IsOrder-map (λ (a : PickResult). same a.arch native) cmp_bool IsOrder-bool)
        (IsOrder-then_sign _ _
          (IsOrder-if (null secondary) _ _ IsOrder-equal
            (IsOrder-map (λ (a : PickResult). same a.arch secondary) cmp_bool IsOrder-bool))
          (IsOrder-then_sign _ _ (IsOrder-map (λ (a : PickResult). a.tries_left) cmp IsOrder-cmp) (
            IsOrder-then_sign _ _
              (IsOrder-flip _ (IsOrder-map (λ (a : PickResult). a.tries_done) cmp IsOrder-cmp))
              (IsOrder-map (λ (a : PickResult). base a.path) compare_bytes IsOrder-bytes))))

  pub IsOrder-better_sign : IsOrder better_sign
  unfolding better_sign
  IsOrder-better_sign =
      IsOrder-then_sign _ _
        (IsOrder-map (λ (a : PickResult). not (a.tries_left == 0)) cmp_bool IsOrder-bool)
        (IsOrder-then_sign _ _
          (IsOrder-map (λ (a : PickResult). version_key a.version) compare_keys IsOrder-keys)
          IsOrder-better_rest)

-- `better` is total, gives the opposite sign the other way round, and "not better than" is
-- transitive.
pub better_order :
    (native secondary : Bytes) (a b c : PickResult)
    → (s : Sign) × (better native secondary a b ≡ some s)
      × (better native secondary b a ≡ some (flip s))
      × (s ≢ greater
          → better native secondary b c ≢ some greater
          → better native secondary a c ≢ some greater)
better_order native secondary a b c =
    let o = IsOrder-better_sign native secondary in
    let f = better_sign native secondary in
    (
      f a b,
      better_lem native secondary a b,
      better_lem native secondary b a ∙ ap some (o.flips a b),
      λ h k e.
          o.trans a b c h (λ g. k (better_lem native secondary b c ∙ ap some g))
            (some_eq (sym (better_lem native secondary a c) ∙ e)),
    )
  where
    some_eq : {x y : Sign} → some x ≡ some y → x ≡ y
    some_eq e = cc
