-- ===== src/Discover/Images/Sorted.antt =====
-- internal/discover/discover.go: sorting the images, which keeps them and puts them in order.
use sysext_alpine.Base.{
  ◌≡◌, ◌≢◌, refl, sym, ap, ◌∙◌, inl, inr, Bool, true, false, List, [], ◌∷◌, ◌++◌, Option, some,
  some_eq, Bytes, same, same_iff, Sign, less, equal, greater, flip, any, All, Bool-cases, arith,
}
use sysext_alpine.Release.Names.{image_name_is_valid}
use sysext_alpine.Discover.Version.{compare_versions}
use sysext_alpine.Discover.Version.Key.{version_key, compare_keys}
use sysext_alpine.Discover.Version.Order.{compare_versions-keys}
use sysext_alpine.Discover.Pick.Order.{IsOrder-keys}
use sysext_alpine.Discover.Images.{Image, insert_image, sort_images}

-- No two images have the same name.
abbrev pub Distinct : List Image → Type 0
Distinct [] = Unit
Distinct (x ∷ xs) = (any (λ i. same i.name x.name) xs ≡ false) × Distinct xs

-- No image is older by its name than one in front of it.
abbrev pub Ascending : List Image → Type 0
Ascending [] = Unit
Ascending (x ∷ xs) = All (λ y. compare_versions y.name x.name ≢ some less) xs × Ascending xs

abbrev pub ValidName : Image → Type 0
ValidName i = image_name_is_valid i.name ≡ true

any-append :
    {A : Type 0} (p : A → Bool) (xs : List A) (y : A)
    → any p xs ≡ false
    → p y ≡ false
    → any p (xs ++ (y ∷ [])) ≡ false
any-append p [] y h k = ground arith
any-append p (x ∷ xs) y h k = ground (arith, any-append p xs y)

same-flip : (s t : Bytes) → same s t ≡ false → same t s ≡ false
same-flip s t h = elim (Bool-cases (same t s)) [
  | inl e ↦ cc (h, (same_iff s t).1 (sym ((same_iff t s).0 e)))
  | inr e ↦ e
]

pub Distinct-snoc :
    (xs : List Image) (y : Image)
    → Distinct xs
    → any (λ i. same i.name y.name) xs ≡ false
    → Distinct (xs ++ (y ∷ []))
Distinct-snoc [] y h k = (refl, tt)
Distinct-snoc (x ∷ xs) y (a, h) k =
    let first : same x.name y.name ≡ false = ground arith in
    let rest : any (λ i. same i.name y.name) xs ≡ false = ground arith in
    (
      any-append (λ i. same i.name x.name) xs y a (same-flip x.name y.name first),
      Distinct-snoc xs y h rest,
    )

pub All-snoc :
    (P : Image → Type 0) (xs : List Image) (y : Image) → All P xs → P y → All P (xs ++ (y ∷ []))
All-snoc P [] y h k = (k, tt)
All-snoc P (x ∷ xs) y (a, h) k = (a, All-snoc P xs y h k)

-- The order of the names, on their keys.
older : Image → Image → Sign
older a b = compare_keys (version_key a.name) (version_key b.name)

insert_at : Sign → Image → Image → List Image → List Image → List Image
insert_at less x y ys rest = y ∷ rest
insert_at s x y ys rest = x ∷ y ∷ ys

insert_image-older :
    (x y : Image) (ys : List Image)
    → insert_image x (y ∷ ys) ≡ insert_at (older y x) x y ys (insert_image x ys)
unfolding insert_image older insert_at
insert_image-older x y ys =
    ap
      (λ (o : Option Sign). elim o as (λ z. List Image) [
        | some less ↦ y ∷ insert_image x ys
        | _ ↦ x ∷ y ∷ ys
      ])
      (compare_versions-keys y.name x.name)
    ∙ by_sign (compare_keys (version_key y.name) (version_key x.name))
  where
    by_sign :
        (s : Sign)
        → ◌≡◌ {A = List Image}
            (elim (some s) as (λ (z : Option Sign). List Image) [
              | some less ↦ y ∷ insert_image x ys
              | _ ↦ x ∷ y ∷ ys
            ])
            (insert_at s x y ys (insert_image x ys))
    by_sign less = refl
    by_sign equal = refl
    by_sign greater = refl

insert_at-cases :
    (P : List Image → Type 0) (s : Sign) (x y : Image) (ys rest : List Image)
    → (s ≡ less → P (y ∷ rest))
    → (s ≢ less → P (x ∷ y ∷ ys))
    → P (insert_at s x y ys rest)
unfolding insert_at
insert_at-cases P less x y ys rest f g = f refl
insert_at-cases P equal x y ys rest f g = g (λ e. cc)
insert_at-cases P greater x y ys rest f g = g (λ e. cc)

not_older : (x y : Image) → older y x ≢ less → compare_versions y.name x.name ≢ some less
unfolding older
not_older x y h e = h (some_eq (sym (compare_versions-keys y.name x.name) ∙ e))

older-not_older : (x y : Image) → compare_versions y.name x.name ≢ some less → older y x ≢ less
unfolding older
older-not_older x y h e = h (compare_versions-keys y.name x.name ∙ ap some e)

flip-ne-less : (s t : Sign) → t ≡ flip s → s ≢ less → t ≢ greater
flip-ne-less less t e h g = h refl
flip-ne-less equal t e h g = cc
flip-ne-less greater t e h g = cc

flip-ne-greater : (s t : Sign) → t ≡ flip s → s ≢ greater → t ≢ less
flip-ne-greater less t e h g = cc
flip-ne-greater equal t e h g = cc
flip-ne-greater greater t e h g = h refl

-- Not being older is transitive.
not_older_trans : (x y z : Image) → older y x ≢ less → older z y ≢ less → older z x ≢ less
unfolding older
not_older_trans x y z h k =
    let o = IsOrder-keys in
    let a = version_key x.name in
    let b = version_key y.name in
    let c = version_key z.name in
    flip-ne-greater (compare_keys a c) _ (o.flips a c) (
      o.trans a b c (flip-ne-less (compare_keys b a) _ (o.flips b a) h)
        (flip-ne-less (compare_keys c b) _ (o.flips c b) k))

less-not_older : (x y : Image) → older y x ≡ less → older x y ≢ less
unfolding older
less-not_older x y h e = let f = IsOrder-keys.flips (version_key y.name) (version_key x.name) in cc

All-insert_image :
    (P : Image → Type 0) (x : Image) (ys : List Image) → P x → All P ys → All P (insert_image x ys)
unfolding insert_image
All-insert_image P x [] h k = (h, tt)
All-insert_image P x (y ∷ ys) h (a, k) = rw (insert_image-older x y ys) (
    insert_at-cases (All P) (older y x) x y ys (insert_image x ys)
      (λ e. (a, All-insert_image P x ys h k)) (λ e. (h, (a, k))))

All-map :
    {P Q : Image → Type 0} (f : (i : Image) → P i → Q i) (xs : List Image) → All P xs → All Q xs
All-map f [] h = tt
All-map f (x ∷ xs) (a, h) = (f x a, All-map f xs h)

insert_image-Ascending :
    (x : Image) (ys : List Image) → Ascending ys → Ascending (insert_image x ys)
unfolding insert_image
insert_image-Ascending x [] h = (tt, tt)
insert_image-Ascending x (y ∷ ys) (a, h) = rw (insert_image-older x y ys) (
    insert_at-cases Ascending (older y x) x y ys (insert_image x ys)
      (λ e. (
        All-insert_image _ x ys (not_older y x (less-not_older x y e)) a,
        insert_image-Ascending x ys h,
      ))
      (λ e. (
        (
          not_older x y e,
          All-map (λ z k. not_older x z (not_older_trans x y z e (older-not_older y z k))) ys a,
        ),
        (a, h),
      )))

any-insert_image :
    (p : Image → Bool) (x : Image) (ys : List Image)
    → p x ≡ false
    → any p ys ≡ false
    → any p (insert_image x ys) ≡ false
unfolding insert_image
any-insert_image p x [] h k = ground arith
any-insert_image p x (y ∷ ys) h k = rw (insert_image-older x y ys) (
    insert_at-cases (λ r. any p r ≡ false) (older y x) x y ys (insert_image x ys)
      (λ e. ground (arith, any-insert_image p x ys h)) (λ e. ground arith))

insert_image-Distinct :
    (x : Image) (ys : List Image)
    → any (λ i. same i.name x.name) ys ≡ false
    → Distinct ys
    → Distinct (insert_image x ys)
unfolding insert_image
insert_image-Distinct x [] h k = (refl, tt)
insert_image-Distinct x (y ∷ ys) h (a, k) =
    let first : same y.name x.name ≡ false = ground arith in
    let others : any (λ i. same i.name x.name) ys ≡ false = ground arith in
    rw (insert_image-older x y ys) (
      insert_at-cases Distinct (older y x) x y ys (insert_image x ys)
        (λ e. (
          any-insert_image (λ i. same i.name y.name) x ys (same-flip y.name x.name first) a,
          insert_image-Distinct x ys others k,
        ))
        (λ e. (h, (a, k))))

any-sort_images :
    (p : Image → Bool) (xs : List Image) → any p xs ≡ false → any p (sort_images xs) ≡ false
unfolding sort_images
any-sort_images p [] h = refl
any-sort_images p (x ∷ xs) h =
    any-insert_image p x (sort_images xs) (ground arith) (any-sort_images p xs (ground arith))

pub sort_images-Distinct : (xs : List Image) → Distinct xs → Distinct (sort_images xs)
unfolding sort_images
sort_images-Distinct [] h = tt
sort_images-Distinct (x ∷ xs) (a, h) =
    insert_image-Distinct x (sort_images xs) (any-sort_images _ xs a) (sort_images-Distinct xs h)

pub sort_images-Ascending : (xs : List Image) → Ascending (sort_images xs)
unfolding sort_images
sort_images-Ascending [] = tt
sort_images-Ascending (x ∷ xs) =
    insert_image-Ascending x (sort_images xs) (sort_images-Ascending xs)

pub All-sort_images : (P : Image → Type 0) (xs : List Image) → All P xs → All P (sort_images xs)
unfolding sort_images
All-sort_images P [] h = tt
All-sort_images P (x ∷ xs) (a, h) = All-insert_image P x (sort_images xs) a (All-sort_images P xs h)
