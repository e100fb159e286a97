-- ===== src/Base/StringLaws.antt =====
-- What the proofs need of the string functions: splitting a joined text, and text with no white
-- space.
use Prim.Native.Nat.{ℕ}
use mathlib.Core.Path.{◌≡◌, refl, ap, ◌∙◌}
use mathlib.Core.Logic.{inl, inr}
use mathlib.Core.Bool.{Bool, true, false, ◌&&◌}
use mathlib.Core.List.{List, [], ◌∷◌, ◌++◌}
use mathlib.Core.Option.{some}
use native.Mathlib.Omega.{arith}
use sysext_alpine.Base.Tests.{◌==◌, ==_refl, leb, Bool-cases}
use sysext_alpine.Base.Lists.{All}
use sysext_alpine.Base.Text.{Bytes}
use sysext_alpine.Base.Strings.{
  cut, has_byte, split, join, space_width, trim_left_from, trim_right, trim_space,
}

pub All-append {ℓ κ} :
    {A : Type ℓ} (P : A → Type κ) (xs ys : List A) → All P xs → All P ys → All P (xs ++ ys)
All-append P [] ys hx hy = hy
All-append P (x ∷ xs) ys hx hy = (hx.0, All-append P xs ys hx.1 hy)

abbrev pub all_bytes : (ℕ → Bool) → Bytes → Bool
all_bytes p [] = true
all_bytes p (c ∷ s) = p c && all_bytes p s

pub all_bytes-append :
    (p : ℕ → Bool) (s t : Bytes)
    → all_bytes p s ≡ true
    → all_bytes p t ≡ true
    → all_bytes p (s ++ t) ≡ true
all_bytes-append p [] t hs ht = ht
all_bytes-append p (c ∷ s) t hs ht = ground (arith, all_bytes-append p s t)

pub all_bytes_mono :
    (p q : ℕ → Bool)
    → ((c : ℕ) → p c ≡ true → q c ≡ true)
    → (s : Bytes) → all_bytes p s ≡ true
    → all_bytes q s ≡ true
all_bytes_mono p q h [] hs = refl
all_bytes_mono p q h (c ∷ s) hs = ground (arith, h c, all_bytes_mono p q h s)

-- A byte that the test refuses does not occur.
pub has_byte-all_bytes :
    (p : ℕ → Bool) (x : ℕ) (s : Bytes) → p x ≡ false → all_bytes p s ≡ true → has_byte x s ≡ false
unfolding has_byte
has_byte-all_bytes p x [] hx hs = refl
has_byte-all_bytes p x (c ∷ s) hx hs = elim (Bool-cases (c == x)) [
  | inl e ↦ ground (arith, ap p (same_byte c x e))
  | inr e ↦ ground (arith, has_byte-all_bytes p x s hx)
]
  where
    same_byte : (a b : ℕ) → (a == b) ≡ true → a ≡ b
    same_byte a b h = ground arith

pub cut-append :
    (sep : ℕ) (w t : Bytes) → has_byte sep w ≡ false → cut sep (w ++ (sep ∷ t)) ≡ some (w, t)
unfolding cut has_byte
cut-append sep [] t h = rw (==_refl sep)
cut-append sep (c ∷ w) t h = ground (arith, cut-append sep w t)

pub split-append :
    (sep : ℕ) (w t : Bytes) → has_byte sep w ≡ false → split sep (w ++ (sep ∷ t)) ≡ w ∷ split sep t
unfolding split has_byte
split-append sep [] t h = rw (==_refl sep)
split-append sep (c ∷ w) t h = ground (arith, split-append sep w t)

pub split_one : (sep : ℕ) (w : Bytes) → has_byte sep w ≡ false → split sep w ≡ w ∷ []
unfolding split has_byte
split_one sep [] h = refl
split_one sep (c ∷ w) h = ground (arith, split_one sep w)

-- Splitting undoes joining, when the separator stands in no part.
pub split-join :
    (sep : ℕ) (w : Bytes) (ws : List Bytes)
    → has_byte sep w ≡ false
    → All (λ v. has_byte sep v ≡ false) ws
    → split sep (join sep (w ∷ ws)) ≡ w ∷ ws
unfolding join
split-join sep w [] h hs = split_one sep w h
split-join sep w (v ∷ ws) h (hv, hs) =
    split-append sep w (join sep (v ∷ ws)) h ∙ ap (λ t. w ∷ t) (split-join sep v ws hv hs)

-- Printable ASCII that is no white space.
abbrev pub graphic : ℕ → Bool
graphic c = leb 33 c && leb c 126

pub space_width-graphic : (c : ℕ) (s : Bytes) → graphic c ≡ true → space_width (c ∷ s) ≡ 0
unfolding space_width
space_width-graphic c [] h = ground arith
space_width-graphic c (b ∷ []) h = ground arith
space_width-graphic c (b ∷ d ∷ s) h = ground arith

trim_left-graphic : (s : Bytes) → all_bytes graphic s ≡ true → trim_left_from 0 s ≡ s
unfolding trim_left_from
trim_left-graphic [] h = refl
trim_left-graphic (c ∷ s) h = ground (arith, space_width-graphic c s)

trim_right-graphic : (s : Bytes) → all_bytes graphic s ≡ true → trim_right s ≡ s
unfolding trim_right
trim_right-graphic [] h = refl
trim_right-graphic (c ∷ s) h = ground (arith, trim_left-graphic (c ∷ s), trim_right-graphic s)

-- A text with no white space is left as it is.
pub trim_space-graphic : (s : Bytes) → all_bytes graphic s ≡ true → trim_space s ≡ s
unfolding trim_space
trim_space-graphic s h = ap trim_right (trim_left-graphic s h) ∙ trim_right-graphic s h

pub append_assoc {ℓ} : {A : Type ℓ} (s t u : List A) → (s ++ t) ++ u ≡ s ++ (t ++ u)
append_assoc [] t u = refl
append_assoc (c ∷ s) t u = ap (λ r. c ∷ r) (append_assoc s t u)

pub append_nil {ℓ} : {A : Type ℓ} (s : List A) → s ++ [] ≡ s
append_nil [] = refl
append_nil (c ∷ s) = ap (λ r. c ∷ r) (append_nil s)
