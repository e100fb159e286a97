-- ===== src/Discover/Version/Lex.antt =====
-- The order of byte strings and of lists of them, by the first difference.
use sysext_alpine.Base.{
  ℕ, ◌≡◌, refl, ap, ◌∙◌, sym, List, [], ◌∷◌, Bytes, Sign, less, equal, greater, cmp, then_sign,
  flip, compare_bytes, arith,
}
use sysext_alpine.Discover.Version.Key.{compare_keys}

pub cmp-flip : (a b : ℕ) → cmp b a ≡ flip (cmp a b)
cmp-flip a b = ground arith

pub cmp-equal : (a b : ℕ) → cmp a b ≡ equal → a ≡ b
cmp-equal a b h = ground arith

cmp_refl : (a : ℕ) → cmp a a ≡ equal
cmp_refl a = ground arith

pub cmp_trans : (a b c : ℕ) → cmp a b ≡ less → cmp b c ≡ less → cmp a c ≡ less
cmp_trans a b c p q = ground arith

flip-then_sign : (s t : Sign) → flip (then_sign s t) ≡ then_sign (flip s) (flip t)
flip-then_sign less t = refl
flip-then_sign equal t = refl
flip-then_sign greater t = refl

pub compare_bytes_refl : (a : Bytes) → compare_bytes a a ≡ equal
unfolding compare_bytes
compare_bytes_refl [] = refl
compare_bytes_refl (c ∷ a) = rw (cmp_refl c) (compare_bytes_refl a)

pub compare_bytes-flip : (a b : Bytes) → compare_bytes b a ≡ flip (compare_bytes a b)
unfolding compare_bytes
compare_bytes-flip [] [] = refl
compare_bytes-flip [] (d ∷ b) = refl
compare_bytes-flip (c ∷ a) [] = refl
compare_bytes-flip (c ∷ a) (d ∷ b) =
    ap (λ s. then_sign s (compare_bytes b a)) (cmp-flip c d)
    ∙ ap (then_sign (flip (cmp c d))) (compare_bytes-flip a b)
    ∙ sym (flip-then_sign (cmp c d) (compare_bytes a b))

pub compare_bytes-equal : (a b : Bytes) → compare_bytes a b ≡ equal → a ≡ b
unfolding compare_bytes
compare_bytes-equal [] [] h = refl
compare_bytes-equal [] (d ∷ b) h = cc
compare_bytes-equal (c ∷ a) [] h = cc
compare_bytes-equal (c ∷ a) (d ∷ b) h = ground (arith, cmp-equal c d, compare_bytes-equal a b)

pub compare_bytes_trans :
    (a b c : Bytes) → compare_bytes a b ≡ less → compare_bytes b c ≡ less → compare_bytes a c ≡ less
unfolding compare_bytes
compare_bytes_trans [] [] c p q = cc
compare_bytes_trans [] (e ∷ b) [] p q = cc
compare_bytes_trans [] (e ∷ b) (g ∷ c) p q = refl
compare_bytes_trans (d ∷ a) [] c p q = cc
compare_bytes_trans (d ∷ a) (e ∷ b) [] p q = cc
compare_bytes_trans (d ∷ a) (e ∷ b) (g ∷ c) p q = ground (arith, compare_bytes_trans a b c)

pub compare_keys_refl : (a : List Bytes) → compare_keys a a ≡ equal
unfolding compare_keys
compare_keys_refl [] = refl
compare_keys_refl (c ∷ a) = rw (compare_bytes_refl c) (compare_keys_refl a)

pub compare_keys-flip : (a b : List Bytes) → compare_keys b a ≡ flip (compare_keys a b)
unfolding compare_keys
compare_keys-flip [] [] = refl
compare_keys-flip [] (d ∷ b) = refl
compare_keys-flip (c ∷ a) [] = refl
compare_keys-flip (c ∷ a) (d ∷ b) =
    ap (λ s. then_sign s (compare_keys b a)) (compare_bytes-flip c d)
    ∙ ap (then_sign (flip (compare_bytes c d))) (compare_keys-flip a b)
    ∙ sym (flip-then_sign (compare_bytes c d) (compare_keys a b))

pub compare_keys-equal : (a b : List Bytes) → compare_keys a b ≡ equal → a ≡ b
unfolding compare_keys
compare_keys-equal [] [] h = refl
compare_keys-equal [] (d ∷ b) h = cc
compare_keys-equal (c ∷ a) [] h = cc
compare_keys-equal (c ∷ a) (d ∷ b) h =
    ground (arith, compare_bytes-equal c d, compare_keys-equal a b)

then_less :
    (s t u : Sign) (r : Sign)
    → then_sign s t ≡ less
    → (s ≡ less → r ≡ u)
    → (s ≡ equal → t ≡ less → r ≡ u)
    → r ≡ u
then_less s t u r h p q = ground arith

pub compare_keys_trans :
    (a b c : List Bytes)
    → compare_keys a b ≡ less
    → compare_keys b c ≡ less
    → compare_keys a c ≡ less
unfolding compare_keys
compare_keys_trans [] [] c p q = cc
compare_keys_trans [] (e ∷ b) [] p q = cc
compare_keys_trans [] (e ∷ b) (g ∷ c) p q = refl
compare_keys_trans (d ∷ a) [] c p q = cc
compare_keys_trans (d ∷ a) (e ∷ b) [] p q = cc
compare_keys_trans (d ∷ a) (e ∷ b) (g ∷ c) p q = ground (
  arith,
  compare_bytes_trans d e g,
  compare_bytes-equal d e,
  compare_bytes-equal e g,
  compare_bytes_refl d,
  compare_keys_trans a b c,
)
