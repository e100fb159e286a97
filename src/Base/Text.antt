-- ===== src/Base/Text.antt =====
-- Go strings as lists of bytes, with their comparison.
use Prim.Native.Nat.{ℕ, compare, Ordering}
use Prim.Native.Char.{code}
use Prim.Native.String.{String}
use mathlib.Core.Path.{◌≡◌, refl}
use mathlib.Core.Logic.{◌↔◌}
use mathlib.Core.Bool.{Bool, true, false, ◌&&◌}
use mathlib.Core.List.{List, [], ◌∷◌}
use native.Mathlib.Omega.{arith}
use sysext_alpine.Base.Tests.{◌==◌, ==_refl}

abbrev pub Bytes : Type 0
Bytes = List ℕ

-- The code points of a text: its bytes, as every literal of the development is ASCII.
abbrev pub codes : String → Bytes
codes String.[] = []
codes (String.◌∷◌ c s) = code c ∷ codes s

-- `a == b` on strings.
unfoldable pub same : Bytes → Bytes → Bool
same [] [] = true
same (a ∷ s) (b ∷ t) = a == b && same s t
same _ _ = false

pub same_sound : (s t : Bytes) → same s t ≡ true → s ≡ t
unfolding same
same_sound [] [] h = refl
same_sound [] (b ∷ t) h = cc
same_sound (a ∷ s) [] h = cc
same_sound (a ∷ s) (b ∷ t) h = ground (arith, same_sound s t)

pub same_refl : (s : Bytes) → same s s ≡ true
unfolding same
same_refl [] = refl
same_refl (a ∷ s) = rw (==_refl a) (same_refl s)

pub same_iff : (s t : Bytes) → (same s t ≡ true) ↔ (s ≡ t)
same_iff s t = (same_sound s t, λ e. rw e (same_refl t))

-- `cmp.Compare` and `strings.Compare`: the sign of the result.
pub data Sign : Type 0 where
  less equal greater : Sign

abbrev pub cmp : ℕ → ℕ → Sign
cmp a b = elim (compare a b) [ Ordering.lt ↦ less | Ordering.eq ↦ equal | Ordering.gt ↦ greater ]

-- The first difference decides.
abbrev pub then_sign : Sign → Sign → Sign
then_sign less r = less
then_sign equal r = r
then_sign greater r = greater

abbrev pub flip : Sign → Sign
flip less = greater
flip equal = equal
flip greater = less

unfoldable pub compare_bytes : Bytes → Bytes → Sign
compare_bytes [] [] = equal
compare_bytes [] (b ∷ t) = less
compare_bytes (a ∷ s) [] = greater
compare_bytes (a ∷ s) (b ∷ t) = then_sign (cmp a b) (compare_bytes s t)
