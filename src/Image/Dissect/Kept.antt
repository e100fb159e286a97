-- ===== src/Image/Dissect/Kept.antt =====
-- internal/image/dissect.go: where the partitions of a dissection come from.
use sysext_alpine.Base.{
  some_eq, ok_eq, ◌≡◌, refl, sym, ap, ◌∙◌, subst, Bool, true, false, not, Option, some, Result, ok,
  >>=-eq-ok, Bytes, ◌==◌, ==_iff, get_elem?, if◌then◌else◌,
}
use sysext_alpine.Image.Designator.{
  Designator, root, usr, home, srv, esp, xbootldr, swap, root_verity, usr_verity, root_verity_sig,
  usr_verity_sig, tmp, var, designators, index,
}
use sysext_alpine.Image.Gpt.{Partition, GptType}
use sysext_alpine.Image.Policy.Parse.{Policy}
use sysext_alpine.Image.Policy.Decide.{may_use}
use sysext_alpine.Image.Dissect.{
  Dissected, is_some, set_at, VeritySettings, VeritySig, denied_or, Progress, see_generic,
  ignore_part, replaces, consider,
}
use sysext_alpine.Image.Dissect.Checks.{denied_or-ok}

index-designators : (x : Designator) → get_elem? designators (index x) ≡ some x
index-designators root = refl
index-designators usr = refl
index-designators home = refl
index-designators srv = refl
index-designators esp = refl
index-designators xbootldr = refl
index-designators swap = refl
index-designators root_verity = refl
index-designators usr_verity = refl
index-designators root_verity_sig = refl
index-designators usr_verity_sig = refl
index-designators tmp = refl
index-designators var = refl

index_eq : (x y : Designator) → (index x == index y) ≡ true → x ≡ y
index_eq x y h = some_eq (
    sym (index-designators x)
    ∙ ap (get_elem? designators) ((==_iff (index x) (index y)).0 h)
    ∙ index-designators y)

-- Every partition in use is one of those that `P` describes, for a designator that the policy
-- lets be used.
abbrev pub AllKept : Policy → (Partition → Type 0) → (Designator → Option Partition) → Type 0
AllKept policy P parts =
    (x : Designator) (p : Partition) → parts x ≡ some p → (may_use policy x ≡ ok true) × P p

module _ (policy : Policy) (P : Partition → Type 0) where
  pub set_at-AllKept :
      (x : Designator) (p : Partition) (parts : Designator → Option Partition)
      → may_use policy x ≡ ok true
      → P p
      → AllKept policy P parts
      → AllKept policy P (set_at x (some p) parts)
  unfolding set_at
  set_at-AllKept x p parts m u k y q h = at y q (index y == index x) refl h
    where
      at :
          (y : Designator) (q : Partition) (b : Bool)
          → (index y == index x) ≡ b
          → (if b then some p else parts y) ≡ some q
          → (may_use policy y ≡ ok true) × P q
      at y q true e h = (ap (may_use policy) (index_eq y x e) ∙ m, subst P (some_eq h) u)
      at y q false e h = k y q h

  pub if_parts-AllKept :
      (b : Bool) (d e : Dissected)
      → AllKept policy P d.parts
      → AllKept policy P e.parts
      → AllKept policy P (if b then d else e).parts
  if_parts-AllKept true d e k l = k
  if_parts-AllKept false d e k l = l

  -- The loop's state: the generic partition is one of the table's, too.
  abbrev pub IsTraced : Progress → Type 0
  IsTraced st = AllKept policy P st.so_far.parts × ((p : Partition) → st.generic ≡ some p → P p)

  pub if_progress-IsTraced :
      (b : Bool) (s t : Progress) → IsTraced s → IsTraced t → IsTraced (if b then s else t)
  if_progress-IsTraced true s t k l = k
  if_progress-IsTraced false s t k l = l

  pub see_generic-IsTraced :
      (p : Partition) (st : Progress) → P p → IsTraced st → IsTraced (see_generic p st)
  see_generic-IsTraced p st u k =
      if_progress-IsTraced (is_some st.generic) _ _ k (k.0, λ q h. subst P (some_eq h) u)

module _ {E : Type 0} (policy : Policy) (settings : VeritySettings) (native : Bytes)
    (read_sig : Partition → Result E VeritySig) (machine_id : Result E Bytes)
    (hmac_sha256 : Bytes → Bytes → Bytes) (P : Partition → Type 0) where
  pub ignore_part-AllKept :
      (x : Designator) (d : Dissected)
      → AllKept policy P d.parts
      → AllKept policy P
          (ignore_part policy settings native read_sig machine_id hmac_sha256 x d).parts
  ignore_part-AllKept x d k = if_parts-AllKept policy P (is_some (d.parts x)) _ _ k k

  pub consider-AllKept :
      (d e : Dissected) (typ : GptType) (x : Designator) (p : Partition)
      → consider policy settings native read_sig machine_id hmac_sha256 d typ x p ≡ ok e
      → P p
      → AllKept policy P d.parts
      → AllKept policy P e.parts
  unfolding consider
  consider-AllKept d e typ x p h u k =
      let q = >>=-eq-ok (denied_or {E = E} (may_use policy x)) _ h in
      subst (λ e. AllKept policy P e.parts) (ok_eq q.2)
        (used q.0
          (replaces policy settings native read_sig machine_id hmac_sha256 x typ p d (d.parts x))
          (denied_or-ok {E = E} _ q.1))
    where
      used :
          (b r : Bool)
          → may_use policy x ≡ ok b
          → AllKept policy P
              (if not b
                then ignore_part policy settings native read_sig machine_id hmac_sha256 x d
                else if r
                then record {
                  parts = set_at x (some p) d.parts;
                  archs = set_at x typ.arch d.archs;
                  gpt_flags = set_at x p.attrs d.gpt_flags;
                  ignored = set_at x false d.ignored;
                }
                else d).parts
      used true true m = set_at-AllKept policy P x p d.parts m u k
      used true false m = k
      used false r m = ignore_part-AllKept x d k
