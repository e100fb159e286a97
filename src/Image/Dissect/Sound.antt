-- ===== src/Image/Dissect/Sound.antt =====
-- internal/image/dissect.go: what `finish` has checked of the partitions it returns.
use sysext_alpine.Base.{
  refuse, refuse-ok, >>-ok, ok_eq, ◌≡◌, refl, sym, ap, ◌∙◌, inl, inr, ◌==◌, subst, true, false, not,
  ◌&&◌, ◌||◌, List, [], ◌∷◌, Option, none, some, ok, ◌>>◌, >>=-eq-ok, All, if◌then◌else◌, arith,
}
use sysext_alpine.Image.Designator.{
  Designator, root, usr, home, srv, esp, xbootldr, swap, root_verity, usr_verity, root_verity_sig,
  usr_verity_sig, tmp, var, designators, verity_hash, verity_sig, index,
}
use sysext_alpine.Image.Gpt.{Partition}
use sysext_alpine.Image.Policy.Parse.{Policy}
use sysext_alpine.Image.Policy.Decide.{check_protection, check_partition_flags}
use sysext_alpine.Image.Dissect.{
  DissectError, Dissected, is_some, found, set_at, VeritySettings, no_data_partition,
  no_hash_partition, no_root, denied_or, Progress,
}
use sysext_alpine.Image.Dissect.Checks.{denied_or-ok, WithRoot, pick_generic-WithRoot}
use sysext_alpine.Image.Dissect.Finish.{
  protection_of, check_verity, check_archs, pick_generic, check_root, check_pairs, check_settings,
  check_designator, check_designators, finish,
}

pub record IsSound (policy : Policy) (d : Dissected) : Type 0 where
  pub has_root : (found d (some root) || found d (some usr)) ≡ true
  pub is_protected : (x : Designator) → check_protection policy x (protection_of d x) ≡ ok tt
  pub has_flags :
      (x : Designator)
      → found d (some x) ≡ true
      → check_partition_flags policy x (d.gpt_flags x) ≡ ok tt
  pub sig-hash : (x : Designator) → found d (verity_sig x) ≡ true → found d (verity_hash x) ≡ true
  pub hash-data : (x : Designator) → found d (verity_hash x) ≡ true → found d (some x) ≡ true

every : (P : Designator → Type 0) → All P designators → (x : Designator) → P x
every P h root = h.0
every P h usr = h.1.0
every P h home = h.1.1.0
every P h srv = h.1.1.1.0
every P h esp = h.1.1.1.1.0
every P h xbootldr = h.1.1.1.1.1.0
every P h swap = h.1.1.1.1.1.1.0
every P h root_verity = h.1.1.1.1.1.1.1.0
every P h usr_verity = h.1.1.1.1.1.1.1.1.0
every P h root_verity_sig = h.1.1.1.1.1.1.1.1.1.0
every P h usr_verity_sig = h.1.1.1.1.1.1.1.1.1.1.0
every P h tmp = h.1.1.1.1.1.1.1.1.1.1.1.0
every P h var = h.1.1.1.1.1.1.1.1.1.1.1.1.0

-- What holds of a designator that passed its check.
abbrev PassesCheck : Policy → Dissected → Designator → Type 0
PassesCheck policy d x =
    (check_protection policy x (protection_of d x) ≡ ok tt)
    × (found d (some x) ≡ true → check_partition_flags policy x (d.gpt_flags x) ≡ ok tt)

-- The verity partitions of a designator are paired with its hash and its data.
abbrev IsPaired : Dissected → Designator → Type 0
IsPaired d x =
    (found d (verity_sig x) ≡ true → found d (verity_hash x) ≡ true)
    × (found d (verity_hash x) ≡ true → found d (some x) ≡ true)

module _ {E : Type 0} (policy : Policy) (settings : VeritySettings) where
  check_designator-PassesCheck :
      (d : Dissected) (x : Designator)
      → check_designator {E = E} policy settings d x ≡ ok tt
      → PassesCheck policy d x
  unfolding check_designator
  check_designator-PassesCheck d x h =
      let p = >>-ok (denied_or {E = E} (check_protection policy x (protection_of d x))) _ h in
      (
        denied_or-ok {E = E} _ p.0,
        λ f. denied_or-ok {E = E} (check_partition_flags policy x (d.gpt_flags x)) (
            sym (
              ap
                (λ b.
                  if b
                  then denied_or {E = E} (check_partition_flags policy x (d.gpt_flags x))
                  else ok tt)
                f)
            ∙ p.1),
      )

  check_designators-All :
      (d : Dissected) (xs : List Designator)
      → check_designators {E = E} policy settings d xs ≡ ok tt
      → All (PassesCheck policy d) xs
  unfolding check_designators
  check_designators-All d [] h = tt
  check_designators-All d (x ∷ xs) h =
      let p = >>-ok (check_designator {E = E} policy settings d x) _ h in
      (check_designator-PassesCheck d x p.0, check_designators-All d xs p.1)

  check_verity-IsPaired :
      (d : Dissected) (x : Designator)
      → check_verity {E = E} policy settings d x ≡ ok tt
      → IsPaired d x
  unfolding check_verity
  check_verity-IsPaired d x h =
      let p = >>-ok (refuse {E = DissectError E} _ no_data_partition) _ h in
      let a =
        refuse-ok {E = DissectError E}
          (not (found d (some x)) && (found d (verity_hash x) || found d (verity_sig x)))
          no_data_partition p.0 in
      let b =
        refuse-ok {E = DissectError E} (found d (verity_sig x) && not (found d (verity_hash x)))
          no_hash_partition p.1 in
      (λ s. ground (arith, a, b, s), λ s. ground (arith, a, b, s))

same_parts-found :
    (d e : Dissected) → e.parts ≡ d.parts → (o : Option Designator) → found e o ≡ found d o
unfolding found
same_parts-found d e h none = refl
same_parts-found d e h (some x) = ap (λ f. is_some (f x)) h

module _ (d e : Dissected) (p : Partition) (h : e.parts ≡ set_at root (some p) d.parts) where
  with_root-found : (y : Designator) → (index y == 0) ≡ false → found e (some y) ≡ found d (some y)
  unfolding found set_at
  with_root-found y n =
      ap (λ f. is_some (f y)) h ∙ ap (λ b. is_some (if b then some p else d.parts y)) n

  with_root-root : found e (some root) ≡ true
  unfolding found set_at
  with_root-root = ap (λ f. is_some (f root)) h

  with_root-IsPaired : (x : Designator) → IsPaired d root → IsPaired d usr → IsPaired e x
  unfolding found
  with_root-IsPaired root a b = (
    λ s. with_root-found root_verity refl ∙ a.0 (sym (with_root-found root_verity_sig refl) ∙ s),
    λ s. with_root-root,
  )
  with_root-IsPaired usr a b = (
    λ s. with_root-found usr_verity refl ∙ b.0 (sym (with_root-found usr_verity_sig refl) ∙ s),
    λ s. with_root-found usr refl ∙ b.1 (sym (with_root-found usr_verity refl) ∙ s),
  )
  with_root-IsPaired x a b = (λ s. s, λ s. cc)

both-IsPaired : (d : Dissected) → IsPaired d root → IsPaired d usr → (x : Designator) → IsPaired d x
unfolding found
both-IsPaired d a b root = a
both-IsPaired d a b usr = b
both-IsPaired d a b x = (λ s. s, λ s. cc)

WithRoot-IsPaired :
    (policy : Policy) (d e : Dissected) (g : Option Partition)
    → WithRoot policy d g e
    → IsPaired d root
    → IsPaired d usr
    → (x : Designator) → IsPaired e x
WithRoot-IsPaired policy d e g (inl h) a b x =
    let p = both-IsPaired d a b x in
    (
      λ s.
          same_parts-found d e h (verity_hash x)
          ∙ p.0 (sym (same_parts-found d e h (verity_sig x)) ∙ s),
      λ s. same_parts-found d e h (some x) ∙ p.1 (sym (same_parts-found d e h (verity_hash x)) ∙ s),
    )
WithRoot-IsPaired policy d e g (inr (p, q, m, h)) a b x = with_root-IsPaired d e p h x a b

-- A dissection that `finish` lets through has a root or a usr partition, a hash partition with each
-- signature partition and a data partition with each hash partition, and every designator has
-- passed the policy's checks of its protection and, where there is a partition, of its flags.
pub finish-IsSound :
    {E : Type 0} (policy : Policy) (settings : VeritySettings) (st : Progress) (e : Dissected)
    → finish {E = E} policy settings st ≡ ok e
    → IsSound policy e
unfolding finish check_root
finish-IsSound {E = E} policy settings st e h =
    let d = st.so_far in
    let p =
      >>-ok
        (check_verity {E = E} policy settings d root
          >> (check_verity policy settings d usr >> check_archs policy settings d))
        _ h in
    let p0 = >>-ok (check_verity {E = E} policy settings d root) _ p.0 in
    let p1 = >>-ok (check_verity {E = E} policy settings d usr) _ p0.1 in
    let q = >>=-eq-ok (pick_generic {E = E} policy settings d st.generic st.multiple) _ p.1 in
    let r =
      >>-ok
        (check_root {E = E} policy settings q.0
          >> (check_pairs policy settings q.0
              >> (check_settings policy settings q.0
                  >> check_designators policy settings q.0 designators)))
        _ q.2 in
    let r0 = >>-ok (check_root {E = E} policy settings q.0) _ r.0 in
    let r1 = >>-ok (check_pairs {E = E} policy settings q.0) _ r0.1 in
    let r2 = >>-ok (check_settings {E = E} policy settings q.0) _ r1.1 in
    let all =
      every (PassesCheck policy q.0) (check_designators-All policy settings q.0 designators r2.1) in
    let pairs =
      WithRoot-IsPaired policy d q.0 st.generic
        (pick_generic-WithRoot policy settings d q.0 st.generic st.multiple q.1)
        (check_verity-IsPaired policy settings d root p0.0)
        (check_verity-IsPaired policy settings d usr p1.0) in
    let rooted =
      refuse-ok {E = DissectError E} (not (found q.0 (some root)) && not (found q.0 (some usr)))
        no_root r0.0 in
    subst (IsSound policy) (ok_eq r.1) (record {
      has_root = ground (arith, rooted);
      is_protected = λ x. (all x).0;
      has_flags = λ x. (all x).1;
      sig-hash = λ x. (pairs x).0;
      hash-data = λ x. (pairs x).1;
    })
