-- ===== src/Image/Dissect/Traced.antt =====
-- internal/image/dissect.go: the partitions of a dissection come from the table.
use sysext_alpine.Base.{
  if_result, ok_eq, >>-ok, ◌≡◌, sym, subst, inl, inr, Bool, true, false, List, [], ◌∷◌, Option,
  none, some, Result, ok, ◌>>◌, >>=-eq-ok, All, Bytes, same, ◌==◌,
}
use sysext_alpine.Image.Designator.{Designator, root, usr, xbootldr, designators}
use sysext_alpine.Image.Gpt.{
  Partition, PartitionTable, GptType, lookup_gpt_type, type_linux_generic,
}
use sysext_alpine.Image.Policy.Parse.{Policy}
use sysext_alpine.Image.Policy.Decide.{may_use}
use sysext_alpine.Image.Dissect.{
  Dissected, is_some, VeritySettings, VeritySig, denied_or, Progress, Wanted, consider,
  is_candidate, take_candidate, see_gpt, is_skipped, dissect_gpt, take_xbootldr, dissect_mbr,
  dissect_from, wanted,
}
use sysext_alpine.Image.Dissect.Checks.{denied_or-ok, WithRoot, pick_generic-WithRoot}
use sysext_alpine.Image.Dissect.Finish.{
  check_verity, check_archs, pick_generic, check_root, check_pairs, check_settings,
  check_designators, finish, dissect,
}
use sysext_alpine.Image.Dissect.Sound.{IsSound, finish-IsSound}
use sysext_alpine.Image.Dissect.Kept.{
  AllKept, IsTraced, set_at-AllKept, if_parts-AllKept, if_progress-IsTraced, see_generic-IsTraced,
  ignore_part-AllKept, consider-AllKept,
}

module _ {E : Type 0} (policy : Policy) (settings : VeritySettings) (native : Bytes)
    (read_sig : Partition → Result E VeritySig) (machine_id : Result E Bytes)
    (hmac_sha256 : Bytes → Bytes → Bytes) (P : Partition → Type 0) where
  take_candidate-IsTraced :
      (st next : Progress) (typ : GptType) (x : Designator) (p : Partition) (b : Bool)
      → take_candidate policy settings native read_sig machine_id hmac_sha256 st typ x p b ≡ ok next
      → P p
      → IsTraced policy P st
      → IsTraced policy P next
  unfolding take_candidate
  take_candidate-IsTraced st next typ x p true h u k =
      let q =
        >>=-eq-ok
          (consider policy settings native read_sig machine_id hmac_sha256 st.so_far typ x p) _ h in
      subst (IsTraced policy P) (ok_eq q.2) (
        consider-AllKept policy settings native read_sig machine_id hmac_sha256 P st.so_far q.0 typ
            x p q.1 u k.0,
        k.1,
      )
  take_candidate-IsTraced st next typ x p false h u k = subst (IsTraced policy P) (ok_eq h) k

  see_gpt-IsTraced :
      (w : Wanted) (st next : Progress) (typ : GptType) (p : Partition) (o : Option Designator)
      → see_gpt policy settings native read_sig machine_id hmac_sha256 w st typ p o ≡ ok next
      → P p
      → IsTraced policy P st
      → IsTraced policy P next
  unfolding see_gpt
  see_gpt-IsTraced w st next typ p none h u k = subst (IsTraced policy P) (ok_eq h) (
      if_progress-IsTraced policy P (same p.type_guid type_linux_generic) _ _
        (see_generic-IsTraced policy P p st u k) k)
  see_gpt-IsTraced w st next typ p (some x) h u k =
      let q =
        >>=-eq-ok (is_candidate policy settings native read_sig machine_id hmac_sha256 w x p) _ h in
      take_candidate-IsTraced st next typ x p q.0 q.2 u k

  dissect_gpt-IsTraced :
      (w : Wanted) (st next : Progress) (p : Partition)
      → dissect_gpt policy settings native read_sig machine_id hmac_sha256 w st p ≡ ok next
      → P p
      → IsTraced policy P st
      → IsTraced policy P next
  unfolding dissect_gpt
  dissect_gpt-IsTraced w st next p h u k =
      let typ = lookup_gpt_type p.type_guid in
      if_result (is_skipped policy settings native read_sig machine_id hmac_sha256 p typ.designator)
        (ok st)
        (see_gpt policy settings native read_sig machine_id hmac_sha256 w st typ p typ.designator)
        (λ e. subst (IsTraced policy P) (ok_eq e) k)
        (λ e. see_gpt-IsTraced w st next typ p typ.designator e u k) h

  take_xbootldr-AllKept :
      (p : Partition) (d : Dissected) (b : Bool)
      → may_use policy xbootldr ≡ ok b
      → P p
      → AllKept policy P d.parts
      → AllKept policy P
          (take_xbootldr policy settings native read_sig machine_id hmac_sha256 p d b).parts
  unfolding take_xbootldr
  take_xbootldr-AllKept p d true m u k =
      if_parts-AllKept policy P (is_some (d.parts xbootldr)) _ _ k
        (set_at-AllKept policy P xbootldr p d.parts m u k)
  take_xbootldr-AllKept p d false m u k =
      ignore_part-AllKept policy settings native read_sig machine_id hmac_sha256 P xbootldr d k

  dissect_mbr-IsTraced :
      (st next : Progress) (p : Partition)
      → dissect_mbr policy settings native read_sig machine_id hmac_sha256 st p ≡ ok next
      → P p
      → IsTraced policy P st
      → IsTraced policy P next
  unfolding dissect_mbr
  dissect_mbr-IsTraced st next p h u k =
      if_result (p.mbr_type == 131) _ _
        (λ e. subst (IsTraced policy P) (ok_eq e) (
          if_progress-IsTraced policy P (p.attrs == 128) _ _
            (see_generic-IsTraced policy P p st u k) k))
        (λ e.
          if_result (p.mbr_type == 234) _ _
            (λ f.
              let q = >>=-eq-ok (denied_or {E = E} (may_use policy xbootldr)) _ f in
              subst (IsTraced policy P) (ok_eq q.2)
                (take_xbootldr-AllKept p st.so_far q.0 (denied_or-ok {E = E} _ q.1) u k.0, k.1))
            (λ f. subst (IsTraced policy P) (ok_eq f) k) e)
        h

  dissect_from-IsTraced :
      (g : Bool) (w : Wanted) (st last : Progress) (ps : List Partition)
      → dissect_from policy settings native read_sig machine_id hmac_sha256 g w st ps ≡ ok last
      → All P ps
      → IsTraced policy P st
      → IsTraced policy P last
  unfolding dissect_from
  dissect_from-IsTraced g w st last [] h a k = subst (IsTraced policy P) (ok_eq h) k
  dissect_from-IsTraced true w st last (p ∷ ps) h a k =
      let q =
        >>=-eq-ok (dissect_gpt policy settings native read_sig machine_id hmac_sha256 w st p) _ h in
      dissect_from-IsTraced true w q.0 last ps q.2 a.1 (dissect_gpt-IsTraced w st q.0 p q.1 a.0 k)
  dissect_from-IsTraced false w st last (p ∷ ps) h a k =
      let q =
        >>=-eq-ok (dissect_mbr policy settings native read_sig machine_id hmac_sha256 st p) _ h in
      dissect_from-IsTraced false w q.0 last ps q.2 a.1 (dissect_mbr-IsTraced st q.0 p q.1 a.0 k)

  WithRoot-AllKept :
      (d e : Dissected) (g : Option Partition)
      → WithRoot policy d g e
      → ((p : Partition) → g ≡ some p → P p)
      → AllKept policy P d.parts
      → AllKept policy P e.parts
  WithRoot-AllKept d e g (inl h) u k = subst (AllKept policy P) (sym h) k
  WithRoot-AllKept d e g (inr (p, q, m, h)) u k =
      subst (AllKept policy P) (sym h) (set_at-AllKept policy P root p d.parts m (u p q) k)

  finish-AllKept :
      (st : Progress) (e : Dissected)
      → finish {E = E} policy settings st ≡ ok e
      → IsTraced policy P st
      → AllKept policy P e.parts
  unfolding finish
  finish-AllKept st e h k =
      let p =
        >>-ok
          (check_verity {E = E} policy settings st.so_far root
            >> (check_verity policy settings st.so_far usr
                >> check_archs policy settings st.so_far))
          _ h in
      let q =
        >>=-eq-ok (pick_generic {E = E} policy settings st.so_far st.generic st.multiple) _ p.1 in
      let r =
        >>-ok
          (check_root {E = E} policy settings q.0
            >> (check_pairs policy settings q.0
                >> (check_settings policy settings q.0
                    >> check_designators policy settings q.0 designators)))
          _ q.2 in
      subst (λ d. AllKept policy P d.parts) (ok_eq r.1)
        (WithRoot-AllKept st.so_far q.0 st.generic
          (pick_generic-WithRoot policy settings st.so_far q.0 st.generic st.multiple q.1) k.1 k.0)

  -- The partitions of a successful dissection are the table's, stand only for designators that
  -- the policy lets be used, and have passed the checks that `IsSound` lists: whatever holds of
  -- every partition of the table holds of each partition in use.
  pub dissect-IsSound :
      (t : PartitionTable) (d : Dissected)
      → dissect policy settings native read_sig machine_id hmac_sha256 t ≡ ok d
      → All P t.partitions
      → IsSound policy d × AllKept policy P d.parts
  unfolding dissect
  dissect-IsSound t d h a =
      let q =
        >>=-eq-ok (wanted {E = E} policy settings native read_sig machine_id hmac_sha256) _ h in
      let r =
        >>=-eq-ok
          (dissect_from policy settings native read_sig machine_id hmac_sha256 t.gpt q.0 _
            t.partitions)
          (finish policy settings) q.2 in
      (
        finish-IsSound policy settings r.0 d r.2,
        finish-AllKept r.0 d r.2
            (dissect_from-IsTraced t.gpt q.0 _ r.0 t.partitions r.1 a (λ x p e. cc, λ p e. cc)),
      )
