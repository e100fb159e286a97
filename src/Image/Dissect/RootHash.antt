-- ===== src/Image/Dissect/RootHash.antt =====
-- internal/image/dissect.go, `loadSigPartitionRootHash` and `guessRootHash`: the root hash that an
-- image brings itself. Whether an environment variable disables them is an argument.
use sysext_alpine.Base.{
  ◌≡◌, sym, ap, ap₂, ◌∙◌, Bool, true, false, not, ◌&&◌, ◌||◌, Option, none, some, Result, ok, err,
  ◌>>=◌, Bytes, same, length, null, ◌++◌, if◌then◌else◌, All,
}
use sysext_alpine.Image.Designator.{
  Designator, root, usr, root_verity, usr_verity, verity_hash, verity_sig,
}
use sysext_alpine.Image.Ids.{uuid_string, uuid_bytes, zero_id, root_hash_uuids}
use sysext_alpine.Image.Ids.Laws.{IsByte, uuid_bytes-uuid_string, root_hash_uuids-append}
use sysext_alpine.Image.Gpt.{Partition}
use sysext_alpine.Image.Dissect.{Dissected, is_some, found, VeritySettings, VeritySig}

-- The errors: of reading the signature, a root hash that differs, a malformed UUID.
pub data RootHashError (E : Type 0) : Type 0 where
  unreadable_sig : E → RootHashError E
  other_root_hash : RootHashError E
  malformed_uuid : Bytes → RootHashError E

-- The data partition that verity is for.
unfoldable pub verity_part : Option Designator → Dissected → Option Designator
verity_part (some x) d = some x
verity_part none d =
    if found d (some root_verity)
    then some root
    else if found d (some usr_verity)
    then some usr
    else none

module _ {E : Type 0} (read_sig : Partition → Result E VeritySig) where
  abbrev adopt : VeritySettings → Designator → VeritySig → Result (RootHashError E) VeritySettings
  adopt v x s =
      if not (null v.root_hash) && not (same v.root_hash s.sig_root_hash)
      then err other_root_hash
      else ok (record { root_hash = s.sig_root_hash; sig = s.signature; of_part = some x })

  abbrev read_or_fail : Result E VeritySig → Result (RootHashError E) VeritySig
  read_or_fail (ok s) = ok s
  read_or_fail (err e) = err (unreadable_sig e)

  -- The signature partition in use; `none` cannot be, once it is found.
  abbrev sig_of : Dissected → Option Designator → Option Partition
  sig_of d none = none
  sig_of d (some y) = d.parts y

  abbrev load_from :
      VeritySettings → Designator → Option Partition → Result (RootHashError E) VeritySettings
  load_from v x none = ok v
  load_from v x (some p) = read_or_fail (read_sig p) >>= adopt v x

  abbrev load_for :
      VeritySettings → Dissected → Option Designator → Result (RootHashError E) VeritySettings
  load_for v d none = ok v
  load_for v d (some x) =
      if not (found d (some x)) || not (found d (verity_hash x)) || not (found d (verity_sig x))
      then ok v
      else load_from v x (sig_of d (verity_sig x))

  unfoldable pub load_sig_partition_root_hash :
      Bool → VeritySettings → Dissected → Result (RootHashError E) VeritySettings
  load_sig_partition_root_hash disabled v d =
      if (not (null v.root_hash) && not (null v.sig)) || disabled
      then ok v
      else load_for v d (verity_part v.of_part d)

  abbrev id_or_fail : Bytes → Option Bytes → Result (RootHashError E) Bytes
  id_or_fail u none = err (malformed_uuid u)
  id_or_fail u (some b) = ok b

  abbrev guess_from :
      VeritySettings
      → Designator
      → Option Partition
      → Option Partition
      → Result (RootHashError E) VeritySettings
  guess_from v x (some p) (some q) = id_or_fail p.uuid (uuid_bytes p.uuid) >>= λ a.
      id_or_fail q.uuid (uuid_bytes q.uuid) >>= λ b.
      ok (record v { root_hash = a ++ b; of_part = some x })
  guess_from v x p q = ok v

  abbrev guess_for :
      VeritySettings → Dissected → Option Designator → Result (RootHashError E) VeritySettings
  guess_for v d none = ok v
  guess_for v d (some x) =
      if not (found d (some x)) || not (found d (verity_hash x))
      then ok v
      else guess_from v x (d.parts x) (sig_of d (verity_hash x))

  unfoldable pub guess_root_hash :
      Bool → VeritySettings → Dissected → Result (RootHashError E) VeritySettings
  guess_root_hash disabled v d =
      if not (null v.root_hash) || disabled then ok v else guess_for v d (verity_part v.of_part d)

  -- When the root and its hash partition carry the UUIDs of 16 bytes each, neither of them zero,
  -- the guessed root hash asks for exactly these two partitions again.
  pub guess_root_hash-root_hash_uuids :
      (v : VeritySettings) (d : Dissected) (p q : Partition) (a b : Bytes)
      → null v.root_hash ≡ true
      → v.of_part ≡ none
      → d.parts root ≡ some p
      → d.parts root_verity ≡ some q
      → p.uuid ≡ uuid_string a
      → q.uuid ≡ uuid_string b
      → length a ≡ 16
      → length b ≡ 16
      → All IsByte a
      → All IsByte b
      → same p.uuid zero_id ≡ false
      → same q.uuid zero_id ≡ false
      → (guess_root_hash false v d ≡ ok (record v { root_hash = a ++ b; of_part = some root }))
        × (root_hash_uuids (a ++ b) ≡ ok (p.uuid, q.uuid))
  unfolding guess_root_hash verity_part found
  guess_root_hash-root_hash_uuids v d p q a b n o dp dq up uq la lb ba bb zp zq = (
    ap (λ t. if not t || false then ok v else guess_for v d (verity_part v.of_part d)) n
        ∙ ap (λ s. guess_for v d (verity_part s d)) o
        ∙ ap
            (λ r. guess_for v d (
              if is_some r
              then some root
              else if found d (some usr_verity)
              then some usr
              else none))
            dq
        ∙ ap₂ (λ x y. if not (is_some x) || not (is_some y) then ok v else guess_from v root x y) dp
            dq
        ∙ ap₂
            (λ x y. id_or_fail p.uuid x >>= λ a. id_or_fail q.uuid y >>= λ b.
              ok (record v { root_hash = a ++ b; of_part = some root }))
            (ap uuid_bytes up ∙ uuid_bytes-uuid_string a la ba)
            (ap uuid_bytes uq ∙ uuid_bytes-uuid_string b lb bb),
    root_hash_uuids-append a b la lb (ap (λ u. same u zero_id) (sym up) ∙ zp)
          (ap (λ u. same u zero_id) (sym uq) ∙ zq)
        ∙ ap₂ (λ x y. ok (x, y)) (sym up) (sym uq),
  )
