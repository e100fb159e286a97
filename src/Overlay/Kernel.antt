-- ===== src/Overlay/Kernel.antt =====
-- The kernel and the file system, as internal/overlay uses them: every call that changes something is
-- an event of a trace, and what a call or a query answers may depend on the trace so far.
pub mod Keeps
pub mod Stays
pub mod Extends
use sysext_alpine.Base.{
  ℕ, Bool, true, false, List, [], ◌∷◌, ◌++◌, Option, none, some, Result, ok, err, Bytes,
  if◌then◌else◌,
}
use sysext_alpine.Files.Chase.{Node, ChaseError, enoent, eloop, enotdir, chase}
use sysext_alpine.Files.Chase
use sysext_alpine.Files.Mounts.{MountInfo}
use sysext_alpine.Overlay.Submounts.{SavedMount}
use sysext_alpine.Overlay.Options.{Flags}
use sysext_alpine.Overlay.Origin.{Handle}

-- Errors: those that the code tells apart, those that it makes itself, and any other.
pub data Fault : Type 0 where
  missing exists too_many_links not_a_directory invalid not_supported : Fault
  read_only other_file_system mount_busy keeps_reappearing not_visible : Fault
  not_permitted access_denied overflow cleanup_failed invalid_mode refused out_of_rounds : Fault
  already_merged : Bytes → Fault
  other : ℕ → Fault

abbrev pub is_missing : Fault → Bool
is_missing missing = true
is_missing e = false

-- The calls that change something.
pub data Event : Type 0 where
  mount_tmpfs : Bytes → Bytes → Event
  mount_overlay : Bytes → Bytes → Flags → Bytes → Event
  remount : Bytes → Flags → Event
  mount_bind mount_move : Bytes → Bytes → Event
  make_private set_read_only unmount_lazy unmount_now : Bytes → Event
  clone_mount : Bytes → Event
  move_clone : Bytes → Bytes → Event
  make_dirs make_dir make_file make_temp remove_all remove touch : Bytes → Event
  rename : Bytes → Bytes → Event
  chmod : Bytes → ℕ → Event
  write_file : Bytes → Bytes → Event
  mount_disk_image unmount_disk_image : Bytes → Bytes → Event
  before_merge : List Bytes → Event
  before_unmerge : Event

abbrev pub Trace : Type 0
Trace = List Event

-- stat(2)
pub record Stat : Type 0 where
  pub dev : ℕ
  pub ino : ℕ
  pub file_type : ℕ
  pub permissions : ℕ

pub record Kernel : Type 0 where
  pub perform : Trace → Event → Option Fault
  pub lstat : Trace → Bytes → Result ChaseError Node
  pub readlink : Trace → Bytes → Result ChaseError Bytes
  pub abs : Bytes → Result ChaseError Bytes
  pub stat : Trace → Bytes → Result Fault Stat
  pub lstat_dev : Trace → Bytes → Result Fault ℕ
  pub read_file : Trace → Bytes → Result Fault Bytes
  pub is_empty : Trace → Bytes → Result Fault Bool
  pub is_read_only : Trace → Bytes → Result Fault Bool
  pub mount_table : Trace → Result Fault (List MountInfo)
  pub is_mount_point : Trace → Bytes → Result Fault Bool
  pub visible : Trace → MountInfo → Bool
  pub is_dir_mount : Trace → Bytes → Bool
  pub temp_name : Trace → Bytes → Bytes
  pub root_hash : Trace → Bytes → Bytes
  pub check : Trace → Bytes → Bytes → Result Fault Bool
  pub json_equal : Bytes → Bytes → Result Fault Bool
  pub inode : Trace → Bytes → Result Fault ℕ
  pub handle : Bool → Trace → Bytes → Result Fault (Handle × ℕ)
  pub unique_mount_id : Trace → Bytes → Option ℕ
  pub legacy_mount_id : Trace → Bytes → Option ℕ
  pub fdinfo_mount_id : Trace → Bytes → Result Fault ℕ
  pub major : ℕ → ℕ
  pub minor : ℕ → ℕ
  pub mkdev : ℕ → ℕ → ℕ

-- An action on a state: its result, and the state after it, also when it fails.
abbrev pub Do : Type 0 → Type 0 → Type 0
Do W A = W → Result Fault A × W

abbrev pub Io : Type 0 → Type 0
Io A = Do Trace A

abbrev pub after : {W A B : Type 0} → Result Fault A × W → (A → Do W B) → Result Fault B × W
after (ok a, t) next = next a t
after (err e, t) next = (err e, t)

infixl 5 ◌>>=◌ ◌>>◌
abbrev pub ◌>>=◌ : {W A B : Type 0} → Do W A → (A → Do W B) → Do W B
◌>>=◌ m next t = after (m t) next

abbrev pub ◌>>◌ : {W B : Type 0} → Do W Unit → Do W B → Do W B
m >> next = m >>= λ u. next

abbrev pub pure : {W A : Type 0} → A → Do W A
pure a t = (ok a, t)

abbrev pub fail : {W A : Type 0} → Fault → Do W A
fail e t = (err e, t)

abbrev pub result_of : Option Fault → Result Fault Unit
result_of none = ok tt
result_of (some e) = err e

-- A query
abbrev pub ask : {W A : Type 0} → (W → Result Fault A) → Do W A
ask f t = (f t, t)

-- The outcome of an action, which does not end the caller.
abbrev pub attempt : {W A : Type 0} → Do W A → Do W (Result Fault A)
attempt m t = (ok (m t).0, (m t).1)

-- `_ = f()`
abbrev pub ignore : {W A : Type 0} → Do W A → Do W Unit
ignore m t = (ok tt, (m t).1)

-- A loop that ends with the first error.
unfoldable pub for_each : {W A : Type 0} → List A → (A → Do W Unit) → Do W Unit
for_each [] f = pure tt
for_each (a ∷ rest) f = f a >> for_each rest f

abbrev pub when : {W : Type 0} → Bool → Do W Unit → Do W Unit
when b m = if b then m else pure tt

-- An action on a part of the state.
abbrev pub with_first : {A X W : Type 0} → X → Result Fault A × W → Result Fault A × (X × W)
with_first x (r, w) = (r, (x, w))

abbrev pub lift : {X W A : Type 0} → Do W A → Do (X × W) A
lift m (x, w) = with_first x (m w)

abbrev pub to_fault : ChaseError → Fault
to_fault enoent = missing
to_fault eloop = too_many_links
to_fault enotdir = not_a_directory
to_fault (ChaseError.other n) = other n

abbrev pub with_fault : {A : Type 0} → Result ChaseError A → Result Fault A
with_fault (ok a) = ok a
with_fault (err e) = err (to_fault e)

-- A file that is missing is no error.
abbrev pub or_if_missing : {A : Type 0} → A → Result Fault A → Result Fault A
or_if_missing a (err missing) = ok a
or_if_missing a r = r

module _ (K : Kernel) where
  -- A system call
  unfoldable pub call : Event → Io Unit
  call e t = (result_of (K.perform t e), t ++ (e ∷ []))

  -- `fsutil.Chase`; the flag is ChaseNonexistent.
  unfoldable pub chased : Bytes → Bytes → Bool → Trace → Result Fault Bytes
  chased root path nonexistent t =
      with_fault (chase (K.lstat t) (K.readlink t) K.abs root path nonexistent)

  -- `resolveHierarchy`: empty when it does not exist.
  unfoldable pub resolve_hierarchy : Bytes → Bytes → Trace → Result Fault Bytes
  resolve_hierarchy root hierarchy t = or_if_missing [] (chased root hierarchy false t)
