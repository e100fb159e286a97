-- ===== src/Overlay/Commands.antt =====
-- internal/overlay/overlay.go: the hierarchies of a class, unmerging all of them, and their status. The
-- lock and the resolution of --root come before.
use sysext_alpine.Base.{
  ℕ, ltb, ◌/◌, Bool, true, false, not, ◌&&◌, List, [], ◌∷◌, Option, none, some, Result, ok, err,
  Bytes, codes, same, ◌==◌, null, clean, is_abs, join_path, if◌then◌else◌,
}
use sysext_alpine.Release.Class.{Class, sysext, confext}
use sysext_alpine.Overlay.Markers.{list_file_name, marker_dir_name, parse_list, path_is_normalized}
use sysext_alpine.Overlay.Kernel.{Fault, Trace, Kernel, Io, fail, resolve_hierarchy}
use sysext_alpine.Overlay.Workspace.{teardown_workspace}
use sysext_alpine.Overlay.Unmerge.{is_our_mount_point, unmerge_in_place}

-- `splitColon`, and `getenv_path_list`
abbrev pub first_byte_to : ℕ → List Bytes → List Bytes
first_byte_to c [] = (c ∷ []) ∷ []
first_byte_to c (w ∷ ws) = (c ∷ w) ∷ ws

unfoldable pub split_colon : Bytes → List Bytes
split_colon [] = [] ∷ []
split_colon (c ∷ s) =
    let rest = split_colon s in if c == b':' then [] ∷ rest else first_byte_to c rest

unfoldable pub hierarchy_is_allowed : Bytes → Bool
hierarchy_is_allowed p = is_abs p && (path_is_normalized p && not (same (clean p) (codes "/")))

abbrev put_path : Bytes → Option (List Bytes) → Option (List Bytes)
put_path p none = none
put_path p (some ps) = some (p ∷ ps)

unfoldable pub check_paths : List Bytes → Option (List Bytes)
check_paths [] = some []
check_paths (p ∷ ps) =
    let rest = check_paths ps in if hierarchy_is_allowed p then put_path p rest else none

-- `parseHierarchies`: `none` is EINVAL.
unfoldable pub parse_hierarchies : Bytes → Option (List Bytes)
parse_hierarchies value = if null value then none else check_paths (split_colon value)

abbrev default_hierarchies : Class → List Bytes
default_hierarchies sysext = codes "/usr" ∷ codes "/opt" ∷ []
default_hierarchies confext = codes "/etc" ∷ []

-- `Hierarchies`, on the value of the variable of the class.
unfoldable pub hierarchies : Class → Option Bytes → Option (List Bytes)
hierarchies c none = some (default_hierarchies c)
hierarchies c (some value) = parse_hierarchies value

-- `Status`
pub record Status : Type 0 where
  pub hierarchy : Bytes
  pub is_merged : Bool
  pub extensions : List Bytes
  pub since : ℕ

abbrev not_merged : Bytes → Status
not_merged h = record { hierarchy = h; is_merged = false; extensions = []; since = 0 }

-- The hierarchies unmerged, the errors, and the trace.
abbrev pub Unmerging : Type 0
Unmerging = List Bytes × List Fault × Trace

-- The statuses, the errors gathered, and the error that ended the loop.
abbrev pub Report : Type 0
Report = List Status × List Fault × Option Fault

module _ (K : Kernel) (c : Class) (root : Bytes) where
  abbrev add_error : Option Fault → List Fault → List Fault
  add_error none es = es
  add_error (some e) es = e ∷ es

  abbrev add_dir : ℕ → Bytes → List Bytes → List Bytes
  add_dir n p dirs = if ltb 0 n then p ∷ dirs else dirs

  abbrev and_then : ℕ → Bytes → Option Fault → Unmerging → Unmerging
  and_then n p e (dirs, es, t) = (add_dir n p dirs, add_error e es, t)

  abbrev with_error : Fault → Unmerging → Unmerging
  with_error e (dirs, es, t) = (dirs, e ∷ es, t)

  abbrev unmerge_found :
      Bytes → Bytes → ℕ → Result Fault Bytes → Trace → (Trace → Unmerging) → Unmerging
  unmerge_found h ws rounds (err e) t next = with_error e (next t)
  unmerge_found h ws rounds (ok q) t next =
      if null q
      then next t
      else let r = unmerge_in_place K c root h q ws rounds t in and_then r.0 q r.1 (next r.2)

  -- The loop of `Unmerge`
  unfoldable pub unmerge_each : Bytes → ℕ → List Bytes → Trace → Unmerging
  unmerge_each ws rounds [] t = ([], [], t)
  unmerge_each ws rounds (h ∷ hs) t =
      unmerge_found h ws rounds (resolve_hierarchy K root h t) t (unmerge_each ws rounds hs)

  abbrev errors_then : List Fault → Io Unit → Io Unit
  errors_then [] m = m
  errors_then (e ∷ es) m = fail e

  -- `Unmerge`
  unfoldable pub unmerge : Bytes → ℕ → List Bytes → Trace → List Bytes × (Result Fault Unit × Trace)
  unmerge ws rounds hs t =
      let r = unmerge_each ws rounds hs t in (r.0, errors_then r.1 (teardown_workspace K ws) r.2)

  abbrev report_error : Fault → Report → Report
  report_error e (ss, es, end) = (ss, e ∷ es, end)

  abbrev report_status : Status → Report → Report
  report_status s (ss, es, end) = (s ∷ ss, es, end)

  abbrev merged_status : Bytes → Bytes → Result Fault Bytes → Result Fault ℕ → Report → Report
  merged_status h p (err e) since next = ([], [], some e)
  merged_status h p (ok text) (err e) next = ([], [], some e)
  merged_status h p (ok text) (ok since) next =
      report_status
        (record {
          hierarchy = h;
          is_merged = true;
          extensions = parse_list text;
          since = since / 1000;
        })
        next

  abbrev status_at :
      (Bytes → Result Fault ℕ) → Trace → Bytes → Bytes → Result Fault Bool → Report → Report
  status_at m_time t h p (err e) next = report_error e next
  status_at m_time t h p (ok false) next = report_status (not_merged h) next
  status_at m_time t h p (ok true) next =
      merged_status h p
        (K.read_file t (join_path (join_path p (marker_dir_name c)) (list_file_name c))) (m_time p)
        next

  abbrev status_of : (Bytes → Result Fault ℕ) → Trace → Bytes → Result Fault Bytes → Report → Report
  status_of m_time t h (err e) next = report_error e next
  status_of m_time t h (ok p) next =
      if null p then next else status_at m_time t h p (is_our_mount_point K c p t) next

  -- `CurrentStatus`; `m_time` gives the modification time in nanoseconds.
  unfoldable pub current_status : (Bytes → Result Fault ℕ) → Trace → List Bytes → Report
  current_status m_time t [] = ([], [], none)
  current_status m_time t (h ∷ hs) =
      status_of m_time t h (resolve_hierarchy K root h t) (current_status m_time t hs)
