-- ===== src/Overlay/Workspace/Detached.antt =====
-- internal/overlay/mounts.go: `detachAll` followed by `removeTree`.
use sysext_alpine.Base.{
  ℕ, zero, suc, ◌≡◌, refl, Bool, true, false, ◌&&◌, ◌||◌, List, [], ◌∷◌, ◌++◌, Result, ok, err,
  Bytes, contains, if◌then◌else◌,
}
use sysext_alpine.Files.Mounts.{MountInfo, is_below}
use sysext_alpine.Overlay.Submounts.{has_mounts_below, detach_targets, select_top}
use sysext_alpine.Overlay.Kernel.{Fault, remove_all, Trace, Kernel, Io, after, call, for_each}
use sysext_alpine.Overlay.Workspace.{detach, remove_tree, detach_rest, detach_rounds, detach_all}

abbrev IsFull : List Bytes → Type 0
IsFull [] = ⊥
IsFull (p ∷ ps) = Unit

if-IsFull : (b : Bool) (ps qs : List Bytes) → IsFull ps → IsFull (if b then ps ++ qs else ps)
if-IsFull true [] qs h = elim h [ ]
if-IsFull true (p ∷ ps) qs h = tt
if-IsFull false ps qs h = h

detach_targets-IsFull :
    (mounts : List MountInfo) (d : Bytes) (ps : List Bytes)
    → IsFull ps
    → IsFull (detach_targets mounts d ps)
unfolding detach_targets
detach_targets-IsFull [] d ps h = h
detach_targets-IsFull (m ∷ ms) d ps h = detach_targets-IsFull ms d _ (if-IsFull _ ps _ h)

-- The answer is no when there is no target.
abbrev NoneFor : Bool → List Bytes → Type 0
NoneFor b [] = b ≡ false
NoneFor b (p ∷ ps) = Unit

full-NoneFor : (b : Bool) (ps : List Bytes) → IsFull ps → NoneFor b ps
full-NoneFor b [] h = elim h [ ]
full-NoneFor b (p ∷ ps) h = tt

detach_targets-NoneFor :
    (mounts : List MountInfo) (d : Bytes)
    → NoneFor (has_mounts_below mounts d) (detach_targets mounts d [])
unfolding detach_targets has_mounts_below contains
detach_targets-NoneFor [] d = refl
detach_targets-NoneFor (m ∷ ms) d =
    by_mount (is_below m.mount_point d) (detach_targets-NoneFor ms d)
  where
    by_mount :
        (b : Bool)
        → NoneFor (has_mounts_below ms d) (detach_targets ms d [])
        → NoneFor
            (b || has_mounts_below ms d)
            (detach_targets ms d (if b && true then [] ++ (m.mount_point ∷ []) else []))
    by_mount true h = full-NoneFor _ _ (detach_targets-IsFull ms d (m.mount_point ∷ []) tt)
    by_mount false h = h

module _ (K : Kernel) (d : Bytes) where
  -- After a success nothing keeps `remove_tree` from removing.
  abbrev Cleared : Result Fault Unit × Trace → Type 0
  Cleared (ok u, t) = remove_tree K d t ≡ call K (remove_all d) t
  Cleared (err e, t) = Unit

  remove_tree_on :
      (t : Trace) (mounts : List MountInfo)
      → (K.mount_table t ≡ ok mounts)
      → (has_mounts_below mounts d ≡ false)
      → remove_tree K d t ≡ call K (remove_all d) t
  unfolding remove_tree
  remove_tree_on t mounts h k = rw h (rw k refl)

  after-Cleared :
      (r : Result Fault Unit × Trace) (next : Unit → Io Unit)
      → ((u : Unit) (t : Trace) → Cleared (next u t))
      → Cleared (after r next)
  after-Cleared (ok u, t) next h = h u t
  after-Cleared (err e, t) next h = tt

  detach_rest-Cleared :
      (t : Trace) (b : Bool) (ps : List Bytes) (again : Io Unit)
      → NoneFor b ps
      → (b ≡ false → remove_tree K d t ≡ call K (remove_all d) t)
      → ((u : Trace) → Cleared (again u))
      → Cleared (detach_rest K ps again t)
  detach_rest-Cleared t b [] again h k l = k h
  detach_rest-Cleared t b (p ∷ ps) again h k l =
      after-Cleared (for_each (select_top (p ∷ ps)) (detach K) t) _ (λ u v. l v)

  round-Cleared :
      (t : Trace) (table : Result Fault (List MountInfo)) (again : Io Unit)
      → (K.mount_table t ≡ table)
      → ((u : Trace) → Cleared (again u))
      → Cleared (after (table, t) (λ mounts. detach_rest K (detach_targets mounts d []) again))
  round-Cleared t (err e) again h l = tt
  round-Cleared t (ok mounts) again h l =
      detach_rest-Cleared t (has_mounts_below mounts d) (detach_targets mounts d []) again
        (detach_targets-NoneFor mounts d) (remove_tree_on t mounts h) l

  detach_rounds-Cleared : (n : ℕ) (t : Trace) → Cleared (detach_rounds K n d t)
  unfolding detach_rounds
  detach_rounds-Cleared zero t = tt
  detach_rounds-Cleared (suc n) t =
      round-Cleared t (K.mount_table t) (detach_rounds K n d) refl (detach_rounds-Cleared n)

  end_of_Cleared :
      (r : Result Fault Unit × Trace)
      → Cleared r
      → r.0 ≡ ok tt
      → remove_tree K d r.1 ≡ call K (remove_all d) r.1
  end_of_Cleared (ok u, t) h e = h
  end_of_Cleared (err f, t) h e = cc

  -- Once everything at and below a directory is detached without an error, removing its tree is never
  -- refused for a mount: it goes straight to the removal.
  pub remove_tree-detach_all :
      (t : Trace)
      → (detach_all K d t).0 ≡ ok tt
      → remove_tree K d (detach_all K d t).1 ≡ call K (remove_all d) (detach_all K d t).1
  unfolding detach_all
  remove_tree-detach_all t h =
      end_of_Cleared (detach_rounds K 64 d t) (detach_rounds-Cleared 64 t) h
