-- ===== src/Overlay/Kernel/Extends.antt =====
-- Actions only add to the trace: what is called between two points of a run.
use sysext_alpine.Base.{
  ◌≡◌, refl, sym, ap, ◌∙◌, append_assoc, append_nil, ℕ, zero, suc, List, [], ◌∷◌, ◌++◌, Result, err,
  Bytes,
}
use sysext_alpine.Files.Chase.{Node, ChaseError, enoent}
use sysext_alpine.Overlay.Submounts.{select_top, detach_targets}
use sysext_alpine.Overlay.Kernel.{keeps_reappearing, Event, unmount_lazy, Trace, Kernel, Io, call}
use sysext_alpine.Overlay.Kernel.Keeps.{
  Keeps, pure-Keeps, fail-Keeps, ask-Keeps, bind-Keeps, for_each-Keeps,
}
use sysext_alpine.Overlay.Workspace.{
  detach, detach_rest, detach_rounds, detach_all, remove_tree, unless_gone, teardown_workspace,
}
use sysext_alpine.Overlay.Unmerge.Undoes.{detach-Keeps, remove_tree-Keeps}

-- The second trace goes on where the first one ends.
abbrev pub Extends : Trace → Trace → Type 0
Extends t u = (s : Trace) × (u ≡ t ++ s)

-- The call is made between the two traces.
abbrev pub Called : Trace → Trace → Event → Type 0
Called t u e = (v : Trace) × Extends t v × Extends (v ++ (e ∷ [])) u

pub Extends-start : (t : Trace) → Extends t t
Extends-start t = ([], sym (append_nil t))

pub Extends-join : (t u v : Trace) → Extends t u → Extends u v → Extends t v
Extends-join t u v (a, p) (b, q) = (a ++ b, q ∙ ap (λ x. x ++ b) p ∙ append_assoc t a b)

pub Extends-call : (t : Trace) (e : Event) → Extends t (t ++ (e ∷ []))
Extends-call t e = (e ∷ [], refl)

pub Called-widen :
    (s t u v : Trace) (e : Event) → Extends s t → Called t u e → Extends u v → Called s v e
Called-widen s t u v e h (w, a, b) k =
    (w, Extends-join s t w h a, Extends-join (w ++ (e ∷ [])) u v b k)

module _ (K : Kernel) where
  pub call-Extends : (e : Event) → Keeps Extends (call K e)
  unfolding call
  call-Extends e = record { run = λ t. Extends-call t e }

  pub detach-Extends : (p : Bytes) → Keeps Extends (detach K p)
  detach-Extends p = detach-Keeps Extends-start Extends-join K (λ t e h. Extends-call t e) p

  pub detach-Called : (p : Bytes) (t : Trace) → Called t (detach K p t).1 (unmount_lazy p)
  unfolding detach call
  detach-Called p t = (t, Extends-start t, Extends-start (t ++ (unmount_lazy p ∷ [])))

  pub remove_tree-Extends : (p : Bytes) → Keeps Extends (remove_tree K p)
  remove_tree-Extends p =
      remove_tree-Keeps Extends-start Extends-join K (λ t e h. Extends-call t e) p

  detach_rest-Extends :
      (ps : List Bytes) (again : Io Unit)
      → Keeps Extends again
      → Keeps Extends (detach_rest K ps again)
  detach_rest-Extends [] again h = pure-Keeps Extends-start Extends-join tt
  detach_rest-Extends (p ∷ ps) again h =
      bind-Keeps Extends-start Extends-join
        (for_each-Keeps Extends-start Extends-join (select_top (p ∷ ps)) _ detach-Extends) (λ u. h)

  detach_rounds-Extends : (n : ℕ) (d : Bytes) → Keeps Extends (detach_rounds K n d)
  unfolding detach_rounds
  detach_rounds-Extends zero d = fail-Keeps Extends-start Extends-join keeps_reappearing
  detach_rounds-Extends (suc n) d =
      bind-Keeps Extends-start Extends-join (ask-Keeps Extends-start Extends-join K.mount_table)
        (λ mounts. detach_rest-Extends (detach_targets mounts d []) _ (detach_rounds-Extends n d))

  pub detach_all-Extends : (d : Bytes) → Keeps Extends (detach_all K d)
  unfolding detach_all
  detach_all-Extends d = detach_rounds-Extends 64 d

  unless_gone-Extends :
      (r : Result ChaseError Node) (m : Io Unit)
      → Keeps Extends m
      → Keeps Extends (unless_gone K r m)
  unless_gone-Extends (err enoent) m h = pure-Keeps Extends-start Extends-join tt
  unless_gone-Extends r m h = h

  pub teardown_workspace-Extends : (ws : Bytes) → Keeps Extends (teardown_workspace K ws)
  unfolding teardown_workspace
  teardown_workspace-Extends ws = record {
    run = λ t.
        (unless_gone-Extends (K.lstat t ws) _ (
            bind-Keeps Extends-start Extends-join (detach_all-Extends ws)
              (λ u. remove_tree-Extends ws))).run
          t;
  }
