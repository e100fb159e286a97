-- ===== src/Overlay/Engine/Spared/Planning.antt =====
-- internal/overlay/engine.go and mutable.go: looking the hierarchies up and planning the merge.
use sysext_alpine.Base.{
  ℕ, ◌≡◌, refl, Bool, true, false, not, ◌&&◌, List, [], ◌∷◌, ◌++◌, Option, none, some, ok, Bytes,
  codes, null, ◌==◌, All, All-append, join_path, if◌then◌else◌, arith,
}
use sysext_alpine.Files.Chase.Rooted.{IsRooted}
use sysext_alpine.Overlay.Origin.{origin_text, path_without_root}
use sysext_alpine.Overlay.Kernel.{
  not_a_directory, already_merged, make_dirs, chmod, Trace, Kernel, ask, call, chased,
  resolve_hierarchy, or_if_missing,
}
use sysext_alpine.Overlay.Kernel.Stays.{
  Any, Stays, pure-Stays, fail-Stays, ask-Stays, bind-Stays, then-Stays, if-Stays, if-Stays-eq,
  for_each-Stays,
}
use sysext_alpine.Overlay.Workspace.Confined.{Confined, call-Stays}
use sysext_alpine.Overlay.Mutable.{
  Mode, must_be_dir, dir_type, no_mode, auto, always, only_import, ephemeral, ephemeral_import,
  create_mutable, persistent_dir, resolve_mutable_dir, mutable_dir_mode_matches, is_no_mode,
  mode_is_ephemeral, mutable_base, ephemeral_workspace,
}
use sysext_alpine.Overlay.Markers.{single_path_component}
use sysext_alpine.Overlay.Unmerge.{is_our_mount_point}
use sysext_alpine.Overlay.Engine.{backward, MountedImage, Hier, MergeOp, World}
use sysext_alpine.Overlay.Engine.Kept.{Both, io-Stays, state-Stays, change-Stays}
use sysext_alpine.Overlay.Engine.Layers.{
  mode_name, options_text, by_hash, identify, identify_all, layer_at, layers_of, used_layers,
  planned_dir, plan_hiers, plan, hierarchy_mode,
}
use sysext_alpine.Overlay.Engine.Run.{start_hier, look_up, look_up_all, is_unchanged, old_origin}
use sysext_alpine.Overlay.Engine.Lookup.{NotMerged}
use sysext_alpine.Overlay.Engine.Spared.{Spared}

-- No new overlay is on the hierarchy or staged for it, and no clone is held for it.
abbrev IsRestored : Hier → Type 0
IsRestored hs = (hs.attached ≡ false) × (hs.staging_mounted ≡ false) × (hs.subs ≡ [])

-- Nothing is mounted for the hierarchy; for a merge that is no refresh it is not merged either.
abbrev pub IsQuiet : Bool → Hier → Type 0
IsQuiet refresh hs = IsRestored hs × (refresh ≡ false → NotMerged hs)

module _ (K : Kernel) (ws : Bytes) (start : Trace) (rooted : IsRooted ws)
    (refresh no_mutable : Bool) where
  abbrev S : MergeOp → Type 0
  S op = Spared K ws start rooted (IsQuiet refresh) no_mutable op

  abbrev C : Trace → Type 0
  C t = Confined ws start t

  abbrev Sparing : World → Type 0
  Sparing w = Both S C w

  new_hier : (b r : Bool) → (b && not r) ≡ false → r ≡ false → b ≡ false
  new_hier b r h e = ground arith

  look_up-Stays : (rounds : ℕ) (h : Bytes) → Stays Sparing Any (look_up K rounds refresh h)
  look_up-Stays rounds h = bind-Stays (state-Stays S C) (λ op s.
      bind-Stays (io-Stays S C (ask-Stays (chased K op.root h true))) (λ target u.
        bind-Stays (io-Stays S C (ask-Stays (resolve_hierarchy K op.root h))) (λ host u.
          bind-Stays
            (io-Stays S C (
              ask-Stays
                (λ t. if null host then ok false else is_our_mount_point K op.class host t)))
            (λ m u.
              if-Stays-eq (m && not refresh) (λ e. fail-Stays (already_merged h))
                (λ e.
                  change-Stays S C
                    (λ o. record o { hiers = o.hiers ++ (start_hier h target host m ∷ []) })
                    (λ o (f, (g, (i, k))). (
                      f,
                      (
                        g,
                        (
                          i,
                          All-append (IsQuiet refresh) o.hiers (start_hier h target host m ∷ []) k
                              (((refl, refl, refl), new_hier m refresh e), tt),
                        ),
                      ),
                    )))))))

  pub look_up_all-Stays :
      (rounds : ℕ) (hs : List Bytes) → Stays Sparing Any (look_up_all K rounds refresh hs)
  unfolding look_up_all
  look_up_all-Stays rounds hs =
      for_each-Stays {P = λ h. Unit {0}} hs (look_up K rounds refresh) (anything hs)
        (λ h u. look_up-Stays rounds h)
    where
      anything : (xs : List Bytes) → All (λ h. Unit {0}) xs
      anything [] = tt
      anything (x ∷ xs) = (tt, anything xs)

  identify-Stays :
      (mi : MountedImage) (path : Bytes) (o : Option Bytes) → Stays C Any (by_hash K mi.img path o)
  unfolding identify
  identify-Stays mi path none = asked
    where
      asked : Stays C Any (identify K mi.img path)
      asked = bind-Stays (ask-Stays (λ t. K.inode t mi.img.path)) (λ inode u. ask-Stays _)
  identify-Stays mi path (some h) =
      if-Stays (null h)
        (bind-Stays (ask-Stays (λ t. K.inode t mi.img.path)) (λ inode u. ask-Stays _))
        (pure-Stays _ tt)

  identify_all-Stays :
      (roots : List Bytes) (is : List MountedImage) → Stays C Any (identify_all K roots is)
  unfolding identify_all
  identify_all-Stays roots [] = pure-Stays [] tt
  identify_all-Stays roots (mi ∷ is) =
      bind-Stays (identify-Stays mi (path_without_root mi.img.path roots) mi.mounted) (λ id u.
        bind-Stays (identify_all-Stays roots is)
          (λ rest v. pure-Stays ((mi.img.name, id) ∷ rest) tt))

  layers_of-Stays :
      (hierarchy : Bytes) (trees : List Bytes) → Stays C Any (layers_of K hierarchy trees)
  unfolding layers_of
  layers_of-Stays hierarchy [] = pure-Stays [] tt
  layers_of-Stays hierarchy (tree ∷ trees) =
      bind-Stays (ask-Stays (λ t. layer_at K (chased K tree hierarchy false t) t))
        (λ p u. bind-Stays (layers_of-Stays hierarchy trees) (λ rest v. pure-Stays (p ++ rest) tt))

  call_free : (p : Bytes) → Stays C Any (call K (make_dirs p))
  call_free p = call-Stays K ws start (make_dirs p) tt

  must_be_dir-Stays : (p : Bytes) → Stays C Any (must_be_dir K p)
  unfolding must_be_dir
  must_be_dir-Stays p =
      bind-Stays (ask-Stays (λ t. K.stat t p)) (λ st u.
        if-Stays (st.file_type == dir_type) (pure-Stays tt tt) (fail-Stays not_a_directory))

  create_mutable-Stays :
      (root rel : Bytes) (mode : ℕ) → Stays C Any (create_mutable K root rel mode)
  create_mutable-Stays root rel mode = bind-Stays (ask-Stays (chased K root rel true)) (λ p u.
      then-Stays (call_free p) (
        bind-Stays (ask-Stays (chased K root rel false))
          (λ q v. then-Stays (must_be_dir-Stays q) (call-Stays K ws start (chmod q mode) tt))))

  found-Stays :
      (root rel : Bytes) → Stays C Any (ask (λ t. or_if_missing [] (chased K root rel false t)))
  found-Stays root rel = ask-Stays _

  persistent_dir-Stays :
      (m : Mode) (root rel : Bytes) (mode : ℕ) → Stays C Any (persistent_dir K m root rel mode)
  persistent_dir-Stays always root rel mode =
      then-Stays (ask-Stays (mutable_dir_mode_matches K root rel mode))
        (then-Stays (create_mutable-Stays root rel mode) (found-Stays root rel))
  persistent_dir-Stays auto root rel mode =
      then-Stays (ask-Stays (mutable_dir_mode_matches K root rel mode)) (found-Stays root rel)
  persistent_dir-Stays no_mode root rel mode = found-Stays root rel
  persistent_dir-Stays only_import root rel mode = found-Stays root rel
  persistent_dir-Stays ephemeral root rel mode = found-Stays root rel
  persistent_dir-Stays ephemeral_import root rel mode = found-Stays root rel

  resolve_mutable_dir-Stays :
      (m : Mode) (root h : Bytes) (mode : ℕ) (d : Bytes)
      → Stays C Any (resolve_mutable_dir K m root h mode d)
  unfolding resolve_mutable_dir
  resolve_mutable_dir-Stays m root h mode d = if-Stays (is_no_mode m) (pure-Stays [] tt) (
      if-Stays (mode_is_ephemeral m)
        (let p = join_path d (single_path_component h) in
          then-Stays (call_free p)
            (then-Stays (call-Stays K ws start (chmod p mode) tt) (pure-Stays p tt)))
        (persistent_dir-Stays m root (join_path mutable_base (single_path_component h)) mode))

  planned_dir-Stays : (op : MergeOp) (hs : Hier) → Stays C Any (planned_dir K op hs)
  planned_dir-Stays op hs =
      if-Stays (mode_is_ephemeral op.mode)
        (pure-Stays (ephemeral_workspace ++ (codes "/" ++ single_path_component hs.path)) tt)
        (bind-Stays (ask-Stays (λ t. ok (hierarchy_mode K hs.host t))) (λ mode u.
          bind-Stays (resolve_mutable_dir-Stays op.mode op.root hs.path mode [])
            (λ d v. pure-Stays (path_without_root d (op.root ∷ [])) tt)))

  -- The hierarchies stay quiet.
  plan_hiers-Stays :
      (op : MergeOp) (trees : List Bytes) (hiers : List Hier)
      → All (IsQuiet refresh) hiers
      → Stays C (λ r. All (IsQuiet refresh) r.0) (plan_hiers K op trees hiers)
  unfolding plan_hiers used_layers
  plan_hiers-Stays op trees [] h = pure-Stays ([], []) tt
  plan_hiers-Stays op trees (hs ∷ rest) (q, h) =
      bind-Stays (layers_of-Stays hs.path (backward trees)) (λ used u.
        bind-Stays (planned_dir-Stays op hs)
          (λ d v. bind-Stays (plan_hiers-Stays op trees rest h) (λ r k. pure-Stays _ (q, k))))

  pub plan-Stays : (trees : List Bytes) → Stays Sparing Any (plan K trees)
  unfolding plan
  plan-Stays trees = bind-Stays (state-Stays S C) (λ op (f, (g, (i, h))).
      bind-Stays (io-Stays S C (identify_all-Stays op.roots op.images)) (λ images u.
        bind-Stays (io-Stays S C (plan_hiers-Stays op trees op.hiers h)) (λ r k.
          then-Stays
            (change-Stays S C (λ o. record o { hiers = r.0 })
              (λ o (f, (g, (i, h))). (f, (g, (i, k)))))
            (pure-Stays
              (origin_text (record {
                mode = mode_name op.mode;
                mutable_dirs = r.1;
                mount_options = options_text K op.opts.mount_options;
                images = images;
              }))
              tt))))

  pub is_unchanged-Stays :
      (rounds : ℕ) (content : Bytes) → Stays Sparing Any (is_unchanged K rounds content)
  is_unchanged-Stays rounds content = bind-Stays (state-Stays S C) (λ op s.
      bind-Stays (io-Stays S C (ask-Stays (λ t. ok (old_origin K rounds op t)))) (λ old u.
        if-Stays (null old) (pure-Stays false tt) (
          bind-Stays (io-Stays S C (ask-Stays (λ t. K.json_equal content old)))
            (λ equal v. pure-Stays (equal && not op.opts.always_refresh) tt))))
