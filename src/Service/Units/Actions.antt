-- ===== src/Service/Units/Actions.antt =====
-- internal/service/units.go: the units that `CollectActions` returns.
use sysext_alpine.Base.{
  ◌≡◌, refl, ◌∙◌, ◌⊎◌, inl, inr, Bool, true, false, not, List, [], ◌∷◌, Option, none, some, Bytes,
  Sign, less, equal, greater, compare_bytes, contains, All, if◌then◌else◌, arith,
}
use sysext_alpine.Service.Units.{
  unit_name_is_valid, Extension, Warning, insert_key, without, Collected, nothing_collected,
  UnitField, restart_units, reload_or_restart_units, warn, add_unit, take_units, take_field,
  reload_of, take_reload, collect_from, collect_actions, is_empty,
}

abbrev IsUnit : Bytes → Type 0
IsUnit u = unit_name_is_valid u ≡ true

insert_key-All :
    (P : Bytes → Type 0) (k : Bytes) (ks : List Bytes) → P k → All P ks → All P (insert_key k ks)
unfolding insert_key
insert_key-All P k [] p h = (p, tt)
insert_key-All P k (j ∷ ks) p h = placed (compare_bytes k j) (insert_key-All P k ks p h.1)
  where
    placed :
        (s : Sign)
        → All P (insert_key k ks)
        → All P (elim s [ less ↦ k ∷ j ∷ ks | equal ↦ j ∷ ks | greater ↦ j ∷ insert_key k ks ])
    placed less r = (p, h)
    placed equal r = h
    placed greater r = (h.0, r)

-- The units of a state are valid, and a reload is asked for whenever there is one.
record IsCollected (a : Collected) : Type 0 where
  restart_valid : All IsUnit a.to_restart
  reload_valid : All IsUnit a.to_reload
  reloads : (a.reload ≡ true) ⊎ ((a.to_restart ≡ []) × (a.to_reload ≡ []))

warn-IsCollected : (w : Warning) (a : Collected) → IsCollected a → IsCollected (warn w a)
warn-IsCollected w a c = record {
  restart_valid = c.restart_valid;
  reload_valid = c.reload_valid;
  reloads = c.reloads;
}

reloading-IsCollected : (a : Collected) → IsCollected a → IsCollected (record a { reload = true })
reloading-IsCollected a c = record {
  restart_valid = c.restart_valid;
  reload_valid = c.reload_valid;
  reloads = inl refl;
}

add_unit-IsCollected :
    (f : UnitField) (u : Bytes) (a : Collected)
    → IsUnit u
    → a.reload ≡ true
    → IsCollected a
    → IsCollected (add_unit f u a)
add_unit-IsCollected restart_units u a v r c = record {
  restart_valid = insert_key-All IsUnit u a.to_restart v c.restart_valid;
  reload_valid = c.reload_valid;
  reloads = inl r;
}
add_unit-IsCollected reload_or_restart_units u a v r c = record {
  restart_valid = c.restart_valid;
  reload_valid = insert_key-All IsUnit u a.to_reload v c.reload_valid;
  reloads = inl r;
}

add_unit-reload : (f : UnitField) (u : Bytes) (a : Collected) → (add_unit f u a).reload ≡ a.reload
add_unit-reload restart_units u a = refl
add_unit-reload reload_or_restart_units u a = refl

-- One more unit name of a field.
one_unit-IsCollected :
    (f : UnitField) (u : Bytes) (w : Warning) (a : Collected) (b : Bool)
    → unit_name_is_valid u ≡ b
    → a.reload ≡ true
    → IsCollected a
    → IsCollected (if b then add_unit f u a else warn w a)
      × ((if b then add_unit f u a else warn w a).reload ≡ true)
one_unit-IsCollected f u w a true v r c =
    (add_unit-IsCollected f u a v r c, add_unit-reload f u a ∙ r)
one_unit-IsCollected f u w a false v r c = (warn-IsCollected w a c, r)

take_units-IsCollected :
    (name : Bytes) (f : UnitField) (us : List Bytes) (a : Collected)
    → a.reload ≡ true
    → IsCollected a
    → IsCollected (take_units name f us a)
unfolding take_units
take_units-IsCollected name f [] a r c = c
take_units-IsCollected name f (u ∷ us) a r c =
    let p = one_unit-IsCollected f u _ a (unit_name_is_valid u) refl r c in
    take_units-IsCollected name f us _ p.1 p.0

if-IsCollected :
    (b : Bool) (x y : Collected) → IsCollected x → IsCollected y → IsCollected (if b then x else y)
if-IsCollected true x y h k = h
if-IsCollected false x y h k = k

take_field-IsCollected :
    (ext : Extension) (f : UnitField) (a : Collected)
    → IsCollected a
    → IsCollected (take_field ext f a)
unfolding take_field
take_field-IsCollected ext f a c = if-IsCollected _ _ _ c (
    take_units-IsCollected ext.ext_name f _ (record a { reload = true }) refl
      (reloading-IsCollected a c))

reload_of-IsCollected :
    (name : Bytes) (o : Option Bool) (a : Collected)
    → IsCollected a
    → IsCollected (reload_of name o a)
reload_of-IsCollected name none a c = warn-IsCollected _ a c
reload_of-IsCollected name (some true) a c = reloading-IsCollected a c
reload_of-IsCollected name (some false) a c = c

take_reload-IsCollected :
    (ext : Extension) (a : Collected) → IsCollected a → IsCollected (take_reload ext a)
unfolding take_reload
take_reload-IsCollected ext a c = if-IsCollected _ _ _ c (reload_of-IsCollected ext.ext_name _ a c)

collect_from-IsCollected :
    (exts : List Extension) (a : Collected) → IsCollected a → IsCollected (collect_from exts a)
unfolding collect_from
collect_from-IsCollected [] a c = c
collect_from-IsCollected (ext ∷ exts) a c = collect_from-IsCollected exts _ (
    take_field-IsCollected ext reload_or_restart_units _
      (take_field-IsCollected ext restart_units _ (take_reload-IsCollected ext a c)))

without-All :
    (P : Bytes → Type 0) (gone ks : List Bytes)
    → All P ks
    → All (λ u. P u × (contains gone u ≡ false)) (without gone ks)
unfolding without
without-All P gone [] h = tt
without-All P gone (k ∷ ks) h = kept (contains gone k) refl (without-All P gone ks h.1)
  where
    kept :
        (b : Bool)
        → contains gone k ≡ b
        → All (λ u. P u × (contains gone u ≡ false)) (without gone ks)
        → All
            (λ u. P u × (contains gone u ≡ false))
            (if b then without gone ks else k ∷ without gone ks)
    kept true e r = r
    kept false e r = ((h.0, e), r)

without-empty : (gone ks : List Bytes) → ks ≡ [] → without gone ks ≡ []
unfolding without
without-empty gone [] h = refl
without-empty gone (k ∷ ks) h = cc

reload-is_empty :
    (a : Collected)
    → (a.reload ≡ true) ⊎ ((a.to_restart ≡ []) × (a.to_reload ≡ []))
    → is_empty a ≡ not a.reload
unfolding is_empty
reload-is_empty a (inl h) = rw h
reload-is_empty a (inr (h, k)) = ground (arith, h, k)

-- The collected units all have valid names, no unit that is restarted is also to be reloaded or
-- restarted, and there is nothing to do exactly when no reload of the manager is asked for.
pub collect_actions_lem :
    (exts : List Extension)
    → All (λ u. unit_name_is_valid u ≡ true) (collect_actions exts).to_restart
      × All
          (λ u.
            (unit_name_is_valid u ≡ true) × (contains (collect_actions exts).to_restart u ≡ false))
          (collect_actions exts).to_reload
      × (is_empty (collect_actions exts) ≡ not (collect_actions exts).reload)
unfolding collect_actions
collect_actions_lem exts =
    let a = collect_from exts nothing_collected in
    let c =
      collect_from-IsCollected exts nothing_collected
        (record { restart_valid = tt; reload_valid = tt; reloads = inr (refl, refl) }) in
    (
      c.restart_valid,
      without-All IsUnit a.to_restart a.to_reload c.reload_valid,
      reload-is_empty (record a { to_reload = without a.to_restart a.to_reload }) (still c.reloads),
    )
  where
    still :
        {r : Bool} {xs ys : List Bytes}
        → (r ≡ true) ⊎ ((xs ≡ []) × (ys ≡ []))
        → (r ≡ true) ⊎ ((xs ≡ []) × (without xs ys ≡ []))
    still (inl h) = inl h
    still {xs = xs} {ys = ys} (inr (h, k)) = inr (h, without-empty xs ys k)
