-- ===== src/Operator/Handle/Calm.antt =====
-- What the calls of Handle in operator/pkg/stub/handler.go leave standing in the cluster.
use bank_vaults.Prelude.{
  String, Option, none, some, Exec, Result, ok, err, panic, map_err, ◌>>=◌, ◌>>◌, Dict, ◌≡◌, ◌≢◌,
  refl, ap, ◌∙◌, ◌⊎◌, inl, inr, Keeps, Keeps-bind, Keeps-map_err, Keeps-same, keeps_rules, Gives,
}
use bank_vaults.Operator.Objects.{ObjectMeta, WorkloadSpec, Object, config_map}
use bank_vaults.Operator.Spec.{VaultCr}
use bank_vaults.Operator.Fabricate.{Library}
use bank_vaults.Operator.Handle.{
  Cluster, failed, text, ApiError, already_exists, absent, other, unless_exists, create,
  update_status, synchronize, configure,
}
use bank_vaults.Operator.Handle.Registry.{Kind, config_maps, Place, place, Registry}
use bank_vaults.Operator.Handle.Settled.{Standing, SetStands}

unless_exists-eq-ok :
    (what : String) (r : Result ApiError (Unit {0}))
    → unless_exists what r ≡ ok tt
    → (r ≡ ok tt) ⊎ ((m : String) × (r ≡ err (already_exists m)))
unfolding unless_exists
unless_exists-eq-ok what (ok tt) h = inl refl
unless_exists-eq-ok what (err (already_exists m)) h = inr (m, refl)
unless_exists-eq-ok what (err (absent m)) h = cc
unless_exists-eq-ok what (err (other m)) h = cc
unless_exists-eq-ok what (panic s) h = cc

module _ {W Any : Type 0} (api : Cluster W Any) (lib : Library Any)
    (stands : W → Place → Option Object) (reg : Registry api stands) where
  pub create-Gives :
      (what : String) (obj : Object)
      → Gives (create api lib what obj) (λ _ w. Standing (stands w (place obj)))
  unfolding create
  create-Gives what obj = record {
    at = λ w a u h. elim (unless_exists-eq-ok what (api.create obj w).0 h) [
      | inl made ↦ (obj, reg.creates obj w made)
      | inr (m, there) ↦ reg.exists obj m w there
    ];
  }

  -- The end of `configure`.
  abbrev pub from_map : String → String → String → Exec W String (Unit {0})
  from_map namespace name config = do
    (meta, entries) ←
        map_err (λ e. failed "get deployment" (text e)) (api.get_config_map namespace name)
    synchronize api lib config meta entries

  -- What every call keeps that is no update of a stateful set or a config map.
  pub record Calm (P : W → Type 0) : Type 0 where
    pub creates : (obj : Object) → Keeps P (api.create obj)
    pub updates_vault : (u : VaultCr Any) → Keeps P (api.update_vault u)
    pub gets_set : (ns n : String) → Keeps P (api.get_stateful_set ns n)
    pub gets_map : (ns n : String) → Keeps P (api.get_config_map ns n)
    pub lists : (ns : String) (labels : Dict String) → Keeps P (api.list_pods ns labels)
    pub generates : (h d : String) → Keeps P (api.generate_tls h d)

  pub Standing-Calm : (k : Place) → Calm (λ w. Standing (stands w k))
  Standing-Calm k =
      let Q : (Place → Option Object) → Type 0 = λ at. Standing (at k) in
      record {
        creates = λ obj. record { at = λ w (x, e). (x, reg.create_keeps obj x k w e) };
        updates_vault = λ u. Keeps-same stands Q _ (reg.update_vault_keeps u);
        gets_set = λ ns n. Keeps-same stands Q _ (reg.get_set_keeps ns n);
        gets_map = λ ns n. Keeps-same stands Q _ (reg.get_map_keeps ns n);
        lists = λ ns l. Keeps-same stands Q _ (reg.list_keeps ns l);
        generates = λ h d. Keeps-same stands Q _ (reg.generate_keeps h d);
      }

  pub update-Keeps :
      (k : Place) (obj : Object)
      → k ≢ place obj
      → Keeps (λ w. Standing (stands w k)) (api.update obj)
  update-Keeps k obj differ = record { at = λ w (x, e). (x, reg.update_keeps obj k w differ ∙ e) }

  pub SetStands-Calm :
      (namespace name : String) (spec : WorkloadSpec)
      → Calm (λ w. SetStands namespace name spec (stands w))
  SetStands-Calm namespace name spec =
      let Q : (Place → Option Object) → Type 0 = SetStands namespace name spec in
      record {
        creates = λ obj. record {
          at = λ w (meta, ns, n, e). (meta, ns, n, reg.create_keeps obj _ _ w e);
        };
        updates_vault = λ u. Keeps-same stands Q _ (reg.update_vault_keeps u);
        gets_set = λ ns n. Keeps-same stands Q _ (reg.get_set_keeps ns n);
        gets_map = λ ns n. Keeps-same stands Q _ (reg.get_map_keeps ns n);
        lists = λ ns l. Keeps-same stands Q _ (reg.list_keeps ns l);
        generates = λ h d. Keeps-same stands Q _ (reg.generate_keeps h d);
      }

  module _ (P : W → Type 0) (calm : Calm P)
      (maps : (meta : ObjectMeta) (entries : Option (Dict String))
        → Keeps P (api.update (config_map meta entries))) where
    pub create-Calm : (what : String) (obj : Object) → Keeps P (create api lib what obj)
    unfolding create
    create-Calm what obj = record { at = (calm.creates obj).at }

    pub synchronize-Calm :
        (config : String) (meta : ObjectMeta) (entries : Option (Dict String))
        → Keeps P (synchronize api lib config meta entries)
    unfolding synchronize
    synchronize-Calm config meta none = search keeps_rules
    synchronize-Calm config meta (some entries) = search (keeps_rules, maps)

    pub from_map-Calm : (namespace name config : String) → Keeps P (from_map namespace name config)
    from_map-Calm namespace name config =
        Keeps-bind _ _ (Keeps-map_err _ _ (calm.gets_map _ _))
          λ (meta, entries). synchronize-Calm _ meta entries

    pub one-Calm :
        (what : String) (obj : Object) (namespace name config : String)
        → Keeps P (do create api lib what obj; from_map namespace name config)
    one-Calm what obj namespace name config =
        Keeps-bind _ _ (create-Calm what obj) λ _. from_map-Calm namespace name config

    pub two-Calm :
        (what what' : String) (obj obj' : Object) (namespace name config : String)
        → Keeps P
            (do create api lib what obj; create api lib what' obj'; from_map namespace name config)
    two-Calm what what' obj obj' namespace name config =
        Keeps-bind _ _ (create-Calm what obj) λ _. one-Calm what' obj' namespace name config

    pub configure-Calm : (u : VaultCr Any) → Keeps P (configure api lib u)
    unfolding configure
    configure-Calm u = Keeps-bind _ _ (create-Calm _ _) λ _. two-Calm _ _ _ _ _ _ _

    pub update_status-Calm : (u : VaultCr Any) → Keeps P (update_status api lib u)
    unfolding update_status
    update_status-Calm u = search (keeps_rules, calm.lists, calm.updates_vault)

  -- Where an object with this metadata stands.
  pub place_same :
      (kind : Kind) (meta : ObjectMeta) {namespace name : String}
      → meta.namespace ≡ namespace
      → meta.name ≡ name
      → (w : W)
      → stands w (record { kind = kind; namespace = meta.namespace; name = meta.name })
        ≡ stands w (record { kind = kind; namespace = namespace; name = name })
  place_same kind meta ns n w = rw (ns, n) refl

  -- What stands in a place of another kind than a config map's is kept when one is updated.
  pub maps_keep :
      (k : Place)
      → k.kind ≢ config_maps
      → (meta : ObjectMeta) (entries : Option (Dict String))
      → Keeps (λ w. Standing (stands w k)) (api.update (config_map meta entries))
  maps_keep k differ meta entries =
      update-Keeps k (config_map meta entries) λ e. differ (ap (λ p. p.kind) e)
