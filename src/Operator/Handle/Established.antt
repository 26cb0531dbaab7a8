-- ===== src/Operator/Handle/Established.antt =====
-- What a successful Handle of operator/pkg/stub/handler.go has brought about in the cluster.
use bank_vaults.Prelude.{
  String, Bool, true, false, Option, [], ◌∷◌, ok, map_err, ◌>>=◌, ◌>>◌, map_err-lift-eq-ok, ok_inj,
  Dict, concat, ◌≡◌, ◌≢◌, refl, sym, ap, subst, ◌∙◌, Keeps, Keeps-bind, Keeps-map_err, Ensures-bind,
  Gives, Gives-first, Gives-rest, eq_iff,
}
use bank_vaults.Operator.Objects.{
  ObjectMeta, WorkloadSpec, Object, secret, etcd_cluster, stateful_set, service, deployment,
  config_map, meta_of,
}
use bank_vaults.Operator.Spec.{VaultCr, get_storage_type, external_config_json}
use bank_vaults.Operator.Fabricate.{Library, secret_for_etcd, as_owner, secret_for_vault}
use bank_vaults.Operator.Fabricate.Etcd.{etcd_for_vault, stateful_set_for_vault}
use bank_vaults.Operator.Fabricate.Etcd.Belongs.{set_meta, etcd_for_vault-kind}
use bank_vaults.Operator.Handle.{
  Cluster, failed, create, prepare_etcd, ensure_stateful_set, update_status, configure, reconcile,
  handle,
}
use bank_vaults.Operator.Handle.Registry.{
  Kind, secrets, stateful_sets, config_maps, Place, place, Registry,
}
use bank_vaults.Operator.Handle.Same.{Same, ensure_stateful_set-Same, update_status-Same}
use bank_vaults.Operator.Handle.Settled.{Standing, Configured, SetStands, Settled}
use bank_vaults.Operator.Fabricate.Etcd.Again.{CastLaws}
use bank_vaults.Operator.Handle.Settled.{Standing, Configured, SetStands, Settled}
use bank_vaults.Operator.Handle.Owned.{updatable, Watched, ensure_stateful_set-Keeps}
use bank_vaults.Operator.Handle.Calm.{
  create-Gives, Calm, Standing-Calm, update-Keeps, SetStands-Calm, create-Calm, configure-Calm,
  update_status-Calm,
}
use bank_vaults.Operator.Handle.Configured.{configure-Gives}
use bank_vaults.Operator.Handle.Ensured.{ensure_stateful_set-Gives}

-- Neither a stateful set nor a config map stands there.
abbrev is_other : Kind → Bool
is_other stateful_sets = false
is_other config_maps = false
is_other _ = true

set_ne_map : stateful_sets ≢ config_maps
set_ne_map h = cc

pub configured_same :
    {Any : Type 0} (lib : Library Any) (v u : VaultCr Any) (at : Place → Option Object)
    → Same lib v u
    → Configured u.namespace u.name (external_config_json lib.cast u.spec) at
    → Configured v.namespace v.name (external_config_json lib.cast v.spec) at
unfolding as_owner
configured_same lib v u at (owner, namespace, config) h =
    let name : u.name ≡ v.name = ap (λ o. o.name) owner in rw (namespace, name, config) at h

module _ {W Any : Type 0} (api : Cluster W Any) (lib : Library Any)
    (stands : W → Place → Option Object) (reg : Registry api stands) (laws : CastLaws lib.cast)
    (v : VaultCr Any) (t : String) where
  module _ (k : Place) (other_kind : is_other k.kind ≡ true) where
    abbrev P : W → Type 0
    P w = Standing (stands w k)

    abbrev calm : Calm api lib stands reg P
    calm = Standing-Calm api lib stands reg k

    updates : (obj : Object) → updatable obj ≡ true → Keeps P (api.update obj)
    updates (stateful_set m x) u =
        update-Keeps api lib stands reg k _
          λ e. let kind : k.kind ≡ stateful_sets = ap (λ p. p.kind) e in cc
    updates (config_map m x) u =
        update-Keeps api lib stands reg k _
          λ e. let kind : k.kind ≡ config_maps = ap (λ p. p.kind) e in cc
    updates (secret m x) u = cc
    updates (etcd_cluster m x) u = cc
    updates (service m x) u = cc
    updates (deployment m x) u = cc

    watched : Watched api lib v P
    watched = record {
      creates = λ obj b. calm.creates obj;
      updates = updates;
      updates_vault = calm.updates_vault;
      gets_set = calm.gets_set;
      gets_map = calm.gets_map;
      lists = calm.lists;
      generates = λ h d r. calm.generates h d;
    }

    create-Keeps : (what : String) (obj : Object) → Keeps P (create api lib what obj)
    create-Keeps what obj =
        create-Calm api lib stands reg P calm (λ m e. updates (config_map m e) refl) what obj

    -- The part of `reconcile` from the stateful set on.
    tail-Keeps : Keeps P (do
      v1 ← ensure_stateful_set api lib v t
      v2 ← update_status api lib v1
      configure api lib v2)
    tail-Keeps = Keeps-bind _ _ (ensure_stateful_set-Keeps api lib v P watched t) λ v1.
        Keeps-bind _ _
          (update_status-Calm api lib stands reg P calm (λ m e. updates (config_map m e) refl) v1)
          λ v2. configure-Calm api lib stands reg P calm (λ m e. updates (config_map m e) refl) v2

    rest-Keeps : Keeps P (do
      chain ←
          map_err
            (failed "fabricate secret for vault")
            (api.generate_tls (concat (v.name ∷ "." ∷ v.namespace ∷ ",127.0.0.1" ∷ [])) "8760h")
      create api lib "create secret for vault" (secret_for_vault lib v chain (as_owner lib v ∷ []))
      v1 ← ensure_stateful_set api lib v t
      v2 ← update_status api lib v1
      configure api lib v2)
    rest-Keeps =
        Keeps-bind _ _ (Keeps-map_err _ _ (calm.generates _ _))
          λ chain. Keeps-bind _ _ (create-Keeps _ _) λ _. tail-Keeps

  tls-Gives : Gives (reconcile api lib v t) (λ _ w. Standing (
      stands w
        (record { kind = secrets; namespace = v.namespace; name = concat (v.name ∷ "-tls" ∷ []) })))
  unfolding reconcile secret_for_vault
  tls-Gives = Gives-rest _ _ λ _.
      Gives-rest _ _
        λ chain. Gives-first _ _ (create-Gives api lib stands reg _ _) (λ _. tail-Keeps _ refl)

  set-Gives :
      (spec : WorkloadSpec)
      → (stateful_set_for_vault lib v t).0 ≡ ok (stateful_set (set_meta lib v) spec)
      → Gives (reconcile api lib v t) (λ _ w. SetStands v.namespace v.name spec (stands w))
  unfolding reconcile
  set-Gives spec made =
      let calm = SetStands-Calm api lib stands reg v.namespace v.name spec in
      let maps : (m : ObjectMeta) (e : Option (Dict String))
          → Keeps (λ w. SetStands v.namespace v.name spec (stands w))
              (api.update (config_map m e)) =
        λ m e. record {
          at = λ w (meta, ns, n, held).
              (meta, ns, n, reg.update_keeps _ _ w (λ h. set_ne_map (ap (λ p. p.kind) h)) ∙ held);
        } in
      Gives-rest _ _ λ _. Gives-rest _ _ λ chain. Gives-rest _ _ λ _.
        Gives-first _ _ (ensure_stateful_set-Gives api lib stands reg laws v t spec made) λ v1.
          Keeps-bind _ _ (update_status-Calm api lib stands reg _ calm maps v1)
            λ v2. configure-Calm api lib stands reg _ calm maps v2

  configured-Gives :
      Gives
        (reconcile api lib v t)
        (λ _ w. Configured v.namespace v.name (external_config_json lib.cast v.spec) (stands w))
  unfolding reconcile
  configured-Gives = Gives-rest _ _ λ _. Gives-rest _ _ λ chain. Gives-rest _ _ λ _.
      Ensures-bind {R = λ u _. Same lib v u} _ _
        (record { at = λ w u _ h. ensure_stateful_set-Same api lib v t w u h })
        λ v1.
          Ensures-bind {R = λ u _. Same lib v u} _ _
            (record { at = λ w u s h. update_status-Same api lib v v1 w u s h })
            λ v2. record {
              at = λ w a s h.
                  configured_same lib v v2 _ s
                    ((configure-Gives api lib stands reg v2).at w a tt h);
            }

  -- The etcd cluster stands, and its certificates.
  abbrev EtcdStands : Object → W → Type 0
  EtcdStands cluster w =
      Standing (stands w (place cluster))
      × Standing (
          stands w (record {
            kind = secrets;
            namespace = (meta_of cluster).namespace;
            name = concat ((meta_of cluster).name ∷ "-tls" ∷ []);
          }))

  EtcdStands-same :
      {o cluster : Object} {w : W} → o ≡ cluster → EtcdStands o w → EtcdStands cluster w
  EtcdStands-same {w} same h = subst (λ x. EtcdStands x w) same h

  module _ (cluster : Object) (made : etcd_for_vault lib v t ≡ ok cluster) where
    etcd_kind : is_other (place cluster).kind ≡ true
    etcd_kind = let (m, x, is) = etcd_for_vault-kind lib v t cluster made in rw is refl

    prepare_etcd-Gives : Gives (prepare_etcd api lib v t) (λ _. EtcdStands cluster)
    unfolding prepare_etcd secret_for_etcd
    prepare_etcd-Gives =
        Ensures-bind {R = λ obj _. obj ≡ cluster} _ _
          (record { at = λ w obj _ h. ok_inj (sym (map_err-lift-eq-ok _ _ w h) ∙ made) })
          λ obj. record {
            at = λ w a same h. EtcdStands-same same (
              (Gives-rest _ _ λ chain. Gives-rest _ _ λ _. create-Gives api lib stands reg _ obj).at
                  w a tt h,
              (Gives-rest _ _ λ chain.
                    Gives-first _ _
                      (create-Gives api lib stands reg _
                        (secret_for_etcd (meta_of obj) chain (as_owner lib v ∷ [])))
                      (λ _. create-Keeps _ refl _ _)).at
                  w a tt h,
            );
          }

    etcd-Gives : t ≡ "etcd" → Gives (reconcile api lib v t) (λ _. EtcdStands cluster)
    unfolding reconcile
    etcd-Gives is_etcd = Gives-first _ _ (rw ((eq_iff t "etcd").1 is_etcd) prepare_etcd-Gives) λ _.
        record {
          at = λ w (a, b).
              ((rest-Keeps (place cluster) etcd_kind).at w a, (rest-Keeps _ refl).at w b);
        }

  reconcile-Gives : Gives (reconcile api lib v t) (λ _ w. Settled lib v t (stands w))
  reconcile-Gives = record {
    at = λ w a u h. record {
      etcd = λ is_etcd cluster made. (etcd-Gives cluster made is_etcd).at w a u h;
      tls = tls-Gives.at w a u h;
      set = λ spec made. (set-Gives spec made).at w a u h;
      configured = configured-Gives.at w a u h;
    };
  }

  -- On a cluster that behaves as the Kubernetes API documents: if Handle of a CR returns without an
  -- error, then all that it makes of the CR stands: with etcd storage the etcd cluster and its
  -- certificates, the Vault's certificates, its stateful set with the spec that is fabricated of the
  -- CR, its service, the deployment of its configurer, and a config map with its external
  -- configuration.
  pub handle_establishes :
      (w : W)
      → get_storage_type lib.cast v.spec ≡ ok t
      → (handle api lib false v w).0 ≡ ok tt
      → Settled lib v t (stands (handle api lib false v w).1)
  unfolding handle ◌>>=◌
  handle_establishes w storage h = rw storage (reconcile-Gives.at w tt tt (rw storage at h))
