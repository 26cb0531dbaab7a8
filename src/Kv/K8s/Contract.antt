-- ===== src/Kv/K8s/Contract.antt =====
-- pkg/kv/k8s/k8s.go and the contract of a key store: what is asked of the remote service,
-- and the proof.
use bank_vaults.Prelude.{
  String, map_err-eq-ok, bind-eq-ok, pure-eq-ok, true, Option, none, some, is_ok, ok, err, ◌>>=◌,
  Dict, lookup, insert, ◌==◌, if◌then◌else◌, ◌≡◌, ◌≢◌, refl, ◌⊎◌, arith, eq_iff, eq_refl,
  lookup-insert,
}
use bank_vaults.Kv.{Service, not_found}
use bank_vaults.Kv.Spec.{Faithful, Faithful-same}
use bank_vaults.Kv.K8s.{
  absent, Secret, Secrets, K8sStorage, value_at, fresh, assign, write, set, get, present, service,
  Setup, new,
}

-- What the API documents: `held w` is the Secret that stands under the store's namespace and name,
-- which a Secret that is got has, and a call with a Secret of that namespace and name writes it, if it
-- succeeds; if it fails, it may or may not have taken effect. Of calls with another Secret nothing is
-- said.
pub record SecretsLaws {W : Type 0} (api : Secrets W) (k : K8sStorage) (held : W → Option Secret)
    : Type 0 where
  pub get_ok : (w : W) (s : Secret) → (api.get k.namespace k.secret w).0 ≡ ok s → held w ≡ some s
  pub get_namespace :
      (w : W) (s : Secret) → (api.get k.namespace k.secret w).0 ≡ ok s → s.namespace ≡ k.namespace
  pub get_name :
      (w : W) (s : Secret) → (api.get k.namespace k.secret w).0 ≡ ok s → s.name ≡ k.secret
  pub get_absent :
      (w : W) (m : String) → (api.get k.namespace k.secret w).0 ≡ err (absent m) → held w ≡ none
  pub get_keeps : (w : W) → held (api.get k.namespace k.secret w).1 ≡ held w
  pub create_ok :
      (w : W) (s : Secret)
      → s.namespace ≡ k.namespace
      → s.name ≡ k.secret
      → is_ok (api.create k.namespace s w).0 ≡ true
      → held (api.create k.namespace s w).1 ≡ some s
  pub create_any :
      (w : W) (s : Secret)
      → s.namespace ≡ k.namespace
      → s.name ≡ k.secret
      → (held (api.create k.namespace s w).1 ≡ held w)
        ⊎ (held (api.create k.namespace s w).1 ≡ some s)
  pub update_ok :
      (w : W) (s : Secret)
      → s.namespace ≡ k.namespace
      → s.name ≡ k.secret
      → is_ok (api.update k.namespace s w).0 ≡ true
      → held (api.update k.namespace s w).1 ≡ some s
  pub update_any :
      (w : W) (s : Secret)
      → s.namespace ≡ k.namespace
      → s.name ≡ k.secret
      → (held (api.update k.namespace s w).1 ≡ held w)
        ⊎ (held (api.update k.namespace s w).1 ≡ some s)

unfoldable pub key_in : String → Option Secret → Option String
unfolding value_at
key_in key none = none
key_in key (some s) = value_at key s.values

value_at-insert :
    (key j val : String) (values : Dict (Option String))
    → value_at j (some (insert key (some val) values))
      ≡ (if key == j then some val else value_at j (some values))
unfolding value_at
value_at-insert key j val values = ground (arith, lookup-insert key j (some val) values)

module _ {W : Type 0} (api : Secrets W) (k : K8sStorage) (held : W → Option Secret)
    (laws : SecretsLaws api k held) where
  abbrev view : W → String → Option String
  view w key = key_in key (held w)

  got : (key v : String) (w : W) → (get api k key w).0 ≡ ok v → view w key ≡ some v
  unfolding get present key_in ◌>>=◌
  got key v w h = grind (arith, laws.get_ok)

  missing : (key m : String) (w : W) → (get api k key w).0 ≡ err (not_found m) → view w key ≡ none
  unfolding get present key_in ◌>>=◌
  missing key m w h = grind (arith, laws.get_ok, laws.get_absent)

  get_keeps : (key j : String) (w : W) → view (get api k key w).1 j ≡ view w j
  unfolding get ◌>>=◌
  get_keeps key j w = ground (arith, laws.get_keeps w)

  stored :
      (key v : String) (w : W)
      → (set api k key v w).0 ≡ ok tt
      → view (set api k key v w).1 key ≡ some v
  unfolding set write assign key_in fresh lookup ◌>>=◌
  stored key v w h = grind (
    arith,
    laws.get_namespace,
    laws.get_name,
    laws.update_ok,
    laws.create_ok,
    value_at-insert,
    eq_refl key,
  )

  set_keeps : (key v j : String) (w : W) → key ≢ j → view (set api k key v w).1 j ≡ view w j
  unfolding set write assign key_in fresh lookup ◌>>=◌
  set_keeps key v j w h = grind (
    arith,
    laws.get_ok,
    laws.get_absent,
    laws.get_namespace,
    laws.get_name,
    laws.get_keeps,
    laws.update_any,
    laws.create_any,
    value_at-insert,
    eq_iff key j,
  )

  -- Under the documented behaviour of the Secrets API, the store keeps the contract: what a
  -- successful Get returns is the key's value, a NotFoundError means that the key is absent, a
  -- successful Set is read back, and no call changes another key.
  k8s_service-Faithful : Faithful (service api k) view
  unfolding service ◌>>=◌
  k8s_service-Faithful = record {
    got = got;
    missing = missing;
    get_keeps = get_keeps;
    stored = stored;
    set_keeps = set_keeps;
    test_keeps = λ key j w. refl;
  }

module _ {W : Type 0} (setup : Setup W) (namespace secret : String) (held : W → Option Secret)
    (laws : (config : String) (api : Secrets W) (k : K8sStorage) (w : W)
      → (setup.new_for_config config w).0 ≡ ok api
      → k.namespace ≡ namespace
      → k.secret ≡ secret
      → SecretsLaws api k held) where
  -- What New returns keeps the contract.
  pub k8s_new-Faithful :
      (w : W) (s : Service W)
      → (new setup namespace secret w).0 ≡ ok s
      → Faithful s (λ w k. key_in k (held w))
  unfolding new
  k8s_new-Faithful w s h =
      let (config, configured, rest, ends) = bind-eq-ok _ _ w h in
      let (api, made, rest', ends') = bind-eq-ok _ _ _ rest in
      let (owner, owned, last, ends'') = bind-eq-ok _ _ _ rest' in
      Faithful-same (pure-eq-ok _ last)
        (k8s_service-Faithful api _ held (laws config api _ _ (map_err-eq-ok _ _ _ made) refl refl))
