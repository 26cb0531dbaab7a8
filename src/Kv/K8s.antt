-- ===== src/Kv/K8s.antt =====
-- pkg/kv/k8s/k8s.go: the keys of one Kubernetes Secret. The Kubernetes API is a parameter.
pub mod Contract
use bank_vaults.Prelude.{
  String, Option, none, some, List, [], ◌∷◌, Exec, Result, ok, err, panic, panics, lift, pure, fail,
  map_err, ◌>>=◌, ◌>>◌, continue, concat, Dict, lookup, insert, ◌==◌, if◌then◌else◌,
}
use bank_vaults.Kv.{Service, Error, not_found, plain}

-- An error of the Kubernetes API, by what `errors.IsNotFound` answers.
pub data ApiError : Type 0 where
  absent other : String → ApiError

abbrev pub text : ApiError → String
text (absent m) = m
text (other m) = m

-- The fields of a Secret that the store reads or writes. `none` is Go's nil: a nil map, or a nil
-- slice in a map.
pub record Secret : Type 0 where
  pub namespace : String
  pub name : String
  pub owner_references : List String
  pub values : Option (Dict (Option String))

-- The client of one cluster: kubernetes.Clientset's CoreV1().Secrets(namespace).
pub record Secrets (W : Type 0) : Type 0 where
  pub get : String → String → Exec W ApiError Secret
  pub create : String → Secret → Exec W ApiError Secret
  pub update : String → Secret → Exec W ApiError Secret

pub record K8sStorage : Type 0 where
  pub namespace : String
  pub secret : String
  pub owner_reference : Option String

-- What `New` uses of its surroundings; the client that it makes is one more parameter.
pub record Setup (W : Type 0) : Type 0 where
  pub getenv : String → String
  pub build_config : String → Exec W String String
  pub in_cluster_config : Exec W String String
  pub new_for_config : String → Exec W String (Secrets W)
  pub unmarshal_owner : String → Result String String

-- secret.Data[key]: nil for a missing key, a nil slice, or a nil map
unfoldable pub value_at : String → Option (Dict (Option String)) → Option String
value_at key none = none
value_at key (some values) = elim (lookup key values) [ none ↦ none | some v ↦ v ]

owners : Option String → List String
owners none = []
owners (some r) = r ∷ []

pub fresh : K8sStorage → String → String → Secret
unfolding owners
fresh k key val = record {
  namespace = k.namespace;
  name = k.secret;
  owner_references = owners k.owner_reference;
  values = some ((key, some val) ∷ []);
}

write_error : K8sStorage → String → ApiError → Error
write_error k key e = plain (
    concat (
      "error writing secret key '"
      ∷ key
      ∷ "' into secret '"
      ∷ k.secret
      ∷ "': '"
      ∷ text e
      ∷ "'"
      ∷ []))

get_error : String → ApiError → Error
get_error key (absent m) =
    not_found (concat ("error getting secret for key '" ∷ key ∷ "': " ∷ m ∷ []))
get_error key (other m) = plain (concat ("error getting secret for key '" ∷ key ∷ "': " ∷ m ∷ []))

-- the format has a verb too many, which Go prints as `%!s(MISSING)`
present : String → Option String → Result Error String
present key none =
    err (not_found (concat ("key '" ∷ key ∷ "' is not present in secret: %!s(MISSING)" ∷ [])))
present key (some val) = ok val

module _ {W : Type 0} where
  -- secret.Data[key] = val, which panics on a nil map, and the update
  assign :
      Secrets W
      → K8sStorage
      → String
      → String
      → Secret
      → Option (Dict (Option String))
      → Exec W Error (Unit {0})
  unfolding write_error
  assign api k key val secret none = panics "assignment to entry in nil map"
  assign api k key val secret (some values) = do
    map_err (write_error k key)
        (api.update k.namespace (record secret { values = some (insert key (some val) values) }))
    pure tt

  -- the three branches on the error of the first Get
  write :
      Secrets W → K8sStorage → String → String → Result ApiError Secret → Exec W Error (Unit {0})
  unfolding assign write_error fresh
  write api k key val (ok secret) = assign api k key val secret secret.values
  write api k key val (err (absent m)) = do
    map_err (write_error k key) (api.create k.namespace (fresh k key val))
    pure tt
  write api k key val (err (other m)) =
      fail (plain (concat ("error checking if '" ∷ k.secret ∷ "' secret exists: '" ∷ m ∷ "'" ∷ [])))
  write api k key val (panic s) = panics s

  pub set : Secrets W → K8sStorage → String → String → Exec W Error (Unit {0})
  unfolding write
  set api k key val w = let (r, w') = api.get k.namespace k.secret w in write api k key val r w'

  pub get : Secrets W → K8sStorage → String → Exec W Error String
  unfolding get_error present value_at
  get api k key = do
    secret ← map_err (get_error key) (api.get k.namespace k.secret)
    lift (present key (value_at key secret.values))

  pub service : Secrets W → K8sStorage → Service W
  service api k = record { set = set api k; get = get api k; test = λ key. pure tt }

  unfoldable pub new : Setup W → String → String → Exec W Error (Service W)
  unfolding service
  new setup namespace secret = do
    config ←
        map_err (λ e. plain (concat ("error creating k8s config: " ∷ e ∷ [])))
          (let kubeconfig = setup.getenv "KUBECONFIG" in
            if kubeconfig == "" then setup.in_cluster_config else setup.build_config kubeconfig)
    client ←
        map_err (λ e. plain (concat ("error creating k8s client: " ∷ e ∷ [])))
          (setup.new_for_config config)
    owner ←
        map_err (λ e. plain (concat ("error unmarhsaling OwnerReference: " ∷ e ∷ [])))
          (let json = setup.getenv "K8S_OWNER_REFERENCE" in
            if json == "" then pure none else λ w.
            (continue (setup.unmarshal_owner json) (λ r. pure (some r)) w))
    pure (
        service client (record { namespace = namespace; secret = secret; owner_reference = owner }))
