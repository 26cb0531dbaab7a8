-- ===== src/Operator/Tests/Secrets.antt =====
-- A cluster that has a secret of an earlier event, and the theorem about secrets there.
use bank_vaults.Prelude.{
  String, false, Option, none, some, List, [], ◌∷◌, ◌++◌, ok, Dict, ◌==◌, ◌&&◌, if◌then◌else◌, ◌≡◌,
  refl, arith,
}
use bank_vaults.Operator.Objects.{
  Object, secret, etcd_cluster, stateful_set, service, deployment, config_map,
}
use bank_vaults.Operator.Handle.{Cluster, handle}
use bank_vaults.Operator.Handle.Secrets.{Guarded, handle_keeps_secrets}
use bank_vaults.Operator.Tests.{cluster, library, cr}

-- The secrets among the objects: a create puts an object behind those that are there.
abbrev secret_in : List Object → String → String → Option (Dict String)
secret_in [] namespace name = none
secret_in (secret m d ∷ w) namespace name =
    let rest = secret_in w namespace name in
    if m.namespace == namespace && m.name == name then some d else rest
secret_in (obj ∷ w) namespace name = secret_in w namespace name

secret_in-append :
    (w : List Object) (obj : Object) (namespace name : String) (d : Dict String)
    → secret_in w namespace name ≡ some d
    → secret_in (w ++ (obj ∷ [])) namespace name ≡ some d
secret_in-append [] obj namespace name d h = cc
secret_in-append (secret m x ∷ w) obj namespace name d h =
    ground (arith, h, secret_in-append w obj namespace name d)
secret_in-append (etcd_cluster m x ∷ w) obj namespace name d h =
    secret_in-append w obj namespace name d h
secret_in-append (stateful_set m x ∷ w) obj namespace name d h =
    secret_in-append w obj namespace name d h
secret_in-append (service m x ∷ w) obj namespace name d h =
    secret_in-append w obj namespace name d h
secret_in-append (deployment m x ∷ w) obj namespace name d h =
    secret_in-append w obj namespace name d h
secret_in-append (config_map m x ∷ w) obj namespace name d h =
    secret_in-append w obj namespace name d h

abbrev appending : Cluster (List Object) String
appending = record cluster { create = λ obj w. (ok tt, w ++ (obj ∷ [])) }

appending-Guarded : Guarded appending secret_in
appending-Guarded = record {
  creates = λ obj namespace name d w h. secret_in-append w obj namespace name d h;
  updates = λ obj w h. refl;
  updates_vault = λ u w. refl;
  gets_set = λ ns n w. refl;
  gets_map = λ ns n w. refl;
  lists = λ ns l w. refl;
  generates = λ h d w. refl;
}

-- A secret of an earlier event.
abbrev stored_secret : List Object
stored_secret =
    secret
      (record { name = "vault-tls"; namespace = "default"; labels = []; owner_references = [] })
      (("ca.crt", "first") ∷ [])
    ∷ []

handle_keeps_secrets_example :
    secret_in (handle appending library false cr stored_secret).1 "default" "vault-tls"
    ≡ some (("ca.crt", "first") ∷ [])
handle_keeps_secrets_example =
    handle_keeps_secrets appending library cr secret_in appending-Guarded false "default"
      "vault-tls" (("ca.crt", "first") ∷ []) stored_secret refl
