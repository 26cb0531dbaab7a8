-- ===== src/Cli/Stores/Tests/Vaults.antt =====
-- Remote services in memory behind the backends of pkg/kv: a key vault of Azure, and the Secrets of
-- Kubernetes.
use bank_vaults.Prelude.{
  String, Option, none, some, Result, ok, err, lookup, insert, eq_refl, ◌==◌, ◌&&◌, if◌then◌else◌,
  ◌≡◌, refl, sym, inr, Exec,
}
use bank_vaults.Kv.Azure
use bank_vaults.Kv.Azure.Contract as AzureContract
use bank_vaults.Kv.K8s
use bank_vaults.Kv.K8s.{Secret, Secrets, K8sStorage}
use bank_vaults.Kv.K8s.Contract.{SecretsLaws}
use bank_vaults.Cli.Stores.Tests.Buckets.{Cloud, found_or, lookup_inserted, lookup_other}

-- A name as this vault compares it.
abbrev pub folded : String → String
folded name = if name == "Vault-Root" then "vault-root" else name

abbrev pub vault_has : Cloud → String → Option String
vault_has w k = lookup (folded k) w.vault

abbrev azure_found : Option String → Result Azure.AzureError (Option String)
azure_found none = err (Azure.detailed 404 "missing")
azure_found (some v) = ok (some v)

some_of_found : (o : Option String) {v : String} → azure_found o ≡ ok (some v) → o ≡ some v
some_of_found none h = cc
some_of_found (some x) h = cc

none_of_found :
    (o : Option String) {m : String} → azure_found o ≡ err (Azure.detailed 404 m) → o ≡ none
none_of_found none h = refl
none_of_found (some x) h = cc

abbrev pub azure_api : Azure.Api Cloud
azure_api = record {
  get_secret = λ url k w. (azure_found (lookup (folded k) w.vault), w);
  set_secret = λ url k v w. (ok tt, record w { vault = insert (folded k) v w.vault });
}

pub azure_laws : AzureContract.ApiLaws azure_api "https://unseal.vault.azure.net" folded vault_has
azure_laws = record {
  got = λ k v w h. some_of_found _ h;
  absent = λ k m w h. none_of_found _ h;
  get_keeps = λ k j w. refl;
  set_ok = λ k v w h. lookup_inserted (folded k) v w.vault;
  set_keeps = λ k v j w n. lookup_other (folded k) v (folded j) w.vault n;
}

-- A Secret as it is stored under a namespace and a name.
abbrev placed : String → String → Option Secret → Option Secret
placed namespace name none = none
placed namespace name (some s) = some (record s { namespace = namespace; name = name })

abbrev pub secret_at : String → String → Cloud → Option Secret
secret_at namespace name w = placed namespace name (w.secrets namespace name)

abbrev put : String → Secret → Cloud → Cloud
put namespace s w = record w {
  secrets = λ ns n. if (namespace == ns) && (s.name == n) then some s else w.secrets ns n;
}

-- A Secret of another namespace is refused.
abbrev sent : String → Secret → Exec Cloud K8s.ApiError Secret
sent namespace s w =
    if s.namespace == namespace then (ok s, put namespace s w) else (err (K8s.other "namespace"), w)

abbrev pub secrets : Secrets Cloud
secrets = record {
  get = λ namespace name w. (found_or (K8s.absent "missing") (secret_at namespace name w), w);
  create = λ namespace s w. sent namespace s w;
  update = λ namespace s w. sent namespace s w;
}

secret_found :
    (o : Option Secret) {ns n : String} {s : Secret}
    → found_or (K8s.absent "missing") (placed ns n o) ≡ ok s
    → (placed ns n o ≡ some s) × (s.namespace ≡ ns) × (s.name ≡ n)
secret_found none h = absurd (cc)
secret_found (some x) h = (cc, cc, cc)

secret_missing :
    (o : Option Secret) {m : String}
    → found_or (K8s.absent "missing") o ≡ err (K8s.absent m)
    → o ≡ none
secret_missing none h = refl
secret_missing (some x) h = cc

sent_at :
    (ns n : String) (s : Secret) (w : Cloud)
    → s.namespace ≡ ns
    → s.name ≡ n
    → secret_at ns n (sent ns s w).1 ≡ some s
sent_at ns n s w at named =
    rw (sym at, sym named, eq_refl s.namespace, eq_refl s.namespace, eq_refl s.name) refl

pub secrets_laws : (k : K8sStorage) → SecretsLaws secrets k (secret_at k.namespace k.secret)
secrets_laws k = record {
  get_ok = λ w s h. (secret_found _ h).0;
  get_namespace =
      λ w s h. let (held, at, named) = secret_found (w.secrets k.namespace k.secret) h in at;
  get_name =
      λ w s h. let (held, at, named) = secret_found (w.secrets k.namespace k.secret) h in named;
  get_absent = λ w m h. secret_missing _ h;
  get_keeps = λ w. refl;
  create_ok = λ w s at named h. sent_at k.namespace k.secret s w at named;
  create_any = λ w s at named. inr (sent_at k.namespace k.secret s w at named);
  update_ok = λ w s at named h. sent_at k.namespace k.secret s w at named;
  update_any = λ w s at named. inr (sent_at k.namespace k.secret s w at named);
}
