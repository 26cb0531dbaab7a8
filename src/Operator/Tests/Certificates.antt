-- ===== src/Operator/Tests/Certificates.antt =====
-- A cluster that only records the certificates it is asked for, and the theorem about them there.
use bank_vaults.Prelude.{
  String, false, ℕ, ◌+◌, some, none, List, [], ◌∷◌, ok, err, length, ◌==◌, if◌then◌else◌, refl,
}
use bank_vaults.Tls.{Crypto}
use bank_vaults.Tls.Hosts.{Issue, Logs}
use bank_vaults.Operator.Handle.{Cluster, absent, handle}
use bank_vaults.Operator.Handle.Certificates.{with_tls, Aside, Expected, handle_certifies_own_hosts}
use bank_vaults.Operator.Tests.{chain, library, cr}

abbrev Issued : Type 0
Issued = List (Issue ℕ String ℕ ℕ)

abbrev crypto : Crypto Issued ℕ ℕ String ℕ ℕ
crypto = record {
  now = λ w. 0;
  parse_duration = λ s. ok 8760;
  add = λ t d. t + d;
  parse_ip = λ h. if h == "127.0.0.1" then some h else none;
  rand_int = λ n w. (ok 1, w);
  generate_key = λ bits w. (ok (length w), w);
  public_key = λ k. k;
  marshal = λ k. "key";
  pem_encode = λ t b w. (ok b, w);
  create_certificate = λ t parent k s w.
      (ok t.common_name, record { template = t; parent = parent; public = k; signer = s } ∷ w);
}

abbrev api : Cluster Issued String
api = record {
  create = λ obj w. (ok tt, w);
  update = λ obj w. (ok tt, w);
  update_vault = λ v w. (ok tt, w);
  get_stateful_set = λ ns n w. (err (absent "missing"), w);
  get_config_map = λ ns n w. (err (absent "missing"), w);
  list_pods = λ ns l w. (ok [], w);
  generate_tls = λ hosts validity w. (ok chain, w);
}

logs : Logs crypto (λ w. w)
logs = record {
  rand_int = λ n w. refl;
  generate_key = λ n w. refl;
  pem_encode = λ t b w. refl;
  create = λ t parent k s w. refl;
}

aside : Aside crypto api (λ w. w)
aside = record {
  creates = λ obj w. refl;
  updates = λ obj w. refl;
  updates_vault = λ u w. refl;
  gets_set = λ ns n w. refl;
  gets_map = λ ns n w. refl;
  lists = λ ns l w. refl;
}

handle_certifies_own_hosts_example :
    Expected crypto api cr (handle (with_tls crypto api) library false cr []).1
handle_certifies_own_hosts_example =
    handle_certifies_own_hosts crypto api library cr (λ w. w) logs aside false [] refl
