-- ===== src/Operator/Handle/Certificates.antt =====
-- Handle of operator/pkg/stub/handler.go with the certificates of pkg/tls/tls.go.
use bank_vaults.Prelude.{
  String, Bool, List, [], Dict, pure, ◌>>=◌, Keeps-same, Keeps-bind, Keeps-pure, ◌≡◌, sym, subst,
}
use bank_vaults.Tls.{CertificateChain, Crypto, generate_tls}
use bank_vaults.Tls.Hosts.{Issue, Chained, Logs, generate_tls_names_hosts}
use bank_vaults.Operator.Objects.{Object}
use bank_vaults.Operator.Spec.{VaultCr}
use bank_vaults.Operator.Fabricate.{Library, Chain}
use bank_vaults.Operator.Handle.{Cluster, handle}
use bank_vaults.Operator.Handle.Owned.{Requested, handle_creates_owned}

-- The fields of a tls.CertificateChain that are read.
pub chain_of : CertificateChain → Chain
chain_of c = record {
  ca_cert = c.ca_cert;
  client_cert = c.client_cert;
  client_key = c.client_key;
  peer_cert = c.peer_cert;
  peer_key = c.peer_key;
  server_cert = c.server_cert;
  server_key = c.server_key;
}

module _ {W Any Time Duration Ip Key PublicKey : Type 0}
    (crypto : Crypto W Time Duration Ip Key PublicKey) (api : Cluster W Any) where
  -- The cluster's API with tls.GenerateTLS for certificates.
  unfoldable pub with_tls : Cluster W Any
  with_tls = record api {
    generate_tls = λ hosts validity. do
      chain ← generate_tls crypto hosts validity
      pure (chain_of chain);
  }

  -- The cluster's API asks for no certificates.
  pub record Aside (issued : W → List (Issue Time Ip Key PublicKey)) : Type 0 where
    pub creates : (obj : Object) (w : W) → issued (api.create obj w).1 ≡ issued w
    pub updates : (obj : Object) (w : W) → issued (api.update obj w).1 ≡ issued w
    pub updates_vault : (u : VaultCr Any) (w : W) → issued (api.update_vault u w).1 ≡ issued w
    pub gets_set : (ns n : String) (w : W) → issued (api.get_stateful_set ns n w).1 ≡ issued w
    pub gets_map : (ns n : String) (w : W) → issued (api.get_config_map ns n w).1 ≡ issued w
    pub lists : (ns : String) (l : Dict String) (w : W) → issued (api.list_pods ns l w).1 ≡ issued w

  -- The certificates that were asked for are those of calls of GenerateTLS, one after the other, for
  -- hosts that Handle asks for.
  pub data Expected (v : VaultCr Any) : List (Issue Time Ip Key PublicKey) → Type 0 where
    none_asked : Expected v []
    asked :
        {old now : List (Issue Time Ip Key PublicKey)} (hosts : String)
        → Requested v hosts
        → Expected v old
        → Chained crypto hosts old now
        → Expected v now

  -- Where the certificates come from GenerateTLS alone: the certificates that an event asks for,
  -- whatever Handle returns, are those of calls of GenerateTLS, one after the other. A call asks for
  -- none, or for one root, a CA that is its own parent for the public key of the key that signs it,
  -- and then for others: each has this root as its parent and is signed with the key that signs the
  -- root, is no CA, and either serves to authenticate clients only or names exactly the hosts of
  -- the call. These are the hosts of the Vault (`<name>.<namespace>` and 127.0.0.1) or those of an
  -- etcd cluster in the Vault's namespace.
  pub handle_certifies_own_hosts :
      (lib : Library Any) (v : VaultCr Any) (issued : W → List (Issue Time Ip Key PublicKey))
      → Logs crypto issued
      → Aside issued
      → (deleted : Bool) (w : W) → issued w ≡ []
      → Expected v (issued (handle with_tls lib deleted v w).1)
  unfolding with_tls
  handle_certifies_own_hosts lib v issued logs aside deleted w none_yet =
      let Q : List (Issue Time Ip Key PublicKey) → Type 0 = Expected v in
      handle_creates_owned with_tls lib v (λ u. Q (issued u))
        (record {
          creates = λ obj _. Keeps-same issued Q (api.create obj) (aside.creates obj);
          updates = λ obj _. Keeps-same issued Q (api.update obj) (aside.updates obj);
          updates_vault = λ u. Keeps-same issued Q (api.update_vault u) (aside.updates_vault u);
          gets_set = λ ns n. Keeps-same issued Q (api.get_stateful_set ns n) (aside.gets_set ns n);
          gets_map = λ ns n. Keeps-same issued Q (api.get_config_map ns n) (aside.gets_map ns n);
          lists = λ ns l. Keeps-same issued Q (api.list_pods ns l) (aside.lists ns l);
          generates = λ hosts validity requested.
              Keeps-bind _ _
                (record {
                  at = λ u h.
                      asked hosts requested h
                        (generate_tls_names_hosts crypto issued logs hosts validity u);
                })
                (λ c. Keeps-pure _);
        })
        deleted w (subst Q (sym none_yet) none_asked)
