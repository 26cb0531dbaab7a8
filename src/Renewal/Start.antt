-- ===== src/Renewal/Start.antt =====
-- NewClientWithConfig of vault/vault.go, up to the goroutine and the wait for its first token.
use bank_vaults.Prelude.{
  String, Result, ok, err, panic, Exec, pure, panics, effect, ◌>>=◌, ◌>>◌, ◌==◌, if◌then◌else◌,
  concat, [], ◌∷◌,
}

-- How the client that is returned gets its tokens: it has one, which nobody renews, or the goroutine
-- renews it, with the token of the pod's service account.
pub data Started : Type 0 where
  with_token : Started
  renewing : String → Started

-- vaultapi.NewClient and its client, ioutil.ReadFile, os.Getenv and rest.InClusterConfig, of which the
-- bearer token is used
pub record Machine (W : Type 0) : Type 0 where
  pub new_client : Exec W String (Unit {0})
  pub token : W → String
  pub set_token : String → W → W
  pub read_file : String → Exec W String String
  pub getenv : String → W → String
  pub in_cluster_config : Exec W String String

module _ {W : Type 0} (m : Machine W) where
  from_file : Result String String → Exec W String Started
  from_file (ok token) = do effect (m.set_token token); pure with_token
  from_file (err e) = do bearer_token ← m.in_cluster_config; pure (renewing bearer_token)
  from_file (panic s) = panics s

  unfoldable from_home : Exec W String Started
  unfolding from_file
  from_home w =
      let (r, w') = m.read_file (concat (m.getenv "HOME" w ∷ "/.vault-token" ∷ [])) w in
      from_file r w'

  unfoldable pub new_client_with_config : Exec W String Started
  unfolding from_home
  new_client_with_config = do
    m.new_client
    λ w. if m.token w == "" then from_home w else pure with_token w
