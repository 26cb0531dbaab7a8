-- ===== src/Kv/Azure/Contract.antt =====
-- pkg/kv/azurekv/keyvault.go and the contract of a key store: what is asked of the remote service,
-- and the proof.
use bank_vaults.Prelude.{
  String, [], ◌∷◌, concat, Exec, made_of, true, Option, none, some, Result, is_ok, ok, err, panic,
  ◌>>=◌, ◌≡◌, ◌≢◌, refl, arith,
}
use bank_vaults.Kv.{Service, not_found}
use bank_vaults.Kv.Spec.{FaithfulBy, Faithful-same}
use bank_vaults.Kv.Azure.{
  AzureError, detailed, other, Api, get_failed, get_answer, get, set, service, new,
}

-- What Azure Key Vault documents: `secret w k` is the secret of the vault with the name `k`; the
-- status 404 says that there is none. Names are not case-sensitive: the vault takes those that `same`
-- maps to one text for one name. A call that fails may or may not have taken effect.
pub record ApiLaws {W : Type 0} (api : Api W) (url : String) (same : String → String)
    (secret : W → String → Option String) : Type 0 where
  pub got : (k v : String) (w : W) → (api.get_secret url k w).0 ≡ ok (some v) → secret w k ≡ some v
  pub absent :
      (k m : String) (w : W) → (api.get_secret url k w).0 ≡ err (detailed 404 m) → secret w k ≡ none
  pub get_keeps : (k j : String) (w : W) → secret (api.get_secret url k w).1 j ≡ secret w j
  pub set_ok :
      (k v : String) (w : W)
      → is_ok (api.set_secret url k v w).0 ≡ true
      → secret (api.set_secret url k v w).1 k ≡ some v
  pub set_keeps :
      (k v j : String) (w : W)
      → same k ≢ same j
      → secret (api.set_secret url k v w).1 j ≡ secret w j

module _ {W : Type 0} (api : Api W) (url : String) (same : String → String)
    (secret : W → String → Option String) (laws : ApiLaws api url same secret) where
  answer_got :
      (k v : String) (w : W) (r : Result AzureError (Option String))
      → (api.get_secret url k w).0 ≡ r
      → get_answer k r ≡ ok v
      → secret w k ≡ some v
  unfolding get_answer get_failed
  answer_got k v w (ok (some x)) e h = ground (arith, laws.got k x w e)
  answer_got k v w (ok none) e h = cc
  answer_got k v w (err (detailed status m)) e h = ground arith
  answer_got k v w (err (other m)) e h = cc
  answer_got k v w (panic s) e h = cc

  answer_missing :
      (k m : String) (w : W) (r : Result AzureError (Option String))
      → (api.get_secret url k w).0 ≡ r
      → get_answer k r ≡ err (not_found m)
      → secret w k ≡ none
  unfolding get_answer get_failed
  answer_missing k m w (ok (some x)) e h = cc
  answer_missing k m w (ok none) e h = cc
  answer_missing k m w (err (detailed status t)) e h = ground (arith, laws.absent k t w)
  answer_missing k m w (err (other t)) e h = cc
  answer_missing k m w (panic s) e h = cc

  -- Under the documented behaviour of the vault's API, the store keeps the contract of a key store
  -- for the secrets of the vault, up to what the vault takes for the same name.
  azure_service-Faithful : FaithfulBy same (service api url) secret
  unfolding service get set ◌>>=◌
  azure_service-Faithful = record {
    got = λ k v w h. answer_got k v w _ refl h;
    missing = λ k m w h. answer_missing k m w _ refl h;
    get_keeps = λ k j w. laws.get_keeps k j w;
    stored = λ k v w h. grind (arith, laws.set_ok);
    set_keeps = λ k v j w n. laws.set_keeps k v j w n;
    test_keeps = λ k j w. refl;
  }

-- The vault's address.
abbrev pub base_url : String → String
base_url name = concat ("https://" ∷ name ∷ ".vault.azure.net" ∷ [])

module _ {W : Type 0} (authorized : Exec W String (Api W)) (name : String) (same : String → String)
    (secret : W → String → Option String)
    (laws : (api : Api W) (w : W)
      → (authorized w).0 ≡ ok api
      → ApiLaws api (base_url name) same secret) where
  -- What New returns keeps the contract.
  pub azure_new-Faithful :
      (w : W) (s : Service W) → (new authorized name w).0 ≡ ok s → FaithfulBy same s secret
  unfolding new
  azure_new-Faithful w s h =
      let (api, from, made) = made_of _ _ _ w h in
      Faithful-same made (azure_service-Faithful api _ same secret (laws api w from))
