-- ===== src/Vault/Configure/Mounts/Engaged.antt =====
-- The secret engines that are mounted before Configure of pkg/vault/vault.go.
use bank_vaults.Prelude.{
  String, some, Dict, lookup, [], ◌∷◌, ok, Keeps-same, concat, ◌≡◌, ◌≢◌, ◌∙◌, sym, subst, ap,
}
use bank_vaults.Vault.{Vault}
use bank_vaults.Vault.Configure.Api.{Admin, Host, MountOutput, MountInput, EnableAuthOptions}
use bank_vaults.Vault.Configure.Mounts.{Leaves, configure-kept}
use bank_vaults.Vault.Configure.{configure}

module _ {W : Type 0} (admin : Admin W) (host : Host W) (v : Vault W)
    (mounts : W → Dict MountOutput) (leaves : Leaves admin host v mounts)
    (listing : (w : W) (listed : Dict MountOutput)
      → (admin.list_mounts w).0 ≡ ok listed
      → listed ≡ mounts w)
    (mounting : (path key : String) (i : MountInput) (w : W)
      → concat (path ∷ "/" ∷ []) ≢ key
      → lookup key (mounts (admin.mount path i w).1) ≡ lookup key (mounts w))
    (enabling : (path : String) (o : EnableAuthOptions) (w : W)
      → mounts (admin.enable_auth path o w).1 ≡ mounts w) where
  -- Let the server list the engines that it has, and let `Mount` change at most the engine at its
  -- path, which it may replace. An engine that is mounted before `Configure` is then still mounted
  -- at its path with its type, whatever `Configure` returns.
  pub configure_keeps_engines :
      (w : W) (key : String) (m : MountOutput)
      → lookup key (mounts w) ≡ some m
      → lookup key (mounts (configure admin host v w).1) ≡ some m
  configure_keeps_engines w key m mounted =
      let Q : Dict MountOutput → Type 0 = λ d. lookup key d ≡ some m in
      configure-kept admin host v mounts leaves Q w mounted
        (record {
          secrets = Keeps-same mounts Q host.secrets leaves.secrets;
          write = λ p d. Keeps-same mounts Q (admin.write p d) (leaves.write p d);
          tune = λ p i. Keeps-same mounts Q (admin.tune_mount p i) (leaves.tune p i);
          list = Keeps-same mounts Q admin.list_mounts leaves.list_mounts;
          mount = λ p i u listed h answered absent.
              let same : listed ≡ mounts u = listing u listed answered in
              let differ : concat (p ∷ "/" ∷ []) ≢ key = λ e. cc in
              mounting p key i _ differ ∙ ap (λ d. lookup key d) (leaves.list_mounts u) ∙ h;
        })
        (λ t existing path kind listed absent. record {
          at = λ u h. subst Q (sym (enabling path _ u)) h;
        })
