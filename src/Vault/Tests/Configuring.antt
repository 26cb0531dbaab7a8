-- ===== src/Vault/Tests/Configuring.antt =====
-- `Init` and then `Configure` on the sample server.
use bank_vaults.Prelude.{ok, err, [], ◌≡◌, refl, deferred}
use bank_vaults.Vault.Api.{InitResponse}
use bank_vaults.Vault.Keys.{root_token_key}
use bank_vaults.Vault.Init.Stores.{Answered}
use bank_vaults.Vault.Configure.Api.{Admin, Host}
use bank_vaults.Vault.Configure.{configure_all, configure}
use bank_vaults.Vault.Configure.Handover.{init_then_configure}
use bank_vaults.Vault.Tests.{
  Server, client, sample, sleep, view, faithful, reliable, quiet, new_server, initialized_server,
  init_runs,
}

-- A configuration without anything, on a server that accepts everything.
abbrev admin : Admin Server
admin = record {
  list_auth = λ w. (ok [], w);
  enable_auth = λ p o w. (ok tt, w);
  put_policy = λ n r w. (ok tt, w);
  list_mounts = λ w. (ok [], w);
  mount = λ p i w. (ok tt, w);
  tune_mount = λ p i w. (ok tt, w);
  write = λ p m w. (ok tt, w);
}

abbrev host : Host Server
host = record {
  auth = λ w. (ok [], w);
  policies = λ w. (ok [], w);
  secrets = λ w. (ok [], w);
  read_file = λ name w. (err "no such file", w);
  getenv = λ name w. "";
  to_string_map = λ v. [];
  to_string_map_string = λ v. [];
}

init_then_configure_example :
    (resp : InitResponse) × Answered sample sleep view faithful quiet resp
    × (configure admin host sample initialized_server
        ≡ deferred (client.set_token "") (configure_all admin host) (
            client.set_token resp.root_token
              (sample.key_store.get root_token_key initialized_server).1))
init_then_configure_example =
    init_then_configure admin host sample sleep view faithful reliable quiet 0 new_server
      initialized_server refl refl init_runs
