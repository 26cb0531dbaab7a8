-- ===== src/Lib.antt =====
-- Bank-vaults: a command, an operator and libraries that initialize, unseal and configure a
-- Hashicorp Vault server, and keep its keys in a key store.
--
-- The program's parts and the files that model them. A Go function is a definition of the same
-- words (`keyStoreSet` is `key_store_set`); a method takes its receiver, and what it uses of other
-- packages, as arguments. A call that changes the world takes the world and returns a result and a
-- new world; a result is a value, an error, or a panic (Prelude/Effects).
--   * Kv (pkg/kv): the key store's interface, its contract (Kv/Spec), and the backends: Dev, K8s, S3,
--     Gcs, Oss, Azure with its authorizer (Azure/Iam), and Kms, which encrypts what another store
--     keeps (Aws, Alibaba, Google).
--   * Vault (pkg/vault/vault.go): the helper over a key store and a Vault server. Unseal reads the
--     keys that Init has stored and sends them to the server; Configure takes the root token that it
--     has stored, and enables and configures auth methods, policies and secret engines.
--   * Cli (cmd/bank-vaults): the flags of main.go, the store that util.go makes of them, the helper
--     over it (Setup), and the commands of init.go, unseal.go and configure.go, which call Init, Unseal
--     and Configure; Reload is the goroutine of configure.go that watches the configuration file.
--   * Operator (operator/pkg): the custom resource of types.go with its translation to the command's
--     flags (Unsealing, Spec), and the handler of stub/handler.go, which fabricates the objects that
--     run Vault and the command (Fabricate) and brings them to the cluster (Handle). What the API of
--     Kubernetes documents is in Handle/Registry, and what Handle brings about in Handle/Settled.
--   * Auth (auth): the token stores of tokenstore.go and the JWT handler of auth.go.
--   * Renewal (vault/vault.go): the client that logs in and renews its token in a goroutine, and that
--     its users close: a step relation over all interleavings.
--   * Database (database/database.go): database credentials, which Vault answers to that client.
--   * Tls (pkg/tls/tls.go): the certificates that the operator puts into its secrets.
--   * Prelude: what the parts share.
-- A module named Tests has sample worlds, and the theorems at work there.
--
-- Bounds and fuel. Go's `int` is an integer without bound: the program counts key shares, which are
-- few. Unseal's loop and Init's wait take fuel, and answer `none` when it runs out: n + 1 rounds are
-- enough for Unseal where the store has no key n, and as many rounds as the server's threshold where
-- it has the shares. How long Init waits depends on who unseals the server, and its fuel is arbitrary.
-- The wait of the configure command takes fuel too: one round more than the server stays sealed.
--
-- What is a parameter: the clients of Kubernetes, Vault and the clouds, cobra and viper, the JWT
-- library, fsnotify, the casts of free-form values, JSON, base64 and base32, cryptography, the clock,
-- files and the environment, with their documented behaviour as named laws where a theorem needs it.
-- The operator takes GenerateTLS as a parameter too, which Operator/Handle/Certificates fills, and
-- Database the client of vault/vault.go.
--
-- Not modelled: the start of the operator, generated code, the examples, and logging. The keys of a
-- storage stanza have one order in the model, where Go may take another one at each call (MapKeys).
pub mod Prelude
pub mod Kv
pub mod Vault
pub mod Cli
pub mod Operator
pub mod Auth
pub mod Renewal
pub mod Tls
pub mod Database
