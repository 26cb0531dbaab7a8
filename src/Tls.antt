-- ===== src/Tls.antt =====
-- pkg/tls/tls.go: GenerateTLS, which makes a root certificate and the certificates of a server, a
-- client and a peer. The clock, the random numbers, crypto/rsa, crypto/x509 and encoding/pem are
-- parameters, and so are net.ParseIP and time.ParseDuration; a []byte is a text.
pub mod Leaves
pub mod Hosts
mod Tests
use bank_vaults.Prelude.{
  String, Bool, true, false, ℕ, ◌+◌, Option, none, some, List, [], ◌∷◌, ◌++◌, Exec, Result, pure,
  lift, ◌>>=◌, ◌>>◌, split,
}
use Prim.Native.Nat.{◌^◌}

-- x509.KeyUsageDigitalSignature, KeyUsageKeyEncipherment and KeyUsageCertSign
abbrev digital_signature : ℕ
digital_signature = 1

abbrev key_encipherment : ℕ
key_encipherment = 4

abbrev cert_sign : ℕ
cert_sign = 32

pub data ExtKeyUsage : Type 0 where
  server_auth : ExtKeyUsage
  client_auth : ExtKeyUsage

-- The fields of x509.Certificate that are set.
pub record Template (Time Ip : Type 0) : Type 0 where
  pub serial_number : ℕ
  pub organization : List String
  pub common_name : String
  pub not_before : Time
  pub not_after : Time
  pub key_usage : ℕ
  pub ext_key_usage : List ExtKeyUsage
  pub basic_constraints_valid : Bool
  pub is_ca : Bool
  pub ip_addresses : List Ip
  pub dns_names : List String

pub record CertificateChain : Type 0 where
  pub ca_key : String
  pub ca_cert : String
  pub server_key : String
  pub server_cert : String
  pub client_key : String
  pub client_cert : String
  pub peer_key : String
  pub peer_cert : String

-- rand.Int answers a number below its limit; rsa.GenerateKey takes the bits; CreateCertificate takes
-- the template, the parent, the public key and the parent's private key.
pub record Crypto (W Time Duration Ip Key PublicKey : Type 0) : Type 0 where
  pub now : W → Time
  pub parse_duration : String → Result String Duration
  pub add : Time → Duration → Time
  pub parse_ip : String → Option Ip
  pub rand_int : ℕ → Exec W String ℕ
  pub generate_key : ℕ → Exec W String Key
  pub public_key : Key → PublicKey
  pub marshal : Key → String
  pub pem_encode : String → String → Exec W String String
  pub create_certificate :
      Template Time Ip → Template Time Ip → PublicKey → Key → Exec W String String

module _ {W Time Duration Ip Key PublicKey : Type 0}
    (crypto : Crypto W Time Duration Ip Key PublicKey) where
  key_to_bytes : Key → Exec W String String
  key_to_bytes key = crypto.pem_encode "RSA PRIVATE KEY" (crypto.marshal key)

  cert_to_bytes : String → Exec W String String
  cert_to_bytes cert = crypto.pem_encode "CERTIFICATE" cert

  -- The body of the loop over the hosts, with the address that the host is, if it is one.
  add_parsed : String → Option Ip → Template Time Ip → Template Time Ip
  add_parsed h (some ip) t = record t { ip_addresses = t.ip_addresses ++ (ip ∷ []) }
  add_parsed h none t = record t { dns_names = t.dns_names ++ (h ∷ []) }

  unfoldable pub add_hosts : List String → Template Time Ip → Template Time Ip
  unfolding add_parsed
  add_hosts [] t = t
  add_hosts (h ∷ hs) t = add_hosts hs (add_parsed h (crypto.parse_ip h) t)

  -- The templates, of which only the first is of a CA.
  template : ℕ → String → ℕ → List ExtKeyUsage → Bool → Time → Time → Template Time Ip
  template serial name usage ext ca not_before not_after = record {
    serial_number = serial;
    organization = "Banzai Cloud" ∷ [];
    common_name = name;
    not_before = not_before;
    not_after = not_after;
    key_usage = usage;
    ext_key_usage = ext;
    basic_constraints_valid = true;
    is_ca = ca;
    ip_addresses = [];
    dns_names = [];
  }

  ca_template : ℕ → Time → Time → Template Time Ip
  unfolding template
  ca_template serial = template serial "Root CA" cert_sign (server_auth ∷ client_auth ∷ []) true

  pub server_template : ℕ → String → Time → Time → Template Time Ip
  unfolding template add_hosts
  server_template serial hosts not_before not_after = add_hosts (split "," hosts) (
      template serial "Banzai Genereted Server Cert" (digital_signature + key_encipherment)
        (server_auth ∷ []) false not_before not_after)

  pub client_template : Time → Time → Template Time Ip
  unfolding template
  client_template =
      template 4 "Banzai Genereted Client Cert" digital_signature (client_auth ∷ []) false

  pub peer_template : ℕ → String → Time → Time → Template Time Ip
  unfolding template add_hosts
  peer_template serial hosts not_before not_after = add_hosts (split "," hosts) (
      template serial "Banzai Genereted Peer Cert" (digital_signature + key_encipherment)
        (server_auth ∷ client_auth ∷ []) false not_before not_after)

  -- A new key, and its text.
  new_key : Exec W String (Key × String)
  unfolding key_to_bytes
  new_key = do key ← crypto.generate_key 2048; bytes ← key_to_bytes key; pure (key, bytes)

  new_serial : Exec W String ℕ
  new_serial = crypto.rand_int (2 ^ 128)

  -- A certificate of the template, signed with the parent's key, as a text.
  sign : Template Time Ip → Template Time Ip → Key → Key → Exec W String String
  unfolding cert_to_bytes
  sign t parent key signer = do
    cert ← crypto.create_certificate t parent (crypto.public_key key) signer
    cert_to_bytes cert

  -- From where the validity is known.
  generate_between : String → Time → Time → Exec W String CertificateChain
  unfolding new_key new_serial sign ca_template server_template client_template peer_template
  generate_between hosts not_before not_after = do
    ca_serial ← new_serial
    (ca_key, ca_key_bytes) ← new_key
    let ca = ca_template ca_serial not_before not_after
    ca_cert ← sign ca ca ca_key ca_key
    (server_key, server_key_bytes) ← new_key
    server_serial ← new_serial
    server_cert ←
        sign (server_template server_serial hosts not_before not_after) ca server_key ca_key
    (client_key, client_key_bytes) ← new_key
    client_cert ← sign (client_template not_before not_after) ca client_key ca_key
    (peer_key, peer_key_bytes) ← new_key
    peer_serial ← new_serial
    peer_cert ← sign (peer_template peer_serial hosts not_before not_after) ca peer_key ca_key
    pure (record {
      ca_key = ca_key_bytes;
      ca_cert = ca_cert;
      server_key = server_key_bytes;
      server_cert = server_cert;
      client_key = client_key_bytes;
      client_cert = client_cert;
      peer_key = peer_key_bytes;
      peer_cert = peer_cert;
    })

  unfoldable pub generate_tls : String → String → Exec W String CertificateChain
  unfolding generate_between
  generate_tls hosts validity w =
      let not_before = crypto.now w in
      (do
        duration ← lift (crypto.parse_duration validity)
        generate_between hosts not_before (crypto.add not_before duration))
        w
