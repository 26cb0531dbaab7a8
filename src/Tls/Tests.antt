-- ===== src/Tls/Tests.antt =====
-- Sample certificates of pkg/tls/tls.go, and the theorem about them there.
use bank_vaults.Prelude.{
  String, ℕ, suc, ◌+◌, none, some, List, [], ◌∷◌, ok, ◌==◌, if◌then◌else◌, ◌≡◌, refl, split, ◌>>=◌,
}
use bank_vaults.Tls.{Crypto, generate_tls}
use bank_vaults.Tls.Hosts.{Issue, Chained, Logs, generate_tls_names_hosts}

-- The certificates that were asked for, and the number of the next key. A key's public key is the
-- number itself.
record World : Type 0 where
  asked : List (Issue ℕ String ℕ ℕ)
  next : ℕ

abbrev crypto : Crypto World ℕ ℕ String ℕ ℕ
crypto = record {
  now = λ w. 100;
  parse_duration = λ s. ok 8760;
  add = λ t d. t + d;
  parse_ip = λ h. if h == "127.0.0.1" then some "IPv4" else none;
  rand_int = λ n w. (ok 7, w);
  generate_key = λ bits w. (ok w.next, record w { next = suc w.next });
  public_key = λ k. k;
  marshal = λ k. "key";
  pem_encode = λ t b w. (ok b, w);
  create_certificate = λ t parent k s w. (
    ok t.common_name,
    record w { asked = record { template = t; parent = parent; public = k; signer = s } ∷ w.asked },
  );
}

logs : Logs crypto (λ w. w.asked)
logs = record {
  rand_int = λ n w. refl;
  generate_key = λ n w. refl;
  pem_encode = λ t b w. refl;
  create = λ t parent k s w. refl;
}

abbrev nothing : World
nothing = record { asked = []; next = 1 }

-- The name and the parent's, the key and the one that signs, and the hosts; the last one first.
shape : List (Issue ℕ String ℕ ℕ) → List (String × String × ℕ × ℕ × List String × List String)
shape [] = []
shape (e ∷ w) =
    (
      e.template.common_name, e.parent.common_name, e.public, e.signer, e.template.dns_names,
      e.template.ip_addresses,
    )
    ∷ shape w

issues :
    shape (generate_tls crypto "vault,127.0.0.1" "8760h" nothing).1.asked
    ≡ ("Banzai Genereted Peer Cert", "Root CA", 4, 1, "vault" ∷ [], "IPv4" ∷ [])
      ∷ ("Banzai Genereted Client Cert", "Root CA", 3, 1, [], [])
      ∷ ("Banzai Genereted Server Cert", "Root CA", 2, 1, "vault" ∷ [], "IPv4" ∷ [])
      ∷ ("Root CA", "Root CA", 1, 1, [], [])
      ∷ []
unfolding generate_tls shape split ◌>>=◌
issues = refl

generate_tls_names_hosts_example :
    Chained crypto "vault,127.0.0.1" []
      (generate_tls crypto "vault,127.0.0.1" "8760h" nothing).1.asked
generate_tls_names_hosts_example =
    generate_tls_names_hosts crypto (λ w. w.asked) logs "vault,127.0.0.1" "8760h" nothing
