-- ===== src/Tls/Leaves.antt =====
-- The templates of pkg/tls/tls.go and the hosts that they name.
use bank_vaults.Prelude.{
  String, false, ℕ, Option, none, some, List, [], ◌∷◌, ◌++◌, split, ◌≡◌, ◌⊎◌, inl, inr, refl, sym,
  ap, ◌∙◌,
}
use mathlib.Core.Path.{ap₂}
use mathlib.Core.List.{append-nil, append_assoc}
use bank_vaults.Tls.{
  Template, client_auth, Crypto, add_parsed, add_hosts, template, server_template, client_template,
  peer_template,
}

module _ {W Time Duration Ip Key PublicKey : Type 0}
    (crypto : Crypto W Time Duration Ip Key PublicKey) where
  -- The parts of a list of hosts that are names, and the addresses of the others.
  abbrev pub name_of : String → Option Ip → List String
  name_of h none = h ∷ []
  name_of h (some ip) = []

  abbrev pub names : List String → List String
  names [] = []
  names (h ∷ hs) = name_of h (crypto.parse_ip h) ++ names hs

  abbrev pub address_of : Option Ip → List Ip
  address_of none = []
  address_of (some ip) = ip ∷ []

  abbrev pub addresses : List String → List Ip
  addresses [] = []
  addresses (h ∷ hs) = address_of (crypto.parse_ip h) ++ addresses hs

  -- The template with the hosts behind those that it has.
  abbrev with_hosts : List String → Template Time Ip → Template Time Ip
  with_hosts hs t = record t {
    dns_names = t.dns_names ++ names hs;
    ip_addresses = t.ip_addresses ++ addresses hs;
  }

  add_parsed-with :
      (h : String) (o : Option Ip) (t : Template Time Ip)
      → add_parsed crypto h o t ≡ record t {
        dns_names = t.dns_names ++ name_of h o;
        ip_addresses = t.ip_addresses ++ address_of o;
      }
  unfolding add_parsed
  add_parsed-with h none t =
      ap (λ l. record t { ip_addresses = l; dns_names = t.dns_names ++ (h ∷ []) })
        (sym (append-nil t.ip_addresses))
  add_parsed-with h (some ip) t =
      ap (λ l. record t { dns_names = l; ip_addresses = t.ip_addresses ++ (ip ∷ []) })
        (sym (append-nil t.dns_names))

  add_hosts-with :
      (hs : List String) (t : Template Time Ip) → add_hosts crypto hs t ≡ with_hosts hs t
  unfolding add_hosts
  add_hosts-with [] t =
      ap₂ (λ l m. record t { dns_names = l; ip_addresses = m }) (sym (append-nil t.dns_names))
        (sym (append-nil t.ip_addresses))
  add_hosts-with (h ∷ hs) t =
      add_hosts-with hs (add_parsed crypto h (crypto.parse_ip h) t)
      ∙ ap (with_hosts hs) (add_parsed-with h (crypto.parse_ip h) t)
      ∙ ap₂ (λ l m. record t { dns_names = l; ip_addresses = m }) (append_assoc t.dns_names _ _)
          (append_assoc t.ip_addresses _ _)

  -- The template names the hosts, those that are addresses as such.
  pub NamesHosts : String → Template Time Ip → Type 0
  NamesHosts hosts t =
      (t.dns_names ≡ names (split "," hosts)) × (t.ip_addresses ≡ addresses (split "," hosts))

  -- No CA, that either serves the authentication of clients only or names the hosts.
  pub Leaf : String → Template Time Ip → Type 0
  Leaf hosts t = (t.is_ca ≡ false) × ((t.ext_key_usage ≡ client_auth ∷ []) ⊎ NamesHosts hosts t)

  module _ (hosts : String) where
    pub server-Leaf : (m : ℕ) (a b : Time) → Leaf hosts (server_template crypto m hosts a b)
    unfolding Leaf NamesHosts template server_template
    server-Leaf m a b = rw (add_hosts-with (split "," hosts)) (refl, inr (refl, refl))

    pub peer-Leaf : (m : ℕ) (a b : Time) → Leaf hosts (peer_template crypto m hosts a b)
    unfolding Leaf NamesHosts template peer_template
    peer-Leaf m a b = rw (add_hosts-with (split "," hosts)) (refl, inr (refl, refl))

    pub client-Leaf : (a b : Time) → Leaf hosts (client_template crypto a b)
    unfolding Leaf template client_template
    client-Leaf a b = (refl, inl refl)
