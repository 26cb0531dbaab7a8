-- ===== src/Tls/Hosts.antt =====
-- Which certificates GenerateTLS of pkg/tls/tls.go asks for: who signs them, and the hosts that they
-- name.
use bank_vaults.Prelude.{
  String, Exec, ◌>>=◌, true, ℕ, List, [], ◌∷◌, ◌++◌, Keeps, Keeps-same, Keeps-bind, Keeps-pure,
  kept_by_bind, lift, All, ◌≡◌, ◌⊎◌, inl, inr, refl, ap, ◌∙◌,
}
use bank_vaults.Tls.{
  Template, Crypto, key_to_bytes, cert_to_bytes, template, ca_template, new_key, new_serial, sign,
  generate_between, generate_tls,
}
use bank_vaults.Tls.Leaves.{Leaf, server-Leaf, client-Leaf, peer-Leaf}

-- A certificate that is asked for.
pub record Issue (Time Ip Key PublicKey : Type 0) : Type 0 where
  pub template : Template Time Ip
  pub parent : Template Time Ip
  pub public : PublicKey
  pub signer : Key

module _ {W Time Duration Ip Key PublicKey : Type 0}
    (crypto : Crypto W Time Duration Ip Key PublicKey) where
  abbrev Asked : Type 0
  Asked = Issue Time Ip Key PublicKey

  -- A CA of its own: it is the parent of itself, and for the public key of the key that signs it.
  pub Root : Asked → Type 0
  Root e =
      (e.template.is_ca ≡ true) × (e.parent ≡ e.template) × (e.public ≡ crypto.public_key e.signer)

  -- A leaf under a root: the parent is the root's template, and the key that signs it is the one
  -- that signs the root.
  pub Under : String → Asked → Asked → Type 0
  Under hosts root e =
      (e.parent ≡ root.template) × (e.signer ≡ root.signer) × Leaf crypto hosts e.template

  -- What `now` has behind it in `old`, the last one first: nothing, or one root and then leaves
  -- under it.
  pub Chained : String → List Asked → List Asked → Type 0
  Chained hosts old now =
      (now ≡ old)
      ⊎ ((root : Asked) × (others : List Asked) × Root root
          × (now ≡ others ++ (root ∷ old))
          × All (Under hosts root) others)

  -- The certificates that were asked for, the last one first: only CreateCertificate adds to them.
  pub record Logs (issued : W → List Asked) : Type 0 where
    pub rand_int : (n : ℕ) (w : W) → issued (crypto.rand_int n w).1 ≡ issued w
    pub generate_key : (n : ℕ) (w : W) → issued (crypto.generate_key n w).1 ≡ issued w
    pub pem_encode : (t b : String) (w : W) → issued (crypto.pem_encode t b w).1 ≡ issued w
    pub create :
        (t parent : Template Time Ip) (k : PublicKey) (s : Key) (w : W)
        → issued (crypto.create_certificate t parent k s w).1
          ≡ record { template = t; parent = parent; public = k; signer = s } ∷ issued w

  module _ (issued : W → List Asked) (logs : Logs issued) where
    -- What is said of the certificates alone is kept by what asks for none.
    module _ (Q : List Asked → Type 0) where
      rand_int-Keeps : (n : ℕ) → Keeps (λ w. Q (issued w)) (crypto.rand_int n)
      rand_int-Keeps n = Keeps-same issued Q (crypto.rand_int n) (logs.rand_int n)

      generate_key-Keeps : (n : ℕ) → Keeps (λ w. Q (issued w)) (crypto.generate_key n)
      generate_key-Keeps n = Keeps-same issued Q (crypto.generate_key n) (logs.generate_key n)

      pem_encode-Keeps : (t b : String) → Keeps (λ w. Q (issued w)) (crypto.pem_encode t b)
      pem_encode-Keeps t b = Keeps-same issued Q (crypto.pem_encode t b) (logs.pem_encode t b)

      new_key-Keeps : Keeps (λ w. Q (issued w)) (new_key crypto)
      unfolding new_key key_to_bytes
      new_key-Keeps =
          Keeps-bind _ _ (generate_key-Keeps _)
            (λ k. Keeps-bind _ _ (pem_encode-Keeps _ _) (λ b. Keeps-pure _))

      new_serial-Keeps : Keeps (λ w. Q (issued w)) (new_serial crypto)
      unfolding new_serial
      new_serial-Keeps = rand_int-Keeps _

    abbrev issue : Template Time Ip → Template Time Ip → Key → Key → Asked
    issue t parent k s = record {
      template = t;
      parent = parent;
      public = crypto.public_key k;
      signer = s;
    }

    issued-sign :
        (t parent : Template Time Ip) (k s : Key) (w : W)
        → issued (sign crypto t parent k s w).1 ≡ issue t parent k s ∷ issued w
    unfolding sign cert_to_bytes
    issued-sign t parent k s w =
        let now = logs.create t parent (crypto.public_key k) s w in
        kept_by_bind (λ u. issued u ≡ issue t parent k s ∷ issued w) _ _ w now
          (λ c e. logs.pem_encode _ c _ ∙ now)

    module _ (hosts : String) (old : List Asked) (n : ℕ) (a b : Time) (ca_key : Key) where
      abbrev ca : Template Time Ip
      ca = ca_template crypto n a b

      abbrev root : Asked
      root = issue ca ca ca_key ca_key

      root-Root : Root root
      unfolding Root ca_template template
      root-Root = (refl, refl, refl)

      -- The root has been asked for, and then leaves under it.
      abbrev Rooted : List Asked → Type 0
      Rooted now =
          (others : List Asked) × (now ≡ others ++ (root ∷ old)) × All (Under hosts root) others

      sign-Keeps :
          (t : Template Time Ip) (k : Key)
          → Leaf crypto hosts t
          → Keeps (λ w. Rooted (issued w)) (sign crypto t ca k ca_key)
      unfolding Under
      sign-Keeps t k leaf = record {
        at = λ w (others, now, under). (
          issue t ca k ca_key ∷ others,
          issued-sign t ca k ca_key w ∙ ap (λ l. issue t ca k ca_key ∷ l) now,
          ((refl, refl, leaf), under),
        );
      }

      quiet_key : Keeps (λ w. Rooted (issued w)) (new_key crypto)
      quiet_key = new_key-Keeps Rooted

      quiet_serial : Keeps (λ w. Rooted (issued w)) (new_serial crypto)
      quiet_serial = new_serial-Keeps Rooted

      Rooted-Chained : (now : List Asked) → Rooted now → Chained hosts old now
      unfolding Chained
      Rooted-Chained now (others, at, under) = inr (root, others, root-Root, at, under)

      root_asked : (w : W) → issued w ≡ old → Rooted (issued (sign crypto ca ca ca_key ca_key w).1)
      root_asked w start = ([], issued-sign ca ca ca_key ca_key w ∙ ap (λ l. root ∷ l) start, tt)

      after_first :
          {A B : Type 0} (m : Exec W String A) (f : A → Exec W String B) (w : W)
          → Rooted (issued (m w).1)
          → ((x : A) → Keeps (λ u. Rooted (issued u)) (f x))
          → Rooted (issued ((m >>= f) w).1)
      after_first m f w h k =
          kept_by_bind (λ u. Rooted (issued u)) m f w h (λ x e. (k x).at (m w).1 h)

    module _ (hosts : String) where
      generate_between-Chained :
          (a b : Time) (w : W) (old : List Asked)
          → issued w ≡ old
          → Chained hosts old (issued (generate_between crypto hosts a b w).1)
      unfolding generate_between Chained
      generate_between-Chained a b w old start =
          let P : W → Type 0 = λ u. Chained hosts old (issued u) in
          let none_yet : List Asked → Type 0 = λ l. l ≡ old in
          let h1 = (new_serial-Keeps none_yet).at w start in
          kept_by_bind P _ _ w (inl h1) λ n e.
            let h2 = (new_key-Keeps none_yet).at _ h1 in
            kept_by_bind P _ _ _ (inl h2) λ (ca_key, bytes) e'.
              let key = quiet_key hosts old n a b ca_key in
              let serial = quiet_serial hosts old n a b ca_key in
              let leaf = sign-Keeps hosts old n a b ca_key in
              Rooted-Chained hosts old n a b ca_key _ (
                after_first hosts old n a b ca_key _ _ _ (root_asked hosts old n a b ca_key _ h2)
                  λ cert. Keeps-bind _ _ key λ (server_key, b1). Keeps-bind _ _ serial λ m.
                    Keeps-bind _ _ (leaf _ _ (server-Leaf crypto hosts m a b)) λ c1.
                      Keeps-bind _ _ key λ (client_key, b2).
                        Keeps-bind _ _ (leaf _ _ (client-Leaf crypto hosts a b)) λ c2.
                          Keeps-bind _ _ key λ (peer_key, b3). Keeps-bind _ _ serial λ k.
                            Keeps-bind _ _ (leaf _ _ (peer-Leaf crypto hosts k a b))
                              λ c3. Keeps-pure _)

      -- Whatever `GenerateTLS` returns, it asks for no certificate, or for one root and then for
      -- others under it. The root is a CA that is its own parent, for the public key of the key that
      -- signs it. Each of the others has the root as its parent, is signed with the key that signs
      -- the root, is no CA, and either serves to authenticate clients only or names the
      -- comma-separated hosts, the addresses among them as addresses.
      pub generate_tls_names_hosts :
          (validity : String) (w : W)
          → Chained hosts (issued w) (issued (generate_tls crypto hosts validity w).1)
      unfolding generate_tls Chained lift
      generate_tls_names_hosts validity w =
          kept_by_bind (λ u. Chained hosts (issued w) (issued u)) _ _ w (inl refl)
            (λ d e. generate_between-Chained _ _ w (issued w) refl)
