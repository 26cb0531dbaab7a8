-- ===== src/Database/Credentials.antt =====
-- The source that DynamicSecretDataSource of database/database.go returns.
use package.text.Mathlib.Text.{starts_with}
use package.text.Mathlib.TextEquality.{slice-prefix}
use package.text.Mathlib.TextPositions.{slice-append_right, len-append}
use package.text.Mathlib.TextLemmas.{append-nil}
use Prim.Native.String.{slice, len, ◌++◌}
use bank_vaults.Prelude.{
  String, Bool, true, false, Option, none, some, [], ◌∷◌, ok, lift, bind-eq-ok, map_err-eq-ok, lift,
  fail, pure-eq-ok, if◌then◌else◌, split, concat, Dict, ◌≡◌, refl, sym, ap, subst, ◌∙◌, eq_iff,
}
use bank_vaults.Vault.Configure.Values.{Value, text, as_string-eq-ok, at}
use bank_vaults.Database.{
  Server, trim_prefix, two_parts, start_renewer, data_source, with_secret, with_parts,
  dynamic_secret_data_source,
}

trim_prefix-append :
    (s start : String) → starts_with s start ≡ true → concat (start ∷ trim_prefix s start ∷ []) ≡ s
unfolding trim_prefix
trim_prefix-append s start h =
    let (rest, parts) = slice-prefix s (len start) in
    let first : slice s 0 (len start) ≡ start = (eq_iff _ _).0 h in
    let whole : start ++ rest ≡ s = ap (λ t. t ++ rest) (sym first) ∙ parts in
    rw h (
      subst (λ u. start ++ (slice u (len start) (len u) ++ "") ≡ u) whole
        (ap (λ t. start ++ t)
          (append-nil _
            ∙ ap (λ n. slice (start ++ rest) (len start) n) (len-append start rest)
            ∙ slice-append_right start rest)))

module _ {W : Type 0} (server : Server W) where
  -- The server has answered a secret with the name and the password.
  pub record Issued (role username password : String) : Type 0 where
    pub before : W
    pub secret : Dict Value
    pub answered :
        (server.read (concat ("database/creds/" ∷ role ∷ [])) before).0 ≡ ok (some secret)
    pub named : at "username" secret ≡ text username
    pub passed : at "password" secret ≡ text password

  abbrev filled : Bool → String → String → String → String → String
  filled pg source address u p =
      if pg
      then concat ("postgresql://" ∷ source ∷ [])
      else concat (u ∷ ":" ∷ p ∷ "@" ∷ address ∷ [])

  data_source-eq-ok :
      (pg : Bool) (source address : String) (secret : Dict Value) (w : W) {d : String}
      → (data_source server pg source address secret w).0 ≡ ok d
      → (u p : String) × (at "username" secret ≡ text u)
        × (at "password" secret ≡ text p)
        × (d ≡ filled pg source address u p)
  unfolding data_source lift
  data_source-eq-ok pg source address secret w h =
      let (u, named, rest, _) = bind-eq-ok _ _ w h in
      let (p, passed, last, _) = bind-eq-ok _ _ w rest in
      (u, p, as_string-eq-ok _ named, as_string-eq-ok _ passed, sym (pure-eq-ok w last))

  with_secret-eq-ok :
      (pg : Bool) (source role address : String) (o : Option (Dict Value)) (before w : W)
      {d : String}
      → (server.read (concat ("database/creds/" ∷ role ∷ [])) before).0 ≡ ok o
      → (with_secret server pg source (concat ("database/creds/" ∷ role ∷ [])) address o w).0 ≡ ok d
      → (u p : String) × Issued role u p × (d ≡ filled pg source address u p)
  unfolding with_secret fail
  with_secret-eq-ok pg source role address none before w answered h = cc
  with_secret-eq-ok pg source role address (some secret) before w answered h =
      let (_, _, started, _) = bind-eq-ok (start_renewer server) _ w h in
      let (_, _, renewing, _) =
        bind-eq-ok _ (λ _. data_source server pg source address secret) _ started in
      let (u, p, named, passed, same) = data_source-eq-ok pg source address secret _ renewing in
      (
        u,
        p,
        record {
          before = before;
          secret = secret;
          answered = answered;
          named = named;
          passed = passed;
        },
        same,
      )

  with_parts-eq-ok :
      (pg : Bool) (source role address : String) (w : W) {d : String}
      → (with_parts server pg source (some (role, address)) w).0 ≡ ok d
      → (u p : String) × Issued role u p × (d ≡ filled pg source address u p)
  unfolding with_parts
  with_parts-eq-ok pg source role address w h =
      let (_, _, connected, _) = bind-eq-ok _ _ w h in
      let (o, answered, rest, _) = bind-eq-ok _ _ _ connected in
      with_secret-eq-ok pg source role address o _ _ (map_err-eq-ok _ _ _ answered) rest

  -- For a source `role@address` that is no PostgreSQL URI: if the call returns a data source, then
  -- Vault has answered credentials for the role, and the data source is `name:password@address`.
  pub credentials_filled_in :
      (dialect full role address : String) (w : W) {d : String}
      → starts_with full "postgresql://" ≡ false
      → split "@" full ≡ role ∷ address ∷ []
      → (dynamic_secret_data_source server dialect full w).0 ≡ ok d
      → (u p : String) × Issued role u p × (d ≡ concat (u ∷ ":" ∷ p ∷ "@" ∷ address ∷ []))
  unfolding dynamic_secret_data_source trim_prefix two_parts
  credentials_filled_in dialect full role address w {d} plain parts h =
      with_parts-eq-ok false full role address w (subst (λ m. (m w).0 ≡ ok d) called h)
    where
      called :
          dynamic_secret_data_source server dialect full
          ≡ with_parts server false full (some (role, address))
      called = rw (trim_prefix, plain, parts) refl

  -- For a PostgreSQL URI: if the call returns a data source, then this is the URI that it was given,
  -- with the role in it, and none of the credentials that Vault has answered.
  pub postgresql_unchanged :
      (dialect full : String) (w : W) {d : String}
      → starts_with full "postgresql://" ≡ true
      → (dynamic_secret_data_source server dialect full w).0 ≡ ok d
      → d ≡ full
  unfolding dynamic_secret_data_source with_parts fail
  postgresql_unchanged dialect full w {d} pg h =
      unchanged_with (two_parts (split "@" (trim_prefix full "postgresql://")))
        (subst (λ m. (m w).0 ≡ ok d) called h)
    where
      called :
          dynamic_secret_data_source server dialect full
          ≡ with_parts server true
              (trim_prefix full "postgresql://")
              (two_parts (split "@" (trim_prefix full "postgresql://")))
      called = rw pg refl

      unchanged_with :
          (o : Option (String × String)) {d : String}
          → (with_parts server true (trim_prefix full "postgresql://") o w).0 ≡ ok d
          → d ≡ full
      unchanged_with none h = cc
      unchanged_with (some (role, address)) h =
          let (_, _, _, same) =
            with_parts-eq-ok true (trim_prefix full "postgresql://") role address w h in
          same ∙ trim_prefix-append full "postgresql://" pg
