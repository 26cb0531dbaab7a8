-- ===== src/Database/Tests.antt =====
-- Sample sources for database/database.go, and the theorems about them there.
use bank_vaults.Prelude.{String, some, [], ◌∷◌, ok, ◌≡◌, refl, split, concat, ◌>>=◌, lookup}
use bank_vaults.Vault.Configure.Values.{text, at, as_string}
use bank_vaults.Database.{Server, dynamic_secret_data_source, trim_prefix, two_parts}
use bank_vaults.Database.Credentials.{Issued, credentials_filled_in, postgresql_unchanged}

abbrev server : Server String
server = record {
  new_client = λ role w. (ok tt, role);
  read =
      λ path w. (ok (some (("username", text "v-app") ∷ ("password", text "secret") ∷ [])), path);
  new_renewer = λ w. (ok tt, w);
  renew = λ w. w;
  close = λ w. "closed";
}

mysql :
    (dynamic_secret_data_source server "mysql" "app@tcp(db:3306)/" "").0
    ≡ ok "v-app:secret@tcp(db:3306)/"
unfolding dynamic_secret_data_source split two_parts trim_prefix ◌>>=◌ at as_string lookup
mysql = refl

postgresql :
    (dynamic_secret_data_source server "postgres" "postgresql://app@db:5432" "").0
    ≡ ok "postgresql://app@db:5432"
unfolding dynamic_secret_data_source split two_parts trim_prefix ◌>>=◌ at as_string lookup
postgresql = refl

credentials_filled_in_example :
    (u p : String) × Issued server "app" u p
    × ("v-app:secret@tcp(db:3306)/" ≡ concat (u ∷ ":" ∷ p ∷ "@" ∷ "tcp(db:3306)/" ∷ []))
unfolding split
credentials_filled_in_example =
    credentials_filled_in server "mysql" "app@tcp(db:3306)/" "app" "tcp(db:3306)/" "" refl refl
      mysql

postgresql_unchanged_example :
    ◌≡◌ {A = String} "postgresql://app@db:5432" "postgresql://app@db:5432"
postgresql_unchanged_example =
    postgresql_unchanged server "postgres" "postgresql://app@db:5432" "" refl postgresql
