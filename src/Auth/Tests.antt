-- ===== src/Auth/Tests.antt =====
-- A small store of tokens, and the theorems of auth there.
mod Engine
use mathlib.Core.Logic.{◌↔◌}
use bank_vaults.Prelude.{
  String, true, none, err, panic, ◌==◌, if◌then◌else◌, [], ◌∷◌, ok, ◌≡◌, Option, some, insert,
  lookup, lookup-insert, eq_refl, arith, ap, refl, Dict,
}
use bank_vaults.Auth.Tokens.{Token}
use bank_vaults.Auth.Tokens.Memory.{Tokens, in_memory}
use bank_vaults.Auth.Tokens.Memory.Refines.{view, stored, removed, in_memory_refines}
use bank_vaults.Auth.Tokens.Server.{Fields, end, field, Logical, in_server}
use bank_vaults.Auth.Tokens.Server.Stored.{answer, KvLaws, in_server_round_trip}
use bank_vaults.Auth.Jwt.{
  Method, hmac, other, hmac_key_func, aborted, ScopedClaims, converted, proceeds, Parser, jwt_auth,
}
use bank_vaults.Auth.Jwt.Methods.{Asks, jwt_refuses_other_methods}
use bank_vaults.Auth.Jwt.Admits.{Admitted, jwt_auth_iff}

abbrev laptop : Token
laptop = record { id = "t1"; name = "laptop"; created_at = none }

abbrev sample : Tokens
sample = ("alice", ("t1", laptop) ∷ []) ∷ []

in_memory_refines_example :
    ((t : Token)
      → ((in_memory.store "alice" t sample).0 ≡ ok tt)
        × ((v id : String)
            → view (in_memory.store "alice" t sample).1 v id ≡ stored "alice" t (view sample) v id))
    × ((i : String)
        → ((in_memory.revoke "alice" i sample).0 ≡ ok tt)
          × ((v id : String)
              → view (in_memory.revoke "alice" i sample).1 v id
                ≡ removed "alice" i (view sample) v id))
    × ((i : String) → in_memory.lookup "alice" i sample ≡ (ok (view sample "alice" i), sample))
in_memory_refines_example = in_memory_refines sample "alice"

abbrev alice : ScopedClaims
alice = record { subject = "alice"; id = "t1"; scope = ""; token_type = ""; text = "" }

-- The method that a request's token names.
abbrev method_of : String → Method
method_of request = if request == "unsigned" then other "none" else hmac

abbrev parser : Parser String
parser = record {
  parse = λ key request. elim (key (method_of request)) [
    | ok k ↦ ok (alice, true)
    | err e ↦ err e
    | panic s ↦ panic s
  ];
  base32 = λ k. k;
}

jwt_auth_iff_example :
    ((jwt_auth parser in_memory (some (λ claims. claims.subject)) "key" "request" sample).0
      ≡ ok (proceeds (converted "alice")))
    ↔ Admitted parser
        (some (λ claims. claims.subject))
        (parser.parse (hmac_key_func parser "key") "request")
        sample
        (converted "alice")
jwt_auth_iff_example =
    jwt_auth_iff parser (some (λ claims. claims.subject)) "key" "request" sample (converted "alice")

-- A KV engine in memory: the secrets that were written, by their paths.
abbrev answered : Option Fields → Option Fields
answered none = none
answered (some (field k options (field j val end))) = some (answer val "2018-07-01T00:00:00Z")
answered (some m) = none

abbrev logical : Logical (Dict Fields)
logical = record {
  write = λ p m w. (ok tt, insert p m w);
  read = λ p w. (ok (answered (lookup p w)), w);
  remove = λ p w. (ok tt, w);
  list = λ p w. (ok none, w);
  parse_time = λ s. ok s;
}

lookup_written : (p : String) (m : Fields) (w : Dict Fields) → lookup p (insert p m w) ≡ some m
lookup_written p m w = grind (arith, lookup-insert p p m w, eq_refl p)

kv_laws : KvLaws logical
kv_laws = record {
  reads_back = λ p options val w h. (_, _, ap (λ m. ok (answered m)) (lookup_written p _ w), refl);
}

in_server_round_trip_example :
    (time : String) × (((in_server logical).lookup "alice" "t1"
        ((in_server logical).store "alice" laptop []).1).0
      ≡ ok (some (record { id = "t1"; name = "laptop"; created_at = some time })))
unfolding in_server
in_server_round_trip_example = in_server_round_trip logical kv_laws "alice" laptop [] refl

parser-Asks : Asks parser method_of
unfolding Asks
parser-Asks key request e h = (e, rw h refl)

jwt_refuses_other_methods_example :
    (e : String) × (jwt_auth parser in_memory
        (some (λ claims. claims.subject))
        "key"
        "unsigned"
        sample
      ≡ (ok (aborted 401 "Invalid token" (some e)), sample))
jwt_refuses_other_methods_example =
    jwt_refuses_other_methods parser in_memory (some (λ claims. claims.subject)) method_of "key"
      "none" "unsigned" sample parser-Asks refl
