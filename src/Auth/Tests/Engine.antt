-- ===== src/Auth/Tests/Engine.antt =====
-- A KV engine in memory that keeps tokens by their paths, and the token store of auth/tokenstore.go
-- over it.
use Prim.Native.String.{◌++◌}
use Prim.Native.String.append.{nil, cons}
use package.text.Mathlib.TextLemmas.{append_cancel_left}
use bank_vaults.Prelude.{
  String, Result, Option, none, some, map, [], ◌∷◌, ok, concat, ◌==◌, ◌&&◌, true, if◌then◌else◌,
  ◌≡◌, ◌≢◌, ◌⊎◌, inl, inr, eq_iff, eq_refl, refl, arith, Bool-cases, ap, Bool, false, sym, ◌∙◌,
}
use bank_vaults.Auth.Tokens.{Token}
use bank_vaults.Auth.Tokens.Server.{
  new_data, text, object, Fields, end, field, Logical, in_server, token_data_path,
  token_metadata_path, token_json,
}
use bank_vaults.Auth.Tokens.Server.Stored.{answer}
use bank_vaults.Auth.Tokens.Server.Refines.{dated, listed, EngineLaws, in_server_refines}

abbrev Engine : Type 0
Engine = String → Option Token

abbrev laptop : Token
laptop = record { id = "t1"; name = "laptop"; created_at = none }

abbrev now : String
now = "2018-07-01T00:00:00Z"

-- The token in what Store sends.
abbrev sent : Fields → Option Token
sent
      (field o options (
        field d
          (object (field k (object (field i (text id) (field n (text name) rest))) no_more))
          nothing)) =
    some (record { id = id; name = name; created_at = none })
sent _ = none

abbrev read_back : Option Token → Option Fields
read_back none = none
read_back (some t) = some (answer (object (field "token" (token_json t) end)) now)

abbrev known : Option Token → Option Token
known none = none
known (some t) = some (dated t now)

-- What comes after a prefix.
abbrev after : String → String → String
after String.[] s = s
after (String.◌∷◌ c p) String.[] = ""
after (String.◌∷◌ c p) (String.◌∷◌ d s) = after p s

after-append : (p s : String) → after p (p ++ s) ≡ s
after-append String.[] s = λ i. nil s i
after-append (String.◌∷◌ c p) s = (λ i. after (String.◌∷◌ c p) (cons c p s i)) ∙ after-append p s

-- The paths of one secret's metadata and of its data.
abbrev belongs : String → String → Bool
belongs m q =
    (m == "secret/metadata/accesstokens/" ++ after "secret/data/accesstokens/" q)
    && (q == "secret/data/accesstokens/" ++ after "secret/data/accesstokens/" q)

abbrev logical : Logical Engine
logical = record {
  write = λ p x w. (ok tt, λ q. if q == p then sent x else w q);
  read = λ p w. (ok (read_back (w p)), w);
  remove = λ m w. (ok tt, λ q. if belongs m q then none else w q);
  list = λ p w. (ok (listed ("t1" ∷ [])), w);
  parse_time = λ s. ok s;
}

abbrev tokens : Engine → String → Option Token
tokens w p = known (w p)

both : (a b : Bool) → (a && b) ≡ true → (a ≡ true) × (b ≡ true)
both a b h = (ground arith, ground arith)

belongs-own : (u i : String) → belongs (token_metadata_path u i) (token_data_path u i) ≡ true
unfolding token_metadata_path token_data_path
belongs-own u i =
    rw
      (
        after-append "secret/data/accesstokens/" (concat (u ∷ "/" ∷ i ∷ [])),
        eq_refl (token_metadata_path u i),
        eq_refl (token_data_path u i),
      )
      refl

belongs-only :
    (u i q : String) → belongs (token_metadata_path u i) q ≡ true → q ≡ token_data_path u i
unfolding token_metadata_path token_data_path
belongs-only u i q h =
    let (m, d) = both _ _ h in
    let rest = append_cancel_left "secret/metadata/accesstokens/" _ _ (((eq_iff _ _).0 m)) in
    (eq_iff _ _).0 d ∙ sym (ap (λ r. "secret/data/accesstokens/" ++ r) rest)

not_own : (u i q : String) → q ≢ token_data_path u i → belongs (token_metadata_path u i) q ≡ false
not_own u i q differs = elim (Bool-cases (belongs (token_metadata_path u i) q)) [
  | inl same ↦ absurd (differs (belongs-only u i q same))
  | inr h ↦ h
]

removed_elsewhere :
    (m q : String) (w : Engine)
    → belongs m q ≡ false
    → tokens ((logical.remove m w).1) q ≡ tokens w q
removed_elsewhere m q w h = rw h refl

read_known :
    (o : Option Token) (e : Token) (w : Engine)
    → known o ≡ some e
    → (t : Token) × (at : String) × (time : String) × (e ≡ dated t time)
      × (◌≡◌ {A = Result String (Option Fields) × Engine}
          (ok (read_back o), w)
          (ok (some (answer (object (field "token" (token_json t) end)) at)), w))
      × (logical.parse_time at ≡ ok time)
read_known none e w h = absurd (cc)
read_known (some t) e w h = (t, now, now, cc, refl, refl)

read_none : (o : Option Token) → known o ≡ none → read_back o ≡ none
read_none none h = refl
read_none (some t) h = absurd (cc)

laws : EngineLaws logical tokens (λ w p. "t1" ∷ [])
unfolding token_json new_data
laws = record {
  reads = λ p e w there. read_known (w p) e w there;
  reads_none = λ p w none_there. ap (λ r. (ok r, w)) (read_none (w p) none_there);
  writes = λ p t w h. (now, rw (eq_refl p) refl);
  write_keeps = λ p q x w differs. grind (arith, eq_iff q p);
  removes = λ u i w h. rw (belongs-own u i) refl;
  remove_keeps = λ u i q w differs. removed_elsewhere _ q w (not_own u i q differs);
  lists = λ p w. refl;
}

-- One token is there.
abbrev held : Engine
held = λ q. if q == "secret/data/accesstokens/alice/t1" then some laptop else none

in_server_refines_example :
    ((t : Token)
      → ((((in_server logical).store "alice" t held).0 ≢ ok tt)
          ⊎ ((time : String) × (tokens
                  ((in_server logical).store "alice" t held).1
                  (token_data_path "alice" t.id)
                ≡ some (dated t time))))
        × ((q : String)
            → (q ≡ token_data_path "alice" t.id)
              ⊎ (tokens ((in_server logical).store "alice" t held).1 q ≡ tokens held q)))
    × ((i : String)
        → ((((in_server logical).revoke "alice" i held).0 ≢ ok tt)
            ⊎ (tokens ((in_server logical).revoke "alice" i held).1 (token_data_path "alice" i)
                ≡ none))
          × ((q : String)
              → (q ≡ token_data_path "alice" i)
                ⊎ (tokens ((in_server logical).revoke "alice" i held).1 q ≡ tokens held q)))
    × ((i : String)
        → (in_server logical).lookup "alice" i held
          ≡ (ok (tokens held (token_data_path "alice" i)), held))
    × ((in_server logical).list "alice" held
        ≡ (ok (map (λ i. tokens held (token_data_path "alice" i)) ("t1" ∷ [])), held))
in_server_refines_example = in_server_refines logical tokens (λ w p. "t1" ∷ []) laws "alice" held
