-- ===== src/Vault/Configure/Policies/Merged.antt =====
-- The policies that Vault has after configurePolicies of pkg/vault/vault.go.
use bank_vaults.Prelude.{
  String, Option, none, some, Dict, List, [], ◌∷◌, ok, for_each, bind-eq-ok, map_err, map_err-eq-ok,
  pure, ◌==◌, if◌then◌else◌, ◌≡◌, refl, ◌∙◌, sym, ap, ok_inj, Bool, arith,
}
use mathlib.Core.Path.{ap₂}
use bank_vaults.Vault.Configure.Api.{Admin, Host}
use bank_vaults.Vault.Configure.Policies.{text_at, put_policy, configure_policies}

-- The first option, or the second where it has no value.
abbrev pub or_else : Option String → Option String → Option String
or_else (some t) o = some t
or_else none o = o

-- The rules of the last policy with the name.
abbrev pub last_rules : String → List (Dict String) → Option String
last_rules name [] = none
last_rules name (p ∷ ps) =
    or_else (last_rules name ps)
      (if text_at "name" p == name then some (text_at "rules" p) else none)

-- A server whose policies are `view`: a write that returns puts the rules under the name.
pub record Holds {W : Type 0} (admin : Admin W) (host : Host W) (view : W → String → Option String)
    : Type 0 where
  pub put :
      (name rules other : String) (w : W)
      → (admin.put_policy name rules w).0 ≡ ok tt
      → view (admin.put_policy name rules w).1 other
        ≡ (if name == other then some rules else view w other)
  pub read : (w : W) (other : String) → view (host.policies w).1 other ≡ view w other

or_else-if :
    (o : Option String) (b : Bool) (rules : String) (old new : Option String)
    → new ≡ (if b then some rules else old)
    → or_else o new ≡ or_else (or_else o (if b then some rules else none)) old
or_else-if o b rules old new e = ground (arith, e)

module _ {W : Type 0} (admin : Admin W) (host : Host W) (view : W → String → Option String)
    (holds : Holds admin host view) where
  loop_merges :
      (ps : List (Dict String)) (name : String) (w : W)
      → (for_each (put_policy admin) ps w).0 ≡ ok tt
      → view (for_each (put_policy admin) ps w).1 name ≡ or_else (last_rules name ps) (view w name)
  unfolding for_each put_policy map_err pure
  loop_merges [] name w h = refl
  loop_merges (p ∷ ps) name w h =
      let (a, first, rest, last) =
        bind-eq-ok (put_policy admin p) (λ _. for_each (put_policy admin) ps) w h in
      let named = text_at "name" p in
      let put =
        holds.put named (text_at "rules" p) name w
          (map_err-eq-ok _ (admin.put_policy named (text_at "rules" p)) w first) in
      ap (λ u. view u name) last
      ∙ loop_merges ps name _ rest
      ∙ or_else-if (last_rules name ps) (named == name) (text_at "rules" p) (view w name) _ put

  -- If `configurePolicies` returns without an error, then Vault has under each name the rules of the
  -- last policy with that name in the configuration, and where there is none, what it had before.
  pub configure_policies_merges :
      (w : W) (ps : List (Dict String)) (name : String)
      → (host.policies w).0 ≡ ok ps
      → (configure_policies admin host w).0 ≡ ok tt
      → view (configure_policies admin host w).1 name ≡ or_else (last_rules name ps) (view w name)
  unfolding configure_policies map_err
  configure_policies_merges w ps name read h =
      let (qs, first, rest, last) = bind-eq-ok _ (for_each (put_policy admin)) w h in
      let same : qs ≡ ps = ok_inj (sym (map_err-eq-ok _ host.policies w first) ∙ read) in
      ap (λ u. view u name) last
      ∙ loop_merges qs name _ rest
      ∙ ap₂ (λ l o. or_else (last_rules name l) o) same (holds.read w name)
