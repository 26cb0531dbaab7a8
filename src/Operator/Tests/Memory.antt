-- ===== src/Operator/Tests/Memory.antt =====
-- A cluster in memory, over free-form values of texts and maps, and its laws.
use mathlib.Core.Path.{fun_ext}
use bank_vaults.Prelude.{
  String, Bool, true, false, ℕ, zero, suc, Option, none, some, [], ◌∷◌, ok, err, Exec, Result, Dict,
  ◌==◌, ◌&&◌, if◌then◌else◌, Bool-cases, inl, inr, ◌≡◌, ◌≢◌, ◌∙◌, sym, ap, refl, arith, eq_iff,
  eq_refl,
}
use bank_vaults.Operator.Objects.{
  ObjectMeta, WorkloadSpec, Object, secret, etcd_cluster, stateful_set, service, deployment,
  config_map,
}
use bank_vaults.Operator.Spec.{Cast}
use bank_vaults.Operator.Fabricate.{Library}
use bank_vaults.Operator.Fabricate.Etcd.Again.{CastLaws}
use bank_vaults.Operator.Handle.{Cluster, ApiError, already_exists, absent, other}
use bank_vaults.Operator.Handle.Registry.{
  Kind, secrets, etcd_clusters, stateful_sets, services, deployments, config_maps, Place, place,
  Registry,
}
use bank_vaults.Operator.Tests.{chain}

-- Free-form values: texts and maps.
mutual
  pub data Value : Type 0 where
    text : String → Value
    object : Fields → Value

  pub data Fields : Type 0 where
    end : Fields
    field : String → Value → Fields → Fields

abbrev pub to_dict : Fields → Dict Value
to_dict end = []
to_dict (field k v fs) = (k, v) ∷ to_dict fs

abbrev pub of_dict : Dict Value → Fields
of_dict [] = end
of_dict ((k, v) ∷ m) = field k v (of_dict m)

pub to_dict-of_dict : (m : Dict Value) → to_dict (of_dict m) ≡ m
to_dict-of_dict [] = refl
to_dict-of_dict ((k, v) ∷ m) = ap (λ rest. (k, v) ∷ rest) (to_dict-of_dict m)

abbrev pub as_map : Option Value → Dict Value
as_map none = []
as_map (some (text s)) = []
as_map (some (object fs)) = to_dict fs

abbrev pub as_text : Option Value → Option String
as_text none = none
as_text (some (text s)) = some s
as_text (some (object fs)) = none

abbrev pub cast : Cast Value
cast = record {
  to_string_map = as_map;
  to_bool = λ x. true;
  as_string = as_text;
  of_map = λ m. object (of_dict m);
  of_string = λ s. text s;
  marshal = λ m. "{}";
}

pub cast_laws : CastLaws cast
cast_laws = record { same_map = to_dict-of_dict }

abbrev pub library : Library Value
library = record {
  cast = cast;
  hostname = λ a. ok a;
  file_of = λ p. p;
  marshal_owner = λ o. ok "owner";
}

-- Equality of places.
abbrev pub code : Kind → ℕ
code secrets = 0
code etcd_clusters = 1
code stateful_sets = 2
code services = 3
code deployments = 4
code config_maps = 5

abbrev pub kind_named : ℕ → Kind
kind_named zero = secrets
kind_named (suc zero) = etcd_clusters
kind_named (suc (suc zero)) = stateful_sets
kind_named (suc (suc (suc zero))) = services
kind_named (suc (suc (suc (suc zero)))) = deployments
kind_named _ = config_maps

pub kind_named-code : (k : Kind) → kind_named (code k) ≡ k
kind_named-code secrets = refl
kind_named-code etcd_clusters = refl
kind_named-code stateful_sets = refl
kind_named-code services = refl
kind_named-code deployments = refl
kind_named-code config_maps = refl

abbrev pub nat_eq : ℕ → ℕ → Bool
nat_eq m n = elim (Prim.Native.Nat.compare m n) [ Prim.Native.Nat.Ordering.eq ↦ true | _ ↦ false ]

abbrev pub same : Place → Place → Bool
same j k = nat_eq (code j.kind) (code k.kind) && (j.namespace == k.namespace && j.name == k.name)

pub same_refl : (k : Place) → same k k ≡ true
same_refl k = ground (arith, eq_refl k.namespace, eq_refl k.name)

pub same→eq : (j k : Place) → same j k ≡ true → j ≡ k
same→eq j k h =
    let codes : code j.kind ≡ code k.kind = ground arith in
    let kinds : j.kind ≡ k.kind =
      sym (kind_named-code j.kind) ∙ ap kind_named codes ∙ kind_named-code k.kind in
    ground (arith, kinds, eq_iff j.namespace k.namespace, eq_iff j.name k.name)

-- What stands in each place.
abbrev pub World : Type 0
World = Place → Option Object

abbrev pub written : Object → World → World
written obj w k = if same k (place obj) then some obj else w k

abbrev pub creates : Object → Option Object → Exec World ApiError (Unit {0})
creates obj none w = (ok tt, written obj w)
creates obj (some x) w = (err (already_exists "exists"), w)

abbrev pub got_set : String → String → Option Object → Result ApiError (ObjectMeta × WorkloadSpec)
got_set ns n (some (stateful_set m s)) =
    if m.namespace == ns && m.name == n then ok (m, s) else err (other "conflict")
got_set ns n none = err (absent "missing")
got_set ns n (some _) = err (other "conflict")

abbrev pub got_map :
    String → String → Option Object → Result ApiError (ObjectMeta × Option (Dict String))
got_map ns n (some (config_map m d)) =
    if m.namespace == ns && m.name == n then ok (m, d) else err (other "conflict")
got_map ns n none = err (absent "missing")
got_map ns n (some _) = err (other "conflict")

abbrev pub cluster : Cluster World Value
cluster = record {
  create = λ obj w. creates obj (w (place obj)) w;
  update = λ obj w. (ok tt, written obj w);
  update_vault = λ v w. (ok tt, w);
  get_stateful_set =
      λ ns n w. (got_set ns n (w (record { kind = stateful_sets; namespace = ns; name = n })), w);
  get_config_map =
      λ ns n w. (got_map ns n (w (record { kind = config_maps; namespace = ns; name = n })), w);
  list_pods = λ ns l w. (ok [], w);
  generate_tls = λ hosts validity w. (ok chain, w);
}

pub got_set-ok :
    (ns n : String) (o : Option Object) (meta : ObjectMeta) (spec : WorkloadSpec)
    → got_set ns n o ≡ ok (meta, spec)
    → (meta.namespace ≡ ns)
      × (meta.name ≡ n)
      × (x : WorkloadSpec) × (o ≡ some (stateful_set meta x))
got_set-ok ns n (some (stateful_set m s)) meta spec h =
    elim (Bool-cases (m.namespace == ns && m.name == n)) [
      | inl e ↦
          let same_meta : m ≡ meta = ground (arith, e, h) in
          (
            ground (arith, eq_iff m.namespace ns, same_meta),
            ground (arith, eq_iff m.name n, same_meta),
            s,
            ap (λ y. some (stateful_set y s)) same_meta,
          )
      | inr e ↦ absurd (ground arith)
    ]
got_set-ok ns n none meta spec h = cc
got_set-ok ns n (some (secret m x)) meta spec h = cc
got_set-ok ns n (some (etcd_cluster m x)) meta spec h = cc
got_set-ok ns n (some (service m x)) meta spec h = cc
got_set-ok ns n (some (deployment m x)) meta spec h = cc
got_set-ok ns n (some (config_map m x)) meta spec h = cc

pub got_map-ok :
    (ns n : String) (o : Option Object) (meta : ObjectMeta) (entries : Option (Dict String))
    → got_map ns n o ≡ ok (meta, entries)
    → (meta.namespace ≡ ns) × (meta.name ≡ n) × (o ≡ some (config_map meta entries))
got_map-ok ns n (some (config_map m d)) meta entries h =
    elim (Bool-cases (m.namespace == ns && m.name == n)) [
      | inl e ↦
          let same_meta : m ≡ meta = ground (arith, e, h) in
          let same_entries : d ≡ entries = ground (arith, e, h) in
          (
            ground (arith, eq_iff m.namespace ns, same_meta),
            ground (arith, eq_iff m.name n, same_meta),
            cc,
          )
      | inr e ↦ absurd (ground arith)
    ]
got_map-ok ns n none meta entries h = cc
got_map-ok ns n (some (secret m x)) meta entries h = cc
got_map-ok ns n (some (etcd_cluster m x)) meta entries h = cc
got_map-ok ns n (some (service m x)) meta entries h = cc
got_map-ok ns n (some (deployment m x)) meta entries h = cc
got_map-ok ns n (some (stateful_set m x)) meta entries h = cc

pub got_set-absent :
    (ns n m : String) (o : Option Object) → got_set ns n o ≡ err (absent m) → o ≡ none
got_set-absent ns n m none h = refl
got_set-absent ns n m (some (stateful_set y s)) h = absurd (ground arith)
got_set-absent ns n m (some (secret y x)) h = cc
got_set-absent ns n m (some (etcd_cluster y x)) h = cc
got_set-absent ns n m (some (service y x)) h = cc
got_set-absent ns n m (some (deployment y x)) h = cc
got_set-absent ns n m (some (config_map y x)) h = cc

pub written_there : (obj : Object) (w : World) → written obj w (place obj) ≡ some obj
written_there obj w = rw (same_refl (place obj)) refl

pub written_again : (obj : Object) (w : World) → w (place obj) ≡ some obj → written obj w ≡ w
written_again obj w there = fun_ext λ k. elim (Bool-cases (same k (place obj))) [
  | inl e ↦ rw e (sym there ∙ ap w (sym (same→eq k (place obj) e)))
  | inr e ↦ rw e refl
]

pub written_keeps : (obj : Object) (k : Place) (w : World) → k ≢ place obj → written obj w k ≡ w k
written_keeps obj k w differ = elim (Bool-cases (same k (place obj))) [
  | inl e ↦ absurd (differ (same→eq k (place obj) e))
  | inr e ↦ rw e refl
]

pub creates-ok :
    (obj : Object) (o : Option Object) (w : World)
    → (creates obj o w).0 ≡ ok tt
    → (creates obj o w).1 (place obj) ≡ some obj
creates-ok obj none w h = written_there obj w
creates-ok obj (some x) w h = cc

pub creates-exists :
    (obj : Object) (o : Option Object) (m : String) (w : World)
    → w (place obj) ≡ o
    → (creates obj o w).0 ≡ err (already_exists m)
    → (x : Object) × ((creates obj o w).1 (place obj) ≡ some x)
creates-exists obj none m w e h = cc
creates-exists obj (some x) m w e h = (x, e)

pub creates-keeps :
    (obj x : Object) (o : Option Object) (k : Place) (w : World)
    → w (place obj) ≡ o
    → w k ≡ some x
    → (creates obj o w).1 k ≡ some x
creates-keeps obj x none k w e h = elim (Bool-cases (same k (place obj))) [
  | inl is ↦ absurd (let there = ap w (same→eq k (place obj) is) in cc)
  | inr is ↦ rw is h
]
creates-keeps obj x (some y) k w e h = h

pub registry : Registry cluster (λ w. w)
registry = record {
  creates = λ obj w h. creates-ok obj (w (place obj)) w h;
  exists = λ obj m w h. creates-exists obj (w (place obj)) m w refl h;
  create_keeps = λ obj x k w h. creates-keeps obj x (w (place obj)) k w refl h;
  create_again = λ obj x w h. rw h refl;
  updates = λ obj w h. written_there obj w;
  update_keeps = λ obj k w h. written_keeps obj k w h;
  update_again = λ obj w h. written_again obj w h;
  update_vault_keeps = λ u w. refl;
  gets_set = λ ns n meta spec w h. got_set-ok ns n _ meta spec h;
  set_absent = λ ns n m w h. got_set-absent ns n m _ h;
  get_set_keeps = λ ns n w. refl;
  gets_map = λ ns n meta entries w h. got_map-ok ns n _ meta entries h;
  get_map_keeps = λ ns n w. refl;
  list_keeps = λ ns l w. refl;
  generate_keeps = λ h d w. refl;
}
