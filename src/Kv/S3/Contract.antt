-- ===== src/Kv/S3/Contract.antt =====
-- pkg/kv/s3/s3.go and the contract of a key store: what is asked of the remote service,
-- and the proof.
use text.Mathlib.TextLemmas.{append_cancel_left, append-nil}
use bank_vaults.Prelude.{
  String, ok_inj, Bool-cases, wrapped, wrapped-eq-ok, continue-eq-ok, ◌∙◌, true, Option, none, some,
  Result, is_ok, ok, err, panic, map_err, ◌>>=◌, continue, ◌==◌, ◌≡◌, ◌≢◌, refl, inl, inr, arith,
  eq_iff, ap,
}
use bank_vaults.Kv.{Service, not_found}
use bank_vaults.Kv.Spec.{Faithful, Faithful-same}
use bank_vaults.Kv.S3.{
  AwsError, coded, other, Api, S3Storage, object_name_with_prefix, no_such_key, set, get_error, get,
  read, service, new,
}

-- What S3 documents: `object w n` is the object of the bucket with the name `n`, and `contents` what the body
-- of a found object reads as. A call that fails
-- may or may not have taken effect.
pub record ApiLaws {W Body : Type 0} (api : Api W Body) (bucket : String)
    (object : W → String → Option String) (contents : Body → String) : Type 0 where
  pub put_ok :
      (n v : String) (w : W)
      → is_ok (api.put_object bucket n v w).0 ≡ true
      → object (api.put_object bucket n v w).1 n ≡ some v
  pub put_keeps :
      (n v m : String) (w : W) → n ≢ m → object (api.put_object bucket n v w).1 m ≡ object w m
  pub found :
      (n : String) (w : W) (body : Body)
      → (api.get_object bucket n w).0 ≡ ok body
      → object w n ≡ some (contents body)
  pub reads :
      (body : Body) (v : String) (w : W) → (api.read_all body w).0 ≡ ok v → contents body ≡ v
  pub no_key :
      (n m : String) (w : W)
      → (api.get_object bucket n w).0 ≡ err (coded no_such_key m)
      → object w n ≡ none
  pub get_keeps : (n m : String) (w : W) → object (api.get_object bucket n w).1 m ≡ object w m
  pub read_keeps :
      (body : Body) (m : String) (w : W) → object (api.read_all body w).1 m ≡ object w m
  pub close_keeps : (body : Body) (m : String) (w : W) → object (api.close body w) m ≡ object w m

object_name_inj :
    (prefix key j : String)
    → object_name_with_prefix prefix key ≡ object_name_with_prefix prefix j
    → key ≡ j
unfolding object_name_with_prefix
object_name_inj prefix key j e = rw (append-nil, append-nil) at (append_cancel_left prefix _ _ e)

module _ {W Body : Type 0} (api : Api W Body) (s3 : S3Storage) (object : W → String → Option String)
    (contents : Body → String) (laws : ApiLaws api s3.bucket object contents) where
  abbrev view : W → String → Option String
  view w key = object w (object_name_with_prefix s3.prefix key)

  read_got :
      (n v : String) (w : W)
      → ((do body ← map_err (get_error n) (api.get_object s3.bucket n); read api s3 n body) w).0
        ≡ ok v
      → object w n ≡ some v
  unfolding read ◌>>=◌
  read_got n v w h =
      let (body, found, done) = continue-eq-ok _ _ _ h in
      laws.found n w body (wrapped-eq-ok _ _ found)
      ∙ ap some (laws.reads body v _ (wrapped-eq-ok _ _ done))

  read_missing :
      (n m : String) (w : W) (r : Result AwsError Body)
      → (api.get_object s3.bucket n w).0 ≡ r
      → (continue (wrapped (get_error n) r) (read api s3 n) (api.get_object s3.bucket n w).1).0
        ≡ err (not_found m)
      → object w n ≡ none
  unfolding read get_error ◌>>=◌
  read_missing n m w (ok body) e h = ground arith
  read_missing n m w (err (other t)) e h = cc
  read_missing n m w (err (coded code t)) e h = elim (Bool-cases (code == no_such_key)) [
    | inl same ↦ laws.no_key n t w (rw ((eq_iff code no_such_key).0 same) at e)
    | inr differ ↦ ground arith
  ]
  read_missing n m w (panic x) e h = cc

  -- Under the documented behaviour of the bucket's API, the store keeps the contract of a key store
  -- for the objects under its prefix.
  pub s3_service-Faithful : Faithful (service api s3) view
  unfolding service get set ◌>>=◌
  s3_service-Faithful = record {
    got = λ key v w h. read_got _ v w h;
    missing = λ key m w h. read_missing _ m w _ refl h;
    get_keeps = λ key j w. grind (arith, laws.get_keeps, laws.read_keeps, laws.close_keeps);
    stored = λ key v w h. grind (arith, laws.put_ok);
    set_keeps = λ key v j w n. laws.put_keeps _ v _ w λ e. n (object_name_inj s3.prefix key j e);
    test_keeps = λ key j w. refl;
  }

module _ {W Body : Type 0} (make_client : String → Api W Body) (region bucket prefix : String)
    (object : W → String → Option String) (contents : Body → String)
    (laws : ApiLaws (make_client region) bucket object contents) where
  -- What New returns keeps the contract.
  pub s3_new-Faithful :
      (w : W) (s : Service W)
      → (new make_client region bucket prefix w).0 ≡ ok s
      → Faithful s (λ w k. object w (object_name_with_prefix prefix k))
  unfolding new ◌>>=◌
  s3_new-Faithful w s h = elim (Bool-cases (region == "")) [
    | inl e ↦ absurd (cc)
    | inr e ↦ elim (Bool-cases (bucket == "")) [
      | inl e' ↦ absurd (cc)
      | inr e' ↦
          Faithful-same (ok_inj (rw (e, e') at h))
            (s3_service-Faithful (make_client region) _ object contents laws)
    ]
  ]
