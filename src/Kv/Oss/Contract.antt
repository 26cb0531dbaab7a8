-- ===== src/Kv/Oss/Contract.antt =====
-- pkg/kv/alibabaoss/oss.go and the contract of a key store: what is asked of the remote service,
-- and the proof.
use text.Mathlib.TextLemmas.{append_cancel_left, append-nil}
use bank_vaults.Prelude.{
  String, made_of, wrapped, wrapped-eq-ok, sym, continue-eq-ok, ◌∙◌, true, Option, none, some, Exec,
  Result, is_ok, ok, err, panic, map_err, ◌>>=◌, continue, ◌≡◌, ◌≢◌, refl, arith, eq_iff, ap,
}
use bank_vaults.Kv.{Service, Error, not_found, plain}
use bank_vaults.Kv.Spec.{Faithful, Faithful-same}
use bank_vaults.Kv.Oss.{
  OssError, service_error, other, Api, OssStorage, object_name_with_prefix, set, get_error, get,
  read, service, new,
}

-- What OSS documents: `object w n` is the object of the bucket with the name `n`, and `contents` what the body
-- of a found object reads as. A call that fails
-- may or may not have taken effect.
pub record ApiLaws {W Bucket Body : Type 0} (api : Api W Bucket Body) (bucket : String)
    (object : W → String → Option String) (contents : Body → String) : Type 0 where
  pub bucket_keeps : (m : String) (w : W) → object (api.bucket bucket w).1 m ≡ object w m
  pub put_ok :
      (b : Bucket) (n v : String) (w w' : W)
      → (api.bucket bucket w').0 ≡ ok b
      → is_ok (api.put_object b n v w).0 ≡ true
      → object (api.put_object b n v w).1 n ≡ some v
  pub put_keeps :
      (b : Bucket) (n v m : String) (w : W)
      → n ≢ m
      → object (api.put_object b n v w).1 m ≡ object w m
  pub found :
      (b : Bucket) (n : String) (w w' : W) (body : Body)
      → (api.bucket bucket w').0 ≡ ok b
      → (api.get_object b n w).0 ≡ ok body
      → object w n ≡ some (contents body)
  pub reads :
      (body : Body) (v : String) (w : W) → (api.read_all body w).0 ≡ ok v → contents body ≡ v
  pub no_key :
      (b : Bucket) (n m : String) (w w' : W)
      → (api.bucket bucket w').0 ≡ ok b
      → (api.get_object b n w).0 ≡ err (service_error 404 "NoSuchKey" m)
      → object w n ≡ none
  pub get_keeps :
      (b : Bucket) (n m : String) (w : W) → object (api.get_object b n w).1 m ≡ object w m
  pub read_keeps :
      (body : Body) (m : String) (w : W) → object (api.read_all body w).1 m ≡ object w m
  pub close_keeps : (body : Body) (m : String) (w : W) → object (api.close body w) m ≡ object w m

object_name_inj :
    (prefix key j : String)
    → object_name_with_prefix prefix key ≡ object_name_with_prefix prefix j
    → key ≡ j
unfolding object_name_with_prefix
object_name_inj prefix key j e = rw (append-nil, append-nil) at (append_cancel_left prefix _ _ e)

module _ {W Bucket Body : Type 0} (api : Api W Bucket Body) (o : OssStorage)
    (object : W → String → Option String) (contents : Body → String)
    (laws : ApiLaws api o.bucket object contents) where
  abbrev view : W → String → Option String
  view w key = object w (object_name_with_prefix o.prefix key)

  -- The part of `get` behind the bucket's handle.
  abbrev fetch : String → Bucket → Exec W Error String
  fetch n b = do body ← map_err (get_error n) (api.get_object b n); read api o n body

  fetch_got :
      (b : Bucket) (n v : String) (w w' : W)
      → (api.bucket o.bucket w').0 ≡ ok b
      → (fetch n b w).0 ≡ ok v
      → object w n ≡ some v
  unfolding read ◌>>=◌
  fetch_got b n v w w' has h =
      let (body, found, done) = continue-eq-ok _ _ _ h in
      laws.found b n w w' body has (wrapped-eq-ok _ _ found)
      ∙ ap some (laws.reads body v _ (wrapped-eq-ok _ _ done))

  fetch_missing :
      (b : Bucket) (n m : String) (w w' : W)
      → (api.bucket o.bucket w').0 ≡ ok b
      → (r : Result OssError Body) → (api.get_object b n w).0 ≡ r
      → (continue (wrapped (get_error n) r) (read api o n) (api.get_object b n w).1).0
        ≡ err (not_found m)
      → object w n ≡ none
  unfolding read get_error ◌>>=◌
  fetch_missing b n m w w' has (ok body) e h = ground arith
  fetch_missing b n m w w' has (err (other t)) e h = cc
  fetch_missing b n m w w' has (err (service_error status code t)) e h =
      ground (arith, eq_iff code "NoSuchKey", laws.no_key b n t w w' has)
  fetch_missing b n m w w' has (panic x) e h = cc

  bucket_missing :
      (n m : String) (w : W) (r : Result String Bucket)
      → (api.bucket o.bucket w).0 ≡ r
      → (continue (wrapped plain r) (fetch n) (api.bucket o.bucket w).1).0 ≡ err (not_found m)
      → object w n ≡ none
  unfolding ◌>>=◌
  bucket_missing n m w (ok b) has h =
      sym (laws.bucket_keeps n w) ∙ fetch_missing b n m _ w has _ refl h
  bucket_missing n m w (err t) has h = cc
  bucket_missing n m w (panic t) has h = cc

  got : (key v : String) (w : W) → (get api o key w).0 ≡ ok v → view w key ≡ some v
  unfolding get ◌>>=◌
  got key v w h =
      let (b, has, rest) = continue-eq-ok _ _ _ h in
      sym (laws.bucket_keeps _ w) ∙ fetch_got b _ v _ w (wrapped-eq-ok _ _ has) rest

  missing : (key m : String) (w : W) → (get api o key w).0 ≡ err (not_found m) → view w key ≡ none
  unfolding get ◌>>=◌
  missing key m w h = bucket_missing _ m w _ refl h

  stored :
      (key v : String) (w : W)
      → (set api o key v w).0 ≡ ok tt
      → view (set api o key v w).1 key ≡ some v
  unfolding set ◌>>=◌
  stored key v w h = grind (arith, laws.put_ok)

  -- Under the documented behaviour of the bucket's API, the store keeps the contract of a key store
  -- for the objects under its prefix.
  pub oss_service-Faithful : Faithful (service api o) view
  unfolding service get set ◌>>=◌
  oss_service-Faithful = record {
    got = got;
    missing = missing;
    get_keeps = λ key j w.
        grind (arith, laws.bucket_keeps, laws.get_keeps, laws.read_keeps, laws.close_keeps);
    stored = stored;
    set_keeps = λ key v j w n. grind (
      arith,
      laws.bucket_keeps,
      λ (b : Bucket) (w' : W).
          laws.put_keeps b (object_name_with_prefix o.prefix key) v
            (object_name_with_prefix o.prefix j) w' (λ e. n (object_name_inj o.prefix key j e)),
    );
    test_keeps = λ key j w. refl;
  }

module _ {W Bucket Body : Type 0}
    (make_client : String → String → String → Exec W String (Api W Bucket Body))
    (endpoint id secret bucket prefix : String) (object : W → String → Option String)
    (contents : Body → String)
    (laws : (api : Api W Bucket Body) (w : W)
      → (make_client endpoint id secret w).0 ≡ ok api
      → ApiLaws api bucket object contents) where
  -- What New returns keeps the contract.
  pub oss_new-Faithful :
      (w : W) (s : Service W)
      → (new make_client endpoint id secret bucket prefix w).0 ≡ ok s
      → Faithful s (λ w k. object w (object_name_with_prefix prefix k))
  unfolding new
  oss_new-Faithful w s h =
      let (api, from, same) = made_of _ _ _ w h in
      Faithful-same same (oss_service-Faithful api _ object contents (laws api w from))
