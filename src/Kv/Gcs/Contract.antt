-- ===== src/Kv/Gcs/Contract.antt =====
-- pkg/kv/gcs/gcs.go and the contract of a key store: what is asked of the remote service,
-- and the proof.
use text.Mathlib.TextLemmas.{append_cancel_left, append-nil}
use bank_vaults.Prelude.{
  String, Exec, made_of, wrapped, wrapped-eq-ok, continue-eq-ok, ◌∙◌, true, Option, none, some,
  Result, is_ok, ok, err, panic, map_err, ◌>>=◌, continue, ◌≡◌, ◌≢◌, refl, arith, ap,
}
use bank_vaults.Kv.{Service, not_found}
use bank_vaults.Kv.Spec.{Faithful, Faithful-same}
use bank_vaults.Kv.Gcs.{
  GcsError, object_not_exist, other, Api, GcsStorage, object_name_with_prefix, set, get_error, get,
  read, service, new,
}

-- What Cloud Storage documents: `object w n` is the object of the bucket with the name `n`, and `contents` what the body
-- of a found object reads as. A call that fails
-- may or may not have taken effect.
pub record ApiLaws {W Reader Writer : Type 0} (api : Api W Reader Writer) (bucket : String)
    (object : W → String → Option String) (contents : Reader → String) : Type 0 where
  pub write_keeps :
      (wr : Writer) (v m : String) (w : W) → object (api.write wr v w).1 m ≡ object w m
  pub close_ok :
      (n v : String) (w : W)
      → is_ok (api.write (api.new_writer bucket n) v w).0 ≡ true
      → is_ok
          (api.close_writer (api.new_writer bucket n) (api.write (api.new_writer bucket n) v w).1).0
        ≡ true
      → object
          (api.close_writer (api.new_writer bucket n) (api.write (api.new_writer bucket n) v w).1).1
          n
        ≡ some v
  pub close_others :
      (n m : String) (w : W)
      → n ≢ m
      → object (api.close_writer (api.new_writer bucket n) w).1 m ≡ object w m
  pub found :
      (n : String) (w : W) (body : Reader)
      → (api.new_reader bucket n w).0 ≡ ok body
      → object w n ≡ some (contents body)
  pub reads :
      (body : Reader) (v : String) (w : W) → (api.read_all body w).0 ≡ ok v → contents body ≡ v
  pub no_object :
      (n m : String) (w : W)
      → (api.new_reader bucket n w).0 ≡ err (object_not_exist m)
      → object w n ≡ none
  pub get_keeps : (n m : String) (w : W) → object (api.new_reader bucket n w).1 m ≡ object w m
  pub read_keeps :
      (body : Reader) (m : String) (w : W) → object (api.read_all body w).1 m ≡ object w m
  pub close_keeps :
      (body : Reader) (m : String) (w : W) → object (api.close_reader body w) m ≡ object w m

object_name_inj :
    (prefix key j : String)
    → object_name_with_prefix prefix key ≡ object_name_with_prefix prefix j
    → key ≡ j
unfolding object_name_with_prefix
object_name_inj prefix key j e = rw (append-nil, append-nil) at (append_cancel_left prefix _ _ e)

module _ {W Reader Writer : Type 0} (api : Api W Reader Writer) (g : GcsStorage)
    (object : W → String → Option String) (contents : Reader → String)
    (laws : ApiLaws api g.bucket object contents) where
  abbrev view : W → String → Option String
  view w key = object w (object_name_with_prefix g.prefix key)

  read_got :
      (n v : String) (w : W)
      → ((do body ← map_err (get_error n) (api.new_reader g.bucket n); read api g n body) w).0
        ≡ ok v
      → object w n ≡ some v
  unfolding read ◌>>=◌
  read_got n v w h =
      let (body, found, done) = continue-eq-ok _ _ _ h in
      laws.found n w body (wrapped-eq-ok _ _ found)
      ∙ ap some (laws.reads body v _ (wrapped-eq-ok _ _ done))

  read_missing :
      (n m : String) (w : W) (r : Result GcsError Reader)
      → (api.new_reader g.bucket n w).0 ≡ r
      → (continue (wrapped (get_error n) r) (read api g n) (api.new_reader g.bucket n w).1).0
        ≡ err (not_found m)
      → object w n ≡ none
  unfolding read get_error ◌>>=◌
  read_missing n m w (ok body) e h = ground arith
  read_missing n m w (err (other t)) e h = cc
  read_missing n m w (err (object_not_exist t)) e h = laws.no_object n t w e
  read_missing n m w (panic x) e h = cc

  -- Under the documented behaviour of the bucket's API, the store keeps the contract of a key store
  -- for the objects under its prefix.
  pub gcs_service-Faithful : Faithful (service api g) view
  unfolding service get set ◌>>=◌
  gcs_service-Faithful = record {
    got = λ key v w h. read_got _ v w h;
    missing = λ key m w h. read_missing _ m w _ refl h;
    get_keeps = λ key j w. grind (arith, laws.get_keeps, laws.read_keeps, laws.close_keeps);
    stored = λ key v w h. ground (arith, laws.close_ok (object_name_with_prefix g.prefix key) v w);
    set_keeps = λ key v j w n. grind (
      arith,
      laws.write_keeps,
      laws.close_others _ (object_name_with_prefix g.prefix j)
          (api.write (api.new_writer g.bucket (object_name_with_prefix g.prefix key)) v w).1
          (λ e. n (object_name_inj g.prefix key j e)),
    );
    test_keeps = λ key j w. refl;
  }

module _ {W Reader Writer : Type 0} (new_client : Exec W String (Api W Reader Writer))
    (bucket prefix : String) (object : W → String → Option String) (contents : Reader → String)
    (laws : (api : Api W Reader Writer) (w : W)
      → (new_client w).0 ≡ ok api
      → ApiLaws api bucket object contents) where
  -- What New returns keeps the contract.
  pub gcs_new-Faithful :
      (w : W) (s : Service W)
      → (new new_client bucket prefix w).0 ≡ ok s
      → Faithful s (λ w k. object w (object_name_with_prefix prefix k))
  unfolding new
  gcs_new-Faithful w s h =
      let (api, from, same) = made_of _ _ _ w h in
      Faithful-same same (gcs_service-Faithful api _ object contents (laws api w from))
