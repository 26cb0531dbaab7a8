-- ===== src/Kv/Oss.antt =====
-- pkg/kv/alibabaoss/oss.go: the objects of an Alibaba OSS bucket, under a prefix. The SDK is a
-- parameter.
pub mod Contract
use bank_vaults.Prelude.{
  String, [], ◌∷◌, Exec, pure, map_err, ◌>>=◌, ◌>>◌, concat, ◌==◌, if◌then◌else◌, ℕ, leb, ◌&&◌,
}
use bank_vaults.Kv.{Service, Error, not_found, plain}

-- An error of the SDK: a `ServiceError` with its status code, its code and its text, or any other.
pub data OssError : Type 0 where
  service_error : ℕ → String → String → OssError
  other : String → OssError

pub record Api (W Bucket Body : Type 0) : Type 0 where
  pub bucket : String → Exec W String Bucket
  pub put_object : Bucket → String → String → Exec W String (Unit {0})
  pub get_object : Bucket → String → Exec W OssError Body
  pub read_all : Body → Exec W String String
  pub close : Body → W → W

pub record OssStorage : Type 0 where
  pub bucket : String
  pub prefix : String

pub object_name_with_prefix : String → String → String
object_name_with_prefix prefix key = concat (prefix ∷ key ∷ [])

get_error : String → OssError → Error
get_error n (service_error status code m) =
    let texts = concat ("error getting object for key '" ∷ n ∷ "': " ∷ m ∷ []) in
    if (leb status 404 && leb 404 status) && code == "NoSuchKey"
    then not_found texts
    else plain texts
get_error n (other m) = plain (concat ("error getting object for key '" ∷ n ∷ "': " ∷ m ∷ []))

module _ {W Bucket Body : Type 0} (api : Api W Bucket Body) (o : OssStorage) where
  pub set : String → String → Exec W Error (Unit {0})
  set key val =
      let object_key = object_name_with_prefix o.prefix key in
      do
        bucket ← map_err plain (api.bucket o.bucket)
        map_err
            (λ e. plain (
              concat (
                "error writing key '" ∷ object_key ∷ "' to OSS bucket '" ∷ o.bucket ∷ "': '" ∷ e
                ∷ "'" ∷ [])))
            (api.put_object bucket object_key val)

  -- ioutil.ReadAll and the deferred Close
  read : String → Body → Exec W Error String
  read object_key body w =
      let (r, w') =
        map_err
          (λ e. plain (concat ("error reading object with key '" ∷ object_key ∷ "': " ∷ e ∷ [])))
          (api.read_all body) w in
      (r, api.close body w')

  pub get : String → Exec W Error String
  unfolding get_error read
  get key =
      let object_key = object_name_with_prefix o.prefix key in
      do
        bucket ← map_err plain (api.bucket o.bucket)
        body ← map_err (get_error object_key) (api.get_object bucket object_key)
        read object_key body

  pub service : Service W
  service = record { set = set; get = get; test = λ key. pure tt }

module _ {W Bucket Body : Type 0}
    (make_client : String → String → String → Exec W String (Api W Bucket Body)) where
  unfoldable pub new : String → String → String → String → String → Exec W Error (Service W)
  unfolding service
  new endpoint access_key_id access_key_secret bucket prefix = do
    client ← map_err plain (make_client endpoint access_key_id access_key_secret)
    pure (service client (record { bucket = bucket; prefix = prefix }))
