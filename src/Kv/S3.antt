-- ===== src/Kv/S3.antt =====
-- pkg/kv/s3/s3.go: the objects of an AWS S3 bucket, under a prefix. The AWS SDK is a parameter.
pub mod Contract
use bank_vaults.Prelude.{
  String, [], ◌∷◌, Exec, pure, fail, map_err, ◌>>=◌, ◌>>◌, concat, ◌==◌, if◌then◌else◌,
}
use bank_vaults.Kv.{Service, Error, not_found, plain}

-- An error of the SDK: an `awserr.Error` with its code and text, or any other.
pub data AwsError : Type 0 where
  coded : String → String → AwsError
  other : String → AwsError

abbrev pub text : AwsError → String
text (coded code m) = m
text (other m) = m

-- PutObject and GetObject of a bucket and a key, and the body of an object that was found.
pub record Api (W Body : Type 0) : Type 0 where
  pub put_object : String → String → String → Exec W AwsError (Unit {0})
  pub get_object : String → String → Exec W AwsError Body
  pub read_all : Body → Exec W String String
  pub close : Body → W → W

pub record S3Storage : Type 0 where
  pub bucket : String
  pub prefix : String

pub object_name_with_prefix : String → String → String
object_name_with_prefix prefix key = concat (prefix ∷ key ∷ [])

-- awss3.ErrCodeNoSuchKey
abbrev no_such_key : String
no_such_key = "NoSuchKey"

get_error : String → AwsError → Error
get_error n (coded code m) =
    let texts = concat ("error getting object for key '" ∷ n ∷ "': " ∷ m ∷ []) in
    if code == no_such_key then not_found texts else plain texts
get_error n (other m) = plain (concat ("error getting object for key '" ∷ n ∷ "': " ∷ m ∷ []))

module _ {W Body : Type 0} (api : Api W Body) (s3 : S3Storage) where
  pub set : String → String → Exec W Error (Unit {0})
  set key val =
      let n = object_name_with_prefix s3.prefix key in
      map_err
        (λ e. plain (
          concat (
            "error writing key '"
            ∷ n
            ∷ "' to s3 bucket '"
            ∷ s3.bucket
            ∷ "': '"
            ∷ text e
            ∷ "'"
            ∷ [])))
        (api.put_object s3.bucket n val)

  -- ioutil.ReadAll and the deferred Close
  read : String → Body → Exec W Error String
  read n body w =
      let (r, w') =
        map_err (λ e. plain (concat ("error reading object with key '" ∷ n ∷ "': " ∷ e ∷ [])))
          (api.read_all body) w in
      (r, api.close body w')

  pub get : String → Exec W Error String
  unfolding get_error read
  get key =
      let n = object_name_with_prefix s3.prefix key in
      do body ← map_err (get_error n) (api.get_object s3.bucket n); read n body

  pub service : Service W
  service = record { set = set; get = get; test = λ key. pure tt }

module _ {W Body : Type 0} (make_client : String → Api W Body) where
  -- `session.Must` panics where no session can be made; the client stands for a session that was.
  unfoldable pub new : String → String → String → Exec W Error (Service W)
  unfolding service
  new region bucket prefix =
      if region == ""
      then fail (plain "region must be specified")
      else if bucket == ""
      then fail (plain "bucket must be specified")
      else pure (service (make_client region) (record { bucket = bucket; prefix = prefix }))
