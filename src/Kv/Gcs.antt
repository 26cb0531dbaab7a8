-- ===== src/Kv/Gcs.antt =====
-- pkg/kv/gcs/gcs.go: the objects of a Google Cloud Storage bucket, under a prefix. The client library
-- is a parameter.
pub mod Contract
use bank_vaults.Prelude.{String, [], ◌∷◌, Exec, pure, map_err, ◌>>=◌, ◌>>◌, concat}
use bank_vaults.Kv.{Service, Error, not_found, plain}

-- An error of NewReader: storage.ErrObjectNotExist, or any other; both carry their text.
pub data GcsError : Type 0 where
  object_not_exist other : String → GcsError

-- The reader and the writer of an object, by the bucket's and the object's name.
pub record Api (W Reader Writer : Type 0) : Type 0 where
  pub new_writer : String → String → Writer
  pub write : Writer → String → Exec W String (Unit {0})
  pub close_writer : Writer → Exec W String (Unit {0})
  pub new_reader : String → String → Exec W GcsError Reader
  pub read_all : Reader → Exec W String String
  pub close_reader : Reader → W → W

pub record GcsStorage : Type 0 where
  pub bucket : String
  pub prefix : String

pub object_name_with_prefix : String → String → String
object_name_with_prefix prefix key = concat (prefix ∷ key ∷ [])

get_error : String → GcsError → Error
get_error n (object_not_exist m) =
    not_found (concat ("error getting object for key '" ∷ n ∷ "': " ∷ m ∷ []))
get_error n (other m) = plain (concat ("error getting object for key '" ∷ n ∷ "': " ∷ m ∷ []))

module _ {W Reader Writer : Type 0} (api : Api W Reader Writer) (g : GcsStorage) where
  pub set : String → String → Exec W Error (Unit {0})
  set key val =
      let n = object_name_with_prefix g.prefix key in
      let w = api.new_writer g.bucket n in
      do
        map_err
            (λ e.
              plain
                (concat ("error writing key '" ∷ n ∷ "' to gcs bucket '" ∷ g.bucket ∷ "'" ∷ [])))
            (api.write w val)
        map_err plain (api.close_writer w)

  -- ioutil.ReadAll and the deferred Close
  read : String → Reader → Exec W Error String
  read n r w =
      let (b, w') =
        map_err (λ e. plain (concat ("error reading object with key '" ∷ n ∷ "': " ∷ e ∷ [])))
          (api.read_all r) w in
      (b, api.close_reader r w')

  pub get : String → Exec W Error String
  unfolding get_error read
  get key =
      let n = object_name_with_prefix g.prefix key in
      do r ← map_err (get_error n) (api.new_reader g.bucket n); read n r

  pub service : Service W
  service = record { set = set; get = get; test = λ key. pure tt }

module _ {W Reader Writer : Type 0} (new_client : Exec W String (Api W Reader Writer)) where
  unfoldable pub new : String → String → Exec W Error (Service W)
  unfolding service
  new bucket prefix = do
    cl ← map_err (λ e. plain (concat ("error creating gcs client: " ∷ e ∷ []))) new_client
    pure (service cl (record { bucket = bucket; prefix = prefix }))
