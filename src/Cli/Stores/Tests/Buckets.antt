-- ===== src/Cli/Stores/Tests/Buckets.antt =====
-- Remote services in memory behind the backends of pkg/kv: the buckets of S3, Cloud Storage and OSS.
use bank_vaults.Prelude.{
  String, Option, none, some, Result, ok, err, Dict, lookup, insert, lookup-insert, eq_iff, eq_refl,
  ◌≡◌, ◌≢◌, refl, arith,
}
use bank_vaults.Kv.K8s.{Secret}
use bank_vaults.Kv.S3
use bank_vaults.Kv.S3.Contract as S3Contract
use bank_vaults.Kv.Gcs
use bank_vaults.Kv.Gcs.Contract as GcsContract
use bank_vaults.Kv.Oss
use bank_vaults.Kv.Oss.Contract as OssContract

-- One bucket with the text that an open writer has been given, one key vault, and the Secrets by
-- namespace and name.
pub record Cloud : Type 0 where
  pub objects : Dict String
  pub written : String
  pub vault : Dict String
  pub secrets : String → String → Option Secret

-- What is there, or an error.
abbrev pub found_or : {E A : Type 0} → E → Option A → Result E A
found_or e none = err e
found_or e (some a) = ok a

abbrev pub bucket_has : Cloud → String → Option String
bucket_has w n = lookup n w.objects

pub lookup_inserted : (n v : String) (d : Dict String) → lookup n (insert n v d) ≡ some v
lookup_inserted n v d = grind (arith, lookup-insert n n v d, eq_refl n)

pub lookup_other : (n v m : String) (d : Dict String) → n ≢ m → lookup m (insert n v d) ≡ lookup m d
lookup_other n v m d h = grind (arith, lookup-insert n m v d, eq_iff n m)

abbrev pub with_object : String → String → Cloud → Cloud
with_object n v w = record w { objects = insert n v w.objects }

abbrev pub s3_api : S3.Api Cloud String
s3_api = record {
  put_object = λ b n v w. (ok tt, with_object n v w);
  get_object = λ b n w. (found_or (S3.coded "NoSuchKey" "missing") (lookup n w.objects), w);
  read_all = λ body w. (ok body, w);
  close = λ body w. w;
}

pub s3_laws : S3Contract.ApiLaws s3_api "unseal" bucket_has (λ body. body)
s3_laws = record {
  put_ok = λ n v w h. lookup_inserted n v w.objects;
  put_keeps = λ n v m w h. lookup_other n v m w.objects h;
  found = λ n w body h. grind arith;
  reads = λ body v w h. grind arith;
  no_key = λ n m w h. grind arith;
  get_keeps = λ n m w. ground arith;
  read_keeps = λ body m w. refl;
  close_keeps = λ body m w. refl;
}

abbrev pub gcs_api : Gcs.Api Cloud String String
gcs_api = record {
  new_writer = λ bucket n. n;
  write = λ wr v w. (ok tt, record w { written = v });
  close_writer = λ wr w. (ok tt, with_object wr w.written w);
  new_reader = λ bucket n w. (found_or (Gcs.object_not_exist "missing") (lookup n w.objects), w);
  read_all = λ r w. (ok r, w);
  close_reader = λ r w. w;
}

pub gcs_laws : GcsContract.ApiLaws gcs_api "unseal" bucket_has (λ r. r)
gcs_laws = record {
  write_keeps = λ wr v m w. refl;
  close_ok = λ n v w h k. lookup_inserted n v w.objects;
  close_others = λ n m w h. lookup_other n w.written m w.objects h;
  found = λ n w body h. grind arith;
  reads = λ body v w h. grind arith;
  no_object = λ n m w h. grind arith;
  get_keeps = λ n m w. ground arith;
  read_keeps = λ body m w. refl;
  close_keeps = λ body m w. refl;
}

abbrev pub oss_api : Oss.Api Cloud (Unit {0}) String
oss_api = record {
  bucket = λ name w. (ok tt, w);
  put_object = λ b n v w. (ok tt, with_object n v w);
  get_object =
      λ b n w. (found_or (Oss.service_error 404 "NoSuchKey" "missing") (lookup n w.objects), w);
  read_all = λ body w. (ok body, w);
  close = λ body w. w;
}

pub oss_laws : OssContract.ApiLaws oss_api "unseal" bucket_has (λ body. body)
oss_laws = record {
  bucket_keeps = λ m w. refl;
  put_ok = λ b n v w w' h k. lookup_inserted n v w.objects;
  put_keeps = λ b n v m w h. lookup_other n v m w.objects h;
  found = λ b n w w' body h k. grind arith;
  reads = λ body v w h. grind arith;
  no_key = λ b n m w w' h k. grind arith;
  get_keeps = λ b n m w. ground arith;
  read_keeps = λ body m w. refl;
  close_keeps = λ body m w. refl;
}
