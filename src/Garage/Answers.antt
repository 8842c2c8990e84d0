-- ===== src/Garage/Answers.antt =====
-- What the answers of Garage become: errors by the status of a response, and quotas.
use garage_storage_controlle.Prelude.{
  String, ◌≡◌, refl, Bool, false, not, ◌&&◌, ◌||◌, ◌==◌, ℤ, pos, negsuc, ltb_ℤ, eqb_ℤ, str_eq,
  nonempty, arith,
}
use garage_storage_controlle.Errors.{Err, is, resource_not_found, multiple_matches}
use garage_storage_controlle.Exec.{Result, ok, err, panic}
use garage_storage_controlle.Api.{BucketSpec}
use garage_storage_controlle.Kube.{Libraries}
use garage_storage_controlle.Bucket.Types.{wanted_quotas, compare_spec}
use garage_storage_controlle.Garage.Types.{
  BucketResponse, ErrorResponse, limit, limit_value, quotas_from_s3, quotas_to_s3,
}
use garage_storage_controlle.Garage.Http.{AdminApiHttpClient, Response}
use garage_storage_controlle.Garage.Keys.{read_key}
use garage_storage_controlle.Garage.Buckets.{to_bucket}

module _ {S : Type 0} (c : AdminApiHttpClient S) where
  read_key_classes_of :
      (id search : String) (resp : Response) (e : Err) (d : Result ErrorResponse)
      → c.http.decode_error resp.body ≡ d
      → ((body : String) (e : Err)
          → c.http.decode_error body ≡ err e
          → is e resource_not_found ≡ false)
      → (resp.status_code == 200) ≡ false
      → read_key c id search resp ≡ err e
      → (is e resource_not_found ≡ (resp.status_code == 404))
        × (is e multiple_matches ≡ (resp.status_code == 400 && (nonempty search && str_eq id "")))
  unfolding read_key is
  read_key_classes_of id search resp e (ok x) decoded json other h = (ground arith, ground arith)
  read_key_classes_of id search resp e (err e') decoded json other h =
      (ground (arith, json resp.body e' decoded), ground arith)
  read_key_classes_of id search resp e panic decoded json other h = (ground arith, ground arith)

  -- Of an answer to GetKeyInfo that is not a success, `errors.Is` finds ErrResourceNotFound in the
  -- error exactly if the status is 404, and ErrMultipleMatches exactly if a search without an
  -- identifier was answered by 400. The hypothesis is that an error of the JSON decoder is not
  -- ErrResourceNotFound.
  pub read_key_classes :
      (id search : String) (resp : Response) (e : Err)
      → ((body : String) (e : Err)
          → c.http.decode_error body ≡ err e
          → is e resource_not_found ≡ false)
      → (resp.status_code == 200) ≡ false
      → read_key c id search resp ≡ err e
      → (is e resource_not_found ≡ (resp.status_code == 404))
        × (is e multiple_matches ≡ (resp.status_code == 400 && (nonempty search && str_eq id "")))
  read_key_classes id search resp e json other h =
      read_key_classes_of id search resp e _ refl json other h

abbrev is_negative : ℤ → Bool
is_negative n = ltb_ℤ n (pos 0)

limit_value-limit : (n : ℤ) → eqb_ℤ (limit_value (limit n)) n ≡ not (is_negative n)
limit_value-limit (pos n) = ground arith
limit_value-limit (negsuc n) = ground arith

-- A bucket that has the quotas that were sent for a spec differs from this spec exactly if the spec
-- has a negative limit: with no negative limit, a reconciliation after an update updates nothing.
pub compare_spec_settles :
    (lib : Libraries) (spec : BucketSpec) (b : BucketResponse)
    → compare_spec lib
        (to_bucket (record b { quotas = quotas_from_s3 (wanted_quotas lib spec) }))
        spec
      ≡ (is_negative spec.max_objects || is_negative (lib.quantity_value spec.max_size))
unfolding compare_spec to_bucket quotas_from_s3 quotas_to_s3
compare_spec_settles lib spec b = ground (
  arith,
  limit_value-limit spec.max_objects,
  limit_value-limit (lib.quantity_value spec.max_size),
)
