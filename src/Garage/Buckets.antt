-- ===== src/Garage/Buckets.antt =====
-- BucketClient of internal/garage/client.go
use garage_storage_controlle.Prelude.{String, ◌++◌, [], ◌∷◌, ◌==◌, if◌then◌else◌}
use garage_storage_controlle.Errors.{Err, plain, sentinel, wrap, resource_not_found, bucket_exists}
use garage_storage_controlle.Exec.{Exec, pure, fail, ◌>>=◌, returned, failed, attempt}
use garage_storage_controlle.S3
use garage_storage_controlle.Bucket.Types.{BucketClient}
use garage_storage_controlle.Garage.Types.{BucketResponse, quotas_from_s3, quotas_to_s3}
use garage_storage_controlle.Garage.Http.{
  AdminApiHttpClient, Response, method_get, method_post, no_body, create_bucket, update_bucket,
  lift, or_wrap, do_request,
}

unfoldable pub to_bucket : BucketResponse → S3.Bucket
to_bucket result = record {
  id = result.id;
  global_aliases = result.global_aliases;
  quotas = quotas_to_s3 result.quotas;
}

module _ {S : Type 0} (c : AdminApiHttpClient S) where
  abbrev unexpected : Response → Err
  unexpected resp = plain ("unexpected status code " ++ c.http.decimal resp.status_code)

  -- On a conflict the code wraps `err`, which is nil there: fmt prints "%!w(<nil>)" for it.
  unfoldable pub create : String → Exec S S3.Bucket
  unfolding to_bucket
  create global_alias = do
    resp ← do_request c method_post "/v2/CreateBucket" [] (create_bucket global_alias)
    if resp.status_code == 200
        then (do result ← lift (c.http.decode_bucket resp.body); pure (to_bucket result))
        else if resp.status_code == 409
        then fail (wrap "" (sentinel bucket_exists) ": %!w(<nil>)")
        else fail (unexpected resp)

  unfoldable pub get_bucket_response : String → Exec S BucketResponse
  get_bucket_response global_alias = do
    got ←
        attempt
          (do_request c method_get "/v2/GetBucketInfo" (("globalAlias", global_alias) ∷ []) no_body)
    elim got [
      | failed e ↦ fail (wrap ("retrieve bucket '" ++ (global_alias ++ "': ")) e "")
      | returned resp ↦
          if resp.status_code == 200
          then or_wrap "reading /v2/GetBucketInfo response: " (c.http.decode_bucket resp.body)
          else if resp.status_code == 404
          then fail (wrap "" (sentinel resource_not_found) (": with alias " ++ global_alias))
          else fail (unexpected resp)
    ]

  unfoldable pub get : String → Exec S S3.Bucket
  unfolding get_bucket_response to_bucket
  get global_alias = do result ← get_bucket_response global_alias; pure (to_bucket result)

  unfoldable pub update : String → S3.Quotas → Exec S (Unit {0})
  update id quotas = do
    got ← attempt (
        do_request c method_post "/v2/UpdateBucket" (("id", id) ∷ [])
          (update_bucket (record { quotas = quotas_from_s3 quotas })))
    elim got [
      | failed e ↦ fail (wrap "update bucket request: " e "")
      | returned resp ↦
          if resp.status_code == 200
          then pure tt
          else if resp.status_code == 404
          then fail
              (wrap "update bucket: " (sentinel resource_not_found) (" for id '" ++ (id ++ "'")))
          else fail (
              plain (
                "update bucket: unexpected status code "
                ++ (c.http.decimal resp.status_code ++ (": " ++ resp.body))))
    ]

  -- BucketClient as the interface of the reconciler
  abbrev pub bucket_client : BucketClient S
  bucket_client = record { create = create; get = get; update = update }
