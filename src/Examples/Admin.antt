-- ===== src/Examples/Admin.antt =====
-- Runs of the client of Garage's admin API.
use garage_storage_controlle.Prelude.{
  String, ◌++◌, ◌≡◌, refl, sym, ap, true, false, none, [], pos, str_eq, arith, if◌then◌else◌,
}
use garage_storage_controlle.Errors.{
  Err, plain, is, wrap_both, sentinel, resource_not_found, multiple_matches,
}
use garage_storage_controlle.Exec.{ok, err, Exec}
use garage_storage_controlle.S3
use garage_storage_controlle.Bucket.Types.{wanted_quotas, compare_spec}
use garage_storage_controlle.Garage.Types.{BucketResponse, quotas_from_s3}
use garage_storage_controlle.Garage.Http.{
  AdminApiHttpClient, Transport, Request, Response, bucket_key, do_request, send, record_result,
}
use garage_storage_controlle.Garage.Buckets.{to_bucket}
use garage_storage_controlle.Garage.Permissions.{set_permissions, allow_bucket_key, deny_bucket_key}
use garage_storage_controlle.Garage.Grant.{union, minus, PermissionLaws, set_permissions_exact}
use garage_storage_controlle.Garage.Answers.{compare_spec_settles}
use garage_storage_controlle.Examples.Fixtures.{lib, photos}

-- A server whose state is the permissions of one key on one bucket.
abbrev pub answer : Request → Exec S3.Permissions Response
answer req p = elim req.body [
  | bucket_key b ↦
      let asked : S3.Permissions = record {
        owner = b.permissions.owner;
        read = b.permissions.read;
        write = b.permissions.write;
      } in
      (
        ok (record { status_code = 200; body = "" }),
        if str_eq req.url "http://garage/v2/AllowBucketKey" then union p asked else minus p asked,
      )
  | _ ↦ (ok (record { status_code = 400; body = "" }), p)
]

abbrev unreadable : Err
unreadable = plain "unexpected end of JSON input"

abbrev pub transport : Transport S3.Permissions
transport = record {
  round_trip = answer;
  join_path = λ base path. ok (base ++ path);
  parse_url = λ u. ok u;
  decode_bucket = λ _. err unreadable;
  decode_access_key = λ _. err unreadable;
  decode_error = λ _. err unreadable;
  decode_token = λ _. err unreadable;
  now = λ w. (pos 0, w);
  since = λ _ w. (pos 0, w);
  decimal = λ _. "400";
  quote = λ t. "\"" ++ (t ++ "\"");
}

abbrev pub admin : AdminApiHttpClient S3.Permissions
admin = record { http = transport; token = "t"; base_url = "http://garage"; metrics = none }

pub admin_laws : PermissionLaws admin "GK1" "b1"
unfolding do_request send record_result
admin_laws = record {
  permissions = λ w. w;
  allow_grants = λ p w w' resp h s. sym (ap (λ x. x.1) h);
  deny_revokes = λ p w w' resp h s. sym (ap (λ x. x.1) h);
}

abbrev pub owner_only : S3.Permissions
owner_only = record { owner = true; read = false; write = false }

abbrev read_write : S3.Permissions
read_write = record { owner = false; read = true; write = true }

set_permissions_exact_example :
    (set_permissions admin "GK1" "b1" read_write owner_only).1 ≡ read_write
unfolding set_permissions allow_bucket_key deny_bucket_key do_request send record_result admin_laws
set_permissions_exact_example =
    set_permissions_exact admin_laws read_write owner_only read_write refl

abbrev ambiguous : Response
ambiguous = record { status_code = 400; body = "" }

never_not_found :
    (body : String) (e : Err)
    → transport.decode_error body ≡ err e
    → is e resource_not_found ≡ false
unfolding is
never_not_found body e h = ground arith

abbrev two_keys : Err
two_keys =
    wrap_both (sentinel multiple_matches) ": search \"team-reader\": unreadable error body: "
      unreadable

abbrev photos_response : BucketResponse
photos_response = record {
  id = "b1";
  global_aliases = [];
  quotas = record { max_objects = none; max_size = none };
}

compare_spec_settles_example :
    compare_spec lib
      (to_bucket
        (record photos_response { quotas = quotas_from_s3 (wanted_quotas lib photos.spec) }))
      photos.spec
    ≡ false
compare_spec_settles_example = compare_spec_settles lib photos.spec photos_response
