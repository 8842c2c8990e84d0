-- ===== src/Examples/Server.antt =====
-- Runs against a server that keeps the permissions of one key on one bucket and answers what they
-- are.
use garage_storage_controlle.Prelude.{
  String, ◌++◌, ◌≡◌, ◌∙◌, refl, sym, ap, Bool, true, false, ◌||◌, ◌⊎◌, none, List, [], ◌∷◌, pos,
  str_eq, arith, if◌then◌else◌,
}
use garage_storage_controlle.Errors.{Err, plain}
use garage_storage_controlle.Exec.{ok, err, Exec, Run, no_requeue}
use garage_storage_controlle.S3
use garage_storage_controlle.Api.{Bucket, ExistingBucketSpec}
use garage_storage_controlle.S3.{no_permissions}
use garage_storage_controlle.Bucket.Types.{BucketReconciler, new_bucket_reconciler}
use garage_storage_controlle.Bucket.Resolve.{resolve_existing_bucket}
use garage_storage_controlle.Bucket.Verified.{resolve_existing_bucket_verified}
use garage_storage_controlle.Policy.Types.{
  AccessPolicyReconciler, new_access_policy_reconciler, label_value,
}
use garage_storage_controlle.Policy.Reconciler.{finalize}
use garage_storage_controlle.Policy.Revoked.{IsGone, finalize_revokes}
use garage_storage_controlle.Examples.Fixtures.{
  lib, client_over, photos, credentials, granted_policy,
}
use garage_storage_controlle.Garage.Types.{AccessKeyResponse}
use garage_storage_controlle.Garage.Http.{
  AdminApiHttpClient, Request, Response, no_body, bucket_key, method_get, do_request, send,
  record_result,
}
use garage_storage_controlle.Garage.Keys.{get_key, read_key}
use garage_storage_controlle.Garage.Permissions.{
  permission_client, ownership_verifier, set_permissions, get_permissions, allow_bucket_key,
  deny_bucket_key,
}
use garage_storage_controlle.Garage.Grant.{union, minus, PermissionLaws}
use garage_storage_controlle.Garage.Readback.{
  InfoLaws, EachSays, lists, get_permissions-set_permissions,
}

-- the permissions as a text of three letters
abbrev encode : S3.Permissions → String
encode p =
    (if p.owner then "o" else "-")
    ++ ((if p.read then "r" else "-") ++ (if p.write then "w" else "-"))

abbrev one_of : String → List String → Bool
one_of t [] = false
one_of t (s ∷ ss) = str_eq t s || one_of t ss

abbrev decode : String → S3.Permissions
decode t = record {
  owner = one_of t ("orw" ∷ "or-" ∷ "o-w" ∷ "o--" ∷ []);
  read = one_of t ("orw" ∷ "or-" ∷ "-rw" ∷ "-r-" ∷ []);
  write = one_of t ("orw" ∷ "o-w" ∷ "-rw" ∷ "--w" ∷ []);
}

decode-encode :
    (o r w : Bool)
    → decode (encode (record { owner = o; read = r; write = w }))
      ≡ record { owner = o; read = r; write = w }
decode-encode true true true = refl
decode-encode true true false = refl
decode-encode true false true = refl
decode-encode true false false = refl
decode-encode false true true = refl
decode-encode false true false = refl
decode-encode false false true = refl
decode-encode false false false = refl

-- the information of the key, with its one bucket
abbrev key_with : S3.Permissions → AccessKeyResponse
key_with p = record {
  access_key_id = "GK1";
  name = "team-reader";
  secret_access_key = "";
  buckets =
      record {
        id = "b1";
        global_aliases = [];
        permissions = record { owner = p.owner; read = p.read; write = p.write };
      }
      ∷ [];
}

abbrev answer : Request → Exec S3.Permissions Response
answer req p = elim req.body [
  | bucket_key b ↦
      let asked : S3.Permissions = record {
        owner = b.permissions.owner;
        read = b.permissions.read;
        write = b.permissions.write;
      } in
      (
        ok (record { status_code = 200; body = "" }),
        if str_eq req.url "http://garage/v2/AllowBucketKey" then union p asked else minus p asked,
      )
  | _ ↦ (ok (record { status_code = 200; body = encode p }), p)
]

abbrev unreadable : Err
unreadable = plain "unexpected end of JSON input"

abbrev old_photos : S3.Bucket
old_photos = record {
  id = "b1";
  global_aliases = "old-photos" ∷ [];
  quotas = record { max_objects = pos 0; max_size = pos 0 };
}

abbrev pub server : AdminApiHttpClient S3.Permissions
server = record {
  http = record {
    round_trip = answer;
    join_path = λ base path. ok (base ++ path);
    parse_url = λ u. ok u;
    decode_bucket = λ _. err unreadable;
    decode_access_key = λ t. ok (key_with (decode t));
    decode_error = λ _. err unreadable;
    decode_token = λ _. err unreadable;
    now = λ w. (pos 0, w);
    since = λ _ w. (pos 0, w);
    decimal = λ _. "400";
    quote = λ t. "\"" ++ (t ++ "\"");
  };
  token = "t";
  base_url = "http://garage";
  metrics = none;
}

pub server_grants : PermissionLaws server "GK1" "b1"
unfolding do_request send record_result
server_grants = record {
  permissions = λ w. w;
  allow_grants = λ p w w' resp h s. sym (ap (λ x. x.1) h);
  deny_revokes = λ p w w' resp h s. sym (ap (λ x. x.1) h);
}

key_answered :
    (w : S3.Permissions) (body : String) (key : AccessKeyResponse)
    → encode w ≡ body
    → server.http.decode_access_key body ≡ ok key
    → key_with w ≡ key
key_answered w body key e d =
    let said : key_with (decode body) ≡ key = ground arith in
    let same : decode body ≡ w = ap decode (sym e) ∙ decode-encode w.owner w.read w.write in
    ap key_with (sym same) ∙ said

EachSays-key_with : (p : S3.Permissions) → EachSays "b1" p (key_with p).buckets
EachSays-key_with p = (λ _. refl, tt)

answered_body :
    (w w' : S3.Permissions) (resp : Response)
    → do_request server method_get "/v2/GetKeyInfo"
        (("id", "GK1") ∷ ("showSecretKey", "false") ∷ [])
        no_body
        w
      ≡ (ok resp, w')
    → encode w ≡ resp.body
unfolding do_request send record_result
answered_body w w' resp h = ground arith

server_informs : InfoLaws server "GK1" "b1" server_grants.permissions
unfolding do_request send record_result server_grants
server_informs = record {
  info_keeps = λ w w' resp h. sym (ap (λ x. x.1) h);
  info_says = λ w w' resp key h s d.
      rw (sym (key_answered w resp.body key (answered_body w w' resp h) d)) (EachSays-key_with w);
  info_lists = λ w w' resp key h s d l.
      let listed : lists "b1" key.buckets ≡ true =
        ap (λ (k : AccessKeyResponse). lists "b1" k.buckets)
          (sym (key_answered w resp.body key (answered_body w w' resp h) d)) in
      cc;
}

abbrev owner_only : S3.Permissions
owner_only = record { owner = true; read = false; write = false }

abbrev read_write : S3.Permissions
read_write = record { owner = false; read = true; write = true }

get_permissions-set_permissions_example :
    (set_permissions server "GK1" "b1" read_write owner_only).1 ≡ read_write
unfolding set_permissions deny_bucket_key do_request send allow_bucket_key record_result
    get_permissions get_key read_key
get_permissions-set_permissions_example =
    get_permissions-set_permissions server "GK1" "b1" server_grants server_informs read_write
      read_write owner_only read_write read_write refl refl refl

-- a reconciler of buckets that asks the server who owns one
abbrev importing : BucketReconciler S3.Permissions
importing =
    new_bucket_reconciler (client_over (λ w. w))
      (record {
        create = λ _ w. (err unreadable, w);
        get = λ _ w. (ok old_photos, w);
        update = λ _ _ w. (ok tt, w);
      })
      "http://s3" (ownership_verifier server) (record { eventf = λ _ _ _ _ w. w })

abbrev import_spec : ExistingBucketSpec
import_spec = record { name = "old-photos"; owner_key_secret = "reader-credentials" }

abbrev asked_by_owner : Run Bucket S3.Permissions
asked_by_owner = record { object = photos; world = owner_only }

resolve_existing_bucket_verified_example :
    ((w : S3.Permissions) × (importing.bucket.get "old-photos" owner_only ≡ (ok old_photos, w)))
    × (asked_by_owner.world.owner ≡ true)
    × ("old-photos" ≡ import_spec.name)
    × (asked_by_owner.object ≡ photos)
unfolding server_grants label_value resolve_existing_bucket get_permissions get_key read_key
resolve_existing_bucket_verified_example =
    resolve_existing_bucket_verified lib server importing import_spec old_photos "old-photos"
      asked_by_owner asked_by_owner credentials owner_only server_grants.permissions server_informs
      refl refl refl refl

-- a policy that is deleted, with the permissions that it gave
abbrev deleting : AccessPolicyReconciler S3.Permissions
deleting =
    new_access_policy_reconciler (client_over (λ w. w)) (permission_client server)
      (record { eventf = λ _ _ _ _ w. w })

finalize_revokes_example :
    ((finalize lib deleting (record { object = granted_policy; world = read_write })).1.world
      ≡ no_permissions)
    ⊎ IsGone lib
        (client_over (λ w. w))
        server
        (record { eventf = λ _ _ _ _ w. w })
        granted_policy
        server_grants
        read_write
unfolding server_grants finalize set_permissions deny_bucket_key
finalize_revokes_example =
    finalize_revokes lib (client_over (λ w. w)) server (record { eventf = λ _ _ _ _ w. w })
      granted_policy server_grants refl (refl, refl) (λ q v v' x h. sym (ap (λ y. y.1) h))
      read_write (finalize lib deleting (record { object = granted_policy; world = read_write })).1
      no_requeue refl
