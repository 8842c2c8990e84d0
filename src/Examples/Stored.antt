-- ===== src/Examples/Stored.antt =====
-- Two runs of the policy reconciler, on a policy as a user has created it, against an API server
-- that stores one policy and the Garage server of Examples.Admin.
use garage_storage_controlle.Prelude.{
  String, ◌≡◌, refl, sym, ap, [], true, false, eq_refl, arith, none,
}
use garage_storage_controlle.S3
use garage_storage_controlle.Exec.{Result, Exec, ok, no_requeue}
use garage_storage_controlle.Api.{AccessPolicy}
use garage_storage_controlle.Kube.{Client, EventRecorder}
use garage_storage_controlle.Kube.Laws.{FinalizerLaws}
use garage_storage_controlle.Garage.Http.{
  AdminApiHttpClient, Request, Response, do_request, send, record_result,
}
use garage_storage_controlle.Garage.Grant.{PermissionLaws}
use garage_storage_controlle.Garage.Permissions.{
  permission_client, set_permissions, allow_bucket_key, deny_bucket_key,
}
use garage_storage_controlle.Policy.Types.{ensure_labels, new_access_policy_reconciler}
use garage_storage_controlle.Policy.Reconciler.{reconcile}
use garage_storage_controlle.Policy.Labels.{request_of}
use garage_storage_controlle.Policy.Converged.{IsEnforced}
use garage_storage_controlle.Policy.Stored.{with_metadata, reconcile_converges}
use garage_storage_controlle.Examples.Fixtures.{
  lib, condition_laws, client_over, policy, photos, reader,
}
use garage_storage_controlle.Examples.Admin.{answer, transport, owner_only}

abbrev World : Type 0
World = AccessPolicy × S3.Permissions

abbrev answer_in : Request → Exec World Response
answer_in req w = let (x, p) = answer req w.1 in (x, (w.0, p))

abbrev admin : AdminApiHttpClient World
admin = record {
  http = record {
    round_trip = answer_in;
    join_path = transport.join_path;
    parse_url = transport.parse_url;
    decode_bucket = transport.decode_bucket;
    decode_access_key = transport.decode_access_key;
    decode_error = transport.decode_error;
    decode_token = transport.decode_token;
    now = λ w. ((transport.now owner_only).0, w);
    since = λ _ w. ((transport.now owner_only).0, w);
    decimal = transport.decimal;
    quote = transport.quote;
  };
  token = "t";
  base_url = "http://garage";
  metrics = none;
}

abbrev api : Client World
api = record (client_over (λ w. w)) {
  get_access_policy = λ _ w. (ok w.0, w);
  update_access_policy = λ q w. (ok tt, (q, w.1));
}

granted_in : (key_id bucket_id : String) → PermissionLaws admin key_id bucket_id
unfolding do_request send record_result
granted_in key_id bucket_id = record {
  permissions = λ w. w.1;
  allow_grants = λ p w w' resp h s. sym (ap (λ x. x.1.1) h);
  deny_revokes = λ p w w' resp h s. sym (ap (λ x. x.1.1) h);
}

abbrev silent : EventRecorder World
silent = record { eventf = λ _ _ _ _ w. w }

status_kept :
    (key_id bucket_id : String) (q : AccessPolicy) (v v' : World) (x : Result (Unit {0}))
    → api.patch_access_policy_status q v ≡ (x, v')
    → (granted_in key_id bucket_id).permissions v' ≡ (granted_in key_id bucket_id).permissions v
unfolding granted_in
status_kept key_id bucket_id q v v' x h = sym (ap (λ y. y.1.1) h)

finalizer_laws : FinalizerLaws lib
finalizer_laws = record {
  contains-add = λ m f. ground (arith, eq_refl f);
  added = λ m f h. ground (arith, h);
  labels-add = λ m f. ground arith;
  deletion-add = λ m f. ground arith;
}

-- no labels and no finalizer
abbrev bare_policy : AccessPolicy
bare_policy = record policy { meta = record policy.meta { labels = []; finalizers = [] } }

abbrev before : World
before = (bare_policy, owner_only)

abbrev after : World
after = (with_metadata lib bare_policy, owner_only)

reconcile_converges_example :
    let second =
      reconcile lib
        (new_access_policy_reconciler api (permission_client admin) silent)
        (request_of bare_policy)
        after in
    (reconcile lib
        (new_access_policy_reconciler api (permission_client admin) silent)
        (request_of bare_policy)
        before
      ≡ (ok no_requeue, after))
    × (second.0 ≡ ok no_requeue)
    × ((with_metadata lib bare_policy).spec ≡ bare_policy.spec)
    × IsEnforced condition_laws api admin silent granted_in
        (λ q v. refl)
        status_kept
        (with_metadata lib bare_policy)
        after
        second.1
unfolding ensure_labels set_permissions deny_bucket_key do_request send allow_bucket_key
    record_result
reconcile_converges_example =
    reconcile_converges condition_laws finalizer_laws api admin silent granted_in (λ q v. refl)
      status_kept bare_policy before before after refl refl refl refl refl photos reader after after
      (with_metadata lib bare_policy, record { owner = false; read = true; write = false }) refl
      refl refl refl refl
