-- ===== src/Examples/Calls.antt =====
-- Runs of the three reconcilers whose calls are counted: the world is the count.
use garage_storage_controlle.Prelude.{ℕ, suc, ◌+◌, ◌≤◌, arith, [], ◌∷◌, pos}
use garage_storage_controlle.Exec.{ok}
use garage_storage_controlle.S3.{no_permissions}
use garage_storage_controlle.Kube.{Client, ConfigMap, EventRecorder}
use garage_storage_controlle.AccessKey.Types.{AccessKeyReconciler, new_meta}
use garage_storage_controlle.AccessKey.Reconciler as AccessKeyReconciler
use garage_storage_controlle.AccessKey.Calls as AccessKeyCalls
use garage_storage_controlle.AccessKey.Calls.{reconcile_access_key_calls}
use garage_storage_controlle.Policy.Types.{AccessPolicyReconciler}
use garage_storage_controlle.Policy.Reconciler as PolicyReconciler
use garage_storage_controlle.Policy.Calls as PolicyCalls
use garage_storage_controlle.Policy.Calls.{reconcile_policy_calls}
use garage_storage_controlle.Bucket.Types.{BucketReconciler, initial_requeue_interval}
use garage_storage_controlle.Bucket.Reconciler as BucketReconciler
use garage_storage_controlle.Bucket.Calls as BucketCalls
use garage_storage_controlle.Bucket.Calls.{ListsAtMost, reconcile_bucket_calls}
use garage_storage_controlle.Examples.Fixtures.{lib, client}

abbrev quiet : EventRecorder ℕ
quiet = record { eventf = λ _ _ _ _ w. w }

abbrev stale : ConfigMap
stale = record { meta = new_meta "old" "team" []; contents = [] }

abbrev listing : Client ℕ
listing = record client { list_config_maps = λ _ _ _ w. (ok (stale ∷ stale ∷ []), suc w) }

abbrev policies : AccessPolicyReconciler ℕ
policies = record {
  client = client;
  admin_client = record { set_permissions = λ _ _ _ w. (ok tt, suc w) };
  recorder = quiet;
}

policies-IsClock : PolicyCalls.IsClock policies (λ w. w)
policies-IsClock = record {
  get_access_policy = λ n w. omega arith;
  get_bucket = λ n w. omega arith;
  get_access_key = λ n w. omega arith;
  update_access_policy = λ p w. omega arith;
  patch_access_policy_status = λ p w. omega arith;
  set_permissions = λ k b p w. omega arith;
  eventf = λ o t r m w. omega arith;
}

reconcile_policy_calls_example :
    (PolicyReconciler.reconcile lib policies (record { namespace = "team"; name = "p" }) 0).1
    ≤ 6 + 0
reconcile_policy_calls_example =
    reconcile_policy_calls lib policies (λ w. w) policies-IsClock
      (record { namespace = "team"; name = "p" }) 0

abbrev keys : AccessKeyReconciler ℕ
keys = record {
  client = client;
  access_key = record {
    create = λ name w. (ok (record { id = "GK1"; secret = "s3cret"; name = name }), suc w);
    get = λ id w. (ok (record { id = id; secret = "s3cret"; name = "reader" }), suc w);
    lookup = λ name w. (ok (record { id = "GK1"; secret = "s3cret"; name = name }), suc w);
    delete = λ _ w. (ok tt, suc w);
  };
  recorder = quiet;
}

keys-IsClock : AccessKeyCalls.IsClock keys (λ w. w)
keys-IsClock = record {
  get_access_key = λ n w. omega arith;
  patch_access_key = λ k l w. omega arith;
  update_access_key = λ k w. omega arith;
  update_access_key_status = λ k w. omega arith;
  get_secret = λ n w. omega arith;
  create_or_update_secret = λ n f w. omega arith;
  delete_secret = λ n w. omega arith;
  create = λ n w. omega arith;
  get = λ n w. omega arith;
  lookup = λ n w. omega arith;
  delete = λ n w. omega arith;
  eventf = λ o t r m w. omega arith;
}

reconcile_access_key_calls_example :
    (AccessKeyReconciler.reconcile lib keys (record { namespace = "team"; name = "k" }) 0).1 ≤ 9 + 0
reconcile_access_key_calls_example =
    reconcile_access_key_calls lib keys (λ w. w) keys-IsClock
      (record { namespace = "team"; name = "k" }) 0

abbrev buckets : BucketReconciler ℕ
buckets = record {
  client = listing;
  bucket = record {
    create = λ alias w. (
      ok (record {
        id = "b1";
        global_aliases = "photos" ∷ [];
        quotas = record { max_size = pos 0; max_objects = pos 0 };
      }),
      suc w,
    );
    get = λ alias w. (
      ok (record {
        id = "b1";
        global_aliases = "photos" ∷ [];
        quotas = record { max_size = pos 0; max_objects = pos 0 };
      }),
      suc w,
    );
    update = λ _ _ w. (ok tt, suc w);
  };
  s3_api_endpoint = "http://garage:3900";
  ownership = record { get_permissions = λ _ _ w. (ok no_permissions, suc w) };
  recorder = quiet;
  base_requeue_interval = initial_requeue_interval;
}

buckets-IsClock : BucketCalls.IsClock buckets (λ w. w)
buckets-IsClock = record {
  get_bucket = λ n w. omega arith;
  patch_bucket_status = λ b w. omega arith;
  list_config_maps = λ n l v w. omega arith;
  create_or_update_config_map = λ c f w. omega arith;
  delete_config_map = λ c w. omega arith;
  get_secret = λ n w. omega arith;
  time_since = λ t w. omega arith;
  create = λ a w. omega arith;
  get = λ a w. omega arith;
  update = λ i q w. omega arith;
  get_permissions = λ k b w. omega arith;
  eventf = λ o t r m w. omega arith;
}

buckets-ListsAtMost : ListsAtMost buckets 2
unfolding ListsAtMost
buckets-ListsAtMost namespace label value w cms e = ground arith

reconcile_bucket_calls_example :
    (BucketReconciler.reconcile lib buckets (record { namespace = "team"; name = "photos" }) 0).1
    ≤ 8 + 2 + 0
reconcile_bucket_calls_example =
    reconcile_bucket_calls lib buckets (λ w. w) buckets-IsClock 2 buckets-ListsAtMost
      (record { namespace = "team"; name = "photos" }) 0
